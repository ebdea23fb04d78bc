-- ===== src/Queue/Pop.antt =====
-- `queue_pop`, `queue_empty` and `queue_count`.
use native.Mathlib.Numerals.{add-one}
use opo_c.Prelude.{
  ℕ, zero, suc, ◌+◌, ◌<◌, ◌≡◌, ◌≢◌, ◌↔◌, refl, ap, ◌∙◌, ◌==◌, if◌then◌else◌, Option, none, some,
  List, [], ◌∷◌, Bool, true, false, length, get_or, arith, length-set, get_or-set_self,
  get_or-set_ne,
}
use opo_c.Outcome.{done}
use opo_c.Queue.{
  Queue, queue_pop, queue_empty, queue_count, next_slot, pop_locked, pop_wait, take_slot,
}
use opo_c.Queue.Ring.{place-lt, place-ne, place-next_slot, count-place}
use opo_c.Queue.Holds.{Holds, place}

module _ {A : Type 0} where
  -- the slot after the head
  next-eq_place :
      (q : Queue A) {xs : List A} → Holds q xs → next_slot q.size q.head ≡ place q.size q.head 1
  next-eq_place q h = ground arith

  Holds-lock :
      (q : Queue A) (xs : List A) (b : Bool) → Holds q xs → Holds (record q { pop_lock = b }) xs
  Holds-lock q xs b h = record {
    length_q = h.length_q;
    min_size = h.min_size;
    head_in = h.head_in;
    fits = h.fits;
    tail_at = h.tail_at;
    head_free = h.head_free;
    items = h.items;
  }

  take_slot-item :
      (q : Queue A) (x : A) (xs : List A)
      → Holds q (x ∷ xs)
      → (take_slot (next_slot q.size q.head) q).0 ≡ some x
  unfolding take_slot
  take_slot-item q x xs h = rw (next-eq_place q h) (h.items 0 (omega arith))

  take_slot-Holds :
      (q : Queue A) (x : A) (xs : List A)
      → Holds q (x ∷ xs)
      → Holds (take_slot (next_slot q.size q.head) q).1 xs
  unfolding take_slot
  take_slot-Holds q x xs h = record {
    length_q = length-set q.q _ none ∙ h.length_q;
    min_size = h.min_size;
    head_in = rw (next-eq_place q h) (place-lt q.size q.head 1 h.head_in (omega arith));
    fits = omega arith;
    tail_at =
        rw (place-next_slot q.size q.head (length xs + 1) h.head_in (omega arith))
          (h.tail_at ∙ ap (place q.size q.head) (omega arith));
    head_free =
        get_or-set_self q.q _ none none (
          rw (next-eq_place q h) (omega (arith, place-lt q.size q.head 1 h.head_in (omega arith))));
    items = λ i p. rw (place-next_slot q.size q.head (i + 1) h.head_in (omega arith)) (
        get_or-set_ne q.q (next_slot q.size q.head) (place q.size q.head (i + 1 + 1)) none none
          (apart i p)
        ∙ (h.items (i + 1) (omega arith) ∙ rw add-one));
  }
    where
      apart : (i : ℕ) → i < length xs → next_slot q.size q.head ≢ place q.size q.head (i + 1 + 1)
      apart i p =
          rw (next-eq_place q h) (
            place-ne q.size q.head 1 (i + 1 + 1) h.head_in (omega arith) (omega arith)
              (omega arith))

  more :
      (q : Queue A) (x : A) (xs : List A)
      → Holds q (x ∷ xs)
      → (q.tail == next_slot q.size q.head) ≡ false
  more q x xs h = ground (
    arith,
    next-eq_place q h,
    h.tail_at,
    place-ne q.size q.head 1 (suc (length xs) + 1) h.head_in (omega arith) (omega arith)
        (omega arith),
  )

  pop_wait-item :
      (cnt : ℕ) (world : ℕ → Queue A → Queue A) (q : Queue A) (x : A) (xs : List A)
      → Holds q (x ∷ xs)
      → pop_wait cnt world (next_slot q.size q.head) q ≡ take_slot (next_slot q.size q.head) q
  unfolding pop_wait
  pop_wait-item zero world q x xs h = rw (more q x xs h)
  pop_wait-item (suc cnt) world q x xs h = rw (more q x xs h)

  pop_locked-free :
      (cnt : ℕ) (world : ℕ → Queue A → Queue A) (q : Queue A)
      → get_or q.q q.head none ≡ none
      → pop_locked cnt world q
        ≡ pop_wait cnt world (next_slot q.size q.head) (record q { pop_lock = true })
  unfolding pop_locked
  pop_locked-free cnt world q e = rw (e, pop_locked)

  queue_pop-free :
      (naps cnt : ℕ) (world : ℕ → Queue A → Queue A) (q : Queue A)
      → q.pop_lock ≡ false
      → get_or q.q q.head none ≡ none
      → queue_pop (suc naps) cnt world q
        ≡ done (pop_wait cnt world (next_slot q.size q.head) (record q { pop_lock = true }))
  unfolding queue_pop
  queue_pop-free naps cnt world q free e = simp free (ap done (pop_locked-free cnt world q e))

  -- Where no lock is held and there is an item, a pop answers the oldest without a nap and leaves
  -- the others and the lock free.
  pub queue_pop-cons :
      (naps cnt : ℕ) (world : ℕ → Queue A → Queue A) (q : Queue A) (x : A) (xs : List A)
      → Holds q (x ∷ xs)
      → q.pop_lock ≡ false
      → (q' : Queue A) × (queue_pop (suc naps) cnt world q ≡ done (some x, q'))
        × Holds q' xs
        × (q'.pop_lock ≡ false)
        × (q'.size ≡ q.size)
  queue_pop-cons naps cnt world q x xs h free =
      let locked = record q { pop_lock = true } in
      let h' = Holds-lock q (x ∷ xs) true h in
      let next = next_slot q.size q.head in
      (
        (take_slot next locked).1,
        rw
            (
              queue_pop-free naps cnt world q free h.head_free,
              pop_wait-item cnt world locked x xs h',
            )
            (ap done (
              ap (λ (o : Option A). (o, (take_slot next locked).1))
                (take_slot-item locked x xs h'))),
        take_slot-Holds locked x xs h',
        unfold take_slot in refl,
        unfold take_slot in refl,
      )

  empty_tail : (q : Queue A) → Holds q [] → (q.tail == next_slot q.size q.head) ≡ true
  empty_tail q h = ground (arith, next-eq_place q h, h.tail_at)

  pop_wait-nil :
      (cnt : ℕ) (world : ℕ → Queue A → Queue A) (q : Queue A)
      → Holds q []
      → ((n : ℕ) (r : Queue A) → world n r ≡ r)
      → pop_wait cnt world (next_slot q.size q.head) q ≡ (none, record q { pop_lock = false })
  unfolding pop_wait
  pop_wait-nil zero world q h idle = rw (empty_tail q h)
  pop_wait-nil (suc cnt) world q h idle =
      rw (empty_tail q h, idle 0 q) (pop_wait-nil cnt (λ n. world (suc n)) q h (λ n. idle (suc n)))

  -- Where no lock is held and no other thread acts, a pop of an empty queue ends after its timeout
  -- with NULL, and leaves the queue empty and the lock free.
  pub queue_pop-nil :
      (naps cnt : ℕ) (world : ℕ → Queue A → Queue A) (q : Queue A)
      → Holds q []
      → q.pop_lock ≡ false
      → ((n : ℕ) (r : Queue A) → world n r ≡ r)
      → (q' : Queue A) × (queue_pop (suc naps) cnt world q ≡ done (none, q'))
        × Holds q' []
        × (q'.pop_lock ≡ false)
        × (q'.size ≡ q.size)
  queue_pop-nil naps cnt world q h free idle = (
    record q { pop_lock = false },
    rw (
      queue_pop-free naps cnt world q free h.head_free,
      pop_wait-nil cnt world (record q { pop_lock = true }) (Holds-lock q [] true h) idle,
    ),
    Holds-lock q [] false h,
    refl,
    refl,
  )

  -- `queue_empty` says whether there are no items.
  queue_empty_iff : (q : Queue A) (xs : List A) → Holds q xs → (queue_empty q ≡ true) ↔ (xs ≡ [])
  unfolding queue_empty
  queue_empty_iff q [] h = rw (h.head_free, queue_empty) (λ e. refl, λ e. empty_tail q h)
  queue_empty_iff q (x ∷ xs) h = rw (h.head_free, queue_empty, more q x xs h) (λ e. cc, λ e. cc)

  -- `queue_count` is one more than the number of items, but 0 for a full queue.
  pub queue_count-Holds :
      (q : Queue A) (xs : List A)
      → Holds q xs
      → queue_count q ≡ (if length xs + 1 == q.size then 0 else length xs + 1)
  unfolding queue_count
  queue_count-Holds q xs h =
      rw h.tail_at (count-place q.size q.head (length xs + 1) h.head_in (omega arith))
