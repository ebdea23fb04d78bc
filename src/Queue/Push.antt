-- ===== src/Queue/Push.antt =====
-- A new queue, and `queue_push`.
use opo_c.Prelude.{
  ℕ, suc, ◌+◌, ◌<◌, ◌≡◌, ◌≢◌, sym, ◌∙◌, ◌==◌, ◌&&◌, not, none, some, List, [], ◌∷◌, ◌++◌, true,
  false, length, get_or, get_elem?, set, arith, length-set, length-append, get_or-set_self,
  get_or-set_ne, get_elem?-append_left, get_elem?-append_length, length-replicate, get_or-replicate,
  inl, inr, Bool-cases,
}
use opo_c.Outcome.{done}
use opo_c.Queue.{Queue, queue_init, queue_push, notify, put, waiting}
use native.Mathlib.Decide.{dec_lt}
use opo_c.Queue.Ring.{place-lt, place-ne, place-zero, place-round, next_slot-place}
use opo_c.Queue.Holds.{Holds, place}

-- A new queue holds nothing.
pub queue_init-Holds : (A : Type 0) (qsize : ℕ) → Holds (queue_init {A = A} qsize) []
unfolding queue_init
queue_init-Holds A qsize = record {
  length_q = length-replicate _ none;
  min_size = ground arith;
  head_in = ground arith;
  fits = ground arith;
  tail_at = ground arith;
  head_free = get_or-replicate _ 0 none;
  items = λ i h. absurd (omega arith);
}

module _ {A : Type 0} where
  pub put-Holds :
      (q : Queue A) (xs : List A) (x : A)
      → Holds q xs
      → length xs + 1 < q.size
      → Holds (put q x) (xs ++ (x ∷ []))
  unfolding put
  put-Holds q xs x h r = record {
    length_q = length-set q.q q.tail (some x) ∙ h.length_q;
    min_size = h.min_size;
    head_in = h.head_in;
    fits = omega (arith, e);
    tail_at = rw (e, h.tail_at) (next_slot-place q.size q.head (length xs + 1) h.head_in r);
    head_free = get_or-set_ne q.q q.tail q.head (some x) none away ∙ h.head_free;
    items = λ i p. elim (dec_lt i (length xs)) [
      | yes l ↦
          get_or-set_ne q.q q.tail _ (some x) none (apart i l)
          ∙ h.items i l
          ∙ sym (get_elem?-append_left xs (x ∷ []) i l)
      | no l ↦ last i (omega (arith, e))
    ];
  }
    where
      e : length (xs ++ (x ∷ [])) ≡ length xs + 1
      e = omega (arith, length-append xs (x ∷ []))

      away : q.tail ≢ q.head
      away p =
          place-ne q.size q.head 0 (length xs + 1) h.head_in (omega arith) (omega arith)
            (omega arith) (place-zero q.size q.head h.head_in ∙ sym p ∙ h.tail_at)

      apart : (i : ℕ) → i < length xs → q.tail ≢ place q.size q.head (i + 1)
      apart i l p =
          place-ne q.size q.head (i + 1) (length xs + 1) h.head_in (omega arith) (omega arith)
            (omega arith) (sym p ∙ h.tail_at)

      inside : q.tail < length q.q
      inside = omega (
        arith,
        h.tail_at,
        h.length_q,
        place-lt q.size q.head (length xs + 1) h.head_in (omega arith),
      )

      last :
          (i : ℕ)
          → i ≡ length xs
          → get_or (set q.q q.tail (some x)) (place q.size q.head (i + 1)) none
            ≡ get_elem? (xs ++ (x ∷ [])) i
      last i p =
          rw (p, ← h.tail_at)
            (get_or-set_self q.q q.tail (some x) none inside
              ∙ sym (get_elem?-append_length xs [] x))

  pub notify-Holds : (q : Queue A) (xs : List A) → Holds q xs → Holds (notify q) xs
  unfolding notify
  notify-Holds q xs h = elim (Bool-cases (not (q.wsock == 0) && (q.wait_state == waiting))) [
    | inl e ↦ rw e (record {
      length_q = h.length_q;
      min_size = h.min_size;
      head_in = h.head_in;
      fits = h.fits;
      tail_at = h.tail_at;
      head_free = h.head_free;
      items = h.items;
    })
    | inr e ↦ rw e h
  ]

  notify-frame : (q : Queue A) → ((notify q).size ≡ q.size) × ((notify q).pop_lock ≡ q.pop_lock)
  unfolding notify
  notify-frame q = ground arith

  -- A push into a queue that is not full appends the item without a nap, and leaves the size and the
  -- lock.
  pub queue_push-Holds :
      (naps : ℕ) (world : ℕ → Queue A → Queue A) (q : Queue A) (xs : List A) (x : A)
      → Holds q xs
      → length xs + 1 < q.size
      → (q' : Queue A) × (queue_push (suc naps) world q x ≡ done q')
        × Holds q' (xs ++ (x ∷ []))
        × (q'.size ≡ q.size)
        × (q'.pop_lock ≡ q.pop_lock)
  unfolding queue_push
  queue_push-Holds naps world q xs x h r =
      (notify (put q x), rw room, notify-Holds _ _ (put-Holds q xs x h r), frame.0, frame.1)
    where
      frame : ((notify (put q x)).size ≡ q.size) × ((notify (put q x)).pop_lock ≡ q.pop_lock)
      frame = unfold put in notify-frame (put q x)

      room : (q.head == q.tail) ≡ false
      room = ground (
        arith,
        h.tail_at,
        place-zero q.size q.head h.head_in,
        place-ne q.size q.head 0 (length xs + 1) h.head_in (omega arith) (omega arith)
            (omega arith),
      )

  -- A push into a full queue, one that holds `size - 1` items, naps and tries again.
  pub queue_push-full :
      (naps : ℕ) (world : ℕ → Queue A → Queue A) (q : Queue A) (xs : List A) (x : A)
      → Holds q xs
      → length xs + 1 ≡ q.size
      → queue_push (suc naps) world q x ≡ queue_push naps (λ n. world (suc n)) (world 0 q) x
  unfolding queue_push
  queue_push-full naps world q xs x h r =
      let full : (q.head == q.tail) ≡ true =
        ground (arith, h.tail_at, place-round q.size q.head h.head_in) in
      rw full
