-- ===== src/Client/Accept.antt =====
-- `process_msg` on a response: for the query on deck the ring moves on by one slot.
use opo_c.Prelude.{
  ℕ, ◌+◌, ◌<◌, ◌≡◌, ◌≢◌, ◌==◌, ◌^◌, refl, sym, ap, ◌∙◌, true, Bool-cases, inl, inr, some, List, [],
  ◌∷◌, ◌++◌, length, get_elem?, set, length-set, append_assoc, arith, get_elem?-append_length,
}
use opo_c.Bytes.{Bytes, fill_uint64}
use opo_c.Bytes.RoundTrip.{read-fill_uint64}
use opo_c.Outcome.{done}
use opo_c.Builder.{Heap}
use opo_c.Queue.{next_slot}
use opo_c.Queue.Holds.{place}
use opo_c.Queue.Ring.{next_slot-place}
use opo_c.Msg.{opo_msg_id}
use opo_c.Client.{ready, Query, Client, wake_ready}
use opo_c.Client.Receive.{advance_deck, put_slot, process_msg}
use opo_c.Client.Ring.{
  Ring, AllIn-append, length-append_queries, written_self, written_ne, get_elem?-middle,
  wake_ready-Ring, slot_lem,
}

pub opo_msg_id-fill :
    (id : ℕ) (body : Bytes) → id < 2 ^ 64 → opo_msg_id (fill_uint64 id ++ body) ≡ done id
unfolding opo_msg_id
opo_msg_id-fill id body h = rw (read-fill_uint64 id body h) refl

module _ {K : Type 0} where
  -- a query that has its response
  abbrev pub answered : Bytes → Query K → Query K
  answered msg y = record y { resp = some msg; state = ready }

  -- the client after the response for the query on deck, before it wakes a thread
  abbrev pub accepted : Bytes → Query K → Client K → Client K
  accepted msg y c = advance_deck (put_slot c.on_deck (answered msg y) c)

  -- the first query that waits is on deck
  pub on_deck-cons :
      (c : Client K) (rs ss : List (Query K)) (y : Query K)
      → Ring c rs (y ∷ ss)
      → get_elem? c.q c.on_deck ≡ some y
  on_deck-cons c rs ss y h =
      ap (get_elem? c.q) h.deck_at
      ∙ h.slots (length rs) (omega arith)
      ∙ get_elem?-append_length rs ss y

  pub accepted-Ring :
      (c : Client K) (rs ss : List (Query K)) (y : Query K) (msg : Bytes)
      → Ring c rs (y ∷ ss)
      → Ring (accepted msg y c) (rs ++ (answered msg y ∷ [])) ss
  accepted-Ring c rs ss y msg h = record {
    length_q = length-set c.q c.on_deck _ ∙ h.length_q;
    head_in = h.head_in;
    fits = omega (arith, e, h.fits);
    deck_at =
        ap (next_slot c.pending_max) h.deck_at
        ∙ next_slot-place c.pending_max c.head n h.head_in r
        ∙ ap (place c.pending_max c.head) (sym e);
    tail_at = h.tail_at ∙ ap (place c.pending_max c.head) (omega (arith, e));
    slots = λ i p. elim (Bool-cases (i == n)) [
      | inl q ↦ here i (ground arith)
      | inr q ↦
          let d : i ≢ n = ground arith in
          at_deck i
          ∙ written_ne c h.length_q h.head_in n i a r (omega (arith, e, h.fits)) (λ w. d (sym w))
          ∙ h.slots i (omega (arith, e))
          ∙ get_elem?-middle rs ss y a i d
          ∙ ap (λ l. get_elem? l i) (sym (append_assoc rs (a ∷ []) ss))
    ];
    free = λ i l p.
        let (x, s, b, d) = h.free i (omega (arith, e)) p in
        (
          x,
          at_deck i ∙ written_ne c h.length_q h.head_in n i a r p (λ q. omega (arith, e)) ∙ s,
          b,
          d,
        );
    all_ready = AllIn-append ready rs _ h.all_ready (refl, tt);
    all_sent = h.all_sent.1;
    unlocked = h.unlocked;
  }
    where
      a : Query K
      a = answered msg y

      n : ℕ
      n = length rs

      e : length (rs ++ (a ∷ [])) ≡ n + 1
      e = omega (arith, length-append_queries rs (a ∷ []))

      r : n < c.pending_max
      r = omega (arith, h.fits)

      at_deck :
          (i : ℕ)
          → get_elem? (set c.q c.on_deck a) (place c.pending_max c.head i)
            ≡ get_elem? (set c.q (place c.pending_max c.head n) a) (place c.pending_max c.head i)
      at_deck i = ap (λ t. get_elem? (set c.q t a) (place c.pending_max c.head i)) h.deck_at

      here :
          (i : ℕ)
          → i ≡ n
          → get_elem? (set c.q c.on_deck a) (place c.pending_max c.head i)
            ≡ get_elem? ((rs ++ (a ∷ [])) ++ ss) i
      here i q =
          at_deck i
          ∙ ap
              (λ j.
                get_elem? (set c.q (place c.pending_max c.head n) a) (place c.pending_max c.head j))
              q
          ∙ written_self c h.length_q h.head_in n a r
          ∙ sym (get_elem?-append_length rs ss a)
          ∙ ap (get_elem? (rs ++ (a ∷ ss))) (sym q)
          ∙ ap (λ l. get_elem? l i) (sym (append_assoc rs (a ∷ []) ss))

  -- A response for the query on deck, the oldest that waits, gives that query its response and makes
  -- it the last of those that are ready; nothing else changes. The heap and the array for lost
  -- messages are not used.
  pub process_msg-on_deck :
      (heap : Heap) (lost_msg : Bytes) (c : Client K) (rs ss : List (Query K)) (y : Query K)
      (body : Bytes)
      → Ring c rs (y ∷ ss)
      → y.id < 2 ^ 64
      → let msg = fill_uint64 y.id ++ body in
        (process_msg heap lost_msg msg c ≡ done (wake_ready (accepted msg y c)))
        × Ring (wake_ready (accepted msg y c)) (rs ++ (answered msg y ∷ [])) ss
  unfolding process_msg
  process_msg-on_deck heap lost_msg c rs ss y body h r = (
    rw (opo_msg_id-fill y.id body r) (
        rw (slot_lem c c.on_deck y (on_deck-cons c rs ss y h))
          (rw (self y.id) (rw h.all_sent.0 refl))),
    wake_ready-Ring _ _ _ (accepted-Ring c rs ss y _ h),
  )
    where
      self : (n : ℕ) → (n == n) ≡ true
      self n = ground arith
