-- ===== src/Client/Enqueue.antt =====
-- `opo_client_query` puts the query behind those that wait, and `take_head` takes the first that has
-- its response.
use opo_c.Prelude.{
  ℕ, ◌+◌, ◌<◌, ◌≡◌, ◌%◌, ◌^◌, refl, sym, ap, ◌∙◌, Option, none, some, List, [], ◌∷◌, ◌++◌, length,
  get_elem?, set, length-set, append_assoc, arith, get_elem?-append_left, get_elem?-append_length,
}
use native.Mathlib.Decide.{dec_lt}
use opo_c.Outcome.{done}
use opo_c.Queue.{next_slot}
use opo_c.Queue.Holds.{place}
use opo_c.Queue.Ring.{next_slot-place}
use opo_c.Client.{sent, Query, Client, slot}
use opo_c.Client.Send.{enqueue}
use opo_c.Client.Ring.{Ring, AllIn-append, length-append_queries, written_self, written_ne}

module _ {K : Type 0} where
  -- a query that has just been sent
  abbrev pub pending : ℕ → Option K → Query K
  pending id cb = record { id = id; cb = cb; state = sent; resp = none }

  -- the client after `enqueue`
  abbrev pub enqueued : Option K → Client K → Client K
  enqueued cb c = record c {
    q = set c.q c.tail (pending c.next_id cb);
    tail = next_slot c.pending_max c.tail;
    next_id = (c.next_id + 1) % 2 ^ 64;
  }

  pub enqueue_lem :
      (c : Client K) (cb : Option K) (x : Query K)
      → get_elem? c.q c.tail ≡ some x
      → x.resp ≡ none
      → enqueue cb c ≡ done (enqueued cb c)
  unfolding enqueue
  enqueue_lem c cb x e r = rw (slot, e) (rw r refl)

  pub enqueued-Ring :
      (c : Client K) (rs ss : List (Query K)) (cb : Option K)
      → Ring c rs ss
      → length rs + length ss < c.pending_max
      → Ring (enqueued cb c) rs (ss ++ (pending c.next_id cb ∷ []))
  enqueued-Ring c rs ss cb h r = record {
    length_q = length-set c.q c.tail _ ∙ h.length_q;
    head_in = h.head_in;
    fits = omega (arith, e);
    deck_at = h.deck_at;
    tail_at =
        ap (next_slot c.pending_max) h.tail_at
        ∙ next_slot-place c.pending_max c.head n h.head_in r
        ∙ ap (place c.pending_max c.head) (omega (arith, e));
    slots = λ i p. elim (dec_lt i n) [
      | yes l ↦
          at_tail i
          ∙ written_ne c h.length_q h.head_in n i y r (omega arith) (λ q. omega arith)
          ∙ h.slots i l
          ∙ sym (get_elem?-append_left (rs ++ ss) (y ∷ []) i (omega (arith, e')))
          ∙ ap (λ l. get_elem? l i) (append_assoc rs ss (y ∷ []))
      | no l ↦ last i (omega (arith, e))
    ];
    free = λ i l p.
        let (x, a, b, d) = h.free i (omega (arith, e)) p in
        (
          x,
          at_tail i ∙ written_ne c h.length_q h.head_in n i y r p (λ q. omega (arith, e)) ∙ a,
          b,
          d,
        );
    all_ready = h.all_ready;
    all_sent = AllIn-append sent ss _ h.all_sent (refl, tt);
    unlocked = h.unlocked;
  }
    where
      y : Query K
      y = pending c.next_id cb

      e : length (ss ++ (y ∷ [])) ≡ length ss + 1
      e = omega (arith, length-append_queries ss (y ∷ []))

      n : ℕ
      n = length rs + length ss

      e' : length (rs ++ ss) ≡ n
      e' = length-append_queries rs ss

      at_tail :
          (i : ℕ)
          → get_elem? (set c.q c.tail y) (place c.pending_max c.head i)
            ≡ get_elem? (set c.q (place c.pending_max c.head n) y) (place c.pending_max c.head i)
      at_tail i = ap (λ t. get_elem? (set c.q t y) (place c.pending_max c.head i)) h.tail_at

      last :
          (i : ℕ)
          → i ≡ n
          → get_elem? (set c.q c.tail y) (place c.pending_max c.head i)
            ≡ get_elem? (rs ++ (ss ++ (y ∷ []))) i
      last i q =
          at_tail i
          ∙ ap
              (λ j.
                get_elem? (set c.q (place c.pending_max c.head n) y) (place c.pending_max c.head j))
              q
          ∙ written_self c h.length_q h.head_in n y r
          ∙ sym (get_elem?-append_length (rs ++ ss) [] y)
          ∙ ap (get_elem? ((rs ++ ss) ++ (y ∷ []))) (e' ∙ sym q)
          ∙ ap (λ l. get_elem? l i) (append_assoc rs ss (y ∷ []))
