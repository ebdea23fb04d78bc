-- ===== src/Client/Drain.antt =====
-- `take_next_ready` on a ring, and what `opo_client_process` does to the query that is taken.
use opo_c.Prelude.{
  ℕ, zero, suc, ◌+◌, ◌<◌, ◌≡◌, refl, sym, ap, ◌∙◌, Option, some, none, List, true, false, [], ◌∷◌,
  ◌++◌, length, get_elem?, set, length-set, append-nil, arith,
}
use native.Mathlib.Decide.{dec_lt}
use opo_c.Bytes.{Bytes}
use opo_c.Outcome.{done}
use opo_c.Queue.{next_slot}
use opo_c.Queue.Holds.{place}
use opo_c.Queue.Ring.{place-zero, place-round, place-next_slot, place-ne}
use opo_c.Client.{clear, taken, ready, is_ready, Query, Client, slot}
use opo_c.Client.Process.{wait_ready, take_head, take_next_ready, call_back, release}
use opo_c.Client.Ring.{Ring, get_elem?-set_self, get_elem?-set_ne}
use opo_c.Client.Submit.{idle}

set-set : {A : Type 0} (xs : List A) (i : ℕ) (a b : A) → set (set xs i a) i b ≡ set xs i b
set-set [] i a b = refl
set-set (x ∷ xs) zero a b = refl
set-set (x ∷ xs) (suc i) a b = ap (λ l. x ∷ l) (set-set xs i a b)

module _ {K : Type 0} where
  -- the callback that a query gets, none where it has none
  abbrev pub called : Query K → List (K × ℕ × Option Bytes)
  called x = elim x.cb [ none ↦ [] | some k ↦ (k, x.id, x.resp) ∷ [] ]

  -- the callbacks that queries get, in order
  abbrev pub callbacks : List (Query K) → List (K × ℕ × Option Bytes)
  callbacks [] = []
  callbacks (x ∷ xs) = called x ++ callbacks xs

  -- the query in a slot that is free again
  abbrev pub freed : Query K → Query K
  freed x = record x { id = 0; resp = none; state = clear }

  -- the client without the query at its head
  abbrev pub dropped : Query K → List (K × ℕ × Option Bytes) → Client K → Client K
  dropped x calls c = record c {
    q = set c.q c.head (freed x);
    head = next_slot c.pending_max c.head;
    head_lock = false;
    calls = calls;
  }

  pub head-cons :
      (c : Client K) (x : Query K) (rs ss : List (Query K))
      → Ring c (x ∷ rs) ss
      → get_elem? c.q c.head ≡ some x
  head-cons c x rs ss h =
      ap (get_elem? c.q) (sym (place-zero _ _ h.head_in)) ∙ h.slots 0 (omega arith)

  pub dropped-Ring :
      (c : Client K) (x : Query K) (rs ss : List (Query K)) (calls : List (K × ℕ × Option Bytes))
      → Ring c (x ∷ rs) ss
      → Ring (dropped x calls c) rs ss
  dropped-Ring c x rs ss calls h = record {
    length_q = length-set c.q c.head _ ∙ h.length_q;
    head_in = next-lt;
    fits = omega (arith, h.fits);
    deck_at = h.deck_at ∙ sym (shift (length rs) (omega (arith, h.fits)));
    tail_at =
        h.tail_at
        ∙ ap (place c.pending_max c.head) (omega arith)
        ∙ sym (shift (length rs + length ss) (omega (arith, h.fits)));
    slots = λ i p. kept i (omega (arith, h.fits)) ∙ h.slots (suc i) (omega arith);
    free = λ i l p. elim (dec_lt (suc i) c.pending_max) [
      | yes r ↦ let (y, a, b, d) = h.free (suc i) (omega arith) r in (y, kept i r ∙ a, b, d)
      | no r ↦ (
        freed x,
        ap (get_elem? _) (last i p (omega arith))
            ∙ get_elem?-set_self c.q _ _ (omega (arith, h.head_in, h.length_q)),
        refl,
        refl,
      )
    ];
    all_ready = h.all_ready.1;
    all_sent = h.all_sent;
    unlocked = (refl, h.unlocked.1);
  }
    where
      next-lt : next_slot c.pending_max c.head < c.pending_max
      next-lt = ground (arith, h.head_in)

      shift :
          (i : ℕ)
          → i < c.pending_max
          → place c.pending_max (next_slot c.pending_max c.head) i
            ≡ place c.pending_max c.head (suc i)
      shift i p =
          place-next_slot c.pending_max c.head i h.head_in p
          ∙ ap (place c.pending_max c.head) (omega arith)

      last :
          (i : ℕ)
          → i < c.pending_max
          → suc i ≡ c.pending_max
          → place c.pending_max (next_slot c.pending_max c.head) i ≡ c.head
      last i p e = shift i p ∙ ap (place c.pending_max c.head) e ∙ place-round _ _ h.head_in

      kept :
          (i : ℕ)
          → suc i < c.pending_max
          → get_elem?
              (set c.q c.head (freed x))
              (place c.pending_max (next_slot c.pending_max c.head) i)
            ≡ get_elem? c.q (place c.pending_max c.head (suc i))
      kept i p =
          ap (get_elem? _) (shift i (omega arith))
          ∙ get_elem?-set_ne c.q c.head _ _ (λ e.
            place-ne _ _ 0 (suc i) h.head_in (omega arith) (omega arith) (omega arith)
              (place-zero _ _ h.head_in ∙ e))

  -- `take_next_ready` and what follows it in `opo_client_process`
  abbrev pub taken_head : Query K → Client K → Client K
  taken_head x c = record c {
    q = set c.q c.head (record x { state = taken });
    head = next_slot c.pending_max c.head;
    head_lock = false;
  }

  wait_ready-some :
      (tries : ℕ) (world : ℕ → Client K → Client K) (c : Client K) (x : Query K)
      → get_elem? c.q c.head ≡ some x
      → x.state ≡ ready
      → wait_ready tries world c ≡ done (true, c)
  unfolding wait_ready
  wait_ready-some zero world c x e s = rw (slot, e) (rw s refl)
  wait_ready-some (suc tries) world c x e s = rw (slot, e) (rw s refl)

  wait_ready-none :
      (tries : ℕ) (c : Client K) (x : Query K)
      → get_elem? c.q c.head ≡ some x
      → is_ready x.state ≡ false
      → wait_ready tries idle c ≡ done (false, c)
  unfolding wait_ready
  wait_ready-none zero c x e s = rw (slot, e) (rw s refl)
  wait_ready-none (suc tries) c x e s = rw (slot, e) (rw s (wait_ready-none tries c x e s))

  pub take_next_ready-some :
      (naps tries : ℕ) (world : ℕ → Client K → Client K) (c : Client K) (x : Query K)
      (rs ss : List (Query K))
      → Ring c (x ∷ rs) ss
      → take_next_ready (suc naps) tries world c ≡ done (some c.head, taken_head x c)
  unfolding take_next_ready
  take_next_ready-some naps tries world c x rs ss h =
      let e = head-cons c x rs ss h in
      rw
        (
          h.unlocked.0,
          wait_ready-some tries world (record c { head_lock = true }) x e h.all_ready.0,
        )
        (rw (take_head, slot, e) refl)

  -- the query at the head where none is ready
  head-waits :
      (c : Client K) (ss : List (Query K))
      → Ring c [] ss
      → (x : Query K) × (get_elem? c.q c.head ≡ some x) × (is_ready x.state ≡ false)
  head-waits c [] h =
      let (x, e, s, _) = h.free 0 (omega arith) (omega (arith, h.head_in)) in
      (x, ap (get_elem? c.q) (sym (place-zero _ _ h.head_in)) ∙ e, rw s refl)
  head-waits c (x ∷ ss) h = (
    x,
    ap (get_elem? c.q) (sym (place-zero _ _ h.head_in)) ∙ h.slots 0 (omega arith),
    rw h.all_sent.0 refl,
  )

  pub take_next_ready-none :
      (naps tries : ℕ) (c : Client K) (ss : List (Query K))
      → Ring c [] ss
      → take_next_ready (suc naps) tries idle c ≡ done (none, c)
  unfolding take_next_ready
  take_next_ready-none naps tries c ss h =
      let (x, e, s) = head-waits c ss h in
      rw (h.unlocked.0, wait_ready-none tries (record c { head_lock = true }) x e s) refl

  pub call_back_lem :
      (x : Query K) (c : Client K)
      → call_back (λ c'. c') x c ≡ record c { calls = c.calls ++ called x }
  unfolding call_back
  call_back_lem x c =
      elim x.cb
        as (λ o.
          call_back (λ c'. c') (record x { cb = o }) c
          ≡ record c { calls = c.calls ++ called (record x { cb = o }) }) [
            | none ↦ rw append-nil refl
            | some k ↦ refl
          ]

  pub release_lem :
      (x : Query K) (c : Client K)
      → c.head < length c.q
      → release c.head (record (taken_head x c) { calls = c.calls ++ called x })
        ≡ done (dropped x (c.calls ++ called x) c)
  unfolding release
  release_lem x c h =
      rw (slot, get_elem?-set_self c.q c.head (record x { state = taken }) h) (rw set-set refl)
