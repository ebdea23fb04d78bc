-- ===== src/Client/Process.antt =====
-- `take_next_ready` and `opo_client_process` of src/opo/client.c, where the client has no callback of
-- its own.
use opo_c.Prelude.{
  ℕ, zero, suc, ◌==◌, ltb, ◌+◌, if◌then◌else◌, ◌||◌, Option, none, some, [], ◌∷◌, ◌++◌, Bool, true,
  false, set,
}
use opo_c.Outcome.{Outcome, done, out_of_fuel, ◌>>=◌}
use opo_c.Queue.{next_slot}
use opo_c.Client.{clear, taken, is_ready, Query, Client, slot}

module _ {K : Type 0} where
  -- The wait for a response at the head, for at most `tries` waits; none at all where the timeout is
  -- not above 0.
  unfoldable pub wait_ready : ℕ → (ℕ → Client K → Client K) → Client K → Outcome (Bool × Client K)
  unfolding slot
  wait_ready zero world c = do x ← slot c c.head; done (is_ready x.state, c)
  wait_ready (suc tries) world c =
      let again = wait_ready tries (λ n. world (suc n)) (world 0 c) in
      (do x ← slot c c.head; if is_ready x.state then done (true, c) else again)

  -- The head moves on, and the state of the slot is set once the lock is given back.
  unfoldable pub take_head : Client K → Outcome (Client K)
  unfolding slot
  take_head c = do
    x ← slot c c.head
    done (record c {
      head = next_slot c.pending_max c.head;
      head_lock = false;
      q = set c.q c.head (record x { state = taken });
    })

  -- The slot that is taken, none for NULL. The fuel bounds the naps for the lock.
  unfoldable pub take_next_ready :
      ℕ → ℕ → (ℕ → Client K → Client K) → Client K → Outcome (Option ℕ × Client K)
  unfolding wait_ready take_head
  take_next_ready zero tries world c = out_of_fuel
  take_next_ready (suc naps) tries world c =
      let again = take_next_ready naps tries (λ n. world (suc n)) (world 0 c) in
      let locked = do
        (ok, c₁) ← wait_ready tries world (record c { head_lock = true })
        let got = do c₂ ← take_head c₁; done (some c₁.head, c₂)
        if ok then got else done (none, record c₁ { head_lock = false })
      in if c.head_lock then again else locked

  -- The callback of the query that is taken, if it has one. What the callback does to the client, and
  -- what other threads do meanwhile, is `during`.
  unfoldable pub call_back : (Client K → Client K) → Query K → Client K → Client K
  call_back during x c = elim x.cb [
    | none ↦ c
    | some k ↦ during (record c { calls = c.calls ++ ((k, x.id, x.resp) ∷ []) })
  ]

  -- The slot is free again.
  unfoldable pub release : ℕ → Client K → Outcome (Client K)
  unfolding slot
  release i c = do
    x ← slot c i
    done (record c { q = set c.q i (record x { id = 0; resp = none; state = clear }) })

  -- The loop of `opo_client_process` with `cnt` queries done. `max` is 0 for any number; a negative
  -- `wait` (`forever`) goes on where none is ready. `naps` and `tries` are for each
  -- `take_next_ready`, and `world` is for round, then nap; the fuel bounds the rounds.
  unfoldable pub process_loop :
      ℕ
      → ℕ
      → ℕ
      → (ℕ → ℕ → Client K → Client K)
      → (ℕ → Client K → Client K)
      → ℕ
      → Bool
      → ℕ
      → Client K
      → Outcome (ℕ × Client K)
  unfolding take_next_ready call_back release
  process_loop zero naps tries world during max forever cnt c = out_of_fuel
  process_loop (suc f) naps tries world during max forever cnt c =
      let on = λ (cnt' : ℕ) (c' : Client K).
        process_loop f naps tries (λ n. world (suc n)) (λ n. during (suc n)) max forever cnt' c' in
      let round = do
        (found, c₁) ← take_next_ready naps tries (world 0) c
        elim found [
          | some i ↦ do x ← slot c₁ i; c₂ ← release i (call_back (during 0) x c₁); on (cnt + 1) c₂
          | none ↦ let again = on cnt c₁ in if forever then again else done (cnt, c₁)
        ]
      in if max == 0 || ltb cnt max then round else done (cnt, c)

  unfoldable pub opo_client_process :
      ℕ
      → ℕ
      → ℕ
      → (ℕ → ℕ → Client K → Client K)
      → (ℕ → Client K → Client K)
      → ℕ
      → Bool
      → Client K
      → Outcome (ℕ × Client K)
  unfolding process_loop
  opo_client_process fuel naps tries world during max forever c =
      process_loop fuel naps tries world during max forever 0 c
