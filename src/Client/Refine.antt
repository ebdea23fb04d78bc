-- ===== src/Client/Refine.antt =====
-- One thread cannot tell a client from two lists of queries.
use opo_c.Prelude.{
  ℕ, ◌+◌, ◌<◌, ◌≡◌, ltb, refl, sym, ap, ◌∙◌, inl, inr, Option, some, List, [], ◌∷◌, ◌++◌, length,
  take-drop, take, drop, Bool, Bool-cases, arith,
}
use mathlib.Core.Path.{subst}
use opo_c.Outcome.{done}
use opo_c.Bytes.{Bytes, fill_uint64}
use opo_c.Err.{Err}
use opo_c.Wire.{Value, encode, IsValid}
use opo_c.Builder.{Heap}
use opo_c.Client.{Query, Client, wake_ready, client_init}
use opo_c.Client.Send.{Os}
use opo_c.Client.Ring.{Ring, slot_lem, client_init-Ring}
use opo_c.Client.Enqueue.{pending}
use opo_c.Client.Accept.{answered, accepted, process_msg-on_deck, on_deck-cons}
use opo_c.Client.Submit.{submitted, opo_client_query-room, opo_client_query-busy, idle}
use opo_c.Client.Calls.{opo_client_process-calls}
use opo_c.Client.Serial.{
  Call, submit, respond, process, AllValid, quota, model_step, model_run, step, run_calls,
}
use opo_c.Client.Stands.{
  length-take_le, quota-Stops, AllWords-append, AllValid-cons, model_of, empty_model, Stands,
  wake_ready-model, on_deck-nil,
}

module _ {K : Type 0} where
  module _ (heap : Heap) (os : Os) (err : Err) (writes : (b : Bytes) → os.write b ≡ some (length b))
      (room : ℕ) where
    -- A call does what the model does.
    abbrev Follows : Call K → Client K → List (Query K) → List (Query K) → Type 0
    Follows x c rs ss =
        (c' : Client K) × (rs' : List (Query K)) × (ss' : List (Query K)) × (step heap os err x c
          ≡ done c')
        × Stands room c' rs' ss'
        × (model_of c' rs' ss' ≡ model_step room x (model_of c rs ss))

    submit-Follows :
        (old : ℕ) (v : Value) (rest : Bytes) (cb : Option K) (c : Client K) (rs ss : List (Query K))
        → IsValid v
        → Stands room c rs ss
        → Follows (submit old v rest cb) c rs ss
    unfolding step
    submit-Follows old v rest cb c rs ss ok h =
        elim (Bool-cases (ltb (length rs + length ss) room)) [
          | inl e ↦
              let l : length rs + length ss < c.pending_max = ground (arith, h.same_room) in
              let (p, r) =
                opo_client_query-room 0 0 idle os err c rs ss old v rest cb h.ring l ok
                  (writes _) in
              (
                submitted cb (fill_uint64 c.next_id ++ encode v) c,
                rs,
                ss ++ (pending c.next_id cb ∷ []),
                rw p refl,
                record {
                  ring = r;
                  same_room = h.same_room;
                  next_word = omega arith;
                  words = AllWords-append ss _ h.words h.next_word;
                },
                rw e refl,
              )
          | inr e ↦
              let full : length rs + length ss ≡ c.pending_max =
                ground (arith, h.same_room, h.ring.fits) in
              let p = opo_client_query-busy 0 0 os err c rs ss old v rest cb h.ring full ok in
              (c, rs, ss, rw p refl, h, rw e refl)
        ]

    respond-Follows :
        (body : Bytes) (c : Client K) (rs ss : List (Query K))
        → Stands room c rs ss
        → Follows (respond body) c rs ss
    unfolding step
    respond-Follows body c rs [] h =
        let (x, e, s) = on_deck-nil c rs h.ring in
        (c, rs, [], rw (slot_lem c c.on_deck x e) (rw s refl), h, refl)
    respond-Follows body c rs (y ∷ ss) h =
        let msg = fill_uint64 y.id ++ body in
        let (p, r) = process_msg-on_deck heap [] c rs ss y body h.ring h.words.0 in
        let (m, q, n) = wake_ready-model (accepted msg y c) (rs ++ (answered msg y ∷ [])) ss in
        (
          wake_ready (accepted msg y c),
          rs ++ (answered msg y ∷ []),
          ss,
          rw (slot_lem c c.on_deck y (on_deck-cons c rs ss y h.ring)) (rw (h.ring.all_sent.0) p),
          record {
            ring = r;
            same_room = q ∙ h.same_room;
            next_word = omega (arith, n, h.next_word);
            words = h.words.1;
          },
          m,
        )

    process-Follows :
        (max : ℕ) (c : Client K) (rs ss : List (Query K))
        → Stands room c rs ss
        → Follows (process max) c rs ss
    unfolding step
    process-Follows max c rs ss h =
        let n = quota max rs in
        let (c', e, r, k, w, i, p) =
          opo_client_process-calls (c.pending_max + 1) 0 0 max c (take n rs) (drop n rs) ss
            (subst (λ l. Ring c l ss) (sym (take-drop n rs)) h.ring)
            (omega (arith, h.ring.fits, length-take_le n rs)) (quota-Stops max rs) in
        (
          c',
          drop n rs,
          ss,
          rw e refl,
          record {
            ring = r;
            same_room = p ∙ h.same_room;
            next_word = omega (arith, i, h.next_word);
            words = h.words;
          },
          λ j. record { next = i j; rs = drop n rs; ss = ss; sends = w j; calls = k j },
        )

    step-Follows :
        (x : Call K) (c : Client K) (rs ss : List (Query K))
        → AllValid (x ∷ [])
        → Stands room c rs ss
        → Follows x c rs ss
    step-Follows (submit old v rest cb) c rs ss ok h = submit-Follows old v rest cb c rs ss ok.0 h
    step-Follows (respond body) c rs ss ok h = respond-Follows body c rs ss h
    step-Follows (process max) c rs ss ok h = process-Follows max c rs ss h

    run-Follows :
        (xs : List (Call K)) (c : Client K) (rs ss : List (Query K))
        → AllValid xs
        → Stands room c rs ss
        → (c' : Client K) × (rs' : List (Query K)) × (ss' : List (Query K)) × (run_calls heap os err
              xs c
            ≡ done c')
          × Stands room c' rs' ss'
          × (model_of c' rs' ss' ≡ model_run room xs (model_of c rs ss))
    unfolding run_calls
    run-Follows [] c rs ss ok h = (c, rs, ss, refl, h, refl)
    run-Follows (x ∷ xs) c rs ss ok h =
        let (ok₁, ok₂) = AllValid-cons x xs ok in
        let (c₁, rs₁, ss₁, e₁, h₁, m₁) = step-Follows x c rs ss ok₁ h in
        let (c₂, rs₂, ss₂, e₂, h₂, m₂) = run-Follows xs c₁ rs₁ ss₁ ok₂ h₁ in
        (c₂, rs₂, ss₂, rw e₁ e₂, h₂, m₂ ∙ ap (model_run room xs) m₁)

  -- One thread that sends valid messages, each written in full, receives the responses in the order
  -- of the queries, and processes them cannot tell a new client from two lists: the run ends, the
  -- ring holds the queries of the model, and the ids, the messages written and the callbacks, each
  -- with the id and the response of its query, are those of the model.
  pub run_calls_refines :
      (heap : Heap) (os : Os) (err : Err) (xs : List (Call K)) (pending_max wsock : ℕ)
      (has_status : Bool)
      → ((b : Bytes) → os.write b ≡ some (length b))
      → AllValid xs
      → let c = client_init pending_max wsock has_status in
        (c' : Client K) × (rs' : List (Query K)) × (ss' : List (Query K)) × (run_calls heap os err
            xs c
          ≡ done c')
        × Ring c' rs' ss'
        × (model_of c' rs' ss' ≡ model_run c.pending_max xs empty_model)
  unfolding client_init
  run_calls_refines heap os err xs pending_max wsock has_status writes ok =
      let c = client_init pending_max wsock has_status in
      let (c', rs', ss', e, h, m) =
        run-Follows heap os err writes c.pending_max xs c [] [] ok (record {
          ring = client_init-Ring K pending_max wsock has_status;
          same_room = refl;
          next_word = omega arith;
          words = tt;
        }) in
      (c', rs', ss', e, h.ring, m)
