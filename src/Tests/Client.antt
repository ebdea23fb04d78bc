-- ===== src/Tests/Client.antt =====
-- A client for two queries that sends one, gets its response, and calls it back; and one for a single
-- query, which is then busy.
use opo_c.Client.Unknown.{process_msg-unknown}
use opo_c.Prelude.{
  zero, suc, ap, ◌≢◌, get_elem?, ℕ, ◌≡◌, refl, none, some, [], ◌∷◌, ◌++◌, true, false, List, length,
  arith, inl, inr,
}
use opo_c.Outcome.{done}
use opo_c.Bytes.{Bytes, fill_uint64}
use opo_c.Err.{opo_err_set, opo_err_not_found, text}
use opo_c.Wire.{array, encode}
use opo_c.Client.{
  Query, Client, client_init, wake_ready, opo_client_pending_count, opo_client_ready_count,
}
use opo_c.Client.Receive.{process_msg}
use opo_c.Client.Send.{Os, eagain, opo_client_query}
use opo_c.Client.Process.{opo_client_process}
use opo_c.Client.Ring.{Ring, client_init-Ring}
use opo_c.Client.Enqueue.{pending}
use opo_c.Client.Accept.{answered, accepted, process_msg-on_deck}
use opo_c.Client.Submit.{submitted, idle, opo_client_query-room, opo_client_query-busy}
use opo_c.Client.Calls.{quiet, opo_client_process-calls}
use opo_c.Client.Serial.{Call, submit, respond, process, run_calls}
use opo_c.Client.Stands.{model_of}
use opo_c.Client.Refine.{run_calls_refines}
use opo_c.Client.Count.{opo_client_count-Ring}
use opo_c.Tests.Builder.{heap}
use opo_c.Tests.Samples.{no_err, sample, sample-IsValid, tags-IsValid, junk, tags}

abbrev pub os : Os
os = record { write = λ b. some (length b); errno = 0; strerror = λ n. [] }

abbrev pub start : ℕ → Client ℕ
unfolding client_init
start size = client_init size 0 true

-- the message of the first query
abbrev pub first : Bytes
first = fill_uint64 1 ++ encode sample

abbrev pub query : Query ℕ
query = pending 1 (some 7)

abbrev pub one_sent : ℕ → Client ℕ
one_sent size = submitted (some 7) first (start size)

pub one_sent-Ring : (size : ℕ) → Ring (one_sent size) [] (query ∷ [])
unfolding client_init
one_sent-Ring size =
    (opo_client_query-room 0 0 idle os no_err (start size) [] [] 99 sample junk (some 7)
      (client_init-Ring ℕ size 0 true) (ground arith) sample-IsValid refl).1

abbrev answer : Bytes
answer = fill_uint64 1 ++ encode (array tags)

abbrev one_ready : Client ℕ
one_ready = wake_ready (accepted answer query (one_sent 2))

one_ready-Ring : Ring one_ready (answered answer query ∷ []) []
one_ready-Ring =
    (process_msg-on_deck heap [] (one_sent 2) [] [] query (encode (array tags)) (one_sent-Ring 2)
      (omega arith)).1

opo_client_query-room_example :
    (opo_client_query 1 os 0 idle no_err
        (start 2)
        (fill_uint64 99 ++ (encode sample ++ junk))
        (some 7)
      ≡ done (1, no_err, fill_uint64 1 ++ (encode sample ++ junk), one_sent 2))
    × Ring (one_sent 2) [] (query ∷ [])
unfolding client_init
opo_client_query-room_example =
    opo_client_query-room 0 0 idle os no_err (start 2) [] [] 99 sample junk (some 7)
      (client_init-Ring ℕ 2 0 true) (omega arith) sample-IsValid refl

opo_client_query-busy_example :
    opo_client_query 1 os 3 idle no_err
      (one_sent 1)
      (fill_uint64 99 ++ (encode sample ++ junk))
      none
    ≡ done (
      0,
      opo_err_set no_err eagain (text "write failed, busy"),
      fill_uint64 99 ++ (encode sample ++ junk),
      one_sent 1,
    )
unfolding client_init
opo_client_query-busy_example =
    opo_client_query-busy 0 3 os no_err (one_sent 1) [] (query ∷ []) 99 sample junk none
      (one_sent-Ring 1) refl sample-IsValid

process_msg-on_deck_example :
    (process_msg heap [] answer (one_sent 2) ≡ done one_ready)
    × Ring one_ready (answered answer query ∷ []) []
process_msg-on_deck_example =
    process_msg-on_deck heap [] (one_sent 2) [] [] query (encode (array tags)) (one_sent-Ring 2)
      (omega arith)

opo_client_process-calls_example :
    (c' : Client ℕ) × (opo_client_process 2 1 0 (λ n. idle) quiet 0 false one_ready ≡ done (1, c'))
    × Ring c' [] []
    × (c'.calls ≡ (7, 1, some answer) ∷ [])
    × (c'.written ≡ first ∷ [])
    × (c'.next_id ≡ 2)
    × (c'.pending_max ≡ 2)
unfolding client_init wake_ready
opo_client_process-calls_example =
    opo_client_process-calls 2 0 0 0 one_ready (answered answer query ∷ []) [] [] one_ready-Ring
      (omega arith) (inr (inl refl, refl))

-- a query that fills the ring is counted as none
opo_client_count-Ring_example :
    (opo_client_pending_count (one_sent 1) ≡ 0) × (opo_client_ready_count (one_sent 1) ≡ 0)
unfolding client_init
opo_client_count-Ring_example = opo_client_count-Ring (one_sent 1) [] (query ∷ []) (one_sent-Ring 1)

-- three queries, of which the second finds the ring full, and two rounds of callbacks
abbrev script : List (Call ℕ)
script =
    submit 0 sample junk (some 7)
    ∷ submit 5 (array tags) [] (some 8)
    ∷ respond (encode (array tags))
    ∷ process 1
    ∷ submit 0 sample [] (some 9)
    ∷ respond (encode sample)
    ∷ process 0
    ∷ []

run_calls_refines_example :
    (c' : Client ℕ) × (rs' : List (Query ℕ)) × (ss' : List (Query ℕ)) × (run_calls heap os no_err
        script
        (client_init 1 0 true)
      ≡ done c')
    × Ring c' rs' ss'
    × (model_of c' rs' ss' ≡ record {
      next = 3;
      rs = [];
      ss = [];
      sends = first ∷ (fill_uint64 2 ++ encode sample) ∷ [];
      calls = (7, 1, some answer) ∷ (9, 2, some (fill_uint64 2 ++ encode sample)) ∷ [];
    })
unfolding client_init
run_calls_refines_example =
    run_calls_refines heap os no_err script 1 0 true (λ b. refl)
      (sample-IsValid, (tags-IsValid, (sample-IsValid, tt)))

-- no slot has the id 5
one_sent-ids : (i : ℕ) (x : Query ℕ) → get_elem? (one_sent 2).q i ≡ some x → x.id ≢ 5
unfolding client_init
one_sent-ids zero x e =
    let d : 1 ≡ x.id = ap (λ o. elim o [ none ↦ 0 | some y ↦ y.id ]) e in omega arith
one_sent-ids (suc zero) x e =
    let d : 0 ≡ x.id = ap (λ o. elim o [ none ↦ 0 | some y ↦ y.id ]) e in omega arith
one_sent-ids (suc (suc i)) x e = cc

process_msg-unknown_example :
    process_msg heap [] (fill_uint64 5 ++ encode sample) (one_sent 2)
    ≡ done (record (one_sent 2) {
      statuses = (opo_err_not_found, text "Pending query not found.") ∷ [];
    })
unfolding client_init
process_msg-unknown_example =
    process_msg-unknown heap [] (one_sent 2) [] (query ∷ []) 5 (encode sample) (one_sent-Ring 2)
      (omega arith) one_sent-ids
