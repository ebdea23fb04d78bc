-- ===== src/Client/Async.antt =====
-- The client of src/opo/client.c that has a `query_callback`: the branches of `opo_client_query`
-- and `opo_client_process` for it. Responses wait in `async_queue`, and `pending` counts the
-- queries without one, as a word of 64 bits.
use opo_c.Prelude.{
  ℕ, zero, suc, ◌+◌, ◌-◌, ◌%◌, ◌^◌, ◌==◌, ltb, if◌then◌else◌, ◌||◌, none, some, List, [], ◌∷◌, ◌++◌,
  take,
}
use opo_c.Outcome.{Outcome, done, out_of_fuel, ◌>>=◌}
use opo_c.Bytes.{Bytes}
use opo_c.Err.{Err, opo_err_no, text}
use opo_c.Msg.{opo_msg_bsize, opo_msg_id}
use opo_c.Val.Access.{read_bytes}
use opo_c.Queue.{Queue, queue_init, queue_pop}
use opo_c.Client.Send.{Os}

-- The fields of `struct _opoClient` that these branches use. `written` logs what went to the socket,
-- and `calls` the calls of `query_callback`.
pub record Async : Type 0 where
  pub async_queue : Queue Bytes
  pub pending : ℕ
  pub next_id : ℕ
  pub pending_max : ℕ
  pub written : List Bytes
  pub calls : List (ℕ × Bytes)

-- after `opo_client_connect` with the option `pending_max`
unfoldable pub async_init : ℕ → Async
unfolding queue_init
async_init pending_max = record {
  async_queue = queue_init 1024;
  pending = 0;
  next_id = 1;
  pending_max = if ltb pending_max 1 then 1 else pending_max;
  written = [];
  calls = [];
}

-- `while (client->pending_max < atomic_load(&client->pending))`; the fuel bounds the naps, during
-- which `world` is what other threads do.
unfoldable pub wait_pending : ℕ → (ℕ → Async → Async) → Async → Outcome Async
wait_pending zero world a = if ltb a.pending_max a.pending then out_of_fuel else done a
wait_pending (suc naps) world a =
    let again = wait_pending naps (λ n. world (suc n)) (world 0 a) in
    if ltb a.pending_max a.pending then again else done a

-- `write(client->sock, query, size)` and the report of a failure
unfoldable pub send_async : Os → ℕ → Bytes → Err → Async → Outcome (Err × Async)
unfolding opo_err_no
send_async os size bytes err a =
    let failed = opo_err_no os.strerror os.errno err (some (text "write failed")) in
    elim (os.write bytes) [
      | none ↦ do err' ← failed; done (err', a)
      | some n ↦
          let a' = record a { written = a.written ++ (take n bytes ∷ []) } in
          let failed' = (do err' ← failed; done (err', a')) in
          if n == size then done (err, a') else failed'
    ]

-- `opo_client_query`; the id does not go into the query.
unfoldable pub query_async :
    ℕ → (ℕ → Async → Async) → Os → Err → Async → Bytes → Outcome (ℕ × Err × Async)
unfolding wait_pending send_async
query_async naps world os err a query = do
  size ← opo_msg_bsize query
  let counted = record a { next_id = (a.next_id + 1) % 2 ^ 64; pending = (a.pending + 1) % 2 ^ 64 }
  let waited = wait_pending naps world counted
  a₁ ← (if ltb a.pending_max a.pending then waited else done counted)
  bytes ← read_bytes size query
  (err', a₂) ← send_async os size bytes err a₁
  done (a.next_id, err', a₂)

-- The callback, what it and other threads do meanwhile, and the count.
unfoldable pub call_async : (Async → Async) → Bytes → Async → Outcome Async
call_async during msg a = do
  id ← opo_msg_id msg
  let a' = during (record a { calls = a.calls ++ ((id, msg) ∷ []) })
  done (record a' { pending = (a'.pending + (2 ^ 64 - 1)) % 2 ^ 64 })

-- The loop of `opo_client_process` with `cnt` messages done. `max` is 0 for any number; `naps`,
-- `tries` and `world` are for each `queue_pop`; the fuel bounds the rounds.
unfoldable pub process_async_loop :
    ℕ
    → ℕ
    → ℕ
    → (ℕ → ℕ → Queue Bytes → Queue Bytes)
    → (ℕ → Async → Async)
    → ℕ
    → ℕ
    → Async
    → Outcome (ℕ × Async)
unfolding queue_pop call_async
process_async_loop zero naps tries world during max cnt a = out_of_fuel
process_async_loop (suc f) naps tries world during max cnt a =
    let round = do
      (found, q) ← queue_pop naps tries (world 0) a.async_queue
      let popped = record a { async_queue = q }
      elim found [
        | none ↦ done (cnt, popped)
        | some msg ↦ do
          a' ← call_async (during 0) msg popped
          process_async_loop f naps tries (λ n. world (suc n)) (λ n. during (suc n)) max (cnt + 1)
              a'
      ]
    in if max == 0 || ltb cnt max then round else done (cnt, a)

unfoldable pub process_async :
    ℕ
    → ℕ
    → ℕ
    → (ℕ → ℕ → Queue Bytes → Queue Bytes)
    → (ℕ → Async → Async)
    → ℕ
    → Async
    → Outcome (ℕ × Async)
unfolding process_async_loop
process_async fuel naps tries world during max a =
    process_async_loop fuel naps tries world during max 0 a
