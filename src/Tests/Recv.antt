-- ===== src/Tests/Recv.antt =====
-- A network that gives one byte at a time, on which messages come to the callback; bytes that are no
-- messages; and a query that waits for ever.
use opo_c.Prelude.{
  ℕ, zero, suc, ◌-◌, ◌^◌, ◌<◌, ◌≤◌, ◌≡◌, refl, ap, Option, none, some, List, [], ◌∷◌, ◌++◌, true,
  false, length, replicate, inl, inr, ◌⊎◌, arith,
}
use opo_c.Outcome.{Outcome, done, out_of_fuel, Done, ◌>>=◌}
use opo_c.Bytes.{Bytes, fill_uint64, read_uint32}
use opo_c.Msg.{opo_msg_bsize}
use opo_c.Val.{opo_val_bsize}
use opo_c.Queue.{queue_init}
use opo_c.Queue.Holds.{Holds}
use opo_c.Queue.Push.{queue_init-Holds}
use opo_c.Wire.{Value, array, encode, encode_int, encode_string, encode_key, be}
use opo_c.Prelude.Int.{to_word}
use opo_c.Client.{Client, client_init}
use opo_c.Client.Async.{Async, async_init, query_async, process_async}
use opo_c.Client.Recv.{Net, Recv, Poll, poll_none, poll_events, recv_loop}
use opo_c.Client.Arrives.{Arrives}
use opo_c.Client.Frames.{recv_loop-messages}
use opo_c.Client.Bounded.{InBounds, recv_loop-Bounded}
use opo_c.Client.Ask.{query_async-room}
use opo_c.Client.Answers.{message, messages, still, unmoved, Answered}
use opo_c.Client.Stream.{hand, process_async-recv_loop}
use opo_c.Client.Responses.{hand_response, opo_client_process-recv_loop}
use opo_c.Client.Process.{opo_client_process}
use opo_c.Client.Submit.{idle}
use opo_c.Client.Calls.{quiet}
use opo_c.Client.Ring.{Ring}
use opo_c.Tests.Builder.{heap}
use opo_c.Tests.Samples.{no_err, sample, sample-IsValid, tags, tags-IsValid, junk}
use opo_c.Tests.Client.{os, query, one_sent, one_sent-Ring}

abbrev one_byte : ℕ → Bytes → Option Bytes × Bytes
one_byte zero b = (some [], b)
one_byte (suc n) [] = (some [], [])
one_byte (suc n) (x ∷ b) = (some (x ∷ []), b)

abbrev length_of : Option Bytes → ℕ
length_of none = 0
length_of (some b) = length b

abbrev ready_if : Bytes → Poll
ready_if [] = poll_none
ready_if (x ∷ b) = poll_events true false false false

one_byte-le : (n : ℕ) (w b : Bytes) → (one_byte n w).0 ≡ some b → length b ≤ n
one_byte-le zero w b e = omega (arith, ap length_of e)
one_byte-le (suc n) [] b e = omega (arith, ap length_of e)
one_byte-le (suc n) (x ∷ w) b e = omega (arith, ap length_of e)

-- the world is the bytes that still come
abbrev net : Net Bytes
net = record {
  active = λ w. true;
  errno = λ w. 0;
  malloc = λ w n. true;
  poll = λ fd w. (ready_if w, w);
  recv = λ fd n w. one_byte n w;
}

nothing : (w : Bytes) → length w ≡ 0 → w ≡ []
nothing [] h = refl
nothing (x ∷ w) h = absurd (omega arith)

polls :
    (w : Bytes)
    → (w' : Bytes) × (w' ≡ w)
      × (((net.poll 5 w ≡ (poll_none, w')) × (length w' ≤ length w - 1))
          ⊎ ((net.poll 5 w ≡ (poll_events true false false false, w'))
              × (length w' ≤ length w)
              × (0 < length w)))
polls [] = ([], refl, inl (refl, omega arith))
polls (x ∷ w) = (x ∷ w, refl, inr (refl, omega arith, omega arith))

receives :
    (n : ℕ) (w : Bytes)
    → 0 < n
    → 0 < length w
    → (w' : Bytes) × (x : ℕ) × (xs : Bytes) × (net.recv 5 n w ≡ (some (x ∷ xs), w'))
      × (length (x ∷ xs) ≤ n)
      × ((x ∷ xs) ++ w' ≡ w)
      × (length w' ≤ length w - 1)
receives zero w p q = absurd (omega arith)
receives (suc n) [] p q = absurd (omega arith)
receives (suc n) (x ∷ w) p q = (w, x, [], refl, omega arith, refl, omega arith)

abbrev net-Arrives : Arrives net 5
net-Arrives = record {
  stream = λ w. w;
  due = λ w. length w;
  over = nothing;
  active = λ w. refl;
  malloc = λ w n. refl;
  poll = polls;
  recv = receives;
}

-- the response to query 1 and the one to query 2
abbrev sent : List (ℕ × Value)
sent = (1, sample) ∷ (2, array tags) ∷ []

abbrev idle_on : {S : Type 0} → S → Recv S
idle_on s = record {
  sock = 5;
  buf = [];
  msg = none;
  handed = 0;
  shared = s;
  has_status = true;
  statuses = [];
}

abbrev collect : ℕ → Bytes → List Bytes → Outcome (List Bytes)
collect n m ms = done (ms ++ (m ∷ []))

recv_loop-messages_example :
    (w : Bytes) × (recv_loop net collect 100
        (message (1, sample) ++ (message (2, array tags) ++ []))
        (idle_on [])
      ≡ done (
        w,
        record (idle_on []) {
          handed = 2;
          shared = message (1, sample) ∷ message (2, array tags) ∷ [];
        },
      ))
unfolding encode encode_int encode_string encode_key be to_word fill_uint64
recv_loop-messages_example =
    recv_loop-messages net collect 5 net-Arrives 100
      (message (1, sample) ++ (message (2, array tags) ++ [])) (idle_on []) (messages sent) refl
      refl refl
      (
        (1, sample, sample-IsValid, omega arith, refl),
        ((2, array tags, tags-IsValid, omega arith, refl), tt),
      )
      refl (omega arith)

recv_loop-Bounded_example :
    Done
      (λ wr. InBounds wr.1.buf wr.1.msg)
      (recv_loop net collect 50 (replicate 40 0xff) (idle_on []))
recv_loop-Bounded_example =
    recv_loop-Bounded net collect (λ fd n w b e. one_byte-le n w b e) (λ n m s h. tt) 50
      (replicate 40 0xff) (idle_on []) (omega arith)

-- two queries are pending
abbrev start : Async
start = record {
  async_queue = queue_init 1024;
  pending = 2;
  next_id = 3;
  pending_max = 4;
  written = [];
  calls = [];
}

start_init : record (async_init 4) { pending = 2; next_id = 3 } ≡ start
unfolding async_init
start_init = refl

start-Holds : Holds start.async_queue []
start-Holds = queue_init-Holds Bytes 1024

-- Both responses come to the callback.
process_async-recv_loop_example :
    (a' : Async) × ((recv_loop net
          (hand {K = ℕ} net heap [] (λ n q. q))
          100
          (message (1, sample) ++ (message (2, array tags) ++ []))
          (idle_on (client_init 4 0 true, start))
        >>= λ (w', r'). process_async 3 1 0 unmoved still 0 r'.shared.1)
      ≡ done (2, a'))
    × Answered sent [] start a'
unfolding encode encode_int encode_string encode_key be to_word fill_uint64 queue_init client_init
process_async-recv_loop_example =
    process_async-recv_loop net heap [] (λ n q. q) 5 net-Arrives 100 0 0
      (message (1, sample) ++ (message (2, array tags) ++ []))
      (idle_on (client_init 4 0 true, start)) sent refl refl refl
      (sample-IsValid, omega arith, (tags-IsValid, omega arith, tt))
      (omega arith, (omega arith, tt)) refl (omega arith) start-Holds refl (omega arith)
      (omega arith) (omega arith)

-- the message with the id 9, which is not the one that the query gets
query_async-room_example :
    query_async 0 still os no_err start (fill_uint64 9 ++ (encode sample ++ junk))
    ≡ done (
      3,
      no_err,
      record start { next_id = 4; pending = 3; written = (fill_uint64 9 ++ encode sample) ∷ [] },
    )
query_async-room_example =
    query_async-room 0 still os no_err start 9 sample junk (omega arith) (omega arith) (omega arith)
      sample-IsValid refl

-- After two responses more than queries, `pending` is -2, which counts as more than any limit.
stuck :
    query_async 50 still os no_err
      (record start { pending = 2 ^ 64 - 2 })
      (fill_uint64 9 ++ encode sample)
    ≡ out_of_fuel
unfolding query_async encode encode_int encode_string encode_key be to_word fill_uint64
    opo_msg_bsize opo_val_bsize read_uint32
stuck = refl

-- The response to the query that waits comes to its callback, byte by byte.
opo_client_process-recv_loop_example :
    (c : Client ℕ) × ((recv_loop net
          (hand_response net heap [] 1 (λ n q. q))
          100
          (message (1, array tags) ++ [])
          (idle_on (one_sent 2, start))
        >>= λ (w', r'). opo_client_process 2 1 0 (λ n. idle) quiet 0 false r'.shared.0)
      ≡ done (1, c))
    × Ring c [] []
    × (c.calls ≡ (7, 1, some (message (1, array tags))) ∷ [])
unfolding encode encode_int encode_string encode_key be to_word fill_uint64 client_init
opo_client_process-recv_loop_example =
    opo_client_process-recv_loop net heap [] 1 (λ n q. q) 5 net-Arrives 100 0
      (message (1, array tags) ++ []) (idle_on (one_sent 2, start)) ((query, array tags) ∷ []) []
      refl refl refl (omega arith, tags-IsValid, omega arith, tt) refl (omega arith)
      (one_sent-Ring 2)
