-- ===== src/Client/Answers.antt =====
-- `opo_client_process` of a client with a `query_callback`.
use opo_c.Prelude.{
  ℕ, zero, suc, ◌+◌, ◌-◌, ◌%◌, ◌^◌, ◌<◌, ◌≤◌, ◌≡◌, ◌==◌, ◌||◌, ltb, refl, sym, ap, ◌∙◌, inl, inr,
  List, true, false, [], ◌∷◌, ◌++◌, length, append_assoc, append-nil, arith,
}
use mathlib.Core.Path.{subst}
use opo_c.Outcome.{done}
use opo_c.Bytes.{Bytes, fill_uint64}
use opo_c.Bytes.RoundTrip.{read-fill_uint64}
use opo_c.Msg.{opo_msg_id}
use opo_c.Queue.{Queue}
use opo_c.Queue.Holds.{Holds}
use opo_c.Queue.Pop.{queue_pop-cons, queue_pop-nil}
use opo_c.Wire.{Value, encode}
use opo_c.Client.Calls.{Stops}
use opo_c.Client.Async.{Async, call_async, process_async_loop, process_async}

-- an id and a value, the message of both, and the call of the callback with it
abbrev pub message : ℕ × Value → Bytes
message (id, v) = fill_uint64 id ++ encode v

abbrev pub messages : List (ℕ × Value) → List Bytes
messages [] = []
messages (p ∷ ps) = message p ∷ messages ps

abbrev pub answers : List (ℕ × Value) → List (ℕ × Bytes)
answers [] = []
answers (p ∷ ps) = (p.0, message p) ∷ answers ps

abbrev pub AllIds : List (ℕ × Value) → Type 0
AllIds [] = Unit
AllIds (p ∷ ps) = p.0 < 2 ^ 64 × AllIds ps

-- no other thread acts, and callbacks leave the client alone
abbrev pub still : ℕ → Async → Async
still n a = a

abbrev pub unmoved : ℕ → ℕ → Queue Bytes → Queue Bytes
unmoved n k q = q

-- the client once message `p` is done
abbrev answered_one : ℕ × Value → Queue Bytes → Async → Async
answered_one p q a = record a {
  async_queue = q;
  calls = a.calls ++ ((p.0, message p) ∷ []);
  pending = (a.pending + (2 ^ 64 - 1)) % 2 ^ 64;
}

opo_msg_id-message : (p : ℕ × Value) → p.0 < 2 ^ 64 → opo_msg_id (message p) ≡ done p.0
unfolding opo_msg_id
opo_msg_id-message (id, v) h = rw (read-fill_uint64 id (encode v) h) refl

process_async_loop-cons :
    (f naps tries max cnt : ℕ) (a : Async) (p : ℕ × Value) (ms : List Bytes)
    → Holds a.async_queue (message p ∷ ms)
    → a.async_queue.pop_lock ≡ false
    → p.0 < 2 ^ 64
    → (max == 0 || ltb cnt max) ≡ true
    → (q : Queue Bytes) × Holds q ms
      × (q.pop_lock ≡ false)
      × (process_async_loop (suc f) (suc naps) tries unmoved still max cnt a
          ≡ process_async_loop f (suc naps) tries unmoved still max (cnt + 1) (answered_one p q a))
unfolding process_async_loop call_async
process_async_loop-cons f naps tries max cnt a p ms h free i m =
    let (q, e, h', free', _) =
      queue_pop-cons naps tries (unmoved 0) a.async_queue (message p) ms h free in
    (q, h', free', rw (m, e) (rw (opo_msg_id-message p i) refl))

process_async_loop-nil :
    (f naps tries max cnt : ℕ) (a : Async) (ys : List (ℕ × Value))
    → Holds a.async_queue (messages ys)
    → a.async_queue.pop_lock ≡ false
    → Stops max cnt ys
    → (q : Queue Bytes) × Holds q (messages ys)
      × (q.pop_lock ≡ false)
      × (process_async_loop (suc f) (suc naps) tries unmoved still max cnt a
          ≡ done (cnt, record a { async_queue = q }))
unfolding process_async_loop
process_async_loop-nil f naps tries max cnt a ys h free (inl (p, q)) =
    let e : (max == 0 || ltb cnt max) ≡ false = ground arith in (a.async_queue, h, free, rw e refl)
process_async_loop-nil f naps tries max cnt a [] h free (inr (p, q)) =
    let e : (max == 0 || ltb cnt max) ≡ true = ground arith in
    let (q', e', h', free', _) =
      queue_pop-nil naps tries (unmoved 0) a.async_queue h free (λ n r. refl) in
    (q', h', free', rw (e, e') refl)
process_async_loop-nil f naps tries max cnt a (y ∷ ys) h free (inr (p, q)) =
    let l : length (y ∷ ys) ≡ 0 = ap length q in absurd (omega (arith, l))

-- the client after the answers `xs`, where `ys` are left
abbrev pub Answered : List (ℕ × Value) → List (ℕ × Value) → Async → Async → Type 0
Answered xs ys a a' =
    Holds a'.async_queue (messages ys)
    × (a'.async_queue.pop_lock ≡ false)
    × (a'.calls ≡ a.calls ++ answers xs)
    × (a'.pending + length xs ≡ a.pending)
    × (a'.written ≡ a.written)

process_async_loop-Answered :
    (f naps tries max cnt : ℕ) (a : Async) (xs ys : List (ℕ × Value))
    → Holds a.async_queue (messages (xs ++ ys))
    → a.async_queue.pop_lock ≡ false
    → AllIds xs
    → length xs < f
    → Stops max (cnt + length xs) ys
    → length xs ≤ a.pending
    → a.pending < 2 ^ 64
    → (a' : Async) × (process_async_loop f (suc naps) tries unmoved still max cnt a
        ≡ done (cnt + length xs, a'))
      × Answered xs ys a a'
process_async_loop-Answered zero naps tries max cnt a xs ys h free i l s p b = absurd (omega arith)
process_async_loop-Answered (suc f) naps tries max cnt a [] ys h free i l s p b =
    let z : cnt + 0 ≡ cnt = omega arith in
    let (q, h', free', e) =
      process_async_loop-nil f naps tries max cnt a ys h free (subst (λ n. Stops max n ys) z s) in
    (
      record a { async_queue = q },
      e ∙ ap (λ n. done (n, record a { async_queue = q })) (sym z),
      (h', free', sym (append-nil a.calls), omega arith, refl),
    )
process_async_loop-Answered (suc f) naps tries max cnt a (x ∷ xs) ys h free i l s p b =
    let z : cnt + suc (length xs) ≡ cnt + 1 + length xs = omega arith in
    let one : (a.pending + (2 ^ 64 - 1)) % 2 ^ 64 ≡ a.pending - 1 = ground arith in
    let (q, h', free', e) =
      process_async_loop-cons f naps tries max cnt a x (messages (xs ++ ys)) h free i.0 (more s) in
    let (a', e', (h'', free'', k, d, w)) =
      process_async_loop-Answered f naps tries max (cnt + 1) (answered_one x q a) xs ys h' free' i.1
        (omega arith) (subst (λ n. Stops max n ys) z s) (omega arith) (omega arith) in
    (
      a',
      e ∙ e' ∙ ap (λ n. done (n, a')) (sym z),
      (h'', free'', k ∙ append_assoc a.calls ((x.0, message x) ∷ []) (answers xs), omega arith, w),
    )
  where
    more : Stops max (cnt + suc (length xs)) ys → (max == 0 || ltb cnt max) ≡ true
    more (inl (p, q)) = ground arith
    more (inr (inl p, q)) = ground arith
    more (inr (inr p, q)) = ground arith

-- With no other thread acting, and a callback that leaves the client alone, `opo_client_process`
-- takes the messages that wait in the queue in the order in which they came, until `max` of them
-- are done or none is left (fuel for one round more): the callback is called once with each, and
-- with its id, their number is the answer, as many queries fewer are pending, and the queue holds
-- the others. At least as many queries as messages have to be pending.
pub process_async-Answered :
    (f naps tries max : ℕ) (a : Async) (xs ys : List (ℕ × Value))
    → Holds a.async_queue (messages (xs ++ ys))
    → a.async_queue.pop_lock ≡ false
    → AllIds xs
    → length xs < f
    → Stops max (length xs) ys
    → length xs ≤ a.pending
    → a.pending < 2 ^ 64
    → (a' : Async) × (process_async f (suc naps) tries unmoved still max a ≡ done (length xs, a'))
      × Answered xs ys a a'
unfolding process_async
process_async-Answered f naps tries max a xs ys h free i l s p b =
    let z : 0 + length xs ≡ length xs = omega arith in
    let (a', e, r) =
      process_async_loop-Answered f naps tries max 0 a xs ys h free i l
        (subst (λ n. Stops max n ys) (sym z) s) p b in
    (a', e ∙ ap (λ n. done (n, a')) z, r)
