-- ===== src/Client/Stream.antt =====
-- From the socket to the callback: `recv_loop`, the queue and `opo_client_process` of a client with a
-- `query_callback`.
use opo_c.Prelude.{
  ℕ, suc, ◌+◌, ◌^◌, ◌<◌, ◌≤◌, ◌≡◌, refl, sym, ◌∙◌, inl, inr, List, true, false, none, [], ◌∷◌, ◌++◌,
  length, length-append, append_assoc, append-nil, arith,
}
use mathlib.Core.Path.{subst}
use opo_c.Outcome.{Outcome, done, ◌>>=◌}
use opo_c.Bytes.{Bytes}
use opo_c.Builder.{Heap}
use opo_c.Queue.{Queue}
use opo_c.Queue.Holds.{Holds}
use opo_c.Queue.Push.{queue_push-Holds}
use opo_c.Wire.{Value, encode, IsValid}
use opo_c.Client.{Client}
use opo_c.Client.Async.{Async, process_async}
use opo_c.Client.Recv.{Net, Recv, recv_loop, hand_over}
use opo_c.Client.Cut.{concat, AllMessages, hand_all}
use opo_c.Client.Arrives.{Arrives}
use opo_c.Client.Frames.{recv_loop-messages}
use opo_c.Client.Answers.{messages, AllIds, still, unmoved, Answered, process_async-Answered}

abbrev pub AllSent : List (ℕ × Value) → Type 0
AllSent [] = Unit
AllSent (p ∷ ps) = IsValid p.1 × (5 ≤ length (encode p.1)) × AllSent ps

AllSent-AllMessages : (ps : List (ℕ × Value)) → AllSent ps → AllMessages (messages ps)
AllSent-AllMessages [] a = tt
AllSent-AllMessages ((id, v) ∷ ps) (h, l, a) = ((id, v, h, l, refl), AllSent-AllMessages ps a)

module _ {K W : Type 0} (net : Net W) (heap : Heap) (lost_msg : Bytes)
    (world : ℕ → Queue Bytes → Queue Bytes) where
  -- no other thread acts on the client
  abbrev pub hand : ℕ → Bytes → Client K × Async → Outcome (Client K × Async)
  hand = hand_over heap lost_msg true (λ n s. s) 1 world

  hand_all-queue :
      (ms xs : List Bytes) (k : ℕ) (c : Client K) (a : Async)
      → Holds a.async_queue xs
      → length xs + length ms < a.async_queue.size
      → (k' : ℕ) × (q : Queue Bytes) × (hand_all net hand ms k (c, a)
          ≡ done (k', (c, record a { async_queue = q })))
        × Holds q (xs ++ ms)
        × (q.pop_lock ≡ a.async_queue.pop_lock)
  unfolding hand_over
  hand_all-queue [] xs k c a h r =
      (k, a.async_queue, refl, subst (Holds a.async_queue) (sym (append-nil xs)) h, refl)
  hand_all-queue (m ∷ ms) xs k c a h r =
      let (q, e, h', s, l) = queue_push-Holds 0 world a.async_queue xs m h (omega arith) in
      let (k', q', e', h'', l') =
        hand_all-queue ms (xs ++ (m ∷ [])) (k + 1) c (record a { async_queue = q }) h'
          (omega (arith, length-append xs (m ∷ []))) in
      (k', q', rw e e', subst (Holds q') (append_assoc xs (m ∷ []) ms) h'', l' ∙ l)

  -- Over an open connection come the bytes of some valid messages, of values of at least five
  -- bytes, with 64-bit ids, fewer than there are slots in the queue, which is empty and not
  -- locked, and at most as many as queries are pending. However the network cuts the bytes up,
  -- after the rounds until the last byte has come `opo_client_process` without a limit, with fuel
  -- for each and one more, calls the callback with each message and its id, once and in order,
  -- answers their number, and leaves nothing in the queue and as many queries fewer pending;
  -- nothing is written. No other thread acts on the client, and the callback leaves it alone.
  pub process_async-recv_loop :
      (fd : ℕ) (open_to : Arrives net fd) (n naps tries : ℕ) (w : W) (r : Recv (Client K × Async))
      (ps : List (ℕ × Value))
      → r.sock ≡ fd
      → r.buf ≡ []
      → r.msg ≡ none
      → AllSent ps
      → AllIds ps
      → open_to.stream w ≡ concat (messages ps)
      → open_to.due w ≤ n
      → Holds r.shared.1.async_queue []
      → r.shared.1.async_queue.pop_lock ≡ false
      → length (messages ps) < r.shared.1.async_queue.size
      → length ps ≤ r.shared.1.pending
      → r.shared.1.pending < 2 ^ 64
      → (a' : Async) × ((recv_loop net hand n w r >>= λ (w', r').
            process_async (suc (length ps)) (suc naps) tries unmoved still 0 r'.shared.1)
          ≡ done (length ps, a'))
        × Answered ps [] r.shared.1 a'
  process_async-recv_loop fd open_to n naps tries w r ps z b m a i e d h free room p p' =
      let (w', run) =
        recv_loop-messages net hand fd open_to n w r (messages ps) z b m (AllSent-AllMessages ps a)
          e d in
      let (k, q, e', h', free') =
        hand_all-queue (messages ps) [] r.handed r.shared.0 r.shared.1 h (omega arith) in
      let (a', e'', done') =
        process_async-Answered (suc (length ps)) naps tries 0
          (record r.shared.1 { async_queue = q }) ps []
          (subst (λ l. Holds q (messages l)) (sym (append-nil ps)) h') (free' ∙ free) i
          (omega arith) (inr (inl refl, refl)) p p' in
      (a', rw (run, e') e'', done')
