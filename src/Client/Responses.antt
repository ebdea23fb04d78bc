-- ===== src/Client/Responses.antt =====
-- From the socket to the callbacks of the queries: `recv_loop`, `process_msg` and
-- `opo_client_process` of a client without a `query_callback`.
use opo_c.Prelude.{
  ℕ, suc, ◌+◌, ◌^◌, ◌<◌, ◌≤◌, ◌≡◌, refl, sym, ap, ◌∙◌, inl, inr, List, false, none, [], ◌∷◌, ◌++◌,
  length, append_assoc, append-nil, Bool-cases, ◌||◌, ◌==◌, arith,
}
use mathlib.Core.Path.{subst}
use opo_c.Outcome.{Outcome, done, ◌>>=◌}
use opo_c.Bytes.{Bytes, fill_uint64}
use opo_c.Builder.{Heap}
use opo_c.Queue.{Queue}
use opo_c.Wire.{Value, encode, IsValid}
use opo_c.Client.{Query, Client, wake_ready}
use opo_c.Client.Process.{opo_client_process}
use opo_c.Client.Async.{Async}
use opo_c.Client.Ring.{Ring}
use opo_c.Client.Accept.{answered, accepted, process_msg-on_deck}
use opo_c.Client.Submit.{idle}
use opo_c.Client.Drain.{callbacks}
use opo_c.Client.Calls.{quiet, opo_client_process-calls}
use opo_c.Client.Recv.{Net, Recv, recv_loop, hand_over}
use opo_c.Client.Cut.{concat, AllMessages, hand_all}
use opo_c.Client.Arrives.{Arrives}
use opo_c.Client.Frames.{recv_loop-messages}

module _ {K : Type 0} where
  -- queries and the values that they are answered with
  abbrev pub queries : List (Query K × Value) → List (Query K)
  queries [] = []
  queries ((y, v) ∷ ps) = y ∷ queries ps

  abbrev pub responses : List (Query K × Value) → List Bytes
  responses [] = []
  responses ((y, v) ∷ ps) = (fill_uint64 y.id ++ encode v) ∷ responses ps

  abbrev pub answered_all : List (Query K × Value) → List (Query K)
  answered_all [] = []
  answered_all ((y, v) ∷ ps) = answered (fill_uint64 y.id ++ encode v) y ∷ answered_all ps

  abbrev pub AllAnswers : List (Query K × Value) → Type 0
  AllAnswers [] = Unit
  AllAnswers ((y, v) ∷ ps) = (y.id < 2 ^ 64) × IsValid v × (5 ≤ length (encode v)) × AllAnswers ps

  AllAnswers-AllMessages :
      (ps : List (Query K × Value)) → AllAnswers ps → AllMessages (responses ps)
  AllAnswers-AllMessages [] a = tt
  AllAnswers-AllMessages ((y, v) ∷ ps) (i, h, l, a) =
      ((y.id, v, h, l, refl), AllAnswers-AllMessages ps a)

  length-answered_all : (ps : List (Query K × Value)) → length (answered_all ps) ≡ length ps
  length-answered_all [] = refl
  length-answered_all (p ∷ ps) = ap suc (length-answered_all ps)

  calls-wake_ready : (c : Client K) → (wake_ready c).calls ≡ c.calls
  unfolding wake_ready
  calls-wake_ready c = elim (Bool-cases (c.wsock == 0 || c.waiting == 0)) [
    | inl e ↦ rw e refl
    | inr e ↦ rw e refl
  ]

  module _ {W : Type 0} (net : Net W) (heap : Heap) (lost_msg : Bytes) (naps : ℕ)
      (world : ℕ → Queue Bytes → Queue Bytes) where
    -- no other thread acts on the client
    abbrev pub hand_response : ℕ → Bytes → Client K × Async → Outcome (Client K × Async)
    hand_response = hand_over heap lost_msg false (λ n s. s) naps world

    hand_all-Ring :
        (ps : List (Query K × Value)) (rs ss : List (Query K)) (k : ℕ) (c : Client K) (a : Async)
        → Ring c rs (queries ps ++ ss)
        → AllAnswers ps
        → (k' : ℕ) × (c' : Client K) × (hand_all net hand_response (responses ps) k (c, a)
            ≡ done (k', (c', a)))
          × Ring c' (rs ++ answered_all ps) ss
          × (c'.calls ≡ c.calls)
    unfolding hand_over
    hand_all-Ring [] rs ss k c a h i =
        (k, c, refl, subst (λ l. Ring c l ss) (sym (append-nil rs)) h, refl)
    hand_all-Ring ((y, v) ∷ ps) rs ss k c a h (i, _, _, i') =
        let msg = fill_uint64 y.id ++ encode v in
        let (e, h') = process_msg-on_deck heap lost_msg c rs (queries ps ++ ss) y (encode v) h i in
        let (k', c', e', h'', q) =
          hand_all-Ring ps (rs ++ (answered msg y ∷ [])) ss (k + 1) (wake_ready (accepted msg y c))
            a h' i' in
        (
          k',
          c',
          rw e e',
          subst (λ l. Ring c' l ss) (append_assoc rs (answered msg y ∷ []) (answered_all ps)) h'',
          q ∙ calls-wake_ready (accepted msg y c),
        )

    -- Over an open connection come the responses to the queries that have waited longest, with
    -- 64-bit ids, in the order of these, with valid values of at least five bytes, and no
    -- response is left to process. However the network cuts the bytes up, after the rounds until
    -- the last byte has come `opo_client_process` without a limit, with fuel for each and one
    -- more, calls the callback of each of these queries that has one with its id and its
    -- response, once and in order, and answers their number; the others wait as before. No other
    -- thread acts on the client, and callbacks leave it alone.
    pub opo_client_process-recv_loop :
        (fd : ℕ) (open_to : Arrives net fd) (n tries : ℕ) (w : W) (r : Recv (Client K × Async))
        (ps : List (Query K × Value)) (ss : List (Query K))
        → r.sock ≡ fd
        → r.buf ≡ []
        → r.msg ≡ none
        → AllAnswers ps
        → open_to.stream w ≡ concat (responses ps)
        → open_to.due w ≤ n
        → Ring r.shared.0 [] (queries ps ++ ss)
        → (c : Client K) × ((recv_loop net hand_response n w r >>= λ (w', r').
              opo_client_process (suc (length ps)) 1 tries (λ n. idle) quiet 0 false r'.shared.0)
            ≡ done (length ps, c))
          × Ring c [] ss
          × (c.calls ≡ r.shared.0.calls ++ callbacks (answered_all ps))
    opo_client_process-recv_loop fd open_to n tries w r ps ss z b m i e d h =
        let (w', run) =
          recv_loop-messages net hand_response fd open_to n w r (responses ps) z b m
            (AllAnswers-AllMessages ps i) e d in
        let (k, c, e', h', q) = hand_all-Ring ps [] ss r.handed r.shared.0 r.shared.1 h i in
        let l = length-answered_all ps in
        let (c', e'', h'', q', _, _, _) =
          opo_client_process-calls (suc (length ps)) 0 tries 0 c (answered_all ps) [] ss
            (subst (λ l. Ring c l ss) (sym (append-nil (answered_all ps))) h') (omega arith)
            (inr (inl refl, refl)) in
        (
          c',
          rw (run, e') (e'' ∙ ap (λ n. done (n, c')) l),
          h'',
          q' ∙ ap (λ x. x ++ callbacks (answered_all ps)) q,
        )
