-- ===== src/Client/Frames.antt =====
-- `recv_loop` hands over the messages of a connection, however the network cuts them up.
use opo_c.Prelude.{
  ℕ, zero, suc, ◌≤◌, ◌≡◌, if◌then◌else◌, refl, sym, ap, ◌∙◌, Option, none, some, List, [], ◌∷◌,
  Bool, true, false, length, length-append, append-nil, inl, inr, arith,
}
use mathlib.Core.Path.{subst}
use opo_c.Outcome.{Outcome, done, ◌>>=◌}
use opo_c.Bytes.{Bytes}
use opo_c.Client.Recv.{
  Net, Recv, poll_none, poll_events, read_in, polled_case, recv_round, recv_loop,
}
use opo_c.Client.Framed.{length-IsMessage}
use opo_c.Client.Cut.{
  concat, AllMessages, AllMessages-right, Waits, bind_assoc, hand_all, hand_all-append, at,
}
use opo_c.Client.Arrives.{Arrives, Reads, read_in-Reads}

module _ {W S : Type 0} (net : Net W) (hand_over : ℕ → Bytes → S → Outcome S) (fd : ℕ)
    (open_to : Arrives net fd) where
  abbrev on : W → Recv S → Bool × W × Recv S
  on w r = (true, w, r)

  -- a round in which `poll` finds bytes
  round_bytes :
      (w w' : W) (r : Recv S)
      → net.poll r.sock w ≡ (poll_events true false false false, w')
      → recv_round net hand_over w r
        ≡ (read_in net hand_over w' r >>= λ (w'', r'). done (true, w'', r'))
  unfolding recv_round polled_case
  round_bytes w w' r e =
      let a : (net.poll r.sock w).0 ≡ poll_events true false false false = ap (λ p. p.0) e in
      let b : (net.poll r.sock w).1 ≡ w' = ap (λ p. p.1) e in rw (a, b) refl

  -- a round in which it runs into its timeout
  round_none :
      (w w' : W) (r : Recv S)
      → net.poll r.sock w ≡ (poll_none, w')
      → recv_round net hand_over w r ≡ done (true, w', r)
  unfolding recv_round polled_case
  round_none w w' r e =
      let a : (net.poll r.sock w).0 ≡ poll_none = ap (λ p. p.0) e in
      let b : (net.poll r.sock w).1 ≡ w' = ap (λ p. p.1) e in rw (a, b) refl

  recv_round-Reads :
      (w : W) (r : Recv S) (ms : List Bytes) (buf : Bytes) (msg : Option (ℕ × Bytes))
      → r.sock ≡ fd
      → AllMessages ms
      → Waits buf msg ms (open_to.stream w)
      → Reads net hand_over fd open_to on w r ms
          (λ k s. recv_round net hand_over w (at net hand_over r buf msg k s))
  recv_round-Reads w r ms buf msg z a q =
      let (w', e, polled) = open_to.poll w in
      elim polled [
        | inl (p, d) ↦ (
          w',
          d,
          (
            [],
            ms,
            refl,
            buf,
            msg,
            subst (Waits buf msg ms) (sym e) q,
            λ k s. round_none w w' (at net hand_over r buf msg k s) (ap (λ s. net.poll s w) z ∙ p),
          ),
        )
        | inr (p, d, h) ↦
            let (w'', d', (now, later, o, buf', msg', waits, go)) =
              read_in-Reads net hand_over fd open_to w' r ms buf msg z a
                (subst (Waits buf msg ms) (sym e) q) (omega (arith, ap length e)) in
            (
              w'',
              omega arith,
              (
                now,
                later,
                o,
                buf',
                msg',
                waits,
                λ k s.
                    round_bytes w w' (at net hand_over r buf msg k s) (ap (λ s. net.poll s w) z ∙ p)
                    ∙ ap (λ m. m >>= λ (w'', r'). done (true, w'', r')) (go k s)
                    ∙ bind_assoc (hand_all net hand_over now k s) _ _,
              ),
            )
      ]

  -- when nothing more comes, every message has
  Waits-nil :
      (ms : List Bytes) (buf : Bytes) (msg : Option (ℕ × Bytes))
      → AllMessages ms
      → Waits buf msg ms []
      → (ms ≡ []) × (buf ≡ []) × (msg ≡ none)
  Waits-nil [] buf none a (l, p) = (refl, sym (append-nil buf) ∙ p, refl)
  Waits-nil (m ∷ ms) buf none a (l, p) = absurd (
      omega (
        arith,
        ap length p,
        length-append buf [],
        length-append m (concat ms),
        length-IsMessage m a.0,
      ))
  Waits-nil [] buf (some (size, got)) a q = absurd q
  Waits-nil (m ∷ ms) buf (some (size, got)) a (_, e, l, p) =
      absurd (omega (arith, ap length p, length-append got [], length-append m (concat ms)))

  continue_with : ℕ → Bool × W × Recv S → Outcome (W × Recv S)
  continue_with n (go_on, w, r) =
      let rest = recv_loop net hand_over n w r in if go_on then rest else done (w, r)

  recv_loop_lem :
      (n : ℕ) (w : W) (r : Recv S)
      → recv_loop net hand_over (suc n) w r ≡ (recv_round net hand_over w r >>= continue_with n)
  unfolding recv_loop continue_with
  recv_loop_lem n w r = rw (open_to.active w) refl

  loop-hand_all :
      (n : ℕ) (w : W) (r : Recv S) (ms : List Bytes) (buf : Bytes) (msg : Option (ℕ × Bytes))
      → r.sock ≡ fd
      → AllMessages ms
      → Waits buf msg ms (open_to.stream w)
      → open_to.due w ≤ n
      → (w' : W) × ((k : ℕ) (s : S)
          → recv_loop net hand_over n w (at net hand_over r buf msg k s) ≡ (
              hand_all net hand_over ms k s >>= λ (k', s').
              done (w', at net hand_over r [] none k' s')))
  unfolding recv_loop continue_with
  loop-hand_all zero w r ms buf msg z a q h =
      let (e, e', e'') =
        Waits-nil ms buf msg a (subst (Waits buf msg ms) (open_to.over w (omega arith)) q) in
      (w, λ k s. rw (e, e', e'') refl)
  loop-hand_all (suc n) w r ms buf msg z a q h =
      let (w₁, d, (now, later, o, buf', msg', waits, go)) = recv_round-Reads w r ms buf msg z a q in
      let (w', rest) =
        loop-hand_all n w₁ r later buf' msg' z (AllMessages-right now later (subst AllMessages o a))
          waits (omega arith) in
      (
        w',
        λ k s.
            recv_loop_lem n w (at net hand_over r buf msg k s)
            ∙ ap (λ m. m >>= continue_with n) (go k s)
            ∙ bind_assoc (hand_all net hand_over now k s) _ _
            ∙ ap (λ (g : ℕ × S → Outcome (W × Recv S)). hand_all net hand_over now k s >>= g)
                (λ i ks. rest ks.0 ks.1 i)
            ∙ sym (bind_assoc (hand_all net hand_over now k s) _ _)
            ∙ ap (λ m. m >>= λ (k', s'). done (w', at net hand_over r [] none k' s'))
                (sym (hand_all-append net hand_over now later k s))
            ∙ ap
                (λ l. hand_all net hand_over l k s >>= λ (k', s').
                  done (w', at net hand_over r [] none k' s'))
                (sym o),
      )

  -- Where the bytes of some messages come over an open connection, each with a value of five
  -- bytes at least, and `recv_loop` has nothing left over, it hands over exactly these messages,
  -- in order, and keeps no bytes back, however `recv` cuts the bytes up and however long `poll`
  -- waits in between; enough rounds are those until the last byte has come.
  pub recv_loop-messages :
      (n : ℕ) (w : W) (r : Recv S) (ms : List Bytes)
      → r.sock ≡ fd
      → r.buf ≡ []
      → r.msg ≡ none
      → AllMessages ms
      → open_to.stream w ≡ concat ms
      → open_to.due w ≤ n
      → (w' : W) × (recv_loop net hand_over n w r ≡ (
          hand_all net hand_over ms r.handed r.shared >>= λ (k, s).
          done (w', record r { buf = []; msg = none; handed = k; shared = s })))
  recv_loop-messages n w r ms z b m a e h =
      let (w', run) = loop-hand_all n w r ms [] none z a (omega arith, e) h in
      (
        w',
        (λ i. recv_loop net hand_over n w (at net hand_over r (b i) (m i) r.handed r.shared))
            ∙ run r.handed r.shared,
      )
