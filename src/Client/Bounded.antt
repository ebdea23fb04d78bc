-- ===== src/Client/Bounded.antt =====
-- Whatever comes from the network, `recv_loop` stays inside its buffer and its messages.
use opo_c.Prelude.{
  ℕ, zero, suc, ◌+◌, ◌-◌, ◌≤◌, ◌<◌, ◌≡◌, ◌==◌, leb, leb→le, tests, if◌then◌else◌, refl, ap, Option,
  none, some, [], ◌∷◌, ◌++◌, Bool, true, false, ◌||◌, ◌&&◌, length, take, drop, length-append,
  length-take, length-drop, Bool-cases, Option-cases, inl, inr, ◌⊎◌, arith,
}
use mathlib.Core.Path.{subst}
use opo_c.Outcome.{Outcome, done, Done, Done->>=}
use opo_c.Bytes.{Bytes}
use opo_c.Err.{opo_err_ok, opo_err_read, text}
use opo_c.Client.Recv.{
  Net, Recv, Poll, poll_error, poll_none, poll_events, report, is_none, deliver, cut_loop, read_buf,
  read_msg, read_in, hang_up, polled_case, recv_round, recv_loop,
}
use opo_c.Client.Framed.{opo_msg_bsize_thirteen}

Answer-cases :
    (o : Option Bytes)
    → (o ≡ none) ⊎ ((o ≡ some []) ⊎ ((x : ℕ) × (xs : Bytes) × (o ≡ some (x ∷ xs))))
Answer-cases none = inl refl
Answer-cases (some []) = inr (inl refl)
Answer-cases (some (x ∷ xs)) = inr (inr (x, xs, refl))

-- `buf` has at most its size, or `msg` is there, in a block with room for more bytes, and `buf`
-- is empty.
abbrev pub InBounds : Bytes → Option (ℕ × Bytes) → Type 0
InBounds buf none = length buf ≤ 4096
InBounds buf (some (size, got)) = (buf ≡ []) × (length got < size) × (8 ≤ size)

module _ {W S : Type 0} (net : Net W) (hand_over : ℕ → Bytes → S → Outcome S)
    (room : (fd n : ℕ) (w : W) (b : Bytes) → (net.recv fd n w).0 ≡ some b → length b ≤ n)
    (total : (n : ℕ) (m : Bytes) (s : S)
      → 8 ≤ length m
      → Done (λ s'. Unit {0}) (hand_over n m s)) where
  abbrev pub Bounded : Recv S → Type 0
  Bounded r = InBounds r.buf r.msg

  if-Bounded : (b : Bool) (r r' : Recv S) → Bounded r → Bounded r' → Bounded (if b then r else r')
  if-Bounded true r r' h h' = h
  if-Bounded false r r' h h' = h'

  report-Bounded :
      (connected : Bool) (code : ℕ) (what : Bytes) (r : Recv S)
      → Bounded r
      → Bounded (report net hand_over connected code what r)
  unfolding report
  report-Bounded connected code what r h = elim (Bool-cases r.has_status) [
    | inl e ↦ rw e h
    | inr e ↦ rw e h
  ]

  abbrev Handed : Recv S → Recv S → Type 0
  Handed r r' = (r'.msg ≡ none) × (r'.buf ≡ r.buf)

  deliver-Bounded :
      (m : Bytes) (r : Recv S) → 8 ≤ length m → Done (Handed r) (deliver net hand_over m r)
  unfolding deliver
  deliver-Bounded m r h =
      Done->>= (λ s. Unit {0}) _ (hand_over r.handed m r.shared) _ (total r.handed m r.shared h)
        (λ s q. (refl, refl))

  cut_loop_stop :
      (f : ℕ) (w : W) (r : Recv S)
      → 0 < f
      → length r.buf < 13
      → cut_loop net hand_over f w r ≡ done r
  unfolding cut_loop
  cut_loop_stop zero w r p h = absurd (omega arith)
  cut_loop_stop (suc f) w r p h = let e : leb 13 (length r.buf) ≡ false = ground arith in rw e refl

  -- `msg` is none here: what is left of `buf` stays there, or begins the next message
  cut_loop-Bounded :
      (f : ℕ) (w : W) (r : Recv S)
      → r.msg ≡ none
      → length r.buf ≤ 4096
      → length r.buf < f
      → Done Bounded (cut_loop net hand_over f w r)
  unfolding cut_loop
  cut_loop-Bounded zero w r m h l = absurd (omega arith)
  cut_loop-Bounded (suc f) w r m h l = elim (Bool-cases (leb 13 (length r.buf))) [
    | inr e ↦ rw (e, m) h
    | inl e ↦
        let (n, z, _) = opo_msg_bsize_thirteen r.buf [] (leb→le 13 (length r.buf) e) in
        elim (Bool-cases (net.malloc w (n + 8))) [
          | inr e' ↦ rw (e, z, e') (report-Bounded true _ _ r (rw m h))
          | inl e' ↦ elim (Bool-cases (leb (n + 8) (length r.buf))) [
            | inl e'' ↦
                let q = leb→le (n + 8) (length r.buf) e'' in
                let o = length-drop (n + 8) r.buf in
                rw (e, z, e', e'')
                  (Done->>= _ Bounded _ (λ r'. cut_loop net hand_over f w r')
                    (deliver-Bounded (take (n + 8) r.buf) (record r { buf = drop (n + 8) r.buf })
                      (omega (arith, length-take (n + 8) r.buf q)))
                    (λ r' (m', b').
                      cut_loop-Bounded f w r' m' (omega (arith, ap length b'))
                        (omega (arith, ap length b'))))
            | inr e'' ↦
                rw
                  (
                    e,
                    z,
                    e',
                    e'',
                    cut_loop_stop f w (record r { msg = some (n + 8, r.buf); buf = [] })
                        (omega tests) (omega arith),
                  )
                  (refl, ground arith, omega arith)
          ]
        ]
  ]

  read_buf-Bounded :
      (w : W) (r : Recv S)
      → r.msg ≡ none
      → length r.buf ≤ 4096
      → Done (λ wr. Bounded wr.1) (read_buf net hand_over w r)
  unfolding read_buf
  read_buf-Bounded w r m h =
      let b : Bounded r = rw m h in
      elim (Answer-cases (net.recv r.sock (4096 - length r.buf) w).0) [
        | inl e ↦ rw (e, read_buf) (if-Bounded _ _ r (report-Bounded false _ _ r b) b)
        | inr (inl e) ↦ rw (e, read_buf) (if-Bounded _ _ r (report-Bounded false _ _ r b) b)
        | inr (inr (x, xs, e)) ↦
            let fits = room r.sock (4096 - length r.buf) w (x ∷ xs) e in
            rw (e, read_buf)
              (Done->>= Bounded _ _ _
                (cut_loop-Bounded (suc (length r.buf + length (x ∷ xs)))
                  (net.recv r.sock (4096 - length r.buf) w).1 (record r { buf = r.buf ++ (x ∷ xs) })
                  m (omega (arith, length-append r.buf (x ∷ xs)))
                  (omega (arith, length-append r.buf (x ∷ xs))))
                (λ r' b'. b'))
      ]

  read_msg-Bounded :
      (size : ℕ) (got : Bytes) (w : W) (r : Recv S)
      → r.msg ≡ some (size, got)
      → InBounds r.buf (some (size, got))
      → Done (λ wr. Bounded wr.1) (read_msg net hand_over size got w r)
  unfolding read_msg
  read_msg-Bounded size got w r m (h, l, q) =
      elim (Option-cases (net.recv r.sock (size - length got) w).0) [
        | inl e ↦ rw (e, read_msg) (report-Bounded false _ _ r (rw m (h, l, q)))
        | inr (bytes, e) ↦
            let fits = room r.sock (size - length got) w bytes e in
            let a = length-append got bytes in
            elim (Bool-cases (size == length (got ++ bytes))) [
              | inl e' ↦
                  rw (e, e', read_msg)
                    (Done->>= (Handed r) _ (deliver net hand_over (got ++ bytes) r) _
                      (deliver-Bounded (got ++ bytes) r (ground arith))
                      (λ r' (m', b'). rw (m', b', h) (omega arith)))
              | inr e' ↦ rw (e, e', read_msg) (h, ground arith, q)
            ]
      ]

  read_in-Bounded :
      (w : W) (r : Recv S) → Bounded r → Done (λ wr. Bounded wr.1) (read_in net hand_over w r)
  unfolding read_in
  read_in-Bounded w r h = elim (Option-cases r.msg) [
    | inl e ↦ rw (e, read_in) (read_buf-Bounded w r e (subst (InBounds r.buf) e h))
    | inr ((size, got), e) ↦
        rw (e, read_in) (read_msg-Bounded size got w r e (subst (InBounds r.buf) e h))
  ]

  hang_up-Bounded :
      (hup : Bool) (w : W) (r : Recv S) → Bounded r → Bounded (hang_up net hand_over hup w r)
  unfolding hang_up
  hang_up-Bounded hup w r h =
      let closed = report net hand_over false opo_err_ok (text "connection closed") r in
      let lost =
        report net hand_over false opo_err_read (text "closed with outstanding responses") r in
      let failed = report net hand_over false (net.errno w) (text "socket error.") r in
      if-Bounded (length r.buf == 0 && is_none net hand_over r.msg)
        (if net.active w then closed else r) (if hup then lost else failed)
        (if-Bounded (net.active w) closed r (report-Bounded false _ _ r h) h)
        (if-Bounded hup lost failed (report-Bounded false _ _ r h) (report-Bounded false _ _ r h))

  polled_case-Bounded :
      (polled : Poll) (w : W) (r : Recv S)
      → Bounded r
      → Done (λ x. Bounded x.2) (polled_case net hand_over polled w r)
  unfolding polled_case
  polled_case-Bounded (poll_error e) w r h = elim (Bool-cases (e == 11)) [
    | inl q ↦ rw q h
    | inr q ↦ rw q (report-Bounded false _ _ r h)
  ]
  polled_case-Bounded poll_none w r h = h
  polled_case-Bounded (poll_events pollin err hup nval) w r h =
      Done->>= (λ wr. Bounded wr.1) _ _ _
        (elim pollin
          as (λ b.
            Done (λ wr. Bounded wr.1) (if b then read_in net hand_over w r else done (w, r))) [
              | true ↦ read_in-Bounded w r h
              | false ↦ h
            ])
        (λ (w', r') b.
          if-Bounded (err || (hup || nval)) _ r' (hang_up-Bounded (hup || nval) w' r' b) b)

  -- Whatever comes from the network, any number of rounds of `recv_loop` ends without a read
  -- outside the bytes that are there, and leaves at most 4096 bytes in its buffer, or an empty
  -- buffer and a message with room for more, if it begins so. `recv` may answer no more bytes
  -- than it is asked for, and handing over any message of eight bytes or more has to end.
  pub recv_loop-Bounded :
      (n : ℕ) (w : W) (r : Recv S)
      → Bounded r
      → Done (λ wr. Bounded wr.1) (recv_loop net hand_over n w r)
  unfolding recv_loop recv_round
  recv_loop-Bounded zero w r h = h
  recv_loop-Bounded (suc n) w r h = elim (Bool-cases (net.active w)) [
    | inr e ↦ rw e h
    | inl e ↦ rw e (
        Done->>= {A = Bool × W × Recv S} {B = W × Recv S} (λ x. Bounded x.2) _ _ _
          (polled_case-Bounded (net.poll r.sock w).0 (net.poll r.sock w).1 r h)
          (λ (on, w', r') b.
            elim on
              as (λ on.
                Done (λ wr. Bounded wr.1)
                  (let rest = recv_loop net hand_over n w' r' in
                    if on then rest else done (w', r'))) [
                      | true ↦ recv_loop-Bounded n w' r' b
                      | false ↦ b
                    ]))
  ]
