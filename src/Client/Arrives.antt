-- ===== src/Client/Arrives.antt =====
-- One `recv` of `recv_loop`: the messages that it completes are handed over.
use opo_c.Prelude.{
  ℕ, suc, ◌+◌, ◌-◌, ◌≤◌, ◌<◌, ◌≡◌, ◌==◌, if◌then◌else◌, refl, sym, ap, ◌∙◌, Option, none, some,
  List, [], ◌∷◌, ◌++◌, true, false, length, length-append, append_assoc, take-all, drop-all,
  Bool-cases, inl, inr, ◌⊎◌, arith,
}
use opo_c.Outcome.{Outcome, done, ◌>>=◌}
use opo_c.Bytes.{Bytes}
use opo_c.Client.Recv.{
  Net, Recv, poll_none, poll_events, buf_size, deliver, cut_loop, read_buf, read_msg, read_in,
}
use opo_c.Client.Cut.{
  concat, AllMessages, Waits, bind_assoc, front, Hands-eq, hand_all, at, Hands, cut_loop-Hands,
}

-- What the loop relies on while a connection is open, on the descriptor `fd`: the bytes of
-- `stream` still come, and `due` bounds the rounds until all of them have. `poll` runs into its
-- timeout, or it finds bytes, of which `recv` answers as many as it likes, at least one and at
-- most as many as there is room for.
pub record Arrives {W : Type 0} (net : Net W) (fd : ℕ) : Type 0 where
  pub stream : W → Bytes
  pub due : W → ℕ
  pub over : (w : W) → due w ≡ 0 → stream w ≡ []
  pub active : (w : W) → net.active w ≡ true
  pub malloc : (w : W) (n : ℕ) → net.malloc w n ≡ true
  pub poll :
      (w : W)
      → (w' : W) × (stream w' ≡ stream w)
        × (((net.poll fd w ≡ (poll_none, w')) × (due w' ≤ due w - 1))
            ⊎ ((net.poll fd w ≡ (poll_events true false false false, w'))
                × (due w' ≤ due w)
                × (0 < length (stream w))))
  pub recv :
      (n : ℕ) (w : W)
      → 0 < n
      → 0 < length (stream w)
      → (w' : W) × (x : ℕ) × (xs : Bytes) × (net.recv fd n w ≡ (some (x ∷ xs), w'))
        × (length (x ∷ xs) ≤ n)
        × ((x ∷ xs) ++ stream w' ≡ stream w)
        × (due w' ≤ due w - 1)

module _ {W S : Type 0} (net : Net W) (hand_over : ℕ → Bytes → S → Outcome S) (fd : ℕ)
    (open_to : Arrives net fd) where
  abbrev pub with_world : W → Recv S → W × Recv S
  with_world w r = (w, r)

  -- The code reads what came by the world `w'`, where it hands over some of the messages.
  abbrev pub Reads :
      {X : Type 0} → (W → Recv S → X) → W → Recv S → List Bytes → (ℕ → S → Outcome X) → Type 0
  Reads wrap w r ms code =
      (w' : W) × (open_to.due w' ≤ open_to.due w - 1)
      × Hands net hand_over (wrap w') r ms (open_to.stream w') code

  -- what `recv` gave goes behind the bytes in `buf`, or in the message
  read_buf_lem :
      (w w' : W) (r : Recv S) (x : ℕ) (xs : Bytes)
      → net.recv r.sock (buf_size - length r.buf) w ≡ (some (x ∷ xs), w')
      → read_buf net hand_over w r ≡ (
          cut_loop net hand_over
            (suc (length r.buf + length (x ∷ xs)))
            w'
            (record r { buf = r.buf ++ (x ∷ xs) })
          >>= λ r'. done (w', r'))
  unfolding read_buf
  read_buf_lem w w' r x xs e =
      let a : (net.recv r.sock (buf_size - length r.buf) w).0 ≡ some (x ∷ xs) = ap (λ p. p.0) e in
      let b : (net.recv r.sock (buf_size - length r.buf) w).1 ≡ w' = ap (λ p. p.1) e in
      rw (a, b, read_buf) refl

  read_msg_lem :
      (w w' : W) (r : Recv S) (size : ℕ) (got bytes : Bytes)
      → net.recv r.sock (size - length got) w ≡ (some bytes, w')
      → read_msg net hand_over size got w r ≡ (
          if size == length (got ++ bytes)
          then (deliver net hand_over (got ++ bytes) r >>= λ r'. done (w', r'))
          else done (w', record r { msg = some (size, got ++ bytes) }))
  unfolding read_msg
  read_msg_lem w w' r size got bytes e =
      let a : (net.recv r.sock (size - length got) w).0 ≡ some bytes = ap (λ p. p.0) e in
      let b : (net.recv r.sock (size - length got) w).1 ≡ w' = ap (λ p. p.1) e in
      rw (a, b, read_msg) refl

  buf-Hands :
      (w w' : W) (r : Recv S) (ms : List Bytes) (buf rest : Bytes) (x : ℕ) (xs : Bytes)
      → net.recv r.sock (buf_size - length buf) w ≡ (some (x ∷ xs), w')
      → AllMessages ms
      → buf ++ ((x ∷ xs) ++ rest) ≡ concat ms
      → Hands net hand_over
          (with_world w')
          r
          ms
          rest
          (λ k s. read_buf net hand_over w (at net hand_over r buf none k s))
  buf-Hands w w' r ms buf rest x xs e a p =
      let (now, later, o, buf', msg, waits, go) =
        cut_loop-Hands net hand_over (suc (length buf + length (x ∷ xs))) w' r ms (buf ++ (x ∷ xs))
          rest (open_to.malloc w') a (omega (arith, length-append buf (x ∷ xs)))
          (append_assoc buf (x ∷ xs) rest ∙ p) in
      (
        now,
        later,
        o,
        buf',
        msg,
        waits,
        λ k s.
            read_buf_lem w w' (at net hand_over r buf none k s) x xs e
            ∙ ap (λ m. m >>= λ r'. done (w', r')) (go k s)
            ∙ bind_assoc (hand_all net hand_over now k s) _ _,
      )

  read_buf-Reads :
      (w : W) (r : Recv S) (ms : List Bytes) (buf : Bytes)
      → r.sock ≡ fd
      → AllMessages ms
      → Waits buf none ms (open_to.stream w)
      → 0 < length (open_to.stream w)
      → Reads with_world w r ms (λ k s. read_buf net hand_over w (at net hand_over r buf none k s))
  read_buf-Reads w r ms buf z a (l, p) h =
      let (w', x, xs, e, _, q, d) = open_to.recv (buf_size - length buf) w (omega arith) h in
      (
        w',
        d,
        buf-Hands w w' r ms buf (open_to.stream w') x xs
            (ap (λ s. net.recv s (buf_size - length buf) w) z ∙ e) a (ap (λ b. buf ++ b) q ∙ p),
      )

  -- `bytes` have come of the message `m`
  message-Hands :
      (w' : W) (r : Recv S) (m : Bytes) (ms : List Bytes) (msg : Option (ℕ × Bytes))
      (bytes rest : Bytes)
      → length bytes ≤ length m
      → bytes ++ rest ≡ m ++ concat ms
      → Hands net hand_over (with_world w') r (m ∷ ms) rest (λ k s.
        if length m == length bytes
        then (deliver net hand_over bytes (at net hand_over r [] msg k s) >>= λ r'. done (w', r'))
        else done (w', at net hand_over r [] (some (length m, bytes)) k s))
  unfolding deliver
  message-Hands w' r m ms msg bytes rest l p = elim (Bool-cases (length m == length bytes)) [
    | inl e ↦
        let q : length m ≡ length bytes = ground arith in
        let (t, c) = front m (concat ms) bytes rest p (omega arith) in
        let b : bytes ≡ m = sym (take-all bytes (length m) (omega arith)) ∙ t in
        (
          m ∷ [],
          ms,
          refl,
          [],
          none,
          (omega arith, ap (λ x. x ++ rest) (sym (drop-all bytes (length m) (omega arith))) ∙ c),
          λ k s.
              rw (e, b) (bind_assoc (hand_over k m s) _ _ ∙ sym (bind_assoc (hand_over k m s) _ _)),
        )
    | inr e ↦ (
      [],
      m ∷ ms,
      refl,
      [],
      some (length m, bytes),
      (refl, refl, ground arith, p),
      λ k s. rw e refl,
    )
  ]

  read_msg-Reads :
      (w : W) (r : Recv S) (m : Bytes) (ms : List Bytes) (got : Bytes)
      → r.sock ≡ fd
      → length got < length m
      → got ++ open_to.stream w ≡ m ++ concat ms
      → 0 < length (open_to.stream w)
      → Reads with_world w r (m ∷ ms) (λ k s.
        read_msg net hand_over (length m) got w (at net hand_over r [] (some (length m, got)) k s))
  read_msg-Reads w r m ms got z l p h =
      let (w', x, xs, e, n, q, d) = open_to.recv (length m - length got) w (omega arith) h in
      (
        w',
        d,
        Hands-eq net hand_over (with_world w') r (m ∷ ms) (open_to.stream w') _ _
            (λ k s.
              read_msg_lem w w' (at net hand_over r [] (some (length m, got)) k s) (length m) got
                (x ∷ xs) (ap (λ s. net.recv s (length m - length got) w) z ∙ e))
            (message-Hands w' r m ms (some (length m, got)) (got ++ (x ∷ xs)) (open_to.stream w')
              (omega (arith, length-append got (x ∷ xs)))
              (append_assoc got (x ∷ xs) (open_to.stream w') ∙ ap (λ b. got ++ b) q ∙ p)),
      )

  pub read_in-Reads :
      (w : W) (r : Recv S) (ms : List Bytes) (buf : Bytes) (msg : Option (ℕ × Bytes))
      → r.sock ≡ fd
      → AllMessages ms
      → Waits buf msg ms (open_to.stream w)
      → 0 < length (open_to.stream w)
      → Reads with_world w r ms (λ k s. read_in net hand_over w (at net hand_over r buf msg k s))
  unfolding read_in
  read_in-Reads w r ms buf none z a q h = read_buf-Reads w r ms buf z a q h
  read_in-Reads w r [] buf (some (size, got)) z a q h = absurd q
  read_in-Reads w r (m ∷ ms) buf (some (size, got)) z a (e, e', l, p) h =
      rw (e, e') (read_msg-Reads w r m ms got z (omega arith) p h)
