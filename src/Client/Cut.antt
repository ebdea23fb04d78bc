-- ===== src/Client/Cut.antt =====
-- `recv_loop` cuts a stream of messages: what the inner loop and one `recv` do to it.
use opo_c.Prelude.{
  ℕ, zero, suc, ◌+◌, ◌≤◌, ◌<◌, ◌≡◌, leb, leb→le, tests, refl, sym, ap, ◌∙◌, Option, none, some,
  List, [], ◌∷◌, ◌++◌, true, false, length, take, drop, get_or, length-append, length-drop,
  Bool-cases, inl, inr, arith,
}
use opo_c.Outcome.{Outcome, done, ◌>>=◌}
use opo_c.Bytes.{Bytes}
use opo_c.Msg.{opo_msg_bsize}
use opo_c.Client.Recv.{Net, Recv, deliver, cut_loop}
use opo_c.Client.Framed.{IsMessage, opo_msg_bsize-IsMessage, length-IsMessage}

abbrev pub concat : List Bytes → Bytes
concat [] = []
concat (m ∷ ms) = m ++ concat ms

abbrev pub AllMessages : List Bytes → Type 0
AllMessages [] = Unit
AllMessages (m ∷ ms) = IsMessage m × AllMessages ms

pub AllMessages-right : (ms ms' : List Bytes) → AllMessages (ms ++ ms') → AllMessages ms'
AllMessages-right [] ms' a = a
AllMessages-right (m ∷ ms) ms' a = AllMessages-right ms ms' a.1

-- The bytes of the messages `ms` that have come and were not handed over, where `rest` still comes.
abbrev pub Waits : Bytes → Option (ℕ × Bytes) → List Bytes → Bytes → Type 0
Waits buf none ms rest = length buf < 13 × (buf ++ rest ≡ concat ms)
Waits buf (some (size, got)) [] rest = ⊥
Waits buf (some (size, got)) (m ∷ ms) rest =
    (buf ≡ []) × (size ≡ length m) × (length got < size) × (got ++ rest ≡ m ++ concat ms)

pub bind_assoc :
    {A B C : Type 0} (m : Outcome A) (f : A → Outcome B) (g : B → Outcome C)
    → ((m >>= f) >>= g) ≡ (m >>= λ a. f a >>= g)
bind_assoc (done a) f g = refl
bind_assoc Outcome.fault f g = refl
bind_assoc Outcome.out_of_fuel f g = refl

-- a message at the front of more bytes than it has
pub front :
    (m c b rest : Bytes)
    → b ++ rest ≡ m ++ c
    → length m ≤ length b
    → (take (length m) b ≡ m) × (drop (length m) b ++ rest ≡ c)
front [] c b rest p h = (refl, p)
front (x ∷ m) c [] rest p h = absurd (omega arith)
front (x ∷ m) c (y ∷ b) rest p h =
    let (e, e') = front m c b rest (ap (drop 1) p) (omega arith) in
    (ap (λ z. z ∷ take (length m) b) (ap (λ t. get_or t 0 0) p) ∙ ap (λ t. x ∷ t) e, e')

module _ {W S : Type 0} (net : Net W) (hand_over : ℕ → Bytes → S → Outcome S) where
  -- each message is handed over, the first as number `k`
  abbrev pub hand_all : List Bytes → ℕ → S → Outcome (ℕ × S)
  hand_all [] k s = done (k, s)
  hand_all (m ∷ ms) k s = do s' ← hand_over k m s; hand_all ms (k + 1) s'

  pub hand_all-append :
      (ms ms' : List Bytes) (k : ℕ) (s : S)
      → hand_all (ms ++ ms') k s ≡ (hand_all ms k s >>= λ (k', s'). hand_all ms' k' s')
  hand_all-append [] ms' k s = refl
  hand_all-append (m ∷ ms) ms' k s =
      ap (λ (g : S → Outcome (ℕ × S)). hand_over k m s >>= g)
        (λ i s'. hand_all-append ms ms' (k + 1) s' i)
      ∙ sym (bind_assoc (hand_over k m s) _ _)

  abbrev pub at : Recv S → Bytes → Option (ℕ × Bytes) → ℕ → S → Recv S
  at r buf msg k s = record r { buf = buf; msg = msg; handed = k; shared = s }

  -- The code hands over some of the messages, and the bytes that it keeps wait for the others.
  abbrev pub Hands :
      {X : Type 0} → (Recv S → X) → Recv S → List Bytes → Bytes → (ℕ → S → Outcome X) → Type 0
  Hands wrap r ms rest code =
      (now later : List Bytes) × (ms ≡ now ++ later)
      × (buf : Bytes) × (msg : Option (ℕ × Bytes)) × Waits buf msg later rest
      × ((k : ℕ) (s : S)
          → code k s ≡ (hand_all now k s >>= λ (k', s'). done (wrap (at r buf msg k' s'))))

  pub Hands-eq :
      {X : Type 0} (wrap : Recv S → X) (r : Recv S) (ms : List Bytes) (rest : Bytes)
      (code code' : ℕ → S → Outcome X)
      → ((k : ℕ) (s : S) → code k s ≡ code' k s)
      → Hands wrap r ms rest code'
      → Hands wrap r ms rest code
  Hands-eq wrap r ms rest code code' e (now, later, q, buf, msg, waits, run) =
      (now, later, q, buf, msg, waits, λ k s. e k s ∙ run k s)

  keep :
      (f : ℕ) (w : W) (r : Recv S) (ms : List Bytes) (buf rest : Bytes)
      → leb 13 (length buf) ≡ false
      → buf ++ rest ≡ concat ms
      → Hands (λ r'. r') r ms rest (λ k s. cut_loop net hand_over (suc f) w (at r buf none k s))
  unfolding cut_loop
  keep f w r ms buf rest e p = ([], ms, refl, buf, none, (ground arith, p), λ k s. rw e refl)

  whole_message :
      (f : ℕ) (w : W) (r : Recv S) (m buf : Bytes) (k : ℕ) (s : S)
      → ((n : ℕ) → net.malloc w n ≡ true)
      → leb 13 (length buf) ≡ true
      → leb (length m) (length buf) ≡ true
      → opo_msg_bsize buf ≡ done (length m)
      → take (length m) buf ≡ m
      → cut_loop net hand_over (suc f) w (at r buf none k s) ≡ (
          hand_over k m s >>= λ s'.
          cut_loop net hand_over f w (at r (drop (length m) buf) none (k + 1) s'))
  unfolding cut_loop deliver
  whole_message f w r m buf k s mem e e' z t =
      rw (e, z, mem (length m), e', t) (bind_assoc (hand_over k m s) _ _)

  part_of_message :
      (f : ℕ) (w : W) (r : Recv S) (m buf : Bytes) (k : ℕ) (s : S)
      → ((n : ℕ) → net.malloc w n ≡ true)
      → leb 13 (length buf) ≡ true
      → leb (length m) (length buf) ≡ false
      → opo_msg_bsize buf ≡ done (length m)
      → cut_loop net hand_over (suc (suc f)) w (at r buf none k s)
        ≡ done (at r [] (some (length m, buf)) k s)
  unfolding cut_loop
  part_of_message f w r m buf k s mem e e' z = rw (e, z, mem (length m), e') refl

  -- one more message is handed over
  Hands-cons :
      {X : Type 0} (wrap : Recv S → X) (r : Recv S) (m : Bytes) (ms : List Bytes) (rest : Bytes)
      (code code' : ℕ → S → Outcome X)
      → ((k : ℕ) (s : S) → code k s ≡ (hand_over k m s >>= λ s'. code' (k + 1) s'))
      → Hands wrap r ms rest code'
      → Hands wrap r (m ∷ ms) rest code
  Hands-cons wrap r m ms rest code code' e (now, later, q, buf, msg, waits, run) = (
    m ∷ now,
    later,
    ap (λ l. m ∷ l) q,
    buf,
    msg,
    waits,
    λ k s.
        e k s
        ∙ ap (λ (g : S → Outcome _). hand_over k m s >>= g) (λ i s'. run (k + 1) s' i)
        ∙ sym (bind_assoc (hand_over k m s) _ _),
  )

  pub cut_loop-Hands :
      (f : ℕ) (w : W) (r : Recv S) (ms : List Bytes) (buf rest : Bytes)
      → ((n : ℕ) → net.malloc w n ≡ true)
      → AllMessages ms
      → length buf < f
      → buf ++ rest ≡ concat ms
      → Hands (λ r'. r') r ms rest (λ k s. cut_loop net hand_over f w (at r buf none k s))
  cut_loop-Hands zero w r ms buf rest mem a h p = absurd (omega arith)
  cut_loop-Hands (suc f) w r [] buf rest mem a h p =
      keep f w r [] buf rest
        (elim (Bool-cases (leb 13 (length buf))) [
          | inl e ↦ absurd (omega (tests, length-append buf rest, ap length p))
          | inr e ↦ e
        ])
        p
  cut_loop-Hands (suc f) w r (m ∷ ms) buf rest mem a h p = elim (Bool-cases (leb 13 (length buf))) [
    | inr e ↦ keep f w r (m ∷ ms) buf rest e p
    | inl e ↦
        let z = opo_msg_bsize-IsMessage m buf rest (concat ms) a.0 (leb→le 13 (length buf) e) p in
        elim (Bool-cases (leb (length m) (length buf))) [
          | inl e' ↦
              let (t, d) = front m (concat ms) buf rest p (leb→le _ _ e') in
              Hands-cons (λ r'. r') r m ms rest _ _
                (λ k s. whole_message f w r m buf k s mem e e' z t)
                (cut_loop-Hands f w r ms (drop (length m) buf) rest mem a.1
                  (omega (tests, length-drop (length m) buf, length-IsMessage m a.0)) d)
          | inr e' ↦
              elim f
                  as (λ f.
                    length buf < suc f
                    → Hands (λ r'. r') r (m ∷ ms) rest
                        (λ k s. cut_loop net hand_over (suc f) w (at r buf none k s))) [
                          | zero ↦ λ h. absurd (omega tests)
                          | suc f ↦ λ h. (
                            [],
                            m ∷ ms,
                            refl,
                            [],
                            some (length m, buf),
                            (refl, refl, ground arith, p),
                            λ k s. part_of_message f w r m buf k s mem e e' z,
                          )
                        ]
                h
        ]
  ]
