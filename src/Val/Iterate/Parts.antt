-- ===== src/Val/Iterate/Parts.antt =====
-- One round of `val_iterate`, and how the loop goes on behind a part of a value.
use opo_c.Prelude.{
  ℕ, suc, ◌^◌, ◌<◌, ◌≤◌, ◌==◌, ◌≡◌, refl, ap, ◌∙◌, ltb, lt→ltb, [], ◌∷◌, ◌++◌, Bool, true, false,
  ◌&&◌, length, arith, inl, inr, Bool-cases,
}
use opo_c.Prelude.Int.{pos}
use opo_c.Outcome.{Outcome, done, ◌>>=◌}
use opo_c.Bytes.{Bytes}
use opo_c.Val.Iterate.{Run, Callback, Callbacks, Libc, resume, val_iterate}
use opo_c.Val.Iterate.Visit.{ask_text, and_then}
use opo_c.Val.Iterate.Answers.{call-ask_text}
use opo_c.Val.Iterate.Cases.{proceed}
use opo_c.Val.Iterate.First.{first_case, first_case-key}
use opo_c.Wire.{encode_key}
use opo_c.Wire.Digits.{length-append_bytes}

module _ {C D : Type 0} (libc : Libc D) (callbacks : Callbacks C D) where
  -- One round, while `val < end`.
  pub round :
      (f stop : ℕ) (val : Bytes) (s : Run C)
      → stop < length val
      → val_iterate libc callbacks (suc f) stop val s ≡ (
          first_case libc callbacks (val_iterate libc callbacks f) s val
          >>= proceed (val_iterate libc callbacks f stop))
  unfolding val_iterate
  round f stop [] s h = absurd (omega arith)
  round f stop (c ∷ b) s h = rw (lt→ltb stop (length (c ∷ b)) h)

  -- `val_iterate` at `end`
  pub at_end :
      (f stop : ℕ) (val : Bytes) (s : Run C)
      → length val ≤ stop
      → val_iterate libc callbacks (suc f) stop val s ≡ done (true, s)
  unfolding val_iterate
  at_end f stop val s h = let e : ltb stop (length val) ≡ false = ground arith in rw e

  -- the calls for one part, and then the loop on what follows
  abbrev pub Visits : Bytes → (Bytes → Callback C) → ℕ → Type 0
  Visits chunk go w =
      (f stop : ℕ) (tail : Bytes) (s : Run C)
      → w ≤ f
      → stop < length (chunk ++ tail)
      → val_iterate libc callbacks (suc f) stop (chunk ++ tail) s ≡ (
          let (cont, s') = go tail s in
          proceed (val_iterate libc callbacks f stop) (cont, s', tail))

  -- a part that its case reads in one go
  pub leaf :
      (chunk : Bytes) (go : Bytes → Callback C)
      → ((nested : ℕ → Bytes → Run C → Outcome (Bool × Run C)) (s : Run C) (tail : Bytes)
          → first_case libc callbacks nested s (chunk ++ tail) ≡ resume tail (go tail s))
      → Visits chunk go 0
  leaf chunk go e f stop tail s w h =
      rw (round f stop (chunk ++ tail) s h, e (val_iterate libc callbacks f) s tail)

  -- What follows a part, by `proceed` and by `and_then`.
  pub proceed-and_then :
      (k : Bytes → Run C → Outcome (Bool × Run C)) (next : Callback C) (tail : Bytes)
      (p : Bool × Run C)
      → ((s : Run C) → k tail s ≡ done (next s))
      → proceed k (p.0, p.1, tail) ≡ done (and_then p next)
  proceed-and_then k next tail p h = elim (Bool-cases (p.0 && (p.1.0.code == 0))) [
    | inl e ↦ rw e (h p.1)
    | inr e ↦ rw e
  ]

  -- `end` is behind the first of two parts, or behind what follows it.
  pub behind :
      (chunk rest : Bytes) {stop : ℕ}
      → 0 < length chunk
      → stop ≤ length rest
      → stop < length (chunk ++ rest)
  behind chunk rest p h = omega (arith, length-append_bytes chunk rest)

  pub encode_key-Visits :
      (k : Bytes)
      → length k < 2 ^ 16
      → Visits (encode_key k) (λ tail. ask_text callbacks.key (k ++ 0 ∷ tail) (pos (length k))) 0
  encode_key-Visits k h = leaf (encode_key k) _ (λ nested s tail.
      first_case-key libc callbacks nested s tail k h
      ∙ ap (resume tail) (call-ask_text callbacks.key _ _ s))

  pub and_then_last : (p : Bool × Run C) → (and_then p (λ s. (true, s))).1 ≡ p.1
  and_then_last (true, s) = elim (Bool-cases (s.0.code == 0)) [ inl e ↦ rw e | inr e ↦ rw e ]
  and_then_last (false, s) = refl
