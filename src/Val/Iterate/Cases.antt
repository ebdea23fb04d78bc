-- ===== src/Val/Iterate/Cases.antt =====
-- One round of `val_iterate` on each kind of part.
use opo_c.Prelude.{
  ℕ, ◌+◌, ◌^◌, ◌<◌, ◌==◌, ◌≡◌, refl, sym, if◌then◌else◌, Option, none, some, [], ◌∷◌, ◌++◌, Bool,
  true, false, ◌&&◌, length, append_assoc, arith,
}
use opo_c.Prelude.Int.{ℤ, to_word, InRange, of_word-to_word, to_word-lt}
use opo_c.Outcome.{Outcome, done, ◌>>=◌}
use opo_c.Bytes.{Bytes, skip}
use opo_c.Bytes.RoundTrip.{skip-append}
use opo_c.Val.Access.Read.{read_bytes-append}
use opo_c.Val.Iterate.{
  Run, Callback, Step, call, with_arg, with_args, resume, end_after, fixnum_case, text_case,
  decimal_case, uuid_call, uuid_case, time_call, time_case, container_case,
}
use opo_c.Val.Iterate.Visit.{enclose}
use opo_c.Val.Iterate.Answers.{call_if-closed}
use opo_c.Wire.{be}
use opo_c.Wire.Digits.{lengths, length-be, length-append_bytes, read_uint32-be, read_uint64-be}

pub skip-of_length : (n : ℕ) (xs ys : Bytes) → n ≡ length xs → skip n (xs ++ ys) ≡ done ys
skip-of_length n xs ys e = rw e (skip-append xs ys)

pub skip-be : (k n : ℕ) (tail : Bytes) → skip k (be k n ++ tail) ≡ done tail
skip-be k n tail = skip-of_length k (be k n) tail (sym (length-be k n))

pub skip-byte : (x : ℕ) (tail : Bytes) → skip 1 (x ∷ tail) ≡ done tail
unfolding skip
skip-byte x tail = refl

-- what is left of a buffer after `end`
pub end_after-append : (xs ys : Bytes) → end_after (length xs) (xs ++ ys) ≡ done (length ys)
unfolding end_after
end_after-append xs ys = ground (arith, length-append_bytes xs ys)

module _ {C : Type 0} where
  pub fixnum_case-lem :
      (o : Option (ℤ → Callback C)) (read : Bytes → Outcome (ℤ × Bytes)) (k : ℕ) (s : Run C)
      (val tail : Bytes) (i : ℤ)
      → read val ≡ done (i, tail)
      → skip k val ≡ done tail
      → fixnum_case o read k s val ≡ resume tail (call (with_arg o i) s)
  unfolding fixnum_case
  fixnum_case-lem none read k s val tail i e h = rw h
  fixnum_case-lem (some f) read k s val tail i e h = rw e

  pub text_case-lem :
      (o : Option (Bytes → ℤ → Callback C)) (n : ℤ) (after : ℕ) (s : Run C) (t tail : Bytes)
      → after ≡ length t + 1
      → text_case o n after s (t ++ (0 ∷ tail))
        ≡ resume tail (call (with_args o (t ++ 0 ∷ tail) n) s)
  unfolding text_case
  text_case-lem o n after s t tail e =
      let e' : after ≡ length (t ++ (0 ∷ [])) = omega lengths in
      let h : skip after (t ++ (0 ∷ tail)) ≡ done tail =
        rw append_assoc at (skip-of_length after (t ++ (0 ∷ [])) tail e') in
      rw h

  pub decimal_case-lem :
      {D : Type 0} (strtod : Bytes → D) (o : Option (D → Callback C)) (s : Run C) (t tail : Bytes)
      → decimal_case strtod o (length t) s (t ++ tail)
        ≡ resume tail (call (with_arg o (strtod t)) s)
  unfolding decimal_case
  decimal_case-lem strtod none s t tail = rw skip-append
  decimal_case-lem strtod (some f) s t tail = rw (read_bytes-append, skip-append)

  pub uuid_case-lem :
      (o : Option (ℕ → ℕ → Callback C)) (o' : Option (Bytes → Callback C)) (s : Run C) (hi lo : ℕ)
      (tail : Bytes)
      → hi < 2 ^ 64
      → lo < 2 ^ 64
      → uuid_case o o' s (be 8 hi ++ (be 8 lo ++ tail)) ≡ resume tail (uuid_call o o' hi lo s)
  unfolding uuid_case
  uuid_case-lem none none s hi lo tail h h' = unfold skip be in refl
  uuid_case-lem none (some f) s hi lo tail h h' = rw (read_uint64-be _ _ h, read_uint64-be _ _ h')
  uuid_case-lem (some f) o s hi lo tail h h' = rw (read_uint64-be _ _ h, read_uint64-be _ _ h')

  pub time_case-lem :
      (format : ℤ → ℕ → Option Bytes) (o : Option (ℤ → Callback C))
      (o' : Option (Bytes → Callback C)) (s : Run C) (t : ℤ) (tail : Bytes)
      → InRange (2 ^ 63) t
      → time_case format o o' s (be 8 (to_word (2 ^ 64) t) ++ tail)
        ≡ resume tail (time_call format o o' t s)
  unfolding time_case
  time_case-lem format none none s t tail h = unfold skip be in refl
  time_case-lem format none (some f) s t tail h = rw (
    read_uint64-be _ _ (to_word-lt (2 ^ 64) t (omega arith)),
    of_word-to_word (2 ^ 63) t (omega arith) h,
  )
  time_case-lem format (some f) o s t tail h = rw (
    read_uint64-be _ _ (to_word-lt (2 ^ 64) t (omega arith)),
    of_word-to_word (2 ^ 63) t (omega arith) h,
  )

  -- how the loop goes on after a case, with `k` for its next round
  abbrev pub proceed : (Bytes → Run C → Outcome (Bool × Run C)) → Step C → Outcome (Bool × Run C)
  proceed k (cont, s, val) = if cont && (s.0.code == 0) then k val s else done (cont, s)

  pub container_case-lem :
      (nested : ℕ → Bytes → Run C → Outcome (Bool × Run C))
      (k : Bytes → Run C → Outcome (Bool × Run C)) (last : Option (Callback C))
      (members : Callback C) (p : Bool × Run C) (m tail : Bytes)
      → length m < 2 ^ 32
      → ((s : Run C) → nested (length tail) (m ++ tail) s ≡ done (members s))
      → (container_case nested last p (be 4 (length m) ++ (m ++ tail)) >>= proceed k)
        ≡ (let (cont, s) = enclose last members p in proceed k (cont, s, tail))
  unfolding container_case
  container_case-lem nested k last members (false, s) m tail h ih = refl
  container_case-lem nested k last members (true, s) m tail h ih =
      rw
        (read_uint32-be _ _ h, end_after-append, ih s, skip-append, call_if-closed last (members s))
