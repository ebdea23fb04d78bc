-- ===== src/Val/Iterate/Answers.antt =====
-- `val_iterate` drops the answers of the callbacks for UUIDs and times. Where these are true, it calls
-- as `visit` does.
use opo_c.Prelude.{
  Bool, true, false, ℕ, ◌+◌, ◌-◌, ◌/◌, ◌≡◌, ◌==◌, refl, sym, ap, ◌∙◌, Option, none, some, arith,
}
use opo_c.Prelude.Int.{ℤ, pos, negsuc}
use opo_c.Bytes.{Bytes}
use opo_c.Val.Iterate.{
  Run, Callback, call, call_if, with_arg, with_args, call_void, uuid_call, seconds, fraction,
  time_call,
}
use opo_c.Val.Iterate.Visit.{
  ask, ask_with, ask_text, closed, visit_uuid, visit_text, visit_time, GoesOn, WholeText,
}
use opo_c.Wire.Time.{floor_seconds, nanos, Whole}

seconds-floor : (t : ℤ) → Whole t → seconds t ≡ floor_seconds t
unfolding seconds
seconds-floor (pos n) h = refl
seconds-floor (negsuc n) h =
    let e : (((n + 1) / 1000000000) == 0) ≡ false = ground arith in
    let e' : (n + 1) / 1000000000 - 1 ≡ n / 1000000000 = omega arith in rw (e, e') refl

fraction-nanos : (t : ℤ) → Whole t → fraction t ≡ nanos t
unfolding fraction
fraction-nanos (pos n) h = refl
fraction-nanos (negsuc n) h = omega arith

module _ {C : Type 0} where
  pub call-ask : (o : Option (Callback C)) (s : Run C) → call o s ≡ ask o s
  call-ask none s = refl
  call-ask (some f) s = refl

  pub call-ask_with {κ} :
      {A : Type κ} (o : Option (A → Callback C)) (a : A) (s : Run C)
      → call (with_arg o a) s ≡ ask_with o a s
  call-ask_with none a s = refl
  call-ask_with (some f) a s = refl

  pub call-ask_text :
      (o : Option (Bytes → ℤ → Callback C)) (t : Bytes) (n : ℤ) (s : Run C)
      → call (with_args o t n) s ≡ ask_text o t n s
  call-ask_text none t n s = refl
  call-ask_text (some f) t n s = refl

  pub call_if-closed :
      (last : Option (Callback C)) (p : Bool × Run C) → call_if p.0 last p.1 ≡ closed last p
  call_if-closed last (true, s) = call-ask last s
  call_if-closed last (false, s) = refl

  call_void-GoesOn : (f : Callback C) (s : Run C) → GoesOn f → call_void f s ≡ f s
  call_void-GoesOn f s h = λ i. (sym (h s) i, (f s).1)

  pub uuid_call-visit :
      (o : Option (ℕ → ℕ → Callback C)) (o' : Option (Bytes → Callback C)) (hi lo : ℕ) (s : Run C)
      → GoesOn (visit_uuid o o' hi lo)
      → uuid_call o o' hi lo s ≡ visit_uuid o o' hi lo s
  unfolding uuid_call
  uuid_call-visit (some f) o' hi lo s h = call_void-GoesOn (f hi lo) s h
  uuid_call-visit none (some f) hi lo s h = call_void-GoesOn (f _) s h
  uuid_call-visit none none hi lo s h = refl

  -- a time that is taken as the text `o`
  time_call-visit_text :
      (format : ℤ → ℕ → Option Bytes) (f : Bytes → Callback C) (t : ℤ) (s : Run C)
      (o : Option Bytes)
      → format (seconds t) (fraction t) ≡ o
      → GoesOn (visit_text o f)
      → time_call format none (some f) t s ≡ visit_text o f s
  unfolding time_call
  time_call-visit_text format f t s (some x) e h = rw (time_call, e) (call_void-GoesOn (f x) s h)
  time_call-visit_text format f t s none e h = rw (time_call, e) refl

  pub time_call-visit :
      (format : ℤ → ℕ → Option Bytes) (o : Option (ℤ → Callback C))
      (o' : Option (Bytes → Callback C)) (t : ℤ) (s : Run C)
      → GoesOn (visit_time format o o' t)
      → WholeText o o' t
      → time_call format o o' t s ≡ visit_time format o o' t s
  unfolding time_call
  time_call-visit format (some f) o' t s h w = call_void-GoesOn (f t) s h
  time_call-visit format none (some f) t s h w =
      time_call-visit_text format f t s _
        (ap (λ x. format x (fraction t)) (seconds-floor t w)
          ∙ ap (format (floor_seconds t)) (fraction-nanos t w))
        h
  time_call-visit format none none t s h w = refl
