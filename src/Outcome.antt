-- ===== src/Outcome.antt =====
-- What a run of the C code comes to. The functions under src/opo read through raw pointers and loop
-- on what they read, so a run can also leave the bytes that it was given, or use up its fuel.
use opo_c.Prelude.{◌≡◌, refl}

pub data Outcome {ℓ} (A : Type ℓ) : Type ℓ where
  -- the run ends with a value
  done : A → Outcome A
  -- the run reads outside the bytes that it was given, or its int overflows: undefined in C
  fault : Outcome A
  -- the run was cut off by the model's fuel
  out_of_fuel : Outcome A

infixl 5 ◌>>=◌ ◌>>◌
abbrev pub ◌>>=◌ {ℓ κ} : {A : Type ℓ} {B : Type κ} → Outcome A → (A → Outcome B) → Outcome B
done a >>= f = f a
fault >>= f = fault
out_of_fuel >>= f = out_of_fuel

abbrev pub ◌>>◌ {ℓ} : {B : Type ℓ} → Outcome (Unit {0}) → Outcome B → Outcome B
m >> k = m >>= λ _. k

-- Inversion of a run that ends.
pub >>=-eq-done {ℓ κ} :
    {A : Type ℓ} {B : Type κ} (m : Outcome A) (f : A → Outcome B) {b : B}
    → (m >>= f) ≡ done b
    → (a : A) × (m ≡ done a) × (f a ≡ done b)
>>=-eq-done (done a) f h = (a, refl, h)
>>=-eq-done fault f h = cc
>>=-eq-done out_of_fuel f h = cc

-- The run ends, with a value of which `P` holds.
abbrev pub Done {ℓ} : {A : Type ℓ} → (A → Type 0) → Outcome A → Type 0
Done P (done a) = P a
Done P fault = ⊥
Done P out_of_fuel = ⊥

pub Done->>= {ℓ} :
    {A B : Type ℓ} (P : A → Type 0) (Q : B → Type 0) (m : Outcome A) (f : A → Outcome B)
    → Done P m
    → ((a : A) → P a → Done Q (f a))
    → Done Q (m >>= f)
Done->>= P Q (done a) f h k = k a h
Done->>= P Q fault f h k = absurd h
Done->>= P Q out_of_fuel f h k = absurd h
