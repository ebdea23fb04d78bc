-- ===== src/Builder/Uuid.antt =====
-- `fill_uuid` of src/opo/builder.c on the text that `opo_val_uuid_str` of src/opo/val.c makes.
use opo_c.Prelude.{
  some, ℕ, zero, suc, ◌+◌, ◌-◌, ◌*◌, ◌/◌, ◌%◌, ◌^◌, ◌<◌, ◌≡◌, refl, ap, ◌∙◌, inl, inr, Bool-cases,
  ltb, leb, true, false, ◌&&◌, [], ◌∷◌, ◌++◌, arith,
}
use opo_c.Outcome.{Outcome, done, fault, out_of_fuel, ◌>>=◌}
use opo_c.Bytes.{Bytes}
use opo_c.Val.{tag, val_uuid}
use opo_c.Err.{Err}
use opo_c.Val.Access.{hex, hex_digit, uuid_text, opo_val_uuid_str}
use opo_c.Val.Access.Read.{opo_val_uuid_str-encode}
use opo_c.Wire.{be, encode, uuid, IsValid}
use opo_c.Builder.Fill.{fill_uuid, fill_uuid_loop}
use opo_c.Builder.Slot.{with_nul}

-- The loop, behind bytes that are written.
abbrev then_loop : Bytes → ℕ → Bytes → Outcome Bytes
then_loop bytes m rest = fill_uuid_loop m 0 0 rest >>= λ r. done (bytes ++ r)

first_digit :
    (m a : ℕ) (rest : Bytes)
    → a < 16
    → fill_uuid_loop (suc m) 0 0 (hex_digit a ∷ rest) ≡ fill_uuid_loop m 1 a rest
unfolding fill_uuid_loop
first_digit m a rest h = elim (Bool-cases (ltb a 10)) [
  | inl p ↦
      let l : leb 48 (48 + a) ≡ true = ground arith in
      let r : leb (48 + a) 57 ≡ true = ground arith in
      let e : 0 + (48 + a - 48) ≡ a = omega arith in
      rw (p, l, r) (ap (λ x. fill_uuid_loop m 1 x rest) e)
  | inr p ↦
      let q : leb (97 + a - 10) 57 ≡ false = ground arith in
      let q' : leb 48 (97 + a - 10) && false ≡ false = ground arith in
      let l : leb 97 (97 + a - 10) ≡ true = ground arith in
      let r : leb (97 + a - 10) 102 ≡ true = ground arith in
      let e : 0 + (97 + a - 10 - 97 + 10) ≡ a = ground arith in
      rw (p, q, q', l, r) (ap (λ x. fill_uuid_loop m 1 x rest) e)
]

second_digit :
    (m a b : ℕ) (rest : Bytes)
    → a < 16
    → b < 16
    → fill_uuid_loop (suc m) 1 a (hex_digit b ∷ rest) ≡ then_loop ((a * 16 + b) ∷ []) m rest
unfolding fill_uuid_loop
second_digit m a b rest h k = elim (Bool-cases (ltb b 10)) [
  | inl p ↦
      let l : leb 48 (48 + b) ≡ true = ground arith in
      let r : leb (48 + b) 57 ≡ true = ground arith in
      let e : a * 16 % 256 + (48 + b - 48) ≡ a * 16 + b = omega arith in
      rw (p, l, r) (ap (λ x. then_loop (x ∷ []) m rest) e)
  | inr p ↦
      let q : leb (97 + b - 10) 57 ≡ false = ground arith in
      let q' : leb 48 (97 + b - 10) && false ≡ false = ground arith in
      let l : leb 97 (97 + b - 10) ≡ true = ground arith in
      let r : leb (97 + b - 10) 102 ≡ true = ground arith in
      let e : a * 16 % 256 + (97 + b - 10 - 97 + 10) ≡ a * 16 + b = ground arith in
      rw (p, q, q', l, r) (ap (λ x. then_loop (x ∷ []) m rest) e)
]

pair :
    (m x y : ℕ) (rest : Bytes)
    → fill_uuid_loop (suc (suc m)) 0 0 (hex_digit (x % 16) ∷ hex_digit (y % 16) ∷ rest)
      ≡ then_loop ((x % 16 * 16 + y % 16) ∷ []) m rest
pair m x y rest =
    first_digit (suc m) (x % 16) (hex_digit (y % 16) ∷ rest) (omega arith)
    ∙ second_digit m (x % 16) (y % 16) rest (omega arith) (omega arith)

abbrev double : ℕ → ℕ
double zero = zero
double (suc j) = suc (suc (double j))

abbrev more : ℕ → ℕ → ℕ
more zero m = m
more (suc j) m = suc (suc (more j m))

-- the bytes of `2 * j` digits
abbrev nibbles : ℕ → ℕ → Bytes
nibbles zero n = []
nibbles (suc j) n = (n / 16 ^ suc (double j) % 16 * 16 + n / 16 ^ double j % 16) ∷ nibbles j n

then_again :
    (l : Outcome Bytes) (x : ℕ) (bytes : Bytes)
    → ((l >>= λ r. done (bytes ++ r)) >>= λ r. done (x ∷ r)) ≡ (l >>= λ r. done (x ∷ (bytes ++ r)))
then_again (done r) x bytes = refl
then_again fault x bytes = refl
then_again out_of_fuel x bytes = refl

then_nothing : (l : Outcome Bytes) → l ≡ (l >>= λ r. done ([] ++ r))
then_nothing (done r) = refl
then_nothing fault = refl
then_nothing out_of_fuel = refl

hex-loop :
    (j m n : ℕ) (rest : Bytes)
    → fill_uuid_loop (more j m) 0 0 (hex (double j) n ++ rest) ≡ then_loop (nibbles j n) m rest
unfolding hex
hex-loop zero m n rest = then_nothing (fill_uuid_loop m 0 0 rest)
hex-loop (suc j) m n rest =
    pair (more j m) (n / 16 ^ suc (double j)) (n / 16 ^ double j) (hex (double j) n ++ rest)
    ∙ ap (λ l. l >>= λ r. done ((n / 16 ^ suc (double j) % 16 * 16 + n / 16 ^ double j % 16) ∷ r))
        (hex-loop j m n rest)
    ∙ then_again (fill_uuid_loop m 0 0 rest) _ (nibbles j n)

group :
    (j m n : ℕ) (rest : Bytes)
    → fill_uuid_loop (more j (suc m)) 0 0 (hex (double j) n ++ (b'-' ∷ rest))
      ≡ then_loop (nibbles j n) m rest
unfolding fill_uuid_loop
group j m n rest = hex-loop j (suc m) n (b'-' ∷ rest)

nibbles-hi :
    (hi : ℕ)
    → nibbles 4 (hi / 2 ^ 32) ++ (nibbles 2 (hi / 2 ^ 16 % 2 ^ 16) ++ nibbles 2 (hi % 2 ^ 16))
      ≡ be 8 hi
unfolding be
nibbles-hi hi = ground arith

nibbles-lo : (lo : ℕ) → nibbles 2 (lo / 2 ^ 48) ++ nibbles 6 (lo % 2 ^ 48) ≡ be 8 lo
unfolding be
nibbles-lo lo = ground arith

loop_end : (s : Bytes) → fill_uuid_loop 0 0 0 s ≡ done []
unfolding fill_uuid_loop
loop_end s = refl

-- The loop over the five groups.
groups-loop :
    (a b c d e : ℕ)
    → fill_uuid_loop 36 0 0 (
        hex 8 a
        ++ (b'-'
            ∷ (hex 4 b
                ++ (b'-' ∷ (hex 4 c ++ (b'-' ∷ (hex 4 d ++ (b'-' ∷ (hex 12 e ++ (0 ∷ []))))))))))
      ≡ done (nibbles 4 a ++ (nibbles 2 b ++ (nibbles 2 c ++ (nibbles 2 d ++ (nibbles 6 e ++ [])))))
groups-loop a b c d e =
    let t₅ = hex 12 e ++ (0 ∷ []) in
    let t₄ = hex 4 d ++ (b'-' ∷ t₅) in
    let t₃ = hex 4 c ++ (b'-' ∷ t₄) in
    let t₂ = hex 4 b ++ (b'-' ∷ t₃) in
    let e₅ : fill_uuid_loop 12 0 0 t₅ ≡ done (nibbles 6 e ++ []) =
      hex-loop 6 0 e (0 ∷ []) ∙ ap (λ l. l >>= λ r. done (nibbles 6 e ++ r)) (loop_end (0 ∷ [])) in
    let e₄ : fill_uuid_loop 17 0 0 t₄ ≡ done (nibbles 2 d ++ (nibbles 6 e ++ [])) =
      group 2 12 d t₅ ∙ ap (λ l. l >>= λ r. done (nibbles 2 d ++ r)) e₅ in
    let e₃ : fill_uuid_loop 22 0 0 t₃ ≡ done (nibbles 2 c ++ (nibbles 2 d ++ (nibbles 6 e ++ []))) =
      group 2 17 c t₄ ∙ ap (λ l. l >>= λ r. done (nibbles 2 c ++ r)) e₄ in
    let e₂ : fill_uuid_loop 27 0 0 t₂
        ≡ done (nibbles 2 b ++ (nibbles 2 c ++ (nibbles 2 d ++ (nibbles 6 e ++ [])))) =
      group 2 22 b t₃ ∙ ap (λ l. l >>= λ r. done (nibbles 2 b ++ r)) e₃ in
    group 4 27 a t₂ ∙ ap (λ l. l >>= λ r. done (nibbles 4 a ++ r)) e₂

uuid-nibbles :
    (hi lo : ℕ)
    → nibbles 4 (hi / 2 ^ 32)
        ++ (nibbles 2 (hi / 2 ^ 16 % 2 ^ 16)
            ++ (nibbles 2 (hi % 2 ^ 16)
                ++ (nibbles 2 (lo / 2 ^ 48) ++ (nibbles 6 (lo % 2 ^ 48) ++ []))))
      ≡ be 8 hi ++ be 8 lo
uuid-nibbles hi lo = rw (← nibbles-hi hi, ← nibbles-lo lo)

fill_uuid_lem :
    (s : Bytes) → fill_uuid s ≡ (fill_uuid_loop 36 0 0 s >>= λ r. done (tag val_uuid ∷ r))
unfolding fill_uuid
fill_uuid_lem s = refl

pub uuid_text_lem :
    (hi lo : ℕ)
    → with_nul (uuid_text hi lo)
      ≡ hex 8 (hi / 2 ^ 32)
        ++ (b'-'
            ∷ (hex 4 (hi / 2 ^ 16 % 2 ^ 16)
                ++ (b'-'
                    ∷ (hex 4 (hi % 2 ^ 16)
                        ++ (b'-'
                            ∷ (hex 4 (lo / 2 ^ 48)
                                ++ (b'-' ∷ (hex 12 (lo % 2 ^ 48) ++ (0 ∷ [])))))))))
unfolding uuid_text
uuid_text_lem hi lo = refl

encode_uuid_lem :
    (hi lo : ℕ) → done (tag val_uuid ∷ (be 8 hi ++ be 8 lo)) ≡ done (encode (uuid hi lo))
unfolding encode
encode_uuid_lem hi lo = refl

pub fill_uuid-uuid_text :
    (hi lo : ℕ) → fill_uuid (with_nul (uuid_text hi lo)) ≡ done (encode (uuid hi lo))
fill_uuid-uuid_text hi lo =
    let g =
      groups-loop (hi / 2 ^ 32) (hi / 2 ^ 16 % 2 ^ 16) (hi % 2 ^ 16) (lo / 2 ^ 48) (lo % 2 ^ 48) in
    ap (λ s. fill_uuid s) (uuid_text_lem hi lo)
    ∙ fill_uuid_lem _
    ∙ ap (λ l. l >>= λ r. done (tag val_uuid ∷ r)) (g ∙ ap (λ r. done r) (uuid-nibbles hi lo))
    ∙ encode_uuid_lem hi lo

-- The text that `opo_val_uuid_str` makes of a UUID in a message is read by `fill_uuid` as the same
-- UUID, byte for byte.
pub fill_uuid-opo_val_uuid_str :
    (err : Err) (hi lo : ℕ) (rest old : Bytes)
    → IsValid (uuid hi lo)
    → (opo_val_uuid_str err (some (encode (uuid hi lo) ++ rest)) old >>= λ r.
        fill_uuid (with_nul r.0))
      ≡ done (encode (uuid hi lo))
fill_uuid-opo_val_uuid_str err hi lo rest old h =
    rw (opo_val_uuid_str-encode err rest hi lo old h) (fill_uuid-uuid_text hi lo)
