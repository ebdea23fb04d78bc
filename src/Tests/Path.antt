-- ===== src/Tests/Path.antt =====
-- A path in an object.
use opo_c.Prelude.{
  ℕ, ◌+◌, ◌-◌, ◌*◌, ◌==◌, ◌≡◌, refl, Option, none, some, [], ◌∷◌, ◌++◌, leb, ◌&&◌, if◌then◌else◌,
  length, arith,
}
use opo_c.Prelude.Int.{ℤ, pos}
use opo_c.Outcome.{done}
use opo_c.Bytes.{Bytes}
use opo_c.Err.{text}
use opo_c.Wire.{string, encode}
use opo_c.Val.Path.{find_dot, opo_val_get}
use opo_c.Val.Path.Lookup.{Found}
use opo_c.Val.Path.Find.{opo_val_get-lookup}
use opo_c.Tests.Samples.{sample, sample-IsValid, junk, length-sample}

-- the number that the leading digits stand for, and how many there are
abbrev digits : ℕ → ℕ → Bytes → ℤ × ℕ
digits value cnt [] = (pos value, cnt)
digits value cnt (c ∷ s) =
    let more = digits (value * 10 + (c - b'0')) (cnt + 1) s in
    if leb b'0' c && leb c b'9' then more else (pos value, cnt)

-- `strtol` on texts of digits
abbrev strtol : Bytes → ℤ × ℕ
strtol path = digits 0 0 (find_dot path).0

abbrev index : Bytes → Option ℤ
index s = if (digits 0 0 s).1 == length s then some (digits 0 0 s).0 else none

opo_val_get-lookup_example :
    (r : Option Bytes) × (opo_val_get strtol 2 40
        (some (encode sample ++ junk))
        (some (text "tags.0"))
      ≡ done r)
    × Found (length (encode sample)) r (some (string (text "a")))
opo_val_get-lookup_example =
    opo_val_get-lookup strtol index (λ path. refl) 2 40 (text "tags.0") sample junk sample-IsValid
      (omega arith) (omega (arith, length-sample))
