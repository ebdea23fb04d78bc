-- ===== src/Val/Path/Lookup.antt =====
-- The value that a path names, and the comparison of keys in `opo_val_get`.
use opo_c.Prelude.{
  ℕ, zero, suc, ◌<◌, ◌≤◌, ◌≡◌, ◌==◌, ◌^◌, refl, inl, inr, if◌then◌else◌, Option, none, some, List,
  [], ◌∷◌, ◌++◌, Bool, Bool-cases, true, false, ◌&&◌, length, append_assoc, arith,
}
use opo_c.Prelude.Int.{ℤ, pos, negsuc}
use opo_c.Outcome.{done}
use opo_c.Bytes.{Bytes}
use opo_c.Val.{switch}
use opo_c.Val.Path.{val_key, same_bytes, is_key}
use opo_c.Wire.{
  Value, Items, Fields, no_items, item, no_fields, field, array, object, encode, encode_key,
  IsValid,
}
use opo_c.Wire.Cases.{encode_key-cases}
use opo_c.Wire.Digits.{read_uint16-be, be-byte}

-- The segments of a path. A full stop at its end adds none.
abbrev pub longer : ℕ → List Bytes → List Bytes
longer x [] = (x ∷ []) ∷ []
longer x (s ∷ ss) = (x ∷ s) ∷ ss

abbrev pub segments : Bytes → List Bytes
segments [] = []
segments (x ∷ path) = if x == b'.' then [] ∷ segments path else longer x (segments path)

abbrev pub same_text : Bytes → Bytes → Bool
same_text [] [] = true
same_text [] (y ∷ ys) = false
same_text (x ∷ xs) [] = false
same_text (x ∷ xs) (y ∷ ys) = x == y && same_text xs ys

-- the value of the first field with a key
abbrev pub field_of : Bytes → Fields → Option Value
field_of s no_fields = none
field_of s (field k v fs) = if same_text s k then some v else field_of s fs

abbrev pub item_of : ℤ → Items → Option Value
item_of (negsuc n) xs = none
item_of (pos n) no_items = none
item_of (pos zero) (item v xs) = some v
item_of (pos (suc n)) (item v xs) = item_of (pos n) xs

abbrev pub at_index : Items → Option ℤ → Option Value
at_index xs none = none
at_index xs (some i) = item_of i xs

-- The member that a segment names: `index` is the number that a segment stands for, if it does.
abbrev pub member_of : (Bytes → Option ℤ) → Bytes → Value → Option Value
member_of index s (object fs) = field_of s fs
member_of index s (array xs) = at_index xs (index s)
member_of index s _ = none

abbrev pub lookup : (Bytes → Option ℤ) → List Bytes → Value → Option Value
lookup index [] v = some v
lookup index (s ∷ ss) v = elim (member_of index s v) [ none ↦ none | some w ↦ lookup index ss w ]

-- The pointer is at the value, within the bytes of a value of `n` bytes.
pub data Found (n : ℕ) : Option Bytes → Option Value → Type 0 where
  nowhere : Found n none none
  there :
      (w : Value) (rest : Bytes)
      → IsValid w
      → length (encode w) ≤ n
      → Found n (some (encode w ++ rest)) (some w)

pub Found-widen :
    (m n : ℕ) (r : Option Bytes) (o : Option Value) → m ≤ n → Found m r o → Found n r o
Found-widen m n r o h nowhere = nowhere
Found-widen m n r o h (there w rest v l) = there w rest v (omega arith)

pub val_key-encode_key :
    (k rest : Bytes)
    → length k < 2 ^ 16
    → val_key (encode_key k ++ rest) ≡ done (some (k ++ (0 ∷ rest)), length k)
unfolding val_key switch
val_key-encode_key k rest h = elim (encode_key-cases k) [
  | inl (p, e) ↦ rw (e, append_assoc, be-byte _ p, append_assoc)
  | inr (p, e) ↦ rw (e, append_assoc, read_uint16-be _ _ h, append_assoc)
]

same_bytes-lem :
    (s k rest : Bytes) → length s ≡ length k → same_bytes s (k ++ rest) ≡ done (same_text s k)
unfolding same_bytes
same_bytes-lem [] [] rest h = refl
same_bytes-lem [] (y ∷ k) rest h = absurd (omega arith)
same_bytes-lem (x ∷ s) [] rest h = absurd (omega arith)
same_bytes-lem (x ∷ s) (y ∷ k) rest h = elim (Bool-cases (x == y)) [
  | inl e ↦ rw e (same_bytes-lem s k rest (omega arith))
  | inr e ↦ rw e refl
]

same_text-length : (s k : Bytes) → (length s == length k) ≡ false → same_text s k ≡ false
same_text-length [] [] h = h
same_text-length [] (y ∷ k) h = refl
same_text-length (x ∷ s) [] h = refl
same_text-length (x ∷ s) (y ∷ k) h =
    let e : same_text s k ≡ false = same_text-length s k (ground arith) in ground arith

pub is_key-lem : (s k rest : Bytes) → is_key s (some (k ++ rest), length k) ≡ done (same_text s k)
unfolding is_key
is_key-lem s k rest = elim (Bool-cases (length s == length k)) [
  | inl e ↦ rw e (same_bytes-lem s k rest (ground arith))
  | inr e ↦ rw (e, same_text-length s k e) refl
]
