-- ===== src/Wire/Cases.antt =====
-- The forms of an encoded number, text and key, each with the bound under which it is used.
use opo_c.Prelude.{
  ℕ, ◌^◌, ◌<◌, ◌≡◌, ◌⊎◌, inl, inr, Bool-cases, true, leb, leb→le, [], ◌∷◌, ◌++◌, length, arith,
}
use opo_c.Prelude.Int.{ℤ, pos, negsuc, to_word, in_range, InRange}
use opo_c.Bytes.{Bytes}
use opo_c.Val.{
  tag, val_int1, val_int2, val_int4, val_int8, val_str1, val_str2, val_str4, val_key1, val_key2,
}
use opo_c.Wire.{be, encode_int, encode_string, encode_key}

in_range→InRange : (m : ℕ) (i : ℤ) → in_range m i ≡ true → InRange m i
in_range→InRange m (pos n) h = ground arith
in_range→InRange m (negsuc n) h = ground arith

pub encode_int-cases :
    (i : ℤ)
    → (InRange (2 ^ 7) i × (encode_int i ≡ tag val_int1 ∷ be 1 (to_word (2 ^ 8) i)))
      ⊎ (InRange (2 ^ 15) i × (encode_int i ≡ tag val_int2 ∷ be 2 (to_word (2 ^ 16) i)))
      ⊎ (InRange (2 ^ 31) i × (encode_int i ≡ tag val_int4 ∷ be 4 (to_word (2 ^ 32) i)))
      ⊎ (encode_int i ≡ tag val_int8 ∷ be 8 (to_word (2 ^ 64) i))
unfolding encode_int
encode_int-cases i = elim (Bool-cases (in_range (2 ^ 7) i)) [
  | inl p ↦ inl (in_range→InRange _ i p, rw p)
  | inr p ↦ elim (Bool-cases (in_range (2 ^ 15) i)) [
    | inl q ↦ inr (inl (in_range→InRange _ i q, rw (p, q)))
    | inr q ↦ elim (Bool-cases (in_range (2 ^ 31) i)) [
      | inl r ↦ inr (inr (inl (in_range→InRange _ i r, rw (p, q, r))))
      | inr r ↦ inr (inr (inr (rw (p, q, r))))
    ]
  ]
]

pub encode_string-cases :
    (s : Bytes)
    → ((length s < 2 ^ 8) × (encode_string s ≡ tag val_str1 ∷ (be 1 (length s) ++ (s ++ (0 ∷ [])))))
      ⊎ ((length s < 2 ^ 16)
          × (encode_string s ≡ tag val_str2 ∷ (be 2 (length s) ++ (s ++ (0 ∷ [])))))
      ⊎ (encode_string s ≡ tag val_str4 ∷ (be 4 (length s) ++ (s ++ (0 ∷ []))))
unfolding encode_string
encode_string-cases s = elim (Bool-cases (leb (length s) 0xff)) [
  | inl p ↦ inl (omega (arith, leb→le _ _ p), rw p)
  | inr p ↦ elim (Bool-cases (leb (length s) 0xffff)) [
    | inl q ↦ inr (inl (omega (arith, leb→le _ _ q), rw (p, q)))
    | inr q ↦ inr (inr (rw (p, q)))
  ]
]

pub encode_key-cases :
    (s : Bytes)
    → ((length s < 2 ^ 8) × (encode_key s ≡ tag val_key1 ∷ (be 1 (length s) ++ (s ++ (0 ∷ [])))))
      ⊎ ((0xff < length s) × (encode_key s ≡ tag val_key2 ∷ (be 2 (length s) ++ (s ++ (0 ∷ [])))))
unfolding encode_key
encode_key-cases s = elim (Bool-cases (leb (length s) 0xff)) [
  | inl p ↦ inl (omega (arith, leb→le _ _ p), rw p)
  | inr p ↦ inr (ground arith, rw p)
]
