-- ===== src/Wire/Sizes.antt =====
-- No encoding is empty.
use opo_c.Prelude.{◌<◌, ◌≤◌, length, arith, inl, inr, true, false}
use opo_c.Bytes.{Bytes}
use opo_c.Wire.{Value, boolean, fixnum, string, encode, encode_key}
use opo_c.Wire.Cases.{encode_int-cases, encode_string-cases, encode_key-cases}
use opo_c.Wire.Digits.{lengths}

pub length-encode_key_pos : (k : Bytes) → 3 ≤ length (encode_key k)
length-encode_key_pos k = elim (encode_key-cases k) [
  | inl (_, e) ↦ rw e (omega lengths)
  | inr (_, e) ↦ rw e (omega lengths)
]

pub length-encode_pos : (v : Value) → 0 < length (encode v)
unfolding encode
length-encode_pos (boolean true) = omega arith
length-encode_pos (boolean false) = omega arith
length-encode_pos (fixnum i) = elim (encode_int-cases i) [
  | inl (_, e) ↦ rw e (omega lengths)
  | inr (inl (_, e)) ↦ rw e (omega lengths)
  | inr (inr (inl (_, e))) ↦ rw e (omega lengths)
  | inr (inr (inr e)) ↦ rw e (omega lengths)
]
length-encode_pos (string s) = elim (encode_string-cases s) [
  | inl (_, e) ↦ rw e (omega lengths)
  | inr (inl (_, e)) ↦ rw e (omega lengths)
  | inr (inr e) ↦ rw e (omega lengths)
]
length-encode_pos _ = omega lengths
