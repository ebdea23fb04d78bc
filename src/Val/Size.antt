-- ===== src/Val/Size.antt =====
-- `opo_val_bsize` and `opo_val_type` on the wire format.
use opo_c.Prelude.{
  ◌^◌, ◌<◌, ◌≡◌, refl, ap, inl, inr, true, false, some, ◌++◌, length, append_assoc, arith,
}
use opo_c.Prelude.Int.{ℤ}
use opo_c.Outcome.{done}
use opo_c.Bytes.{Bytes}
use opo_c.Val.{
  OpoValType, type_null, type_bool, type_int, type_str, type_dec, type_uuid, type_time, type_obj,
  type_array, opo_val_bsize, opo_val_type,
}
use opo_c.Wire.{
  Value, null, boolean, fixnum, string, decimal, uuid, time, array, object, encode, encode_int,
  encode_string, encode_key, IsValid,
}
use opo_c.Wire.Cases.{encode_int-cases, encode_string-cases, encode_key-cases}
use opo_c.Wire.Digits.{lengths, length-be, peek-be, read_uint16-be, read_uint32-be}

-- the type that a value of the format has for a client
unfoldable pub kind : Value → OpoValType
kind null = type_null
kind (boolean b) = type_bool
kind (fixnum i) = type_int
kind (string s) = type_str
kind (decimal s) = type_dec
kind (uuid hi lo) = type_uuid
kind (time t) = type_time
kind (array xs) = type_array
kind (object fs) = type_obj

bsize-encode_int :
    (i : ℤ) (rest : Bytes)
    → opo_val_bsize (some (encode_int i ++ rest)) ≡ done (length (encode_int i))
unfolding opo_val_bsize
bsize-encode_int i rest = elim (encode_int-cases i) [
  | inl (_, e) ↦ rw (e, length-be)
  | inr (inl (_, e)) ↦ rw (e, length-be)
  | inr (inr (inl (_, e))) ↦ rw (e, length-be)
  | inr (inr (inr e)) ↦ rw (e, length-be)
]

bsize-encode_string :
    (s rest : Bytes)
    → length s < 2 ^ 31
    → opo_val_bsize (some (encode_string s ++ rest)) ≡ done (length (encode_string s))
unfolding opo_val_bsize
bsize-encode_string s rest h = elim (encode_string-cases s) [
  | inl (p, e) ↦ rw (e, append_assoc, peek-be _ _ p) (ap done (omega lengths))
  | inr (inl (p, e)) ↦ rw (e, append_assoc, read_uint16-be _ _ p) (ap done (omega lengths))
  | inr (inr e) ↦
      let q : length s < 2 ^ 32 = omega arith in
      rw (e, append_assoc, read_uint32-be _ _ q) (ap done (omega lengths))
]

pub bsize-encode_key :
    (s rest : Bytes)
    → length s < 2 ^ 16
    → opo_val_bsize (some (encode_key s ++ rest)) ≡ done (length (encode_key s))
unfolding opo_val_bsize
bsize-encode_key s rest h = elim (encode_key-cases s) [
  | inl (p, e) ↦ rw (e, append_assoc, peek-be _ _ p) (ap done (omega lengths))
  | inr (p, e) ↦ rw (e, append_assoc, read_uint16-be _ _ h) (ap done (omega lengths))
]

-- Whatever follows a value, its size is the number of bytes of its encoding.
pub opo_val_bsize-encode :
    (v : Value) (rest : Bytes)
    → IsValid v
    → opo_val_bsize (some (encode v ++ rest)) ≡ done (length (encode v))
unfolding encode opo_val_bsize
opo_val_bsize-encode null rest h = refl
opo_val_bsize-encode (boolean true) rest h = refl
opo_val_bsize-encode (boolean false) rest h = refl
opo_val_bsize-encode (fixnum i) rest h = bsize-encode_int i rest
opo_val_bsize-encode (string s) rest h = bsize-encode_string s rest (omega arith)
opo_val_bsize-encode (decimal s) rest h = rw (append_assoc, peek-be _ _ h) (ap done (omega lengths))
opo_val_bsize-encode (uuid hi lo) rest h = ap done (omega lengths)
opo_val_bsize-encode (time t) rest h = ap done (omega lengths)
opo_val_bsize-encode (array xs) rest h =
    rw (append_assoc, read_uint32-be _ _ h.0) (ap done (omega lengths))
opo_val_bsize-encode (object fs) rest h =
    rw (append_assoc, read_uint32-be _ _ h.0) (ap done (omega lengths))

-- Whatever follows a value, its type for a client is the kind of the value.
pub opo_val_type-encode :
    (v : Value) (rest : Bytes) → opo_val_type (some (encode v ++ rest)) ≡ done (kind v)
unfolding encode opo_val_type kind
opo_val_type-encode (boolean true) rest = refl
opo_val_type-encode (boolean false) rest = refl
opo_val_type-encode (fixnum i) rest = elim (encode_int-cases i) [
  | inl (_, e) ↦ rw e
  | inr (inl (_, e)) ↦ rw e
  | inr (inr (inl (_, e))) ↦ rw e
  | inr (inr (inr e)) ↦ rw e
]
opo_val_type-encode (string s) rest = elim (encode_string-cases s) [
  | inl (_, e) ↦ rw e
  | inr (inl (_, e)) ↦ rw e
  | inr (inr e) ↦ rw e
]
opo_val_type-encode _ rest = refl
