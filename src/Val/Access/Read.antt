-- ===== src/Val/Access/Read.antt =====
-- The accessors read the values of the wire format back.
use opo_c.Prelude.{
  ℕ, ◌^◌, ◌<◌, ◌≡◌, refl, inl, inr, Bool, true, false, Option, none, some, [], ◌∷◌, ◌++◌, length,
  append_assoc, arith, leb, if◌then◌else◌,
}
use opo_c.Prelude.Int.{ℤ, pos, of_word, of_word-to_word, to_word-lt}
use opo_c.Outcome.{done}
use opo_c.Bytes.{Bytes}
use opo_c.Err.{Err}
use opo_c.Val.{switch}
use opo_c.Val.Access.{
  put_len, read_bytes, opo_val_bool, opo_val_int, opo_val_double, opo_val_string, opo_val_key,
  opo_val_uuid, opo_val_uuid_str, opo_val_time, uuid_text,
}
use opo_c.Wire.{boolean, fixnum, string, decimal, uuid, time, encode, encode_key, IsValid}
use opo_c.Wire.Cases.{encode_int-cases, encode_string-cases, encode_key-cases}
use opo_c.Wire.Digits.{peek-be, be-byte, read_uint16-be, read_uint32-be, read_uint64-be}

module _ (err : Err) (rest : Bytes) where
  -- A boolean reads back, and nothing is reported.
  pub opo_val_bool-encode :
      (b : Bool) → opo_val_bool err (some (encode (boolean b) ++ rest)) ≡ done (b, err)
  unfolding opo_val_bool encode switch
  opo_val_bool-encode true = refl
  opo_val_bool-encode false = refl

  -- A 64-bit number reads back from whichever form it has, and nothing is reported.
  pub opo_val_int-encode :
      (i : ℤ)
      → IsValid (fixnum i)
      → opo_val_int err (some (encode (fixnum i) ++ rest)) ≡ done (i, err)
  unfolding opo_val_int encode switch
  opo_val_int-encode i h = elim (encode_int-cases i) [
    | inl (p, e) ↦ rw (
      e,
      peek-be _ _ (to_word-lt (2 ^ 8) i (omega arith)),
      of_word-to_word (2 ^ 7) i (omega arith) p,
    )
    | inr (inl (p, e)) ↦ rw (
      e,
      read_uint16-be _ _ (to_word-lt (2 ^ 16) i (omega arith)),
      of_word-to_word (2 ^ 15) i (omega arith) p,
    )
    | inr (inr (inl (p, e))) ↦ rw (
      e,
      read_uint32-be _ _ (to_word-lt (2 ^ 32) i (omega arith)),
      of_word-to_word (2 ^ 31) i (omega arith) p,
    )
    | inr (inr (inr e)) ↦ rw (
      e,
      read_uint64-be _ _ (to_word-lt (2 ^ 64) i (omega arith)),
      of_word-to_word (2 ^ 63) i (omega arith) h,
    )
  ]

  -- A text reads back: the pointer to it, followed by a NUL, and its length.
  pub opo_val_string-encode :
      (s : Bytes) (lenp : Option ℤ)
      → IsValid (string s)
      → opo_val_string err (some (encode (string s) ++ rest)) lenp
        ≡ done (some (s ++ 0 ∷ rest), put_len lenp (pos (length s)), err)
  unfolding opo_val_string encode switch
  opo_val_string-encode s lenp h = elim (encode_string-cases s) [
    | inl (p, e) ↦ rw (e, be-byte _ p, append_assoc)
    | inr (inl (p, e)) ↦ rw (e, append_assoc, read_uint16-be _ _ p, append_assoc)
    | inr (inr e) ↦
        let q : length s < 2 ^ 32 = omega arith in
        let w : of_word (2 ^ 31) (length s) ≡ pos (length s) = unfold of_word in ground arith in
        rw (e, append_assoc, read_uint32-be _ _ q, append_assoc, w)
  ]

  -- A UUID reads back as its two halves.
  opo_val_uuid-encode :
      (hi lo : ℕ) (old : ℕ × ℕ)
      → IsValid (uuid hi lo)
      → opo_val_uuid err (some (encode (uuid hi lo) ++ rest)) old ≡ done ((hi, lo), err)
  unfolding opo_val_uuid encode switch
  opo_val_uuid-encode hi lo old h =
      rw (append_assoc, read_uint64-be _ _ h.0, read_uint64-be _ _ h.1)

  pub opo_val_uuid_str-encode :
      (hi lo : ℕ) (old : Bytes)
      → IsValid (uuid hi lo)
      → opo_val_uuid_str err (some (encode (uuid hi lo) ++ rest)) old ≡ done (uuid_text hi lo, err)
  unfolding opo_val_uuid_str encode switch
  opo_val_uuid_str-encode hi lo old h =
      rw (append_assoc, read_uint64-be _ _ h.0, read_uint64-be _ _ h.1)

  -- A time reads back.
  pub opo_val_time-encode :
      (t : ℤ) → IsValid (time t) → opo_val_time err (some (encode (time t) ++ rest)) ≡ done (t, err)
  unfolding opo_val_time encode switch
  opo_val_time-encode t h = rw (
    read_uint64-be _ _ (to_word-lt (2 ^ 64) t (omega arith)),
    of_word-to_word (2 ^ 63) t (omega arith) h,
  )

  -- `opo_val_key` reads a key of at most 255 bytes back; for a longer key, which the format
  -- allows, it returns NULL, leaves the length alone and reports nothing.
  pub opo_val_key-encode_key :
      (s : Bytes) (lenp : Option ℤ)
      → opo_val_key err (some (encode_key s ++ rest)) lenp ≡ (
          if leb (length s) 255
          then done (some (s ++ 0 ∷ rest), put_len lenp (pos (length s)), err)
          else done (none, lenp, err))
  unfolding opo_val_key switch
  opo_val_key-encode_key s lenp = elim (encode_key-cases s) [
    | inl (p, e) ↦
        let q : leb (length s) 255 ≡ true = ground arith in rw (e, be-byte _ p, append_assoc, q)
    | inr (p, e) ↦ let q : leb (length s) 255 ≡ false = ground arith in rw (e, q)
  ]

pub read_bytes-append : (s rest : Bytes) → read_bytes (length s) (s ++ rest) ≡ done s
unfolding read_bytes
read_bytes-append [] rest = refl
read_bytes-append (x ∷ s) rest = rw (read_bytes-append s rest)

-- `opo_val_double` hands `strtod` exactly the text of a decimal.
pub opo_val_double-encode :
    {D : Type 0} (strtod : Bytes → D) (zero_double : D) (err : Err) (s rest : Bytes)
    → IsValid (decimal s)
    → opo_val_double strtod zero_double err (some (encode (decimal s) ++ rest))
      ≡ done (strtod s, err)
unfolding opo_val_double encode switch
opo_val_double-encode strtod zero_double err s rest h = rw (be-byte _ h, read_bytes-append)
