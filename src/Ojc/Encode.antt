-- ===== src/Ojc/Encode.antt =====
-- `wire_fill` writes the encoding, and `wire_size` is its length.
use opo_c.Prelude.{
  ℕ, ◌+◌, ◌^◌, ◌<◌, ◌≡◌, ◌≢◌, refl, ap, inl, inr, Bool-cases, leb, ◌==◌, [], ◌∷◌, true, false,
  length, arith,
}
use opo_c.Prelude.Int.{ℤ, in_range, to_word, to_word-lt}
use opo_c.Outcome.{Outcome, done}
use opo_c.Bytes.{Bytes}
use opo_c.Wire.{encode_int, encode_string, encode_key}
use opo_c.Wire.Digits.{lengths, be-byte, fill_uint16-eq-be, fill_uint32-eq-be, fill_uint64-eq-be}
use opo_c.Builder.Fill.{fill_str, strlen}
use opo_c.Builder.Slot.{with_nul}
use opo_c.Builder.Leaf.{fill_str-nul}
use opo_c.Ojc.{Ojc, Libc}
use opo_c.Ojc.Text.{nanoseconds}
use opo_c.Ojc.Fill.{
  isize_bytes, size_bytes, is_no_time, as_uuid, as_time, as_str, text_kind, fill_fixnum,
}
use opo_c.Ojc.Detect.{detect_uuid-uuid_text}
use opo_c.Ojc.Time.{Stamp, IsStamp, time_text, broken_down, time_parse-time_text}
use opo_c.Val.Access.{uuid_text}
use opo_c.Ojc.Reads.{NoNul}

pub fill_fixnum-eq-encode_int : (i : ℤ) → fill_fixnum i ≡ encode_int i
unfolding fill_fixnum encode_int
fill_fixnum-eq-encode_int i = elim (Bool-cases (in_range (2 ^ 7) i)) [
  | inl p ↦ rw (p, be-byte _ (to_word-lt (2 ^ 8) i (omega arith)))
  | inr p ↦ elim (Bool-cases (in_range (2 ^ 15) i)) [
    | inl q ↦ rw (p, q, fill_uint16-eq-be (to_word (2 ^ 16) i))
    | inr q ↦ elim (Bool-cases (in_range (2 ^ 31) i)) [
      | inl r ↦ rw (p, q, r, fill_uint32-eq-be (to_word (2 ^ 32) i))
      | inr r ↦ rw (p, q, r, fill_uint64-eq-be (to_word (2 ^ 64) i))
    ]
  ]
]

pub isize_bytes-encode_int : (i : ℤ) → 1 + isize_bytes i ≡ length (encode_int i)
unfolding isize_bytes encode_int
isize_bytes-encode_int i = elim (Bool-cases (in_range (2 ^ 7) i)) [
  | inl p ↦ rw p (omega lengths)
  | inr p ↦ elim (Bool-cases (in_range (2 ^ 15) i)) [
    | inl q ↦ rw (p, q) (omega lengths)
    | inr q ↦ elim (Bool-cases (in_range (2 ^ 31) i)) [
      | inl r ↦ rw (p, q, r) (omega lengths)
      | inr r ↦ rw (p, q, r) (omega lengths)
    ]
  ]
]

size_bytes-encode_string :
    (s : Bytes)
    → length s < 2 ^ 31
    → 1 + (length s + size_bytes (length s) + 1) ≡ length (encode_string s)
unfolding size_bytes encode_string
size_bytes-encode_string s h = elim (Bool-cases (leb (length s) 0xff)) [
  | inl p ↦ rw p (omega lengths)
  | inr p ↦ elim (Bool-cases (leb (length s) 0xffff)) [
    | inl q ↦ rw (p, q) (omega lengths)
    | inr q ↦
        let r : leb (length s) 0xffffffff ≡ true = ground arith in rw (p, q, r) (omega lengths)
  ]
]

pub size_bytes-encode_key :
    (k : Bytes) → length k < 2 ^ 16 → length k + size_bytes (length k) + 2 ≡ length (encode_key k)
unfolding size_bytes encode_key
size_bytes-encode_key k h = elim (Bool-cases (leb (length k) 0xff)) [
  | inl p ↦ rw p (omega lengths)
  | inr p ↦ let q : leb (length k) 0xffff ≡ true = ground arith in rw (p, q) (omega lengths)
]

pub strlen-nul : (s : Bytes) → NoNul s → strlen (with_nul s) ≡ done (length s)
unfolding strlen
strlen-nul [] h = refl
strlen-nul (c ∷ s) (n, h) =
    let e : (c == 0) ≡ false = ground arith in rw (e, strlen-nul s h) (ap done (omega arith))

-- A call on a value that is not a container: the bytes that it writes, and their number.
module _ {V D : Type 0} (ojc : Ojc V D) (libc : Libc D) where
  -- Both functions agree on the bytes.
  abbrev pub Writes : Outcome ℕ → Outcome Bytes → Bytes → Type 0
  Writes size fill bytes = (size ≡ done (length bytes)) × (fill ≡ done bytes)

  pub text_kind-uuid : (hi lo : ℕ) → text_kind libc (with_nul (uuid_text hi lo)) 36 ≡ done as_uuid
  unfolding text_kind
  text_kind-uuid hi lo = rw (detect_uuid-uuid_text hi lo)

  pub text_kind-time :
      (t : Stamp) (i : ℤ)
      → IsStamp t
      → i ≡ nanoseconds (libc.timegm (broken_down t)) t.nsec
      → is_no_time i ≡ false
      → text_kind libc (with_nul (time_text t)) 30 ≡ done (as_time i)
  unfolding text_kind
  text_kind-time t i h e n = rw (time_parse-time_text libc t h, ← e, n)

  pub text_kind-plain : (str : Bytes) (n : ℕ) → n ≢ 36 → n ≢ 30 → text_kind libc str n ≡ done as_str
  unfolding text_kind
  text_kind-plain str n p q =
      let a : (36 == n) ≡ false = ground arith in
      let b : (30 == n) ≡ false = ground arith in rw (a, b)

  pub leaf_text :
      (s : Bytes)
      → length s < 2 ^ 31
      → Writes
          (done (1 + (length s + size_bytes (length s) + 1)))
          (fill_str (with_nul s) (length s))
          (encode_string s)
  leaf_text s h = (ap done (size_bytes-encode_string s h), fill_str-nul s h)
