-- ===== src/Ojc/Leaf.antt =====
-- `wire_fill` of a document writes the encoding of what it stands for, and `wire_size` is its length.
use opo_c.Prelude.{ℕ, ◌+◌, ◌%◌, ◌^◌, ◌<◌, ◌≡◌, ◌≢◌, refl, ap, ◌∷◌, ◌++◌, false, length, arith}
use opo_c.Prelude.Int.{ℤ, to_word}
use opo_c.Outcome.{done}
use opo_c.Bytes.{Bytes}
use opo_c.Wire.{decimal, uuid, time, encode, encode_int, encode_string, be}
use opo_c.Wire.Digits.{lengths, be-byte, fill_uint32-eq-be, fill_uint64-eq-be}
use opo_c.Builder.Slot.{with_nul}
use opo_c.Builder.Uuid.{fill_uuid-uuid_text}
use opo_c.Ojc.{OjcType, ojc_string, ojc_number, ojc_fixnum, ojc_decimal, ojc_word, Ojc, Libc}
use opo_c.Ojc.Text.{nanoseconds}
use opo_c.Ojc.Fill.{decimal_text, is_no_time, size_leaf, fill_leaf, container}
use opo_c.Ojc.Time.{Stamp, IsStamp, time_text, broken_down}
use opo_c.Val.Access.{uuid_text}
use opo_c.Ojc.Reads.{NoNul}
use opo_c.Ojc.Encode.{
  fill_fixnum-eq-encode_int, isize_bytes-encode_int, strlen-nul, Writes, text_kind-uuid,
  text_kind-time, text_kind-plain, leaf_text,
}

pub length-frame :
    (t : ℕ) (body : Bytes) → length (t ∷ (be 4 (length body) ++ body)) ≡ 5 + length body
length-frame t body = omega lengths

pub container-frame :
    (t : ℕ) (body : Bytes)
    → length body < 2 ^ 32
    → container t body ≡ t ∷ (be 4 (length body) ++ body)
container-frame t body h =
    let e : length body % 2 ^ 32 ≡ length body = omega arith in
    rw (e, fill_uint32-eq-be (length body))

module _ {V D : Type 0} (ojc : Ojc V D) (libc : Libc D) where
  abbrev pub WritesLeaf : OjcType → V → Bytes → Type 0
  WritesLeaf t v bytes = Writes ojc libc (size_leaf ojc libc t v) (fill_leaf ojc libc t v) bytes

  pub leaf_uuid :
      (v : V) (hi lo : ℕ)
      → ojc.ojc_str v ≡ with_nul (uuid_text hi lo)
      → ojc.ojc_str_len v ≡ 36
      → WritesLeaf ojc_string v (encode (uuid hi lo))
  unfolding size_leaf fill_leaf
  leaf_uuid v hi lo e l =
      rw (e, l, text_kind-uuid ojc libc hi lo, e, fill_uuid-uuid_text hi lo)
        (unfold encode in ap done (omega lengths), refl)

  pub leaf_time :
      (v : V) (t : Stamp) (i : ℤ)
      → ojc.ojc_str v ≡ with_nul (time_text t)
      → ojc.ojc_str_len v ≡ 30
      → IsStamp t
      → i ≡ nanoseconds (libc.timegm (broken_down t)) t.nsec
      → is_no_time i ≡ false
      → WritesLeaf ojc_string v (encode (time i))
  unfolding size_leaf fill_leaf encode
  leaf_time v t i e l h q n =
      rw (e, l, text_kind-time ojc libc t i h q n, fill_uint64-eq-be (to_word (2 ^ 64) i))
        (ap done (omega lengths), refl)

  pub leaf_string :
      (v : V) (s : Bytes)
      → ojc.ojc_str v ≡ with_nul s
      → ojc.ojc_str_len v ≡ length s
      → length s ≢ 36
      → length s ≢ 30
      → length s < 2 ^ 31
      → WritesLeaf ojc_string v (encode_string s)
  unfolding size_leaf fill_leaf
  leaf_string v s e l p q h =
      rw (e, l, text_kind-plain ojc libc (with_nul s) (length s) p q, e, l) (leaf_text ojc libc s h)

  pub leaf_number :
      (v : V) (s : Bytes)
      → ojc.ojc_number v ≡ with_nul s
      → ojc.ojc_number_len v ≡ length s
      → length s < 2 ^ 31
      → WritesLeaf ojc_number v (encode_string s)
  unfolding size_leaf fill_leaf
  leaf_number v s e l h = rw (e, l) (leaf_text ojc libc s h)

  pub leaf_word :
      (v : V) (s : Bytes)
      → ojc.ojc_word v ≡ with_nul s
      → NoNul s
      → length s < 2 ^ 31
      → WritesLeaf ojc_word v (encode_string s)
  unfolding size_leaf fill_leaf
  leaf_word v s e n h = rw (e, strlen-nul s n) (leaf_text ojc libc s h)

  pub leaf_fixnum : (v : V) (i : ℤ) → ojc.ojc_int v ≡ i → WritesLeaf ojc_fixnum v (encode_int i)
  unfolding size_leaf fill_leaf
  leaf_fixnum v i e =
      rw e (ap done (isize_bytes-encode_int i), ap done (fill_fixnum-eq-encode_int i))

  pub leaf_decimal :
      (v : V) (s : Bytes)
      → decimal_text ojc libc (ojc.ojc_double v) ≡ s
      → length s < 256
      → WritesLeaf ojc_decimal v (encode (decimal s))
  unfolding size_leaf fill_leaf encode
  leaf_decimal v s e h =
      let q : length s % 256 ≡ length s = omega arith in
      rw (e, be-byte (length s) h, q) (ap done (omega arith), refl)
