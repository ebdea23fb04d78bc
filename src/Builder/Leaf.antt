-- ===== src/Builder/Leaf.antt =====
-- A value without members takes one call, which adds its key and its encoding.
use opo_c.Prelude.{
  ℕ, ◌+◌, ◌%◌, ◌/◌, ◌^◌, ◌<◌, ◌≤◌, ◌≡◌, ap, inl, inr, Bool-cases, leb, List, [], ◌∷◌, ◌++◌, Bool,
  true, false, length, arith,
}
use opo_c.Prelude.Int.{ℤ, pos, in_range, to_word, to_word-lt}
use opo_c.Outcome.{done}
use opo_c.Bytes.{Bytes, fill_uint16, fill_uint32, fill_uint64}
use opo_c.Err.{Err}
use opo_c.Val.{tag, val_null, val_int1, val_int2, val_int4, val_int8, val_dec, val_uuid, val_time}
use opo_c.Val.Access.Read.{read_bytes-append}
use opo_c.Wire.{null, boolean, decimal, uuid, time, be, encode, encode_int, encode_string}
use opo_c.Wire.Cases.{encode_string-cases}
use opo_c.Wire.Digits.{lengths, be-byte, fill_uint16-eq-be, fill_uint32-eq-be, fill_uint64-eq-be}
use opo_c.Builder.{Heap, if_ok, emit, builder_assure, builder_append_byte}
use opo_c.Builder.Fill.{fill_str, str_header}
use opo_c.Builder.Push.{
  Key, check_key, push_bytes, builder_push_str, opo_builder_push_null, opo_builder_push_bool,
  opo_builder_push_int, opo_builder_push_string, opo_builder_push_double, opo_builder_push_uuid,
  opo_builder_push_time,
}
use opo_c.Builder.Room.{at, Adds, emit-Adds}
use opo_c.Builder.Slot.{with_nul, Slot, text_length-nul, if_ok-Adds, assure-Adds, check_key-Adds}

pub fill_str-nul :
    (s : Bytes) → length s < 2 ^ 31 → fill_str (with_nul s) (length s) ≡ done (encode_string s)
unfolding fill_str str_header encode_string be
fill_str-nul s h = rw (read_bytes-append s (0 ∷ [])) (elim (Bool-cases (leb (length s) 0xff)) [
  | inl p ↦ let q : length s / 1 ≡ length s = omega arith in rw (p, q)
  | inr p ↦ elim (Bool-cases (leb (length s) 0xffff)) [
    | inl q ↦ rw (p, q, fill_uint16-eq-be (length s))
    | inr q ↦ rw (p, q, fill_uint32-eq-be (length s))
  ]
])

module _ (own : Bool) {stack : List ℕ} (err : Err) (heap : Heap) {pre : Bytes} {key : Key}
    {kb : Bytes} (free : Bytes) (slot : Slot pre stack key kb) where
  pub push_bytes-Adds :
      (size : ℕ) (bytes : Bytes)
      → size ≤ length bytes
      → length kb + length bytes + 8 ≤ length free
      → Adds own stack err (push_bytes heap key size bytes) pre free (kb ++ bytes)
  push_bytes-Adds size bytes l h =
      if_ok-Adds own stack err (check_key heap key)
        (λ s. if_ok (builder_assure heap size s) (emit bytes)) pre free kb bytes
        (check_key-Adds own err heap free slot (omega arith))
        (λ free' e.
          assure-Adds own stack err heap size (emit bytes) (pre ++ kb) free' bytes (omega arith)
            (emit-Adds own stack err bytes (pre ++ kb) free' (omega arith)))

  pub str-Adds :
      (s : Bytes)
      → length s < 2 ^ 31
      → length kb + length (encode_string s) + 8 ≤ length free
      → Adds own stack err
          (opo_builder_push_string heap (with_nul s) (pos (length s)) key)
          pre
          free
          (kb ++ encode_string s)
  unfolding opo_builder_push_string builder_push_str
  str-Adds s v h =
      let n : length s + 2 ≤ length (encode_string s) = elim (encode_string-cases s) [
        | inl (_, e) ↦ omega (lengths, ap length e)
        | inr (inl (_, e)) ↦ omega (lengths, ap length e)
        | inr (inr e) ↦ omega (lengths, ap length e)
      ] in
      let (free', e, l) =
        if_ok-Adds own stack err (check_key heap key)
          (builder_push_str heap (with_nul s) (length s)) pre free kb (encode_string s)
          (check_key-Adds own err heap free slot (omega arith))
          (λ free' e.
            let (free₂, e', l') =
              assure-Adds own stack err heap (length s + 6) (emit (encode_string s)) (pre ++ kb)
                free' (encode_string s) (omega arith)
                (emit-Adds own stack err (encode_string s) (pre ++ kb) free' (omega arith)) in
            (free₂, rw (fill_str-nul s v) e', l')) in
      (free', rw (text_length-nul s) e, l)

  -- One of the four forms of a number is what the call adds.
  int-push :
      (i : ℤ)
      → (size : ℕ) × (bytes : Bytes) × (opo_builder_push_int heap i key (err, at own stack pre free)
          ≡ push_bytes heap key size bytes (err, at own stack pre free))
        × (encode_int i ≡ bytes)
        × (size ≤ length bytes)
  unfolding opo_builder_push_int encode_int
  int-push i = elim (Bool-cases (in_range (2 ^ 7) i)) [
    | inl p ↦ (
      2,
      tag val_int1 ∷ to_word (2 ^ 8) i ∷ [],
      rw p,
      rw (p, be-byte _ (to_word-lt (2 ^ 8) i (omega arith))),
      omega arith,
    )
    | inr p ↦ elim (Bool-cases (in_range (2 ^ 15) i)) [
      | inl q ↦ (
        3,
        tag val_int2 ∷ fill_uint16 (to_word (2 ^ 16) i),
        rw (p, q),
        rw (p, q, fill_uint16-eq-be (to_word (2 ^ 16) i)),
        omega (lengths, ap length (fill_uint16-eq-be (to_word (2 ^ 16) i))),
      )
      | inr q ↦ elim (Bool-cases (in_range (2 ^ 31) i)) [
        | inl r ↦ (
          5,
          tag val_int4 ∷ fill_uint32 (to_word (2 ^ 32) i),
          rw (p, q, r),
          rw (p, q, r, fill_uint32-eq-be (to_word (2 ^ 32) i)),
          omega (lengths, ap length (fill_uint32-eq-be (to_word (2 ^ 32) i))),
        )
        | inr r ↦ (
          9,
          tag val_int8 ∷ fill_uint64 (to_word (2 ^ 64) i),
          rw (p, q, r),
          rw (p, q, r, fill_uint64-eq-be (to_word (2 ^ 64) i)),
          omega (lengths, ap length (fill_uint64-eq-be (to_word (2 ^ 64) i))),
        )
      ]
    ]
  ]

  pub int-Adds :
      (i : ℤ)
      → length kb + length (encode_int i) + 8 ≤ length free
      → Adds own stack err (opo_builder_push_int heap i key) pre free (kb ++ encode_int i)
  int-Adds i h =
      let (size, bytes, e, b, l) = int-push i in
      let (free', e', l') = push_bytes-Adds size bytes l (omega (arith, ap length b)) in
      (free', rw (e, b) e', omega (lengths, ap length b))

  -- A value that is not a container adds its encoding with one call.
  pub null-Adds :
      length kb + 9 ≤ length free
      → Adds own stack err (opo_builder_push_null heap key) pre free (kb ++ encode null)
  unfolding opo_builder_push_null builder_append_byte encode
  null-Adds h = push_bytes-Adds 1 (tag val_null ∷ []) (omega arith) (omega arith)

  pub bool-Adds :
      (b : Bool)
      → length kb + 9 ≤ length free
      → Adds own stack err (opo_builder_push_bool heap b key) pre free (kb ++ encode (boolean b))
  unfolding opo_builder_push_bool builder_append_byte encode
  bool-Adds true h = push_bytes-Adds 1 _ (omega arith) (omega arith)
  bool-Adds false h = push_bytes-Adds 1 _ (omega arith) (omega arith)

  pub double-Adds :
      (s : Bytes)
      → length s < 256
      → length kb + length (encode (decimal s)) + 8 ≤ length free
      → Adds own stack err (opo_builder_push_double heap s key) pre free (kb ++ encode (decimal s))
  unfolding opo_builder_push_double encode
  double-Adds s v h =
      let q : length s % 256 ≡ length s = omega arith in
      rw (be-byte (length s) v, q)
        (push_bytes-Adds (length s + 2) (tag val_dec ∷ length s ∷ s) (omega arith) (omega lengths))

  pub uuid-Adds :
      (hi lo : ℕ)
      → length kb + length (encode (uuid hi lo)) + 8 ≤ length free
      → Adds own stack err
          (opo_builder_push_uuid heap hi lo key)
          pre
          free
          (kb ++ encode (uuid hi lo))
  unfolding opo_builder_push_uuid encode
  uuid-Adds hi lo h =
      rw (fill_uint64-eq-be hi, fill_uint64-eq-be lo)
        (push_bytes-Adds 17 (tag val_uuid ∷ (be 8 hi ++ be 8 lo)) (omega lengths) (omega lengths))

  pub time-Adds :
      (t : ℤ)
      → length kb + length (encode (time t)) + 8 ≤ length free
      → Adds own stack err (opo_builder_push_time heap t key) pre free (kb ++ encode (time t))
  unfolding opo_builder_push_time encode
  time-Adds t h =
      rw (fill_uint64-eq-be (to_word (2 ^ 64) t)) (
        push_bytes-Adds 9 (tag val_time ∷ be 8 (to_word (2 ^ 64) t)) (omega lengths)
          (omega lengths))
