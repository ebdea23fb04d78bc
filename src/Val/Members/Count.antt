-- ===== src/Val/Members/Count.antt =====
-- `opo_val_member_count` counts the members, and does not end on a member of an unknown type.
use opo_c.Prelude.{
  ℕ, zero, suc, ◌+◌, ◌^◌, ◌<◌, ◌≡◌, ◌≢◌, ◌⊎◌, ◌∙◌, ap, none, some, ◌∷◌, ◌++◌, length, append_assoc,
  arith, ◌==◌, false, inl, inr,
}
use opo_c.Outcome.{done, fault}
use opo_c.Bytes.{Bytes, skip}
use opo_c.Err.{Err}
use opo_c.Val.{switch, opo_val_bsize, bsize_case}
use opo_c.Val.Members.{incr_int, count_fields, count_items, opo_val_member_count, step_over}
use opo_c.Val.Members.Walk.{step_over-encode, step_over-encode_key}
use opo_c.Wire.{
  Items, Fields, no_items, item, no_fields, field, array, object, encode, encode_key, encode_items,
  encode_fields, IsValid, IsValidItems, IsValidFields,
}
use opo_c.Wire.Digits.{length-append_bytes, read_uint32-be}
use opo_c.Wire.Sizes.{length-encode_pos, length-encode_key_pos}

-- the number of members
abbrev pub size_items : Items → ℕ
size_items no_items = 0
size_items (item v xs) = suc (size_items xs)

abbrev pub size_fields : Fields → ℕ
size_fields no_fields = 0
size_fields (field k v fs) = suc (size_fields fs)

incr_int-below : (cnt k : ℕ) → cnt + suc k < 2 ^ 31 → incr_int cnt ≡ done (cnt + 1)
unfolding incr_int
incr_int-below cnt k h = ground arith

incr_int-cases : (cnt : ℕ) → (incr_int cnt ≡ fault) ⊎ (incr_int cnt ≡ done (cnt + 1))
unfolding incr_int
incr_int-cases cnt = ground arith

step_over-unknown :
    (c : ℕ) (b : Bytes) (left : ℕ) → switch c ≡ none → step_over left (c ∷ b) ≡ done (left, c ∷ b)
unfolding step_over opo_val_bsize skip
step_over-unknown c b left e = rw (e, bsize_case) (ap (λ n. done (n, c ∷ b)) (omega arith))

count_items-encode :
    (f : ℕ) (xs : Items) (rest : Bytes) (cnt : ℕ)
    → IsValidItems xs
    → size_items xs < f
    → cnt + size_items xs < 2 ^ 31
    → count_items f (length (encode_items xs)) (encode_items xs ++ rest) cnt
      ≡ done (cnt + size_items xs)
unfolding count_items encode_items
count_items-encode zero xs rest cnt v h r = absurd (omega arith)
count_items-encode (suc f) no_items rest cnt v h r = ap done (omega arith)
count_items-encode (suc f) (item x xs) rest cnt v h r =
    let e = length-append_bytes (encode x) (encode_items xs) in
    let more : (length (encode_items (item x xs)) == 0) ≡ false =
      ground (arith, e, length-encode_pos x) in
    rw (more, incr_int-below cnt (size_items xs) r, e, append_assoc, step_over-encode x _ _ v.0)
      (count_items-encode f xs rest (cnt + 1) v.1 (omega arith) (omega arith)
        ∙ ap done (omega arith))

count_fields-encode :
    (f : ℕ) (fs : Fields) (rest : Bytes) (cnt : ℕ)
    → IsValidFields fs
    → size_fields fs < f
    → cnt + size_fields fs < 2 ^ 31
    → count_fields f (length (encode_fields fs)) (encode_fields fs ++ rest) cnt
      ≡ done (cnt + size_fields fs)
unfolding count_fields encode_fields
count_fields-encode zero fs rest cnt v h r = absurd (omega arith)
count_fields-encode (suc f) no_fields rest cnt v h r = ap done (omega arith)
count_fields-encode (suc f) (field k x fs) rest cnt v h r =
    let e = length-append_bytes (encode_key k) (encode x ++ encode_fields fs) in
    let e' = length-append_bytes (encode x) (encode_fields fs) in
    let more : (length (encode_fields (field k x fs)) == 0) ≡ false =
      ground (arith, e, length-encode_key_pos k) in
    rw
      (
        more,
        incr_int-below cnt (size_fields fs) r,
        e,
        append_assoc,
        step_over-encode_key k _ _ v.0,
        e',
        append_assoc,
        step_over-encode x _ _ v.1,
      )
      (count_fields-encode f fs rest (cnt + 1) v.2 (omega arith) (omega arith)
        ∙ ap done (omega arith))

-- With fuel above the number of members, the count of an array is the number of its items, and
-- nothing is reported.
opo_val_member_count-array :
    (fuel : ℕ) (err : Err) (xs : Items) (rest : Bytes)
    → IsValid (array xs)
    → size_items xs < fuel
    → size_items xs < 2 ^ 31
    → opo_val_member_count fuel err (some (encode (array xs) ++ rest)) ≡ done (size_items xs, err)
unfolding opo_val_member_count encode switch
opo_val_member_count-array fuel err xs rest v h r =
    rw (append_assoc, read_uint32-be _ _ v.0, count_items-encode fuel xs rest 0 v.1 h (omega arith))
      (ap (λ n. done (n, err)) (omega arith))

-- With fuel above the number of members, the count of an object is the number of its fields, and
-- nothing is reported.
pub opo_val_member_count-object :
    (fuel : ℕ) (err : Err) (fs : Fields) (rest : Bytes)
    → IsValid (object fs)
    → size_fields fs < fuel
    → size_fields fs < 2 ^ 31
    → opo_val_member_count fuel err (some (encode (object fs) ++ rest)) ≡ done (size_fields fs, err)
unfolding opo_val_member_count encode switch
opo_val_member_count-object fuel err fs rest v h r =
    rw
      (append_assoc, read_uint32-be _ _ v.0, count_fields-encode fuel fs rest 0 v.1 h (omega arith))
      (ap (λ n. done (n, err)) (omega arith))

-- At a byte that is no type tag the size is 0, so the loop over an array stays where it is: it
-- never gives a count, whatever the fuel.
pub count_items-stuck :
    (f c : ℕ) (b : Bytes) (left cnt n : ℕ)
    → switch c ≡ none
    → 0 < left
    → count_items f left (c ∷ b) cnt ≢ done n
unfolding count_items
count_items-stuck zero c b left cnt n e p = cc
count_items-stuck (suc f) c b left cnt n e p =
    let more : (left == 0) ≡ false = ground arith in
    let stay : step_over left (c ∷ b) ≡ done (left, c ∷ b) = step_over-unknown c b left e in
    rw (more, stay)
      (elim (incr_int-cases cnt) [
        | inl e' ↦ rw e' (cc)
        | inr e' ↦ rw e' (count_items-stuck f c b left (cnt + 1) n e p)
      ])
