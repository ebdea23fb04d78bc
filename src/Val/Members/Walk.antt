-- ===== src/Val/Members/Walk.antt =====
-- Stepping from member to member.
use opo_c.Prelude.{ℕ, ◌+◌, ◌-◌, ◌^◌, ◌<◌, ◌≡◌, refl, some, ◌++◌, length, append_assoc, arith}
use opo_c.Outcome.{done}
use opo_c.Bytes.{Bytes, skip}
use opo_c.Bytes.RoundTrip.{skip-append}
use opo_c.Err.{Err}
use opo_c.Val.{switch}
use opo_c.Val.Size.{opo_val_bsize-encode, bsize-encode_key}
use opo_c.Val.Members.{opo_val_members, opo_val_next, step_over}
use opo_c.Wire.{
  Value, Items, Fields, array, object, be, encode, encode_key, encode_items, encode_fields, IsValid,
}

-- The pointer after a value is the start of what follows it.
pub opo_val_next-encode :
    (v : Value) (rest : Bytes)
    → IsValid v
    → opo_val_next (some (encode v ++ rest)) ≡ done (some rest)
unfolding opo_val_next
opo_val_next-encode v rest h = rw (opo_val_bsize-encode v rest h, skip-append)

-- `step_over` on a value and on a key
pub step_over-encode :
    (v : Value) (rest : Bytes) (left : ℕ)
    → IsValid v
    → step_over (length (encode v) + left) (encode v ++ rest) ≡ done (left, rest)
unfolding step_over
step_over-encode v rest left h =
    let e : length (encode v) + left - length (encode v) ≡ left = omega arith in
    rw (opo_val_bsize-encode v rest h, skip-append, e)

pub step_over-encode_key :
    (k rest : Bytes) (left : ℕ)
    → length k < 2 ^ 16
    → step_over (length (encode_key k) + left) (encode_key k ++ rest) ≡ done (left, rest)
unfolding step_over
step_over-encode_key k rest left h =
    let e : length (encode_key k) + left - length (encode_key k) ≡ left = omega arith in
    rw (bsize-encode_key k rest h, skip-append, e)

skip_header : (n : ℕ) (b : Bytes) → skip 4 (be 4 n ++ b) ≡ done b
unfolding skip be
skip_header n b = refl

-- The members of a container start after its five bytes of header.
pub opo_val_members-encode :
    (err : Err) (xs : Items) (fs : Fields) (rest : Bytes)
    → (opo_val_members err (some (encode (array xs) ++ rest))
        ≡ done (some (encode_items xs ++ rest), err))
      × (opo_val_members err (some (encode (object fs) ++ rest))
          ≡ done (some (encode_fields fs ++ rest), err))
unfolding opo_val_members encode switch skip
opo_val_members-encode err xs fs rest =
    (rw (append_assoc, skip_header), rw (append_assoc, skip_header))
