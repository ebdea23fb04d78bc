-- ===== src/Val/Iterate/Weight.antt =====
-- The fuel that `val_iterate` uses on a value.
use opo_c.Prelude.{ℕ, suc, ◌+◌, ◌<◌, ◌≤◌, length, arith}
use opo_c.Wire.{
  Value, Items, Fields, array, object, no_items, item, no_fields, field, encode, encode_items,
  encode_fields,
}
use opo_c.Wire.Digits.{lengths}
use opo_c.Wire.Sizes.{length-encode_pos, length-encode_key_pos}

-- a round for each part inside of a value
unfoldable mutual
  pub weight : Value → ℕ
  weight (array xs) = suc (weight_items xs)
  weight (object fs) = suc (weight_fields fs)
  weight _ = 0

  pub weight_items : Items → ℕ
  weight_items no_items = 0
  weight_items (item v xs) = weight v + weight_items xs + 1

  pub weight_fields : Fields → ℕ
  weight_fields no_fields = 0
  weight_fields (field k v fs) = weight v + weight_fields fs + 2

mutual
  unfolding weight encode

  weight-lt : (v : Value) → weight v < length (encode v)
  weight-lt (array xs) = omega (lengths, weight_items-le xs)
  weight-lt (object fs) = omega (lengths, weight_fields-le fs)
  weight-lt v = length-encode_pos v

  weight_items-le : (xs : Items) → weight_items xs ≤ length (encode_items xs)
  weight_items-le no_items = omega arith
  weight_items-le (item v xs) = omega (lengths, weight-lt v, weight_items-le xs)

  weight_fields-le : (fs : Fields) → weight_fields fs ≤ length (encode_fields fs)
  weight_fields-le no_fields = omega arith
  weight_fields-le (field k v fs) =
      omega (lengths, weight-lt v, weight_fields-le fs, length-encode_key_pos k)

-- Fuel for every byte is enough.
pub weight-lt-length : (v : Value) → weight v < length (encode v)
weight-lt-length v = weight-lt v
