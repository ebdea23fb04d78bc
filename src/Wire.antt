-- ===== src/Wire.antt =====
-- The wire format of an OpO value, as an abstract specification: the values, the bytes that stand
-- for each, and which values the format can hold. It is written independently of the code, which
-- reads the format in src/opo/val.c and writes it in src/opo/builder.c and src/opo/opo.c.
pub mod Digits
pub mod Cases
pub mod Sizes
pub mod Time
use opo_c.Prelude.{
  ℕ, zero, suc, ◌+◌, ◌*◌, ◌/◌, ◌%◌, ◌^◌, ◌<◌, leb, if◌then◌else◌, Bool, true, false, [], ◌∷◌, ◌++◌,
  length,
}
use opo_c.Prelude.Int.{ℤ, to_word, in_range, InRange}
use opo_c.Bytes.{Bytes}
use opo_c.Val.{
  ValType, tag, val_null, val_true, val_false, val_int1, val_int2, val_int4, val_int8, val_str1,
  val_str2, val_str4, val_key1, val_key2, val_dec, val_uuid, val_time, val_obj, val_array,
}

-- The constructors are named after the callbacks of `opoValCallbacks`.
mutual
  pub data Value : Type 0 where
    null : Value
    boolean : Bool → Value
    fixnum : ℤ → Value
    string : Bytes → Value
    decimal : Bytes → Value
    uuid : ℕ → ℕ → Value
    time : ℤ → Value
    array : Items → Value
    object : Fields → Value

  pub data Items : Type 0 where
    no_items : Items
    item : Value → Items → Items

  pub data Fields : Type 0 where
    no_fields : Fields
    field : Bytes → Value → Fields → Fields

-- the `k` low base-256 digits of `n`, the highest first
unfoldable pub be : ℕ → ℕ → Bytes
be zero n = []
be (suc k) n = (n / 256 ^ k % 256) ∷ be k n

-- The shortest of the four forms that holds the number.
unfoldable pub encode_int : ℤ → Bytes
encode_int i =
    if in_range (2 ^ 7) i
    then tag val_int1 ∷ be 1 (to_word (2 ^ 8) i)
    else if in_range (2 ^ 15) i
    then tag val_int2 ∷ be 2 (to_word (2 ^ 16) i)
    else if in_range (2 ^ 31) i
    then tag val_int4 ∷ be 4 (to_word (2 ^ 32) i)
    else tag val_int8 ∷ be 8 (to_word (2 ^ 64) i)

-- The shortest of the three headers that holds the length, the text, and a NUL.
unfoldable pub encode_string : Bytes → Bytes
encode_string s =
    let n = length s in
    if leb n 0xff
    then tag val_str1 ∷ (be 1 n ++ (s ++ (0 ∷ [])))
    else if leb n 0xffff
    then tag val_str2 ∷ (be 2 n ++ (s ++ (0 ∷ [])))
    else tag val_str4 ∷ (be 4 n ++ (s ++ (0 ∷ [])))

unfoldable pub encode_key : Bytes → Bytes
encode_key s =
    let n = length s in
    if leb n 0xff
    then tag val_key1 ∷ (be 1 n ++ (s ++ (0 ∷ [])))
    else tag val_key2 ∷ (be 2 n ++ (s ++ (0 ∷ [])))

-- A container is its tag, the number of bytes of its members in four bytes, and the members.
unfoldable mutual
  pub encode : Value → Bytes
  encode null = tag val_null ∷ []
  encode (boolean true) = tag val_true ∷ []
  encode (boolean false) = tag val_false ∷ []
  encode (fixnum i) = encode_int i
  encode (string s) = encode_string s
  encode (decimal s) = tag val_dec ∷ (be 1 (length s) ++ s)
  encode (uuid hi lo) = tag val_uuid ∷ (be 8 hi ++ be 8 lo)
  encode (time t) = tag val_time ∷ be 8 (to_word (2 ^ 64) t)
  encode (array xs) = tag val_array ∷ (be 4 (length (encode_items xs)) ++ encode_items xs)
  encode (object fs) = tag val_obj ∷ (be 4 (length (encode_fields fs)) ++ encode_fields fs)

  pub encode_items : Items → Bytes
  encode_items no_items = []
  encode_items (item v xs) = encode v ++ encode_items xs

  pub encode_fields : Fields → Bytes
  encode_fields no_fields = []
  encode_fields (field k v fs) = encode_key k ++ (encode v ++ encode_fields fs)

-- What the format can hold: 64-bit numbers, texts whose length is an `int`, decimals of at most
-- 255 characters, keys below 2 ^ 16, and containers below 2 ^ 32 bytes.
abbrev mutual
  pub IsValid : Value → Type 0
  IsValid null = Unit
  IsValid (boolean b) = Unit
  IsValid (fixnum i) = InRange (2 ^ 63) i
  IsValid (string s) = length s < 2 ^ 31
  IsValid (decimal s) = length s < 256
  IsValid (uuid hi lo) = (hi < 2 ^ 64) × (lo < 2 ^ 64)
  IsValid (time t) = InRange (2 ^ 63) t
  IsValid (array xs) = (length (encode_items xs) < 2 ^ 32) × IsValidItems xs
  IsValid (object fs) = (length (encode_fields fs) < 2 ^ 32) × IsValidFields fs

  pub IsValidItems : Items → Type 0
  IsValidItems no_items = Unit
  IsValidItems (item v xs) = IsValid v × IsValidItems xs

  pub IsValidFields : Fields → Type 0
  IsValidFields no_fields = Unit
  IsValidFields (field k v fs) = (length k < 2 ^ 16) × IsValid v × IsValidFields fs
