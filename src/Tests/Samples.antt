-- ===== src/Tests/Samples.antt =====
-- Values, reports and buffers for the tests.
use opo_c.Prelude.{true, [], ◌∷◌, ◌≡◌, refl, length, arith}
use opo_c.Prelude.Int.{pos, negsuc, to_word}
use opo_c.Bytes.{Bytes}
use opo_c.Err.{Err, text}
use opo_c.Wire.{
  Value, Items, Fields, boolean, fixnum, string, array, object, no_items, item, no_fields, field,
  IsValid, encode, encode_int, encode_string, encode_key, be,
}

abbrev pub no_err : Err
no_err = record { code = 0; msg = [] }

-- ["a", true, -2]
abbrev pub tags : Items
tags = item (string (text "a")) (item (boolean true) (item (fixnum (negsuc 1)) no_items))

-- {"id": 300, "tags": ["a", true, -2]}
abbrev pub fields : Fields
fields = field (text "id") (fixnum (pos 300)) (field (text "tags") (array tags) no_fields)

abbrev pub sample : Value
sample = object fields

-- bytes that stand behind a value
abbrev pub junk : Bytes
junk = b'Z' ∷ 0xff ∷ []

pub sample-IsValid : IsValid sample
unfolding encode encode_int encode_string encode_key be to_word
sample-IsValid = omega arith

pub tags-IsValid : IsValid (array tags)
unfolding encode encode_int encode_string encode_key be to_word
tags-IsValid = omega arith

pub length-sample : length (encode sample) ≡ 32
unfolding encode encode_int encode_string encode_key be to_word
length-sample = refl
