-- ===== src/Tests/Ojc.antt =====
-- An OjC document with a time and a UUID.
use opo_c.Prelude.{ℕ, ◌≡◌, refl, Option, none, some, [], ◌∷◌, ◌++◌, true, length, replicate, arith}
use opo_c.Prelude.Int.{ℤ, pos, to_word}
use opo_c.Outcome.{done}
use opo_c.Bytes.{Bytes}
use opo_c.Err.{text}
use opo_c.Val.Access.{uuid_text}
use opo_c.Wire.{
  Value, fixnum, time, uuid, array, object, string, no_items, item, no_fields, field, encode,
  encode_int, encode_string, encode_key, be, IsValid,
}
use opo_c.Builder.Slot.{with_nul}
use opo_c.Ojc.{OjcType, ojc_string, ojc_fixnum, ojc_array, ojc_object, Ojc, Libc}
use opo_c.Ojc.Text.{nanoseconds, int_sub}
use opo_c.Ojc.Fill.{opo_ojc_fill_msg, opo_ojc_msg_size}
use opo_c.Ojc.Time.{Stamp, time_text, dec}
use opo_c.Ojc.Reads.{
  Reads, is_uuid, is_time, is_text, is_fixnum, is_array, is_object, items_end, items_next,
  fields_end, fields_next,
}
use opo_c.Ojc.Message.{opo_ojc_fill_msg-size}

-- a value with its key and the members behind it
mutual
  pub data Node : Type 0 where
    node : Bytes → Content → Chain → Node

  pub data Content : Type 0 where
    str : Bytes → Content
    int : ℤ → Content
    list : Chain → Content
    dict : Chain → Content

  pub data Chain : Type 0 where
    last : Chain
    then_node : Node → Chain

abbrev content : Node → Content
content (node k c n) = c

abbrev next : Chain → Option Node
next last = none
next (then_node m) = some m

abbrev type_of : Content → OjcType
type_of (str s) = ojc_string
type_of (int i) = ojc_fixnum
type_of (list m) = ojc_array
type_of (dict m) = ojc_object

abbrev text_of : Content → Bytes
text_of (str s) = s
text_of _ = []

abbrev int_of : Content → ℤ
int_of (int i) = i
int_of _ = pos 0

abbrev members_of : Content → Option Node
members_of (list m) = next m
members_of (dict m) = next m
members_of _ = none

abbrev key_of : Node → Bytes
key_of (node k c n) = k

abbrev next_of : Node → Option Node
next_of (node k c n) = next n

abbrev pub nodes : Ojc Node Bytes
nodes = record {
  ojc_type = λ v. type_of (content v);
  ojc_str = λ v. with_nul (text_of (content v));
  ojc_str_len = λ v. length (text_of (content v));
  ojc_number = λ v. 0 ∷ [];
  ojc_number_len = λ v. 0;
  ojc_int = λ v. int_of (content v);
  ojc_double = λ v. [];
  ojc_word = λ v. 0 ∷ [];
  ojc_members = λ v. members_of (content v);
  ojc_next = next_of;
  ojc_key = λ v. with_nul (key_of v);
  ojc_key_len = λ v. length (key_of v);
}

-- a `timegm` that knows one time
abbrev pub libc : Libc Bytes
libc = record {
  timegm = λ t. pos 1489504166;
  is_whole = λ d. true;
  format_whole = λ d. d;
  format_short = λ d. d;
}

abbrev stamp : Stamp
stamp = record { year = 2017; mon = 3; mday = 14; hour = 15; min = 9; sec = 26; nsec = 535897932 }

abbrev pub time_string : Bytes
time_string = text "2017-03-14T15:09:26.535897932Z"

abbrev pub uuid_string : Bytes
uuid_string = text "123e4567-e89b-12d3-a456-426655440000"

-- {"id": 300, "at": "2017-03-14T15:09:26.535897932Z", "ids": ["123e4567-…", "pi"]}
abbrev pub document : Node
document =
    node []
      (dict (
        then_node (
          node (text "id") (int (pos 300)) (
            then_node (
              node (text "at") (str time_string) (
                then_node (
                  node (text "ids")
                    (list (
                      then_node
                        (node [] (str uuid_string) (then_node (node [] (str (text "pi")) last)))))
                    last)))))))
      last

abbrev pub value : Value
value = object (
    field (text "id") (fixnum (pos 300)) (
      field (text "at") (time (pos 1489504166535897932)) (
        field (text "ids")
          (array (
            item (uuid 0x123e4567e89b12d3 0xa456426655440000) (item (string (text "pi")) no_items)))
          no_fields)))

pub document-Reads : Reads nodes libc document value
unfolding time_text dec uuid_text nanoseconds int_sub
document-Reads = is_object refl (
    fields_next refl refl (is_fixnum refl refl) (
      fields_next refl refl (is_time stamp refl refl refl (omega arith) refl refl) (
        fields_next refl refl
          (is_array refl (
            items_next (is_uuid refl refl refl)
              (items_next (is_text refl refl refl (omega arith) (omega arith)) items_end)))
          fields_end)))

pub value-IsValid : IsValid value
unfolding encode encode_int encode_string encode_key be to_word
value-IsValid = omega arith

pub length-value : length (encode value) ≡ 60
unfolding encode encode_int encode_string encode_key be to_word
length-value = refl

msg_size_document :
    opo_ojc_msg_size nodes libc 100 (some document) ≡ done (length {A = ℕ} (replicate 68 7))
unfolding opo_ojc_msg_size
msg_size_document = refl

opo_ojc_fill_msg-size_example :
    opo_ojc_fill_msg nodes libc 100 document (replicate 68 7) ≡ done (replicate 8 0 ++ encode value)
opo_ojc_fill_msg-size_example =
    opo_ojc_fill_msg-size nodes libc 100 document value (replicate 68 7) document-Reads
      value-IsValid (omega (arith, length-value)) msg_size_document
