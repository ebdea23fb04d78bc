-- ===== src/Ojc/Reads.antt =====
-- What an OjC document stands for in the wire format.
use opo_c.Prelude.{ℕ, ◌≡◌, ◌≢◌, Option, none, some, true, false, length, [], ◌∷◌}
use opo_c.Prelude.Int.{ℤ}
use opo_c.Bytes.{Bytes}
use opo_c.Val.Access.{uuid_text}
use opo_c.Wire.{
  Value, null, boolean, fixnum, string, decimal, uuid, time, array, object, Items, no_items, item,
  Fields, no_fields, field,
}
use opo_c.Builder.Slot.{with_nul}
use opo_c.Ojc.{
  ojc_null, ojc_true, ojc_false, ojc_string, ojc_number, ojc_fixnum, ojc_decimal, ojc_array,
  ojc_object, ojc_word, Ojc, Libc,
}
use opo_c.Ojc.Text.{nanoseconds}
use opo_c.Ojc.Fill.{decimal_text, is_no_time}
use opo_c.Ojc.Time.{Stamp, IsStamp, time_text, broken_down}

-- no NUL inside
abbrev pub NoNul : Bytes → Type 0
NoNul [] = Unit
NoNul (c ∷ s) = (c ≢ 0) × NoNul s

-- A string stands for a UUID or a time where it is the text of one, and for itself where its length
-- is that of neither. Numbers that OjC keeps as text, and words, stand for texts.
module _ {V D : Type 0} (ojc : Ojc V D) (libc : Libc D) where
  mutual
    pub data Reads : V → Value → Type 0 where
      is_null : {v : V} → ojc.ojc_type v ≡ ojc_null → Reads v null
      is_true : {v : V} → ojc.ojc_type v ≡ ojc_true → Reads v (boolean true)
      is_false : {v : V} → ojc.ojc_type v ≡ ojc_false → Reads v (boolean false)
      is_uuid :
          {v : V} {hi lo : ℕ}
          → ojc.ojc_type v ≡ ojc_string
          → ojc.ojc_str v ≡ with_nul (uuid_text hi lo)
          → ojc.ojc_str_len v ≡ 36
          → Reads v (uuid hi lo)
      is_time :
          {v : V} {i : ℤ} (t : Stamp)
          → ojc.ojc_type v ≡ ojc_string
          → ojc.ojc_str v ≡ with_nul (time_text t)
          → ojc.ojc_str_len v ≡ 30
          → IsStamp t
          → i ≡ nanoseconds (libc.timegm (broken_down t)) t.nsec
          → is_no_time i ≡ false
          → Reads v (time i)
      is_text :
          {v : V} {s : Bytes}
          → ojc.ojc_type v ≡ ojc_string
          → ojc.ojc_str v ≡ with_nul s
          → ojc.ojc_str_len v ≡ length s
          → length s ≢ 36
          → length s ≢ 30
          → Reads v (string s)
      is_number :
          {v : V} {s : Bytes}
          → ojc.ojc_type v ≡ ojc_number
          → ojc.ojc_number v ≡ with_nul s
          → ojc.ojc_number_len v ≡ length s
          → Reads v (string s)
      is_word :
          {v : V} {s : Bytes}
          → ojc.ojc_type v ≡ ojc_word
          → ojc.ojc_word v ≡ with_nul s
          → NoNul s
          → Reads v (string s)
      is_fixnum :
          {v : V} {i : ℤ} → ojc.ojc_type v ≡ ojc_fixnum → ojc.ojc_int v ≡ i → Reads v (fixnum i)
      is_decimal :
          {v : V} {s : Bytes}
          → ojc.ojc_type v ≡ ojc_decimal
          → decimal_text ojc libc (ojc.ojc_double v) ≡ s
          → Reads v (decimal s)
      is_array :
          {v : V} {xs : Items}
          → ojc.ojc_type v ≡ ojc_array
          → ReadsItems (ojc.ojc_members v) xs
          → Reads v (array xs)
      is_object :
          {v : V} {fs : Fields}
          → ojc.ojc_type v ≡ ojc_object
          → ReadsFields (ojc.ojc_members v) fs
          → Reads v (object fs)

    pub data ReadsItems : Option V → Items → Type 0 where
      items_end : ReadsItems none no_items
      items_next :
          {m : V} {x : Value} {xs : Items}
          → Reads m x
          → ReadsItems (ojc.ojc_next m) xs
          → ReadsItems (some m) (item x xs)

    pub data ReadsFields : Option V → Fields → Type 0 where
      fields_end : ReadsFields none no_fields
      fields_next :
          {m : V} {k : Bytes} {x : Value} {fs : Fields}
          → ojc.ojc_key m ≡ with_nul k
          → ojc.ojc_key_len m ≡ length k
          → Reads m x
          → ReadsFields (ojc.ojc_next m) fs
          → ReadsFields (some m) (field k x fs)
