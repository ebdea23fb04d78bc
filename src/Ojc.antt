-- ===== src/Ojc.antt =====
-- OjC documents to messages, and messages to OjC documents: src/opo/opo.c. OjC is a library of
-- its own, so a document is read here by what the library's accessors answer, and `timegm` and
-- `snprintf` are arguments.
pub mod Text
pub mod Fill
pub mod Detect
pub mod Time
pub mod Reads
pub mod Encode
pub mod Leaf
pub mod Message
pub mod Parse
pub mod Calls
pub mod Spots
pub mod Rounds
pub mod Stack
pub mod Turned
pub mod Leaves
pub mod Turn
pub mod Built
use opo_c.Prelude.{ℕ, Option, none, some, Bool}
use opo_c.Prelude.Int.{ℤ}
use opo_c.Bytes.{Bytes}

-- The types that `ojc_type` answers; `other` is any that the source does not name.
pub data OjcType : Type 0 where
  ojc_null ojc_true ojc_false ojc_string ojc_number ojc_fixnum ojc_decimal ojc_array ojc_object :
      OjcType
  ojc_word other : OjcType

-- The accessors that opo.c calls, on values of type `V` with doubles of type `D`. A text is the
-- memory from its pointer on.
pub record Ojc (V D : Type 0) : Type 0 where
  pub ojc_type : V → OjcType
  pub ojc_str : V → Bytes
  pub ojc_str_len : V → ℕ
  pub ojc_number : V → Bytes
  pub ojc_number_len : V → ℕ
  pub ojc_int : V → ℤ
  pub ojc_double : V → D
  pub ojc_word : V → Bytes
  pub ojc_members : V → Option V
  pub ojc_next : V → Option V
  pub ojc_key : V → Bytes
  pub ojc_key_len : V → ℕ

-- The fields of `struct tm` that `time_parse` sets.
pub record Tm : Type 0 where
  pub tm_year : ℤ
  pub tm_mon : ℤ
  pub tm_mday : ℕ
  pub tm_hour : ℕ
  pub tm_min : ℕ
  pub tm_sec : ℕ

-- What opo.c uses of the C library: `timegm`, and the text of a double by "%.1f" where it is a whole
-- number and by "%0.15g" where it is not.
pub record Libc (D : Type 0) : Type 0 where
  pub timegm : Tm → ℤ
  pub is_whole : D → Bool
  pub format_whole : D → Bytes
  pub format_short : D → Bytes
