-- ===== src/Val.antt =====
-- Encoded values: the type tags of src/opo/internal.h, and `opo_val_bsize`, `opo_val_size` and
-- `opo_val_type` of src/opo/val.c. An `opoVal` is a pointer, none for NULL.
pub mod Size
pub mod Access
pub mod Members
pub mod Path
pub mod Iterate
use opo_c.Prelude.{ℕ, ◌+◌, ◌==◌, if◌then◌else◌, Option, none, some, [], ◌∷◌}
use opo_c.Outcome.{Outcome, done, fault, ◌>>=◌}
use opo_c.Bytes.{Bytes, peek, read_uint16, read_uint32}

-- `ValType`
pub data ValType : Type 0 where
  val_null val_true val_false val_int1 val_int2 val_int4 val_int8 : ValType
  val_str1 val_str2 val_str4 val_key1 val_key2 val_dec val_uuid val_time val_obj val_array : ValType

-- the byte of each tag
abbrev pub tag : ValType → ℕ
tag val_null = b'Z'
tag val_true = b't'
tag val_false = b'f'
tag val_int1 = b'i'
tag val_int2 = b'2'
tag val_int4 = b'4'
tag val_int8 = b'8'
tag val_str1 = b's'
tag val_str2 = b'S'
tag val_str4 = b'B'
tag val_key1 = b'k'
tag val_key2 = b'K'
tag val_dec = b'd'
tag val_uuid = b'u'
tag val_time = b'T'
tag val_obj = b'{'
tag val_array = b'['

-- `switch (*val)`: which case a byte selects, none for `default`
unfoldable pub switch : ℕ → Option ValType
switch c =
    if c == tag val_null
    then some val_null
    else if c == tag val_true
    then some val_true
    else if c == tag val_false
    then some val_false
    else if c == tag val_int1
    then some val_int1
    else if c == tag val_int2
    then some val_int2
    else if c == tag val_int4
    then some val_int4
    else if c == tag val_int8
    then some val_int8
    else if c == tag val_str1
    then some val_str1
    else if c == tag val_str2
    then some val_str2
    else if c == tag val_str4
    then some val_str4
    else if c == tag val_key1
    then some val_key1
    else if c == tag val_key2
    then some val_key2
    else if c == tag val_dec
    then some val_dec
    else if c == tag val_uuid
    then some val_uuid
    else if c == tag val_time
    then some val_time
    else if c == tag val_obj
    then some val_obj
    else if c == tag val_array
    then some val_array
    else none

-- The lengths stay far below the 2 ^ 64 of `size_t`.
unfoldable pub bsize_case : Option ValType → Bytes → Outcome ℕ
bsize_case (some val_null) b = done 1
bsize_case (some val_true) b = done 1
bsize_case (some val_false) b = done 1
bsize_case (some val_int1) b = done 2
bsize_case (some val_int2) b = done 3
bsize_case (some val_int4) b = done 5
bsize_case (some val_int8) b = done 9
bsize_case (some val_str1) b = do n ← peek b; done (3 + n)
bsize_case (some val_str2) b = do (n, _) ← read_uint16 b; done (4 + n)
bsize_case (some val_str4) b = do (n, _) ← read_uint32 b; done (6 + n)
bsize_case (some val_key1) b = do n ← peek b; done (3 + n)
bsize_case (some val_key2) b = do (n, _) ← read_uint16 b; done (4 + n)
bsize_case (some val_dec) b = do n ← peek b; done (2 + n)
bsize_case (some val_uuid) b = done 17
bsize_case (some val_time) b = done 9
bsize_case (some val_obj) b = do (n, _) ← read_uint32 b; done (n + 5)
bsize_case (some val_array) b = do (n, _) ← read_uint32 b; done (n + 5)
bsize_case none b = done 0

unfoldable pub opo_val_bsize : Option Bytes → Outcome ℕ
unfolding switch bsize_case
opo_val_bsize none = done 0
opo_val_bsize (some []) = fault
opo_val_bsize (some (c ∷ b)) = bsize_case (switch c) b

unfoldable pub size_case : Option ValType → Bytes → Outcome ℕ
size_case (some val_int1) b = done 1
size_case (some val_int2) b = done 2
size_case (some val_int4) b = done 4
size_case (some val_int8) b = done 8
size_case (some val_str1) b = peek b
size_case (some val_str2) b = do (n, _) ← read_uint16 b; done n
size_case (some val_str4) b = do (n, _) ← read_uint32 b; done n
size_case (some val_key1) b = peek b
size_case (some val_key2) b = do (n, _) ← read_uint16 b; done n
size_case (some val_dec) b = peek b
size_case (some val_uuid) b = done 16
size_case (some val_time) b = done 8
size_case _ b = done 0

unfoldable pub opo_val_size : Option Bytes → Outcome ℕ
unfolding switch size_case
opo_val_size none = done 0
opo_val_size (some []) = fault
opo_val_size (some (c ∷ b)) = size_case (switch c) b

-- `opoValType`
pub data OpoValType : Type 0 where
  type_none type_null type_bool type_int type_str type_dec : OpoValType
  type_uuid type_time type_obj type_array : OpoValType

unfoldable pub type_case : Option ValType → OpoValType
type_case (some val_null) = type_null
type_case (some val_true) = type_bool
type_case (some val_false) = type_bool
type_case (some val_int1) = type_int
type_case (some val_int2) = type_int
type_case (some val_int4) = type_int
type_case (some val_int8) = type_int
type_case (some val_str1) = type_str
type_case (some val_str2) = type_str
type_case (some val_str4) = type_str
type_case (some val_dec) = type_dec
type_case (some val_uuid) = type_uuid
type_case (some val_time) = type_time
type_case (some val_obj) = type_obj
type_case (some val_array) = type_array
type_case _ = type_none

unfoldable pub opo_val_type : Option Bytes → Outcome OpoValType
unfolding switch type_case
opo_val_type none = done type_none
opo_val_type (some []) = fault
opo_val_type (some (c ∷ b)) = done (type_case (switch c))
