-- ===== src/Val/Access.antt =====
-- The accessors of src/opo/val.c: `opo_val_bool`, `opo_val_int`, `opo_val_double`,
-- `opo_val_string`, `opo_val_key`, `opo_val_uuid_str`, `opo_val_uuid`, `opo_val_time` and
-- `opo_val_members`. Each takes the error report and returns it, changed or not, after its result.
-- A result that goes through a pointer is returned beside it.
pub mod Read
pub mod Reject
use opo_c.Prelude.{
  ℕ, zero, suc, ◌+◌, ◌-◌, ◌*◌, ◌/◌, ◌%◌, ◌^◌, ◌==◌, if◌then◌else◌, ltb, Option, none, some, List,
  [], ◌∷◌, ◌++◌, Bool, true, false,
}
use opo_c.Prelude.Int.{ℤ, pos, of_word}
use opo_c.Outcome.{Outcome, done, fault, ◌>>=◌}
use opo_c.Bytes.{Bytes, peek, skip, read_uint16, read_uint32, read_uint64}
use opo_c.Err.{Err, opo_err_set, opo_err_type, text}
use opo_c.Val.{
  ValType, switch, val_true, val_false, val_int1, val_int2, val_int4, val_int8, val_str1, val_str2,
  val_str4, val_key1, val_dec, val_uuid, val_time, val_obj, val_array,
}

-- A type error with one of the texts of val.c.
abbrev pub type_error : Err → Bytes → Err
type_error err what = opo_err_set err opo_err_type what

-- `*val++` at the start of each `switch`
abbrev pub next_byte : Bytes → Outcome (ℕ × Bytes)
next_byte [] = fault
next_byte (c ∷ b) = done (c, b)

unfoldable pub bool_case : Err → Option ValType → Bool × Err
bool_case err (some val_true) = (true, err)
bool_case err (some val_false) = (false, err)
bool_case err _ = (false, type_error err (text "not a boolean value"))

unfoldable pub opo_val_bool : Err → Option Bytes → Outcome (Bool × Err)
unfolding bool_case
opo_val_bool err none = done (false, type_error err (text "NULL is not an boolean value"))
opo_val_bool err (some val) = do (c, b) ← next_byte val; done (bool_case err (switch c))

unfoldable pub int_case : Err → Option ValType → Bytes → Outcome (ℤ × Err)
int_case err (some val_int1) b = do x ← peek b; done (of_word (2 ^ 7) x, err)
int_case err (some val_int2) b = do (x, _) ← read_uint16 b; done (of_word (2 ^ 15) x, err)
int_case err (some val_int4) b = do (x, _) ← read_uint32 b; done (of_word (2 ^ 31) x, err)
int_case err (some val_int8) b = do (x, _) ← read_uint64 b; done (of_word (2 ^ 63) x, err)
int_case err _ b = done (pos 0, type_error err (text "not an integer value"))

unfoldable pub opo_val_int : Err → Option Bytes → Outcome (ℤ × Err)
unfolding int_case
opo_val_int err none = done (pos 0, type_error err (text "NULL is not an integer value"))
opo_val_int err (some val) = do (c, b) ← next_byte val; int_case err (switch c) b

-- `memcpy(buf, val, n)`: the `n` bytes at the pointer
unfoldable pub read_bytes : ℕ → Bytes → Outcome Bytes
read_bytes zero b = done []
read_bytes (suc n) [] = fault
read_bytes (suc n) (x ∷ b) = do s ← read_bytes n b; done (x ∷ s)

-- Floating point numbers and `strtod` are not part of the program: `D` stands for double, and the
-- text is what `buf` holds before its NUL. The length is a byte, so it fits the 256 bytes of `buf`.
module _ {D : Type 0} (strtod : Bytes → D) (zero_double : D) where
  unfoldable pub double_case : Err → Option ValType → Bytes → Outcome (D × Err)
  double_case err (some val_dec) b = do
    (n, s) ← next_byte b
    digits ← read_bytes n s
    done (strtod digits, err)
  double_case err _ b = done (zero_double, type_error err (text "not a double value"))

  unfoldable pub opo_val_double : Err → Option Bytes → Outcome (D × Err)
  unfolding double_case
  opo_val_double err none = done (zero_double, type_error err (text "NULL is not an double value"))
  opo_val_double err (some val) = do (c, b) ← next_byte val; double_case err (switch c) b

-- `*lenp = n`, if the caller passed a pointer
abbrev pub put_len : Option ℤ → ℤ → Option ℤ
put_len none n = none
put_len (some old) n = some n

-- The pointer that is returned, `*lenp` if there is one, and the report.
abbrev pub Text : Type 0
Text = Option Bytes × Option ℤ × Err

unfoldable pub string_case : Err → Option ℤ → Option ValType → Bytes → Outcome Text
string_case err lenp (some val_str1) b = do
  (n, s) ← next_byte b
  done (some s, put_len lenp (pos n), err)
string_case err lenp (some val_str2) b = do
  (n, s) ← read_uint16 b
  done (some s, put_len lenp (pos n), err)
string_case err lenp (some val_str4) b = do
  (n, s) ← read_uint32 b
  done (some s, put_len lenp (of_word (2 ^ 31) n), err)
string_case err lenp _ b = done (none, lenp, type_error err (text "not a string value"))

unfoldable pub opo_val_string : Err → Option Bytes → Option ℤ → Outcome Text
unfolding string_case
opo_val_string err none lenp =
    done (none, lenp, type_error err (text "NULL is not an string value"))
opo_val_string err (some val) lenp = do (c, b) ← next_byte val; string_case err lenp (switch c) b

-- The second case is `VAL_STR2` in the source, not `VAL_KEY2`, and `default` reports nothing.
unfoldable pub key_case : Err → Option ℤ → Option ValType → Bytes → Outcome Text
key_case err lenp (some val_key1) b = do
  (n, s) ← next_byte b
  done (some s, put_len lenp (pos n), err)
key_case err lenp (some val_str2) b = do
  (n, s) ← read_uint16 b
  done (some s, put_len lenp (pos n), err)
key_case err lenp _ b = done (none, lenp, err)

unfoldable pub opo_val_key : Err → Option Bytes → Option ℤ → Outcome Text
unfolding key_case
opo_val_key err none lenp = done (none, lenp, type_error err (text "NULL is not an string value"))
opo_val_key err (some key) lenp = do (c, b) ← next_byte key; key_case err lenp (switch c) b

-- `%x` of a digit, and `%0<k>lx` of a number of at most `k` hexadecimal digits
abbrev pub hex_digit : ℕ → ℕ
hex_digit d = if ltb d 10 then b'0' + d else b'a' + d - 10

unfoldable pub hex : ℕ → ℕ → Bytes
hex zero n = []
hex (suc k) n = hex_digit (n / 16 ^ k % 16) ∷ hex k n

-- The five groups of "%08lx-%04lx-%04lx-%04lx-%012lx", without the NUL.
unfoldable pub uuid_text : ℕ → ℕ → Bytes
unfolding hex
uuid_text hi lo =
    hex 8 (hi / 2 ^ 32)
    ++ (b'-'
        ∷ (hex 4 (hi / 2 ^ 16 % 2 ^ 16)
            ++ (b'-'
                ∷ (hex 4 (hi % 2 ^ 16)
                    ++ (b'-' ∷ (hex 4 (lo / 2 ^ 48) ++ (b'-' ∷ hex 12 (lo % 2 ^ 48))))))))

unfoldable pub uuid_case : Err → ℕ × ℕ → Option ValType → Bytes → Outcome ((ℕ × ℕ) × Err)
uuid_case err old (some val_uuid) b = do
  (hi, b') ← read_uint64 b
  (lo, _) ← read_uint64 b'
  done ((hi, lo), err)
uuid_case err old _ b = done (old, type_error err (text "not a UUID value"))

-- `old` is what `*hip` and `*lop` hold before the call.
unfoldable pub opo_val_uuid : Err → Option Bytes → ℕ × ℕ → Outcome ((ℕ × ℕ) × Err)
unfolding uuid_case
opo_val_uuid err none old = done (old, type_error err (text "NULL is not a UUID value"))
opo_val_uuid err (some val) old = do (c, b) ← next_byte val; uuid_case err old (switch c) b

unfoldable pub uuid_str_case : Err → Bytes → Option ValType → Bytes → Outcome (Bytes × Err)
uuid_str_case err old (some val_uuid) b = do
  (hi, b') ← read_uint64 b
  (lo, _) ← read_uint64 b'
  done (uuid_text hi lo, err)
uuid_str_case err old _ b = done (old, type_error err (text "not a UUID value"))

-- `old` is the text that `str` holds before the call.
unfoldable pub opo_val_uuid_str : Err → Option Bytes → Bytes → Outcome (Bytes × Err)
unfolding uuid_str_case
opo_val_uuid_str err none old = done (old, type_error err (text "NULL is not a UUID value"))
opo_val_uuid_str err (some val) old = do (c, b) ← next_byte val; uuid_str_case err old (switch c) b

unfoldable pub time_case : Err → Option ValType → Bytes → Outcome (ℤ × Err)
time_case err (some val_time) b = do (t, _) ← read_uint64 b; done (of_word (2 ^ 63) t, err)
time_case err _ b = done (of_word (2 ^ 63) 0, type_error err (text "not a time value"))

unfoldable pub opo_val_time : Err → Option Bytes → Outcome (ℤ × Err)
unfolding time_case
opo_val_time err none = done (of_word (2 ^ 63) 0, type_error err (text "NULL is not a time value"))
opo_val_time err (some val) = do (c, b) ← next_byte val; time_case err (switch c) b
