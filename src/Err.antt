-- ===== src/Err.antt =====
-- Error reports: src/opo/err.h and src/opo/err.c. A formatted text reaches the model as the bytes
-- that `vsnprintf` would make of the format and its arguments; `msg` holds what a C string of the
-- 256 bytes of the field holds, without the final NUL.
use Prim.Native.Char.{code}
use Prim.Native.String.{String}
use opo_c.Prelude.{
  ℕ, ◌+◌, ltb, leb, ◌==◌, if◌then◌else◌, Option, none, some, [], ◌∷◌, ◌++◌, length, take,
}
use opo_c.Outcome.{Outcome, done, fault}
use opo_c.Bytes.{Bytes}

-- `opoErrCode`: ENOMEM, EACCES and ENOSYS are those of Linux, and ELAST is the default of err.h.
abbrev pub opo_err_ok : ℕ
opo_err_ok = 0

abbrev pub opo_err_memory : ℕ
opo_err_memory = 12

abbrev pub elast : ℕ
elast = 160

abbrev pub opo_err_parse : ℕ
opo_err_parse = 161

abbrev pub opo_err_read : ℕ
opo_err_read = 162

abbrev pub opo_err_write : ℕ
opo_err_write = 163

abbrev pub opo_err_overflow : ℕ
opo_err_overflow = 164

abbrev pub opo_err_arg : ℕ
opo_err_arg = 165

abbrev pub opo_err_not_found : ℕ
opo_err_not_found = 166

abbrev pub opo_err_thread : ℕ
opo_err_thread = 167

abbrev pub opo_err_network : ℕ
opo_err_network = 168

abbrev pub opo_err_lock : ℕ
opo_err_lock = 169

abbrev pub opo_err_free : ℕ
opo_err_free = 170

abbrev pub opo_err_in_use : ℕ
opo_err_in_use = 171

abbrev pub opo_err_too_many : ℕ
opo_err_too_many = 172

abbrev pub opo_err_type : ℕ
opo_err_type = 173

abbrev pub opo_err_lost : ℕ
opo_err_lost = 174

-- `struct _opoErr`
pub record Err : Type 0 where
  pub code : ℕ
  pub msg : Bytes

-- `OPO_ERR_INIT`
abbrev pub opo_err_init : Err
opo_err_init = record { code = 0; msg = [] }

-- The bytes of an ASCII text.
abbrev pub text : String → Bytes
text String.[] = []
text (String.◌∷◌ c s) = code c ∷ text s

-- `opo_err_set` writes its argument `err` and returns the code that it set.
unfoldable pub opo_err_set : Err → ℕ → Bytes → Err
opo_err_set err c formatted = record { code = c; msg = take 255 formatted }

unfoldable pub opo_err_clear : Err → Err
opo_err_clear err = record { code = opo_err_ok; msg = [] }

-- `opo_err_no`, with the value of `errno` and the texts of `strerror`. `vsnprintf` returns the
-- length of the whole text, cut or not. `msg[cnt] = ' '` is outside the field from 256 on;
-- `strncpy` fills what is left of the 256 bytes, and the last of them becomes NUL.
unfoldable pub opo_err_no : (ℕ → Bytes) → ℕ → Err → Option Bytes → Outcome Err
opo_err_no strerror errno err none =
    done (record { code = errno; msg = take 255 (32 ∷ strerror errno) })
opo_err_no strerror errno err (some formatted) =
    if ltb (length formatted) (256 + 2)
    then if leb 256 (length formatted)
      then fault
      else done (record { code = errno; msg = take 255 (formatted ++ (32 ∷ strerror errno)) })
    else done (record { code = errno; msg = take 255 formatted })

-- The texts of `opo_err_str` for the codes above ELAST, its `switch`.
unfoldable pub opo_err_name : ℕ → Bytes
opo_err_name c =
    if c == opo_err_parse
    then text "parse error"
    else if c == opo_err_read
    then text "read failed"
    else if c == opo_err_write
    then text "write failed"
    else if c == opo_err_arg
    then text "invalid argument"
    else if c == opo_err_not_found
    then text "not found"
    else if c == opo_err_thread
    then text "thread error"
    else if c == opo_err_network
    then text "network error"
    else if c == opo_err_lock
    then text "lock error"
    else if c == opo_err_free
    then text "already freed"
    else if c == opo_err_in_use
    then text "in use"
    else if c == opo_err_too_many
    then text "too many"
    else if c == opo_err_type
    then text "type error"
    else text "unknown error"

-- `strerror` may answer NULL: `none`.
unfoldable pub opo_err_str : (ℕ → Option Bytes) → ℕ → Bytes
unfolding opo_err_name
opo_err_str strerror c =
    if leb c elast then elim (strerror c) [ some s ↦ s | none ↦ opo_err_name c ] else opo_err_name c
