-- ===== src/Val/Iterate.antt =====
-- `opo_val_iterate` and its loop `val_iterate` of src/opo/val.c. The callbacks are the caller's:
-- each is a function of the error report and the caller's context that returns both beside its
-- answer, and a field is none for a NULL pointer.
pub mod Visit
pub mod Answers
pub mod Cases
pub mod First
pub mod Weight
pub mod Parts
pub mod Trace
use opo_c.Prelude.{
  ℕ, zero, suc, ◌+◌, ◌-◌, ◌*◌, ◌/◌, ◌%◌, ◌^◌, ◌==◌, ltb, leb, if◌then◌else◌, Option, none, some,
  List, [], ◌∷◌, ◌++◌, Bool, true, false, ◌&&◌, length,
}
use opo_c.Prelude.Int.{ℤ, pos, negsuc, of_word}
use opo_c.Outcome.{Outcome, done, fault, out_of_fuel, ◌>>=◌}
use opo_c.Bytes.{Bytes, peek, skip, read_uint16, read_uint32, read_uint64}
use opo_c.Err.{Err, opo_err_set, opo_err_parse, text}
use opo_c.Val.{
  ValType, switch, val_null, val_true, val_false, val_int1, val_int2, val_int4, val_int8, val_str1,
  val_str2, val_str4, val_key1, val_key2, val_dec, val_uuid, val_time, val_obj, val_array,
}
use opo_c.Val.Access.{next_byte, read_bytes, uuid_text}

-- The caller's context of type `C`, behind the error report.
abbrev pub Run : Type 0 → Type 0
Run C = Err × C

abbrev pub Callback : Type 0 → Type 0
Callback C = Run C → Bool × Run C

-- `struct _opoValCallbacks`, where `D` stands for double
pub record Callbacks (C D : Type 0) : Type 0 where
  pub begin_object : Option (Callback C)
  pub end_object : Option (Callback C)
  pub key : Option (Bytes → ℤ → Callback C)
  pub begin_array : Option (Callback C)
  pub end_array : Option (Callback C)
  pub null : Option (Callback C)
  pub boolean : Option (Bool → Callback C)
  pub fixnum : Option (ℤ → Callback C)
  pub decimal : Option (D → Callback C)
  pub string : Option (Bytes → ℤ → Callback C)
  pub uuid : Option (ℕ → ℕ → Callback C)
  pub uuid_str : Option (Bytes → Callback C)
  pub time : Option (ℤ → Callback C)
  pub time_str : Option (Bytes → Callback C)

-- The C library that the loop calls: `strtod`, and `gmtime_r` followed by the `sprintf` of the
-- broken-down time and the nanoseconds, none where `gmtime_r` answers NULL.
pub record Libc (D : Type 0) : Type 0 where
  pub strtod : Bytes → D
  pub format_time : ℤ → ℕ → Option Bytes

-- What the loop goes on with: its `cont`, the caller's state, and `val`.
abbrev pub Step : Type 0 → Type 0
Step C = Bool × Run C × Bytes

-- `ns / 1000000000`, which truncates, and the absolute value of what it leaves
unfoldable pub seconds : ℤ → ℤ
seconds (pos n) = pos (n / 1000000000)
seconds (negsuc n) = let q = (n + 1) / 1000000000 in if q == 0 then pos 0 else negsuc (q - 1)

unfoldable pub fraction : ℤ → ℕ
fraction (pos n) = n % 1000000000
fraction (negsuc n) = (n + 1) % 1000000000

module _ {C : Type 0} where
  -- `if (NULL != f) cont = f(err, …, ctx)`, where `cont` was true
  abbrev pub call : Option (Callback C) → Callback C
  call none s = (true, s)
  call (some f) s = f s

  -- `if (cont && NULL != f) cont = f(err, ctx)`
  abbrev pub call_if : Bool → Option (Callback C) → Callback C
  call_if true f s = call f s
  call_if false f s = (false, s)

  abbrev pub with_arg {κ} : {A : Type κ} → Option (A → Callback C) → A → Option (Callback C)
  with_arg none a = none
  with_arg (some f) a = some (f a)

  abbrev pub with_args {κ μ} :
      {A : Type κ} {B : Type μ} → Option (A → B → Callback C) → A → B → Option (Callback C)
  with_args none a b = none
  with_args (some f) a b = some (f a b)

  -- a call whose answer is dropped: `cont` stays true
  abbrev pub call_void : Callback C → Callback C
  call_void f s = (true, (f s).1)

  abbrev pub resume : Bytes → Bool × Run C → Outcome (Step C)
  resume val (cont, s) = done (cont, s, val)

-- `end = val + size`, kept as the number of bytes from `end` to the end of the buffer
unfoldable pub end_after : ℕ → Bytes → Outcome ℕ
end_after size val = if leb size (length val) then done (length val - size) else fault

-- One function for each kind of `case`. It takes the callbacks that the case looks at.
module _ {C : Type 0} where
  -- an integer form of `k` bytes, which is only read for a callback
  unfoldable pub fixnum_case :
      Option (ℤ → Callback C) → (Bytes → Outcome (ℤ × Bytes)) → ℕ → Run C → Bytes → Outcome (Step C)
  fixnum_case none read k s val = do val' ← skip k val; done (true, s, val')
  fixnum_case (some f) read k s val = do (i, val') ← read val; resume val' (f i s)

  -- a text or a key of length `n` at the pointer, and the `after` bytes that `val` moves by
  unfoldable pub text_case :
      Option (Bytes → ℤ → Callback C) → ℤ → ℕ → Run C → Bytes → Outcome (Step C)
  text_case f n after s val = do val' ← skip after val; resume val' (call (with_args f val n) s)

  unfoldable pub decimal_case :
      {D : Type 0} → (Bytes → D) → Option (D → Callback C) → ℕ → Run C → Bytes → Outcome (Step C)
  decimal_case strtod none n s val = do val' ← skip n val; done (true, s, val')
  decimal_case strtod (some f) n s val = do
    digits ← read_bytes n val
    val' ← skip n val
    resume val' (f (strtod digits) s)

  unfoldable pub uuid_call :
      Option (ℕ → ℕ → Callback C) → Option (Bytes → Callback C) → ℕ → ℕ → Callback C
  uuid_call (some f) uuid_str hi lo s = call_void (f hi lo) s
  uuid_call none (some f) hi lo s = call_void (f (uuid_text hi lo)) s
  uuid_call none none hi lo s = (true, s)

  unfoldable pub uuid_case :
      Option (ℕ → ℕ → Callback C) → Option (Bytes → Callback C) → Run C → Bytes → Outcome (Step C)
  unfolding uuid_call
  uuid_case none none s val = do val' ← skip 16 val; done (true, s, val')
  uuid_case uuid uuid_str s val = do
    (hi, val₁) ← read_uint64 val
    (lo, val₂) ← read_uint64 val₁
    resume val₂ (uuid_call uuid uuid_str hi lo s)

  unfoldable pub time_call :
      (ℤ → ℕ → Option Bytes)
      → Option (ℤ → Callback C)
      → Option (Bytes → Callback C)
      → ℤ
      → Callback C
  time_call format (some f) time_str ns s = call_void (f ns) s
  time_call format none (some f) ns (err, ctx) = elim (format (seconds ns) (fraction ns)) [
    | some t ↦ call_void (f t) (err, ctx)
    | none ↦ (true, (opo_err_set err opo_err_parse (text "invalid time"), ctx))
  ]
  time_call format none none ns s = (true, s)

  unfoldable pub time_case :
      (ℤ → ℕ → Option Bytes)
      → Option (ℤ → Callback C)
      → Option (Bytes → Callback C)
      → Run C
      → Bytes
      → Outcome (Step C)
  unfolding time_call
  time_case format none none s val = do val' ← skip 8 val; done (true, s, val')
  time_case format time time_str s val = do
    (t, val') ← read_uint64 val
    resume val' (time_call format time time_str (of_word (2 ^ 63) t) s)

  -- A container, after its first callback: `nested` is the loop for the members, which takes the
  -- `end` pointer. If the callback stopped, `val` stays where it is.
  unfoldable pub container_case :
      (ℕ → Bytes → Run C → Outcome (Bool × Run C))
      → Option (Callback C)
      → Bool × Run C
      → Bytes
      → Outcome (Step C)
  container_case nested last (true, s) val = do
    (size, members) ← read_uint32 val
    stop ← end_after size members
    (cont, s') ← nested stop members s
    val' ← skip size members
    resume val' (call_if cont last s')
  container_case nested last (false, s) val = done (false, s, val)

module _ {C D : Type 0} (libc : Libc D) (callbacks : Callbacks C D) where
  open callbacks use {
    begin_object, end_object, key, begin_array, end_array, null, boolean, fixnum, decimal, string,
    uuid, uuid_str, time, time_str,
  }

  -- The `switch` on the tag before `val`. `len + 1` wraps for the uint32_t of a `VAL_STR4`.
  unfoldable pub iterate_case :
      (ℕ → Bytes → Run C → Outcome (Bool × Run C))
      → Option ValType
      → Run C
      → Bytes
      → Outcome (Step C)
  iterate_case nested (some val_null) s val = resume val (call null s)
  iterate_case nested (some val_true) s val = resume val (call (with_arg boolean true) s)
  iterate_case nested (some val_false) s val = resume val (call (with_arg boolean false) s)
  iterate_case nested (some val_int1) s val =
      fixnum_case fixnum (λ b. do (x, b') ← next_byte b; done (of_word (2 ^ 7) x, b')) 1 s val
  iterate_case nested (some val_int2) s val =
      fixnum_case fixnum (λ b. do (x, b') ← read_uint16 b; done (of_word (2 ^ 15) x, b')) 2 s val
  iterate_case nested (some val_int4) s val =
      fixnum_case fixnum (λ b. do (x, b') ← read_uint32 b; done (of_word (2 ^ 31) x, b')) 4 s val
  iterate_case nested (some val_int8) s val =
      fixnum_case fixnum (λ b. do (x, b') ← read_uint64 b; done (of_word (2 ^ 63) x, b')) 8 s val
  iterate_case nested (some val_str1) s val = do
    (n, b) ← next_byte val
    text_case string (pos n) (n + 1) s b
  iterate_case nested (some val_str2) s val = do
    (n, b) ← read_uint16 val
    text_case string (pos n) (n + 1) s b
  iterate_case nested (some val_str4) s val = do
    (n, b) ← read_uint32 val
    text_case string (of_word (2 ^ 31) n) ((n + 1) % 2 ^ 32) s b
  iterate_case nested (some val_key1) s val = do
    (n, b) ← next_byte val
    text_case key (pos n) (n + 1) s b
  iterate_case nested (some val_key2) s val = do
    (n, b) ← read_uint16 val
    text_case key (pos n) (n + 1) s b
  iterate_case nested (some val_dec) s val = do
    (n, b) ← next_byte val
    decimal_case libc.strtod decimal n s b
  iterate_case nested (some val_uuid) s val = uuid_case uuid uuid_str s val
  iterate_case nested (some val_time) s val = time_case libc.format_time time time_str s val
  iterate_case nested (some val_obj) s val =
      container_case nested end_object (call begin_object s) val
  iterate_case nested (some val_array) s val =
      container_case nested end_array (call begin_array s) val
  iterate_case nested none (err, ctx) val =
      done (true, (opo_err_set err opo_err_parse (text "corrupt message format"), ctx), val)

  -- `val_iterate`: `stop` is the number of bytes from `end` to the end of the buffer, so that
  -- `val < end` reads `stop < length val`. The fuel pays for each round, the nested ones too.
  unfoldable pub val_iterate : ℕ → ℕ → Bytes → Run C → Outcome (Bool × Run C)
  val_iterate zero stop val s = out_of_fuel
  val_iterate (suc f) stop val s =
      let round = do
        (c, b) ← next_byte val
        (cont, s', val') ← iterate_case (val_iterate f) (switch c) s b
        let rest = val_iterate f stop val' s'
        if cont && (s'.0.code == 0) then rest else done (cont, s')
      in if ltb stop (length val) then round else done (true, s)

  -- The code that is returned is the one in the report.
  unfoldable pub opo_val_iterate : ℕ → Bytes → Run C → Outcome (ℕ × Run C)
  opo_val_iterate fuel val s = do
    stop ← end_after 1 val
    (_, s') ← val_iterate fuel stop val s
    done (s'.0.code, s')
