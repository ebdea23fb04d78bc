-- ===== src/Ojc/Parse.antt =====
-- Messages to OjC documents: `push_parse_value`, `opo_val_to_ojc` and `opo_msg_to_ojc` of
-- src/opo/opo.c. OjC is a library of its own, so a run ends with the calls that it makes of OjC, in
-- their order. A value of OjC is the number of its creation, from 0, and the type that it was created
-- with.
use opo_c.Prelude.{
  ℕ, zero, suc, ◌+◌, ◌/◌, ◌%◌, ◌^◌, ◌==◌, ltb, leb, if◌then◌else◌, Option, none, some, List, [],
  ◌∷◌, ◌++◌, Bool, true, false, length, take,
}
use opo_c.Prelude.Int.{ℤ, of_word}
use opo_c.Outcome.{Outcome, done, fault, out_of_fuel, ◌>>=◌}
use opo_c.Bytes.{Bytes, skip, read_uint16, read_uint32, read_uint64}
use opo_c.Err.{Err, opo_err_set, opo_err_ok, opo_err_parse, text}
use opo_c.Val.{
  ValType, switch, val_null, val_true, val_false, val_int1, val_int2, val_int4, val_int8, val_str1,
  val_str2, val_str4, val_key1, val_key2, val_dec, val_uuid, val_time, val_obj, val_array,
  opo_val_bsize,
}
use opo_c.Val.Access.{next_byte, read_bytes, uuid_text}
use opo_c.Val.Iterate.{end_after}
use opo_c.Builder.{opo_msg_max_depth}
use opo_c.Msg.{opo_msg_val}
use opo_c.Ojc.{
  OjcType, ojc_null, ojc_true, ojc_false, ojc_string, ojc_fixnum, ojc_decimal, ojc_array,
  ojc_object,
}
use opo_c.Ojc.Text.{uuid_str_len, time_str_len}

-- what `ojc_create_null` and its kin create, where `D` stands for double
pub data Made (D : Type 0) : Type 0 where
  null : Made D
  boolean : Bool → Made D
  int : ℤ → Made D
  str : Bytes → Made D
  double : D → Made D
  object array : Made D

abbrev pub type_of : {D : Type 0} → Made D → OjcType
type_of null = ojc_null
type_of (boolean true) = ojc_true
type_of (boolean false) = ojc_false
type_of (int i) = ojc_fixnum
type_of (str s) = ojc_string
type_of (double d) = ojc_decimal
type_of object = ojc_object
type_of array = ojc_array

-- A call of OjC: a creation, `ojc_array_append(NULL, parent, val)`, or
-- `ojc_object_nappend(NULL, parent, key, klen, val)` with the text that is the key.
pub data Call (D : Type 0) : Type 0 where
  create : Made D → Call D
  append : ℕ → ℕ → Call D
  nappend : ℕ → Bytes → ℕ → Call D

pub record OjcVal : Type 0 where
  pub id : ℕ
  pub type : OjcType

-- `struct _StackNode`; `stop` stands for `end`, as the number of bytes from it to the end of the
-- buffer.
pub record StackNode : Type 0 where
  pub val : OjcVal
  pub stop : ℕ

-- `struct _ParseCtx`, the stack with `cur` first; and the calls of OjC so far, with the number of
-- values that they created.
pub record ParseCtx (D : Type 0) : Type 0 where
  pub top : Option OjcVal
  pub stack : List StackNode
  pub key : Option Bytes
  pub klen : ℕ
  pub made : ℕ
  pub calls : List (Call D)

-- What the loop calls of the C library and of OjC: `strtod`, `gmtime_r` with the `sprintf` of the
-- broken-down time and the nanoseconds, none where `gmtime_r` answers NULL, and the code
-- `OJC_PARSE_ERR`.
pub record Libs (D : Type 0) : Type 0 where
  pub strtod : Bytes → D
  pub format_time : ℕ → ℕ → Option Bytes
  pub ojc_parse_err : ℕ

abbrev pub is_object : OjcType → Bool
is_object ojc_object = true
is_object _ = false

-- What the loop goes on with: the report, the context and `val`.
abbrev pub Step : Type 0 → Type 0
Step D = Err × ParseCtx D × Bytes

module _ {D : Type 0} where
  abbrev pub blank : ParseCtx D
  blank = record { top = none; stack = []; key = none; klen = 0; made = 0; calls = [] }

  abbrev pub log : Call D → ParseCtx D → ParseCtx D
  log call ctx = record ctx { calls = ctx.calls ++ (call ∷ []) }

  -- the value that is created, and the creation
  abbrev pub created : Made D → ParseCtx D → OjcVal
  created m ctx = record { id = ctx.made; type = type_of m }

  abbrev pub make : Made D → ParseCtx D → ParseCtx D
  make m ctx = record ctx { made = ctx.made + 1; calls = ctx.calls ++ (create m ∷ []) }

  -- `ojc_object_nappend` reads `klen` bytes at the key.
  unfoldable pub push_member :
      Err → OjcVal → Option Bytes → ParseCtx D → OjcVal → Outcome (ℕ × Err × ParseCtx D)
  push_member err parent none ctx val =
      done (opo_err_parse, opo_err_set err opo_err_parse (text "missing key"), ctx)
  push_member err parent (some key) ctx val = do
    k ← read_bytes ctx.klen key
    done (opo_err_ok, err, record (log (nappend parent.id k val.id) ctx) { key = none; klen = 0 })

  unfoldable pub push_case :
      Err → List StackNode → ParseCtx D → OjcVal → Outcome (ℕ × Err × ParseCtx D)
  unfolding push_member
  push_case err [] ctx val = done (opo_err_ok, err, record ctx { top = some val })
  push_case err (cur ∷ stack) ctx val =
      if is_object cur.val.type
      then push_member err cur.val ctx.key ctx val
      else done (opo_err_ok, err, log (append cur.val.id val.id) ctx)

  -- The results are the code, the report and the context.
  unfoldable pub push_parse_value : Err → ParseCtx D → OjcVal → Outcome (ℕ × Err × ParseCtx D)
  unfolding push_case
  push_parse_value err ctx val = push_case err ctx.stack ctx val

  -- `push_parse_value(err, &ctx, ojc_create_…(…))`, whose code is dropped; `val` is where it points
  -- after the case.
  unfoldable pub push_made : Made D → Err → ParseCtx D → Bytes → Outcome (Step D)
  unfolding push_parse_value
  push_made m err ctx val = do
    (_, err', ctx') ← push_parse_value err (make m ctx) (created m ctx)
    done (err', ctx', val)

  -- a text of `n` bytes and the NUL behind it
  unfoldable pub str_case : ℕ → ℕ → Err → ParseCtx D → Bytes → Outcome (Step D)
  unfolding push_made
  str_case n after err ctx val = do
    s ← read_bytes n val
    val' ← skip after val
    push_made (str s) err ctx val'

  unfoldable pub key_case : ℕ → Err → ParseCtx D → Bytes → Outcome (Step D)
  key_case n err ctx val = do
    val' ← skip (n + 1) val
    done (err, record ctx { key = some val; klen = n }, val')

  unfoldable pub dec_case : (Bytes → D) → ℕ → Err → ParseCtx D → Bytes → Outcome (Step D)
  unfolding push_made
  dec_case strtod n err ctx val = do
    s ← read_bytes n val
    val' ← skip n val
    push_made (double (strtod s)) err ctx val'

  -- `nsec` is unsigned, so that the division and what it leaves are too. `ojc_create_str` is given 30
  -- bytes of the text.
  unfoldable pub time_case : Libs D → ℕ → Err → ParseCtx D → Bytes → Outcome (Step D)
  unfolding push_made
  time_case libs nsec err ctx val =
      elim (libs.format_time (nsec / 1000000000) (nsec % 1000000000)) [
        | none ↦ done (opo_err_set err libs.ojc_parse_err (text "invalid time"), ctx, val)
        | some s ↦ push_made (str (take time_str_len s)) err ctx val
      ]

  -- `m` is an object or an array. It becomes `cur` if `push_parse_value` took it.
  unfoldable pub container_case : Libs D → Made D → Err → ParseCtx D → Bytes → Outcome (Step D)
  unfolding push_parse_value
  container_case libs m err ctx val =
      let push = do
        (size, members) ← read_uint32 val
        (code, err', ctx') ← push_parse_value err (make m ctx) (created m ctx)
        let enter = do
          stop ← end_after size members
          done (
            err',
            record ctx' { stack = record { val = created m ctx; stop = stop } ∷ ctx'.stack },
            members,
          )
        if code == opo_err_ok then enter else done (err', ctx', members)
      in if leb opo_msg_max_depth (length ctx.stack)
        then done (opo_err_set err libs.ojc_parse_err (text "too deeply nested"), ctx, val)
        else push

-- `if (ctx.stack <= ctx.cur && ctx.cur->end <= val) ctx.cur--`, where `left` bytes are behind `val`
abbrev pub pop_ended : ℕ → List StackNode → List StackNode
pop_ended left [] = []
pop_ended left (cur ∷ stack) = if leb left cur.stop then stack else cur ∷ stack

module _ {D : Type 0} (libs : Libs D) where
  -- The `switch` on the tag before `val`. A `VAL_STR4` of 2 ^ 31 bytes and more would be handed to
  -- OjC with a negative length, which is left open: it is a fault here.
  unfoldable pub parse_case : Option ValType → Err → ParseCtx D → Bytes → Outcome (Step D)
  unfolding push_made str_case key_case dec_case time_case container_case
  parse_case (some val_null) err ctx val = push_made null err ctx val
  parse_case (some val_true) err ctx val = push_made (boolean true) err ctx val
  parse_case (some val_false) err ctx val = push_made (boolean false) err ctx val
  parse_case (some val_int1) err ctx val = do
    (x, b) ← next_byte val
    push_made (int (of_word (2 ^ 7) x)) err ctx b
  parse_case (some val_int2) err ctx val = do
    (x, b) ← read_uint16 val
    push_made (int (of_word (2 ^ 15) x)) err ctx b
  parse_case (some val_int4) err ctx val = do
    (x, b) ← read_uint32 val
    push_made (int (of_word (2 ^ 31) x)) err ctx b
  parse_case (some val_int8) err ctx val = do
    (x, b) ← read_uint64 val
    push_made (int (of_word (2 ^ 63) x)) err ctx b
  parse_case (some val_str1) err ctx val = do (n, b) ← next_byte val; str_case n (n + 1) err ctx b
  parse_case (some val_str2) err ctx val = do (n, b) ← read_uint16 val; str_case n (n + 1) err ctx b
  parse_case (some val_str4) err ctx val = do
    (n, b) ← read_uint32 val
    if ltb n (2 ^ 31) then str_case n (n + 1) err ctx b else fault
  parse_case (some val_key1) err ctx val = do (n, b) ← next_byte val; key_case n err ctx b
  parse_case (some val_key2) err ctx val = do (n, b) ← read_uint16 val; key_case n err ctx b
  parse_case (some val_dec) err ctx val = do
    (n, b) ← next_byte val
    dec_case libs.strtod n err ctx b
  parse_case (some val_uuid) err ctx val = do
    (hi, b₁) ← read_uint64 val
    (lo, b₂) ← read_uint64 b₁
    push_made (str (take uuid_str_len (uuid_text hi lo))) err ctx b₂
  parse_case (some val_time) err ctx val = do
    (nsec, b) ← read_uint64 val
    time_case libs nsec err ctx b
  parse_case (some val_obj) err ctx val = container_case libs object err ctx val
  parse_case (some val_array) err ctx val = container_case libs array err ctx val
  parse_case none err ctx val =
      done (opo_err_set err libs.ojc_parse_err (text "corrupt message format"), ctx, val)

  -- `while (val < end)`, with the fuel for its rounds
  unfoldable pub parse_loop : ℕ → ℕ → Err → ParseCtx D → Bytes → Outcome (Err × ParseCtx D)
  unfolding parse_case
  parse_loop zero stop err ctx val = out_of_fuel
  parse_loop (suc f) stop err ctx val =
      let round = do
        (c, b) ← next_byte val
        (err', ctx', val') ←
            parse_case (switch c) err (record ctx { stack = pop_ended (length val) ctx.stack }) b
        let rest = parse_loop f stop err' ctx' val'
        if err'.code == 0 then rest else done (err', ctx')
      in if ltb stop (length val) then round else done (err, ctx)

  -- The value, NULL for none, the report, and the calls of OjC.
  unfoldable pub opo_val_to_ojc : ℕ → Err → Bytes → Outcome (Option OjcVal × Err × List (Call D))
  unfolding parse_loop
  opo_val_to_ojc fuel err val = do
    size ← opo_val_bsize (some val)
    stop ← end_after size val
    (err', ctx) ← parse_loop fuel stop err blank val
    done (ctx.top, err', ctx.calls)

  unfoldable pub opo_msg_to_ojc : ℕ → Err → Bytes → Outcome (Option OjcVal × Err × List (Call D))
  unfolding opo_val_to_ojc
  opo_msg_to_ojc fuel err msg = do val ← opo_msg_val msg; opo_val_to_ojc fuel err val
