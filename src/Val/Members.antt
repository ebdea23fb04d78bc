-- ===== src/Val/Members.antt =====
-- Walking the members of a container: `opo_val_members`, `opo_val_next` and
-- `opo_val_member_count` of src/opo/val.c.
pub mod Count
pub mod Walk
use opo_c.Prelude.{ℕ, zero, suc, ◌+◌, ◌-◌, ◌^◌, ◌==◌, if◌then◌else◌, Option, none, some, [], ◌∷◌}
use opo_c.Outcome.{Outcome, done, fault, out_of_fuel, ◌>>=◌}
use opo_c.Bytes.{Bytes, skip, read_uint32}
use opo_c.Err.{Err, text}
use opo_c.Val.{ValType, switch, val_obj, val_array, opo_val_bsize}
use opo_c.Val.Access.{type_error, next_byte}

-- `members = val + 5`
unfoldable pub members_case : Err → Option ValType → Bytes → Outcome (Option Bytes × Err)
members_case err (some val_obj) val = do b ← skip 5 val; done (some b, err)
members_case err (some val_array) val = do b ← skip 5 val; done (some b, err)
members_case err _ val = done (none, type_error err (text "not an object or array value"))

unfoldable pub opo_val_members : Err → Option Bytes → Outcome (Option Bytes × Err)
unfolding members_case
opo_val_members err none = done (none, type_error err (text "NULL is not a object or array value"))
opo_val_members err (some val) = do (c, _) ← next_byte val; members_case err (switch c) val

-- `val + opo_val_bsize(val)`, where the size of NULL is 0
unfoldable pub opo_val_next : Option Bytes → Outcome (Option Bytes)
opo_val_next none = done none
opo_val_next (some val) = do n ← opo_val_bsize (some val); b ← skip n val; done (some b)

-- `val += opo_val_bsize(val)` with `left` bytes to `end`, 0 when the pointer is at `end` or past it
unfoldable pub step_over : ℕ → Bytes → Outcome (ℕ × Bytes)
step_over left val = do n ← opo_val_bsize (some val); b ← skip n val; done (left - n, b)

-- `cnt++` of an int that is not negative
unfoldable pub incr_int : ℕ → Outcome ℕ
incr_int cnt = if cnt == 2 ^ 31 - 1 then fault else done (cnt + 1)

-- `while (val < end)`; a round of an object steps over a key and a value.
unfoldable pub count_fields : ℕ → ℕ → Bytes → ℕ → Outcome ℕ
count_fields zero left val cnt = out_of_fuel
count_fields (suc f) left val cnt =
    let round = do
      cnt' ← incr_int cnt
      (left₁, val₁) ← step_over left val
      (left₂, val₂) ← step_over left₁ val₁
      count_fields f left₂ val₂ cnt'
    in if left == 0 then done cnt else round

unfoldable pub count_items : ℕ → ℕ → Bytes → ℕ → Outcome ℕ
count_items zero left val cnt = out_of_fuel
count_items (suc f) left val cnt =
    let round = do
      cnt' ← incr_int cnt
      (left', val') ← step_over left val
      count_items f left' val' cnt'
    in if left == 0 then done cnt else round

unfoldable pub member_count_case : ℕ → Err → Option ValType → Bytes → Outcome (ℕ × Err)
unfolding count_fields count_items
member_count_case fuel err (some val_obj) b = do
  (size, val) ← read_uint32 b
  cnt ← count_fields fuel size val 0
  done (cnt, err)
member_count_case fuel err (some val_array) b = do
  (size, val) ← read_uint32 b
  cnt ← count_items fuel size val 0
  done (cnt, err)
member_count_case fuel err _ b = done (0, type_error err (text "not an object or array value"))

-- The loop makes one round for each member, and one more test: its fuel is the first argument.
unfoldable pub opo_val_member_count : ℕ → Err → Option Bytes → Outcome (ℕ × Err)
unfolding member_count_case
opo_val_member_count fuel err none =
    done (0, type_error err (text "NULL is not a object or array value"))
opo_val_member_count fuel err (some val) = do
  (c, b) ← next_byte val
  member_count_case fuel err (switch c) b
