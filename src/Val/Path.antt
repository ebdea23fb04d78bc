-- ===== src/Val/Path.antt =====
-- `val_key` and `opo_val_get` of src/opo/val.c: the value at a path such as "list.2.name". A path is
-- the bytes before its NUL.
pub mod Lookup
pub mod Find
use opo_c.Prelude.{
  ℕ, zero, suc, ◌==◌, if◌then◌else◌, Option, none, some, [], ◌∷◌, Bool, true, false, length,
}
use opo_c.Prelude.Int.{ℤ, pos, negsuc}
use opo_c.Outcome.{Outcome, done, fault, out_of_fuel, ◌>>=◌}
use opo_c.Bytes.{Bytes, read_uint16, read_uint32}
use opo_c.Val.{ValType, switch, val_key1, val_key2, val_obj, val_array}
use opo_c.Val.Access.{next_byte}
use opo_c.Val.Members.{step_over}

-- The key and its length, NULL and 0 where there is none.
unfoldable pub val_key_case : Option ValType → Bytes → Outcome (Option Bytes × ℕ)
val_key_case (some val_key1) b = do (n, key) ← next_byte b; done (some key, n)
val_key_case (some val_key2) b = do (n, key) ← read_uint16 b; done (some key, n)
val_key_case _ b = done (none, 0)

unfoldable pub val_key : Bytes → Outcome (Option Bytes × ℕ)
unfolding val_key_case
val_key val = do (c, b) ← next_byte val; val_key_case (switch c) b

-- the bytes up to the first '.', and what follows it, none where the path ends
abbrev pub after_byte : ℕ → Bytes × Option Bytes → Bytes × Option Bytes
after_byte x (seg, rest) = (x ∷ seg, rest)

abbrev pub find_dot : Bytes → Bytes × Option Bytes
find_dot [] = ([], none)
find_dot (x ∷ path) =
    let next = after_byte x (find_dot path) in if x == b'.' then ([], some path) else next

-- `0 == strncmp(key, path, len)` for the `len` bytes of a path, of which none is NUL
unfoldable pub same_bytes : Bytes → Bytes → Outcome Bool
same_bytes [] key = done true
same_bytes (x ∷ seg) [] = fault
same_bytes (x ∷ seg) (y ∷ key) =
    let more = same_bytes seg key in if x == y then more else done false

-- `len == klen && 0 == strncmp(key, path, len)`; a NULL key is only read where `len` is not 0.
unfoldable pub is_key : Bytes → Option Bytes × ℕ → Outcome Bool
unfolding same_bytes
is_key seg (none, klen) = if length seg == klen then same_bytes seg [] else done false
is_key seg (some key, klen) = if length seg == klen then same_bytes seg key else done false

-- The loop of `VAL_OBJ`: the value behind the key that is the segment. The fuel bounds the rounds.
-- The length of the segment has no bound here, where the source keeps it in an int.
unfoldable pub seek_key : ℕ → Bytes → ℕ → Bytes → Outcome (Option Bytes)
unfolding val_key is_key
seek_key zero seg left val = out_of_fuel
seek_key (suc f) seg left val =
    let round = do
      key ← val_key val
      (left₁, val₁) ← step_over left val
      same ← is_key seg key
      let next = do (left₂, val₂) ← step_over left₁ val₁; seek_key f seg left₂ val₂
      if same then done (some val₁) else next
    in if left == 0 then done none else round

-- `i--`
abbrev pub decr : ℤ → ℤ
decr (pos zero) = negsuc 0
decr (pos (suc n)) = pos n
decr (negsuc n) = negsuc (suc n)

abbrev pub is_zero : ℤ → Bool
is_zero (pos zero) = true
is_zero (pos (suc n)) = false
is_zero (negsuc n) = false

-- The loop of `VAL_ARRAY`: the value at the index. The fuel bounds the rounds.
-- The length of the segment has no bound here, where the source keeps it in an int.
unfoldable pub seek_index : ℕ → ℤ → ℕ → Bytes → Outcome (Option Bytes)
seek_index zero i left val = out_of_fuel
seek_index (suc f) i left val =
    let round = do (left', val') ← step_over left val; seek_index f (decr i) left' val'
    in if left == 0 then done none else if is_zero i then done (some val) else round

-- `strtol` answers the number and how many bytes it read.
module _ (strtol : Bytes → ℤ × ℕ) where
  -- the member that the first segment of the path names
  unfoldable pub seek_case : ℕ → Bytes → Option ValType → Bytes → Outcome (Option Bytes)
  unfolding seek_key seek_index
  seek_case steps path (some val_obj) b = do
    (size, val) ← read_uint32 b
    seek_key steps (find_dot path).0 size val
  seek_case steps path (some val_array) b =
      let (i, n) = strtol path in
      let found = (do (size, val) ← read_uint32 b; seek_index steps i size val) in
      if n == length (find_dot path).0 then found else done none
  seek_case steps path _ b = done none

  -- A NULL path is none. The fuel is for the segments of the path (`depth`) and for each loop
  -- (`steps`).
  unfoldable pub opo_val_get : ℕ → ℕ → Option Bytes → Option Bytes → Outcome (Option Bytes)
  unfolding seek_case
  opo_val_get depth steps val none = done val
  opo_val_get depth steps val (some []) = done val
  opo_val_get zero steps val (some (x ∷ path)) = out_of_fuel
  opo_val_get (suc depth) steps none (some (x ∷ path)) = fault
  opo_val_get (suc depth) steps (some val) (some (x ∷ path)) = do
    (c, b) ← next_byte val
    found ← seek_case steps (x ∷ path) (switch c) b
    elim found [
      | none ↦ done none
      | some v ↦ elim (find_dot (x ∷ path)).1 [
        | none ↦ done (some v)
        | some rest ↦ opo_val_get depth steps (some v) (some rest)
      ]
    ]
