-- ===== src/Builder/Reject.antt =====
-- Elements in the wrong place, containers that are nested too deep, and pops that fail.
use opo_c.Prelude.{
  ℕ, ◌<◌, ◌≤◌, ◌≡◌, refl, ltb, ◌==◌, ◌^◌, inl, inr, Bool-cases, none, some, List, [], ◌∷◌, true,
  false, length, arith,
}
use opo_c.Prelude.Int.{ℤ, in_range}
use opo_c.Outcome.{done}
use opo_c.Bytes.{Bytes}
use opo_c.Err.{Err, opo_err_set, opo_err_ok, opo_err_overflow, opo_err_arg, text}
use opo_c.Val.{tag, val_array, val_obj}
use opo_c.Wire.{Value, null, boolean, fixnum, string, decimal, uuid, time, array, object}
use opo_c.Builder.{Builder, Heap}
use opo_c.Builder.Push.{
  Key, byte_at, check_key, opo_builder_push_null, opo_builder_push_bool, opo_builder_push_int,
  opo_builder_push_string, opo_builder_push_double, opo_builder_push_uuid, opo_builder_push_time,
  opo_builder_push_array, opo_builder_push_object,
}
use opo_c.Builder.Script.{script}
use opo_c.Builder.Slot.{text_length-nul}

-- What is wrong with a place for an element, with the code of the report: a second element at the
-- top level, a key at the top level, a key in a container that is not an object, and no key in one
-- that is not an array.
pub data Misplaced : Key → Builder → ℕ → Bytes → Type 0 where
  second :
      {key : Key} {b : Builder}
      → b.stack ≡ []
      → 8 < b.cur
      → Misplaced key b opo_err_overflow (text "only one element can be in a builder")
  keyed_at_top :
      {k : Bytes × ℤ} {b : Builder}
      → b.stack ≡ []
      → b.cur ≤ 8
      → Misplaced (some k) b opo_err_arg (text "only members of an object are keyed")
  keyed_in :
      {k : Bytes × ℤ} {b : Builder} {off : ℕ} {stack : List ℕ} {x : ℕ}
      → b.stack ≡ off ∷ stack
      → byte_at b off ≡ done x
      → (x == tag val_obj) ≡ false
      → Misplaced (some k) b opo_err_arg (text "only members of an object are keyed")
  unkeyed_in :
      {b : Builder} {off : ℕ} {stack : List ℕ} {x : ℕ}
      → b.stack ≡ off ∷ stack
      → byte_at b off ≡ done x
      → (x == tag val_array) ≡ false
      → Misplaced none b opo_err_arg (text "members of an object must be keyed")

check_key-Misplaced :
    (heap : Heap) (err : Err) {key : Key} {b : Builder} {c : ℕ} {what : Bytes}
    → Misplaced key b c what
    → (check_key heap key (err, b) ≡ done (c, (opo_err_set err c what, b)))
      × ((c == opo_err_ok) ≡ false)
unfolding check_key
check_key-Misplaced heap err (second {b = b} s n) =
    let l : ltb 8 b.cur ≡ true = ground arith in (rw (s, l), refl)
check_key-Misplaced heap err (keyed_at_top {b = b} s n) =
    let l : ltb 8 b.cur ≡ false = ground arith in (rw (s, l), refl)
check_key-Misplaced heap err (keyed_in s e n) = (rw (s, e, n), refl)
check_key-Misplaced heap err (unkeyed_in s e n) = (rw (s, e, n), refl)

-- The first call for a misplaced value fails with the code and the text of its mistake, the calls
-- that would follow are not made, and the builder is as it was.
pub script-Misplaced :
    (heap : Heap) (err : Err) (v : Value) {key : Key} {b : Builder} {c : ℕ} {what : Bytes}
    → Misplaced key b c what
    → length b.stack ≤ 512
    → script heap v key (err, b) ≡ done (c, (opo_err_set err c what, b))
unfolding script opo_builder_push_null opo_builder_push_bool opo_builder_push_int
    opo_builder_push_string opo_builder_push_double opo_builder_push_uuid opo_builder_push_time
    opo_builder_push_array opo_builder_push_object
script-Misplaced heap err null m d = let (e, n) = check_key-Misplaced heap err m in rw (e, n)
script-Misplaced heap err (boolean x) m d = let (e, n) = check_key-Misplaced heap err m in rw (e, n)
script-Misplaced heap err (fixnum i) m d =
    let (e, n) = check_key-Misplaced heap err m in
    elim (Bool-cases (in_range (2 ^ 7) i)) [
      | inl p ↦ rw (p, e, n)
      | inr p ↦ elim (Bool-cases (in_range (2 ^ 15) i)) [
        | inl q ↦ rw (p, q, e, n)
        | inr q ↦ elim (Bool-cases (in_range (2 ^ 31) i)) [
          | inl r ↦ rw (p, q, r, e, n)
          | inr r ↦ rw (p, q, r, e, n)
        ]
      ]
    ]
script-Misplaced heap err (string s) m d =
    let (e, n) = check_key-Misplaced heap err m in rw (text_length-nul s, e, n)
script-Misplaced heap err (decimal s) m d = let (e, n) = check_key-Misplaced heap err m in rw (e, n)
script-Misplaced heap err (uuid hi lo) m d =
    let (e, n) = check_key-Misplaced heap err m in rw (e, n)
script-Misplaced heap err (time t) m d = let (e, n) = check_key-Misplaced heap err m in rw (e, n)
script-Misplaced heap err (array xs) {b = b} m d =
    let (e, n) = check_key-Misplaced heap err m in
    let l : ltb 512 (length b.stack) ≡ false = ground arith in rw (l, e, n, n)
script-Misplaced heap err (object fs) {b = b} m d =
    let (e, n) = check_key-Misplaced heap err m in
    let l : ltb 512 (length b.stack) ≡ false = ground arith in rw (l, e, n, n)
