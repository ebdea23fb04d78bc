-- ===== src/Builder/Push.antt =====
-- The calls of src/opo/builder.c that add an element, and `opo_builder_pop`.
use opo_c.Prelude.{
  ℕ, ◌+◌, ◌-◌, ◌%◌, ◌^◌, ltb, ◌==◌, if◌then◌else◌, Option, none, some, List, [], ◌∷◌, ◌++◌, Bool,
  length, get_elem?,
}
use opo_c.Prelude.Int.{ℤ, in_range, to_word}
use opo_c.Outcome.{Outcome, done, fault, ◌>>=◌}
use opo_c.Bytes.{Bytes, fill_uint16, fill_uint32, fill_uint64}
use opo_c.Err.{opo_err_ok, opo_err_overflow, opo_err_arg, text}
use opo_c.Val.{
  tag, val_null, val_true, val_false, val_int1, val_int2, val_int4, val_int8, val_dec, val_uuid,
  val_time, val_obj, val_array, opo_val_bsize,
}
use opo_c.Val.Access.{read_bytes}
use opo_c.Builder.{
  Builder, Heap, Call, if_ok, fail, splice, emit, builder_assure, builder_append_byte,
  opo_msg_max_depth,
}
use opo_c.Builder.Fill.{fill_str, fill_key, fill_uuid, text_length}

-- `const char *key, int klen`, none for a NULL key
abbrev pub Key : Type 0
Key = Option (Bytes × ℤ)

-- `*(builder->head + off)`
unfoldable pub byte_at : Builder → ℕ → Outcome ℕ
byte_at b off = elim b.head [
  | none ↦ fault
  | some block ↦ elim (get_elem? block off) [ none ↦ fault | some x ↦ done x ]
]

-- the four bytes of the size of a container that starts at `off`
unfoldable pub close : ℕ → Builder → Outcome Builder
unfolding splice
close off b = elim b.head [
  | none ↦ fault
  | some block ↦ do
    block' ← splice (off + 1) (fill_uint32 ((b.cur - off - 5) % 2 ^ 32)) block
    done (record b { head = some block' })
]

-- `builder->cur += n`
abbrev pub advance : ℕ → Call
advance n (err, b) = done (opo_err_ok, (err, record b { cur = b.cur + n }))

unfoldable pub pop_stack : List ℕ → Call
unfolding close
pop_stack [] s = fail opo_err_overflow (text "nothing left to pop") s
pop_stack (off ∷ stack) (err, b) = do
  b' ← close off b
  done (opo_err_ok, (err, record b' { stack = stack }))

unfoldable pub opo_builder_pop : Call
unfolding pop_stack
opo_builder_pop (err, b) = pop_stack b.stack (err, b)

module _ (heap : Heap) where
  unfoldable pub builder_push_str : Bytes → ℕ → Call
  unfolding builder_assure emit fill_str
  builder_push_str str len s =
      if_ok (builder_assure heap (len + 6) s) (λ s'. do bytes ← fill_str str len; emit bytes s')

  unfoldable pub builder_push_key : Bytes → ℕ → Call
  unfolding builder_assure emit fill_key
  builder_push_key str len s =
      if_ok (builder_assure heap (len + 4) s) (λ s'. do bytes ← fill_key str len; emit bytes s')

  -- `check_key` by the open containers: at the top level, and in a container. The code of
  -- `builder_push_key` is dropped.
  unfoldable pub check_key_case : Key → List ℕ → Call
  unfolding byte_at builder_push_key text_length
  check_key_case key [] (err, b) =
      if ltb 8 b.cur
      then fail opo_err_overflow (text "only one element can be in a builder") (err, b)
      else elim key [
        | none ↦ done (opo_err_ok, (err, b))
        | some _ ↦ fail opo_err_arg (text "only members of an object are keyed") (err, b)
      ]
  check_key_case none (off ∷ stack) (err, b) = do
    x ← byte_at b off
    if x == tag val_array
        then done (opo_err_ok, (err, b))
        else fail opo_err_arg (text "members of an object must be keyed") (err, b)
  check_key_case (some (str, klen)) (off ∷ stack) (err, b) = do
    x ← byte_at b off
    let keyed = do
      len ← text_length str klen
      (_, s) ← builder_push_key str len (err, b)
      done (opo_err_ok, s)
    if x == tag val_obj
        then keyed
        else fail opo_err_arg (text "only members of an object are keyed") (err, b)

  unfoldable pub check_key : Key → Call
  unfolding check_key_case
  check_key key (err, b) = check_key_case key b.stack (err, b)

  -- `builder->top++` and `*builder->top = cur - head`: beyond the 512 entries of the array this is
  -- a fault, and the guard before it lets one entry too many through.
  unfoldable pub open_container : Call
  open_container (err, b) =
      if ltb (length b.stack) opo_msg_max_depth
      then done (opo_err_ok, (err, record b { stack = b.cur ∷ b.stack }))
      else fault

  -- `builder->stack + OPO_MSG_MAX_DEPTH <= builder->top`
  abbrev pub too_deep : Builder → Bool
  too_deep b = ltb opo_msg_max_depth (length b.stack)

  -- The text of a report of depth is the format without ". Limit is %d", here and for an array.
  unfoldable pub opo_builder_push_object : Key → Call
  unfolding check_key open_container builder_assure emit
  opo_builder_push_object key (err, b) =
      let rest = if_ok (check_key key (err, b)) λ s₁. if_ok (open_container s₁) λ s₂.
        if_ok (builder_assure heap 5 s₂) λ s₃. if_ok (emit (tag val_obj ∷ []) s₃) (advance 4) in
      if too_deep b then fail opo_err_overflow (text "too deeply nested") (err, b) else rest

  -- There is no `builder_assure` here.
  unfoldable pub opo_builder_push_array : Key → Call
  unfolding check_key open_container emit
  opo_builder_push_array key (err, b) =
      let rest =
        if_ok (check_key key (err, b))
          λ s₁. if_ok (open_container s₁) λ s₂. if_ok (emit (tag val_array ∷ []) s₂) (advance 4) in
      if too_deep b then fail opo_err_overflow (text "too deeply nested") (err, b) else rest

  -- `check_key`, room for `size` bytes, and the bytes
  abbrev pub push_bytes : Key → ℕ → Bytes → Call
  push_bytes key size bytes s =
      if_ok (check_key key s) λ s₁. if_ok (builder_assure heap size s₁) (emit bytes)

  unfoldable pub opo_builder_push_null : Key → Call
  unfolding check_key builder_append_byte
  opo_builder_push_null key s = if_ok (check_key key s) (builder_append_byte heap (tag val_null))

  unfoldable pub opo_builder_push_bool : Bool → Key → Call
  unfolding check_key builder_append_byte
  opo_builder_push_bool value key s =
      if_ok (check_key key s)
        (builder_append_byte heap (if value then tag val_true else tag val_false))

  unfoldable pub opo_builder_push_int : ℤ → Key → Call
  unfolding check_key builder_assure emit
  opo_builder_push_int value key s =
      if in_range (2 ^ 7) value
      then push_bytes key 2 (tag val_int1 ∷ to_word (2 ^ 8) value ∷ []) s
      else if in_range (2 ^ 15) value
      then push_bytes key 3 (tag val_int2 ∷ fill_uint16 (to_word (2 ^ 16) value)) s
      else if in_range (2 ^ 31) value
      then push_bytes key 5 (tag val_int4 ∷ fill_uint32 (to_word (2 ^ 32) value)) s
      else push_bytes key 9 (tag val_int8 ∷ fill_uint64 (to_word (2 ^ 64) value)) s

  -- `digits` is what `snprintf` makes of the double.
  unfoldable pub opo_builder_push_double : Bytes → Key → Call
  unfolding check_key builder_assure emit
  opo_builder_push_double digits key s =
      push_bytes key (length digits + 2) (tag val_dec ∷ (length digits % 256) ∷ digits) s

  unfoldable pub opo_builder_push_string : Bytes → ℤ → Key → Call
  unfolding check_key builder_push_str text_length
  opo_builder_push_string value len key s = do
    n ← text_length value len
    if_ok (check_key key s) (builder_push_str value n)

  unfoldable pub opo_builder_push_uuid : ℕ → ℕ → Key → Call
  unfolding check_key builder_assure emit
  opo_builder_push_uuid hi lo key s =
      push_bytes key 17 (tag val_uuid ∷ (fill_uint64 hi ++ fill_uint64 lo)) s

  unfoldable pub opo_builder_push_uuid_string : Bytes → Key → Call
  unfolding check_key builder_assure emit fill_uuid
  opo_builder_push_uuid_string value key s =
      if_ok (check_key key s)
        λ s₁. if_ok (builder_assure heap 17 s₁) λ s₂. (do bytes ← fill_uuid value; emit bytes s₂)

  unfoldable pub opo_builder_push_time : ℤ → Key → Call
  unfolding check_key builder_assure emit
  opo_builder_push_time value key s =
      push_bytes key 9 (tag val_time ∷ fill_uint64 (to_word (2 ^ 64) value)) s

  -- A NULL has size 0, and nothing is copied from it.
  unfoldable pub opo_builder_push_val : Option Bytes → Key → Call
  unfolding check_key builder_assure emit
  opo_builder_push_val value key s = if_ok (check_key key s) λ s₁. (do
    size ← opo_val_bsize value
    if_ok (builder_assure heap size s₁) λ s₂. (do
      bytes ← elim value [ none ↦ done [] | some val ↦ read_bytes size val ]
      emit bytes s₂))
