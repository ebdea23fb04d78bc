-- ===== src/Ojc/Fill.antt =====
-- `wire_size`, `wire_fill` and the functions of src/opo/opo.c that make a message with them.
use opo_c.Prelude.{
  ℕ, zero, suc, ◌+◌, ◌%◌, ◌^◌, leb, ◌==◌, if◌then◌else◌, Option, none, some, [], ◌∷◌, ◌++◌, Bool,
  false, length, replicate,
}
use opo_c.Prelude.Int.{ℤ, negsuc, pos, in_range, to_word}
use opo_c.Outcome.{Outcome, done, out_of_fuel, ◌>>=◌}
use opo_c.Bytes.{Bytes, fill_uint16, fill_uint32, fill_uint64}
use opo_c.Err.{Err, opo_err_set, opo_err_memory, text}
use opo_c.Val.{
  tag, val_null, val_true, val_false, val_int1, val_int2, val_int4, val_int8, val_dec, val_time,
  val_obj, val_array,
}
use opo_c.Msg.{overwrite}
use opo_c.Builder.{Heap}
use opo_c.Builder.Fill.{fill_str, fill_key, fill_uuid, strlen}
use opo_c.Ojc.{
  OjcType, ojc_null, ojc_true, ojc_false, ojc_string, ojc_number, ojc_fixnum, ojc_decimal,
  ojc_array, ojc_object, ojc_word, Ojc, Libc,
}
use opo_c.Ojc.Text.{detect_uuid, uuid_str_len, time_str_len, time_parse}

unfoldable pub isize_bytes : ℤ → ℕ
isize_bytes n =
    if in_range (2 ^ 7) n
    then 1
    else if in_range (2 ^ 15) n
    then 2
    else if in_range (2 ^ 31) n
    then 4
    else 8

unfoldable pub size_bytes : ℕ → ℕ
size_bytes n =
    if leb n 0xff then 1 else if leb n 0xffff then 2 else if leb n 0xffffffff then 4 else 8

-- `NO_TIME == t`
abbrev pub is_no_time : ℤ → Bool
is_no_time (pos n) = false
is_no_time (negsuc n) = n == 0

-- What a string is written as: `detect_uuid` where it has the length of a UUID, and `time_parse`
-- where it has the length of a time.
pub data TextKind : Type 0 where
  as_uuid as_str : TextKind
  as_time : ℤ → TextKind

unfoldable pub text_kind : {D : Type 0} → Libc D → Bytes → ℕ → Outcome TextKind
unfolding detect_uuid time_parse
text_kind libc str len = do
  is_uuid ← (if uuid_str_len == len then detect_uuid str uuid_str_len else done false)
  let timed = do t ← time_parse libc str; done (if is_no_time t then as_str else as_time t)
  if is_uuid then done as_uuid else if time_str_len == len then timed else done as_str

unfoldable pub fill_fixnum : ℤ → Bytes
fill_fixnum i =
    if in_range (2 ^ 7) i
    then tag val_int1 ∷ to_word (2 ^ 8) i ∷ []
    else if in_range (2 ^ 15) i
    then tag val_int2 ∷ fill_uint16 (to_word (2 ^ 16) i)
    else if in_range (2 ^ 31) i
    then tag val_int4 ∷ fill_uint32 (to_word (2 ^ 32) i)
    else tag val_int8 ∷ fill_uint64 (to_word (2 ^ 64) i)

-- A container leaves four bytes for its size, and fills them in when its members are written.
abbrev pub container : ℕ → Bytes → Bytes
container t body = t ∷ (fill_uint32 (length body % 2 ^ 32) ++ body)

module _ {V D : Type 0} (ojc : Ojc V D) (libc : Libc D) where
  -- the text of a double by `snprintf`
  abbrev pub decimal_text : D → Bytes
  decimal_text d = if libc.is_whole d then libc.format_whole d else libc.format_short d

  abbrev size_text : ℕ → ℕ
  size_text len = 1 + (len + size_bytes len + 1)

  -- `wire_size` of a value that is not a container
  unfoldable pub size_leaf : OjcType → V → Outcome ℕ
  unfolding isize_bytes size_bytes text_kind strlen
  size_leaf ojc_string v = do
    kind ← text_kind libc (ojc.ojc_str v) (ojc.ojc_str_len v)
    done (elim kind [
      | as_uuid ↦ 1 + 16
      | as_time t ↦ 1 + 8
      | as_str ↦ size_text (ojc.ojc_str_len v)
    ])
  size_leaf ojc_number v = done (size_text (ojc.ojc_number_len v))
  size_leaf ojc_fixnum v = done (1 + isize_bytes (ojc.ojc_int v))
  size_leaf ojc_decimal v = done (2 + length (decimal_text (ojc.ojc_double v)))
  size_leaf ojc_word v = do len ← strlen (ojc.ojc_word v); done (size_text len)
  size_leaf _ v = done 1

  -- The fuel bounds the depth and the members together. `wire_size_items m` and `wire_size_fields m`
  -- are the loops from the member `m` on.
  unfoldable mutual
    unfolding size_leaf

    pub wire_size : ℕ → V → Outcome ℕ
    wire_size zero v = out_of_fuel
    wire_size (suc f) v = elim (ojc.ojc_type v) [
      | ojc_array ↦ do n ← wire_size_items f (ojc.ojc_members v); done (5 + n)
      | ojc_object ↦ do n ← wire_size_fields f (ojc.ojc_members v); done (5 + n)
      | type ↦ size_leaf type v
    ]

    pub wire_size_items : ℕ → Option V → Outcome ℕ
    wire_size_items f none = done 0
    wire_size_items zero (some m) = out_of_fuel
    wire_size_items (suc f) (some m) = do
      a ← wire_size f m
      b ← wire_size_items f (ojc.ojc_next m)
      done (a + b)

    pub wire_size_fields : ℕ → Option V → Outcome ℕ
    wire_size_fields f none = done 0
    wire_size_fields zero (some m) = out_of_fuel
    wire_size_fields (suc f) (some m) = do
      let len = ojc.ojc_key_len m
      a ← wire_size f m
      b ← wire_size_fields f (ojc.ojc_next m)
      done (len + size_bytes len + 2 + a + b)

  -- what `wire_fill` writes of a value that is not a container
  unfoldable pub fill_leaf : OjcType → V → Outcome Bytes
  unfolding text_kind fill_fixnum fill_str fill_uuid strlen
  fill_leaf ojc_null v = done (tag val_null ∷ [])
  fill_leaf ojc_true v = done (tag val_true ∷ [])
  fill_leaf ojc_false v = done (tag val_false ∷ [])
  fill_leaf ojc_string v = do
    kind ← text_kind libc (ojc.ojc_str v) (ojc.ojc_str_len v)
    elim kind [
      | as_uuid ↦ fill_uuid (ojc.ojc_str v)
      | as_time t ↦ done (tag val_time ∷ fill_uint64 (to_word (2 ^ 64) t))
      | as_str ↦ fill_str (ojc.ojc_str v) (ojc.ojc_str_len v)
    ]
  fill_leaf ojc_number v = fill_str (ojc.ojc_number v) (ojc.ojc_number_len v)
  fill_leaf ojc_fixnum v = done (fill_fixnum (ojc.ojc_int v))
  fill_leaf ojc_decimal v =
      let s = decimal_text (ojc.ojc_double v) in done (tag val_dec ∷ (length s % 256) ∷ s)
  fill_leaf ojc_word v = do len ← strlen (ojc.ojc_word v); fill_str (ojc.ojc_word v) len
  fill_leaf _ v = done []

  -- the bytes that are written at `w`
  unfoldable mutual
    unfolding fill_leaf fill_key

    pub wire_fill : ℕ → V → Outcome Bytes
    wire_fill zero v = out_of_fuel
    wire_fill (suc f) v = elim (ojc.ojc_type v) [
      | ojc_array ↦ do
        body ← wire_fill_items f (ojc.ojc_members v)
        done (container (tag val_array) body)
      | ojc_object ↦ do
        body ← wire_fill_fields f (ojc.ojc_members v)
        done (container (tag val_obj) body)
      | type ↦ fill_leaf type v
    ]

    pub wire_fill_items : ℕ → Option V → Outcome Bytes
    wire_fill_items f none = done []
    wire_fill_items zero (some m) = out_of_fuel
    wire_fill_items (suc f) (some m) = do
      a ← wire_fill f m
      b ← wire_fill_items f (ojc.ojc_next m)
      done (a ++ b)

    pub wire_fill_fields : ℕ → Option V → Outcome Bytes
    wire_fill_fields f none = done []
    wire_fill_fields zero (some m) = out_of_fuel
    wire_fill_fields (suc f) (some m) = do
      k ← fill_key (ojc.ojc_key m) (ojc.ojc_key_len m)
      a ← wire_fill f m
      b ← wire_fill_fields f (ojc.ojc_next m)
      done (k ++ (a ++ b))

  unfoldable pub opo_ojc_msg_size : ℕ → Option V → Outcome ℕ
  unfolding wire_size
  opo_ojc_msg_size fuel none = done 0
  opo_ojc_msg_size fuel (some msg) = do n ← wire_size fuel msg; done (n + 8)

  -- the buffer after the call; a buffer that is too small is a fault
  unfoldable pub opo_ojc_fill_msg : ℕ → V → Bytes → Outcome Bytes
  unfolding wire_fill overwrite
  opo_ojc_fill_msg fuel v buf = do bytes ← wire_fill fuel v; overwrite (replicate 8 0 ++ bytes) buf

  -- The text of the report is the format without the size: it ends before " %ld bytes long".
  unfoldable pub opo_ojc_to_msg : Heap → ℕ → Err → Option V → Outcome (Option Bytes × Err)
  unfolding wire_size wire_fill overwrite
  opo_ojc_to_msg heap fuel err none = done (none, err)
  opo_ojc_to_msg heap fuel err (some v) = do
    size ← wire_size fuel v
    elim (heap.malloc (size + 8)) [
      | none ↦
          done
            (none, opo_err_set err opo_err_memory (text "failed to allocate memory for a message"))
      | some w ↦ do
        bytes ← wire_fill fuel v
        msg ← overwrite (replicate 8 0 ++ bytes) w
        done (some msg, err)
    ]
