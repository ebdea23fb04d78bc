-- ===== src/Builder.antt =====
-- The message builder of src/opo/builder.c. The block between `head` and `end` is a list of bytes,
-- `cur` an offset into it, and `stack` the offsets of the open containers, the innermost first, so
-- that `top` is at `stack + n - 1` for a list of `n`.
pub mod Fill
pub mod Push
pub mod Room
pub mod Slot
pub mod Script
pub mod Leaf
pub mod Nest
pub mod Encode
pub mod Message
pub mod Reject
pub mod Grow
pub mod Unwind
pub mod Uuid
pub mod Iterate
pub mod Finish
use opo_c.Prelude.{
  ℕ, zero, suc, ◌+◌, ◌-◌, ◌*◌, ◌^◌, ◌≡◌, ltb, leb, ◌==◌, if◌then◌else◌, Option, none, some, List,
  [], ◌∷◌, ◌++◌, Bool, true, false, length, drop, replicate,
}
use opo_c.Outcome.{Outcome, done, fault, ◌>>=◌}
use opo_c.Bytes.{Bytes, skip}
use opo_c.Err.{Err, opo_err_set, opo_err_ok, opo_err_memory, opo_err_overflow, opo_err_arg, text}
use opo_c.Msg.{overwrite}

abbrev pub opo_msg_max_depth : ℕ
opo_msg_max_depth = 512

abbrev pub msg_inc : ℕ
msg_inc = 4096

abbrev pub min_msg_buf : ℕ
min_msg_buf = 1024

-- `struct _opoBuilder`; `head` is none for NULL. `end`, which outlives a block that is lost, is not
-- kept then: a call that goes on writing without a block is a fault.
pub record Builder : Type 0 where
  pub head : Option Bytes
  pub cur : ℕ
  pub own : Bool
  pub stack : List ℕ

-- The C heap. `malloc n` is a block of `n` bytes of any content, none for NULL.
pub record Heap : Type 0 where
  pub malloc : ℕ → Option Bytes
  pub length-malloc : (n : ℕ) {b : Bytes} → malloc n ≡ some b → length b ≡ n

-- The report and the builder, which each call changes, behind the code that it returns.
abbrev pub St : Type 0
St = Err × Builder

abbrev pub Call : Type 0
Call = St → Outcome (ℕ × St)

-- `if (OPO_ERR_OK != m) return err->code;`
abbrev pub if_ok : Outcome (ℕ × St) → Call → Outcome (ℕ × St)
if_ok m next = do (c, s) ← m; let rest = next s; if c == opo_err_ok then rest else done (c, s)

abbrev pub fail : ℕ → Bytes → Call
fail c what (err, b) = done (c, (opo_err_set err c what, b))

-- the bytes `xs` at offset `n`
unfoldable pub splice : ℕ → Bytes → Bytes → Outcome Bytes
unfolding overwrite
splice zero xs block = overwrite xs block
splice (suc n) xs [] = fault
splice (suc n) xs (x ∷ block) = do rest ← splice n xs block; done (x ∷ rest)

-- `*builder->cur++ = x` for each byte
unfoldable pub write : Bytes → Builder → Outcome Builder
unfolding splice
write xs b = elim b.head [
  | none ↦ fault
  | some block ↦ do
    block' ← splice b.cur xs block
    done (record b { head = some block'; cur = b.cur + length xs })
]

-- the bytes, and the code for success
unfoldable pub emit : Bytes → Call
unfolding write
emit xs (err, b) = do b' ← write xs b; done (opo_err_ok, (err, b'))

module _ (heap : Heap) where
  -- The block that replaces a block of too few bytes. `realloc` keeps the bytes of the old block;
  -- the `malloc` for a block that the builder does not own copies nothing.
  unfoldable pub grow : Bool → Bytes → ℕ → Option Bytes
  grow true block n = elim (heap.malloc n) [
    | none ↦ none
    | some new ↦ some (block ++ drop (length block) new)
  ]
  grow false block n = heap.malloc n

  -- The builder goes on with the new block. The text of the report is the format of the source,
  -- its number left out. `int off` limits the offset.
  unfoldable pub use_block : Option Bytes → Call
  use_block none (err, b) =
      fail opo_err_memory (text "memory allocation failed") (err, record b { head = none })
  use_block (some block) (err, b) =
      if ltb b.cur (2 ^ 31) then done (opo_err_ok, (err, record b { head = some block })) else fault

  unfoldable pub builder_assure : ℕ → Call
  unfolding grow use_block
  builder_assure size (err, b) = elim b.head [
    | none ↦ fault
    | some block ↦
        if leb (length block) (b.cur + size)
        then use_block (grow b.own block (length block + msg_inc + size)) (err, b)
        else done (opo_err_ok, (err, b))
  ]

  unfoldable pub builder_append_byte : ℕ → Call
  unfolding builder_assure emit
  builder_append_byte x s = if_ok (builder_assure 1 s) (emit (x ∷ []))

  -- `memset(builder->head, 0, 8)`; a block of the caller's of fewer than 8 bytes is a fault. The
  -- caller's `buf` has `size` bytes.
  unfoldable pub opo_builder_init : Err → Option Bytes → ℕ → Outcome (ℕ × Err × Option Builder)
  unfolding overwrite
  opo_builder_init err (some buf) size = do
    block ← overwrite (replicate 8 0) buf
    done (opo_err_ok, err, some (record { head = some block; cur = 8; own = false; stack = [] }))
  opo_builder_init err none size =
      let size' = if ltb size min_msg_buf then min_msg_buf else size in
      elim (heap.malloc size') [
        | none ↦
            done (
              opo_err_memory,
              opo_err_set err opo_err_memory (text "memory allocation failed"),
              none,
            )
        | some new ↦ do
          block ← overwrite (replicate 8 0) new
          done (
            opo_err_ok,
            err,
            some (record { head = some block; cur = 8; own = true; stack = [] }),
          )
      ]

unfoldable pub opo_builder_length : Builder → ℕ
opo_builder_length b = b.cur
