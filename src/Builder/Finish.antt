-- ===== src/Builder/Finish.antt =====
-- The end of a message: `opo_builder_finish`, `opo_builder_take` and `opo_builder_cleanup` of
-- src/opo/builder.c.
use opo_c.Prelude.{ℕ, if◌then◌else◌, Option, none, some, List, [], ◌∷◌}
use opo_c.Outcome.{Outcome, done, fault, ◌>>=◌}
use opo_c.Bytes.{Bytes}
use opo_c.Val.Access.{read_bytes}
use opo_c.Msg.{opo_msg_bsize}
use opo_c.Builder.{Builder, Heap}
use opo_c.Builder.Push.{close}

-- `for (; builder->stack <= builder->top; builder->top--)`
unfoldable pub close_all : List ℕ → Builder → Outcome Builder
unfolding close
close_all [] b = done (record b { stack = [] })
close_all (off ∷ stack) b = do b' ← close off b; close_all stack b'

unfoldable pub opo_builder_finish : Builder → Outcome Builder
unfolding close_all
opo_builder_finish b = close_all b.stack b

-- `memcpy(msg, builder->head, size)` into a new block of `size` bytes
unfoldable pub copy_message : Heap → Bytes → Outcome (Option Bytes)
copy_message heap block = do
  size ← opo_msg_bsize block
  elim (heap.malloc size) [
    | none ↦ done none
    | some new ↦ do msg ← read_bytes size block; done (some msg)
  ]

-- The message is the block itself where the builder owns it. The builder is left without a block.
unfoldable pub hand_over : Heap → Builder → Outcome (Option Bytes × Builder)
unfolding copy_message
hand_over heap b =
    let empty = record b { head = none; cur = 0 } in
    if b.own then done (b.head, empty) else elim b.head [
      | none ↦ fault
      | some block ↦ do msg ← copy_message heap block; done (msg, empty)
    ]

unfoldable pub opo_builder_take : Heap → Builder → Outcome (Option Bytes × Builder)
unfolding opo_builder_finish hand_over
opo_builder_take heap b = do b' ← opo_builder_finish b; hand_over heap b'

-- The block that is freed, none for no block: the builder's own, which may be NULL.
unfoldable pub opo_builder_cleanup : Builder → Option Bytes
opo_builder_cleanup b = if b.own then b.head else none
