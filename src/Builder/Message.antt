-- ===== src/Builder/Message.antt =====
-- A whole message: a new builder, the calls for one value, and `opo_builder_take`.
use opo_c.Prelude.{
  ℕ, ◌+◌, ◌≤◌, ◌≡◌, sym, ap, ◌∙◌, Option, none, some, [], ◌++◌, Bool, true, false, length,
  replicate, arith, ltb, if◌then◌else◌,
}
use opo_c.Outcome.{Outcome, done, ◌>>=◌}
use opo_c.Bytes.{Bytes, fill_uint64}
use opo_c.Err.{Err, opo_err_ok}
use opo_c.Val.Access.{read_bytes}
use opo_c.Val.Access.Read.{read_bytes-append}
use opo_c.Msg.{opo_msg_bsize}
use opo_c.Msg.Id.{overwrite-append, opo_msg_bsize-encode}
use opo_c.Wire.{Value, encode, IsValid}
use opo_c.Wire.Digits.{lengths}
use opo_c.Builder.{Heap, opo_builder_init, min_msg_buf}
use opo_c.Builder.Finish.{copy_message, opo_builder_take}
use opo_c.Builder.Script.{Within, script}
use opo_c.Builder.Room.{at, split}
use opo_c.Builder.Slot.{at_top}
use opo_c.Builder.Encode.{script-Adds}

-- The message that a client gets with these calls, none where a call gives no builder or no block.
unfoldable pub build : Heap → Err → Option Bytes → ℕ → Value → Outcome (Option Bytes)
unfolding opo_builder_init script opo_builder_take
build heap err buf size v = do
  (c, err', made) ← opo_builder_init heap err buf size
  elim made [
    | none ↦ done none
    | some b ↦ do
      (c', (err'', b')) ← script heap v none (err', b)
      (msg, b'') ← opo_builder_take heap b'
      done msg
  ]

-- eight bytes for the id, and the value
abbrev pub message : Value → Bytes
message v = replicate 8 0 ++ encode v

bsize-message :
    (v : Value) (free : Bytes)
    → IsValid v
    → opo_msg_bsize (message v ++ free) ≡ done (length (encode v) + 8)
unfolding fill_uint64
bsize-message v free h = opo_msg_bsize-encode 0 v free h

read_bytes-message :
    (v : Value) (free : Bytes)
    → read_bytes (length (encode v) + 8) (message v ++ free) ≡ done (message v)
read_bytes-message v free =
    let e : length (encode v) + 8 ≡ length (message v) = omega lengths in
    ap (λ n. read_bytes n (message v ++ free)) e ∙ read_bytes-append (message v) free

copy_message-lem :
    (heap : Heap) (v : Value) (free : Bytes) {new : Bytes}
    → IsValid v
    → heap.malloc (length (encode v) + 8) ≡ some new
    → copy_message heap (message v ++ free) ≡ done (some (message v))
unfolding copy_message
copy_message-lem heap v free h m = rw (bsize-message v free h, m, read_bytes-message v free)

-- the calls for the value, in a builder that has only the eight bytes of the id
script-new :
    (heap : Heap) (own : Bool) (err : Err) (v : Value) (free : Bytes)
    → IsValid v
    → Within 512 v
    → length (encode v) + 8 ≤ length free
    → (free' : Bytes) × (script heap v none (err, at own [] (replicate 8 0) free)
        ≡ done (opo_err_ok, (err, at own [] (message v) free')))
script-new heap own err v free h w r =
    let (free', e, l) =
      script-Adds own err heap v 512 {pre = replicate 8 0} free (at_top (omega arith)) h
        (omega arith) w (omega arith) in
    (free', e)

-- In a buffer of the caller's with 16 bytes more than the value takes, whatever its content, the
-- calls for a valid value that nests at most 512 deep succeed, and the message that is taken is
-- exactly eight zero bytes and the encoding of the value, if the heap has a block of its size.
pub build-encode :
    (heap : Heap) (err : Err) (buf : Bytes) (size : ℕ) (v : Value) {new : Bytes}
    → IsValid v
    → Within 512 v
    → length (encode v) + 16 ≤ length buf
    → heap.malloc (length (encode v) + 8) ≡ some new
    → build heap err (some buf) size v ≡ done (some (replicate 8 0 ++ encode v))
unfolding build
build-encode heap err buf size v h w r m =
    let (old, free, e, l) = split 8 buf (omega arith) in
    let (free', e') = script-new heap false err v free h w (omega (lengths, ap length e)) in
    let i = overwrite-append (replicate 8 0) old free (sym l) in
    rw (e, i, e', copy_message-lem heap v free' h m)

init-own :
    (heap : Heap) (err : Err) (size : ℕ) (old free : Bytes)
    → heap.malloc (if ltb size min_msg_buf then min_msg_buf else size) ≡ some (old ++ free)
    → length old ≡ 8
    → opo_builder_init heap err none size
      ≡ done (opo_err_ok, err, some (at true [] (replicate 8 0) free))
unfolding opo_builder_init
init-own heap err size old free m l =
    let i = overwrite-append (replicate 8 0) old free (sym l) in rw (opo_builder_init, m, i)

-- In a block that the builder allocates itself, if that has 16 bytes more than the value takes, the
-- calls succeed, and the block that is taken starts with eight zero bytes and the encoding.
pub build-own :
    (heap : Heap) (err : Err) (size : ℕ) (v : Value) {new : Bytes}
    → IsValid v
    → Within 512 v
    → length (encode v) + 16 ≤ size
    → heap.malloc (if ltb size min_msg_buf then min_msg_buf else size) ≡ some new
    → (rest : Bytes) × (build heap err none size v
        ≡ done (some ((replicate 8 0 ++ encode v) ++ rest)))
unfolding build
build-own heap err size v {new = new} h w r m =
    let n : length new ≡ (if ltb size min_msg_buf then min_msg_buf else size) =
      heap.length-malloc _ m in
    let n' : size ≤ length new = ground (arith, n) in
    let (old, free, e, l) = split 8 new (omega arith) in
    let (free', e') = script-new heap true err v free h w (omega (lengths, ap length e)) in
    (free', rw (init-own heap err size old free (m ∙ ap some e) l, e'))
