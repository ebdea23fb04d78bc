-- ===== src/Builder/Iterate.antt =====
-- A message from src/opo/builder.c, read by `opo_msg_val` and `opo_val_iterate` of src/opo/val.c.
use opo_c.Prelude.{ℕ, ◌+◌, ◌<◌, ◌≤◌, ◌≡◌, sym, ap, ◌∙◌, Option, none, some, [], length, append-nil}
use opo_c.Outcome.{Outcome, done, fault, ◌>>=◌}
use opo_c.Bytes.{Bytes}
use opo_c.Err.{Err}
use opo_c.Val.Iterate.{Run, Callbacks, Libc, opo_val_iterate}
use opo_c.Val.Iterate.Visit.{visit, Steady}
use opo_c.Val.Iterate.Trace.{opo_val_iterate-encode}
use opo_c.Msg.{opo_msg_val}
use opo_c.Wire.{Value, encode, IsValid}
use opo_c.Builder.{Heap}
use opo_c.Builder.Script.{Within}
use opo_c.Builder.Message.{build, message, build-encode}

module _ {C D : Type 0} (libc : Libc D) (callbacks : Callbacks C D) (fuel : ℕ) (s : Run C) where
  -- the iteration over the value of a message, if there is one
  abbrev pub receive : Option Bytes → Outcome (ℕ × Run C)
  receive none = fault
  receive (some msg) = do val ← opo_msg_val msg; opo_val_iterate libc callbacks fuel val s

  receive-message :
      (v : Value)
      → IsValid v
      → Steady libc callbacks v
      → length (encode v) < fuel
      → receive (some (message v))
        ≡ (let (_, s') = visit libc callbacks v [] s in done (s'.0.code, s'))
  unfolding opo_msg_val
  receive-message v h u f =
      ap (λ b. opo_val_iterate libc callbacks fuel b s) (sym (append-nil (encode v)))
      ∙ opo_val_iterate-encode libc callbacks fuel v [] s h u f

  -- What a client builds from a valid value in a buffer with room for it, a client that iterates over
  -- the message sees: exactly the calls of `visit`. The callbacks that are called for the UUIDs and
  -- the times of the value must not stop, and where a time is taken as text it is from 1970 on or a
  -- whole number of seconds.
  pub receive-build :
      (heap : Heap) (err : Err) (buf : Bytes) (size : ℕ) (v : Value) {new : Bytes}
      → IsValid v
      → Steady libc callbacks v
      → Within 512 v
      → length (encode v) + 16 ≤ length buf
      → heap.malloc (length (encode v) + 8) ≡ some new
      → length (encode v) < fuel
      → (build heap err (some buf) size v >>= receive)
        ≡ (let (_, s') = visit libc callbacks v [] s in done (s'.0.code, s'))
  receive-build heap err buf size v h u w r m f =
      ap (λ o. o >>= receive) (build-encode heap err buf size v h w r m) ∙ receive-message v h u f
