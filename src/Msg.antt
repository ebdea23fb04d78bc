-- ===== src/Msg.antt =====
-- Messages: eight bytes of id, then a value. `opo_msg_id`, `opo_msg_set_id`, `opo_msg_bsize` and
-- `opo_msg_val` of src/opo/val.c and src/opo/val.h.
pub mod Id
use opo_c.Prelude.{ℕ, zero, suc, ◌+◌, ◌/◌, ◌%◌, ◌^◌, some, [], ◌∷◌}
use opo_c.Outcome.{Outcome, done, fault, ◌>>=◌}
use opo_c.Bytes.{Bytes, skip, read_uint64}
use opo_c.Val.{opo_val_bsize}

-- `msg + 8`
unfoldable pub opo_msg_val : Bytes → Outcome Bytes
unfolding skip
opo_msg_val msg = skip 8 msg

unfoldable pub opo_msg_bsize : Bytes → Outcome ℕ
unfolding opo_msg_val
opo_msg_bsize msg = do val ← skip 8 msg; n ← opo_val_bsize (some val); done (n + 8)

unfoldable pub opo_msg_id : Bytes → Outcome ℕ
opo_msg_id msg = do (id, _) ← read_uint64 msg; done id

-- `*msg++ = x` for each byte `x` of a list
unfoldable pub overwrite : Bytes → Bytes → Outcome Bytes
overwrite [] msg = done msg
overwrite (x ∷ xs) [] = fault
overwrite (x ∷ xs) (_ ∷ msg) = do rest ← overwrite xs msg; done (x ∷ rest)

unfoldable pub opo_msg_set_id : Bytes → ℕ → Outcome Bytes
unfolding overwrite
opo_msg_set_id msg id =
    overwrite
      ((id / 2 ^ 56 % 256)
        ∷ (id / 2 ^ 48 % 256)
        ∷ (id / 2 ^ 40 % 256)
        ∷ (id / 2 ^ 32 % 256)
        ∷ (id / 2 ^ 24 % 256)
        ∷ (id / 2 ^ 16 % 256)
        ∷ (id / 2 ^ 8 % 256)
        ∷ (id % 256)
        ∷ [])
      msg
