-- ===== src/Msg/Id.antt =====
-- The id of a message.
use opo_c.Prelude.{ℕ, ◌+◌, ◌^◌, ◌<◌, ◌≡◌, refl, sym, [], ◌∷◌, ◌++◌, length, arith}
use opo_c.Outcome.{done, ◌>>=◌}
use opo_c.Bytes.{Bytes, fill_uint64}
use opo_c.Bytes.RoundTrip.{read-fill_uint64}
use opo_c.Val.Size.{opo_val_bsize-encode}
use opo_c.Wire.{Value, encode, IsValid}
use opo_c.Msg.{overwrite, opo_msg_id, opo_msg_set_id, opo_msg_val, opo_msg_bsize}

pub overwrite-append :
    (xs old rest : Bytes) → length xs ≡ length old → overwrite xs (old ++ rest) ≡ done (xs ++ rest)
unfolding overwrite
overwrite-append [] [] rest h = refl
overwrite-append [] (y ∷ old) rest h = absurd (omega arith)
overwrite-append (x ∷ xs) [] rest h = absurd (omega arith)
overwrite-append (x ∷ xs) (y ∷ old) rest h = rw (overwrite-append xs old rest (omega arith))

pub set_id-lem :
    (old rest : Bytes) (id : ℕ)
    → length old ≡ 8
    → opo_msg_set_id (old ++ rest) id ≡ done (fill_uint64 id ++ rest)
unfolding opo_msg_set_id fill_uint64
set_id-lem old rest id h = overwrite-append (fill_uint64 id) old rest (sym h)

pub msg_val-fill : (id : ℕ) (body : Bytes) → opo_msg_val (fill_uint64 id ++ body) ≡ done body
unfolding opo_msg_val fill_uint64
msg_val-fill id body = refl

-- In a message of eight bytes of id and a body, setting a 64-bit id succeeds, the id reads back,
-- and the body is where it was, unchanged.
pub opo_msg_id-set_id :
    (old body : Bytes) (id : ℕ)
    → length old ≡ 8
    → id < 2 ^ 64
    → ((opo_msg_set_id (old ++ body) id >>= λ msg. opo_msg_id msg) ≡ done id)
      × ((opo_msg_set_id (old ++ body) id >>= λ msg. opo_msg_val msg) ≡ done body)
unfolding opo_msg_id
opo_msg_id-set_id old body id h r =
    rw (set_id-lem old body id h) (rw (read-fill_uint64 id body r), msg_val-fill id body)

-- The size of a message is that of its value and eight bytes more.
pub opo_msg_bsize-encode :
    (id : ℕ) (v : Value) (rest : Bytes)
    → IsValid v
    → opo_msg_bsize (fill_uint64 id ++ (encode v ++ rest)) ≡ done (length (encode v) + 8)
unfolding opo_msg_bsize fill_uint64
opo_msg_bsize-encode id v rest h = rw (opo_val_bsize-encode v rest h)
