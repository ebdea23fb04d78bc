-- ===== src/Client/Ask.antt =====
-- `opo_client_query` of a client with a `query_callback`, below its limit.
use opo_c.Prelude.{
  ℕ, ◌+◌, ◌%◌, ◌^◌, ◌<◌, ◌≤◌, ◌≡◌, ◌==◌, ltb, refl, some, true, false, [], ◌∷◌, ◌++◌, length,
  take-all, arith,
}
use opo_c.Bytes.{Bytes, fill_uint64}
use opo_c.Outcome.{done}
use opo_c.Err.{Err}
use opo_c.Msg.Id.{opo_msg_bsize-encode}
use opo_c.Wire.{Value, encode, IsValid}
use opo_c.Client.Send.{Os}
use opo_c.Client.Submit.{length-message, read-message}
use opo_c.Client.Async.{Async, send_async, query_async}

send_async_lem :
    (os : Os) (bytes : Bytes) (err : Err) (a : Async) (size : ℕ)
    → size ≡ length bytes
    → os.write bytes ≡ some (length bytes)
    → send_async os size bytes err a ≡ done (err, record a { written = a.written ++ (bytes ∷ []) })
unfolding send_async
send_async_lem os bytes err a size l e =
    let self : (length bytes == length bytes) ≡ true = ground arith in
    rw (send_async, e, l) (rw (self, take-all bytes (length bytes) (omega arith)) refl)

-- Where at most `pending_max` queries are pending, `opo_client_query` of a valid message that is
-- written in full answers with the next id, does not wait and reports nothing, counts one query
-- more, so that there can be `pending_max + 1`, and writes the message as it is, with the id that
-- it had before.
pub query_async-room :
    (naps : ℕ) (world : ℕ → Async → Async) (os : Os) (err : Err) (a : Async) (old : ℕ) (v : Value)
    (rest : Bytes)
    → a.pending ≤ a.pending_max
    → a.pending + 1 < 2 ^ 64
    → a.next_id + 1 < 2 ^ 64
    → IsValid v
    → let msg = fill_uint64 old ++ encode v in
      os.write msg ≡ some (length msg)
      → query_async naps world os err a (fill_uint64 old ++ (encode v ++ rest))
        ≡ done (
          a.next_id,
          err,
          record a {
            next_id = a.next_id + 1;
            pending = a.pending + 1;
            written = a.written ++ (msg ∷ []);
          },
        )
unfolding query_async
query_async-room naps world os err a old v rest h p i ok w =
    let e : ltb a.pending_max a.pending ≡ false = ground arith in
    let q : (a.pending + 1) % 2 ^ 64 ≡ a.pending + 1 = ground arith in
    let r : (a.next_id + 1) % 2 ^ 64 ≡ a.next_id + 1 = ground arith in
    rw (opo_msg_bsize-encode old v rest ok, e)
      (rw (q, r, read-message old (encode v) rest)
        (rw
          (send_async_lem os (fill_uint64 old ++ encode v) err
            (record a { next_id = a.next_id + 1; pending = a.pending + 1 }) (length (encode v) + 8)
            (length-message old (encode v)) w)
          refl))
