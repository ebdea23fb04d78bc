-- ===== src/Client/Send.antt =====
-- `opo_client_query` of src/opo/client.c, where the client has no callback of its own.
use opo_c.Prelude.{
  ℕ, zero, suc, ◌==◌, ◌+◌, ◌%◌, ◌^◌, if◌then◌else◌, Option, none, some, [], ◌∷◌, ◌++◌, Bool, true,
  false, set, take,
}
use opo_c.Outcome.{Outcome, done, out_of_fuel, ◌>>=◌}
use opo_c.Bytes.{Bytes}
use opo_c.Err.{Err, opo_err_set, opo_err_no, text}
use opo_c.Msg.{opo_msg_bsize, opo_msg_set_id}
use opo_c.Val.Access.{read_bytes}
use opo_c.Queue.{next_slot}
use opo_c.Client.{sent, is_clear, Client, slot}

abbrev pub eagain : ℕ
eagain = 11

-- What the operating system does: `write` answers how many of the bytes it took, none for an error.
pub record Os : Type 0 where
  pub write : Bytes → Option ℕ
  pub errno : ℕ
  pub strerror : ℕ → Bytes

module _ {K : Type 0} where
  -- the query in the slot at the tail, and the new tail
  unfoldable pub enqueue : Option K → Client K → Outcome (Client K)
  unfolding slot
  enqueue cb c = do
    x ← slot c c.tail
    done (record c {
      q = set c.q c.tail (record x { id = c.next_id; cb = cb; state = sent });
      tail = next_slot c.pending_max c.tail;
      next_id = (c.next_id + 1) % 2 ^ 64;
    })

  -- `write(client->sock, query, size)` and the report of a failure
  unfoldable pub send : Os → ℕ → Bytes → Err → Client K → Outcome (Err × Client K)
  unfolding opo_err_no
  send os size bytes err c =
      let failed = opo_err_no os.strerror os.errno err (some (text "write failed")) in
      elim (os.write bytes) [
        | none ↦ do err' ← failed; done (err', c)
        | some n ↦
            let c' = record c { written = c.written ++ (take n bytes ∷ []) } in
            let failed' = (do err' ← failed; done (err', c')) in
            if n == size then done (err, c') else failed'
      ]

  -- The wait for a free slot at the tail, for at most `tries` naps; no naps at all where the timeout
  -- is not above 0. The answer is whether there is one.
  unfoldable pub wait_clear : ℕ → (ℕ → Client K → Client K) → Client K → Outcome (Bool × Client K)
  unfolding slot
  wait_clear zero world c = do x ← slot c c.tail; done (is_clear x.state, c)
  wait_clear (suc tries) world c =
      let again = wait_clear tries (λ n. world (suc n)) (world 0 c) in
      (do x ← slot c c.tail; if is_clear x.state then done (true, c) else again)

  -- Once `tail_lock` is taken. The results are the id, the report, the query with its id set, and the
  -- client.
  unfoldable pub query_locked :
      Os
      → ℕ
      → (ℕ → Client K → Client K)
      → Err
      → Client K
      → Bytes
      → Option K
      → Outcome (ℕ × Err × Bytes × Client K)
  unfolding wait_clear enqueue send
  query_locked os tries world err c query cb = do
    size ← opo_msg_bsize query
    (free, c₁) ← wait_clear tries world (record c { tail_lock = true })
    let go = do
      c₂ ← enqueue cb c₁
      query' ← opo_msg_set_id query c₁.next_id
      bytes ← read_bytes size query'
      (err', c₃) ← send os size bytes err c₂
      done (c₁.next_id, err', query', record c₃ { tail_lock = false })
    if free
        then go
        else done (
          0,
          opo_err_set err eagain (text "write failed, busy"),
          query,
          record c₁ { tail_lock = false },
        )

  -- The fuel bounds the naps for the lock.
  unfoldable pub opo_client_query :
      ℕ
      → Os
      → ℕ
      → (ℕ → Client K → Client K)
      → Err
      → Client K
      → Bytes
      → Option K
      → Outcome (ℕ × Err × Bytes × Client K)
  unfolding query_locked
  opo_client_query zero os tries world err c query cb = out_of_fuel
  opo_client_query (suc naps) os tries world err c query cb =
      let again = opo_client_query naps os tries (λ n. world (suc n)) err (world 0 c) query cb in
      if c.tail_lock then again else query_locked os tries world err c query cb
