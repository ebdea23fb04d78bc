-- ===== src/Client/Submit.antt =====
-- `opo_client_query` with a free slot at the tail, and without.
use opo_c.Prelude.{
  ℕ, zero, suc, ◌+◌, ◌<◌, ◌≡◌, ◌==◌, refl, sym, ap, ◌∙◌, Option, some, none, List, true, false, [],
  ◌∷◌, ◌++◌, length, get_elem?, arith, take, append_assoc,
}
use opo_c.Bytes.{Bytes, fill_uint64}
use opo_c.Outcome.{done}
use opo_c.Err.{Err, opo_err_set, text}
use opo_c.Queue.Holds.{place}
use opo_c.Queue.Ring.{place-zero, place-round}
use opo_c.Msg.Id.{set_id-lem, opo_msg_bsize-encode}
use opo_c.Val.Access.{read_bytes}
use opo_c.Val.Access.Read.{read_bytes-append}
use opo_c.Wire.{Value, encode, IsValid}
use opo_c.Client.{clear, Query, Client, slot, is_clear}
use opo_c.Client.Send.{Os, wait_clear, eagain, send, opo_client_query}
use opo_c.Client.Ring.{Ring, Ring-logs}
use opo_c.Client.Enqueue.{pending, enqueued, enqueue_lem, enqueued-Ring}

take-length : {A : Type 0} (xs : List A) → take (length xs) xs ≡ xs
take-length [] = refl
take-length (x ∷ xs) = ap (λ l. x ∷ l) (take-length xs)

length-fill_uint64 : (id : ℕ) → length (fill_uint64 id) ≡ 8
unfolding fill_uint64
length-fill_uint64 id = refl

pub length-message : (id : ℕ) (s : Bytes) → length s + 8 ≡ length (fill_uint64 id ++ s)
unfolding fill_uint64
length-message id s = omega arith

pub read-message :
    (id : ℕ) (s rest : Bytes)
    → read_bytes (length s + 8) (fill_uint64 id ++ (s ++ rest)) ≡ done (fill_uint64 id ++ s)
read-message id s rest =
    ap (λ n. read_bytes n (fill_uint64 id ++ (s ++ rest))) (length-message id s)
    ∙ ap (read_bytes (length (fill_uint64 id ++ s))) (sym (append_assoc (fill_uint64 id) s rest))
    ∙ read_bytes-append (fill_uint64 id ++ s) rest

module _ {K : Type 0} where
  -- the slot at the tail, where one is free
  tail-free :
      (c : Client K) (rs ss : List (Query K))
      → Ring c rs ss
      → length rs + length ss < c.pending_max
      → (x : Query K) × (get_elem? c.q c.tail ≡ some x) × (x.state ≡ clear) × (x.resp ≡ none)
  tail-free c rs ss h r =
      let (x, e, s, n) = h.free (length rs + length ss) (omega arith) r in
      (x, ap (get_elem? c.q) h.tail_at ∙ e, s, n)

  -- where the slot at the tail is free there is no nap
  wait_clear-free :
      (tries : ℕ) (world : ℕ → Client K → Client K) (c : Client K) (x : Query K)
      → get_elem? c.q c.tail ≡ some x
      → x.state ≡ clear
      → wait_clear tries world c ≡ done (true, c)
  unfolding wait_clear
  wait_clear-free zero world c x e s = rw (slot, e) (rw s refl)
  wait_clear-free (suc tries) world c x e s = rw (slot, e) (rw s refl)

  -- the client after a query was sent
  abbrev pub submitted : Option K → Bytes → Client K → Client K
  submitted cb msg c = record (enqueued cb c) {
    tail_lock = false;
    written = c.written ++ (msg ∷ []);
  }

  send_lem :
      (os : Os) (bytes : Bytes) (err : Err) (c : Client K) (size : ℕ)
      → size ≡ length bytes
      → os.write bytes ≡ some (length bytes)
      → send os size bytes err c ≡ done (err, record c { written = c.written ++ (bytes ∷ []) })
  unfolding send
  send_lem os bytes err c size l e =
      rw (send, e, l) (rw (self (length bytes), take-length bytes) refl)
    where
      self : (n : ℕ) → (n == n) ≡ true
      self n = ground arith

  -- Where the ring has room, `opo_client_query` of a valid message answers with the next id and
  -- writes exactly that message with the id set, and the query is the last of those that wait.
  pub opo_client_query-room :
      (naps tries : ℕ) (world : ℕ → Client K → Client K) (os : Os) (err : Err) (c : Client K)
      (rs ss : List (Query K)) (old : ℕ) (v : Value) (rest : Bytes) (cb : Option K)
      → Ring c rs ss
      → length rs + length ss < c.pending_max
      → IsValid v
      → let msg = fill_uint64 c.next_id ++ encode v in
        os.write msg ≡ some (length msg)
        → (opo_client_query
              (suc naps)
              os
              tries
              world
              err
              c
              (fill_uint64 old ++ (encode v ++ rest))
              cb
            ≡ done
                (c.next_id, err, fill_uint64 c.next_id ++ (encode v ++ rest), submitted cb msg c))
          × Ring (submitted cb msg c) rs (ss ++ (pending c.next_id cb ∷ []))
  unfolding opo_client_query
  opo_client_query-room naps tries world os err c rs ss old v rest cb h r ok w = (
    rw
        (
          h.unlocked.1,
          opo_msg_bsize-encode old v rest ok,
          wait_clear-free tries world (record c { tail_lock = true }) x e s,
          enqueue_lem (record c { tail_lock = true }) cb x e n,
          set_id-lem (fill_uint64 old) (encode v ++ rest) c.next_id (length-fill_uint64 old),
        )
        (rw
          (
            read-message c.next_id (encode v) rest,
            send_lem os (fill_uint64 c.next_id ++ encode v) err
                (enqueued cb (record c { tail_lock = true })) (length (encode v) + 8)
                (length-message c.next_id (encode v)) w,
          )
          refl),
    Ring-logs _ rs _ _ _ c.head_lock (enqueued-Ring c rs ss cb h r) h.unlocked.0,
  )
    where
      open_slot :
          (x : Query K) × (get_elem? c.q c.tail ≡ some x) × (x.state ≡ clear) × (x.resp ≡ none)
      open_slot = tail-free c rs ss h r

      x : Query K
      x = open_slot.0

      e : get_elem? c.q c.tail ≡ some x
      e = open_slot.1

      s : x.state ≡ clear
      s = open_slot.2

      n : x.resp ≡ none
      n = open_slot.3

  -- A ring that is not empty has a query at its head.
  pub busy-head :
      (c : Client K) (rs ss : List (Query K))
      → Ring c rs ss
      → 0 < length rs + length ss
      → (x : Query K) × (get_elem? c.q c.head ≡ some x) × (is_clear x.state ≡ false)
  busy-head c [] [] h r = absurd (omega arith)
  busy-head c [] (x ∷ ss) h r =
      (x, ap (get_elem? c.q) (sym (place-zero _ _ h.head_in)) ∙ h.slots 0 r, rw h.all_sent.0 refl)
  busy-head c (x ∷ rs) ss h r =
      (x, ap (get_elem? c.q) (sym (place-zero _ _ h.head_in)) ∙ h.slots 0 r, rw h.all_ready.0 refl)

  -- no other thread acts
  abbrev pub idle : ℕ → Client K → Client K
  idle n c = c

  wait_clear-busy :
      (tries : ℕ) (c : Client K) (x : Query K)
      → get_elem? c.q c.tail ≡ some x
      → is_clear x.state ≡ false
      → wait_clear tries idle c ≡ done (false, c)
  unfolding wait_clear
  wait_clear-busy zero c x e s = rw (slot, e) (rw s refl)
  wait_clear-busy (suc tries) c x e s = rw (slot, e) (rw s (wait_clear-busy tries c x e s))

  -- Where the ring is full and no other thread acts, `opo_client_query` answers 0 once the time is up
  -- and reports that it is busy; nothing is written, and the message and the client are as before.
  pub opo_client_query-busy :
      (naps tries : ℕ) (os : Os) (err : Err) (c : Client K) (rs ss : List (Query K)) (old : ℕ)
      (v : Value) (rest : Bytes) (cb : Option K)
      → Ring c rs ss
      → length rs + length ss ≡ c.pending_max
      → IsValid v
      → let query = fill_uint64 old ++ (encode v ++ rest) in
        opo_client_query (suc naps) os tries idle err c query cb
        ≡ done (0, opo_err_set err eagain (text "write failed, busy"), query, c)
  unfolding opo_client_query
  opo_client_query-busy naps tries os err c rs ss old v rest cb h full ok =
      let (x, e, s) = busy-head c rs ss h (omega (arith, h.head_in)) in
      let at_tail : c.tail ≡ c.head =
        h.tail_at ∙ ap (place c.pending_max c.head) full ∙ place-round _ _ h.head_in in
      let locked : Client K = record c { tail_lock = true } in
      rw
        (
          h.unlocked.1,
          opo_msg_bsize-encode old v rest ok,
          wait_clear-busy tries locked x (ap (get_elem? c.q) at_tail ∙ e) s,
        )
        refl
