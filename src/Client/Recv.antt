-- ===== src/Client/Recv.antt =====
-- `recv_loop` of src/opo/client.c, the thread that cuts the bytes from the socket into messages.
-- What it touches of the client besides the socket it touches by handing messages over, to
-- `process_msg` or to `queue_push`. `W` is the world outside, which answers `poll` and `recv`.
use opo_c.Prelude.{
  ℕ, zero, suc, ◌+◌, ◌-◌, ◌==◌, ltb, leb, if◌then◌else◌, Option, none, some, List, [], ◌∷◌, ◌++◌,
  Bool, true, false, ◌&&◌, ◌||◌, length, take, drop,
}
use opo_c.Outcome.{Outcome, done, out_of_fuel, ◌>>=◌}
use opo_c.Bytes.{Bytes}
use opo_c.Err.{opo_err_ok, opo_err_memory, opo_err_read, text}
use opo_c.Msg.{opo_msg_bsize}
use opo_c.Builder.{Heap}
use opo_c.Queue.{Queue, queue_push}
use opo_c.Client.{Client}
use opo_c.Client.Send.{eagain}
use opo_c.Client.Async.{Async}
use opo_c.Client.Receive.{process_msg}

-- `revents` of `poll` as far as it is looked at, or the value of `errno`
pub data Poll : Type 0 where
  poll_error : ℕ → Poll
  poll_none : Poll
  poll_events : (pollin err hup nval : Bool) → Poll

-- What the loop reads from outside: `client->active`, which other threads clear, `errno`, whether
-- `malloc` has a block of a size, `poll` on a descriptor, and `recv` of at most so many bytes,
-- none for an error. No bytes stand for the end of the connection.
pub record Net (W : Type 0) : Type 0 where
  pub active : W → Bool
  pub errno : W → ℕ
  pub malloc : W → ℕ → Bool
  pub poll : ℕ → W → Poll × W
  pub recv : ℕ → ℕ → W → Option Bytes × W

-- The variables of the loop. `buf` holds the `bcnt` bytes that are left over, and `msg` is
-- `msize` with the `mcnt` bytes of the message that have come. `handed` messages have been handed
-- over to the rest of the client, `shared`. `statuses` are the calls of the status callback.
pub record Recv (S : Type 0) : Type 0 where
  pub sock : ℕ
  pub buf : Bytes
  pub msg : Option (ℕ × Bytes)
  pub handed : ℕ
  pub shared : S
  pub has_status : Bool
  pub statuses : List (Bool × ℕ × Bytes)

-- `sizeof(buf)`
abbrev pub buf_size : ℕ
buf_size = 4096

-- `hand_over n` is for the message after `n` others. Between these, other threads may change
-- `shared`.
module _ {W S : Type 0} (net : Net W) (hand_over : ℕ → Bytes → S → Outcome S) where
  -- `client->status_callback`, if there is one. The texts leave out the size and `strerror`.
  unfoldable pub report : Bool → ℕ → Bytes → Recv S → Recv S
  report connected code what r =
      if r.has_status
      then record r { statuses = r.statuses ++ ((connected, code, what) ∷ []) }
      else r

  -- a complete message, after which there is none
  unfoldable pub deliver : Bytes → Recv S → Outcome (Recv S)
  deliver msg r = do
    s ← hand_over r.handed msg r.shared
    done (record r { msg = none; handed = r.handed + 1; shared = s })

  -- `while (13 <= bcnt)`; the fuel bounds the messages.
  unfoldable pub cut_loop : ℕ → W → Recv S → Outcome (Recv S)
  unfolding report deliver
  cut_loop zero w r = out_of_fuel
  cut_loop (suc f) w r =
      let cut = do
        size ← opo_msg_bsize r.buf
        let whole = do
          r' ← deliver (take size r.buf) (record r { buf = drop size r.buf })
          cut_loop f w r'
        let part = cut_loop f w (record r { msg = some (size, r.buf); buf = [] })
        let failed =
            done (report true opo_err_memory (text "failed to allocate memory for message.") r)
        if net.malloc w size then (if leb size (length r.buf) then whole else part) else failed
      in if leb 13 (length r.buf) then cut else done r

  -- bytes for `buf`; each message takes eight of them at least
  unfoldable pub read_buf : W → Recv S → Outcome (W × Recv S)
  unfolding report cut_loop
  read_buf w r =
      let (answer, w') = net.recv r.sock (buf_size - length r.buf) w in
      let closed =
        if net.active w' && ltb 0 r.sock
        then report false opo_err_read (text "connection closed") r
        else r in
      let failed =
        if net.active w' then report false (net.errno w') (text "read failed") r else r in
      elim answer [
        | none ↦ done (w', failed)
        | some [] ↦ done (w', record closed { sock = 0 })
        | some (x ∷ xs) ↦ do
          r' ←
              cut_loop (suc (length r.buf + length (x ∷ xs))) w'
                (record r { buf = r.buf ++ (x ∷ xs) })
          done (w', r')
      ]

  -- bytes for the message of `msize` bytes of which `got` have come
  unfoldable pub read_msg : ℕ → Bytes → W → Recv S → Outcome (W × Recv S)
  unfolding report deliver
  read_msg msize got w r =
      let (answer, w') = net.recv r.sock (msize - length got) w in
      elim answer [
        | none ↦
            done (w', record (report false (net.errno w') (text "read failed.") r) { sock = 0 })
        | some bytes ↦
            let whole = (do r' ← deliver (got ++ bytes) r; done (w', r')) in
            if msize == length (got ++ bytes)
            then whole
            else done (w', record r { msg = some (msize, got ++ bytes) })
      ]

  -- `if (0 != (pa->revents & POLLIN))`
  unfoldable pub read_in : W → Recv S → Outcome (W × Recv S)
  unfolding read_buf read_msg
  read_in w r = elim r.msg [ none ↦ read_buf w r | some (msize, got) ↦ read_msg msize got w r ]

  abbrev pub is_none : Option (ℕ × Bytes) → Bool
  is_none none = true
  is_none (some m) = false

  -- `if (0 != (pa->revents & (POLLERR | POLLHUP | POLLNVAL)))`, where `hup` is POLLHUP or POLLNVAL
  unfoldable pub hang_up : Bool → W → Recv S → Recv S
  unfolding report
  hang_up hup w r =
      let r' =
        if length r.buf == 0 && is_none r.msg
        then (if net.active w then report false opo_err_ok (text "connection closed") r else r)
        else if hup
        then report false opo_err_read (text "closed with outstanding responses") r
        else report false (net.errno w) (text "socket error.") r in
      record r' { sock = 0 }

  -- what `poll` found; the answer is whether the loop goes on
  unfoldable pub polled_case : Poll → W → Recv S → Outcome (Bool × W × Recv S)
  unfolding report read_in hang_up
  polled_case (poll_error e) w r =
      if e == eagain
      then done (true, w, r)
      else done (false, w, report false e (text "connection polling error") r)
  polled_case poll_none w r = done (true, w, r)
  polled_case (poll_events pollin err hup nval) w r =
      let read = read_in w r in
      do
        (w', r') ← (if pollin then read else done (w, r))
        done (true, w', (if err || (hup || nval) then hang_up (hup || nval) w' r' else r'))

  unfoldable pub recv_round : W → Recv S → Outcome (Bool × W × Recv S)
  unfolding polled_case
  recv_round w r = let (polled, w') = net.poll r.sock w in polled_case polled w' r

  -- the first rounds of `while (client->active)`
  unfoldable pub recv_loop : ℕ → W → Recv S → Outcome (W × Recv S)
  unfolding recv_round
  recv_loop zero w r = done (w, r)
  recv_loop (suc n) w r =
      let round = do
        (on, w', r') ← recv_round w r
        let rest = recv_loop n w' r'
        if on then rest else done (w', r')
      in if net.active w then round else done (w, r)

-- The client, of which one half is used. `others n` is what other threads do to them before the
-- message after `n` others, and `naps` and `world` are for the call of `queue_push`.
module _ {K : Type 0} (heap : Heap) (lost_msg : Bytes) (has_query_callback : Bool)
    (others : ℕ → Client K × Async → Client K × Async) (naps : ℕ)
    (world : ℕ → Queue Bytes → Queue Bytes) where
  unfoldable pub hand_over : ℕ → Bytes → Client K × Async → Outcome (Client K × Async)
  unfolding process_msg queue_push
  hand_over n msg s =
      let (c, a) = others n s in
      let push = (do
        q ← queue_push naps world a.async_queue msg
        done (c, record a { async_queue = q })) in
      let process = (do c' ← process_msg heap lost_msg msg c; done (c', a)) in
      if has_query_callback then push else process
