-- ===== src/Queue.antt =====
-- The message queue of src/opo/queue.c: a ring of slots with one producer and poppers that take
-- turns by a lock. Slots are indices into `q`; a slot is none for NULL. `malloc` is taken to
-- succeed, as the source does. While a call naps in `dsleep`, other threads change the queue: what
-- they do during each nap is an argument of the call, `world`, a function for each nap.
-- `pipe` counts the bytes that are in the notification pipe.
pub mod Holds
pub mod Ring
pub mod Push
pub mod Pop
pub mod Fifo
pub mod Cleanup
use opo_c.Prelude.{
  ℕ, zero, suc, ◌+◌, ◌-◌, ◌%◌, ◌==◌, ltb, leb, if◌then◌else◌, Option, none, some, List, [], ◌∷◌,
  ◌++◌, Bool, true, false, ◌&&◌, not, get_or, set, replicate,
}
use opo_c.Outcome.{Outcome, done, out_of_fuel}

-- `struct _Queue`; `size` is `end - q`.
pub record Queue (A : Type 0) : Type 0 where
  pub q : List (Option A)
  pub size : ℕ
  pub head : ℕ
  pub tail : ℕ
  pub pop_lock : Bool
  pub wait_state : ℕ
  pub rsock : ℕ
  pub wsock : ℕ
  pub pipe : ℕ

abbrev pub not_waiting : ℕ
not_waiting = 0

abbrev pub waiting : ℕ
waiting = 1

abbrev pub notified : ℕ
notified = 2

-- `p + 1`, and back to the first slot from `end`
abbrev pub next_slot : ℕ → ℕ → ℕ
next_slot size i = if leb size (i + 1) then 0 else i + 1

module _ {A : Type 0} where
  unfoldable pub queue_init : ℕ → Queue A
  queue_init qsize =
      let size = if ltb qsize 4 then 4 else qsize in
      record {
        q = replicate size none;
        size = size;
        head = 0;
        tail = 1;
        pop_lock = false;
        wait_state = 0;
        rsock = 0;
        wsock = 0;
        pipe = 0;
      }

  -- `write(q->wsock, ".", 1)` and the new state, if someone listens
  unfoldable pub notify : Queue A → Queue A
  notify q =
      if not (q.wsock == 0) && (q.wait_state == waiting)
      then record q { pipe = q.pipe + 1; wait_state = notified }
      else q

  -- `*q->tail = item` and the new tail
  unfoldable pub put : Queue A → A → Queue A
  put q item = record q { q = set q.q q.tail (some item); tail = next_slot q.size q.tail }

  -- The loop naps while the queue is full; the fuel bounds the naps.
  unfoldable pub queue_push : ℕ → (ℕ → Queue A → Queue A) → Queue A → A → Outcome (Queue A)
  unfolding notify put
  queue_push zero world q item = out_of_fuel
  queue_push (suc naps) world q item =
      let again = queue_push naps (λ n. world (suc n)) (world 0 q) item in
      if q.head == q.tail then again else done (notify (put q item))

  -- The item of a slot, which is cleared; the lock is given back.
  unfoldable pub take_slot : ℕ → Queue A → Option A × Queue A
  take_slot i q = (get_or q.q i none, record q { q = set q.q i none; head = i; pop_lock = false })

  -- The wait for an item in slot `next`, for at most `cnt` naps.
  unfoldable pub pop_wait : ℕ → (ℕ → Queue A → Queue A) → ℕ → Queue A → Option A × Queue A
  unfolding take_slot
  pop_wait zero world next q =
      if q.tail == next then (none, record q { pop_lock = false }) else take_slot next q
  pop_wait (suc cnt) world next q =
      let again = pop_wait cnt (λ n. world (suc n)) next (world 0 q) in
      if q.tail == next then again else take_slot next q

  -- `queue_pop` once the lock is taken: an item at the head is the answer, or the next one is.
  unfoldable pub pop_locked : ℕ → (ℕ → Queue A → Queue A) → Queue A → Option A × Queue A
  unfolding pop_wait
  pop_locked cnt world q =
      let waited = pop_wait cnt world (next_slot q.size q.head) (record q { pop_lock = true }) in
      elim (get_or q.q q.head none) [
        | some item ↦ (some item, record q { q = set q.q q.head none; pop_lock = false })
        | none ↦ waited
      ]

  -- `cnt` is `(int)(timeout / RETRY_SECS)`, 0 for a negative one. The fuel bounds the naps for the
  -- lock.
  unfoldable pub queue_pop :
      ℕ → ℕ → (ℕ → Queue A → Queue A) → Queue A → Outcome (Option A × Queue A)
  unfolding pop_locked
  queue_pop zero cnt world q = out_of_fuel
  queue_pop (suc naps) cnt world q =
      let again = queue_pop naps cnt (λ n. world (suc n)) (world 0 q) in
      if q.pop_lock then again else done (pop_locked cnt world q)

  unfoldable pub queue_empty : Queue A → Bool
  queue_empty q = elim (get_or q.q q.head none) [
    | some item ↦ false
    | none ↦ q.tail == next_slot q.size q.head
  ]

  -- `(q->tail - q->head + size) % size` on signed numbers that never get below 0
  unfoldable pub queue_count : Queue A → ℕ
  queue_count q = (q.tail + q.size - q.head) % q.size

  -- `queue_listen`, where `fds` is what `pipe()` gives, none if it fails
  unfoldable pub queue_listen : Option (ℕ × ℕ) → Queue A → ℕ × Queue A
  queue_listen fds q =
      let q' : Queue A =
        if q.rsock == 0
        then (elim fds [ some (r, w) ↦ record q { rsock = r; wsock = w; pipe = 0 } | none ↦ q ])
        else q in
      (q'.rsock, record q' { wait_state = waiting })

  -- `queue_release` reads the pipe until it is empty.
  unfoldable pub queue_release : Queue A → Queue A
  queue_release q = record q { pipe = 0; wait_state = not_waiting }

  -- What `queue_cleanup` leaves, and the descriptors that it closes. `q` and `end` are NULL.
  unfoldable pub queue_cleanup : Queue A → Queue A × List ℕ
  queue_cleanup q =
      let written = if ltb 0 q.wsock then q.wsock ∷ [] else [] in
      let read = if ltb 0 q.rsock then q.rsock ∷ [] else [] in
      (record q { q = []; size = 0 }, written ++ read)
