-- ===== src/Client.antt =====
-- The client of src/opo/client.c where responses go to the callbacks of their queries: a ring of
-- pending queries between three threads. `tail` is moved by `opo_client_query`, `on_deck` by the
-- receiving thread in `process_msg`, `head` by `opo_client_process`. Pointers into the ring are
-- indices. What the client does to the outside is kept in logs: `written` to the socket, `calls` of
-- query callbacks, `statuses` for the status callback, and `pipe`, the bytes in the pipe that wakes
-- waiting threads. `when` of a query is never read, and is left out. A client with a callback for all
-- queries is in Async.antt, and the receiving thread of both in Recv.antt.
pub mod Receive
pub mod Send
pub mod Process
pub mod Ring
pub mod Enqueue
pub mod Accept
pub mod Submit
pub mod Drain
pub mod Calls
pub mod Count
pub mod Unknown
pub mod Serial
pub mod Stands
pub mod Refine
pub mod Async
pub mod Recv
pub mod Framed
pub mod Cut
pub mod Arrives
pub mod Frames
pub mod Bounded
pub mod Ask
pub mod Answers
pub mod Stream
pub mod Responses
use opo_c.Prelude.{
  ℕ, zero, suc, ◌+◌, ◌-◌, ◌%◌, ◌^◌, ltb, leb, ◌==◌, if◌then◌else◌, ◌||◌, Option, none, some, List,
  [], ◌∷◌, ◌++◌, Bool, true, false, get_elem?, set, replicate,
}
use opo_c.Outcome.{Outcome, done, fault}
use opo_c.Bytes.{Bytes}

pub data QueryState : Type 0 where
  clear sent ready taken : QueryState

abbrev pub is_clear : QueryState → Bool
is_clear clear = true
is_clear _ = false

abbrev pub is_sent : QueryState → Bool
is_sent sent = true
is_sent _ = false

abbrev pub is_ready : QueryState → Bool
is_ready ready = true
is_ready _ = false

-- `struct _Query`; `cb` is the callback with its `ctx`, none for a NULL callback.
pub record Query (K : Type 0) : Type 0 where
  pub id : ℕ
  pub cb : Option K
  pub state : QueryState
  pub resp : Option Bytes

-- `struct _opoClient`; `pending_max` is `end - q`. `has_status` is whether there is a status
-- callback.
pub record Client (K : Type 0) : Type 0 where
  pub q : List (Query K)
  pub pending_max : ℕ
  pub head : ℕ
  pub tail : ℕ
  pub on_deck : ℕ
  pub next_id : ℕ
  pub head_lock : Bool
  pub tail_lock : Bool
  pub waiting : ℕ
  pub wsock : ℕ
  pub has_status : Bool
  pub written : List Bytes
  pub calls : List (K × ℕ × Option Bytes)
  pub statuses : List (ℕ × Bytes)
  pub pipe : ℕ

module _ {K : Type 0} where
  abbrev pub blank : Query K
  blank = record { id = 0; cb = none; state = clear; resp = none }

  -- The ring of `opo_client_connect` after its `memset`, where `pipe` gave the descriptor `wsock`,
  -- or 0. At least one query fits.
  unfoldable pub client_init : ℕ → ℕ → Bool → Client K
  client_init pending_max wsock has_status =
      let size = if ltb pending_max 1 then 1 else pending_max in
      record {
        q = replicate size blank;
        pending_max = size;
        head = 0;
        tail = 0;
        on_deck = 0;
        next_id = 1;
        head_lock = false;
        tail_lock = false;
        waiting = 0;
        wsock = wsock;
        has_status = has_status;
        written = [];
        calls = [];
        statuses = [];
        pipe = 0;
      }

  -- the query in a slot
  unfoldable pub slot : Client K → ℕ → Outcome (Query K)
  slot c i = elim (get_elem? c.q i) [ none ↦ fault | some x ↦ done x ]

  -- `status_callback`, which calls the callback without a test for NULL
  unfoldable pub status_callback : ℕ → Bytes → Client K → Outcome (Client K)
  status_callback code what c =
      if c.has_status
      then done (record c { statuses = c.statuses ++ ((code, what) ∷ []) })
      else fault

  unfoldable pub wake_ready : Client K → Client K
  wake_ready c = if c.wsock == 0 || c.waiting == 0 then c else record c { pipe = c.pipe + 1 }

  unfoldable pub opo_client_pending_count : Client K → ℕ
  opo_client_pending_count c = (c.tail + c.pending_max - c.on_deck) % c.pending_max

  unfoldable pub opo_client_ready_count : Client K → ℕ
  opo_client_ready_count c = (c.on_deck + c.pending_max - c.head) % c.pending_max
