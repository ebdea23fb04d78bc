-- ===== src/Client/Receive.antt =====
-- `pending_find` and `process_msg` of src/opo/client.c, which the receiving thread runs.
use opo_c.Prelude.{
  ℕ, zero, suc, ◌==◌, leb, ◌+◌, ◌&&◌, ◌||◌, if◌then◌else◌, Option, none, some, Bool, false, set,
}
use opo_c.Prelude.Int.{pos, negsuc}
use opo_c.Outcome.{Outcome, done, fault, out_of_fuel, ◌>>=◌}
use opo_c.Bytes.{Bytes}
use opo_c.Err.{opo_err_init, opo_err_not_found, opo_err_too_many, opo_err_lost, text}
use opo_c.Msg.{opo_msg_id, opo_msg_set_id}
use opo_c.Builder.{Builder, Heap, opo_builder_init}
use opo_c.Builder.Push.{opo_builder_push_object, opo_builder_push_int, opo_builder_push_string}
use opo_c.Builder.Finish.{opo_builder_finish, opo_builder_take}
use opo_c.Queue.{next_slot}
use opo_c.Client.{ready, is_sent, Query, Client, slot, status_callback, wake_ready}

-- `set_id` on the block of a builder
unfoldable pub set_head_id : ℕ → Builder → Outcome Builder
set_head_id id b = elim b.head [
  | none ↦ fault
  | some block ↦ do block' ← opo_msg_set_id block id; done (record b { head = some block' })
]

-- The message that stands for a response that never came. `lost_msg` is an array of 1024 bytes that
-- is not initialised; its content is an argument. The codes of the builder's calls are dropped.
unfoldable pub lost_message : Heap → Bytes → ℕ → Outcome (Option Bytes)
unfolding opo_builder_init opo_builder_push_object opo_builder_push_int opo_builder_push_string
    opo_builder_finish opo_builder_take set_head_id
lost_message heap lost_msg id = do
  (_, err, made) ← opo_builder_init heap opo_err_init (some lost_msg) 1024
  elim made [
    | none ↦ fault
    | some b ↦ do
      (_, s₁) ← opo_builder_push_object heap none (err, b)
      (_, s₂) ← opo_builder_push_int heap (pos opo_err_lost) (some (text "code", pos 4)) s₁
      (_, (_, b₃)) ←
          opo_builder_push_string heap (text "no response") (negsuc 0) (some (text "error", pos 5))
            s₂
      b₄ ← opo_builder_finish b₃
      b₅ ← set_head_id id b₄
      (msg, _) ← opo_builder_take heap b₅
      done msg
  ]

module _ {K : Type 0} where
  -- The loop from the slot `q`: none where no pending query has the id. The fuel bounds the slots
  -- that are looked at, and a search goes round at most twice.
  unfoldable pub find_loop : ℕ → Client K → ℕ → ℕ → Bool → Outcome (Option ℕ)
  unfolding slot
  find_loop zero c id q looped = out_of_fuel
  find_loop (suc f) c id q looped =
      let last = leb c.pending_max (q + 1) in
      let next = next_slot c.pending_max q in
      let on = find_loop f c id next (looped || last) in
      let past = if (last && looped) || next == c.tail then done none else on in
      (do x ← slot c q; if x.id == id then done (some q) else past)

  unfoldable pub pending_find : Client K → ℕ → Outcome (Option ℕ)
  unfolding find_loop
  pending_find c id = find_loop (c.pending_max + c.pending_max) c id c.on_deck false

  -- `client->on_deck++`, round the ring
  abbrev pub advance_deck : Client K → Client K
  advance_deck c = record c { on_deck = next_slot c.pending_max c.on_deck }

  abbrev pub put_slot : ℕ → Query K → Client K → Client K
  put_slot i x c = record c { q = set c.q i x }

  -- the response for the query in slot `q`
  unfoldable pub accept : ℕ → Bytes → Client K → Outcome (Client K)
  unfolding slot status_callback wake_ready
  accept q msg c = do
    x ← slot c q
    if is_sent x.state
        then done
            (wake_ready (advance_deck (put_slot q (record x { resp = some msg; state = ready }) c)))
        else status_callback opo_err_too_many (text "Duplicate response to query.") c

  module _ (heap : Heap) (lost_msg : Bytes) where
    -- The query on deck has lost its response: if it has a callback it is given `lost_message`, with
    -- the id of the response that came.
    unfoldable pub lose : ℕ → Client K → Outcome (Client K)
    unfolding slot lost_message
    lose id c = do
      x ← slot c c.on_deck
      elim x.cb [
        | none ↦ done c
        | some k ↦ do
          msg ← lost_message heap lost_msg id
          done (put_slot c.on_deck (record x { resp = msg; state = ready }) c)
      ]

    -- `while (q != client->on_deck)`; the fuel bounds the queries that are passed over.
    unfoldable pub skip_to : ℕ → ℕ → ℕ → Client K → Outcome (Client K)
    unfolding lose
    skip_to zero id q c = if q == c.on_deck then done c else out_of_fuel
    skip_to (suc f) id q c =
        let on = (do c' ← lose id c; skip_to f id q (advance_deck c')) in
        if q == c.on_deck then done c else on

    -- The texts of the reports leave out the id.
    unfoldable pub process_msg : Bytes → Client K → Outcome (Client K)
    unfolding slot status_callback pending_find skip_to accept
    process_msg msg c = do
      id ← opo_msg_id msg
      x ← slot c c.on_deck
      let search = do
        found ← pending_find c id
        elim found [
          | none ↦ status_callback opo_err_not_found (text "Pending query not found.") c
          | some q ↦ do c' ← skip_to c.pending_max id q c; accept q msg c'
        ]
      if id == x.id then accept c.on_deck msg c else search
