-- ===== src/Client/Serial.antt =====
-- A run of calls on a client by one thread, which also receives, against two lists of queries.
use opo_c.Prelude.{
  ℕ, zero, suc, ◌+◌, ◌%◌, ◌^◌, ltb, if◌then◌else◌, Option, List, [], ◌∷◌, ◌++◌, length, take, drop,
  false,
}
use opo_c.Outcome.{Outcome, done, ◌>>=◌}
use opo_c.Bytes.{Bytes, fill_uint64}
use opo_c.Err.{Err}
use opo_c.Wire.{Value, encode, IsValid}
use opo_c.Builder.{Heap}
use opo_c.Client.{Query, Client, slot, is_sent}
use opo_c.Client.Send.{Os, opo_client_query}
use opo_c.Client.Receive.{process_msg}
use opo_c.Client.Process.{opo_client_process}
use opo_c.Client.Enqueue.{pending}
use opo_c.Client.Accept.{answered}
use opo_c.Client.Submit.{idle}
use opo_c.Client.Drain.{callbacks}
use opo_c.Client.Calls.{quiet}

-- `opo_client_query` of a message in a larger buffer, the response to the oldest query that
-- waits, and `opo_client_process`.
pub data Call (K : Type 0) : Type 0 where
  submit : ℕ → Value → Bytes → Option K → Call K
  respond : Bytes → Call K
  process : ℕ → Call K

-- what a client promises: `rs` have their responses and `ss` wait
pub record Model (K : Type 0) : Type 0 where
  pub next : ℕ
  pub rs : List (Query K)
  pub ss : List (Query K)
  pub sends : List Bytes
  pub calls : List (K × ℕ × Option Bytes)

module _ {K : Type 0} where
  abbrev pub AllValid : List (Call K) → Type 0
  AllValid [] = Unit
  AllValid (submit old v rest cb ∷ calls) = IsValid v × AllValid calls
  AllValid (respond body ∷ calls) = AllValid calls
  AllValid (process max ∷ calls) = AllValid calls

  -- the response to the first of the list
  abbrev pub respond_first : Bytes → List (Query K) → Model K → Model K
  respond_first body [] m = m
  respond_first body (y ∷ ss) m = record m {
    rs = m.rs ++ (answered (fill_uint64 y.id ++ body) y ∷ []);
    ss = ss;
  }

  -- how many are done at once, where `max` is 0 for any number
  abbrev pub quota : ℕ → List (Query K) → ℕ
  quota zero rs = length rs
  quota (suc n) rs = suc n

  abbrev pub model_step : ℕ → Call K → Model K → Model K
  model_step room (submit old v rest cb) m =
      if ltb (length m.rs + length m.ss) room
      then record m {
        next = (m.next + 1) % 2 ^ 64;
        ss = m.ss ++ (pending m.next cb ∷ []);
        sends = m.sends ++ ((fill_uint64 m.next ++ encode v) ∷ []);
      }
      else m
  model_step room (respond body) m = respond_first body m.ss m
  model_step room (process max) m = record m {
    rs = drop (quota max m.rs) m.rs;
    calls = m.calls ++ callbacks (take (quota max m.rs) m.rs);
  }

  abbrev pub model_run : ℕ → List (Call K) → Model K → Model K
  model_run room [] m = m
  model_run room (x ∷ xs) m = model_run room xs (model_step room x m)

  module _ (heap : Heap) (os : Os) (err : Err) where
    -- The calls of the client. A response comes only where a query waits.
    unfoldable pub step : Call K → Client K → Outcome (Client K)
    unfolding slot
    step (submit old v rest cb) c = do
      (_, _, _, c') ← opo_client_query 1 os 0 idle err c (fill_uint64 old ++ (encode v ++ rest)) cb
      done c'
    step (respond body) c = do
      x ← slot c c.on_deck
      let answer = process_msg heap [] (fill_uint64 x.id ++ body) c
      if is_sent x.state then answer else done c
    step (process max) c = do
      (_, c') ← opo_client_process (c.pending_max + 1) 1 0 (λ n. idle) quiet max false c
      done c'

    unfoldable pub run_calls : List (Call K) → Client K → Outcome (Client K)
    unfolding step
    run_calls [] c = done c
    run_calls (x ∷ xs) c = do c' ← step x c; run_calls xs c'
