-- ===== src/Ojc/Spots.antt =====
-- Where `opo_val_to_ojc` meets a value, and `push_parse_value` there.
use opo_c.Prelude.{ℕ, ◌+◌, ◌≡◌, refl, Option, none, some, List, [], ◌∷◌, ◌++◌, length, append_assoc}
use opo_c.Outcome.{done}
use opo_c.Bytes.{Bytes}
use opo_c.Err.{Err}
use opo_c.Val.Access.Read.{read_bytes-append}
use opo_c.Ojc.{OjcType, ojc_array, ojc_object}
use opo_c.Ojc.Parse.{
  Made, Call, OjcVal, StackNode, ParseCtx, create, created, make, push_made, push_parse_value,
}
use opo_c.Ojc.Calls.{Place, top, into_array, into_object, link}

-- Where a value is met: `p` is the container at `cur`, of which the rest of the stack is `s`, and a
-- key is followed by `rest`.
pub data Spot : Type 0 where
  outside : Spot
  in_array : (p stop : ℕ) (s : List StackNode) → Spot
  in_object : (p stop : ℕ) (s : List StackNode) (k rest : Bytes) → Spot

abbrev pub frame : ℕ → OjcType → ℕ → StackNode
frame p type stop = record { val = record { id = p; type = type }; stop = stop }

abbrev pub frames : Spot → List StackNode
frames outside = []
frames (in_array p stop s) = frame p ojc_array stop ∷ s
frames (in_object p stop s k rest) = frame p ojc_object stop ∷ s

abbrev pub place_of : Spot → Place
place_of outside = top
place_of (in_array p stop s) = into_array p
place_of (in_object p stop s k rest) = into_object p k

abbrev pub key_at : Spot → Option Bytes
key_at (in_object p stop s k rest) = some (k ++ rest)
key_at _ = none

abbrev pub klen_at : Spot → ℕ
klen_at (in_object p stop s k rest) = length k
klen_at _ = 0

-- the new `top`
abbrev pub topped : Spot → OjcVal → Option OjcVal → Option OjcVal
topped outside v t = some v
topped _ v t = t

module _ {D : Type 0} where
  abbrev pub context :
      List StackNode → Option Bytes → ℕ → Option OjcVal → ℕ → List (Call D) → ParseCtx D
  context st key klen t n cs = record {
    top = t;
    stack = st;
    key = key;
    klen = klen;
    made = n;
    calls = cs;
  }

  -- before a value at a spot, with `cur` as it should be
  abbrev pub before : Spot → Option OjcVal → ℕ → List (Call D) → ParseCtx D
  before spot t n cs = context (frames spot) (key_at spot) (klen_at spot) t n cs

  pub push_parse_value_lem :
      (m : Made D) (err : Err) (spot : Spot) (t : Option OjcVal) (n : ℕ) (cs : List (Call D))
      → let ctx = before spot t n cs in
        push_parse_value err (make m ctx) (created m ctx)
        ≡ done (
          0,
          err,
          context
              (frames spot)
              none
              0
              (topped spot (created m ctx) t)
              (n + 1)
              (cs ++ (create m ∷ link (place_of spot) n)),
        )
  unfolding push_parse_value
  push_parse_value_lem m err outside t n cs = refl
  push_parse_value_lem m err (in_array p stop s) t n cs = rw append_assoc refl
  push_parse_value_lem m err (in_object p stop s k rest) t n cs =
      rw (read_bytes-append k rest) (rw append_assoc refl)

  pub push_made_lem :
      (m : Made D) (err : Err) (spot : Spot) (t : Option OjcVal) (n : ℕ) (cs : List (Call D))
      (val : Bytes)
      → let ctx = before spot t n cs in
        push_made m err ctx val
        ≡ done (
          err,
          context
              (frames spot)
              none
              0
              (topped spot (created m ctx) t)
              (n + 1)
              (cs ++ (create m ∷ link (place_of spot) n)),
          val,
        )
  unfolding push_made
  push_made_lem m err spot t n cs val = rw (push_parse_value_lem m err spot t n cs) refl
