-- ===== src/Ojc/Leaves.antt =====
-- The values that are no containers, each in one round of `opo_val_to_ojc`.
use opo_c.Prelude.{
  ℕ, ◌<◌, ◌+◌, ◌≤◌, ◌≡◌, refl, sym, ap, ◌∙◌, Option, some, List, [], ◌∷◌, ◌++◌, length, append-nil,
  arith,
}
use opo_c.Prelude.Int.{ℤ, pos}
use opo_c.Bytes.{Bytes}
use opo_c.Err.{Err}
use opo_c.Ojc.Parse.{Call, OjcVal, StackNode, Libs, create, type_of, pop_ended, parse_loop}
use opo_c.Ojc.Calls.{made_of, link, FromEpoch, size, calls_in, calls_of, ends, Fits, rounds}
use opo_c.Ojc.Spots.{
  Spot, frames, place_of, key_at, klen_at, topped, context, before, push_made_lem,
}
use opo_c.Ojc.Rounds.{IsLeaf, first_case-leaf}
use opo_c.Wire.{
  Value, null, boolean, fixnum, string, decimal, uuid, time, array, object, encode, IsValid,
}
use opo_c.Wire.Sizes.{length-encode_pos}
use opo_c.Ojc.Turned.{one_round, Turned, same_end, behind}

module _ {D : Type 0} (libs : Libs D) (format : ℤ → ℕ → Bytes)
    (formats : (s f : ℕ)
      → s ≤ 9223372036
      → f < 1000000000
      → libs.format_time s f ≡ some (format (pos s) f)) where
  leaf_facts :
      (v : Value) (n : ℕ)
      → IsLeaf v
      → (rounds v ≡ 1) × (size v ≡ 1) × (ends v ≡ 0) × (calls_in libs.strtod format v n ≡ [])
  unfolding calls_in
  leaf_facts (array xs) n l = absurd l
  leaf_facts (object fs) n l = absurd l
  leaf_facts null n l = (refl, refl, refl, refl)
  leaf_facts (boolean b) n l = (refl, refl, refl, refl)
  leaf_facts (fixnum i) n l = (refl, refl, refl, refl)
  leaf_facts (string t) n l = (refl, refl, refl, refl)
  leaf_facts (decimal t) n l = (refl, refl, refl, refl)
  leaf_facts (uuid hi lo) n l = (refl, refl, refl, refl)
  leaf_facts (time t) n l = (refl, refl, refl, refl)

  abbrev pub node_of : Value → ℕ → OjcVal
  node_of v n = record { id = n; type = type_of (made_of libs.strtod format v) }

  -- the calls for a value at a spot, after `cs`
  abbrev pub calls_at : List (Call D) → Value → Spot → ℕ → List (Call D)
  calls_at cs v spot n = cs ++ calls_of libs.strtod format v (place_of spot) n

  abbrev pub Turns : Value → Type 0
  Turns v =
      (stop : ℕ) (tail : Bytes) (err : Err) (spot : Spot) (st : List StackNode) (t : Option OjcVal)
      (n : ℕ) (cs : List (Call D)) (d : ℕ)
      → stop ≤ length tail
      → err.code ≡ 0
      → pop_ended (length (encode v ++ tail)) st ≡ frames spot
      → length (frames spot) + d ≤ 512
      → Fits d v
      → Turned libs format formats (rounds v) (ends v) stop (encode v) tail err
          (context st (key_at spot) (klen_at spot) t n cs) (frames spot)
          (topped spot (node_of v n) t) (n + size v) (calls_at cs v spot n)

  pub leaf-Turns : (v : Value) → IsLeaf v → IsValid v → FromEpoch v → Turns v
  leaf-Turns v l h u stop tail err spot st t n cs d q z p b fits =
      let (r, s, e, c) = leaf_facts v n l in
      let m = made_of libs.strtod format v in
      (
        [],
        sym e,
        tt,
        λ f.
            ap
              (λ w.
                parse_loop libs w stop err (context st (key_at spot) (klen_at spot) t n cs)
                  (encode v ++ tail))
              (omega (arith, r))
            ∙ one_round libs format formats f stop err st (frames spot) (key_at spot) (klen_at spot)
                t n cs (encode v ++ tail) tail _
                (behind libs format formats (encode v) tail stop (length-encode_pos v) q) z p
                (first_case-leaf libs format formats err (before spot t n cs) tail v l h u
                  ∙ push_made_lem m err spot t n cs tail)
            ∙ same_end libs format formats f stop err (topped spot (node_of v n) t) tail _ _ _ _ _ _
                refl (omega (arith, s))
                (ap (λ x. cs ++ (create m ∷ x))
                  (sym (append-nil (link (place_of spot) n))
                    ∙ ap (λ x. link (place_of spot) n ++ x) (sym c))),
      )
