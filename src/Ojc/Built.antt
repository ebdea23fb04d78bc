-- ===== src/Ojc/Built.antt =====
-- `opo_val_to_ojc` and `opo_msg_to_ojc` on the encoding of a value.
use opo_c.Prelude.{
  ℕ, suc, ◌+◌, ◌-◌, ◌<◌, ◌≤◌, ◌≡◌, refl, ap, ◌∙◌, Option, none, some, List, [], ◌++◌, length, arith,
}
use opo_c.Prelude.Int.{ℤ, pos}
use opo_c.Outcome.{Outcome, done, ◌>>=◌}
use opo_c.Bytes.{Bytes}
use opo_c.Err.{Err}
use opo_c.Val.Size.{opo_val_bsize-encode}
use opo_c.Val.Iterate.Cases.{end_after-append}
use opo_c.Ojc.Parse.{Call, OjcVal, ParseCtx, Libs, blank, parse_loop, opo_val_to_ojc}
use opo_c.Ojc.Calls.{top, FromEpoch, Closes, Fits, calls_of, rounds, rounds-le}
use opo_c.Ojc.{Ojc}
use opo_c.Ojc.Reads.{Reads}
use opo_c.Ojc.Spots.{outside}
use opo_c.Ojc.Leaves.{node_of}
use opo_c.Ojc.Turn.{encode-Turns}
use opo_c.Wire.{Value, encode, IsValid}

module _ {D : Type 0} (libs : Libs D) (format : ℤ → ℕ → Bytes)
    (formats : (s f : ℕ)
      → s ≤ 9223372036
      → f < 1000000000
      → libs.format_time s f ≡ some (format (pos s) f)) where
  -- nothing is left before `end`
  at_end :
      (f : ℕ) (err : Err) (ctx : ParseCtx D) (val : Bytes)
      → parse_loop libs (suc f) (length val) err ctx val ≡ done (err, ctx)
  unfolding parse_loop
  at_end f err ctx val = ground arith

  -- what `opo_val_to_ojc` answers with after the loop
  abbrev answer : Err × ParseCtx D → Outcome (Option OjcVal × Err × List (Call D))
  answer (err, ctx) = done (ctx.top, err, ctx.calls)

  loop-encode :
      (fuel : ℕ) (err : Err) (v : Value) (rest : Bytes)
      → err.code ≡ 0
      → IsValid v
      → FromEpoch v
      → Closes v
      → Fits 512 v
      → length (encode v) < fuel
      → (parse_loop libs fuel (length rest) err blank (encode v ++ rest) >>= answer)
        ≡ done (some (node_of libs format formats v 0), err, calls_of libs.strtod format v top 0)
  loop-encode fuel err v rest z h u c d w =
      let (ended, _, _, go) =
        encode-Turns libs format formats v h u c (length rest) rest err outside [] none 0 [] 512
          (omega arith) z refl (omega arith) d in
      let k = fuel - suc (rounds v) in
      let split : fuel ≡ rounds v + suc k = omega (arith, rounds-le v) in
      ap (λ l. l >>= answer)
        (ap (λ n. parse_loop libs n (length rest) err blank (encode v ++ rest)) split
          ∙ go (suc k)
          ∙ at_end k err _ rest)

  -- Whatever follows a valid value without times before 1970 that is at most 512 containers deep,
  -- and in which at most one container ends right before an item and at most two right before a
  -- key, `opo_val_to_ojc` makes the calls of OjC that build the value, in order, and answers with
  -- the value that is created first; the report stays as it was. The report has to be clear before,
  -- `gmtime_r` has to work for the seconds that a 64-bit number of nanoseconds from 1970 on gives,
  -- and fuel for each byte and one more is enough.
  pub opo_val_to_ojc-encode :
      (fuel : ℕ) (err : Err) (v : Value) (rest : Bytes)
      → err.code ≡ 0
      → IsValid v
      → FromEpoch v
      → Closes v
      → Fits 512 v
      → length (encode v) < fuel
      → opo_val_to_ojc libs fuel err (encode v ++ rest)
        ≡ done (some (node_of libs format formats v 0), err, calls_of libs.strtod format v top 0)
  unfolding opo_val_to_ojc
  opo_val_to_ojc-encode fuel err v rest z h u c d w =
      rw (opo_val_bsize-encode v rest h, end_after-append (encode v) rest)
        (loop-encode fuel err v rest z h u c d w)
