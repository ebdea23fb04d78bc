-- ===== src/Tests/Parse.antt =====
-- A document that comes back from its message, and arrays that `opo_val_to_ojc` misplaces.
use opo_c.Prelude.{ℕ, ◌==◌, ◌&&◌, if◌then◌else◌, ◌≡◌, refl, some, [], ◌∷◌, ◌++◌, true, arith}
use opo_c.Prelude.Int.{ℤ, pos, negsuc, to_word, of_word}
use opo_c.Outcome.{done}
use opo_c.Bytes.{Bytes, read_uint32}
use opo_c.Val.{opo_val_bsize}
use opo_c.Val.Iterate.{end_after}
use opo_c.Err.{text}
use opo_c.Wire.{array, fixnum, no_items, item, encode, encode_int, be}
use opo_c.Ojc.{ojc_object, ojc_array}
use opo_c.Ojc.Parse.{Made, create, append, nappend, OjcVal, Libs, opo_val_to_ojc}
use opo_c.Ojc.Calls.{calls_in}
use opo_c.Ojc.Built.{opo_val_to_ojc-encode}
use opo_c.Tests.Samples.{no_err, junk, sample, sample-IsValid, length-sample}
use opo_c.Tests.Ojc.{time_string}

-- the text of one time, and one for all others
abbrev clock : ℤ → ℕ → Bytes
clock (pos s) n = if (s == 1489504166) && (n == 535897932) then time_string else text "another time"
clock (negsuc s) n = text "before 1970"

-- a `strtod` that keeps the text, and a `gmtime_r` that goes by the clock
abbrev libs : Libs Bytes
libs = record { strtod = λ s. s; format_time = λ s n. some (clock (pos s) n); ojc_parse_err = 15 }

abbrev object₀ : OjcVal
object₀ = record { id = 0; type = ojc_object }

-- the object, 300 as "id", an array as "tags", and its items
opo_val_to_ojc-encode_example :
    opo_val_to_ojc libs 33 no_err (encode sample ++ junk)
    ≡ done (
      some object₀,
      no_err,
      create Made.object
          ∷ create (Made.int (pos 300))
          ∷ nappend 0 (text "id") 1
          ∷ create Made.array
          ∷ nappend 0 (text "tags") 2
          ∷ create (Made.str (text "a"))
          ∷ append 2 3
          ∷ create (Made.boolean true)
          ∷ append 2 4
          ∷ create (Made.int (negsuc 1))
          ∷ append 2 5
          ∷ [],
    )
unfolding calls_in
opo_val_to_ojc-encode_example =
    opo_val_to_ojc-encode libs clock (λ s f p q. refl) 33 no_err sample junk refl sample-IsValid
      (omega arith) (omega arith) (omega arith) (omega (arith, length-sample))

-- In [[[1]], 2], two containers end before the 2 and one of them is popped, so that the 2 is
-- appended to the array that it stands behind.
misplaced :
    opo_val_to_ojc libs 20 no_err (
      encode (
        array (
          item
            (array (item (array (item (fixnum (pos 1)) no_items)) no_items))
            (item (fixnum (pos 2)) no_items))))
    ≡ done (
      some (record { id = 0; type = ojc_array }),
      no_err,
      create Made.array
          ∷ create Made.array
          ∷ append 0 1
          ∷ create Made.array
          ∷ append 1 2
          ∷ create (Made.int (pos 1))
          ∷ append 2 3
          ∷ create (Made.int (pos 2))
          ∷ append 1 4
          ∷ [],
    )
unfolding opo_val_to_ojc encode encode_int to_word be opo_val_bsize read_uint32 end_after of_word
misplaced = refl
