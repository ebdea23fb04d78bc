-- ===== src/Tests/Builder.antt =====
-- Runs of the builder.
use opo_c.Prelude.{
  ℕ, ◌≡◌, refl, sym, ap, ◌∙◌, none, some, [], ◌∷◌, ◌++◌, true, false, length, replicate,
  length-replicate, arith, Option, ◌<◌,
}
use opo_c.Outcome.{done, ◌>>=◌}
use opo_c.Bytes.{Bytes, fill_uint32}
use opo_c.Err.{opo_err_set, opo_err_ok, opo_err_arg, text}
use opo_c.Val.{tag, val_array, val_obj, val_null, val_true}
use opo_c.Wire.{encode}
use opo_c.Builder.{Builder, Heap, builder_assure}
use opo_c.Builder.Push.{byte_at, opo_builder_pop}
use opo_c.Builder.Finish.{opo_builder_finish, opo_builder_take, opo_builder_cleanup}
use opo_c.Builder.Script.{Within, script}
use opo_c.Builder.Room.{at}
use opo_c.Builder.Nest.{opo_builder_pop-frame, frame}
use opo_c.Builder.Message.{build, build-encode, build-own}
use opo_c.Builder.Reject.{unkeyed_in, script-Misplaced}
use opo_c.Builder.Grow.{builder_assure-grow}
use opo_c.Builder.Fill.{fill_uuid}
use opo_c.Builder.Slot.{with_nul}
use opo_c.Builder.Uuid.{fill_uuid-opo_val_uuid_str}
use opo_c.Val.Access.{opo_val_uuid_str}
use opo_c.Wire.{uuid}
use opo_c.Builder.Unwind.{pops, opo_builder_finish-pops, opo_builder_cleanup-take}
use opo_c.Tests.Samples.{no_err, sample, sample-IsValid, length-sample, junk}

abbrev pub zeros : ℕ → Option Bytes
zeros n = some (replicate n 0)

none-zeros : (n : ℕ) {b : Bytes} → none ≡ some b → length b ≡ n
none-zeros n e = cc

pub length-zeros : (n : ℕ) {b : Bytes} → zeros n ≡ some b → length b ≡ n
length-zeros n {b = b} e =
    let h : replicate n 0 ≡ b = cc in ap (λ x. length x) (sym h) ∙ length-replicate n 0

abbrev pub heap : Heap
heap = record { malloc = zeros; length-malloc = length-zeros }

abbrev empty_heap : Heap
empty_heap = record { malloc = λ n. none; length-malloc = none-zeros }

pub sample-Within : Within 512 sample
sample-Within = omega arith

build-encode_example :
    build heap no_err (some (replicate 64 7)) 64 sample
    ≡ done (some (replicate 8 0 ++ encode sample))
build-encode_example =
    build-encode heap no_err (replicate 64 7) 64 sample sample-IsValid sample-Within
      (omega (arith, length-sample)) refl

build-own_example :
    (rest : Bytes) × (build heap no_err none 64 sample
      ≡ done (some ((replicate 8 0 ++ encode sample) ++ rest)))
build-own_example =
    build-own heap no_err 64 sample sample-IsValid sample-Within (omega (arith, length-sample)) refl

-- an array behind the eight bytes of the id
abbrev open_array : Bytes
open_array = replicate 8 0 ++ (tag val_array ∷ replicate 4 0)

-- two members, and the gap before them
abbrev gap : Bytes
gap = 1 ∷ 2 ∷ 3 ∷ 4 ∷ []

abbrev members : Bytes
members = tag val_null ∷ tag val_true ∷ []

opo_builder_pop-frame_example :
    opo_builder_pop
      (no_err, at true (8 ∷ []) (replicate 8 0 ++ (tag val_array ∷ (gap ++ members))) junk)
    ≡ done (opo_err_ok, (no_err, at true [] (replicate 8 0 ++ frame (tag val_array) members) junk))
opo_builder_pop-frame_example =
    opo_builder_pop-frame true [] no_err (replicate 8 0) gap members junk (tag val_array) refl
      (omega arith)

-- in an open object, no key
abbrev in_object : Builder
in_object = at true (8 ∷ []) (replicate 8 0 ++ (tag val_obj ∷ gap)) junk

at_eight : byte_at in_object 8 ≡ done (tag val_obj)
unfolding byte_at
at_eight = refl

script-Misplaced_example :
    script heap sample none (no_err, in_object)
    ≡ done (
      opo_err_arg,
      (opo_err_set no_err opo_err_arg (text "members of an object must be keyed"), in_object),
    )
script-Misplaced_example =
    script-Misplaced heap no_err sample
      (unkeyed_in {b = in_object} {x = tag val_obj} refl at_eight refl) (omega arith)

builder_assure-grow_example :
    (free : Bytes) × (builder_assure heap 9 (no_err, at true [] open_array junk)
      ≡ done (opo_err_ok, (no_err, at true [] open_array free)))
    × (9 < length free)
builder_assure-grow_example =
    builder_assure-grow heap [] no_err 9 open_array junk (omega arith) (omega arith) refl

-- what was written to a block of the caller's is not in the block that replaces it
written_lost :
    builder_assure heap 9 (no_err, at false [] open_array junk)
    ≡ done (
      opo_err_ok,
      (no_err, record (at false [] open_array junk) { head = some (replicate 4120 0) }),
    )
unfolding builder_assure
written_lost = refl

opo_builder_finish-pops_example :
    (opo_builder_finish in_object >>= λ b. done (opo_err_ok, (no_err, b)))
    ≡ pops 1 (no_err, in_object)
opo_builder_finish-pops_example = opo_builder_finish-pops no_err in_object

-- an open array in a block of the builder's own, and after `opo_builder_take`
abbrev owned : Builder
owned = at true (8 ∷ []) open_array []

abbrev left : Builder
left = record { head = none; cur = 0; own = true; stack = [] }

take_owned : opo_builder_take heap owned ≡ done (some open_array, left)
unfolding opo_builder_take fill_uint32
take_owned = refl

opo_builder_cleanup-take_example : opo_builder_cleanup left ≡ none
opo_builder_cleanup-take_example =
    opo_builder_cleanup-take heap owned left (some open_array) take_owned

fill_uuid-opo_val_uuid_str_example :
    (opo_val_uuid_str no_err (some (encode (uuid 0x123e4567e89b12d3 0xa456426655440000) ++ junk)) []
      >>= λ r. fill_uuid (with_nul r.0))
    ≡ done (encode (uuid 0x123e4567e89b12d3 0xa456426655440000))
fill_uuid-opo_val_uuid_str_example =
    fill_uuid-opo_val_uuid_str no_err 0x123e4567e89b12d3 0xa456426655440000 junk [] (omega arith)
