-- ===== src/Tests/Iterate.antt =====
-- A run of `opo_val_iterate` with callbacks that keep a log.
use opo_c.Prelude.{
  ℕ, Option, length, ◌≡◌, some, none, Bool, true, false, List, [], ◌∷◌, ◌++◌, arith, take,
  replicate, refl,
}
use opo_c.Prelude.Int.{ℤ, pos, negsuc, to_word, of_word}
use opo_c.Outcome.{done, ◌>>=◌}
use opo_c.Bytes.{Bytes, skip, read_uint32, read_uint64}
use opo_c.Err.{text}
use opo_c.Val.Iterate.{
  Callback, Callbacks, Libc, opo_val_iterate, end_after, val_iterate, iterate_case, container_case,
  uuid_case, uuid_call, time_case, time_call, seconds, fraction,
}
use opo_c.Val.{switch}
use opo_c.Val.Iterate.Visit.{visit}
use opo_c.Val.Iterate.Trace.{opo_val_iterate-encode}
use opo_c.Wire.{
  Value, uuid, time, array, no_items, item, encode, encode_int, encode_string, encode_key, be,
  IsValid,
}
use opo_c.Builder.Script.{Within}
use opo_c.Val.Access.{uuid_text}
use opo_c.Builder.Message.{build}
use opo_c.Builder.Iterate.{receive, receive-build}
use opo_c.Tests.Builder.{heap}
use opo_c.Tests.Samples.{no_err, sample, junk}

data Event : Type 0 where
  begin_object end_object begin_array end_array null : Event
  halves : ℕ → ℕ → Event
  nsec : ℤ → Event
  key string uuid_str time_str : Bytes → Event
  boolean : Bool → Event
  fixnum : ℤ → Event
  decimal : Bytes → Event

abbrev log : Event → Callback (List Event)
log e (err, events) = (true, (err, events ++ (e ∷ [])))

abbrev cut : Bytes → ℤ → Bytes
cut s (pos n) = take n s
cut s (negsuc n) = []

abbrev logger : Callbacks (List Event) Bytes
logger = record {
  begin_object = some (log begin_object);
  end_object = some (log end_object);
  key = some (λ s n. log (key (cut s n)));
  begin_array = some (log begin_array);
  end_array = some (log end_array);
  null = some (log null);
  boolean = some (λ b. log (boolean b));
  fixnum = some (λ i. log (fixnum i));
  decimal = some (λ d. log (decimal d));
  string = some (λ s n. log (string (cut s n)));
  uuid = some (λ hi lo. log (halves hi lo));
  uuid_str = none;
  time = none;
  time_str = some (λ t. log (time_str t));
}

-- one that takes the other forms of UUIDs and times
abbrev other_logger : Callbacks (List Event) Bytes
other_logger = record logger {
  uuid = none;
  uuid_str = some (λ t. log (uuid_str t));
  time = some (λ t. log (nsec t));
  time_str = none;
}

-- a text that shows the sign, the seconds and the nanoseconds
abbrev clock : ℤ → ℕ → Option Bytes
clock (pos s) n = some (b'+' ∷ s ∷ n ∷ [])
clock (negsuc s) n = some (b'-' ∷ s ∷ n ∷ [])

abbrev libc : Libc Bytes
libc = record { strtod = λ s. s; format_time = clock }

-- a UUID, two seconds before 1970, 1.5 seconds after its beginning, and the sample
abbrev stamps : Value
stamps = array (
    item (uuid 0x123e4567e89b12d3 0xa456426655440000)
      (item (time (negsuc 1999999999)) (item (time (pos 1500000000)) (item sample no_items))))

stamps-IsValid : IsValid stamps
unfolding encode encode_int encode_string encode_key be to_word
stamps-IsValid = omega arith

stamps-Within : Within 512 stamps
stamps-Within = omega arith

length-stamps : length (encode stamps) ≡ 72
unfolding encode encode_int encode_string encode_key be to_word
length-stamps = refl

-- what is logged for the value, where `l` is logged for the UUID and the times
abbrev events : List Event → List Event
events l =
    (begin_array ∷ l)
    ++ begin_object
      ∷ key (text "id")
      ∷ fixnum (pos 300)
      ∷ key (text "tags")
      ∷ begin_array
      ∷ string (text "a")
      ∷ boolean true
      ∷ fixnum (negsuc 1)
      ∷ end_array
      ∷ end_object
      ∷ end_array
      ∷ []

opo_val_iterate-encode_example :
    opo_val_iterate libc logger 80 (encode stamps ++ junk) (no_err, [])
    ≡ done (
      0,
      (
        no_err,
        events (
            halves 0x123e4567e89b12d3 0xa456426655440000
            ∷ time_str (b'-' ∷ 1 ∷ 0 ∷ [])
            ∷ time_str (b'+' ∷ 1 ∷ 500000000 ∷ [])
            ∷ []),
      ),
    )
unfolding visit
opo_val_iterate-encode_example =
    opo_val_iterate-encode libc logger 80 stamps junk (no_err, []) stamps-IsValid
      (λ s. refl, ((λ s. refl, refl), ((λ s. refl, tt), ((tt, ((tt, (tt, (tt, tt))), tt)), tt))))
      (omega (arith, length-stamps))

receive-build_example :
    (build heap no_err (some (replicate 96 7)) 96 stamps
      >>= receive libc other_logger 80 (no_err, []))
    ≡ done (
      0,
      (
        no_err,
        events (
            uuid_str (text "123e4567-e89b-12d3-a456-426655440000")
            ∷ nsec (negsuc 1999999999)
            ∷ nsec (pos 1500000000)
            ∷ []),
      ),
    )
unfolding visit uuid_text
receive-build_example =
    receive-build libc other_logger 80 (no_err, []) heap no_err (replicate 96 7) 96 stamps
      stamps-IsValid
      (λ s. refl, ((λ s. refl, tt), ((λ s. refl, tt), ((tt, ((tt, (tt, (tt, tt))), tt)), tt))))
      stamps-Within (omega (arith, length-stamps)) refl (omega (arith, length-stamps))

-- one that asks to stop at a UUID
abbrev stopper : Callbacks (List Event) Bytes
stopper = record logger { uuid = some (λ hi lo s. (false, (log (halves hi lo) s).1)) }

-- The answer is dropped, and the iteration goes on.
answer_dropped :
    opo_val_iterate libc stopper 40
      (encode (array (item (uuid 1 2) (item Value.null no_items))))
      (no_err, [])
    ≡ done (0, (no_err, begin_array ∷ halves 1 2 ∷ null ∷ end_array ∷ []))
unfolding opo_val_iterate encode be end_after val_iterate iterate_case switch container_case
    read_uint32 uuid_case read_uint64 uuid_call skip
answer_dropped = refl

-- A nanosecond before 1970 has the text of the nanosecond after its beginning.
before_1970 :
    opo_val_iterate libc logger 20 (encode (time (negsuc 0))) (no_err, [])
    ≡ done (0, (no_err, time_str (b'+' ∷ 0 ∷ 1 ∷ []) ∷ []))
unfolding opo_val_iterate encode be to_word end_after val_iterate iterate_case switch time_case
    read_uint64 seconds of_word fraction time_call
before_1970 = refl
