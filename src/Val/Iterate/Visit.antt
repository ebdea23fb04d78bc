-- ===== src/Val/Iterate/Visit.antt =====
-- What `opo_val_iterate` is to do with a value: the calls in the order of the value's parts, up to
-- the first that stops, whichever callback that is. A callback that reports an error and does not
-- stop is followed by no further member, but by the last callbacks of the open containers; one that
-- begins a container is followed by the first member of it as well. A specification over values,
-- without bytes or pointers but those that a callback is handed: `tail` is what follows the value in
-- its buffer.
use opo_c.Prelude.{
  ℕ, ◌==◌, ◌≡◌, if◌then◌else◌, Option, none, some, ◌∷◌, ◌++◌, Bool, true, false, ◌&&◌, length,
}
use opo_c.Prelude.Int.{ℤ, pos}
use opo_c.Bytes.{Bytes}
use opo_c.Err.{opo_err_set, opo_err_parse, text}
use opo_c.Val.Access.{uuid_text}
use opo_c.Val.Iterate.{Run, Callback, Callbacks, Libc}
use opo_c.Wire.{
  Value, Items, Fields, null, boolean, fixnum, string, decimal, uuid, time, array, object, no_items,
  item, no_fields, field, encode, encode_items, encode_fields,
}
use opo_c.Wire.Time.{floor_seconds, nanos, Whole}

module _ {C : Type 0} where
  -- Go on if the callback said so and no error is reported.
  abbrev pub and_then : Bool × Run C → Callback C → Bool × Run C
  and_then (cont, s) next = if cont && (s.0.code == 0) then next s else (cont, s)

  -- A callback is called if it is there, with what it is handed.
  abbrev pub ask : Option (Callback C) → Callback C
  ask none s = (true, s)
  ask (some f) s = f s

  abbrev pub ask_with {κ} : {A : Type κ} → Option (A → Callback C) → A → Callback C
  ask_with none a s = (true, s)
  ask_with (some f) a s = f a s

  abbrev pub ask_text : Option (Bytes → ℤ → Callback C) → Bytes → ℤ → Callback C
  ask_text none t n s = (true, s)
  ask_text (some f) t n s = f t n s

  -- the last callback of a container, unless a member stopped
  abbrev pub closed : Option (Callback C) → Bool × Run C → Bool × Run C
  closed last (true, s) = ask last s
  closed last (false, s) = (false, s)

  -- The members of a container and its last callback, after its first one.
  abbrev pub enclose : Option (Callback C) → Callback C → Bool × Run C → Bool × Run C
  enclose last members (true, s) = closed last (members s)
  enclose last members (false, s) = (false, s)

  -- A UUID goes to the callback for its halves, or if there is none to the one for its text.
  abbrev pub visit_uuid :
      Option (ℕ → ℕ → Callback C) → Option (Bytes → Callback C) → ℕ → ℕ → Callback C
  visit_uuid (some halves) as_text hi lo s = halves hi lo s
  visit_uuid none as_text hi lo s = ask_with as_text (uuid_text hi lo) s

  -- the text of a time, or a report where the C library has none for it
  abbrev pub visit_text : Option Bytes → (Bytes → Callback C) → Callback C
  visit_text (some t) f s = f t s
  visit_text none f (err, ctx) = (true, (opo_err_set err opo_err_parse (text "invalid time"), ctx))

  -- A time goes to the callback for its nanoseconds, or if there is none to the one for its text.
  abbrev pub visit_time :
      (ℤ → ℕ → Option Bytes)
      → Option (ℤ → Callback C)
      → Option (Bytes → Callback C)
      → ℤ
      → Callback C
  visit_time format (some f) as_text t s = f t s
  visit_time format none (some f) t s = visit_text (format (floor_seconds t) (nanos t)) f s
  visit_time format none none t s = (true, s)

  -- a call that never stops, whatever it is called in
  abbrev pub GoesOn : Callback C → Type 0
  GoesOn f = (s : Run C) → (f s).0 ≡ true

  -- A time before 1970 is a whole number of seconds where it is taken as text.
  abbrev pub WholeText : Option (ℤ → Callback C) → Option (Bytes → Callback C) → ℤ → Type 0
  WholeText (some f) as_text t = Unit
  WholeText none (some f) t = Whole t
  WholeText none none t = Unit

module _ {C D : Type 0} (libc : Libc D) (callbacks : Callbacks C D) where
  unfoldable mutual
    pub visit : Value → Bytes → Callback C
    visit null tail s = ask callbacks.null s
    visit (boolean b) tail s = ask_with callbacks.boolean b s
    visit (fixnum i) tail s = ask_with callbacks.fixnum i s
    visit (string t) tail s = ask_text callbacks.string (t ++ 0 ∷ tail) (pos (length t)) s
    visit (decimal t) tail s = ask_with callbacks.decimal (libc.strtod t) s
    visit (uuid hi lo) tail s = visit_uuid callbacks.uuid callbacks.uuid_str hi lo s
    visit (time t) tail s = visit_time libc.format_time callbacks.time callbacks.time_str t s
    visit (array xs) tail s =
        enclose callbacks.end_array (visit_items xs tail) (ask callbacks.begin_array s)
    visit (object fs) tail s =
        enclose callbacks.end_object (visit_fields fs tail) (ask callbacks.begin_object s)

    pub visit_items : Items → Bytes → Callback C
    visit_items no_items tail s = (true, s)
    visit_items (item v xs) tail s =
        and_then (visit v (encode_items xs ++ tail) s) (visit_items xs tail)

    pub visit_fields : Fields → Bytes → Callback C
    visit_fields no_fields tail s = (true, s)
    visit_fields (field k v fs) tail s =
        let after = encode_fields fs ++ tail in
        and_then (ask_text callbacks.key (k ++ 0 ∷ (encode v ++ after)) (pos (length k)) s)
          (λ s'. and_then (visit v after s') (visit_fields fs tail))

  -- The calls for the UUIDs and the times of a value never stop, and no time is taken as text that is
  -- before 1970 and no whole number of seconds.
  abbrev mutual
    pub Steady : Value → Type 0
    Steady (uuid hi lo) = GoesOn (visit_uuid callbacks.uuid callbacks.uuid_str hi lo)
    Steady (time t) =
        GoesOn (visit_time libc.format_time callbacks.time callbacks.time_str t)
        × WholeText callbacks.time callbacks.time_str t
    Steady (array xs) = SteadyItems xs
    Steady (object fs) = SteadyFields fs
    Steady _ = Unit

    pub SteadyItems : Items → Type 0
    SteadyItems no_items = Unit
    SteadyItems (item v xs) = Steady v × SteadyItems xs

    pub SteadyFields : Fields → Type 0
    SteadyFields no_fields = Unit
    SteadyFields (field k v fs) = Steady v × SteadyFields fs
