-- ===== src/Ojc/Calls.antt =====
-- The calls of OjC that build a value, and the values on which the stack of `opo_val_to_ojc` is
-- right: before each part of a message it pops one container at most.
use opo_c.Prelude.{ℕ, zero, suc, ◌+◌, ◌≤◌, List, [], ◌∷◌, ◌++◌, length, take, arith}
use opo_c.Prelude.Int.{ℤ}
use opo_c.Wire.Time.{floor_seconds, nanos, NotBefore}
use opo_c.Bytes.{Bytes}
use opo_c.Val.Access.{uuid_text}
use opo_c.Ojc.Text.{time_str_len}
use opo_c.Ojc.Parse.{Made, Call, create, append, nappend}
use opo_c.Wire.{
  Value, Items, Fields, null, boolean, fixnum, string, decimal, uuid, time, array, object, no_items,
  item, no_fields, field, encode, encode_items, encode_fields,
}
use opo_c.Wire.Digits.{lengths}
use opo_c.Wire.Sizes.{length-encode_pos, length-encode_key_pos}

-- where a value goes: to the top, into an array, or into an object under a key
pub data Place : Type 0 where
  top : Place
  into_array : ℕ → Place
  into_object : ℕ → Bytes → Place

-- What OjC is to make of a value, where `format` is the text of a time in seconds from the
-- epoch and the nanoseconds after them.
abbrev pub made_of : {D : Type 0} → (Bytes → D) → (ℤ → ℕ → Bytes) → Value → Made D
made_of strtod format null = Made.null
made_of strtod format (boolean b) = Made.boolean b
made_of strtod format (fixnum i) = Made.int i
made_of strtod format (string s) = Made.str s
made_of strtod format (decimal s) = Made.double (strtod s)
made_of strtod format (uuid hi lo) = Made.str (uuid_text hi lo)
made_of strtod format (time t) = Made.str (take time_str_len (format (floor_seconds t) (nanos t)))
made_of strtod format (array xs) = Made.array
made_of strtod format (object fs) = Made.object

-- how many values of OjC stand for a value
abbrev mutual
  pub size : Value → ℕ
  size (array xs) = suc (size_items xs)
  size (object fs) = suc (size_fields fs)
  size _ = 1

  pub size_items : Items → ℕ
  size_items no_items = 0
  size_items (item v xs) = size v + size_items xs

  pub size_fields : Fields → ℕ
  size_fields no_fields = 0
  size_fields (field k v fs) = size v + size_fields fs

-- the call that puts value `n` in its place
abbrev pub link : {D : Type 0} → Place → ℕ → List (Call D)
link top n = []
link (into_array p) n = append p n ∷ []
link (into_object p k) n = nappend p k n ∷ []

-- A container is created and put in its place before its members are. Values are numbered from `n`.
module _ {D : Type 0} (strtod : Bytes → D) (format : ℤ → ℕ → Bytes) where
  unfoldable mutual
    -- the calls for what is inside of value `n`
    pub calls_in : Value → ℕ → List (Call D)
    calls_in (array xs) n = calls_items xs n (n + 1)
    calls_in (object fs) n = calls_fields fs n (n + 1)
    calls_in _ n = []

    pub calls_items : Items → ℕ → ℕ → List (Call D)
    calls_items no_items p n = []
    calls_items (item v xs) p n =
        (create (made_of strtod format v) ∷ append p n ∷ calls_in v n)
        ++ calls_items xs p (n + size v)

    pub calls_fields : Fields → ℕ → ℕ → List (Call D)
    calls_fields no_fields p n = []
    calls_fields (field k v fs) p n =
        (create (made_of strtod format v) ∷ nappend p k n ∷ calls_in v n)
        ++ calls_fields fs p (n + size v)

  abbrev pub calls_of : Value → Place → ℕ → List (Call D)
  calls_of v place n = create (made_of strtod format v) ∷ (link place n ++ calls_in v n)

-- How many containers end with a value, and with the members of one, where `e` end before these.
abbrev mutual
  pub ends : Value → ℕ
  ends (array xs) = suc (ends_items 0 xs)
  ends (object fs) = suc (ends_fields 0 fs)
  ends _ = 0

  pub ends_items : ℕ → Items → ℕ
  ends_items e no_items = e
  ends_items e (item v xs) = ends_items (ends v) xs

  pub ends_fields : ℕ → Fields → ℕ
  ends_fields e no_fields = e
  ends_fields e (field k v fs) = ends_fields (ends v) fs

-- At most one container ends right before an item, and at most two right before a key: one is popped
-- before the key and one before its value.
abbrev mutual
  pub Closes : Value → Type 0
  Closes (array xs) = ClosesItems 0 xs
  Closes (object fs) = ClosesFields 0 fs
  Closes _ = Unit

  pub ClosesItems : ℕ → Items → Type 0
  ClosesItems e no_items = Unit
  ClosesItems e (item v xs) = e ≤ 1 × Closes v × ClosesItems (ends v) xs

  pub ClosesFields : ℕ → Fields → Type 0
  ClosesFields e no_fields = Unit
  ClosesFields e (field k v fs) = e ≤ 2 × Closes v × ClosesFields (ends v) fs

-- at most `d` containers deep
abbrev mutual
  pub Fits : ℕ → Value → Type 0
  Fits zero (array xs) = ⊥
  Fits (suc d) (array xs) = FitsItems d xs
  Fits zero (object fs) = ⊥
  Fits (suc d) (object fs) = FitsFields d fs
  Fits d _ = Unit

  pub FitsItems : ℕ → Items → Type 0
  FitsItems d no_items = Unit
  FitsItems d (item v xs) = Fits d v × FitsItems d xs

  pub FitsFields : ℕ → Fields → Type 0
  FitsFields d no_fields = Unit
  FitsFields d (field k v fs) = Fits d v × FitsFields d fs

-- no time before 1970
abbrev mutual
  pub FromEpoch : Value → Type 0
  FromEpoch (time t) = NotBefore t
  FromEpoch (array xs) = FromEpochItems xs
  FromEpoch (object fs) = FromEpochFields fs
  FromEpoch _ = Unit

  pub FromEpochItems : Items → Type 0
  FromEpochItems no_items = Unit
  FromEpochItems (item v xs) = FromEpoch v × FromEpochItems xs

  pub FromEpochFields : Fields → Type 0
  FromEpochFields no_fields = Unit
  FromEpochFields (field k v fs) = FromEpoch v × FromEpochFields fs

-- the rounds of `opo_val_to_ojc` on a value: one for each value and each key
abbrev mutual
  pub rounds : Value → ℕ
  rounds (array xs) = suc (rounds_items xs)
  rounds (object fs) = suc (rounds_fields fs)
  rounds _ = 1

  pub rounds_items : Items → ℕ
  rounds_items no_items = 0
  rounds_items (item v xs) = rounds v + rounds_items xs

  pub rounds_fields : Fields → ℕ
  rounds_fields no_fields = 0
  rounds_fields (field k v fs) = 1 + (rounds v + rounds_fields fs)

mutual
  unfolding encode

  pub rounds-le : (v : Value) → rounds v ≤ length (encode v)
  rounds-le (array xs) = omega (lengths, rounds_items-le xs)
  rounds-le (object fs) = omega (lengths, rounds_fields-le fs)
  rounds-le v = length-encode_pos v

  rounds_items-le : (xs : Items) → rounds_items xs ≤ length (encode_items xs)
  rounds_items-le no_items = omega arith
  rounds_items-le (item v xs) = omega (lengths, rounds-le v, rounds_items-le xs)

  rounds_fields-le : (fs : Fields) → rounds_fields fs ≤ length (encode_fields fs)
  rounds_fields-le no_fields = omega arith
  rounds_fields-le (field k v fs) =
      omega (lengths, rounds-le v, rounds_fields-le fs, length-encode_key_pos k)
