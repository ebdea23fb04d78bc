-- ===== src/Ojc/Text.antt =====
-- The texts that opo.c takes for a UUID or a time: `detect_uuid`, `read_num` and `time_parse`.
use opo_c.Prelude.{
  ℕ, zero, suc, ◌+◌, ◌-◌, ◌*◌, ◌%◌, ◌^◌, ◌&&◌, leb, ◌==◌, if◌then◌else◌, Option, none, some, [],
  ◌∷◌, Bool, true, false,
}
use opo_c.Prelude.Int.{ℤ, pos, negsuc, of_word, to_word}
use opo_c.Outcome.{Outcome, done, fault, out_of_fuel}
use opo_c.Bytes.{Bytes}
use opo_c.Err.{text}
use opo_c.Ojc.{Tm, Libc}

-- `uuid_char_map`, as a function: the digits and the letters a to f are `h`
unfoldable pub uuid_char_map : ℕ → ℕ
uuid_char_map c =
    if c == b'-'
    then b'-'
    else if leb b'0' c && leb c b'9'
    then b'h'
    else if leb b'a' c && leb c b'f'
    then b'h'
    else b'.'

abbrev pub uuid_map : Bytes
uuid_map = text "hhhhhhhh-hhhh-hhhh-hhhh-hhhhhhhhhhhh"

abbrev pub uuid_str_len : ℕ
uuid_str_len = 36

abbrev pub time_str_len : ℕ
time_str_len = 30

-- the loop, over what is left of `uuid_map` and of the text
unfoldable pub detect_loop : Bytes → Bytes → Outcome Bool
unfolding uuid_char_map
detect_loop [] str = done true
detect_loop (u ∷ us) [] = fault
detect_loop (u ∷ us) (c ∷ str) =
    let rest = detect_loop us str in if u == uuid_char_map c then rest else done false

unfoldable pub detect_uuid : Bytes → ℕ → Outcome Bool
unfolding detect_loop
detect_uuid str len = if uuid_str_len == len then detect_loop uuid_map str else done false

-- A part of `time_parse`: it reads at `s` and moves on; none is the return of `NO_TIME`.
abbrev pub Scan : Type 0 → Type 0
Scan A = Bytes → Outcome (Option (A × Bytes))

infixl 5 ◌>>=◌ ◌>>◌
abbrev pub ◌>>=◌ : {A B : Type 0} → Scan A → (A → Scan B) → Scan B
◌>>=◌ m f s = elim (m s) [
  | done (some (a, s')) ↦ f a s'
  | done none ↦ done none
  | fault ↦ fault
  | out_of_fuel ↦ out_of_fuel
]

abbrev pub ◌>>◌ : {B : Type 0} → Scan (Unit {0}) → Scan B → Scan B
m >> k = m >>= λ _. k

-- `len` digits, in an unsigned int
unfoldable pub read_num : ℕ → ℕ → Scan ℕ
read_num zero v s = done (some (v, s))
read_num (suc len) v [] = fault
read_num (suc len) v (c ∷ s) =
    let rest = read_num len ((v * 10 + (c - b'0')) % 2 ^ 32) s in
    if leb b'0' c && leb c b'9' then rest else done none

-- `if (c != *s) return NO_TIME; s++`
unfoldable pub expect : ℕ → Scan (Unit {0})
expect c [] = fault
expect c (x ∷ s) = if c == x then done (some (tt, s)) else done none

-- the digits behind the dot, in a long
unfoldable pub read_nsecs : ℕ → ℕ → Scan ℕ
read_nsecs zero nsecs s = done (some (nsecs, s))
read_nsecs (suc i) nsecs [] = fault
read_nsecs (suc i) nsecs (c ∷ s) =
    let rest = read_nsecs i (nsecs * 10 + (c - b'0')) s in
    if leb b'0' c && leb c b'9' then rest else done none

-- `a - b` of ints
unfoldable pub int_sub : ℕ → ℕ → ℤ
int_sub a b = if leb b a then pos (a - b) else negsuc (b - a - 1)

-- `(int64_t)0xffffffffffffffff`
abbrev pub no_time : ℤ
no_time = negsuc 0

unfoldable pub scan_time : Scan (Tm × ℕ)
unfolding read_num expect read_nsecs int_sub
scan_time = do
  year ← read_num 4 0
  expect b'-'
  mon ← read_num 2 0
  expect b'-'
  mday ← read_num 2 0
  expect b'T'
  hour ← read_num 2 0
  expect b':'
  min ← read_num 2 0
  expect b':'
  sec ← read_num 2 0
  expect b'.'
  nsecs ← read_nsecs 9 0
  expect b'Z'
  λ s. done (
      some (
        (
          record {
            tm_year = int_sub year 1900;
            tm_mon = int_sub mon 1;
            tm_mday = mday;
            tm_hour = hour;
            tm_min = min;
            tm_sec = sec;
          },
          nsecs,
        ),
        s,
      ))

-- `(int64_t)secs * 1000000000ULL + (int64_t)nsecs` is computed unsigned.
unfoldable pub nanoseconds : ℤ → ℕ → ℤ
unfolding of_word to_word
nanoseconds secs nsecs = of_word (2 ^ 63) ((to_word (2 ^ 64) secs * 1000000000 + nsecs) % 2 ^ 64)

unfoldable pub time_parse : {D : Type 0} → Libc D → Bytes → Outcome ℤ
unfolding scan_time nanoseconds
time_parse libc s = elim (scan_time s) [
  | done (some ((tm, nsecs), _)) ↦ done (nanoseconds (libc.timegm tm) nsecs)
  | done none ↦ done no_time
  | fault ↦ fault
  | out_of_fuel ↦ out_of_fuel
]
