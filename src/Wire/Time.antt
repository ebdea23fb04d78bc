-- ===== src/Wire/Time.antt =====
-- A time of the wire format by the calendar: its nanoseconds from the epoch as whole seconds,
-- rounded down, and the nanoseconds after them.
use opo_c.Prelude.{ℕ, ◌-◌, ◌/◌, ◌%◌, ◌≡◌}
use opo_c.Prelude.Int.{ℤ, pos, negsuc}

abbrev pub floor_seconds : ℤ → ℤ
floor_seconds (pos n) = pos (n / 1000000000)
floor_seconds (negsuc n) = negsuc (n / 1000000000)

abbrev pub nanos : ℤ → ℕ
nanos (pos n) = n % 1000000000
nanos (negsuc n) = 999999999 - n % 1000000000

-- a time that is not before 1970
abbrev pub NotBefore : ℤ → Type 0
NotBefore (pos n) = Unit
NotBefore (negsuc n) = ⊥

-- a time that is not before 1970, or is a whole number of seconds
abbrev pub Whole : ℤ → Type 0
Whole (pos n) = Unit
Whole (negsuc n) = n % 1000000000 ≡ 999999999
