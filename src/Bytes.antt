-- ===== src/Bytes.antt =====
-- Big-endian numbers: `read_uint16`, `read_uint32`, `read_uint64` (src/opo/val.c, and once more in
-- src/opo/opo.c) and `fill_uint16`, `fill_uint32`, `fill_uint64` (src/opo/builder.c and opo.c).
-- A pointer into a message is the list of the bytes from it to the end of its buffer: `*b++` takes
-- the head, and a read at the end of the list is a fault.
pub mod RoundTrip
use opo_c.Prelude.{ℕ, zero, suc, ◌+◌, ◌*◌, ◌/◌, ◌%◌, ◌^◌, List, [], ◌∷◌, length}
use opo_c.Outcome.{Outcome, done, fault, out_of_fuel, ◌>>=◌}

abbrev pub Bytes : Type 0
Bytes = List ℕ

-- `*b`
unfoldable pub peek : Bytes → Outcome ℕ
peek [] = fault
peek (x ∷ b) = done x

-- `b += n`
unfoldable pub skip : ℕ → Bytes → Outcome Bytes
skip zero b = done b
skip (suc n) [] = fault
skip (suc n) (x ∷ b) = skip n b

-- `num = (num << 8) | *b` in a word of modulus `m`, for `k` bytes. The low byte of `num << 8` is
-- 0, so `|` adds.
unfoldable pub read_loop : ℕ → ℕ → ℕ → Bytes → Outcome (ℕ × Bytes)
read_loop m zero num b = done (num, b)
read_loop m (suc k) num [] = fault
read_loop m (suc k) num (x ∷ b) = read_loop m k (num * 256 % m + x) b

unfoldable pub read_uint16 : Bytes → Outcome (ℕ × Bytes)
read_uint16 [] = fault
read_uint16 (x ∷ []) = fault
read_uint16 (x ∷ y ∷ b) = done (x * 256 % 2 ^ 16 + y, b)

unfoldable pub read_uint32 : Bytes → Outcome (ℕ × Bytes)
unfolding read_loop
read_uint32 b = read_loop (2 ^ 32) 4 0 b

unfoldable pub read_uint64 : Bytes → Outcome (ℕ × Bytes)
unfolding read_loop
read_uint64 b = read_loop (2 ^ 64) 8 0 b

-- The bytes that are written at the pointer, which the source returns moved past them.
-- `(uint8_t)` and `0xff &` both are `% 256`.
unfoldable pub fill_uint16 : ℕ → Bytes
fill_uint16 n = (n / 2 ^ 8 % 256) ∷ (n % 256) ∷ []

unfoldable pub fill_uint32 : ℕ → Bytes
fill_uint32 n = (n / 2 ^ 24 % 256) ∷ (n / 2 ^ 16 % 256) ∷ (n / 2 ^ 8 % 256) ∷ (n % 256) ∷ []

unfoldable pub fill_uint64 : ℕ → Bytes
fill_uint64 n =
    (n / 2 ^ 56 % 256)
    ∷ (n / 2 ^ 48 % 256)
    ∷ (n / 2 ^ 40 % 256)
    ∷ (n / 2 ^ 32 % 256)
    ∷ (n / 2 ^ 24 % 256)
    ∷ (n / 2 ^ 16 % 256)
    ∷ (n / 2 ^ 8 % 256)
    ∷ (n % 256)
    ∷ []
