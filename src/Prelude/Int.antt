-- ===== src/Prelude/Int.antt =====
-- Signed integers over the native numbers, and the two's complement words that stand for them.
use native.Mathlib.Nat.{mod-eq_of_lt}
use opo_c.Prelude.{ℕ, ◌+◌, ◌-◌, ◌%◌, ◌<◌, ◌≡◌, Bool, arith, ltb, if◌then◌else◌}

-- `negsuc n` is -(n + 1).
pub data ℤ : Type 0 where
  pos : ℕ → ℤ
  negsuc : ℕ → ℤ

-- `a` between `-m` and `m - 1`, the range of a signed type with `m = 2 ^ (w - 1)`
abbrev pub in_range : ℕ → ℤ → Bool
in_range m (pos n) = ltb n m
in_range m (negsuc n) = ltb n m

abbrev pub InRange : ℕ → ℤ → Type 0
InRange m (pos n) = n < m
InRange m (negsuc n) = n < m

-- The cast of a signed value to an unsigned type of modulus `m`.
unfoldable pub to_word : ℕ → ℤ → ℕ
to_word m (pos n) = n % m
to_word m (negsuc n) = m - 1 - n % m

-- The cast of an unsigned value to the signed type of half modulus `h` (its modulus is `h + h`).
unfoldable pub of_word : ℕ → ℕ → ℤ
of_word h x = if ltb (x % (h + h)) h then pos (x % (h + h)) else negsuc (h + h - 1 - x % (h + h))

pub of_word-to_word : (h : ℕ) (a : ℤ) → 0 < h → InRange h a → of_word h (to_word (h + h) a) ≡ a
unfolding of_word to_word
of_word-to_word h (pos n) p r =
    let e : n % (h + h) ≡ n = mod-eq_of_lt (omega arith) in rw (e, e) (ground arith)
of_word-to_word h (negsuc n) p r =
    let e : n % (h + h) ≡ n = mod-eq_of_lt (omega arith) in
    let f : (h + h - 1 - n) % (h + h) ≡ h + h - 1 - n = mod-eq_of_lt (omega arith) in
    rw (e, f) (ground arith)

pub to_word-lt : (m : ℕ) (a : ℤ) → 0 < m → to_word m a < m
unfolding to_word
to_word-lt m (pos n) p = omega arith
to_word-lt m (negsuc n) p = omega arith
