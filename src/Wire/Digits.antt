-- ===== src/Wire/Digits.antt =====
-- The digits of the format are what the code reads and writes.
use opo_c.Prelude.{
  ℕ, zero, suc, ◌+◌, ◌^◌, ◌<◌, ◌≡◌, refl, ap, [], ◌∷◌, ◌++◌, length, length-append, arith, ◌∙◌,
}
use opo_c.Outcome.{done}
use opo_c.Bytes.{
  Bytes, peek, read_uint16, read_uint32, read_uint64, fill_uint16, fill_uint32, fill_uint64,
}
use opo_c.Bytes.RoundTrip.{read-fill_uint16, read-fill_uint32, read-fill_uint64}
use opo_c.Wire.{be}

pub length-be : (k n : ℕ) → length (be k n) ≡ k
unfolding be
length-be zero n = refl
length-be (suc k) n = ap suc (length-be k n)

pub be-byte : (n : ℕ) → n < 256 → be 1 n ≡ n ∷ []
unfolding be
be-byte n h = ground arith

pub fill_uint16-eq-be : (n : ℕ) → fill_uint16 n ≡ be 2 n
unfolding be fill_uint16
fill_uint16-eq-be n = ground arith

pub fill_uint32-eq-be : (n : ℕ) → fill_uint32 n ≡ be 4 n
unfolding be fill_uint32
fill_uint32-eq-be n = ground arith

pub fill_uint64-eq-be : (n : ℕ) → fill_uint64 n ≡ be 8 n
unfolding be fill_uint64
fill_uint64-eq-be n = ground arith

pub peek-be : (n : ℕ) (rest : Bytes) → n < 256 → peek (be 1 n ++ rest) ≡ done n
unfolding peek
peek-be n rest h = rw (be-byte n h)

pub read_uint16-be :
    (n : ℕ) (rest : Bytes) → n < 2 ^ 16 → read_uint16 (be 2 n ++ rest) ≡ done (n, rest)
read_uint16-be n rest h = rw (← fill_uint16-eq-be n) (read-fill_uint16 n rest h)

pub read_uint32-be :
    (n : ℕ) (rest : Bytes) → n < 2 ^ 32 → read_uint32 (be 4 n ++ rest) ≡ done (n, rest)
read_uint32-be n rest h = rw (← fill_uint32-eq-be n) (read-fill_uint32 n rest h)

pub read_uint64-be :
    (n : ℕ) (rest : Bytes) → n < 2 ^ 64 → read_uint64 (be 8 n ++ rest) ≡ done (n, rest)
read_uint64-be n rest h = rw (← fill_uint64-eq-be n) (read-fill_uint64 n rest h)

pub length-append_bytes : (xs ys : Bytes) → length (xs ++ ys) ≡ length xs + length ys
length-append_bytes = length-append

-- for `omega`, on bytes
pub ruleset lengths = (arith, length-append_bytes, length-be)
