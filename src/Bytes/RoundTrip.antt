-- ===== src/Bytes/RoundTrip.antt =====
-- What the fill functions write, the read functions read back.
use opo_c.Prelude.{ℕ, ◌^◌, ◌<◌, ◌≡◌, refl, [], ◌∷◌, ◌++◌, length, arith}
use opo_c.Outcome.{done}
use opo_c.Bytes.{
  Bytes, skip, read_uint16, read_uint32, read_uint64, fill_uint16, fill_uint32, fill_uint64,
}

pub skip-append : (xs ys : Bytes) → skip (length xs) (xs ++ ys) ≡ done ys
unfolding skip
skip-append [] ys = refl
skip-append (x ∷ xs) ys = skip-append xs ys

pub read-fill_uint16 :
    (n : ℕ) (rest : Bytes) → n < 2 ^ 16 → read_uint16 (fill_uint16 n ++ rest) ≡ done (n, rest)
unfolding read_uint16 fill_uint16
read-fill_uint16 n rest h = ground arith

pub read-fill_uint32 :
    (n : ℕ) (rest : Bytes) → n < 2 ^ 32 → read_uint32 (fill_uint32 n ++ rest) ≡ done (n, rest)
unfolding read_uint32 fill_uint32
read-fill_uint32 n rest h = ground arith

pub read-fill_uint64 :
    (n : ℕ) (rest : Bytes) → n < 2 ^ 64 → read_uint64 (fill_uint64 n ++ rest) ≡ done (n, rest)
unfolding read_uint64 fill_uint64
read-fill_uint64 n rest h = ground arith
