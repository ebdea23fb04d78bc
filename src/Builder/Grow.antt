-- ===== src/Builder/Grow.antt =====
-- `builder_assure` of a builder that has too few bytes.
use opo_c.Prelude.{
  ℕ, zero, suc, ◌∙◌, ◌+◌, ◌-◌, ◌^◌, ◌<◌, ◌≤◌, ◌≡◌, ltb, leb, none, some, List, [], ◌∷◌, ◌++◌, Bool,
  true, false, length, drop, append_assoc, arith,
}
use opo_c.Outcome.{done}
use opo_c.Bytes.{Bytes}
use opo_c.Err.{Err, opo_err_set, opo_err_ok, opo_err_memory, text}
use opo_c.Wire.Digits.{lengths, length-append_bytes}
use opo_c.Builder.{Heap, builder_assure, grow, msg_inc}
use opo_c.Builder.Room.{at}

length-drop : (n : ℕ) (xs : Bytes) → length (drop n xs) ≡ length xs - n
length-drop zero xs = omega arith
length-drop (suc n) [] = omega arith
length-drop (suc n) (x ∷ xs) = length-drop n xs ∙ omega arith

module _ (heap : Heap) (stack : List ℕ) (err : Err) where
  -- Where the block is too small, one that the builder owns is replaced by one that has every byte
  -- that was written at the place where it was, and room for more than `size` bytes.
  pub builder_assure-grow :
      (size : ℕ) (pre free : Bytes) {new : Bytes}
      → length free ≤ size
      → length pre < 2 ^ 31
      → heap.malloc (length (pre ++ free) + msg_inc + size) ≡ some new
      → (free' : Bytes) × (builder_assure heap size (err, at true stack pre free)
          ≡ done (opo_err_ok, (err, at true stack pre free')))
        × (size < length free')
  unfolding builder_assure grow
  builder_assure-grow size pre free {new = new} r o m =
      let l : leb (length (pre ++ free)) (length pre + size) ≡ true =
        ground (arith, length-append_bytes pre free) in
      let o' : ltb (length pre) (2 ^ 31) ≡ true = ground arith in
      let n = heap.length-malloc _ m in
      (
        free ++ drop (length (pre ++ free)) new,
        rw (l, m, o', append_assoc pre free (drop (length (pre ++ free)) new)),
        omega (lengths, length-drop (length (pre ++ free)) new, n),
      )

  -- Where the heap has no block, the call reports it, and the builder is left without one.
  pub builder_assure-no_memory :
      (own : Bool) (size : ℕ) (pre free : Bytes)
      → length free ≤ size
      → heap.malloc (length (pre ++ free) + msg_inc + size) ≡ none
      → builder_assure heap size (err, at own stack pre free)
        ≡ done (
          opo_err_memory,
          (
            opo_err_set err opo_err_memory (text "memory allocation failed"),
            record (at own stack pre free) { head = none },
          ),
        )
  unfolding builder_assure grow
  builder_assure-no_memory true size pre free r m =
      let l : leb (length (pre ++ free)) (length pre + size) ≡ true =
        ground (arith, length-append_bytes pre free) in
      rw (l, m)
  builder_assure-no_memory false size pre free r m =
      let l : leb (length (pre ++ free)) (length pre + size) ≡ true =
        ground (arith, length-append_bytes pre free) in
      rw (l, m)
