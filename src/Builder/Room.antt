-- ===== src/Builder/Room.antt =====
-- A builder with room: what the buffer operations do when nothing has to grow.
use opo_c.Prelude.{
  ℕ, zero, suc, ◌+◌, ◌<◌, ◌≤◌, ◌≡◌, refl, sym, ap, ◌∙◌, leb, some, List, [], ◌∷◌, ◌++◌, Bool, false,
  length, append_assoc, arith,
}
use opo_c.Outcome.{Outcome, done}
use opo_c.Bytes.{Bytes}
use opo_c.Err.{Err, opo_err_ok}
use opo_c.Msg.Id.{overwrite-append}
use opo_c.Builder.{Builder, Heap, St, Call, if_ok, splice, write, emit, builder_assure}
use opo_c.Builder.Push.{advance}
use opo_c.Wire.Digits.{lengths, length-append_bytes}

-- The builder that has written `pre`, before the rest of its block.
abbrev pub at : Bool → List ℕ → Bytes → Bytes → Builder
at own stack pre free = record {
  head = some (pre ++ free);
  cur = length pre;
  own = own;
  stack = stack;
}

pub splice-append :
    (a xs old rest : Bytes)
    → length xs ≡ length old
    → splice (length a) xs (a ++ (old ++ rest)) ≡ done (a ++ (xs ++ rest))
unfolding splice
splice-append [] xs old rest h = overwrite-append xs old rest h
splice-append (x ∷ a) xs old rest h = rw (splice-append a xs old rest h)

-- The first `n` bytes of a list of at least `n`, and the rest.
pub split :
    (n : ℕ) (free : Bytes)
    → n ≤ length free
    → (a : Bytes) × (b : Bytes) × (free ≡ a ++ b) × (length a ≡ n)
split zero free h = ([], free, refl, refl)
split (suc n) [] h = absurd (omega arith)
split (suc n) (x ∷ free) h =
    let (a, b, e, l) = split n free (omega arith) in (x ∷ a, b, ap (λ t. x ∷ t) e, ap suc l)

pub if_ok-done :
    (m : Outcome (ℕ × St)) (next : Call) (s : St) → m ≡ done (opo_err_ok, s) → if_ok m next ≡ next s
if_ok-done m next s e = rw e

module _ (own : Bool) (stack : List ℕ) (err : Err) where
  -- The call adds `chunk` behind `pre`, and nothing else changes.
  abbrev pub Adds : Call → Bytes → Bytes → Bytes → Type 0
  Adds call pre free chunk =
      (free' : Bytes) × (call (err, at own stack pre free)
        ≡ done (opo_err_ok, (err, at own stack (pre ++ chunk) free')))
      × (length free ≡ length chunk + length free')

  pub emit-Adds : (xs pre free : Bytes) → length xs ≤ length free → Adds (emit xs) pre free xs
  unfolding emit write
  emit-Adds xs pre free h =
      let (a, b, e, l) = split (length xs) free h in
      (
        b,
        rw (e, splice-append pre xs a b (sym l), ← length-append_bytes pre xs, ← append_assoc),
        omega (lengths, ap length e),
      )

  advance-at :
      (a b pre : Bytes)
      → advance (length a) (err, at own stack pre (a ++ b))
        ≡ done (opo_err_ok, (err, at own stack (pre ++ a) b))
  advance-at a b pre = rw (length-append_bytes pre a, append_assoc pre a b)

  pub advance-Adds :
      (n : ℕ) (pre free : Bytes)
      → n ≤ length free
      → (gap : Bytes) × Adds (advance n) pre free gap × (length gap ≡ n)
  advance-Adds n pre free h =
      let (a, b, e, l) = split n free h in
      (
        a,
        (
          b,
          ap (λ n'. advance n' (err, at own stack pre free)) (sym l)
              ∙ ap (λ f. advance (length a) (err, at own stack pre f)) e
              ∙ advance-at a b pre,
          omega (lengths, ap length e),
        ),
        l,
      )

  pub builder_assure-room :
      (heap : Heap) (size : ℕ) (pre free : Bytes)
      → size < length free
      → builder_assure heap size (err, at own stack pre free)
        ≡ done (opo_err_ok, (err, at own stack pre free))
  unfolding builder_assure
  builder_assure-room heap size pre free h =
      let room : leb (length (pre ++ free)) (length pre + size) ≡ false =
        ground (arith, length-append_bytes pre free) in
      rw room
