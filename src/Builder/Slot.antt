-- ===== src/Builder/Slot.antt =====
-- Calls in a row that add bytes, and `check_key` in the places that an element can take.
use opo_c.Prelude.{
  ℕ, zero, suc, ◌+◌, ◌^◌, ◌<◌, ◌≤◌, ◌≡◌, refl, ap, inl, inr, Bool-cases, leb, ◌/◌, none, some, List,
  [], ◌∷◌, ◌++◌, Bool, length, get_elem?, append_assoc, append-nil, arith,
}
use opo_c.Prelude.Int.{pos}
use opo_c.Outcome.{done}
use opo_c.Bytes.{Bytes}
use opo_c.Err.{Err}
use opo_c.Val.{tag, val_array, val_obj}
use opo_c.Val.Access.Read.{read_bytes-append}
use opo_c.Wire.{be, encode_key}
use opo_c.Wire.Cases.{encode_key-cases}
use opo_c.Wire.Digits.{lengths, fill_uint16-eq-be}
use opo_c.Builder.{Heap, Call, if_ok, emit, builder_assure}
use opo_c.Builder.Fill.{fill_key, key_header, text_length, strlen}
use opo_c.Builder.Push.{Key, byte_at, builder_push_key, check_key}
use opo_c.Builder.Room.{at, Adds, emit-Adds, builder_assure-room}

-- A text with its NUL, and its length, as a caller passes them.
abbrev pub with_nul : Bytes → Bytes
with_nul s = s ++ (0 ∷ [])

abbrev pub keyed : Bytes → Key
keyed k = some (with_nul k, pos (length k))

-- Where the next element can go, behind the bytes `pre` and in the open containers: the key that the
-- call for it is given, and the bytes that the key takes.
pub data Slot (pre : Bytes) : List ℕ → Key → Bytes → Type 0 where
  at_top : length pre ≤ 8 → Slot pre [] none []
  in_array :
      {off : ℕ} {stack : List ℕ}
      → get_elem? pre off ≡ some (tag val_array)
      → Slot pre (off ∷ stack) none []
  in_object :
      {off : ℕ} {stack : List ℕ} (k : Bytes)
      → length k < 2 ^ 16
      → get_elem? pre off ≡ some (tag val_obj)
      → Slot pre (off ∷ stack) (keyed k) (encode_key k)

pub get_elem?-append :
    (xs ys : Bytes) (i : ℕ) {x : ℕ} → get_elem? xs i ≡ some x → get_elem? (xs ++ ys) i ≡ some x
get_elem?-append [] ys i e = cc
get_elem?-append (x ∷ xs) ys zero e = e
get_elem?-append (x ∷ xs) ys (suc i) e = get_elem?-append xs ys i e

pub byte_at-pre :
    (own : Bool) (stack : List ℕ) (pre free : Bytes) (off : ℕ) {x : ℕ}
    → get_elem? pre off ≡ some x
    → byte_at (at own stack pre free) off ≡ done x
unfolding byte_at
byte_at-pre own stack pre free off e = rw (byte_at, get_elem?-append pre free off e)

pub text_length-nul : (s : Bytes) → text_length (with_nul s) (pos (length s)) ≡ done (length s)
unfolding text_length strlen
text_length-nul [] = refl
text_length-nul (c ∷ s) = refl

pub fill_key-nul :
    (k : Bytes) → length k < 2 ^ 16 → fill_key (with_nul k) (length k) ≡ done (encode_key k)
unfolding fill_key key_header encode_key be
fill_key-nul k h = rw (read_bytes-append k (0 ∷ [])) (elim (Bool-cases (leb (length k) 0xff)) [
  | inl p ↦ let q : length k / 1 ≡ length k = omega arith in rw (p, q)
  | inr p ↦ rw (p, fill_uint16-eq-be (length k))
])

module _ (own : Bool) (stack : List ℕ) (err : Err) where
  pub if_ok-Adds :
      (call next : Call) (pre free a b : Bytes)
      → Adds own stack err call pre free a
      → ((free' : Bytes)
          → length free ≡ length a + length free'
          → Adds own stack err next (pre ++ a) free' b)
      → Adds own stack err (λ s. if_ok (call s) next) pre free (a ++ b)
  if_ok-Adds call next pre free a b (free₁, e₁, l₁) k =
      let (free₂, e₂, l₂) = k free₁ l₁ in (free₂, rw (e₁, e₂, append_assoc pre a b), omega lengths)

  pub assure-Adds :
      (heap : Heap) (size : ℕ) (next : Call) (pre free c : Bytes)
      → size < length free
      → Adds own stack err next pre free c
      → Adds own stack err (λ s. if_ok (builder_assure heap size s) next) pre free c
  assure-Adds heap size next pre free c h (free', e, l) =
      (free', rw (builder_assure-room own stack err heap size pre free h) e, l)

  key-Adds :
      (heap : Heap) (k pre free : Bytes)
      → length k < 2 ^ 16
      → length (encode_key k) + 8 ≤ length free
      → Adds own stack err (builder_push_key heap (with_nul k) (length k)) pre free (encode_key k)
  unfolding builder_push_key
  key-Adds heap k pre free v h =
      let n : length k + 2 ≤ length (encode_key k) = elim (encode_key-cases k) [
        | inl (_, e) ↦ omega (lengths, ap length e)
        | inr (_, e) ↦ omega (lengths, ap length e)
      ] in
      let (free', e, l) =
        assure-Adds heap (length k + 4) (emit (encode_key k)) pre free (encode_key k) (omega arith)
          (emit-Adds own stack err (encode_key k) pre free (omega arith)) in
      (free', rw (fill_key-nul k v) e, l)

pub check_key-Adds :
    (own : Bool) {stack : List ℕ} (err : Err) (heap : Heap) {pre : Bytes} {key : Key} {kb : Bytes}
    (free : Bytes)
    → Slot pre stack key kb
    → length kb + 8 ≤ length free
    → Adds own stack err (check_key heap key) pre free kb
unfolding check_key
check_key-Adds own err heap {pre = pre} free (at_top h) r =
    (free, ground (arith, append-nil pre), omega arith)
check_key-Adds own err heap {pre = pre} free (in_array {off = off} {stack = stack} e) r =
    (free, rw (byte_at-pre own (off ∷ stack) pre free off e, append-nil pre), omega arith)
check_key-Adds own err heap {pre = pre} free (in_object {off = off} {stack = stack} k v e) r =
    let (free', e', l) = key-Adds own (off ∷ stack) err heap k pre free v r in
    (free', rw (byte_at-pre own (off ∷ stack) pre free off e, text_length-nul k, e'), l)
