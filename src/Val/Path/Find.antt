-- ===== src/Val/Path/Find.antt =====
-- `opo_val_get` finds the value that a path names.
use opo_c.Prelude.{
  ℕ, zero, suc, ◌<◌, ◌≤◌, ◌≡◌, ◌==◌, refl, sym, ap, ◌∙◌, inl, inr, if◌then◌else◌, Option, none,
  some, List, [], ◌∷◌, ◌++◌, Bool-cases, true, false, length, append_assoc, arith,
}
use opo_c.Prelude.Int.{ℤ, pos, negsuc}
use mathlib.Core.Path.{subst}
use opo_c.Outcome.{Outcome, done, fault, out_of_fuel, ◌>>=◌}
use opo_c.Bytes.{Bytes}
use opo_c.Val.{switch}
use opo_c.Val.Path.{find_dot, seek_key, seek_index, seek_case, opo_val_get}
use opo_c.Val.Members.Walk.{step_over-encode, step_over-encode_key}
use opo_c.Wire.{
  Value, Items, Fields, null, boolean, decimal, uuid, time, fixnum, string, no_items, item,
  no_fields, field, array, object, encode, encode_key, encode_items, encode_fields, IsValid,
  IsValidItems, IsValidFields,
}
use opo_c.Wire.Cases.{encode_int-cases, encode_string-cases}
use opo_c.Val.Access.{next_byte}
use opo_c.Wire.Digits.{length-append_bytes, lengths, read_uint32-be}
use opo_c.Wire.Sizes.{length-encode_pos, length-encode_key_pos}
use opo_c.Val.Path.Lookup.{
  segments, longer, member_of, at_index, lookup, field_of, item_of, same_text, Found, nowhere,
  there, Found-widen, val_key-encode_key, is_key-lem,
}

-- the pointer that a run ends with
abbrev Finds : ℕ → Outcome (Option Bytes) → Option Value → Type 0
Finds n run o = (r : Option Bytes) × (run ≡ done r) × Found n r o

seek_key-encode :
    (f : ℕ) (s : Bytes) (fs : Fields) (rest : Bytes)
    → IsValidFields fs
    → length (encode_fields fs) < f
    → Finds
        (length (encode_fields fs))
        (seek_key f s (length (encode_fields fs)) (encode_fields fs ++ rest))
        (field_of s fs)
unfolding seek_key encode_fields
seek_key-encode zero s fs rest v h = absurd (omega arith)
seek_key-encode (suc f) s no_fields rest v h = (none, refl, nowhere)
seek_key-encode (suc f) s (field k x fs) rest v h =
    let e = length-append_bytes (encode_key k) (encode x ++ encode_fields fs) in
    let e' = length-append_bytes (encode x) (encode_fields fs) in
    let p = length-encode_key_pos k in
    let more : (length (encode_fields (field k x fs)) == 0) ≡ false = ground (arith, e, p) in
    elim (Bool-cases (same_text s k)) [
      | inl q ↦
          rw
            (
              more,
              e,
              append_assoc,
              val_key-encode_key k _ v.0,
              step_over-encode_key k _ _ v.0,
              is_key-lem s k,
              q,
              append_assoc,
            )
            (some (encode x ++ (encode_fields fs ++ rest)), refl, there x _ v.1 (omega arith))
      | inr q ↦
          let (r, w, d) = seek_key-encode f s fs rest v.2 (omega arith) in
          rw
            (
              more,
              e,
              append_assoc,
              val_key-encode_key k _ v.0,
              step_over-encode_key k _ _ v.0,
              is_key-lem s k,
              q,
              e',
              append_assoc,
              step_over-encode x _ _ v.1,
            )
            (r, w, Found-widen _ _ _ _ (omega arith) d)
    ]

seek_index-encode :
    (f : ℕ) (i : ℤ) (xs : Items) (rest : Bytes)
    → IsValidItems xs
    → length (encode_items xs) < f
    → Finds
        (length (encode_items xs))
        (seek_index f i (length (encode_items xs)) (encode_items xs ++ rest))
        (item_of i xs)
unfolding seek_index encode_items
seek_index-encode zero i xs rest v h = absurd (omega arith)
seek_index-encode (suc f) (negsuc n) no_items rest v h = (none, refl, nowhere)
seek_index-encode (suc f) (pos n) no_items rest v h = (none, refl, nowhere)
seek_index-encode (suc f) (pos zero) (item x xs) rest v h =
    let e = length-append_bytes (encode x) (encode_items xs) in
    let more : (length (encode_items (item x xs)) == 0) ≡ false =
      ground (arith, e, length-encode_pos x) in
    rw (more, append_assoc) (_, refl, there x _ v.0 (omega arith))
seek_index-encode (suc f) (pos (suc n)) (item x xs) rest v h =
    let e = length-append_bytes (encode x) (encode_items xs) in
    let l = length-encode_pos x in
    let more : (length (encode_items (item x xs)) == 0) ≡ false = ground (arith, e, l) in
    let (r, w, d) = seek_index-encode f (pos n) xs rest v.1 (omega arith) in
    rw (more, e, append_assoc, step_over-encode x _ _ v.0)
      (r, w, Found-widen _ _ _ _ (omega arith) d)
seek_index-encode (suc f) (negsuc n) (item x xs) rest v h =
    let e = length-append_bytes (encode x) (encode_items xs) in
    let l = length-encode_pos x in
    let more : (length (encode_items (item x xs)) == 0) ≡ false = ground (arith, e, l) in
    let (r, w, d) = seek_index-encode f (negsuc (suc n)) xs rest v.1 (omega arith) in
    rw (more, e, append_assoc, step_over-encode x _ _ v.0)
      (r, w, Found-widen _ _ _ _ (omega arith) d)

bind_assoc :
    {A B C : Type 0} (m : Outcome A) (f : A → Outcome B) (g : B → Outcome C)
    → ((m >>= f) >>= g) ≡ (m >>= λ x. f x >>= g)
bind_assoc (done x) f g = refl
bind_assoc fault f g = refl
bind_assoc out_of_fuel f g = refl

-- the first segment, and those behind it
abbrev behind : Option Bytes → List Bytes
behind none = []
behind (some path) = segments path

segments-find_dot :
    (x : ℕ) (path : Bytes)
    → segments (x ∷ path) ≡ (find_dot (x ∷ path)).0 ∷ behind (find_dot (x ∷ path)).1
segments-find_dot x [] = ground arith
segments-find_dot x (y ∷ path) = elim (Bool-cases (x == b'.')) [
  | inl e ↦ rw e refl
  | inr e ↦ rw e (ap (longer x) (segments-find_dot y path))
]

-- The index that a path begins with: what `strtol` reads, if that is all of the first segment.
abbrev pub index_at : (Bytes → ℤ × ℕ) → Bytes → Option ℤ
index_at strtol path =
    if (strtol path).1 == length (find_dot path).0 then some (strtol path).0 else none

module _ (strtol : Bytes → ℤ × ℕ) (index : Bytes → Option ℤ)
    (reads : (path : Bytes) → index_at strtol path ≡ index (find_dot path).0) where
  seek_case-encode :
      (steps : ℕ) (path : Bytes) (v : Value) (rest : Bytes)
      → IsValid v
      → length (encode v) < steps
      → Finds
          (length (encode v))
          (next_byte (encode v ++ rest) >>= λ x. seek_case strtol steps path (switch x.0) x.1)
          (member_of index (find_dot path).0 v)
  unfolding seek_case encode switch
  seek_case-encode steps path (object fs) rest v h =
      let (r, w, d) = seek_key-encode steps (find_dot path).0 fs rest v.1 (omega (lengths, h)) in
      rw (append_assoc, read_uint32-be _ _ v.0) (r, w, Found-widen _ _ _ _ (omega lengths) d)
  seek_case-encode steps path (array xs) rest v h =
      elim (Bool-cases ((strtol path).1 == length (find_dot path).0)) [
        | inl e ↦
            let q : index (find_dot path).0 ≡ some (strtol path).0 = sym (reads path) ∙ rw e refl in
            let (r, w, d) =
              seek_index-encode steps (strtol path).0 xs rest v.1 (omega (lengths, h)) in
            let wide : Found (length (encode (array xs))) r (item_of (strtol path).0 xs) =
              Found-widen _ _ _ _ (omega lengths) d in
            rw (e, append_assoc, read_uint32-be _ _ v.0)
              (r, w, subst (λ o. Found (length (encode (array xs))) r (at_index xs o)) (sym q) wide)
        | inr e ↦
            let q : index (find_dot path).0 ≡ none = sym (reads path) ∙ rw e refl in
            rw e (
              none,
              refl,
              subst (λ o. Found (length (encode (array xs))) none (at_index xs o)) (sym q) nowhere,
            )
      ]
  seek_case-encode steps path null rest v h = (none, refl, nowhere)
  seek_case-encode steps path (boolean true) rest v h = (none, refl, nowhere)
  seek_case-encode steps path (boolean false) rest v h = (none, refl, nowhere)
  seek_case-encode steps path (decimal s) rest v h = (none, refl, nowhere)
  seek_case-encode steps path (uuid hi lo) rest v h = (none, refl, nowhere)
  seek_case-encode steps path (time t) rest v h = (none, refl, nowhere)
  seek_case-encode steps path (fixnum i) rest v h = elim (encode_int-cases i) [
    | inl (_, e) ↦ rw e (none, refl, nowhere)
    | inr (inl (_, e)) ↦ rw e (none, refl, nowhere)
    | inr (inr (inl (_, e))) ↦ rw e (none, refl, nowhere)
    | inr (inr (inr e)) ↦ rw e (none, refl, nowhere)
  ]
  seek_case-encode steps path (string s) rest v h = elim (encode_string-cases s) [
    | inl (_, e) ↦ rw e (none, refl, nowhere)
    | inr (inl (_, e)) ↦ rw e (none, refl, nowhere)
    | inr (inr e) ↦ rw e (none, refl, nowhere)
  ]

  -- what `opo_val_get` does with the member
  abbrev onward : ℕ → ℕ → Option Bytes → Option Bytes → Outcome (Option Bytes)
  onward depth steps p r = elim r [
    | none ↦ done none
    | some v ↦ elim p [
      | none ↦ done (some v)
      | some path ↦ opo_val_get strtol depth steps (some v) (some path)
    ]
  ]

  -- the same on a member that is found or not, and the segments behind the first
  continue :
      (depth steps n : ℕ) (p r : Option Bytes) (o : Option Value)
      → ((path : Bytes) (v : Value) (rest : Bytes)
          → IsValid v
          → length (segments path) ≤ depth
          → length (encode v) < steps
          → Finds
              (length (encode v))
              (opo_val_get strtol depth steps (some (encode v ++ rest)) (some path))
              (lookup index (segments path) v))
      → Found n r o
      → length (behind p) ≤ depth
      → n < steps
      → Finds n
          (onward depth steps p r)
          (elim o [ none ↦ none | some w ↦ lookup index (behind p) w ])
  continue depth steps n p r o ih nowhere d l = (none, refl, nowhere)
  continue depth steps n none r o ih (there w rest v h) d l = (_, refl, there w rest v h)
  continue depth steps n (some path) r o ih (there w rest v h) d l =
      let (r', e, f) = ih path w rest v d (omega arith) in (r', e, Found-widen _ _ _ _ h f)

  -- `opo_val_get` on a value of the format finds the value that the segments of the path name,
  -- and answers NULL where they name none. The fuel is above the number of bytes of the value
  -- and, for the segments, not below their number.
  pub opo_val_get-lookup :
      (depth steps : ℕ) (path : Bytes) (v : Value) (rest : Bytes)
      → IsValid v
      → length (segments path) ≤ depth
      → length (encode v) < steps
      → (r : Option Bytes) × (opo_val_get strtol depth steps (some (encode v ++ rest)) (some path)
          ≡ done r)
        × Found (length (encode v)) r (lookup index (segments path) v)
  unfolding opo_val_get
  opo_val_get-lookup depth steps [] v rest ok d l = (_, refl, there v rest ok (omega arith))
  opo_val_get-lookup zero steps (x ∷ path) v rest ok d l =
      let e : length (segments (x ∷ path)) ≡ suc (length (behind (find_dot (x ∷ path)).1)) =
        ap length (segments-find_dot x path) in
      absurd (omega (arith, e))
  opo_val_get-lookup (suc depth) steps (x ∷ path) v rest ok d l =
      let e : length (segments (x ∷ path)) ≡ suc (length (behind (find_dot (x ∷ path)).1)) =
        ap length (segments-find_dot x path) in
      let (r, p, found) = seek_case-encode steps (x ∷ path) v rest ok l in
      let (r', p', found') =
        continue depth steps (length (encode v)) (find_dot (x ∷ path)).1 r _
          (opo_val_get-lookup depth steps) found (omega (arith, e)) l in
      (
        r',
        sym (bind_assoc (next_byte (encode v ++ rest)) _ _)
            ∙ ap (λ m. m >>= onward depth steps (find_dot (x ∷ path)).1) p
            ∙ p',
        subst (λ ss. Found (length (encode v)) r' (lookup index ss v))
            (sym (segments-find_dot x path)) found',
      )
