-- ===== src/Builder/Nest.antt =====
-- Containers: the calls that open one leave a gap for its size, and `opo_builder_pop` fills it in.
use opo_c.Prelude.{
  ℕ, ◌+◌, ◌-◌, ◌%◌, ◌^◌, ◌<◌, ◌≤◌, ◌≡◌, ltb, List, [], ◌∷◌, ◌++◌, Bool, true, false, length,
  append_assoc, arith,
}
use opo_c.Outcome.{done}
use opo_c.Bytes.{Bytes}
use opo_c.Err.{Err, opo_err_ok}
use opo_c.Val.{tag, val_array, val_obj}
use opo_c.Wire.{be}
use opo_c.Wire.Digits.{lengths, fill_uint32-eq-be}
use opo_c.Builder.{Heap, Call, if_ok, splice, emit}
use opo_c.Builder.Push.{
  Key, close, advance, open_container, opo_builder_push_array, opo_builder_push_object,
  opo_builder_pop,
}
use opo_c.Builder.Room.{at, splice-append, Adds, emit-Adds, advance-Adds}
use opo_c.Builder.Slot.{Slot, assure-Adds, check_key-Adds}

-- What is written of a container with the bytes `body` behind the offset of its tag.
abbrev pub frame : ℕ → Bytes → Bytes
frame x body = x ∷ (be 4 (length body) ++ body)

frame-append :
    (base body free : Bytes) (x : ℕ) (gap : Bytes)
    → (base ++ (x ∷ (gap ++ body))) ++ free ≡ (base ++ (x ∷ [])) ++ (gap ++ (body ++ free))
frame-append base body free x gap = rw (
  append_assoc base (x ∷ (gap ++ body)) free,
  append_assoc gap body free,
  append_assoc base (x ∷ []) (gap ++ (body ++ free)),
)

splice-frame :
    (base gap body free : Bytes) (x : ℕ)
    → length gap ≡ 4
    → splice (length base + 1) (be 4 (length body)) ((base ++ (x ∷ (gap ++ body))) ++ free)
      ≡ done ((base ++ frame x body) ++ free)
splice-frame base gap body free x g =
    let l : length base + 1 ≡ length (base ++ (x ∷ [])) = omega lengths in
    rw (l, frame-append base body free x gap, frame-append base body free x (be 4 (length body)))
      (splice-append (base ++ (x ∷ [])) (be 4 (length body)) gap (body ++ free)
        (omega (lengths, g)))

module _ (own : Bool) (stack : List ℕ) (err : Err) where
  -- The size that is filled in is the number of bytes behind the gap.
  pub opo_builder_pop-frame :
      (base gap body free : Bytes) (x : ℕ)
      → length gap ≡ 4
      → length body < 2 ^ 32
      → opo_builder_pop (err, at own (length base ∷ stack) (base ++ (x ∷ (gap ++ body))) free)
        ≡ done (opo_err_ok, (err, at own stack (base ++ frame x body) free))
  unfolding opo_builder_pop close
  opo_builder_pop-frame base gap body free x g b =
      let n : (length (base ++ (x ∷ (gap ++ body))) - length base - 5) % 2 ^ 32 ≡ length body =
        omega (lengths, g) in
      let c : length (base ++ (x ∷ (gap ++ body))) ≡ length (base ++ frame x body) =
        omega (lengths, g) in
      rw (n, fill_uint32-eq-be (length body), splice-frame base gap body free x g, c)

  -- The tag, and a gap of four bytes.
  tag-Adds :
      (x : ℕ) (pre free : Bytes)
      → 5 ≤ length free
      → (gap : Bytes) × Adds own stack err
          (λ s. if_ok (emit (x ∷ []) s) (advance 4))
          pre
          free
          (x ∷ gap)
        × (length gap ≡ 4)
  tag-Adds x pre free h =
      let (free₁, e₁, l₁) = emit-Adds own stack err (x ∷ []) pre free (omega arith) in
      let (gap, (free₂, e₂, l₂), g) =
        advance-Adds own stack err 4 (pre ++ (x ∷ [])) free₁ (omega arith) in
      (gap, (free₂, rw (e₁, ← append_assoc pre (x ∷ []) gap) e₂, omega arith), g)

-- The call writes a key, a tag and a gap, and the container that is open now starts at the tag.
abbrev pub Opens : Bool → List ℕ → Err → Call → Bytes → Bytes → Bytes → ℕ → Type 0
Opens own stack err call pre free kb x =
    (gap : Bytes) × (free' : Bytes) × (call (err, at own stack pre free)
      ≡ done
          (opo_err_ok, (err, at own (length (pre ++ kb) ∷ stack) ((pre ++ kb) ++ (x ∷ gap)) free')))
    × (length gap ≡ 4)
    × (length free ≡ length kb + 5 + length free')

module _ (own : Bool) {stack : List ℕ} (err : Err) (heap : Heap) {pre : Bytes} {key : Key}
    {kb : Bytes} (free : Bytes) (slot : Slot pre stack key kb) (deep : length stack < 512)
    (room : length kb + 13 ≤ length free) where
  pub opo_builder_push_array-Opens :
      Opens own stack err (opo_builder_push_array heap key) pre free kb (tag val_array)
  unfolding opo_builder_push_array open_container
  opo_builder_push_array-Opens =
      let d : ltb 512 (length stack) ≡ false = ground arith in
      let d' : ltb (length stack) 512 ≡ true = ground arith in
      let (free₁, e₁, l₁) = check_key-Adds own err heap free slot (omega arith) in
      let (gap, (free₂, e₂, l₂), g) =
        tag-Adds own (length (pre ++ kb) ∷ stack) err (tag val_array) (pre ++ kb) free₁
          (omega arith) in
      (gap, free₂, rw (d, e₁, d') e₂, g, omega (arith, g))

  pub opo_builder_push_object-Opens :
      Opens own stack err (opo_builder_push_object heap key) pre free kb (tag val_obj)
  unfolding opo_builder_push_object open_container
  opo_builder_push_object-Opens =
      let d : ltb 512 (length stack) ≡ false = ground arith in
      let d' : ltb (length stack) 512 ≡ true = ground arith in
      let (free₁, e₁, l₁) = check_key-Adds own err heap free slot (omega arith) in
      let (gap, a, g) =
        tag-Adds own (length (pre ++ kb) ∷ stack) err (tag val_obj) (pre ++ kb) free₁
          (omega arith) in
      let (free₂, e₂, l₂) =
        assure-Adds own (length (pre ++ kb) ∷ stack) err heap 5
          (λ s. if_ok (emit (tag val_obj ∷ []) s) (advance 4)) (pre ++ kb) free₁ (tag val_obj ∷ gap)
          (omega arith) a in
      (gap, free₂, rw (d, e₁, d') e₂, g, omega (arith, g))
