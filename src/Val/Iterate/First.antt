-- ===== src/Val/Iterate/First.antt =====
-- The case that `val_iterate` selects by the first byte of each encoding.
use opo_c.Prelude.{
  ℕ, ◌^◌, ◌<◌, ◌≡◌, refl, ◌∷◌, ◌++◌, Bool, true, false, length, append_assoc, arith, inl, inr,
}
use opo_c.Prelude.Int.{ℤ, pos, of_word, InRange, of_word-to_word, to_word-lt}
use opo_c.Outcome.{Outcome, done, ◌>>=◌}
use opo_c.Bytes.{Bytes}
use opo_c.Val.{switch}
use opo_c.Val.Access.{next_byte}
use opo_c.Val.Iterate.{
  Run, Callback, Callbacks, Libc, Step, call, with_arg, with_args, resume, uuid_call, time_call,
  iterate_case,
}
use opo_c.Val.Iterate.Visit.{enclose}
use opo_c.Val.Iterate.Cases.{
  skip-be, skip-byte, fixnum_case-lem, text_case-lem, decimal_case-lem, uuid_case-lem,
  time_case-lem, container_case-lem, proceed,
}
use opo_c.Wire.{
  Items, Fields, null, boolean, decimal, uuid, time, array, object, encode, encode_items,
  encode_fields, encode_int, encode_string, encode_key,
}
use opo_c.Wire.Digits.{be-byte, read_uint16-be, read_uint32-be, read_uint64-be}
use opo_c.Wire.Cases.{encode_int-cases, encode_string-cases, encode_key-cases}

module _ {C D : Type 0} (libc : Libc D) (callbacks : Callbacks C D) where
  -- the case that the first byte at the pointer selects
  abbrev pub first_case :
      (ℕ → Bytes → Run C → Outcome (Bool × Run C)) → Run C → Bytes → Outcome (Step C)
  first_case nested s val = do
    (c, b) ← next_byte val
    iterate_case libc callbacks nested (switch c) s b

  module _ (nested : ℕ → Bytes → Run C → Outcome (Bool × Run C)) (s : Run C) (tail : Bytes) where
    pub first_case-int :
        (i : ℤ)
        → InRange (2 ^ 63) i
        → first_case nested s (encode_int i ++ tail)
          ≡ resume tail (call (with_arg callbacks.fixnum i) s)
    unfolding iterate_case switch
    first_case-int i h = elim (encode_int-cases i) [
      | inl (p, e) ↦
          let w = to_word-lt (2 ^ 8) i (omega arith) in
          rw (e, be-byte _ w)
            (fixnum_case-lem callbacks.fixnum _ 1 s _ tail i
              (rw (of_word-to_word (2 ^ 7) i (omega arith) p)) (skip-byte _ tail))
      | inr (inl (p, e)) ↦
          let w = to_word-lt (2 ^ 16) i (omega arith) in
          rw e (
            fixnum_case-lem callbacks.fixnum _ 2 s _ tail i
              (rw (read_uint16-be _ tail w, of_word-to_word (2 ^ 15) i (omega arith) p))
              (skip-be _ _ tail))
      | inr (inr (inl (p, e))) ↦
          let w = to_word-lt (2 ^ 32) i (omega arith) in
          rw e (
            fixnum_case-lem callbacks.fixnum _ 4 s _ tail i
              (rw (read_uint32-be _ tail w, of_word-to_word (2 ^ 31) i (omega arith) p))
              (skip-be _ _ tail))
      | inr (inr (inr e)) ↦
          let w = to_word-lt (2 ^ 64) i (omega arith) in
          rw e (
            fixnum_case-lem callbacks.fixnum _ 8 s _ tail i
              (rw (read_uint64-be _ tail w, of_word-to_word (2 ^ 63) i (omega arith) h))
              (skip-be _ _ tail))
    ]

    pub first_case-string :
        (t : Bytes)
        → length t < 2 ^ 31
        → first_case nested s (encode_string t ++ tail)
          ≡ resume tail (call (with_args callbacks.string (t ++ 0 ∷ tail) (pos (length t))) s)
    unfolding iterate_case switch
    first_case-string t h = elim (encode_string-cases t) [
      | inl (p, e) ↦
          rw (e, be-byte _ p, append_assoc)
            (text_case-lem callbacks.string (pos (length t)) _ s t tail refl)
      | inr (inl (p, e)) ↦
          rw (e, append_assoc, read_uint16-be _ _ p, append_assoc)
            (text_case-lem callbacks.string (pos (length t)) _ s t tail refl)
      | inr (inr e) ↦
          let q : length t < 2 ^ 32 = omega arith in
          let w : of_word (2 ^ 31) (length t) ≡ pos (length t) = unfold of_word in ground arith in
          rw (e, append_assoc, read_uint32-be _ _ q, append_assoc, w)
            (text_case-lem callbacks.string (pos (length t)) _ s t tail (omega arith))
    ]

    pub first_case-key :
        (t : Bytes)
        → length t < 2 ^ 16
        → first_case nested s (encode_key t ++ tail)
          ≡ resume tail (call (with_args callbacks.key (t ++ 0 ∷ tail) (pos (length t))) s)
    unfolding iterate_case switch
    first_case-key t h = elim (encode_key-cases t) [
      | inl (p, e) ↦
          rw (e, be-byte _ p, append_assoc)
            (text_case-lem callbacks.key (pos (length t)) _ s t tail refl)
      | inr (p, e) ↦
          rw (e, append_assoc, read_uint16-be _ _ h, append_assoc)
            (text_case-lem callbacks.key (pos (length t)) _ s t tail refl)
    ]

    pub first_case-null :
        first_case nested s (encode null ++ tail) ≡ resume tail (call callbacks.null s)
    unfolding iterate_case switch encode
    first_case-null = refl

    pub first_case-boolean :
        (b : Bool)
        → first_case nested s (encode (boolean b) ++ tail)
          ≡ resume tail (call (with_arg callbacks.boolean b) s)
    unfolding iterate_case switch encode
    first_case-boolean true = refl
    first_case-boolean false = refl

    pub first_case-decimal :
        (t : Bytes)
        → length t < 256
        → first_case nested s (encode (decimal t) ++ tail)
          ≡ resume tail (call (with_arg callbacks.decimal (libc.strtod t)) s)
    unfolding iterate_case switch encode
    first_case-decimal t h =
        rw (be-byte _ h) (decimal_case-lem libc.strtod callbacks.decimal s t tail)

    pub first_case-uuid :
        (hi lo : ℕ)
        → hi < 2 ^ 64
        → lo < 2 ^ 64
        → first_case nested s (encode (uuid hi lo) ++ tail)
          ≡ resume tail (uuid_call callbacks.uuid callbacks.uuid_str hi lo s)
    unfolding iterate_case switch encode
    first_case-uuid hi lo h h' =
        rw append_assoc (uuid_case-lem callbacks.uuid callbacks.uuid_str s hi lo tail h h')

    pub first_case-time :
        (t : ℤ)
        → InRange (2 ^ 63) t
        → first_case nested s (encode (time t) ++ tail)
          ≡ resume tail (time_call libc.format_time callbacks.time callbacks.time_str t s)
    unfolding iterate_case switch encode
    first_case-time t h =
        time_case-lem libc.format_time callbacks.time callbacks.time_str s t tail h

    module _ (k : Bytes → Run C → Outcome (Bool × Run C)) (members : Callback C) where
      pub first_case-array :
          (xs : Items)
          → length (encode_items xs) < 2 ^ 32
          → ((s : Run C) → nested (length tail) (encode_items xs ++ tail) s ≡ done (members s))
          → (first_case nested s (encode (array xs) ++ tail) >>= proceed k) ≡ (
              let (cont, s') = enclose callbacks.end_array members (call callbacks.begin_array s) in
              proceed k (cont, s', tail))
      unfolding iterate_case switch encode
      first_case-array xs h ih =
          rw append_assoc (container_case-lem nested k _ members _ (encode_items xs) tail h ih)

      pub first_case-object :
          (fs : Fields)
          → length (encode_fields fs) < 2 ^ 32
          → ((s : Run C) → nested (length tail) (encode_fields fs ++ tail) s ≡ done (members s))
          → (first_case nested s (encode (object fs) ++ tail) >>= proceed k) ≡ (
              let (cont, s') =
                enclose callbacks.end_object members (call callbacks.begin_object s) in
              proceed k (cont, s', tail))
      unfolding iterate_case switch encode
      first_case-object fs h ih =
          rw append_assoc (container_case-lem nested k _ members _ (encode_fields fs) tail h ih)
