-- ===== src/Ojc/Rounds.antt =====
-- One round of `opo_val_to_ojc` on each kind of part.
use opo_c.Prelude.{
  ℕ, ◌≤◌, suc, ◌+◌, ◌^◌, ◌/◌, ◌%◌, ◌<◌, ◌≡◌, ◌==◌, refl, sym, ap, ◌∙◌, if◌then◌else◌, ltb, lt→ltb,
  leb, Option, none, some, List, [], ◌∷◌, ◌++◌, true, false, length, take, append_assoc, arith, inl,
  inr,
}
use opo_c.Prelude.Int.{ℤ, pos, negsuc, to_word, of_word-to_word, to_word-lt}
use opo_c.Outcome.{Outcome, done, ◌>>=◌}
use opo_c.Bytes.{Bytes, skip}
use opo_c.Bytes.RoundTrip.{skip-append}
use opo_c.Err.{Err}
use opo_c.Val.{switch}
use opo_c.Val.Access.{next_byte, uuid_text, hex}
use opo_c.Val.Access.Read.{read_bytes-append}
use opo_c.Val.Iterate.Cases.{end_after-append, skip-of_length}
use opo_c.Ojc.{ojc_array, ojc_object}
use opo_c.Ojc.Text.{uuid_str_len, time_str_len}
use opo_c.Ojc.Parse.{
  Made, Call, OjcVal, ParseCtx, Libs, Step, create, type_of, created, push_made, str_case, key_case,
  dec_case, time_case, container_case, parse_case, pop_ended, parse_loop,
}
use opo_c.Ojc.Calls.{made_of, link, FromEpoch}
use opo_c.Wire.{
  Value, Items, Fields, encode_items, encode_fields, null, boolean, fixnum, string, decimal, uuid,
  time, be, encode, encode_key, IsValid,
}
use opo_c.Wire.Digits.{be-byte, read_uint16-be, read_uint32-be, read_uint64-be, length-append_bytes}
use opo_c.Wire.Cases.{encode_int-cases, encode_string-cases, encode_key-cases}
use opo_c.Ojc.Spots.{Spot, frame, frames, place_of, topped, context, before, push_parse_value_lem}

take-uuid_text : (hi lo : ℕ) → take uuid_str_len (uuid_text hi lo) ≡ uuid_text hi lo
unfolding uuid_text hex
take-uuid_text hi lo = refl

-- a text and its NUL
skip-text : (s tail : Bytes) → skip (length s + 1) (s ++ (0 ∷ tail)) ≡ done tail
skip-text s tail =
    let e : length s + 1 ≡ length (s ++ (0 ∷ [])) = omega (arith, length-append_bytes s (0 ∷ [])) in
    ap (skip (length s + 1)) (sym (append_assoc s (0 ∷ []) tail))
    ∙ skip-of_length _ (s ++ (0 ∷ [])) tail e

-- a value that is no container
abbrev pub IsLeaf : Value → Type 0
IsLeaf (Value.array xs) = ⊥
IsLeaf (Value.object fs) = ⊥
IsLeaf _ = Unit

module _ {D : Type 0} (libs : Libs D) (format : ℤ → ℕ → Bytes)
    (formats : (s f : ℕ)
      → s ≤ 9223372036
      → f < 1000000000
      → libs.format_time s f ≡ some (format (pos s) f)) where
  -- the case that the first byte at the pointer selects
  abbrev pub first_case : Err → ParseCtx D → Bytes → Outcome (Step D)
  first_case err ctx val = do (c, b) ← next_byte val; parse_case libs (switch c) err ctx b

  module _ (err : Err) (ctx : ParseCtx D) (tail : Bytes) where
    time_case_lem :
        (n : ℕ)
        → n < 2 ^ 63
        → time_case libs n err ctx tail
          ≡ push_made
              (Made.str (take time_str_len (format (pos (n / 1000000000)) (n % 1000000000))))
              err
              ctx
              tail
    unfolding time_case
    time_case_lem n h =
        rw (time_case, formats (n / 1000000000) (n % 1000000000) (omega arith) (omega arith)) refl

    str_case-append :
        (s : Bytes)
        → str_case (length s) (length s + 1) err ctx (s ++ (0 ∷ tail))
          ≡ push_made (Made.str s) err ctx tail
    unfolding str_case
    str_case-append s = rw (read_bytes-append s (0 ∷ tail), skip-text s tail) refl

    pub first_case-leaf :
        (v : Value)
        → IsLeaf v
        → IsValid v
        → FromEpoch v
        → first_case err ctx (encode v ++ tail)
          ≡ push_made (made_of libs.strtod format v) err ctx tail
    unfolding encode switch parse_case
    first_case-leaf (Value.array xs) l h p = absurd l
    first_case-leaf (Value.object fs) l h p = absurd l
    first_case-leaf null l h p = refl
    first_case-leaf (boolean true) l h p = refl
    first_case-leaf (boolean false) l h p = refl
    first_case-leaf (decimal t) l h p =
        rw (be-byte _ h) (unfold dec_case in rw (read_bytes-append, skip-append) refl)
    first_case-leaf (uuid hi lo) l h p =
        rw (append_assoc, read_uint64-be _ _ h.0, read_uint64-be _ _ h.1, take-uuid_text) refl
    first_case-leaf (time (pos n)) l h p =
        let w : n % 2 ^ 64 ≡ n = omega arith in
        rw (read_uint64-be _ _ (to_word-lt (2 ^ 64) (pos n) (omega arith)))
          (unfold to_word in rw w (time_case_lem n h))
    first_case-leaf (time (negsuc n)) l h p = absurd p
    first_case-leaf (fixnum i) l h u = elim (encode_int-cases i) [
      | inl (p, e) ↦
          rw
            (
              e,
              be-byte _ (to_word-lt (2 ^ 8) i (omega arith)),
              of_word-to_word (2 ^ 7) i (omega arith) p,
            )
            refl
      | inr (inl (p, e)) ↦
          rw
            (
              e,
              read_uint16-be _ tail (to_word-lt (2 ^ 16) i (omega arith)),
              of_word-to_word (2 ^ 15) i (omega arith) p,
            )
            refl
      | inr (inr (inl (p, e))) ↦
          rw
            (
              e,
              read_uint32-be _ tail (to_word-lt (2 ^ 32) i (omega arith)),
              of_word-to_word (2 ^ 31) i (omega arith) p,
            )
            refl
      | inr (inr (inr e)) ↦
          rw
            (
              e,
              read_uint64-be _ tail (to_word-lt (2 ^ 64) i (omega arith)),
              of_word-to_word (2 ^ 63) i (omega arith) h,
            )
            refl
    ]
    first_case-leaf (string t) l h u = elim (encode_string-cases t) [
      | inl (p, e) ↦ rw (e, be-byte _ p, append_assoc) (str_case-append t)
      | inr (inl (p, e)) ↦
          rw (e, append_assoc, read_uint16-be _ _ p, append_assoc) (str_case-append t)
      | inr (inr e) ↦
          let q : length t < 2 ^ 32 = omega arith in
          let w : ltb (length t) (2 ^ 31) ≡ true = lt→ltb _ _ h in
          rw (e, append_assoc, read_uint32-be _ _ q, append_assoc, w) (str_case-append t)
    ]

    pub first_case-key :
        (k : Bytes)
        → length k < 2 ^ 16
        → first_case err ctx (encode_key k ++ tail)
          ≡ done (err, record ctx { key = some (k ++ (0 ∷ tail)); klen = length k }, tail)
    unfolding switch parse_case key_case
    first_case-key k h =
        let q = skip-text k tail in
        elim (encode_key-cases k) [
          | inl (p, e') ↦ rw (e', be-byte _ p, append_assoc, q) refl
          | inr (p, e') ↦ rw (e', append_assoc, read_uint16-be _ _ h, append_assoc, q) refl
        ]

  -- the case of a container, at a spot where it fits
  container_case_lem :
      (m : Made D) (err : Err) (spot : Spot) (t : Option OjcVal) (n : ℕ) (cs : List (Call D))
      (body tail : Bytes)
      → length body < 2 ^ 32
      → length (frames spot) < 512
      → container_case libs m err (before spot t n cs) (be 4 (length body) ++ (body ++ tail))
        ≡ done (
          err,
          context
              (frame n (type_of m) (length tail) ∷ frames spot)
              none
              0
              (topped spot (created m (before spot t n cs)) t)
              (n + 1)
              (cs ++ (create m ∷ link (place_of spot) n)),
          body ++ tail,
        )
  unfolding container_case
  container_case_lem m err spot t n cs body tail h d =
      let room : leb 512 (length (frames spot)) ≡ false = ground arith in
      rw (room, read_uint32-be _ _ h, push_parse_value_lem m err spot t n cs)
        (rw (end_after-append body tail) refl)

  pub first_case-array :
      (err : Err) (spot : Spot) (t : Option OjcVal) (n : ℕ) (cs : List (Call D)) (xs : Items)
      (tail : Bytes)
      → length (encode_items xs) < 2 ^ 32
      → length (frames spot) < 512
      → first_case err (before spot t n cs) (encode (Value.array xs) ++ tail)
        ≡ done (
          err,
          context
              (frame n ojc_array (length tail) ∷ frames spot)
              none
              0
              (topped spot (record { id = n; type = ojc_array }) t)
              (n + 1)
              (cs ++ (create Made.array ∷ link (place_of spot) n)),
          encode_items xs ++ tail,
        )
  unfolding encode switch parse_case
  first_case-array err spot t n cs xs tail h d =
      rw append_assoc (container_case_lem Made.array err spot t n cs (encode_items xs) tail h d)

  pub first_case-object :
      (err : Err) (spot : Spot) (t : Option OjcVal) (n : ℕ) (cs : List (Call D)) (fs : Fields)
      (tail : Bytes)
      → length (encode_fields fs) < 2 ^ 32
      → length (frames spot) < 512
      → first_case err (before spot t n cs) (encode (Value.object fs) ++ tail)
        ≡ done (
          err,
          context
              (frame n ojc_object (length tail) ∷ frames spot)
              none
              0
              (topped spot (record { id = n; type = ojc_object }) t)
              (n + 1)
              (cs ++ (create Made.object ∷ link (place_of spot) n)),
          encode_fields fs ++ tail,
        )
  unfolding encode switch parse_case
  first_case-object err spot t n cs fs tail h d =
      rw append_assoc (container_case_lem Made.object err spot t n cs (encode_fields fs) tail h d)

  -- the loop after a round, with `k` for the next
  abbrev pub proceed :
      (Err → ParseCtx D → Bytes → Outcome (Err × ParseCtx D)) → Step D → Outcome (Err × ParseCtx D)
  proceed k (err, ctx, val) = if err.code == 0 then k err ctx val else done (err, ctx)

  -- one round, while `val < end`
  pub round :
      (f stop : ℕ) (err : Err) (ctx : ParseCtx D) (val : Bytes)
      → stop < length val
      → parse_loop libs (suc f) stop err ctx val ≡ (
          first_case err (record ctx { stack = pop_ended (length val) ctx.stack }) val
          >>= proceed (parse_loop libs f stop))
  unfolding parse_loop
  round f stop err ctx [] h = absurd (omega arith)
  round f stop err ctx (c ∷ b) h = rw (lt→ltb stop (length (c ∷ b)) h) refl
