-- ===== src/Ojc/Turn.antt =====
-- `opo_val_to_ojc` makes the calls that build the value.
use opo_c.Prelude.{
  ℕ, ◌<◌, zero, suc, ◌+◌, ◌≤◌, ◌≡◌, refl, sym, ap, ◌∙◌, Option, none, some, List, [], ◌∷◌, ◌++◌,
  length, append_assoc, arith,
}
use opo_c.Prelude.Int.{ℤ, pos}
use mathlib.Core.Path.{subst}
use opo_c.Bytes.{Bytes}
use opo_c.Err.{Err}
use opo_c.Ojc.{ojc_array, ojc_object}
use opo_c.Ojc.Parse.{Made, Call, OjcVal, StackNode, Libs, pop_ended, parse_loop}
use opo_c.Ojc.Calls.{
  size, size_items, size_fields, calls_in, calls_items, calls_fields, ends, ends_items, ends_fields,
  FromEpoch, FromEpochItems, FromEpochFields, Closes, ClosesItems, ClosesFields, Fits, FitsItems,
  FitsFields, rounds, rounds_items, rounds_fields,
}
use opo_c.Ojc.Spots.{in_array, in_object, frame, frames, context}
use opo_c.Ojc.Rounds.{first_case-key, first_case-array, first_case-object}
use opo_c.Wire.{
  Value, Items, Fields, null, boolean, fixnum, string, decimal, uuid, time, array, object, no_items,
  item, no_fields, field, encode, encode_key, encode_items, encode_fields, IsValid, IsValidItems,
  IsValidFields,
}
use opo_c.Wire.Digits.{lengths, length-append_bytes}
use opo_c.Wire.Sizes.{length-encode_pos}
use opo_c.Ojc.Stack.{AllEnded, AllEnded-mono, pop_ended-one, pop_ended-two}
use opo_c.Ojc.Leaves.{calls_at, Turns, leaf-Turns}
use opo_c.Ojc.Turned.{one_round, Turned, behind, container-Turned, seq-Turned, nil-Turned}

module _ {D : Type 0} (libs : Libs D) (format : ℤ → ℕ → Bytes)
    (formats : (s f : ℕ)
      → s ≤ 9223372036
      → f < 1000000000
      → libs.format_time s f ≡ some (format (pos s) f)) where
  mutual
    unfolding encode calls_in

    pub encode-Turns :
        (v : Value) → IsValid v → FromEpoch v → Closes v → Turns libs format formats v
    encode-Turns null h u c = leaf-Turns libs format formats null tt h u
    encode-Turns (boolean b) h u c = leaf-Turns libs format formats (boolean b) tt h u
    encode-Turns (fixnum i) h u c = leaf-Turns libs format formats (fixnum i) tt h u
    encode-Turns (string s) h u c = leaf-Turns libs format formats (string s) tt h u
    encode-Turns (decimal s) h u c = leaf-Turns libs format formats (decimal s) tt h u
    encode-Turns (uuid hi lo) h u c = leaf-Turns libs format formats (uuid hi lo) tt h u
    encode-Turns (time s) h u c = leaf-Turns libs format formats (time s) tt h u
    encode-Turns (array xs) h u c = λ stop tail err spot st t n cs d q z p b fits.
        elim d as (λ d. length (frames spot) + d ≤ 512 → Fits d (array xs) → _) [
          | zero ↦ λ b fits. absurd fits
          | suc d ↦ λ b fits.
              container-Turned libs format formats (array xs) Made.array (encode_items xs) stop tail
                err spot st t n (rounds_items xs) (ends_items 0 xs) (size_items xs) cs
                (calls_items libs.strtod format xs n (n + 1))
                (behind libs format formats (encode (array xs)) tail stop
                  (length-encode_pos (array xs)) q)
                z p (first_case-array libs format formats err spot t n cs xs tail h.0 (omega arith))
                (items-Turned xs stop tail err n (frames spot) [] _ (n + 1) _ d h.1 u c q z tt b
                  fits)
        ]
          b fits
    encode-Turns (object fs) h u c = λ stop tail err spot st t n cs d q z p b fits.
        elim d as (λ d. length (frames spot) + d ≤ 512 → Fits d (object fs) → _) [
          | zero ↦ λ b fits. absurd fits
          | suc d ↦ λ b fits.
              container-Turned libs format formats (object fs) Made.object (encode_fields fs) stop
                tail err spot st t n (rounds_fields fs) (ends_fields 0 fs) (size_fields fs) cs
                (calls_fields libs.strtod format fs n (n + 1))
                (behind libs format formats (encode (object fs)) tail stop
                  (length-encode_pos (object fs)) q)
                z p
                (first_case-object libs format formats err spot t n cs fs tail h.0 (omega arith))
                (fields-Turned fs stop tail err n (frames spot) [] _ (n + 1) _ d h.1 u c q z tt b
                  fits)
        ]
          b fits

    items-Turned :
        (xs : Items) (stop : ℕ) (tail : Bytes) (err : Err) (p : ℕ) (s ended : List StackNode)
        (t : Option OjcVal) (n : ℕ) (cs : List (Call D)) (d : ℕ)
        → IsValidItems xs
        → FromEpochItems xs
        → ClosesItems (length ended) xs
        → stop ≤ length tail
        → err.code ≡ 0
        → AllEnded (length (encode_items xs ++ tail)) ended
        → length s + suc d ≤ 512
        → FitsItems d xs
        → Turned libs format formats
            (rounds_items xs)
            (ends_items (length ended) xs)
            stop
            (encode_items xs)
            tail
            err
            (context (ended ++ frame p ojc_array (length tail) ∷ s) none 0 t n cs)
            (frame p ojc_array (length tail) ∷ s)
            t
            (n + size_items xs)
            (cs ++ calls_items libs.strtod format xs p n)
    items-Turned no_items stop tail err p s ended t n cs d h u c q z a b fits =
        nil-Turned libs format formats stop tail err ended (frame p ojc_array (length tail) ∷ s) t n
          cs a
    items-Turned (item v xs) stop tail err p s ended t n cs d h u c q z a b fits =
        let tail' = encode_items xs ++ tail in
        let cur = frame p ojc_array (length tail) in
        let st = ended ++ cur ∷ s in
        let cs₁ = calls_at libs format formats cs v (in_array p (length tail) s) n in
        let l = length-append_bytes (encode_items xs) tail in
        let l' = length-append_bytes (encode v) tail' in
        let o = length-encode_pos v in
        let a' = AllEnded-mono _ (length (encode v ++ tail')) ended (omega (lengths, l')) a in
        let pops =
          pop_ended-one (length (encode v ++ tail')) ended (frame p ojc_array (length tail) ∷ s) c.0
            a' (omega arith) in
        let (ended₁, e₁, a₁, go₁) =
          encode-Turns v h.0 u.0 c.1 stop tail' err (in_array p (length tail) s) st t n cs d
            (omega arith) z pops (omega arith) fits.0 in
        let rest =
          items-Turned xs stop tail err p s ended₁ t (n + size v) cs₁ d h.1 u.1
            (subst (λ e. ClosesItems e xs) (sym e₁) c.2) q z a₁ b fits.1 in
        seq-Turned libs format formats (rounds v) (rounds_items xs) (ends_items (length ended₁) xs)
          (ends_items (ends v) xs) stop (encode v) (encode_items xs) tail err
          (context st none 0 t n cs) (context (ended₁ ++ cur ∷ s) none 0 t (n + size v) cs₁)
          (cur ∷ s) t (n + size v + size_items xs) (n + (size v + size_items xs))
          (cs₁ ++ calls_items libs.strtod format xs p (n + size v))
          (cs ++ calls_items libs.strtod format (item v xs) p n) go₁ rest
          (ap (λ e. ends_items e xs) e₁) (omega arith) (append_assoc cs _ _)

    fields-Turned :
        (fs : Fields) (stop : ℕ) (tail : Bytes) (err : Err) (p : ℕ) (s ended : List StackNode)
        (t : Option OjcVal) (n : ℕ) (cs : List (Call D)) (d : ℕ)
        → IsValidFields fs
        → FromEpochFields fs
        → ClosesFields (length ended) fs
        → stop ≤ length tail
        → err.code ≡ 0
        → AllEnded (length (encode_fields fs ++ tail)) ended
        → length s + suc d ≤ 512
        → FitsFields d fs
        → Turned libs format formats
            (rounds_fields fs)
            (ends_fields (length ended) fs)
            stop
            (encode_fields fs)
            tail
            err
            (context (ended ++ frame p ojc_object (length tail) ∷ s) none 0 t n cs)
            (frame p ojc_object (length tail) ∷ s)
            t
            (n + size_fields fs)
            (cs ++ calls_fields libs.strtod format fs p n)
    fields-Turned no_fields stop tail err p s ended t n cs d h u c q z a b fits =
        nil-Turned libs format formats stop tail err ended (frame p ojc_object (length tail) ∷ s) t
          n cs a
    fields-Turned (field k v fs) stop tail err p s ended t n cs d h u c q z a b fits =
        let tail₁ = encode_fields fs ++ tail in
        let tail₂ = encode v ++ tail₁ in
        let cur = frame p ojc_object (length tail) in
        let st = ended ++ cur ∷ s in
        let spot = in_object p (length tail) s k (0 ∷ tail₂) in
        let left = length (encode_key k ++ tail₂) in
        let l = length-append_bytes (encode_fields fs) tail in
        let l₁ = length-append_bytes (encode v) tail₁ in
        let l₂ = length-append_bytes (encode_key k) tail₂ in
        let o = length-encode_pos v in
        let a' = AllEnded-mono _ left ended (omega (lengths, l₁, l₂)) a in
        let pops =
          pop_ended-two left (length tail₂) ended (cur ∷ s) c.0 a' (omega arith) (omega arith)
            (omega arith) in
        let (ended₁, e₁, a₁, go₁) =
          encode-Turns v h.1 u.0 c.1 stop tail₁ err spot (pop_ended left st) t n cs d (omega arith)
            z pops (omega arith) fits.0 in
        let cs₁ = calls_at libs format formats cs v spot n in
        let members =
          fields-Turned fs stop tail err p s ended₁ t (n + size v) cs₁ d h.2 u.1
            (subst (λ e. ClosesFields e fs) (sym e₁) c.2) q z a₁ b fits.1 in
        let mid = context (pop_ended left st) (some (k ++ (0 ∷ tail₂))) (length k) t n cs in
        let rest =
          seq-Turned libs format formats (rounds v) (rounds_fields fs)
            (ends_fields (length ended₁) fs) (ends_fields (ends v) fs) stop (encode v)
            (encode_fields fs) tail err mid (context (ended₁ ++ cur ∷ s) none 0 t (n + size v) cs₁)
            (cur ∷ s) t (n + size v + size_fields fs) (n + (size v + size_fields fs))
            (cs₁ ++ calls_fields libs.strtod format fs p (n + size v))
            (cs ++ calls_fields libs.strtod format (field k v fs) p n) go₁ members
            (ap (λ e. ends_fields e fs) e₁) (omega arith) (append_assoc cs _ _) in
        let go = λ (f : ℕ).
          ap
            (λ w.
              parse_loop libs w stop err (context st none 0 t n cs)
                (encode_key k ++ ((encode v ++ encode_fields fs) ++ tail)))
            (omega arith)
          ∙ ap
              (λ b. parse_loop libs (suc f) stop err (context st none 0 t n cs) (encode_key k ++ b))
              (append_assoc (encode v) (encode_fields fs) tail)
          ∙ one_round libs format formats f stop err st (pop_ended left st) none 0 t n cs
              (encode_key k ++ tail₂) tail₂ mid (omega arith) z refl
              (first_case-key libs format formats err (context (pop_ended left st) none 0 t n cs)
                tail₂ k h.0)
          ∙ ap (parse_loop libs f stop err mid)
              (sym (append_assoc (encode v) (encode_fields fs) tail)) in
        seq-Turned libs format formats 1 (rounds v + rounds_fields fs) (ends_fields (ends v) fs)
          (ends_fields (ends v) fs) stop (encode_key k) (encode v ++ encode_fields fs) tail err
          (context st none 0 t n cs) mid (cur ∷ s) t _ _ _ _ go rest refl refl refl
