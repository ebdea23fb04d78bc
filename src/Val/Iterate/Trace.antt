-- ===== src/Val/Iterate/Trace.antt =====
-- `opo_val_iterate` on the wire format makes the calls of `visit`.
use opo_c.Prelude.{
  ℕ, zero, suc, ◌-◌, ◌<◌, ◌≤◌, ◌≡◌, ap, ◌∙◌, ◌∷◌, ◌++◌, true, length, append_assoc, arith,
}
use opo_c.Prelude.Int.{pos}
use opo_c.Outcome.{done}
use opo_c.Bytes.{Bytes}
use opo_c.Val.Iterate.{Run, Callbacks, Libc, resume, end_after, val_iterate, opo_val_iterate}
use opo_c.Val.Iterate.Visit.{
  ask_text, enclose, and_then, visit, visit_items, visit_fields, Steady, SteadyItems, SteadyFields,
}
use opo_c.Val.Iterate.Answers.{
  call-ask, call-ask_with, call-ask_text, uuid_call-visit, time_call-visit,
}
use opo_c.Val.Iterate.Cases.{proceed}
use opo_c.Val.Iterate.First.{
  first_case-null, first_case-boolean, first_case-int, first_case-string, first_case-decimal,
  first_case-uuid, first_case-time, first_case-array, first_case-object,
}
use opo_c.Val.Iterate.Weight.{weight, weight_items, weight_fields, weight-lt-length}
use opo_c.Wire.{
  Value, Items, Fields, null, boolean, fixnum, string, decimal, uuid, time, array, object, no_items,
  item, no_fields, field, encode, encode_key, encode_items, encode_fields, IsValid, IsValidItems,
  IsValidFields,
}
use opo_c.Wire.Digits.{length-append_bytes}
use opo_c.Wire.Sizes.{length-encode_pos, length-encode_key_pos}
use opo_c.Val.Iterate.Parts.{
  round, at_end, Visits, leaf, proceed-and_then, behind, encode_key-Visits, and_then_last,
}

module _ {C D : Type 0} (libc : Libc D) (callbacks : Callbacks C D) where
  mutual
    unfolding encode visit weight

    encode-Visits :
        (v : Value)
        → IsValid v
        → Steady libc callbacks v
        → Visits libc callbacks (encode v) (visit libc callbacks v) (weight v)
    encode-Visits null h u =
        leaf libc callbacks (encode null) (visit libc callbacks null) (λ nested s tail.
          first_case-null libc callbacks nested s tail
          ∙ ap (resume tail) (call-ask callbacks.null s))
    encode-Visits (boolean b) h u =
        leaf libc callbacks (encode (boolean b)) (visit libc callbacks (boolean b))
          (λ nested s tail.
            first_case-boolean libc callbacks nested s tail b
            ∙ ap (resume tail) (call-ask_with callbacks.boolean _ s))
    encode-Visits (fixnum i) h u =
        leaf libc callbacks (encode (fixnum i)) (visit libc callbacks (fixnum i)) (λ nested s tail.
          first_case-int libc callbacks nested s tail i h
          ∙ ap (resume tail) (call-ask_with callbacks.fixnum _ s))
    encode-Visits (string t) h u =
        leaf libc callbacks (encode (string t)) (visit libc callbacks (string t)) (λ nested s tail.
          first_case-string libc callbacks nested s tail t h
          ∙ ap (resume tail) (call-ask_text callbacks.string _ _ s))
    encode-Visits (decimal t) h u =
        leaf libc callbacks (encode (decimal t)) (visit libc callbacks (decimal t))
          (λ nested s tail.
            first_case-decimal libc callbacks nested s tail t h
            ∙ ap (resume tail) (call-ask_with callbacks.decimal _ s))
    encode-Visits (uuid hi lo) h u =
        leaf libc callbacks (encode (uuid hi lo)) (visit libc callbacks (uuid hi lo))
          (λ nested s tail.
            first_case-uuid libc callbacks nested s tail hi lo h.0 h.1
            ∙ ap (resume tail) (uuid_call-visit callbacks.uuid callbacks.uuid_str hi lo s u))
    encode-Visits (time t) h u =
        leaf libc callbacks (encode (time t)) (visit libc callbacks (time t)) (λ nested s tail.
          first_case-time libc callbacks nested s tail t h
          ∙ ap (resume tail)
              (time_call-visit libc.format_time callbacks.time callbacks.time_str t s u.0 u.1))
    encode-Visits (array xs) h u = λ f stop tail s w q.
        rw (round libc callbacks f stop (encode (array xs) ++ tail) s q) (
          first_case-array libc callbacks (val_iterate libc callbacks f) s tail _
            (visit_items libc callbacks xs tail) xs h.0
            (λ s'. val_iterate-encode_items xs f tail s' h.1 u w)
          ∙ ap
              (λ p.
                let (cont, s') =
                  enclose callbacks.end_array (visit_items libc callbacks xs tail) p in
                proceed (val_iterate libc callbacks f stop) (cont, s', tail))
              (call-ask callbacks.begin_array s))
    encode-Visits (object fs) h u = λ f stop tail s w q.
        rw (round libc callbacks f stop (encode (object fs) ++ tail) s q) (
          first_case-object libc callbacks (val_iterate libc callbacks f) s tail _
            (visit_fields libc callbacks fs tail) fs h.0
            (λ s'. val_iterate-encode_fields fs f tail s' h.1 u w)
          ∙ ap
              (λ p.
                let (cont, s') =
                  enclose callbacks.end_object (visit_fields libc callbacks fs tail) p in
                proceed (val_iterate libc callbacks f stop) (cont, s', tail))
              (call-ask callbacks.begin_object s))

    val_iterate-encode_items :
        (xs : Items) (f : ℕ) (tail : Bytes) (s : Run C)
        → IsValidItems xs
        → SteadyItems libc callbacks xs
        → weight_items xs < f
        → val_iterate libc callbacks f (length tail) (encode_items xs ++ tail) s
          ≡ done (visit_items libc callbacks xs tail s)
    val_iterate-encode_items no_items zero tail s h u w = absurd (omega arith)
    val_iterate-encode_items no_items (suc f) tail s h u w =
        at_end libc callbacks f (length tail) tail s (omega arith)
    val_iterate-encode_items (item v xs) zero tail s h u w = absurd (omega arith)
    val_iterate-encode_items (item v xs) (suc f) tail s h u w =
        rw
          (
            append_assoc,
            encode-Visits v h.0 u.0 f (length tail) (encode_items xs ++ tail) s (omega arith) (
                behind libc callbacks (encode v) _ (length-encode_pos v)
                  (omega (arith, length-append_bytes (encode_items xs) tail))),
          )
          (proceed-and_then libc callbacks (val_iterate libc callbacks f (length tail)) _
            (encode_items xs ++ tail) (visit libc callbacks v (encode_items xs ++ tail) s)
            (λ s'. val_iterate-encode_items xs f tail s' h.1 u.1 (omega arith)))

    val_iterate-encode_fields :
        (fs : Fields) (f : ℕ) (tail : Bytes) (s : Run C)
        → IsValidFields fs
        → SteadyFields libc callbacks fs
        → weight_fields fs < f
        → val_iterate libc callbacks f (length tail) (encode_fields fs ++ tail) s
          ≡ done (visit_fields libc callbacks fs tail s)
    val_iterate-encode_fields no_fields zero tail s h u w = absurd (omega arith)
    val_iterate-encode_fields no_fields (suc f) tail s h u w =
        at_end libc callbacks f (length tail) tail s (omega arith)
    val_iterate-encode_fields (field k v fs) zero tail s h u w = absurd (omega arith)
    val_iterate-encode_fields (field k v fs) (suc zero) tail s h u w = absurd (omega arith)
    val_iterate-encode_fields (field k v fs) (suc (suc f)) tail s h u w =
        let after = encode_fields fs ++ tail in
        let q : length tail ≤ length after =
          omega (arith, length-append_bytes (encode_fields fs) tail) in
        let q' = behind libc callbacks (encode v) after (length-encode_pos v) q in
        let q'' : 0 < length (encode_key k) = omega (arith, length-encode_key_pos k) in
        rw
          (
            append_assoc,
            append_assoc,
            encode_key-Visits libc callbacks k h.0 (suc f) (length tail) (encode v ++ after) s
                (omega arith) (behind libc callbacks (encode_key k) _ q'' (omega arith)),
          )
          (proceed-and_then libc callbacks (val_iterate libc callbacks (suc f) (length tail))
            (λ s'. and_then (visit libc callbacks v after s') (visit_fields libc callbacks fs tail))
            (encode v ++ after)
            (ask_text callbacks.key (k ++ 0 ∷ (encode v ++ after)) (pos (length k)) s)
            (λ s'. rw (encode-Visits v h.1 u.0 f (length tail) after s' (omega arith) q') (
              proceed-and_then libc callbacks (val_iterate libc callbacks f (length tail)) _ after
                (visit libc callbacks v after s')
                (λ s''. val_iterate-encode_fields fs f tail s'' h.2 u.1 (omega arith)))))

  -- With fuel for every byte of a value of the format, `opo_val_iterate` ends without a fault. It
  -- makes exactly the calls of `visit`, in their order and with their arguments, up to the first
  -- callback that stops, and returns the code in the report after the last of them. After a callback
  -- that reports an error and does not stop, the members that follow are left out and the last
  -- callbacks of the open containers are called, as in `visit`. The callbacks that are called for the UUIDs and the times of the value must not stop, and where a
  -- time is taken as text it is from 1970 on or a whole number of seconds.
  pub opo_val_iterate-encode :
      (fuel : ℕ) (v : Value) (tail : Bytes) (s : Run C)
      → IsValid v
      → Steady libc callbacks v
      → length (encode v) < fuel
      → opo_val_iterate libc callbacks fuel (encode v ++ tail) s
        ≡ (let (_, s') = visit libc callbacks v tail s in done (s'.0.code, s'))
  unfolding opo_val_iterate
  opo_val_iterate-encode zero v tail s h u w = absurd (omega arith)
  opo_val_iterate-encode (suc zero) v tail s h u w = absurd (omega (arith, length-encode_pos v))
  opo_val_iterate-encode (suc (suc f)) v tail s h u w =
      let n = length (encode v ++ tail) in
      let p : 0 < n = omega (arith, length-append_bytes (encode v) tail, length-encode_pos v) in
      let e : end_after 1 (encode v ++ tail) ≡ done (n - 1) = unfold end_after in ground arith in
      rw (
        e,
        encode-Visits v h u (suc f) (n - 1) tail s (omega (arith, weight-lt-length v))
            (omega arith),
        proceed-and_then libc callbacks (val_iterate libc callbacks (suc f) (n - 1))
            (λ s'. (true, s')) tail (visit libc callbacks v tail s)
            (λ s'.
              at_end libc callbacks f (n - 1) tail s'
                (omega (arith, length-append_bytes (encode v) tail, length-encode_pos v))),
        and_then_last libc callbacks,
      )
