-- ===== src/Ojc/Message.antt =====
-- `wire_size` and `wire_fill` of a document, and the messages that are made with them.
use opo_c.Prelude.{
  ℕ, zero, suc, ◌+◌, ◌<◌, ◌≤◌, ◌≡◌, refl, sym, ap, ◌∙◌, append-nil, replicate, Option, some, [],
  ◌++◌, length, arith,
}
use opo_c.Outcome.{done}
use opo_c.Bytes.{Bytes}
use opo_c.Val.{tag, val_array, val_obj}
use opo_c.Wire.{
  Value, Items, Fields, encode, encode_items, encode_fields, IsValid, IsValidItems, IsValidFields,
}
use opo_c.Wire.Digits.{lengths}
use opo_c.Wire.Sizes.{length-encode_pos}
use opo_c.Builder.Slot.{fill_key-nul}
use opo_c.Ojc.{Ojc, Libc}
use opo_c.Ojc.Fill.{
  wire_size, wire_size_items, wire_size_fields, wire_fill, wire_fill_items, wire_fill_fields,
}
use opo_c.Ojc.Reads.{
  Reads, is_null, is_true, is_false, is_uuid, is_time, is_text, is_number, is_word, is_fixnum,
  is_decimal, is_array, is_object, ReadsItems, items_end, items_next, ReadsFields, fields_end,
  fields_next,
}
use opo_c.Err.{Err}
use opo_c.Msg.{overwrite}
use opo_c.Msg.Id.{overwrite-append}
use opo_c.Ojc.Fill.{opo_ojc_msg_size, opo_ojc_fill_msg}
use opo_c.Ojc.Encode.{size_bytes-encode_key, Writes}
use opo_c.Ojc.Leaf.{
  length-frame, container-frame, leaf_uuid, leaf_time, leaf_string, leaf_number, leaf_word,
  leaf_fixnum, leaf_decimal,
}

overwrite-full : (xs old : Bytes) → length old ≡ length xs → overwrite xs old ≡ done xs
overwrite-full xs old h =
    ap (overwrite xs) (sym (append-nil old))
    ∙ overwrite-append xs old [] (sym h)
    ∙ ap done (append-nil xs)

module _ {V D : Type 0} (ojc : Ojc V D) (libc : Libc D) where
  mutual
    unfolding wire_size wire_fill encode

    wire-Writes :
        (f : ℕ) {v : V} {x : Value}
        → Reads ojc libc v x
        → IsValid x
        → length (encode x) ≤ f
        → Writes ojc libc (wire_size ojc libc f v) (wire_fill ojc libc f v) (encode x)
    wire-Writes zero {x = x} r h w = absurd (omega (arith, length-encode_pos x))
    wire-Writes (suc f) (is_null e) h w = rw e (refl, refl)
    wire-Writes (suc f) (is_true e) h w = rw e (refl, refl)
    wire-Writes (suc f) (is_false e) h w = rw e (refl, refl)
    wire-Writes (suc f) (is_uuid {v = v} {hi = hi} {lo = lo} e s l) h w =
        rw e (leaf_uuid ojc libc v hi lo s l)
    wire-Writes (suc f) (is_time {v = v} {i = i} t e s l p q n) h w =
        rw e (leaf_time ojc libc v t i s l p q n)
    wire-Writes (suc f) (is_text {v = v} {s = s} e p l q r) h w =
        rw e (leaf_string ojc libc v s p l q r h)
    wire-Writes (suc f) (is_number {v = v} {s = s} e p l) h w =
        rw e (leaf_number ojc libc v s p l h)
    wire-Writes (suc f) (is_word {v = v} {s = s} e p n) h w = rw e (leaf_word ojc libc v s p n h)
    wire-Writes (suc f) (is_fixnum {v = v} {i = i} e p) h w = rw e (leaf_fixnum ojc libc v i p)
    wire-Writes (suc f) (is_decimal {v = v} {s = s} e p) h w = rw e (leaf_decimal ojc libc v s p h)
    wire-Writes (suc f) (is_array {xs = xs} e r) h w =
        let (a, b) = items-Writes f r h.1 (omega lengths) in
        rw (e, a, b, container-frame (tag val_array) (encode_items xs) h.0)
          (ap done (sym (length-frame (tag val_array) (encode_items xs))), refl)
    wire-Writes (suc f) (is_object {fs = fs} e r) h w =
        let (a, b) = fields-Writes f r h.1 (omega lengths) in
        rw (e, a, b, container-frame (tag val_obj) (encode_fields fs) h.0)
          (ap done (sym (length-frame (tag val_obj) (encode_fields fs))), refl)

    items-Writes :
        (f : ℕ) {m : Option V} {xs : Items}
        → ReadsItems ojc libc m xs
        → IsValidItems xs
        → length (encode_items xs) < f
        → Writes ojc libc
            (wire_size_items ojc libc f m)
            (wire_fill_items ojc libc f m)
            (encode_items xs)
    items-Writes zero r h w = absurd (omega arith)
    items-Writes (suc f) items_end h w = (refl, refl)
    items-Writes (suc f) (items_next {x = x} {xs = xs} r rs) h w =
        let p = length-encode_pos x in
        let (a, b) = wire-Writes f r h.0 (omega lengths) in
        let (c, d) = items-Writes f rs h.1 (omega (lengths, p)) in
        rw (a, b, c, d) (ap done (omega lengths), refl)

    fields-Writes :
        (f : ℕ) {m : Option V} {fs : Fields}
        → ReadsFields ojc libc m fs
        → IsValidFields fs
        → length (encode_fields fs) < f
        → Writes ojc libc
            (wire_size_fields ojc libc f m)
            (wire_fill_fields ojc libc f m)
            (encode_fields fs)
    fields-Writes zero r h w = absurd (omega arith)
    fields-Writes (suc f) fields_end h w = (refl, refl)
    fields-Writes (suc f) (fields_next {k = k} {x = x} {fs = fs} ek lk r rs) h w =
        let p = length-encode_pos x in
        let (a, b) = wire-Writes f r h.1 (omega lengths) in
        let (c, d) = fields-Writes f rs h.2 (omega (lengths, p)) in
        rw (ek, lk, fill_key-nul k h.0, a, b, c, d)
          (ap done (omega (lengths, size_bytes-encode_key k h.0)), refl)

  -- A buffer of the size that `opo_ojc_msg_size` gives holds the message that `opo_ojc_fill_msg`
  -- writes, to the last byte: eight zero bytes and the encoding.
  pub opo_ojc_fill_msg-size :
      (fuel : ℕ) (v : V) (x : Value) (buf : Bytes)
      → Reads ojc libc v x
      → IsValid x
      → length (encode x) ≤ fuel
      → opo_ojc_msg_size ojc libc fuel (some v) ≡ done (length buf)
      → opo_ojc_fill_msg ojc libc fuel v buf ≡ done (replicate 8 0 ++ encode x)
  unfolding opo_ojc_msg_size opo_ojc_fill_msg
  opo_ojc_fill_msg-size fuel v x buf r h w e =
      let (a, b) = wire-Writes fuel r h w in
      let m : opo_ojc_msg_size ojc libc fuel (some v) ≡ done (length (encode x) + 8) = rw a in
      let n : length buf ≡ length (encode x) + 8 = cc in
      rw b (overwrite-full (replicate 8 0 ++ encode x) buf (omega (lengths, n)))
