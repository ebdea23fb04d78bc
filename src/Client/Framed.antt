-- ===== src/Client/Framed.antt =====
-- Where a message ends: `opo_msg_bsize` reads the first 13 bytes.
use opo_c.Prelude.{
  ℕ, ◌+◌, ◌≤◌, ◌≡◌, refl, sym, ap, ◌∙◌, Option, none, some, [], ◌∷◌, ◌++◌, length, take, drop,
  take-drop, length-take, length-drop, append_assoc, arith,
}
use opo_c.Outcome.{done}
use opo_c.Bytes.{Bytes, fill_uint64, peek, read_uint16, read_uint32, skip}
use opo_c.Bytes.RoundTrip.{skip-append}
use opo_c.Msg.{opo_msg_bsize}
use opo_c.Msg.Id.{opo_msg_bsize-encode}
use opo_c.Val.{
  ValType, switch, bsize_case, opo_val_bsize, val_null, val_true, val_false, val_int1, val_int2,
  val_int4, val_int8, val_str1, val_str2, val_str4, val_key1, val_key2, val_dec, val_uuid, val_time,
  val_obj, val_array,
}
use opo_c.Wire.{Value, encode, IsValid}

-- A message of an id and a value of at least five bytes
abbrev pub IsMessage : Bytes → Type 0
IsMessage m =
    (id : ℕ) × (v : Value) × IsValid v × (5 ≤ length (encode v)) × (m ≡ fill_uint64 id ++ encode v)

-- what `bsize_case` needs of four bytes
bsize_case_four :
    (o : Option ValType) (a b c d : ℕ) (t t' : Bytes)
    → (n : ℕ) × (bsize_case o (a ∷ b ∷ c ∷ d ∷ t) ≡ done n)
      × (bsize_case o (a ∷ b ∷ c ∷ d ∷ t') ≡ done n)
unfolding bsize_case peek read_uint16 read_uint32
bsize_case_four none a b c d t t' = (_, refl, refl)
bsize_case_four (some val_null) a b c d t t' = (_, refl, refl)
bsize_case_four (some val_true) a b c d t t' = (_, refl, refl)
bsize_case_four (some val_false) a b c d t t' = (_, refl, refl)
bsize_case_four (some val_int1) a b c d t t' = (_, refl, refl)
bsize_case_four (some val_int2) a b c d t t' = (_, refl, refl)
bsize_case_four (some val_int4) a b c d t t' = (_, refl, refl)
bsize_case_four (some val_int8) a b c d t t' = (_, refl, refl)
bsize_case_four (some val_str1) a b c d t t' = (_, refl, refl)
bsize_case_four (some val_str2) a b c d t t' = (_, refl, refl)
bsize_case_four (some val_str4) a b c d t t' = (_, refl, refl)
bsize_case_four (some val_key1) a b c d t t' = (_, refl, refl)
bsize_case_four (some val_key2) a b c d t t' = (_, refl, refl)
bsize_case_four (some val_dec) a b c d t t' = (_, refl, refl)
bsize_case_four (some val_uuid) a b c d t t' = (_, refl, refl)
bsize_case_four (some val_time) a b c d t t' = (_, refl, refl)
bsize_case_four (some val_obj) a b c d t t' = (_, refl, refl)
bsize_case_four (some val_array) a b c d t t' = (_, refl, refl)

opo_val_bsize_five :
    (b c : Bytes)
    → 5 ≤ length b
    → (n : ℕ) × (opo_val_bsize (some b) ≡ done n) × (opo_val_bsize (some (b ++ c)) ≡ done n)
unfolding opo_val_bsize
opo_val_bsize_five (w ∷ x ∷ y ∷ z ∷ t ∷ b) c h = bsize_case_four (switch w) x y z t b (b ++ c)
opo_val_bsize_five [] c h = absurd (omega arith)
opo_val_bsize_five (w ∷ []) c h = absurd (omega arith)
opo_val_bsize_five (w ∷ x ∷ []) c h = absurd (omega arith)
opo_val_bsize_five (w ∷ x ∷ y ∷ []) c h = absurd (omega arith)
opo_val_bsize_five (w ∷ x ∷ y ∷ z ∷ []) c h = absurd (omega arith)

opo_msg_bsize-skip :
    (id val : Bytes) (n : ℕ)
    → length id ≡ 8
    → opo_val_bsize (some val) ≡ done n
    → opo_msg_bsize (id ++ val) ≡ done (n + 8)
unfolding opo_msg_bsize
opo_msg_bsize-skip id val n l e =
    let p : skip 8 (id ++ val) ≡ done val =
      ap (λ k. skip k (id ++ val)) (sym l) ∙ skip-append id val in
    rw (p, e) refl

-- The size of a message is in its first 13 bytes.
pub opo_msg_bsize_thirteen :
    (b c : Bytes)
    → 13 ≤ length b
    → (n : ℕ) × (opo_msg_bsize b ≡ done (n + 8)) × (opo_msg_bsize (b ++ c) ≡ done (n + 8))
opo_msg_bsize_thirteen b c h =
    let id = take 8 b in
    let val = drop 8 b in
    let split = take-drop 8 b in
    let l = length-take 8 b (omega arith) in
    let (n, e, e') = opo_val_bsize_five val c (omega (arith, length-drop 8 b)) in
    (
      n,
      ap opo_msg_bsize (sym split) ∙ opo_msg_bsize-skip id val n l e,
      ap (λ x. opo_msg_bsize (x ++ c)) (sym split)
          ∙ ap opo_msg_bsize (append_assoc id val c)
          ∙ opo_msg_bsize-skip id (val ++ c) n l e',
    )

length-message : (id : ℕ) (v : Value) → length (fill_uint64 id ++ encode v) ≡ length (encode v) + 8
unfolding fill_uint64
length-message id v = omega arith

-- A message knows its size as soon as 13 bytes of it are there.
pub opo_msg_bsize-IsMessage :
    (m b rest tail : Bytes)
    → IsMessage m
    → 13 ≤ length b
    → b ++ rest ≡ m ++ tail
    → opo_msg_bsize b ≡ done (length m)
opo_msg_bsize-IsMessage m b rest tail (id, v, h, l, e) q p =
    let (n, e₁, e₂) = opo_msg_bsize_thirteen b rest q in
    e₁
    ∙ sym e₂
    ∙ ap opo_msg_bsize (p ∙ ap (λ x. x ++ tail) e ∙ append_assoc (fill_uint64 id) (encode v) tail)
    ∙ opo_msg_bsize-encode id v tail h
    ∙ ap done (sym (ap length e ∙ length-message id v))

pub length-IsMessage : (m : Bytes) → IsMessage m → 13 ≤ length m
unfolding fill_uint64
length-IsMessage m (id, v, h, l, e) = rw e (omega arith)
