-- ===== src/Ojc/Detect.antt =====
-- A UUID text is taken for one.
use opo_c.Prelude.{
  ℕ, zero, suc, ◌/◌, ◌%◌, ◌^◌, ◌<◌, ◌≡◌, refl, sym, ap, ◌∙◌, ◌==◌, [], ◌∷◌, true, replicate, ◌++◌,
  arith,
}
use opo_c.Outcome.{done}
use opo_c.Bytes.{Bytes}
use opo_c.Val.Access.{hex, hex_digit, uuid_text}
use opo_c.Builder.Slot.{with_nul}
use opo_c.Builder.Uuid.{uuid_text_lem}
use opo_c.Ojc.Text.{uuid_char_map, uuid_map, detect_loop, detect_uuid}

hex_digit-map : (d : ℕ) → d < 16 → uuid_char_map (hex_digit d) ≡ b'h'
unfolding uuid_char_map
hex_digit-map d h = ground arith

detect_loop-cons :
    (u c : ℕ) (us s : Bytes) → u ≡ uuid_char_map c → detect_loop (u ∷ us) (c ∷ s) ≡ detect_loop us s
unfolding detect_loop
detect_loop-cons u c us s h = let e : (u == uuid_char_map c) ≡ true = ground arith in rw e

dash : b'-' ≡ uuid_char_map b'-'
unfolding uuid_char_map
dash = refl

detect_loop-nil : (s : Bytes) → detect_loop [] s ≡ done true
unfolding detect_loop
detect_loop-nil s = refl

detect_loop-hex :
    (k n : ℕ) (us rest : Bytes)
    → detect_loop (replicate k b'h' ++ us) (hex k n ++ rest) ≡ detect_loop us rest
unfolding hex
detect_loop-hex zero n us rest = refl
detect_loop-hex (suc k) n us rest =
    detect_loop-cons _ _ _ _ (sym (hex_digit-map (n / 16 ^ k % 16) (omega arith)))
    ∙ detect_loop-hex k n us rest

detect_loop-group :
    (k n : ℕ) (us rest : Bytes)
    → detect_loop (replicate k b'h' ++ (b'-' ∷ us)) (hex k n ++ (b'-' ∷ rest)) ≡ detect_loop us rest
detect_loop-group k n us rest =
    detect_loop-hex k n (b'-' ∷ us) (b'-' ∷ rest) ∙ detect_loop-cons b'-' b'-' us rest dash

detect_loop-uuid_map :
    (a b c d e : ℕ)
    → detect_loop uuid_map (
        hex 8 a
        ++ (b'-'
            ∷ (hex 4 b
                ++ (b'-' ∷ (hex 4 c ++ (b'-' ∷ (hex 4 d ++ (b'-' ∷ (hex 12 e ++ (0 ∷ []))))))))))
      ≡ done true
detect_loop-uuid_map a b c d e =
    detect_loop-group 8 a _ _
    ∙ detect_loop-group 4 b _ _
    ∙ detect_loop-group 4 c _ _
    ∙ detect_loop-group 4 d _ _
    ∙ detect_loop-hex 12 e [] (0 ∷ [])
    ∙ detect_loop-nil (0 ∷ [])

-- A UUID text is one.
pub detect_uuid-uuid_text : (hi lo : ℕ) → detect_uuid (with_nul (uuid_text hi lo)) 36 ≡ done true
unfolding detect_uuid
detect_uuid-uuid_text hi lo =
    ap (λ s. detect_loop uuid_map s) (uuid_text_lem hi lo) ∙ detect_loop-uuid_map _ _ _ _ _
