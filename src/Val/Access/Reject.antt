-- ===== src/Val/Access/Reject.antt =====
-- The accessors on a value of another type.
use opo_c.Prelude.{◌≡◌, ◌≢◌, refl, Option, none, some, [], ◌∷◌}
use opo_c.Prelude.Int.{pos}
use opo_c.Outcome.{done}
use opo_c.Bytes.{Bytes}
use opo_c.Err.{Err, text}
use opo_c.Val.{
  ValType, switch, type_case, opo_val_type, OpoValType, val_int1, val_int2, val_int4, val_int8,
}
use opo_c.Val.Access.{type_error, int_case, opo_val_int}

int_case-reject :
    (err : Err) (c : Option ValType) (b : Bytes)
    → type_case c ≢ OpoValType.type_int
    → int_case err c b ≡ done (pos 0, type_error err (text "not an integer value"))
unfolding int_case type_case
int_case-reject err none b h = refl
int_case-reject err (some val_int1) b h = absurd (h refl)
int_case-reject err (some val_int2) b h = absurd (h refl)
int_case-reject err (some val_int4) b h = absurd (h refl)
int_case-reject err (some val_int8) b h = absurd (h refl)
int_case-reject err (some _) b h = refl

-- On a value that `opo_val_type` does not call an integer, `opo_val_int` returns 0 and reports a
-- type error.
opo_val_int-reject :
    (err : Err) (val : Bytes) (t : OpoValType)
    → opo_val_type (some val) ≡ done t
    → t ≢ OpoValType.type_int
    → opo_val_int err (some val) ≡ done (pos 0, type_error err (text "not an integer value"))
unfolding opo_val_type opo_val_int
opo_val_int-reject err [] t e h = cc
opo_val_int-reject err (c ∷ b) t e h = int_case-reject err (switch c) b (λ p. h (cc))
