-- ===== src/Builder/Script.antt =====
-- The calls of src/opo/builder.c that a client makes to add a value, in the order of its parts.
use opo_c.Prelude.{ℕ, ◌-◌, ◌<◌, none, length}
use opo_c.Prelude.Int.{pos}
use opo_c.Outcome.{done}
use opo_c.Err.{opo_err_ok}
use opo_c.Wire.{
  Value, null, boolean, fixnum, string, decimal, uuid, time, array, object, Items, no_items, item,
  Fields, no_fields, field,
}
use opo_c.Builder.{Heap, Call, if_ok}
use opo_c.Builder.Push.{
  Key, opo_builder_push_null, opo_builder_push_bool, opo_builder_push_int, opo_builder_push_string,
  opo_builder_push_double, opo_builder_push_uuid, opo_builder_push_time, opo_builder_push_array,
  opo_builder_push_object, opo_builder_pop,
}
use opo_c.Builder.Slot.{with_nul, keyed}

-- The containers of the value are nested at most `n` deep.
abbrev mutual
  pub Within : ℕ → Value → Type 0
  Within n null = Unit
  Within n (boolean b) = Unit
  Within n (fixnum i) = Unit
  Within n (string s) = Unit
  Within n (decimal s) = Unit
  Within n (uuid hi lo) = Unit
  Within n (time t) = Unit
  Within n (array xs) = (0 < n) × WithinItems (n - 1) xs
  Within n (object fs) = (0 < n) × WithinFields (n - 1) fs

  pub WithinItems : ℕ → Items → Type 0
  WithinItems n no_items = Unit
  WithinItems n (item v xs) = Within n v × WithinItems n xs

  pub WithinFields : ℕ → Fields → Type 0
  WithinFields n no_fields = Unit
  WithinFields n (field k v fs) = Within n v × WithinFields n fs

-- Each push is followed by the next while the calls succeed, and each container is popped behind
-- its members.
module _ (heap : Heap) where
  unfoldable mutual
    pub script : Value → Key → Call
    script null key = opo_builder_push_null heap key
    script (boolean b) key = opo_builder_push_bool heap b key
    script (fixnum i) key = opo_builder_push_int heap i key
    script (string s) key = opo_builder_push_string heap (with_nul s) (pos (length s)) key
    script (decimal s) key = opo_builder_push_double heap s key
    script (uuid hi lo) key = opo_builder_push_uuid heap hi lo key
    script (time t) key = opo_builder_push_time heap t key
    script (array xs) key = λ s.
        if_ok (opo_builder_push_array heap key s) λ s₁. if_ok (script_items xs s₁) opo_builder_pop
    script (object fs) key = λ s.
        if_ok (opo_builder_push_object heap key s) λ s₁. if_ok (script_fields fs s₁) opo_builder_pop

    pub script_items : Items → Call
    script_items no_items = λ s. done (opo_err_ok, s)
    script_items (item v xs) = λ s. if_ok (script v none s) (script_items xs)

    pub script_fields : Fields → Call
    script_fields no_fields = λ s. done (opo_err_ok, s)
    script_fields (field k v fs) = λ s. if_ok (script v (keyed k) s) (script_fields fs)
