-- ===== src/Builder/Encode.antt =====
-- The calls for a value write its encoding.
use opo_c.Prelude.{
  ℕ, ◌+◌, ◌-◌, ◌^◌, ◌<◌, ◌≤◌, ◌≡◌, none, some, List, ◌∷◌, ◌++◌, Bool, true, false, length,
  get_elem?, get_elem?-append_length, append_assoc, append-nil, arith,
}
use opo_c.Bytes.{Bytes}
use opo_c.Err.{Err}
use opo_c.Val.{tag, val_array, val_obj}
use opo_c.Wire.{
  Value, null, boolean, fixnum, string, decimal, uuid, time, array, object, Items, no_items, item,
  Fields, no_fields, field, encode, encode_items, encode_fields, encode_key, IsValid, IsValidItems,
  IsValidFields,
}
use opo_c.Wire.Digits.{lengths}
use opo_c.Builder.{Heap, Call, if_ok}
use opo_c.Builder.Push.{Key, opo_builder_push_array, opo_builder_push_object, opo_builder_pop}
use opo_c.Builder.Script.{Within, WithinItems, WithinFields, script, script_items, script_fields}
use opo_c.Builder.Room.{Adds}
use opo_c.Builder.Slot.{Slot, in_array, in_object, keyed, get_elem?-append, if_ok-Adds}
use opo_c.Builder.Leaf.{null-Adds, bool-Adds, int-Adds, str-Adds, double-Adds, uuid-Adds, time-Adds}
use opo_c.Builder.Nest.{
  frame, Opens, opo_builder_pop-frame, opo_builder_push_array-Opens, opo_builder_push_object-Opens,
}

-- Between the call that opens a container and the pop, the calls for the members add their bytes.
container-Adds :
    (own : Bool) (stack : List ℕ) (err : Err) (push members : Call) (pre free kb bytes : Bytes)
    (x : ℕ)
    → Opens own stack err push pre free kb x
    → length bytes < 2 ^ 32
    → ((pre' free' : Bytes)
        → get_elem? pre' (length (pre ++ kb)) ≡ some x
        → length free ≡ length kb + 5 + length free'
        → Adds own (length (pre ++ kb) ∷ stack) err members pre' free' bytes)
    → Adds own stack err
        (λ s. if_ok (push s) λ s₁. if_ok (members s₁) opo_builder_pop)
        pre
        free
        (kb ++ frame x bytes)
container-Adds own stack err push members pre free kb bytes x (gap, free₁, e₁, g, l₁) b k =
    let (free₂, e₂, l₂) =
      k ((pre ++ kb) ++ (x ∷ gap)) free₁ (get_elem?-append_length (pre ++ kb) gap x) l₁ in
    let e₃ = opo_builder_pop-frame own stack err (pre ++ kb) gap bytes free₂ x g b in
    (
      free₂,
      rw (
        e₁,
        e₂,
        append_assoc (pre ++ kb) (x ∷ gap) bytes,
        e₃,
        append_assoc pre kb (frame x bytes),
      ),
      omega lengths,
    )

module _ (own : Bool) (err : Err) (heap : Heap) where
  mutual
    unfolding script encode

    pub script-Adds :
        (v : Value) (n : ℕ) {stack : List ℕ} {pre : Bytes} {key : Key} {kb : Bytes} (free : Bytes)
        → Slot pre stack key kb
        → IsValid v
        → n + length stack ≤ 512
        → Within n v
        → length kb + length (encode v) + 8 ≤ length free
        → Adds own stack err (script heap v key) pre free (kb ++ encode v)
    script-Adds null n free slot v d w r = null-Adds own err heap free slot (omega arith)
    script-Adds (boolean true) n free slot v d w r =
        bool-Adds own err heap free slot true (omega arith)
    script-Adds (boolean false) n free slot v d w r =
        bool-Adds own err heap free slot false (omega arith)
    script-Adds (fixnum i) n free slot v d w r = int-Adds own err heap free slot i r
    script-Adds (string s) n free slot v d w r = str-Adds own err heap free slot s v r
    script-Adds (decimal s) n free slot v d w r = double-Adds own err heap free slot s v r
    script-Adds (uuid hi lo) n free slot v d w r = uuid-Adds own err heap free slot hi lo r
    script-Adds (time t) n free slot v d w r = time-Adds own err heap free slot t r
    script-Adds (array xs) n {stack = stack} {pre = pre} {key = key} {kb = kb} free slot v d w r =
        container-Adds own stack err (opo_builder_push_array heap key) (script_items heap xs) pre
          free kb (encode_items xs) (tag val_array)
          (opo_builder_push_array-Opens own err heap free slot (omega (arith, w.0)) (omega lengths))
          v.0
          (λ pre' free' e l.
            items-Adds xs (n - 1) (length (pre ++ kb)) stack pre' free' e v.1 (omega (arith, w.0))
              w.1 (omega lengths))
    script-Adds (object fs) n {stack = stack} {pre = pre} {key = key} {kb = kb} free slot v d w r =
        container-Adds own stack err (opo_builder_push_object heap key) (script_fields heap fs) pre
          free kb (encode_fields fs) (tag val_obj)
          (opo_builder_push_object-Opens own err heap free slot (omega (arith, w.0))
            (omega lengths))
          v.0
          (λ pre' free' e l.
            fields-Adds fs (n - 1) (length (pre ++ kb)) stack pre' free' e v.1 (omega (arith, w.0))
              w.1 (omega lengths))

    items-Adds :
        (xs : Items) (n off : ℕ) (stack : List ℕ) (pre free : Bytes)
        → get_elem? pre off ≡ some (tag val_array)
        → IsValidItems xs
        → n + length stack < 512
        → WithinItems n xs
        → length (encode_items xs) + 8 ≤ length free
        → Adds own (off ∷ stack) err (script_items heap xs) pre free (encode_items xs)
    items-Adds no_items n off stack pre free e v d w r = (free, rw (append-nil pre), omega arith)
    items-Adds (item x xs) n off stack pre free e v d w r =
        if_ok-Adds own (off ∷ stack) err (script heap x none) (script_items heap xs) pre free
          (encode x) (encode_items xs)
          (script-Adds x n free (in_array e) v.0 (omega arith) w.0 (omega lengths))
          (λ free' l.
            items-Adds xs n off stack (pre ++ encode x) free'
              (get_elem?-append pre (encode x) off e) v.1 d w.1 (omega lengths))

    fields-Adds :
        (fs : Fields) (n off : ℕ) (stack : List ℕ) (pre free : Bytes)
        → get_elem? pre off ≡ some (tag val_obj)
        → IsValidFields fs
        → n + length stack < 512
        → WithinFields n fs
        → length (encode_fields fs) + 8 ≤ length free
        → Adds own (off ∷ stack) err (script_fields heap fs) pre free (encode_fields fs)
    fields-Adds no_fields n off stack pre free e v d w r = (free, rw (append-nil pre), omega arith)
    fields-Adds (field k x fs) n off stack pre free e v d w r =
        let c : (encode_key k ++ encode x) ++ encode_fields fs ≡ encode_fields (field k x fs) =
          append_assoc (encode_key k) (encode x) (encode_fields fs) in
        rw (← c) (
          if_ok-Adds own (off ∷ stack) err (script heap x (keyed k)) (script_fields heap fs) pre
            free (encode_key k ++ encode x) (encode_fields fs)
            (script-Adds x n free (in_object k v.0 e) v.1 (omega arith) w.0 (omega lengths))
            (λ free' l.
              fields-Adds fs n off stack (pre ++ (encode_key k ++ encode x)) free'
                (get_elem?-append pre (encode_key k ++ encode x) off e) v.2 d w.1 (omega lengths)))
