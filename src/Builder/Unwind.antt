-- ===== src/Builder/Unwind.antt =====
-- `opo_builder_finish` against `opo_builder_pop`.
use opo_c.Prelude.{
  ℕ, zero, suc, ◌≡◌, refl, List, [], ◌∷◌, Option, some, none, Bool, length, arith, sym, ap, ◌∙◌,
  true, false, ◌+◌, ◌-◌, ◌%◌, ◌^◌,
}
use opo_c.Outcome.{Outcome, done, fault, out_of_fuel, ◌>>=◌, >>=-eq-done}
use opo_c.Bytes.{Bytes, fill_uint32}
use opo_c.Err.{Err, opo_err_ok}
use opo_c.Builder.{Heap, Builder, Call, if_ok, St, splice}
use opo_c.Builder.Push.{close, opo_builder_pop}
use opo_c.Builder.Finish.{
  close_all, opo_builder_finish, opo_builder_take, hand_over, copy_message, opo_builder_cleanup,
}

-- `n` pops in a row
unfoldable pub pops : ℕ → Call
unfolding opo_builder_pop
pops zero s = done (opo_err_ok, s)
pops (suc n) s = if_ok (opo_builder_pop s) (pops n)

abbrev reported : Err → Outcome Builder → Outcome (ℕ × St)
reported err m = m >>= λ b. done (opo_err_ok, (err, b))

-- `close` passes over the stack.
with_stack : List ℕ → Outcome Builder → Outcome Builder
with_stack s m = m >>= λ b. done (record b { stack = s })

close-stack :
    (off : ℕ) (h : Option Bytes) (cur : ℕ) (own : Bool) (stack s : List ℕ)
    → close off (record { head = h; cur = cur; own = own; stack = s })
      ≡ with_stack s (close off (record { head = h; cur = cur; own = own; stack = stack }))
unfolding close with_stack
close-stack off none cur own stack s = refl
close-stack off (some block) cur own stack s =
    bound (splice (off + 1) (fill_uint32 ((cur - off - 5) % 2 ^ 32)) block)
  where
    bound :
        (m : Outcome Bytes)
        → (m >>= λ block'. done (record { head = some block'; cur = cur; own = own; stack = s }))
          ≡ with_stack s (
              m >>= λ block'.
              done (record { head = some block'; cur = cur; own = own; stack = stack }))
    bound (done block') = refl
    bound fault = refl
    bound out_of_fuel = refl

after_close :
    (off : ℕ) (stack : List ℕ) (err : Err) (m : Outcome Builder)
    → ((b : Builder)
        → pops (length stack) (err, record b { stack = stack }) ≡ reported err (close_all stack b))
    → if_ok
        (with_stack (off ∷ stack) m >>= λ b. done (opo_err_ok, (err, record b { stack = stack })))
        (pops (length stack))
      ≡ reported err (m >>= λ b. close_all stack b)
unfolding with_stack
after_close off stack err (done b) ih = ih b
after_close off stack err fault ih = refl
after_close off stack err out_of_fuel ih = refl

close_all-pops :
    (stack : List ℕ) (err : Err) (b : Builder)
    → pops (length stack) (err, record b { stack = stack }) ≡ reported err (close_all stack b)
unfolding pops close_all
close_all-pops [] err b = refl
close_all-pops (off ∷ stack) err b =
    rw (close-stack off b.head b.cur b.own b.stack (off ∷ stack))
      (after_close off stack err (close off b) (close_all-pops stack err))

-- `opo_builder_finish` is a pop for each container that is open: it ends with the same builder, and
-- it is a fault where one of the pops is.
pub opo_builder_finish-pops :
    (err : Err) (b : Builder)
    → (opo_builder_finish b >>= λ b'. done (opo_err_ok, (err, b'))) ≡ pops (length b.stack) (err, b)
unfolding opo_builder_finish
opo_builder_finish-pops err b = sym (close_all-pops b.stack err b)

abbrev handed : Outcome (Option Bytes) → Builder → Outcome (Option Bytes × Builder)
handed m b = m >>= λ x. done (x, record b { head = none; cur = 0 })

cleared :
    (m : Outcome (Option Bytes)) (b b' : Builder) (msg : Option Bytes)
    → handed m b ≡ done (msg, b')
    → opo_builder_cleanup b' ≡ none
unfolding opo_builder_cleanup
cleared (done x) b b' msg e =
    let h : record b { head = none; cur = 0 } ≡ b' = cc in
    ap opo_builder_cleanup (sym h) ∙ ground arith
cleared fault b b' msg e = cc
cleared out_of_fuel b b' msg e = cc

cleared-hand_over :
    (heap : Heap) (h : Option Bytes) (cur : ℕ) (own : Bool) (stack : List ℕ) (b' : Builder)
    (msg : Option Bytes)
    → hand_over heap (record { head = h; cur = cur; own = own; stack = stack }) ≡ done (msg, b')
    → opo_builder_cleanup b' ≡ none
unfolding hand_over
cleared-hand_over heap h cur true stack b' msg e =
    cleared (done h) (record { head = h; cur = cur; own = true; stack = stack }) b' msg e
cleared-hand_over heap none cur false stack b' msg e = cc
cleared-hand_over heap (some block) cur false stack b' msg e =
    cleared (copy_message heap block)
      (record { head = some block; cur = cur; own = false; stack = stack }) b' msg e

-- A builder whose message has been taken has nothing to free.
pub opo_builder_cleanup-take :
    (heap : Heap) (b b' : Builder) (msg : Option Bytes)
    → opo_builder_take heap b ≡ done (msg, b')
    → opo_builder_cleanup b' ≡ none
unfolding opo_builder_take
opo_builder_cleanup-take heap b b' msg e =
    let (b₁, _, e₁) = >>=-eq-done (opo_builder_finish b) (hand_over heap) e in
    cleared-hand_over heap b₁.head b₁.cur b₁.own b₁.stack b' msg e₁
