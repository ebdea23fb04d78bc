-- ===== src/Client/Calls.antt =====
-- `opo_client_process` on a ring.
use opo_c.Prelude.{
  ℕ, zero, suc, ◌+◌, ◌<◌, ◌≡◌, ◌≢◌, ◌==◌, ◌||◌, ltb, refl, sym, ap, ◌∙◌, inl, inr, ◌⊎◌, List, true,
  false, [], ◌∷◌, ◌++◌, length, append_assoc, append-nil, arith,
}
use mathlib.Core.Path.{subst}
use opo_c.Outcome.{done}
use opo_c.Client.{Query, Client, slot, taken}
use opo_c.Client.Process.{process_loop, opo_client_process}
use opo_c.Client.Ring.{Ring, get_elem?-set_self}
use opo_c.Client.Submit.{idle}
use opo_c.Client.Drain.{
  called, callbacks, dropped, taken_head, dropped-Ring, take_next_ready-some, take_next_ready-none,
  call_back_lem, release_lem,
}

-- A loop that stops at `max`, 0 for none, goes no further than `n` items of which `ys` are left.
abbrev pub Stops : {A : Type 0} → ℕ → ℕ → List A → Type 0
Stops max n ys = (max ≢ 0 × max ≡ n) ⊎ ((max ≡ 0 ⊎ n < max) × ys ≡ [])

module _ {K : Type 0} where
  -- callbacks that leave the client alone
  abbrev pub quiet : ℕ → Client K → Client K
  quiet n c = c

  -- one round of the loop
  process_loop-cons :
      (f naps tries max cnt : ℕ) (c : Client K) (x : Query K) (rs ss : List (Query K))
      → Ring c (x ∷ rs) ss
      → (max == 0 || ltb cnt max) ≡ true
      → process_loop (suc f) (suc naps) tries (λ n. idle) quiet max false cnt c
        ≡ process_loop f
            (suc naps)
            tries
            (λ n. idle)
            quiet
            max
            false
            (cnt + 1)
            (dropped x (c.calls ++ called x) c)
  unfolding process_loop
  process_loop-cons f naps tries max cnt c x rs ss h m =
      rw (m, take_next_ready-some naps tries idle c x rs ss h)
        (rw
          (
            slot,
            get_elem?-set_self c.q c.head (record x { state = taken })
                (omega (arith, h.length_q, h.head_in)),
          )
          (rw
            (
              call_back_lem (record x { state = taken }) (taken_head x c),
              release_lem x c (omega (arith, h.length_q, h.head_in)),
            )
            refl))

  process_loop-nil :
      (f naps tries max cnt : ℕ) (c : Client K) (ys ss : List (Query K))
      → Ring c ys ss
      → Stops max cnt ys
      → process_loop (suc f) (suc naps) tries (λ n. idle) quiet max false cnt c ≡ done (cnt, c)
  unfolding process_loop
  process_loop-nil f naps tries max cnt c ys ss h (inl (p, q)) =
      let e : (max == 0 || ltb cnt max) ≡ false = ground arith in rw e refl
  process_loop-nil f naps tries max cnt c [] ss h (inr (p, q)) =
      let e : (max == 0 || ltb cnt max) ≡ true = ground arith in
      rw (e, take_next_ready-none naps tries c ss h) refl
  process_loop-nil f naps tries max cnt c (y ∷ ys) ss h (inr (p, q)) =
      let l : length (y ∷ ys) ≡ 0 = ap length q in absurd (omega (arith, l))

  process_loop-calls :
      (f naps tries max cnt : ℕ) (c : Client K) (xs ys ss : List (Query K))
      → Ring c (xs ++ ys) ss
      → length xs < f
      → Stops max (cnt + length xs) ys
      → (c' : Client K) × (process_loop f (suc naps) tries (λ n. idle) quiet max false cnt c
          ≡ done (cnt + length xs, c'))
        × Ring c' ys ss
        × (c'.calls ≡ c.calls ++ callbacks xs)
        × (c'.written ≡ c.written)
        × (c'.next_id ≡ c.next_id)
        × (c'.pending_max ≡ c.pending_max)
  process_loop-calls zero naps tries max cnt c xs ys ss h l s = absurd (omega arith)
  process_loop-calls (suc f) naps tries max cnt c [] ys ss h l s =
      let z : cnt + 0 ≡ cnt = omega arith in
      (
        c,
        process_loop-nil f naps tries max cnt c ys ss h (subst (λ n. Stops max n ys) z s)
            ∙ ap (λ n. done (n, c)) (sym z),
        h,
        sym (append-nil c.calls),
        refl,
        refl,
        refl,
      )
  process_loop-calls (suc f) naps tries max cnt c (x ∷ xs) ys ss h l s =
      let z : cnt + suc (length xs) ≡ cnt + 1 + length xs = omega arith in
      let (c', e, r, k, w, n, p) =
        process_loop-calls f naps tries max (cnt + 1) (dropped x (c.calls ++ called x) c) xs ys ss
          (dropped-Ring c x (xs ++ ys) ss _ h) (omega arith) (subst (λ n. Stops max n ys) z s) in
      (
        c',
        process_loop-cons f naps tries max cnt c x (xs ++ ys) ss h (more s)
            ∙ e
            ∙ ap (λ n. done (n, c')) (sym z),
        r,
        k ∙ append_assoc c.calls (called x) (callbacks xs),
        w,
        n,
        p,
      )
    where
      more : Stops max (cnt + suc (length xs)) ys → (max == 0 || ltb cnt max) ≡ true
      more (inl (p, q)) = ground arith
      more (inr (inl p, q)) = ground arith
      more (inr (inr p, q)) = ground arith

  -- With no other thread acting, and callbacks that leave the client alone, `opo_client_process`
  -- takes the queries that have their responses in the order in which they were sent, until `max`
  -- of them are done or none is left (fuel for one round more): each callback is called once,
  -- with the id and the response of its query, their number is the answer, and the ring holds the
  -- others as before. Nothing is written.
  pub opo_client_process-calls :
      (f naps tries max : ℕ) (c : Client K) (xs ys ss : List (Query K))
      → Ring c (xs ++ ys) ss
      → length xs < f
      → Stops max (length xs) ys
      → (c' : Client K) × (opo_client_process f (suc naps) tries (λ n. idle) quiet max false c
          ≡ done (length xs, c'))
        × Ring c' ys ss
        × (c'.calls ≡ c.calls ++ callbacks xs)
        × (c'.written ≡ c.written)
        × (c'.next_id ≡ c.next_id)
        × (c'.pending_max ≡ c.pending_max)
  unfolding opo_client_process
  opo_client_process-calls f naps tries max c xs ys ss h l s =
      let z : 0 + length xs ≡ length xs = omega arith in
      let (c', e, r, k, w, n, p) =
        process_loop-calls f naps tries max 0 c xs ys ss h l
          (subst (λ n. Stops max n ys) (sym z) s) in
      (c', e ∙ ap (λ n. done (n, c')) z, r, k, w, n, p)
