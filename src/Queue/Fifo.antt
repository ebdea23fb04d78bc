-- ===== src/Queue/Fifo.antt =====
-- A run of calls on the queue by one thread, against a list.
use opo_c.Prelude.{
  ℕ, ◌+◌, ◌≡◌, refl, sym, ◌∙◌, ◌==◌, if◌then◌else◌, Option, none, some, List, [], ◌∷◌, ◌++◌, false,
  length, arith, Bool-cases, inl, inr,
}
use opo_c.Outcome.{Outcome, done, out_of_fuel, ◌>>=◌}
use opo_c.Queue.{Queue, queue_push, queue_pop}
use opo_c.Queue.Holds.{Holds}
use opo_c.Queue.Push.{queue_push-Holds, queue_push-full}
use opo_c.Queue.Pop.{queue_pop-cons, queue_pop-nil}

pub data Op (A : Type 0) : Type 0 where
  push : A → Op A
  pop : Op A

module _ {A : Type 0} where
  -- No other thread acts.
  abbrev pub alone : ℕ → Queue A → Queue A
  alone n q = q

  -- The answers of the pops, in order. Each call may nap once; a pop gives up at its first wait.
  unfoldable pub run : List (Op A) → Queue A → Outcome (List (Option A))
  run [] q = done []
  run (push x ∷ ops) q = do q' ← queue_push 1 alone q x; run ops q'
  run (pop ∷ ops) q = do (o, q') ← queue_pop 1 0 alone q; answers ← run ops q'; done (o ∷ answers)

  -- The same on a list of at most `room` items, where a push into a full list never ends.
  unfoldable pub run_list : ℕ → List (Op A) → List A → Outcome (List (Option A))
  run_list room [] xs = done []
  run_list room (push x ∷ ops) xs =
      let more = run_list room ops (xs ++ (x ∷ [])) in
      if length xs == room then out_of_fuel else more
  run_list room (pop ∷ ops) [] = do answers ← run_list room ops []; done (none ∷ answers)
  run_list room (pop ∷ ops) (x ∷ xs) = do answers ← run_list room ops xs; done (some x ∷ answers)

  -- One thread cannot tell the queue from a list of at most `size - 1` items, first in first out.
  pub run_refines :
      (ops : List (Op A)) (q : Queue A) (xs : List A) (room : ℕ)
      → Holds q xs
      → q.pop_lock ≡ false
      → room + 1 ≡ q.size
      → run ops q ≡ run_list room ops xs
  unfolding run run_list queue_push
  run_refines [] q xs room h free c = refl
  run_refines (push x ∷ ops) q xs room h free c = elim (Bool-cases (length xs == room)) [
    | inl e ↦ rw (queue_push-full 0 alone q xs x h (ground arith), e)
    | inr e ↦
        let (q', p, h', s, l) = queue_push-Holds 0 alone q xs x h (ground (arith, h.fits)) in
        rw (p, e) (run_refines ops q' (xs ++ (x ∷ [])) room h' (l ∙ free) (c ∙ sym s))
  ]
  run_refines (pop ∷ ops) q [] room h free c =
      let (q', e, h', free', s) = queue_pop-nil 0 0 alone q h free (λ n r. refl) in
      let rest = run_refines ops q' [] room h' free' (c ∙ sym s) in rw (e, rest)
  run_refines (pop ∷ ops) q (x ∷ xs) room h free c =
      let (q', e, h', free', s) = queue_pop-cons 0 0 alone q x xs h free in
      let rest = run_refines ops q' xs room h' free' (c ∙ sym s) in rw (e, rest)
