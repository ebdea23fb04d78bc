-- ===== src/Tests/Queue.antt =====
-- Runs of the queue.
use opo_c.Prelude.{
  ℕ, zero, suc, get_or, get_elem?, ◌+◌, ◌<◌, ◌≡◌, refl, some, none, List, [], ◌∷◌, arith, false,
}
use opo_c.Outcome.{done}
use opo_c.Queue.{Queue, queue_init, queue_count}
use opo_c.Queue.Holds.{Holds, place}
use opo_c.Queue.Push.{queue_init-Holds}
use opo_c.Queue.Pop.{queue_count-Holds}
use opo_c.Queue.Fifo.{Op, push, pop, run, run_list, run_refines}

abbrev fresh : Queue ℕ
fresh = record {
  q = none ∷ none ∷ none ∷ none ∷ [];
  size = 4;
  head = 0;
  tail = 1;
  pop_lock = false;
  wait_state = 0;
  rsock = 0;
  wsock = 0;
  pipe = 0;
}

abbrev full : Queue ℕ
full = record fresh { q = some 9 ∷ some 7 ∷ none ∷ some 8 ∷ []; head = 2; tail = 2 }

full-items :
    (i : ℕ) → i < 3 → get_or full.q (place 4 2 (i + 1)) none ≡ get_elem? {A = ℕ} (8 ∷ 9 ∷ 7 ∷ []) i
full-items zero h = refl
full-items (suc zero) h = refl
full-items (suc (suc zero)) h = refl
full-items (suc (suc (suc i))) h = absurd (omega arith)

full-Holds : Holds full (8 ∷ 9 ∷ 7 ∷ [])
full-Holds = record {
  length_q = refl;
  min_size = omega arith;
  head_in = omega arith;
  fits = omega arith;
  tail_at = refl;
  head_free = refl;
  items = full-items;
}

abbrev script : List (Op ℕ)
script = push 1 ∷ push 2 ∷ pop ∷ push 3 ∷ push 4 ∷ pop ∷ pop ∷ pop ∷ pop ∷ []

init_size : (queue_init {A = ℕ} 2).size ≡ 4
unfolding queue_init
init_size = refl

-- round the end of the ring
run_refines_example : run script fresh ≡ done (some 1 ∷ some 2 ∷ some 3 ∷ some 4 ∷ none ∷ [])
unfolding run_list queue_init
run_refines_example = run_refines script fresh [] 3 (queue_init-Holds ℕ 2) refl refl

-- The count of a full queue is 0.
queue_count-Holds_example : queue_count full ≡ 0
queue_count-Holds_example = queue_count-Holds full (8 ∷ 9 ∷ 7 ∷ []) full-Holds
