-- ===== src/Queue/Cleanup.antt =====
-- What `queue_listen` opens, `queue_cleanup` closes.
use opo_c.Prelude.{ℕ, ◌<◌, ◌≡◌, lt→ltb, refl, some, none, [], ◌∷◌}
use opo_c.Queue.{queue_init, queue_listen, queue_cleanup}

-- A queue that was listened to closes both ends of its pipe, once each, and one that was not, or
-- for which there was no pipe, closes nothing.
queue_cleanup-queue_listen :
    (A : Type 0) (qsize r w : ℕ)
    → 0 < r
    → 0 < w
    → ((queue_cleanup (queue_listen (some (r, w)) (queue_init {A = A} qsize)).1).1 ≡ w ∷ r ∷ [])
      × ((queue_cleanup (queue_listen none (queue_init {A = A} qsize)).1).1 ≡ [])
      × ((queue_cleanup (queue_init {A = A} qsize)).1 ≡ [])
unfolding queue_cleanup queue_listen queue_init
queue_cleanup-queue_listen A qsize r w p q = (rw (lt→ltb 0 r p, lt→ltb 0 w q) refl, refl, refl)
