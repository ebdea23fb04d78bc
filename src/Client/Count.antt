-- ===== src/Client/Count.antt =====
-- `opo_client_pending_count` and `opo_client_ready_count` on a ring.
use opo_c.Prelude.{ℕ, ◌+◌, ◌<◌, ◌≤◌, ◌≡◌, ◌==◌, sym, ◌∙◌, if◌then◌else◌, List, length, arith}
use opo_c.Queue.Holds.{place}
use opo_c.Queue.Ring.{place-lt, count-place}
use opo_c.Client.{Query, Client, opo_client_pending_count, opo_client_ready_count}
use opo_c.Client.Ring.{Ring}

place-place :
    (size h i j : ℕ)
    → h < size
    → i + j ≤ size
    → place size (place size h i) j ≡ place size h (i + j)
place-place size h i j p q = ground arith

-- `opo_client_pending_count` is the number of queries that wait for a response and
-- `opo_client_ready_count` of those that have one, except that each is 0 where these fill the ring.
pub opo_client_count-Ring :
    {K : Type 0} (c : Client K) (rs ss : List (Query K))
    → Ring c rs ss
    → (opo_client_pending_count c ≡ (if length ss == c.pending_max then 0 else length ss))
      × (opo_client_ready_count c ≡ (if length rs == c.pending_max then 0 else length rs))
unfolding opo_client_pending_count opo_client_ready_count
opo_client_count-Ring c rs ss h =
    let r : length rs ≤ c.pending_max = omega (arith, h.fits) in
    let s : length ss ≤ c.pending_max = omega (arith, h.fits) in
    let d : c.on_deck < c.pending_max =
      rw h.deck_at (place-lt c.pending_max c.head (length rs) h.head_in r) in
    let e : c.tail ≡ place c.pending_max c.on_deck (length ss) = rw h.deck_at (
      h.tail_at
      ∙ sym (place-place c.pending_max c.head (length rs) (length ss) h.head_in h.fits)) in
    (
      rw e (count-place c.pending_max c.on_deck (length ss) d s),
      rw h.deck_at (count-place c.pending_max c.head (length rs) h.head_in r),
    )
