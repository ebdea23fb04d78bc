-- ===== src/Queue/Holds.antt =====
-- The items that a queue holds, and the invariant of its ring.
use opo_c.Prelude.{
  ℕ, ◌+◌, ◌-◌, ◌<◌, ◌≤◌, ◌≡◌, ltb, if◌then◌else◌, none, List, length, get_or, get_elem?,
}
use opo_c.Queue.{Queue}

-- the slot `i` places after `h`, round the ring
abbrev pub place : ℕ → ℕ → ℕ → ℕ
place size h i = if ltb (h + i) size then h + i else h + i - size

-- The queue holds `xs`, the oldest first: they stand in the slots after the head, the tail is the
-- slot after them, and the slot of the head itself is free. At most `size - 1` items fit.
pub record Holds {A : Type 0} (q : Queue A) (xs : List A) : Type 0 where
  pub length_q : length q.q ≡ q.size
  pub min_size : 4 ≤ q.size
  pub head_in : q.head < q.size
  pub fits : length xs < q.size
  pub tail_at : q.tail ≡ place q.size q.head (length xs + 1)
  pub head_free : get_or q.q q.head none ≡ none
  pub items :
      (i : ℕ) → i < length xs → get_or q.q (place q.size q.head (i + 1)) none ≡ get_elem? xs i
