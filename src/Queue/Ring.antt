-- ===== src/Queue/Ring.antt =====
-- Arithmetic of the ring: places are distinct, and `next_slot` goes from each to the next.
use native.Mathlib.Decide.{dec_lt}
use native.Mathlib.Nat.{mod_self, mod-eq_of_lt, add-mod_right}
use opo_c.Prelude.{
  ℕ, ◌+◌, ◌-◌, ◌%◌, ◌==◌, Bool-cases, inl, inr, ◌<◌, ◌≤◌, ◌≡◌, ◌≢◌, if◌then◌else◌, arith,
}
use opo_c.Queue.{next_slot}
use opo_c.Queue.Holds.{place}

pub place-lt : (size h i : ℕ) → h < size → i ≤ size → place size h i < size
place-lt size h i p q = ground arith

pub place-ne :
    (size h i j : ℕ) → h < size → i < j → j < i + size → j ≤ size → place size h i ≢ place size h j
place-ne size h i j p q r w = ground arith

pub place-zero : (size h : ℕ) → h < size → place size h 0 ≡ h
place-zero size h p = ground arith

pub place-round : (size h : ℕ) → h < size → place size h size ≡ h
place-round size h p = ground arith

pub next_slot-place :
    (size h i : ℕ) → h < size → i < size → next_slot size (place size h i) ≡ place size h (i + 1)
next_slot-place size h i p q = ground arith

pub place-next_slot :
    (size h i : ℕ) → h < size → i < size → place size (next_slot size h) i ≡ place size h (i + 1)
place-next_slot size h i p q = ground arith

mod-round : (size m : ℕ) → m ≤ size → m % size ≡ (if m == size then 0 else m)
mod-round size m p = elim (Bool-cases (m == size)) [
  | inl e ↦ let e' : m ≡ size = ground arith in rw (e, e', mod_self)
  | inr e ↦ rw e (mod-eq_of_lt (ground arith))
]

pub count-place :
    (size h m : ℕ)
    → h < size
    → m ≤ size
    → (place size h m + size - h) % size ≡ (if m == size then 0 else m)
count-place size h m p q = elim (dec_lt (h + m) size) [
  | yes l ↦
      let e : place size h m + size - h ≡ m + size = ground arith in
      rw (e, add-mod_right) (mod-round size m q)
  | no l ↦ let e : place size h m + size - h ≡ m = ground arith in rw e (mod-round size m q)
]
