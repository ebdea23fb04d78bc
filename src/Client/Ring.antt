-- ===== src/Client/Ring.antt =====
-- What the ring of pending queries holds between two calls, and the slots that calls change.
use opo_c.Prelude.{
  ℕ, zero, suc, ◌+◌, ◌<◌, ◌≤◌, ◌≡◌, ◌≢◌, refl, ap, Option, none, some, List, [], ◌∷◌, ◌++◌, Bool,
  false, length, get_elem?, set, length-append, arith, replicate, length-replicate, Bool-cases,
  ◌==◌, ◌||◌, inl, inr,
}
use opo_c.Bytes.{Bytes}
use opo_c.Outcome.{done}
use opo_c.Queue.Holds.{place}
use opo_c.Queue.Ring.{place-lt}
use opo_c.Client.{QueryState, clear, sent, ready, Query, Client, client_init, slot, wake_ready}

module _ {ℓ} {A : Type ℓ} where
  pub get_elem?-set_self :
      (xs : List A) (i : ℕ) (v : A) → i < length xs → get_elem? (set xs i v) i ≡ some v
  get_elem?-set_self [] i v h = absurd (omega arith)
  get_elem?-set_self (x ∷ xs) zero v h = refl
  get_elem?-set_self (x ∷ xs) (suc i) v h = get_elem?-set_self xs i v (omega arith)

  pub get_elem?-set_ne :
      (xs : List A) (i j : ℕ) (v : A) → i ≢ j → get_elem? (set xs i v) j ≡ get_elem? xs j
  get_elem?-set_ne [] i j v h = refl
  get_elem?-set_ne (x ∷ xs) zero zero v h = absurd (h refl)
  get_elem?-set_ne (x ∷ xs) zero (suc j) v h = refl
  get_elem?-set_ne (x ∷ xs) (suc i) zero v h = refl
  get_elem?-set_ne (x ∷ xs) (suc i) (suc j) v h = get_elem?-set_ne xs i j v (λ e. h (ap suc e))

  -- Lists that differ in one item agree elsewhere.
  pub get_elem?-middle :
      (xs ys : List A) (a b : A) (i : ℕ)
      → i ≢ length xs
      → get_elem? (xs ++ (a ∷ ys)) i ≡ get_elem? (xs ++ (b ∷ ys)) i
  get_elem?-middle [] ys a b zero h = absurd (h refl)
  get_elem?-middle [] ys a b (suc i) h = refl
  get_elem?-middle (x ∷ xs) ys a b zero h = refl
  get_elem?-middle (x ∷ xs) ys a b (suc i) h = get_elem?-middle xs ys a b i (λ e. h (ap suc e))

pub slot_lem :
    {K : Type 0} (c : Client K) (i : ℕ) (x : Query K) → get_elem? c.q i ≡ some x → slot c i ≡ done x
unfolding slot
slot_lem c i x e = rw (slot, e) refl

-- all of them in a state
abbrev pub AllIn : {K : Type 0} → QueryState → List (Query K) → Type 0
AllIn s [] = Unit
AllIn s (x ∷ xs) = (x.state ≡ s) × AllIn s xs

-- The ring holds the queries `rs`, which have their responses, and behind them `ss`, which wait for
-- theirs, each in the order in which they were sent. `head`, `on_deck` and `tail` stand where the
-- first, the second and the free slots begin. The other slots are free.
pub record Ring {K : Type 0} (c : Client K) (rs ss : List (Query K)) : Type 0 where
  pub length_q : length c.q ≡ c.pending_max
  pub head_in : c.head < c.pending_max
  pub fits : length rs + length ss ≤ c.pending_max
  pub deck_at : c.on_deck ≡ place c.pending_max c.head (length rs)
  pub tail_at : c.tail ≡ place c.pending_max c.head (length rs + length ss)
  pub slots :
      (i : ℕ)
      → i < length rs + length ss
      → get_elem? c.q (place c.pending_max c.head i) ≡ get_elem? (rs ++ ss) i
  pub free :
      (i : ℕ)
      → length rs + length ss ≤ i
      → i < c.pending_max
      → (x : Query K) × (get_elem? c.q (place c.pending_max c.head i) ≡ some x)
        × (x.state ≡ clear)
        × (x.resp ≡ none)
  pub all_ready : AllIn ready rs
  pub all_sent : AllIn sent ss
  pub unlocked : (c.head_lock ≡ false) × (c.tail_lock ≡ false)

get_elem?-replicate : {A : Type 0} (n i : ℕ) (a : A) → i < n → get_elem? (replicate n a) i ≡ some a
get_elem?-replicate zero i a h = absurd (omega arith)
get_elem?-replicate (suc n) zero a h = refl
get_elem?-replicate (suc n) (suc i) a h = get_elem?-replicate n i a (omega arith)

-- A new client has no queries.
pub client_init-Ring :
    (K : Type 0) (pending_max wsock : ℕ) (has_status : Bool)
    → Ring (client_init {K = K} pending_max wsock has_status) [] []
unfolding client_init
client_init-Ring K pending_max wsock has_status = record {
  length_q = length-replicate _ _;
  head_in = ground arith;
  fits = ground arith;
  deck_at = ground arith;
  tail_at = ground arith;
  slots = λ i h. absurd (omega arith);
  free = λ i l h.
      (_, get_elem?-replicate _ _ _ (place-lt _ 0 i (ground arith) (omega arith)), refl, refl);
  all_ready = tt;
  all_sent = tt;
  unlocked = (refl, refl);
}

place-inj :
    (size h i j : ℕ) → h < size → i < size → j < size → i ≢ j → place size h i ≢ place size h j
place-inj size h i j p q r n = ground arith

module _ {K : Type 0} (c : Client K) (length_q : length c.q ≡ c.pending_max)
    (head_in : c.head < c.pending_max) where
  -- a write to the slot `k` places after the head
  abbrev pub written_at : ℕ → Query K → List (Query K)
  written_at k y = set c.q (place c.pending_max c.head k) y

  pub written_self :
      (k : ℕ) (y : Query K)
      → k < c.pending_max
      → get_elem? (written_at k y) (place c.pending_max c.head k) ≡ some y
  written_self k y h =
      get_elem?-set_self c.q _ y
        (omega (arith, length_q, place-lt c.pending_max c.head k head_in (omega arith)))

  pub written_ne :
      (k i : ℕ) (y : Query K)
      → k < c.pending_max
      → i < c.pending_max
      → k ≢ i
      → get_elem? (written_at k y) (place c.pending_max c.head i)
        ≡ get_elem? c.q (place c.pending_max c.head i)
  written_ne k i y p q n =
      get_elem?-set_ne c.q _ _ y (place-inj c.pending_max c.head k i head_in p q n)

pub AllIn-append :
    {K : Type 0} (s : QueryState) (xs ys : List (Query K))
    → AllIn s xs
    → AllIn s ys
    → AllIn s (xs ++ ys)
AllIn-append s [] ys p q = q
AllIn-append s (x ∷ xs) ys p q = (p.0, AllIn-append s xs ys p.1 q)

-- for `omega`, on lists of queries
pub length-append_queries :
    {K : Type 0} (xs ys : List (Query K)) → length (xs ++ ys) ≡ length xs + length ys
length-append_queries = length-append

module _ {K : Type 0} where
  -- The ring does not depend on the logs.
  pub Ring-logs :
      (c : Client K) (rs ss : List (Query K)) (written : List Bytes)
      (calls : List (K × ℕ × Option Bytes)) (lock : Bool)
      → Ring c rs ss
      → lock ≡ false
      → Ring
          (record c { head_lock = lock; tail_lock = false; written = written; calls = calls })
          rs
          ss
  Ring-logs c rs ss written calls lock h e = record {
    length_q = h.length_q;
    head_in = h.head_in;
    fits = h.fits;
    deck_at = h.deck_at;
    tail_at = h.tail_at;
    slots = h.slots;
    free = h.free;
    all_ready = h.all_ready;
    all_sent = h.all_sent;
    unlocked = (e, refl);
  }

  -- Waking a thread does not change the ring.
  pub wake_ready-Ring :
      (c : Client K) (rs ss : List (Query K)) → Ring c rs ss → Ring (wake_ready c) rs ss
  unfolding wake_ready
  wake_ready-Ring c rs ss h = elim (Bool-cases (c.wsock == 0 || c.waiting == 0)) [
    | inl e ↦ rw e h
    | inr e ↦ rw e (record {
      length_q = h.length_q;
      head_in = h.head_in;
      fits = h.fits;
      deck_at = h.deck_at;
      tail_at = h.tail_at;
      slots = h.slots;
      free = h.free;
      all_ready = h.all_ready;
      all_sent = h.all_sent;
      unlocked = h.unlocked;
    })
  ]
