-- ===== src/Client/Stands.antt =====
-- The lists that a client stands for.
use opo_c.Prelude.{
  ℕ, zero, suc, ◌<◌, ◌≤◌, ◌≡◌, ◌^◌, ◌==◌, ◌||◌, refl, sym, ap, ◌∙◌, inl, inr, ◌⊎◌, some, List, [],
  ◌∷◌, ◌++◌, false, length, take, drop, get_elem?, Bool-cases, arith,
}
use native.Mathlib.Decide.{dec_lt}
use opo_c.Queue.Holds.{place}
use opo_c.Client.{Query, Client, is_sent, wake_ready}
use opo_c.Client.Ring.{Ring}
use opo_c.Client.Drain.{head-cons}
use opo_c.Queue.Ring.{place-round}
use opo_c.Client.Calls.{Stops}
use opo_c.Client.Serial.{Call, submit, respond, process, Model, AllValid, quota}

length-take_cases :
    {A : Type 0} (n : ℕ) (xs : List A)
    → (length (take n xs) ≡ n) ⊎ (length (take n xs) < n × drop n xs ≡ [])
length-take_cases zero xs = inl refl
length-take_cases (suc n) [] = inr (omega arith, refl)
length-take_cases (suc n) (x ∷ xs) = elim (length-take_cases n xs) [
  | inl e ↦ inl (ap suc e)
  | inr (l, e) ↦ inr (omega arith, e)
]

drop-length : {A : Type 0} (xs : List A) → drop (length xs) xs ≡ []
drop-length [] = refl
drop-length (x ∷ xs) = drop-length xs

pub length-take_le : {A : Type 0} (n : ℕ) (xs : List A) → length (take n xs) ≤ length xs
length-take_le zero xs = omega arith
length-take_le (suc n) [] = omega arith
length-take_le (suc n) (x ∷ xs) = let r = length-take_le n xs in omega arith

module _ {K : Type 0} where
  pub quota-Stops :
      (max : ℕ) (rs : List (Query K))
      → Stops max (length (take (quota max rs) rs)) (drop (quota max rs) rs)
  quota-Stops zero rs = inr (inl refl, drop-length rs)
  quota-Stops (suc n) rs = elim (length-take_cases (suc n) rs) [
    | inl e ↦ inl (omega arith, sym e)
    | inr (l, e) ↦ inr (inr l, e)
  ]

  -- the ids of queries are words
  abbrev pub AllWords : List (Query K) → Type 0
  AllWords [] = Unit
  AllWords (x ∷ xs) = x.id < 2 ^ 64 × AllWords xs

  pub AllWords-append :
      (xs : List (Query K)) (x : Query K) → AllWords xs → x.id < 2 ^ 64 → AllWords (xs ++ (x ∷ []))
  AllWords-append [] x h p = (p, tt)
  AllWords-append (y ∷ xs) x h p = (h.0, AllWords-append xs x h.1 p)

  -- what a client stands for, where its ring holds `rs` and `ss`
  abbrev pub model_of : Client K → List (Query K) → List (Query K) → Model K
  model_of c rs ss = record {
    next = c.next_id;
    rs = rs;
    ss = ss;
    sends = c.written;
    calls = c.calls;
  }

  abbrev pub empty_model : Model K
  empty_model = record { next = 1; rs = []; ss = []; sends = []; calls = [] }

  pub AllValid-cons :
      (x : Call K) (xs : List (Call K)) → AllValid (x ∷ xs) → AllValid (x ∷ []) × AllValid xs
  AllValid-cons (submit old v rest cb) xs ok = ((ok.0, tt), ok.1)
  AllValid-cons (respond body) xs ok = (tt, ok)
  AllValid-cons (process max) xs ok = (tt, ok)

  pub record Stands (room : ℕ) (c : Client K) (rs ss : List (Query K)) : Type 0 where
    pub ring : Ring c rs ss
    pub same_room : c.pending_max ≡ room
    pub next_word : c.next_id < 2 ^ 64
    pub words : AllWords ss

  pub wake_ready-model :
      (c : Client K) (rs ss : List (Query K))
      → (model_of (wake_ready c) rs ss ≡ model_of c rs ss)
        × ((wake_ready c).pending_max ≡ c.pending_max)
        × ((wake_ready c).next_id ≡ c.next_id)
  unfolding wake_ready
  wake_ready-model c rs ss = elim (Bool-cases (c.wsock == 0 || c.waiting == 0)) [
    | inl e ↦ rw e (refl, refl, refl)
    | inr e ↦ rw e (refl, refl, refl)
  ]

  -- where no query waits there is none on deck
  pub on_deck-nil :
      (c : Client K) (rs : List (Query K))
      → Ring c rs []
      → (x : Query K) × (get_elem? c.q c.on_deck ≡ some x) × (is_sent x.state ≡ false)
  on_deck-nil c rs h = elim (dec_lt (length rs) c.pending_max) [
    | yes l ↦
        let (x, e, s, _) = h.free (length rs) (omega arith) l in
        (x, ap (get_elem? c.q) h.deck_at ∙ e, rw s refl)
    | no l ↦
        let full : length rs ≡ c.pending_max = omega (arith, h.fits) in
        let at : c.on_deck ≡ c.head =
          h.deck_at ∙ ap (place c.pending_max c.head) full ∙ place-round _ _ h.head_in in
        let (x, e, s) = ready-head rs h (omega (arith, h.head_in)) in
        (x, ap (get_elem? c.q) at ∙ e, s)
  ]
    where
      ready-head :
          (rs : List (Query K))
          → Ring c rs []
          → 0 < length rs
          → (x : Query K) × (get_elem? c.q c.head ≡ some x) × (is_sent x.state ≡ false)
      ready-head [] r l = absurd (omega arith)
      ready-head (x ∷ rs) r l = (x, head-cons c x rs [] r, rw r.all_ready.0 refl)
