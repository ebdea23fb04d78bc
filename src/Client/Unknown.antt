-- ===== src/Client/Unknown.antt =====
-- `process_msg` on a response that no query has asked for.
use opo_c.Prelude.{
  ℕ, zero, suc, ◌+◌, ◌-◌, ◌<◌, ◌≤◌, ◌≡◌, ◌≢◌, ◌==◌, ◌^◌, ◌&&◌, ◌||◌, leb, if◌then◌else◌, refl, inl,
  inr, some, none, List, [], ◌∷◌, ◌++◌, length, get_elem?, arith, Bool, Bool-cases, true, false,
}
use opo_c.Bytes.{Bytes, fill_uint64}
use opo_c.Outcome.{done, fault}
use opo_c.Err.{opo_err_not_found, text}
use opo_c.Builder.{Heap}
use opo_c.Queue.{next_slot}
use opo_c.Queue.Ring.{place-lt}
use opo_c.Client.{Query, Client}
use opo_c.Client.Receive.{find_loop, process_msg}
use opo_c.Client.Ring.{Ring, slot_lem}
use opo_c.Client.Accept.{opo_msg_id-fill}

get_elem?-below :
    {A : Type 0} (xs : List A) (i : ℕ) → i < length xs → (x : A) × (get_elem? xs i ≡ some x)
get_elem?-below [] i h = absurd (omega arith)
get_elem?-below (x ∷ xs) zero h = (x, refl)
get_elem?-below (x ∷ xs) (suc i) h = get_elem?-below xs i (omega arith)

-- how many slots the search can still look at
abbrev ahead : ℕ → ℕ → Bool → ℕ
ahead size q true = size - q
ahead size q false = size - q + size

module _ {K : Type 0} (c : Client K) (id : ℕ) (full : length c.q ≡ c.pending_max)
    (fresh : (i : ℕ) (x : Query K) → get_elem? c.q i ≡ some x → x.id ≢ id) where
  find_loop-none :
      (f q : ℕ) (looped : Bool)
      → q < c.pending_max
      → ahead c.pending_max q looped ≤ f
      → find_loop f c id q looped ≡ done none
  unfolding find_loop
  find_loop-none zero q true h r = absurd (omega arith)
  find_loop-none zero q false h r = absurd (omega arith)
  find_loop-none (suc f) q true h r =
      let (x, e) = get_elem?-below c.q q (omega (arith, full)) in
      let n = fresh q x e in
      let other : (x.id == id) ≡ false = ground arith in
      let next = next_slot c.pending_max q in
      rw (slot_lem c q x e, other)
        (elim (Bool-cases ((leb c.pending_max (q + 1) && true) || next == c.tail)) [
          | inl s ↦ rw s refl
          | inr s ↦
              let p : next < c.pending_max = ground arith in
              let m : c.pending_max - next ≤ f = ground arith in
              rw s (find_loop-none f next true p m)
        ])
  find_loop-none (suc f) q false h r =
      let (x, e) = get_elem?-below c.q q (omega (arith, full)) in
      let n = fresh q x e in
      let other : (x.id == id) ≡ false = ground arith in
      let next = next_slot c.pending_max q in
      rw (slot_lem c q x e, other)
        (elim (Bool-cases ((leb c.pending_max (q + 1) && false) || next == c.tail)) [
          | inl s ↦ rw s refl
          | inr s ↦ rw s (elim (Bool-cases (leb c.pending_max (q + 1))) [
            | inl t ↦ rw t (find_loop-none f 0 true (omega arith) (omega arith))
            | inr t ↦ rw t (find_loop-none f (q + 1) false (ground arith) (ground arith))
          ])
        ])

-- A response with an id that no slot of the ring has ends the search, and goes to the status callback
-- as not found; nothing else changes. Where there is no status callback it is called all the same,
-- through NULL.
pub process_msg-unknown :
    {K : Type 0} (heap : Heap) (lost_msg : Bytes) (c : Client K) (rs ss : List (Query K)) (id : ℕ)
    (body : Bytes)
    → Ring c rs ss
    → id < 2 ^ 64
    → ((i : ℕ) (x : Query K) → get_elem? c.q i ≡ some x → x.id ≢ id)
    → process_msg heap lost_msg (fill_uint64 id ++ body) c ≡ (
        if c.has_status
        then done (record c {
          statuses = c.statuses ++ ((opo_err_not_found, text "Pending query not found.") ∷ []);
        })
        else fault)
unfolding process_msg
process_msg-unknown heap lost_msg c rs ss id body h w fresh =
    let at_deck : c.on_deck < c.pending_max =
      rw h.deck_at (place-lt c.pending_max c.head (length rs) h.head_in (omega (arith, h.fits))) in
    let (x, e) = get_elem?-below c.q c.on_deck (omega (arith, h.length_q)) in
    let n = fresh c.on_deck x e in
    let other : (id == x.id) ≡ false = ground arith in
    let m : c.pending_max - c.on_deck + c.pending_max ≤ c.pending_max + c.pending_max =
      omega arith in
    rw (opo_msg_id-fill id body w) (
      rw (slot_lem c c.on_deck x e) (
        rw
          (
            other,
            find_loop-none c id h.length_q fresh (c.pending_max + c.pending_max) c.on_deck false
                at_deck m,
          )
          refl))
