-- ===== src/Ojc/Stack.antt =====
-- The containers that `opo_val_to_ojc` pops from its stack.
use opo_c.Prelude.{
  ℕ, ◌<◌, ◌≤◌, ◌≡◌, refl, ap, ◌∙◌, leb, List, [], ◌∷◌, ◌++◌, true, false, length, arith,
}
use opo_c.Ojc.Parse.{StackNode, pop_ended}

-- containers that have ended where `left` bytes are left
abbrev pub AllEnded : ℕ → List StackNode → Type 0
AllEnded left [] = Unit
AllEnded left (cur ∷ st) = left ≤ cur.stop × AllEnded left st

pub AllEnded-mono : (m n : ℕ) (st : List StackNode) → n ≤ m → AllEnded m st → AllEnded n st
AllEnded-mono m n [] h e = tt
AllEnded-mono m n (cur ∷ st) h e = (omega arith, AllEnded-mono m n st h e.1)

pub AllEnded-append :
    (n : ℕ) (xs ys : List StackNode) → AllEnded n xs → AllEnded n ys → AllEnded n (xs ++ ys)
AllEnded-append n [] ys p q = q
AllEnded-append n (x ∷ xs) ys p q = (p.0, AllEnded-append n xs ys p.1 q)

-- the first container of a stack, if any, has more members
abbrev pub Open : ℕ → List StackNode → Type 0
Open left [] = Unit
Open left (cur ∷ st) = cur.stop < left

pop_ended-Open : (left : ℕ) (st : List StackNode) → Open left st → pop_ended left st ≡ st
pop_ended-Open left [] h = refl
pop_ended-Open left (cur ∷ st) h = let e : leb left cur.stop ≡ false = ground arith in rw e refl

pop_ended-ended :
    (left : ℕ) (cur : StackNode) (st : List StackNode)
    → left ≤ cur.stop
    → pop_ended left (cur ∷ st) ≡ st
pop_ended-ended left cur st h = let e : leb left cur.stop ≡ true = ground arith in rw e refl

pub pop_ended-one :
    (left : ℕ) (ended st : List StackNode)
    → length ended ≤ 1
    → AllEnded left ended
    → Open left st
    → pop_ended left (ended ++ st) ≡ st
pop_ended-one left [] st l e o = pop_ended-Open left st o
pop_ended-one left (p ∷ []) st l e o = pop_ended-ended left p st e.0
pop_ended-one left (p ∷ q ∷ ended) st l e o = absurd (omega arith)

pub pop_ended-two :
    (left₁ left₂ : ℕ) (ended st : List StackNode)
    → length ended ≤ 2
    → AllEnded left₁ ended
    → left₂ ≤ left₁
    → Open left₁ st
    → Open left₂ st
    → pop_ended left₂ (pop_ended left₁ (ended ++ st)) ≡ st
pop_ended-two left₁ left₂ [] st l e h o o' =
    ap (pop_ended left₂) (pop_ended-Open left₁ st o) ∙ pop_ended-Open left₂ st o'
pop_ended-two left₁ left₂ (p ∷ ended) st l e h o o' =
    ap (pop_ended left₂) (pop_ended-ended left₁ p (ended ++ st) e.0)
    ∙ pop_ended-one left₂ ended st (omega arith) (AllEnded-mono left₁ left₂ ended h e.1) o'
