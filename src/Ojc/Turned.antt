-- ===== src/Ojc/Turned.antt =====
-- Parts of a message that the loop of `opo_val_to_ojc` goes through, and how they follow each other.
use opo_c.Prelude.{
  ℕ, suc, ◌+◌, ◌<◌, ◌≤◌, ◌≡◌, ◌==◌, refl, sym, ap, ◌∙◌, Option, none, some, List, [], ◌∷◌, ◌++◌,
  true, length, append_assoc, append-nil, length-append, arith,
}
use opo_c.Prelude.Int.{ℤ, pos}
use opo_c.Outcome.{done, ◌>>=◌}
use opo_c.Bytes.{Bytes}
use opo_c.Err.{Err}
use opo_c.Ojc.Parse.{
  Made, Call, OjcVal, StackNode, ParseCtx, Libs, create, type_of, pop_ended, parse_loop,
}
use opo_c.Ojc.Calls.{link}
use opo_c.Ojc.Spots.{Spot, frame, frames, place_of, key_at, klen_at, topped, context, before}
use opo_c.Ojc.Rounds.{first_case, proceed, round}
use opo_c.Wire.{Value, encode}
use opo_c.Wire.Digits.{length-append_bytes}
use opo_c.Ojc.Stack.{AllEnded, AllEnded-append}

module _ {D : Type 0} (libs : Libs D) (format : ℤ → ℕ → Bytes)
    (formats : (s f : ℕ)
      → s ≤ 9223372036
      → f < 1000000000
      → libs.format_time s f ≡ some (format (pos s) f)) where
  pub one_round :
      (f stop : ℕ) (err : Err) (st st' : List StackNode) (key : Option Bytes) (klen : ℕ)
      (t : Option OjcVal) (n : ℕ) (cs : List (Call D)) (val val' : Bytes) (ctx' : ParseCtx D)
      → stop < length val
      → err.code ≡ 0
      → pop_ended (length val) st ≡ st'
      → first_case libs format formats err (context st' key klen t n cs) val
        ≡ done (err, ctx', val')
      → parse_loop libs (suc f) stop err (context st key klen t n cs) val
        ≡ parse_loop libs f stop err ctx' val'
  one_round f stop err st st' key klen t n cs val val' ctx' h z p e =
      round libs format formats f stop err (context st key klen t n cs) val h
      ∙ ap
          (λ s.
            first_case libs format formats err (context s key klen t n cs) val
            >>= proceed libs format formats (parse_loop libs f stop))
          p
      ∙ ap (λ m. m >>= proceed libs format formats (parse_loop libs f stop)) e
      ∙ ok
    where
      ok :
          proceed libs format formats (parse_loop libs f stop) (err, ctx', val')
          ≡ parse_loop libs f stop err ctx' val'
      ok = let b : (err.code == 0) ≡ true = ground arith in rw b refl

  -- A part of a message takes `w` rounds, after which `e` containers have ended on top of `rest`.
  abbrev pub Turned :
      ℕ
      → ℕ
      → ℕ
      → Bytes
      → Bytes
      → Err
      → ParseCtx D
      → List StackNode
      → Option OjcVal
      → ℕ
      → List (Call D)
      → Type 0
  Turned w e stop chunk tail err ctx rest t n cs =
      (ended : List StackNode) × (length ended ≡ e)
      × AllEnded (length tail) ended
      × ((f : ℕ)
          → parse_loop libs (w + f) stop err ctx (chunk ++ tail)
            ≡ parse_loop libs f stop err (context (ended ++ rest) none 0 t n cs) tail)

  pub same_end :
      (f stop : ℕ) (err : Err) (t : Option OjcVal) (tail : Bytes) (st st' : List StackNode)
      (n n' : ℕ) (cs cs' : List (Call D))
      → st ≡ st'
      → n ≡ n'
      → cs ≡ cs'
      → parse_loop libs f stop err (context st none 0 t n cs) tail
        ≡ parse_loop libs f stop err (context st' none 0 t n' cs') tail
  same_end f stop err t tail st st' n n' cs cs' p q r =
      λ i. parse_loop libs f stop err (context (p i) none 0 t (q i) (r i)) tail

  -- `end` is behind a part that is not empty
  pub behind :
      (chunk tail : Bytes) (stop : ℕ)
      → 0 < length chunk
      → stop ≤ length tail
      → stop < length (chunk ++ tail)
  behind chunk tail stop p h = omega (arith, length-append_bytes chunk tail)

  -- A container, where its members turn. `m` is what it is made as, and `body` the bytes of its
  -- members.
  pub container-Turned :
      (v : Value) (m : Made D) (body : Bytes) (stop : ℕ) (tail : Bytes) (err : Err) (spot : Spot)
      (st : List StackNode) (t : Option OjcVal) (n w e k : ℕ) (cs inner : List (Call D))
      → stop < length (encode v ++ tail)
      → err.code ≡ 0
      → pop_ended (length (encode v ++ tail)) st ≡ frames spot
      → first_case libs format formats err (before spot t n cs) (encode v ++ tail)
        ≡ done (
          err,
          context
              (frame n (type_of m) (length tail) ∷ frames spot)
              none
              0
              (topped spot (record { id = n; type = type_of m }) t)
              (n + 1)
              (cs ++ (create m ∷ link (place_of spot) n)),
          body ++ tail,
        )
      → Turned w e stop body tail err
          (context
            (frame n (type_of m) (length tail) ∷ frames spot)
            none
            0
            (topped spot (record { id = n; type = type_of m }) t)
            (n + 1)
            (cs ++ (create m ∷ link (place_of spot) n)))
          (frame n (type_of m) (length tail) ∷ frames spot)
          (topped spot (record { id = n; type = type_of m }) t)
          (n + 1 + k)
          ((cs ++ (create m ∷ link (place_of spot) n)) ++ inner)
      → Turned
          (suc w)
          (suc e)
          stop
          (encode v)
          tail
          err
          (context st (key_at spot) (klen_at spot) t n cs)
          (frames spot)
          (topped spot (record { id = n; type = type_of m }) t)
          (n + suc k)
          (cs ++ (create m ∷ (link (place_of spot) n ++ inner)))
  container-Turned v m body stop tail err spot st t n w e k cs inner q z p c (ended, l, a, go) =
      let cur = frame n (type_of m) (length tail) in
      (
        ended ++ (cur ∷ []),
        omega (arith, length-append {0} ended (cur ∷ [])),
        AllEnded-append (length tail) ended (cur ∷ []) a (omega arith, tt),
        λ f.
            ap
              (λ w.
                parse_loop libs w stop err (context st (key_at spot) (klen_at spot) t n cs)
                  (encode v ++ tail))
              (omega arith)
            ∙ one_round (w + f) stop err st (frames spot) (key_at spot) (klen_at spot) t n cs
                (encode v ++ tail) (body ++ tail) _ q z p c
            ∙ go f
            ∙ same_end f stop err _ tail _ _ _ _ _ _
                (sym (append_assoc ended (cur ∷ []) (frames spot))) (omega arith)
                (append_assoc cs (create m ∷ link (place_of spot) n) inner),
      )

  -- a part behind another, which leaves the context `mid`
  pub seq-Turned :
      (w w' e e' stop : ℕ) (chunk chunk' tail : Bytes) (err : Err) (ctx mid : ParseCtx D)
      (rest : List StackNode) (t : Option OjcVal) (n n' : ℕ) (cs cs' : List (Call D))
      → ((f : ℕ)
          → parse_loop libs (w + f) stop err ctx (chunk ++ (chunk' ++ tail))
            ≡ parse_loop libs f stop err mid (chunk' ++ tail))
      → Turned w' e stop chunk' tail err mid rest t n cs
      → e ≡ e'
      → n ≡ n'
      → cs ≡ cs'
      → Turned (w + w') e' stop (chunk ++ chunk') tail err ctx rest t n' cs'
  seq-Turned w w' e e' stop chunk chunk' tail err ctx mid rest t n n' cs cs' go (ended, l, a, go') o
        p q =
      (
        ended,
        l ∙ o,
        a,
        λ f.
            ap (λ r. parse_loop libs r stop err ctx ((chunk ++ chunk') ++ tail)) (omega arith)
            ∙ ap (parse_loop libs (w + (w' + f)) stop err ctx) (append_assoc chunk chunk' tail)
            ∙ go (w' + f)
            ∙ go' f
            ∙ same_end f stop err t tail (ended ++ rest) (ended ++ rest) n n' cs cs' refl p q,
      )

  -- no part
  pub nil-Turned :
      (stop : ℕ) (tail : Bytes) (err : Err) (ended rest : List StackNode) (t : Option OjcVal)
      (n : ℕ) (cs : List (Call D))
      → AllEnded (length tail) ended
      → Turned 0
          (length ended)
          stop
          []
          tail
          err
          (context (ended ++ rest) none 0 t n cs)
          rest
          t
          (n + 0)
          (cs ++ [])
  nil-Turned stop tail err ended rest t n cs a = (
    ended,
    refl,
    a,
    λ f.
        ap (λ w. parse_loop libs w stop err (context (ended ++ rest) none 0 t n cs) tail)
          (omega arith)
        ∙ same_end f stop err t tail (ended ++ rest) (ended ++ rest) n (n + 0) cs (cs ++ []) refl
            (omega arith) (sym (append-nil cs)),
  )
