-- ===== src/Linearize/Complete.antt =====
-- rsm/verify/linearize.py: what the search rejects has no order, although it skips what it has seen.
use replicated_state_machine.Prelude.{
  ℕ, suc, ◌<◌, ◌≤◌, ◌≡◌, refl, sym, subst, ◌∙◌, ap, Bool, true, false, ◌&&◌, ◌||◌, List, [], ◌∷◌,
  ◌++◌, Dict, In, All, All-In, elem, length, ◌==◌, if◌then◌else◌, Bool-cases, ◌⊎◌, inl, inr, arith,
}
use replicated_state_machine.Errors.{Result-cases, ok-injective}
use replicated_state_machine.Machine.{Object, Machine, Python, apply, deterministic}
use replicated_state_machine.Machine.Replay.{moved_out}
use replicated_state_machine.History.{Operation}
use replicated_state_machine.Linearize.{
  Search, Position, Walk, try_one, try_each, or_next, exhausted, was_seen, allowed, without,
  copy_of, wrong_answer, digest, same_digest, within, same_set,
}
use replicated_state_machine.Linearize.Orders.{
  Orders, Distinct, Orders-uncons, Distinct-without, length-without-In,
}
use replicated_state_machine.Linearize.Sound.{Determined, All-without, apply_anywhere, moved_out-ok}
use replicated_state_machine.Linearize.Digests.{Keyed}
use replicated_state_machine.Linearize.Alike.{apply-Keyed}
use replicated_state_machine.Linearize.Cost.{Grows, IsBounded, try_each-Grows}

-- The operations of a history that are not placed.
abbrev pub left : List ℕ → List Operation → List Operation
left done [] = []
left done (one ∷ rest) =
    let deeper = left done rest in if elem one.ident done then deeper else one ∷ deeper

elem-snoc : (x y : ℕ) (xs : List ℕ) → elem x (xs ++ y ∷ []) ≡ (elem x xs || x == y)
elem-snoc x y [] = ground arith
elem-snoc x y (z ∷ xs) = ground (arith, elem-snoc x y xs)

without-left :
    (done : List ℕ) (x : ℕ) (ops : List Operation)
    → without x (left done ops) ≡ left (done ++ x ∷ []) ops
without-left done x [] = refl
without-left done x (one ∷ ops) =
    ground (arith, without-left done x ops, elem-snoc one.ident x done)

within-elem : (x : ℕ) (xs ys : List ℕ) → within xs ys ≡ true → elem x xs ≡ true → elem x ys ≡ true
within-elem x [] ys h e = cc
within-elem x (z ∷ xs) ys h e = ground (arith, within-elem x xs ys)

same_set-elem : (x : ℕ) (xs ys : List ℕ) → same_set xs ys ≡ true → elem x xs ≡ elem x ys
same_set-elem x xs ys h = ground (arith, within-elem x xs ys, within-elem x ys xs)

left-same_set :
    (done done' : List ℕ) (ops : List Operation)
    → same_set done done' ≡ true
    → left done ops ≡ left done' ops
left-same_set done done' [] h = refl
left-same_set done done' (one ∷ ops) h =
    ground (arith, left-same_set done done' ops, same_set-elem one.ident done done')

or_next-false :
    (r : Search × Bool) (next : Search → Search × Bool)
    → (or_next r next).1 ≡ false
    → (r.1 ≡ false) × (or_next r next ≡ next r.0)
or_next-false (s, true) next h = cc
or_next-false (s, false) next h = (refl, refl)

-- A search that is not exhausted was not before.
Grows-exhausted : (n : ℕ) (s t : Search) → Grows n s t → exhausted t ≡ false → exhausted s ≡ false
Grows-exhausted n s t g h = ground (arith, g.least, g.budget)

module _ (python : Python) (repr : Object → ℕ) (ops : List Operation) where
  -- From this position, no order of what is left is one that a machine explains.
  abbrev pub Dead : Position → Type 0
  Dead p =
      (state : Dict Object)
      → Keyed state
      → same_digest (digest repr state) p.1 ≡ true
      → (order : List Operation) → ¬ Orders python state (left p.0 ops) order

  abbrev pub Marks : (Position → Type 0) → Search → Type 0
  Marks P s = All (λ q. Dead q ⊎ P q) s.seen

  abbrev pub None : Dict Object → List Operation → Type 0
  None state remaining = (order : List Operation) → ¬ Orders python state remaining order

  pub record Refuted (P : Position → Type 0) (state : Dict Object) (remaining : List Operation)
      (s : Search) : Type 0 where
    pub none_left : None state remaining
    pub marks : Marks P s

  -- What has been seen has been refuted.
  pub seen-None :
      (P : Position → Type 0) (done : List ℕ) (state : Dict Object) (seen : List Position)
      → Keyed state
      → ((q : Position) → P q → length (left done ops) < length (left q.0 ops))
      → All (λ q. Dead q ⊎ P q) seen
      → was_seen (done, digest repr state) seen ≡ true
      → None state (left done ops)
  seen-None P done state [] k low a h = cc
  seen-None P done state (q ∷ seen) k low a h =
      elim (Bool-cases (same_set done q.0 && same_digest (digest repr state) q.1)) [
        | inr e ↦ seen-None P done state seen k low a.1 (rw e at h)
        | inl e ↦
            let same = left-same_set done q.0 ops (ground arith) in
            elim a.0 [
              | inl dead ↦ rw same (dead state k (ground arith))
              | inr p ↦ absurd (omega (arith, low q p, ap length same))
            ]
      ]

  module _ (n : ℕ) (go : Walk) where
    -- what a false answer of `walk` says, before the budget is used up
    abbrev pub IsComplete : Type 1
    IsComplete =
        (P : Position → Type 0) (done : List ℕ) (remaining : List Operation) (state : Dict Object)
        (s : Search)
        → remaining ≡ left done ops
        → Distinct remaining
        → Determined remaining
        → Keyed state
        → ((q : Position) → P q → length remaining < length (left q.0 ops))
        → Marks P s
        → length remaining ≤ n
        → (go done remaining state s).1 ≡ false
        → exhausted (go done remaining state s).0 ≡ false
        → Refuted P state remaining (go done remaining state s).0

    module _ (complete : IsComplete) (bounded : IsBounded python n go) (P : Position → Type 0)
        (done : List ℕ) (remaining : List Operation) (state : Dict Object)
        (same : remaining ≡ left done ops) (distinct : Distinct remaining)
        (determined : Determined remaining) (keyed : Keyed state)
        (low : (q : Position) → P q → length remaining ≤ length (left q.0 ops))
        (few : length remaining ≤ suc n) where
      -- No order starts with this operation.
      abbrev pub NotFirst : Operation → Type 0
      NotFirst one = (rest : List Operation) → ¬ Orders python state remaining (one ∷ rest)

      try_one_complete :
          (one : Operation) (s : Search)
          → In one remaining
          → Marks P s
          → (try_one python go done remaining state one s).1 ≡ false
          → exhausted (try_one python go done remaining state one s).0 ≡ false
          → NotFirst one × Marks P (try_one python go done remaining state one s).0
      unfolding try_one
      try_one_complete one s i marks h busy = elim (Bool-cases (allowed one remaining)) [
        | inr e ↦ (λ rest o. cc (e, (Orders-uncons one distinct i o).0), rw e marks)
        | inl free ↦
            let anywhere =
              apply_anywhere python state s.drawn one.command
                (All-In (λ y. deterministic y.command ≡ true) remaining determined i) in
            elim (Result-cases (apply python (copy_of state s.drawn) one.command)) [
              | inl (x, q) ↦ (
                λ rest o.
                    let (_, _, ran, _, _) = (Orders-uncons one distinct i o).1 in
                    cc (sym q ∙ anywhere ∙ ap (moved_out s.drawn) ran),
                rw (free, q) marks,
              )
              | inr ((out, m), q) ↦
                  let (m', q', st) = moved_out-ok s.drawn _ (sym anywhere ∙ q) in
                  elim (Bool-cases (wrong_answer one out)) [
                    | inl e ↦ (
                      λ rest o.
                          let (out', m'', ran, fits, _) = (Orders-uncons one distinct i o).1 in
                          let equal =
                            ap (λ (p : Object × Machine). p.0) (ok-injective (sym q' ∙ ran)) in
                          cc (e, ap (wrong_answer one) equal, fits),
                      rw (free, q, e) marks,
                    )
                    | inr e ↦
                        let after : Search = record s { drawn = m.drawn } in
                        let refuted =
                          complete P (done ++ one.ident ∷ []) (without one.ident remaining) m.state
                            after (ap (without one.ident) same ∙ without-left done one.ident ops)
                            (Distinct-without one remaining distinct i)
                            (All-without _ one.ident remaining determined)
                            (subst Keyed st (apply-Keyed python state one.command keyed q'))
                            (λ p k. omega (arith, low p k, length-without-In one remaining i)) marks
                            (omega (arith, length-without-In one remaining i))
                            (rw (free, q, e) at h) (rw (free, q, e) at busy) in
                        (
                          λ rest o.
                              let (out', m'', ran, fits, o') = (Orders-uncons one distinct i o).1 in
                              let equal =
                                ap (λ (p : Object × Machine). p.1.state)
                                  (ok-injective (sym ran ∙ q')) in
                              refuted.none_left rest (rw (equal ∙ st) at o'),
                          rw (free, q, e) refuted.marks,
                        )
                  ]
            ]
      ]

      pub try_each_complete :
          (candidates : List Operation) (s : Search)
          → All (λ one. In one remaining) candidates
          → Marks P s
          → (try_each python go done remaining state candidates s).1 ≡ false
          → exhausted (try_each python go done remaining state candidates s).0 ≡ false
          → All NotFirst candidates
            × Marks P (try_each python go done remaining state candidates s).0
      unfolding try_each
      try_each_complete [] s a marks h busy = (tt, marks)
      try_each_complete (one ∷ rest) s a marks h busy =
          let r = try_one python go done remaining state one s in
          let (failed, is) = or_next-false r _ h in
          let grows = try_each-Grows python n go bounded done remaining state few rest r.0 a.1 in
          let busy' = rw is at busy in
          let (first, marks') =
            try_one_complete one s a.0 marks failed (Grows-exhausted _ _ _ grows busy') in
          let (others, marks'') = try_each_complete rest r.0 a.1 marks' (rw is at h) busy' in
          ((first, others), rw is marks'')
