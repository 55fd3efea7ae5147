-- ===== src/Linearize/Rejects.antt =====
-- rsm/verify/linearize.py: the walk marks only positions that are dead, and what it rejects has no order.
use mathlib.Core.List.{mem-cons_self}
use mathlib.Core.List.Perm
use replicated_state_machine.Prelude.{
  ℕ, zero, suc, ◌≡◌, refl, sym, subst, ap, List, [], ◌∷◌, Dict, In, All, All-each, length, ltb,
  Bool-cases, ◌⊎◌, inl, inr, arith,
}
use replicated_state_machine.Machine.{Object, Python}
use replicated_state_machine.History.{Operation}
use replicated_state_machine.Linearize.{Search, Position, walk, exhausted, was_seen, visit, digest}
use replicated_state_machine.Linearize.Orders.{Orders, Mem-All}
use replicated_state_machine.Linearize.Digests.{Keyed, same_digest-SameState}
use replicated_state_machine.Linearize.Alike.{Alike, Explained-Alike}
use replicated_state_machine.Linearize.Cost.{walk-Grows}
use replicated_state_machine.Linearize.Complete.{
  left, Dead, None, IsComplete, try_each_complete, seen-None,
}

module _ (python : Python) (repr : Object → ℕ) (ops : List Operation) where
  -- An order of operations starts with one of them.
  no_order :
      (state : Dict Object) (one : Operation) (rest : List Operation)
      → All
          (λ first. (order : List Operation) → ¬ Orders python state (one ∷ rest) (first ∷ order))
          (one ∷ rest)
      → None python repr ops state (one ∷ rest)
  no_order state one rest a [] o = absurd (cc (Perm.nil-eq o.same_operations))
  no_order state one rest a (first ∷ order) o =
      Mem-All (λ _. hlevel) (one ∷ rest) a ((Perm.mem_iff o.same_operations).0 mem-cons_self) order
        o

  visit-seen :
      (done : List ℕ) (remaining : List Operation) (s : Search)
      → (visit done remaining s).seen ≡ s.seen
  visit-seen done remaining s = elim (Bool-cases (ltb s.longest (length done))) [
    | inl e ↦ rw e refl
    | inr e ↦ rw e refl
  ]

  -- A position is dead if no order is left from one state that has its digest.
  module _ (once : (a b : Object) → repr a ≡ repr b → a ≡ b) where
    None-Dead :
        (done : List ℕ) (state : Dict Object)
        → Keyed state
        → None python repr ops state (left done ops)
        → Dead python repr ops (done, digest repr state)
    None-Dead done state k none state' k' h order o =
        let alike : Alike state' state = record {
          left = k';
          right = k;
          answers = same_digest-SameState repr once state' state k' k h;
        } in
        none order (record {
          same_operations = o.same_operations;
          real_time = o.real_time;
          explained = Explained-Alike python state' state order alike o.explained;
        })

    -- What `walk` marks while it is at a position, it may mark when it has left it.
    marks-left :
        (P : Position → Type 0) (p : Position) (seen : List Position)
        → Dead python repr ops p
        → All (λ q. Dead python repr ops q ⊎ (P q ⊎ (q ≡ p))) seen
        → All (λ q. Dead python repr ops q ⊎ P q) seen
    marks-left P p [] d a = tt
    marks-left P p (q ∷ seen) d a = (
      elim a.0 [
        | inl dead ↦ inl dead
        | inr c ↦ elim c [ inl k ↦ inr k | inr e ↦ inl (subst (Dead python repr ops) (sym e) d) ]
      ],
      marks-left P p seen d a.1,
    )

    marks-more :
        (P : Position → Type 0) (p : Position) (seen : List Position)
        → All (λ q. Dead python repr ops q ⊎ P q) seen
        → All (λ q. Dead python repr ops q ⊎ (P q ⊎ (q ≡ p))) seen
    marks-more P p [] a = tt
    marks-more P p (q ∷ seen) a =
        (elim a.0 [ inl dead ↦ inl dead | inr k ↦ inr (inl k) ], marks-more P p seen a.1)

    pub walk-IsComplete : (n : ℕ) → IsComplete python repr ops n (walk python repr n)
    unfolding walk
    walk-IsComplete n P done [] state s same d t k low marks few h busy = cc
    walk-IsComplete zero P done (x ∷ r) state s same d t k low marks few h busy =
        absurd (omega arith)
    walk-IsComplete (suc n) P done (x ∷ r) state s same d t k low marks few h busy =
        let here =
          subst (All (λ q. Dead python repr ops q ⊎ P q)) (sym (visit-seen done (x ∷ r) s)) marks in
        elim (Bool-cases (exhausted (visit done (x ∷ r) s))) [
          | inl e ↦ cc (e, rw e at busy)
          | inr e ↦
              elim (Bool-cases (was_seen (done, digest repr state) (visit done (x ∷ r) s).seen)) [
                | inl f ↦
                    rw (e, f)
                      (record {
                        none_left = λ order o.
                            seen-None python repr ops P done state _ k
                              (λ q p. omega (arith, low q p, ap length same)) here f order
                              (rw same at o);
                        marks = here;
                      })
                | inr f ↦
                    let p : Position = (done, digest repr state) in
                    let (firsts, after) =
                      try_each_complete python repr ops n (walk python repr n) (walk-IsComplete n)
                        (walk-Grows python repr n) (λ q. P q ⊎ (q ≡ p)) done (x ∷ r) state same d t
                        k
                        (λ q c. elim c [
                          | inl at_q ↦ omega (arith, low q at_q)
                          | inr is ↦ omega (
                            arith,
                            ap length same,
                            ap (λ (z : Position). length (left z.0 ops)) is,
                          )
                        ])
                        few (x ∷ r)
                        (record (visit done (x ∷ r) s) { seen = p ∷ (visit done (x ∷ r) s).seen })
                        (All-each (λ one. In one (x ∷ r)) (x ∷ r) (λ y i. i))
                        (inr (inr refl), marks-more P p _ here) (rw (e, f) at h)
                        (rw (e, f) at busy) in
                    let none = no_order state x r firsts in
                    rw (e, f)
                      (record {
                        none_left = none;
                        marks =
                            marks-left P p _
                              (None-Dead done state k (λ order o. none order (rw (← same) at o)))
                              after;
                      })
              ]
        ]
