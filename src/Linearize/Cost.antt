-- ===== src/Linearize/Cost.antt =====
-- rsm/verify/linearize.py: how many states a search visits.
use native.Mathlib.Nat.{mul-le-mul_right}
use replicated_state_machine.Prelude.{
  ℕ, zero, suc, ◌+◌, ◌*◌, ◌≤◌, ◌≡◌, refl, Bool, true, false, List, [], ◌∷◌, Dict, In, All, All-each,
  ltb, length, Bool-cases, inl, inr, ◌++◌, ◌∙◌, arith,
}
use replicated_state_machine.Errors.{Result-cases}
use replicated_state_machine.Machine.{Object, Python, apply}
use replicated_state_machine.History.{Operation}
use replicated_state_machine.Linearize.{
  Search, Walk, walk, try_one, try_each, or_next, exhausted, was_seen, visit, allowed, without,
  copy_of, wrong_answer, digest,
}
use replicated_state_machine.Linearize.Orders.{length-without-In}

-- The calls of `walk` on n operations, if nothing prunes them.
abbrev pub visits : ℕ → ℕ
visits zero = 1
visits (suc n) = 1 + suc n * visits n

-- A search has gone on, by at most n states.
pub record Grows (n : ℕ) (s t : Search) : Type 0 where
  pub least : s.states ≤ t.states
  pub most : t.states ≤ s.states + n
  pub budget : t.budget ≡ s.budget

visit-Grows :
    (done : List ℕ) (remaining : List Operation) (s : Search) → Grows 1 s (visit done remaining s)
visit-Grows done remaining s = elim (Bool-cases (ltb s.longest (length done))) [
  | inl e ↦ rw e (record { least = omega arith; most = omega arith; budget = refl })
  | inr e ↦ rw e (record { least = omega arith; most = omega arith; budget = refl })
]

same-Grows : (n : ℕ) (s : Search) → Grows n s s
same-Grows n s = record { least = omega arith; most = omega arith; budget = refl }

or_next-Grows :
    (m n : ℕ) (s : Search) (r : Search × Bool) (next : Search → Search × Bool)
    → Grows m s r.0
    → Grows n r.0 (next r.0).0
    → Grows (m + n) s (or_next r next).0
or_next-Grows m n s (t, true) next g h = record {
  least = g.least;
  most = omega (arith, g.most);
  budget = g.budget;
}
or_next-Grows m n s (t, false) next g h = record {
  least = omega (arith, g.least, h.least);
  most = omega (arith, g.most, h.most);
  budget = h.budget ∙ g.budget;
}

one-le-visits : (n : ℕ) → 1 ≤ visits n
one-le-visits zero = omega arith
one-le-visits (suc n) = omega arith

Grows-more : (n : ℕ) (s t : Search) → Grows 1 s t → Grows (1 + suc n * visits n) s t
Grows-more n s t g = record { least = g.least; most = omega (arith, g.most); budget = g.budget }

Grows-rounds :
    (n : ℕ) (remaining : List Operation) (s t u : Search)
    → length remaining ≤ suc n
    → Grows 1 s t
    → Grows (length remaining * visits n) t u
    → Grows (1 + suc n * visits n) s u
Grows-rounds n remaining s t u few g h = record {
  least = omega (arith, g.least, h.least);
  most = omega (arith, g.most, h.most, mul-le-mul_right (visits n) few);
  budget = h.budget ∙ g.budget;
}

module _ (python : Python) where
  -- what `walk` costs at one depth
  abbrev pub IsBounded : ℕ → Walk → Type 0
  IsBounded n go =
      (done : List ℕ) (remaining : List Operation) (state : Dict Object) (s : Search)
      → length remaining ≤ n
      → Grows (visits n) s (go done remaining state s).0

  module _ (n : ℕ) (go : Walk) (bounded : IsBounded n go) (done : List ℕ)
      (remaining : List Operation) (state : Dict Object) (few : length remaining ≤ suc n) where
    try_one-Grows :
        (one : Operation) (s : Search)
        → In one remaining
        → Grows (visits n) s (try_one python go done remaining state one s).0
    unfolding try_one
    try_one-Grows one s i = elim (Bool-cases (allowed one remaining)) [
      | inr e ↦ rw e (same-Grows (visits n) s)
      | inl free ↦ elim (Result-cases (apply python (copy_of state s.drawn) one.command)) [
        | inl (x, q) ↦ rw (free, q) (same-Grows (visits n) s)
        | inr ((out, m), q) ↦ elim (Bool-cases (wrong_answer one out)) [
          | inl e ↦
              rw (free, q, e) (record { least = omega arith; most = omega arith; budget = refl })
          | inr e ↦
              let g =
                bounded (done ++ one.ident ∷ []) (without one.ident remaining) m.state
                  (record s { drawn = m.drawn })
                  (omega (arith, length-without-In one remaining i)) in
              rw (free, q, e) (record { least = g.least; most = g.most; budget = g.budget })
        ]
      ]
    ]

    pub try_each-Grows :
        (candidates : List Operation) (s : Search)
        → All (λ one. In one remaining) candidates
        → Grows
            (length candidates * visits n)
            s
            (try_each python go done remaining state candidates s).0
    unfolding try_each
    try_each-Grows [] s a = same-Grows _ s
    try_each-Grows (one ∷ rest) s a =
        let g =
          or_next-Grows (visits n) (length rest * visits n) s
            (try_one python go done remaining state one s) _ (try_one-Grows one s a.0)
            (try_each-Grows rest _ a.1) in
        record { least = g.least; most = omega (arith, g.most); budget = g.budget }

  module _ (repr : Object → ℕ) where
    -- From n operations on, the search visits at most `visits n` states more.
    pub walk-Grows : (n : ℕ) → IsBounded n (walk python repr n)
    unfolding walk
    walk-Grows n done [] state s few =
        let g = visit-Grows done [] s in
        record { least = g.least; most = omega (arith, g.most, one-le-visits n); budget = g.budget }
    walk-Grows zero done (x ∷ r) state s few = absurd (omega arith)
    walk-Grows (suc n) done (x ∷ r) state s few =
        let g = visit-Grows done (x ∷ r) s in
        elim (Bool-cases (exhausted (visit done (x ∷ r) s))) [
          | inl e ↦ rw e (Grows-more n s _ g)
          | inr e ↦
              elim (Bool-cases (was_seen (done, digest repr state) (visit done (x ∷ r) s).seen)) [
                | inl f ↦ rw (e, f) (Grows-more n s _ g)
                | inr f ↦
                    rw (e, f)
                      (Grows-rounds n (x ∷ r) s _ _ few
                        (record { least = g.least; most = g.most; budget = g.budget })
                        (try_each-Grows n (walk python repr n) (walk-Grows n) done (x ∷ r) state few
                          (x ∷ r) _ (All-each (λ one. In one (x ∷ r)) (x ∷ r) (λ y i. i))))
              ]
        ]
