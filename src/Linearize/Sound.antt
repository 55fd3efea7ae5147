-- ===== src/Linearize/Sound.antt =====
-- rsm/verify/linearize.py: what `check` calls linearizable is.
use mathlib.Core.List.{Pairwise}
use mathlib.Core.List.Perm
use replicated_state_machine.Prelude.{
  ℕ, zero, suc, ◌≡◌, refl, sym, ◌∙◌, ap, Bool, true, false, List, [], ◌∷◌, Dict, In, All, All-In,
  All-each, ◌==◌, Bool-cases, ◌⊎◌, inl, inr,
}
use replicated_state_machine.Errors.{Result, ok, err, Result-cases, ok-injective}
use replicated_state_machine.Machine.{Command, Object, Machine, Python, apply, deterministic}
use replicated_state_machine.Machine.Replay.{moved_out, perform-moved}
use replicated_state_machine.History.{Operation}
use replicated_state_machine.Linearize.{
  Search, Walk, walk, try_one, try_each, or_next, exhausted, was_seen, visit, allowed, without,
  copy_of, wrong_answer, digest,
}
use replicated_state_machine.Linearize.Orders.{
  Orders, Distinct, all_explained, Orders-cons, Distinct-without,
}

abbrev pub Determined : List Operation → Type 0
Determined = All (λ one. deterministic one.command ≡ true)

-- What holds of all operations holds of those that are left.
pub All-without :
    (P : Operation → Type 0) (ident : ℕ) (xs : List Operation) → All P xs → All P (without ident xs)
All-without P ident [] h = tt
All-without P ident (y ∷ ys) h = elim (Bool-cases (y.ident == ident)) [
  | inl e ↦ rw e (All-without P ident ys h.1)
  | inr e ↦ rw e (h.0, All-without P ident ys h.1)
]

-- A deterministic command does the same at every place of the generator.
pub apply_anywhere :
    (python : Python) (state : Dict Object) (drawn : ℕ) (c : Command)
    → deterministic c ≡ true
    → apply python (copy_of state drawn) c ≡ moved_out drawn (apply python (copy_of state 0) c)
unfolding apply
apply_anywhere python state drawn c d =
    perform-moved python python.chance drawn (copy_of state 0) c c.name d

pub moved_out-ok :
    (drawn : ℕ) (r : Result (Object × Machine)) {out : Object} {m : Machine}
    → moved_out drawn r ≡ ok (out, m)
    → (m' : Machine) × (r ≡ ok (out, m')) × (m'.state ≡ m.state)
moved_out-ok drawn (err e) h = cc
moved_out-ok drawn (ok (out', m')) h =
    let e = ok-injective h in
    (
      m',
      ap (λ (o : Object). ok (o, m')) (ap (λ (p : Object × Machine). p.0) e),
      ap (λ (p : Object × Machine). p.1.state) e,
    )

or_next-true :
    (r : Search × Bool) (next : Search → Search × Bool)
    → (or_next r next).1 ≡ true
    → (r.1 ≡ true) ⊎ ((next r.0).1 ≡ true)
or_next-true (s, true) next h = inl refl
or_next-true (s, false) next h = inr h

module _ (python : Python) where
  abbrev Found : Dict Object → List Operation → Type 0
  Found state remaining = (order : List Operation) × Orders python state remaining order

  abbrev IsSound : Walk → Type 0
  IsSound go =
      (done : List ℕ) (remaining : List Operation) (state : Dict Object) (s : Search)
      → Distinct remaining
      → Determined remaining
      → (go done remaining state s).1 ≡ true
      → Found state remaining

  module _ (go : Walk) (sound : IsSound go) (done : List ℕ) (remaining : List Operation)
      (state : Dict Object) (distinct : Distinct remaining)
      (determined : Determined remaining) where
    try_one_sound :
        (one : Operation) (s : Search)
        → In one remaining
        → (try_one python go done remaining state one s).1 ≡ true
        → Found state remaining
    unfolding try_one
    try_one_sound one s i h = elim (Bool-cases (allowed one remaining)) [
      | inr e ↦ cc (rw e at h)
      | inl free ↦ elim (Result-cases (apply python (copy_of state s.drawn) one.command)) [
        | inl (x, q) ↦ cc (rw (free, q) at h)
        | inr ((out, m), q) ↦ elim (Bool-cases (wrong_answer one out)) [
          | inl e ↦ cc (rw (free, q, e) at h)
          | inr e ↦
              let same =
                apply_anywhere python state s.drawn one.command
                  (All-In (λ y. deterministic y.command ≡ true) remaining determined i) in
              let (m', q', st) = moved_out-ok s.drawn _ (sym same ∙ q) in
              let (order, o) =
                sound _ (without one.ident remaining) m'.state (record s { drawn = m.drawn })
                  (Distinct-without one remaining distinct i)
                  (All-without _ one.ident remaining determined) (rw (free, q, e, ← st) at h) in
              (one ∷ order, Orders-cons one distinct i out m' free q' e o)
        ]
      ]
    ]

    try_each_sound :
        (candidates : List Operation) (s : Search)
        → All (λ one. In one remaining) candidates
        → (try_each python go done remaining state candidates s).1 ≡ true
        → Found state remaining
    unfolding try_each
    try_each_sound [] s a h = cc
    try_each_sound (one ∷ rest) s a h =
        elim (or_next-true (try_one python go done remaining state one s) _ h) [
          | inl e ↦ try_one_sound one s a.0 e
          | inr e ↦ try_each_sound rest _ a.1 e
        ]

  module _ (repr : Object → ℕ) where
    pub walk-IsSound : (depth : ℕ) → IsSound (walk python repr depth)
    unfolding walk
    walk-IsSound depth done [] state s d t h = (
      [],
      record { same_operations = Perm.rfl; real_time = Pairwise.nil; explained = all_explained },
    )
    walk-IsSound zero done (x ∷ r) state s d t h = cc
    walk-IsSound (suc depth) done (x ∷ r) state s d t h =
        elim (Bool-cases (exhausted (visit done (x ∷ r) s))) [
          | inl e ↦ cc (rw e at h)
          | inr e ↦
              elim (Bool-cases (was_seen (done, digest repr state) (visit done (x ∷ r) s).seen)) [
                | inl f ↦ cc (rw (e, f) at h)
                | inr f ↦
                    try_each_sound (walk python repr depth) (walk-IsSound depth) done (x ∷ r) state
                      d t (x ∷ r) _ (All-each (λ one. In one (x ∷ r)) (x ∷ r) (λ y i. i))
                      (rw (e, f) at h)
              ]
        ]
