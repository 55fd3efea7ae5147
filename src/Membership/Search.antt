-- ===== src/Membership/Search.antt =====
-- The search of rsm/membership.py for majorities that are apart.
use replicated_state_machine.Prelude.{
  ℕ, ◌+◌, ◌/◌, ◌≡◌, refl, sym, ap, ◌⊎◌, inl, inr, true, false, Bool-cases, List, [], ◌∷◌, length,
  elem, add, All, All-append, ◌==◌, arith, subst,
}
use replicated_state_machine.Errors.{ok}
use replicated_state_machine.Node.State.{distinct}
use replicated_state_machine.Quorum.Overlap.{Within-more, Within}
use replicated_state_machine.Membership.{
  Configuration, is_joint, new_configuration, among, has_majority, quorum, with_member,
  without_member, settled, build, majorities, apart, pairs_with, all_pairs, disjoint_majorities,
}
use replicated_state_machine.Membership.Majorities.{Shared}
use replicated_state_machine.Membership.Changes.{made, changes_overlap}

-- A set of `need` members.
record Majority (members : List ℕ) (need : ℕ) (xs : List ℕ) : Type 0 where
  apart : distinct xs ≡ true
  within : Within members xs
  size : length xs ≡ need

add-distinct : (x : ℕ) (xs : List ℕ) → distinct xs ≡ true → distinct (add x xs) ≡ true
add-distinct x xs h = ground (arith, h)

Within-add :
    (members : List ℕ) (x : ℕ) (xs : List ℕ)
    → elem x members ≡ true
    → Within members xs
    → Within members (add x xs)
Within-add members x xs here h = elim (Bool-cases (elem x xs)) [
  | inl q ↦ rw q h
  | inr q ↦ rw q (here, h)
]

build-Majority :
    (members : List ℕ) (need : ℕ) (rest chosen : List ℕ)
    → Within members rest
    → distinct chosen ≡ true
    → Within members chosen
    → All (Majority members need) (build need rest chosen)
build-Majority members need [] chosen hr d h = elim (Bool-cases (length chosen == need)) [
  | inl q ↦ rw q (record { apart = d; within = h; size = ground (arith, q) }, tt)
  | inr q ↦ rw q tt
]
build-Majority members need (x ∷ rest) chosen hr d h = elim (Bool-cases (length chosen == need)) [
  | inl q ↦ rw q (record { apart = d; within = h; size = ground (arith, q) }, tt)
  | inr q ↦
      let taking =
        build-Majority members need rest (add x chosen) hr.1 (add-distinct x chosen d)
          (Within-add members x chosen hr.0 h) in
      let passing = build-Majority members need rest chosen hr.1 d h in
      rw q (
        All-append (Majority members need) (build need rest (add x chosen)) (build need rest chosen)
          taking passing)
]

Within-refl : (members : List ℕ) → Within members members
Within-refl [] = tt
Within-refl (x ∷ members) = (ground arith, Within-more x members members (Within-refl members))

among_all : (members xs : List ℕ) → Within members xs → among members xs ≡ xs
among_all members [] h = refl
among_all members (x ∷ xs) h = rw (h.0, among_all members xs h.1) refl

Majority-has_majority :
    (members xs : List ℕ)
    → Majority members (length members / 2 + 1) xs
    → has_majority members xs ≡ true
Majority-has_majority members xs m = rw (among_all members xs m.within) (ground (arith, m.size))

pub Shared-apart : (xs ys : List ℕ) → Shared xs ys → apart xs ys ≡ false
Shared-apart [] ys (v, h, k) = cc
Shared-apart (x ∷ xs) ys (v, h, k) = elim (Bool-cases (elem x ys)) [
  | inl here ↦ rw here refl
  | inr out ↦ elim (Bool-cases (v == x)) [
    | inl e ↦
        let eq : v ≡ x = ground (arith, e) in
        let both : elem x ys ≡ true = subst (λ u. elem u ys ≡ true) eq k in absurd (cc)
    | inr n ↦ rw out (Shared-apart xs ys (v, ground (arith, n, h), k))
  ]
]

pairs_with_none :
    (P Q : List ℕ → Type 0) (left : List ℕ) (rights : List (List ℕ))
    → ((xs ys : List ℕ) → P xs → Q ys → Shared xs ys)
    → P left
    → All Q rights
    → pairs_with left rights ≡ []
pairs_with_none P Q left [] meet p q = refl
pairs_with_none P Q left (right ∷ rights) meet p q =
    let met = Shared-apart left right (meet left right p q.0) in
    rw met (pairs_with_none P Q left rights meet p q.1)

all_pairs_none :
    (P Q : List ℕ → Type 0) (lefts rights : List (List ℕ))
    → ((xs ys : List ℕ) → P xs → Q ys → Shared xs ys)
    → All P lefts
    → All Q rights
    → all_pairs lefts rights ≡ []
all_pairs_none P Q [] rights meet p q = refl
all_pairs_none P Q (left ∷ lefts) rights meet p q =
    rw (pairs_with_none P Q left rights meet p.0 q) (all_pairs_none P Q lefts rights meet p.1 q)

majorities-Majority :
    (members : List ℕ) → All (Majority members (length members / 2 + 1)) (majorities members)
unfolding majorities
majorities-Majority members =
    build-Majority members (length members / 2 + 1) members [] (Within-refl members) refl tt

steady-quorum :
    (members xs : List ℕ) {c : Configuration}
    → new_configuration members [] ≡ ok c
    → Majority c.members (length c.members / 2 + 1) xs
    → quorum c xs ≡ true
unfolding quorum is_joint
steady-quorum members xs {c} q m =
    let e : [] ≡ c.old = ap (λ x. x.old) (made members [] q).0 in
    rw (sym e) (Majority-has_majority c.members xs m)

-- Adding or removing one member of a steady configuration leaves no pair of majorities, of the
-- members before and after, for the exhaustive search to find.
pub search_finds_none :
    (members : List ℕ) (name : ℕ) {c d e : Configuration}
    → new_configuration members [] ≡ ok c
    → (with_member c name ≡ ok d) ⊎ (without_member c name ≡ ok d)
    → settled d ≡ ok e
    → disjoint_majorities c.members e.members ≡ []
unfolding disjoint_majorities settled
search_finds_none members name {c} {d} {e} qc qd qe =
    all_pairs_none (Majority c.members (length c.members / 2 + 1))
      (Majority e.members (length e.members / 2 + 1)) (majorities c.members) (majorities e.members)
      (λ xs ys mx my.
        changes_overlap members xs ys name c e qc qd qe (inl refl) (inr (inr refl)) mx.apart
          my.apart (steady-quorum members xs qc mx) (steady-quorum d.members ys qe my))
      (majorities-Majority c.members) (majorities-Majority e.members)
