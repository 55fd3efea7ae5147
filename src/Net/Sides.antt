-- ===== src/Net/Sides.antt =====
-- rsm/net.py: a partition cuts both ways, and cuts no node from itself.
use replicated_state_machine.Prelude.{
  ℕ, ◌≡◌, refl, sym, ◌∙◌, true, false, List, [], ◌∷◌, ◌++◌, elem, ◌==◌, arith, Bool-cases, inl, inr,
  subst, ==→eq,
}
use replicated_state_machine.Errors.{ok}
use replicated_state_machine.Node.State.{distinct}
use replicated_state_machine.Net.{Network, same_side, reachable, all_named, all_in, partition}

elem-append_left : (x : ℕ) (xs ys : List ℕ) → elem x xs ≡ true → elem x (xs ++ ys) ≡ true
elem-append_left x [] ys h = cc
elem-append_left x (y ∷ xs) ys h = ground (arith, elem-append_left x xs ys)

elem-append_right : (x : ℕ) (xs ys : List ℕ) → elem x ys ≡ true → elem x (xs ++ ys) ≡ true
elem-append_right x [] ys h = h
elem-append_right x (y ∷ xs) ys h = ground (arith, elem-append_right x xs ys)

elem-append_other :
    (x : ℕ) (xs ys : List ℕ) → elem x (xs ++ ys) ≡ true → elem x xs ≡ false → elem x ys ≡ true
elem-append_other x [] ys h e = h
elem-append_other x (y ∷ xs) ys h e = elem-append_other x xs ys (ground arith) (ground arith)

distinct-append_right : (xs ys : List ℕ) → distinct (xs ++ ys) ≡ true → distinct ys ≡ true
distinct-append_right [] ys h = h
distinct-append_right (x ∷ xs) ys h = distinct-append_right xs ys (ground arith)

-- A name on one side is on no other.
distinct-append_apart :
    (x : ℕ) (xs ys : List ℕ) → distinct (xs ++ ys) ≡ true → elem x xs ≡ true → elem x ys ≡ false
distinct-append_apart x [] ys d h = absurd (cc)
distinct-append_apart x (y ∷ xs) ys d h = elim (Bool-cases (elem x ys)) [
  | inr e ↦ e
  | inl e ↦ absurd (ground (arith, elem-append_right x xs ys e, distinct-append_apart x xs ys))
]

same_side-named :
    (sides : List (List ℕ)) (a b : ℕ) → same_side sides a b ≡ true → elem b (all_named sides) ≡ true
same_side-named [] a b h = absurd (cc)
same_side-named (side ∷ sides) a b h = elim (Bool-cases (elem a side)) [
  | inl e ↦ elem-append_left b side (all_named sides) (simp e at h)
  | inr e ↦ elem-append_right b side (all_named sides) (same_side-named sides a b (simp e at h))
]

same_side-sym :
    (sides : List (List ℕ)) (a b : ℕ)
    → distinct (all_named sides) ≡ true
    → same_side sides a b ≡ true
    → same_side sides b a ≡ true
same_side-sym [] a b d h = absurd (cc)
same_side-sym (side ∷ sides) a b d h = elim (Bool-cases (elem a side)) [
  | inl e ↦ let f : elem b side ≡ true = simp e at h in rw (f, e) refl
  | inr e ↦
      let rest : same_side sides a b ≡ true = simp e at h in
      let back = same_side-sym sides a b (distinct-append_right side (all_named sides) d) rest in
      elim (Bool-cases (elem b side)) [
        | inr f ↦ rw f back
        | inl f ↦
            let apart = distinct-append_apart b side (all_named sides) d f in
            let named = same_side-named sides a b rest in absurd (cc)
      ]
]

same_side_refl :
    (sides : List (List ℕ)) (a : ℕ) → elem a (all_named sides) ≡ true → same_side sides a a ≡ true
same_side_refl [] a h = absurd (cc)
same_side_refl (side ∷ sides) a h = elim (Bool-cases (elem a side)) [
  | inl e ↦ rw e refl
  | inr e ↦ rw e (same_side_refl sides a (elem-append_other a side (all_named sides) h e))
]

all_in-elem :
    (xs names : List ℕ) (a : ℕ) → all_in xs names ≡ true → elem a xs ≡ true → elem a names ≡ true
all_in-elem [] names a h e = absurd (cc)
all_in-elem (x ∷ xs) names a h e = elim (Bool-cases (a == x)) [
  | inl here ↦ subst (λ y. elem y names ≡ true) (sym (==→eq a x here)) (ground arith)
  | inr there ↦ all_in-elem xs names a (ground arith) (ground arith)
]

same_side-both :
    (sides : List (List ℕ)) (a b : ℕ)
    → distinct (all_named sides) ≡ true
    → same_side sides a b ≡ same_side sides b a
same_side-both sides a b d = elim (Bool-cases (same_side sides a b)) [
  | inl e ↦ e ∙ sym (same_side-sym sides a b d e)
  | inr e ↦ elim (Bool-cases (same_side sides b a)) [
    | inr f ↦ e ∙ sym f
    | inl f ↦ let g = same_side-sym sides b a d f in absurd (cc)
  ]
]

reachable-both :
    (n : Network) (sides : List (List ℕ)) (a b : ℕ)
    → distinct (all_named sides) ≡ true
    → elem a (all_named sides) ≡ true
    → (reachable (record n { sides = sides }) a a ≡ true)
      × (reachable (record n { sides = sides }) a b ≡ reachable (record n { sides = sides }) b a)
unfolding reachable
reachable-both n [] a b d e = (refl, refl)
reachable-both n (side ∷ sides) a b d e =
    (same_side_refl (side ∷ sides) a e, same_side-both (side ∷ sides) a b d)

-- After a partition that was accepted, a member reaches itself, and two nodes reach each other or
-- neither reaches the other.
pub partition_cuts :
    (n : Network) (sides : List (List ℕ)) {m : Network} (a b : ℕ)
    → partition n sides ≡ ok m
    → elem a n.members ≡ true
    → (reachable m a a ≡ true) × (reachable m a b ≡ reachable m b a)
unfolding partition
partition_cuts n sides {m} a b h e =
    let made : record n { sides = sides } ≡ m = ground arith in
    let d : distinct (all_named sides) ≡ true = ground arith in
    let all : all_in n.members (all_named sides) ≡ true = ground arith in
    subst (λ (k : Network). (reachable k a a ≡ true) × (reachable k a b ≡ reachable k b a)) made
      (reachable-both n sides a b d (all_in-elem n.members (all_named sides) a all e))
