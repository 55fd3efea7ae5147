-- ===== src/Membership/Majorities.antt =====
-- Majorities of memberships (rsm/membership.py), and lists of names that gain or lose one.
use replicated_state_machine.Prelude.{
  ℕ, ◌+◌, ◌/◌, ◌<◌, ◌≡◌, refl, inl, inr, true, false, ◌||◌, Bool-cases, List, [], ◌∷◌, ◌++◌, length,
  elem, ◌==◌, arith, subst,
}
use replicated_state_machine.Node.State.{distinct, others}
use replicated_state_machine.Quorum.Overlap.{overlap, Within}
use replicated_state_machine.Membership.{among, has_majority}

-- A name that stands on both lists.
abbrev pub Shared : List ℕ → List ℕ → Type 0
Shared xs ys = (v : ℕ) × (elem v xs ≡ true) × (elem v ys ≡ true)

elem-among :
    (v : ℕ) (members votes : List ℕ)
    → elem v (among members votes) ≡ true
    → (elem v votes ≡ true) × (elem v members ≡ true)
elem-among v members [] h = cc
elem-among v members (w ∷ votes) h =
    let rest = elem-among v members votes in
    elim (Bool-cases (elem w members)) [
      | inr out ↦ (ground (arith, rest, out), ground (arith, rest, out))
      | inl here ↦ elim (Bool-cases (v == w)) [
        | inl e ↦ (ground (arith, e), subst (λ u. elem u members ≡ true) (ground (arith, e)) here)
        | inr n ↦ (ground (arith, rest, here, n), ground (arith, rest, here, n))
      ]
    ]

missing-among :
    (v : ℕ) (members votes : List ℕ) → elem v votes ≡ false → elem v (among members votes) ≡ false
missing-among v members [] h = refl
missing-among v members (w ∷ votes) h =
    let rest = missing-among v members votes (ground arith) in ground (arith, rest)

among-distinct :
    (members votes : List ℕ) → distinct votes ≡ true → distinct (among members votes) ≡ true
among-distinct members [] h = refl
among-distinct members (w ∷ votes) h =
    let rest = among-distinct members votes (ground arith) in
    let fresh = missing-among w members votes (ground arith) in ground (arith, rest, fresh)

Within-among :
    (all members votes : List ℕ)
    → ((v : ℕ) → elem v members ≡ true → elem v all ≡ true)
    → Within all (among members votes)
Within-among all members [] inside = tt
Within-among all members (w ∷ votes) inside =
    let rest = Within-among all members votes inside in
    elim (Bool-cases (elem w members)) [
      | inl here ↦ rw here (inside w here, rest)
      | inr out ↦ rw out rest
    ]

-- Majorities of two memberships that lie within a third share a node if they outnumber it.
pub majorities_meet :
    (all left right xs ys : List ℕ)
    → ((v : ℕ) → elem v left ≡ true → elem v all ≡ true)
    → ((v : ℕ) → elem v right ≡ true → elem v all ≡ true)
    → distinct xs ≡ true
    → distinct ys ≡ true
    → length all < (length left / 2 + 1) + (length right / 2 + 1)
    → has_majority left xs ≡ true
    → has_majority right ys ≡ true
    → Shared xs ys
majorities_meet all left right xs ys il ir dx dy more mx my =
    let (v, hx, hy) =
      overlap all (among left xs) (among right ys) (among-distinct left xs dx)
        (among-distinct right ys dy) (Within-among all left xs il) (Within-among all right ys ir)
        (ground arith) in
    (v, (elem-among v left xs hx).0, (elem-among v right ys hy).0)

pub elem-snoc : (v x : ℕ) (xs : List ℕ) → elem v (xs ++ x ∷ []) ≡ elem v xs || (v == x)
elem-snoc v x [] = ground arith
elem-snoc v x (y ∷ xs) = let rest = elem-snoc v x xs in ground (arith, rest)

pub elem-others : (v x : ℕ) (xs : List ℕ) → elem v (others x xs) ≡ true → elem v xs ≡ true
elem-others v x [] h = cc
elem-others v x (y ∷ xs) h = let rest = elem-others v x xs in ground (arith, rest)

others_all : (x : ℕ) (xs : List ℕ) → elem x xs ≡ false → others x xs ≡ xs
others_all x [] h = refl
others_all x (y ∷ xs) h = let rest = others_all x xs (ground arith) in ground (arith, rest)

-- All different names lose one when one of them goes.
pub length-others :
    (x : ℕ) (xs : List ℕ)
    → distinct xs ≡ true
    → elem x xs ≡ true
    → length (others x xs) + 1 ≡ length xs
length-others x [] d h = cc
length-others x (y ∷ xs) d h = elim (Bool-cases (y == x)) [
  | inl e ↦
      let eq : y ≡ x = ground (arith, e) in
      let gone : elem y xs ≡ false = ground (arith, d) in
      let same = others_all x xs (subst (λ z. elem z xs ≡ false) eq gone) in
      rw (e, same) (omega arith)
  | inr n ↦
      let rest = length-others x xs (ground arith) (ground (arith, n)) in rw n (omega (arith, rest))
]
