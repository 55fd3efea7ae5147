-- ===== src/Quorum/Overlap.antt =====
-- Two sets of members that together outnumber the cluster share a member.
use replicated_state_machine.Prelude.{
  ℕ, suc, ◌+◌, ◌≤◌, ◌<◌, ◌≡◌, true, false, List, [], ◌∷◌, ◌++◌, length, length-append, elem, All,
  ◌==◌, arith, Bool-cases, inl, inr, ◌⊎◌, if◌then◌else◌,
}
use replicated_state_machine.Node.State.{distinct}

abbrev pub Within : List ℕ → List ℕ → Type 0
Within members = All (λ v. elem v members ≡ true)

pub Within-more : (x : ℕ) (members xs : List ℕ) → Within members xs → Within (x ∷ members) xs
Within-more x members [] h = tt
Within-more x members (y ∷ xs) h = (ground (arith, h.0), Within-more x members xs h.1)

-- `members` without the first `x`
remove : ℕ → List ℕ → List ℕ
remove x [] = []
remove x (y ∷ ys) = if x == y then ys else y ∷ remove x ys

length-remove : (x : ℕ) (ys : List ℕ) → elem x ys ≡ true → suc (length (remove x ys)) ≡ length ys
unfolding remove
length-remove x [] h = cc
length-remove x (y ∷ ys) h = ground (arith, length-remove x ys)

elem-remove :
    (x z : ℕ) (ys : List ℕ) → (z == x) ≡ false → elem z ys ≡ true → elem z (remove x ys) ≡ true
unfolding remove
elem-remove x z [] n h = cc
elem-remove x z (y ∷ ys) n h = ground (arith, elem-remove x z ys n)

Within-remove :
    (x : ℕ) (members xs : List ℕ)
    → elem x xs ≡ false
    → Within members xs
    → Within (remove x members) xs
Within-remove x members [] n h = tt
Within-remove x members (z ∷ xs) n h =
    (elem-remove x z members (ground arith) h.0, Within-remove x members xs (ground arith) h.1)

-- Names that are all different are no more than the members that they come from.
pub distinct-le :
    (members xs : List ℕ) → distinct xs ≡ true → Within members xs → length xs ≤ length members
distinct-le members [] d h = omega arith
distinct-le members (x ∷ xs) d h = omega (
  arith,
  length-remove x members h.0,
  distinct-le (remove x members) xs (ground arith) (Within-remove x members xs (ground arith) h.1),
)

-- Either some name stands on both lists, or none does.
shared_or_apart :
    (xs ys : List ℕ)
    → ((v : ℕ) × (elem v xs ≡ true) × (elem v ys ≡ true)) ⊎ All (λ v. elem v ys ≡ false) xs
shared_or_apart [] ys = inr tt
shared_or_apart (x ∷ xs) ys = elim (Bool-cases (elem x ys)) [
  | inl both ↦ inl (x, ground arith, both)
  | inr apart ↦ elim (shared_or_apart xs ys) [
    | inl (v, h, k) ↦ inl (v, ground arith, k)
    | inr rest ↦ inr (apart, rest)
  ]
]

elem-append :
    (z : ℕ) (xs ys : List ℕ) → elem z xs ≡ false → elem z ys ≡ false → elem z (xs ++ ys) ≡ false
elem-append z [] ys h k = k
elem-append z (x ∷ xs) ys h k = ground (arith, elem-append z xs ys)

distinct-append :
    (xs ys : List ℕ)
    → distinct xs ≡ true
    → distinct ys ≡ true
    → All (λ v. elem v ys ≡ false) xs
    → distinct (xs ++ ys) ≡ true
distinct-append [] ys d e h = e
distinct-append (x ∷ xs) ys d e h =
    ground (arith, elem-append x xs ys, distinct-append xs ys (ground arith) e h.1, h.0)

pub Within-append :
    (members xs ys : List ℕ) → Within members xs → Within members ys → Within members (xs ++ ys)
Within-append members [] ys h k = k
Within-append members (x ∷ xs) ys h k = (h.0, Within-append members xs ys h.1 k)

-- Two sets of members whose sizes add up to more than the cluster meet.
pub overlap :
    (members xs ys : List ℕ)
    → distinct xs ≡ true
    → distinct ys ≡ true
    → Within members xs
    → Within members ys
    → length members < length xs + length ys
    → (v : ℕ) × (elem v xs ≡ true) × (elem v ys ≡ true)
overlap members xs ys d e h k more = elim (shared_or_apart xs ys) [
  | inl found ↦ found
  | inr apart ↦ absurd (
      omega (
        arith,
        length-append xs ys,
        distinct-le members (xs ++ ys) (distinct-append xs ys d e apart)
            (Within-append members xs ys h k),
      ))
]
