-- ===== src/Quorum/Meet.antt =====
-- What the search of rsm/quorum.py finds where two quorums outnumber the cluster: nothing.
use replicated_state_machine.Prelude.{
  ℕ, zero, suc, ◌+◌, ◌<◌, ◌≡◌, refl, sym, subst, inl, inr, true, false, Bool-cases, none, List, [],
  ◌∷◌, map, length, elem, All, All-append, ◌==◌, arith,
}
use replicated_state_machine.Node.State.{distinct}
use replicated_state_machine.Quorum.Overlap.{Within-more, overlap, Within}
use replicated_state_machine.Membership.{apart}
use replicated_state_machine.Membership.Search.{Shared-apart}
use replicated_state_machine.Quorum.Search.{combinations, find_right, find_pair}

-- A set of `count` of the members.
record Chosen (count : ℕ) (members xs : List ℕ) : Type 0 where
  different : distinct xs ≡ true
  within : Within members xs
  size : length xs ≡ count

Within-elem :
    (x : ℕ) (members xs : List ℕ) → Within members xs → elem x members ≡ false → elem x xs ≡ false
Within-elem x members [] h n = refl
Within-elem x members (y ∷ xs) h n =
    let rest = Within-elem x members xs h.1 n in
    elim (Bool-cases (x == y)) [
      | inr other ↦ ground (arith, rest, other)
      | inl e ↦
          let same : x ≡ y = ground (arith, e) in
          let here : elem x members ≡ true = subst (λ z. elem z members ≡ true) (sym same) h.0 in
          absurd (cc)
    ]

All-prefixed :
    (count one : ℕ) (members : List ℕ) (lists : List (List ℕ))
    → elem one members ≡ false
    → All (Chosen count members) lists
    → All (Chosen (suc count) (one ∷ members)) (map (λ chosen. one ∷ chosen) lists)
All-prefixed count one members [] n h = tt
All-prefixed count one members (xs ∷ lists) n h =
    let c = h.0 in
    let away = Within-elem one members xs c.within n in
    let d = c.different in
    (
      record {
        different = ground (arith, away, d);
        within = (ground arith, Within-more one members xs c.within);
        size = omega (arith, c.size);
      },
      All-prefixed count one members lists n h.1,
    )

All-wider :
    (count one : ℕ) (members : List ℕ) (lists : List (List ℕ))
    → All (Chosen count members) lists
    → All (Chosen count (one ∷ members)) lists
All-wider count one members [] h = tt
All-wider count one members (xs ∷ lists) h = (
  record {
    different = h.0.different;
    within = Within-more one members xs h.0.within;
    size = h.0.size;
  },
  All-wider count one members lists h.1,
)

combinations-Chosen :
    (count : ℕ) (members : List ℕ)
    → distinct members ≡ true
    → All (Chosen count members) (combinations count members)
combinations-Chosen zero members d = (record { different = refl; within = tt; size = refl }, tt)
combinations-Chosen (suc count) [] d = tt
combinations-Chosen (suc count) (one ∷ members) d =
    All-append _ (map (λ chosen. one ∷ chosen) (combinations count members))
      (combinations (suc count) members)
      (All-prefixed count one members (combinations count members) (ground (arith, d))
        (combinations-Chosen count members (ground (arith, d))))
      (All-wider (suc count) one members (combinations (suc count) members)
        (combinations-Chosen (suc count) members (ground (arith, d))))

-- No pair is found where all share a member.
find_right-none :
    (P Q : List ℕ → Type 0) (left : List ℕ) (rights : List (List ℕ))
    → ((xs ys : List ℕ) → P xs → Q ys → apart xs ys ≡ false)
    → P left
    → All Q rights
    → find_right left rights ≡ none
find_right-none P Q left [] meet p q = refl
find_right-none P Q left (right ∷ rights) meet p q =
    rw (meet left right p q.0) (find_right-none P Q left rights meet p q.1)

find_pair-none :
    (P Q : List ℕ → Type 0) (lefts rights : List (List ℕ))
    → ((xs ys : List ℕ) → P xs → Q ys → apart xs ys ≡ false)
    → All P lefts
    → All Q rights
    → find_pair lefts rights ≡ none
find_pair-none P Q [] rights meet p q = refl
find_pair-none P Q (left ∷ lefts) rights meet p q =
    rw (find_right-none P Q left rights meet p.0 q) (find_pair-none P Q lefts rights meet p.1 q)

pub search_none :
    (members : List ℕ) (a b : ℕ)
    → distinct members ≡ true
    → length members < a + b
    → find_pair (combinations a members) (combinations b members) ≡ none
search_none members a b d more =
    find_pair-none (Chosen a members) (Chosen b members) (combinations a members)
      (combinations b members)
      (λ xs ys cx cy. Shared-apart xs ys (
        overlap members xs ys cx.different cy.different cx.within cy.within
          (omega (arith, more, cx.size, cy.size))))
      (combinations-Chosen a members d) (combinations-Chosen b members d)
