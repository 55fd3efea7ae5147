-- ===== src/Quorum/Search.antt =====
-- rsm/quorum.py: the search for an election quorum and a commit quorum that share nothing. Members are
-- the numbers of their names.
use replicated_state_machine.Prelude.{
  ℕ, zero, suc, Bool, true, false, Option, none, some, List, [], ◌∷◌, ◌++◌, map, range,
  if◌then◌else◌,
}
use replicated_state_machine.Quorum.Rules.{Rule}
use replicated_state_machine.Membership.{apart}

-- `itertools.combinations(members, count)`
abbrev pub combinations : ℕ → List ℕ → List (List ℕ)
combinations zero members = [] ∷ []
combinations (suc count) [] = []
combinations (suc count) (one ∷ members) =
    map (λ chosen. one ∷ chosen) (combinations count members) ++ combinations (suc count) members

-- the inner loop of `disjoint`
abbrev pub find_right : List ℕ → List (List ℕ) → Option (List ℕ × List ℕ)
find_right left [] = none
find_right left (right ∷ rights) =
    let later = find_right left rights in if apart left right then some (left, right) else later

abbrev pub first_of : Option (List ℕ × List ℕ) → Option (List ℕ × List ℕ) → Option (List ℕ × List ℕ)
first_of none later = later
first_of (some pair) later = some pair

-- the outer loop of `disjoint`
abbrev pub find_pair : List (List ℕ) → List (List ℕ) → Option (List ℕ × List ℕ)
find_pair [] rights = none
find_pair (left ∷ lefts) rights = first_of (find_right left rights) (find_pair lefts rights)

unfoldable pub disjoint : Rule → Option (List ℕ × List ℕ)
disjoint r =
    find_pair (combinations r.election (range r.size)) (combinations r.commit (range r.size))

abbrev pub is_none : Option (List ℕ × List ℕ) → Bool
is_none none = true
is_none (some _) = false

unfoldable pub every_pair_overlaps : Rule → Bool
every_pair_overlaps r = is_none (disjoint r)
