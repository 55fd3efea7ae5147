-- ===== src/Tests/Quorums.antt =====
-- Quorum rules of five members.
use replicated_state_machine.Prelude.{ℕ, ◌≡◌, refl, true, some, [], ◌∷◌, elem}
use replicated_state_machine.Quorum.Rules.{Rule, intersects, intersects-overlap}
use replicated_state_machine.Quorum.Search.{disjoint, every_pair_overlaps}
use replicated_state_machine.Quorum.Apart.{every_pair_overlaps-intersects}

-- two to commit and four to elect
abbrev cheap : Rule
cheap = record { size = 5; election = 4; commit = 2 }

intersects-overlap_example :
    (v : ℕ) × (elem v (0 ∷ 1 ∷ 2 ∷ 3 ∷ []) ≡ true) × (elem v (3 ∷ 4 ∷ []) ≡ true)
unfolding intersects
intersects-overlap_example =
    intersects-overlap cheap (0 ∷ 1 ∷ 2 ∷ 3 ∷ 4 ∷ []) (0 ∷ 1 ∷ 2 ∷ 3 ∷ []) (3 ∷ 4 ∷ []) refl refl
      refl refl (refl, (refl, (refl, (refl, tt)))) (refl, (refl, tt)) refl refl

-- In a cluster of four, two and two may be apart.
two_and_two :
    disjoint (record { size = 4; election = 2; commit = 2 }) ≡ some (0 ∷ 1 ∷ [], 2 ∷ 3 ∷ [])
unfolding disjoint
two_and_two = refl

every_pair_overlaps-intersects_example :
    every_pair_overlaps (record { size = 4; election = 2; commit = 3 })
    ≡ intersects (record { size = 4; election = 2; commit = 3 })
every_pair_overlaps-intersects_example =
    every_pair_overlaps-intersects (record { size = 4; election = 2; commit = 3 })
