-- ===== src/Tests/Members.antt =====
-- Changes of membership and roles at concrete values.
use replicated_state_machine.Prelude.{ℕ, ◌≡◌, refl, true, inl, inr, List, [], ◌∷◌, elem}
use replicated_state_machine.Errors.{ok}
use replicated_state_machine.Membership.{
  Configuration, new_configuration, with_member, settled, quorum, is_joint, voters, majorities,
  disjoint_majorities,
}
use replicated_state_machine.Membership.Changes.{changes_overlap}
use replicated_state_machine.Membership.Search.{search_finds_none}
use replicated_state_machine.Learner.{Roster, new_roster, promote}

abbrev steady_of : List ℕ → Configuration
steady_of members = record { members = members; old = [] }

-- nodes 1 to 3, on the way to 1 to 4
abbrev growing : Configuration
growing = record { members = 1 ∷ 2 ∷ 3 ∷ 4 ∷ []; old = 1 ∷ 2 ∷ 3 ∷ [] }

three_made : new_configuration (1 ∷ 2 ∷ 3 ∷ []) [] ≡ ok (steady_of (1 ∷ 2 ∷ 3 ∷ []))
unfolding new_configuration
three_made = refl

grows : with_member (steady_of (1 ∷ 2 ∷ 3 ∷ [])) 4 ≡ ok growing
unfolding with_member new_configuration
grows = refl

settles : settled growing ≡ ok (steady_of (1 ∷ 2 ∷ 3 ∷ 4 ∷ []))
unfolding settled new_configuration
settles = refl

grown_voters : voters growing ≡ 1 ∷ 2 ∷ 3 ∷ 4 ∷ []
unfolding voters is_joint
grown_voters = refl

-- Two members at once: the only majority of one node is apart from one of the three.
two_at_once : disjoint_majorities (1 ∷ []) (1 ∷ 2 ∷ 3 ∷ []) ≡ (1 ∷ [], 3 ∷ 2 ∷ []) ∷ []
unfolding disjoint_majorities majorities
two_at_once = refl

-- Nodes 1, 2 and 4 decide in the joint configuration, and 2, 3 and 4 in the settled one.
changes_overlap_example :
    (v : ℕ) × (elem v (1 ∷ 2 ∷ 4 ∷ []) ≡ true) × (elem v (2 ∷ 3 ∷ 4 ∷ []) ≡ true)
unfolding quorum is_joint
changes_overlap_example =
    changes_overlap (1 ∷ 2 ∷ 3 ∷ []) (1 ∷ 2 ∷ 4 ∷ []) (2 ∷ 3 ∷ 4 ∷ []) 4 growing
      (steady_of (1 ∷ 2 ∷ 3 ∷ 4 ∷ [])) three_made (inl grows) settles (inr (inl refl))
      (inr (inr refl)) refl refl refl refl

search_finds_none_example : disjoint_majorities (1 ∷ 2 ∷ 3 ∷ []) (1 ∷ 2 ∷ 3 ∷ 4 ∷ []) ≡ []
search_finds_none_example = search_finds_none (1 ∷ 2 ∷ 3 ∷ []) 4 three_made (inl grows) settles

abbrev roster : Roster
roster = record { voters = 1 ∷ 2 ∷ []; learners = 3 ∷ 4 ∷ [] }

promotes : promote roster 3 ≡ ok (record { voters = 1 ∷ 2 ∷ 3 ∷ []; learners = 4 ∷ [] })
unfolding promote new_roster
promotes = refl
