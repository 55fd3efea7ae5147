-- ===== src/Tests/Keys.antt =====
-- Keys in groups, and a move between them, at concrete values.
use replicated_state_machine.Prelude.{ℕ, ◌≡◌, refl, [], ◌∷◌}
use replicated_state_machine.Errors.{ok}
use replicated_state_machine.Keyspace.{Keyspace, group_of, count_all, spread}
use replicated_state_machine.Rebalance.{Move, steady}

-- a digest that is the number of the key
abbrev digest : ℕ → ℕ
digest key = key

abbrev thirds : Keyspace
thirds = record { groups = 3 }

spreads : spread digest thirds (4 ∷ 7 ∷ 3 ∷ []) ≡ ok ((0, 1) ∷ (1, 2) ∷ (2, 0) ∷ [])
unfolding spread count_all group_of
spreads = refl

abbrev moving : Move
moving = record {
  keys = 7 ∷ [];
  source = 0;
  destination = 1;
  phase = steady;
  frozen_at = 0;
  handed_at = 0;
}
