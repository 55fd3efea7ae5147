-- ===== src/Tests/Agreement.antt =====
-- Two logs that share their first two entries.
use replicated_state_machine.Prelude.{◌≡◌, refl, none, [], ◌∷◌}
use replicated_state_machine.Errors.{ok}
use replicated_state_machine.Log.{Log, last_index, holds, term_at, at}
use replicated_state_machine.Log.Agree.{agree_up_to, agree_from}

abbrev longer : Log
longer = record {
  entries =
      record { term = 1; index = 1; command = none }
      ∷ record { term = 2; index = 2; command = none }
      ∷ record { term = 3; index = 3; command = none }
      ∷ [];
  snapshot_index = 0;
  snapshot_term = 0;
}

abbrev apart : Log
apart = record {
  entries =
      record { term = 1; index = 1; command = none }
      ∷ record { term = 2; index = 2; command = none }
      ∷ record { term = 2; index = 3; command = none }
      ∷ [];
  snapshot_index = 0;
  snapshot_term = 0;
}

agree_at_two : agree_up_to longer apart ≡ ok 2
unfolding agree_up_to agree_from last_index holds term_at at
agree_at_two = refl
