-- ===== src/Tests/Snapshots.antt =====
-- A compacted log at concrete values.
use replicated_state_machine.Prelude.{ℕ, ◌-◌, ◌≡◌, refl, none, [], ◌∷◌, arith}
use replicated_state_machine.Errors.{ok}
use replicated_state_machine.Log.{Entry, Log, last_index, term_at, at}
use replicated_state_machine.Log.Shape.{IsLog}
use replicated_state_machine.Snapshot.{compact}
use replicated_state_machine.Snapshot.Keep.{Keeps, compact-Keeps}

abbrev entry : ℕ → ℕ → Entry
entry term index = record { term = term; index = index; command = none }

-- a log that starts above a snapshot at index 2
abbrev held : Log
held = record {
  entries = entry 2 3 ∷ entry 2 4 ∷ entry 5 5 ∷ [];
  snapshot_index = 2;
  snapshot_term = 1;
}

held-IsLog : IsLog held
held-IsLog = record { placed = (refl, (refl, (refl, tt))); ordered = omega arith }

compacts :
    compact held 4 2
    ≡ ok (record { entries = entry 5 5 ∷ []; snapshot_index = 4; snapshot_term = 2 }, 2)
unfolding compact last_index
compacts = refl

compact-Keeps_example : (l' : Log) × (compact held 4 2 ≡ ok (l', 4 - 2)) × Keeps held l' 4 1 5
unfolding last_index term_at at
compact-Keeps_example = compact-Keeps held 4 2 1 5 held-IsLog (omega arith) (omega arith) refl
