-- ===== src/Tests/Logs.antt =====
-- Logs as rsm/log.py builds them in its own measurements, and the theorems at them.
use replicated_state_machine.Prelude.{◌≡◌, refl, true, none, some, [], ◌∷◌, arith}
use replicated_state_machine.Errors.{ok, err, log_error}
use replicated_state_machine.Log.{
  Entry, Log, set, last_index, last_term, is_up_to_date, append, append_one,
}
use replicated_state_machine.Log.Shape.{IsLog}

abbrev e1 : Entry
e1 = record { term = 1; index = 1; command = some (set 7 70) }

abbrev e2 : Entry
e2 = record { term = 1; index = 2; command = none }

abbrev e3 : Entry
e3 = record { term = 3; index = 3; command = some (set 8 80) }

abbrev two : Log
two = record { entries = e1 ∷ e2 ∷ []; snapshot_index = 0; snapshot_term = 0 }

-- what is left of a log of three entries after the first two went into a snapshot
abbrev trimmed : Log
trimmed = record { entries = e3 ∷ []; snapshot_index = 2; snapshot_term = 1 }

two-IsLog : IsLog two
two-IsLog = record { placed = (refl, (refl, tt)); ordered = omega arith }

append_test : append two (e3 ∷ []) ≡ ok (record two { entries = e1 ∷ e2 ∷ e3 ∷ [] })
unfolding append append_one last_index last_term
append_test = refl

append_refused : append two (e1 ∷ []) ≡ err log_error
unfolding append append_one last_index last_term
append_refused = refl

-- a log of term 3 wins over a longer one of term 1
term_first : is_up_to_date two 1 3 ≡ true
unfolding is_up_to_date last_index last_term
term_first = refl
