-- ===== src/Tests/Clients.antt =====
-- Commands, replicas and retries at concrete values.
use replicated_state_machine.Prelude.{pos, ◌+◌, ◌≡◌, refl, none, [], ◌∷◌}
use replicated_state_machine.Errors.{ok}
use replicated_state_machine.Machine.{
  Command, nothing, integer, set, increment, Machine, Python, fresh, apply, apply_all, replay,
}
use replicated_state_machine.Machine.Replay.{shown, replicas_agree}
use replicated_state_machine.Client.{Request, Sessions, no_sessions, run}
use replicated_state_machine.Client.Once.{
  run_all, repeat_answered, machine_of, firsts, applied_once,
}

-- a Python whose `int` reads no text
abbrev python : Python
python = record { int_of_text = λ t. none; chance = λ k. k }

abbrev set_seven : Command
set_seven = record { name = set; key = 1; value = integer (pos 7); expected = nothing }

abbrev add_one : Command
add_one = record { name = increment; key = 1; value = nothing; expected = nothing }

adds :
    apply_all python (fresh 0) (set_seven ∷ add_one ∷ [])
    ≡ ok (record {
      state = (1, integer (pos 8)) ∷ [];
      applied = 2;
      results = integer (pos 7) ∷ integer (pos 8) ∷ [];
      drawn = 0;
    })
unfolding apply_all apply
adds = refl

replicas_agree_example :
    shown (replay (record python { chance = λ k. 5 }) 3 (set_seven ∷ add_one ∷ []))
    ≡ shown (replay python 0 (set_seven ∷ add_one ∷ []))
replicas_agree_example =
    replicas_agree python (λ k. 5) 0 3 (set_seven ∷ add_one ∷ []) (refl, (refl, tt))

abbrev first : Request
first = record { client = 4; sequence = 1; command = add_one }

abbrev second : Request
second = record { client = 4; sequence = 2; command = add_one }

abbrev after_first : Sessions × Machine
after_first = (
  record {
    last_seen = (4, 1) ∷ [];
    answers = ((4, 1), integer (pos 1)) ∷ [];
    applied = 1;
    deduplicated = 0;
  },
  record {
    state = (1, integer (pos 1)) ∷ [];
    applied = 1;
    results = integer (pos 1) ∷ [];
    drawn = 0;
  },
)

abbrev after_second : Sessions × Machine
after_second = (
  record {
    last_seen = (4, 2) ∷ [];
    answers = ((4, 1), integer (pos 1)) ∷ ((4, 2), integer (pos 2)) ∷ [];
    applied = 2;
    deduplicated = 0;
  },
  record {
    state = (1, integer (pos 2)) ∷ [];
    applied = 2;
    results = integer (pos 1) ∷ integer (pos 2) ∷ [];
    drawn = 0;
  },
)

runs_first : run python no_sessions first (fresh 0) ≡ ok (integer (pos 1), after_first)
unfolding run apply
runs_first = refl

runs_second : run_all python after_first.0 (second ∷ []) after_first.1 ≡ ok after_second
unfolding run_all run apply
runs_second = refl

-- The retry of the first request is told 1, though the counter holds 2.
repeat_answered_example :
    run python after_second.0 first after_second.1
    ≡ ok (integer (pos 1), (record (after_second.0) { deduplicated = 0 + 1 }, after_second.1))
repeat_answered_example =
    repeat_answered python no_sessions after_first.0 after_second.0 first (second ∷ []) (fresh 0)
      after_first.1 after_second.1 (integer (pos 1)) runs_first runs_second

applied_once_example :
    machine_of (run_all python no_sessions (first ∷ first ∷ second ∷ first ∷ []) (fresh 0))
    ≡ apply_all python (fresh 0) (firsts [] (first ∷ first ∷ second ∷ first ∷ []))
applied_once_example = applied_once python (first ∷ first ∷ second ∷ first ∷ []) (fresh 0)
