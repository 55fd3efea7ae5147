-- ===== src/Log/Reconcile.antt =====
-- rsm/log.py: `reconcile_one_at_a_time` and `reconcile_by_conflict_term`, the searches on two logs
-- without nodes.
use replicated_state_machine.Prelude.{
  ℕ, zero, suc, ◌+◌, ◌-◌, true, not, Option, none, some, ◌==◌, if◌then◌else◌,
}
use replicated_state_machine.Errors.{Result, ok, ◌>>=◌}
use replicated_state_machine.Log.{
  Log, last_index, first_index, term_at, matches, holds, no_term, no_index,
}

-- `leader.term_at(previous) if leader.holds(previous) else 0`
abbrev pub term_or_zero : Log → ℕ → Result ℕ
term_or_zero log index = if holds log index then term_at log index else ok no_term

-- the loop of `reconcile_one_at_a_time`, from `next_index` down
unfoldable pub step_back : Log → Log → ℕ → ℕ → Result ℕ
step_back leader follower trips zero = ok trips
step_back leader follower trips (suc previous) = do
  term ← term_or_zero leader previous
  matched ← matches follower previous term
  let deeper = step_back leader follower (trips + 1) previous
  if matched then ok (trips + 1) else if previous == no_index then ok (trips + 1) else deeper

unfoldable pub reconcile_one_at_a_time : Log → Log → Result ℕ
reconcile_one_at_a_time leader follower = step_back leader follower 0 (last_index leader + 1)

-- the inner `while` of `reconcile_by_conflict_term`, with `first = base + gap`
unfoldable pub run_back : Log → ℕ → ℕ → ℕ → Result ℕ
run_back log conflicting base zero = ok base
run_back log conflicting base (suc gap) =
    let rest = run_back log conflicting base gap in
    do held ← term_at log (base + gap); if held == conflicting then rest else ok (base + suc gap)

-- the loop of `reconcile_by_conflict_term`; `none` means that it was still running after `rounds`
unfoldable pub jump_back : ℕ → Log → Log → ℕ → ℕ → Result (Option ℕ)
jump_back zero leader follower trips next = ok none
jump_back (suc rounds) leader follower trips zero = ok (some trips)
jump_back (suc rounds) leader follower trips (suc previous) =
    let past_end = jump_back rounds leader follower (trips + 1) (last_index follower + 1) in
    let over_term : Result (Option ℕ) = (do
      conflicting ← term_at follower previous
      first ← run_back follower conflicting (first_index follower) (previous - first_index follower)
      jump_back rounds leader follower (trips + 1) first) in
    do
      leader_term ← term_or_zero leader previous
      matched ← if previous == no_index then ok true else matches follower previous leader_term
      if matched
          then ok (some (trips + 1))
          else if not (holds follower previous)
          then past_end
          else over_term

unfoldable pub reconcile_by_conflict_term : ℕ → Log → Log → Result (Option ℕ)
reconcile_by_conflict_term rounds leader follower =
    jump_back rounds leader follower 0 (last_index leader + 1)
