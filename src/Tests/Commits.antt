-- ===== src/Tests/Commits.antt =====
-- A leader of three that commits and applies two entries.
use replicated_state_machine.Prelude.{◌≡◌, refl, ◌⊎◌, ◌≤◌, none, some, [], ◌∷◌, arith}
use replicated_state_machine.Errors.{ok}
use replicated_state_machine.Log.{Log, set, last_index, term_at, at, holds}
use replicated_state_machine.Node.State.{Node, leader, quorum}
use replicated_state_machine.Node.Frame.{own_match}
use replicated_state_machine.Node.Commit.{
  scan_commit, advance_commit, apply_next, apply_rounds, apply_committed,
}
use replicated_state_machine.Node.Committing.Rule.{MayCommit, commit_rule}
use replicated_state_machine.Node.Committing.Apply.{applied_to, stretch, apply_exact}
use replicated_state_machine.Tests.Systems.{fresh}

abbrev two_entries : Log
two_entries = record {
  entries =
      record { term = 2; index = 1; command = none }
      ∷ record { term = 2; index = 2; command = some (set 7 70) }
      ∷ [];
  snapshot_index = 0;
  snapshot_term = 0;
}

-- node 0 leads in term 2, and node 1 has answered that it holds both entries
abbrev leads : Node
leads = record (fresh 0) { term = 2; role = leader; log = two_entries; match_index = (1, 2) ∷ [] }

-- the same node where both entries are committed
abbrev at_two : Node
at_two = record (own_match leads) { commit_index = 2 }

abbrev done : Node
done = applied_to at_two 2 two_entries.entries

commits_two : advance_commit leads ≡ ok done
unfolding advance_commit scan_commit apply_committed apply_rounds apply_next quorum holds term_at at
    last_index
commits_two = refl

commit_rule_example :
    (done.commit_index ≡ leads.commit_index)
    ⊎ (MayCommit (own_match leads) done.commit_index × (done.commit_index ≤ last_index leads.log))
commit_rule_example = commit_rule leads done commits_two

-- a node that was restarted after a snapshot of four entries, and holds the fifth
abbrev compacted : Log
compacted = record {
  entries = record { term = 2; index = 5; command = some (set 7 70) } ∷ [];
  snapshot_index = 4;
  snapshot_term = 2;
}

abbrev restarted : Node
restarted = record (fresh 0) { log = compacted; commit_index = 5 }

apply_exact_example :
    apply_committed restarted ≡ ok (applied_to restarted 5 (stretch compacted 0 5))
unfolding last_index
apply_exact_example = apply_exact restarted (refl, tt) (omega arith) (omega arith)

applies_fifth : stretch compacted 0 5 ≡ compacted.entries
applies_fifth = refl
