-- ===== src/Tests/Crashes.antt =====
-- A vote, a crash and a restart from disk at concrete values.
use replicated_state_machine.Prelude.{◌≡◌, refl, none, some, [], ◌∷◌, inl, arith}
use replicated_state_machine.Errors.{ok, err, config_error}
use replicated_state_machine.Log.{last_index, last_term, is_up_to_date, new_log}
use replicated_state_machine.Rpc.{term_check}
use replicated_state_machine.Node.State.{Node, become_follower, new_node}
use replicated_state_machine.Node.Follower.{on_request_vote}
use replicated_state_machine.Node.Step.{step, handle}
use replicated_state_machine.Persist.{every_field, new_disk, write, restore}
use replicated_state_machine.Persist.Crash.{one_vote_over_crash, restore_compacted_raises}
use replicated_state_machine.Tests.Systems.{fresh, ask}
use replicated_state_machine.Tests.Nodes.{voted, give_again, first_vote}

-- node 1, which voted for node 0 in term 2, after a crash
abbrev back : Node
back = record (fresh 1) { term = 2; voted_for = some 0 }

comes_back :
    restore (write (new_disk every_field) voted) 1 (0 ∷ 1 ∷ 2 ∷ []) (fresh 1).random ≡ ok back
unfolding restore write new_node new_log
comes_back = refl

votes_again :
    step back ask ≡ ok (record back { election_deadline = 10; drawn = 2 }, give_again ∷ [])
unfolding step handle term_check on_request_vote is_up_to_date last_index last_term become_follower
votes_again = refl

one_vote_over_crash_example : give_again.recipient ≡ give_again.recipient
one_vote_over_crash_example =
    one_vote_over_crash (fresh 1) back (new_disk every_field) ask ask give_again give_again 1
      (0 ∷ 1 ∷ 2 ∷ []) (fresh 1).random first_vote (inl refl) refl refl refl comes_back votes_again
      (inl refl) refl refl

-- a node whose log starts above a snapshot at 2
abbrev trimmed : Node
trimmed = record (fresh 1) {
  log = record {
    entries = record { term = 1; index = 3; command = none } ∷ [];
    snapshot_index = 2;
    snapshot_term = 1;
  };
}

restore_compacted_raises_example :
    restore (write (new_disk every_field) trimmed) 1 (0 ∷ 1 ∷ 2 ∷ []) (fresh 1).random
    ≡ err config_error
unfolding new_node
restore_compacted_raises_example =
    restore_compacted_raises trimmed (fresh 1) (new_disk every_field) (fresh 1).random refl
      (refl, tt) (λ e. cc) (omega arith) refl
