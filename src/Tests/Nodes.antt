-- ===== src/Tests/Nodes.antt =====
-- One node of rsm/node.py at concrete messages, and the theorems there.
use replicated_state_machine.Prelude.{◌≡◌, refl, Bool, true, false, none, some, [], ◌∷◌, arith}
use replicated_state_machine.Errors.{ok, err, compacted}
use replicated_state_machine.Log.{
  Entry, Log, set, last_index, last_term, is_up_to_date, term_at, at, holds, truncate_from,
}
use replicated_state_machine.Rpc.{Message, Append, request_vote, vote, term_check}
use replicated_state_machine.Node.State.{Node, become_follower}
use replicated_state_machine.Node.Follower.{on_request_vote, on_append, take_entries, take_entry}
use replicated_state_machine.Node.Step.{step, handle}
use replicated_state_machine.Node.Append.{Accepted, take_entries-Accepted}
use replicated_state_machine.Node.Raises.{append_below_snapshot_raises}
use replicated_state_machine.Node.Election.Votes.{vote_once}
use replicated_state_machine.Tests.Systems.{fresh, ask}

-- node 1 after it has voted for node 0 in term 2
abbrev pub voted : Node
voted = record (fresh 1) { term = 2; voted_for = some 0; election_deadline = 10; drawn = 3 }

-- the same request from node 2, and the refusal
abbrev ask_again : Message
ask_again = record {
  sender = 2;
  recipient = 1;
  term = 2;
  body = request_vote (record { last_index = 0; last_term = 0; pre_vote = false });
}

abbrev refusal_of : Bool → Message
refusal_of granted = record {
  sender = 1;
  recipient = 2;
  term = 2;
  body = vote (record { granted = granted; pre_vote = false });
}

second_vote_refused : step voted ask_again ≡ ok (voted, refusal_of false ∷ [])
unfolding step handle term_check on_request_vote is_up_to_date last_index last_term
second_vote_refused = refl

vote_once_example : voted.voted_for ≡ some 0
vote_once_example = vote_once voted ask_again 0 second_vote_refused refl refl

abbrev pub give_again : Message
give_again = record {
  sender = 1;
  recipient = 0;
  term = 2;
  body = vote (record { granted = true; pre_vote = false });
}

pub first_vote : step (fresh 1) ask ≡ ok (voted, give_again ∷ [])
unfolding step handle term_check on_request_vote is_up_to_date last_index last_term become_follower
first_vote = refl

-- a follower whose second entry is stale, and what it is sent
abbrev stale : Log
stale = record {
  entries =
      record { term = 1; index = 1; command = none }
      ∷ record { term = 1; index = 2; command = none }
      ∷ [];
  snapshot_index = 0;
  snapshot_term = 0;
}

abbrev newer : Entry
newer = record { term = 2; index = 2; command = some (set 7 70) }

take_entries_test :
    take_entries stale (newer ∷ [])
    ≡ ok (record stale { entries = record { term = 1; index = 1; command = none } ∷ newer ∷ [] })
unfolding take_entries take_entry holds term_at at truncate_from last_index
take_entries_test = refl

take_entries-Accepted_example :
    (m : Log) × (take_entries stale (newer ∷ []) ≡ ok m) × Accepted 1 (newer ∷ []) stale m
unfolding last_index
take_entries-Accepted_example =
    take_entries-Accepted (newer ∷ []) 1 stale (refl, (refl, tt)) (omega arith) (omega arith)
      (refl, tt)

-- a follower that has installed a snapshot at index 10
abbrev installed_at_ten : Node
installed_at_ten = record (fresh 1) {
  log = record { entries = []; snapshot_index = 10; snapshot_term = 1 };
  commit_index = 10;
  last_applied = 10;
}

-- an append of the same leader, sent before the snapshot and delivered after it
abbrev late : Append
late = record { previous_index = 5; previous_term = 1; entries = []; commit_index = 5; read_id = 0 }

append_below_snapshot_raises_example : on_append installed_at_ten 0 1 late ≡ err compacted
append_below_snapshot_raises_example =
    append_below_snapshot_raises installed_at_ten 0 1 late tt (omega arith) (omega arith)
