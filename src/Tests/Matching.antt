-- ===== src/Tests/Matching.antt =====
-- An entry on its way from a leader to a follower.
use replicated_state_machine.Prelude.{◌≡◌, refl, none, [], ◌∷◌, inl, inr}
use replicated_state_machine.Log
use replicated_state_machine.Log.{
  Entry, last_index, last_term, is_up_to_date, new_entry, append_one, slice, collect, term_at, at,
  matches, holds,
}
use replicated_state_machine.Rpc.{Message, append, term_check}
use replicated_state_machine.Node.State.{peers, quorum, become_follower}
use replicated_state_machine.Node.Replicate.{replicate, replicate_to, replicate_one}
use replicated_state_machine.Node.Roles.{stand, become_candidate, become_leader, write_own, tick}
use replicated_state_machine.Node.Follower.{
  on_request_vote, on_append, hear_leader, accept_append, take_entries, take_entry,
}
use replicated_state_machine.Node.Leader.{on_vote}
use replicated_state_machine.Node.Step.{handle, step}
use replicated_state_machine.System.{later, deliver}
use replicated_state_machine.System.Matching.{log_matching}
use replicated_state_machine.Tests.Systems.{Run, elected}

-- the entry that opens the term of node 0, and the message that brings it to node 1
abbrev opening_entry : Entry
opening_entry = record { term = 2; index = 1; command = none }

abbrev bring : Message
bring = record {
  sender = 0;
  recipient = 1;
  term = 2;
  body = append (record {
    previous_index = 0;
    previous_term = 0;
    entries = opening_entry ∷ [];
    commit_index = 0;
    read_id = 0;
  });
}

abbrev replicated : Run
unfolding tick stand become_candidate peers last_index last_term step handle term_check
    on_request_vote is_up_to_date on_vote quorum become_leader write_own new_entry Log.append
    append_one replicate replicate_to replicate_one slice collect term_at at become_follower
    on_append hear_leader matches accept_append take_entries take_entry holds
replicated = record {
  last = _;
  reach = later elected.reach (deliver bring (inr (inr (inr (inl refl)))) refl refl);
}

-- Node 0 wrote the entry and node 1 took it.
log_matching_example : opening_entry ≡ opening_entry
unfolding tick stand become_candidate peers last_index last_term step handle term_check
    on_request_vote is_up_to_date on_vote quorum become_leader write_own new_entry Log.append
    append_one replicate replicate_to replicate_one slice collect term_at at become_follower
    on_append hear_leader matches accept_append take_entries take_entry holds
log_matching_example =
    log_matching replicated.reach 0 1 opening_entry opening_entry refl refl (inl refl) (inl refl)
      refl refl
