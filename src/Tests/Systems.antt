-- ===== src/Tests/Systems.antt =====
-- Three nodes that elect a leader, step by step.
use replicated_state_machine.Prelude.{
  ℕ, ◌≡◌, refl, true, false, none, List, [], ◌∷◌, inl, inr, elem, arith,
}
use replicated_state_machine.Errors.{ok}
use replicated_state_machine.Log.{
  empty_log, last_index, last_term, is_up_to_date, new_entry, append, append_one, slice, collect,
  term_at, at,
}
use replicated_state_machine.Rpc.{Message, request_vote, vote, term_check}
use replicated_state_machine.Node.State.{
  Node, Generator, follower, new_node, peers, quorum, become_follower,
}
use replicated_state_machine.Node.Replicate.{replicate, replicate_to, replicate_one}
use replicated_state_machine.Node.Roles.{stand, become_candidate, become_leader, write_own, tick}
use replicated_state_machine.Node.Follower.{on_request_vote}
use replicated_state_machine.Node.Leader.{on_vote}
use replicated_state_machine.Node.Step.{handle, step}
use replicated_state_machine.System.{System, Reach, Starts, start, later, deliver, pass}
use replicated_state_machine.System.Safety.{election_safety}

abbrev pub three : List ℕ
three = 0 ∷ 1 ∷ 2 ∷ []

-- every election timeout is the shortest
abbrev pub lowest : Generator
lowest k lo hi = lo

abbrev pub fresh : ℕ → Node
fresh i = record {
  name = i;
  members = three;
  pre_vote = false;
  commit_any_term = false;
  term = 1;
  voted_for = none;
  log = empty_log;
  role = follower;
  leader_name = none;
  commit_index = 0;
  last_applied = 0;
  next_index = [];
  match_index = [];
  votes = [];
  pre_votes = [];
  now = 0;
  election_deadline = 10;
  heartbeat_due = 0;
  applied = [];
  state = [];
  random = lowest;
  drawn = 1;
}

abbrev pub begin : System
begin = record { nodes = fresh; sent = [] }

pub fresh_made : (i : ℕ) → elem i three ≡ true → new_node i three lowest false false ≡ ok (fresh i)
unfolding new_node
fresh_made i e = ground arith

pub begin-Starts : Starts three begin
begin-Starts = record { made = λ i e. (lowest, false, false, fresh_made i e); silent = refl }

-- node 0 asks node 1 for its vote in term 2, and node 1 gives it
abbrev pub ask : Message
ask = record {
  sender = 0;
  recipient = 1;
  term = 2;
  body = request_vote (record { last_index = 0; last_term = 0; pre_vote = false });
}

abbrev pub give : Message
give = record {
  sender = 1;
  recipient = 0;
  term = 2;
  body = vote (record { granted = true; pre_vote = false });
}

pub record Run : Type 0 where
  pub last : System
  pub reach : Reach three last

abbrev pub elected : Run
unfolding tick stand become_candidate peers last_index last_term step handle term_check
    on_request_vote is_up_to_date on_vote quorum become_leader write_own new_entry append append_one
    replicate replicate_to replicate_one slice collect term_at at become_follower
elected = record {
  last = _;
  reach =
      later
        (later (later (start begin-Starts) (pass 0 10 refl refl))
          (deliver ask (inl refl) refl refl))
        (deliver give (inr (inr (inl refl))) refl refl);
}

election_safety_example : ◌≡◌ {A = ℕ} 0 0
unfolding tick stand become_candidate peers last_index last_term step handle term_check
    on_request_vote is_up_to_date on_vote quorum become_leader write_own new_entry append append_one
    replicate replicate_to replicate_one slice collect term_at at become_follower
election_safety_example = election_safety elected.reach 0 0 refl refl refl refl refl
