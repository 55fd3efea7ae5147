-- ===== src/Node/Roles.antt =====
-- rsm/node.py: standing for election, taking office, proposing.
use replicated_state_machine.Prelude.{
  ℕ, ◌+◌, Bool, true, false, ◌&&◌, not, Option, none, some, List, [], ◌∷◌, map, length, from_keys,
  insert, ltb, leb, ◌==◌, if◌then◌else◌,
}
use replicated_state_machine.Errors.{Result, ok, err, ◌>>=◌, not_leader}
use replicated_state_machine.Log.{Command, last_index, last_term, new_entry, append, no_index}
use replicated_state_machine.Rpc.{Message, request_vote}
use replicated_state_machine.Node.State.{
  Node, candidate, leader, peers, reset_election_timer, is_leader, heartbeat_interval,
}
use replicated_state_machine.Node.Replicate.{replicate}
use replicated_state_machine.Node.Commit.{advance_commit}

-- What a method of a node returns: the node as it leaves it, and the messages to send.
abbrev pub Output : Type 0
Output = Node × List Message

-- the request for a vote to one peer, in the given term
abbrev pub vote_request : Node → ℕ → Bool → ℕ → Message
vote_request n term pre one = record {
  sender = n.name;
  recipient = one;
  term = term;
  body =
      request_vote
        (record { last_index = last_index n.log; last_term = last_term n.log; pre_vote = pre });
}

unfoldable pub become_pre_candidate : Node → Output
unfolding reset_election_timer
become_pre_candidate n =
    let asking = reset_election_timer (record n { pre_votes = n.name ∷ [] }) in
    (asking, map (vote_request n (n.term + 1) true) (peers n))

-- The entry that opens a leader's term, or the entry of a proposal, at the end of its log.
unfoldable pub write_own : Node → Option Command → Result Node
write_own n command = do
  one ← new_entry n.term (last_index n.log + 1) command
  log ← append n.log (one ∷ [])
  ok (record n { log = log; match_index = insert n.name (last_index log) n.match_index })

-- `if len(self.members) == 1: self.advance_commit()`
abbrev pub commit_alone : Node → Result Node
commit_alone n = if length n.members == 1 then advance_commit n else ok n

abbrev pub take_office : Node → Node
take_office n = record n {
  role = leader;
  leader_name = some n.name;
  votes = [];
  next_index = from_keys (peers n) (last_index n.log + 1);
  match_index = from_keys (peers n) no_index;
}

unfoldable pub become_leader : Node → Result Output
become_leader n = do
  written ← write_own (take_office n) none
  committed ← commit_alone (record written { heartbeat_due = n.now + heartbeat_interval })
  messages ← replicate committed none
  ok (committed, messages)

-- the fields that `become_candidate` sets before it asks for votes
unfoldable pub start_candidacy : Node → Node
unfolding reset_election_timer
start_candidacy n = reset_election_timer (record n {
  term = n.term + 1;
  role = candidate;
  voted_for = some n.name;
  leader_name = none;
  votes = n.name ∷ [];
  pre_votes = [];
})

unfoldable pub become_candidate : Node → Result Output
unfolding start_candidacy
become_candidate n =
    let standing = start_candidacy n in
    if length n.members == 1
    then become_leader standing
    else ok (standing, map (vote_request standing standing.term false) (peers standing))

unfoldable pub stand : Node → Result Output
stand n =
    if n.pre_vote && ltb 1 (length n.members)
    then ok (become_pre_candidate n)
    else become_candidate n

-- The node, and the index at which the command landed.
unfoldable pub propose : Node → Option Command → Result (Node × ℕ)
propose n command = if not (is_leader n) then err not_leader else do
  written ← write_own n command
  committed ← commit_alone written
  ok (committed, last_index n.log + 1)

-- the branch of `tick` for a leader
abbrev pub heartbeat : Node → ℕ → Result Output
heartbeat n now =
    if leb n.heartbeat_due now
    then (do
      let beaten : Node = record n { heartbeat_due = now + heartbeat_interval }
      messages ← replicate beaten none
      ok (beaten, messages))
    else ok (n, [])

unfoldable pub tick : Node → ℕ → Result Output
tick n now =
    let later : Node = record n { now = now } in
    if is_leader n
    then heartbeat later now
    else if leb n.election_deadline now
    then stand later
    else ok (later, [])
