-- ===== src/Node/Follower.antt =====
-- rsm/node.py: what a node answers: `_refuse`, `_on_request_vote`, `_on_append` with `_conflict`,
-- and `_on_install`.
use replicated_state_machine.Prelude.{
  ℕ, zero, suc, ◌+◌, ◌-◌, min, Bool, true, false, ◌&&◌, Option, none, some, List, [], ◌∷◌, ltb,
  ◌==◌, if◌then◌else◌,
}
use replicated_state_machine.Errors.{Result, ok, ◌>>=◌}
use replicated_state_machine.Log.{
  Entry, Log, first_index, last_index, is_up_to_date, matches, holds, term_at, truncate_from, push,
  no_term, no_index,
}
use replicated_state_machine.Rpc.{
  Message, RequestVote, Append, InstallSnapshot, Body, request_vote, vote, append, appended,
  installed, append_last_index,
}
use replicated_state_machine.Node.State.{Node, follower, reset_election_timer, become_follower}
use replicated_state_machine.Node.Commit.{apply_committed}
use replicated_state_machine.Node.Roles.{Output}

-- A reply carries the sender's term as it is when the reply is made.
abbrev pub reply : Node → ℕ → Body → Message
reply n to body = record { sender = n.name; recipient = to; term = n.term; body = body }

-- `Appended(...)` at the defaults, without success
abbrev pub no_success : Body
no_success = appended (record {
  success = false;
  match_index = no_index;
  conflict_term = no_term;
  conflict_index = no_index;
  read_id = 0;
})

unfoldable pub refuse : Node → Message → List Message
refuse n m = elim m.body [
  | request_vote _ ↦ reply n m.sender (vote (record { granted = false; pre_vote = false })) ∷ []
  | append _ ↦ reply n m.sender no_success ∷ []
  | _ ↦ []
]

-- `self.voted_for in (None, sender)`
abbrev pub vote_is_free : Option ℕ → ℕ → Bool
vote_is_free none sender = true
vote_is_free (some name) sender = name == sender

unfoldable pub on_request_vote : Node → ℕ → ℕ → RequestVote → Output
unfolding reset_election_timer
on_request_vote n sender term m =
    let up_to_date = is_up_to_date n.log m.last_index m.last_term in
    if m.pre_vote
    then (
      n,
      reply n sender (vote (record { granted = up_to_date && ltb n.term term; pre_vote = true }))
          ∷ [],
    )
    else if vote_is_free n.voted_for sender && up_to_date
    then (
      reset_election_timer (record n { voted_for = some sender }),
      reply n sender (vote (record { granted = true; pre_vote = false })) ∷ [],
    )
    else (n, reply n sender (vote (record { granted = false; pre_vote = false })) ∷ [])

-- `if one.index == self.log.last_index + 1: self.log.entries.append(one)`
abbrev pub push_next : Log → Entry → Log
push_next log one = if one.index == last_index log + 1 then push log one else log

-- the body of the loop of `_on_append`
unfoldable pub take_entry : Log → Entry → Result Log
take_entry log one =
    if holds log one.index
    then (do
      held ← term_at log one.index
      if held == one.term
          then ok log
          else do (kept, _) ← truncate_from log one.index; ok (push_next kept one))
    else ok (push_next log one)

unfoldable pub take_entries : Log → List Entry → Result Log
take_entries log [] = ok log
take_entries log (one ∷ rest) = do log' ← take_entry log one; take_entries log' rest

-- the `while` of `_conflict`, with `first = base + gap` and `base` the first index of the log
unfoldable pub run_start : Log → ℕ → ℕ → ℕ → Result ℕ
run_start log conflicting base zero = ok base
run_start log conflicting base (suc gap) =
    let rest = run_start log conflicting base gap in
    do held ← term_at log (base + gap); if held == conflicting then rest else ok (base + suc gap)

-- the message of `_conflict` below the two kinds of refusal
abbrev pub refusal : Node → ℕ → ℕ → ℕ → ℕ → Message
refusal n sender conflict_term conflict_index read_id = reply n sender (
    appended (record {
      success = false;
      match_index = no_index;
      conflict_term = conflict_term;
      conflict_index = conflict_index;
      read_id = read_id;
    }))

unfoldable pub conflict : Node → ℕ → Append → Result Message
conflict n sender m =
    if ltb (last_index n.log) m.previous_index
    then ok (refusal n sender no_term (last_index n.log + 1) m.read_id)
    else do
      conflicting ← term_at n.log m.previous_index
      let base : ℕ = min m.previous_index (first_index n.log)
      first ← run_start n.log conflicting base (m.previous_index - base)
      ok (refusal n sender conflicting first m.read_id)

-- `if message.commit_index > self.commit_index`
abbrev pub follow_commit : Node → ℕ → Result Node
follow_commit n commit =
    if ltb n.commit_index commit
    then apply_committed (record n { commit_index = min commit (last_index n.log) })
    else ok n

-- the part of `_on_append` above the consistency check
unfoldable pub hear_leader : Node → ℕ → ℕ → Node
unfolding reset_election_timer become_follower
hear_leader n sender term = reset_election_timer (elim n.role [
  | follower ↦ record n { leader_name = some sender }
  | _ ↦ become_follower (record n { leader_name = some sender }) term (some sender)
])

-- the part of `_on_append` behind the consistency check
unfoldable pub accept_append : Node → ℕ → Append → Result Output
accept_append n sender m = do
  log ← take_entries n.log m.entries
  applied ← follow_commit (record n { log = log }) m.commit_index
  ok (
    applied,
    reply applied sender (
          appended (record {
            success = true;
            match_index = append_last_index m;
            conflict_term = no_term;
            conflict_index = no_index;
            read_id = m.read_id;
          }))
        ∷ [],
  )

unfoldable pub on_append : Node → ℕ → ℕ → Append → Result Output
on_append n sender term m =
    let heard = hear_leader n sender term in
    do
      matched ← matches heard.log m.previous_index m.previous_term
      if matched
          then accept_append heard sender m
          else do message ← conflict heard sender m; ok (heard, message ∷ [])

-- the part of `_on_install` under its `if`
abbrev pub adopt_snapshot : Node → InstallSnapshot → Node
adopt_snapshot n m = record n {
  log = record { entries = []; snapshot_index = m.last_index; snapshot_term = m.last_term };
  state = m.state;
  commit_index = m.last_index;
  last_applied = m.last_index;
}

unfoldable pub on_install : Node → ℕ → InstallSnapshot → Output
unfolding reset_election_timer
on_install n sender m =
    let heard = reset_election_timer (record n { leader_name = some sender }) in
    let done = if ltb (last_index heard.log) m.last_index then adopt_snapshot heard m else heard in
    (done, reply done sender (installed (record { last_index = last_index done.log })) ∷ [])
