-- ===== src/Node/Step.antt =====
-- rsm/node.py: `step`, the one entry for messages.
use replicated_state_machine.Prelude.{ℕ, Bool, false, none, if◌then◌else◌}
use replicated_state_machine.Errors.{Result, ok}
use replicated_state_machine.Rpc.{
  Message, Body, request_vote, vote, append, appended, install_snapshot, installed, TermState,
  stale, current, ahead, term_check,
}
use replicated_state_machine.Node.State.{Node, become_follower}
use replicated_state_machine.Node.Roles.{Output}
use replicated_state_machine.Node.Follower.{refuse, on_request_vote, on_append, on_install}
use replicated_state_machine.Node.Leader.{on_vote, on_appended, on_installed}

-- `isinstance(message, RequestVote | Vote) and message.pre_vote`
abbrev pub asking : Body → Bool
asking (request_vote m) = m.pre_vote
asking (vote m) = m.pre_vote
asking _ = false

-- the dispatch on the kind of a message from `sender` in `term`
unfoldable pub handle : Node → ℕ → ℕ → Body → Result Output
handle n sender term (request_vote m) = ok (on_request_vote n sender term m)
handle n sender term (vote m) = on_vote n sender m
handle n sender term (append m) = on_append n sender term m
handle n sender term (appended m) = on_appended n sender m
handle n sender term (install_snapshot m) = ok (on_install n sender m)
handle n sender term (installed m) = on_installed n sender m

-- what `step` does at each answer of the term check
unfoldable pub step_at : TermState → Node → Message → Result Output
step_at stale n message = ok (n, refuse n message)
step_at current n message = handle n message.sender message.term message.body
step_at ahead n message =
    handle (if asking message.body then n else become_follower n message.term none) message.sender
      message.term message.body

unfoldable pub step : Node → Message → Result Output
unfolding step_at
step n message = step_at (term_check n.term message) n message
