-- ===== src/Node/Election/Votes.antt =====
-- What a node promises of its term and its vote (rsm/node.py, `step` and `tick`).
use replicated_state_machine.Prelude.{ℕ, ◌≤◌, ◌≡◌, true, some, All-In, In, ◌∙◌}
use replicated_state_machine.Errors.{ok}
use replicated_state_machine.Rpc.{Message}
use replicated_state_machine.Node.State.{Node}
use replicated_state_machine.Node.Roles.{Output, tick}
use replicated_state_machine.Node.Step.{step}
use replicated_state_machine.Node.Election.Turn.{grants, Outgoing}
use replicated_state_machine.Node.Election.Steps.{step-Turn}
use replicated_state_machine.Node.Election.Ticks.{tick-Turn}

-- No message lowers the term of a node.
pub term-le-step : (n : Node) (m : Message) {o : Output} → step n m ≡ ok o → n.term ≤ o.0.term
term-le-step n m q = (step-Turn n m q).term_grows

-- A vote that is given stays given while the term lasts, whatever message comes.
pub vote_once :
    (n : Node) (m : Message) (v : ℕ) {o : Output}
    → step n m ≡ ok o
    → o.0.term ≡ n.term
    → n.voted_for ≡ some v
    → o.0.voted_for ≡ some v
vote_once n m v q e h = (step-Turn n m q).keeps_vote e v h

-- A clock tick does not change a vote within its term either.
pub vote_once_on_tick :
    (n : Node) (now : ℕ) (v : ℕ) {o : Output}
    → tick n now ≡ ok o
    → o.0.term ≡ n.term
    → n.voted_for ≡ some v
    → o.0.voted_for ≡ some v
vote_once_on_tick n now v q e h = (tick-Turn n now q).keeps_vote e v h

-- A vote that a node sends in a real election is in its own name, in its term, and recorded.
pub vote_recorded :
    (n : Node) (m reply : Message) {o : Output}
    → step n m ≡ ok o
    → In reply o.1
    → grants reply.body ≡ true
    → (reply.sender ≡ n.name) × (reply.term ≡ o.0.term) × (o.0.voted_for ≡ some reply.recipient)
vote_recorded n m reply {o} q sent g =
    let turn = step-Turn n m q in
    let out = All-In (Outgoing o.0) o.1 turn.sends sent in
    let (t, v) = out.honest g in (out.own ∙ turn.same_name, t, v)
