-- ===== src/Node/Raises.antt =====
-- Messages and states at which a node raises (rsm/node.py, `_conflict` and `advance_commit`).
use replicated_state_machine.Prelude.{ℕ, ◌≤◌, ◌<◌, ◌≡◌, refl, false, arith}
use replicated_state_machine.Errors.{ok, err, compacted}
use replicated_state_machine.Log.{Log, last_index, matches, term_at, at}
use replicated_state_machine.Log.Shape.{Placed, last_index-eq}
use replicated_state_machine.Rpc.{Append}
use replicated_state_machine.Node.State.{Node}
use replicated_state_machine.Node.Follower.{hear_leader, conflict, on_append}

log-hear_leader : (n : Node) (sender term : ℕ) → (hear_leader n sender term).log ≡ n.log
unfolding hear_leader
log-hear_leader n sender term = ground arith

matches_below : (l : Log) (i t : ℕ) → 0 < i → i < l.snapshot_index → matches l i t ≡ ok false
unfolding matches
matches_below l i t p q = ground arith

term_at_below : (l : Log) (i : ℕ) → 0 < i → i < l.snapshot_index → term_at l i ≡ err compacted
unfolding term_at at
term_at_below l i p q = ground arith

conflict_below :
    (n : Node) (sender : ℕ) (m : Append)
    → m.previous_index ≤ last_index n.log
    → term_at n.log m.previous_index ≡ err compacted
    → conflict n sender m ≡ err compacted
unfolding conflict
conflict_below n sender m p q = ground (arith, q)

-- An append whose previous index lies inside the follower's snapshot is not refused: it raises.
pub append_below_snapshot_raises :
    (n : Node) (sender term : ℕ) (m : Append)
    → Placed n.log
    → 0 < m.previous_index
    → m.previous_index < n.log.snapshot_index
    → on_append n sender term m ≡ err compacted
unfolding on_append
append_below_snapshot_raises n sender term m h p q =
    let heard = hear_leader n sender term in
    let e : heard.log ≡ n.log = log-hear_leader n sender term in
    let mb : matches heard.log m.previous_index m.previous_term ≡ ok false =
      rw e (matches_below n.log m.previous_index m.previous_term p q) in
    let cb : conflict heard sender m ≡ err compacted =
      conflict_below heard sender m (rw e (omega (arith, last_index-eq n.log h)))
        (rw e (term_at_below n.log m.previous_index p q)) in
    rw mb (rw cb refl)
