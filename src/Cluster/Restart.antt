-- ===== src/Cluster/Restart.antt =====
-- rsm/cluster.py: the node that `Cluster.restart` makes of a stopped one.
use replicated_state_machine.Prelude.{ℕ, Bool, false, List}
use replicated_state_machine.Errors.{Result, ok, ◌>>=◌}
use replicated_state_machine.Log.{new_log}
use replicated_state_machine.Node.State.{Node, Generator, new_node, reset_election_timer}

-- `random` is the generator of the fresh node, which `seed + now` and the name decide.
unfoldable pub restart_node : Node → ℕ → List ℕ → Generator → Bool → ℕ → Result Node
unfolding reset_election_timer
restart_node old name members random pre_vote now = do
  fresh ← new_node name members random pre_vote false
  log ← new_log old.log.entries old.log.snapshot_index old.log.snapshot_term
  ok (
      reset_election_timer
        (record fresh { term = old.term; voted_for = old.voted_for; log = log; now = now }))
