-- ===== src/Cluster/Runs.antt =====
-- rsm/cluster.py: the clusters that calls of the methods of `Cluster` make, as states of System.
use replicated_state_machine.Prelude.{
  ℕ, zero, suc, ◌≡◌, sym, subst, true, Option, List, [], elem, All,
}
use replicated_state_machine.Errors.{ok, ok-injective, >>=-inv}
use replicated_state_machine.Log.{Command}
use replicated_state_machine.Rpc.{Message}
use replicated_state_machine.Node.State.{Node, Generator, is_leader}
use replicated_state_machine.Net
use replicated_state_machine.Net.{Network, Conditions, landed_by, flying_at, sort}
use replicated_state_machine.System.{Starts, start}
use replicated_state_machine.Cluster
use replicated_state_machine.Cluster.{
  Cluster, put_node, running, up, wake, advance, run, propose_to, propose_by, leader, crash,
  discard, claiming, at_term, best, only,
}
use replicated_state_machine.Cluster.Simulation.{Simulated, Carried}
use replicated_state_machine.Cluster.Operations.{
  advance-Simulated, propose-Simulated, crash-Simulated, restart-Simulated, partition-Simulated,
}
use replicated_state_machine.Node.State
use replicated_state_machine.System.Safety.{election_safety}

-- A cluster as `Cluster(...)` makes it: every node by `Node(...)`, the network by `Network(...)`.
pub record Opened (members : List ℕ) (c : Cluster) : Type 0 where
  pub in_cluster : c.members ≡ members
  pub starts : Starts members (record { nodes = c.nodes; sent = [] })
  pub on_net : c.net.members ≡ members
  pub silent : c.net.flight ≡ []
  pub all_up : c.down ≡ []
  pub clock : c.now ≡ 0

-- Every cluster that calls of its methods make.
pub data Run (members : List ℕ) : Cluster → Type 0 where
  opened : {c : Cluster} → Opened members c → Run members c
  ticked : {c d : Cluster} → Run members c → advance c ≡ ok d → Run members d
  proposed :
      {c d : Cluster} (command : Option Command) {index : ℕ}
      → Run members c
      → Cluster.propose c command ≡ ok (d, index)
      → Run members d
  crashed : {c d : Cluster} (name : ℕ) → Run members c → crash c name ≡ ok d → Run members d
  restarted :
      {c d : Cluster} (name : ℕ) → Run members c → Cluster.restart c name ≡ ok d → Run members d
  parted :
      {c d : Cluster} (sides : List (List ℕ))
      → Run members c
      → Cluster.partition c sides ≡ ok d
      → Run members d
  healed : {c : Cluster} → Run members c → Run members (Cluster.heal c)

-- `Cluster.run`: a number of ticks.
pub Run-run :
    {members : List ℕ} (c : Cluster) (ticks : ℕ) {d : Cluster}
    → Run members c
    → run c ticks ≡ ok d
    → Run members d
unfolding run
Run-run {members} c zero r q = subst (Run members) (ok-injective q) r
Run-run c (suc ticks) r q =
    let (c₁, s, t) = >>=-inv (advance c) (λ x. run x ticks) q in Run-run c₁ ticks (ticked r s) t

-- Every run is a schedule.
pub Run-Simulated :
    {members : List ℕ} {c : Cluster}
    → Run members c
    → (past : List Message) × Simulated members past c
unfolding Cluster.heal Net.heal
Run-Simulated {members} (opened {c} o) = (
  [],
  record {
    reach = start o.starts;
    carried = subst (All (Carried members [])) (sym o.silent) tt;
    on_net = o.on_net;
    in_cluster = o.in_cluster;
    stopped = λ i e. let f = subst (λ names. elem i names ≡ true) o.all_up e in absurd (cc);
  },
)
Run-Simulated {members} (ticked {c} {d} r q) =
    let (past, h) = Run-Simulated r in advance-Simulated members past c d h q
Run-Simulated {members} (proposed {c} command r q) =
    let (past, h) = Run-Simulated r in propose-Simulated members past c command h q
Run-Simulated {members} (crashed {c} name r q) =
    let (past, h) = Run-Simulated r in (past, crash-Simulated members past c name h q)
Run-Simulated {members} (restarted {c} name r q) =
    let (past, h) = Run-Simulated r in restart-Simulated members past c name h q
Run-Simulated {members} (parted {c} sides r q) =
    let (past, h) = Run-Simulated r in (past, partition-Simulated members past c sides h q)
Run-Simulated {members} (healed {c} r) =
    let (past, h) = Run-Simulated r in
    (
      past,
      record {
        reach = h.reach;
        carried = h.carried;
        on_net = h.on_net;
        in_cluster = h.in_cluster;
        stopped = h.stopped;
      },
    )

-- In every cluster that calls of its methods make, two members that lead in one term are one.
pub one_leader :
    {members : List ℕ} {c : Cluster} (i j : ℕ)
    → Run members c
    → elem i members ≡ true
    → elem j members ≡ true
    → (c.nodes i).role ≡ State.leader
    → (c.nodes j).role ≡ State.leader
    → (c.nodes i).term ≡ (c.nodes j).term
    → i ≡ j
one_leader i j r ei ej li lj same =
    let (past, h) = Run-Simulated r in election_safety h.reach i j ei ej li lj same
