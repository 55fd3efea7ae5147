-- ===== src/Cluster.antt =====
-- rsm/cluster.py: `Cluster` without the observers of a run: `advance` is `tick` as far as
-- the second loop, and Cluster/Ticks the whole of it. The restart of a node and the proofs
-- are in the modules below.
pub mod Restart
pub mod Simulation
pub mod Operations
pub mod Runs
pub mod Verify
pub mod Logs
pub mod Ticks
pub mod Checks
use replicated_state_machine.Prelude.{
  ◌++◌, Dict, get, insert, ltb, length, ℕ, zero, suc, ◌+◌, max, Bool, true, false, not, Option,
  none, some, List, [], ◌∷◌, elem, add, ◌==◌, if◌then◌else◌,
}
use replicated_state_machine.Errors.{
  Result, ok, err, ◌>>=◌, config_error, no_leader, unknown_node, election_safety,
}
use replicated_state_machine.Log.{Command}
use replicated_state_machine.Rpc.{Message}
use replicated_state_machine.Node.State.{Node, Generator, is_leader}
use replicated_state_machine.Node.Roles
use replicated_state_machine.Node.Roles.{tick}
use replicated_state_machine.Node.Replicate.{replicate}
use replicated_state_machine.Node.Step.{step}
use replicated_state_machine.Net
use replicated_state_machine.Net.{Network}
use replicated_state_machine.Cluster.Restart.{restart_node}

-- `random.Random(f"{seed}:{name}")` is the generator `generators seed name`. The network takes messages
-- of members only, so no key outside the dict of nodes is ever read, and the dict is a function.
pub record Cluster : Type 0 where
  pub members : List ℕ
  pub seed : ℕ
  pub generators : ℕ → ℕ → Generator
  pub pre_vote : Bool
  pub net : Network
  pub nodes : ℕ → Node
  pub now : ℕ
  pub down : List ℕ

-- `self.nodes[name] = n`
abbrev pub put_node : Cluster → ℕ → Node → Cluster
put_node c name n = record c { nodes = λ other. if other == name then n else c.nodes other }

-- the names of a list that are not down
abbrev pub running : List ℕ → List ℕ → List ℕ
running down [] = []
running down (one ∷ names) =
    let rest = running down names in if elem one down then rest else one ∷ rest

unfoldable pub up : Cluster → List ℕ
up c = running c.down c.members

-- the names of a list whose nodes lead
abbrev pub claiming : (ℕ → Node) → List ℕ → List ℕ
claiming nodes [] = []
claiming nodes (one ∷ names) =
    let rest = claiming nodes names in if is_leader (nodes one) then one ∷ rest else rest

abbrev pub best : (ℕ → Node) → List ℕ → ℕ
best nodes [] = 0
best nodes (one ∷ names) = max (nodes one).term (best nodes names)

abbrev pub at_term : (ℕ → Node) → ℕ → List ℕ → List ℕ
at_term nodes term [] = []
at_term nodes term (one ∷ names) =
    let rest = at_term nodes term names in if (nodes one).term == term then one ∷ rest else rest

-- `top[0] if len(top) == 1 else None`
abbrev pub only : List ℕ → Option ℕ
only [] = none
only (one ∷ []) = some one
only (one ∷ two ∷ rest) = none

-- `leader`, as the name of the node
unfoldable pub leader : Cluster → Option ℕ
leader c =
    let leaders = claiming c.nodes (up c) in only (at_term c.nodes (best c.nodes leaders) leaders)

-- `_send`
unfoldable pub send : Cluster → List Message → Result Cluster
send c [] = ok c
send c (one ∷ messages) =
    let skipped = send c messages in
    if elem one.sender c.down
    then skipped
    else do (net, _) ← Net.send c.net one; send (record c { net = net }) messages

-- the first loop of `tick`
unfoldable pub deliver : Cluster → List Message → Result Cluster
deliver c [] = ok c
deliver c (message ∷ messages) =
    let skipped = deliver c messages in
    if elem message.recipient c.down then skipped else do
      (n, out) ← step (c.nodes message.recipient) message
      sent ← send (put_node c message.recipient n) out
      deliver sent messages

-- the second loop of `tick`
unfoldable pub wake : Cluster → List ℕ → Result Cluster
wake c [] = ok c
wake c (one ∷ names) = do
  (n, out) ← tick (c.nodes one) c.now
  sent ← send (put_node c one n) out
  wake sent names

-- `tick`, up to its observers
unfoldable pub advance : Cluster → Result Cluster
advance c =
    let (net, landed) = Net.tick c.net in
    do
      delivered ← deliver (record c { now = c.now + 1; net = net }) landed
      wake delivered (up delivered)

unfoldable pub run : Cluster → ℕ → Result Cluster
run c zero = ok c
run c (suc ticks) = do next ← advance c; run next ticks

unfoldable pub propose_to : Cluster → ℕ → Option Command → Result (Cluster × ℕ)
propose_to c name command = do
  (n, index) ← Roles.propose (c.nodes name) command
  out ← replicate n none
  sent ← send (put_node c name n) out
  ok (sent, index)

-- `propose`, behind the search for a leader
abbrev pub propose_by : Cluster → Option Command → Option ℕ → Result (Cluster × ℕ)
propose_by c command none = err no_leader
propose_by c command (some name) = propose_to c name command

unfoldable pub propose : Cluster → Option Command → Result (Cluster × ℕ)
propose c command = propose_by c command (leader c)

unfoldable pub crash : Cluster → ℕ → Result Cluster
crash c name =
    if not (elem name c.members) then err unknown_node else ok (record c { down = add name c.down })

-- `self.down.discard(name)`
abbrev pub discard : ℕ → List ℕ → List ℕ
discard name [] = []
discard name (one ∷ names) =
    let rest = discard name names in if one == name then rest else one ∷ rest

unfoldable pub restart : Cluster → ℕ → Result Cluster
restart c name = if not (elem name c.down) then err config_error else do
  fresh ←
      restart_node (c.nodes name) name c.members (c.generators (c.seed + c.now) name) c.pre_vote
        c.now
  ok (record (put_node c name fresh) { down = discard name c.down })

unfoldable pub partition : Cluster → List (List ℕ) → Result Cluster
partition c sides = do net ← Net.partition c.net sides; ok (record c { net = net })

unfoldable pub heal : Cluster → Cluster
heal c = record c { net = Net.heal c.net }

-- the loop of `Snapshot.leaders_by_term`
abbrev pub group : (ℕ → Node) → List ℕ → Dict (List ℕ) → Dict (List ℕ)
group nodes [] out = out
group nodes (one ∷ names) out =
    let term = (nodes one).term in group nodes names (insert term (get term [] out ++ one ∷ []) out)

-- of the snapshot that is taken now
unfoldable pub leaders_by_term : Cluster → Dict (List ℕ)
leaders_by_term c = group c.nodes (claiming c.nodes (up c)) []

-- the first loop of `verify`
abbrev pub one_per_term : Dict (List ℕ) → Result (Unit {0})
one_per_term [] = ok tt
one_per_term ((term, names) ∷ rest) =
    if ltb 1 (length names) then err election_safety else one_per_term rest

unfoldable pub verify_leaders : Cluster → Result (Unit {0})
verify_leaders c = one_per_term (leaders_by_term c)
