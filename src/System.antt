-- ===== src/System.antt =====
-- The nodes of a cluster (rsm/node.py, rsm/cluster.py) under every schedule that a network could
-- produce: any message that was ever sent may be delivered, at any time, more than once or never,
-- any clock may show anything, any client may write, and any node may crash and restart. The loss,
-- the delays, the reordering and the partitions of rsm/net.py are among these schedules.
pub mod Invariant
pub mod Kept
pub mod Safety
pub mod Entries
pub mod Matching
use replicated_state_machine.Prelude.{
  ℕ, ◌≡◌, Bool, true, some, none, Option, List, [], ◌∷◌, ◌++◌, elem, In, ◌==◌, if◌then◌else◌,
}
use replicated_state_machine.Errors.{ok}
use replicated_state_machine.Log.{Command}
use replicated_state_machine.Rpc.{Message}
use replicated_state_machine.Node.State.{Node, Generator, new_node}
use replicated_state_machine.Node.Replicate.{replicate}
use replicated_state_machine.Node.Roles.{Output, tick, propose}
use replicated_state_machine.Node.Step.{step}
use replicated_state_machine.Cluster.Restart.{restart_node}

-- The nodes by name, and every message that was ever sent.
pub record System : Type 0 where
  pub nodes : ℕ → Node
  pub sent : List Message

abbrev pub update : (ℕ → Node) → ℕ → Node → ℕ → Node
update nodes i n j = if j == i then n else nodes j

-- Node `i` has moved, with this output.
abbrev pub after : System → ℕ → Output → System
after s i (n, out) = record { nodes = update s.nodes i n; sent = s.sent ++ out }

pub data Step (members : List ℕ) (s : System) : System → Type 0 where
  deliver :
      (m : Message) {o : Output}
      → In m s.sent
      → elem m.recipient members ≡ true
      → step (s.nodes m.recipient) m ≡ ok o
      → Step members s (after s m.recipient o)
  pass :
      (i now : ℕ) {o : Output}
      → elem i members ≡ true
      → tick (s.nodes i) now ≡ ok o
      → Step members s (after s i o)
  write :
      (i : ℕ) (command : Option Command) {n : Node} {index : ℕ} {out : List Message}
      → elem i members ≡ true
      → propose (s.nodes i) command ≡ ok (n, index)
      → replicate n none ≡ ok out
      → Step members s (after s i (n, out))
  restart :
      (i now : ℕ) (random : Generator) (pre_vote : Bool) {n : Node}
      → elem i members ≡ true
      → restart_node (s.nodes i) i members random pre_vote now ≡ ok n
      → Step members s (after s i (n, []))

-- Every member has been made by `Node(...)`, and nothing has been sent.
pub record Starts (members : List ℕ) (s : System) : Type 0 where
  pub made :
      (i : ℕ)
      → elem i members ≡ true
      → (random : Generator) × (pre_vote : Bool) × (commit_any_term : Bool) × (new_node i members
            random pre_vote commit_any_term
          ≡ ok (s.nodes i))
  pub silent : s.sent ≡ []

pub data Reach (members : List ℕ) : System → Type 0 where
  start : {s : System} → Starts members s → Reach members s
  later : {s t : System} → Reach members s → Step members s t → Reach members t
