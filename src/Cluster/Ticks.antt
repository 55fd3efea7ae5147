-- ===== src/Cluster/Ticks.antt =====
-- rsm/cluster.py: `tick` with its observers, the third check of `verify`, and what a caller asks of a
-- cluster.
use replicated_state_machine.Prelude.{
  ℕ, zero, suc, ◌+◌, min, Bool, true, false, ◌&&◌, Option, none, some, List, [], ◌∷◌, ◌++◌, length,
  take, map, ◌==◌, if◌then◌else◌,
}
use replicated_state_machine.Errors.{Result, ok, err, ◌>>=◌, state_machine_safety}
use replicated_state_machine.Log.{Entry, Command, nth}
use replicated_state_machine.Net.{quiet}
use replicated_state_machine.Node.State.{Node, Role}
use replicated_state_machine.Cluster.{Cluster, up, leader, advance, verify_leaders}
use replicated_state_machine.Cluster.Logs.{verify_logs, same_command}

-- `min` of a list that starts with `least`
abbrev pub least_of : (ℕ → Node) → ℕ → List ℕ → ℕ
least_of nodes least [] = least
least_of nodes least (one ∷ names) = least_of nodes (min least (length (nodes one).applied)) names

abbrev pub shortest_of : (ℕ → Node) → List ℕ → ℕ
shortest_of nodes [] = 0
shortest_of nodes (one ∷ names) = least_of nodes (length (nodes one).applied) names

-- `_shortest`
unfoldable pub shortest : Cluster → ℕ
shortest c = shortest_of c.nodes (up c)

-- the commands that the nodes have applied at a position
abbrev pub commands_at : (ℕ → Node) → ℕ → List ℕ → Result (List (Option Command))
commands_at nodes position [] = ok []
commands_at nodes position (one ∷ names) = do
  e ← nth (nodes one).applied position
  rest ← commands_at nodes position names
  ok (e.command ∷ rest)

abbrev pub all_same : Option Command → List (Option Command) → Bool
all_same first [] = true
all_same first (one ∷ rest) = same_command first one && all_same first rest

-- whether a set of commands has at most one element
abbrev pub at_most_one : List (Option Command) → Bool
at_most_one [] = true
at_most_one (one ∷ rest) = all_same one rest

-- The third loop of `verify`, from a position on: a command can be hashed, so the set is made.
unfoldable pub same_commands : (ℕ → Node) → List ℕ → ℕ → ℕ → Result (Unit {0})
same_commands nodes names position zero = ok tt
same_commands nodes names position (suc rounds) = do
  commands ← commands_at nodes position names
  let rest = same_commands nodes names (position + 1) rounds
  if at_most_one commands then rest else err state_machine_safety

unfoldable pub verify_applied : Cluster → Result (Unit {0})
verify_applied c = same_commands c.nodes (up c) 0 (shortest c)

unfoldable pub verify : Cluster → Result (Unit {0})
verify c = do _ ← verify_leaders c; _ ← verify_logs c; verify_applied c

-- what `Snapshot` keeps of a node
pub record Seen : Type 0 where
  pub name : ℕ
  pub role : Role
  pub term : ℕ
  pub commit : ℕ
  pub applied : List (Option Command)

abbrev pub command_of : Entry → Option Command
command_of e = e.command

abbrev pub see_nodes : (ℕ → Node) → List ℕ → List Seen
see_nodes nodes [] = []
see_nodes nodes (one ∷ names) =
    record {
      name = one;
      role = (nodes one).role;
      term = (nodes one).term;
      commit = (nodes one).commit_index;
      applied = map command_of (nodes one).applied;
    }
    ∷ see_nodes nodes names

-- A cluster with what its `tick` notes about it; a snapshot is its tick and what it keeps of each
-- node that is up.
pub record Observed : Type 0 where
  pub cluster : Cluster
  pub check : Bool
  pub elections : ℕ
  pub last_leader : Option ℕ
  pub history : List (ℕ × List Seen)

abbrev pub is_last : ℕ → Option ℕ → Bool
is_last name none = false
is_last name (some last) = name == last

-- `if found is not None and found.name != self.last_leader`
abbrev pub note_leader : Observed → Option ℕ → Observed
note_leader o none = o
note_leader o (some name) =
    if is_last name o.last_leader
    then o
    else record o { elections = o.elections + 1; last_leader = some name }

unfoldable pub tick : Observed → Result Observed
tick o = do
  c ← advance o.cluster
  let noted : Observed = note_leader (record o { cluster = c }) (leader c)
  let made : Observed = record noted {
    history = noted.history ++ (c.now, see_nodes c.nodes (up c)) ∷ [];
  }
  _ ← if o.check then verify c else ok tt
  ok made

abbrev pub settle_ticks : ℕ
settle_ticks = 400

abbrev pub has_leader : Option ℕ → Bool
has_leader none = false
has_leader (some _) = true

unfoldable pub settle : ℕ → Observed → Result Observed
settle zero o = ok o
settle (suc ticks) o = do
  o' ← tick o
  let rest = settle ticks o'
  if has_leader (leader o'.cluster) && quiet o'.cluster.net then ok o' else rest

-- the commands among what was applied that are not `None`
abbrev pub commands_of : List Entry → List Command
commands_of [] = []
commands_of (e ∷ es) = elim e.command [
  | none ↦ commands_of es
  | some command ↦ command ∷ commands_of es
]

abbrev pub committed_by : (ℕ → Node) → Option ℕ → List Command
committed_by nodes none = []
committed_by nodes (some name) = commands_of (nodes name).applied

unfoldable pub committed : Cluster → List Command
committed c = committed_by c.nodes (leader c)

unfoldable pub committed_count : Cluster → ℕ
committed_count c = length (committed c)

abbrev pub applied_index : Entry → ℕ
applied_index e = e.index

-- `[entry.index for entry in self.nodes[one].applied[: self._shortest()]]`, for each name
abbrev pub histories : (ℕ → Node) → ℕ → List ℕ → List (List ℕ)
histories nodes count [] = []
histories nodes count (one ∷ names) =
    map applied_index (take count (nodes one).applied) ∷ histories nodes count names

abbrev pub same_indices : List ℕ → List ℕ → Bool
same_indices [] [] = true
same_indices (x ∷ xs) (y ∷ ys) = (x == y) && same_indices xs ys
same_indices [] (_ ∷ _) = false
same_indices (_ ∷ _) [] = false

abbrev pub all_alike : List ℕ → List (List ℕ) → Bool
all_alike first [] = true
all_alike first (one ∷ rest) = same_indices first one && all_alike first rest

-- whether a set of histories has at most one element
abbrev pub one_history : List (List ℕ) → Bool
one_history [] = true
one_history (one ∷ rest) = all_alike one rest

unfoldable pub agreed : Cluster → Bool
agreed c = one_history (histories c.nodes (shortest c) (up c))
