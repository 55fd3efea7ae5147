-- ===== src/Node/State.antt =====
-- rsm/node.py: the state of a `Node`, its construction, its timer, and the step down.
use replicated_state_machine.Prelude.{
  ℕ, ◌+◌, ◌/◌, ◌≤◌, Bool, true, false, not, Option, none, List, [], ◌∷◌, ◌&&◌, length, elem, Dict,
  ltb, ◌==◌, if◌then◌else◌,
}
use replicated_state_machine.Errors.{Result, ok, err, config_error}
use replicated_state_machine.Log.{Entry, Log, empty_log, no_index}

pub data Role : Type 0 where
  follower candidate leader : Role

abbrev pub min_election_timeout : ℕ
min_election_timeout = 10

abbrev pub max_election_timeout : ℕ
max_election_timeout = 20

abbrev pub heartbeat_interval : ℕ
heartbeat_interval = 3

abbrev pub max_batch : ℕ
max_batch = 64

-- Python's `random.Random(seed)`, which is not part of the program: `g k lo hi` is what the call
-- `randint(lo, hi)` returns when `k` draws have been made before it.
abbrev pub Generator : Type 0
Generator = ℕ → ℕ → ℕ → ℕ

-- What `randint` documents.
abbrev pub InRange : Generator → Type 0
InRange g = (k lo hi : ℕ) → lo ≤ hi → (lo ≤ g k lo hi) × (g k lo hi ≤ hi)

-- `seed` shows only in the generator; `drawn` counts the draws made from it.
pub record Node : Type 0 where
  pub name : ℕ
  pub members : List ℕ
  pub pre_vote : Bool
  pub commit_any_term : Bool
  pub term : ℕ
  pub voted_for : Option ℕ
  pub log : Log
  pub role : Role
  pub leader_name : Option ℕ
  pub commit_index : ℕ
  pub last_applied : ℕ
  pub next_index : Dict ℕ
  pub match_index : Dict ℕ
  pub votes : List ℕ
  pub pre_votes : List ℕ
  pub now : ℕ
  pub election_deadline : ℕ
  pub heartbeat_due : ℕ
  pub applied : List Entry
  pub state : Dict ℕ
  pub random : Generator
  pub drawn : ℕ

-- `len(set(names)) == len(names)`
abbrev pub distinct : List ℕ → Bool
distinct [] = true
distinct (x ∷ xs) = not (elem x xs) && distinct xs

-- the names that are not `name`
abbrev pub others : ℕ → List ℕ → List ℕ
others name [] = []
others name (x ∷ xs) = let rest = others name xs in if x == name then rest else x ∷ rest

unfoldable pub peers : Node → List ℕ
peers n = others n.name n.members

unfoldable pub quorum : Node → ℕ
quorum n = length n.members / 2 + 1

abbrev pub is_leader : Node → Bool
is_leader n = elim n.role [ leader ↦ true | _ ↦ false ]

unfoldable pub reset_election_timer : Node → Node
reset_election_timer n = record n {
  election_deadline = n.now + n.random n.drawn min_election_timeout max_election_timeout;
  drawn = n.drawn + 1;
}

-- `Node(...)` with its `__post_init__`, at the defaults of the fields that are not arguments
unfoldable pub new_node : ℕ → List ℕ → Generator → Bool → Bool → Result Node
unfolding reset_election_timer
new_node name members random pre_vote commit_any_term =
    if not (elem name members)
    then err config_error
    else if not (distinct members)
    then err config_error
    else ok (
        reset_election_timer (record {
          name = name;
          members = members;
          pre_vote = pre_vote;
          commit_any_term = commit_any_term;
          term = 1;
          voted_for = none;
          log = empty_log;
          role = follower;
          leader_name = none;
          commit_index = no_index;
          last_applied = no_index;
          next_index = [];
          match_index = [];
          votes = [];
          pre_votes = [];
          now = 0;
          election_deadline = 0;
          heartbeat_due = 0;
          applied = [];
          state = [];
          random = random;
          drawn = 0;
        }))

-- the `if` of `become_follower`
abbrev pub adopt_term : Node → ℕ → Node
adopt_term n term = if ltb n.term term then record n { term = term; voted_for = none } else n

unfoldable pub become_follower : Node → ℕ → Option ℕ → Node
unfolding reset_election_timer
become_follower n term found =
    let adopted = adopt_term n term in
    reset_election_timer
      (record adopted { role = follower; leader_name = found; votes = []; pre_votes = [] })
