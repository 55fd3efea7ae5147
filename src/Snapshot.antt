-- ===== src/Snapshot.antt =====
-- rsm/snapshot.py: `Snapshot`, `take`, `compact` and `restore`.
pub mod Keep
use replicated_state_machine.Prelude.{
  ℕ, ◌*◌, Bool, ◌&&◌, List, [], ◌∷◌, length, Dict, ltb, leb, ◌==◌, if◌then◌else◌,
}
use replicated_state_machine.Errors.{Result, ok, err, ◌>>=◌, config_error, log_error}
use replicated_state_machine.Log.{Entry, Log, last_index, term_at, new_log, no_index, no_term}
use replicated_state_machine.Node.State.{Node}

abbrev pub key_bytes : ℕ
key_bytes = 24

pub record Snapshot : Type 0 where
  pub last_index : ℕ
  pub last_term : ℕ
  pub state : Dict ℕ
  pub members : List ℕ

-- `Snapshot(...)` with its `__post_init__`; a negative index is not a number here
unfoldable pub new_snapshot : ℕ → ℕ → Dict ℕ → List ℕ → Result Snapshot
new_snapshot last_index last_term state members =
    if ltb no_index last_index && ltb last_term 1
    then err config_error
    else ok (record {
      last_index = last_index;
      last_term = last_term;
      state = state;
      members = members;
    })

unfoldable pub nbytes : Snapshot → ℕ
nbytes s = length s.state * key_bytes

unfoldable pub is_empty : Snapshot → Bool
is_empty s = s.last_index == no_index

-- the term that `take` writes down
unfoldable pub term_applied : Node → Result ℕ
term_applied n = if ltb no_index n.last_applied then term_at n.log n.last_applied else ok no_term

unfoldable pub take : Node → Result Snapshot
take n = do term ← term_applied n; new_snapshot n.last_applied term n.state n.members

-- the entries above an index, and those up to it
abbrev pub above : ℕ → List Entry → List Entry
above upto [] = []
above upto (e ∷ es) = let rest = above upto es in if ltb upto e.index then e ∷ rest else rest

abbrev pub going : ℕ → List Entry → List Entry
going upto [] = []
going upto (e ∷ es) = let rest = going upto es in if leb e.index upto then e ∷ rest else rest

-- The log that is left, and how many entries went.
unfoldable pub compact : Log → ℕ → ℕ → Result (Log × ℕ)
compact l upto term =
    if ltb upto l.snapshot_index
    then err config_error
    else if ltb (last_index l) upto
    then err log_error
    else ok (
      record { entries = above upto l.entries; snapshot_index = upto; snapshot_term = term },
      length (going upto l.entries),
    )

unfoldable pub restore : Node → Snapshot → Result Node
restore n made = do
  log ← new_log [] made.last_index made.last_term
  ok (record n {
    log = log;
    state = made.state;
    commit_index = made.last_index;
    last_applied = made.last_index;
  })
