-- ===== src/Persist.antt =====
-- rsm/persist.py: `Disk`, what a node has written down and what comes back from it.
pub mod Crash
use replicated_state_machine.Prelude.{
  ℕ, ◌+◌, Bool, true, false, ◌&&◌, ◌||◌, Option, none, List, [], ◌∷◌, if◌then◌else◌,
}
use replicated_state_machine.Errors.{Result, ok, err, ◌>>=◌}
use replicated_state_machine.Log.{Entry, Log, new_log}
use replicated_state_machine.Node.State.{Node, Generator, new_node}

-- The names of `DURABLE`; a name that is none of them, which `__post_init__` refuses, has no value
-- here.
pub data Field : Type 0 where
  term vote log : Field

abbrev pub every_field : List Field
every_field = term ∷ vote ∷ log ∷ []

abbrev pub same_field : Field → Field → Bool
same_field term term = true
same_field vote vote = true
same_field log log = true
same_field _ _ = false

abbrev pub keeps : Field → List Field → Bool
keeps f [] = false
keeps f (g ∷ fields) = same_field f g || keeps f fields

pub record Disk : Type 0 where
  pub term : ℕ
  pub voted_for : Option ℕ
  pub entries : List Entry
  pub durable : List Field
  pub syncs : ℕ

-- `Disk(durable=...)`
abbrev pub new_disk : List Field → Disk
new_disk durable = record { term = 1; voted_for = none; entries = []; durable = durable; syncs = 0 }

unfoldable pub write : Disk → Node → Disk
write d n = record d {
  syncs = d.syncs + 1;
  term = if keeps term d.durable then n.term else d.term;
  voted_for = if keeps vote d.durable then n.voted_for else d.voted_for;
  entries = if keeps log d.durable then n.log.entries else d.entries;
}

unfoldable pub restore : Disk → ℕ → List ℕ → Generator → Result Node
restore d name members random = do
  made ← new_node name members random false false
  kept ← new_log (if keeps log d.durable then d.entries else []) 0 0
  ok (record made {
    term = if keeps term d.durable then d.term else 1;
    voted_for = if keeps vote d.durable then d.voted_for else none;
    log = kept;
  })
