-- ===== src/Node/Commit.antt =====
-- rsm/node.py: `advance_commit`, `apply_committed` and `_apply`.
use replicated_state_machine.Prelude.{
  ℕ, zero, suc, ◌+◌, ◌-◌, Bool, true, not, ◌&&◌, Option, none, some, List, [], ◌∷◌, ◌++◌, Dict, get,
  insert, leb, ◌==◌, if◌then◌else◌,
}
use replicated_state_machine.Errors.{Result, ok, ◌>>=◌}
use replicated_state_machine.Log.{Command, set, other, last_index, holds, at, term_at, no_index}
use replicated_state_machine.Node.State.{Node, quorum, is_leader}

-- `_apply`, on `self.state`
abbrev pub apply_command : Option Command → Dict ℕ → Dict ℕ
apply_command (some (set key value)) state = insert key value state
apply_command (some (other _)) state = state
apply_command none state = state

-- one round of the loop of `apply_committed`
unfoldable pub apply_next : Node → Result Node
apply_next n =
    let moved : Node = record n { last_applied = n.last_applied + 1 } in
    if not (holds n.log (n.last_applied + 1)) then ok moved else do
      one ← at n.log (n.last_applied + 1)
      ok (record moved {
        applied = n.applied ++ one ∷ [];
        state = apply_command one.command n.state;
      })

unfoldable pub apply_rounds : ℕ → Node → Result Node
apply_rounds zero n = ok n
apply_rounds (suc rounds) n = do n' ← apply_next n; apply_rounds rounds n'

-- `while self.last_applied < self.commit_index`, which makes `commit_index - last_applied` rounds
unfoldable pub apply_committed : Node → Result Node
apply_committed n = apply_rounds (n.commit_index - n.last_applied) n

-- how many of `names` are known to hold `index`
abbrev pub holders : Dict ℕ → ℕ → List ℕ → ℕ
holders matched index [] = 0
holders matched index (one ∷ names) =
    (if leb index (get one no_index matched) then 1 else 0) + holders matched index names

-- whether the loop of `advance_commit` passes over an index by its term
abbrev pub of_own_term : Node → ℕ → Result Bool
of_own_term n index =
    if n.commit_any_term then ok true else do held ← term_at n.log index; ok (held == n.term)

-- `for index in range(commit_index + gap, commit_index, -1)`: the first index it may commit
unfoldable pub scan_commit : Node → ℕ → Result (Option ℕ)
scan_commit n zero = ok none
scan_commit n (suc gap) =
    let index : ℕ = n.commit_index + suc gap in
    let rest = scan_commit n gap in
    do
      own ← of_own_term n index
      if own && leb (quorum n) (holders n.match_index index n.members)
          then ok (some index)
          else rest

abbrev pub commit_found : Node → Option ℕ → Result Node
commit_found n none = ok n
commit_found n (some index) = apply_committed (record n { commit_index = index })

unfoldable pub advance_commit : Node → Result Node
advance_commit n =
    if not (is_leader n)
    then ok n
    else let own : Node = record n {
      match_index = insert n.name (last_index n.log) n.match_index;
    } in
      do found ← scan_commit own (last_index n.log - n.commit_index); commit_found own found
