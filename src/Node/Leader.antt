-- ===== src/Node/Leader.antt =====
-- rsm/node.py: what a node makes of replies: `_on_vote`, `_on_pre_vote`, `_on_appended` with
-- `_skip_term`, and `_on_installed`.
use replicated_state_machine.Prelude.{
  ℕ, zero, suc, ◌+◌, ◌-◌, max, Bool, true, false, not, ◌||◌, Option, none, some, List, [], ◌∷◌,
  length, add, get, insert, leb, ◌==◌, if◌then◌else◌,
}
use replicated_state_machine.Errors.{Result, ok, ◌>>=◌}
use replicated_state_machine.Log.{Log, first_index, last_index, term_at, no_term, no_index}
use replicated_state_machine.Rpc.{Vote, Appended, Installed}
use replicated_state_machine.Node.State.{Node, follower, candidate, quorum, is_leader}
use replicated_state_machine.Node.Replicate.{replicate}
use replicated_state_machine.Node.Commit.{advance_commit}
use replicated_state_machine.Node.Roles.{Output, become_leader, become_candidate}

abbrev pub is_candidate : Node → Bool
is_candidate n = elim n.role [ candidate ↦ true | _ ↦ false ]

abbrev pub is_follower : Node → Bool
is_follower n = elim n.role [ follower ↦ true | _ ↦ false ]

abbrev pub is_nil : List ℕ → Bool
is_nil [] = true
is_nil (_ ∷ _) = false

unfoldable pub on_pre_vote : Node → ℕ → Vote → Result Output
on_pre_vote n sender m =
    if not (is_follower n) || not m.granted || is_nil n.pre_votes
    then ok (n, [])
    else let counted : Node = record n { pre_votes = add sender n.pre_votes } in
      if leb (quorum n) (length counted.pre_votes)
      then become_candidate counted
      else ok (counted, [])

unfoldable pub on_vote : Node → ℕ → Vote → Result Output
on_vote n sender m =
    if m.pre_vote
    then on_pre_vote n sender m
    else if not (is_candidate n) || not m.granted
    then ok (n, [])
    else let counted : Node = record n { votes = add sender n.votes } in
      if leb (quorum n) (length counted.votes) then become_leader counted else ok (counted, [])

-- the loop of `_skip_term` over the indices `base + count - 1` down to `base`
unfoldable pub find_term : Log → ℕ → ℕ → ℕ → Result (Option ℕ)
find_term log wanted base zero = ok none
find_term log wanted base (suc count) =
    let rest = find_term log wanted base count in
    do held ← term_at log (base + count); if held == wanted then ok (some (base + count)) else rest

unfoldable pub skip_term : Node → ℕ → Appended → Result ℕ
skip_term n conflict_term m = do
  let base : ℕ = first_index n.log
  found ← find_term n.log conflict_term base (last_index n.log + 1 - base)
  ok (elim found [ none ↦ max m.conflict_index base | some index ↦ index + 1 ])

-- what `_on_appended` and `_on_installed` record of a follower that holds `index`
unfoldable pub record_match : Node → ℕ → ℕ → Node
record_match n sender index =
    let matched = max (get sender no_index n.match_index) index in
    record n {
      match_index = insert sender matched n.match_index;
      next_index = insert sender (matched + 1) n.next_index;
    }

-- where `_on_appended` retries after a refusal
abbrev pub retry_from : Node → Appended → Result ℕ
retry_from n m =
    if not (m.conflict_term == no_term)
    then skip_term n m.conflict_term m
    else ok (max m.conflict_index (first_index n.log))

abbrev pub send_to : Node → ℕ → Result Output
send_to n sender = do messages ← replicate n (some sender); ok (n, messages)

unfoldable pub on_appended : Node → ℕ → Appended → Result Output
on_appended n sender m =
    if not (is_leader n)
    then ok (n, [])
    else if m.success
    then (do
      advanced ← advance_commit (record_match n sender m.match_index)
      if leb (get sender no_index advanced.next_index) (last_index advanced.log)
          then send_to advanced sender
          else ok (advanced, []))
    else (do
      retry ← retry_from n m
      send_to (record n { next_index = insert sender retry n.next_index }) sender)

unfoldable pub on_installed : Node → ℕ → Installed → Result Output
on_installed n sender m =
    if not (is_leader n)
    then ok (n, [])
    else do advanced ← advance_commit (record_match n sender m.last_index); send_to advanced sender
