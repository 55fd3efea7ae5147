-- ===== src/Node/Frame.antt =====
-- What the commit and apply steps of a node leave alone: each is an update of a few fields.
use replicated_state_machine.Prelude.{
  ℕ, zero, suc, ◌+◌, ◌-◌, ◌≤◌, ◌≡◌, true, false, Bool-cases, inl, inr, Option, none, some, arith,
  insert, length, ◌==◌,
}
use replicated_state_machine.Errors.{ok, >>=-inv}
use replicated_state_machine.Log.{
  Command, last_index, last_term, new_entry, append, append_one, push,
}
use replicated_state_machine.Node.State.{Node, is_leader}
use replicated_state_machine.Node.Commit.{
  apply_next, apply_rounds, apply_committed, scan_commit, commit_found, advance_commit,
}
use replicated_state_machine.Node.Roles.{write_own, commit_alone}

-- `m` is `n` but for what applying entries changes.
abbrev pub AppliedFrom : Node → Node → Type 0
AppliedFrom n m =
    m ≡ record n { last_applied = m.last_applied; applied = m.applied; state = m.state }

-- `m` is `n` but for what committing changes.
abbrev pub CommittedFrom : Node → Node → Type 0
CommittedFrom n m = m ≡ record n {
  commit_index = m.commit_index;
  match_index = m.match_index;
  last_applied = m.last_applied;
  applied = m.applied;
  state = m.state;
}

apply_next-frame : (n : Node) {m : Node} → apply_next n ≡ ok m → AppliedFrom n m
unfolding apply_next
apply_next-frame n q = ground arith

apply_rounds-frame : (k : ℕ) (n : Node) {m : Node} → apply_rounds k n ≡ ok m → AppliedFrom n m
unfolding apply_rounds
apply_rounds-frame zero n q = ground arith
apply_rounds-frame (suc k) n q =
    let (a, r, s) = >>=-inv (apply_next n) (apply_rounds k) q in
    let h = apply_next-frame n r in let g = apply_rounds-frame k a s in ground arith

pub apply_committed-frame : (n : Node) {m : Node} → apply_committed n ≡ ok m → AppliedFrom n m
unfolding apply_committed
apply_committed-frame n q = apply_rounds-frame (n.commit_index - n.last_applied) n q

commit_found-frame :
    (n : Node) (found : Option ℕ) {m : Node} → commit_found n found ≡ ok m → CommittedFrom n m
commit_found-frame n none q = ground arith
commit_found-frame n (some index) q =
    let h = apply_committed-frame (record n { commit_index = index }) q in ground arith

-- the node from which `advance_commit` counts
abbrev pub own_match : Node → Node
own_match n = record n { match_index = insert n.name (last_index n.log) n.match_index }

pub advance_commit-leader :
    (n : Node) {m : Node}
    → is_leader n ≡ true
    → advance_commit n ≡ ok m
    → (found : Option ℕ) × (scan_commit (own_match n) (last_index n.log - n.commit_index)
        ≡ ok found)
      × (commit_found (own_match n) found ≡ ok m)
unfolding advance_commit
advance_commit-leader n h q =
    >>=-inv (scan_commit (own_match n) (last_index n.log - n.commit_index))
      (commit_found (own_match n)) (rw h at q)

pub advance_commit-other :
    (n : Node) {m : Node} → is_leader n ≡ false → advance_commit n ≡ ok m → m ≡ n
unfolding advance_commit
advance_commit-other n h q = ground arith

pub advance_commit-frame : (n : Node) {m : Node} → advance_commit n ≡ ok m → CommittedFrom n m
advance_commit-frame n q = elim (Bool-cases (is_leader n)) [
  | inl h ↦
      let (found, _, r) = advance_commit-leader n h q in
      let f = commit_found-frame (own_match n) found r in ground arith
  | inr h ↦ let e = advance_commit-other n h q in ground arith
]

pub commit_alone-frame : (n : Node) {m : Node} → commit_alone n ≡ ok m → CommittedFrom n m
commit_alone-frame n q = elim (Bool-cases (length n.members == 1)) [
  | inl h ↦ advance_commit-frame n (rw h at q)
  | inr h ↦ ground arith
]

-- What writing an entry of its own changes in a node, and the entry that it writes.
pub write_own-frame :
    (n : Node) (command : Option Command) {m : Node}
    → write_own n command ≡ ok m
    → (m ≡ record n { log = m.log; match_index = m.match_index })
      × (1 ≤ n.term)
      × (last_term n.log ≤ n.term)
      × (m.log
          ≡ push n.log (record { term = n.term; index = last_index n.log + 1; command = command }))
unfolding write_own new_entry append append_one
write_own-frame n command q = ground arith
