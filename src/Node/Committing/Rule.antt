-- ===== src/Node/Committing/Rule.antt =====
-- The commit rule: what `advance_commit` may commit, and when it raises.
use replicated_state_machine.Prelude.{
  ℕ, zero, suc, ◌+◌, ◌-◌, ◌≤◌, ◌<◌, ◌≡◌, sym, ap, ◌∙◌, ◌⊎◌, subst, inl, inr, true, ◌&&◌, Bool-cases,
  Option, some, none, arith, leb, ◌==◌, ==→eq,
}
use replicated_state_machine.Errors.{ok, >>=-inv, ok-injective, some-injective}
use replicated_state_machine.Log.{last_index, term_at}
use replicated_state_machine.Node.State.{Node, quorum, is_leader}
use replicated_state_machine.Node.Commit.{
  holders, of_own_term, scan_commit, commit_found, advance_commit,
}
use replicated_state_machine.Node.Frame.{
  own_match, advance_commit-leader, advance_commit-other, apply_committed-frame,
}

-- What a node may commit: an index above its commit index that a quorum holds, and that it wrote
-- in its own term, unless it has been told not to ask for that.
pub record MayCommit (n : Node) (index : ℕ) : Type 0 where
  pub above : n.commit_index < index
  pub held : quorum n ≤ holders n.match_index index n.members
  pub own : (n.commit_any_term ≡ true) ⊎ (term_at n.log index ≡ ok n.term)

of_own_term-true :
    (n : Node) (index : ℕ)
    → of_own_term n index ≡ ok true
    → (n.commit_any_term ≡ true) ⊎ (term_at n.log index ≡ ok n.term)
of_own_term-true n index q = elim (Bool-cases n.commit_any_term) [
  | inl any ↦ inl any
  | inr strict ↦
      let (t, r, s) =
        >>=-inv (term_at n.log index) (λ held. ok (held == n.term)) (simp strict at q) in
      inr (r ∙ ap ok (==→eq t n.term (ok-injective s)))
]

scan_commit-MayCommit :
    (n : Node) (gap : ℕ) {index : ℕ}
    → scan_commit n gap ≡ ok (some index)
    → MayCommit n index × (index ≤ n.commit_index + gap)
unfolding scan_commit
scan_commit-MayCommit n zero q = absurd (cc)
scan_commit-MayCommit n (suc gap) {index} q =
    let here : ℕ = n.commit_index + suc gap in
    let (own, r, s) = >>=-inv (of_own_term n here) _ q in
    elim (Bool-cases (own && leb (quorum n) (holders n.match_index here n.members))) [
      | inl passes ↦
          let e : here ≡ index = some-injective (ok-injective (rw passes at s)) in
          (
            record {
              above = omega arith;
              held = subst (λ i. quorum n ≤ holders n.match_index i n.members) e (ground arith);
              own =
                  subst (λ i. (n.commit_any_term ≡ true) ⊎ (term_at n.log i ≡ ok n.term)) e
                    (of_own_term-true n here (r ∙ ap ok (ground arith)));
            },
            omega arith,
          )
      | inr fails ↦
          let (may, le) = scan_commit-MayCommit n gap (rw fails at s) in (may, omega arith)
    ]

found-MayCommit :
    (n : Node) (found : Option ℕ) {m : Node}
    → scan_commit (own_match n) (last_index n.log - n.commit_index) ≡ ok found
    → commit_found (own_match n) found ≡ ok m
    → (m.commit_index ≡ n.commit_index)
      ⊎ (MayCommit (own_match n) m.commit_index × (m.commit_index ≤ last_index n.log))
found-MayCommit n none s q = inl (ap (λ (x : Node). x.commit_index) (sym (ok-injective q)))
found-MayCommit n (some index) {m} s q =
    let f = apply_committed-frame (record (own_match n) { commit_index = index }) q in
    let e : index ≡ m.commit_index = sym (ap (λ (x : Node). x.commit_index) f) in
    let (may, le) = scan_commit-MayCommit (own_match n) (last_index n.log - n.commit_index) s in
    inr (subst (MayCommit (own_match n)) e may, omega (arith, may.above))

-- Whenever `advance_commit` moves the commit index, it moves it up, to an index of the log that a
-- quorum holds and, unless the node commits entries of any term, that carries the node's own term.
pub commit_rule :
    (n m : Node)
    → advance_commit n ≡ ok m
    → (m.commit_index ≡ n.commit_index)
      ⊎ (MayCommit (own_match n) m.commit_index × (m.commit_index ≤ last_index n.log))
commit_rule n m q = elim (Bool-cases (is_leader n)) [
  | inl leads ↦ let (found, s, r) = advance_commit-leader n leads q in found-MayCommit n found s r
  | inr follows ↦ inl (ap (λ (x : Node). x.commit_index) (advance_commit-other n follows q))
]
