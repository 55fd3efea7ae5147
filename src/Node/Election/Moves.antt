-- ===== src/Node/Election/Moves.antt =====
-- The moves of a node that change its office (rsm/node.py), as turns.
use replicated_state_machine.Prelude.{
  ℕ, ◌+◌, ◌≤◌, ◌≡◌, refl, true, false, some, none, List, [], ◌∷◌, length, elem, arith, Bool-cases,
  subst, ==→eq, inl, inr, ◌==◌,
}
use replicated_state_machine.Errors.{ok, >>=-inv, ok-injective}
use replicated_state_machine.Node.State.{Node, leader, quorum, peers, heartbeat_interval}
use replicated_state_machine.Node.Replicate.{replicate}
use replicated_state_machine.Node.Roles.{
  Output, become_pre_candidate, write_own, commit_alone, take_office, become_leader,
  start_candidacy, become_candidate,
}
use replicated_state_machine.Node.Frame.{commit_alone-frame, write_own-frame}
use replicated_state_machine.Node.Election.Turn.{
  Turn, Turn-same, Turn-trans, Ballots, Backed, replicate-Outgoing, vote_request-Outgoing,
}

-- the binds of `become_leader`, taken apart
pub become_leader-parts :
    (n : Node) {o : Output}
    → become_leader n ≡ ok o
    → (w : Node) × (write_own (take_office n) none ≡ ok w)
      × (commit_alone (record w { heartbeat_due = n.now + heartbeat_interval }) ≡ ok o.0)
      × (replicate o.0 none ≡ ok o.1)
unfolding become_leader
become_leader-parts n q =
    let (w, r, s) = >>=-inv (write_own (take_office n) none) _ q in
    let (c, t, u) =
      >>=-inv (commit_alone (record w { heartbeat_due = n.now + heartbeat_interval })) _ s in
    let (ms, v, x) = >>=-inv (replicate c none) _ u in ground arith

-- The fields that a new leader has from the node that took office.
pub record Elected (n n' : Node) : Type 0 where
  pub name : n'.name ≡ n.name
  pub members : n'.members ≡ n.members
  pub term : n'.term ≡ n.term
  pub voted_for : n'.voted_for ≡ n.voted_for
  pub role : n'.role ≡ leader

pub become_leader-Elected : (n : Node) {o : Output} → become_leader n ≡ ok o → Elected n o.0
become_leader-Elected n q =
    let (w, r, s, _) = become_leader-parts n q in
    let f = write_own-frame (take_office n) none r in
    let g = commit_alone-frame (record w { heartbeat_due = n.now + heartbeat_interval }) s in
    ground arith

pub become_leader-Turn : (n : Node) {o : Output} → become_leader n ≡ ok o → Turn n o.0 o.1
become_leader-Turn n {o} q =
    let e = become_leader-Elected n q in
    let (_, _, _, r) = become_leader-parts n q in
    Turn-same e.name e.members e.term e.voted_for (replicate-Outgoing o.0 none r)

module _ (B : ℕ → ℕ → Type 0) where
  -- Ballots of a quorum back the leader that they elect.
  pub become_leader-Backed :
      (n : Node) {o : Output} (names : List ℕ)
      → Ballots B n.members n.term names
      → quorum n ≤ length names
      → become_leader n ≡ ok o
      → Backed B o.0
  unfolding quorum
  become_leader-Backed n {o} names b k q =
      let e = become_leader-Elected n q in
      record {
        standing = λ c. absurd (cc);
        leading = λ c. (names, rw (e.members, e.term) b, rw e.members k);
      }

  become_candidate-Elected :
      (n : Node) {o : Output}
      → elem n.name n.members ≡ true
      → length n.members ≡ 1
      → (o.0.voted_for ≡ some n.name → B n.name o.0.term)
      → become_leader (start_candidacy n) ≡ ok o
      → Backed B o.0
  unfolding quorum start_candidacy
  become_candidate-Elected n {o} m one self q =
      let e = become_leader-Elected (start_candidacy n) q in
      become_leader-Backed (start_candidacy n) (n.name ∷ [])
        (refl, ((m, subst (B n.name) e.term (self e.voted_for)), tt)) (rw one (omega arith)) q

  -- A candidate is backed by its own vote, and so is a leader that is alone.
  pub become_candidate-Backed :
      (n : Node) {o : Output}
      → elem n.name n.members ≡ true
      → (o.0.voted_for ≡ some n.name → B n.name o.0.term)
      → become_candidate n ≡ ok o
      → Backed B o.0
  unfolding become_candidate
  become_candidate-Backed n {o} m self q = elim (Bool-cases (length n.members == 1)) [
    | inl h ↦ become_candidate-Elected n m (==→eq (length n.members) 1 h) self (rw h at q)
    | inr h ↦
        subst (λ (x : Output). (x.0.voted_for ≡ some n.name → B n.name x.0.term) → Backed B x.0)
          (ok-injective (rw h at q))
          (λ own. record {
            standing = λ c. (refl, ((m, own refl), tt));
            leading = λ c. absurd (cc);
          })
          self
  ]

start_candidacy-Turn : (n : Node) → Turn n (start_candidacy n) []
unfolding start_candidacy
start_candidacy-Turn n = record {
  same_name = refl;
  same_members = refl;
  term_grows = omega arith;
  keeps_vote = λ e v h. absurd (omega arith);
  sends = tt;
}

pub become_candidate-Turn : (n : Node) {o : Output} → become_candidate n ≡ ok o → Turn n o.0 o.1
unfolding become_candidate
become_candidate-Turn n {o} q = elim (Bool-cases (length n.members == 1)) [
  | inl h ↦ Turn-trans (start_candidacy-Turn n) (become_leader-Turn (start_candidacy n) (rw h at q))
  | inr h ↦
      subst (λ (x : Output). Turn n x.0 x.1) (ok-injective (rw h at q))
        (Turn-trans (start_candidacy-Turn n) (
          Turn-same refl refl refl refl (
            vote_request-Outgoing (start_candidacy n) (start_candidacy n).term false
              (peers (start_candidacy n)))))
]

pub become_pre_candidate-Turn :
    (n : Node) → Turn n (become_pre_candidate n).0 (become_pre_candidate n).1
unfolding become_pre_candidate
become_pre_candidate-Turn n =
    Turn-same refl refl refl refl (vote_request-Outgoing _ (n.term + 1) true (peers n))
