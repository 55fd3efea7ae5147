-- ===== src/Node/Election/Steps.antt =====
-- Every entry point of a node (rsm/node.py, `step`, `tick`, `propose`) is a turn, and keeps
-- candidates and leaders backed by votes.
use replicated_state_machine.Prelude.{
  ℕ, ◌<◌, ◌≡◌, refl, ap, true, some, none, [], elem, arith, Bool-cases, inl, inr, if◌then◌else◌,
  subst, sym, ◌∙◌,
}
use replicated_state_machine.Errors.{ok, ok-injective}
use replicated_state_machine.Rpc.{
  Message, Body, request_vote, vote, append, appended, install_snapshot, installed, TermState,
  stale, current, ahead, term_check,
}
use replicated_state_machine.Node.State.{Node, become_follower}
use replicated_state_machine.Node.Roles.{Output}
use replicated_state_machine.Node.Step.{asking, handle, step_at, step}
use replicated_state_machine.Node.Election.Turn.{
  grants, Turn, Turn-same, Turn-trans, Backed, Backed-follower,
}
use replicated_state_machine.Node.Election.Answers.{
  refuse-Outgoing, on_request_vote-Turn, on_request_vote-Backed, on_install-Turn, on_install-Backed,
  become_follower-Turn, on_append-Turn,
}
use replicated_state_machine.Node.Election.Counts.{
  SameOffice-Turn, SameOffice-Backed, on_appended-SameOffice, on_installed-SameOffice, on_vote-Turn,
  on_vote-Backed,
}

handle-Turn :
    (n : Node) (sender term : ℕ) (b : Body) {o : Output}
    → handle n sender term b ≡ ok o
    → Turn n o.0 o.1
unfolding handle
handle-Turn n sender term (request_vote v) q =
    subst (λ (x : Output). Turn n x.0 x.1) (ok-injective q) (on_request_vote-Turn n sender term v)
handle-Turn n sender term (vote v) q = on_vote-Turn n sender v q
handle-Turn n sender term (append a) q = (on_append-Turn n sender term a q).0
handle-Turn n sender term (appended a) q = SameOffice-Turn (on_appended-SameOffice n sender a q)
handle-Turn n sender term (install_snapshot s) q =
    subst (λ (x : Output). Turn n x.0 x.1) (ok-injective q) (on_install-Turn n sender s)
handle-Turn n sender term (installed i) q = SameOffice-Turn (on_installed-SameOffice n sender i q)

-- the node that `step` hands on when the message comes from a later term
abbrev stepped_down : Node → Message → Node
stepped_down n m = if asking m.body then n else become_follower n m.term none

stepped_down-Turn : (n : Node) (m : Message) → Turn n (stepped_down n m) []
stepped_down-Turn n m = elim (Bool-cases (asking m.body)) [
  | inl h ↦ rw h (Turn-same refl refl refl refl tt)
  | inr h ↦ rw h (become_follower-Turn n m.term none)
]

step_at-Turn :
    (s : TermState) (n : Node) (m : Message) {o : Output} → step_at s n m ≡ ok o → Turn n o.0 o.1
unfolding step_at
step_at-Turn stale n m q =
    subst (λ (x : Output). Turn n x.0 x.1) (ok-injective q)
      (Turn-same refl refl refl refl (refuse-Outgoing n m))
step_at-Turn current n m q = handle-Turn n m.sender m.term m.body q
step_at-Turn ahead n m q =
    Turn-trans (stepped_down-Turn n m) (handle-Turn (stepped_down n m) m.sender m.term m.body q)

-- Whatever message a node handles, its name and its cluster stay, its term does not go down, its
-- vote does not change within a term, and every vote that it sends out is the one it recorded.
pub step-Turn : (n : Node) (m : Message) {o : Output} → step n m ≡ ok o → Turn n o.0 o.1
unfolding step
step-Turn n m q = step_at-Turn (term_check n.term m) n m q

asking-grants : (b : Body) → asking b ≡ true → grants b ≡ true → ⊥
asking-grants (request_vote v) a g = cc
asking-grants (vote v) a g = ground arith
asking-grants (append v) a g = cc
asking-grants (appended v) a g = cc
asking-grants (install_snapshot v) a g = cc
asking-grants (installed v) a g = cc

module _ (B : ℕ → ℕ → Type 0) where
  handle-Backed :
      (n : Node) (sender term : ℕ) (b : Body) {o : Output}
      → elem n.name n.members ≡ true
      → (grants b ≡ true → (elem sender n.members ≡ true) × B sender n.term)
      → (o.0.voted_for ≡ some n.name → B n.name o.0.term)
      → Backed B n
      → handle n sender term b ≡ ok o
      → Backed B o.0
  unfolding handle
  handle-Backed n sender term (request_vote v) e given self h q =
      subst (λ (x : Output). Backed B x.0) (ok-injective q)
        (on_request_vote-Backed B n sender term v h)
  handle-Backed n sender term (vote v) e given self h q =
      on_vote-Backed B n sender v e self given h q
  handle-Backed n sender term (append a) e given self h q =
      Backed-follower B (on_append-Turn n sender term a q).1
  handle-Backed n sender term (appended a) e given self h q =
      SameOffice-Backed B (on_appended-SameOffice n sender a q).0 h
  handle-Backed n sender term (install_snapshot s) e given self h q =
      subst (λ (x : Output). Backed B x.0) (ok-injective q) (on_install-Backed B n sender s h)
  handle-Backed n sender term (installed i) e given self h q =
      SameOffice-Backed B (on_installed-SameOffice n sender i q).0 h

  stepped_down-Backed : (n : Node) (m : Message) → Backed B n → Backed B (stepped_down n m)
  unfolding become_follower
  stepped_down-Backed n m h = elim (Bool-cases (asking m.body)) [
    | inl a ↦ rw a h
    | inr a ↦ rw a (Backed-follower B refl)
  ]

  -- A vote in a real election is not a question, so its term has been adopted.
  stepped_down-term :
      (n : Node) (m : Message)
      → grants m.body ≡ true
      → n.term < m.term
      → (stepped_down n m).term ≡ m.term
  unfolding become_follower
  stepped_down-term n m g lt = elim (Bool-cases (asking m.body)) [
    | inl a ↦ absurd (asking-grants m.body a g)
    | inr a ↦ rw a (ground arith)
  ]

  module _ (n : Node) (m : Message) (e : elem n.name n.members ≡ true)
      (given : grants m.body ≡ true → (elem m.sender n.members ≡ true) × B m.sender m.term)
      (h : Backed B n) where
    step_at-Backed :
        (s : TermState) {o : Output}
        → term_check n.term m ≡ s
        → (o.0.voted_for ≡ some n.name → B n.name o.0.term)
        → step_at s n m ≡ ok o
        → Backed B o.0
    unfolding step_at term_check
    step_at-Backed stale r self q = subst (λ (x : Output). Backed B x.0) (ok-injective q) h
    step_at-Backed current r self q =
        let t : m.term ≡ n.term = ground arith in
        handle-Backed n m.sender m.term m.body e
          (λ g. let (v, b) = given g in (v, subst (B m.sender) t b)) self h q
    step_at-Backed ahead r self q =
        let lt : n.term < m.term = ground arith in
        let t = stepped_down-Turn n m in
        handle-Backed (stepped_down n m) m.sender m.term m.body (rw (t.same_name, t.same_members) e)
          (λ g.
            let (v, b) = given g in
            (rw t.same_members v, subst (B m.sender) (sym (stepped_down-term n m g lt)) b))
          (λ w. rw t.same_name (self (w ∙ ap some t.same_name))) (stepped_down-Backed n m h) q

    -- A step keeps candidates and leaders backed by ballots.
    pub step-Backed :
        {o : Output}
        → (o.0.voted_for ≡ some n.name → B n.name o.0.term)
        → step n m ≡ ok o
        → Backed B o.0
    unfolding step
    step-Backed self q = step_at-Backed (term_check n.term m) refl self q
