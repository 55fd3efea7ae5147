-- ===== src/Node/Election/Ticks.antt =====
-- The clock and the client of a node (rsm/node.py, `tick` and `propose`), as turns.
use replicated_state_machine.Prelude.{
  ℕ, ◌+◌, ◌≡◌, refl, true, some, none, Option, [], elem, Bool-cases, inl, inr, subst, ◌&&◌, ltb,
  leb, length, arith, All,
}
use replicated_state_machine.Errors.{ok, >>=-inv, ok-injective}
use replicated_state_machine.Log.{Command}
use replicated_state_machine.Node.State.{Node, is_leader, heartbeat_interval}
use replicated_state_machine.Node.Replicate.{replicate}
use replicated_state_machine.Node.Roles.{
  Output, become_pre_candidate, stand, heartbeat, tick, propose, write_own, commit_alone,
}
use replicated_state_machine.Node.Frame.{write_own-frame, commit_alone-frame}
use replicated_state_machine.Node.Election.Turn.{
  Outgoing, Turn, Turn-same, Turn-trans, Backed, Backed-same, replicate-Outgoing,
}
use replicated_state_machine.Node.Election.Moves.{
  become_pre_candidate-Turn, become_candidate-Turn, become_candidate-Backed,
}
use replicated_state_machine.Node.Election.Counts.{SameOffice, SameOffice-Turn, SameOffice-Backed}

stand-Turn : (n : Node) {o : Output} → stand n ≡ ok o → Turn n o.0 o.1
unfolding stand
stand-Turn n q = elim (Bool-cases (n.pre_vote && ltb 1 (length n.members))) [
  | inl p ↦
      subst (λ (x : Output). Turn n x.0 x.1) (ok-injective (rw p at q))
        (become_pre_candidate-Turn n)
  | inr p ↦ become_candidate-Turn n (rw p at q)
]

heartbeat-SameOffice :
    (n : Node) (now : ℕ) {o : Output}
    → heartbeat n now ≡ ok o
    → SameOffice n o.0 × All (Outgoing o.0) o.1
heartbeat-SameOffice n now q = elim (Bool-cases (leb n.heartbeat_due now)) [
  | inl p ↦
      let beaten : Node = record n { heartbeat_due = now + heartbeat_interval } in
      let (ms, r, s) = >>=-inv (replicate beaten none) _ (rw p at q) in
      subst (λ (x : Output). SameOffice n x.0 × All (Outgoing x.0) x.1) (ok-injective s)
        ((refl, refl, refl, refl, refl, refl), replicate-Outgoing beaten none r)
  | inr p ↦
      subst (λ (x : Output). SameOffice n x.0 × All (Outgoing x.0) x.1) (ok-injective (rw p at q))
        ((refl, refl, refl, refl, refl, refl), tt)
]

-- A tick of the clock keeps the name and the cluster of a node, does not lower its term, does not
-- change its vote within a term, and sends out no vote.
pub tick-Turn : (n : Node) (now : ℕ) {o : Output} → tick n now ≡ ok o → Turn n o.0 o.1
unfolding tick
tick-Turn n now q =
    let later : Node = record n { now = now } in
    let same : Turn n later [] = Turn-same refl refl refl refl tt in
    elim (Bool-cases (is_leader n)) [
      | inl h ↦ Turn-trans same (SameOffice-Turn (heartbeat-SameOffice later now (rw h at q)))
      | inr h ↦ elim (Bool-cases (leb n.election_deadline now)) [
        | inl p ↦ Turn-trans same (stand-Turn later (rw (h, p) at q))
        | inr p ↦ subst (λ (x : Output). Turn n x.0 x.1) (ok-injective (rw (h, p) at q)) same
      ]
    ]

-- A proposal changes nothing that an election reads but the log.
pub propose-SameOffice :
    (n : Node) (command : Option Command) {m : Node} {index : ℕ}
    → propose n command ≡ ok (m, index)
    → SameOffice n m
unfolding propose
propose-SameOffice n command {m} {index} q = elim (Bool-cases (is_leader n)) [
  | inr h ↦ ground arith
  | inl h ↦
      let (w, r, s) = >>=-inv (write_own n command) _ (rw h at q) in
      let (c, t, u) = >>=-inv (commit_alone w) _ s in
      let f = write_own-frame n command r in let g = commit_alone-frame w t in ground arith
]

module _ (B : ℕ → ℕ → Type 0) (n : Node) (e : elem n.name n.members ≡ true) (h : Backed B n) where
  stand-Backed :
      {o : Output}
      → (o.0.voted_for ≡ some n.name → B n.name o.0.term)
      → stand n ≡ ok o
      → Backed B o.0
  unfolding stand become_pre_candidate
  stand-Backed {o} self q = elim (Bool-cases (n.pre_vote && ltb 1 (length n.members))) [
    | inl p ↦
        subst (λ (x : Output). Backed B x.0) (ok-injective (rw p at q))
          (Backed-same B refl refl refl refl h)
    | inr p ↦ become_candidate-Backed B n e self (rw p at q)
  ]

module _ (B : ℕ → ℕ → Type 0) (n : Node) (e : elem n.name n.members ≡ true) (h : Backed B n) where
  -- A tick keeps candidates and leaders backed by ballots.
  pub tick-Backed :
      (now : ℕ) {o : Output}
      → (o.0.voted_for ≡ some n.name → B n.name o.0.term)
      → tick n now ≡ ok o
      → Backed B o.0
  unfolding tick
  tick-Backed now self q =
      let later : Node = record n { now = now } in
      let k : Backed B later = Backed-same B refl refl refl refl h in
      elim (Bool-cases (is_leader n)) [
        | inl l ↦ SameOffice-Backed B (heartbeat-SameOffice later now (rw l at q)).0 k
        | inr l ↦ elim (Bool-cases (leb n.election_deadline now)) [
          | inl p ↦ stand-Backed B later e k self (rw (l, p) at q)
          | inr p ↦ subst (λ (x : Output). Backed B x.0) (ok-injective (rw (l, p) at q)) k
        ]
      ]
