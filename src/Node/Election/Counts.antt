-- ===== src/Node/Election/Counts.antt =====
-- What a node makes of replies (rsm/node.py, `_on_vote`, `_on_pre_vote`, `_on_appended`,
-- `_on_installed`), as turns.
use replicated_state_machine.Prelude.{
  ℕ, ◌≡◌, refl, true, not, ◌&&◌, ◌||◌, some, List, [], length, elem, add, All, arith, Bool-cases,
  inl, inr, if◌then◌else◌, subst, sym, leb, leb→le, get, insert,
}
use replicated_state_machine.Errors.{Result, ok, >>=-inv, ok-injective}
use replicated_state_machine.Log.{last_index, no_index}
use replicated_state_machine.Rpc.{Message, Vote, Appended, Installed}
use replicated_state_machine.Node.State.{Node, candidate, quorum, is_leader}
use replicated_state_machine.Node.Replicate.{replicate}
use replicated_state_machine.Node.Commit.{advance_commit}
use replicated_state_machine.Node.Roles.{Output}
use replicated_state_machine.Node.Leader.{
  is_candidate, is_follower, is_nil, on_pre_vote, on_vote, record_match, retry_from, send_to,
  on_appended, on_installed,
}
use replicated_state_machine.Node.Frame.{advance_commit-frame}
use replicated_state_machine.Node.Election.Turn.{
  Outgoing, Turn, Turn-same, Turn-trans, Ballots, Backed, Backed-same, add-Ballots,
  replicate-Outgoing,
}
use replicated_state_machine.Node.Election.Moves.{
  become_leader-Turn, become_leader-Backed, become_candidate-Turn, become_candidate-Backed,
}

send_to-frame :
    (n : Node) (sender : ℕ) {o : Output}
    → send_to n sender ≡ ok o
    → (o.0 ≡ n) × All (Outgoing n) o.1
send_to-frame n sender q =
    let (ms, r, s) = >>=-inv (replicate n (some sender)) _ q in
    subst (λ (x : Output). (x.0 ≡ n) × All (Outgoing n) x.1) (ok-injective s)
      (refl, replicate-Outgoing n (some sender) r)

-- The election state of a node: what `_on_appended` and `_on_installed` leave alone.
abbrev pub SameOffice : Node → Node → Type 0
SameOffice n m =
    (m.name ≡ n.name)
    × (m.members ≡ n.members)
    × (m.term ≡ n.term)
    × (m.voted_for ≡ n.voted_for)
    × (m.role ≡ n.role)
    × (m.votes ≡ n.votes)

send_to-SameOffice :
    (n m : Node) (sender : ℕ) {o : Output}
    → SameOffice n m
    → send_to m sender ≡ ok o
    → SameOffice n o.0 × All (Outgoing o.0) o.1
send_to-SameOffice n m sender {o} h q =
    let (e, out) = send_to-frame m sender q in
    (subst (SameOffice n) (sym e) h, subst (λ x. All (Outgoing x) o.1) (sym e) out)

pub on_installed-SameOffice :
    (n : Node) (sender : ℕ) (m : Installed) {o : Output}
    → on_installed n sender m ≡ ok o
    → SameOffice n o.0 × All (Outgoing o.0) o.1
unfolding on_installed record_match
on_installed-SameOffice n sender m q = elim (Bool-cases (is_leader n)) [
  | inl h ↦
      let (a, r, s) =
        >>=-inv (advance_commit (record_match n sender m.last_index)) (λ x. send_to x sender)
          (rw h at q) in
      let f = advance_commit-frame (record_match n sender m.last_index) r in
      send_to-SameOffice n a sender (ground arith) s
  | inr h ↦
      subst (λ (x : Output). SameOffice n x.0 × All (Outgoing x.0) x.1) (ok-injective (rw h at q))
        ((refl, refl, refl, refl, refl, refl), tt)
]

-- An office is kept when nothing is done.
nothing-SameOffice :
    (n : Node) {o : Output}
    → ◌≡◌ {A = Result Output} (ok (n, [])) (ok o)
    → SameOffice n o.0 × All (Outgoing o.0) o.1
nothing-SameOffice n q =
    subst (λ (x : Output). SameOffice n x.0 × All (Outgoing x.0) x.1) (ok-injective q)
      ((refl, refl, refl, refl, refl, refl), tt)

-- the two branches of `_on_appended` for a leader
appended_success-SameOffice :
    (n a : Node) (sender : ℕ) {o : Output}
    → SameOffice n a
    → (if leb (get sender no_index a.next_index) (last_index a.log)
        then send_to a sender
        else ok (a, []))
      ≡ ok o
    → SameOffice n o.0 × All (Outgoing o.0) o.1
appended_success-SameOffice n a sender {o} h q =
    elim (Bool-cases (leb (get sender no_index a.next_index) (last_index a.log))) [
      | inl k ↦ send_to-SameOffice n a sender h (rw k at q)
      | inr k ↦
          subst (λ (x : Output). SameOffice n x.0 × All (Outgoing x.0) x.1)
            (ok-injective (rw k at q)) (h, tt)
    ]

pub on_appended-SameOffice :
    (n : Node) (sender : ℕ) (m : Appended) {o : Output}
    → on_appended n sender m ≡ ok o
    → SameOffice n o.0 × All (Outgoing o.0) o.1
unfolding on_appended record_match
on_appended-SameOffice n sender m q = elim (Bool-cases (is_leader n)) [
  | inr h ↦ nothing-SameOffice n (rw h at q)
  | inl h ↦ elim (Bool-cases m.success) [
    | inl k ↦
        let (a, r, s) =
          >>=-inv (advance_commit (record_match n sender m.match_index)) _ (simp (h, k) at q) in
        let f = advance_commit-frame (record_match n sender m.match_index) r in
        appended_success-SameOffice n a sender (ground arith) s
    | inr k ↦
        let (retry, r, s) = >>=-inv (retry_from n m) _ (simp (h, k) at q) in
        send_to-SameOffice n (record n { next_index = insert sender retry n.next_index }) sender
          (refl, refl, refl, refl, refl, refl) s
  ]
]

pub SameOffice-Turn :
    {n m : Node} {out : List Message} → SameOffice n m × All (Outgoing m) out → Turn n m out
SameOffice-Turn ((a, b, c, d, _, _), s) = Turn-same a b c d s

pub SameOffice-Backed : (B : ℕ → ℕ → Type 0) {n m : Node} → SameOffice n m → Backed B n → Backed B m
SameOffice-Backed B (a, b, c, d, e, f) h = Backed-same B e b c f h

pub on_pre_vote-Turn :
    (n : Node) (sender : ℕ) (m : Vote) {o : Output} → on_pre_vote n sender m ≡ ok o → Turn n o.0 o.1
unfolding on_pre_vote
on_pre_vote-Turn n sender m q =
    elim (Bool-cases (not (is_follower n) || not m.granted || is_nil n.pre_votes)) [
      | inl h ↦ SameOffice-Turn (nothing-SameOffice n (rw h at q))
      | inr h ↦
          let counted : Node = record n { pre_votes = add sender n.pre_votes } in
          let same : Turn n counted [] = Turn-same refl refl refl refl tt in
          elim (Bool-cases (leb (quorum n) (length counted.pre_votes))) [
            | inl k ↦ Turn-trans same (become_candidate-Turn counted (rw (h, k) at q))
            | inr k ↦ subst (λ (x : Output). Turn n x.0 x.1) (ok-injective (rw (h, k) at q)) same
          ]
    ]

pub on_pre_vote-Backed :
    (B : ℕ → ℕ → Type 0) (n : Node) (sender : ℕ) (m : Vote) {o : Output}
    → elem n.name n.members ≡ true
    → (o.0.voted_for ≡ some n.name → B n.name o.0.term)
    → Backed B n
    → on_pre_vote n sender m ≡ ok o
    → Backed B o.0
unfolding on_pre_vote
on_pre_vote-Backed B n sender m e self h q =
    elim (Bool-cases (not (is_follower n) || not m.granted || is_nil n.pre_votes)) [
      | inl j ↦ SameOffice-Backed B (nothing-SameOffice n (rw j at q)).0 h
      | inr j ↦
          let counted : Node = record n { pre_votes = add sender n.pre_votes } in
          elim (Bool-cases (leb (quorum n) (length counted.pre_votes))) [
            | inl k ↦ become_candidate-Backed B counted e self (rw (j, k) at q)
            | inr k ↦
                subst (λ (x : Output). Backed B x.0) (ok-injective (rw (j, k) at q))
                  (Backed-same B {n = n} {n' = counted} refl refl refl refl h)
          ]
    ]

pub on_vote-Turn :
    (n : Node) (sender : ℕ) (m : Vote) {o : Output} → on_vote n sender m ≡ ok o → Turn n o.0 o.1
unfolding on_vote
on_vote-Turn n sender m q = elim (Bool-cases m.pre_vote) [
  | inl p ↦ on_pre_vote-Turn n sender m (simp p at q)
  | inr p ↦ elim (Bool-cases (not (is_candidate n) || not m.granted)) [
    | inl h ↦ SameOffice-Turn (nothing-SameOffice n (rw (p, h) at q))
    | inr h ↦
        let counted : Node = record n { votes = add sender n.votes } in
        let same : Turn n counted [] = Turn-same refl refl refl refl tt in
        elim (Bool-cases (leb (quorum n) (length counted.votes))) [
          | inl k ↦ Turn-trans same (become_leader-Turn counted (rw (p, h, k) at q))
          | inr k ↦ subst (λ (x : Output). Turn n x.0 x.1) (ok-injective (rw (p, h, k) at q)) same
        ]
  ]
]

-- The votes of a candidate, with one more that was given to it.
counted-Ballots :
    (B : ℕ → ℕ → Type 0) (n : Node) (sender : ℕ)
    → n.role ≡ candidate
    → elem sender n.members ≡ true
    → B sender n.term
    → Backed B n
    → Ballots B n.members n.term (add sender n.votes)
counted-Ballots B n sender c e b h =
    add-Ballots B n.members n.term sender n.votes e b (h.standing c)

pub on_vote-Backed :
    (B : ℕ → ℕ → Type 0) (n : Node) (sender : ℕ) (m : Vote) {o : Output}
    → elem n.name n.members ≡ true
    → (o.0.voted_for ≡ some n.name → B n.name o.0.term)
    → (m.granted && not m.pre_vote ≡ true → (elem sender n.members ≡ true) × B sender n.term)
    → Backed B n
    → on_vote n sender m ≡ ok o
    → Backed B o.0
unfolding on_vote quorum
on_vote-Backed B n sender m {o} e self given h q = elim (Bool-cases m.pre_vote) [
  | inl p ↦ on_pre_vote-Backed B n sender m e self h (simp p at q)
  | inr p ↦ elim (Bool-cases (not (is_candidate n) || not m.granted)) [
    | inl j ↦ SameOffice-Backed B (nothing-SameOffice n (rw (p, j) at q)).0 h
    | inr j ↦
        let c : n.role ≡ candidate = ground arith in
        let (v, b) = given (ground arith) in
        let counted : Node = record n { votes = add sender n.votes } in
        let ballots = counted-Ballots B n sender c v b h in
        elim (Bool-cases (leb (quorum n) (length counted.votes))) [
          | inl k ↦
              become_leader-Backed B counted counted.votes ballots (leb→le _ _ k)
                (rw (p, j, k) at q)
          | inr k ↦
              subst (λ (x : Output). Backed B x.0) (ok-injective (rw (p, j, k) at q))
                (record { standing = λ _. ballots; leading = λ l. absurd (cc) })
        ]
  ]
]
