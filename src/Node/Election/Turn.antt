-- ===== src/Node/Election/Turn.antt =====
-- The predicates on one step of a node: `Turn` relates the node before to the node and the
-- messages after, and `Backed` says that votes stand behind a candidate and a leader.
use replicated_state_machine.Prelude.{
  ℕ, ◌≤◌, ◌≡◌, refl, Bool, true, false, not, ◌&&◌, Option, some, none, subst, sym, ◌∙◌, List, [],
  ◌∷◌, map, length, elem, add, All, arith, Bool-cases, inl, inr,
}
use replicated_state_machine.Errors.{ok, ◌>>=◌, >>=-inv, ok-injective}
use replicated_state_machine.Rpc.{Message, Body, vote}
use replicated_state_machine.Node.State.{Node, candidate, leader, follower, distinct, quorum, peers}
use replicated_state_machine.Node.Replicate.{replicate_one, replicate_to, replicate}
use replicated_state_machine.Node.Roles.{vote_request}

-- A reply that gives a vote in a real election.
abbrev pub grants : Body → Bool
grants (vote v) = v.granted && not v.pre_vote
grants _ = false

-- A message of the node `n`: it names `n` as its sender, and a vote that it gives is the vote
-- that `n` has recorded for its term.
pub record Outgoing (n : Node) (m : Message) : Type 0 where
  pub own : m.sender ≡ n.name
  pub honest : grants m.body ≡ true → (m.term ≡ n.term) × (n.voted_for ≡ some m.recipient)

pub record Turn (n n' : Node) (out : List Message) : Type 0 where
  pub same_name : n'.name ≡ n.name
  pub same_members : n'.members ≡ n.members
  pub term_grows : n.term ≤ n'.term
  pub keeps_vote : n'.term ≡ n.term → (v : ℕ) → n.voted_for ≡ some v → n'.voted_for ≡ some v
  pub sends : All (Outgoing n') out

-- Every one of `names` is a member that voted in the term, and none is counted twice.
abbrev pub Ballots : (ℕ → ℕ → Type 0) → List ℕ → ℕ → List ℕ → Type 0
Ballots B members term names =
    (distinct names ≡ true) × All (λ v. (elem v members ≡ true) × B v term) names

-- `B v t` says that `v` voted for `n` in the term `t`.
pub record Backed (B : ℕ → ℕ → Type 0) (n : Node) : Type 0 where
  pub standing : n.role ≡ candidate → Ballots B n.members n.term n.votes
  pub leading :
      n.role ≡ leader
      → (names : List ℕ) × Ballots B n.members n.term names × (quorum n ≤ length names)

pub add-Ballots :
    (B : ℕ → ℕ → Type 0) (members : List ℕ) (term : ℕ) (v : ℕ) (names : List ℕ)
    → elem v members ≡ true
    → B v term
    → Ballots B members term names
    → Ballots B members term (add v names)
add-Ballots B members term v names e b h = elim (Bool-cases (elem v names)) [
  | inl old ↦ rw old h
  | inr new ↦ rw new (ground arith, ((e, b), h.1))
]

-- The messages of `replicate` are no votes.
replicate_one-Outgoing :
    (n : Node) (one : ℕ) {m : Message} → replicate_one n one ≡ ok m → Outgoing n m
unfolding replicate_one
replicate_one-Outgoing n one q = record { own = ground arith; honest = λ g. ground arith }

replicate_to-Outgoing :
    (n : Node) (names : List ℕ) {out : List Message}
    → replicate_to n names ≡ ok out
    → All (Outgoing n) out
unfolding replicate_to
replicate_to-Outgoing n [] q = subst (All (Outgoing n)) (ok-injective q) tt
replicate_to-Outgoing n (one ∷ names) {out} q =
    let (m, r, s) =
      >>=-inv (replicate_one n one) (λ x. replicate_to n names >>= λ xs. ok (x ∷ xs)) q in
    let (ms, t, u) = >>=-inv (replicate_to n names) (λ xs. ok (m ∷ xs)) s in
    subst (All (Outgoing n)) (ok-injective u)
      (replicate_one-Outgoing n one r, replicate_to-Outgoing n names t)

pub replicate-Outgoing :
    (n : Node) (to : Option ℕ) {out : List Message} → replicate n to ≡ ok out → All (Outgoing n) out
unfolding replicate
replicate-Outgoing n none q = replicate_to-Outgoing n (peers n) q
replicate-Outgoing n (some to) q = replicate_to-Outgoing n (to ∷ []) q

-- Nor are the requests for votes.
pub vote_request-Outgoing :
    (n : Node) (term : ℕ) (pre : Bool) (names : List ℕ)
    → All (Outgoing n) (map (vote_request n term pre) names)
vote_request-Outgoing n term pre [] = tt
vote_request-Outgoing n term pre (one ∷ names) =
    (record { own = refl; honest = λ g. cc }, vote_request-Outgoing n term pre names)

-- Two turns in a row, the first of which sends nothing.
pub Turn-trans :
    {n n' n'' : Node} {out : List Message} → Turn n n' [] → Turn n' n'' out → Turn n n'' out
Turn-trans a b = record {
  same_name = b.same_name ∙ a.same_name;
  same_members = b.same_members ∙ a.same_members;
  term_grows = omega arith;
  keeps_vote = λ e v h.
      b.keeps_vote (omega (arith, a.term_grows, b.term_grows)) v
        (a.keeps_vote (omega (arith, a.term_grows, b.term_grows)) v h);
  sends = b.sends;
}

-- A turn that leaves name, members, term and vote alone.
pub Turn-same :
    {n n' : Node} {out : List Message}
    → n'.name ≡ n.name
    → n'.members ≡ n.members
    → n'.term ≡ n.term
    → n'.voted_for ≡ n.voted_for
    → All (Outgoing n') out
    → Turn n n' out
Turn-same a b c d s = record {
  same_name = a;
  same_members = b;
  term_grows = omega arith;
  keeps_vote = λ e v h. d ∙ h;
  sends = s;
}

module _ (B : ℕ → ℕ → Type 0) where
  -- A node that keeps its office and its votes is still backed.
  pub Backed-same :
      {n n' : Node}
      → n'.role ≡ n.role
      → n'.members ≡ n.members
      → n'.term ≡ n.term
      → n'.votes ≡ n.votes
      → Backed B n
      → Backed B n'
  unfolding quorum
  Backed-same {n} {n'} a b c d h = record {
    standing = λ e. rw (b, c, d) (h.standing (sym a ∙ e));
    leading = λ e. let (names, k, q) = h.leading (sym a ∙ e) in (names, rw (b, c) k, rw b q);
  }

  pub Backed-follower : {n : Node} → n.role ≡ follower → Backed B n
  Backed-follower h = record { standing = λ e. cc; leading = λ e. absurd (cc) }
