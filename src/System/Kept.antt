-- ===== src/System/Kept.antt =====
-- Every step of a system keeps the invariant on votes.
use replicated_state_machine.Prelude.{
  ℕ, ◌<◌, ◌≡◌, refl, sym, ap, ◌∙◌, subst, inl, inr, Bool, true, false, some, none, List, [], ◌∷◌,
  elem, ◌==◌, All, arith, Bool-cases, ==→eq, All-append, All-In,
}
use replicated_state_machine.Errors.{ok}
use replicated_state_machine.Rpc.{Message}
use replicated_state_machine.Node.State.{Node, follower, Generator, new_node}
use replicated_state_machine.Node.Election.Turn.{
  grants, Outgoing, Turn, Turn-same, Backed, Backed-follower, replicate-Outgoing,
}
use replicated_state_machine.Node.Election.Counts.{SameOffice-Turn, SameOffice-Backed}
use replicated_state_machine.Cluster.Restart.{restart_node}
use replicated_state_machine.Log.{new_log}
use replicated_state_machine.Node.Election.Steps.{step-Turn, step-Backed}
use replicated_state_machine.Node.Election.Ticks.{tick-Turn, tick-Backed, propose-SameOffice}
use replicated_state_machine.System.{
  System, after, Step, deliver, pass, write, restart, Starts, Reach, start, later,
}
use replicated_state_machine.System.Invariant.{
  History, VotedFor, Inv, noted, noted-grows, noted-now, noted-past, noted-other, Backed-mono,
}

pub All-map :
    {A : Type 0} {P Q : A → Type 0} (xs : List A) → ((x : A) → P x → Q x) → All P xs → All Q xs
All-map [] f h = tt
All-map (x ∷ xs) f h = (f x h.0, All-map xs f h.1)

module _ (members : List ℕ) (history : History) (s : System) (inv : Inv members history s) (i : ℕ)
    (n' : Node) (out : List Message) (member : elem i members ≡ true)
    (turn : Turn (s.nodes i) n' out) where
  abbrev history' : History
  history' = noted history i n'

  abbrev s' : System
  s' = after s i (n', out)

  grows : (v t c : ℕ) → history v t ≡ some c → history' v t ≡ some c
  grows = noted-grows history i (s.nodes i) n' turn (inv.vote i member) (λ t. inv.future i t member)

  n'_name : n'.name ≡ i
  n'_name = turn.same_name ∙ inv.name i member

  -- A fact about every node holds after the move if it holds of the others and of the new node.
  at_each :
      (P : ℕ → Node → Type 0)
      → P i n'
      → ((j : ℕ) → (j == i) ≡ false → elem j members ≡ true → P j (s.nodes j))
      → (j : ℕ) → elem j members ≡ true
      → P j (s'.nodes j)
  at_each P new old j e = elim (Bool-cases (j == i)) [
    | inl me ↦ rw me (subst (λ x. P x n') (sym (==→eq j i me)) new)
    | inr other ↦ rw other (old j other e)
  ]

  sent_honest :
      (m : Message)
      → Outgoing n' m
      → grants m.body ≡ true
      → history' m.sender m.term ≡ some m.recipient
  sent_honest m o g =
      let (t, v) = o.honest g in
      let at : m.sender ≡ i = o.own ∙ n'_name in rw (at, t) (noted-now history i n' ∙ v)

  -- The recorded votes back the node, once they back it together with its own vote.
  pub after-Inv : Backed (VotedFor history' i) n' → Inv members history' s'
  after-Inv b = record {
    name = at_each (λ j n. n.name ≡ j) n'_name (λ j _ e. inv.name j e);
    cluster =
        at_each (λ j n. n.members ≡ members) (turn.same_members ∙ inv.cluster i member)
          (λ j _ e. inv.cluster j e);
    vote =
        at_each (λ j n. history' j n.term ≡ n.voted_for) (noted-now history i n')
          (λ j other e. noted-other history i n' j (s.nodes j).term other ∙ inv.vote j e);
    future = λ j t e.
        at_each (λ j n. n.term < t → history' j t ≡ none)
          (λ lt.
            noted-past history i n' t (ground arith)
            ∙ inv.future i t member (omega (arith, turn.term_grows)))
          (λ j other e lt. noted-other history i n' j t other ∙ inv.future j t e lt) j e;
    from_members =
        All-append _ s.sent out inv.from_members
          (All-map out (λ m o. rw (o.own ∙ n'_name) member) turn.sends);
    granted =
        All-append _ s.sent out
          (All-map s.sent (λ m h g. grows m.sender m.term m.recipient (h g)) inv.granted)
          (All-map out sent_honest turn.sends);
    backed =
        at_each (λ j n. Backed (VotedFor history' j) n) b
          (λ j _ e.
            Backed-mono (VotedFor history j) (VotedFor history' j) (s.nodes j) (λ v t. grows v t j)
              (inv.backed j e));
  }

pub restart_node-frame :
    (old : Node) (name now : ℕ) (members : List ℕ) (random : Generator) (pre_vote : Bool) {n : Node}
    → restart_node old name members random pre_vote now ≡ ok n
    → (n.name ≡ name)
      × (n.members ≡ members)
      × (n.term ≡ old.term)
      × (n.voted_for ≡ old.voted_for)
      × (n.role ≡ follower)
unfolding restart_node new_node new_log
restart_node-frame old name now members random pre_vote q = ground arith

module _ (members : List ℕ) (history : History) (s : System) (inv : Inv members history s) where
  self_in : (i : ℕ) → elem i members ≡ true → elem (s.nodes i).name (s.nodes i).members ≡ true
  self_in i e = rw (inv.name i e, inv.cluster i e) e

  own_vote :
      (i : ℕ) (n' : Node)
      → elem i members ≡ true
      → n'.voted_for ≡ some (s.nodes i).name
      → VotedFor (noted history i n') i (s.nodes i).name n'.term
  own_vote i n' e v = rw (inv.name i e) (noted-now history i n' ∙ v ∙ ap some (inv.name i e))

  votes_before :
      (i : ℕ) (n' : Node) {out : List Message}
      → elem i members ≡ true
      → Turn (s.nodes i) n' out
      → Backed (VotedFor (noted history i n') i) (s.nodes i)
  votes_before i n' {out} e turn =
      Backed-mono (VotedFor history i) (VotedFor (noted history i n') i) (s.nodes i)
        (λ v t. grows members history s inv i n' out e turn v t i) (inv.backed i e)

  -- The record after a step, which has every vote of the record before it.
  pub Step-Inv :
      {t : System}
      → Step members s t
      → (history' : History) × Inv members history' t
        × ((v term c : ℕ) → history v term ≡ some c → history' v term ≡ some c)
  Step-Inv (deliver m {o} sent e q) =
      let i = m.recipient in
      let turn = step-Turn (s.nodes i) m q in
      (
        noted history i o.0,
        after-Inv members history s inv i o.0 o.1 e turn (
            step-Backed (VotedFor (noted history i o.0) i) (s.nodes i) m (self_in i e)
              (λ g. (
                rw (inv.cluster i e) (All-In _ s.sent inv.from_members sent),
                grows members history s inv i o.0 o.1 e turn m.sender m.term i
                    (All-In _ s.sent inv.granted sent g),
              ))
              (votes_before i o.0 e turn) (own_vote i o.0 e) q),
        grows members history s inv i o.0 o.1 e turn,
      )
  Step-Inv (pass i now {o} e q) =
      let turn = tick-Turn (s.nodes i) now q in
      (
        noted history i o.0,
        after-Inv members history s inv i o.0 o.1 e turn (
            tick-Backed (VotedFor (noted history i o.0) i) (s.nodes i) (self_in i e)
              (votes_before i o.0 e turn) now (own_vote i o.0 e) q),
        grows members history s inv i o.0 o.1 e turn,
      )
  Step-Inv (write i command {n} {index} {out} e q r) =
      let same = propose-SameOffice (s.nodes i) command q in
      let turn : Turn (s.nodes i) n out = SameOffice-Turn (same, replicate-Outgoing n none r) in
      (
        noted history i n,
        after-Inv members history s inv i n out e turn
            (SameOffice-Backed (VotedFor (noted history i n) i) same (votes_before i n e turn)),
        grows members history s inv i n out e turn,
      )
  Step-Inv (restart i now random pre_vote {n} e q) =
      let (a, b, c, d, f) = restart_node-frame (s.nodes i) i now members random pre_vote q in
      let turn : Turn (s.nodes i) n [] =
        Turn-same (a ∙ sym (inv.name i e)) (b ∙ sym (inv.cluster i e)) c d tt in
      (
        noted history i n,
        after-Inv members history s inv i n [] e turn
            (Backed-follower (VotedFor (noted history i n) i) f),
        grows members history s inv i n [] e turn,
      )

pub new_node-frame :
    (name : ℕ) (members : List ℕ) (random : Generator) (pre_vote any_term : Bool) {n : Node}
    → new_node name members random pre_vote any_term ≡ ok n
    → (n.name ≡ name) × (n.members ≡ members) × (n.voted_for ≡ none) × (n.role ≡ follower)
unfolding new_node
new_node-frame name members random pre_vote any_term q = ground arith

pub Starts-Inv : (members : List ℕ) (s : System) → Starts members s → Inv members (λ _ _. none) s
Starts-Inv members s h = record {
  name = λ i e. (fresh i e).0;
  cluster = λ i e. (fresh i e).1;
  vote = λ i e. sym (fresh i e).2;
  future = λ i t e lt. refl;
  from_members = rw h.silent tt;
  granted = rw h.silent tt;
  backed = λ i e. Backed-follower _ (fresh i e).3;
}
  where
    fresh :
        (i : ℕ)
        → elem i members ≡ true
        → ((s.nodes i).name ≡ i)
          × ((s.nodes i).members ≡ members)
          × ((s.nodes i).voted_for ≡ none)
          × ((s.nodes i).role ≡ follower)
    fresh i e =
        let (random, pre_vote, any_term, q) = h.made i e in
        new_node-frame i members random pre_vote any_term q

-- Every system that can be reached has a record of votes that explains it.
pub Reach-Inv :
    {members : List ℕ} {s : System} → Reach members s → (history : History) × Inv members history s
Reach-Inv {members} {s} (start h) = ((λ _ _. none), Starts-Inv members s h)
Reach-Inv {members} (later {s} r st) =
    let (history, inv) = Reach-Inv r in
    let (history', inv', _) = Step-Inv members history s inv st in (history', inv')
