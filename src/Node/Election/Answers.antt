-- ===== src/Node/Election/Answers.antt =====
-- What a node answers (rsm/node.py, `_refuse`, `_on_request_vote`, `_on_append`, `_on_install`),
-- as turns.
use replicated_state_machine.Prelude.{
  ℕ, ◌≡◌, refl, true, Option, [], ◌∷◌, All, arith, Bool-cases, ◌∙◌, ◌&&◌, ltb, min, inl, inr, subst,
}
use replicated_state_machine.Errors.{ok, >>=-inv, ok-injective}
use replicated_state_machine.Log.{matches, Log, is_up_to_date, last_index, no_term, no_index}
use replicated_state_machine.Rpc.{
  Message, RequestVote, Append, InstallSnapshot, Body, request_vote, append, appended,
  append_last_index,
}
use replicated_state_machine.Node.State.{Node, follower, become_follower}
use replicated_state_machine.Node.Roles.{Output}
use replicated_state_machine.Node.Follower.{
  vote_is_free, reply, refuse, on_request_vote, take_entries, conflict, follow_commit, hear_leader,
  accept_append, on_append, on_install,
}
use replicated_state_machine.Node.Frame.{apply_committed-frame}
use replicated_state_machine.Node.Election.Turn.{
  Outgoing, Turn, Turn-same, Turn-trans, Backed, Backed-same,
}

pub refuse-Outgoing : (n : Node) (m : Message) → All (Outgoing n) (refuse n m)
unfolding refuse
refuse-Outgoing n m = go m.body
  where
    go : (b : Body) → All (Outgoing n) (refuse n (record m { body = b }))
    go (request_vote v) = (record { own = refl; honest = λ g. cc }, tt)
    go (append a) = (record { own = refl; honest = λ g. cc }, tt)
    go _ = tt

pub on_request_vote-Turn :
    (n : Node) (sender term : ℕ) (m : RequestVote)
    → let o = on_request_vote n sender term m in Turn n o.0 o.1
unfolding on_request_vote
on_request_vote-Turn n sender term m = elim (Bool-cases m.pre_vote) [
  | inl h ↦
      rw h (Turn-same refl refl refl refl (record { own = refl; honest = λ g. ground arith }, tt))
  | inr h ↦
      elim (Bool-cases
        (vote_is_free n.voted_for sender && is_up_to_date n.log m.last_index m.last_term)) [
          | inl k ↦
              rw (h, k)
                (record {
                  same_name = refl;
                  same_members = refl;
                  term_grows = omega arith;
                  keeps_vote = λ e v q. ground arith;
                  sends = (record { own = refl; honest = λ g. (refl, refl) }, tt);
                })
          | inr k ↦
              rw (h, k)
                (Turn-same refl refl refl refl (record { own = refl; honest = λ g. cc }, tt))
        ]
]

pub on_request_vote-Backed :
    (B : ℕ → ℕ → Type 0) (n : Node) (sender term : ℕ) (m : RequestVote)
    → Backed B n
    → Backed B (on_request_vote n sender term m).0
unfolding on_request_vote
on_request_vote-Backed B n sender term m h =
    Backed-same B (ground arith) (ground arith) (ground arith) (ground arith) h

pub on_install-Turn :
    (n : Node) (sender : ℕ) (m : InstallSnapshot) → let o = on_install n sender m in Turn n o.0 o.1
unfolding on_install
on_install-Turn n sender m =
    Turn-same (ground arith) (ground arith) (ground arith) (ground arith)
      (record { own = refl; honest = λ g. cc }, tt)

pub on_install-Backed :
    (B : ℕ → ℕ → Type 0) (n : Node) (sender : ℕ) (m : InstallSnapshot)
    → Backed B n
    → Backed B (on_install n sender m).0
unfolding on_install
on_install-Backed B n sender m h =
    Backed-same B (ground arith) (ground arith) (ground arith) (ground arith) h

pub become_follower-Turn :
    (n : Node) (term : ℕ) (found : Option ℕ) → Turn n (become_follower n term found) []
unfolding become_follower
become_follower-Turn n term found = record {
  same_name = ground arith;
  same_members = ground arith;
  term_grows = ground arith;
  keeps_vote = λ e v h. ground arith;
  sends = tt;
}

hear_leader-Turn : (n : Node) (sender term : ℕ) → Turn n (hear_leader n sender term) []
unfolding hear_leader
hear_leader-Turn n sender term = record {
  same_name = ground arith;
  same_members = ground arith;
  term_grows = ground arith;
  keeps_vote = λ e v h. ground arith;
  sends = tt;
}

-- Whoever hears a leader is a follower.
pub role-hear_leader : (n : Node) (sender term : ℕ) → (hear_leader n sender term).role ≡ follower
unfolding hear_leader
role-hear_leader n sender term = ground arith

pub follow_commit-frame :
    (n : Node) (commit : ℕ) {m : Node}
    → follow_commit n commit ≡ ok m
    → m ≡ record n {
      commit_index = m.commit_index;
      last_applied = m.last_applied;
      applied = m.applied;
      state = m.state;
    }
follow_commit-frame n commit q = elim (Bool-cases (ltb n.commit_index commit)) [
  | inl h ↦
      let f =
        apply_committed-frame (record n { commit_index = min commit (last_index n.log) })
          (rw h at q) in
      ground arith
  | inr h ↦ ground arith
]

-- What accepting an append changes in a node.
pub accept_append-frame :
    (n : Node) (sender : ℕ) (m : Append) {o : Output}
    → accept_append n sender m ≡ ok o
    → (log : Log) × (take_entries n.log m.entries ≡ ok log)
      × (follow_commit (record n { log = log }) m.commit_index ≡ ok o.0)
      × (o.1
          ≡ reply o.0 sender (
              appended (record {
                success = true;
                match_index = append_last_index m;
                conflict_term = no_term;
                conflict_index = no_index;
                read_id = m.read_id;
              }))
            ∷ [])
unfolding accept_append
accept_append-frame n sender m q =
    let (log, r, s) = >>=-inv (take_entries n.log m.entries) _ q in
    let (a, t, u) = >>=-inv (follow_commit (record n { log = log }) m.commit_index) _ s in
    ground arith

accept_append-Turn :
    (n : Node) (sender : ℕ) (m : Append) {o : Output}
    → accept_append n sender m ≡ ok o
    → Turn n o.0 o.1 × (o.0.role ≡ n.role)
accept_append-Turn n sender m {o} q =
    let (log, r, s, e) = accept_append-frame n sender m q in
    let f = follow_commit-frame (record n { log = log }) m.commit_index s in
    (
      Turn-same (ground arith) (ground arith) (ground arith) (ground arith)
          (rw e (record { own = refl; honest = λ g. cc }, tt)),
      ground arith,
    )

conflict-Outgoing :
    (n : Node) (sender : ℕ) (m : Append) {out : Message}
    → conflict n sender m ≡ ok out
    → Outgoing n out
unfolding conflict
conflict-Outgoing n sender m q = record { own = ground arith; honest = λ g. ground arith }

pub on_append-Turn :
    (n : Node) (sender term : ℕ) (m : Append) {o : Output}
    → on_append n sender term m ≡ ok o
    → Turn n o.0 o.1 × (o.0.role ≡ follower)
unfolding on_append
on_append-Turn n sender term m {o} q =
    let heard = hear_leader n sender term in
    let (b, r, s) = >>=-inv (matches heard.log m.previous_index m.previous_term) _ q in
    elim (Bool-cases b) [
      | inl h ↦
          let (t, e) = accept_append-Turn heard sender m (rw h at s) in
          (Turn-trans (hear_leader-Turn n sender term) t, e ∙ role-hear_leader n sender term)
      | inr h ↦
          let (c, t, u) = >>=-inv (conflict heard sender m) _ (rw h at s) in
          subst (λ (x : Output). Turn n x.0 x.1 × (x.0.role ≡ follower)) (ok-injective u)
            (
              Turn-trans (hear_leader-Turn n sender term)
                  (Turn-same refl refl refl refl (conflict-Outgoing heard sender m t, tt)),
              role-hear_leader n sender term,
            )
    ]
