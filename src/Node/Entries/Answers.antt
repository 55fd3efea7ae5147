-- ===== src/Node/Entries/Answers.antt =====
-- What the answers of a node make of entries (rsm/node.py, the handlers of messages).
use replicated_state_machine.Prelude.{
  ℕ, zero, suc, ◌+◌, ◌-◌, ◌≡◌, refl, ap, subst, inl, inr, ◌&&◌, Bool-cases, Option, List, [], ◌∷◌,
  All, All-append, take, arith, leb, ltb, ◌==◌,
}
use replicated_state_machine.Errors.{ok, >>=-inv, ok-injective}
use replicated_state_machine.Log.{
  Entry, Log, last_index, holds, term_at, truncate_from, first_index, matches, is_up_to_date,
}
use replicated_state_machine.Rpc.{
  Message, Append, InstallSnapshot, RequestVote, Body, append, request_vote,
}
use replicated_state_machine.Node.State.{Node, follower, become_follower}
use replicated_state_machine.Node.Roles.{Output}
use replicated_state_machine.Node.Follower.{
  vote_is_free, push_next, take_entry, take_entries, refuse, on_request_vote, hear_leader,
  accept_append, conflict, on_append, on_install,
}
use replicated_state_machine.Node.Election.Answers.{
  accept_append-frame, follow_commit-frame, role-hear_leader,
}
use replicated_state_machine.Node.Entries.Moves.{
  Carries, carried, Move, Eases, Eases-same, Eases-follower, Move-Eases,
}

pub become_follower-Eases :
    (n : Node) (term : ℕ) (found : Option ℕ) → Eases n (become_follower n term found)
unfolding become_follower
become_follower-Eases n term found = Eases-follower (ground arith) (ground arith) (ground arith)

pub hear_leader-Eases : (n : Node) (sender term : ℕ) → Eases n (hear_leader n sender term)
unfolding hear_leader
hear_leader-Eases n sender term = Eases-follower (ground arith) (ground arith) (ground arith)

module _ (P : Entry → Type 0) where
  All-take : (k : ℕ) (es : List Entry) → All P es → All P (take k es)
  All-take zero es h = tt
  All-take (suc k) [] h = tt
  All-take (suc k) (e ∷ es) h = (h.0, All-take k es h.1)

  truncate_from-All :
      (l : Log) (i : ℕ) {l' : Log} {k : ℕ}
      → All P l.entries
      → truncate_from l i ≡ ok (l', k)
      → All P l'.entries
  unfolding truncate_from
  truncate_from-All l i {l'} h q = elim (Bool-cases (leb i l.snapshot_index)) [
    | inl b ↦ absurd (ground (arith, b))
    | inr b ↦ elim (Bool-cases (ltb (last_index l) i)) [
      | inl c ↦ subst (λ (x : Log × ℕ). All P x.0.entries) (ok-injective (rw (b, c) at q)) h
      | inr c ↦
          subst (λ (x : Log × ℕ). All P x.0.entries) (ok-injective (rw (b, c) at q))
            (All-take (i - first_index l) l.entries h)
    ]
  ]

  push_next-All : (l : Log) (e : Entry) → All P l.entries → P e → All P (push_next l e).entries
  push_next-All l e h p = elim (Bool-cases (e.index == last_index l + 1)) [
    | inl b ↦ rw b (All-append P l.entries (e ∷ []) h (p, tt))
    | inr b ↦ rw b h
  ]

  take_entry-All :
      (l : Log) (e : Entry) {l' : Log}
      → All P l.entries
      → P e
      → take_entry l e ≡ ok l'
      → All P l'.entries
  unfolding take_entry
  take_entry-All l e h p q = elim (Bool-cases (holds l e.index)) [
    | inr b ↦ subst (λ x. All P x.entries) (ok-injective (rw b at q)) (push_next-All l e h p)
    | inl b ↦
        let (held, r, q₁) = >>=-inv (term_at l e.index) _ (rw b at q) in
        elim (Bool-cases (held == e.term)) [
          | inl c ↦ subst (λ x. All P x.entries) (ok-injective (rw c at q₁)) h
          | inr c ↦
              let ((kept, k), s, q₂) = >>=-inv (truncate_from l e.index) _ (rw c at q₁) in
              subst (λ x. All P x.entries) (ok-injective q₂)
                (push_next-All kept e (truncate_from-All l e.index h s) p)
        ]
  ]

  take_entries-All :
      (l : Log) (es : List Entry) {l' : Log}
      → All P l.entries
      → All P es
      → take_entries l es ≡ ok l'
      → All P l'.entries
  unfolding take_entries
  take_entries-All l [] h p q = subst (λ x. All P x.entries) (ok-injective q) h
  take_entries-All l (e ∷ es) h p q =
      let (k, r, s) = >>=-inv (take_entry l e) _ q in
      take_entries-All k es (take_entry-All l e h p.0 r) p.1 s

  pub refuse-Carries : (n : Node) (m : Message) → All (Carries P) (refuse n m)
  unfolding refuse
  refuse-Carries n m = go m.body
    where
      go : (b : Body) → All (Carries P) (refuse n (record m { body = b }))
      go (request_vote v) = (tt, tt)
      go (append a) = (tt, tt)
      go _ = tt

  conflict-Carries :
      (n : Node) (sender : ℕ) (m : Append) {out : Message}
      → conflict n sender m ≡ ok out
      → Carries P out
  unfolding conflict
  conflict-Carries n sender m {out} q =
      let none_carried : carried out.body ≡ [] = ground arith in rw none_carried tt

  module _ (n : Node) (h : All P n.log.entries) where
    pub on_request_vote-Move :
        (sender term : ℕ) (m : RequestVote)
        → let o = on_request_vote n sender term m in Move P n o.0 o.1
    unfolding on_request_vote
    on_request_vote-Move sender term m =
        let free =
          vote_is_free n.voted_for sender && is_up_to_date n.log m.last_index m.last_term in
        elim (Bool-cases m.pre_vote) [
          | inl b ↦ rw b (Move-Eases P h (tt, tt) (Eases-same refl refl refl))
          | inr b ↦ elim (Bool-cases free) [
            | inl c ↦ rw (b, c) (Move-Eases P h (tt, tt) (Eases-same refl refl refl))
            | inr c ↦ rw (b, c) (Move-Eases P h (tt, tt) (Eases-same refl refl refl))
          ]
        ]

    pub on_install-Move :
        (sender : ℕ) (m : InstallSnapshot) → let o = on_install n sender m in Move P n o.0 o.1
    unfolding on_install last_index
    on_install-Move sender m = elim (Bool-cases (ltb (last_index n.log) m.last_index)) [
      | inr b ↦ rw b (Move-Eases P h (tt, tt) (Eases-same refl refl refl))
      | inl b ↦ rw b (record {
        held = tt;
        sends = (tt, tt);
        leads = λ l. inl (l, refl, ground (arith, b));
        stands = λ c. record { how = inl (c, refl) };
      })
    ]

    accept_append-Move :
        (sender : ℕ) (m : Append) {o : Output}
        → All P m.entries
        → accept_append n sender m ≡ ok o
        → All P o.0.log.entries × All (Carries P) o.1 × (o.0.role ≡ n.role) × (o.0.term ≡ n.term)
    accept_append-Move sender m {o} p q =
        let (log, r, s, e) = accept_append-frame n sender m q in
        let f = follow_commit-frame (record n { log = log }) m.commit_index s in
        let same : o.0.log ≡ log = ap (λ x. x.log) f in
        (
          rw same (take_entries-All n.log m.entries h p r),
          rw e (tt, tt),
          ground arith,
          ground arith,
        )

  pub on_append-Move :
      (n : Node) (sender term : ℕ) (m : Append) {o : Output}
      → All P n.log.entries
      → All P m.entries
      → on_append n sender term m ≡ ok o
      → Move P n o.0 o.1
  unfolding on_append
  on_append-Move n sender term m {o} h p q =
      let heard = hear_leader n sender term in
      let eased = hear_leader-Eases n sender term in
      let h' : All P heard.log.entries = rw eased.same_log h in
      let role : heard.role ≡ follower = role-hear_leader n sender term in
      let (b, r, s) = >>=-inv (matches heard.log m.previous_index m.previous_term) _ q in
      elim (Bool-cases b) [
        | inl y ↦
            let (all, out, same, t) = accept_append-Move heard h' sender m p (rw y at s) in
            record { held = all; sends = out; leads = λ l. absurd (cc); stands = λ c. absurd (cc) }
        | inr y ↦
            let (c, t, u) = >>=-inv (conflict heard sender m) _ (rw y at s) in
            subst (λ (x : Output). Move P n x.0 x.1) (ok-injective u)
              (Move-Eases P h (conflict-Carries heard sender m t, tt) eased)
      ]
