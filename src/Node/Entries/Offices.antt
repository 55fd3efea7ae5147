-- ===== src/Node/Entries/Offices.antt =====
-- Taking office, the clock and the client (rsm/node.py), and the entry that a leader writes.
use replicated_state_machine.Prelude.{
  ℕ, ◌+◌, ◌≡◌, refl, ap, ◌∙◌, subst, inl, inr, ◌⊎◌, Bool, false, Bool-cases, Option, none, List, [],
  ◌∷◌, map, length, All, All-append, arith, ◌==◌,
}
use replicated_state_machine.Errors.{ok, >>=-inv, ok-injective}
use replicated_state_machine.Log.{Entry, Command, last_index, push}
use replicated_state_machine.Log.Change.{last_index-push}
use replicated_state_machine.Rpc.{Message}
use replicated_state_machine.Node.State.{Node, leader, peers, is_leader, heartbeat_interval}
use replicated_state_machine.Node.Replicate.{replicate}
use replicated_state_machine.Node.Roles.{
  Output, write_own, commit_alone, take_office, become_leader, start_candidacy, become_candidate,
  propose, vote_request,
}
use replicated_state_machine.Node.Frame.{commit_alone-frame, write_own-frame}
use replicated_state_machine.Node.Election.Moves.{become_leader-parts}
use replicated_state_machine.Node.Entries.Moves.{
  Carries, Won, Fresh, fresh_entry, Move, replicate-Carries,
}

-- A node that leads, and has written one entry since.
pub record Wrote (c : Option Command) (n n' : Node) : Type 0 where
  pub leads : n'.role ≡ leader
  pub term : n'.term ≡ n.term
  pub log :
      n'.log ≡ push n.log (record { term = n.term; index = last_index n.log + 1; command = c })

become_leader-Wrote : (n : Node) {o : Output} → become_leader n ≡ ok o → Wrote none n o.0
become_leader-Wrote n {o} q =
    let (w, r, s, _) = become_leader-parts n q in
    let f = write_own-frame (take_office n) none r in
    let g = commit_alone-frame (record w { heartbeat_due = n.now + heartbeat_interval }) s in
    record { leads = ground arith; term = ground arith; log = ap (λ x. x.log) g ∙ f.3 }

pub propose-Wrote :
    (n : Node) (c : Option Command) {m : Node} {index : ℕ}
    → propose n c ≡ ok (m, index)
    → Wrote c n m × (n.role ≡ leader)
unfolding propose
propose-Wrote n c {m} {index} q = elim (Bool-cases (is_leader n)) [
  | inr h ↦ absurd (ground (arith, h))
  | inl h ↦
      let (w, r, s) = >>=-inv (write_own n c) _ (rw h at q) in
      let (k, t, u) = >>=-inv (commit_alone w) _ s in
      let f = write_own-frame n c r in
      let g = commit_alone-frame w t in
      let e : k ≡ m = ap (λ x. x.0) (ok-injective u) in
      let role : n.role ≡ leader = ground (arith, h) in
      (
        subst (Wrote c n) e
            (record { leads = ground arith; term = ground arith; log = ap (λ x. x.log) g ∙ f.3 }),
        role,
      )
]

module _ (P : Entry → Type 0) where
  pub Wrote-Move :
      (c : Option Command) (n b n' : Node) {out : List Message}
      → All P n.log.entries
      → b.log ≡ n.log
      → Wrote c b n'
      → ((n.role ≡ leader) × (n'.term ≡ n.term)) ⊎ Won n n'
      → (Fresh n n' → P (fresh_entry c n n'))
      → replicate n' none ≡ ok out
      → Move P n n' out
  Wrote-Move c n b n' h l w before new q =
      let log : n'.log ≡ push n.log (fresh_entry c n n') = w.log ∙ rw (l, w.term) refl in
      let ends : last_index n'.log ≡ last_index n.log + 1 =
        ap last_index log ∙ last_index-push n.log (fresh_entry c n n') in
      let known = new (record { leads = w.leads; before = before; ends = ends }) in
      let all : All P n'.log.entries =
        rw log (All-append P n.log.entries (fresh_entry c n n' ∷ []) h (known, tt)) in
      record {
        held = all;
        sends = replicate-Carries P n' none all q;
        leads =
            λ _. elim before [ inl (r, t) ↦ inl (r, t, omega (arith, ends)) | inr won ↦ inr won ];
        stands = λ s. absurd (let led = w.leads in cc);
      }

  pub requests-Carries :
      (n : Node) (term : ℕ) (pre : Bool) (names : List ℕ)
      → All (Carries P) (map (vote_request n term pre) names)
  requests-Carries n term pre [] = tt
  requests-Carries n term pre (one ∷ names) = (tt, requests-Carries n term pre names)

  pub become_leader-Move :
      (n b : Node) {o : Output}
      → All P n.log.entries
      → b.log ≡ n.log
      → Won n b
      → (Fresh n o.0 → P (fresh_entry none n o.0))
      → become_leader b ≡ ok o
      → Move P n o.0 o.1
  become_leader-Move n b {o} h l won new q =
      let w = become_leader-Wrote b q in
      let (_, _, _, r) = become_leader-parts b q in
      let won' : Won n o.0 = record {
        how = elim won.how [
          | inl (c, t) ↦ inl (c, w.term ∙ t)
          | inr lt ↦ inr (omega (arith, lt, w.term))
        ];
      } in
      Wrote-Move none n b o.0 h l w (inr won') new r

  pub become_candidate-Move :
      (n : Node) {o : Output}
      → All P n.log.entries
      → (Fresh n o.0 → P (fresh_entry none n o.0))
      → become_candidate n ≡ ok o
      → Move P n o.0 o.1
  unfolding become_candidate start_candidacy
  become_candidate-Move n {o} h new q = elim (Bool-cases (length n.members == 1)) [
    | inl b ↦
        become_leader-Move n (start_candidacy n) h refl (record { how = inr (omega arith) }) new
          (rw b at q)
    | inr b ↦
        subst (λ (x : Output). Move P n x.0 x.1) (ok-injective (rw b at q))
          (record {
            held = h;
            sends =
                requests-Carries (start_candidacy n) (n.term + 1) false (peers (start_candidacy n));
            leads = λ l. absurd (cc);
            stands = λ _. record { how = inr (omega arith) };
          })
  ]
