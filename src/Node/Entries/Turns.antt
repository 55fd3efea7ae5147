-- ===== src/Node/Entries/Turns.antt =====
-- What the clock and the votes make of entries (rsm/node.py, `tick`, `_on_vote`, `_on_pre_vote`).
use replicated_state_machine.Prelude.{
  ℕ, ◌+◌, ◌≡◌, refl, subst, inl, inr, true, not, ◌&&◌, ◌||◌, Bool-cases, none, [], length, add, All,
  arith, leb, ltb,
}
use replicated_state_machine.Errors.{Result, ok, >>=-inv, ok-injective}
use replicated_state_machine.Log.{Entry}
use replicated_state_machine.Rpc.{Vote}
use replicated_state_machine.Node.State.{
  Node, candidate, peers, is_leader, heartbeat_interval, quorum,
}
use replicated_state_machine.Node.Replicate.{replicate}
use replicated_state_machine.Node.Roles.{Output, become_pre_candidate, stand, heartbeat, tick}
use replicated_state_machine.Node.Leader.{is_candidate, is_follower, is_nil, on_pre_vote, on_vote}
use replicated_state_machine.Node.Entries.Moves.{
  Fresh, fresh_entry, Move, Eases, Eases-same, Move-Eases, Move-trans, Fresh-Eases,
  replicate-Carries,
}
use replicated_state_machine.Node.Entries.Offices.{
  become_leader-Move, become_candidate-Move, requests-Carries,
}

module _ (P : Entry → Type 0) (n : Node) (h : All P n.log.entries) where
  -- Nothing is done but to fields that do not matter here.
  pub nothing-Move :
      (n' : Node) {o : Output}
      → Eases n n'
      → ◌≡◌ {A = Result Output} (ok (n', [])) (ok o)
      → Move P n o.0 o.1
  nothing-Move n' e q =
      subst (λ (x : Output). Move P n x.0 x.1) (ok-injective q) (Move-Eases P h tt e)

  stand-Move :
      {o : Output} → (Fresh n o.0 → P (fresh_entry none n o.0)) → stand n ≡ ok o → Move P n o.0 o.1
  unfolding stand become_pre_candidate
  stand-Move {o} new q = elim (Bool-cases (n.pre_vote && ltb 1 (length n.members))) [
    | inl p ↦
        subst (λ (x : Output). Move P n x.0 x.1) (ok-injective (rw p at q))
          (Move-Eases P h (requests-Carries P n (n.term + 1) true (peers n))
            (Eases-same refl refl refl))
    | inr p ↦ become_candidate-Move P n h new (rw p at q)
  ]

  heartbeat-Move : (now : ℕ) {o : Output} → heartbeat n now ≡ ok o → Move P n o.0 o.1
  heartbeat-Move now q = elim (Bool-cases (leb n.heartbeat_due now)) [
    | inl p ↦
        let beaten : Node = record n { heartbeat_due = now + heartbeat_interval } in
        let (ms, r, s) = >>=-inv (replicate beaten none) _ (rw p at q) in
        subst (λ (x : Output). Move P n x.0 x.1) (ok-injective s)
          (Move-Eases P h (replicate-Carries P beaten none h r) (Eases-same refl refl refl))
    | inr p ↦ nothing-Move n (Eases-same refl refl refl) (rw p at q)
  ]

module _ (P : Entry → Type 0) (n : Node) (h : All P n.log.entries) where
  pub tick-Move :
      (now : ℕ) {o : Output}
      → (Fresh n o.0 → P (fresh_entry none n o.0))
      → tick n now ≡ ok o
      → Move P n o.0 o.1
  unfolding tick
  tick-Move now {o} new q =
      let later : Node = record n { now = now } in
      let back : Move P later o.0 o.1 → Move P n o.0 o.1 =
        λ m. Move-trans P {n = n} {n₁ = later} (Eases-same refl refl refl) m in
      let same : Fresh later o.0 → P (fresh_entry none later o.0) =
        λ f. new (Fresh-Eases (Eases-same {n = n} {n' = later} refl refl refl) f) in
      elim (Bool-cases (is_leader n)) [
        | inl l ↦ back (heartbeat-Move P later h now (rw l at q))
        | inr l ↦ elim (Bool-cases (leb n.election_deadline now)) [
          | inl p ↦ back (stand-Move P later h same (rw (l, p) at q))
          | inr p ↦ nothing-Move P n h later (Eases-same refl refl refl) (rw (l, p) at q)
        ]
      ]

  on_pre_vote-Move :
      (sender : ℕ) (m : Vote) {o : Output}
      → (Fresh n o.0 → P (fresh_entry none n o.0))
      → on_pre_vote n sender m ≡ ok o
      → Move P n o.0 o.1
  unfolding on_pre_vote
  on_pre_vote-Move sender m {o} new q =
      elim (Bool-cases (not (is_follower n) || not m.granted || is_nil n.pre_votes)) [
        | inl j ↦ nothing-Move P n h n (Eases-same refl refl refl) (rw j at q)
        | inr j ↦
            let counted : Node = record n { pre_votes = add sender n.pre_votes } in
            let e : Eases n counted = Eases-same refl refl refl in
            elim (Bool-cases (leb (quorum n) (length counted.pre_votes))) [
              | inl k ↦
                  Move-trans P e (
                    become_candidate-Move P counted h (λ f. new (Fresh-Eases e f)) (rw (j, k) at q))
              | inr k ↦ nothing-Move P n h counted e (rw (j, k) at q)
            ]
      ]

  pub on_vote-Move :
      (sender : ℕ) (m : Vote) {o : Output}
      → (Fresh n o.0 → P (fresh_entry none n o.0))
      → on_vote n sender m ≡ ok o
      → Move P n o.0 o.1
  unfolding on_vote
  on_vote-Move sender m {o} new q = elim (Bool-cases m.pre_vote) [
    | inl p ↦ on_pre_vote-Move sender m new (simp p at q)
    | inr p ↦ elim (Bool-cases (not (is_candidate n) || not m.granted)) [
      | inl j ↦ nothing-Move P n h n (Eases-same refl refl refl) (rw (p, j) at q)
      | inr j ↦
          let counted : Node = record n { votes = add sender n.votes } in
          let c : n.role ≡ candidate = ground arith in
          elim (Bool-cases (leb (quorum n) (length counted.votes))) [
            | inl k ↦
                become_leader-Move P n counted h refl (record { how = inl (c, refl) }) new
                  (rw (p, j, k) at q)
            | inr k ↦ nothing-Move P n h counted (Eases-same refl refl refl) (rw (p, j, k) at q)
          ]
    ]
  ]
