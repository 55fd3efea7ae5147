-- ===== src/Node/Entries/Steps.antt =====
-- Every message that a node handles (rsm/node.py, `step`), as a move of entries.
use replicated_state_machine.Prelude.{
  ℕ, ◌+◌, ◌≡◌, refl, sym, ap, ◌∙◌, subst, inl, inr, Bool-cases, none, some, [], get, insert, All,
  arith, leb, if◌then◌else◌,
}
use replicated_state_machine.Errors.{ok, >>=-inv, ok-injective}
use replicated_state_machine.Log.{Entry, last_index, no_index}
use replicated_state_machine.Rpc.{
  Message, Appended, Installed, Body, request_vote, vote, append, appended, install_snapshot,
  installed, TermState, stale, current, ahead, term_check,
}
use replicated_state_machine.Node.State.{Node, is_leader, become_follower}
use replicated_state_machine.Node.Replicate.{replicate}
use replicated_state_machine.Node.Commit.{advance_commit}
use replicated_state_machine.Node.Roles.{Output}
use replicated_state_machine.Node.Leader.{
  record_match, retry_from, send_to, on_appended, on_installed,
}
use replicated_state_machine.Node.Step.{asking, handle, step_at, step}
use replicated_state_machine.Node.Frame.{advance_commit-frame}
use replicated_state_machine.Node.Entries.Moves.{
  Carries, carried, Fresh, fresh_entry, Fresh-Eases, Move, Eases, Eases-same, Move-Eases,
  Move-trans, replicate-Carries,
}
use replicated_state_machine.Node.Entries.Turns.{nothing-Move, on_vote-Move}
use replicated_state_machine.Node.Entries.Answers.{
  refuse-Carries, become_follower-Eases, on_request_vote-Move, on_install-Move, on_append-Move,
}

advance_commit-Eases : (n : Node) {m : Node} → advance_commit n ≡ ok m → Eases n m
advance_commit-Eases n q =
    let f = advance_commit-frame n q in
    Eases-same (ap (λ x. x.log) f) (ap (λ x. x.term) f) (ap (λ x. x.role) f)

Eases-trans : {n n₁ n' : Node} → Eases n n₁ → Eases n₁ n' → Eases n n'
Eases-trans a b = record {
  same_log = b.same_log ∙ a.same_log;
  grows = omega (arith, a.grows, b.grows);
  leads = λ l. let (r, t) = b.leads l in let (r', t') = a.leads r in (r', t ∙ t');
  stands = λ l. let (r, t) = b.stands l in let (r', t') = a.stands r in (r', t ∙ t');
}

record_match-Eases : (n : Node) (sender index : ℕ) → Eases n (record_match n sender index)
unfolding record_match
record_match-Eases n sender index = Eases-same refl refl refl

module _ (P : Entry → Type 0) where
  send_to-Move :
      (n a : Node) (sender : ℕ) {o : Output}
      → All P n.log.entries
      → Eases n a
      → send_to a sender ≡ ok o
      → Move P n o.0 o.1
  send_to-Move n a sender {o} h e q =
      let (ms, r, s) = >>=-inv (replicate a (some sender)) _ q in
      let h' : All P a.log.entries = rw e.same_log h in
      subst (λ (x : Output). Move P n x.0 x.1) (ok-injective s)
        (Move-Eases P h (replicate-Carries P a (some sender) h' r) e)

  module _ (n : Node) (h : All P n.log.entries) where
    on_installed-Move :
        (sender : ℕ) (m : Installed) {o : Output}
        → on_installed n sender m ≡ ok o
        → Move P n o.0 o.1
    unfolding on_installed
    on_installed-Move sender m q = elim (Bool-cases (is_leader n)) [
      | inl b ↦
          let (a, r, s) =
            >>=-inv (advance_commit (record_match n sender m.last_index)) (λ x. send_to x sender)
              (rw b at q) in
          send_to-Move n a sender h
            (Eases-trans (record_match-Eases n sender m.last_index) (advance_commit-Eases _ r)) s
      | inr b ↦ nothing-Move P n h n (Eases-same refl refl refl) (rw b at q)
    ]

    sent_more-Move :
        (a : Node) (sender : ℕ) {o : Output}
        → Eases n a
        → (if leb (get sender no_index a.next_index) (last_index a.log)
            then send_to a sender
            else ok (a, []))
          ≡ ok o
        → Move P n o.0 o.1
    sent_more-Move a sender e q =
        elim (Bool-cases (leb (get sender no_index a.next_index) (last_index a.log))) [
          | inl k ↦ send_to-Move n a sender h e (rw k at q)
          | inr k ↦ nothing-Move P n h a e (rw k at q)
        ]

    on_appended-Move :
        (sender : ℕ) (m : Appended) {o : Output} → on_appended n sender m ≡ ok o → Move P n o.0 o.1
    unfolding on_appended
    on_appended-Move sender m q = elim (Bool-cases (is_leader n)) [
      | inr b ↦ nothing-Move P n h n (Eases-same refl refl refl) (rw b at q)
      | inl b ↦ elim (Bool-cases m.success) [
        | inl k ↦
            let (a, r, s) =
              >>=-inv (advance_commit (record_match n sender m.match_index)) _ (simp (b, k) at q) in
            sent_more-Move a sender
              (Eases-trans (record_match-Eases n sender m.match_index) (advance_commit-Eases _ r)) s
        | inr k ↦
            let (retry, r, s) = >>=-inv (retry_from n m) _ (simp (b, k) at q) in
            send_to-Move n (record n { next_index = insert sender retry n.next_index }) sender h
              (Eases-same refl refl refl) s
      ]
    ]

    handle-Move :
        (sender term : ℕ) (b : Body) {o : Output}
        → All P (carried b)
        → (Fresh n o.0 → P (fresh_entry none n o.0))
        → handle n sender term b ≡ ok o
        → Move P n o.0 o.1
    unfolding handle
    handle-Move sender term (request_vote v) p new q =
        subst (λ (x : Output). Move P n x.0 x.1) (ok-injective q)
          (on_request_vote-Move P n h sender term v)
    handle-Move sender term (vote v) p new q = on_vote-Move P n h sender v new q
    handle-Move sender term (append a) p new q = on_append-Move P n sender term a h p q
    handle-Move sender term (appended a) p new q = on_appended-Move sender a q
    handle-Move sender term (install_snapshot s) p new q =
        subst (λ (x : Output). Move P n x.0 x.1) (ok-injective q) (on_install-Move P n h sender s)
    handle-Move sender term (installed i) p new q = on_installed-Move sender i q

abbrev stepped_down : Node → Message → Node
stepped_down n m = if asking m.body then n else become_follower n m.term none

stepped_down-Eases : (n : Node) (m : Message) → Eases n (stepped_down n m)
stepped_down-Eases n m = elim (Bool-cases (asking m.body)) [
  | inl a ↦ rw a (Eases-same refl refl refl)
  | inr a ↦ rw a (become_follower-Eases n m.term none)
]

module _ (P : Entry → Type 0) (n : Node) (h : All P n.log.entries) (m : Message)
    (p : Carries P m) where
  step_at-Move :
      (s : TermState) {o : Output}
      → (Fresh n o.0 → P (fresh_entry none n o.0))
      → step_at s n m ≡ ok o
      → Move P n o.0 o.1
  unfolding step_at
  step_at-Move stale new q =
      subst (λ (x : Output). Move P n x.0 x.1) (ok-injective q)
        (Move-Eases P h (refuse-Carries P n m) (Eases-same refl refl refl))
  step_at-Move current new q = handle-Move P n h m.sender m.term m.body p new q
  step_at-Move ahead {o} new q =
      let e = stepped_down-Eases n m in
      let h' : All P (stepped_down n m).log.entries = rw e.same_log h in
      let same : fresh_entry none n o.0 ≡ fresh_entry none (stepped_down n m) o.0 =
        ap (λ g. record { term = o.0.term; index = last_index g + 1; command = none })
          (sym e.same_log) in
      Move-trans P e (
        handle-Move P (stepped_down n m) h' m.sender m.term m.body p
          (λ f. subst P same (new (Fresh-Eases e f))) q)

  -- The entries of a node and of its messages after it has handled one were its own, came with the
  -- message, or are the one that it wrote on taking office.
  pub step-Move :
      {o : Output} → (Fresh n o.0 → P (fresh_entry none n o.0)) → step n m ≡ ok o → Move P n o.0 o.1
  unfolding step
  step-Move new q = step_at-Move (term_check n.term m) new q
