-- ===== src/Repair/Skips.antt =====
-- rsm/repair.py: `skip`, which jumps over a whole term at a refusal.
use replicated_state_machine.Prelude.{
  ℕ, zero, suc, ◌+◌, ◌-◌, ◌≤◌, ◌<◌, ◌≡◌, refl, sym, ◌∙◌, true, none, some, Option-cases, ltb, leb,
  Bool-cases, inl, inr, arith,
}
use replicated_state_machine.Errors.{ok, ok-injective}
use replicated_state_machine.Log.{Log, last_index, term_at, holds}
use replicated_state_machine.Log.Agree.{Shared}
use replicated_state_machine.Rpc.{Appended}
use replicated_state_machine.Node.State.{Node}
use replicated_state_machine.Repair.{
  Repair, Ended, skip_down, skip, highest_of, next_left, found, limit, matched_of, skip_term,
}
use replicated_state_machine.Repair.Probes.{
  Ready, probe-Probed, RunStart, Refusal, too_short, other_term,
}
use replicated_state_machine.Repair.Walks.{IsTruth, agree_up_to-IsTruth, Agree-lt-refused}
use replicated_state_machine.Repair.Terms.{
  Proper, term_at-Behind, Ascends-get, All-get, index-InPlace, term_at-le, highest_of-none,
  highest_of-Highest,
}

module _ (l : Log) (r : Log) (pl : Proper l) (pr : Proper r) (truth i : ℕ) (t : IsTruth l r truth)
    (below : truth < i) where
  -- Terms at the truth, in the leader's log and the follower's.
  at_truth : (1 ≤ truth) → (term : ℕ) × Shared l r truth term
  at_truth least = elim t.agreed [ inl z ↦ absurd (omega (arith, z)) | inr shared ↦ shared ]

  -- No run of the follower's that ends at `i` with a term that the leader lacks reaches the truth.
  unheld :
      (term first : ℕ) → highest_of term l.entries ≡ none → RunStart r i term first → truth < first
  unfolding holds
  unheld term first lacks run = elim (Bool-cases (ltb truth first)) [
    | inl e ↦ ground arith
    | inr e ↦
        let (u, s) =
          at_truth (omega (arith, run.at_least, (let k : first ≤ truth = ground arith in k))) in
        let same : u ≡ term =
          ok-injective (sym s.right_term ∙ run.run truth (ground arith) (omega arith)) in
        let b =
          term_at-Behind l truth u pl.whole (ground (arith, pl.whole.from_start, s.on_left))
            t.inside s.left_term in
        absurd (highest_of-none term (truth - 1) l.entries lacks b.place (b.term ∙ same))
  ]

  -- The leader's last entry of the follower's term at `i` is not below the truth.
  held :
      (term own : ℕ)
      → i ≤ last_index r
      → term_at r i ≡ ok term
      → highest_of term l.entries ≡ some own
      → truth ≤ own
  unfolding holds
  held term own inside q high = elim (Bool-cases (leb truth own)) [
    | inl e ↦ ground arith
    | inr e ↦
        let h = highest_of-Highest term own l.entries high in
        let (u, s) = at_truth (ground arith) in
        let b = term_at-Behind l truth u pl.whole (ground arith) t.inside s.left_term in
        let at_place = index-InPlace l.snapshot_index h.place l.entries pl.whole.placed h.there in
        let up =
          Ascends-get 0 h.place (truth - 1) l.entries pl.ordered
            (ground (arith, at_place, pl.whole.from_start, h.index)) h.there b.place in
        let down =
          term_at-le r truth i u term pr (ground arith) (omega arith) inside s.right_term q in
        let same : b.entry.term ≡ term = omega (arith, up, down, h.term, b.term) in
        absurd (ground (arith, h.top (truth - 1) b.entry b.place same, b.index))
  ]

  -- A refusal sends the leader to an index that is not below the truth.
  next_left-above :
      (a : Appended) → Refusal r i a → (truth < next_left l a i) × (next_left l a i ≤ i)
  unfolding next_left holds
  next_left-above a (too_short short no_term here) =
      let bound : truth ≤ last_index r = elim t.agreed [
        | inl z ↦ omega (arith, z)
        | inr (_, s) ↦ ground (arith, s.on_right)
      ] in
      rw no_term (ground (arith, here))
  next_left-above a (other_term inside q run) =
      let e = term_at-Behind r i a.conflict_term pr.whole (omega arith) inside q in
      let pos_term : ltb 0 a.conflict_term ≡ true =
        ground (arith, All-get (λ z. 1 ≤ z.term) r.entries (i - 1) pr.positive e.place, e.term) in
      elim (Option-cases (highest_of a.conflict_term l.entries)) [
        | inl lacks ↦
            let f = unheld a.conflict_term a.conflict_index lacks run in
            rw (pos_term, lacks) (omega (arith, run.at_least, run.at_most), omega arith)
        | inr (own, high) ↦
            let f = held a.conflict_term own inside q high in
            rw (pos_term, high) (omega arith, omega arith)
      ]

-- What the loop of `skip` does: it stops where the logs agree first, after no more probes than a walk.
record Skipped (f : Node) (truth probes left : ℕ) (end : Ended) : Type 0 where
  hits : end.hit ≡ true
  place : end.left ≡ truth + 1
  cheap : end.probes ≤ probes + (left - truth)
  same_log : end.follower.log ≡ f.log

skip_down-Skipped :
    (l f : Node) (truth rounds probes left : ℕ)
    → Ready l f
    → Proper l.log
    → Proper f.log
    → IsTruth l.log f.log truth
    → truth < left
    → left ≤ last_index l.log + 1
    → left - truth ≤ rounds
    → (end : Ended) × (skip_down l rounds probes left f ≡ ok end) × Skipped f truth probes left end
unfolding skip_down
skip_down-Skipped l f truth zero probes left r pl pf t below inside enough = absurd (omega arith)
skip_down-Skipped l f truth (suc rounds) probes zero r pl pf t below inside enough =
    absurd (omega arith)
skip_down-Skipped l f truth (suc rounds) probes (suc index) r pl pf t below inside enough =
    let (f', a, ran, p) = probe-Probed l f index r (omega arith) in
    elim (Bool-cases a.success) [
      | inl hit ↦
          let here : index ≡ truth = omega (arith, t.highest index (p.agreed hit)) in
          (
            record { probes = probes + 1; left = suc index; hit = true; follower = f' },
            rw (ran, hit) refl,
            record { hits = refl; place = omega arith; cheap = omega arith; same_log = p.same_log },
          )
      | inr miss ↦
          let apart : truth < index =
            Agree-lt-refused l.log f.log truth index t.agreed (p.refused miss).0 (omega arith) in
          let (above, under) =
            next_left-above l.log f.log pl pf truth index t apart a (p.refused miss).1 in
          let (end, q, s) =
            skip_down-Skipped l f' truth rounds (probes + 1) (next_left l.log a index) p.ready pl
              (rw p.same_log pf) (rw p.same_log t) above (omega (arith, under))
              (omega (arith, under)) in
          (
            end,
            rw (ran, miss) q,
            record {
              hits = s.hits;
              place = s.place;
              cheap = omega (arith, s.cheap, under, above);
              same_log = s.same_log ∙ p.same_log;
            },
          )
    ]

-- `skip` between two nodes of different names with whole logs (no snapshot) of terms that are at least
-- one and do not go back, the leader's term not zero, the follower in no later term than the leader, and
-- the leader's log shorter than the limit, returns, finds the highest index at which the two agree with
-- no more probes than a walk, and leaves the follower's log alone.
pub skip-found :
    (l f : Node)
    → Ready l f
    → Proper l.log
    → Proper f.log
    → last_index l.log < limit
    → (r : Repair) × (f' : Node) × (skip l f ≡ ok (r, f'))
      × (found r ≡ true)
      × (r.probes + r.divergence ≤ last_index l.log + 1)
      × (f'.log ≡ f.log)
unfolding skip found
skip-found l f r pl pf short =
    let (truth, q, t) = agree_up_to-IsTruth l.log f.log r.leader_log r.follower_log in
    let (end, ran, s) =
      skip_down-Skipped l f truth limit 0 (last_index l.log + 1) r pl pf t (omega (arith, t.inside))
        (omega arith) (omega arith) in
    (
      record {
        strategy = skip_term;
        probes = end.probes;
        matched = matched_of end.hit end.left;
        divergence = truth;
      },
      end.follower,
      rw (q, ran) refl,
      rw (s.hits, s.place) (ground arith),
      omega (arith, s.cheap, t.inside),
      s.same_log,
    )
