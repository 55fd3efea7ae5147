-- ===== src/Repair/Halves.antt =====
-- rsm/repair.py: `bisect` and `hybrid`, which halve the range where the agreement may lie.
use replicated_state_machine.Prelude.{
  ℕ, zero, suc, ◌+◌, ◌-◌, ◌*◌, ◌/◌, ◌^◌, ◌≤◌, ◌<◌, ◌≡◌, refl, ap, subst, ◌∙◌, true, ltb, leb, ◌==◌,
  Bool-cases, ◌⊎◌, inl, inr, arith, pos, ==→eq,
}
use replicated_state_machine.Errors.{ok}
use replicated_state_machine.Log.{Log, last_index}
use replicated_state_machine.Node.State.{Node}
use replicated_state_machine.Repair.{
  Repair, Found, halve, bisect, hybrid, found, limit, matched_of, bisection, hybrid_search,
}
use replicated_state_machine.Repair.Probes.{Agree, Ready, probe-Probed}
use replicated_state_machine.Repair.Walks.{IsTruth, agree_up_to-IsTruth, walk_down-Walked}

-- Log matching between two logs: where they agree they agree below.
abbrev pub Matching : Log → Log → Type 0
Matching l r = (i j : ℕ) → j ≤ i → Agree l r i → Agree l r j

two-pow-suc : (k : ℕ) → 2 ^ suc k ≡ 2 * 2 ^ k
two-pow-suc k = omega arith

-- What halving does to a range that holds the truth, or lies above it when the truth is `best`.
pub record Halved (f : Node) (truth probes k : ℕ) (end : Found) : Type 0 where
  pub best : end.best ≡ truth
  pub cheap : end.probes ≤ probes + k
  pub same_log : end.follower.log ≡ f.log

positive : (k n : ℕ) → 0 < n → n < 2 ^ k → k ≡ suc (k - 1)
positive zero n h u = absurd (omega arith)
positive (suc k) n h u = omega arith

beyond : (middle truth : ℕ) → middle ≤ truth → (middle + 1 ≤ truth) ⊎ (middle ≡ truth)
beyond middle truth h = elim (Bool-cases (middle == truth)) [
  | inl e ↦ inr (==→eq middle truth e)
  | inr e ↦ inl (ground arith)
]

under : (middle truth : ℕ) → ¬ (middle ≤ truth) → truth < middle
under middle truth n = elim (Bool-cases (leb middle truth)) [
  | inl e ↦ absurd (n (ground arith))
  | inr e ↦ ground arith
]

pub halve-Halved :
    (l f : Node) (truth rounds k probes best low top : ℕ)
    → Ready l f
    → IsTruth l.log f.log truth
    → Matching l.log f.log
    → truth < top
    → top ≤ last_index l.log + 1
    → (low ≤ truth) ⊎ (best ≡ truth)
    → top - low < 2 ^ k
    → k ≤ rounds
    → (end : Found) × (halve l rounds probes best low top f ≡ ok end) × Halved f truth probes k end
unfolding halve
halve-Halved l f truth zero k probes best low top r t m below inside where_is small enough =
    let none : k ≡ 0 = omega arith in
    let one : 2 ^ k ≡ 1 = rw none refl in
    (
      record { probes = probes; best = best; follower = f },
      refl,
      record {
        best = elim where_is [ inl above ↦ absurd (omega (arith, one)) | inr e ↦ e ];
        cheap = omega arith;
        same_log = refl;
      },
    )
halve-Halved l f truth (suc rounds) k probes best low top r t m below inside where_is small enough =
    elim (Bool-cases (ltb low top)) [
      | inr done ↦ (
        record { probes = probes; best = best; follower = f },
        rw done refl,
        record {
          best = elim where_is [ inl above ↦ absurd (ground arith) | inr e ↦ e ];
          cheap = omega arith;
          same_log = refl;
        },
      )
      | inl more ↦
          let middle : ℕ = (low + (top - 1)) / 2 in
          let k' : ℕ = k - 1 in
          let room : low < top = ground arith in
          let larger : k ≡ suc k' = positive k (top - low) (omega arith) small in
          let half : top - low < 2 * 2 ^ k' =
            subst (λ z. top - low < z) (ap (λ z. 2 ^ z) larger ∙ two-pow-suc k') small in
          let (f', a, ran, p) = probe-Probed l f middle r (omega arith) in
          let t' : IsTruth l.log f'.log truth = rw p.same_log t in
          let m' : Matching l.log f'.log = rw p.same_log m in
          elim (Bool-cases a.success) [
            | inl hit ↦
                let reached = t.highest middle (p.agreed hit) in
                let (end, q, h) =
                  halve-Halved l f' truth rounds k' (probes + 1) middle (middle + 1) top p.ready t'
                    m' below inside (beyond middle truth reached) (omega arith) (omega arith) in
                (
                  end,
                  rw (more, ran, hit) q,
                  record {
                    best = h.best;
                    cheap = omega (arith, h.cheap);
                    same_log = h.same_log ∙ p.same_log;
                  },
                )
            | inr miss ↦
                let lower : truth < middle =
                  under middle truth (λ le. (p.refused miss).0 (m truth middle le t.agreed)) in
                let (end, q, h) =
                  halve-Halved l f' truth rounds k' (probes + 1) best low middle p.ready t' m' lower
                    (omega arith) where_is (omega arith) (omega arith) in
                (
                  end,
                  rw (more, ran, miss) q,
                  record {
                    best = h.best;
                    cheap = omega (arith, h.cheap);
                    same_log = h.same_log ∙ p.same_log;
                  },
                )
          ]
    ]

module _ (l f : Node) (k : ℕ) (ready : Ready l f) (matching : Matching l.log f.log)
    (small : last_index l.log + 1 < 2 ^ k) where
  -- `bisect` between two nodes of different names with whole logs (no snapshot) that match wherever they
  -- agree, the leader's term not zero, the follower in no later term than the leader, and the leader's log of fewer than 2 ^ k - 1
  -- entries, where k is at most the limit, returns, finds the highest index at which the two agree with
  -- at most k probes, and leaves the follower's log alone.
  pub bisect-found :
      k ≤ limit
      → (r : Repair) × (f' : Node) × (bisect l f ≡ ok (r, f'))
        × (found r ≡ true)
        × (r.probes ≤ k)
        × (f'.log ≡ f.log)
  unfolding bisect found
  bisect-found enough =
      let (truth, q, t) = agree_up_to-IsTruth l.log f.log ready.leader_log ready.follower_log in
      let (end, ran, h) =
        halve-Halved l f truth limit k 0 0 0 (last_index l.log + 1) ready t matching
          (omega (arith, t.inside)) (omega arith) (inl (omega arith)) (omega arith) enough in
      (
        record {
          strategy = bisection;
          probes = end.probes;
          matched = pos end.best;
          divergence = truth;
        },
        end.follower,
        rw (q, ran) refl,
        ground (arith, h.best),
        omega (arith, h.cheap),
        h.same_log,
      )

  -- `hybrid` between such nodes, its patience and k together at most the limit, returns, finds the
  -- highest index at which the two agree with at most k probes more than its patience, and leaves the
  -- follower's log alone.
  pub hybrid-found :
      (patience : ℕ)
      → patience + k ≤ limit
      → (r : Repair) × (f' : Node) × (hybrid l f patience ≡ ok (r, f'))
        × (found r ≡ true)
        × (r.probes ≤ patience + k)
        × (f'.log ≡ f.log)
  unfolding hybrid found
  hybrid-found patience enough =
      let (truth, q, t) = agree_up_to-IsTruth l.log f.log ready.leader_log ready.follower_log in
      let (end, ran, w) =
        walk_down-Walked l f truth patience 0 (last_index l.log + 1) ready t
          (omega (arith, t.inside)) (omega arith) in
      let few = w.few (omega arith) in
      elim (Bool-cases end.hit) [
        | inl hit ↦
            let (at, cost) = w.hits hit in
            (
              record {
                strategy = hybrid_search;
                probes = end.probes;
                matched = matched_of true end.left;
                divergence = truth;
              },
              end.follower,
              rw (q, ran, hit) refl,
              rw at (ground arith),
              omega (arith, few),
              w.same_log,
            )
        | inr miss ↦
            let (above, low, sum, spent) = w.misses miss in
            let (rest, ran', h) =
              halve-Halved l end.follower truth (limit - end.probes) k end.probes 0 0 end.left
                w.ready (rw w.same_log t) (rw w.same_log matching) above (omega (arith, low))
                (inl (omega arith)) (omega (arith, low)) (omega (arith, few)) in
            (
              record {
                strategy = hybrid_search;
                probes = rest.probes;
                matched = pos rest.best;
                divergence = truth;
              },
              rest.follower,
              rw (q, ran, miss, ran') refl,
              ground (arith, h.best),
              omega (arith, few, h.cheap),
              h.same_log ∙ w.same_log,
            )
      ]
