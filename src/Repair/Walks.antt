-- ===== src/Repair/Walks.antt =====
-- rsm/repair.py: `walk`, which finds the agreement by going down one index at a time.
use replicated_state_machine.Prelude.{
  ℕ, zero, suc, ◌+◌, ◌-◌, ◌≤◌, ◌<◌, ◌≡◌, refl, subst, ◌∙◌, min, true, false, ltb, ◌==◌, Bool-cases,
  inl, inr, arith, ==→eq,
}
use replicated_state_machine.Errors.{ok}
use replicated_state_machine.Log.{Log, last_index, holds}
use replicated_state_machine.Log.Agree.{
  agree_up_to, agree_from-found, agree_from-highest, agree_from-total,
}
use replicated_state_machine.Node.State.{Node}
use replicated_state_machine.Repair.{
  Repair, Ended, walk_down, walk, found, limit, matched_of, walk_back,
}
use replicated_state_machine.Repair.Probes.{Agree, Whole, Ready, probe-Probed}

-- The highest index up to the end of the first log at which the two agree.
pub record IsTruth (l r : Log) (truth : ℕ) : Type 0 where
  pub agreed : Agree l r truth
  pub inside : truth ≤ last_index l
  pub highest : (j : ℕ) → Agree l r j → j ≤ truth

agreed_truth : (l r : Log) (truth : ℕ) → agree_up_to l r ≡ ok truth → Agree l r truth
unfolding agree_up_to
agreed_truth l r zero q = inl refl
agreed_truth l r (suc k) q =
    inr (agree_from-found l r (min (last_index l) (last_index r)) (suc k) q (omega arith))

highest_truth : (l r : Log) (truth j : ℕ) → agree_up_to l r ≡ ok truth → Agree l r j → j ≤ truth
unfolding agree_up_to holds
highest_truth l r truth zero q a = omega arith
highest_truth l r truth (suc k) q (inl z) = absurd (omega (arith, z))
highest_truth l r truth (suc k) q (inr (t, s)) =
    agree_from-highest l r (min (last_index l) (last_index r)) truth (suc k) t q (omega arith)
      (ground (arith, s.on_left, s.on_right)) s

-- `agree_up_to` returns this index.
pub agree_up_to-IsTruth :
    (l r : Log) → Whole l → Whole r → (truth : ℕ) × (agree_up_to l r ≡ ok truth) × IsTruth l r truth
unfolding agree_up_to holds
agree_up_to-IsTruth l r wl wr =
    let (truth, q) = agree_from-total l r (min (last_index l) (last_index r)) wl.placed wr.placed in
    let a = agreed_truth l r truth q in
    (
      truth,
      q,
      record {
        agreed = a;
        inside = elim a [ inl z ↦ omega (arith, z) | inr (_, s) ↦ ground (arith, s.on_left) ];
        highest = λ j. highest_truth l r truth j q;
      },
    )

-- What a walk down from `left` does: it stops where the logs agree first, or when it has made `stop`
-- probes, above that place.
pub record Walked (l f : Node) (truth stop probes left : ℕ) (end : Ended) : Type 0 where
  pub ready : Ready l end.follower
  pub same_log : end.follower.log ≡ f.log
  pub hits : end.hit ≡ true → (end.left ≡ truth + 1) × (end.probes ≡ probes + (left - truth))
  pub misses :
      end.hit ≡ false
      → (truth < end.left)
        × (end.left ≤ left)
        × (end.probes + end.left ≡ probes + left)
        × (stop ≤ end.probes)
  pub few : probes ≤ stop → end.probes ≤ stop

-- An index where two logs agree is below one where they do not, unless it is above it.
pub Agree-lt-refused :
    (l r : Log) (truth index : ℕ)
    → Agree l r truth
    → ¬ Agree l r index
    → truth ≤ index
    → truth < index
Agree-lt-refused l r truth index a n le = elim (Bool-cases (truth == index)) [
  | inl e ↦ absurd (n (subst (Agree l r) (==→eq truth index e) a))
  | inr e ↦ ground arith
]

pub walk_down-Walked :
    (l f : Node) (truth stop probes left : ℕ)
    → Ready l f
    → IsTruth l.log f.log truth
    → truth < left
    → left ≤ last_index l.log + 1
    → (end : Ended) × (walk_down l stop probes left f ≡ ok end)
      × Walked l f truth stop probes left end
unfolding walk_down
walk_down-Walked l f truth stop probes zero r t below inside = absurd (omega arith)
walk_down-Walked l f truth stop probes (suc index) r t below inside =
    let (f', a, ran, p) = probe-Probed l f index r (omega arith) in
    elim (Bool-cases (ltb probes stop)) [
      | inr spent ↦ (
        record { probes = probes; left = suc index; hit = false; follower = f },
        rw spent refl,
        record {
          ready = r;
          same_log = refl;
          hits = λ e. cc e;
          misses = λ _. (below, omega arith, omega arith, ground arith);
          few = λ k. k;
        },
      )
      | inl more ↦ elim (Bool-cases a.success) [
        | inl yes_here ↦
            let here : index ≡ truth = omega (arith, t.highest index (p.agreed yes_here), below) in
            (
              record { probes = probes + 1; left = suc index; hit = true; follower = f' },
              rw (more, ran, yes_here) refl,
              record {
                ready = p.ready;
                same_log = p.same_log;
                hits = λ _. (omega arith, omega arith);
                misses = λ e. cc e;
                few = λ _. ground arith;
              },
            )
        | inr not_here ↦
            let apart : truth < index =
              Agree-lt-refused l.log f.log truth index t.agreed (p.refused not_here).0
                (omega arith) in
            let (end, q, w) =
              walk_down-Walked l f' truth stop (probes + 1) index p.ready (rw p.same_log t) apart
                (omega arith) in
            (
              end,
              rw (more, ran, not_here) q,
              record {
                ready = w.ready;
                same_log = w.same_log ∙ p.same_log;
                hits = λ e. let (a, b) = w.hits e in (a, omega (arith, b));
                misses = λ e.
                    let (a, b, c, d) = w.misses e in (a, omega (arith, b), omega (arith, c), d);
                few = λ _. w.few (ground arith);
              },
            )
      ]
    ]

-- `walk` between two nodes of different names with whole logs (no snapshot), the leader's term not
-- zero, the follower in no later term than the leader, and the leader's log shorter than the limit,
-- returns, finds the highest index at which the two agree with one probe for each index from the end of
-- the leader's log down to it, and leaves the follower's log alone.
pub walk-found :
    (l f : Node)
    → Ready l f
    → last_index l.log < limit
    → (r : Repair) × (f' : Node) × (walk l f ≡ ok (r, f'))
      × (found r ≡ true)
      × (r.probes + r.divergence ≡ last_index l.log + 1)
      × (f'.log ≡ f.log)
unfolding walk found
walk-found l f r short =
    let (truth, q, t) = agree_up_to-IsTruth l.log f.log r.leader_log r.follower_log in
    let (end, ran, w) =
      walk_down-Walked l f truth limit 0 (last_index l.log + 1) r t (omega (arith, t.inside))
        (omega arith) in
    elim (Bool-cases end.hit) [
      | inl hit ↦
          let (at, cost) = w.hits hit in
          (
            record {
              strategy = walk_back;
              probes = end.probes;
              matched = matched_of end.hit end.left;
              divergence = truth;
            },
            end.follower,
            rw (q, ran) refl,
            rw (hit, at) (ground arith),
            omega (arith, cost, t.inside),
            w.same_log,
          )
      | inr miss ↦ let (a, b, c, d) = w.misses miss in absurd (omega arith)
    ]
