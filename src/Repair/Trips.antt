-- ===== src/Repair/Trips.antt =====
-- rsm/log.py: how many round trips the two reconciliations take.
use replicated_state_machine.Prelude.{
  ℕ, zero, suc, ◌+◌, ◌-◌, ◌≤◌, ◌<◌, ◌≡◌, ◌≢◌, refl, ap, ◌∙◌, true, false, none, some, [], ltb, leb,
  ◌==◌, Bool-cases, inl, inr, arith,
}
use replicated_state_machine.Errors.{ok}
use replicated_state_machine.Log.{Log, last_index, first_index, term_at, matches, holds, no_index}
use replicated_state_machine.Log.Access.{term_at-total}
use replicated_state_machine.Log.Agree.{agree_up_to}
use replicated_state_machine.Repair.{term_asked}
use replicated_state_machine.Repair.Probes.{Whole, matches-Agree}
use replicated_state_machine.Repair.Walks.{IsTruth, agree_up_to-IsTruth, Agree-lt-refused}
use replicated_state_machine.Repair.Halves.{Matching}
use replicated_state_machine.Log.Reconcile.{
  term_or_zero, step_back, reconcile_one_at_a_time, run_back, jump_back, reconcile_by_conflict_term,
}

term_or_zero-asked :
    (l : Log) (i : ℕ) → Whole l → i ≤ last_index l → term_or_zero l i ≡ term_asked l i
unfolding holds first_index
term_or_zero-asked l zero w hi = ground arith
term_or_zero-asked l (suc k) w hi = ground (arith, w.from_start)

step_back-counts :
    (l r : Log) (truth trips next : ℕ)
    → Whole l
    → Whole r
    → IsTruth l r truth
    → truth < next
    → next ≤ last_index l + 1
    → step_back l r trips next ≡ ok (trips + (next - truth))
unfolding step_back
step_back-counts l r truth trips zero wl wr t below inside = absurd (omega arith)
step_back-counts l r truth trips (suc previous) wl wr t below inside =
    let (u, b, asked, matched, sure, back) = matches-Agree l r previous wl wr (omega arith) in
    let read = term_or_zero-asked l previous wl (omega arith) ∙ asked in
    elim (Bool-cases b) [
      | inl e ↦
          let here = t.highest previous (sure e) in rw (read, matched, e) (ap ok (omega arith))
      | inr e ↦
          let apart =
            Agree-lt-refused l r truth previous t.agreed (λ a. cc (back a, e)) (omega arith) in
          let later : (previous == no_index) ≡ false = ground arith in
          rw (read, matched, e, later)
            (step_back-counts l r truth (trips + 1) previous wl wr t apart (omega arith)
              ∙ ap ok (omega arith))
    ]

run_back-total :
    (l : Log) (t base gap : ℕ)
    → Whole l
    → 1 ≤ base
    → base + gap ≤ last_index l
    → (first : ℕ) × (run_back l t base gap ≡ ok first) × (base ≤ first) × (first ≤ base + gap)
unfolding run_back
run_back-total l t base zero w lo hi = (base, refl, omega arith, omega arith)
run_back-total l t base (suc gap) w lo hi =
    let (held, q) =
      term_at-total l (base + gap) w.placed (omega (arith, w.from_start)) (omega arith) in
    elim (Bool-cases (held == t)) [
      | inl same ↦
          let (first, p, a, b) = run_back-total l t base gap w lo (omega arith) in
          (first, rw (q, same) p, a, omega (arith, b))
      | inr differ ↦ (base + suc gap, rw (q, differ) refl, omega arith, omega arith)
    ]

module _ (l r : Log) (truth : ℕ) (wl : Whole l) (wr : Whole r) (t : IsTruth l r truth)
    (matching : Matching l r) where
  -- At the truth or below it, the next trip is the last.
  jump_back-last :
      (rounds trips next : ℕ)
      → 1 ≤ rounds
      → 1 ≤ next
      → next ≤ truth + 1
      → jump_back rounds l r trips next ≡ ok (some (trips + 1))
  unfolding jump_back
  jump_back-last zero trips next some_left lo hi = absurd (omega arith)
  jump_back-last (suc rounds) trips zero some_left lo hi = absurd (omega arith)
  jump_back-last (suc rounds) trips (suc previous) some_left lo hi =
      let (u, b, asked, matched, sure, back) =
        matches-Agree l r previous wl wr (omega (arith, t.inside)) in
      let read = term_or_zero-asked l previous wl (omega (arith, t.inside)) ∙ asked in
      let same : b ≡ true = back (matching truth previous (omega arith) t.agreed) in
      elim (Bool-cases (previous == no_index)) [
        | inl e ↦ rw (read, e) refl
        | inr e ↦ rw (read, e, matched, same) refl
      ]

  inside_right : truth ≤ last_index r
  unfolding holds
  inside_right = elim t.agreed [
    | inl z ↦ omega (arith, z)
    | inr (_, s) ↦ ground (arith, s.on_right)
  ]

  jump_back-ends :
      (rounds trips next : ℕ)
      → truth < next
      → next ≤ last_index l + 1
      → next - truth ≤ rounds
      → (n : ℕ) × (jump_back rounds l r trips next ≡ ok (some n)) × (n ≤ trips + (next - truth))
  unfolding jump_back holds first_index
  jump_back-ends zero trips next below inside enough = absurd (omega arith)
  jump_back-ends (suc rounds) trips zero below inside enough = absurd (omega arith)
  jump_back-ends (suc rounds) trips (suc previous) below inside enough =
      let (u, b, asked, matched, sure, back) = matches-Agree l r previous wl wr (omega arith) in
      let read = term_or_zero-asked l previous wl (omega arith) ∙ asked in
      elim (Bool-cases b) [
        | inl e ↦ (
          trips + 1,
          elim (Bool-cases (previous == no_index)) [
            | inl z ↦ rw (read, z) refl
            | inr z ↦ rw (read, z, matched, e) refl
          ],
          omega arith,
        )
        | inr e ↦
            let apart =
              Agree-lt-refused l r truth previous t.agreed (λ a. cc (back a, e)) (omega arith) in
            let later : (previous == no_index) ≡ false = ground arith in
            elim (Bool-cases (holds r previous)) [
              | inr past ↦
                  let (n, q, le) =
                    jump_back-ends rounds (trips + 1) (last_index r + 1)
                      (omega (arith, inside_right)) (ground (arith, past, wr.from_start))
                      (ground (arith, past, wr.from_start)) in
                  (n, rw (read, later, matched, e, past) q, ground (arith, past, wr.from_start, le))
              | inl there ↦
                  let base : ℕ = r.snapshot_index + 1 in
                  let (c, k) =
                    term_at-total r previous wr.placed (omega (arith, wr.from_start))
                      (ground arith) in
                  let (first, p, low, high) =
                    run_back-total r c base (previous - base) wr (omega arith)
                      (ground (arith, wr.from_start)) in
                  elim (Bool-cases (ltb truth first)) [
                    | inl above ↦
                        let (n, q, le) =
                          jump_back-ends rounds (trips + 1) first (ground arith)
                            (omega (arith, wr.from_start)) (omega (arith, wr.from_start)) in
                        (
                          n,
                          rw (read, later, matched, e, there, k, p) q,
                          omega (arith, le, wr.from_start),
                        )
                    | inr below_it ↦ (
                      trips + 1 + 1,
                      rw (read, later, matched, e, there, k, p)
                          (jump_back-last rounds (trips + 1) first (omega arith) (omega arith)
                            (ground arith)),
                      omega arith,
                    )
                  ]
            ]
      ]

-- Over two whole logs (no snapshot) that match wherever they agree, with more rounds allowed than the
-- leader's log has entries, walking back one index at a time takes a round trip for each index from the end of the
-- leader's log down to the highest at which the two agree, and naming the conflicting term ends after
-- no more.
pub by_conflict_term-le :
    (l r : Log) (rounds : ℕ)
    → Whole l
    → Whole r
    → Matching l r
    → last_index l + 1 ≤ rounds
    → (truth : ℕ) × (slow : ℕ) × (fast : ℕ) × (agree_up_to l r ≡ ok truth)
      × (reconcile_one_at_a_time l r ≡ ok slow)
      × (slow + truth ≡ last_index l + 1)
      × (reconcile_by_conflict_term rounds l r ≡ ok (some fast))
      × (fast ≤ slow)
unfolding reconcile_one_at_a_time reconcile_by_conflict_term
by_conflict_term-le l r rounds wl wr m enough =
    let (truth, q, t) = agree_up_to-IsTruth l r wl wr in
    let (fast, p, le) =
      jump_back-ends l r truth wl wr t m rounds 0 (last_index l + 1) (omega (arith, t.inside))
        (omega arith) (omega arith) in
    (
      truth,
      last_index l + 1 - truth,
      fast,
      q,
      step_back-counts l r truth 0 (last_index l + 1) wl wr t (omega (arith, t.inside))
            (omega arith)
          ∙ ap ok (omega arith),
      omega (arith, t.inside),
      p,
      omega (arith, le),
    )

last_index-bare : (r : Log) → r.entries ≡ [] → last_index r ≡ r.snapshot_index
unfolding last_index
last_index-bare r bare = rw bare refl

-- A follower that holds nothing but a snapshot answers no at its index for another term.
matches-bare :
    (r : Log) (u : ℕ)
    → r.entries ≡ []
    → 1 ≤ r.snapshot_index
    → u ≢ r.snapshot_term
    → matches r r.snapshot_index u ≡ ok false
unfolding matches term_at
matches-bare r u bare set_off differ = ground (arith, last_index-bare r bare)

jump_back-spins :
    (l r : Log) (u rounds trips s : ℕ)
    → s ≡ r.snapshot_index
    → r.entries ≡ []
    → 1 ≤ r.snapshot_index
    → term_or_zero l r.snapshot_index ≡ ok u
    → u ≢ r.snapshot_term
    → jump_back rounds l r trips (suc s) ≡ ok none
unfolding jump_back holds first_index
jump_back-spins l r u zero trips s here bare set_off read differ = refl
jump_back-spins l r u (suc rounds) trips s here bare set_off read differ =
    let later : (s == no_index) ≡ false = ground arith in
    let asked : term_or_zero l s ≡ ok u = rw here read in
    let no_match : matches r s u ≡ ok false = rw here (matches-bare r u bare set_off differ) in
    let past : leb (r.snapshot_index + 1) s ≡ false = ground arith in
    let again : last_index r + 1 ≡ suc s = omega (arith, last_index-bare r bare) in
    rw (asked, later, no_match, past, again)
      (jump_back-spins l r u rounds (trips + 1) s here bare set_off read differ)

-- Naming the conflicting term never ends, with any number of rounds, when the follower holds nothing
-- but a snapshot, the leader's log ends at its index, and the leader has another term there.
pub by_conflict_term_spins :
    (l r : Log) (rounds u : ℕ)
    → r.entries ≡ []
    → 1 ≤ r.snapshot_index
    → last_index l ≡ r.snapshot_index
    → term_or_zero l r.snapshot_index ≡ ok u
    → u ≢ r.snapshot_term
    → reconcile_by_conflict_term rounds l r ≡ ok none
unfolding reconcile_by_conflict_term
by_conflict_term_spins l r rounds u bare set_off ends read differ =
    let start : last_index l + 1 ≡ suc (r.snapshot_index) = omega arith in
    rw start (jump_back-spins l r u rounds 0 r.snapshot_index refl bare set_off read differ)
