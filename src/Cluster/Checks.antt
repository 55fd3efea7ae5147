-- ===== src/Cluster/Checks.antt =====
-- rsm/cluster.py: what a tick with its checks may raise.
use replicated_state_machine.Prelude.{
  ℕ, zero, suc, ◌+◌, ◌≤◌, ◌<◌, ◌≡◌, refl, sym, min, true, Option, none, some, List, [], ◌∷◌, ◌++◌,
  All, length, Bool-cases, ◌⊎◌, inl, inr, arith,
}
use replicated_state_machine.Errors.{Error, Result, ok, err, state_machine_safety, Result-cases}
use replicated_state_machine.Log.{Entry, Command, nth}
use replicated_state_machine.Node.State.{Node, distinct}
use replicated_state_machine.Cluster.{Cluster, up, leader, advance}
use replicated_state_machine.Cluster.Logs.{verify_logs-passes}
use replicated_state_machine.Cluster.Verify.{verify_leaders-passes}
use replicated_state_machine.Cluster.Runs.{Run, ticked}
use replicated_state_machine.Cluster.Ticks.{
  Observed, tick, verify, verify_applied, same_commands, commands_at, at_most_one, shortest,
  shortest_of, see_nodes, least_of, note_leader, is_last,
}

least_of-le : (nodes : ℕ → Node) (least : ℕ) (names : List ℕ) → least_of nodes least names ≤ least
least_of-le nodes least [] = omega arith
least_of-le nodes least (one ∷ names) =
    omega (arith, least_of-le nodes (min least (length (nodes one).applied)) names)

least_of-each :
    (nodes : ℕ → Node) (least : ℕ) (names : List ℕ)
    → All (λ one. least_of nodes least names ≤ length (nodes one).applied) names
least_of-each nodes least [] = tt
least_of-each nodes least (one ∷ names) =
    let next : ℕ = min least (length (nodes one).applied) in
    (omega (arith, least_of-le nodes next names), least_of-each nodes next names)

shortest_of-each :
    (nodes : ℕ → Node) (names : List ℕ)
    → All (λ one. shortest_of nodes names ≤ length (nodes one).applied) names
shortest_of-each nodes [] = tt
shortest_of-each nodes (one ∷ names) = (
  least_of-le nodes (length (nodes one).applied) names,
  least_of-each nodes (length (nodes one).applied) names,
)

nth-total : (es : List Entry) (i : ℕ) → i < length es → (e : Entry) × (nth es i ≡ ok e)
nth-total [] i h = absurd (omega arith)
nth-total (e ∷ es) zero h = (e, refl)
nth-total (e ∷ es) (suc i) h = nth-total es i (omega arith)

commands_at-total :
    (nodes : ℕ → Node) (position n : ℕ) (names : List ℕ)
    → position < n
    → All (λ one. n ≤ length (nodes one).applied) names
    → (commands : List (Option Command)) × (commands_at nodes position names ≡ ok commands)
commands_at-total nodes position n [] lt h = ([], refl)
commands_at-total nodes position n (one ∷ names) lt h =
    let (e, q) = nth-total (nodes one).applied position (omega (arith, h.0)) in
    let (rest, r) = commands_at-total nodes position n names lt h.1 in
    (e.command ∷ rest, rw (q, r) refl)

same_commands-raises :
    (nodes : ℕ → Node) (names : List ℕ) (n position rounds : ℕ) (e : Error)
    → position + rounds ≤ n
    → All (λ one. n ≤ length (nodes one).applied) names
    → same_commands nodes names position rounds ≡ err e
    → e ≡ state_machine_safety
unfolding same_commands
same_commands-raises nodes names n position zero e le h q = cc
same_commands-raises nodes names n position (suc rounds) e le h q =
    let (commands, r) = commands_at-total nodes position n names (omega arith) h in
    elim (Bool-cases (at_most_one commands)) [
      | inl one ↦
          same_commands-raises nodes names n (position + 1) rounds e (omega arith) h
            (rw (r, one) at q)
      | inr more ↦ sym (err-injective (rw (r, more) at q))
    ]
  where
    err-injective : {d f : Error} → ◌≡◌ {A = Result (Unit {0})} (err d) (err f) → d ≡ f
    err-injective k = cc

verify_applied-raises :
    (c : Cluster) (e : Error) → verify_applied c ≡ err e → e ≡ state_machine_safety
unfolding verify_applied shortest
verify_applied-raises c e q =
    same_commands-raises c.nodes (up c) (shortest_of c.nodes (up c)) 0 (shortest_of c.nodes (up c))
      e (omega arith) (shortest_of-each c.nodes (up c)) q

note_leader-cluster : (o : Observed) (found : Option ℕ) → (note_leader o found).cluster ≡ o.cluster
note_leader-cluster o none = refl
note_leader-cluster o (some name) = elim (Bool-cases (is_last name o.last_leader)) [
  | inl e ↦ rw e refl
  | inr e ↦ rw e refl
]

-- In every cluster that calls of its methods make of members that are all different, with commands that
-- can be hashed, a tick with its checks raises what a node or the network raises, or
-- StateMachineSafety; if it returns, what it returns is such a cluster.
pub tick_raises :
    {members : List ℕ} (o : Observed)
    → Run members o.cluster
    → distinct members ≡ true
    → ((e : Error) × (tick o ≡ err e) × ((advance o.cluster ≡ err e) ⊎ (e ≡ state_machine_safety)))
      ⊎ ((o' : Observed) × (tick o ≡ ok o') × Run members o'.cluster)
unfolding tick verify
tick_raises o r d = elim (Result-cases (advance o.cluster)) [
  | inl (e, q) ↦ inl (e, rw q refl, inl q)
  | inr (c, q) ↦
      let after = ticked r q in
      let leaders = verify_leaders-passes after d in
      let logs = verify_logs-passes after in
      let made : Observed = record (note_leader (record o { cluster = c }) (leader c)) {
        history =
            (note_leader (record o { cluster = c }) (leader c)).history
            ++ (c.now, see_nodes c.nodes (up c)) ∷ [];
      } in
      let same : made.cluster ≡ c = note_leader-cluster (record o { cluster = c }) (leader c) in
      elim (Bool-cases o.check) [
        | inr off ↦ inr (made, rw (q, off) refl, rw same after)
        | inl on ↦ elim (Result-cases (verify_applied c)) [
          | inl (e, f) ↦
              inl (e, rw (q, on, leaders, logs, f) refl, inr (verify_applied-raises c e f))
          | inr (u, f) ↦ inr (made, rw (q, on, leaders, logs, f) refl, rw same after)
        ]
      ]
]
