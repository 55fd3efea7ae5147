-- ===== src/Cluster/Logs.antt =====
-- rsm/cluster.py: the check of `verify` for logs that differ at one index and term.
use replicated_state_machine.Prelude.{
  ℕ, ◌≡◌, refl, sym, ap, ◌∙◌, true, false, not, ◌&&◌, Bool, none, some, Option, List, [], ◌∷◌, elem,
  All, All-each, All-In, Dict, insert, lookup, lookup-insert, ◌==◌, ==→eq, arith, Bool-cases,
  Option-cases, inl, inr, if◌then◌else◌,
}
use replicated_state_machine.Errors.{Result, ok, err, ◌>>=◌, log_matching, some-injective}
use replicated_state_machine.Log.{Entry, Command, set, other}
use replicated_state_machine.Node.State.{Node}
use replicated_state_machine.System.Matching
use replicated_state_machine.Cluster.{Cluster, running, up}
use replicated_state_machine.Cluster.Runs.{Run, Run-Simulated}
use replicated_state_machine.Cluster.Operations.{up-members}

-- `==` on commands
abbrev pub same_command : Option Command → Option Command → Bool
same_command none none = true
same_command (some (set k v)) (some (set l w)) = (k == l) && (v == w)
same_command (some (other a)) (some (other b)) = a == b
same_command _ _ = false

-- `by_index` of `verify`: the term and the command first seen at an index.
abbrev pub ByIndex : Type 0
ByIndex = Dict (ℕ × Option Command)

-- the body of the inner loop, behind `by_index.get(entry.index)`
abbrev pub see : ByIndex → Entry → Option (ℕ × Option Command) → Result ByIndex
see seen e none = ok (insert e.index (e.term, e.command) seen)
see seen e (some (term, command)) =
    if (term == e.term) && not (same_command command e.command) then err log_matching else ok seen

unfoldable pub see_entries : ByIndex → List Entry → Result ByIndex
see_entries seen [] = ok seen
see_entries seen (e ∷ es) = do seen' ← see seen e (lookup e.index seen); see_entries seen' es

unfoldable pub see_logs : (ℕ → Node) → ByIndex → List ℕ → Result ByIndex
see_logs nodes seen [] = ok seen
see_logs nodes seen (one ∷ names) = do
  seen' ← see_entries seen (nodes one).log.entries
  see_logs nodes seen' names

-- the second loop of `verify`
unfoldable pub verify_logs : Cluster → Result (Unit {0})
verify_logs c = do _ ← see_logs c.nodes [] (up c); ok tt

same_command_refl : (c : Option Command) → same_command c c ≡ true
same_command_refl none = refl
same_command_refl (some (set k v)) = ground arith
same_command_refl (some (other a)) = ground arith

module _ (P : Entry → Type 0)
    (unique : (e f : Entry) → P e → P f → e.term ≡ f.term → e.index ≡ f.index → e ≡ f) where
  -- What was seen at an index comes from an entry there.
  abbrev Seen : ByIndex → Type 0
  Seen seen =
      (k : ℕ) (v : ℕ × Option Command)
      → lookup k seen ≡ some v
      → (e : Entry) × P e × (e.index ≡ k) × (v ≡ (e.term, e.command))

  insert-Seen :
      (seen : ByIndex) (e : Entry)
      → Seen seen
      → P e
      → Seen (insert e.index (e.term, e.command) seen)
  insert-Seen seen e h p k v q =
      let q' = sym (lookup-insert e.index k (e.term, e.command) seen) ∙ q in
      elim (Bool-cases (e.index == k)) [
        | inl here ↦ (e, p, ==→eq e.index k here, sym (some-injective (rw here at q')))
        | inr there ↦ h k v (rw there at q')
      ]

  see-Seen :
      (seen : ByIndex) (e : Entry)
      → Seen seen
      → P e
      → (seen' : ByIndex) × (see seen e (lookup e.index seen) ≡ ok seen') × Seen seen'
  see-Seen seen e h p = elim (Option-cases (lookup e.index seen)) [
    | inl new ↦ (insert e.index (e.term, e.command) seen, rw new refl, insert-Seen seen e h p)
    | inr (v, old) ↦
        let (f, pf, x, same) = h e.index v old in
        elim (Bool-cases (v.0 == e.term)) [
          | inr other_term ↦ (seen, rw (old, other_term) refl, h)
          | inl one_term ↦
              let t : f.term ≡ e.term =
                sym (ap (λ (w : ℕ × Option Command). w.0) same) ∙ ==→eq v.0 e.term one_term in
              let eq : v.1 ≡ e.command =
                ap (λ (w : ℕ × Option Command). w.1) same
                ∙ ap (λ g. g.command) (unique f e pf p t x) in
              let agree : same_command v.1 e.command ≡ true = rw eq (same_command_refl e.command) in
              (seen, rw (old, one_term, agree) refl, h)
        ]
  ]

  see_entries-Seen :
      (seen : ByIndex) (es : List Entry)
      → Seen seen
      → All P es
      → (seen' : ByIndex) × (see_entries seen es ≡ ok seen') × Seen seen'
  unfolding see_entries
  see_entries-Seen seen [] h p = (seen, refl, h)
  see_entries-Seen seen (e ∷ es) h p =
      let (mid, q, k) = see-Seen seen e h p.0 in
      let (end, r, l) = see_entries-Seen mid es k p.1 in (end, rw q r, l)

  see_logs-Seen :
      (nodes : ℕ → Node) (seen : ByIndex) (names : List ℕ)
      → Seen seen
      → All (λ i. All P (nodes i).log.entries) names
      → (seen' : ByIndex) × (see_logs nodes seen names ≡ ok seen') × Seen seen'
  unfolding see_logs
  see_logs-Seen nodes seen [] h p = (seen, refl, h)
  see_logs-Seen nodes seen (one ∷ names) h p =
      let (mid, q, k) = see_entries-Seen seen (nodes one).log.entries h p.0 in
      let (end, r, l) = see_logs-Seen nodes mid names k p.1 in (end, rw q r, l)

-- In every cluster that calls of its methods make, the check of `verify` for logs that hold
-- different commands at one index and term passes.
pub verify_logs-passes : {members : List ℕ} {c : Cluster} → Run members c → verify_logs c ≡ ok tt
unfolding verify_logs up
verify_logs-passes {members} {c} r =
    let (past, h) = Run-Simulated r in
    let sound = Matching.Reach-Sound h.reach in
    let known = sound.written in
    let inside = up-members members past c h in
    let logs : All (λ i. All sound.K (c.nodes i).log.entries) (running c.down c.members) =
      All-each _ (running c.down c.members) (λ i a.
        known.logs i (All-In (λ i. elem i members ≡ true) (running c.down c.members) inside a)) in
    let (seen, q, _) =
      see_logs-Seen sound.K known.unique c.nodes [] (running c.down c.members)
        (λ k v q. absurd (cc)) logs in
    rw q refl
