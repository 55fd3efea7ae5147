-- ===== src/System/Safety.antt =====
-- Election safety, in every system that can be reached.
use replicated_state_machine.Prelude.{
  ℕ, ◌+◌, ◌/◌, ◌≤◌, ◌≡◌, sym, ◌∙◌, subst, Option, List, [], ◌∷◌, length, elem, true, some, All,
  arith, Bool-cases, inl, inr, ◌==◌, ==→eq,
}
use replicated_state_machine.Node.State.{leader, quorum}
use replicated_state_machine.Node.Election.Turn.{Ballots}
use replicated_state_machine.Quorum.Overlap.{overlap, Within}
use replicated_state_machine.System.{System, Reach}
use replicated_state_machine.System.Invariant.{History, VotedFor, Inv}
use replicated_state_machine.System.Kept.{Reach-Inv}

module _ (B : ℕ → Type 0) (members : List ℕ) where
  Ballots-Within :
      (names : List ℕ) → All (λ v. (elem v members ≡ true) × B v) names → Within members names
  Ballots-Within [] h = tt
  Ballots-Within (v ∷ names) h = (h.0.0, Ballots-Within names h.1)

  Ballots-at :
      (names : List ℕ) (v : ℕ)
      → All (λ v. (elem v members ≡ true) × B v) names
      → elem v names ≡ true
      → B v
  Ballots-at [] v h e = absurd (cc)
  Ballots-at (x ∷ names) v h e = elim (Bool-cases (v == x)) [
    | inl here ↦ subst B (sym (==→eq v x here)) h.0.1
    | inr there ↦ Ballots-at names v h.1 (ground arith)
  ]

-- Two majorities of one cluster share a voter, who voted once.
pub same_votes :
    (members : List ℕ) (history : History) (i j term : ℕ) (xs ys : List ℕ)
    → Ballots (VotedFor history i) members term xs
    → Ballots (VotedFor history j) members term ys
    → length members / 2 + 1 ≤ length xs
    → length members / 2 + 1 ≤ length ys
    → i ≡ j
same_votes members history i j term xs ys (dx, hx) (dy, hy) qx qy =
    let (v, ex, ey) =
      overlap members xs ys dx dy (Ballots-Within (λ v. VotedFor history i v term) members xs hx)
        (Ballots-Within (λ v. VotedFor history j v term) members ys hy) (omega arith) in
    let for_i = Ballots-at (λ v. VotedFor history i v term) members xs v hx ex in
    let for_j = Ballots-at (λ v. VotedFor history j v term) members ys v hy ey in
    let e : ◌≡◌ {A = Option ℕ} (some i) (some j) = sym for_i ∙ for_j in cc

-- A leader has the ballots of a quorum.
pub leader-Ballots :
    {members : List ℕ} {history : History} {s : System}
    → Inv members history s
    → (i : ℕ) → elem i members ≡ true
    → (s.nodes i).role ≡ leader
    → (names : List ℕ) × Ballots (VotedFor history i) members (s.nodes i).term names
      × (length members / 2 + 1 ≤ length names)
unfolding quorum
leader-Ballots {members} {history} {s} inv i e l =
    let (names, b, q) = (inv.backed i e).leading l in
    (
      names,
      subst (λ ms. Ballots (VotedFor history i) ms (s.nodes i).term names) (inv.cluster i e) b,
      subst (λ ms. length ms / 2 + 1 ≤ length names) (inv.cluster i e) q,
    )

-- Two leaders of one term are one member.
pub leaders_same :
    {members : List ℕ} {history : History} {s : System}
    → Inv members history s
    → (i j : ℕ) → elem i members ≡ true
    → elem j members ≡ true
    → (s.nodes i).role ≡ leader
    → (s.nodes j).role ≡ leader
    → (s.nodes i).term ≡ (s.nodes j).term
    → i ≡ j
leaders_same {members} {history} {s} inv i j ei ej li lj same =
    let (xs, bx, qx) = leader-Ballots inv i ei li in
    let (ys, by, qy) = leader-Ballots inv j ej lj in
    same_votes members history i j (s.nodes j).term xs ys
      (subst (λ t. Ballots (VotedFor history i) members t xs) same bx) by qx qy

-- In every system that can be reached from fresh nodes, by any deliveries, clocks, writes, crashes
-- and restarts, two members that lead in the same term are one.
pub election_safety :
    {members : List ℕ} {s : System}
    → Reach members s
    → (i j : ℕ) → elem i members ≡ true
    → elem j members ≡ true
    → (s.nodes i).role ≡ leader
    → (s.nodes j).role ≡ leader
    → (s.nodes i).term ≡ (s.nodes j).term
    → i ≡ j
election_safety r i j = let (history, inv) = Reach-Inv r in leaders_same inv i j
