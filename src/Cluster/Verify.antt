-- ===== src/Cluster/Verify.antt =====
-- rsm/cluster.py: the check of `verify` for two leaders in one term.
use replicated_state_machine.Prelude.{
  ℕ, ◌≡◌, refl, sym, ap, ◌∙◌, subst, true, false, none, List, [], ◌∷◌, ◌++◌, elem, All, All-each,
  All-In, In, In-elem, Dict, get, insert, lookup, lookup-insert, ◌==◌, ==→eq, arith, Bool-cases,
  inl, inr,
}
use replicated_state_machine.Errors.{ok}
use replicated_state_machine.Node.State.{Node, distinct, is_leader, leader}
use replicated_state_machine.Cluster.{
  Cluster, running, claiming, group, one_per_term, up, leaders_by_term, verify_leaders,
}
use replicated_state_machine.Cluster.Runs.{Run, Run-Simulated, one_leader}
use replicated_state_machine.Cluster.Operations.{All-claiming, up-members}

elem-running :
    (i : ℕ) (down names : List ℕ) → elem i names ≡ false → elem i (running down names) ≡ false
elem-running i down [] h = refl
elem-running i down (one ∷ names) h = ground (arith, elem-running i down names)

distinct-running :
    (down names : List ℕ) → distinct names ≡ true → distinct (running down names) ≡ true
distinct-running down [] h = refl
distinct-running down (one ∷ names) h =
    ground (arith, distinct-running down names, elem-running one down names)

module _ (nodes : ℕ → Node) where
  elem-claiming :
      (i : ℕ) (names : List ℕ) → elem i names ≡ false → elem i (claiming nodes names) ≡ false
  elem-claiming i [] h = refl
  elem-claiming i (one ∷ names) h = elim (Bool-cases (is_leader (nodes one))) [
    | inl e ↦ let rest = elem-claiming i names (ground arith) in rw e (ground (arith, rest))
    | inr e ↦ rw e (elem-claiming i names (ground arith))
  ]

  distinct-claiming :
      (names : List ℕ) → distinct names ≡ true → distinct (claiming nodes names) ≡ true
  distinct-claiming [] h = refl
  distinct-claiming (one ∷ names) h =
      let rest = distinct-claiming names (ground arith) in
      let away = elem-claiming one names (ground arith) in
      elim (Bool-cases (is_leader (nodes one))) [
        | inl e ↦ rw e (ground (arith, rest, away))
        | inr e ↦ rw e rest
      ]

  Leads : ℕ → Type 0
  Leads i = (nodes i).role ≡ leader

  claiming-Leads : (names : List ℕ) → All Leads (claiming nodes names)
  unfolding Leads
  claiming-Leads [] = tt
  claiming-Leads (one ∷ names) =
      let rest = claiming-Leads names in
      elim (Bool-cases (is_leader (nodes one))) [
        | inl e ↦ rw e (ground arith, rest)
        | inr e ↦ rw e rest
      ]

  -- No two of the nodes have one term.
  abbrev Apart : List ℕ → Type 0
  Apart [] = Unit
  Apart (one ∷ names) = All (λ j. ((nodes one).term == (nodes j).term) ≡ false) names × Apart names

  distinct-Apart :
      (names : List ℕ)
      → distinct names ≡ true
      → ((i j : ℕ) → In i names → In j names → (nodes i).term ≡ (nodes j).term → i ≡ j)
      → Apart names
  distinct-Apart [] d h = tt
  distinct-Apart (one ∷ names) d h = (
    All-each _ names (λ j i. elim (Bool-cases ((nodes one).term == (nodes j).term)) [
      | inr e ↦ e
      | inl e ↦
          let same : one ≡ j = h one j (inl refl) (inr i) (==→eq _ _ e) in
          let again : elem one names ≡ true =
            subst (λ k. elem k names ≡ true) (sym same) (In-elem j names i) in
          absurd (ground (arith, again))
    ]),
    distinct-Apart names (ground arith) (λ i j a b. h i j (inr a) (inr b)),
  )

  one_per_term-insert :
      (term one : ℕ) (out : Dict (List ℕ))
      → one_per_term out ≡ ok tt
      → one_per_term (insert term (one ∷ []) out) ≡ ok tt
  one_per_term-insert term one [] h = refl
  one_per_term-insert term one ((t, ns) ∷ out) h = ground (arith, one_per_term-insert term one out)

  lookup-insert_apart :
      (term : ℕ) (v : List ℕ) (out : Dict (List ℕ)) (names : List ℕ)
      → All (λ j. (term == (nodes j).term) ≡ false) names
      → All (λ i. lookup (nodes i).term out ≡ none) names
      → All (λ i. lookup (nodes i).term (insert term v out) ≡ none) names
  lookup-insert_apart term v out [] a f = tt
  lookup-insert_apart term v out (one ∷ names) a f = (
    lookup-insert term (nodes one).term v out ∙ rw a.0 f.0,
    lookup-insert_apart term v out names a.1 f.1,
  )

  group-alone :
      (names : List ℕ) (out : Dict (List ℕ))
      → Apart names
      → All (λ i. lookup (nodes i).term out ≡ none) names
      → one_per_term out ≡ ok tt
      → one_per_term (group nodes names out) ≡ ok tt
  group-alone [] out a f h = h
  group-alone (one ∷ names) out a f h =
      let term = (nodes one).term in
      let held : get term [] out ≡ [] = ground (arith, f.0) in
      let e : get term [] out ++ one ∷ [] ≡ one ∷ [] = ap (λ (ns : List ℕ). ns ++ one ∷ []) held in
      rw e (
        group-alone names (insert term (one ∷ []) out) a.1
          (lookup-insert_apart term (one ∷ []) out names a.0 f.1)
          (one_per_term-insert term one out h))

-- In every cluster that calls of its methods make of members that are all different, the check of
-- `verify` for two leaders in one term passes.
pub verify_leaders-passes :
    {members : List ℕ} {c : Cluster}
    → Run members c
    → distinct members ≡ true
    → verify_leaders c ≡ ok tt
unfolding verify_leaders leaders_by_term up Leads
verify_leaders-passes {members} {c} r d =
    let (past, h) = Run-Simulated r in
    let names : List ℕ = running c.down c.members in
    let leaders : List ℕ = claiming c.nodes names in
    let d' : distinct c.members ≡ true = subst (λ ms. distinct ms ≡ true) (sym h.in_cluster) d in
    let known =
      All-claiming members (λ i. elem i members ≡ true) c.nodes names
        (up-members members past c h) in
    let lead = claiming-Leads c.nodes names in
    group-alone c.nodes leaders []
      (distinct-Apart c.nodes leaders
        (distinct-claiming c.nodes names (distinct-running c.down c.members d'))
        (λ i j a b same.
          one_leader i j r (All-In _ leaders known a) (All-In _ leaders known b)
            (All-In (Leads c.nodes) leaders lead a) (All-In (Leads c.nodes) leaders lead b) same))
      (All-each _ leaders (λ i a. refl)) refl
