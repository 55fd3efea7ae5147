-- ===== src/Cluster/Operations.antt =====
-- rsm/cluster.py: each operation of `Cluster`, as steps of System.
use replicated_state_machine.Prelude.{
  ℕ, ◌+◌, ◌≡◌, refl, sym, ap, subst, true, Option, none, some, List, [], ◌∷◌, ◌++◌, elem, All,
  All-each, In-elem, arith, Bool-cases, ◌==◌, ==→eq, inl, inr,
}
use replicated_state_machine.Errors.{ok, ok-injective, some-injective, >>=-inv}
use replicated_state_machine.Log.{Command}
use replicated_state_machine.Rpc.{Message}
use replicated_state_machine.Node.State.{Node, is_leader}
use replicated_state_machine.Node.Roles
use replicated_state_machine.Node.Replicate.{replicate}
use replicated_state_machine.Net
use replicated_state_machine.Net.{Network, Conditions, landed_by, flying_at, sort}
use replicated_state_machine.Net.Kept.{All-landed, All-flying, All-sort}
use replicated_state_machine.System.{later, write, restart}
use replicated_state_machine.Cluster
use replicated_state_machine.Cluster.{
  Cluster, put_node, running, up, wake, advance, propose_to, propose_by, leader, crash, discard,
  claiming, at_term, best, only,
}
use replicated_state_machine.Cluster.Restart.{restart_node}
use replicated_state_machine.Cluster.Simulation.{
  Simulated, Carried, deliver-Simulated, moved-Simulated, All-message, wake-Simulated,
  running-members,
}

module _ (members : List ℕ) where
  pub advance-Simulated :
      (past : List Message) (c d : Cluster)
      → Simulated members past c
      → advance c ≡ ok d
      → (past' : List Message) × Simulated members past' d
  unfolding advance Net.tick up
  advance-Simulated past c d h q =
      let netted : Cluster = record c { now = c.now + 1; net = (Net.tick c.net).0 } in
      let landed = sort (landed_by (c.net.now + 1) c.net.flight) in
      let all_sent = All-message members past landed (
        All-sort (Carried members past) _
          (All-landed (Carried members past) (c.net.now + 1) c.net.flight h.carried)) in
      let (c₁, r, s) = >>=-inv (Cluster.deliver netted (Net.tick c.net).1) _ q in
      let (past₁, h₁) =
        deliver-Simulated members past netted (Net.tick c.net).1
          (record {
            reach = h.reach;
            carried = All-flying (Carried members past) (c.net.now + 1) c.net.flight h.carried;
            on_net = h.on_net;
            in_cluster = h.in_cluster;
            stopped = h.stopped;
          })
          all_sent r in
      let all_members : All (λ i. elem i members ≡ true) c₁.members =
        subst (All (λ i. elem i members ≡ true)) (sym h₁.in_cluster)
          (All-each (λ i. elem i members ≡ true) members (λ i e. In-elem i members e)) in
      wake-Simulated members past₁ c₁ (up c₁) h₁
        (running-members members c₁.down c₁.members all_members) s

  pub propose_to-Simulated :
      (past : List Message) (c : Cluster) (name : ℕ) (command : Option Command) {d : Cluster}
      {index : ℕ}
      → Simulated members past c
      → elem name members ≡ true
      → propose_to c name command ≡ ok (d, index)
      → (past' : List Message) × Simulated members past' d
  unfolding propose_to
  propose_to-Simulated past c name command h e q =
      let (o, r, s) = >>=-inv (Roles.propose (c.nodes name) command) _ q in
      let (out, t, u) = >>=-inv (replicate o.0 none) _ s in
      let (d, v, w) = >>=-inv (Cluster.send (put_node c name o.0) out) _ u in
      let next =
        moved-Simulated members past c name o.0 out h (later h.reach (write name command e r t))
          v in
      (past ++ out, subst (Simulated members (past ++ out)) (ap (λ x. x.0) (ok-injective w)) next)

  elem-discard :
      (i name : ℕ) (names : List ℕ) → elem i (discard name names) ≡ true → elem i names ≡ true
  elem-discard i name [] h = h
  elem-discard i name (one ∷ names) h = elim (Bool-cases (one == name)) [
    | inl e ↦ let rest = elem-discard i name names (simp e at h) in ground (arith, rest)
    | inr e ↦ elim (Bool-cases (i == one)) [
      | inl f ↦ ground (arith, f)
      | inr f ↦ let rest = elem-discard i name names (simp (e, f) at h) in ground (arith, rest)
    ]
  ]

  pub restart-Simulated :
      (past : List Message) (c : Cluster) (name : ℕ) {d : Cluster}
      → Simulated members past c
      → Cluster.restart c name ≡ ok d
      → (past' : List Message) × Simulated members past' d
  unfolding Cluster.restart Cluster.send
  restart-Simulated past c name {d} h q = elim (Bool-cases (elem name c.down)) [
    | inr e ↦ absurd (ground arith)
    | inl e ↦
        let (n, r, s) =
          >>=-inv
            (restart_node (c.nodes name) name c.members (c.generators (c.seed + c.now) name)
              c.pre_vote c.now)
            _ (simp e at q) in
        let r' =
          subst
            (λ ms.
              restart_node (c.nodes name) name ms (c.generators (c.seed + c.now) name) c.pre_vote
                c.now
              ≡ ok n)
            h.in_cluster r in
        let next =
          moved-Simulated members past c name n [] h
            (later h.reach (
              restart name c.now (c.generators (c.seed + c.now) name) c.pre_vote (h.stopped name e)
                r'))
            refl in
        (
          past ++ [],
          subst (Simulated members (past ++ [])) (ok-injective s) (record {
            reach = next.reach;
            carried = next.carried;
            on_net = next.on_net;
            in_cluster = next.in_cluster;
            stopped = λ i f. next.stopped i (elem-discard i name c.down f);
          }),
        )
  ]

  pub crash-Simulated :
      (past : List Message) (c : Cluster) (name : ℕ) {d : Cluster}
      → Simulated members past c
      → crash c name ≡ ok d
      → Simulated members past d
  unfolding crash
  crash-Simulated past c name {d} h q = elim (Bool-cases (elem name c.members)) [
    | inr e ↦ absurd (ground arith)
    | inl e ↦
        let known : elem name members ≡ true = subst (λ ms. elem name ms ≡ true) h.in_cluster e in
        subst (Simulated members past) (ok-injective (simp e at q)) (record {
          reach = h.reach;
          carried = h.carried;
          on_net = h.on_net;
          in_cluster = h.in_cluster;
          stopped = λ i f. elim (Bool-cases (i == name)) [
            | inl here ↦ subst (λ x. elem x members ≡ true) (sym (==→eq i name here)) known
            | inr there ↦ h.stopped i (ground arith)
          ];
        })
  ]

  module _ (P : ℕ → Type 0) (nodes : ℕ → Node) where
    pub All-claiming : (names : List ℕ) → All P names → All P (claiming nodes names)
    All-claiming [] h = tt
    All-claiming (one ∷ names) h =
        let rest = All-claiming names h.1 in
        elim (Bool-cases (is_leader (nodes one))) [ inl e ↦ rw e (h.0, rest) | inr e ↦ rw e rest ]

    All-at_term : (term : ℕ) (names : List ℕ) → All P names → All P (at_term nodes term names)
    All-at_term term [] h = tt
    All-at_term term (one ∷ names) h =
        let rest = All-at_term term names h.1 in
        elim (Bool-cases ((nodes one).term == term)) [
          | inl e ↦ rw e (h.0, rest)
          | inr e ↦ rw e rest
        ]

    All-only : (names : List ℕ) (i : ℕ) → All P names → only names ≡ some i → P i
    All-only [] i h e = absurd (cc)
    All-only (one ∷ []) i h e = subst P (some-injective e) h.0
    All-only (one ∷ two ∷ names) i h e = absurd (cc)

  pub up-members :
      (past : List Message) (c : Cluster)
      → Simulated members past c
      → All (λ i. elem i members ≡ true) (up c)
  unfolding up
  up-members past c h = running-members members c.down c.members (
      subst (All (λ i. elem i members ≡ true)) (sym h.in_cluster)
        (All-each (λ i. elem i members ≡ true) members (λ i e. In-elem i members e)))

  leader-member :
      (past : List Message) (c : Cluster) (name : ℕ)
      → Simulated members past c
      → leader c ≡ some name
      → elem name members ≡ true
  unfolding leader
  leader-member past c name h e =
      All-only (λ i. elem i members ≡ true) c.nodes _ name
        (All-at_term (λ i. elem i members ≡ true) c.nodes _ _
          (All-claiming (λ i. elem i members ≡ true) c.nodes (up c) (up-members past c h)))
        e

  pub propose_by-Simulated :
      (past : List Message) (c : Cluster) (command : Option Command) (found : Option ℕ)
      {d : Cluster} {index : ℕ}
      → Simulated members past c
      → leader c ≡ found
      → propose_by c command found ≡ ok (d, index)
      → (past' : List Message) × Simulated members past' d
  propose_by-Simulated past c command none h e q = absurd (cc)
  propose_by-Simulated past c command (some name) h e q =
      propose_to-Simulated past c name command h (leader-member past c name h e) q

  pub propose-Simulated :
      (past : List Message) (c : Cluster) (command : Option Command) {d : Cluster} {index : ℕ}
      → Simulated members past c
      → Cluster.propose c command ≡ ok (d, index)
      → (past' : List Message) × Simulated members past' d
  unfolding Cluster.propose
  propose-Simulated past c command h q = propose_by-Simulated past c command (leader c) h refl q

  pub partition-Simulated :
      (past : List Message) (c : Cluster) (sides : List (List ℕ)) {d : Cluster}
      → Simulated members past c
      → Cluster.partition c sides ≡ ok d
      → Simulated members past d
  unfolding Cluster.partition Net.partition
  partition-Simulated past c sides h q =
      let (net, r, s) = >>=-inv (Net.partition c.net sides) _ q in
      let e : record c.net { sides = sides } ≡ net = ground arith in
      subst (Simulated members past) (ok-injective s) (
        subst (λ n. Simulated members past (record c { net = n })) e
          (record {
            reach = h.reach;
            carried = h.carried;
            on_net = h.on_net;
            in_cluster = h.in_cluster;
            stopped = h.stopped;
          }))
