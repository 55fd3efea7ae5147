-- ===== src/Cluster/Simulation.antt =====
-- rsm/cluster.py: every run of a `Cluster` is a schedule of System: what its loops deliver has been
-- sent, to a member.
use replicated_state_machine.Prelude.{
  ℕ, ◌≡◌, sym, ap, subst, Bool, true, List, [], ◌∷◌, ◌++◌, map, elem, All, All-append, In,
  In-append_left, In-append_right, All-each, Bool-cases, inl, inr,
}
use replicated_state_machine.Errors.{ok, ok-injective, >>=-inv}
use replicated_state_machine.Rpc.{Message}
use replicated_state_machine.Node.State.{Node}
use replicated_state_machine.Node.Roles.{tick}
use replicated_state_machine.Node.Step.{step}
use replicated_state_machine.Net
use replicated_state_machine.Net.{InFlight, Network, landed_by, flying_at, put, sort, message_of}
use replicated_state_machine.Net.Kept.{send_outcome, send_member}
use replicated_state_machine.System.{Reach, later, deliver, pass}
use replicated_state_machine.Cluster
use replicated_state_machine.Cluster.{Cluster, put_node, running, up, wake, advance}

-- A message that was sent to a member.
abbrev pub Sent : List ℕ → List Message → Message → Type 0
Sent members past m = (In m past) × (elem m.recipient members ≡ true)

abbrev pub Carried : List ℕ → List Message → InFlight → Type 0
Carried members past one = Sent members past one.message

-- The cluster is at a state that the schedules of System reach, and its network carries only
-- messages that were sent there.
pub record Simulated (members : List ℕ) (past : List Message) (c : Cluster) : Type 0 where
  pub reach : Reach members (record { nodes = c.nodes; sent = past })
  pub carried : All (Carried members past) c.net.flight
  pub on_net : c.net.members ≡ members
  pub in_cluster : c.members ≡ members
  pub stopped : (i : ℕ) → elem i c.down ≡ true → elem i members ≡ true

module _ (members : List ℕ) where
  Carried-later :
      (past more : List Message) (fl : List InFlight)
      → All (Carried members past) fl
      → All (Carried members (past ++ more)) fl
  Carried-later past more [] h = tt
  Carried-later past more (one ∷ fl) h =
      ((In-append_left one.message past more h.0.0, h.0.1), Carried-later past more fl h.1)

  Sent-later :
      (past more : List Message) (ms : List Message)
      → All (Sent members past) ms
      → All (Sent members (past ++ more)) ms
  Sent-later past more [] h = tt
  Sent-later past more (m ∷ ms) h =
      ((In-append_left m past more h.0.0, h.0.1), Sent-later past more ms h.1)

  abbrev Carries : List Message → Network × Bool → Type 0
  Carries past out = All (Carried members past) out.0.flight × (out.0.members ≡ members)

  -- What the network carries after a `send`.
  send-Carried :
      (past : List Message) (n : Network) (m : Message) {out : Network × Bool}
      → n.members ≡ members
      → In m past
      → All (Carried members past) n.flight
      → Net.send n m ≡ ok out
      → (All (Carried members past) out.0.flight) × (out.0.members ≡ members)
  send-Carried past n m {out} e i h q =
      let member : elem m.recipient members ≡ true =
        subst (λ ms. elem m.recipient ms ≡ true) e (send_member n m q) in
      elim (send_outcome n m q) [
        | inl f ↦ subst (Carries past) (sym f) (h, e)
        | inr (inl f) ↦ subst (Carries past) (sym f) (h, e)
        | inr (inr f) ↦
            subst (Carries past) (sym f)
              (All-append (Carried members past) n.flight _ h ((i, member), tt), e)
      ]

  -- Handing messages to the network changes no node.
  pub send-Simulated :
      (past : List Message) (c : Cluster) (ms : List Message) {c' : Cluster}
      → Simulated members past c
      → All (λ m. In m past) ms
      → Cluster.send c ms ≡ ok c'
      → (Simulated members past c') × (c'.down ≡ c.down)
  unfolding Cluster.send
  send-Simulated past c [] h i q =
      let e = ok-injective q in
      (subst (Simulated members past) e h, ap (λ (k : Cluster). k.down) (sym e))
  send-Simulated past c (m ∷ ms) h i q = elim (Bool-cases (elem m.sender c.down)) [
    | inl stopped ↦ send-Simulated past c ms h i.1 (simp stopped at q)
    | inr up ↦
        let (o, r, s) = >>=-inv (Net.send c.net m) _ (simp up at q) in
        let (carried, on_net) = send-Carried past c.net m h.on_net i.0 h.carried r in
        send-Simulated past (record c { net = o.0 }) ms
          (record {
            reach = h.reach;
            carried = carried;
            on_net = on_net;
            in_cluster = h.in_cluster;
            stopped = h.stopped;
          })
          i.1 s
  ]

  pub All-message :
      (past : List Message) (fl : List InFlight)
      → All (Carried members past) fl
      → All (Sent members past) (map message_of fl)
  All-message past [] h = tt
  All-message past (one ∷ fl) h = (h.0, All-message past fl h.1)

  All-In : (past ms : List Message) → All (λ m. In m (past ++ ms)) ms
  All-In past ms = All-each (λ m. In m (past ++ ms)) ms (λ m h. In-append_right m past ms h)

  -- A node has moved by one step of System, and its output is on the network.
  pub moved-Simulated :
      (past : List Message) (c : Cluster) (i : ℕ) (n : Node) (out : List Message) {c' : Cluster}
      → Simulated members past c
      → Reach members (record { nodes = (put_node c i n).nodes; sent = past ++ out })
      → Cluster.send (put_node c i n) out ≡ ok c'
      → Simulated members (past ++ out) c'
  moved-Simulated past c i n out h r q =
      (send-Simulated (past ++ out) (put_node c i n) out
        (record {
          reach = r;
          carried = Carried-later past out c.net.flight h.carried;
          on_net = h.on_net;
          in_cluster = h.in_cluster;
          stopped = h.stopped;
        })
        (All-In past out) q).0

  -- The first loop of `tick`: what it hands to the nodes has been sent.
  pub deliver-Simulated :
      (past : List Message) (c : Cluster) (ms : List Message) {c' : Cluster}
      → Simulated members past c
      → All (Sent members past) ms
      → Cluster.deliver c ms ≡ ok c'
      → (past' : List Message) × Simulated members past' c'
  unfolding Cluster.deliver
  deliver-Simulated past c [] h i q = (past, subst (Simulated members past) (ok-injective q) h)
  deliver-Simulated past c (m ∷ ms) h i q = elim (Bool-cases (elem m.recipient c.down)) [
    | inl stopped ↦ deliver-Simulated past c ms h i.1 (simp stopped at q)
    | inr running ↦
        let (o, r, s) = >>=-inv (step (c.nodes m.recipient) m) _ (simp running at q) in
        let (c₁, t, u) = >>=-inv (Cluster.send (put_node c m.recipient o.0) o.1) _ s in
        let next =
          moved-Simulated past c m.recipient o.0 o.1 h (later h.reach (deliver m i.0.0 i.0.1 r))
            t in
        deliver-Simulated (past ++ o.1) c₁ ms next (Sent-later past o.1 ms i.1) u
  ]

  -- The second loop of `tick`, over names of members.
  pub wake-Simulated :
      (past : List Message) (c : Cluster) (names : List ℕ) {c' : Cluster}
      → Simulated members past c
      → All (λ i. elem i members ≡ true) names
      → wake c names ≡ ok c'
      → (past' : List Message) × Simulated members past' c'
  unfolding wake
  wake-Simulated past c [] h i q = (past, subst (Simulated members past) (ok-injective q) h)
  wake-Simulated past c (one ∷ names) h i q =
      let (o, r, s) = >>=-inv (tick (c.nodes one) c.now) _ q in
      let (c₁, t, u) = >>=-inv (Cluster.send (put_node c one o.0) o.1) _ s in
      wake-Simulated (past ++ o.1) c₁ names
        (moved-Simulated past c one o.0 o.1 h (later h.reach (pass one c.now i.0 r)) t) i.1 u

  pub running-members :
      (down names : List ℕ)
      → All (λ i. elem i members ≡ true) names
      → All (λ i. elem i members ≡ true) (running down names)
  running-members down [] h = tt
  running-members down (one ∷ names) h =
      let rest = running-members down names h.1 in
      elim (Bool-cases (elem one down)) [ inl e ↦ rw e rest | inr e ↦ rw e (h.0, rest) ]
