-- ===== src/Net/Delivery.antt =====
-- rsm/net.py: which messages `tick` hands over, in which order, and that what `send` promises to
-- deliver is delivered.
use replicated_state_machine.Prelude.{
  In-append_left, In-append_right, ℕ, zero, suc, ◌+◌, ◌≤◌, ◌<◌, ◌≡◌, refl, sym, ap, subst, Bool,
  true, List, [], ◌∷◌, map, In, leb, ltb, arith, Bool-cases, inl, inr,
}
use replicated_state_machine.Errors.{ok}
use replicated_state_machine.Rpc.{Message}
use replicated_state_machine.Node.State.{InRange}
use replicated_state_machine.Net.{
  InFlight, Network, send, tick, landed_by, flying_at, put, sort, message_of, fly, count_sent,
}
use replicated_state_machine.Net.Kept.{Made, Made-IsNetwork, sort-landed, send_outcome}

-- In every network that can be made, `tick` hands over exactly the messages that are due, in the
-- order in which they were sent.
pub tick_in_order :
    {arriving lost : List Message} {n : Network}
    → Made arriving lost n
    → (tick n).1 ≡ map message_of (landed_by (n.now + 1) n.flight)
unfolding tick
tick_in_order {n = n} r =
    ap (map message_of) (sort-landed (n.now + 1) n.flight (Made-IsNetwork r).in_order)

module _ (one : InFlight) where
  In-landed :
      (now : ℕ) (fl : List InFlight) → one.due_at ≤ now → In one fl → In one (landed_by now fl)
  In-landed now [] due h = elim h [ ]
  In-landed now (two ∷ fl) due (inl e) =
      let d : leb two.due_at now ≡ true =
        subst (λ (t : InFlight). leb t.due_at now ≡ true) e (ground arith) in
      rw d (inl e)
  In-landed now (two ∷ fl) due (inr h) =
      let rest = In-landed now fl due h in
      elim (Bool-cases (leb two.due_at now)) [ inl d ↦ rw d (inr rest) | inr d ↦ rw d rest ]

  In-flying :
      (now : ℕ) (fl : List InFlight) → now < one.due_at → In one fl → In one (flying_at now fl)
  In-flying now [] due h = elim h [ ]
  In-flying now (two ∷ fl) due (inl e) =
      let d : ltb now two.due_at ≡ true =
        subst (λ (t : InFlight). ltb now t.due_at ≡ true) e (ground arith) in
      rw d (inl e)
  In-flying now (two ∷ fl) due (inr h) =
      let rest = In-flying now fl due h in
      elim (Bool-cases (ltb now two.due_at)) [ inl d ↦ rw d (inr rest) | inr d ↦ rw d rest ]

  In-put_self : (fl : List InFlight) → In one (put one fl)
  In-put_self [] = inl refl
  In-put_self (two ∷ fl) =
      let rest = In-put_self fl in
      elim (Bool-cases (leb one.sequence two.sequence)) [
        | inl d ↦ rw d (inl refl)
        | inr d ↦ rw d (inr rest)
      ]

  In-put : (two : InFlight) (fl : List InFlight) → In one fl → In one (put two fl)
  In-put two [] h = elim h [ ]
  In-put two (three ∷ fl) h = elim (Bool-cases (leb two.sequence three.sequence)) [
    | inl d ↦ rw d (inr h)
    | inr d ↦ elim h [
      | inl e ↦ rw d (inl e)
      | inr k ↦ let rest = In-put two fl k in rw d (inr rest)
    ]
  ]

  In-sort : (fl : List InFlight) → In one fl → In one (sort fl)
  In-sort [] h = h
  In-sort (two ∷ fl) (inl e) = subst (λ t. In one (put t (sort fl))) e (In-put_self (sort fl))
  In-sort (two ∷ fl) (inr h) = In-put two (sort fl) (In-sort fl h)

  In-message : (fl : List InFlight) → In one fl → In one.message (map message_of fl)
  In-message [] h = elim h [ ]
  In-message (two ∷ fl) (inl e) = inl (ap message_of e)
  In-message (two ∷ fl) (inr h) = inr (In-message fl h)

abbrev pub ticks : ℕ → Network → Network
ticks zero n = n
ticks (suc k) n = ticks k (tick n).0

ticks-delivered :
    (m : Message) (k : ℕ) (n : Network) → In m n.delivered → In m (ticks k n).delivered
unfolding tick
ticks-delivered m zero n h = h
ticks-delivered m (suc k) n h = ticks-delivered m k (tick n).0 (In-append_left m n.delivered _ h)

-- A message in flight lands when it is due.
ticks-lands :
    (one : InFlight) (k : ℕ) (n : Network)
    → In one n.flight
    → n.now < one.due_at
    → one.due_at ≤ n.now + k
    → In one.message (ticks k n).delivered
unfolding tick
ticks-lands one zero n h early due = absurd (omega arith)
ticks-lands one (suc k) n h early due = elim (Bool-cases (leb one.due_at (n.now + 1))) [
  | inl now ↦
      let landed =
        In-sort one (landed_by (n.now + 1) n.flight)
          (In-landed one (n.now + 1) n.flight (ground arith) h) in
      ticks-delivered one.message k (tick n).0
        (In-append_right one.message n.delivered _ (In-message one _ landed))
  | inr not_now ↦
      ticks-lands one k (tick n).0 (In-flying one (n.now + 1) n.flight (ground arith) h)
        (ground arith) (omega arith)
]

-- A message for which `send` answers that it will arrive is delivered within `max_delay` ticks, if
-- `randint` keeps to its bounds and these are those of a network that was made.
pub sent_arrives :
    (n : Network) (m : Message) {n' : Network}
    → InRange n.random
    → 1 ≤ n.conditions.min_delay
    → n.conditions.min_delay ≤ n.conditions.max_delay
    → send n m ≡ ok (n', true)
    → In m (ticks n.conditions.max_delay n').delivered
sent_arrives n m range least spread q = elim (send_outcome n m q) [
  | inl e ↦ absurd (cc)
  | inr (inl e) ↦ absurd (cc)
  | inr (inr e) ↦
      let (lo, hi) = range (n.drawn + 1) n.conditions.min_delay n.conditions.max_delay spread in
      let landed =
        ticks-lands
          (record {
            message = m;
            sent_at = n.now;
            due_at = n.now + n.random (n.drawn + 1) n.conditions.min_delay n.conditions.max_delay;
            sequence = n.sequence + 1;
          })
          n.conditions.max_delay (fly (count_sent n m) m) (In-append_right _ n.flight _ (inl refl))
          (omega (arith, lo, least)) (omega (arith, hi)) in
      subst (λ (o : Network × Bool). In m (ticks n.conditions.max_delay o.0).delivered) (sym e)
        landed
]
