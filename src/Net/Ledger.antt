-- ===== src/Net/Ledger.antt =====
-- rsm/net.py: what becomes of each message that a network was given.
use mathlib.Core.List.{Perm, append_assoc, map-append, perm_middle}
use mathlib.Core.List.Perm
use replicated_state_machine.Prelude.{
  ℕ, ◌+◌, ◌≡◌, refl, sym, ap, subst, true, false, List, [], ◌∷◌, ◌++◌, map, length, length-append,
  leb, ltb, arith, Bool-cases, inl, inr,
}
use replicated_state_machine.Rpc.{Message}
use replicated_state_machine.Net.{
  InFlight, Network, idle, new_network, add, partition, heal, tick, landed_by, flying_at,
  message_of, fly, count_sent, drop_by_partition, drop_by_loss, record_message,
}
use replicated_state_machine.Net.Kept.{
  Made, made, added, parted, healed, accepted, refused, ticked, Made-IsNetwork, InOrder,
  send_outcome, sort-landed,
}

-- What a network was given, and what it has made of it.
pub record Accounted (arriving lost : List Message) (n : Network) : Type 0 where
  pub each_once : Perm (n.delivered ++ map message_of n.flight) arriving
  pub total : n.counts.sent ≡ length arriving + length lost
  pub drops : n.counts.dropped_by_loss + n.counts.dropped_by_partition ≡ length lost

abbrev messages : List InFlight → List Message
messages = map message_of

-- What lands and what flies on are the messages that were in flight.
Perm-landed-flying :
    (now : ℕ) (fl : List InFlight)
    → Perm (messages (landed_by now fl) ++ messages (flying_at now fl)) (messages fl)
Perm-landed-flying now [] = Perm.rfl
Perm-landed-flying now (one ∷ fl) =
    let rest = Perm-landed-flying now fl in
    elim (Bool-cases (leb one.due_at now)) [
      | inl due ↦
          let over : ltb now one.due_at ≡ false = ground arith in
          rw (due, over) (Perm.cons one.message rest)
      | inr not_due ↦
          let still : ltb now one.due_at ≡ true = ground arith in
          rw (not_due, still)
            (Perm.trans (perm_middle (messages (landed_by now fl)) _) (Perm.cons one.message rest))
    ]

Accounted-same :
    (arriving lost : List Message) (n : Network) (members : List ℕ) (sides : List (List ℕ))
    → Accounted arriving lost n
    → Accounted arriving lost (record n { members = members; sides = sides })
Accounted-same arriving lost n members sides a = record {
  each_once = a.each_once;
  total = a.total;
  drops = a.drops;
}

Accounted-fly :
    (arriving lost : List Message) (n : Network) (m : Message)
    → Accounted arriving lost n
    → Accounted (arriving ++ m ∷ []) lost (fly (count_sent n m) m)
unfolding record_message
Accounted-fly arriving lost n m a = record {
  each_once =
      rw
        (
          map-append message_of n.flight _,
          sym (append_assoc n.delivered (messages n.flight) (m ∷ [])),
        )
        (Perm.append_right (m ∷ []) a.each_once);
  total = omega (arith, a.total, length-append arriving (m ∷ []));
  drops = a.drops;
}

Accounted-refused :
    (arriving lost : List Message) (n : Network) (m : Message)
    → Accounted arriving lost n
    → Accounted arriving (lost ++ m ∷ []) (drop_by_partition (count_sent n m))
      × Accounted arriving (lost ++ m ∷ []) (drop_by_loss (count_sent n m))
unfolding record_message
Accounted-refused arriving lost n m a = (
  record {
    each_once = a.each_once;
    total = omega (arith, a.total, length-append lost (m ∷ []));
    drops = omega (arith, a.drops, length-append lost (m ∷ []));
  },
  record {
    each_once = a.each_once;
    total = omega (arith, a.total, length-append lost (m ∷ []));
    drops = omega (arith, a.drops, length-append lost (m ∷ []));
  },
)

Accounted-tick :
    (arriving lost : List Message) (n : Network)
    → InOrder n.flight
    → Accounted arriving lost n
    → Accounted arriving lost (tick n).0
unfolding tick
Accounted-tick arriving lost n in_order a = record {
  each_once =
      rw
        (
          sort-landed (n.now + 1) n.flight in_order,
          append_assoc n.delivered (messages (landed_by (n.now + 1) n.flight))
              (messages (flying_at (n.now + 1) n.flight)),
        )
        (Perm.trans (Perm.append_left n.delivered (Perm-landed-flying (n.now + 1) n.flight))
          a.each_once);
  total = a.total;
  drops = a.drops;
}

-- Every call keeps the account.
Made-Accounted :
    {arriving lost : List Message} {n : Network} → Made arriving lost n → Accounted arriving lost n
unfolding new_network add partition heal
Made-Accounted (made members random chance c {n} h) =
    let e : idle members random chance c ≡ n = ground arith in
    subst (Accounted [] []) e (record { each_once = Perm.rfl; total = refl; drops = refl })
Made-Accounted {arriving} {lost} (added {n = n} {m = m} name r h) =
    let e : record n { members = n.members ++ name ∷ [] } ≡ m = ground arith in
    subst (Accounted arriving lost) e
      (Accounted-same arriving lost n (n.members ++ name ∷ []) n.sides (Made-Accounted r))
Made-Accounted {arriving} {lost} (parted {n = n} {m = m} sides r h) =
    let e : record n { sides = sides } ≡ m = ground arith in
    subst (Accounted arriving lost) e
      (Accounted-same arriving lost n n.members sides (Made-Accounted r))
Made-Accounted {arriving} {lost} (healed {n = n} r) =
    Accounted-same arriving lost n n.members [] (Made-Accounted r)
Made-Accounted (accepted {arriving = arriving} {lost = lost} {n = n} {m = m} message r h) =
    let next = Accounted-fly arriving lost n message (Made-Accounted r) in
    elim (send_outcome n message h) [
      | inl e ↦ absurd (cc (ap (λ o. o.1) e))
      | inr (inl e) ↦ absurd (cc (ap (λ o. o.1) e))
      | inr (inr e) ↦ subst (Accounted (arriving ++ message ∷ []) lost) (sym (ap (λ o. o.0) e)) next
    ]
Made-Accounted (refused {arriving = arriving} {lost = lost} {n = n} {m = m} message r h) =
    let (cut, dropped) = Accounted-refused arriving lost n message (Made-Accounted r) in
    elim (send_outcome n message h) [
      | inl e ↦ subst (Accounted arriving (lost ++ message ∷ [])) (sym (ap (λ o. o.0) e)) cut
      | inr (inl e) ↦
          subst (Accounted arriving (lost ++ message ∷ [])) (sym (ap (λ o. o.0) e)) dropped
      | inr (inr e) ↦ absurd (cc (ap (λ o. o.1) e))
    ]
Made-Accounted {arriving} {lost} (ticked {n = n} r) =
    Accounted-tick arriving lost n (Made-IsNetwork r).in_order (Made-Accounted r)

-- In every network that can be made, the messages delivered and those in flight are together, each as
-- often as it was sent, the messages for which `send` answered that they will arrive. The count of
-- messages sent is of these and the others, the two counts of dropped messages are of the others, the
-- count of messages delivered is of those delivered, and the messages in flight are in send order.
pub conserved :
    {arriving lost : List Message} {n : Network}
    → Made arriving lost n
    → Accounted arriving lost n × InOrder n.flight × (n.counts.delivered ≡ length n.delivered)
conserved r = let h = Made-IsNetwork r in (Made-Accounted r, h.in_order, sym h.logged)
