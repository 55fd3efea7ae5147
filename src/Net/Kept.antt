-- ===== src/Net/Kept.antt =====
-- rsm/net.py: what every network keeps, whatever is sent, delivered, cut or healed.
use replicated_state_machine.Prelude.{
  ℕ, suc, ◌+◌, ◌≤◌, ◌<◌, ◌≡◌, refl, sym, ap, ◌∙◌, subst, Bool, true, false, List, [], ◌∷◌, ◌++◌,
  map, length, length-append, All, All-append, leb, ltb, arith, Bool-cases, elem, ◌&&◌, inl, inr,
  ◌⊎◌,
}
use replicated_state_machine.Errors.{ok}
use replicated_state_machine.Rpc.{Message}
use replicated_state_machine.Node.State.{Generator}
use replicated_state_machine.Net.{
  InFlight, Conditions, Network, idle, new_network, add, partition, heal, send, tick, landed_by,
  flying_at, put, sort, message_of, fly, count_sent, drop_by_partition, drop_by_loss, reachable,
  record_message,
}

-- Messages in the order in which they were sent.
abbrev pub InOrder : List InFlight → Type 0
InOrder [] = Unit
InOrder (one ∷ rest) = All (λ (two : InFlight). one.sequence < two.sequence) rest × InOrder rest

abbrev pub UpTo : ℕ → List InFlight → Type 0
UpTo last = All (λ (one : InFlight). one.sequence ≤ last)

UpTo-mono : (a b : ℕ) (fl : List InFlight) → a ≤ b → UpTo a fl → UpTo b fl
UpTo-mono a b [] le h = tt
UpTo-mono a b (one ∷ fl) le h = (omega (arith, h.0), UpTo-mono a b fl le h.1)

pub All-landed :
    (P : InFlight → Type 0) (now : ℕ) (fl : List InFlight) → All P fl → All P (landed_by now fl)
All-landed P now [] h = tt
All-landed P now (one ∷ fl) h = elim (Bool-cases (leb one.due_at now)) [
  | inl due ↦ rw due (h.0, All-landed P now fl h.1)
  | inr not_due ↦ rw not_due (All-landed P now fl h.1)
]

pub All-flying :
    (P : InFlight → Type 0) (now : ℕ) (fl : List InFlight) → All P fl → All P (flying_at now fl)
All-flying P now [] h = tt
All-flying P now (one ∷ fl) h = elim (Bool-cases (ltb now one.due_at)) [
  | inl due ↦ rw due (h.0, All-flying P now fl h.1)
  | inr not_due ↦ rw not_due (All-flying P now fl h.1)
]

InOrder-landed : (now : ℕ) (fl : List InFlight) → InOrder fl → InOrder (landed_by now fl)
InOrder-landed now [] h = tt
InOrder-landed now (one ∷ fl) h = elim (Bool-cases (leb one.due_at now)) [
  | inl due ↦ rw due (All-landed _ now fl h.0, InOrder-landed now fl h.1)
  | inr not_due ↦ rw not_due (InOrder-landed now fl h.1)
]

InOrder-flying : (now : ℕ) (fl : List InFlight) → InOrder fl → InOrder (flying_at now fl)
InOrder-flying now [] h = tt
InOrder-flying now (one ∷ fl) h = elim (Bool-cases (ltb now one.due_at)) [
  | inl due ↦ rw due (All-flying _ now fl h.0, InOrder-flying now fl h.1)
  | inr not_due ↦ rw not_due (InOrder-flying now fl h.1)
]

InOrder-snoc :
    (fl : List InFlight) (one : InFlight) (last : ℕ)
    → UpTo last fl
    → InOrder fl
    → one.sequence ≡ suc last
    → InOrder (fl ++ one ∷ [])
InOrder-snoc [] one last u h e = (tt, tt)
InOrder-snoc (two ∷ fl) one last u h e =
    (All-append _ fl (one ∷ []) h.0 (omega (arith, u.0), tt), InOrder-snoc fl one last u.1 h.1 e)

put-first :
    (one : InFlight) (fl : List InFlight)
    → All (λ (two : InFlight). one.sequence < two.sequence) fl
    → put one fl ≡ one ∷ fl
put-first one [] h = refl
put-first one (two ∷ fl) h = ground (arith, h.0)

-- What is in send order already is left as it is.
pub sort-InOrder : (fl : List InFlight) → InOrder fl → sort fl ≡ fl
sort-InOrder [] h = refl
sort-InOrder (one ∷ fl) h = rw (sort-InOrder fl h.1) (put-first one fl h.0)

-- What lands at one tick is in send order before it is sorted.
pub sort-landed :
    (now : ℕ) (fl : List InFlight) → InOrder fl → sort (landed_by now fl) ≡ landed_by now fl
sort-landed now fl h = sort-InOrder (landed_by now fl) (InOrder-landed now fl h)

length-landed-flying :
    (now : ℕ) (fl : List InFlight)
    → length (landed_by now fl) + length (flying_at now fl) ≡ length fl
length-landed-flying now [] = omega arith
length-landed-flying now (one ∷ fl) = ground (arith, length-landed-flying now fl)

length-map : (fl : List InFlight) → length (map message_of fl) ≡ length fl
length-map [] = refl
length-map (one ∷ fl) = ap suc (length-map fl)

pub record IsNetwork (n : Network) : Type 0 where
  pub balance :
      n.counts.sent
      ≡ n.counts.delivered
        + n.counts.dropped_by_loss
        + n.counts.dropped_by_partition
        + length n.flight
  pub numbered : n.sequence ≡ n.counts.sent
  pub logged : length n.delivered ≡ n.counts.delivered
  pub up_to : UpTo n.sequence n.flight
  pub in_order : InOrder n.flight

pub new_network-IsNetwork :
    (members : List ℕ) (random : Generator) (chance : ℕ → ℕ) (c : Conditions) {n : Network}
    → new_network members random chance c ≡ ok n
    → IsNetwork n
unfolding new_network
new_network-IsNetwork members random chance c {n} h =
    let e : idle members random chance c ≡ n = ground arith in
    subst IsNetwork e
      (record { balance = refl; numbered = refl; logged = refl; up_to = tt; in_order = tt })

-- What `send` did with a message between members: it dropped it at a partition, lost it, or put
-- it on its way.
pub send_outcome :
    (n : Network) (m : Message) {out : Network × Bool}
    → send n m ≡ ok out
    → (out ≡ (drop_by_partition (count_sent n m), false))
      ⊎ ((out ≡ (drop_by_loss (count_sent n m), false)) ⊎ (out ≡ (fly (count_sent n m) m, true)))
unfolding send
send_outcome n m q = elim (Bool-cases (elem m.sender n.members && elem m.recipient n.members)) [
  | inr stranger ↦ absurd (ground arith)
  | inl members ↦ elim (Bool-cases (reachable n m.sender m.recipient)) [
    | inr cut ↦ inl (ground arith)
    | inl joined ↦ elim (Bool-cases (ltb (n.chance n.drawn) n.conditions.loss)) [
      | inl lost ↦ inr (inl (ground arith))
      | inr kept ↦ inr (inr (ground arith))
    ]
  ]
]

-- `send` returns for a member as the recipient only.
pub send_member :
    (n : Network) (m : Message) {out : Network × Bool}
    → send n m ≡ ok out
    → elem m.recipient n.members ≡ true
unfolding send
send_member n m q = elim (Bool-cases (elem m.recipient n.members)) [
  | inl e ↦ e
  | inr e ↦ absurd (ground arith)
]

All-put :
    (P : InFlight → Type 0) (one : InFlight) (fl : List InFlight)
    → P one
    → All P fl
    → All P (put one fl)
All-put P one [] p h = (p, tt)
All-put P one (two ∷ fl) p h = elim (Bool-cases (leb one.sequence two.sequence)) [
  | inl e ↦ rw e (p, h)
  | inr e ↦ let rest = All-put P one fl p h.1 in rw e (h.0, rest)
]

pub All-sort : (P : InFlight → Type 0) (fl : List InFlight) → All P fl → All P (sort fl)
All-sort P [] h = tt
All-sort P (one ∷ fl) h = All-put P one (sort fl) h.0 (All-sort P fl h.1)

counted-IsNetwork :
    (n : Network) (m : Message)
    → IsNetwork n
    → (IsNetwork (drop_by_partition (count_sent n m)))
      × (IsNetwork (drop_by_loss (count_sent n m)))
      × (IsNetwork (fly (count_sent n m) m))
unfolding record_message
counted-IsNetwork n m h =
    let up = UpTo-mono n.sequence (n.sequence + 1) n.flight (omega arith) h.up_to in
    let numbered : n.sequence + 1 ≡ n.counts.sent + 1 = omega (arith, h.numbered) in
    (
      record {
        balance = omega (arith, h.balance);
        numbered = numbered;
        logged = h.logged;
        up_to = up;
        in_order = h.in_order;
      },
      record {
        balance = omega (arith, h.balance);
        numbered = numbered;
        logged = h.logged;
        up_to = up;
        in_order = h.in_order;
      },
      record {
        balance = omega (arith, h.balance, length-append n.flight _);
        numbered = numbered;
        logged = h.logged;
        up_to = All-append _ n.flight _ up (omega arith, tt);
        in_order = InOrder-snoc n.flight _ n.sequence h.up_to h.in_order (omega arith);
      },
    )

pub send-IsNetwork :
    (n : Network) (m : Message) {n' : Network} {arrives : Bool}
    → IsNetwork n
    → send n m ≡ ok (n', arrives)
    → IsNetwork n'
send-IsNetwork n m h q =
    let (at_partition, at_loss, in_flight) = counted-IsNetwork n m h in
    elim (send_outcome n m q) [
      | inl e ↦ subst (λ (o : Network × Bool). IsNetwork o.0) (sym e) at_partition
      | inr (inl e) ↦ subst (λ (o : Network × Bool). IsNetwork o.0) (sym e) at_loss
      | inr (inr e) ↦ subst (λ (o : Network × Bool). IsNetwork o.0) (sym e) in_flight
    ]

pub tick-IsNetwork : (n : Network) → IsNetwork n → IsNetwork (tick n).0
unfolding tick
tick-IsNetwork n h = record {
  balance = omega (
    arith,
    h.balance,
    length-landed-flying (n.now + 1) n.flight,
    ap length (sort-landed (n.now + 1) n.flight h.in_order),
  );
  numbered = h.numbered;
  logged =
      length-append n.delivered _
      ∙ rw (length-map (sort (landed_by (n.now + 1) n.flight)), h.logged) refl;
  up_to = All-flying _ (n.now + 1) n.flight h.up_to;
  in_order = InOrder-flying (n.now + 1) n.flight h.in_order;
}

same_messages :
    (n : Network) (members : List ℕ) (sides : List (List ℕ))
    → IsNetwork n
    → IsNetwork (record n { members = members; sides = sides })
same_messages n members sides h = record {
  balance = h.balance;
  numbered = h.numbered;
  logged = h.logged;
  up_to = h.up_to;
  in_order = h.in_order;
}

-- Every network that calls of its methods can make, with the messages for which `send` answered that
-- they will arrive, and those for which it answered that they will not.
pub data Made : List Message → List Message → Network → Type 0 where
  made :
      (members : List ℕ) (random : Generator) (chance : ℕ → ℕ) (c : Conditions) {n : Network}
      → new_network members random chance c ≡ ok n
      → Made [] [] n
  added :
      {arriving lost : List Message} {n m : Network} (name : ℕ)
      → Made arriving lost n
      → add n name ≡ ok m
      → Made arriving lost m
  parted :
      {arriving lost : List Message} {n m : Network} (sides : List (List ℕ))
      → Made arriving lost n
      → partition n sides ≡ ok m
      → Made arriving lost m
  healed :
      {arriving lost : List Message} {n : Network}
      → Made arriving lost n
      → Made arriving lost (heal n)
  accepted :
      {arriving lost : List Message} {n m : Network} (message : Message)
      → Made arriving lost n
      → send n message ≡ ok (m, true)
      → Made (arriving ++ message ∷ []) lost m
  refused :
      {arriving lost : List Message} {n m : Network} (message : Message)
      → Made arriving lost n
      → send n message ≡ ok (m, false)
      → Made arriving (lost ++ message ∷ []) m
  ticked :
      {arriving lost : List Message} {n : Network}
      → Made arriving lost n
      → Made arriving lost (tick n).0

-- The counts of a network that can be made balance, and its messages in flight are in send order.
pub Made-IsNetwork :
    {arriving lost : List Message} {n : Network} → Made arriving lost n → IsNetwork n
unfolding add partition heal
Made-IsNetwork (made members random chance c h) = new_network-IsNetwork members random chance c h
Made-IsNetwork (added {n = n} {m = m} name r h) =
    let e : record n { members = n.members ++ name ∷ [] } ≡ m = ground arith in
    subst IsNetwork e (same_messages n (n.members ++ name ∷ []) n.sides (Made-IsNetwork r))
Made-IsNetwork (parted {n = n} {m = m} sides r h) =
    let e : record n { sides = sides } ≡ m = ground arith in
    subst IsNetwork e (same_messages n n.members sides (Made-IsNetwork r))
Made-IsNetwork (healed {n = n} r) = same_messages n n.members [] (Made-IsNetwork r)
Made-IsNetwork (accepted {n = n} message r h) = send-IsNetwork n message (Made-IsNetwork r) h
Made-IsNetwork (refused {n = n} message r h) = send-IsNetwork n message (Made-IsNetwork r) h
Made-IsNetwork (ticked {n = n} r) = tick-IsNetwork n (Made-IsNetwork r)
