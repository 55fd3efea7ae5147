-- ===== src/Net.antt =====
-- rsm/net.py: `InFlight`, `Conditions`, `Counts` and `Network`. The proofs are in the modules below.
-- A rate of loss is a float, which the code only compares with draws of `random.random()`, that
-- are multiples of 2⁻⁵³ below one: `loss` is the least number of such units that is not below it,
-- and `chance` gives the draws in these units.
pub mod Kept
pub mod Ledger
pub mod Delivery
pub mod Sides
use replicated_state_machine.Prelude.{
  ℕ, zero, suc, ◌+◌, ◌-◌, ◌*◌, Bool, true, false, not, ◌&&◌, Option, none, some, List, [], ◌∷◌,
  ◌++◌, map, length, elem, Dict, get, insert, ltb, leb, ◌==◌, if◌then◌else◌,
}
use replicated_state_machine.Errors.{Result, ok, err, config_error, unknown_node}
use replicated_state_machine.Rpc.{
  Message, Body, request_vote, vote, append, appended, install_snapshot, installed,
}
use replicated_state_machine.Node.State.{Generator, distinct}

pub record InFlight : Type 0 where
  pub message : Message
  pub sent_at : ℕ
  pub due_at : ℕ
  pub sequence : ℕ

abbrev pub latency : InFlight → ℕ
latency one = one.due_at - one.sent_at

pub record Conditions : Type 0 where
  pub loss : ℕ
  pub min_delay : ℕ
  pub max_delay : ℕ

-- 2⁵³, a rate of one
abbrev pub certain : ℕ
certain = 9007199254740992

-- `Conditions(...)` with its `__post_init__`
unfoldable pub new_conditions : ℕ → ℕ → ℕ → Result Conditions
new_conditions loss min_delay max_delay =
    if ltb certain loss
    then err config_error
    else if ltb min_delay 1
    then err config_error
    else if ltb max_delay min_delay
    then err config_error
    else ok (record { loss = loss; min_delay = min_delay; max_delay = max_delay })

abbrev pub jitter : Conditions → ℕ
jitter c = c.max_delay - c.min_delay

unfoldable pub reliable : Conditions → Bool
reliable c = (c.loss == 0) && (jitter c == 0)

-- `by_kind` has the place of a kind in `KINDS` for its key.
pub record Counts : Type 0 where
  pub sent : ℕ
  pub delivered : ℕ
  pub dropped_by_loss : ℕ
  pub dropped_by_partition : ℕ
  pub by_kind : Dict ℕ
  pub bytes_estimate : ℕ

abbrev pub dropped : Counts → ℕ
dropped c = c.dropped_by_loss + c.dropped_by_partition

abbrev pub kind : Body → ℕ
kind (request_vote _) = 0
kind (vote _) = 1
kind (append _) = 2
kind (appended _) = 3
kind (install_snapshot _) = 4
kind (installed _) = 5

-- `len(message.entries) if isinstance(message, Append) else 0`
abbrev pub entries_of : Body → ℕ
entries_of (append a) = length a.entries
entries_of _ = 0

-- `Counts.record`, which is a word of the language here
unfoldable pub record_message : Counts → Message → Counts
record_message c m = record c {
  by_kind = insert (kind m.body) (get (kind m.body) 0 c.by_kind + 1) c.by_kind;
  bytes_estimate = c.bytes_estimate + (64 + entries_of m.body * 32);
}

-- `random` and `chance` are the two methods of the generator that the network draws from, and
-- `drawn` counts the draws.
pub record Network : Type 0 where
  pub members : List ℕ
  pub conditions : Conditions
  pub random : Generator
  pub chance : ℕ → ℕ
  pub drawn : ℕ
  pub now : ℕ
  pub counts : Counts
  pub flight : List InFlight
  pub sequence : ℕ
  pub sides : List (List ℕ)
  pub delivered : List Message

abbrev pub no_counts : Counts
no_counts = record {
  sent = 0;
  delivered = 0;
  dropped_by_loss = 0;
  dropped_by_partition = 0;
  by_kind = [];
  bytes_estimate = 0;
}

-- `not members`
abbrev pub no_names : List ℕ → Bool
no_names [] = true
no_names (_ ∷ _) = false

-- what `Network.__init__` sets
abbrev pub idle : List ℕ → Generator → (ℕ → ℕ) → Conditions → Network
idle members random chance conditions = record {
  members = members;
  conditions = conditions;
  random = random;
  chance = chance;
  drawn = 0;
  now = 0;
  counts = no_counts;
  flight = [];
  sequence = 0;
  sides = [];
  delivered = [];
}

-- `Network(...)`
unfoldable pub new_network : List ℕ → Generator → (ℕ → ℕ) → Conditions → Result Network
new_network members random chance conditions =
    if not (distinct members)
    then err config_error
    else if no_names members
    then err config_error
    else ok (idle members random chance conditions)

unfoldable pub add : Network → ℕ → Result Network
add n name =
    if elem name n.members
    then err config_error
    else ok (record n { members = n.members ++ name ∷ [] })

-- the loop of `reachable`
abbrev pub same_side : List (List ℕ) → ℕ → ℕ → Bool
same_side [] sender recipient = false
same_side (side ∷ sides) sender recipient =
    let rest = same_side sides sender recipient in
    if elem sender side then elem recipient side else rest

unfoldable pub reachable : Network → ℕ → ℕ → Bool
reachable n sender recipient = elim n.sides [
  | [] ↦ true
  | _ ∷ _ ↦ same_side n.sides sender recipient
]

-- `[one for side in sides for one in side]`
abbrev pub all_named : List (List ℕ) → List ℕ
all_named [] = []
all_named (side ∷ sides) = side ++ all_named sides

-- no name of the first list is missing from the second
abbrev pub all_in : List ℕ → List ℕ → Bool
all_in [] names = true
all_in (x ∷ xs) names = elem x names && all_in xs names

unfoldable pub partition : Network → List (List ℕ) → Result Network
partition n sides =
    let named = all_named sides in
    if not (all_in named n.members)
    then err unknown_node
    else if not (distinct named)
    then err config_error
    else if not (all_in n.members named)
    then err config_error
    else ok (record n { sides = sides })

unfoldable pub heal : Network → Network
heal n = record n { sides = [] }

-- `send` up to its first return: the counts and the sequence
abbrev pub count_sent : Network → Message → Network
count_sent n m = record n {
  counts = record_message (record (n.counts) { sent = n.counts.sent + 1 }) m;
  sequence = n.sequence + 1;
}

abbrev pub drop_by_partition : Network → Network
drop_by_partition n = record n {
  counts = record (n.counts) { dropped_by_partition = n.counts.dropped_by_partition + 1 };
}

abbrev pub drop_by_loss : Network → Network
drop_by_loss n = record n {
  counts = record (n.counts) { dropped_by_loss = n.counts.dropped_by_loss + 1 };
  drawn = n.drawn + 1;
}

-- the message on its way, after the draw that did not lose it
abbrev pub fly : Network → Message → Network
fly n m =
    let delay = n.random (n.drawn + 1) n.conditions.min_delay n.conditions.max_delay in
    record n {
      flight =
          n.flight
          ++ record { message = m; sent_at = n.now; due_at = n.now + delay; sequence = n.sequence }
            ∷ [];
      drawn = n.drawn + 2;
    }

unfoldable pub send : Network → Message → Result (Network × Bool)
send n m =
    if not (elem m.sender n.members)
    then err unknown_node
    else if not (elem m.recipient n.members)
    then err unknown_node
    else if not (reachable n m.sender m.recipient)
    then ok (drop_by_partition (count_sent n m), false)
    else if ltb (n.chance n.drawn) n.conditions.loss
    then ok (drop_by_loss (count_sent n m), false)
    else ok (fly (count_sent n m) m, true)

-- the two list comprehensions of `tick`
abbrev pub landed_by : ℕ → List InFlight → List InFlight
landed_by now [] = []
landed_by now (one ∷ rest) =
    let others = landed_by now rest in if leb one.due_at now then one ∷ others else others

abbrev pub flying_at : ℕ → List InFlight → List InFlight
flying_at now [] = []
flying_at now (one ∷ rest) =
    let others = flying_at now rest in if ltb now one.due_at then one ∷ others else others

-- `sort(key=lambda one: one.sequence)`, which is stable
abbrev pub put : InFlight → List InFlight → List InFlight
put one [] = one ∷ []
put one (two ∷ rest) =
    let deeper = put one rest in
    if leb one.sequence two.sequence then one ∷ two ∷ rest else two ∷ deeper

abbrev pub sort : List InFlight → List InFlight
sort [] = []
sort (one ∷ rest) = put one (sort rest)

abbrev pub message_of : InFlight → Message
message_of one = one.message

unfoldable pub tick : Network → Network × List Message
tick n =
    let now : ℕ = n.now + 1 in
    let landed = sort (landed_by now n.flight) in
    let out = map message_of landed in
    (
      record n {
        now = now;
        flight = flying_at now n.flight;
        counts = record (n.counts) { delivered = n.counts.delivered + length landed };
        delivered = n.delivered ++ out;
      },
      out,
    )

unfoldable pub in_flight : Network → ℕ
in_flight n = length n.flight

unfoldable pub quiet : Network → Bool
quiet n = elim n.flight [ [] ↦ true | _ ∷ _ ↦ false ]
