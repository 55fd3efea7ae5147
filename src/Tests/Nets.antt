-- ===== src/Tests/Nets.antt =====
-- A network of three nodes at concrete sends, cuts and ticks.
use replicated_state_machine.Prelude.{
  ℕ, zero, suc, ◌≡◌, ◌≤◌, refl, true, List, [], ◌∷◌, In, length, arith,
}
use replicated_state_machine.Errors.{ok}
use replicated_state_machine.Net.{
  Conditions, Network, idle, new_conditions, new_network, send, tick, fly, count_sent, reachable,
  partition,
}
use replicated_state_machine.Net.Kept.{Made, made, accepted, ticked, InOrder}
use replicated_state_machine.Net.Ledger.{Accounted, conserved}
use replicated_state_machine.Net.Delivery.{ticks, sent_arrives}
use replicated_state_machine.Tests.Systems.{three, ask, give}

-- nothing is lost, and a delay is drawn between two bounds
abbrev slow : Conditions
slow = record { loss = 0; min_delay = 2; max_delay = 4 }

slow_made : new_conditions 0 2 4 ≡ ok slow
unfolding new_conditions
slow_made = refl

-- the third draw is the longest delay, and every other the shortest
abbrev uneven : ℕ → ℕ → ℕ → ℕ
uneven zero lo hi = lo
uneven (suc zero) lo hi = hi
uneven (suc (suc k)) lo hi = lo

abbrev no_chance : ℕ → ℕ
no_chance k = 5

abbrev net : Network
net = idle three uneven no_chance slow

net-Made : Made [] [] net
unfolding new_network
net-Made = made three uneven no_chance slow refl

abbrev asked : Network
asked = fly (count_sent net ask) ask

abbrev both : Network
both = fly (count_sent asked give) give

asks : send net ask ≡ ok (asked, true)
unfolding send reachable
asks = refl

gives : send asked give ≡ ok (both, true)
unfolding send reachable
gives = refl

both-Made : Made (ask ∷ give ∷ []) [] both
both-Made = accepted give (accepted ask net-Made asks) gives

conserved_example :
    Accounted (ask ∷ give ∷ []) [] (tick (tick both).0).0
    × InOrder (tick (tick both).0).0.flight
    × ((tick (tick both).0).0.counts.delivered ≡ length (tick (tick both).0).0.delivered)
conserved_example = conserved (ticked (ticked both-Made))

-- the second message overtakes the first
overtakes : (tick (tick both).0).1 ≡ give ∷ []
unfolding tick
overtakes = refl

uneven_in_range : (k lo hi : ℕ) → lo ≤ hi → (lo ≤ uneven k lo hi) × (uneven k lo hi ≤ hi)
uneven_in_range zero lo hi h = (omega arith, omega arith)
uneven_in_range (suc zero) lo hi h = (omega arith, omega arith)
uneven_in_range (suc (suc k)) lo hi h = (omega arith, omega arith)

sent_arrives_example : In ask (ticks 4 asked).delivered
sent_arrives_example = sent_arrives net ask uneven_in_range (omega arith) (omega arith) asks

abbrev two_sides : List (List ℕ)
two_sides = (0 ∷ 1 ∷ []) ∷ (2 ∷ []) ∷ []

abbrev cut : Network
cut = record net { sides = two_sides }

cuts : partition net two_sides ≡ ok cut
unfolding partition
cuts = refl
