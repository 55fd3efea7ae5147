-- ===== src/Tests/Repairs.antt =====
-- A leader and a follower that parted after two entries, and the searches for that place.
use replicated_state_machine.Prelude.{
  ℕ, zero, suc, ◌+◌, ◌≤◌, ◌≡◌, ◌++◌, refl, min, true, false, none, some, List, [], ◌∷◌, inl, inr,
  arith,
}
use replicated_state_machine.Errors.{ok, ok-injective}
use replicated_state_machine.Log.{Entry, Log, set, last_index, term_at, at, holds, matches}
use replicated_state_machine.Log.Agree.{agree_up_to}
use replicated_state_machine.Rpc.{Message, Append}
use replicated_state_machine.Node.State.{Node, follower, leader}
use replicated_state_machine.Node.Follower.{on_append}
use replicated_state_machine.Node.Committing.Apply.{stretch}
use replicated_state_machine.Node.Committing.Unchecked.{empty_append_applies}
use replicated_state_machine.Repair.{Repair, walk, skip, bisect, hybrid, found}
use replicated_state_machine.Repair.Probes.{Agree, Whole, Ready}
use replicated_state_machine.Repair.Walks.{walk-found}
use replicated_state_machine.Repair.Halves.{Matching, bisect-found, hybrid-found}
use replicated_state_machine.Repair.Trips.{by_conflict_term-le, by_conflict_term_spins}
use replicated_state_machine.Log.Reconcile.{
  term_or_zero, step_back, reconcile_one_at_a_time, run_back, jump_back, reconcile_by_conflict_term,
}
use replicated_state_machine.Repair.Terms.{Proper}
use replicated_state_machine.Repair.Skips.{skip-found}

abbrev entry : ℕ → ℕ → Entry
entry term index = record { term = term; index = index; command = some (set 1 index) }

abbrev log_of : List Entry → Log
log_of entries = record { entries = entries; snapshot_index = 0; snapshot_term = 0 }

abbrev node : ℕ → List Entry → Node
node name entries = record {
  name = name;
  members = 1 ∷ 2 ∷ [];
  pre_vote = false;
  commit_any_term = false;
  term = 9;
  voted_for = none;
  log = log_of entries;
  role = follower;
  leader_name = some 1;
  commit_index = 0;
  last_applied = 0;
  next_index = [];
  match_index = [];
  votes = [];
  pre_votes = [];
  now = 0;
  election_deadline = 0;
  heartbeat_due = 0;
  applied = [];
  state = [];
  random = λ _ low _. low;
  drawn = 0;
}

abbrev leading : Node
leading = record (node 1 (entry 1 1 ∷ entry 1 2 ∷ entry 2 3 ∷ entry 2 4 ∷ [])) {
  role = leader;
  commit_index = 3;
}

abbrev strayed : Node
strayed = node 2 (entry 1 1 ∷ entry 1 2 ∷ entry 3 3 ∷ entry 3 4 ∷ [])

abbrev leader_whole : Whole leading.log
leader_whole = record { placed = (refl, (refl, (refl, (refl, tt)))); from_start = refl }

abbrev follower_whole : Whole strayed.log
follower_whole = record { placed = (refl, (refl, (refl, (refl, tt)))); from_start = refl }

ready : Ready leading strayed
ready = record {
  apart = omega arith;
  term_set = omega arith;
  behind = omega arith;
  leader_log = leader_whole;
  follower_log = follower_whole;
}

leader-Proper : Proper leading.log
leader-Proper = record { whole = leader_whole; ordered = omega arith; positive = omega arith }

follower-Proper : Proper strayed.log
follower-Proper = record { whole = follower_whole; ordered = omega arith; positive = omega arith }

end_of_log : last_index leading.log ≡ 4
unfolding last_index
end_of_log = refl

walk-found_example :
    (r : Repair) × (f' : Node) × (walk leading strayed ≡ ok (r, f'))
    × (found r ≡ true)
    × (r.probes + r.divergence ≡ last_index leading.log + 1)
    × (f'.log ≡ strayed.log)
walk-found_example = walk-found leading strayed ready (omega (arith, end_of_log))

skip-found_example :
    (r : Repair) × (f' : Node) × (skip leading strayed ≡ ok (r, f'))
    × (found r ≡ true)
    × (r.probes + r.divergence ≤ last_index leading.log + 1)
    × (f'.log ≡ strayed.log)
skip-found_example =
    skip-found leading strayed ready leader-Proper follower-Proper (omega (arith, end_of_log))

-- The two logs agree up to index 2, and differ above it.
Agree-below : (j : ℕ) → j ≤ 2 → Agree leading.log strayed.log j
unfolding holds term_at at last_index
Agree-below zero le = inl refl
Agree-below (suc zero) le =
    inr (1, record { on_left = refl; on_right = refl; left_term = refl; right_term = refl })
Agree-below (suc (suc zero)) le =
    inr (1, record { on_left = refl; on_right = refl; left_term = refl; right_term = refl })
Agree-below (suc (suc (suc j))) le = absurd (omega arith)

Agree-only : (i : ℕ) → Agree leading.log strayed.log i → i ≤ 2
unfolding holds term_at at last_index
Agree-only i (inl z) = omega (arith, z)
Agree-only zero (inr (t, s)) = omega arith
Agree-only (suc zero) (inr (t, s)) = omega arith
Agree-only (suc (suc zero)) (inr (t, s)) = omega arith
Agree-only (suc (suc (suc zero))) (inr (t, s)) =
    absurd (omega (arith, ok-injective s.left_term, ok-injective s.right_term))
Agree-only (suc (suc (suc (suc zero)))) (inr (t, s)) =
    absurd (omega (arith, ok-injective s.left_term, ok-injective s.right_term))
Agree-only (suc (suc (suc (suc (suc i))))) (inr (t, s)) = absurd (ground (arith, s.on_left))

parted-Matching : Matching leading.log strayed.log
parted-Matching i j le a = Agree-below j (omega (arith, Agree-only i a))

bisect-found_example :
    (r : Repair) × (f' : Node) × (bisect leading strayed ≡ ok (r, f'))
    × (found r ≡ true)
    × (r.probes ≤ 3)
    × (f'.log ≡ strayed.log)
bisect-found_example =
    bisect-found leading strayed 3 ready parted-Matching (omega (arith, end_of_log)) (omega arith)

hybrid-found_example :
    (r : Repair) × (f' : Node) × (hybrid leading strayed 1 ≡ ok (r, f'))
    × (found r ≡ true)
    × (r.probes ≤ 1 + 3)
    × (f'.log ≡ strayed.log)
hybrid-found_example =
    hybrid-found leading strayed 3 ready parted-Matching (omega (arith, end_of_log)) 1 (omega arith)

-- A question about index 2, from a leader that has committed its four entries.
abbrev asked : Append
asked = record {
  previous_index = 2;
  previous_term = 1;
  entries = [];
  commit_index = 4;
  read_id = 0;
}

asked_matches : matches strayed.log 2 1 ≡ ok true
unfolding matches term_at at last_index
asked_matches = refl

strayed_end : last_index strayed.log ≡ 4
unfolding last_index
strayed_end = refl

-- The follower applies its entries at 3 and 4, which the leader does not have.
empty_append_applies_example :
    (n' : Node) × (out : List Message) × (on_append strayed 1 9 asked ≡ ok (n', out))
    × (n'.applied ≡ [] ++ stretch strayed.log 0 (min 4 (last_index strayed.log)))
empty_append_applies_example =
    empty_append_applies strayed 1 9 asked follower_whole.placed refl asked_matches (omega arith)
      (omega (arith, strayed_end))

by_conflict_term-le_example :
    (truth : ℕ) × (slow : ℕ) × (fast : ℕ) × (agree_up_to leading.log strayed.log ≡ ok truth)
    × (reconcile_one_at_a_time leading.log strayed.log ≡ ok slow)
    × (slow + truth ≡ last_index leading.log + 1)
    × (reconcile_by_conflict_term 5 leading.log strayed.log ≡ ok (some fast))
    × (fast ≤ slow)
by_conflict_term-le_example =
    by_conflict_term-le leading.log strayed.log 5 leader_whole follower_whole parted-Matching
      (omega (arith, end_of_log))

takes_three_trips : reconcile_one_at_a_time leading.log strayed.log ≡ ok 3
unfolding reconcile_one_at_a_time step_back last_index holds term_at at matches
takes_three_trips = refl

takes_two_trips : reconcile_by_conflict_term 5 leading.log strayed.log ≡ ok (some 2)
unfolding reconcile_by_conflict_term jump_back run_back last_index holds term_at at matches
takes_two_trips = refl

abbrev two_entries : Log
two_entries = log_of (entry 1 1 ∷ entry 1 2 ∷ [])

-- A snapshot of two entries, the second of another term.
abbrev only_snapshot : Log
only_snapshot = record { entries = []; snapshot_index = 2; snapshot_term = 5 }

ends_at_snapshot : last_index two_entries ≡ 2
unfolding last_index
ends_at_snapshot = refl

reads_one : term_or_zero two_entries 2 ≡ ok 1
unfolding holds term_at at last_index
reads_one = refl

by_conflict_term_spins_example : reconcile_by_conflict_term 1000 two_entries only_snapshot ≡ ok none
by_conflict_term_spins_example =
    by_conflict_term_spins two_entries only_snapshot 1000 1 refl (omega arith) ends_at_snapshot
      reads_one (omega arith)
