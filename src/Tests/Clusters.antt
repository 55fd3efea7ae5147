-- ===== src/Tests/Clusters.antt =====
-- A cluster of three from its construction to its first leader.
use replicated_state_machine.Prelude.{
  ℕ, zero, suc, ◌≡◌, ◌⊎◌, some, refl, true, false, [], ◌∷◌, elem, if◌then◌else◌, arith,
}
use replicated_state_machine.Errors.{ok, err, Error, state_machine_safety}
use replicated_state_machine.Log.{
  last_index, last_term, is_up_to_date, new_entry, append, append_one, slice, collect, term_at, at,
}
use replicated_state_machine.Rpc.{term_check}
use replicated_state_machine.Node.State.{Node, Generator, new_node, peers, quorum, become_follower}
use replicated_state_machine.Node.Replicate.{replicate, replicate_to, replicate_one}
use replicated_state_machine.Node.Roles.{stand, become_candidate, become_leader, write_own}
use replicated_state_machine.Node.Roles
use replicated_state_machine.Node.Follower.{on_request_vote}
use replicated_state_machine.Node.Leader.{on_vote}
use replicated_state_machine.Node.Step.{handle, step}
use replicated_state_machine.Net
use replicated_state_machine.Net.{Conditions, record_message, reachable}
use replicated_state_machine.Cluster
use replicated_state_machine.Cluster.{Cluster, advance, run, deliver, wake, up, verify_leaders}
use replicated_state_machine.Cluster.Runs.{Opened, Run, opened, Run-run, one_leader}
use replicated_state_machine.Cluster.Ticks.{Observed, tick}
use replicated_state_machine.Cluster.Checks.{tick_raises}
use replicated_state_machine.Cluster.Logs.{verify_logs, verify_logs-passes}
use replicated_state_machine.Cluster.Verify.{verify_leaders-passes}
use replicated_state_machine.Tests.Systems.{three, fresh, lowest}

-- the shortest timeout for node 0, the longest for the others
abbrev timeouts : ℕ → Generator
timeouts zero k lo hi = lo
timeouts (suc i) k lo hi = hi

abbrev sleeping : ℕ → Node
sleeping i = record (fresh i) {
  random = timeouts i;
  election_deadline = if elem i (0 ∷ []) then 10 else 20;
}

abbrev good : Conditions
good = record { loss = 0; min_delay = 1; max_delay = 1 }

abbrev opening : Cluster
opening = record {
  members = three;
  seed = 0;
  generators = λ seed name. lowest;
  pre_vote = false;
  net = Net.idle three lowest (λ k. 0) good;
  nodes = sleeping;
  now = 0;
  down = [];
}

sleeping_made :
    (i : ℕ) → elem i three ≡ true → new_node i three (timeouts i) false false ≡ ok (sleeping i)
unfolding new_node
sleeping_made zero e = refl
sleeping_made (suc zero) e = refl
sleeping_made (suc (suc zero)) e = refl
sleeping_made (suc (suc (suc i))) e = absurd (ground arith)

opening-Opened : Opened three opening
opening-Opened = record {
  in_cluster = refl;
  starts = record { made = λ i e. (timeouts i, false, false, sleeping_made i e); silent = refl };
  on_net = refl;
  silent = refl;
  all_up = refl;
  clock = refl;
}

record Later : Type 0 where
  last : Cluster
  runs : Run three last

-- ten ticks to the end of the timeout, one to ask and one to be answered
abbrev with_leader : Later
unfolding run advance deliver wake up Cluster.send Net.send Net.tick record_message reachable
    Roles.tick stand become_candidate peers last_index last_term step handle term_check
    on_request_vote is_up_to_date on_vote quorum become_leader write_own new_entry append append_one
    replicate replicate_to replicate_one slice collect term_at at become_follower
with_leader = record { last = _; runs = Run-run opening 12 (opened opening-Opened) refl }

one_leader_example : ◌≡◌ {A = ℕ} 0 0
unfolding run advance deliver wake up Cluster.send Net.send Net.tick record_message reachable
    Roles.tick stand become_candidate peers last_index last_term step handle term_check
    on_request_vote is_up_to_date on_vote quorum become_leader write_own new_entry append append_one
    replicate replicate_to replicate_one slice collect term_at at become_follower
one_leader_example = one_leader 0 0 with_leader.runs refl refl refl refl refl

verify_leaders-passes_example : verify_leaders with_leader.last ≡ ok tt
verify_leaders-passes_example = verify_leaders-passes with_leader.runs refl

verify_logs-passes_example : verify_logs with_leader.last ≡ ok tt
verify_logs-passes_example = verify_logs-passes with_leader.runs

abbrev observed : Observed
observed = record {
  cluster = with_leader.last;
  check = true;
  elections = 1;
  last_leader = some 0;
  history = [];
}

tick_raises_example :
    ((e : Error) × (tick observed ≡ err e)
      × ((advance with_leader.last ≡ err e) ⊎ (e ≡ state_machine_safety)))
    ⊎ ((o' : Observed) × (tick observed ≡ ok o') × Run three o'.cluster)
tick_raises_example = tick_raises observed with_leader.runs refl
