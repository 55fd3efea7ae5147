-- ===== src/Repair.antt =====
-- rsm/repair.py: the searches for the index up to which a leader and a follower agree.
pub mod Probes
pub mod Walks
pub mod Halves
pub mod Terms
pub mod Skips
pub mod Trips
use replicated_state_machine.Prelude.{
  ℕ, zero, suc, ◌+◌, ◌-◌, ◌/◌, min, max, Bool, true, false, not, ◌&&◌, Option, none, some, List, [],
  ◌∷◌, ℤ, pos, negsuc, equal, difference, ltb, leb, ◌==◌, if◌then◌else◌,
}
use replicated_state_machine.Errors.{Result, ok, err, ◌>>=◌, index_error, attribute_error}
use replicated_state_machine.Log.{Entry, Log, last_index, term_at}
use replicated_state_machine.Log.Agree.{agree_up_to}
use replicated_state_machine.Rpc.{Message, Body, append, appended, Appended, new_message}
use replicated_state_machine.Node.State.{Node}
use replicated_state_machine.Node.Step.{step}

abbrev pub limit : ℕ
limit = 4000

pub data Strategy : Type 0 where
  walk_back skip_term bisection hybrid_search : Strategy

-- `matched` is -1 for a search that gave up.
pub record Repair : Type 0 where
  pub strategy : Strategy
  pub probes : ℕ
  pub matched : ℤ
  pub divergence : ℕ

unfoldable pub found : Repair → Bool
found r = equal r.matched (pos r.divergence)

-- `replies[0]`, read as the answer to an append
abbrev pub answer_of : Body → Result Appended
answer_of (appended a) = ok a
answer_of _ = err attribute_error

abbrev pub first_answer : List Message → Result Appended
first_answer [] = err index_error
first_answer (m ∷ _) = answer_of m.body

-- `leader.log.term_at(index) if index else 0`
abbrev pub term_asked : Log → ℕ → Result ℕ
term_asked log zero = ok 0
term_asked log (suc k) = term_at log (suc k)

-- The follower is changed by the message, so it is returned beside its answer.
unfoldable pub probe : Node → Node → ℕ → Result (Node × Appended)
probe leader follower index = do
  term ← term_asked leader.log index
  message ← new_message leader.name follower.name leader.term (
      append (record {
        previous_index = index;
        previous_term = term;
        entries = [];
        commit_index = leader.commit_index;
        read_id = 0;
      }))
  (follower', replies) ← step follower message
  reply ← first_answer replies
  ok (follower', reply)

-- the loops of `walk` and of the first half of `hybrid`, which stop after `stop` probes; `left` is
-- `index + 1`, and what they give is the probes made, where they stopped, and whether a probe
-- succeeded there
pub record Ended : Type 0 where
  pub probes : ℕ
  pub left : ℕ
  pub hit : Bool
  pub follower : Node

unfoldable pub walk_down : Node → ℕ → ℕ → ℕ → Node → Result Ended
walk_down leader stop probes zero follower =
    ok (record { probes = probes; left = 0; hit = false; follower = follower })
walk_down leader stop probes (suc index) follower =
    let round : Result Ended = (do
      (follower', reply) ← probe leader follower index
      let deeper = walk_down leader stop (probes + 1) index follower'
      if reply.success
          then ok
              (record { probes = probes + 1; left = suc index; hit = true; follower = follower' })
          else deeper) in
    if not (ltb probes stop)
    then ok (record { probes = probes; left = suc index; hit = false; follower = follower })
    else round

-- `matched` of a loop that went down from the end of the log
abbrev pub matched_of : Bool → ℕ → ℤ
matched_of true left = pos (left - 1)
matched_of false left = negsuc 0

unfoldable pub walk : Node → Node → Result (Repair × Node)
walk leader follower = do
  truth ← agree_up_to leader.log follower.log
  end ← walk_down leader limit 0 (last_index leader.log + 1) follower
  ok (
    record {
      strategy = walk_back;
      probes = end.probes;
      matched = matched_of end.hit end.left;
      divergence = truth;
    },
    end.follower,
  )

-- the indices of the leader's entries of a term, the highest
abbrev pub highest_of : ℕ → List Entry → Option ℕ
highest_of term [] = none
highest_of term (one ∷ rest) =
    let deeper = highest_of term rest in
    if one.term == term
    then elim deeper [ none ↦ some one.index | some i ↦ some (max one.index i) ]
    else deeper

-- `_next_index` plus one, so that an index of -1 is 0
unfoldable pub next_left : Log → Appended → ℕ → ℕ
next_left log reply index =
    if ltb 0 reply.conflict_term
    then elim (highest_of reply.conflict_term log.entries) [
      | some own ↦ min (own + 1) index
      | none ↦ min (reply.conflict_index - 1 + 1) index
    ]
    else if ltb 0 reply.conflict_index
    then min reply.conflict_index index
    else index

-- the loop of `skip`; `rounds` bounds it, and each round lowers `left`
unfoldable pub skip_down : Node → ℕ → ℕ → ℕ → Node → Result Ended
skip_down leader zero probes left follower =
    ok (record { probes = probes; left = left; hit = false; follower = follower })
skip_down leader (suc rounds) probes zero follower =
    ok (record { probes = probes; left = 0; hit = false; follower = follower })
skip_down leader (suc rounds) probes (suc index) follower = do
  (follower', reply) ← probe leader follower index
  let deeper = skip_down leader rounds (probes + 1) (next_left leader.log reply index) follower'
  if reply.success
      then ok (record { probes = probes + 1; left = suc index; hit = true; follower = follower' })
      else deeper

-- `probes < LIMIT` bounds the rounds.
unfoldable pub skip : Node → Node → Result (Repair × Node)
skip leader follower = do
  truth ← agree_up_to leader.log follower.log
  end ← skip_down leader limit 0 (last_index leader.log + 1) follower
  ok (
    record {
      strategy = skip_term;
      probes = end.probes;
      matched = matched_of end.hit end.left;
      divergence = truth;
    },
    end.follower,
  )

-- what a bisection gives: the probes made, and the highest index at which one succeeded
pub record Found : Type 0 where
  pub probes : ℕ
  pub best : ℕ
  pub follower : Node

-- the loop of `bisect`, which `hybrid` has too; `top` is `high + 1`, and `rounds` is what
-- `probes < LIMIT` leaves
unfoldable pub halve : Node → ℕ → ℕ → ℕ → ℕ → ℕ → Node → Result Found
halve leader zero probes best low top follower =
    ok (record { probes = probes; best = best; follower = follower })
halve leader (suc rounds) probes best low top follower =
    let middle : ℕ = (low + (top - 1)) / 2 in
    let round : Result Found = (do
      (follower', reply) ← probe leader follower middle
      let next_best : ℕ = if reply.success then middle else best
      let next_low : ℕ = if reply.success then middle + 1 else low
      let next_top : ℕ = if reply.success then top else middle
      halve leader rounds (probes + 1) next_best next_low next_top follower') in
    if not (ltb low top)
    then ok (record { probes = probes; best = best; follower = follower })
    else round

unfoldable pub bisect : Node → Node → Result (Repair × Node)
bisect leader follower = do
  truth ← agree_up_to leader.log follower.log
  end ← halve leader limit 0 0 0 (last_index leader.log + 1) follower
  ok (
    record {
      strategy = bisection;
      probes = end.probes;
      matched = pos end.best;
      divergence = truth;
    },
    end.follower,
  )

-- the second half of `hybrid`
abbrev pub hybrid_rest : Node → ℕ → Ended → Result (Repair × Node)
hybrid_rest leader truth end =
    if end.hit
    then ok (
      record {
        strategy = hybrid_search;
        probes = end.probes;
        matched = matched_of true end.left;
        divergence = truth;
      },
      end.follower,
    )
    else do
      rest ← halve leader (limit - end.probes) end.probes 0 0 end.left end.follower
      ok (
        record {
          strategy = hybrid_search;
          probes = rest.probes;
          matched = pos rest.best;
          divergence = truth;
        },
        rest.follower,
      )

-- a patience is not negative here
unfoldable pub hybrid : Node → Node → ℕ → Result (Repair × Node)
hybrid leader follower patience = do
  truth ← agree_up_to leader.log follower.log
  end ← walk_down leader patience 0 (last_index leader.log + 1) follower
  hybrid_rest leader truth end
