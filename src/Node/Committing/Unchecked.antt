-- ===== src/Node/Committing/Unchecked.antt =====
-- rsm/node.py: what an append without entries makes a follower commit.
use replicated_state_machine.Prelude.{
  ℕ, ◌≤◌, ◌<◌, ◌≡◌, refl, ap, min, true, List, [], ◌∷◌, ◌++◌, ltb, arith,
}
use replicated_state_machine.Errors.{ok}
use replicated_state_machine.Log.{last_index, matches, no_term, no_index}
use replicated_state_machine.Log.Shape.{Placed}
use replicated_state_machine.Rpc.{Message, Append, Body, appended, append_last_index}
use replicated_state_machine.Node.State.{Node}
use replicated_state_machine.Node.Follower.{
  hear_leader, on_append, accept_append, take_entries, reply,
}
use replicated_state_machine.Node.Committing.Apply.{apply_exact, applied_to, stretch}

-- What hearing a leader leaves of a node's progress.
record Progress (n h : Node) : Type 0 where
  log : h.log ≡ n.log
  commit : h.commit_index ≡ n.commit_index
  done : h.last_applied ≡ n.last_applied
  applied : h.applied ≡ n.applied

hear_leader-Progress : (n : Node) (sender term : ℕ) → Progress n (hear_leader n sender term)
unfolding hear_leader
hear_leader-Progress n sender term = record {
  log = ground arith;
  commit = ground arith;
  done = ground arith;
  applied = ground arith;
}

-- A follower whose log has its entries at their indices and that accepts an append without entries, with
-- nothing applied beyond its commit index, its own commit index below the leader's and below the end of its log, applies the entries that its own
-- log holds above what it has applied, up to the leader's commit index or to the end of its log, also
-- those above the index up to which the append has compared the two logs.
pub empty_append_applies :
    (n : Node) (sender term : ℕ) (m : Append)
    → Placed n.log
    → m.entries ≡ []
    → matches n.log m.previous_index m.previous_term ≡ ok true
    → n.last_applied ≤ n.commit_index
    → n.commit_index < min m.commit_index (last_index n.log)
    → (n' : Node) × (out : List Message) × (on_append n sender term m ≡ ok (n', out))
      × (n'.applied
          ≡ n.applied ++ stretch n.log n.last_applied (min m.commit_index (last_index n.log)))
unfolding on_append accept_append take_entries
empty_append_applies n sender term m h e q mid less =
    let heard = hear_leader n sender term in
    let p = hear_leader-Progress n sender term in
    let raised : Node = record heard { commit_index = min m.commit_index (last_index heard.log) } in
    let news : ltb heard.commit_index m.commit_index ≡ true = ground (arith, p.commit) in
    let asked : matches heard.log m.previous_index m.previous_term ≡ ok true = rw p.log q in
    let done =
      apply_exact raised (rw p.log h) (omega (arith, p.done, ap last_index p.log)) (omega arith) in
    let final : Node =
      applied_to raised raised.commit_index
        (stretch raised.log raised.last_applied raised.commit_index) in
    let answer : Body = appended (record {
      success = true;
      match_index = append_last_index m;
      conflict_term = no_term;
      conflict_index = no_index;
      read_id = m.read_id;
    }) in
    (
      final,
      reply final sender answer ∷ [],
      rw (asked, e, news, done) refl,
      rw (p.applied, p.log, p.done) refl,
    )
