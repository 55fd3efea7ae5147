-- ===== src/Node/Replicate.antt =====
-- rsm/node.py: `replicate`.
use replicated_state_machine.Prelude.{
  ℕ, ◌+◌, ◌-◌, min, Option, none, some, List, [], ◌∷◌, get, leb, if◌then◌else◌,
}
use replicated_state_machine.Errors.{Result, ok, ◌>>=◌}
use replicated_state_machine.Log.{last_index, slice, term_at}
use replicated_state_machine.Rpc.{Message, append, install_snapshot}
use replicated_state_machine.Node.State.{Node, peers, max_batch}

-- `start` of the loop's body: where the entries for `one` begin
abbrev pub next_for : Node → ℕ → ℕ
next_for n one = let end = last_index n.log + 1 in min (get one end n.next_index) end

-- the body of the loop of `replicate`
unfoldable pub replicate_one : Node → ℕ → Result Message
replicate_one n one =
    let start : ℕ = next_for n one in
    if leb start n.log.snapshot_index
    then ok (record {
      sender = n.name;
      recipient = one;
      term = n.term;
      body = install_snapshot (record {
        last_index = n.log.snapshot_index;
        last_term = n.log.snapshot_term;
        state = n.state;
        members = n.members;
      });
    })
    else do
      entries ← slice n.log start (some (start + max_batch - 1))
      previous_term ← term_at n.log (start - 1)
      ok (record {
        sender = n.name;
        recipient = one;
        term = n.term;
        body = append (record {
          previous_index = start - 1;
          previous_term = previous_term;
          entries = entries;
          commit_index = n.commit_index;
          read_id = 0;
        });
      })

unfoldable pub replicate_to : Node → List ℕ → Result (List Message)
replicate_to n [] = ok []
replicate_to n (one ∷ rest) = do
  message ← replicate_one n one
  messages ← replicate_to n rest
  ok (message ∷ messages)

unfoldable pub replicate : Node → Option ℕ → Result (List Message)
replicate n none = replicate_to n (peers n)
replicate n (some to) = replicate_to n (to ∷ [])
