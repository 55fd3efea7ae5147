-- ===== src/Node/Committing/Apply.antt =====
-- Applying: the entries go to the state machine in index order, each once.
use mathlib.Core.List.{append_assoc, append-nil}
use replicated_state_machine.Prelude.{
  ℕ, zero, suc, ◌+◌, ◌-◌, ◌≤◌, ◌<◌, ◌≡◌, refl, List, [], ◌∷◌, ◌++◌, take, drop, drop-get_elem?,
  Dict, max, leb, Bool-cases, inl, inr, arith,
}
use replicated_state_machine.Errors.{ok}
use replicated_state_machine.Log.{Entry, Log, last_index, holds}
use replicated_state_machine.Log.Shape.{Placed}
use replicated_state_machine.Log.Access.{at-held}
use replicated_state_machine.Node.State.{Node}
use replicated_state_machine.Node.Commit.{apply_command, apply_next, apply_rounds, apply_committed}

-- The state after the commands of `es`.
abbrev pub run_commands : List Entry → Dict ℕ → Dict ℕ
run_commands [] state = state
run_commands (e ∷ es) state = run_commands es (apply_command e.command state)

-- The entries that a log holds above `index`, up to `last`.
abbrev pub stretch : Log → ℕ → ℕ → List Entry
stretch l index last =
    take (last - max index l.snapshot_index) (drop (index - l.snapshot_index) l.entries)

-- A node that has applied `es` and stands at `index`.
abbrev pub applied_to : Node → ℕ → List Entry → Node
applied_to n index es = record n {
  last_applied = index;
  applied = n.applied ++ es;
  state = run_commands es n.state;
}

apply_next-held :
    (n : Node)
    → Placed n.log
    → n.log.snapshot_index ≤ n.last_applied
    → n.last_applied < last_index n.log
    → (e : Entry) × (apply_next n ≡ ok (applied_to n (n.last_applied + 1) (e ∷ [])))
      × (drop (n.last_applied - n.log.snapshot_index) n.log.entries
          ≡ e ∷ drop (suc (n.last_applied - n.log.snapshot_index)) n.log.entries)
unfolding apply_next holds
apply_next-held n h lo hi =
    let (e, q, _, g) = at-held n.log (n.last_applied + 1) h (omega arith) (omega arith) in
    let k : n.last_applied + 1 - (n.log.snapshot_index + 1)
        ≡ n.last_applied - n.log.snapshot_index =
      omega arith in
    (
      e,
      ground (arith, q),
      drop-get_elem? (n.last_applied - n.log.snapshot_index) n.log.entries e (rw k at g),
    )

run_commands-append :
    (es fs : List Entry) (state : Dict ℕ)
    → run_commands (es ++ fs) state ≡ run_commands fs (run_commands es state)
run_commands-append [] fs state = refl
run_commands-append (e ∷ es) fs state = run_commands-append es fs (apply_command e.command state)

applied_to-applied_to :
    (n : Node) (i j : ℕ) (es fs : List Entry)
    → applied_to (applied_to n i es) j fs ≡ applied_to n j (es ++ fs)
applied_to-applied_to n i j es fs = simp (append_assoc, run_commands-append)

applied_to_nothing : (n : Node) → applied_to n n.last_applied [] ≡ n
applied_to_nothing n = simp append-nil

-- An index inside the snapshot is passed over.
apply_next-gone :
    (n : Node)
    → n.last_applied < n.log.snapshot_index
    → apply_next n ≡ ok (record n { last_applied = n.last_applied + 1 })
unfolding apply_next holds
apply_next-gone n lo = ground arith

apply_rounds-eq :
    (k : ℕ) (n : Node)
    → Placed n.log
    → n.last_applied + k ≤ last_index n.log
    → apply_rounds k n
      ≡ ok (applied_to n (n.last_applied + k) (stretch n.log n.last_applied (n.last_applied + k)))
unfolding apply_rounds
apply_rounds-eq zero n h hi =
    let e : n.last_applied + 0 ≡ n.last_applied = omega arith in
    let none_left : n.last_applied - max n.last_applied n.log.snapshot_index ≡ 0 = omega arith in
    rw (e, none_left, applied_to_nothing n)
apply_rounds-eq (suc k) n h hi =
    let a : n.last_applied + 1 + k ≡ n.last_applied + suc k = omega arith in
    elim (Bool-cases (leb n.log.snapshot_index n.last_applied)) [
      | inl held ↦
          let (e, q, d) = apply_next-held n h (ground arith) (omega arith) in
          let next = applied_to n (n.last_applied + 1) (e ∷ []) in
          let r = apply_rounds-eq k next h (omega arith) in
          let b : n.last_applied + 1 - n.log.snapshot_index
              ≡ suc (n.last_applied - n.log.snapshot_index) =
            ground arith in
          let c : n.last_applied + suc k - max n.last_applied n.log.snapshot_index ≡ suc k =
            ground arith in
          let f : n.last_applied + suc k - max (n.last_applied + 1) n.log.snapshot_index ≡ k =
            ground arith in
          rw (
            q,
            r,
            d,
            a,
            b,
            c,
            f,
            applied_to-applied_to n (n.last_applied + 1) (n.last_applied + suc k) (e ∷ []),
          )
      | inr gone ↦
          let next : Node = record n { last_applied = n.last_applied + 1 } in
          let r = apply_rounds-eq k next h (omega arith) in
          let b : n.last_applied + 1 - n.log.snapshot_index
              ≡ n.last_applied - n.log.snapshot_index =
            ground arith in
          let c : max (n.last_applied + 1) n.log.snapshot_index
              ≡ max n.last_applied n.log.snapshot_index =
            ground arith in
          rw (apply_next-gone n (ground arith), r, a, b, c)
    ]

-- A node whose log has its entries at their indices and reaches the commit index, and that has not
-- applied beyond it, applies in order and each once exactly the entries that its log holds above `last_applied` up to the commit index, and
-- stops with `last_applied` there. Indices inside its snapshot are passed over.
pub apply_exact :
    (n : Node)
    → Placed n.log
    → n.last_applied ≤ n.commit_index
    → n.commit_index ≤ last_index n.log
    → apply_committed n
      ≡ ok (applied_to n n.commit_index (stretch n.log n.last_applied n.commit_index))
unfolding apply_committed
apply_exact n h mid hi =
    let e : n.last_applied + (n.commit_index - n.last_applied) ≡ n.commit_index = omega arith in
    rw (apply_rounds-eq (n.commit_index - n.last_applied) n h (omega (arith, e, hi)), e)

-- `apply_committed` returns whatever was applied before.
pub apply_committed-total :
    (n : Node)
    → Placed n.log
    → n.commit_index ≤ last_index n.log
    → (m : Node) × (apply_committed n ≡ ok m)
unfolding apply_committed apply_rounds
apply_committed-total n h hi = elim (Bool-cases (leb n.last_applied n.commit_index)) [
  | inl mid ↦ (_, apply_exact n h (ground arith) hi)
  | inr ahead ↦
      let none_left : n.commit_index - n.last_applied ≡ 0 = ground arith in (n, rw none_left refl)
]
