-- ===== src/Quorum/Rules.antt =====
-- rsm/quorum.py: `majority`, `Rule` and `raft`.
use replicated_state_machine.Prelude.{
  ℕ, ◌+◌, ◌-◌, ◌/◌, ◌≤◌, ◌≡◌, ◌↔◌, min, Bool, true, not, ◌&&◌, List, length, elem, ltb, leb,
  if◌then◌else◌, arith, subst,
}
use replicated_state_machine.Errors.{Result, ok, err, ◌>>=◌, config_error}
use replicated_state_machine.Node.State.{distinct}
use replicated_state_machine.Quorum.Overlap.{overlap, Within}

unfoldable pub majority : ℕ → Result ℕ
majority size = if ltb size 1 then err config_error else ok (size / 2 + 1)

unfoldable pub tolerates : ℕ → Result ℕ
tolerates size = do needed ← majority size; ok (size - needed)

pub record Rule : Type 0 where
  pub size : ℕ
  pub election : ℕ
  pub commit : ℕ

-- `Rule(...)` with its `__post_init__`
unfoldable pub new_rule : ℕ → ℕ → ℕ → Result Rule
new_rule size election commit =
    if ltb size 1
    then err config_error
    else if not (leb 1 election && leb election size)
    then err config_error
    else if not (leb 1 commit && leb commit size)
    then err config_error
    else ok (record { size = size; election = election; commit = commit })

unfoldable pub intersects : Rule → Bool
intersects r = ltb r.size (r.election + r.commit)

-- `max(0, ...)` cuts these two off at zero.
unfoldable pub write_cost : Rule → ℕ
write_cost r = r.commit - 1

unfoldable pub election_cost : Rule → ℕ
election_cost r = r.election - 1

-- A rule that was accepted has no quorum above its size, so these do not go below zero.
unfoldable pub survives_writes : Rule → ℕ
survives_writes r = r.size - r.commit

unfoldable pub survives_elections : Rule → ℕ
survives_elections r = r.size - r.election

unfoldable pub survives : Rule → ℕ
survives r = min (survives_writes r) (survives_elections r)

unfoldable pub raft : ℕ → Result Rule
raft size = do needed ← majority size; new_rule size needed needed

-- If the sum test of a rule passes, then any election quorum and any commit quorum of a cluster of
-- that size share a member.
pub intersects-overlap :
    (r : Rule) (members xs ys : List ℕ)
    → intersects r ≡ true
    → length members ≡ r.size
    → distinct xs ≡ true
    → distinct ys ≡ true
    → Within members xs
    → Within members ys
    → length xs ≡ r.election
    → length ys ≡ r.commit
    → (v : ℕ) × (elem v xs ≡ true) × (elem v ys ≡ true)
unfolding intersects
intersects-overlap r members xs ys passes size dx dy wx wy nx ny =
    overlap members xs ys dx dy wx wy (ground arith)

-- A rule with one size for both quorums passes the sum test exactly if that size is at least the
-- majority.
pub majority_smallest :
    (size both needed : ℕ) {r : Rule}
    → new_rule size both both ≡ ok r
    → majority size ≡ ok needed
    → (intersects r ≡ true) ↔ (needed ≤ both)
unfolding new_rule majority intersects
majority_smallest size both needed {r} made most =
    let e : size / 2 + 1 ≡ needed = ground arith in
    let f : record { size = size; election = both; commit = both } ≡ r = ground arith in
    subst (λ (k : Rule). (intersects k ≡ true) ↔ (needed ≤ both)) f
      (λ passes. ground (arith, passes, e), λ enough. ground (arith, enough, e))
