-- ===== src/Learner.antt =====
-- rsm/learner.py: `Roster`, who votes and who only listens.
pub mod Roles
use replicated_state_machine.Prelude.{
  ℕ, suc, ◌+◌, ◌/◌, ◌≤◌, ◌≡◌, refl, sym, ap, subst, ◌∙◌, Bool, true, false, not, ◌&&◌, ◌||◌,
  Bool-cases, inl, inr, List, [], ◌∷◌, ◌++◌, length, length-append, elem, leb, ◌==◌, if◌then◌else◌,
  arith,
}
use replicated_state_machine.Errors.{Result, ok, err, config_error}
use replicated_state_machine.Node.State.{distinct, others}
use replicated_state_machine.Membership.{none_of, among}

pub data Kind : Type 0 where
  voter learner : Kind

pub record Roster : Type 0 where
  pub voters : List ℕ
  pub learners : List ℕ

-- `Roster(...)` with its `__post_init__`
unfoldable pub new_roster : List ℕ → List ℕ → Result Roster
new_roster voters learners =
    if none_of voters
    then err config_error
    else if not (none_of (among learners voters))
    then err config_error
    else if not (distinct (voters ++ learners))
    then err config_error
    else ok (record { voters = voters; learners = learners })

unfoldable pub members : Roster → List ℕ
members r = r.voters ++ r.learners

unfoldable pub quorum : Roster → ℕ
quorum r = length r.voters / 2 + 1

unfoldable pub role : Roster → ℕ → Result Kind
role r name =
    if elem name r.voters
    then ok voter
    else if elem name r.learners
    then ok learner
    else err config_error

unfoldable pub promote : Roster → ℕ → Result Roster
promote r name =
    if not (elem name r.learners)
    then err config_error
    else new_roster (r.voters ++ name ∷ []) (others name r.learners)

unfoldable pub with_learner : Roster → ℕ → Result Roster
with_learner r name =
    if elem name (members r)
    then err config_error
    else new_roster r.voters (r.learners ++ name ∷ [])
