-- ===== src/Learner/Roles.antt =====
-- The one moment that roles change (rsm/learner.py).
use replicated_state_machine.Prelude.{
  ℕ, ◌≡◌, refl, subst, not, ◌&&◌, List, [], ◌∷◌, ◌++◌, elem, ◌==◌, if◌then◌else◌, arith,
}
use replicated_state_machine.Errors.{ok}
use replicated_state_machine.Node.State.{others}
use replicated_state_machine.Membership.Majorities.{elem-snoc}
use replicated_state_machine.Learner.{voter, Roster, new_roster, role, promote}

elem-others_eq : (v x : ℕ) (xs : List ℕ) → elem v (others x xs) ≡ (elem v xs && not (v == x))
elem-others_eq v x [] = refl
elem-others_eq v x (y ∷ xs) = let rest = elem-others_eq v x xs in ground (arith, rest)

new_roster-eq :
    (voters learners : List ℕ) {r : Roster}
    → new_roster voters learners ≡ ok r
    → record { voters = voters; learners = learners } ≡ r
unfolding new_roster
new_roster-eq voters learners q = ground arith

promote-eq :
    (r : Roster) (name : ℕ) {r' : Roster}
    → promote r name ≡ ok r'
    → record { voters = r.voters ++ name ∷ []; learners = others name r.learners } ≡ r'
unfolding promote
promote-eq r name {r'} q =
    new_roster-eq (r.voters ++ name ∷ []) (others name r.learners) {r = r'} (ground arith)

role-promoted :
    (r : Roster) (name other : ℕ)
    → role (record { voters = r.voters ++ name ∷ []; learners = others name r.learners }) other
      ≡ (if other == name then ok voter else role r other)
unfolding role
role-promoted r name other =
    let v = elem-snoc other name r.voters in
    let l = elem-others_eq other name r.learners in rw (v, l) (ground arith)

-- A promotion that is accepted makes a voter of that name and changes no other role.
pub role-promote :
    (r : Roster) (name other : ℕ) {r' : Roster}
    → promote r name ≡ ok r'
    → role r' other ≡ (if other == name then ok voter else role r other)
role-promote r name other q =
    subst (λ s. role s other ≡ (if other == name then ok voter else role r other))
      (promote-eq r name q) (role-promoted r name other)
