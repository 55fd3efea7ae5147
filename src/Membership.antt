-- ===== src/Membership.antt =====
-- rsm/membership.py: `Configuration`, and the search for majorities that are apart.
pub mod Majorities
pub mod Changes
pub mod Search
use replicated_state_machine.Prelude.{
  ℕ, ◌+◌, ◌/◌, Bool, true, false, not, ◌&&◌, ◌||◌, List, [], ◌∷◌, ◌++◌, length, elem, add, ltb, leb,
  ◌==◌, if◌then◌else◌,
}
use replicated_state_machine.Errors.{Result, ok, err, config_error}
use replicated_state_machine.Node.State.{distinct, others}

pub data Stage : Type 0 where
  steady joint new : Stage

pub record Configuration : Type 0 where
  pub members : List ℕ
  pub old : List ℕ

abbrev pub none_of : List ℕ → Bool
none_of [] = true
none_of (x ∷ xs) = false

-- `Configuration(...)` with its `__post_init__`
unfoldable pub new_configuration : List ℕ → List ℕ → Result Configuration
new_configuration members old =
    if none_of members
    then err config_error
    else if not (distinct members)
    then err config_error
    else ok (record { members = members; old = old })

unfoldable pub is_joint : Configuration → Bool
is_joint c = not (none_of c.old)

unfoldable pub stage : Configuration → Stage
stage c = if is_joint c then joint else steady

-- `dict.fromkeys(names)`, on its keys: the names that are not in `done`, each once
abbrev pub each_once : List ℕ → List ℕ → List ℕ
each_once done [] = []
each_once done (x ∷ xs) =
    let skipped = each_once done xs in
    let taken = each_once (x ∷ done) xs in if elem x done then skipped else x ∷ taken

unfoldable pub voters : Configuration → List ℕ
voters c = if is_joint c then each_once [] (c.old ++ c.members) else c.members

-- `votes & set(members)`
abbrev pub among : List ℕ → List ℕ → List ℕ
among members [] = []
among members (v ∷ votes) =
    let rest = among members votes in if elem v members then v ∷ rest else rest

-- one side of the test of `quorum`
abbrev pub has_majority : List ℕ → List ℕ → Bool
has_majority members votes = leb (length members / 2 + 1) (length (among members votes))

unfoldable pub quorum : Configuration → List ℕ → Bool
quorum c votes =
    if not (is_joint c)
    then has_majority c.members votes
    else has_majority c.members votes && has_majority c.old votes

unfoldable pub with_member : Configuration → ℕ → Result Configuration
with_member c name =
    if elem name c.members
    then err config_error
    else new_configuration (c.members ++ name ∷ []) c.members

unfoldable pub without_member : Configuration → ℕ → Result Configuration
without_member c name =
    let remaining = others name c.members in
    if not (elem name c.members)
    then err config_error
    else if none_of remaining
    then err config_error
    else new_configuration remaining c.members

unfoldable pub settled : Configuration → Result Configuration
settled c = new_configuration c.members []

-- the inner `build` of `_majorities`, on the members from `position` on
abbrev pub build : ℕ → List ℕ → List ℕ → List (List ℕ)
build need [] chosen = if length chosen == need then chosen ∷ [] else []
build need (x ∷ xs) chosen =
    let taking = build need xs (add x chosen) in
    let passing = build need xs chosen in
    if length chosen == need then chosen ∷ [] else taking ++ passing

unfoldable pub majorities : List ℕ → List (List ℕ)
majorities members = build (length members / 2 + 1) members []

-- `left & right` is empty
abbrev pub apart : List ℕ → List ℕ → Bool
apart left right = none_of (among right left)

-- the inner loop of `disjoint_majorities`, and the outer
abbrev pub pairs_with : List ℕ → List (List ℕ) → List (List ℕ × List ℕ)
pairs_with left [] = []
pairs_with left (right ∷ rights) =
    let rest = pairs_with left rights in if apart left right then (left, right) ∷ rest else rest

abbrev pub all_pairs : List (List ℕ) → List (List ℕ) → List (List ℕ × List ℕ)
all_pairs [] rights = []
all_pairs (left ∷ lefts) rights = pairs_with left rights ++ all_pairs lefts rights

unfoldable pub disjoint_majorities : List ℕ → List ℕ → List (List ℕ × List ℕ)
disjoint_majorities before after = all_pairs (majorities before) (majorities after)
