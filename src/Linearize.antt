-- ===== src/Linearize.antt =====
-- rsm/verify/linearize.py: `check`, which decides whether a history is linearizable.
pub mod Orders
pub mod Sound
pub mod Digests
pub mod Alike
pub mod Cost
pub mod Complete
pub mod Rejects
pub mod Verdicts
pub mod Raising
pub mod Recorded
use replicated_state_machine.Prelude.{
  ℕ, zero, suc, ◌+◌, ◌-◌, Bool, true, false, not, ◌&&◌, ◌||◌, Option, none, some, List, [], ◌∷◌,
  ◌++◌, Dict, ltb, leb, elem, length, ◌==◌, if◌then◌else◌,
}
use replicated_state_machine.Errors.{Result, ok, err, config_error}
use replicated_state_machine.Machine.{Object, Machine, Python, fresh, apply, same}
use replicated_state_machine.History.{Operation, History, returned_before, is_complete}

abbrev pub default_budget : ℕ
default_budget = 200_000

pub data Answer : Type 0 where
  linearizable not_linearizable unknown : Answer

pub record Verdict : Type 0 where
  pub answer : Answer
  pub states : ℕ
  pub longest_prefix : ℕ
  pub operations : ℕ
  pub failed_at : Option Operation

-- `Verdict.decided`
unfoldable pub decided : Answer → Bool
decided linearizable = true
decided not_linearizable = true
decided unknown = false

-- A digest is the sorted pairs of a key and the `repr` of its value.
abbrev pub Digest : Type 0
Digest = List (ℕ × ℕ)

-- a position of the search: the identities of the operations placed, and the digest of the state
abbrev pub Position : Type 0
Position = List ℕ × Digest

-- `drawn` is the place of the global random generator, from which a command may draw.
pub record Search : Type 0 where
  pub budget : ℕ
  pub states : ℕ
  pub longest : ℕ
  pub deepest : Option Operation
  pub seen : List Position
  pub drawn : ℕ

abbrev pub exhausted : Search → Bool
exhausted s = leb s.budget s.states

-- `sorted(..., key=lambda one: (one.called_at, one.client))`, which is stable
abbrev pub goes_first : Operation → Operation → Bool
goes_first one two =
    ltb one.called_at two.called_at || (one.called_at == two.called_at) && leb one.client two.client

abbrev pub put_operation : Operation → List Operation → List Operation
put_operation one [] = one ∷ []
put_operation one (two ∷ rest) =
    let deeper = put_operation one rest in
    if goes_first one two then one ∷ two ∷ rest else two ∷ deeper

unfoldable pub minimal : List Operation → List Operation
minimal [] = []
minimal (one ∷ rest) = put_operation one (minimal rest)

-- Whether no other operation that remains returned before this one was called.
abbrev pub allowed : Operation → List Operation → Bool
allowed one [] = true
allowed one (held ∷ rest) =
    ((held.ident == one.ident) || not (returned_before held.returned_at one.called_at))
    && allowed one rest

-- `[other for other in remaining if other is not one]`
abbrev pub without : ℕ → List Operation → List Operation
without ident [] = []
without ident (one ∷ rest) =
    let deeper = without ident rest in if one.ident == ident then deeper else one ∷ deeper

-- `sorted` on the pairs of a digest; the keys of a dict differ, so that they decide.
abbrev pub put_pair : ℕ × ℕ → Digest → Digest
put_pair (k, v) [] = (k, v) ∷ []
put_pair (k, v) ((j, w) ∷ rest) =
    let deeper = put_pair (k, v) rest in if leb k j then (k, v) ∷ (j, w) ∷ rest else (j, w) ∷ deeper

-- `Machine.digest`, for Python's `repr`
unfoldable pub digest : (Object → ℕ) → Dict Object → Digest
digest repr [] = []
digest repr ((key, value) ∷ rest) = put_pair (key, repr value) (digest repr rest)

abbrev pub same_digest : Digest → Digest → Bool
same_digest [] [] = true
same_digest ((k, v) ∷ rest) ((j, w) ∷ others) = (k == j) && (v == w) && same_digest rest others
same_digest [] (_ ∷ _) = false
same_digest (_ ∷ _) [] = false

-- equality of sets kept as lists
abbrev pub within : List ℕ → List ℕ → Bool
within [] ys = true
within (x ∷ xs) ys = elem x ys && within xs ys

abbrev pub same_set : List ℕ → List ℕ → Bool
same_set xs ys = within xs ys && within ys xs

-- `position in search.seen`
abbrev pub was_seen : Position → List Position → Bool
was_seen p [] = false
was_seen p (q ∷ rest) = same_set p.0 q.0 && same_digest p.1 q.1 || was_seen p rest

abbrev pub first_of : List Operation → Option Operation
first_of [] = none
first_of (one ∷ _) = some one

-- what a call of `walk` does before it returns or looks at its position
abbrev pub visit : List ℕ → List Operation → Search → Search
visit done remaining s =
    let counted : Search = record s { states = s.states + 1 } in
    if ltb s.longest (length done)
    then record counted { longest = length done; deepest = first_of remaining }
    else counted

-- the type of `walk` at one depth
abbrev pub Walk : Type 0
Walk = List ℕ → List Operation → Dict Object → Search → Search × Bool

-- the next round of the loop, unless this one has found an order
abbrev pub or_next : Search × Bool → (Search → Search × Bool) → Search × Bool
or_next (s, true) next = (s, true)
or_next (s, false) next = next s

-- `one.complete and answer != one.result`
abbrev pub wrong_answer : Operation → Object → Bool
wrong_answer one answer = is_complete one && not (same answer one.result)

-- A round of the loop, from the result of `attempt.apply`.
abbrev pub tried :
    Walk → List ℕ → List Operation → Operation → Search → Result (Object × Machine) → Search × Bool
tried go done remaining one s (err _) = (s, false)
tried go done remaining one s (ok (out, m)) =
    let after : Search = record s { drawn = m.drawn } in
    if wrong_answer one out
    then (after, false)
    else go (done ++ one.ident ∷ []) (without one.ident remaining) m.state after

-- `Machine(state=dict(machine.state))`, at the place of the generator
abbrev pub copy_of : Dict Object → ℕ → Machine
copy_of state drawn = record (fresh drawn) { state = state }

abbrev pub answer_of : Search → Bool → Answer
answer_of s found =
    if found then linearizable else if exhausted s then unknown else not_linearizable

abbrev pub verdict_of : ℕ → Search × Bool → Verdict
verdict_of count (s, found) = record {
  answer = answer_of s found;
  states = s.states;
  longest_prefix = s.longest;
  operations = count;
  failed_at = if found then none else s.deepest;
}

abbrev pub new_search : ℕ → ℕ → Search
new_search budget drawn = record {
  budget = budget;
  states = 0;
  longest = 0;
  deepest = none;
  seen = [];
  drawn = drawn;
}

module _ (python : Python) where
  -- a round of the loop of `walk`
  unfoldable pub try_one :
      Walk → List ℕ → List Operation → Dict Object → Operation → Search → Search × Bool
  try_one go done remaining state one s =
      if not (allowed one remaining)
      then (s, false)
      else tried go done remaining one s (apply python (copy_of state s.drawn) one.command)

  unfoldable pub try_each :
      Walk → List ℕ → List Operation → Dict Object → List Operation → Search → Search × Bool
  try_each go done remaining state [] s = (s, false)
  try_each go done remaining state (one ∷ rest) s =
      or_next (try_one go done remaining state one s)
        (λ s'. try_each go done remaining state rest s')

module _ (python : Python) (repr : Object → ℕ) where
  -- `walk` from the test of the budget on
  abbrev pub explore : Walk → Walk
  explore go done remaining state s =
      if exhausted s
      then (s, false)
      else if was_seen (done, digest repr state) s.seen
      then (s, false)
      else try_each python go done remaining state remaining
          (record s { seen = (done, digest repr state) ∷ s.seen })

  -- `walk`, whose depth is at most the number of operations that remain
  unfoldable pub walk : ℕ → Walk
  walk depth done [] state s = (visit done [] s, true)
  walk zero done (one ∷ rest) state s = (visit done (one ∷ rest) s, false)
  walk (suc depth) done (one ∷ rest) state s =
      explore (walk depth) done (one ∷ rest) state (visit done (one ∷ rest) s)

  -- `check(history, budget)`, at a place of the generator
  unfoldable pub check : History → ℕ → ℕ → Result Verdict
  check h budget drawn =
      if ltb budget 1
      then err config_error
      else let ordered = minimal h.operations in
        ok (
          verdict_of (length ordered)
            (walk (length ordered) [] ordered [] (new_search budget drawn)))
