-- ===== src/Log.antt =====
-- rsm/log.py: `Entry`, `Log` and the functions on them. The proofs are in the modules below.
pub mod Shape
pub mod Access
pub mod Change
pub mod Order
pub mod Agree
pub mod Reconcile
use replicated_state_machine.Prelude.{
  ℕ, zero, suc, ◌+◌, ◌-◌, min, Bool, true, false, not, ◌&&◌, ◌||◌, Option, none, some, List, [],
  ◌∷◌, ◌++◌, map, length, get_elem?, take, last_or, ltb, leb, ◌==◌, if◌then◌else◌,
}
use replicated_state_machine.Errors.{
  Result, ok, err, ◌>>=◌, compacted, not_found, log_error, leader_append_only, config_error,
  index_error,
}

-- A command is any Python object that can be hashed, as all commands of the package can. Only
-- `("set", key, value)` changes a node's state, so any other object is a number; `None` is `none` of an
-- `Option Command`.
pub data Command : Type 0 where
  set : ℕ → ℕ → Command
  other : ℕ → Command

abbrev pub no_term : ℕ
no_term = 0

abbrev pub no_index : ℕ
no_index = 0

pub record Entry : Type 0 where
  pub term : ℕ
  pub index : ℕ
  pub command : Option Command

pub record Log : Type 0 where
  pub entries : List Entry
  pub snapshot_index : ℕ
  pub snapshot_term : ℕ

abbrev pub empty_log : Log
empty_log = record { entries = []; snapshot_index = no_index; snapshot_term = no_term }

-- `Entry(...)` with its `__post_init__`
unfoldable pub new_entry : ℕ → ℕ → Option Command → Result Entry
new_entry term index command =
    if ltb term 1
    then err config_error
    else if ltb index 1
    then err config_error
    else ok (record { term = term; index = index; command = command })

-- the two loops of `Log.__post_init__`
abbrev pub in_place : ℕ → List Entry → Bool
in_place expected [] = true
in_place expected (e ∷ es) = (e.index == expected) && in_place (suc expected) es

abbrev pub ascending : List Entry → Bool
ascending [] = true
ascending (e ∷ []) = true
ascending (e ∷ f ∷ es) = leb e.term f.term && ascending (f ∷ es)

-- `Log(...)`; a negative `snapshot_index` is not a number here
unfoldable pub new_log : List Entry → ℕ → ℕ → Result Log
new_log entries snapshot_index snapshot_term =
    if not (in_place (suc snapshot_index) entries)
    then err config_error
    else if not (ascending entries)
    then err config_error
    else ok (record {
      entries = entries;
      snapshot_index = snapshot_index;
      snapshot_term = snapshot_term;
    })

abbrev pub index_of : Entry → ℕ
index_of e = e.index

abbrev pub term_of : Entry → ℕ
term_of e = e.term

unfoldable pub first_index : Log → ℕ
first_index l = l.snapshot_index + 1

unfoldable pub last_index : Log → ℕ
last_index l = last_or l.snapshot_index (map index_of l.entries)

unfoldable pub last_term : Log → ℕ
last_term l = last_or l.snapshot_term (map term_of l.entries)

unfoldable pub empty : Log → Bool
unfolding last_index
empty l = last_index l == no_index

unfoldable pub holds : Log → ℕ → Bool
unfolding first_index
holds l index = leb (first_index l) index && leb index (last_index l)

-- `entries[i]` for an index that is not negative
abbrev pub nth : List Entry → ℕ → Result Entry
nth entries i = elim (get_elem? entries i) [ none ↦ err index_error | some e ↦ ok e ]

unfoldable pub at : Log → ℕ → Result Entry
unfolding first_index
at l index =
    if leb index l.snapshot_index
    then err compacted
    else if ltb (last_index l) index
    then err not_found
    else nth l.entries (index - first_index l)

unfoldable pub term_at : Log → ℕ → Result ℕ
term_at l index =
    if index == no_index
    then ok no_term
    else if index == l.snapshot_index
    then ok l.snapshot_term
    else do one ← at l index; ok one.term

-- `[self.at(one) for one in range(start, start + count)]`
unfoldable pub collect : Log → ℕ → ℕ → Result (List Entry)
collect l start zero = ok []
collect l start (suc count) = do
  one ← at l start
  rest ← collect l (suc start) count
  ok (one ∷ rest)

unfoldable pub slice : Log → ℕ → Option ℕ → Result (List Entry)
unfolding first_index
slice l start stop =
    let end : ℕ = elim stop [ none ↦ last_index l | some s ↦ min s (last_index l) ] in
    if ltb start (first_index l) then err compacted else collect l start (end + 1 - start)

unfoldable pub matches : Log → ℕ → ℕ → Result Bool
matches l index term =
    if index == no_index
    then ok true
    else if ltb index l.snapshot_index || ltb (last_index l) index
    then ok false
    else do held ← term_at l index; ok (held == term)

unfoldable pub is_up_to_date : Log → ℕ → ℕ → Bool
is_up_to_date l other_index other_term =
    if not (other_term == last_term l)
    then ltb (last_term l) other_term
    else leb (last_index l) other_index

-- `self.entries.append(one)`, with no check
abbrev pub push : Log → Entry → Log
push l e = record l { entries = l.entries ++ e ∷ [] }

-- one round of the loop of `append`
unfoldable pub append_one : Log → Entry → Result Log
append_one l e =
    if not (e.index == last_index l + 1)
    then err log_error
    else if ltb e.term (last_term l)
    then err leader_append_only
    else ok (push l e)

unfoldable pub append : Log → List Entry → Result Log
append l [] = ok l
append l (e ∷ es) = do l' ← append_one l e; append l' es

-- The log that is left, and how many entries went.
unfoldable pub truncate_from : Log → ℕ → Result (Log × ℕ)
unfolding first_index
truncate_from l index =
    if leb index l.snapshot_index
    then err compacted
    else if ltb (last_index l) index
    then ok (l, 0)
    else let keep = index - first_index l in
      ok (record l { entries = take keep l.entries }, length l.entries - keep)
