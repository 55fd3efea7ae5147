-- ===== src/History.antt =====
-- rsm/verify/history.py: `Operation` and `History`.

use replicated_state_machine.Prelude.{
  ℕ, ◌+◌, Bool, true, false, not, ◌&&◌, ◌||◌, Option, none, some, List, [], ◌∷◌, ◌++◌, ltb, ◌==◌,
  if◌then◌else◌,
}
use replicated_state_machine.Errors.{Result, ok, err, config_error}
use replicated_state_machine.Machine.{
  Name, set, delete, increment, compare_and_set, now, Command, Object, nothing, same,
}

-- `ident` stands for the identity of the object, `id(one)`, by which the checker knows it.
pub record Operation : Type 0 where
  pub ident : ℕ
  pub client : ℕ
  pub command : Command
  pub called_at : ℕ
  pub returned_at : Option ℕ
  pub result : Object

abbrev pub returned_before : Option ℕ → ℕ → Bool
returned_before none time = false
returned_before (some at) time = ltb at time

-- `Operation(...)` with its `__post_init__`; a time is not negative.
unfoldable pub new_operation : Operation → Result Operation
new_operation one =
    if returned_before one.returned_at one.called_at then err config_error else ok one

abbrev pub present : Option ℕ → Bool
present none = false
present (some _) = true

abbrev pub is_complete : Operation → Bool
is_complete one = present one.returned_at

unfoldable pub overlaps : Operation → Operation → Bool
overlaps one two =
    if returned_before one.returned_at two.called_at
    then false
    else not (returned_before two.returned_at one.called_at)

pub record History : Type 0 where
  pub operations : List Operation
  pub clock : ℕ

abbrev pub no_history : History
no_history = record { operations = []; clock = 0 }

-- `place` is the identity that Python gives the object that `call` makes.
unfoldable pub call : History → ℕ → ℕ → Command → History × Operation
call h place client command =
    let one : Operation = record {
      ident = place;
      client = client;
      command = command;
      called_at = h.clock + 1;
      returned_at = none;
      result = nothing;
    } in
    (record { operations = h.operations ++ one ∷ []; clock = h.clock + 1 }, one)

abbrev pub rank : Name → ℕ
rank set = 0
rank delete = 1
rank increment = 2
rank compare_and_set = 3
rank now = 4

abbrev pub same_command : Command → Command → Bool
same_command c d =
    (rank c.name == rank d.name)
    && (c.key == d.key)
    && same c.value d.value
    && same c.expected d.expected

abbrev pub same_time : Option ℕ → Option ℕ → Bool
same_time none none = true
same_time (some a) (some b) = a == b
same_time none (some b) = false
same_time (some a) none = false

-- `==` of the dataclass, which compares the fields
abbrev pub same_operation : Operation → Operation → Bool
same_operation one two =
    (one.client == two.client)
    && same_command one.command two.command
    && (one.called_at == two.called_at)
    && same_time one.returned_at two.returned_at
    && same one.result two.result

-- `operation in self.operations`: an element that is the object, or is equal to it
abbrev pub has_operation : Operation → List Operation → Bool
has_operation one [] = false
has_operation one (held ∷ rest) =
    (held.ident == one.ident) || same_operation held one || has_operation one rest

abbrev pub answer_at : ℕ → Object → Operation → Operation
answer_at time result one = record one { returned_at = some time; result = result }

-- The assignments to the fields of the object `operation`, seen in the list that holds it.
abbrev pub answered : ℕ → ℕ → Object → List Operation → List Operation
answered ident time result [] = []
answered ident time result (one ∷ rest) =
    let deeper = answered ident time result rest in
    if one.ident == ident then answer_at time result one ∷ deeper else one ∷ deeper

unfoldable pub complete : History → Operation → Object → Result (History × Operation)
complete h one result =
    if not (has_operation one h.operations)
    then err config_error
    else ok (
      record {
        operations = answered one.ident (h.clock + 1) result h.operations;
        clock = h.clock + 1;
      },
      answer_at (h.clock + 1) result one,
    )

-- `pending` and `completed`
abbrev pub by_state : Bool → List Operation → List Operation
by_state wanted [] = []
by_state wanted (one ∷ rest) =
    let deeper = by_state wanted rest in
    if is_complete one
    then (if wanted then one ∷ deeper else deeper)
    else if wanted
    then deeper
    else one ∷ deeper

abbrev pub pending : History → List Operation
pending h = by_state false h.operations

abbrev pub completed : History → List Operation
completed h = by_state true h.operations

-- `of`
abbrev pub of_client : ℕ → List Operation → List Operation
of_client client [] = []
of_client client (one ∷ rest) =
    let deeper = of_client client rest in if one.client == client then one ∷ deeper else deeper

-- How many of the operations after it an operation overlaps.
abbrev pub overlapping : Operation → List Operation → ℕ
overlapping left [] = 0
overlapping left (right ∷ rest) = (if overlaps left right then 1 else 0) + overlapping left rest

abbrev pub count_pairs : List Operation → ℕ
count_pairs [] = 0
count_pairs (left ∷ rest) = overlapping left rest + count_pairs rest

unfoldable pub concurrent_pairs : History → ℕ
concurrent_pairs h = count_pairs h.operations

unfoldable pub sequential : History → Bool
sequential h = concurrent_pairs h == 0
