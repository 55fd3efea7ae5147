-- ===== src/Tests/Histories.antt =====
-- Histories that the checker accepts and rejects, and its theorems at them.
use mathlib.Core.List.{mem-cons_self, mem-cons_of_mem, not-mem-nil, Pairwise}
use replicated_state_machine.Prelude.{
  ℕ, ◌+◌, ◌*◌, ◌/◌, ◌%◌, ◌≡◌, ◌≢◌, refl, sym, ap, ◌∙◌, true, false, pos, negsuc, Option, none, some,
  List, [], ◌∷◌, All, ◌==◌, if◌then◌else◌, arith,
}
use replicated_state_machine.Errors.{ok, value_error}
use replicated_state_machine.Machine.{
  Object, Command, Python, set, increment, compare_and_set, nothing, integer, flag, text, float,
  apply,
}
use replicated_state_machine.History.{
  Operation, History, no_history, call, complete, new_operation, overlaps,
}
use replicated_state_machine.Linearize.{
  linearizable, not_linearizable, Verdict, check, walk, try_each, try_one, digest, minimal, decided,
}
use replicated_state_machine.Linearize.Orders.{Orders, Distinct, Mem-All}
use replicated_state_machine.Linearize.Verdicts.{
  linearizable-Orders, not_linearizable-Orders, check_decides,
}
use replicated_state_machine.Linearize.Raising.{raising-not_linearizable}
use replicated_state_machine.Linearize.Recorded.{
  Recorded, nothing_asked, asked, heard, Recorded-Distinct,
}

abbrev python : Python
python = record { int_of_text = λ _. none; chance = λ n. n }

-- A text of each object, as a number, and the object of a text.
abbrev code : Object → ℕ
code nothing = 0
code (flag false) = 5
code (flag true) = 10
code (integer (pos n)) = 1 + 5 * n
code (integer (negsuc n)) = 2 + 5 * n
code (text n) = 3 + 5 * n
code (float n) = 4 + 5 * n

abbrev object_of : ℕ → Object
object_of n =
    if n % 5 == 1
    then integer (pos (n / 5))
    else if n % 5 == 2
    then integer (negsuc (n / 5))
    else if n % 5 == 3
    then text (n / 5)
    else if n % 5 == 4
    then float (n / 5)
    else if n == 5
    then flag false
    else if n == 10
    then flag true
    else nothing

object_of-code : (o : Object) → object_of (code o) ≡ o
object_of-code nothing = refl
object_of-code (flag false) = refl
object_of-code (flag true) = refl
object_of-code (integer (pos n)) = ground arith
object_of-code (integer (negsuc n)) = ground arith
object_of-code (text n) = ground arith
object_of-code (float n) = ground arith

code_once : (a b : Object) → code a ≡ code b → a ≡ b
code_once a b e = sym (object_of-code a) ∙ ap object_of e ∙ object_of-code b

abbrev write_two : Command
write_two = record { name = set; key = 1; value = integer (pos 2); expected = nothing }

abbrev swap_from_none : Command
swap_from_none = record {
  name = compare_and_set;
  key = 1;
  value = integer (pos 1);
  expected = nothing;
}

abbrev operation : ℕ → ℕ → Command → Option ℕ → Object → Operation
operation client at command returned result = record {
  ident = at;
  client = client;
  command = command;
  called_at = at;
  returned_at = returned;
  result = result;
}

-- A write that returns, and then a conditional write from the state before it.
abbrev separated : History
separated = record {
  operations =
      operation 1 1 write_two (some 2) (integer (pos 2))
      ∷ operation 2 3 swap_from_none (some 4) (flag true)
      ∷ [];
  clock = 4;
}

-- The same two in flight together.
abbrev overlapping : History
overlapping = record {
  operations =
      operation 1 1 write_two (some 4) (integer (pos 2))
      ∷ operation 2 2 swap_from_none (some 3) (flag true)
      ∷ [];
  clock = 4;
}

abbrev rejected : Verdict
rejected = record {
  answer = not_linearizable;
  states = 2;
  longest_prefix = 1;
  operations = 2;
  failed_at = some (operation 2 3 swap_from_none (some 4) (flag true));
}

abbrev accepted : Verdict
accepted = record {
  answer = linearizable;
  states = 4;
  longest_prefix = 2;
  operations = 2;
  failed_at = none;
}

checks_separated : check python code separated 100 0 ≡ ok rejected
unfolding check walk try_each try_one digest minimal apply
checks_separated = refl

checks_overlapping : check python code overlapping 100 0 ≡ ok accepted
unfolding check walk try_each try_one digest minimal apply
checks_overlapping = refl

overlap :
    overlaps (operation 1 1 write_two (some 4) nothing) (operation 2 2 write_two none nothing)
    ≡ true
unfolding overlaps
overlap = refl

abbrev first_asked : History
first_asked = record { operations = operation 1 1 write_two none nothing ∷ []; clock = 1 }

abbrev first_heard : History
first_heard = record {
  operations = operation 1 1 write_two (some 2) (integer (pos 2)) ∷ [];
  clock = 2;
}

abbrev second_asked : History
second_asked = record {
  operations =
      operation 1 1 write_two (some 2) (integer (pos 2))
      ∷ operation 2 3 swap_from_none none nothing
      ∷ [];
  clock = 3;
}

answers_first :
    complete first_asked (operation 1 1 write_two none nothing) (integer (pos 2))
    ≡ ok (first_heard, operation 1 1 write_two (some 2) (integer (pos 2)))
unfolding complete
answers_first = refl

answers_second :
    complete second_asked (operation 2 3 swap_from_none none nothing) (flag true)
    ≡ ok (separated, operation 2 3 swap_from_none (some 4) (flag true))
unfolding complete
answers_second = refl

asks_first : Recorded first_asked
unfolding call
asks_first = asked no_history 1 1 write_two tt nothing_asked

asks_second : Recorded second_asked
unfolding call
asks_second =
    asked first_heard 3 2 swap_from_none (omega arith, tt) (heard _ _ answers_first asks_first)

separated-Recorded : Recorded separated
separated-Recorded = heard _ _ answers_second asks_second

Recorded-Distinct_example :
    Distinct separated.operations
    × All (λ one. new_operation one ≡ ok one) separated.operations
    × (minimal separated.operations ≡ separated.operations)
Recorded-Distinct_example = Recorded-Distinct separated separated-Recorded

overlapping-Distinct : Distinct overlapping.operations
overlapping-Distinct =
    Pairwise.cons
      (λ a m e. absurd (
        Mem-All {P = λ two. 1 ≢ two.ident} (λ _. hlevel)
          (operation 2 2 swap_from_none (some 3) (flag true) ∷ []) (omega arith, tt) m e))
      (Pairwise.cons (λ a m. absurd (not-mem-nil m)) Pairwise.nil)

linearizable-Orders_example :
    (order : List Operation) × Orders python [] overlapping.operations order
linearizable-Orders_example =
    linearizable-Orders python code overlapping 100 0 overlapping-Distinct (refl, (refl, tt))
      accepted checks_overlapping refl

not_linearizable-Orders_example : ¬ Orders python [] separated.operations separated.operations
not_linearizable-Orders_example =
    not_linearizable-Orders python code separated 100 0 Recorded-Distinct_example.0
      (refl, (refl, tt)) code_once rejected checks_separated refl separated.operations

check_decides_example :
    (v : Verdict) × (check python code overlapping 6 0 ≡ ok v) × (decided v.answer ≡ true)
check_decides_example = check_decides python code overlapping 6 0 (omega arith)

-- An increment by a text that is no number, which nobody heard of again.
abbrev lost_increment : Operation
lost_increment =
    operation 2 2 (record { name = increment; key = 1; value = text 7; expected = nothing }) none
      nothing

abbrev with_lost : History
with_lost = record {
  operations = operation 1 1 write_two (some 3) (integer (pos 2)) ∷ lost_increment ∷ [];
  clock = 3;
}

with_lost-Distinct : Distinct with_lost.operations
with_lost-Distinct =
    Pairwise.cons
      (λ a m e. absurd (
        Mem-All {P = λ two. 1 ≢ two.ident} (λ _. hlevel) (lost_increment ∷ []) (omega arith, tt) m
          e))
      (Pairwise.cons (λ a m. absurd (not-mem-nil m)) Pairwise.nil)

-- Without the lost increment the write explains itself, and yet the history is rejected.
raising-not_linearizable_example :
    (v : Verdict) × (check python code with_lost 6 0 ≡ ok v) × (v.answer ≡ not_linearizable)
raising-not_linearizable_example =
    raising-not_linearizable python code with_lost 6 0 with_lost-Distinct (refl, (refl, tt))
      lost_increment {e = value_error} (mem-cons_of_mem _ mem-cons_self) refl refl (omega arith)
