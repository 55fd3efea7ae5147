-- ===== src/Machine.antt =====
-- rsm/machine.py: `Command`, `Machine` and `replay`.
pub mod Replay
use replicated_state_machine.Prelude.{
  ℕ, zero, suc, ◌+◌, ◌*◌, ◌/◌, ◌^◌, ℤ, pos, negsuc, ◌+ℤ◌, equal, Bool, true, false, not, ◌&&◌,
  Option, none, some, List, [], ◌∷◌, ◌++◌, Dict, lookup, insert, ◌==◌, if◌then◌else◌,
}
use replicated_state_machine.Errors.{Result, ok, err, ◌>>=◌, config_error, refused, value_error}

-- The objects that a state may hold. A text is a number, and the empty text is 0; a float of
-- `random.random()` is a number of units of 2⁻⁵³.
pub data Object : Type 0 where
  nothing : Object
  integer : ℤ → Object
  flag : Bool → Object
  text : ℕ → Object
  float : ℕ → Object

-- The five names of `COMMANDS`.
pub data Name : Type 0 where
  set delete increment compare_and_set now : Name

pub record Command : Type 0 where
  pub name : Name
  pub key : ℕ
  pub value : Object
  pub expected : Object

abbrev pub is_now : Name → Bool
is_now n = elim n [ now ↦ true | _ ↦ false ]

-- `Command(...)` with its `__post_init__`
unfoldable pub new_command : Name → ℕ → Object → Object → Result Command
new_command name key value expected =
    if not (is_now name) && (key == 0)
    then err config_error
    else ok (record { name = name; key = key; value = value; expected = expected })

abbrev pub idempotent : Command → Bool
idempotent c = elim c.name [ set ↦ true | delete ↦ true | _ ↦ false ]

abbrev pub deterministic : Command → Bool
deterministic c = not (is_now c.name)

-- What Python supplies: `int` of a text, and the draws of the global `random.random()`, by the
-- number of draws made before.
pub record Python : Type 0 where
  pub int_of_text : ℕ → Option ℤ
  pub chance : ℕ → ℕ

abbrev pub of_flag : Bool → ℤ
of_flag true = pos 1
of_flag false = pos 0

-- A flag is a number for `==`, and a float is one of its units.
abbrev pub is_units : ℤ → ℕ → Bool
is_units (pos n) k = n * 2 ^ 53 == k
is_units (negsuc n) k = false

-- `==` on objects
abbrev pub same : Object → Object → Bool
same nothing nothing = true
same (text a) (text b) = a == b
same (integer a) (integer b) = equal a b
same (integer a) (flag b) = equal a (of_flag b)
same (flag a) (integer b) = equal (of_flag a) b
same (flag a) (flag b) = equal (of_flag a) (of_flag b)
same (float a) (float b) = a == b
same (integer a) (float b) = is_units a b
same (float a) (integer b) = is_units b a
same (flag a) (float b) = is_units (of_flag a) b
same (float a) (flag b) = is_units (of_flag b) a
same _ _ = false

-- `isinstance(current, int)`, which flags are
abbrev pub as_int : Object → Option ℤ
as_int (integer i) = some i
as_int (flag b) = some (of_flag b)
as_int _ = none

-- `bool(...)` of an object
abbrev pub truth : Object → Bool
truth nothing = false
truth (integer i) = not (equal i (pos 0))
truth (flag b) = b
truth (text t) = not (t == 0)
truth (float k) = not (k == 0)

-- `get` of a dict, with `None` for a key that is missing
abbrev pub or_nothing : Option Object → Object
or_nothing none = nothing
or_nothing (some o) = o

abbrev pub or_zero : Option Object → Object
or_zero none = integer (pos 0)
or_zero (some o) = o

-- `dict.pop`, on the dict that is left
abbrev pub remove : ℕ → Dict Object → Dict Object
remove key [] = []
remove key ((own, held) ∷ rest) =
    let deeper = remove key rest in if own == key then rest else (own, held) ∷ deeper

-- `drawn` counts the draws from the global generator, which every machine shares.
pub record Machine : Type 0 where
  pub state : Dict Object
  pub applied : ℕ
  pub results : List Object
  pub drawn : ℕ

abbrev pub fresh : ℕ → Machine
fresh drawn = record { state = []; applied = 0; results = []; drawn = drawn }

abbrev pub get : Machine → ℕ → Object
get m key = or_nothing (lookup key m.state)

-- A branch of `apply` has given `out` and left the dict `state`.
abbrev pub finish : Machine → Dict Object → Object → Object × Machine
finish m state out =
    (out, record m { state = state; applied = m.applied + 1; results = m.results ++ out ∷ [] })

module _ (python : Python) where
  -- `int(...)` of an object that is not false; a float below one is cut to zero
  abbrev pub int_of : Object → Result ℤ
  int_of nothing = err value_error
  int_of (integer i) = ok i
  int_of (flag b) = ok (of_flag b)
  int_of (float k) = ok (pos (k / 2 ^ 53))
  int_of (text t) = elim (python.int_of_text t) [ none ↦ err value_error | some i ↦ ok i ]

  -- `int(command.value or 1)`
  abbrev pub step_of : Object → Result ℤ
  step_of o = if truth o then int_of o else ok (pos 1)

  abbrev pub increase : Machine → Command → Option ℤ → Result (Object × Machine)
  increase m c none = err refused
  increase m c (some current) = do
    step ← step_of c.value
    ok (finish m (insert c.key (integer (current +ℤ step)) m.state) (integer (current +ℤ step)))

  -- the branches of `apply`, by the name of the command
  abbrev pub perform : Machine → Command → Name → Result (Object × Machine)
  perform m c set = ok (finish m (insert c.key c.value m.state) c.value)
  perform m c delete = ok (finish m (remove c.key m.state) (get m c.key))
  perform m c increment = increase m c (as_int (or_zero (lookup c.key m.state)))
  perform m c compare_and_set = ok (
      if same (get m c.key) c.expected
      then finish m (insert c.key c.value m.state) (flag true)
      else finish m m.state (flag false))
  perform m c now =
      let drawn : Object = float (python.chance m.drawn) in
      ok (finish (record m { drawn = m.drawn + 1 }) (insert c.key drawn m.state) drawn)

  unfoldable pub apply : Machine → Command → Result (Object × Machine)
  apply m c = perform m c c.name

  -- the loop of `replay`, on a machine
  unfoldable pub apply_all : Machine → List Command → Result Machine
  apply_all m [] = ok m
  apply_all m (one ∷ rest) = do (out, m') ← apply m one; apply_all m' rest

  unfoldable pub replay : ℕ → List Command → Result Machine
  replay drawn commands = apply_all (fresh drawn) commands
