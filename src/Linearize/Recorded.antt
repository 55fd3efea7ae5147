-- ===== src/Linearize/Recorded.antt =====
-- rsm/verify/history.py: what holds of every history that calls and answers make, and what the checker
-- takes of it.
use mathlib.Core.List.{Pairwise}
use replicated_state_machine.Prelude.{
  ℕ, ◌+◌, ◌<◌, ◌≤◌, ◌≡◌, refl, subst, ap, not, Option, none, some, List, [], ◌∷◌, ◌++◌, All,
  All-append, ◌≢◌, ◌==◌, if◌then◌else◌, Bool-cases, inl, inr, arith,
}
use replicated_state_machine.Errors.{ok, err, ok-injective, config_error}
use replicated_state_machine.Machine.{Command, Object}
use replicated_state_machine.History.{
  Operation, History, no_history, call, complete, answered, returned_before, new_operation,
  has_operation,
}
use replicated_state_machine.Linearize.{minimal, put_operation}
use replicated_state_machine.Linearize.Orders.{Distinct, Mem-All}

-- The histories that the methods `call` and `complete` make. Python gives a new object an identity that
-- no object has which is still there.
pub data Recorded : History → Type 0 where
  nothing_asked : Recorded no_history
  asked :
      (h : History) (place client : ℕ) (command : Command)
      → All (λ (one : Operation). one.ident ≢ place) h.operations
      → Recorded h
      → Recorded (call h place client command).0
  heard :
      {h h' : History} (one : Operation) (result : Object) {one' : Operation}
      → complete h one result ≡ ok (h', one')
      → Recorded h
      → Recorded h'

-- An answer came after the call, and not after now.
abbrev pub Heard : ℕ → ℕ → Option ℕ → Type 0
Heard asked_at clock none = Unit
Heard asked_at clock (some at) = (asked_at < at) × (at ≤ clock)

-- The operations were called one after the other, after `low`.
abbrev pub Windows : ℕ → ℕ → List Operation → Type 0
Windows low clock [] = Unit
Windows low clock (one ∷ rest) =
    (low < one.called_at)
    × (one.called_at ≤ clock)
    × Heard one.called_at clock one.returned_at
    × Windows one.called_at clock rest

Heard-later : (a clock : ℕ) (o : Option ℕ) → Heard a clock o → Heard a (clock + 1) o
Heard-later a clock none h = tt
Heard-later a clock (some at) h = omega arith

Windows-call :
    (low clock : ℕ) (ops : List Operation) (one : Operation)
    → low ≤ clock
    → Windows low clock ops
    → one.called_at ≡ clock + 1
    → one.returned_at ≡ none
    → Windows low (clock + 1) (ops ++ one ∷ [])
Windows-call low clock [] one b w c r = (omega arith, omega arith, rw r tt, tt)
Windows-call low clock (two ∷ ops) one b (l, u, heard_two, w) c r = (
  l,
  omega arith,
  Heard-later two.called_at clock two.returned_at heard_two,
  Windows-call two.called_at clock ops one u w c r,
)

Windows-answered :
    (low clock ident : ℕ) (result : Object) (ops : List Operation)
    → Windows low clock ops
    → Windows low (clock + 1) (answered ident (clock + 1) result ops)
Windows-answered low clock ident result [] w = tt
Windows-answered low clock ident result (two ∷ ops) (l, u, heard_two, w) =
    let deeper = Windows-answered two.called_at clock ident result ops w in
    elim (Bool-cases (two.ident == ident)) [
      | inl e ↦ rw e (l, omega arith, omega arith, deeper)
      | inr e ↦
          rw e (l, omega arith, Heard-later two.called_at clock two.returned_at heard_two, deeper)
    ]

Recorded-Windows : (h : History) → Recorded h → Windows 0 h.clock h.operations
unfolding call complete
Recorded-Windows _ nothing_asked = tt
Recorded-Windows _ (asked h place client command fresh r) =
    Windows-call 0 h.clock h.operations _ (omega arith) (Recorded-Windows h r) refl refl
Recorded-Windows h' (heard {h} one result e r) =
    elim (Bool-cases (not (has_operation one h.operations))) [
      | inl missing ↦ cc (rw missing at e)
      | inr there ↦
          subst (λ (g : History). Windows 0 g.clock g.operations)
            (ap (λ (p : History × Operation). p.0) (ok-injective (rw there at e)))
            (Windows-answered 0 h.clock one.ident result h.operations (Recorded-Windows h r))
    ]

-- Different objects, each compared with those after it.
abbrev Apart : List Operation → Type 0
Apart [] = Unit
Apart (one ∷ rest) = All (λ (two : Operation). one.ident ≢ two.ident) rest × Apart rest

Apart-call :
    (ops : List Operation) (one : Operation)
    → Apart ops
    → All (λ (two : Operation). two.ident ≢ one.ident) ops
    → Apart (ops ++ one ∷ [])
Apart-call [] one a fresh = (tt, tt)
Apart-call (two ∷ ops) one a fresh =
    (All-append _ ops (one ∷ []) a.0 (fresh.0, tt), Apart-call ops one a.1 fresh.1)

All-answered :
    (k ident time : ℕ) (result : Object) (ops : List Operation)
    → All (λ (two : Operation). k ≢ two.ident) ops
    → All (λ (two : Operation). k ≢ two.ident) (answered ident time result ops)
All-answered k ident time result [] a = tt
All-answered k ident time result (two ∷ ops) a =
    let deeper = All-answered k ident time result ops a.1 in
    elim (Bool-cases (two.ident == ident)) [
      | inl e ↦ rw e (a.0, deeper)
      | inr e ↦ rw e (a.0, deeper)
    ]

Apart-answered :
    (ident time : ℕ) (result : Object) (ops : List Operation)
    → Apart ops
    → Apart (answered ident time result ops)
Apart-answered ident time result [] a = tt
Apart-answered ident time result (two ∷ ops) a =
    let deeper = Apart-answered ident time result ops a.1 in
    let apart = All-answered two.ident ident time result ops a.0 in
    elim (Bool-cases (two.ident == ident)) [
      | inl e ↦ rw e (apart, deeper)
      | inr e ↦ rw e (apart, deeper)
    ]

Recorded-Apart : (h : History) → Recorded h → Apart h.operations
unfolding call complete
Recorded-Apart _ nothing_asked = tt
Recorded-Apart _ (asked h place client command fresh r) =
    Apart-call h.operations _ (Recorded-Apart h r) fresh
Recorded-Apart h' (heard {h} one result e r) =
    elim (Bool-cases (not (has_operation one h.operations))) [
      | inl missing ↦ cc (rw missing at e)
      | inr there ↦
          subst (λ (g : History). Apart g.operations)
            (ap (λ (p : History × Operation). p.0) (ok-injective (rw there at e)))
            (Apart-answered one.ident (h.clock + 1) result h.operations (Recorded-Apart h r))
    ]

Apart-Distinct : (ops : List Operation) → Apart ops → Distinct ops
Apart-Distinct [] a = Pairwise.nil
Apart-Distinct (one ∷ ops) a =
    Pairwise.cons (λ two m. Mem-All (λ _. hlevel) ops a.0 m) (Apart-Distinct ops a.1)

Windows-minimal : (low clock : ℕ) (ops : List Operation) → Windows low clock ops → minimal ops ≡ ops
unfolding minimal
Windows-minimal low clock [] w = refl
Windows-minimal low clock (one ∷ ops) (l, u, heard_one, w) =
    rw (Windows-minimal one.called_at clock ops w) (first ops w)
  where
    first :
        (ops : List Operation) → Windows one.called_at clock ops → put_operation one ops ≡ one ∷ ops
    first [] w = refl
    first (two ∷ ops) w = ground (arith, w.0)

Windows-new :
    (low clock : ℕ) (ops : List Operation)
    → Windows low clock ops
    → All (λ one. new_operation one ≡ ok one) ops
unfolding new_operation
Windows-new low clock [] w = tt
Windows-new low clock (one ∷ ops) (l, u, heard_one, w) =
    (in_order one.returned_at heard_one, Windows-new one.called_at clock ops w)
  where
    in_order :
        (at : Option ℕ)
        → Heard one.called_at clock at
        → (if returned_before at one.called_at then err config_error else ok one) ≡ ok one
    in_order none k = refl
    in_order (some at) k = ground arith

-- In a history that calls and answers made, the operations are different objects, each has passed the
-- test of its constructor, and the order in which the checker walks them is the order of the calls.
pub Recorded-Distinct :
    (h : History)
    → Recorded h
    → Distinct h.operations
      × All (λ one. new_operation one ≡ ok one) h.operations
      × (minimal h.operations ≡ h.operations)
Recorded-Distinct h r =
    let w = Recorded-Windows h r in
    (
      Apart-Distinct h.operations (Recorded-Apart h r),
      Windows-new 0 h.clock h.operations w,
      Windows-minimal 0 h.clock h.operations w,
    )
