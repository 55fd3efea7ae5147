-- ===== src/Linearize/Orders.antt =====
-- rsm/verify/linearize.py: what it means that a history is linearizable, and the orders of what remains.
use mathlib.Core.Bool.{Bool-set}
use mathlib.Core.Logic.{∥∥₁_elim}
use mathlib.Core.List.{
  Perm, Mem, Pairwise, eq-or-mem_of_mem-cons, not-mem-nil, perm-cons, mem-cons_self,
  mem-cons_of_mem, Pairwise-cons,
}
use mathlib.Core.List.Perm
use replicated_state_machine.Prelude.{
  ℕ, ◌<◌, ◌≤◌, ◌≡◌, ◌≢◌, refl, sym, subst, true, false, List, [], ◌∷◌, Dict, In, All, All-In,
  length, ◌==◌, Bool-cases, inl, inr, arith, ==_refl, ==_ne,
}
use replicated_state_machine.Errors.{ok}
use replicated_state_machine.Machine.{Object, Machine, Python, apply}
use replicated_state_machine.History.{Operation, returned_before}
use replicated_state_machine.Linearize.{allowed, without, copy_of, wrong_answer}

-- An operation may stand before another only if the other had not returned when it was called.
abbrev pub InRealTime : List Operation → Type 0
InRealTime = Pairwise (λ one later. returned_before later.returned_at one.called_at ≡ false)

-- One machine that runs the operations in this order gives each client the answer it heard.
pub data Explained (python : Python) : Dict Object → List Operation → Type 0 where
  all_explained : {state : Dict Object} → Explained python state []
  then_explained :
      {state : Dict Object} (one : Operation) {rest : List Operation} (out : Object) (m : Machine)
      → apply python (copy_of state 0) one.command ≡ ok (out, m)
      → wrong_answer one out ≡ false
      → Explained python m.state rest
      → Explained python state (one ∷ rest)

-- The operations `remaining`, put in the order `order`, take place one after the other on a machine
-- with this state.
pub record Orders (python : Python) (state : Dict Object) (remaining : List Operation)
    (order : List Operation) : Type 0 where
  pub same_operations : Perm order remaining
  pub real_time : InRealTime order
  pub explained : Explained python state order

-- Distinct objects.
abbrev pub Distinct : List Operation → Type 0
Distinct = Pairwise (λ one two. one.ident ≢ two.ident)

-- What holds of each element by `All` holds of each element by `Mem`, if it is a proposition.
pub Mem-All :
    {A : Type 0} {P : A → Type 0} (p : (a : A) → IsProp (P a)) (xs : List A) {x : A}
    → All P xs
    → Mem x xs
    → P x
Mem-All p [] h m = absurd (not-mem-nil m)
Mem-All {P} p (y ∷ ys) h m =
    ∥∥₁_elim (eq-or-mem_of_mem-cons m) (p _)
      (λ c. elim c [ inl e ↦ subst P (sym e) h.0 | inr k ↦ Mem-All p ys h.1 k ])

pub All-Mem : {A : Type 0} {P : A → Type 0} (xs : List A) → ((x : A) → Mem x xs → P x) → All P xs
All-Mem [] h = tt
All-Mem (y ∷ ys) h = (h y mem-cons_self, All-Mem ys (λ x m. h x (mem-cons_of_mem y m)))

differ : (one two : Operation) → one.ident ≢ two.ident → (two.ident == one.ident) ≡ false
differ one two n = ground arith

-- An operation that is not there is not taken away.
without-absent :
    (ident : ℕ) (xs : List Operation) → All (λ y. ident ≢ y.ident) xs → without ident xs ≡ xs
without-absent ident [] h = refl
without-absent ident (y ∷ ys) h = ground (arith, without-absent ident ys h.1, h.0)

-- Taking an operation away and putting it first is a new order of the same operations.
pub Perm-without :
    (one : Operation) (xs : List Operation)
    → Distinct xs
    → In one xs
    → Perm (one ∷ without one.ident xs) xs
Perm-without one [] d i = elim i [ ]
Perm-without one (y ∷ ys) (Pairwise.cons n d) (inl e) =
    subst (λ z. Perm (z ∷ without z.ident (y ∷ ys)) (y ∷ ys)) (sym e)
      (rw (==_refl y.ident, without-absent y.ident ys (All-Mem ys n)) Perm.rfl)
Perm-without one (y ∷ ys) (Pairwise.cons n d) (inr i) =
    let apart : (y.ident == one.ident) ≡ false =
      ==_ne y.ident one.ident (All-In (λ z. y.ident ≢ z.ident) ys (All-Mem ys n) i) in
    rw apart
      (Perm.trans (Perm.swap y one (without one.ident ys)) (Perm.cons y (Perm-without one ys d i)))

-- The rest is free of the operation, and distinct.
pub Distinct-without :
    (one : Operation) (xs : List Operation)
    → Distinct xs
    → In one xs
    → Distinct (without one.ident xs)
Distinct-without one xs d i =
    let turned =
      Perm.pairwise (λ a b. hlevel) (λ a b n e. n (sym e)) (Perm.symm (Perm-without one xs d i))
        d in
    (Pairwise-cons.0 turned).1

pub length-without : (ident : ℕ) (xs : List Operation) → length (without ident xs) ≤ length xs
length-without ident [] = omega arith
length-without ident (y ∷ ys) = ground (arith, length-without ident ys)

pub length-without-In :
    (one : Operation) (xs : List Operation) → In one xs → length (without one.ident xs) < length xs
length-without-In one [] i = elim i [ ]
length-without-In one (y ∷ ys) (inl e) =
    subst (λ z. length (without z.ident (y ∷ ys)) < length (y ∷ ys)) (sym e)
      (rw (==_refl y.ident) (omega (arith, length-without y.ident ys)))
length-without-In one (y ∷ ys) (inr i) =
    ground (arith, length-without-In one ys i, length-without one.ident ys)

-- What `allowed` finds: nothing that remains had returned when the operation was called.
allowed-later :
    (one : Operation) (xs : List Operation)
    → allowed one xs ≡ true
    → All (λ later. returned_before later.returned_at one.called_at ≡ false) (without one.ident xs)
allowed-later one [] h = tt
allowed-later one (y ∷ ys) h = elim (Bool-cases (y.ident == one.ident)) [
  | inl e ↦ rw e (allowed-later one ys (ground arith))
  | inr e ↦ rw e (ground arith, allowed-later one ys (ground arith))
]

-- And the other way round.
later-allowed :
    (one : Operation) (xs : List Operation)
    → All (λ later. returned_before later.returned_at one.called_at ≡ false) (without one.ident xs)
    → allowed one xs ≡ true
later-allowed one [] h = refl
later-allowed one (y ∷ ys) h = elim (Bool-cases (y.ident == one.ident)) [
  | inl e ↦ rw e (later-allowed one ys (rw e at h))
  | inr e ↦ let k = rw e at h in rw (e, k.0) (later-allowed one ys k.1)
]

module _ {python : Python} (one : Operation) {state : Dict Object} {remaining : List Operation}
    (distinct : Distinct remaining) (there : In one remaining) where
  -- An order of the rest, after an operation that may come first.
  pub Orders-cons :
      (out : Object) (m : Machine) {order : List Operation}
      → allowed one remaining ≡ true
      → apply python (copy_of state 0) one.command ≡ ok (out, m)
      → wrong_answer one out ≡ false
      → Orders python m.state (without one.ident remaining) order
      → Orders python state remaining (one ∷ order)
  Orders-cons out m free ran fits o = record {
    same_operations =
        Perm.trans (Perm.cons one o.same_operations) (Perm-without one _ distinct there);
    real_time =
        Pairwise.cons
          (λ later i.
            Mem-All (λ _. Bool-set _ _) _ (allowed-later one remaining free)
              ((Perm.mem_iff o.same_operations).0 i))
          o.real_time;
    explained = then_explained one out m ran fits o.explained;
  }

  -- The first of an order may come first, and the others are an order of the rest.
  pub Orders-uncons :
      {order : List Operation}
      → Orders python state remaining (one ∷ order)
      → (allowed one remaining ≡ true)
        × ((out : Object) × (m : Machine) × (apply python (copy_of state 0) one.command
              ≡ ok (out, m))
            × (wrong_answer one out ≡ false)
            × Orders python m.state (without one.ident remaining) order)
  Orders-uncons {order} o =
      let same : Perm order (without one.ident remaining) =
        (perm-cons one).0
          (Perm.trans o.same_operations (Perm.symm (Perm-without one _ distinct there))) in
      let first = Pairwise-cons.0 o.real_time in
      let free =
        later-allowed one remaining
          (All-Mem _ (λ later i. first.0 later ((Perm.mem_iff same).1 i))) in
      (free, explained_rest o.explained same first.1)
    where
      explained_rest :
          {order : List Operation}
          → Explained python state (one ∷ order)
          → Perm order (without one.ident remaining)
          → InRealTime order
          → ((out : Object) × (m : Machine) × (apply python (copy_of state 0) one.command
                ≡ ok (out, m))
              × (wrong_answer one out ≡ false)
              × Orders python m.state (without one.ident remaining) order)
      explained_rest (then_explained _ out m ran fits rest) same time =
          (out, m, ran, fits, record { same_operations = same; real_time = time; explained = rest })
