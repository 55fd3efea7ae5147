-- ===== src/Linearize/Alike.antt =====
-- rsm/verify/linearize.py: an order is as good from one state as from another that answers alike.
use replicated_state_machine.Prelude.{
  ℕ, ◌≡◌, refl, sym, subst, ◌∙◌, ap, true, false, ℤ, ◌+ℤ◌, Option, none, some, List, [], ◌∷◌, Dict,
  lookup, insert, lookup-insert, ◌==◌, if◌then◌else◌, Bool-cases, inl, inr,
}
use replicated_state_machine.Errors.{Result, ok, >>=-inv, ok-injective}
use replicated_state_machine.Machine.{
  Name, set, delete, increment, compare_and_set, now, Command, Object, Machine, Python, integer,
  flag, float, remove, apply, perform, increase, step_of, as_int, or_zero, or_nothing, get, same,
  finish,
}
use replicated_state_machine.History.{Operation}
use replicated_state_machine.Linearize.{copy_of}
use replicated_state_machine.Linearize.Orders.{Explained, all_explained, then_explained}
use replicated_state_machine.Linearize.Digests.{
  Keyed, SameState, insert-Keyed, remove-Keyed, lookup-remove,
}

-- Two states that answer alike, each of which holds a key once.
pub record Alike (s t : Dict Object) : Type 0 where
  pub left : Keyed s
  pub right : Keyed t
  pub answers : SameState s t

insert-Alike :
    (k : ℕ) (v : Object) (s t : Dict Object) → Alike s t → Alike (insert k v s) (insert k v t)
insert-Alike k v s t a = record {
  left = insert-Keyed k v s a.left;
  right = insert-Keyed k v t a.right;
  answers = λ j.
      lookup-insert k j v s
      ∙ ap (λ (o : Option Object). if k == j then some v else o) (a.answers j)
      ∙ sym (lookup-insert k j v t);
}

remove-Alike : (k : ℕ) (s t : Dict Object) → Alike s t → Alike (remove k s) (remove k t)
remove-Alike k s t a = record {
  left = remove-Keyed k s a.left;
  right = remove-Keyed k t a.right;
  answers = λ j.
      lookup-remove k j s a.left
      ∙ ap (λ (o : Option Object). if k == j then none else o) (a.answers j)
      ∙ sym (lookup-remove k j t a.right);
}

-- A command has answered `out` and left a state that answers as `t` does.
abbrev Likewise : Result (Object × Machine) → Object → Dict Object → Type 0
Likewise r out s = (m : Machine) × (r ≡ ok (out, m)) × Alike s m.state

-- A branch that gives one answer on both sides and leaves states that answer alike.
finish-Alike :
    (a b : Machine) (s t : Dict Object) (given out : Object) (m : Machine)
    → Alike s t
    → finish a s given ≡ (out, m)
    → Likewise (ok (finish b t given)) out m.state
finish-Alike a b s t given out m alike e = (
  (finish b t given).1,
  ap (λ (o : Object). ok (o, (finish b t given).1)) (ap (λ (p : Object × Machine). p.0) e),
  subst (λ (d : Dict Object). Alike d t) (ap (λ (p : Object × Machine). p.1.state) e) alike,
)

module _ (python : Python) (s t : Dict Object) (a : Alike s t) (c : Command) where
  increase-Alike :
      (current : Option ℤ) (out : Object) (m : Machine)
      → increase python (copy_of s 0) c current ≡ ok (out, m)
      → Likewise (increase python (copy_of t 0) c current) out m.state
  increase-Alike none out m h = cc
  increase-Alike (some i) out m h =
      let (step, q, e) = >>=-inv (step_of python c.value) _ h in
      rw q (
        finish-Alike (copy_of s 0) (copy_of t 0) _ _ (integer (i +ℤ step)) out m
          (insert-Alike c.key (integer (i +ℤ step)) s t a) (ok-injective e))

  get-Alike : get (copy_of s 0) c.key ≡ get (copy_of t 0) c.key
  get-Alike = ap or_nothing (a.answers c.key)

  perform-Alike :
      (name : Name) (out : Object) (m : Machine)
      → perform python (copy_of s 0) c name ≡ ok (out, m)
      → Likewise (perform python (copy_of t 0) c name) out m.state
  perform-Alike set out m h =
      finish-Alike (copy_of s 0) (copy_of t 0) _ _ c.value out m (insert-Alike c.key c.value s t a)
        (ok-injective h)
  perform-Alike delete out m h = rw (← get-Alike) (
      finish-Alike (copy_of s 0) (copy_of t 0) _ _ (get (copy_of s 0) c.key) out m
        (remove-Alike c.key s t a) (ok-injective h))
  perform-Alike increment out m h =
      rw (← a.answers c.key) (increase-Alike (as_int (or_zero (lookup c.key s))) out m h)
  perform-Alike compare_and_set out m h =
      elim (Bool-cases (same (get (copy_of s 0) c.key) c.expected)) [
        | inl e ↦
            rw (← get-Alike, e)
              (finish-Alike (copy_of s 0) (copy_of t 0) _ _ (flag true) out m
                (insert-Alike c.key c.value s t a) (ok-injective (rw e at h)))
        | inr e ↦
            rw (← get-Alike, e)
              (finish-Alike (copy_of s 0) (copy_of t 0) _ _ (flag false) out m a
                (ok-injective (rw e at h)))
      ]
  perform-Alike now out m h =
      let drawn : Object = float (python.chance 0) in
      finish-Alike (record (copy_of s 0) { drawn = 1 }) (record (copy_of t 0) { drawn = 1 }) _ _
        drawn out m (insert-Alike c.key drawn s t a) (ok-injective h)

pub Explained-Alike :
    (python : Python) (s t : Dict Object) (order : List Operation)
    → Alike s t
    → Explained python s order
    → Explained python t order
unfolding apply
Explained-Alike python s t [] a e = all_explained
Explained-Alike python s t (one ∷ order) a (then_explained _ out m ran fits e) =
    let (m', ran', b) = perform-Alike python s t a one.command one.command.name out m ran in
    then_explained one out m' ran' fits (Explained-Alike python m.state m'.state order b e)

-- A command leaves a state that holds each key once.
pub apply-Keyed :
    (python : Python) (state : Dict Object) (c : Command) {out : Object} {m : Machine}
    → Keyed state
    → apply python (copy_of state 0) c ≡ ok (out, m)
    → Keyed m.state
unfolding apply
apply-Keyed python state c {out} {m} k h =
    let itself : Alike state state = record { left = k; right = k; answers = λ j. refl } in
    (perform-Alike python state state itself c c.name out m h).2.left
