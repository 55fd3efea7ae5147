-- ===== src/Linearize/Raising.antt =====
-- rsm/verify/linearize.py: an operation that cannot run is not left out, even if nobody heard its answer.
use mathlib.Core.List.{Mem, eq-or-mem_of_mem-cons, not-mem-nil}
use mathlib.Core.Logic.{∥∥₁_elim}
use mathlib.Core.List.Perm
use replicated_state_machine.Prelude.{
  ℕ, ◌<◌, ◌≡◌, refl, sym, ◌∙◌, ap, true, List, [], ◌∷◌, Dict, lookup, Option-cases, ◌≢◌, length,
  inl, inr,
}
use replicated_state_machine.Errors.{ok, err, Error}
use replicated_state_machine.Machine.{
  Object, Machine, Command, increment, Python, apply, perform, increase, step_of, as_int, or_zero,
}
use replicated_state_machine.History.{Operation, History}
use replicated_state_machine.Linearize.{
  Answer, linearizable, not_linearizable, unknown, Verdict, check, decided, copy_of,
}
use replicated_state_machine.Linearize.Orders.{Distinct, Explained, then_explained}
use replicated_state_machine.Linearize.Sound.{Determined}
use replicated_state_machine.Linearize.Cost.{visits}
use replicated_state_machine.Linearize.Verdicts.{linearizable-Orders, check_decides}

-- An increment whose amount `int` refuses raises from every state.
increment_raises :
    (python : Python) (state : Dict Object) (c : Command) {e : Error} {out : Object} {m : Machine}
    → c.name ≡ increment
    → step_of python c.value ≡ err e
    → apply python (copy_of state 0) c ≢ ok (out, m)
unfolding apply
increment_raises python state c n s h =
    elim (Option-cases (as_int (or_zero (lookup c.key state)))) [
      | inl a ↦ cc (rw (n, perform, a) at h)
      | inr (i, a) ↦ cc (rw (n, perform, a, increase, s) at h)
    ]

Explained-raises :
    (python : Python) (one : Operation) {e : Error} (state : Dict Object) (order : List Operation)
    → one.command.name ≡ increment
    → step_of python one.command.value ≡ err e
    → Explained python state order
    → ¬ Mem one order
Explained-raises python one state [] n s x i = not-mem-nil i
Explained-raises python one state (two ∷ order) n s (then_explained _ out m ran fits x) i =
    ∥∥₁_elim (eq-or-mem_of_mem-cons i) (hlevel) (λ c. elim c [
      | inl e ↦
          increment_raises python state two.command
            (ap (λ (o : Operation). o.command.name) (sym e) ∙ n)
            (ap (λ (o : Operation). step_of python o.command.value) (sym e) ∙ s) ran
      | inr k ↦ Explained-raises python one m.state order n s x k
    ])

-- With an increment in it whose amount `int` refuses, answered or not, a history of deterministic
-- commands, all different operations, is called not linearizable when the budget is large enough.
pub raising-not_linearizable :
    (python : Python) (repr : Object → ℕ) (h : History) (budget drawn : ℕ)
    → Distinct h.operations
    → Determined h.operations
    → (one : Operation) → {e : Error} → Mem one h.operations
    → one.command.name ≡ increment
    → step_of python one.command.value ≡ err e
    → visits (length h.operations) < budget
    → (v : Verdict) × (check python repr h budget drawn ≡ ok v) × (v.answer ≡ not_linearizable)
unfolding decided
raising-not_linearizable python repr h budget drawn distinct determined one i n s much =
    let (v, returned, sure) = check_decides python repr h budget drawn much in
    (
      v,
      returned,
      the_other v.answer sure (λ a.
          let (order, o) =
            linearizable-Orders python repr h budget drawn distinct determined v returned a in
          Explained-raises python one [] order n s o.explained
            ((Perm.mem_iff o.same_operations).1 i)),
    )
  where
    the_other : (a : Answer) → decided a ≡ true → ¬ (a ≡ linearizable) → a ≡ not_linearizable
    the_other linearizable d no_way = absurd (no_way refl)
    the_other not_linearizable d no_way = refl
    the_other unknown d no_way = cc
