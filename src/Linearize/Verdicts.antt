-- ===== src/Linearize/Verdicts.antt =====
-- rsm/verify/linearize.py: the three verdicts of `check`.
use mathlib.Core.List.{Perm}
use mathlib.Core.List.Perm
use replicated_state_machine.Prelude.{
  ℕ, suc, ◌<◌, ◌≡◌, refl, sym, ◌∙◌, ap, Bool, true, false, List, [], ◌∷◌, length, ltb, Bool-cases,
  inl, inr, arith,
}
use replicated_state_machine.Errors.{ok, ok-injective}
use replicated_state_machine.Machine.{Object, Python, deterministic}
use replicated_state_machine.History.{Operation, History}
use replicated_state_machine.Linearize.{
  linearizable, not_linearizable, Verdict, Search, check, decided, walk, exhausted, answer_of,
  verdict_of, new_search, minimal, put_operation, goes_first,
}
use replicated_state_machine.Linearize.Orders.{Orders, Distinct}
use replicated_state_machine.Linearize.Sound.{Determined, walk-IsSound}
use replicated_state_machine.Linearize.Cost.{visits, walk-Grows}
use replicated_state_machine.Linearize.Complete.{left}
use replicated_state_machine.Linearize.Rejects.{walk-IsComplete}

put_operation-Perm :
    (one : Operation) (xs : List Operation) → Perm (put_operation one xs) (one ∷ xs)
put_operation-Perm one [] = Perm.rfl
put_operation-Perm one (two ∷ rest) = elim (Bool-cases (goes_first one two)) [
  | inl e ↦ rw e Perm.rfl
  | inr e ↦ rw e (Perm.trans (Perm.cons two (put_operation-Perm one rest)) (Perm.swap one two rest))
]

minimal-Perm : (xs : List Operation) → Perm (minimal xs) xs
unfolding minimal
minimal-Perm [] = Perm.rfl
minimal-Perm (one ∷ rest) =
    Perm.trans (put_operation-Perm one (minimal rest)) (Perm.cons one (minimal-Perm rest))

minimal-Distinct : (xs : List Operation) → Distinct xs → Distinct (minimal xs)
minimal-Distinct xs =
    Perm.pairwise (λ a b. hlevel) (λ a b n e. n (sym e)) (Perm.symm (minimal-Perm xs))

put_operation-Determined :
    (one : Operation) (xs : List Operation)
    → deterministic one.command ≡ true
    → Determined xs
    → Determined (put_operation one xs)
put_operation-Determined one [] d t = (d, tt)
put_operation-Determined one (two ∷ rest) d t = elim (Bool-cases (goes_first one two)) [
  | inl e ↦ rw e (d, t)
  | inr e ↦ rw e (t.0, put_operation-Determined one rest d t.1)
]

minimal-Determined : (xs : List Operation) → Determined xs → Determined (minimal xs)
unfolding minimal
minimal-Determined [] t = tt
minimal-Determined (one ∷ rest) t = put_operation-Determined one _ t.0 (minimal-Determined rest t.1)

length-put_operation :
    (one : Operation) (xs : List Operation) → length (put_operation one xs) ≡ suc (length xs)
length-put_operation one [] = refl
length-put_operation one (two ∷ rest) = ground (arith, length-put_operation one rest)

length-minimal : (xs : List Operation) → length (minimal xs) ≡ length xs
unfolding minimal
length-minimal [] = refl
length-minimal (one ∷ rest) =
    length-put_operation one (minimal rest) ∙ omega (arith, length-minimal rest)

left_all : (xs : List Operation) → xs ≡ left [] xs
left_all [] = refl
left_all (one ∷ rest) = ap (◌∷◌ one) (left_all rest)

-- The answer of a search that has found an order, and of one that has not.
answer_of-found : (s : Search) (found : Bool) → answer_of s found ≡ linearizable → found ≡ true
answer_of-found s true h = refl
answer_of-found s false h = ground arith

answer_of-rejected :
    (s : Search) (found : Bool)
    → answer_of s found ≡ not_linearizable
    → (found ≡ false) × (exhausted s ≡ false)
answer_of-rejected s true h = cc
answer_of-rejected s false h = ground arith

verdict_of-answer :
    (count : ℕ) (r : Search × Bool) → (verdict_of count r).answer ≡ answer_of r.0 r.1
verdict_of-answer count (s, found) = refl

module _ (python : Python) (repr : Object → ℕ) (h : History) (budget drawn : ℕ) where
  -- the search of `check`
  abbrev searched : Search × Bool
  searched =
      walk python repr (length (minimal h.operations)) [] (minimal h.operations) []
        (new_search budget drawn)

  -- A check that has returned has answered by its search.
  check-answer :
      (v : Verdict)
      → check python repr h budget drawn ≡ ok v
      → v.answer ≡ answer_of searched.0 searched.1
  unfolding check
  check-answer v e = elim (Bool-cases (ltb budget 1)) [
    | inl low ↦ cc (rw low at e)
    | inr high ↦
        sym (ap (λ (w : Verdict). w.answer) (ok-injective (rw high at e)))
        ∙ verdict_of-answer (length (minimal h.operations)) searched
  ]

  module _ (distinct : Distinct h.operations) (determined : Determined h.operations) where
    -- A history of deterministic commands that `check` calls linearizable has an order of all its
    -- operations in which none stands after one that was called when it had returned, and in which one
    -- machine gives each client the answer it heard.
    pub linearizable-Orders :
        (v : Verdict)
        → check python repr h budget drawn ≡ ok v
        → v.answer ≡ linearizable
        → (order : List Operation) × Orders python [] h.operations order
    linearizable-Orders v e a =
        let (order, o) =
          walk-IsSound python repr (length (minimal h.operations)) [] (minimal h.operations) []
            (new_search budget drawn) (minimal-Distinct h.operations distinct)
            (minimal-Determined h.operations determined)
            (answer_of-found searched.0 searched.1 (sym (check-answer v e) ∙ a)) in
        (
          order,
          record {
            same_operations = Perm.trans o.same_operations (minimal-Perm h.operations);
            real_time = o.real_time;
            explained = o.explained;
          },
        )

    -- A history of deterministic commands that `check` calls not linearizable has no such order, if
    -- `repr` tells all objects apart.
    pub not_linearizable-Orders :
        ((a b : Object) → repr a ≡ repr b → a ≡ b)
        → (v : Verdict) → check python repr h budget drawn ≡ ok v
        → v.answer ≡ not_linearizable
        → (order : List Operation) → ¬ Orders python [] h.operations order
    not_linearizable-Orders once v e a order o =
        let (failed, busy) =
          answer_of-rejected searched.0 searched.1 (sym (check-answer v e) ∙ a) in
        let refuted =
          walk-IsComplete python repr (minimal h.operations) once (length (minimal h.operations))
            (λ _. ⊥) [] (minimal h.operations) [] (new_search budget drawn)
            (left_all (minimal h.operations)) (minimal-Distinct h.operations distinct)
            (minimal-Determined h.operations determined) tt (λ q k. absurd k) tt (omega arith)
            failed busy in
        refuted.none_left order (record {
          same_operations = Perm.trans o.same_operations (Perm.symm (minimal-Perm h.operations));
          real_time = o.real_time;
          explained = o.explained;
        })

  -- With a budget above the number of calls that n operations can lead to, `check` returns a verdict
  -- and does not give up.
  pub check_decides :
      visits (length h.operations) < budget
      → (v : Verdict) × (check python repr h budget drawn ≡ ok v) × (decided v.answer ≡ true)
  unfolding check decided
  check_decides much =
      let grows =
        walk-Grows python repr (length (minimal h.operations)) [] (minimal h.operations) []
          (new_search budget drawn) (omega arith) in
      let same = ap visits (length-minimal h.operations) in
      let idle : exhausted searched.0 ≡ false = ground (arith, grows.most, grows.budget, same) in
      (
        verdict_of (length (minimal h.operations)) searched,
        ground arith,
        rw (verdict_of-answer (length (minimal h.operations)) searched)
            (decided_of searched.0 searched.1 idle),
      )
    where
      decided_of :
          (s : Search) (found : Bool) → exhausted s ≡ false → decided (answer_of s found) ≡ true
      decided_of s true i = refl
      decided_of s false i = rw i refl
