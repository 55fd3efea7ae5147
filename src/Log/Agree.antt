-- ===== src/Log/Agree.antt =====
-- rsm/log.py: `agree_up_to`, which finds how far two logs agree.
use replicated_state_machine.Prelude.{
  ℕ, zero, suc, ◌≤◌, ◌≡◌, refl, sym, ◌∙◌, min, true, not, ◌||◌, ◌==◌, if◌then◌else◌, arith, ==_refl,
  ==→eq, ap, subst, Bool-cases, inl, inr, ◌⊎◌,
}
use replicated_state_machine.Errors.{Result, ok, ◌>>=◌, >>=-inv, ok-injective}
use replicated_state_machine.Log.Shape.{Placed}
use replicated_state_machine.Log.Access.{term_at-total}
use replicated_state_machine.Log.{Log, last_index, holds, term_at, no_index}

-- the loop, from `index` down
unfoldable pub agree_from : Log → Log → ℕ → Result ℕ
agree_from left right zero = ok no_index
agree_from left right (suc k) =
    let rest = agree_from left right k in
    if not (holds left (suc k)) || not (holds right (suc k)) then rest else do
      one ← term_at left (suc k)
      two ← term_at right (suc k)
      if one == two then ok (suc k) else rest

unfoldable pub agree_up_to : Log → Log → Result ℕ
agree_up_to left right = agree_from left right (min (last_index left) (last_index right))

-- Both logs hold an entry of this term at this index.
pub record Shared (left right : Log) (index term : ℕ) : Type 0 where
  pub on_left : holds left index ≡ true
  pub on_right : holds right index ≡ true
  pub left_term : term_at left index ≡ ok term
  pub right_term : term_at right index ≡ ok term

agree_from-step :
    (left right : Log) (k : ℕ) {index : ℕ}
    → agree_from left right (suc k) ≡ ok index
    → ((index ≡ suc k) × ((term : ℕ) × Shared left right (suc k) term))
      ⊎ (agree_from left right k ≡ ok index)
unfolding agree_from
agree_from-step left right k q =
    elim (Bool-cases (not (holds left (suc k)) || not (holds right (suc k)))) [
      | inl skips ↦ inr (simp skips at q)
      | inr both ↦
          let (one, r, s) = >>=-inv (term_at left (suc k)) _ (simp both at q) in
          let (two, t, u) = >>=-inv (term_at right (suc k)) _ s in
          elim (Bool-cases (one == two)) [
            | inr differ ↦ inr (simp differ at u)
            | inl same ↦ inl (
              sym (ok-injective (simp same at u)),
              (
                one,
                record {
                  on_left = ground arith;
                  on_right = ground arith;
                  left_term = r;
                  right_term = t ∙ ap ok (sym (==→eq one two same));
                },
              ),
            )
          ]
    ]

pub agree_from-found :
    (left right : Log) (k index : ℕ)
    → agree_from left right k ≡ ok index
    → 1 ≤ index
    → (term : ℕ) × Shared left right index term
unfolding agree_from
agree_from-found left right zero index q pos =
    absurd (let e = ok-injective q in omega (arith, e, pos))
agree_from-found left right (suc k) index q pos = elim (agree_from-step left right k q) [
  | inl (e, (term, h)) ↦ (term, subst (λ i. Shared left right i term) (sym e) h)
  | inr r ↦ agree_from-found left right k index r pos
]

agree_from-here :
    (left right : Log) (k term : ℕ)
    → Shared left right (suc k) term
    → agree_from left right (suc k) ≡ ok (suc k)
unfolding agree_from
agree_from-here left right k term h =
    rw (h.on_left, h.on_right, h.left_term, h.right_term, ==_refl term) refl

pub agree_from-highest :
    (left right : Log) (k index j term : ℕ)
    → agree_from left right k ≡ ok index
    → 1 ≤ j
    → j ≤ k
    → Shared left right j term
    → j ≤ index
agree_from-highest left right zero index j term q pos le h = absurd (omega arith)
agree_from-highest left right (suc k) index j term q pos le h = elim (Bool-cases (j == suc k)) [
  | inl e ↦
      let at : j ≡ suc k = ==→eq j (suc k) e in
      let h' : Shared left right (suc k) term = subst (λ i. Shared left right i term) at h in
      let same : suc k ≡ index = ok-injective (sym (agree_from-here left right k term h') ∙ q) in
      omega arith
  | inr e ↦ elim (agree_from-step left right k q) [
    | inl (top, _) ↦ omega arith
    | inr r ↦ agree_from-highest left right k index j term r pos (ground arith) h
  ]
]

pub agree_from-total :
    (left right : Log) (k : ℕ)
    → Placed left
    → Placed right
    → (index : ℕ) × (agree_from left right k ≡ ok index)
unfolding agree_from holds
agree_from-total left right zero h g = (0, refl)
agree_from-total left right (suc k) h g =
    let (index, rest) = agree_from-total left right k h g in
    elim (Bool-cases (not (holds left (suc k)) || not (holds right (suc k)))) [
      | inl skips ↦ (index, rw skips rest)
      | inr both ↦
          let (one, r) = term_at-total left (suc k) h (ground arith) (ground arith) in
          let (two, t) = term_at-total right (suc k) g (ground arith) (ground arith) in
          elim (Bool-cases (one == two)) [
            | inl same ↦ (suc k, rw (both, r, t, same) refl)
            | inr differ ↦ (index, rw (both, r, t, differ) rest)
          ]
    ]

-- If two logs hold entries of one term at some index, then `agree_up_to` returns, without a raise,
-- the highest such index.
pub agree_up_to_highest :
    (left right : Log) (j term : ℕ)
    → Placed left
    → Placed right
    → 1 ≤ j
    → Shared left right j term
    → (index : ℕ) × (agree_up_to left right ≡ ok index)
      × (j ≤ index)
      × ((top : ℕ) × Shared left right index top)
unfolding agree_up_to holds
agree_up_to_highest left right j term h g pos shared =
    let bound = min (last_index left) (last_index right) in
    let (index, q) = agree_from-total left right bound h g in
    let l = shared.on_left in
    let r = shared.on_right in
    let le = agree_from-highest left right bound index j term q pos (ground (arith, l, r)) shared in
    (index, q, le, agree_from-found left right bound index q (omega arith))
