-- ===== src/Log/Change.antt =====
-- Changing a log (rsm/log.py): `append` and `truncate_from`, on every branch.
use mathlib.Core.List.{map-append, append_assoc, append-nil}
use replicated_state_machine.Prelude.{
  ℕ, ◌+◌, ◌-◌, ◌≤◌, ◌<◌, ◌≡◌, sym, ap, subst, ◌∙◌, ◌↔◌, ◌⊎◌, inl, inr, Bool-cases, leb, ltb, List,
  [], ◌∷◌, ◌++◌, map, take, arith, last_or-snoc, length-take,
}
use replicated_state_machine.Errors.{ok, err, compacted, >>=-inv, ok-injective}
use replicated_state_machine.Log.{
  Entry, Log, last_index, last_term, append_one, append, push, truncate_from, term_of, index_of,
}
use replicated_state_machine.Log.Shape.{
  IsLog, Placed, last_index-eq, push-IsLog, InPlace-take, Ascends-take,
}

append_one-IsLog : (l : Log) (e : Entry) {l' : Log} → IsLog l → append_one l e ≡ ok l' → IsLog l'
unfolding append_one last_term
append_one-IsLog l e h q = ground (arith, push-IsLog l e h)

append_one-eq : (l : Log) (e : Entry) {l' : Log} → append_one l e ≡ ok l' → l' ≡ push l e
unfolding append_one
append_one-eq l e q = ground arith

pub last_index-push : (l : Log) (e : Entry) → last_index (push l e) ≡ e.index
unfolding last_index
last_index-push l e = rw map-append (last_or-snoc l.snapshot_index (map index_of l.entries) e.index)

pub last_term-push : (l : Log) (e : Entry) → last_term (push l e) ≡ e.term
unfolding last_term
last_term-push l e = rw map-append (last_or-snoc l.snapshot_term (map term_of l.entries) e.term)

-- The entries follow one another from index `i` and term `t` on.
abbrev pub Continues : ℕ → ℕ → List Entry → Type 0
Continues i t [] = Unit
Continues i t (e ∷ es) = (e.index ≡ i + 1) × (t ≤ e.term) × Continues e.index e.term es

abbrev pub extend : Log → List Entry → Log
extend l es = record l { entries = l.entries ++ es }

append_one-ok :
    (l : Log) (e : Entry)
    → e.index ≡ last_index l + 1
    → last_term l ≤ e.term
    → append_one l e ≡ ok (push l e)
unfolding append_one
append_one-ok l e p q = ground arith

append-ok :
    (l : Log) (es : List Entry)
    → Continues (last_index l) (last_term l) es
    → append l es ≡ ok (extend l es)
unfolding append
append-ok l [] h = rw append-nil
append-ok l (e ∷ es) h =
    rw (append_one-ok l e h.0 h.1)
      (append-ok (push l e) es (rw last_index-push (rw last_term-push h.2)) ∙ rw append_assoc)

append_one-inv :
    (l : Log) (e : Entry) {l' : Log}
    → append_one l e ≡ ok l'
    → (e.index ≡ last_index l + 1) × (last_term l ≤ e.term) × (l' ≡ push l e)
unfolding append_one
append_one-inv l e q = ground arith

append-Continues :
    (l : Log) (es : List Entry) {l' : Log}
    → append l es ≡ ok l'
    → Continues (last_index l) (last_term l) es
unfolding append
append-Continues l [] q = tt
append-Continues l (e ∷ es) {l'} q =
    let (m, r, s) = >>=-inv (append_one l e) (λ x. append x es) q in
    let (p, t, u) = append_one-inv l e r in
    let i : last_index m ≡ e.index = ap last_index u ∙ last_index-push l e in
    let k : last_term m ≡ e.term = ap last_term u ∙ last_term-push l e in
    (
      p,
      t,
      subst (λ x. Continues x e.term es) i
          (subst (λ x. Continues (last_index m) x es) k (append-Continues m es s)),
    )

-- `append` returns exactly when the entries continue the log, and then it adds them at its end
-- and changes nothing else.
pub append_exact :
    (l l' : Log) (es : List Entry)
    → (append l es ≡ ok l') ↔ (Continues (last_index l) (last_term l) es × (l' ≡ extend l es))
append_exact l l' es = (
  λ q. let c = append-Continues l es q in (c, ok-injective (sym q ∙ append-ok l es c)),
  λ r. append-ok l es r.0 ∙ ap ok (sym r.1),
)

-- A log in shape stays in shape.
pub append-IsLog : (l : Log) (es : List Entry) {l' : Log} → IsLog l → append l es ≡ ok l' → IsLog l'
unfolding append
append-IsLog l [] h q = ground arith
append-IsLog l (e ∷ es) h q =
    let (m, r, s) = >>=-inv (append_one l e) (λ x. append x es) q in
    append-IsLog m es (append_one-IsLog l e h r) s

-- The log without the entries from `i` on.
abbrev pub cut : Log → ℕ → Log
cut l i = record l { entries = take (i - (l.snapshot_index + 1)) l.entries }

pub truncate_from-cut :
    (l : Log) (i : ℕ)
    → Placed l
    → l.snapshot_index < i
    → i ≤ last_index l
    → truncate_from l i ≡ ok (cut l i, last_index l + 1 - i)
unfolding truncate_from
truncate_from-cut l i h p q = ground (arith, last_index-eq l h)

-- Truncation refuses an index inside the snapshot, does nothing past the end, and else keeps
-- the entries below the index and returns how many it discarded.
pub truncate_from_exact :
    (l : Log) (i : ℕ)
    → Placed l
    → ((i ≤ l.snapshot_index) × (truncate_from l i ≡ err compacted))
      ⊎ ((l.snapshot_index < i) × (last_index l < i) × (truncate_from l i ≡ ok (l, 0)))
      ⊎ ((l.snapshot_index < i)
          × (i ≤ last_index l)
          × (truncate_from l i ≡ ok (cut l i, last_index l + 1 - i)))
unfolding truncate_from
truncate_from_exact l i h = elim (Bool-cases (leb i l.snapshot_index)) [
  | inl p ↦ inl (ground arith, ground arith)
  | inr p ↦ elim (Bool-cases (ltb (last_index l) i)) [
    | inl q ↦ inr (inl (ground arith, ground arith, ground arith))
    | inr q ↦
        let lo : l.snapshot_index < i = ground arith in
        let hi : i ≤ last_index l = ground arith in
        inr (inr (lo, hi, truncate_from-cut l i h lo hi))
  ]
]

pub cut-Placed : (l : Log) (i : ℕ) → Placed l → Placed (cut l i)
cut-Placed l i h = InPlace-take l.snapshot_index (i - (l.snapshot_index + 1)) l.entries h

pub cut-IsLog : (l : Log) (i : ℕ) → IsLog l → IsLog (cut l i)
cut-IsLog l i h = record {
  placed = cut-Placed l i h.placed;
  ordered = Ascends-take 0 (i - (l.snapshot_index + 1)) l.entries h.ordered;
}

-- Cutting below a held index makes the index before it the last.
pub last_index-cut :
    (l : Log) (i : ℕ)
    → Placed l
    → l.snapshot_index < i
    → i ≤ last_index l
    → last_index (cut l i) + 1 ≡ i
last_index-cut l i h lo hi = omega (
  arith,
  last_index-eq l h,
  last_index-eq (cut l i) (cut-Placed l i h),
  length-take (i - (l.snapshot_index + 1)) l.entries,
)
