-- ===== src/Snapshot/Keep.antt =====
-- Compaction (rsm/snapshot.py): what a log answers after it.
use replicated_state_machine.Prelude.{
  ℕ, suc, ◌+◌, ◌-◌, ◌≤◌, ◌<◌, ◌≡◌, refl, sym, ap, subst, ◌∙◌, true, false, Bool-cases, inl, inr,
  List, [], ◌∷◌, length, get_elem?, ltb, leb, ◌==◌, arith, none, some,
}
use replicated_state_machine.Errors.{ok, err, compacted, index_error}
use replicated_state_machine.Log.{Entry, Log, last_index, first_index, at, term_at, matches, nth}
use replicated_state_machine.Log.Shape.{InPlace, Ascends, IsLog, last_index-eq}
use replicated_state_machine.Snapshot.{above, going, compact}

above_all : (s upto : ℕ) (es : List Entry) → InPlace s es → upto ≤ s → above upto es ≡ es
above_all s upto [] h k = refl
above_all s upto (e ∷ es) h k =
    let rest = above_all (suc s) upto es h.1 (omega arith) in ground (arith, rest, h.0)

going_none : (s upto : ℕ) (es : List Entry) → InPlace s es → upto ≤ s → length (going upto es) ≡ 0
going_none s upto [] h k = refl
going_none s upto (e ∷ es) h k =
    let rest = going_none (suc s) upto es h.1 (omega arith) in ground (arith, rest, h.0)

-- What stays of entries that stand in place above `s`.
record Stays (s upto : ℕ) (es : List Entry) : Type 0 where
  place : InPlace upto (above upto es)
  size : length (above upto es) + upto ≡ s + length es
  gone : length (going upto es) + s ≡ upto
  same : (i : ℕ) → get_elem? (above upto es) i ≡ get_elem? es ((upto - s) + i)

at_start : (s upto : ℕ) (es : List Entry) → InPlace s es → upto ≡ s → Stays s upto es
at_start s upto es h e =
    let all = above_all s upto es h (omega arith) in
    let none_gone = going_none s upto es h (omega arith) in
    record {
      place = subst (λ u. InPlace u (above upto es)) (sym e) (subst (InPlace s) (sym all) h);
      size = rw all (omega arith);
      gone = omega (arith, none_gone);
      same = λ i. let z : (upto - s) + i ≡ i = omega arith in rw (all, z) refl;
    }

stays :
    (s upto : ℕ) (es : List Entry)
    → InPlace s es
    → s ≤ upto
    → upto ≤ s + length es
    → Stays s upto es
stays s upto [] h lo hi = at_start s upto [] h (omega arith)
stays s upto (e ∷ es) h lo hi = elim (Bool-cases (ltb s upto)) [
  | inr start ↦ at_start s upto (e ∷ es) h (ground arith)
  | inl later ↦
      let r = stays (suc s) upto es h.1 (ground arith) (omega arith) in
      let cut : ltb upto e.index ≡ false = ground (arith, h.0) in
      let out : leb e.index upto ≡ true = ground (arith, h.0) in
      record {
        place = rw cut r.place;
        size = rw cut (omega (arith, r.size));
        gone = rw out (omega (arith, r.gone));
        same = λ i.
            let z : (upto - s) + i ≡ suc ((upto - suc s) + i) = ground arith in
            rw (cut, z) (r.same i);
      }
]

Ascends-weaken : (t u : ℕ) (es : List Entry) → u ≤ t → Ascends t es → Ascends u es
Ascends-weaken t u [] k h = tt
Ascends-weaken t u (e ∷ es) k h = (omega (arith, h.0), h.1)

Ascends-above : (t upto : ℕ) (es : List Entry) → Ascends t es → Ascends t (above upto es)
Ascends-above t upto [] h = tt
Ascends-above t upto (e ∷ es) h =
    let rest = Ascends-above e.term upto es h.1 in
    elim (Bool-cases (ltb upto e.index)) [
      | inl q ↦ rw q (h.0, rest)
      | inr q ↦ rw q (Ascends-weaken e.term t (above upto es) h.0 rest)
    ]

nth-same : (es fs : List Entry) (i j : ℕ) → get_elem? es i ≡ get_elem? fs j → nth es i ≡ nth fs j
nth-same es fs i j q = ap (λ o. elim o [ none ↦ err index_error | some e ↦ ok e ]) q

-- The log that `compact` leaves.
abbrev compacted_log : Log → ℕ → ℕ → Log
compacted_log l upto term = record {
  entries = above upto l.entries;
  snapshot_index = upto;
  snapshot_term = term;
}

module _ (l : Log) (upto term : ℕ) (h : IsLog l) (lo : l.snapshot_index ≤ upto)
    (hi : upto ≤ last_index l) where
  kept : Stays l.snapshot_index upto l.entries
  kept = stays l.snapshot_index upto l.entries h.placed lo (omega (arith, last_index-eq l h.placed))

  compacted-IsLog : IsLog (compacted_log l upto term)
  compacted-IsLog = record {
    placed = kept.place;
    ordered = Ascends-above 0 upto l.entries h.ordered;
  }

  same_end : last_index (compacted_log l upto term) ≡ last_index l
  same_end = omega (
    arith,
    last_index-eq l h.placed,
    last_index-eq (compacted_log l upto term) kept.place,
    kept.size,
  )

  compact-returns : compact l upto term ≡ ok (compacted_log l upto term, upto - l.snapshot_index)
  unfolding compact
  compact-returns =
      let n : length (going upto l.entries) ≡ upto - l.snapshot_index = omega (arith, kept.gone) in
      ground (arith, n)

  same_at : (i : ℕ) → upto < i → at (compacted_log l upto term) i ≡ at l i
  unfolding at first_index
  same_at i k =
      let z : (upto - l.snapshot_index) + (i - (upto + 1)) ≡ i - (l.snapshot_index + 1) =
        omega arith in
      let held =
        nth-same (above upto l.entries) l.entries (i - (upto + 1)) (i - (l.snapshot_index + 1))
          (kept.same (i - (upto + 1)) ∙ rw z refl) in
      let a : leb i upto ≡ false = ground arith in
      let b : leb i l.snapshot_index ≡ false = ground arith in rw (a, b, same_end, held) refl

  same_term_at :
      (i : ℕ)
      → term_at l upto ≡ ok term
      → upto ≤ i
      → term_at (compacted_log l upto term) i ≡ term_at l i
  unfolding term_at
  same_term_at i t k = elim (Bool-cases (i == 0)) [
    | inl z ↦ rw z refl
    | inr z ↦ elim (Bool-cases (i == upto)) [
      | inl e ↦
          let u : i ≡ upto = ground arith in rw (z, e) (sym t ∙ ap (term_at l) (sym u) ∙ rw z refl)
      | inr e ↦
          let f : (i == l.snapshot_index) ≡ false = ground arith in
          rw (z, e, f, same_at i (ground arith)) refl
    ]
  ]

  same_match :
      (i t : ℕ)
      → term_at l upto ≡ ok term
      → upto ≤ i
      → matches (compacted_log l upto term) i t ≡ matches l i t
  unfolding matches
  same_match i t q k =
      let a : ltb i upto ≡ false = ground arith in
      let b : ltb i l.snapshot_index ≡ false = ground arith in
      rw (a, b, same_end, same_term_at i q k) refl

-- What compaction up to `upto` makes of a log, asked `i` places from there about the term `t`.
pub record Keeps (l l' : Log) (upto i t : ℕ) : Type 0 where
  pub shape : IsLog l'
  pub end : last_index l' ≡ last_index l
  pub terms : term_at l' (upto + i) ≡ term_at l (upto + i)
  pub checks : matches l' (upto + i) t ≡ matches l (upto + i) t
  pub entries : at l' (upto + suc i) ≡ at l (upto + suc i)
  pub below : at l' (upto - i) ≡ err compacted

-- Compacting a log in shape up to an index that it holds or that its snapshot ends at, with the
-- term of that index, returns the number of entries that went and a log in shape that ends where
-- the old one did: the terms and the consistency checks at that index and above are the same, the
-- entries above it too, and those up to it are refused as compacted.
pub compact-Keeps :
    (l : Log) (upto term i t : ℕ)
    → IsLog l
    → l.snapshot_index ≤ upto
    → upto ≤ last_index l
    → term_at l upto ≡ ok term
    → (l' : Log) × (compact l upto term ≡ ok (l', upto - l.snapshot_index)) × Keeps l l' upto i t
unfolding at
compact-Keeps l upto term i t h lo hi q = (
  compacted_log l upto term,
  compact-returns l upto term h lo hi,
  record {
    shape = compacted-IsLog l upto term h lo hi;
    end = same_end l upto term h lo hi;
    terms = same_term_at l upto term h lo hi (upto + i) q (omega arith);
    checks = same_match l upto term h lo hi (upto + i) t q (omega arith);
    entries = same_at l upto term h lo hi (upto + suc i) (omega arith);
    below = ground arith;
  },
)
