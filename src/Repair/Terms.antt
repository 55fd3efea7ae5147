-- ===== src/Repair/Terms.antt =====
-- rsm/repair.py: the terms along a log, and the highest index of one.
use replicated_state_machine.Prelude.{
  ℕ, zero, suc, ◌+◌, ◌-◌, ◌≤◌, ◌≡◌, ◌≢◌, refl, sym, ap, subst, ◌∙◌, max, none, some, Option-cases,
  List, [], ◌∷◌, All, get_elem?, leb, ◌==◌, Bool-cases, ◌⊎◌, inl, inr, arith, ==→eq,
}
use replicated_state_machine.Errors.{ok, some-injective}
use replicated_state_machine.Log.{Entry, Log, last_index, term_at, at}
use replicated_state_machine.Log.Shape.{Ascends, InPlace}
use replicated_state_machine.Log.Access.{at-held}
use replicated_state_machine.Repair.{highest_of}
use replicated_state_machine.Repair.Probes.{Whole}

-- A whole log whose terms start at one and do not go backwards.
pub record Proper (l : Log) : Type 0 where
  pub whole : Whole l
  pub ordered : Ascends 0 l.entries
  pub positive : All (λ e. 1 ≤ e.term) l.entries

-- the entry behind a term that was read
pub record Behind (l : Log) (j t : ℕ) : Type 0 where
  pub entry : Entry
  pub place : get_elem? l.entries (j - 1) ≡ some entry
  pub index : entry.index ≡ j
  pub term : entry.term ≡ t

pub term_at-Behind :
    (l : Log) (j t : ℕ) → Whole l → 1 ≤ j → j ≤ last_index l → term_at l j ≡ ok t → Behind l j t
unfolding term_at
term_at-Behind l j t w lo hi q =
    let (e, r, i, g) = at-held l j w.placed (omega (arith, w.from_start)) hi in
    record {
      entry = e;
      place =
          subst (λ k. get_elem? l.entries k ≡ some e)
            (let same : j - (l.snapshot_index + 1) ≡ j - 1 = omega (arith, w.from_start) in same) g;
      index = i;
      term = ground (arith, r, w.from_start);
    }

Ascends-low :
    (t i : ℕ) (es : List Entry) {e : Entry} → Ascends t es → get_elem? es i ≡ some e → t ≤ e.term
Ascends-low t i [] a g = cc
Ascends-low t zero (f ∷ es) {e} a g = subst (λ (x : Entry). t ≤ x.term) (some-injective g) a.0
Ascends-low t (suc i) (f ∷ es) a g = omega (arith, a.0, Ascends-low f.term i es a.1 g)

pub Ascends-get :
    (t i j : ℕ) (es : List Entry) {e f : Entry}
    → Ascends t es
    → i ≤ j
    → get_elem? es i ≡ some e
    → get_elem? es j ≡ some f
    → e.term ≤ f.term
Ascends-get t i j [] a le g h = cc
Ascends-get t zero zero (x ∷ es) a le g h =
    let same = some-injective (sym g ∙ h) in omega (arith, ap (λ (z : Entry). z.term) same)
Ascends-get t zero (suc j) (x ∷ es) {e} {f} a le g h =
    subst (λ (z : Entry). z.term ≤ f.term) (some-injective g) (Ascends-low x.term j es a.1 h)
Ascends-get t (suc i) zero (x ∷ es) a le g h = absurd (omega arith)
Ascends-get t (suc i) (suc j) (x ∷ es) a le g h = Ascends-get x.term i j es a.1 (omega arith) g h

pub index-InPlace :
    (s i : ℕ) (es : List Entry) {e : Entry}
    → InPlace s es
    → get_elem? es i ≡ some e
    → e.index ≡ suc (s + i)
index-InPlace s i [] h g = cc
index-InPlace s zero (x ∷ es) h g =
    omega (arith, h.0, ap (λ (z : Entry). z.index) (some-injective g))
index-InPlace s (suc i) (x ∷ es) h g = omega (arith, index-InPlace (suc s) i es h.1 g)

pub All-get :
    (P : Entry → Type 0) (es : List Entry) (i : ℕ) {e : Entry}
    → All P es
    → get_elem? es i ≡ some e
    → P e
All-get P [] i a g = cc
All-get P (x ∷ es) zero a g = subst P (some-injective g) a.0
All-get P (x ∷ es) (suc i) a g = All-get P es i a.1 g

-- Terms along a log, as `term_at` reads them.
pub term_at-le :
    (l : Log) (i j s t : ℕ)
    → Proper l
    → 1 ≤ i
    → i ≤ j
    → j ≤ last_index l
    → term_at l i ≡ ok s
    → term_at l j ≡ ok t
    → s ≤ t
term_at-le l i j s t p lo le hi q r =
    let a = term_at-Behind l i s p.whole lo (omega arith) q in
    let b = term_at-Behind l j t p.whole (omega arith) hi r in
    let step = Ascends-get 0 (i - 1) (j - 1) l.entries p.ordered (omega arith) a.place b.place in
    omega (arith, step, a.term, b.term)

pub highest_of-none :
    (t i : ℕ) (es : List Entry) {e : Entry}
    → highest_of t es ≡ none
    → get_elem? es i ≡ some e
    → e.term ≢ t
highest_of-none t i [] n g k = cc
highest_of-none t zero (x ∷ es) {e} n g k = elim (Bool-cases (x.term == t)) [
  | inl own ↦ elim (Option-cases (highest_of t es)) [
    | inl q ↦ cc (rw (own, q) at n)
    | inr (i, q) ↦ cc (rw (own, q) at n)
  ]
  | inr apart ↦
      let same : x.term ≡ t = ap (λ (z : Entry). z.term) (some-injective g) ∙ k in ground arith
]
highest_of-none t (suc i) (x ∷ es) n g k = elim (Bool-cases (x.term == t)) [
  | inl own ↦ elim (Option-cases (highest_of t es)) [
    | inl q ↦ cc (rw (own, q) at n)
    | inr (j, q) ↦ cc (rw (own, q) at n)
  ]
  | inr apart ↦ highest_of-none t i es (rw apart at n) g k
]

-- The highest index of a term: an entry of that term is there, and none of that term is above.
pub record Highest (t own : ℕ) (es : List Entry) : Type 0 where
  pub place : ℕ
  pub entry : Entry
  pub there : get_elem? es place ≡ some entry
  pub term : entry.term ≡ t
  pub index : entry.index ≡ own
  pub top : (i : ℕ) (e : Entry) → get_elem? es i ≡ some e → e.term ≡ t → e.index ≤ own

pub highest_of-Highest :
    (t own : ℕ) (es : List Entry) → highest_of t es ≡ some own → Highest t own es
highest_of-Highest t own [] h = cc
highest_of-Highest t own (x ∷ es) h = elim (Bool-cases (x.term == t)) [
  | inr apart ↦
      let r = highest_of-Highest t own es (rw apart at h) in
      record {
        place = suc r.place;
        entry = r.entry;
        there = r.there;
        term = r.term;
        index = r.index;
        top = λ i e g k. elim (position i e g) [
          | inl at ↦ absurd (ground (arith, ap (λ (z : Entry). z.term) at))
          | inr (j, g') ↦ r.top j e g' k
        ];
      }
  | inl here ↦ elim (Option-cases (highest_of t es)) [
    | inl q ↦
        let only : x.index ≡ own = some-injective (rw (here, q) at h) in
        record {
          place = 0;
          entry = x;
          there = refl;
          term = ==→eq x.term t here;
          index = only;
          top = λ i e g k. elim (position i e g) [
            | inl at ↦ omega (arith, ap (λ (z : Entry). z.index) at, only)
            | inr (j, g') ↦ absurd (highest_of-none t j es q g' k)
          ];
        }
    | inr (above, q) ↦
        let most : max x.index above ≡ own = some-injective (rw (here, q) at h) in
        let r = highest_of-Highest t above es q in
        elim (Bool-cases (leb above x.index)) [
          | inl first ↦ record {
            place = 0;
            entry = x;
            there = refl;
            term = ==→eq x.term t here;
            index = ground arith;
            top = λ i e g k. elim (position i e g) [
              | inl at ↦ omega (arith, ap (λ (z : Entry). z.index) at, most)
              | inr (j, g') ↦ omega (arith, r.top j e g' k, most)
            ];
          }
          | inr later ↦ record {
            place = suc r.place;
            entry = r.entry;
            there = r.there;
            term = r.term;
            index = ground (arith, r.index);
            top = λ i e g k. elim (position i e g) [
              | inl at ↦ omega (arith, ap (λ (z : Entry). z.index) at, most)
              | inr (j, g') ↦ omega (arith, r.top j e g' k, most)
            ];
          }
        ]
  ]
]
  where
    position :
        (i : ℕ) (e : Entry)
        → get_elem? (x ∷ es) i ≡ some e
        → (e ≡ x) ⊎ ((j : ℕ) × (get_elem? es j ≡ some e))
    position zero e g = inl (sym (some-injective g))
    position (suc i) e g = inr (i, g)
