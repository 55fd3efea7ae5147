-- ===== src/Log/Access.antt =====
-- Reading a log (rsm/log.py): `at`, `term_at`, `matches` and `slice`, on every branch.
use replicated_state_machine.Prelude.{
  ℕ, zero, suc, ◌+◌, ◌-◌, ◌≤◌, ◌<◌, ◌≡◌, refl, ◌⊎◌, inl, inr, true, false, Option, none, some,
  get_elem?, take, drop, drop-get_elem?, arith, min, Bool, if◌then◌else◌, ◌==◌, Bool-cases, ltb,
  leb→le, leb, ◌&&◌, ◌↔◌,
}
use replicated_state_machine.Errors.{ok, err, compacted, not_found}
use replicated_state_machine.Log.{
  Entry, Log, last_index, at, term_at, matches, collect, slice, holds, no_index,
}
use replicated_state_machine.Log.Shape.{Placed, last_index-eq, get_elem?-InPlace}

-- A held index is read, and the entry there carries that index.
pub at-held :
    (l : Log) (i : ℕ)
    → Placed l
    → l.snapshot_index < i
    → i ≤ last_index l
    → (e : Entry) × (at l i ≡ ok e)
      × (e.index ≡ i)
      × (get_elem? l.entries (i - (l.snapshot_index + 1)) ≡ some e)
unfolding at
at-held l i h lo hi =
    let (e, q, j) =
      get_elem?-InPlace l.snapshot_index (i - (l.snapshot_index + 1)) l.entries h
        (omega (arith, last_index-eq l h)) in
    (e, ground arith, omega arith, q)

-- An index lies inside the snapshot, past the end, or in the log, and `at` answers accordingly.
pub at_exact :
    (l : Log) (i : ℕ)
    → Placed l
    → ((i ≤ l.snapshot_index) × (at l i ≡ err compacted))
      ⊎ ((l.snapshot_index < i) × (last_index l < i) × (at l i ≡ err not_found))
      ⊎ ((holds l i ≡ true) × ((e : Entry) × (at l i ≡ ok e) × (e.index ≡ i)))
unfolding at holds
at_exact l i h = elim (Bool-cases (leb i l.snapshot_index)) [
  | inl p ↦ inl (ground arith, ground arith)
  | inr p ↦ elim (Bool-cases (ltb (last_index l) i)) [
    | inl q ↦ inr (inl (ground arith, ground arith, ground arith))
    | inr q ↦
        let (e, r, s, _) = at-held l i h (ground arith) (ground arith) in
        inr (inr (ground arith, (e, r, s)))
  ]
]

-- Between the snapshot and the end every index has a term.
pub term_at-total :
    (l : Log) (i : ℕ)
    → Placed l
    → l.snapshot_index ≤ i
    → i ≤ last_index l
    → (t : ℕ) × (term_at l i ≡ ok t)
unfolding term_at
term_at-total l i h lo hi = elim (Bool-cases (i == no_index)) [
  | inl z ↦ (0, ground arith)
  | inr z ↦ elim (Bool-cases (i == l.snapshot_index)) [
    | inl s ↦ (l.snapshot_term, ground arith)
    | inr s ↦ let (e, q, _, _) = at-held l i h (ground arith) hi in (e.term, ground arith)
  ]
]

-- The consistency check never raises on a log in shape.
pub matches-total : (l : Log) (i t : ℕ) → Placed l → (b : Bool) × (matches l i t ≡ ok b)
unfolding matches
matches-total l i t h = elim (Bool-cases (leb l.snapshot_index i && leb i (last_index l))) [
  | inl s ↦
      let (u, q) = term_at-total l i h (ground arith) (ground arith) in
      ((if i == no_index then true else (u == t)), ground arith)
  | inr s ↦ ((if i == no_index then true else false), ground arith)
]

-- The check passes exactly at the empty position, and where the log has the term asked for.
pub matches_iff :
    (l : Log) (i t : ℕ)
    → (matches l i t ≡ ok true)
      ↔ ((i ≡ 0) ⊎ ((l.snapshot_index ≤ i) × (i ≤ last_index l) × (term_at l i ≡ ok t)))
unfolding matches
matches_iff l i t = (λ m. passed m, λ c. ground arith)
  where
    passed :
        matches l i t ≡ ok true
        → (i ≡ 0) ⊎ ((l.snapshot_index ≤ i) × (i ≤ last_index l) × (term_at l i ≡ ok t))
    passed m = elim (Bool-cases (i == no_index)) [
      | inl z ↦ inl (ground arith)
      | inr z ↦ inr (ground arith, ground arith, ground arith)
    ]

-- The loop of `slice` reads a stretch of the entries.
collect-eq :
    (l : Log) (start count : ℕ)
    → Placed l
    → l.snapshot_index < start
    → count ≤ last_index l + 1 - start
    → collect l start count ≡ ok (take count (drop (start - (l.snapshot_index + 1)) l.entries))
unfolding collect
collect-eq l start zero h lo hi = refl
collect-eq l start (suc count) h lo hi =
    let (e, q, _, g) = at-held l start h lo (omega arith) in
    let k : suc start - (l.snapshot_index + 1) ≡ suc (start - (l.snapshot_index + 1)) =
      omega arith in
    rw q (
      rw (collect-eq l (suc start) count h (omega arith) (omega arith))
        (rw k (rw (drop-get_elem? (start - (l.snapshot_index + 1)) l.entries e g) refl)))

-- The index at which a slice ends.
abbrev pub slice_end : Log → Option ℕ → ℕ
slice_end l none = last_index l
slice_end l (some stop) = min stop (last_index l)

slice_refused :
    (l : Log) (start : ℕ) (stop : Option ℕ)
    → start ≤ l.snapshot_index
    → slice l start stop ≡ err compacted
unfolding slice
slice_refused l start stop p = ground arith

pub slice_held :
    (l : Log) (start : ℕ) (stop : Option ℕ)
    → Placed l
    → l.snapshot_index < start
    → slice l start stop
      ≡ ok (take (slice_end l stop + 1 - start) (drop (start - (l.snapshot_index + 1)) l.entries))
unfolding slice
slice_held l start none h p = ground (arith, collect-eq l start (last_index l + 1 - start) h p)
slice_held l start (some stop) h p =
    ground (arith, collect-eq l start (min stop (last_index l) + 1 - start) h p)

-- A slice from a position inside the snapshot is refused; any other is that stretch of the
-- entries, cut at the end of the log.
pub slice_exact :
    (l : Log) (start : ℕ) (stop : Option ℕ)
    → Placed l
    → ((start ≤ l.snapshot_index) × (slice l start stop ≡ err compacted))
      ⊎ ((l.snapshot_index < start)
          × (slice l start stop
              ≡ ok (
                  take
                    (slice_end l stop + 1 - start)
                    (drop (start - (l.snapshot_index + 1)) l.entries))))
slice_exact l start stop h = elim (Bool-cases (leb start l.snapshot_index)) [
  | inl p ↦ inl (leb→le _ _ p, slice_refused l start stop (leb→le _ _ p))
  | inr p ↦ let k : l.snapshot_index < start = ground arith in inr (k, slice_held l start stop h k)
]
