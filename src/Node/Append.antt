-- ===== src/Node/Append.antt =====
-- The follower's side of replication (rsm/node.py, `_on_append`): what its loop makes of a log.
use replicated_state_machine.Prelude.{
  ℕ, suc, ◌+◌, ◌-◌, ◌≤◌, ◌<◌, ◌≡◌, refl, sym, ap, ◌∙◌, subst, inl, inr, Bool-cases, some, List, [],
  ◌∷◌, ◌++◌, length, take, get_elem?, All, arith, leb, ◌==◌, ==→eq,
}
use replicated_state_machine.Prelude.{
  get_elem?-take, get_elem?-snoc, length-take, take-append, take-take, leb→le, ltb, ltb→lt,
  if◌then◌else◌,
}
use replicated_state_machine.Errors.{ok, some-injective}
use replicated_state_machine.Log.{Entry, Log, last_index, holds, at, term_at, push}
use replicated_state_machine.Log.Shape.{Placed, InPlace, last_index-eq, push-Placed}
use replicated_state_machine.Log.Access.{at-held, term_at-total}
use replicated_state_machine.Log.Change.{
  cut, cut-Placed, last_index-cut, last_index-push, truncate_from-cut,
}
use replicated_state_machine.Node.Follower.{take_entry, take_entries}

-- Two logs with one snapshot that agree on the entries up to index `p`.
pub record AgreeUpTo (p : ℕ) (l m : Log) : Type 0 where
  pub snapshot : m.snapshot_index ≡ l.snapshot_index
  pub snapshot_term : m.snapshot_term ≡ l.snapshot_term
  pub prefix : take (p - l.snapshot_index) m.entries ≡ take (p - l.snapshot_index) l.entries

-- What a follower's log `m` is after it has taken an entry with index `p + 1` into `l`.
pub record Taken (p : ℕ) (e : Entry) (l m : Log) : Type 0 where
  pub placed : Placed m
  pub reaches : suc p ≤ last_index m
  pub carries : term_at m (suc p) ≡ ok e.term
  pub keeps : AgreeUpTo p l m

-- A pushed entry is read back.
term_at-push :
    (l : Log) (e : Entry) (p : ℕ)
    → Placed l
    → last_index l ≡ p
    → e.index ≡ suc p
    → term_at (push l e) (suc p) ≡ ok e.term
unfolding term_at at
term_at-push l e p h la ix = ground (
  arith,
  last_index-push l e,
  last_index-eq l h,
  get_elem?-snoc l.entries e,
  ap (λ k. get_elem? (l.entries ++ e ∷ []) k) (position l p h la),
)
  where
    position :
        (l : Log) (p : ℕ)
        → Placed l
        → last_index l ≡ p
        → suc p - (l.snapshot_index + 1) ≡ length l.entries
    position l p h la = omega (arith, last_index-eq l h)

AgreeUpTo-refl : (p : ℕ) (l : Log) → AgreeUpTo p l l
AgreeUpTo-refl p l = record { snapshot = refl; snapshot_term = refl; prefix = refl }

-- Agreement up to an index, then up to the next one, is agreement up to the first.
AgreeUpTo-trans :
    (p : ℕ) (l m k : Log)
    → l.snapshot_index ≤ p
    → AgreeUpTo p l m
    → AgreeUpTo (suc p) m k
    → AgreeUpTo p l k
AgreeUpTo-trans p l m k lo a b = record {
  snapshot = b.snapshot ∙ a.snapshot;
  snapshot_term = b.snapshot_term ∙ a.snapshot_term;
  prefix =
      let n = p - l.snapshot_index in
      let le : n ≤ suc p - m.snapshot_index = omega (arith, a.snapshot) in
      sym (take-take n (suc p - m.snapshot_index) k.entries le)
      ∙ ap (take n) b.prefix
      ∙ take-take n (suc p - m.snapshot_index) m.entries le
      ∙ a.prefix;
}

module _ (p : ℕ) (e : Entry) (l : Log) (h : Placed l) (lo : l.snapshot_index ≤ p)
    (hi : p ≤ last_index l) (ix : e.index ≡ suc p) where
  abbrev kept : Log
  kept = cut l (suc p)

  -- the entry conflicts with one that is held
  Taken-cut : suc p ≤ last_index l → Taken p e l (push kept e)
  Taken-cut held =
      let n = p - l.snapshot_index in
      let en : suc p - (l.snapshot_index + 1) ≡ n = omega arith in
      let la : last_index kept ≡ p = omega (arith, last_index-cut l (suc p) h (omega arith) held) in
      let pk : Placed kept = cut-Placed l (suc p) h in
      record {
        placed = push-Placed kept e pk (ix ∙ ap suc (sym la));
        reaches = omega (arith, last_index-push kept e);
        carries = term_at-push kept e p pk la ix;
        keeps = record {
          snapshot = refl;
          snapshot_term = refl;
          prefix = rw en (
              take-append n (take n l.entries) (e ∷ [])
                (omega (arith, length-take n l.entries, last_index-eq l h))
              ∙ take-take n n l.entries (omega arith));
        };
      }

  -- the entry is the next one
  Taken-push : last_index l ≡ p → Taken p e l (push l e)
  Taken-push la = record {
    placed = push-Placed l e h (ix ∙ ap suc (sym la));
    reaches = omega (arith, last_index-push l e);
    carries = term_at-push l e p h la ix;
    keeps = record {
      snapshot = refl;
      snapshot_term = refl;
      prefix =
          take-append (p - l.snapshot_index) l.entries (e ∷ []) (omega (arith, last_index-eq l h));
    };
  }

  take_entry-held :
      (t : ℕ)
      → suc p ≤ last_index l
      → term_at l (suc p) ≡ ok t
      → take_entry l e ≡ (if t == e.term then ok l else ok (push kept e))
  unfolding take_entry holds
  take_entry-held t held q =
      let la = last_index-cut l (suc p) h (omega arith) held in
      let c = truncate_from-cut l (suc p) h (omega arith) held in simp ix (ground (arith, q, c, la))

  take_entry-next : last_index l ≡ p → take_entry l e ≡ ok (push l e)
  unfolding take_entry holds
  take_entry-next la = ground arith

  take_entry-Taken : (m : Log) × (take_entry l e ≡ ok m) × Taken p e l m
  take_entry-Taken = elim (Bool-cases (leb (suc p) (last_index l))) [
    | inr end ↦
        let la : last_index l ≡ p = ground arith in (push l e, take_entry-next la, Taken-push la)
    | inl held ↦
        let le = leb→le (suc p) (last_index l) held in
        let (t, q) = term_at-total l (suc p) h (omega arith) le in
        elim (Bool-cases (t == e.term)) [
          | inl same ↦ (
            l,
            take_entry-held t le q ∙ rw same refl,
            record {
              placed = h;
              reaches = le;
              carries = q ∙ ap ok (==→eq t e.term same);
              keeps = AgreeUpTo-refl p l;
            },
          )
          | inr other ↦ (push kept e, take_entry-held t le q ∙ rw other refl, Taken-cut le)
        ]
  ]

-- Logs that agree up to an index have the same terms there.
term_at-AgreeUpTo :
    (p i : ℕ) (l m : Log)
    → Placed l
    → Placed m
    → AgreeUpTo p l m
    → i ≤ p
    → l.snapshot_index ≤ i
    → i ≤ last_index l
    → i ≤ last_index m
    → term_at m i ≡ term_at l i
unfolding term_at
term_at-AgreeUpTo p i l m h k a ip lo il im = elim (Bool-cases (ltb l.snapshot_index i)) [
  | inr bottom ↦ ground (arith, a.snapshot, a.snapshot_term)
  | inl above ↦
      let (e, qe, _, ge) = at-held l i h (ltb→lt _ _ above) il in
      let (f, qf, _, gf) = at-held m i k (omega (arith, a.snapshot, ltb→lt _ _ above)) im in
      let n = p - l.snapshot_index in
      let j = i - (l.snapshot_index + 1) in
      let inside : j < n = omega (arith, ltb→lt _ _ above) in
      let same : get_elem? m.entries j ≡ get_elem? l.entries j =
        sym (get_elem?-take n j m.entries inside)
        ∙ ap (λ x. get_elem? x j) a.prefix
        ∙ get_elem?-take n j l.entries inside in
      let gf' : get_elem? m.entries j ≡ some f =
        subst (λ s. get_elem? m.entries (i - (s + 1)) ≡ some f) a.snapshot gf in
      let eq : f ≡ e = some-injective (sym gf' ∙ same ∙ ge) in
      ground (arith, a.snapshot, a.snapshot_term)
]

-- What the loop of `_on_append` makes of a log that holds the index `p` before the entries.
pub record Accepted (p : ℕ) (es : List Entry) (l m : Log) : Type 0 where
  pub placed : Placed m
  pub reaches : p + length es ≤ last_index m
  pub carries : All (λ e. term_at m e.index ≡ ok e.term) es
  pub keeps : AgreeUpTo p l m

-- A log that holds the index before a message's entries takes them all without an error: then it
-- has the message's term at each of their indices, it is in shape, and up to the index before
-- them it is as it was.
pub take_entries-Accepted :
    (es : List Entry) (p : ℕ) (l : Log)
    → Placed l
    → l.snapshot_index ≤ p
    → p ≤ last_index l
    → InPlace p es
    → (m : Log) × (take_entries l es ≡ ok m) × Accepted p es l m
unfolding take_entries
take_entries-Accepted [] p l h lo hi ix = (
  l,
  refl,
  record { placed = h; reaches = omega arith; carries = tt; keeps = AgreeUpTo-refl p l },
)
take_entries-Accepted (e ∷ es) p l h lo hi ix =
    let (k, q, t) = take_entry-Taken p e l h lo hi ix.0 in
    let (m, r, a) =
      take_entries-Accepted es (suc p) k t.placed (omega (arith, t.keeps.snapshot)) t.reaches
        ix.1 in
    (
      m,
      rw q r,
      record {
        placed = a.placed;
        reaches = omega (arith, a.reaches);
        carries = (
          subst (λ i. term_at m i ≡ ok e.term) (sym ix.0)
              (term_at-AgreeUpTo (suc p) (suc p) k m t.placed a.placed a.keeps (omega arith)
                  (omega (arith, t.keeps.snapshot)) t.reaches (omega (arith, a.reaches))
                ∙ t.carries),
          a.carries,
        );
        keeps = AgreeUpTo-trans p l k m lo t.keeps a.keeps;
      },
    )
