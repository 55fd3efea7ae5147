-- ===== src/Keyspace/Spread.antt =====
-- Every key is counted in the one group that owns it (rsm/keyspace.py).
use replicated_state_machine.Prelude.{
  ℕ, zero, suc, ◌+◌, ◌%◌, ◌<◌, ◌≡◌, refl, ap, ◌∙◌, inl, inr, false, Bool-cases, Option, some, List,
  [], ◌∷◌, ◌++◌, Dict, lookup, insert, lookup-insert, from_keys, range, All, ◌==◌, if◌then◌else◌,
  arith,
}
use native.Mathlib.Nat.{mod-lt}
use replicated_state_machine.Errors.{ok}
use replicated_state_machine.Keyspace.{Keyspace, new_keyspace, group_of, count_all, spread}

abbrev zeros : List ℕ → Dict ℕ
zeros names = from_keys names 0

abbrev found : ℕ → Dict ℕ → Option ℕ
found g out = lookup g out

found-zeros :
    (g n : ℕ) (names : List ℕ)
    → found g (zeros (names ++ n ∷ [])) ≡ (if g == n then some 0 else found g (zeros names))
found-zeros g n [] = ground arith
found-zeros g n (m ∷ names) = let rest = found-zeros g n names in ground (arith, rest)

found-range : (g n : ℕ) → g < n → found g (zeros (range n)) ≡ some 0
found-range g zero h = absurd (omega arith)
found-range g (suc n) h = rw (found-zeros g n (range n)) (elim (Bool-cases (g == n)) [
  | inl e ↦ rw e refl
  | inr e ↦ rw e (found-range g n (ground arith))
])

-- How many of the keys have a digest that falls to the group.
abbrev pub count : (ℕ → ℕ) → ℕ → ℕ → List ℕ → ℕ
count digest groups g [] = 0
count digest groups g (key ∷ keys) =
    let rest = count digest groups g keys in if digest key % groups == g then rest + 1 else rest

module _ (digest : ℕ → ℕ) (k : Keyspace) (some_group : 0 < k.groups) where
  -- one more at `group`
  abbrev bump : ℕ → (ℕ → ℕ) → ℕ → ℕ
  bump group held g = if group == g then held g + 1 else held g

  count_one :
      (one : ℕ) (keys : List ℕ) (out : Dict ℕ) (n : ℕ)
      → (one == 0) ≡ false
      → found (digest one % k.groups) out ≡ some n
      → count_all digest k out (one ∷ keys)
        ≡ count_all digest k (insert (digest one % k.groups) (n + 1) out) keys
  unfolding count_all group_of
  count_one one keys out n z h = rw (z, h) refl

  bumped :
      (group : ℕ) (out : Dict ℕ) (held : ℕ → ℕ)
      → found group out ≡ some (held group)
      → (g : ℕ) → found g out ≡ some (held g)
      → found g (insert group (held group + 1) out) ≡ some (bump group held g)
  bumped group out held here g h =
      lookup-insert group g (held group + 1) out ∙ elim (Bool-cases (group == g)) [
        | inl e ↦ let eq : group ≡ g = ground (arith, e) in rw e (ap (λ i. some (held i + 1)) eq)
        | inr n ↦ rw n h
      ]

  sum_of :
      (one : ℕ) (keys : List ℕ) (held : ℕ → ℕ) (g : ℕ)
      → bump (digest one % k.groups) held g + count digest k.groups g keys
        ≡ held g + count digest k.groups g (one ∷ keys)
  sum_of one keys held g = elim (Bool-cases (digest one % k.groups == g)) [
    | inl e ↦ rw e (omega arith)
    | inr e ↦ rw e refl
  ]

  count_all_counts :
      (keys : List ℕ) (out : Dict ℕ) (held : ℕ → ℕ)
      → All (λ key. (key == 0) ≡ false) keys
      → ((g : ℕ) → g < k.groups → found g out ≡ some (held g))
      → (out' : Dict ℕ) × (count_all digest k out keys ≡ ok out')
        × ((g : ℕ) → g < k.groups → found g out' ≡ some (held g + count digest k.groups g keys))
  unfolding count_all
  count_all_counts [] out held z h = (out, refl, λ g lt. h g lt ∙ ap some (omega arith))
  count_all_counts (one ∷ keys) out held z h =
      let group : ℕ = digest one % k.groups in
      let lt : group < k.groups = mod-lt (digest one) some_group in
      let here = h group lt in
      let after : Dict ℕ = insert group (held group + 1) out in
      let (out', q, r) =
        count_all_counts keys after (bump group held) z.1
          (λ g b. bumped group out held (h group lt) g (h g b)) in
      (
        out',
        count_one one keys out (held group) z.0 here ∙ q,
        λ g b. r g b ∙ ap some (sum_of one keys held g),
      )

-- `spread` of keys of which none is empty returns, and counts at each group the keys that it owns.
pub spread_counts :
    (digest : ℕ → ℕ) (groups g : ℕ) (keys : List ℕ) {k : Keyspace}
    → new_keyspace groups ≡ ok k
    → g < groups
    → All (λ key. (key == 0) ≡ false) keys
    → (out : Dict ℕ) × (spread digest k keys ≡ ok out)
      × (lookup g out ≡ some (count digest groups g keys))
unfolding new_keyspace spread
spread_counts digest groups g keys {k} made lt z =
    let same : groups ≡ k.groups = ground arith in
    let (out, q, r) =
      count_all_counts digest k (omega (arith, same, lt)) keys (zeros (range k.groups)) (λ _. 0) z
        (λ i b. found-range i k.groups b) in
    (out, q, r g (omega (arith, same, lt)) ∙ rw same (ap some (omega arith)))
