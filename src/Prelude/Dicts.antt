-- ===== src/Prelude/Dicts.antt =====
-- A Python dict with numbers for keys, as an association list in insertion order.
use Prim.Native.Nat.{ℕ}
use mathlib.Core.Path.{◌≡◌, refl}
use mathlib.Core.List.{List, [], ◌∷◌}
use mathlib.Core.Option.{Option, none, some}
use native.Mathlib.Omega.{arith}
use replicated_state_machine.Prelude.Tests.{◌==◌, if◌then◌else◌}

abbrev pub Dict {ℓ} : Type ℓ → Type ℓ
Dict V = List (ℕ × V)

module _ {ℓ} {V : Type ℓ} where
  -- `d.get(key)`, with `none` for a key that is missing
  abbrev pub lookup : ℕ → Dict V → Option V
  lookup key [] = none
  lookup key ((own, held) ∷ rest) = if own == key then some held else lookup key rest

  -- `d.get(k, default)`
  abbrev pub get : ℕ → V → Dict V → V
  get k default d = elim (lookup k d) [ none ↦ default | some v ↦ v ]

  -- `d[key] = value`; a key that is there keeps its place
  abbrev pub insert : ℕ → V → Dict V → Dict V
  insert key value [] = (key, value) ∷ []
  insert key value ((own, held) ∷ rest) =
      if own == key then (own, value) ∷ rest else (own, held) ∷ insert key value rest

  -- `dict.fromkeys(keys, v)`, for keys without repetition
  abbrev pub from_keys : List ℕ → V → Dict V
  from_keys [] v = []
  from_keys (k ∷ keys) v = (k, v) ∷ from_keys keys v

  pub lookup-insert :
      (k j : ℕ) (v : V) (d : Dict V)
      → lookup j (insert k v d) ≡ (if k == j then some v else lookup j d)
  lookup-insert k j v [] = refl
  lookup-insert k j v ((i, w) ∷ d) = ground (arith, lookup-insert k j v d)

  pub get-insert :
      (k j : ℕ) (v default : V) (d : Dict V)
      → get j default (insert k v d) ≡ (if k == j then v else get j default d)
  get-insert k j v default d = ground (arith, lookup-insert k j v d)

  pub get-from_keys : (k : ℕ) (v : V) (keys : List ℕ) → get k v (from_keys keys v) ≡ v
  get-from_keys k v [] = refl
  get-from_keys k v (j ∷ keys) = ground (arith, get-from_keys k v keys)
