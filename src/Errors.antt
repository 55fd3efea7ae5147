-- ===== src/Errors.antt =====
-- The exceptions that the modelled code raises (rsm/errors.py), and the result of code that may
-- raise one. Nothing in the package catches them in the middle of an operation, so the state that
-- a raise leaves behind inside an operation is never read.
use mathlib.Core.Option.{some}
use mathlib.Core.Path.{◌≡◌, refl}
use mathlib.Core.Logic.{◌⊎◌, inl, inr}

pub data Error : Type 0 where
  compacted not_found log_error leader_append_only : Error
  config_error not_leader no_leader unknown_node : Error
  election_safety log_matching state_machine_safety : Error
  network_error refused timeout : Error
  -- Python's own: an index outside a list, a key that a dict lacks, `struct.error`, `UnicodeDecodeError`,
  -- `ValueError` or `TypeError` of `int`, and an attribute that an object lacks
  index_error key_error struct_error unicode_error value_error attribute_error : Error

-- `err` is a raise, and `ok` a return.
pub data Result {ℓ} (A : Type ℓ) : Type ℓ where
  err : Error → Result A
  ok : A → Result A

module _ {ℓ κ} {A : Type ℓ} {B : Type κ} where
  infixl 5 ◌>>=◌
  -- What follows a raise is not run.
  abbrev pub ◌>>=◌ : Result A → (A → Result B) → Result B
  err raised >>= next = err raised
  ok value >>= next = next value

  -- If a sequence returns, its first part has returned.
  pub >>=-inv :
      (first : Result A) (next : A → Result B) {out : B}
      → (first >>= next) ≡ ok out
      → (value : A) × (first ≡ ok value) × (next value ≡ ok out)
  >>=-inv (err raised) next returns = cc
  >>=-inv (ok value) next returns = (value, refl, returns)

pub ok-injective {ℓ} : {A : Type ℓ} {x y : A} → ok x ≡ ok y → x ≡ y
ok-injective e = cc

pub some-injective {ℓ} : {A : Type ℓ} {x y : A} → some x ≡ some y → x ≡ y
some-injective e = cc

pub Result-cases {ℓ} :
    {A : Type ℓ} (r : Result A) → ((e : Error) × (r ≡ err e)) ⊎ ((a : A) × (r ≡ ok a))
Result-cases (err e) = inl (e, refl)
Result-cases (ok a) = inr (a, refl)
