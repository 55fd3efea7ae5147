-- ===== src/Expire.antt =====
-- rsm/expire.py: `Lease` and `Store`, keys with a lifetime.
pub mod Replicas
use replicated_state_machine.Prelude.{
  ℕ, ◌+◌, Bool, true, false, not, Option, none, some, List, [], ◌∷◌, length, Dict, lookup, insert,
  ltb, leb, ◌==◌, if◌then◌else◌,
}
use replicated_state_machine.Errors.{Result, ok, err, config_error}
use replicated_state_machine.Machine.{Object}

abbrev pub default_length : ℕ
default_length = 30

-- The empty key is 0.
pub record Lease : Type 0 where
  pub key : ℕ
  pub value : Object
  pub granted_at : ℕ
  pub length : ℕ

-- `Lease(...)` with its `__post_init__`; a negative tick is not a number here
unfoldable pub new_lease : ℕ → Object → ℕ → ℕ → Result Lease
new_lease key value granted_at length =
    if key == 0
    then err config_error
    else if ltb length 1
    then err config_error
    else ok (record { key = key; value = value; granted_at = granted_at; length = length })

unfoldable pub expires_at : Lease → ℕ
expires_at l = l.granted_at + l.length

unfoldable pub expired : Lease → ℕ → Bool
expired l now = leb (expires_at l) now

pub record Store : Type 0 where
  pub name : ℕ
  pub by_clock : Bool
  pub leases : Dict Lease
  pub now : ℕ
  pub swept : ℕ

-- `Store(name, by_clock)`
abbrev pub new_store : ℕ → Bool → Store
new_store name by_clock = record {
  name = name;
  by_clock = by_clock;
  leases = [];
  now = 0;
  swept = 0;
}

unfoldable pub grant : Store → Lease → Store
grant s l = record s { leases = insert l.key l s.leases }

-- `dict.pop(key, None)`, on the dict that is left
abbrev pub drop_lease : ℕ → Dict Lease → Dict Lease
drop_lease key [] = []
drop_lease key ((own, held) ∷ rest) =
    let deeper = drop_lease key rest in if own == key then rest else (own, held) ∷ deeper

abbrev pub is_some : Option Lease → Bool
is_some none = false
is_some (some _) = true

unfoldable pub revoke : Store → ℕ → Store × Bool
revoke s key = (record s { leases = drop_lease key s.leases }, is_some (lookup key s.leases))

-- The leases that the loop of `tick` leaves, and how many it drops.
abbrev pub running : ℕ → Dict Lease → Dict Lease
running now [] = []
running now ((own, held) ∷ rest) =
    let kept = running now rest in if expired held now then kept else (own, held) ∷ kept

abbrev pub run_out : ℕ → Dict Lease → ℕ
run_out now [] = 0
run_out now ((own, held) ∷ rest) =
    let more = run_out now rest in if expired held now then more + 1 else more

unfoldable pub tick : Store → ℕ → Store
tick s now = if not s.by_clock then record s { now = now } else record s {
  now = now;
  leases = running now s.leases;
  swept = s.swept + run_out now s.leases;
}
