-- ===== src/Keyspace.antt =====
-- rsm/keyspace.py: `Keyspace`, which group a key belongs to.
pub mod Spread
use replicated_state_machine.Prelude.{
  ℕ, zero, suc, ◌+◌, ◌%◌, Bool, Option, none, some, List, [], ◌∷◌, ◌++◌, Dict, lookup, insert,
  from_keys, range, ltb, ◌==◌, if◌then◌else◌,
}
use replicated_state_machine.Errors.{Result, ok, err, ◌>>=◌, config_error, key_error}

pub record Keyspace : Type 0 where
  pub groups : ℕ

-- `Keyspace(groups)` with its `__post_init__`
unfoldable pub new_keyspace : ℕ → Result Keyspace
new_keyspace groups = if ltb groups 1 then err config_error else ok (record { groups = groups })

-- `out[group] += 1`
abbrev pub increase : Dict ℕ → ℕ → Option ℕ → Result (Dict ℕ)
increase out group none = err key_error
increase out group (some n) = ok (insert group (n + 1) out)

-- `digest` is `int.from_bytes` of a `hashlib.blake2b`, on texts as numbers, with 0 for the empty one.
module _ (digest : ℕ → ℕ) where
  unfoldable pub group_of : Keyspace → ℕ → Result ℕ
  group_of k key = if key == 0 then err config_error else ok (digest key % k.groups)

  -- the loop of `spread`
  unfoldable pub count_all : Keyspace → Dict ℕ → List ℕ → Result (Dict ℕ)
  count_all k out [] = ok out
  count_all k out (one ∷ keys) = do
    group ← group_of k one
    more ← increase out group (lookup group out)
    count_all k more keys

  unfoldable pub spread : Keyspace → List ℕ → Result (Dict ℕ)
  spread k keys = count_all k (from_keys (range k.groups) 0) keys
