-- ===== src/Rebalance.antt =====
-- rsm/rebalance.py: `Move`, a range of keys on its way from one group to another.
pub mod Phases
use replicated_state_machine.Prelude.{
  ℕ, suc, ◌+◌, ◌*◌, ◌≡◌, ◌≢◌, refl, ℤ, pos, difference, Bool, true, false, not, List, [], ◌∷◌,
  length, ◌==◌, if◌then◌else◌, arith, sym, ap, subst, ◌∙◌,
}
use replicated_state_machine.Errors.{Result, ok, err, ◌>>=◌, config_error}
use replicated_state_machine.Snapshot.{key_bytes}
use replicated_state_machine.Membership.{none_of}

-- A phase that is none of the four, which `__post_init__` refuses, has no value here.
pub data Phase : Type 0 where
  steady frozen copying handed : Phase

pub record Move : Type 0 where
  pub keys : List ℕ
  pub source : ℕ
  pub destination : ℕ
  pub phase : Phase
  pub frozen_at : ℕ
  pub handed_at : ℕ

-- `Move(keys, source, destination)` with its `__post_init__`
unfoldable pub new_move : List ℕ → ℕ → ℕ → Result Move
new_move keys source destination =
    if none_of keys
    then err config_error
    else if source == destination
    then err config_error
    else ok (record {
      keys = keys;
      source = source;
      destination = destination;
      phase = steady;
      frozen_at = 0;
      handed_at = 0;
    })

abbrev pub is_handed : Phase → Bool
is_handed p = elim p [ handed ↦ true | _ ↦ false ]

unfoldable pub owner : Move → ℕ
owner m = if is_handed m.phase then m.destination else m.source

unfoldable pub serving : Move → Bool
serving m = elim m.phase [ steady ↦ true | handed ↦ true | _ ↦ false ]

unfoldable pub nbytes : Move → ℕ
nbytes m = length m.keys * key_bytes

-- `advance`, by the phase before it
abbrev pub advance_from : Phase → Move → ℕ → Result Move
advance_from steady m now = ok (record m { phase = frozen; frozen_at = now })
advance_from frozen m now = ok (record m { phase = copying })
advance_from copying m now = ok (record m { phase = handed; handed_at = now })
advance_from handed m now = err config_error

unfoldable pub advance : Move → ℕ → Result Move
advance m now = advance_from m.phase m now

unfoldable pub unavailable_for : Move → ℤ
unavailable_for m = if m.handed_at == 0 then pos 0 else difference m.handed_at m.frozen_at
