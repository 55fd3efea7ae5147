-- ===== src/Rebalance/Phases.antt =====
-- A move from its start to its end (rsm/rebalance.py).
use replicated_state_machine.Prelude.{
  ℕ, ◌≡◌, refl, pos, difference, true, false, List, ◌==◌, if◌then◌else◌, arith,
}
use replicated_state_machine.Errors.{ok, err, config_error}
use replicated_state_machine.Rebalance.{
  Move, steady, new_move, owner, serving, advance, unavailable_for,
}

-- What a move shows before its first advance and after each of the three.
pub record Journey (source destination first last : ℕ) (m m₁ m₂ m₃ : Move) : Type 0 where
  pub starts : (owner m ≡ source) × (serving m ≡ true)
  pub freezes : (owner m₁ ≡ source) × (serving m₁ ≡ false)
  pub copies : (owner m₂ ≡ source) × (serving m₂ ≡ false)
  pub hands : (owner m₃ ≡ destination) × (serving m₃ ≡ true)
  pub away : unavailable_for m₃ ≡ (if last == 0 then pos 0 else difference last first)

journey :
    (keys : List ℕ) (source destination t₁ t₂ t₃ t₄ : ℕ) (m : Move)
    → m ≡ record {
      keys = keys;
      source = source;
      destination = destination;
      phase = steady;
      frozen_at = 0;
      handed_at = 0;
    }
    → (m₁ : Move) × (m₂ : Move) × (m₃ : Move) × (advance m t₁ ≡ ok m₁)
      × (advance m₁ t₂ ≡ ok m₂)
      × (advance m₂ t₃ ≡ ok m₃)
      × (advance m₃ t₄ ≡ err config_error)
      × Journey source destination t₁ t₃ m m₁ m₂ m₃
unfolding advance owner serving unavailable_for
journey keys source destination t₁ t₂ t₃ t₄ m e = rw e (
  _,
  _,
  _,
  refl,
  refl,
  refl,
  refl,
  record {
    starts = (refl, refl);
    freezes = (refl, refl);
    copies = (refl, refl);
    hands = (refl, refl);
    away = refl;
  },
)

-- A move that was accepted takes three advances: the source owns the range until the last of them
-- and the destination from then on, the range answers before the first and after the third only,
-- and the time away runs from the first to the third. A fourth is refused.
pub advance_all :
    (keys : List ℕ) (source destination t₁ t₂ t₃ t₄ : ℕ) {m : Move}
    → new_move keys source destination ≡ ok m
    → (m₁ : Move) × (m₂ : Move) × (m₃ : Move) × (advance m t₁ ≡ ok m₁)
      × (advance m₁ t₂ ≡ ok m₂)
      × (advance m₂ t₃ ≡ ok m₃)
      × (advance m₃ t₄ ≡ err config_error)
      × Journey source destination t₁ t₃ m m₁ m₂ m₃
unfolding new_move
advance_all keys source destination t₁ t₂ t₃ t₄ {m} q =
    journey keys source destination t₁ t₂ t₃ t₄ m (ground arith)
