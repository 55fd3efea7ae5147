-- ===== src/Log/Order.antt =====
-- The election restriction (rsm/log.py, `is_up_to_date`) as an order on logs.
use replicated_state_machine.Prelude.{ℕ, ◌≤◌, ◌<◌, ◌≡◌, ◌⊎◌, ◌↔◌, Bool, true, arith}
use replicated_state_machine.Log.{Log, last_index, last_term, is_up_to_date}

-- `m` is at least as up to date as `l`: what a node with the log `l` tests of a candidate with `m`.
abbrev pub up_to_date : Log → Log → Bool
up_to_date l m = is_up_to_date l (last_index m) (last_term m)

-- The term of the last entry is compared first, and the length only breaks a tie.
pub is_up_to_date_iff :
    (l : Log) (i t : ℕ)
    → (is_up_to_date l i t ≡ true) ↔ ((last_term l < t) ⊎ ((t ≡ last_term l) × (last_index l ≤ i)))
unfolding is_up_to_date
is_up_to_date_iff l i t = (λ h. ground arith, λ h. ground arith)

-- Of two nodes one may always vote for the other.
pub up_to_date_total : (l m : Log) → (up_to_date l m ≡ true) ⊎ (up_to_date m l ≡ true)
unfolding is_up_to_date
up_to_date_total l m = grind arith

-- A candidate that a node may vote for has a log that every log behind the node's may vote for.
pub up_to_date_trans :
    (l m n : Log) → up_to_date l m ≡ true → up_to_date m n ≡ true → up_to_date l n ≡ true
unfolding is_up_to_date
up_to_date_trans l m n h k = ground arith
