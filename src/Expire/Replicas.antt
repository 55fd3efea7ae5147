-- ===== src/Expire/Replicas.antt =====
-- Replicas of leased keys (rsm/expire.py): the log decides, or each clock.
use replicated_state_machine.Prelude.{ℕ, ◌≡◌, refl, sym, ap, ◌∙◌, false, List, [], ◌∷◌, arith}
use replicated_state_machine.Expire.{Lease, Store, grant, revoke, tick}

-- What happens to a replica: an entry is applied, or its clock moves.
pub data Act : Type 0 where
  granted : Lease → Act
  revoked : ℕ → Act
  clock : ℕ → Act

unfoldable pub act : Store → Act → Store
act s (granted l) = grant s l
act s (revoked key) = (revoke s key).0
act s (clock now) = tick s now

unfoldable pub act_all : Store → List Act → Store
act_all s [] = s
act_all s (a ∷ acts) = act_all (act s a) acts

-- The entries among what happens.
abbrev pub entries : List Act → List Act
entries [] = []
entries (granted l ∷ acts) = granted l ∷ entries acts
entries (revoked key ∷ acts) = revoked key ∷ entries acts
entries (clock now ∷ acts) = entries acts

-- Replicas that keep to the log and hold the same leases.
record Agree (s t : Store) : Type 0 where
  by_log : s.by_clock ≡ false
  by_log' : t.by_clock ≡ false
  same : s.leases ≡ t.leases

tick_by_log :
    (s : Store) (now : ℕ)
    → s.by_clock ≡ false
    → ((tick s now).by_clock ≡ false) × ((tick s now).leases ≡ s.leases)
unfolding tick
tick_by_log s now h = (ground (arith, h), ground (arith, h))

tick-Agree : (s t : Store) (now : ℕ) → Agree s t → Agree (tick s now) t
tick-Agree s t now h =
    let (b, l) = tick_by_log s now h.by_log in
    record { by_log = b; by_log' = h.by_log'; same = l ∙ h.same }

act_all-entries :
    (s t : Store) (acts : List Act) → Agree s t → Agree (act_all s acts) (act_all t (entries acts))
unfolding act_all act grant revoke
act_all-entries s t [] h = h
act_all-entries s t (granted l ∷ acts) h =
    act_all-entries (grant s l) (grant t l) acts
      (record { by_log = h.by_log; by_log' = h.by_log'; same = rw h.same refl })
act_all-entries s t (revoked key ∷ acts) h =
    act_all-entries (revoke s key).0 (revoke t key).0 acts
      (record { by_log = h.by_log; by_log' = h.by_log'; same = rw h.same refl })
act_all-entries s t (clock now ∷ acts) h =
    act_all-entries (tick s now) t acts (tick-Agree s t now h)

-- Two replicas that start from the same leases, keep to the log and apply the same entries hold the
-- same leases, however the clock of each moves in between.
pub log_replicas_agree :
    (s t : Store) (acts acts' : List Act)
    → s.by_clock ≡ false
    → t.by_clock ≡ false
    → s.leases ≡ t.leases
    → entries acts ≡ entries acts'
    → (act_all s acts).leases ≡ (act_all t acts').leases
log_replicas_agree s t acts acts' hs ht same e =
    let left = act_all-entries s t acts (record { by_log = hs; by_log' = ht; same = same }) in
    let right = act_all-entries t t acts' (record { by_log = ht; by_log' = ht; same = refl }) in
    left.same ∙ ap (λ es. (act_all t es).leases) e ∙ sym right.same
