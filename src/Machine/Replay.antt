-- ===== src/Machine/Replay.antt =====
-- rsm/machine.py: replicas that apply the same deterministic commands agree.
use replicated_state_machine.Prelude.{
  ℕ, ◌≡◌, refl, true, not, Bool-cases, Option, none, some, List, [], ◌∷◌, All, ap, ◌∙◌, pos,
  if◌then◌else◌, inl, inr, ℤ,
}
use replicated_state_machine.Errors.{Result, ok, err, Result-cases}
use replicated_state_machine.Machine.{
  Name, set, delete, increment, compare_and_set, now, is_now, perform, int_of, truth, nothing,
  integer, flag, text, float, same, get, Command, Object, Machine, Python, fresh, deterministic,
  apply, apply_all, replay, increase, step_of,
}

-- A machine at another place of the generator.
abbrev pub moved : ℕ → Machine → Machine
moved j m = record m { drawn = j }

abbrev pub moved_out : ℕ → Result (Object × Machine) → Result (Object × Machine)
moved_out j (err e) = err e
moved_out j (ok (out, m)) = ok (out, moved j m)

int_of-chance :
    (p : Python) (chance : ℕ → ℕ) (o : Object)
    → int_of (record p { chance = chance }) o ≡ int_of p o
int_of-chance p chance nothing = refl
int_of-chance p chance (integer i) = refl
int_of-chance p chance (flag b) = refl
int_of-chance p chance (text t) = refl
int_of-chance p chance (float k) = refl

increase-moved :
    (p : Python) (chance : ℕ → ℕ) (j : ℕ) (m : Machine) (c : Command) (current : Option ℤ)
    → increase (record p { chance = chance }) (moved j m) c current
      ≡ moved_out j (increase p m c current)
increase-moved p chance j m c none = refl
increase-moved p chance j m c (some i) =
    let step : step_of (record p { chance = chance }) c.value ≡ step_of p c.value =
      ap (λ r. if truth c.value then r else ok (pos 1)) (int_of-chance p chance c.value) in
    elim (Result-cases (step_of p c.value)) [
      | inl (e, q) ↦ rw (step, q) refl
      | inr (k, q) ↦ rw (step, q) refl
    ]

pub perform-moved :
    (p : Python) (chance : ℕ → ℕ) (j : ℕ) (m : Machine) (c : Command) (name : Name)
    → not (is_now name) ≡ true
    → perform (record p { chance = chance }) (moved j m) c name ≡ moved_out j (perform p m c name)
perform-moved p chance j m c set d = refl
perform-moved p chance j m c delete d = refl
perform-moved p chance j m c increment d = increase-moved p chance j m c _
perform-moved p chance j m c compare_and_set d = elim (Bool-cases (same (get m c.key) c.expected)) [
  | inl e ↦ rw e refl
  | inr e ↦ rw e refl
]
perform-moved p chance j m c now d = cc

abbrev moved_all : ℕ → Result Machine → Result Machine
moved_all j (err e) = err e
moved_all j (ok m) = ok (moved j m)

apply_all-moved :
    (p : Python) (chance : ℕ → ℕ) (cs : List Command) (j : ℕ) (m : Machine)
    → All (λ c. deterministic c ≡ true) cs
    → apply_all (record p { chance = chance }) (moved j m) cs ≡ moved_all j (apply_all p m cs)
unfolding apply_all apply
apply_all-moved p chance [] j m d = refl
apply_all-moved p chance (c ∷ cs) j m d =
    let step = perform-moved p chance j m c c.name d.0 in
    elim (Result-cases (perform p m c c.name)) [
      | inl (e, q) ↦ rw (step, q) refl
      | inr ((out, m'), q) ↦ rw (step, q) (apply_all-moved p chance cs j m' d.1)
    ]

moved_all-moved_all : (j : ℕ) (r : Result Machine) → moved_all 0 (moved_all j r) ≡ moved_all 0 r
moved_all-moved_all j (err e) = refl
moved_all-moved_all j (ok m) = refl

-- What a replica shows: all but the place of the generator.
abbrev pub shown : Result Machine → Result Machine
shown = moved_all 0

-- Replicas that replay the same deterministic commands end in the same state with the same results, or
-- raise the same exception, whatever their random generators give and wherever these stand.
pub replicas_agree :
    (p : Python) (chance : ℕ → ℕ) (i j : ℕ) (cs : List Command)
    → All (λ c. deterministic c ≡ true) cs
    → shown (replay (record p { chance = chance }) j cs) ≡ shown (replay p i cs)
unfolding replay
replicas_agree p chance i j cs d =
    ap shown (apply_all-moved p chance cs j (fresh i) d)
    ∙ moved_all-moved_all j (apply_all p (fresh i) cs)
