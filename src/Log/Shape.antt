-- ===== src/Log/Shape.antt =====
-- The shape of a log (rsm/log.py): its entries stand in place, and terms do not go backwards.
use replicated_state_machine.Prelude.{
  ℕ, zero, suc, ◌+◌, ◌≤◌, ◌<◌, ◌≡◌, refl, true, some, List, [], ◌∷◌, ◌++◌, map, length, get_elem?,
  take, last_or, arith,
}
use replicated_state_machine.Errors.{ok}
use replicated_state_machine.Log.{
  Entry, Log, index_of, term_of, last_index, in_place, ascending, new_log, push,
}

-- `es` holds the indices from `s + 1` on.
abbrev pub InPlace : ℕ → List Entry → Type 0
InPlace s [] = Unit
InPlace s (e ∷ es) = (e.index ≡ suc s) × InPlace (suc s) es

-- Terms from `t` on do not go backwards.
abbrev pub Ascends : ℕ → List Entry → Type 0
Ascends t [] = Unit
Ascends t (e ∷ es) = (t ≤ e.term) × Ascends e.term es

-- Every entry stands at its place.
abbrev pub Placed : Log → Type 0
Placed l = InPlace l.snapshot_index l.entries

-- What `Log.__post_init__` asks of a log.
pub record IsLog (l : Log) : Type 0 where
  pub placed : Placed l
  pub ordered : Ascends 0 l.entries

InPlace-snoc :
    (s : ℕ) (es : List Entry) (e : Entry)
    → InPlace s es
    → e.index ≡ suc (s + length es)
    → InPlace s (es ++ e ∷ [])
InPlace-snoc s [] e h k = (omega arith, tt)
InPlace-snoc s (f ∷ es) e h k = (h.0, InPlace-snoc (suc s) es e h.1 (omega arith))

pub InPlace-take : (s n : ℕ) (es : List Entry) → InPlace s es → InPlace s (take n es)
InPlace-take s zero es h = tt
InPlace-take s (suc n) [] h = tt
InPlace-take s (suc n) (e ∷ es) h = (h.0, InPlace-take (suc s) n es h.1)

Ascends-snoc :
    (t : ℕ) (es : List Entry) (e : Entry)
    → Ascends t es
    → last_or t (map term_of es) ≤ e.term
    → Ascends t (es ++ e ∷ [])
Ascends-snoc t [] e h k = (k, tt)
Ascends-snoc t (f ∷ es) e h k = (h.0, Ascends-snoc f.term es e h.1 k)

pub Ascends-take : (t n : ℕ) (es : List Entry) → Ascends t es → Ascends t (take n es)
Ascends-take t zero es h = tt
Ascends-take t (suc n) [] h = tt
Ascends-take t (suc n) (e ∷ es) h = (h.0, Ascends-take e.term n es h.1)

last_or-InPlace :
    (s : ℕ) (es : List Entry) → InPlace s es → last_or s (map index_of es) ≡ s + length es
last_or-InPlace s [] h = omega arith
last_or-InPlace s (e ∷ es) h = rw h.0 (omega (arith, last_or-InPlace (suc s) es h.1))

pub last_index-eq : (l : Log) → Placed l → last_index l ≡ l.snapshot_index + length l.entries
unfolding last_index
last_index-eq l h = last_or-InPlace l.snapshot_index l.entries h

zero-last_or : (d : ℕ) (ts : List ℕ) → last_or 0 ts ≤ last_or d ts
zero-last_or d [] = omega arith
zero-last_or d (t ∷ ts) = omega arith

-- An entry with the next index may be pushed.
pub push-Placed :
    (l : Log) (e : Entry) → Placed l → e.index ≡ suc (last_index l) → Placed (push l e)
push-Placed l e h k = InPlace-snoc l.snapshot_index l.entries e h (omega (arith, last_index-eq l h))

-- An entry that follows the last one may be pushed.
pub push-IsLog :
    (l : Log) (e : Entry)
    → IsLog l
    → e.index ≡ suc (last_index l)
    → last_or l.snapshot_term (map term_of l.entries) ≤ e.term
    → IsLog (push l e)
push-IsLog l e h k t = record {
  placed = push-Placed l e h.placed k;
  ordered =
      Ascends-snoc 0 l.entries e h.ordered
        (omega (arith, zero-last_or l.snapshot_term (map term_of l.entries)));
}

-- The entry at position `i` has the index `s + i + 1`, and there is one below the length.
pub get_elem?-InPlace :
    (s i : ℕ) (es : List Entry)
    → InPlace s es
    → i < length es
    → (e : Entry) × (get_elem? es i ≡ some e) × (e.index ≡ suc (s + i))
get_elem?-InPlace s i [] h k = absurd (omega arith)
get_elem?-InPlace s zero (e ∷ es) h k = (e, refl, omega arith)
get_elem?-InPlace s (suc i) (e ∷ es) h k =
    let (f, q, j) = get_elem?-InPlace (suc s) i es h.1 (omega arith) in (f, q, omega arith)

in_place-InPlace : (s : ℕ) (es : List Entry) → in_place (suc s) es ≡ true → InPlace s es
in_place-InPlace s [] h = tt
in_place-InPlace s (e ∷ es) h = ground (arith, in_place-InPlace (suc s) es)

InPlace-in_place : (s : ℕ) (es : List Entry) → InPlace s es → in_place (suc s) es ≡ true
InPlace-in_place s [] h = refl
InPlace-in_place s (e ∷ es) h = ground (arith, InPlace-in_place (suc s) es h.1)

ascending-Ascends : (e : Entry) (es : List Entry) → ascending (e ∷ es) ≡ true → Ascends e.term es
ascending-Ascends e [] h = tt
ascending-Ascends e (f ∷ es) h = ground (arith, ascending-Ascends f es)

Ascends-ascending : (t : ℕ) (es : List Entry) → Ascends t es → ascending es ≡ true
Ascends-ascending t [] h = refl
Ascends-ascending t (e ∷ []) h = refl
Ascends-ascending t (e ∷ f ∷ es) h = ground (arith, Ascends-ascending e.term (f ∷ es) h.1)

ascending-ordered : (es : List Entry) → ascending es ≡ true → Ascends 0 es
ascending-ordered [] h = tt
ascending-ordered (e ∷ es) h = (omega arith, ascending-Ascends e es h)

-- The constructor accepts exactly the lists of entries that stand in place with terms that do
-- not go backwards, and makes the log of its arguments.
pub new_log-IsLog : (es : List Entry) (s t : ℕ) {l : Log} → new_log es s t ≡ ok l → IsLog l
unfolding new_log
new_log-IsLog es s t {l} h = record {
  placed = ground (arith, in_place-InPlace s es);
  ordered = ground (arith, ascending-ordered es);
}

pub new_log-total : (l : Log) → IsLog l → new_log l.entries l.snapshot_index l.snapshot_term ≡ ok l
unfolding new_log
new_log-total l h =
    rw (InPlace-in_place l.snapshot_index l.entries h.placed)
      (rw (Ascends-ascending 0 l.entries h.ordered) refl)
