-- ===== src/Quorum/Apart.antt =====
-- What the search of rsm/quorum.py finds where two quorums fit into the cluster, and the sum test.
use replicated_state_machine.Prelude.{
  ℕ, zero, suc, ◌+◌, ◌≤◌, ◌≡◌, refl, ap, subst, ◌∙◌, inl, inr, true, false, Bool-cases, Option,
  none, some, List, [], ◌∷◌, ◌++◌, map, length, length-append, range, elem, take, drop, In,
  In-append_left, In-append_right, ltb, arith,
}
use replicated_state_machine.Node.State.{distinct}
use replicated_state_machine.Quorum.Rules.{Rule, intersects}
use replicated_state_machine.Membership.{apart}
use replicated_state_machine.Membership.Majorities.{elem-snoc}
use replicated_state_machine.Quorum.Search.{
  combinations, find_right, first_of, find_pair, disjoint, is_none, every_pair_overlaps,
}
use replicated_state_machine.Quorum.Meet.{search_none}

-- A pair that shares nothing is found, or another one before it.
find_right_some :
    (left right : List ℕ) (rights : List (List ℕ))
    → In right rights
    → apart left right ≡ true
    → is_none (find_right left rights) ≡ false
find_right_some left right [] i a = elim i [ ]
find_right_some left right (next ∷ rights) (inl e) a =
    let here : apart left next ≡ true = subst (λ x. apart left x ≡ true) e a in rw here refl
find_right_some left right (next ∷ rights) (inr i) a = elim (Bool-cases (apart left next)) [
  | inl here ↦ rw here refl
  | inr not_here ↦ rw not_here (find_right_some left right rights i a)
]

first_of_some :
    (a b : Option (List ℕ × List ℕ)) → is_none a ≡ false → is_none (first_of a b) ≡ false
first_of_some none b h = absurd (cc)
first_of_some (some p) b h = refl

first_of_later :
    (a b : Option (List ℕ × List ℕ)) → is_none b ≡ false → is_none (first_of a b) ≡ false
first_of_later none b h = h
first_of_later (some p) b h = refl

find_pair_some :
    (left right : List ℕ) (lefts rights : List (List ℕ))
    → In left lefts
    → In right rights
    → apart left right ≡ true
    → is_none (find_pair lefts rights) ≡ false
find_pair_some left right [] rights i j a = elim i [ ]
find_pair_some left right (next ∷ lefts) rights (inl e) j a =
    let here : apart next right ≡ true = subst (λ x. apart x right ≡ true) e a in
    first_of_some (find_right next rights) (find_pair lefts rights)
      (find_right_some next right rights j here)
find_pair_some left right (next ∷ lefts) rights (inr i) j a =
    first_of_later (find_right next rights) (find_pair lefts rights)
      (find_pair_some left right lefts rights i j a)

In-map :
    (one : ℕ) (xs : List ℕ) (lists : List (List ℕ))
    → In xs lists
    → In (one ∷ xs) (map (λ chosen. one ∷ chosen) lists)
In-map one xs [] i = elim i [ ]
In-map one xs (ys ∷ lists) (inl e) = inl (ap (λ zs. one ∷ zs) e)
In-map one xs (ys ∷ lists) (inr i) = inr (In-map one xs lists i)

In-take :
    (count : ℕ) (members : List ℕ)
    → count ≤ length members
    → In (take count members) (combinations count members)
In-take zero members h = inl refl
In-take (suc count) [] h = absurd (omega arith)
In-take (suc count) (one ∷ members) h =
    In-append_left (one ∷ take count members)
      (map (λ chosen. one ∷ chosen) (combinations count members)) (combinations (suc count) members)
      (In-map one (take count members) (combinations count members)
        (In-take count members (omega arith)))

In-drop :
    (skipped count : ℕ) (members : List ℕ)
    → skipped + count ≤ length members
    → In (take count (drop skipped members)) (combinations count members)
In-drop zero count members h = In-take count members (omega arith)
In-drop (suc skipped) zero members h = inl refl
In-drop (suc skipped) (suc count) [] h = absurd (omega arith)
In-drop (suc skipped) (suc count) (one ∷ members) h =
    In-append_right (take (suc count) (drop skipped members))
      (map (λ chosen. one ∷ chosen) (combinations count members)) (combinations (suc count) members)
      (In-drop skipped (suc count) members (omega arith))

elem-take : (x k : ℕ) (xs : List ℕ) → elem x xs ≡ false → elem x (take k xs) ≡ false
elem-take x zero xs h = refl
elem-take x (suc k) [] h = refl
elem-take x (suc k) (y ∷ xs) h = let rest = elem-take x k xs (ground arith) in ground (arith, rest)

elem-drop : (x k : ℕ) (xs : List ℕ) → elem x xs ≡ false → elem x (drop k xs) ≡ false
elem-drop x zero xs h = h
elem-drop x (suc k) [] h = refl
elem-drop x (suc k) (y ∷ xs) h = elem-drop x k xs (ground arith)

-- The first members and those that follow them share nothing.
apart-take :
    (count later : ℕ) (members : List ℕ)
    → distinct members ≡ true
    → apart (take count members) (take later (drop count members)) ≡ true
apart-take zero later members d = refl
apart-take (suc count) later [] d = refl
apart-take (suc count) later (one ∷ members) d =
    let n : elem one members ≡ false = ground arith in
    let away = elem-take one later (drop count members) (elem-drop one count members n) in
    rw away (apart-take count later members (ground arith))

length-range : (n : ℕ) → length (range n) ≡ n
length-range zero = refl
length-range (suc n) = length-append (range n) (n ∷ []) ∙ omega (arith, length-range n)

elem-range : (k n : ℕ) → n ≤ k → elem k (range n) ≡ false
elem-range k zero h = refl
elem-range k (suc n) h =
    elem-snoc k n (range n) ∙ (let rest = elem-range k n (omega arith) in ground (arith, rest, h))

distinct-snoc :
    (xs : List ℕ) (x : ℕ) → distinct xs ≡ true → elem x xs ≡ false → distinct (xs ++ x ∷ []) ≡ true
distinct-snoc [] x d n = refl
distinct-snoc (y ∷ xs) x d n =
    let rest = distinct-snoc xs x (ground arith) (ground arith) in
    let away = elem-snoc y x xs in ground (arith, rest, away)

distinct-range : (n : ℕ) → distinct (range n) ≡ true
distinct-range zero = refl
distinct-range (suc n) = distinct-snoc (range n) n (distinct-range n) (elem-range n n (omega arith))

search_some :
    (members : List ℕ) (a b : ℕ)
    → distinct members ≡ true
    → a + b ≤ length members
    → is_none (find_pair (combinations a members) (combinations b members)) ≡ false
search_some members a b d few =
    find_pair_some (take a members) (take b (drop a members)) (combinations a members)
      (combinations b members) (In-take a members (omega arith)) (In-drop a b members few)
      (apart-take a b members d)

-- For every rule, the enumeration of all pairs of an election quorum and a commit quorum says that
-- every pair overlaps exactly if the sum test passes.
pub every_pair_overlaps-intersects : (r : Rule) → every_pair_overlaps r ≡ intersects r
unfolding every_pair_overlaps disjoint intersects
every_pair_overlaps-intersects r =
    let members : List ℕ = range r.size in
    let d = distinct-range r.size in
    let size = length-range r.size in
    elim (Bool-cases (ltb r.size (r.election + r.commit))) [
      | inl more ↦
          rw (more, search_none members r.election r.commit d (ground (arith, more, size))) refl
      | inr few ↦ rw few (search_some members r.election r.commit d (ground (arith, few, size)))
    ]
