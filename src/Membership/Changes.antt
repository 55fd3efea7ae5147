-- ===== src/Membership/Changes.antt =====
-- Changes of one member (rsm/membership.py): quorums before, during and after share a node.
use replicated_state_machine.Prelude.{
  ℕ, ◌+◌, ◌/◌, ◌<◌, ◌≡◌, refl, sym, ap, ◌⊎◌, inl, inr, true, false, ◌∙◌, List, [], ◌∷◌, ◌++◌,
  length, length-append, elem, arith, subst,
}
use replicated_state_machine.Errors.{ok}
use replicated_state_machine.Node.State.{distinct, others}
use replicated_state_machine.Membership.{
  Configuration, none_of, new_configuration, is_joint, has_majority, quorum, with_member,
  without_member, settled,
}
use replicated_state_machine.Membership.Majorities.{
  Shared, majorities_meet, elem-snoc, elem-others, length-others,
}

quorum-new :
    (c : Configuration) (xs : List ℕ) → quorum c xs ≡ true → has_majority c.members xs ≡ true
unfolding quorum
quorum-new c xs h = ground arith

quorum-old :
    (c : Configuration) (xs : List ℕ)
    → none_of c.old ≡ false
    → quorum c xs ≡ true
    → has_majority c.old xs ≡ true
unfolding quorum is_joint
quorum-old c xs h q = ground arith

-- What a change of one member makes of the members that were there.
record Change (before : List ℕ) (d : Configuration) : Type 0 where
  old : d.old ≡ before
  all : List ℕ
  from_old : (v : ℕ) → elem v before ≡ true → elem v all ≡ true
  from_new : (v : ℕ) → elem v d.members ≡ true → elem v all ≡ true
  few : length all < (length before / 2 + 1) + (length d.members / 2 + 1)

pub made :
    (members old : List ℕ) {c : Configuration}
    → new_configuration members old ≡ ok c
    → (record { members = members; old = old } ≡ c)
      × (none_of members ≡ false)
      × (distinct members ≡ true)
unfolding new_configuration
made members old q = (ground arith, ground arith, ground arith)

added :
    (c : Configuration) (name : ℕ) {d : Configuration}
    → with_member c name ≡ ok d
    → Change c.members d
unfolding with_member
added c name {d} q =
    let m = made (c.members ++ name ∷ []) c.members {c = d} (ground arith) in
    subst (Change c.members) m.0 (record {
      old = refl;
      all = c.members ++ name ∷ [];
      from_old = λ v h. elem-snoc v name c.members ∙ rw h refl;
      from_new = λ v h. h;
      few = omega (arith, length-append c.members (name ∷ []));
    })

removed :
    (c : Configuration) (name : ℕ) {d : Configuration}
    → distinct c.members ≡ true
    → without_member c name ≡ ok d
    → Change c.members d
unfolding without_member
removed c name {d} dc q =
    let m = made (others name c.members) c.members {c = d} (ground arith) in
    subst (Change c.members) m.0 (record {
      old = refl;
      all = c.members;
      from_old = λ v h. h;
      from_new = λ v. elem-others v name c.members;
      few = omega (arith, length-others name c.members dc (ground arith));
    })

one_side_meets :
    (members : List ℕ) (xs ys : List ℕ)
    → distinct xs ≡ true
    → distinct ys ≡ true
    → has_majority members xs ≡ true
    → has_majority members ys ≡ true
    → Shared xs ys
one_side_meets members xs ys dx dy =
    majorities_meet members members members xs ys (λ v h. h) (λ v h. h) dx dy (omega arith)

-- A configuration before, during or after a change.
abbrev One : (before during after given : Configuration) → Type 0
One before during after given = (given ≡ before) ⊎ (given ≡ during) ⊎ (given ≡ after)

-- A change of one member: a steady configuration, the joint one and the settled one.
record Phases (c d e : Configuration) : Type 0 where
  change : Change c.members d
  early : (xs : List ℕ) → quorum d xs ≡ true → has_majority c.members xs ≡ true
  late : (xs : List ℕ) → quorum e xs ≡ true → has_majority d.members xs ≡ true

phases :
    (members : List ℕ) (name : ℕ) {c d e : Configuration}
    → new_configuration members [] ≡ ok c
    → (with_member c name ≡ ok d) ⊎ (without_member c name ≡ ok d)
    → settled d ≡ ok e
    → Phases c d e
unfolding settled
phases members name {c} {d} {e} qc qd qe =
    let first = made members [] qc in
    let last = made d.members [] qe in
    let ms : members ≡ c.members = ap (λ x. x.members) first.0 in
    let me : e.members ≡ d.members = sym (ap (λ x. x.members) last.0) in
    let dc : distinct c.members ≡ true = subst (λ x. distinct x ≡ true) ms first.2 in
    let change : Change c.members d = elim qd [
      | inl q ↦ added c name q
      | inr q ↦ removed c name dc q
    ] in
    let some_old : none_of d.old ≡ false =
      rw change.old (subst (λ x. none_of x ≡ false) ms first.1) in
    record {
      change = change;
      early = λ xs h. subst (λ x. has_majority x xs ≡ true) change.old (quorum-old d xs some_old h);
      late = λ xs h. subst (λ x. has_majority x xs ≡ true) me (quorum-new e xs h);
    }

-- A quorum of one of the three holds a majority of the old members or of the new ones.
majority_of :
    (c d e given : Configuration) (xs : List ℕ)
    → Phases c d e
    → One c d e given
    → quorum given xs ≡ true
    → (has_majority c.members xs ≡ true) ⊎ (has_majority d.members xs ≡ true)
majority_of c d e given xs p (inl q) h = inl (quorum-new c xs (subst (λ x. quorum x xs ≡ true) q h))
majority_of c d e given xs p (inr (inl q)) h =
    inl (p.early xs (subst (λ x. quorum x xs ≡ true) q h))
majority_of c d e given xs p (inr (inr q)) h = inr (p.late xs (subst (λ x. quorum x xs ≡ true) q h))

-- A steady configuration, the joint one that adds or removes a member of it, and the one that this
-- settles to: two sets of votes that are quorums of any of the three share a node.
pub changes_overlap :
    (members xs ys : List ℕ) (name : ℕ) {c d e : Configuration} (left right : Configuration)
    → new_configuration members [] ≡ ok c
    → (with_member c name ≡ ok d) ⊎ (without_member c name ≡ ok d)
    → settled d ≡ ok e
    → (left ≡ c) ⊎ (left ≡ d) ⊎ (left ≡ e)
    → (right ≡ c) ⊎ (right ≡ d) ⊎ (right ≡ e)
    → distinct xs ≡ true
    → distinct ys ≡ true
    → quorum left xs ≡ true
    → quorum right ys ≡ true
    → Shared xs ys
changes_overlap members xs ys name {c} {d} {e} left right qc qd qe ql qr dx dy hx hy =
    let p = phases members name qc qd qe in
    let more = p.change.few in
    elim (majority_of c d e left xs p ql hx) [
      | inl mx ↦ elim (majority_of c d e right ys p qr hy) [
        | inl my ↦ one_side_meets c.members xs ys dx dy mx my
        | inr my ↦
            majorities_meet p.change.all c.members d.members xs ys p.change.from_old
              p.change.from_new dx dy more mx my
      ]
      | inr mx ↦ elim (majority_of c d e right ys p qr hy) [
        | inl my ↦
            majorities_meet p.change.all d.members c.members xs ys p.change.from_new
              p.change.from_old dx dy (omega (arith, more)) mx my
        | inr my ↦ one_side_meets d.members xs ys dx dy mx my
      ]
    ]
