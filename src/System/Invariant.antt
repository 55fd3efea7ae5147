-- ===== src/System/Invariant.antt =====
-- What holds of votes in every system that can be reached.
use replicated_state_machine.Prelude.{
  ℕ, ◌<◌, ◌≡◌, refl, sym, ap, ◌∙◌, subst, inl, inr, true, false, some, none, Option, List, [], ◌∷◌,
  elem, ◌==◌, if◌then◌else◌, All, arith, Bool-cases, ==_refl, ==→eq,
}
use replicated_state_machine.Rpc.{Message}
use replicated_state_machine.Node.State.{Node}
use replicated_state_machine.Node.Election.Turn.{grants, Turn, Backed}
use replicated_state_machine.System.{System}

-- A record of who voted for whom in which term.
abbrev pub History : Type 0
History = ℕ → ℕ → Option ℕ

-- `v` voted for `i` in term `t`.
abbrev pub VotedFor : History → ℕ → ℕ → ℕ → Type 0
VotedFor history i v t = history v t ≡ some i

pub record Inv (members : List ℕ) (history : History) (s : System) : Type 0 where
  pub name : (i : ℕ) → elem i members ≡ true → (s.nodes i).name ≡ i
  pub cluster : (i : ℕ) → elem i members ≡ true → (s.nodes i).members ≡ members
  pub vote : (i : ℕ) → elem i members ≡ true → history i (s.nodes i).term ≡ (s.nodes i).voted_for
  pub future : (i t : ℕ) → elem i members ≡ true → (s.nodes i).term < t → history i t ≡ none
  pub from_members : All (λ m. elem m.sender members ≡ true) s.sent
  pub granted : All (λ m. grants m.body ≡ true → history m.sender m.term ≡ some m.recipient) s.sent
  pub backed : (i : ℕ) → elem i members ≡ true → Backed (VotedFor history i) (s.nodes i)

-- The record after node `i` has become `n`.
abbrev pub noted : History → ℕ → Node → History
noted history i n v t =
    if v == i then (if t == n.term then n.voted_for else history v t) else history v t

pub noted-other :
    (history : History) (i : ℕ) (n : Node) (v t : ℕ)
    → (v == i) ≡ false
    → noted history i n v t ≡ history v t
noted-other history i n v t h = rw h refl

pub noted-now : (history : History) (i : ℕ) (n : Node) → noted history i n i n.term ≡ n.voted_for
noted-now history i n = rw (==_refl i, ==_refl n.term) refl

pub noted-past :
    (history : History) (i : ℕ) (n : Node) (t : ℕ)
    → (t == n.term) ≡ false
    → noted history i n i t ≡ history i t
noted-past history i n t h = rw (==_refl i, h) refl

module _ (history : History) (i : ℕ) (n n' : Node) {out : List Message} (turn : Turn n n' out)
    (cur : history i n.term ≡ n.voted_for) (fut : (t : ℕ) → n.term < t → history i t ≡ none) where
  noted-grows_now : (c : ℕ) → history i n'.term ≡ some c → n'.voted_for ≡ some c
  noted-grows_now c h = elim (Bool-cases (n'.term == n.term)) [
    | inl e ↦
        let same : n'.term ≡ n.term = ==→eq n'.term n.term e in
        turn.keeps_vote same c (sym cur ∙ ap (history i) (sym same) ∙ h)
    | inr e ↦
        let none_yet : history i n'.term ≡ none = fut n'.term (ground (arith, turn.term_grows)) in
        absurd (cc)
  ]

  -- No recorded vote is lost or changed.
  pub noted-grows : (v t c : ℕ) → history v t ≡ some c → noted history i n' v t ≡ some c
  noted-grows v t c h = elim (Bool-cases (v == i)) [
    | inr other ↦ noted-other history i n' v t other ∙ h
    | inl me ↦
        let at : (v ≡ i) = ==→eq v i me in
        let h' : history i t ≡ some c = subst (λ x. history x t ≡ some c) at h in
        subst (λ x. noted history i n' x t ≡ some c) (sym at)
          (elim (Bool-cases (t == n'.term)) [
            | inr past ↦ noted-past history i n' t past ∙ h'
            | inl now ↦
                let e : t ≡ n'.term = ==→eq t n'.term now in
                subst (λ x. noted history i n' i x ≡ some c) (sym e)
                  (noted-now history i n'
                    ∙ noted-grows_now c (subst (λ x. history i x ≡ some c) e h'))
          ])
  ]

pub Backed-mono :
    (B B' : ℕ → ℕ → Type 0) (n : Node) → ((v t : ℕ) → B v t → B' v t) → Backed B n → Backed B' n
Backed-mono B B' n f h = record {
  standing = λ e. let (d, a) = h.standing e in (d, All-mono n.votes a);
  leading = λ e. let (names, (d, a), q) = h.leading e in (names, (d, All-mono names a), q);
}
  where
    All-mono :
        (names : List ℕ)
        → All (λ v. (elem v n.members ≡ true) × B v n.term) names
        → All (λ v. (elem v n.members ≡ true) × B' v n.term) names
    All-mono [] a = tt
    All-mono (v ∷ names) a = ((a.0.0, f v n.term a.0.1), All-mono names a.1)
