-- ===== src/Linearize/Digests.antt =====
-- rsm/machine.py, rsm/verify/linearize.py: what the digest of a state says about it.
use replicated_state_machine.Prelude.{
  ℕ, ◌≡◌, refl, sym, ◌∙◌, ap, true, Option, none, some, [], ◌∷◌, Dict, lookup, insert,
  lookup-insert, ◌==◌, if◌then◌else◌, Bool-cases, inl, inr, arith,
}
use replicated_state_machine.Errors.{some-injective}
use replicated_state_machine.Machine.{Object, remove}
use replicated_state_machine.Linearize.{Digest, digest, put_pair, same_digest}

-- A dict holds each key once.
abbrev pub Keyed {ℓ} : {V : Type ℓ} → Dict V → Type ℓ
Keyed [] = Unit
Keyed ((k, v) ∷ rest) = (lookup k rest ≡ none) × Keyed rest

-- Two dicts that answer alike.
abbrev pub SameState : Dict Object → Dict Object → Type 0
SameState s t = (key : ℕ) → lookup key s ≡ lookup key t

pub insert-Keyed : (k : ℕ) (v : Object) (d : Dict Object) → Keyed d → Keyed (insert k v d)
insert-Keyed k v [] h = (refl, tt)
insert-Keyed k v ((j, w) ∷ rest) h = elim (Bool-cases (j == k)) [
  | inl e ↦ rw e h
  | inr e ↦ rw e (ground (arith, lookup-insert k j v rest, h.0), insert-Keyed k v rest h.1)
]

pub lookup-remove :
    (k j : ℕ) (d : Dict Object)
    → Keyed d
    → lookup j (remove k d) ≡ (if k == j then none else lookup j d)
lookup-remove k j [] h = ground arith
lookup-remove k j ((i, w) ∷ rest) h = ground (arith, lookup-remove k j rest h.1, h.0)

pub remove-Keyed : (k : ℕ) (d : Dict Object) → Keyed d → Keyed (remove k d)
remove-Keyed k [] h = tt
remove-Keyed k ((j, w) ∷ rest) h = elim (Bool-cases (j == k)) [
  | inl e ↦ rw e h.1
  | inr e ↦ rw e (ground (arith, lookup-remove k j rest h.1, h.0), remove-Keyed k rest h.1)
]

lookup-put_pair :
    (k v j : ℕ) (d : Digest)
    → lookup k d ≡ none
    → lookup j (put_pair (k, v) d) ≡ (if k == j then some v else lookup j d)
lookup-put_pair k v j [] h = refl
lookup-put_pair k v j ((i, w) ∷ rest) h = ground (arith, lookup-put_pair k v j rest)

-- a value as its digest shows it
abbrev shown : (Object → ℕ) → Option Object → Option ℕ
shown repr none = none
shown repr (some v) = some (repr v)

lookup-digest :
    (repr : Object → ℕ) (j : ℕ) (d : Dict Object)
    → Keyed d
    → lookup j (digest repr d) ≡ shown repr (lookup j d)
unfolding digest
lookup-digest repr j [] h = refl
lookup-digest repr j ((k, v) ∷ rest) h =
    let absent = lookup-digest repr k rest h.1 ∙ ap (shown repr) h.0 in
    lookup-put_pair k (repr v) j (digest repr rest) absent
    ∙ ground (arith, lookup-digest repr j rest h.1)

same_digest-lookup : (a b : Digest) (j : ℕ) → same_digest a b ≡ true → lookup j a ≡ lookup j b
same_digest-lookup [] [] j h = refl
same_digest-lookup [] (_ ∷ _) j h = cc
same_digest-lookup (_ ∷ _) [] j h = cc
same_digest-lookup ((k, v) ∷ a) ((i, w) ∷ b) j h = ground (arith, same_digest-lookup a b j)

shown-injective :
    (repr : Object → ℕ)
    → ((a b : Object) → repr a ≡ repr b → a ≡ b)
    → (p q : Option Object) → shown repr p ≡ shown repr q
    → p ≡ q
shown-injective repr once none none h = refl
shown-injective repr once none (some b) h = cc
shown-injective repr once (some a) none h = cc
shown-injective repr once (some a) (some b) h = ap some (once a b (some-injective h))

-- States with one digest answer alike, if `repr` tells all objects apart.
pub same_digest-SameState :
    (repr : Object → ℕ)
    → ((a b : Object) → repr a ≡ repr b → a ≡ b)
    → (s t : Dict Object) → Keyed s
    → Keyed t
    → same_digest (digest repr s) (digest repr t) ≡ true
    → SameState s t
same_digest-SameState repr once s t ks kt h j =
    shown-injective repr once _ _
      (sym (lookup-digest repr j s ks) ∙ same_digest-lookup _ _ j h ∙ lookup-digest repr j t kt)

pub same_digest_refl : (d : Digest) → same_digest d d ≡ true
same_digest_refl [] = refl
same_digest_refl ((k, v) ∷ d) = ground (arith, same_digest_refl d)

pub same_digest_trans_sym :
    (a b c : Digest) → same_digest a c ≡ true → same_digest b c ≡ true → same_digest a b ≡ true
same_digest_trans_sym [] [] c h k = refl
same_digest_trans_sym [] (_ ∷ _) [] h k = cc
same_digest_trans_sym [] (_ ∷ _) (_ ∷ _) h k = cc
same_digest_trans_sym (_ ∷ _) [] [] h k = cc
same_digest_trans_sym (_ ∷ _) [] (_ ∷ _) h k = cc
same_digest_trans_sym ((k, v) ∷ a) ((j, w) ∷ b) [] h l = cc
same_digest_trans_sym ((k, v) ∷ a) ((j, w) ∷ b) ((i, u) ∷ c) h l =
    ground (arith, same_digest_trans_sym a b c)
