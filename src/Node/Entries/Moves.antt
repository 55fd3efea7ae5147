-- ===== src/Node/Entries/Moves.antt =====
-- What a step of a node makes of entries: those it holds and sends were there, came with the
-- message, or are the one that a leader writes.
use replicated_state_machine.Prelude.{
  ℕ, zero, suc, ◌+◌, ◌-◌, ◌≤◌, ◌<◌, ◌≡◌, sym, ◌∙◌, subst, inl, inr, ◌⊎◌, Bool-cases, Option, none,
  some, List, [], ◌∷◌, All, arith, min, leb, ltb,
}
use replicated_state_machine.Errors.{ok, >>=-inv, ok-injective}
use replicated_state_machine.Log.{
  Entry, Command, Log, last_index, at, nth, collect, slice, first_index, term_at,
}
use replicated_state_machine.Rpc.{Message, Body, append}
use replicated_state_machine.Node.State.{Node, candidate, leader, follower, max_batch, peers}
use replicated_state_machine.Node.Replicate.{next_for, replicate_one, replicate_to, replicate}

-- The entries that a message carries.
abbrev pub carried : Body → List Entry
carried (append a) = a.entries
carried _ = []

abbrev pub Carries : (Entry → Type 0) → Message → Type 0
Carries P m = All P (carried m.body)

-- The node was elected in this step, or went on to a later term in it.
pub record Won (n n' : Node) : Type 0 where
  pub how : ((n.role ≡ candidate) × (n'.term ≡ n.term)) ⊎ (n.term < n'.term)

-- The entry that a leader may write in a step.
abbrev pub fresh_entry : Option Command → Node → Node → Entry
fresh_entry c n n' = record { term = n'.term; index = last_index n.log + 1; command = c }

pub record Fresh (n n' : Node) : Type 0 where
  pub leads : n'.role ≡ leader
  pub before : ((n.role ≡ leader) × (n'.term ≡ n.term)) ⊎ Won n n'
  pub ends : last_index n'.log ≡ last_index n.log + 1

pub record Move (P : Entry → Type 0) (n n' : Node) (out : List Message) : Type 0 where
  pub held : All P n'.log.entries
  pub sends : All (Carries P) out
  pub leads :
      n'.role ≡ leader
      → ((n.role ≡ leader) × (n'.term ≡ n.term) × (last_index n.log ≤ last_index n'.log)) ⊎ Won n n'
  pub stands : n'.role ≡ candidate → Won n n'

-- A change that leaves the log alone and gives no office.
pub record Eases (n n' : Node) : Type 0 where
  pub same_log : n'.log ≡ n.log
  pub grows : n.term ≤ n'.term
  pub leads : n'.role ≡ leader → (n.role ≡ leader) × (n'.term ≡ n.term)
  pub stands : n'.role ≡ candidate → (n.role ≡ candidate) × (n'.term ≡ n.term)

pub Eases-same : {n n' : Node} → n'.log ≡ n.log → n'.term ≡ n.term → n'.role ≡ n.role → Eases n n'
Eases-same l t r = record {
  same_log = l;
  grows = omega arith;
  leads = λ h. (sym r ∙ h, t);
  stands = λ h. (sym r ∙ h, t);
}

pub Eases-follower :
    {n n' : Node} → n'.log ≡ n.log → n.term ≤ n'.term → n'.role ≡ follower → Eases n n'
Eases-follower l t r = record {
  same_log = l;
  grows = t;
  leads = λ h. absurd (cc);
  stands = λ h. absurd (cc);
}

Won-Eases : {n n₁ n' : Node} → Eases n n₁ → Won n₁ n' → Won n n'
Won-Eases e w = record {
  how = elim w.how [
    | inl (r, t) ↦ let (a, b) = e.stands r in inl (a, t ∙ b)
    | inr lt ↦ inr (omega (arith, e.grows, lt))
  ];
}

pub Fresh-Eases : {n n₁ n' : Node} → Eases n n₁ → Fresh n₁ n' → Fresh n n'
Fresh-Eases {n' = n'} e f = record {
  leads = f.leads;
  before = elim f.before [
    | inl (r, t) ↦ let (a, b) = e.leads r in inl (a, t ∙ b)
    | inr w ↦ inr (Won-Eases e w)
  ];
  ends = subst (λ g. last_index n'.log ≡ last_index g + 1) e.same_log f.ends;
}

module _ (P : Entry → Type 0) where
  pub Move-Eases :
      {n n' : Node} {out : List Message}
      → All P n.log.entries
      → All (Carries P) out
      → Eases n n'
      → Move P n n' out
  Move-Eases h s e = record {
    held = rw e.same_log h;
    sends = s;
    leads = λ l. let (a, b) = e.leads l in inl (a, b, rw e.same_log (omega arith));
    stands = λ c. record { how = inl (e.stands c) };
  }

  pub Move-trans :
      {n n₁ n' : Node} {out : List Message} → Eases n n₁ → Move P n₁ n' out → Move P n n' out
  Move-trans {n} {n₁} {n'} e m = record {
    held = m.held;
    sends = m.sends;
    leads = λ l. elim (m.leads l) [
      | inl (r, t, k) ↦
          let (a, b) = e.leads r in
          inl (a, t ∙ b, subst (λ g. last_index g ≤ last_index n'.log) e.same_log k)
      | inr w ↦ inr (Won-Eases e w)
    ];
    stands = λ c. Won-Eases e (m.stands c);
  }

  get_elem?-All : (es : List Entry) (i : ℕ) {e : Entry} → All P es → nth es i ≡ ok e → P e
  get_elem?-All [] i h q = absurd (cc)
  get_elem?-All (d ∷ es) zero h q = subst P (ok-injective q) h.0
  get_elem?-All (d ∷ es) (suc i) h q = get_elem?-All es i h.1 q

  pub at-All : (l : Log) (i : ℕ) {e : Entry} → All P l.entries → at l i ≡ ok e → P e
  unfolding at
  at-All l i h q = elim (Bool-cases (leb i l.snapshot_index)) [
    | inl b ↦ absurd (ground (arith, b))
    | inr b ↦ elim (Bool-cases (ltb (last_index l) i)) [
      | inl c ↦ absurd (ground (arith, b, c))
      | inr c ↦ get_elem?-All l.entries (i - first_index l) h (rw (b, c) at q)
    ]
  ]

  collect-All :
      (l : Log) (count start : ℕ) {es : List Entry}
      → All P l.entries
      → collect l start count ≡ ok es
      → All P es
  unfolding collect
  collect-All l zero start h q = subst (All P) (ok-injective q) tt
  collect-All l (suc count) start h q =
      let (one, a, q₁) = >>=-inv (at l start) _ q in
      let (rest, b, q₂) = >>=-inv (collect l (suc start) count) _ q₁ in
      subst (All P) (ok-injective q₂) (at-All l start h a, collect-All l count (suc start) h b)

  slice-All :
      (l : Log) (start stop : ℕ) {es : List Entry}
      → All P l.entries
      → slice l start (some stop) ≡ ok es
      → All P es
  unfolding slice
  slice-All l start stop h q = elim (Bool-cases (ltb start (first_index l))) [
    | inl b ↦ absurd (ground (arith, b))
    | inr b ↦ collect-All l (min stop (last_index l) + 1 - start) start h (rw b at q)
  ]

  replicate_one-Carries :
      (n : Node) (one : ℕ) {m : Message}
      → All P n.log.entries
      → replicate_one n one ≡ ok m
      → Carries P m
  unfolding replicate_one
  replicate_one-Carries n one h q = elim (Bool-cases (leb (next_for n one) n.log.snapshot_index)) [
    | inl b ↦ subst (Carries P) (ok-injective (rw b at q)) tt
    | inr b ↦
        let (es, a, q₁) =
          >>=-inv (slice n.log (next_for n one) (some (next_for n one + max_batch - 1))) _
            (rw b at q) in
        let (t, c, q₂) = >>=-inv (term_at n.log (next_for n one - 1)) _ q₁ in
        subst (Carries P) (ok-injective q₂) (slice-All n.log _ _ h a)
  ]

  replicate_to-Carries :
      (n : Node) (names : List ℕ) {out : List Message}
      → All P n.log.entries
      → replicate_to n names ≡ ok out
      → All (Carries P) out
  unfolding replicate_to
  replicate_to-Carries n [] h q = subst (All (Carries P)) (ok-injective q) tt
  replicate_to-Carries n (one ∷ names) h q =
      let (m, a, q₁) = >>=-inv (replicate_one n one) _ q in
      let (ms, b, q₂) = >>=-inv (replicate_to n names) _ q₁ in
      subst (All (Carries P)) (ok-injective q₂)
        (replicate_one-Carries n one h a, replicate_to-Carries n names h b)

  pub replicate-Carries :
      (n : Node) (to : Option ℕ) {out : List Message}
      → All P n.log.entries
      → replicate n to ≡ ok out
      → All (Carries P) out
  unfolding replicate
  replicate-Carries n none h q = replicate_to-Carries n (peers n) h q
  replicate-Carries n (some to) h q = replicate_to-Carries n (to ∷ []) h q
