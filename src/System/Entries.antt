-- ===== src/System/Entries.antt =====
-- Where the entries of a system come from: one author for each term, who writes each index once.
use replicated_state_machine.Prelude.{
  ℕ, ◌+◌, ◌/◌, ◌≤◌, ◌≡◌, refl, sym, ap, ◌∙◌, subst, inl, inr, ◌⊎◌, true, false, some, Option, List,
  length, elem, ◌==◌, All, All-append, arith, Bool-cases, ==_refl, ==→eq,
}
use replicated_state_machine.Log.{Entry, Command, last_index}
use replicated_state_machine.Rpc.{Message}
use replicated_state_machine.Node.State.{Node, candidate, leader}
use replicated_state_machine.Node.Election.Turn.{Ballots}
use replicated_state_machine.Node.Entries.Moves.{Carries, carried, Won, Fresh, fresh_entry, Move}
use replicated_state_machine.System.{System, after}
use replicated_state_machine.System.Invariant.{History, VotedFor, Inv}
use replicated_state_machine.System.Kept.{All-map}
use replicated_state_machine.System.Safety.{same_votes, leader-Ballots, leaders_same}

-- Who led in the term of an entry, and will not stand in it again.
pub record Author (members : List ℕ) (history : History) (s : System) (e : Entry) : Type 0 where
  pub who : ℕ
  pub member : elem who members ≡ true
  pub names : List ℕ
  pub ballots : Ballots (VotedFor history who) members e.term names
  pub enough : length members / 2 + 1 ≤ length names
  pub past : e.term ≤ (s.nodes who).term
  pub done : (s.nodes who).term ≡ e.term → (s.nodes who).role ≡ candidate → ⊥

-- `K` holds of the entries that have been written.
pub record Written (members : List ℕ) (history : History) (K : Entry → Type 0) (s : System)
    : Type 0 where
  pub logs : (i : ℕ) → elem i members ≡ true → All K (s.nodes i).log.entries
  pub sent : All (Carries K) s.sent
  pub unique : (e f : Entry) → K e → K f → e.term ≡ f.term → e.index ≡ f.index → e ≡ f
  pub author : (e : Entry) → K e → Author members history s e
  pub top :
      (i : ℕ) (e : Entry)
      → elem i members ≡ true
      → (s.nodes i).role ≡ leader
      → K e
      → e.term ≡ (s.nodes i).term
      → e.index ≤ last_index (s.nodes i).log

-- What has been written after a step in which node `n` became `n'`.
abbrev pub Extended : (Entry → Type 0) → Option Command → Node → Node → Entry → Type 0
Extended K c n n' e = K e ⊎ (Fresh n n' × (e ≡ fresh_entry c n n'))

module _ (members : List ℕ) (history history' : History) (s : System) (i : ℕ) (n' : Node)
    (out : List Message) (K : Entry → Type 0) (c : Option Command) (member : elem i members ≡ true)
    (inv' : Inv members history' (after s i (n', out)))
    (grows : (v t w : ℕ) → history v t ≡ some w → history' v t ≡ some w)
    (later : (s.nodes i).term ≤ n'.term) (known : Written members history K s)
    (move : Move (Extended K c (s.nodes i) n') (s.nodes i) n' out) where
  abbrev n : Node
  n = s.nodes i

  abbrev s' : System
  s' = after s i (n', out)

  abbrev K' : Entry → Type 0
  K' = Extended K c n n'

  moved : s'.nodes i ≡ n'
  moved = rw (==_refl i) refl

  unmoved : (j : ℕ) → (j == i) ≡ false → s'.nodes j ≡ s.nodes j
  unmoved j other = rw other refl

  Ballots-grow :
      (j t : ℕ) (names : List ℕ)
      → Ballots (VotedFor history j) members t names
      → Ballots (VotedFor history' j) members t names
  Ballots-grow j t names (d, a) = (d, All-map names (λ v h. (h.0, grows v t j h.1)) a)

  new-Ballots :
      n'.role ≡ leader
      → (names : List ℕ) × Ballots (VotedFor history' i) members n'.term names
        × (length members / 2 + 1 ≤ length names)
  new-Ballots l =
      let (names, b, q) = leader-Ballots inv' i member (ap (λ x. x.role) moved ∙ l) in
      (names, subst (λ x. Ballots (VotedFor history' i) members x.term names) moved b, q)

  -- Nothing has been written in a term before its leader is elected.
  unwritten : n'.role ≡ leader → Won n n' → (e : Entry) → K e → e.term ≡ n'.term → ⊥
  unwritten l won e k same =
      let a = known.author e k in
      let (names, b, q) = new-Ballots l in
      let me : a.who ≡ i =
        same_votes members history' a.who i n'.term a.names names
          (subst (λ t. Ballots (VotedFor history' a.who) members t a.names) same
            (Ballots-grow a.who e.term a.names a.ballots))
          b a.enough q in
      let past : e.term ≤ n.term = subst (λ x. e.term ≤ (s.nodes x).term) me a.past in
      let done : n.term ≡ e.term → n.role ≡ candidate → ⊥ =
        subst (λ x. (s.nodes x).term ≡ e.term → (s.nodes x).role ≡ candidate → ⊥) me a.done in
      elim won.how [
        | inl (r, t) ↦ done (omega (arith, t, same)) r
        | inr lt ↦ absurd (omega (arith, lt, same, past))
      ]

  -- What a leader writes has not been written.
  clash : Fresh n n' → (f : Entry) → K f → f.term ≡ n'.term → f.index ≡ last_index n.log + 1 → ⊥
  clash fresh f k t x = elim fresh.before [
    | inl (r, same) ↦ absurd (omega (arith, x, known.top i f member r k (t ∙ same)))
    | inr won ↦ unwritten fresh.leads won f k t
  ]

  -- A fact about a node holds after the step if it did before and the step keeps it.
  at_any : (Q : ℕ → Node → Type 0) (j : ℕ) → Q j (s.nodes j) → (Q i n → Q i n') → Q j (s'.nodes j)
  at_any Q j q f = elim (Bool-cases (j == i)) [
    | inr other ↦ subst (Q j) (sym (unmoved j other)) q
    | inl me ↦
        let e : j ≡ i = ==→eq j i me in
        subst (λ x. Q x (s'.nodes x)) (sym e)
          (subst (Q i) (sym moved) (f (subst (λ x. Q x (s.nodes x)) e q)))
  ]

  unique' : (e f : Entry) → K' e → K' f → e.term ≡ f.term → e.index ≡ f.index → e ≡ f
  unique' e f (inl k) (inl k') t x = known.unique e f k k' t x
  unique' e f (inl k) (inr (fresh, q)) t x =
      absurd (clash fresh e k (t ∙ ap (λ g. g.term) q) (x ∙ ap (λ g. g.index) q))
  unique' e f (inr (fresh, q)) (inl k) t x =
      absurd (clash fresh f k (sym t ∙ ap (λ g. g.term) q) (sym x ∙ ap (λ g. g.index) q))
  unique' e f (inr (_, p)) (inr (_, q)) t x = p ∙ sym q

  -- Where an author stands.
  abbrev Place : Entry → ℕ → Node → Type 0
  Place e j x = (e.term ≤ x.term) × (x.term ≡ e.term → x.role ≡ candidate → ⊥)

  moved-Place : (e : Entry) → Place e i n → Place e i n'
  moved-Place e (past, done) = (
    omega (arith, past, later),
    λ t r. elim (move.stands r).how [
      | inl (c, same) ↦ done (sym same ∙ t) c
      | inr lt ↦ absurd (omega (arith, lt, t, past))
    ],
  )

  author' : (e : Entry) → K' e → Author members history' s' e
  author' e (inl k) =
      let a = known.author e k in
      let place = at_any (Place e) a.who (a.past, a.done) (moved-Place e) in
      record {
        who = a.who;
        member = a.member;
        names = a.names;
        ballots = Ballots-grow a.who e.term a.names a.ballots;
        enough = a.enough;
        past = place.0;
        done = place.1;
      }
  author' e (inr (fresh, q)) =
      let (names, b, enough) = new-Ballots fresh.leads in
      let led = fresh.leads in
      let place : Place (fresh_entry c n n') i (s'.nodes i) =
        subst (Place (fresh_entry c n n') i) (sym moved) (omega arith, λ t r. absurd (cc)) in
      subst (Author members history' s') (sym q) (record {
        who = i;
        member = member;
        names = names;
        ballots = b;
        enough = enough;
        past = place.0;
        done = place.1;
      })

  -- The entries of a term that a leader of it holds no further than its log.
  abbrev Topped : Entry → Node → Type 0
  Topped e x = x.role ≡ leader → e.term ≡ x.term → e.index ≤ last_index x.log

  top_new : (e : Entry) → K' e → Topped e n'
  top_new e (inl k) l t = elim (move.leads l) [
    | inl (r, same, grew) ↦ omega (arith, grew, known.top i e member r k (t ∙ same))
    | inr won ↦ absurd (unwritten l won e k t)
  ]
  top_new e (inr (fresh, q)) l t =
      let x : e.index ≡ last_index n.log + 1 = ap (λ g. g.index) q in omega (arith, x, fresh.ends)

  top_old :
      (e : Entry) (j : ℕ) → elem j members ≡ true → (j == i) ≡ false → K' e → Topped e (s'.nodes j)
  top_old e j mj other (inl k) l t =
      subst (Topped e) (sym (unmoved j other)) (λ r u. known.top j e mj r k u) l t
  top_old e j mj other (inr (fresh, q)) l t =
      let mine : n'.term ≡ (s'.nodes j).term = sym (ap (λ g. g.term) q) ∙ t in
      let same : i ≡ j =
        leaders_same inv' i j member mj (ap (λ x. x.role) moved ∙ fresh.leads) l
          (ap (λ x. x.term) moved ∙ mine) in
      absurd (ground (arith, same, other))

  top' :
      (j : ℕ) (e : Entry)
      → elem j members ≡ true
      → (s'.nodes j).role ≡ leader
      → K' e
      → e.term ≡ (s'.nodes j).term
      → e.index ≤ last_index (s'.nodes j).log
  top' j e mj l k t = elim (Bool-cases (j == i)) [
    | inr other ↦ top_old e j mj other k l t
    | inl me ↦ let at : s'.nodes j ≡ n' = rw me refl in subst (Topped e) (sym at) (top_new e k) l t
  ]

  pub after-Written : Written members history' K' s'
  after-Written = record {
    logs = λ j mj. elim (Bool-cases (j == i)) [
      | inr other ↦
          subst (λ x. All K' x.log.entries) (sym (unmoved j other))
            (All-map (s.nodes j).log.entries (λ e k. inl k) (known.logs j mj))
      | inl me ↦
          let at : s'.nodes j ≡ n' = rw me refl in
          subst (λ x. All K' x.log.entries) (sym at) move.held
    ];
    sent =
        All-append (Carries K') s.sent out
          (All-map s.sent (λ m. All-map (carried m.body) (λ e k. inl k)) known.sent) move.sends;
    unique = unique';
    author = author';
    top = top';
  }
