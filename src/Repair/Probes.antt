-- ===== src/Repair/Probes.antt =====
-- rsm/repair.py: what a probe asks and what it leaves behind.
use replicated_state_machine.Prelude.{
  ℕ, zero, suc, ◌+◌, ◌-◌, ◌≤◌, ◌<◌, ◌≡◌, ◌≢◌, refl, sym, ap, subst, ◌∙◌, min, Bool, true, false,
  Option, none, [], ◌∷◌, ltb, ◌==◌, Bool-cases, ◌⊎◌, inl, inr, arith, ==→eq, ==_ne,
}
use replicated_state_machine.Errors.{ok, ok-injective}
use replicated_state_machine.Log.{Log, last_index, first_index, term_at, matches, holds}
use replicated_state_machine.Log.Shape.{Placed}
use replicated_state_machine.Log.Access.{term_at-total}
use replicated_state_machine.Log.Agree.{Shared}
use replicated_state_machine.Rpc.{Message, Append, appended, Appended, new_message, term_check}
use replicated_state_machine.Node.State.{Node, become_follower, reset_election_timer}
use replicated_state_machine.Node.Follower.{
  hear_leader, conflict, run_start, on_append, accept_append, take_entries, follow_commit,
}
use replicated_state_machine.Node.Frame.{apply_committed-frame}
use replicated_state_machine.Node.Committing.Apply.{apply_committed-total}
use replicated_state_machine.Node.Step.{step, step_at, handle}
use replicated_state_machine.Repair.{probe, term_asked}

-- Both logs are at this index: before the first entry, or with entries of one term.
abbrev pub Agree : Log → Log → ℕ → Type 0
Agree l r i = (i ≡ 0) ⊎ ((term : ℕ) × Shared l r i term)

-- A whole log, from index 1 on.
pub record Whole (l : Log) : Type 0 where
  pub placed : Placed l
  pub from_start : l.snapshot_index ≡ 0

pub matches-Agree :
    (l r : Log) (i : ℕ)
    → Whole l
    → Whole r
    → i ≤ last_index l
    → (t : ℕ) × (b : Bool) × (term_asked l i ≡ ok t)
      × (matches r i t ≡ ok b)
      × ((b ≡ true) → Agree l r i)
      × (Agree l r i → b ≡ true)
unfolding matches holds
matches-Agree l r zero wl wr hi = (0, true, refl, refl, λ _. inl refl, λ _. refl)
matches-Agree l r (suc k) wl wr hi =
    let (t, q) = term_at-total l (suc k) wl.placed (omega (arith, wl.from_start)) hi in
    elim (Bool-cases (ltb (last_index r) (suc k))) [
      | inl short ↦ (
        t,
        false,
        q,
        rw short (ground (arith, wr.from_start)),
        λ e. cc e,
        λ a. elim a [ inl z ↦ absurd (omega (arith, z)) | inr (_, s) ↦ ground (arith, s.on_right) ],
      )
      | inr long ↦
          let (held, p) =
            term_at-total r (suc k) wr.placed (omega (arith, wr.from_start)) (ground arith) in
          (
            t,
            held == t,
            q,
            rw (long, p) (ground (arith, wr.from_start)),
            λ e. inr (
              t,
              record {
                on_left = ground (arith, wl.from_start);
                on_right = ground (arith, wr.from_start);
                left_term = q;
                right_term = p ∙ ap ok (==→eq held t e);
              },
            ),
            λ a. elim a [
              | inl z ↦ absurd (omega (arith, z))
              | inr (u, s) ↦
                  let one : t ≡ u = ok-injective (sym q ∙ s.left_term) in
                  let two : held ≡ u = ok-injective (sym p ∙ s.right_term) in ground arith
            ],
          )
    ]

-- What hearing a leader leaves alone.
pub record Heard (term : ℕ) (n n' : Node) : Type 0 where
  pub log : n'.log ≡ n.log
  pub name : n'.name ≡ n.name
  pub behind : n'.term ≤ term

become_follower-Heard :
    (n : Node) (term : ℕ) (found : Option ℕ)
    → n.term ≤ term
    → Heard term n (become_follower n term found)
unfolding become_follower reset_election_timer
become_follower-Heard n term found h = elim (Bool-cases (ltb n.term term)) [
  | inl e ↦ rw e (record { log = refl; name = refl; behind = omega arith })
  | inr e ↦ rw e (record { log = refl; name = refl; behind = omega arith })
]

hear_leader-Heard :
    (n : Node) (sender term : ℕ) → n.term ≤ term → Heard term n (hear_leader n sender term)
unfolding hear_leader reset_election_timer
hear_leader-Heard n sender term h = record {
  log = ground arith;
  name = ground arith;
  behind = ground arith;
}

-- What following the leader's commit index leaves alone, whatever it makes the follower apply.
follow_commit-Heard :
    (n : Node) (commit term : ℕ)
    → Placed n.log
    → n.term ≤ term
    → (m : Node) × (follow_commit n commit ≡ ok m) × Heard term n m
follow_commit-Heard n commit term h le = elim (Bool-cases (ltb n.commit_index commit)) [
  | inl e ↦
      let raised : Node = record n { commit_index = min commit (last_index n.log) } in
      let (m, q) = apply_committed-total raised h (omega arith) in
      let same = apply_committed-frame raised q in
      (
        m,
        rw e q,
        record {
          log = ap (λ (o : Node). o.log) same;
          name = ap (λ (o : Node). o.name) same;
          behind = omega (arith, ap (λ (o : Node). o.term) same);
        },
      )
  | inr e ↦ (n, rw e refl, record { log = refl; name = refl; behind = le })
]

-- A refusal names a term and the first index of the run of that term that ends at the index asked, or
-- the index after the end of the log and no term.
pub record RunStart (l : Log) (i t first : ℕ) : Type 0 where
  pub at_least : 1 ≤ first
  pub at_most : first ≤ i
  pub run : (j : ℕ) → first ≤ j → j ≤ i → term_at l j ≡ ok t

run_start-total :
    (l : Log) (t : ℕ) (base gap i : ℕ)
    → Whole l
    → 1 ≤ base
    → base + gap ≤ i
    → i ≤ last_index l
    → ((j : ℕ) → base + gap ≤ j → j ≤ i → term_at l j ≡ ok t)
    → (first : ℕ) × (run_start l t base gap ≡ ok first) × RunStart l i t first
unfolding run_start
run_start-total l t base zero i w lo mid hi run = (
  base,
  refl,
  record { at_least = lo; at_most = omega arith; run = λ j a b. run j (omega arith) b },
)
run_start-total l t base (suc gap) i w lo mid hi run =
    let (held, q) =
      term_at-total l (base + gap) w.placed (omega (arith, w.from_start)) (omega arith) in
    elim (Bool-cases (held == t)) [
      | inr differ ↦ (
        base + suc gap,
        rw (q, differ) refl,
        record { at_least = omega arith; at_most = mid; run = run },
      )
      | inl same ↦
          let (first, p, r) = run_start-total l t base gap i w lo (omega arith) hi (λ j a b.
            elim (Bool-cases (j == base + gap)) [
              | inl here ↦
                  subst (λ k. term_at l k ≡ ok t) (sym (==→eq j (base + gap) here))
                    (q ∙ ap ok (==→eq held t same))
              | inr above ↦ run j (ground arith) b
            ]) in
          (first, rw (q, same) p, r)
    ]

-- What a refused probe of index `i` brings back.
pub data Refusal (l : Log) (i : ℕ) (a : Appended) : Type 0 where
  too_short :
      last_index l < i → a.conflict_term ≡ 0 → a.conflict_index ≡ last_index l + 1 → Refusal l i a
  other_term :
      i ≤ last_index l
      → term_at l i ≡ ok a.conflict_term
      → RunStart l i a.conflict_term a.conflict_index
      → Refusal l i a

-- the answer of a refusal
abbrev refusal_of : ℕ → ℕ → ℕ → Appended
refusal_of term index read_id = record {
  success = false;
  match_index = 0;
  conflict_term = term;
  conflict_index = index;
  read_id = read_id;
}

conflict-Refusal :
    (n : Node) (sender : ℕ) (m : Append)
    → Whole n.log
    → 1 ≤ m.previous_index
    → (a : Appended) × (conflict n sender m
        ≡ ok (record { sender = n.name; recipient = sender; term = n.term; body = appended a }))
      × (a.success ≡ false)
      × Refusal n.log m.previous_index a
unfolding conflict first_index
conflict-Refusal n sender m w pos = elim (Bool-cases (ltb (last_index n.log) m.previous_index)) [
  | inl short ↦ (
    refusal_of 0 (last_index n.log + 1) m.read_id,
    rw short refl,
    refl,
    too_short (ground arith) refl refl,
  )
  | inr long ↦
      let (t, q) =
        term_at-total n.log m.previous_index w.placed (omega (arith, w.from_start))
          (ground arith) in
      let base : ℕ = min m.previous_index (n.log.snapshot_index + 1) in
      let (first, p, r) =
        run_start-total n.log t base (m.previous_index - base) m.previous_index w (omega arith)
          (omega arith) (ground arith)
          (λ j a b.
            let same : m.previous_index ≡ j = omega arith in
            subst (λ k. term_at n.log k ≡ ok t) same q) in
      (refusal_of t first m.read_id, rw (long, q, p) refl, refl, other_term (ground arith) q r)
]

-- A leader and a follower that a repair may be run on: two nodes with whole logs, the follower in no
-- later term than the leader, and the leader's term not zero.
pub record Ready (leader follower : Node) : Type 0 where
  pub apart : leader.name ≢ follower.name
  pub term_set : 1 ≤ leader.term
  pub behind : follower.term ≤ leader.term
  pub leader_log : Whole leader.log
  pub follower_log : Whole follower.log

-- What a probe of index `i` did: it left the follower's log alone, and its answer says whether the
-- logs agree there.
pub record Probed (leader follower : Node) (i : ℕ) (follower' : Node) (a : Appended) : Type 0 where
  pub same_log : follower'.log ≡ follower.log
  pub ready : Ready leader follower'
  pub agreed : a.success ≡ true → Agree leader.log follower.log i
  pub refused : a.success ≡ false → (¬ Agree leader.log follower.log i) × Refusal follower.log i a

-- the message of a probe
abbrev question : Node → ℕ → ℕ → Append
question l i t = record {
  previous_index = i;
  previous_term = t;
  entries = [];
  commit_index = l.commit_index;
  read_id = 0;
}

Heard-Ready : (l f f' : Node) → Ready l f → Heard l.term f f' → Ready l f'
Heard-Ready l f f' r h = record {
  apart = rw h.name r.apart;
  term_set = r.term_set;
  behind = h.behind;
  leader_log = r.leader_log;
  follower_log = rw h.log r.follower_log;
}

-- the answer of a match
abbrev granted : ℕ → Appended
granted i = record {
  success = true;
  match_index = i;
  conflict_term = 0;
  conflict_index = 0;
  read_id = 0;
}

not_first : (log : Log) (i t : ℕ) → matches log i t ≡ ok false → 1 ≤ i
unfolding matches
not_first log zero t h = cc
not_first log (suc k) t h = omega arith

on_append-Probed :
    (l f : Node) (i t : ℕ) (b : Bool)
    → Ready l f
    → matches f.log i t ≡ ok b
    → ((b ≡ true) → Agree l.log f.log i)
    → (Agree l.log f.log i → b ≡ true)
    → (f' : Node) × (a : Appended) × (message : Message) × (on_append f l.name l.term
          (question l i t)
        ≡ ok (f', message ∷ []))
      × (message.body ≡ appended a)
      × Probed l f i f' a
unfolding on_append accept_append take_entries
on_append-Probed l f i t b r q sure back =
    let heard = hear_leader f l.name l.term in
    let h = hear_leader-Heard f l.name l.term r.behind in
    let asked : matches heard.log i t ≡ ok b = rw h.log q in
    elim (Bool-cases b) [
      | inl e ↦
          let (final, followed, g) =
            follow_commit-Heard heard l.commit_index l.term (rw h.log r.follower_log.placed)
              h.behind in
          (
            final,
            granted i,
            record {
              sender = final.name;
              recipient = l.name;
              term = final.term;
              body = appended (granted i);
            },
            rw (asked, e, followed) refl,
            refl,
            record {
              same_log = g.log ∙ h.log;
              ready = Heard-Ready l heard final (Heard-Ready l f heard r h) g;
              agreed = λ _. sure e;
              refused = λ c. cc c;
            },
          )
      | inr e ↦
          let none_there : ¬ Agree l.log f.log i = λ a. cc (back a, e) in
          let (a, p, failed, refusal) =
            conflict-Refusal heard l.name (question l i t) (rw h.log r.follower_log)
              (not_first f.log i t (q ∙ ap ok e)) in
          (
            heard,
            a,
            record {
              sender = heard.name;
              recipient = l.name;
              term = heard.term;
              body = appended a;
            },
            rw (asked, e, p) refl,
            refl,
            record {
              same_log = h.log;
              ready = Heard-Ready l f heard r h;
              agreed = λ c. cc (c, failed);
              refused = λ _. (none_there, rw h.log at refusal);
            },
          )
    ]

pub probe-Probed :
    (l f : Node) (i : ℕ)
    → Ready l f
    → i ≤ last_index l.log
    → (f' : Node) × (a : Appended) × (probe l f i ≡ ok (f', a)) × Probed l f i f' a
unfolding probe step step_at handle term_check new_message
probe-Probed l f i r hi =
    let (t, b, asked, matched, sure, back) =
      matches-Agree l.log f.log i r.leader_log r.follower_log hi in
    let early : ltb l.term 1 ≡ false = ground (arith, r.term_set) in
    let other : (l.name == f.name) ≡ false = ==_ne l.name f.name r.apart in
    let fresh : ltb l.term f.term ≡ false = ground (arith, r.behind) in
    elim (Bool-cases (ltb f.term l.term)) [
      | inl ahead ↦
          let up = become_follower f l.term none in
          let h = become_follower-Heard f l.term none r.behind in
          let (f', a, m, ran, body, p) =
            on_append-Probed l up i t b (Heard-Ready l f up r h) (rw h.log matched) (rw h.log sure)
              (rw h.log back) in
          (
            f',
            a,
            rw (asked, early, other, fresh, ahead, ran, body) refl,
            record {
              same_log = p.same_log ∙ h.log;
              ready = p.ready;
              agreed = rw h.log at p.agreed;
              refused = rw h.log at p.refused;
            },
          )
      | inr level ↦
          let (f', a, m, ran, body, p) = on_append-Probed l f i t b r matched sure back in
          (f', a, rw (asked, early, other, fresh, level, ran, body) refl, p)
    ]
