-- ===== src/System/Matching.antt =====
-- Entries of one index and term are one entry, in every system that can be reached.
use replicated_state_machine.Prelude.{
  ℕ, ◌≡◌, refl, inl, inr, Bool, true, none, Option, List, [], elem, All, All-In, In, arith,
}
use replicated_state_machine.Errors.{ok}
use replicated_state_machine.Log.{Entry, Command, new_log}
use replicated_state_machine.Node.State.{Node, Generator, new_node}
use replicated_state_machine.Node.Election.Steps.{step-Turn}
use replicated_state_machine.Node.Election.Ticks.{tick-Turn}
use replicated_state_machine.Node.Entries.Moves.{Carries, carried, Eases-follower, Move-Eases}
use replicated_state_machine.Node.Entries.Offices.{propose-Wrote, Wrote-Move}
use replicated_state_machine.Node.Entries.Turns.{tick-Move}
use replicated_state_machine.Node.Entries.Steps.{step-Move}
use replicated_state_machine.Cluster.Restart.{restart_node}
use replicated_state_machine.System.{
  System, Step, deliver, pass, write, restart, Starts, Reach, start, later,
}
use replicated_state_machine.System.Invariant.{History, Inv}
use replicated_state_machine.System.Kept.{All-map, Step-Inv, Starts-Inv, restart_node-frame}
use replicated_state_machine.System.Entries.{Written, Extended, after-Written}

restart_node-log :
    (old : Node) (name now : ℕ) (members : List ℕ) (random : Generator) (pre_vote : Bool) {n : Node}
    → restart_node old name members random pre_vote now ≡ ok n
    → n.log ≡ old.log
unfolding restart_node new_node new_log
restart_node-log old name now members random pre_vote q = ground arith

-- What the steps of a system keep.
pub record Sound (members : List ℕ) (s : System) : Type 1 where
  pub history : History
  pub K : Entry → Type 0
  pub inv : Inv members history s
  pub written : Written members history K s

module _ (members : List ℕ) (s : System) (sound : Sound members s) where
  abbrev K : Entry → Type 0
  K = sound.K

  -- The entries of a node, as entries that have been written by the end of a step.
  lifted :
      (c : Option Command) (i : ℕ) (n' : Node)
      → elem i members ≡ true
      → All (Extended K c (s.nodes i) n') (s.nodes i).log.entries
  lifted c i n' e = All-map (s.nodes i).log.entries (λ x k. inl k) (sound.written.logs i e)

  Step-Sound : {t : System} → Step members s t → Sound members t
  Step-Sound (deliver m {o} sent e q) =
      let i = m.recipient in
      let (history', inv', grows) =
        Step-Inv members sound.history s sound.inv (deliver m {o = o} sent e q) in
      let K' = Extended K none (s.nodes i) o.0 in
      let came : Carries K' m =
        All-map (carried m.body) (λ x k. inl k)
          (All-In (Carries K) s.sent sound.written.sent sent) in
      record {
        history = history';
        K = K';
        inv = inv';
        written =
            after-Written members sound.history history' s i o.0 o.1 K none e inv' grows
              (step-Turn (s.nodes i) m q).term_grows sound.written
              (step-Move K' (s.nodes i) (lifted none i o.0 e) m came (λ f. inr (f, refl)) q);
      }
  Step-Sound (pass i now {o} e q) =
      let (history', inv', grows) =
        Step-Inv members sound.history s sound.inv (pass i now {o = o} e q) in
      let K' = Extended K none (s.nodes i) o.0 in
      record {
        history = history';
        K = K';
        inv = inv';
        written =
            after-Written members sound.history history' s i o.0 o.1 K none e inv' grows
              (tick-Turn (s.nodes i) now q).term_grows sound.written
              (tick-Move K' (s.nodes i) (lifted none i o.0 e) now (λ f. inr (f, refl)) q);
      }
  Step-Sound (write i command {n} {index} {out} e q r) =
      let (history', inv', grows) =
        Step-Inv members sound.history s sound.inv
          (write i command {n = n} {index = index} {out = out} e q r) in
      let K' = Extended K command (s.nodes i) n in
      let (w, led) = propose-Wrote (s.nodes i) command q in
      record {
        history = history';
        K = K';
        inv = inv';
        written =
            after-Written members sound.history history' s i n out K command e inv' grows
              (omega (arith, w.term)) sound.written
              (Wrote-Move K' command (s.nodes i) (s.nodes i) n (lifted command i n e) refl w
                (inl (led, w.term)) (λ f. inr (f, refl)) r);
      }
  Step-Sound (restart i now random pre_vote {n} e q) =
      let (history', inv', grows) =
        Step-Inv members sound.history s sound.inv (restart i now random pre_vote {n = n} e q) in
      let K' = Extended K none (s.nodes i) n in
      let (_, _, t, _, role) = restart_node-frame (s.nodes i) i now members random pre_vote q in
      let log = restart_node-log (s.nodes i) i now members random pre_vote q in
      record {
        history = history';
        K = K';
        inv = inv';
        written =
            after-Written members sound.history history' s i n [] K none e inv' grows
              (omega (arith, t)) sound.written
              (Move-Eases K' (lifted none i n e) tt (Eases-follower log (omega (arith, t)) role));
      }

new_node-log :
    (name : ℕ) (members : List ℕ) (random : Generator) (pre_vote any_term : Bool) {n : Node}
    → new_node name members random pre_vote any_term ≡ ok n
    → n.log.entries ≡ []
unfolding new_node
new_node-log name members random pre_vote any_term q = ground arith

Starts-Sound : (members : List ℕ) (s : System) → Starts members s → Sound members s
Starts-Sound members s h = record {
  history = λ _ _. none;
  K = λ e. ⊥;
  inv = Starts-Inv members s h;
  written = record {
    logs = λ i e.
        let (random, pre_vote, any_term, q) = h.made i e in
        rw (new_node-log i members random pre_vote any_term q) tt;
    sent = rw h.silent tt;
    unique = λ e f k. elim k [ ];
    author = λ e k. elim k [ ];
    top = λ i e m l k. elim k [ ];
  };
}

pub Reach-Sound : {members : List ℕ} {s : System} → Reach members s → Sound members s
Reach-Sound {members} {s} (start h) = Starts-Sound members s h
Reach-Sound {members} (later {s} r st) = Step-Sound members s (Reach-Sound r) st

-- In every system that can be reached from fresh nodes, by any deliveries, clocks, writes, crashes
-- and restarts, two entries of any two logs that have one term and one index are one entry, with
-- one command.
pub log_matching :
    {members : List ℕ} {s : System}
    → Reach members s
    → (i j : ℕ) (e f : Entry) → elem i members ≡ true
    → elem j members ≡ true
    → In e (s.nodes i).log.entries
    → In f (s.nodes j).log.entries
    → e.term ≡ f.term
    → e.index ≡ f.index
    → e ≡ f
log_matching {members} {s} r i j e f mi mj ie jf t x =
    let sound = Reach-Sound r in
    let known = sound.written in
    known.unique e f (All-In sound.K (s.nodes i).log.entries (known.logs i mi) ie)
      (All-In sound.K (s.nodes j).log.entries (known.logs j mj) jf) t x
