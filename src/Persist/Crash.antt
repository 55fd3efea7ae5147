-- ===== src/Persist/Crash.antt =====
-- A crash between two votes, and what a disk brings back (rsm/persist.py).
use replicated_state_machine.Prelude.{
  ℕ, ◌<◌, ◌≡◌, ◌≢◌, refl, sym, ap, subst, ◌∙◌, true, false, some, List, [], ◌∷◌, In, if◌then◌else◌,
  arith,
}
use replicated_state_machine.Errors.{ok, err, config_error, >>=-inv, ok-injective, some-injective}
use replicated_state_machine.Log.{Entry, new_log, in_place}
use replicated_state_machine.Log.Shape.{IsLog, Placed, InPlace, new_log-total}
use replicated_state_machine.Rpc.{Message}
use replicated_state_machine.Node.State.{Node, Generator, new_node}
use replicated_state_machine.Node.Roles.{Output}
use replicated_state_machine.Node.Step.{step}
use replicated_state_machine.Node.Election.Turn.{grants}
use replicated_state_machine.Node.Election.Votes.{vote_once, vote_recorded}
use replicated_state_machine.Persist.{term, vote, log, every_field, keeps, Disk, write, restore}

restore-parts :
    (d : Disk) (name : ℕ) (members : List ℕ) (random : Generator) {back : Node}
    → keeps term d.durable ≡ true
    → keeps vote d.durable ≡ true
    → restore d name members random ≡ ok back
    → (back.term ≡ d.term) × (back.voted_for ≡ d.voted_for)
unfolding restore
restore-parts d name members random t v q =
    let (made, _, q₁) = >>=-inv (new_node name members random false false) _ q in
    let (kept, _, q₂) =
      >>=-inv (new_log (if keeps log d.durable then d.entries else []) 0 0) _ q₁ in
    let same = ok-injective q₂ in
    (sym (ap (λ n. n.term) same) ∙ rw t refl, sym (ap (λ n. n.voted_for) same) ∙ rw v refl)

out_of_place : (s : ℕ) (es : List Entry) → InPlace s es → es ≢ [] → 0 < s → in_place 1 es ≡ false
out_of_place s [] h n k = absurd (n refl)
out_of_place s (e ∷ es) h n k = ground (arith, h.0)

-- Two votes that a node grants in one term, the second after a crash and a restart from a disk
-- that keeps the term and the vote and was written after the first, go to one candidate.
pub one_vote_over_crash :
    (n back : Node) (d : Disk) (m m' reply reply' : Message) (name : ℕ) (members : List ℕ)
    (random : Generator) {o o' : Output}
    → step n m ≡ ok o
    → In reply o.1
    → grants reply.body ≡ true
    → keeps term d.durable ≡ true
    → keeps vote d.durable ≡ true
    → restore (write d o.0) name members random ≡ ok back
    → step back m' ≡ ok o'
    → In reply' o'.1
    → grants reply'.body ≡ true
    → reply'.term ≡ reply.term
    → reply'.recipient ≡ reply.recipient
unfolding write
one_vote_over_crash n back d m m' reply reply' name members random {o} {o'} q sent g t v r q' sent'
      g' same =
    let (_, first, given) = vote_recorded n m reply q sent g in
    let (_, second, given') = vote_recorded back m' reply' q' sent' g' in
    let (now, held) = restore-parts (write d o.0) name members random t v r in
    let term_back : back.term ≡ o.0.term = now ∙ rw t refl in
    let vote_back : back.voted_for ≡ some reply.recipient = held ∙ rw v given in
    let kept =
      vote_once back m' reply.recipient q' (sym second ∙ same ∙ first ∙ sym term_back) vote_back in
    some-injective (sym given' ∙ kept)

-- What `restore` gives back of a node whose log starts at its first entry, from a disk that keeps
-- every field.
pub restore-write :
    (n fresh : Node) (d : Disk) (random : Generator)
    → d.durable ≡ every_field
    → IsLog n.log
    → n.log.snapshot_index ≡ 0
    → n.log.snapshot_term ≡ 0
    → new_node n.name n.members random false false ≡ ok fresh
    → restore (write d n) n.name n.members random
      ≡ ok (record fresh { term = n.term; voted_for = n.voted_for; log = n.log })
unfolding restore write
restore-write n fresh d random every h s t made =
    let whole : new_log n.log.entries 0 0 ≡ ok n.log =
      subst (λ k. new_log n.log.entries k 0 ≡ ok n.log) s
        (subst (λ k. new_log n.log.entries n.log.snapshot_index k ≡ ok n.log) t
          (new_log-total n.log h)) in
    rw (every, made, whole) refl

-- A node whose log was compacted cannot come back: the constructor of the log refuses the entries
-- that do not start at one.
pub restore_compacted_raises :
    (n fresh : Node) (d : Disk) (random : Generator)
    → keeps log d.durable ≡ true
    → Placed n.log
    → n.log.entries ≢ []
    → 0 < n.log.snapshot_index
    → new_node n.name n.members random false false ≡ ok fresh
    → restore (write d n) n.name n.members random ≡ err config_error
unfolding restore write new_log
restore_compacted_raises n fresh d random k h some_entry s made =
    rw (k, made, out_of_place n.log.snapshot_index n.log.entries h some_entry s) refl
