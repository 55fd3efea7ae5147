-- ===== src/Client/Once.antt =====
-- rsm/client.py: a request is applied once, and its repeats are answered as it was.
use replicated_state_machine.Prelude.{
  ◌+◌, ◌≡◌, refl, sym, ap, ◌∙◌, subst, Bool, true, false, ◌||◌, Option, none, some, List, [], ◌∷◌,
  if◌then◌else◌, arith, Bool-cases, Option-cases, inl, inr,
}
use replicated_state_machine.Errors.{Result-cases, Result, ok, err, ◌>>=◌, >>=-inv, ok-injective}
use replicated_state_machine.Machine.{Command, Object, Machine, Python, apply, apply_all}
use replicated_state_machine.Client.{
  Request, Key, key, same_key, Answers, answer, remember, Sessions, note, run, run_found,
  no_sessions,
}

-- Requests one after the other, and what is left.
unfoldable pub run_all : Python → Sessions → List Request → Machine → Result (Sessions × Machine)
run_all python s [] m = ok (s, m)
run_all python s (r ∷ rs) m = do (out, (s', m')) ← run python s r m; run_all python s' rs m'

answer-remember :
    (k j : Key) (out : Object) (held : Answers)
    → answer j (remember k out held) ≡ (if same_key k j then some out else answer j held)
answer-remember k j out [] = refl
answer-remember (a, i) (b, j) out (((c, n), old) ∷ held) =
    let rest = answer-remember (a, i) (b, j) out held in ground (arith, rest)

same_key_refl : (k : Key) → same_key k k ≡ true
same_key_refl (a, i) = ground arith

same_key-eq : (k j : Key) → same_key k j ≡ true → k ≡ j
same_key-eq (a, i) (b, j) h = ground arith

found-keeps :
    (python : Python) (s : Sessions) (r : Request) (m : Machine) (k : Key) (out : Object)
    (found : Option Object) {got : Object} {s' : Sessions} {m' : Machine}
    → answer (key r) s.answers ≡ found
    → answer k s.answers ≡ some out
    → run_found python s r m found ≡ ok (got, (s', m'))
    → answer k s'.answers ≡ some out
found-keeps python s r m k out (some old) {s' = s'} e h q =
    let same = ap (λ o. o.1.0.answers) (ok-injective q) in subst (λ a. answer k a ≡ some out) same h
found-keeps python s r m k out none {s' = s'} e h q =
    let ((got, m₁), _, q₁) = >>=-inv (apply python m r.command) _ q in
    let same = ap (λ o. o.1.0.answers) (ok-injective q₁) in
    let other : same_key (key r) k ≡ false = elim (Bool-cases (same_key (key r) k)) [
      | inl eq ↦ let e' = ap (λ j. answer j s.answers) (same_key-eq (key r) k eq) in absurd (cc)
      | inr ne ↦ ne
    ] in
    subst (λ a. answer k a ≡ some out) same (answer-remember (key r) k got s.answers ∙ rw other h)

-- An answer that is there stays, whatever request is run.
run-keeps :
    (python : Python) (s : Sessions) (r : Request) (m : Machine) (k : Key) (out : Object)
    {got : Object} {s' : Sessions} {m' : Machine}
    → answer k s.answers ≡ some out
    → run python s r m ≡ ok (got, (s', m'))
    → answer k s'.answers ≡ some out
unfolding run
run-keeps python s r m k out h q =
    found-keeps python s r m k out (answer (key r) s.answers) refl h q

run_all-keeps :
    (python : Python) (rs : List Request) (s : Sessions) (m : Machine) (k : Key) (out : Object)
    {s' : Sessions} {m' : Machine}
    → answer k s.answers ≡ some out
    → run_all python s rs m ≡ ok (s', m')
    → answer k s'.answers ≡ some out
unfolding run_all
run_all-keeps python [] s m k out h q =
    subst (λ o. answer k o.0.answers ≡ some out) (ok-injective q) h
run_all-keeps python (r ∷ rs) s m k out h q =
    let ((got, (s₁, m₁)), q₁, q₂) = >>=-inv (run python s r m) _ q in
    run_all-keeps python rs s₁ m₁ k out (run-keeps python s r m k out h q₁) q₂

found-answers :
    (python : Python) (s : Sessions) (r : Request) (m : Machine) (found : Option Object)
    {got : Object} {s' : Sessions} {m' : Machine}
    → answer (key r) s.answers ≡ found
    → run_found python s r m found ≡ ok (got, (s', m'))
    → answer (key r) s'.answers ≡ some got
found-answers python s r m (some old) e q =
    subst (λ o. answer (key r) o.1.0.answers ≡ some o.0) (ok-injective q) e
found-answers python s r m none e q =
    let ((got, m₁), _, q₁) = >>=-inv (apply python m r.command) _ q in
    subst (λ o. answer (key r) o.1.0.answers ≡ some o.0) (ok-injective q₁)
      (answer-remember (key r) (key r) got s.answers ∙ rw (same_key_refl (key r)) refl)

-- A request that was run before, whatever ran since, is answered as it was then, and leaves the
-- machine alone.
pub repeat_answered :
    (python : Python) (s s₁ s₂ : Sessions) (r : Request) (rs : List Request) (m m₁ m₂ : Machine)
    (out : Object)
    → run python s r m ≡ ok (out, (s₁, m₁))
    → run_all python s₁ rs m₁ ≡ ok (s₂, m₂)
    → run python s₂ r m₂ ≡ ok (out, (record s₂ { deduplicated = s₂.deduplicated + 1 }, m₂))
unfolding run
repeat_answered python s s₁ s₂ r rs m m₁ m₂ out q q' =
    let first = found-answers python s r m (answer (key r) s.answers) refl q in
    rw (run_all-keeps python rs s₁ m₁ (key r) out first q') refl

abbrev pub member : Key → List Key → Bool
member k [] = false
member k (j ∷ keys) = same_key j k || member k keys

-- The commands of requests whose keys are not in `done`, the first of each key only.
abbrev pub firsts : List Key → List Request → List Command
firsts done [] = []
firsts done (r ∷ rs) =
    let skipped = firsts done rs in
    let taken = firsts (key r ∷ done) rs in
    if member (key r) done then skipped else r.command ∷ taken

abbrev present : Option Object → Bool
present none = false
present (some _) = true

-- the machine that is left
abbrev pub machine_of : Result (Sessions × Machine) → Result Machine
machine_of (err e) = err e
machine_of (ok left) = ok left.1

abbrev Tracks : Sessions → List Key → Type 0
Tracks s done = (k : Key) → present (answer k s.answers) ≡ member k done

note-Tracks :
    (s : Sessions) (r : Request) (out : Object) (done : List Key)
    → Tracks s done
    → Tracks (note s r out) (key r ∷ done)
note-Tracks s r out done h k = elim (Bool-cases (same_key (key r) k)) [
  | inl e ↦ rw (answer-remember (key r) k out s.answers, e) refl
  | inr e ↦ rw (answer-remember (key r) k out s.answers, e) (h k)
]

run_all-firsts :
    (python : Python) (rs : List Request) (s : Sessions) (m : Machine) (done : List Key)
    → Tracks s done
    → machine_of (run_all python s rs m) ≡ apply_all python m (firsts done rs)
unfolding run_all run apply_all
run_all-firsts python [] s m done h = refl
run_all-firsts python (r ∷ rs) s m done h = elim (Option-cases (answer (key r) s.answers)) [
  | inr (out, e) ↦
      let known : member (key r) done ≡ true = sym (h (key r)) ∙ rw e refl in
      rw (e, known)
        (run_all-firsts python rs (record s { deduplicated = s.deduplicated + 1 }) m done h)
  | inl e ↦
      let unknown : member (key r) done ≡ false = sym (h (key r)) ∙ rw e refl in
      elim (Result-cases (apply python m r.command)) [
        | inl (x, q) ↦ rw (e, unknown, q) refl
        | inr ((out, m'), q) ↦
            rw (e, unknown, q)
              (run_all-firsts python rs (note s r out) m' (key r ∷ done)
                (note-Tracks s r out done h))
      ]
]

-- Whatever requests are run, repeats among them, the machine ends as if each command had been applied
-- once, in the order of the first attempts, and a raise comes where it would come then.
pub applied_once :
    (python : Python) (rs : List Request) (m : Machine)
    → machine_of (run_all python no_sessions rs m) ≡ apply_all python m (firsts [] rs)
applied_once python rs m = run_all-firsts python rs no_sessions m [] (λ k. refl)
