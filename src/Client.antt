-- ===== src/Client.antt =====
-- rsm/client.py: `Request` and `Sessions`.
pub mod Once
use replicated_state_machine.Prelude.{
  ℕ, ◌+◌, ◌-◌, max, Bool, true, false, not, ◌&&◌, Option, none, some, List, [], ◌∷◌, length, Dict,
  lookup, insert, ltb, ◌==◌, if◌then◌else◌,
}
use replicated_state_machine.Prelude
use replicated_state_machine.Errors.{Result, ok, err, ◌>>=◌, config_error}
use replicated_state_machine.Machine.{Command, Object, Machine, Python, apply}

-- Names of clients are texts, and the empty one is 0.
pub record Request : Type 0 where
  pub client : ℕ
  pub sequence : ℕ
  pub command : Command

-- `Request(...)` with its `__post_init__`
unfoldable pub new_request : ℕ → ℕ → Command → Result Request
new_request client sequence command =
    if client == 0
    then err config_error
    else if ltb sequence 1
    then err config_error
    else ok (record { client = client; sequence = sequence; command = command })

abbrev pub Key : Type 0
Key = ℕ × ℕ

abbrev pub key : Request → Key
key r = (r.client, r.sequence)

abbrev pub same_key : Key → Key → Bool
same_key (a, i) (b, j) = (a == b) && (i == j)

-- A dict whose keys are pairs.
abbrev pub Answers : Type 0
Answers = List (Key × Object)

abbrev pub answer : Key → Answers → Option Object
answer k [] = none
answer k ((own, held) ∷ rest) = if same_key own k then some held else answer k rest

abbrev pub remember : Key → Object → Answers → Answers
remember k out [] = (k, out) ∷ []
remember k out ((own, held) ∷ rest) =
    if same_key own k then (own, out) ∷ rest else (own, held) ∷ remember k out rest

pub record Sessions : Type 0 where
  pub last_seen : Dict ℕ
  pub answers : Answers
  pub applied : ℕ
  pub deduplicated : ℕ

abbrev pub no_sessions : Sessions
no_sessions = record { last_seen = []; answers = []; applied = 0; deduplicated = 0 }

unfoldable pub seen : Sessions → Request → Bool
seen s r = elim (answer (key r) s.answers) [ none ↦ false | some _ ↦ true ]

-- what `run` keeps of an answer
abbrev pub note : Sessions → Request → Object → Sessions
note s r out = record s {
  answers = remember (key r) out s.answers;
  last_seen = insert r.client (max (Prelude.get r.client 0 s.last_seen) r.sequence) s.last_seen;
  applied = s.applied + 1;
}

-- What `run` leaves: its result, the sessions and the machine.
abbrev pub Outcome : Type 0
Outcome = Object × (Sessions × Machine)

abbrev pub run_fresh : Python → Sessions → Request → Machine → Result Outcome
run_fresh python s r m = do (out, m') ← apply python m r.command; ok (out, (note s r out, m'))

abbrev pub run_found : Python → Sessions → Request → Machine → Option Object → Result Outcome
run_found python s r m none = run_fresh python s r m
run_found python s r m (some out) = ok (out, (record s { deduplicated = s.deduplicated + 1 }, m))

unfoldable pub run : Python → Sessions → Request → Machine → Result Outcome
run python s r m = run_found python s r m (answer (key r) s.answers)

-- the answers that are not of `client`
abbrev pub without : ℕ → Answers → Answers
without client [] = []
without client ((own, held) ∷ rest) =
    let others = without client rest in if own.0 == client then others else (own, held) ∷ others

abbrev pub drop_key : ℕ → Dict ℕ → Dict ℕ
drop_key client [] = []
drop_key client ((own, held) ∷ rest) =
    let others = drop_key client rest in if own == client then rest else (own, held) ∷ others

unfoldable pub forget : Sessions → ℕ → Sessions × ℕ
forget s client =
    let kept = without client s.answers in
    (
      record s { answers = kept; last_seen = drop_key client s.last_seen },
      length s.answers - length kept,
    )

abbrev pub remembered : Sessions → ℕ
remembered s = length s.answers
