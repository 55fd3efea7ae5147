-- ===== src/Wire/Frames.antt =====
-- rsm/wire.py: `encode`, `decode`, `decode_one`, `frame_all` and `read_all`.
use replicated_state_machine.Prelude.{
  ℕ, zero, suc, ◌+◌, ℤ, pos, negsuc, Bool, false, not, Option, none, some, List, [], ◌∷◌, ◌++◌,
  length, drop, ltb, ◌==◌, if◌then◌else◌,
}
use replicated_state_machine.Errors.{
  Result, ok, err, ◌>>=◌, config_error, network_error, struct_error,
}
use replicated_state_machine.Rpc.{
  Message, Body, request_vote, vote, append, appended, install_snapshot, installed,
}
use replicated_state_machine.Wire.Fields.{
  Text, Kind, bool, int, entries, names, dict, Value, flag, integer, log_entries, texts, pairs,
  big_endian, slice, word_at, put_int, get_int, put_str, get_str, put_value, get_value,
}

abbrev pub magic : ℕ
magic = 21075

abbrev pub version : ℕ
version = 1

abbrev pub header_size : ℕ
header_size = 7

abbrev pub max_body : ℕ
max_body = 1048576

-- A message as `fields` shows it: the three fields that every class has, and those of its own.
-- `code` is the place of its kind in `KINDS`.
pub record Frame : Type 0 where
  pub code : ℕ
  pub sender : ℕ
  pub recipient : ℕ
  pub term : ℤ
  pub values : List Value

abbrev pub code_of : Body → ℕ
code_of (request_vote _) = 0
code_of (vote _) = 1
code_of (append _) = 2
code_of (appended _) = 3
code_of (install_snapshot _) = 4
code_of (installed _) = 5

-- the fields of each class, in the order of their declaration
abbrev pub values_of : Body → List Value
values_of (request_vote m) =
    integer (pos m.last_index) ∷ integer (pos m.last_term) ∷ flag m.pre_vote ∷ []
values_of (vote m) = flag m.granted ∷ flag m.pre_vote ∷ []
values_of (append m) =
    integer (pos m.previous_index)
    ∷ integer (pos m.previous_term)
    ∷ log_entries m.entries
    ∷ integer (pos m.commit_index)
    ∷ integer (pos m.read_id)
    ∷ []
values_of (appended m) =
    flag m.success
    ∷ integer (pos m.match_index)
    ∷ integer (pos m.conflict_term)
    ∷ integer (pos m.conflict_index)
    ∷ integer (pos m.read_id)
    ∷ []
values_of (install_snapshot m) =
    integer (pos m.last_index) ∷ integer (pos m.last_term) ∷ pairs m.state ∷ texts m.members ∷ []
values_of (installed m) = integer (pos m.last_index) ∷ []

abbrev pub frame_of : Message → Frame
frame_of m = record {
  code = code_of m.body;
  sender = m.sender;
  recipient = m.recipient;
  term = pos m.term;
  values = values_of m.body;
}

-- `_CODE_KINDS` and `_CLASSES`: the annotations of the fields of each class
abbrev pub kinds_of : ℕ → Option (List Kind)
kinds_of zero = some (int ∷ int ∷ bool ∷ [])
kinds_of (suc zero) = some (bool ∷ bool ∷ [])
kinds_of (suc (suc zero)) = some (int ∷ int ∷ entries ∷ int ∷ int ∷ [])
kinds_of (suc (suc (suc zero))) = some (bool ∷ int ∷ int ∷ int ∷ int ∷ [])
kinds_of (suc (suc (suc (suc zero)))) = some (int ∷ int ∷ dict ∷ names ∷ [])
kinds_of (suc (suc (suc (suc (suc zero))))) = some (int ∷ [])
kinds_of (suc (suc (suc (suc (suc (suc _)))))) = none

-- `made(**values)`, with the checks of `Message.__post_init__`
abbrev pub is_term : ℤ → Bool
is_term (pos n) = not (ltb n 1)
is_term (negsuc n) = false

unfoldable pub make : Frame → Result Frame
make f =
    if not (is_term f.term)
    then err config_error
    else if f.sender == f.recipient
    then err config_error
    else ok f

module _ (t : Text) where
  -- the loop of `encode` over the fields of the class
  unfoldable pub put_values : List Value → Result (List ℕ)
  put_values [] = ok []
  put_values (one ∷ rest) = do a ← put_value t one; b ← put_values rest; ok (a ++ b)

  unfoldable pub put_frame : Frame → Result (List ℕ)
  put_frame f = do
    sender ← put_str t f.sender
    recipient ← put_str t f.recipient
    term ← put_int f.term
    values ← put_values f.values
    ok ((f.code ∷ []) ++ (sender ++ (recipient ++ (term ++ values))))

  abbrev pub seal : List ℕ → Result (List ℕ)
  seal body =
      if ltb max_body (length body)
      then err config_error
      else ok (big_endian 2 magic ++ ((version ∷ []) ++ (big_endian 4 (length body) ++ body)))

  unfoldable pub encode : Message → Result (List ℕ)
  encode m = do body ← put_frame (frame_of m); seal body

  -- the loop of `decode_one` over the fields of the class
  unfoldable pub get_values : List Kind → List ℕ → ℕ → Result (List Value × ℕ)
  get_values [] raw at = ok ([], at)
  get_values (kind ∷ kinds) raw at = do
    (one, at₁) ← get_value t raw at kind
    (rest, at₂) ← get_values kinds raw at₁
    ok (one ∷ rest, at₂)

  abbrev pub get_fields : ℕ → List Kind → List ℕ → Result Frame
  get_fields code kinds body = do
    (sender, at₁) ← get_str t body 1
    (recipient, at₂) ← get_str t body at₁
    (term, at₃) ← get_int body at₂
    (values, at₄) ← get_values kinds body at₃
    if not (at₄ == length body)
        then err network_error
        else make (record {
          code = code;
          sender = sender;
          recipient = recipient;
          term = term;
          values = values;
        })

  -- the test of the code, and what follows it
  abbrev pub read_fields : ℕ → Option (List Kind) → List ℕ → Result Frame
  read_fields code none body = err network_error
  read_fields code (some kinds) body = get_fields code kinds body

  -- `decode_one` behind the checks of the header
  unfoldable pub get_frame : List ℕ → Result Frame
  get_frame body =
      if ltb (length body) 1
      then err struct_error
      else read_fields (word_at body 0 1) (kinds_of (word_at body 0 1)) body

  unfoldable pub decode_one : List ℕ → Result (Frame × ℕ)
  decode_one raw =
      if ltb (length raw) header_size
      then err network_error
      else if not (word_at raw 0 2 == magic)
      then err network_error
      else if not (word_at raw 2 1 == version)
      then err network_error
      else let size = word_at raw 3 4 in
        if ltb max_body size
        then err network_error
        else if ltb (length raw) (header_size + size)
        then err network_error
        else do f ← get_frame (slice raw header_size size); ok (f, header_size + size)

  unfoldable pub decode : List ℕ → Result Frame
  decode raw = do
    (f, used) ← decode_one raw
    if not (used == length raw) then err network_error else ok f

  unfoldable pub frame_all : List Message → Result (List ℕ)
  frame_all [] = ok []
  frame_all (one ∷ rest) = do a ← encode one; b ← frame_all rest; ok (a ++ b)

  -- The loop of `read_all` from `at`, in at most `fuel` rounds; `none` says that they were too few.
  unfoldable pub read_from : ℕ → List ℕ → ℕ → Option (Result (List Frame))
  read_from zero raw at = if ltb at (length raw) then none else some (ok [])
  read_from (suc fuel) raw at =
      if not (ltb at (length raw)) then some (ok []) else elim (decode_one (drop at raw)) [
        | err e ↦ some (err e)
        | ok (f, used) ↦ elim (read_from fuel raw (at + used)) [
          | none ↦ none
          | some rest ↦ some (do frames ← rest; ok (f ∷ frames))
        ]
      ]

  -- A frame takes bytes, so one round for each byte is enough.
  unfoldable pub read_all : List ℕ → Option (Result (List Frame))
  read_all raw = read_from (length raw) raw 0
