-- ===== src/Rpc.antt =====
-- rsm/rpc.py: the six kinds of message and the term check. The subclasses of `Message` are the
-- constructors of `Body`; `kind` is the constructor. Names of nodes are only compared, so they
-- are numbers.
use replicated_state_machine.Prelude.{ℕ, Bool, List, Dict, map, last_or, ltb, ◌==◌, if◌then◌else◌}
use replicated_state_machine.Errors.{Result, ok, err, config_error}
use replicated_state_machine.Log.{Entry, index_of}

pub record RequestVote : Type 0 where
  pub last_index : ℕ
  pub last_term : ℕ
  pub pre_vote : Bool

pub record Vote : Type 0 where
  pub granted : Bool
  pub pre_vote : Bool

pub record Append : Type 0 where
  pub previous_index : ℕ
  pub previous_term : ℕ
  pub entries : List Entry
  pub commit_index : ℕ
  pub read_id : ℕ

pub record Appended : Type 0 where
  pub success : Bool
  pub match_index : ℕ
  pub conflict_term : ℕ
  pub conflict_index : ℕ
  pub read_id : ℕ

pub record InstallSnapshot : Type 0 where
  pub last_index : ℕ
  pub last_term : ℕ
  pub state : Dict ℕ
  pub members : List ℕ

pub record Installed : Type 0 where
  pub last_index : ℕ

pub data Body : Type 0 where
  request_vote : RequestVote → Body
  vote : Vote → Body
  append : Append → Body
  appended : Appended → Body
  install_snapshot : InstallSnapshot → Body
  installed : Installed → Body

pub record Message : Type 0 where
  pub sender : ℕ
  pub recipient : ℕ
  pub term : ℕ
  pub body : Body

-- `Message.__post_init__`; a kind outside `KINDS` cannot be written here
unfoldable pub new_message : ℕ → ℕ → ℕ → Body → Result Message
new_message sender recipient term body =
    if ltb term 1
    then err config_error
    else if sender == recipient
    then err config_error
    else ok (record { sender = sender; recipient = recipient; term = term; body = body })

-- `Append.last_index`: the highest index the message would leave the follower holding
abbrev pub append_last_index : Append → ℕ
append_last_index a = last_or a.previous_index (map index_of a.entries)

pub data TermState : Type 0 where
  stale current ahead : TermState

unfoldable pub term_check : ℕ → Message → TermState
term_check own_term message =
    if ltb message.term own_term
    then stale
    else if ltb own_term message.term
    then ahead
    else current
