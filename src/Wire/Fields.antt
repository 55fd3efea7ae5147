-- ===== src/Wire/Fields.antt =====
-- rsm/wire.py: the writers `_put_…` and the readers `_get_…` of numbers, texts, entries and fields. A
-- `bytes` is a list of numbers below 256.
use replicated_state_machine.Prelude.{
  ℕ, zero, suc, ◌+◌, ◌-◌, ◌*◌, ◌/◌, ◌%◌, ◌^◌, ℤ, pos, negsuc, Bool, not, Option, none, some, List,
  [], ◌∷◌, ◌++◌, length, take, drop, Dict, insert, ltb, ◌==◌, if◌then◌else◌,
}
use replicated_state_machine.Errors.{
  Result, ok, err, ◌>>=◌, config_error, network_error, struct_error, unicode_error,
}
use replicated_state_machine.Log.{Entry, Command, other}

-- Python's texts, which are numbers here: `str.encode`, `bytes.decode`, the empty text, and the
-- text of a command and of a value of a dict, that is itself or its `repr`.
pub record Text : Type 0 where
  pub utf8 : ℕ → List ℕ
  pub read : List ℕ → Option ℕ
  pub blank : ℕ
  pub command_text : Command → ℕ
  pub value_text : ℕ → ℕ

-- `struct.pack` of `k` bytes, the highest first
unfoldable pub big_endian : ℕ → ℕ → List ℕ
big_endian zero n = []
big_endian (suc k) n = big_endian k (n / 256) ++ n % 256 ∷ []

-- `struct.unpack_from` of all the bytes
unfoldable pub number_from : ℕ → List ℕ → ℕ
number_from acc [] = acc
number_from acc (b ∷ bytes) = number_from (acc * 256 + b) bytes

-- `raw[at : at + size]`
unfoldable pub slice : List ℕ → ℕ → ℕ → List ℕ
slice raw at size = take size (drop at raw)

unfoldable pub word_at : List ℕ → ℕ → ℕ → ℕ
word_at raw at size = number_from 0 (slice raw at size)

unfoldable pub put_int : ℤ → Result (List ℕ)
put_int (pos n) = if ltb n (2 ^ 63) then ok (big_endian 8 n) else err struct_error
put_int (negsuc n) = if ltb n (2 ^ 63) then ok (big_endian 8 (2 ^ 64 - 1 - n)) else err struct_error

abbrev pub signed : ℕ → ℤ
signed w = if ltb w (2 ^ 63) then pos w else negsuc (2 ^ 64 - 1 - w)

unfoldable pub get_int : List ℕ → ℕ → Result (ℤ × ℕ)
get_int raw at =
    if ltb (length raw) (at + 8) then err network_error else ok (signed (word_at raw at 8), at + 8)

-- A count before its elements, as `_put_value` writes it: a struct of two bytes.
unfoldable pub put_count : ℕ → Result (List ℕ)
put_count n = if ltb 65535 n then err struct_error else ok (big_endian 2 n)

unfoldable pub get_count : List ℕ → ℕ → Result (ℕ × ℕ)
get_count raw at =
    if ltb (length raw) (at + 2)
    then err network_error
    else let count = word_at raw at 2 in
      if ltb (length raw - at) (count * 2) then err network_error else ok (count, at + 2)

unfoldable pub put_bool : Bool → List ℕ
put_bool one = if one then 1 ∷ [] else 0 ∷ []

unfoldable pub get_bool : List ℕ → ℕ → Result (Bool × ℕ)
get_bool raw at =
    if not (ltb at (length raw))
    then err network_error
    else ok (not (word_at raw at 1 == 0), at + 1)

-- `Entry(...)` on the integers of a frame, with a raise that is passed on as another
unfoldable pub entry_of : ℤ → ℤ → Option Command → Result Entry
entry_of (pos term) (pos index) command =
    if ltb term 1
    then err network_error
    else if ltb index 1
    then err network_error
    else ok (record { term = term; index = index; command = command })
entry_of (pos term) (negsuc index) command = err network_error
entry_of (negsuc term) index command = err network_error

-- The kinds of fields, by their annotations in the classes of messages.
pub data Kind : Type 0 where
  bool int str entries names dict : Kind

pub data Value : Type 0 where
  flag : Bool → Value
  integer : ℤ → Value
  text : ℕ → Value
  log_entries : List Entry → Value
  texts : List ℕ → Value
  pairs : Dict ℕ → Value

-- what `bytes.decode` gave, and where it ended
abbrev pub decoded : Option ℕ → ℕ → Result (ℕ × ℕ)
decoded none at = err unicode_error
decoded (some one) at = ok (one, at)

module _ (t : Text) where
  unfoldable pub put_str : ℕ → Result (List ℕ)
  put_str one =
      let raw = t.utf8 one in
      if ltb 65535 (length raw) then err config_error else ok (big_endian 2 (length raw) ++ raw)

  unfoldable pub get_str : List ℕ → ℕ → Result (ℕ × ℕ)
  get_str raw at =
      if ltb (length raw) (at + 2)
      then err network_error
      else let size = word_at raw at 2 in
        if ltb (length raw) (at + 2 + size)
        then err network_error
        else decoded (t.read (slice raw (at + 2) size)) (at + 2 + size)

  abbrev pub as_text : Option Command → ℕ
  as_text none = t.blank
  as_text (some c) = t.command_text c

  unfoldable pub put_entry : Entry → Result (List ℕ)
  put_entry one = do
    index ← put_int (pos one.index)
    term ← put_int (pos one.term)
    command ← put_str (as_text one.command)
    ok (index ++ (term ++ command))

  -- `command or None`
  abbrev pub or_none : ℕ → Option Command
  or_none one = if one == t.blank then none else some (other one)

  unfoldable pub get_entry : List ℕ → ℕ → Result (Entry × ℕ)
  get_entry raw at = do
    (index, at₁) ← get_int raw at
    (term, at₂) ← get_int raw at₁
    (command, at₃) ← get_str raw at₂
    one ← entry_of term index (or_none command)
    ok (one, at₃)

  -- the joins of `_put_value`
  unfoldable pub put_entries : List Entry → Result (List ℕ)
  put_entries [] = ok []
  put_entries (one ∷ rest) = do a ← put_entry one; b ← put_entries rest; ok (a ++ b)

  unfoldable pub put_strs : List ℕ → Result (List ℕ)
  put_strs [] = ok []
  put_strs (one ∷ rest) = do a ← put_str one; b ← put_strs rest; ok (a ++ b)

  -- The keys of a dict are texts, as those of every state are, so `str(key)` is the key.
  unfoldable pub put_pairs : Dict ℕ → Result (List ℕ)
  put_pairs [] = ok []
  put_pairs ((key, held) ∷ rest) = do
    a ← put_str key
    b ← put_str (t.value_text held)
    c ← put_pairs rest
    ok (a ++ (b ++ c))

  abbrev pub counted : ℕ → Result (List ℕ) → Result (List ℕ)
  counted n joined = do body ← joined; count ← put_count n; ok (count ++ body)

  unfoldable pub put_value : Value → Result (List ℕ)
  put_value (flag b) = ok (put_bool b)
  put_value (integer i) = put_int i
  put_value (text one) = put_str one
  put_value (log_entries es) = counted (length es) (put_entries es)
  put_value (texts ones) = counted (length ones) (put_strs ones)
  put_value (pairs d) = counted (length d) (put_pairs d)

  -- the loops of `_get_value`
  unfoldable pub get_entries : ℕ → List ℕ → ℕ → Result (List Entry × ℕ)
  get_entries zero raw at = ok ([], at)
  get_entries (suc count) raw at = do
    (one, at₁) ← get_entry raw at
    (rest, at₂) ← get_entries count raw at₁
    ok (one ∷ rest, at₂)

  unfoldable pub get_strs : ℕ → List ℕ → ℕ → Result (List ℕ × ℕ)
  get_strs zero raw at = ok ([], at)
  get_strs (suc count) raw at = do
    (one, at₁) ← get_str raw at
    (rest, at₂) ← get_strs count raw at₁
    ok (one ∷ rest, at₂)

  unfoldable pub get_pairs : ℕ → List ℕ → ℕ → Dict ℕ → Result (Dict ℕ × ℕ)
  get_pairs zero raw at made = ok (made, at)
  get_pairs (suc count) raw at made = do
    (key, at₁) ← get_str raw at
    (held, at₂) ← get_str raw at₁
    get_pairs count raw at₂ (insert key held made)

  unfoldable pub get_value : List ℕ → ℕ → Kind → Result (Value × ℕ)
  get_value raw at bool = do (b, at') ← get_bool raw at; ok (flag b, at')
  get_value raw at int = do (i, at') ← get_int raw at; ok (integer i, at')
  get_value raw at str = do (one, at') ← get_str raw at; ok (text one, at')
  get_value raw at entries = do
    (count, at₁) ← get_count raw at
    (out, at₂) ← get_entries count raw at₁
    ok (log_entries out, at₂)
  get_value raw at names = do
    (count, at₁) ← get_count raw at
    (out, at₂) ← get_strs count raw at₁
    ok (texts out, at₂)
  get_value raw at dict = do
    (count, at₁) ← get_count raw at
    (made, at₂) ← get_pairs count raw at₁ []
    ok (pairs made, at₂)
