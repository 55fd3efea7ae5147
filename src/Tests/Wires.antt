-- ===== src/Tests/Wires.antt =====
-- Frames of rsm/wire.py, byte by byte.
use replicated_state_machine.Prelude.{
  ℕ, zero, suc, ◌≡◌, refl, ap, true, false, none, some, List, [], ◌∷◌, ◌++◌, length, arith,
}
use replicated_state_machine.Errors.{ok, err, network_error}
use replicated_state_machine.Log.{set, other}
use replicated_state_machine.Rpc.{Message, append, vote}
use replicated_state_machine.Wire.Fields.{
  Text, put_int, put_str, put_count, put_bool, put_entry, put_entries, put_value, big_endian,
}
use replicated_state_machine.Wire.Frames.{
  encode, put_frame, put_values, decode, frame_all, read_all,
}
use replicated_state_machine.Wire.FieldTrip.{IsText}
use replicated_state_machine.Wire.RoundTrip.{IsMessage, wire_frame, decode-encode}
use replicated_state_machine.Wire.Stream.{read_all-frame_all, read_all_partial}

-- The text of a number is as many letters `a`.
abbrev letters : ℕ → List ℕ
letters zero = []
letters (suc n) = b'a' ∷ letters n

abbrev unary : Text
unary = record {
  utf8 = letters;
  read = λ bytes. some (length bytes);
  blank = 0;
  command_text = λ c. elim c [ set k v ↦ 3 | other n ↦ n ];
  value_text = λ v. v;
}

length-letters : (n : ℕ) → length (letters n) ≡ n
length-letters zero = refl
length-letters (suc n) = ap suc (length-letters n)

unary-IsText : IsText unary
unary-IsText = record { read_utf8 = λ n. ap some (length-letters n) }

-- an append of node 1 to node 2, with an entry that has a command and one that has none
abbrev sent : Message
sent = record {
  sender = 1;
  recipient = 2;
  term = 4;
  body = append (record {
    previous_index = 6;
    previous_term = 3;
    entries =
        record { term = 4; index = 7; command = some (set 1 9) }
        ∷ record { term = 4; index = 8; command = none }
        ∷ [];
    commit_index = 5;
    read_id = 300;
  });
}

abbrev small : Message
small = record {
  sender = 2;
  recipient = 1;
  term = 4;
  body = vote (record { granted = true; pre_vote = false });
}

record Written : Type 0 where
  bytes : List ℕ
  written : encode unary sent ≡ ok bytes

abbrev frame : Written
unfolding encode put_frame put_values put_value put_str put_int put_entries put_entry put_count
    big_endian
frame = record { bytes = _; written = refl }

frame_length : ◌≡◌ {A = ℕ} (length frame.bytes) 96
unfolding frame
frame_length = refl

sent-IsMessage : IsMessage sent
sent-IsMessage = record {
  has_term = omega arith;
  apart = λ e. omega (arith, e);
  fields =
      (tt, (tt, (((omega arith, omega arith), ((omega arith, omega arith), tt)), (tt, (tt, tt)))));
}

decode-encode_example : decode unary frame.bytes ≡ ok (wire_frame unary sent)
decode-encode_example = decode-encode unary sent unary-IsText sent-IsMessage frame.written

small-IsMessage : IsMessage small
small-IsMessage = record {
  has_term = omega arith;
  apart = λ e. omega (arith, e);
  fields = (tt, (tt, tt));
}

record Streamed : Type 0 where
  bytes : List ℕ
  written : frame_all unary (small ∷ sent ∷ []) ≡ ok bytes

abbrev stream : Streamed
unfolding frame_all encode put_frame put_values put_value put_str put_int put_entries put_entry
    put_count put_bool big_endian
stream = record { bytes = _; written = refl }

read_all-frame_all_example :
    read_all unary stream.bytes ≡ some (ok (wire_frame unary small ∷ wire_frame unary sent ∷ []))
read_all-frame_all_example =
    read_all-frame_all unary (small ∷ sent ∷ []) unary-IsText
      (small-IsMessage, (sent-IsMessage, tt)) stream.written

read_all_partial_example : read_all unary (stream.bytes ++ 82 ∷ 83 ∷ []) ≡ some (err network_error)
read_all_partial_example =
    read_all_partial unary (small ∷ sent ∷ []) (82 ∷ 83 ∷ []) unary-IsText
      (small-IsMessage, (sent-IsMessage, tt)) stream.written (omega arith) (omega arith)
