-- ===== src/Wire/RoundTrip.antt =====
-- rsm/wire.py: `decode` gives back what `encode` was given, with texts for commands.
use replicated_state_machine.Prelude.{
  ℕ, ◌+◌, ◌%◌, ◌≤◌, ◌<◌, ◌≡◌, ◌≢◌, refl, sym, ap, subst, ◌∙◌, pos, true, false, some, List, [], ◌∷◌,
  ◌++◌, map, length, length-append, All, ltb, ◌==◌, ==_refl, ==_ne, arith,
}
use mathlib.Core.List.{append-nil}
use replicated_state_machine.Errors.{ok, >>=-inv, ok-injective}
use replicated_state_machine.Rpc.{
  Message, Body, request_vote, vote, append, appended, install_snapshot, installed,
}
use replicated_state_machine.Wire.Fields.{
  Text, Value, big_endian, slice, word_at, put_int, put_str, put_value,
}
use replicated_state_machine.Wire.Frames.{
  Frame, frame_of, values_of, code_of, kinds_of, make, put_values, get_values, put_frame, get_frame,
  encode, decode_one, decode, magic, version, max_body, header_size,
}
use replicated_state_machine.Wire.Places.{
  At, At-first, At-next, At-start, At-fits, slice-At, word_at-At, length-big_endian,
}
use replicated_state_machine.Wire.FieldTrip.{IsText, get_int-put_int, get_str-put_str}
use replicated_state_machine.Wire.ValueTrip.{IsValue, kind_of, wire_value, get_value-put_value}

-- What the constructors of messages and of their entries check.
pub record IsMessage (m : Message) : Type 0 where
  pub has_term : 1 ≤ m.term
  pub apart : m.sender ≢ m.recipient
  pub fields : All IsValue (values_of m.body)

-- A message as it comes back.
abbrev pub wire_frame : Text → Message → Frame
wire_frame t m = record (frame_of m) { values = map (wire_value t) (values_of m.body) }

module _ (t : Text) (law : IsText t) where
  get_values-put_values :
      {raw : List ℕ} (vs : List Value) (at : ℕ) {bytes : List ℕ}
      → All IsValue vs
      → put_values t vs ≡ ok bytes
      → At raw at bytes
      → get_values t (map kind_of vs) raw at ≡ ok (map (wire_value t) vs, at + length bytes)
  unfolding put_values get_values
  get_values-put_values {raw} [] at {bytes} real q p =
      let e : at ≡ at + length bytes = omega (arith, ap length (ok-injective q)) in
      ap (λ k. ok ([], k)) e
  get_values-put_values {raw} (v ∷ vs) at {bytes} real q p =
      let (a, qa, q₁) = >>=-inv (put_value t v) _ q in
      let (b, qb, q₂) = >>=-inv (put_values t vs) _ q₁ in
      let same = ok-injective q₂ in
      let p₀ : At raw at (a ++ b) = subst (At raw at) (sym same) p in
      let r₁ = get_value-put_value t law v real.0 qa (At-first a b p₀) in
      let r₂ = get_values-put_values vs (at + length a) real.1 qb (At-next a b p₀) in
      let end : at + length a + length b ≡ at + length bytes =
        omega (arith, ap length same, length-append a b) in
      rw (r₁, r₂, end) refl

  -- The fields of each class are read by its own annotations.
  kinds_of-code_of : (b : Body) → kinds_of (code_of b) ≡ some (map kind_of (values_of b))
  kinds_of-code_of (request_vote m) = refl
  kinds_of-code_of (vote m) = refl
  kinds_of-code_of (append m) = refl
  kinds_of-code_of (appended m) = refl
  kinds_of-code_of (install_snapshot m) = refl
  kinds_of-code_of (installed m) = refl

  code_of-small : (b : Body) → code_of b < 256
  code_of-small (request_vote m) = omega arith
  code_of-small (vote m) = omega arith
  code_of-small (append m) = omega arith
  code_of-small (appended m) = omega arith
  code_of-small (install_snapshot m) = omega arith
  code_of-small (installed m) = omega arith

  module _ (m : Message) (h : IsMessage m) where
    get_frame_parts :
        (a b c d : List ℕ)
        → put_str t m.sender ≡ ok a
        → put_str t m.recipient ≡ ok b
        → put_int (pos m.term) ≡ ok c
        → put_values t (values_of m.body) ≡ ok d
        → get_frame t ((code_of m.body ∷ []) ++ (a ++ (b ++ (c ++ d)))) ≡ ok (wire_frame t m)
    unfolding get_frame make big_endian
    get_frame_parts a b c d qa qb qc qd =
        let code : List ℕ = code_of m.body ∷ [] in
        let body : List ℕ = code ++ (a ++ (b ++ (c ++ d))) in
        let p₀ : At body 0 body = record {
          front = [];
          back = [];
          whole = sym (append-nil body);
          place = refl;
        } in
        let p₁ = At-next code (a ++ (b ++ (c ++ d))) p₀ in
        let p₂ = At-next a (b ++ (c ++ d)) p₁ in
        let p₃ = At-next b (c ++ d) p₂ in
        let p₄ = At-next c d p₃ in
        let small : code_of m.body % 256 ≡ code_of m.body = omega (arith, code_of-small m.body) in
        let r₀ : word_at body 0 1 ≡ code_of m.body =
          word_at-At 1 (code_of m.body) (omega (arith, code_of-small m.body)) (
            subst (λ k. At body 0 (k ∷ [])) (sym small)
              (At-first code (a ++ (b ++ (c ++ d))) p₀)) in
        let r₁ = get_str-put_str t law m.sender qa (At-first a (b ++ (c ++ d)) p₁) in
        let r₂ = get_str-put_str t law m.recipient qb (At-first b (c ++ d) p₂) in
        let r₃ = get_int-put_int (pos m.term) qc (At-first c d p₃) in
        let r₄ = get_values-put_values (values_of m.body) _ h.fields qd p₄ in
        let long : ltb (length body) 1 ≡ false = ground arith in
        let end : (1 + length a + length b + length c + length d == length body) ≡ true =
          ground
            (arith, length-append a (b ++ (c ++ d)), length-append b (c ++ d), length-append c d) in
        let real : ltb m.term 1 ≡ false = ground (arith, h.has_term) in
        let apart : (m.sender == m.recipient) ≡ false = ==_ne m.sender m.recipient h.apart in
        rw (long, r₀, kinds_of-code_of m.body, r₁, r₂, r₃, r₄, end, real, apart) refl

    get_frame-put_frame :
        {body : List ℕ}
        → put_frame t (frame_of m) ≡ ok body
        → get_frame t body ≡ ok (wire_frame t m)
    unfolding put_frame
    get_frame-put_frame {body} q =
        let (a, qa, q₁) = >>=-inv (put_str t m.sender) _ q in
        let (b, qb, q₂) = >>=-inv (put_str t m.recipient) _ q₁ in
        let (c, qc, q₃) = >>=-inv (put_int (pos m.term)) _ q₂ in
        let (d, qd, q₄) = >>=-inv (put_values t (values_of m.body)) _ q₃ in
        subst (λ bytes. get_frame t bytes ≡ ok (wire_frame t m)) (ok-injective q₄)
          (get_frame_parts a b c d qa qb qc qd)

    -- What stands behind a frame is not read.
    decode_one-seal :
        (body rest : List ℕ)
        → get_frame t body ≡ ok (wire_frame t m)
        → length body ≤ max_body
        → decode_one t (
            (big_endian 2 magic ++ ((version ∷ []) ++ (big_endian 4 (length body) ++ body)))
            ++ rest)
          ≡ ok (wire_frame t m, header_size + length body)
    unfolding decode_one big_endian
    decode_one-seal body rest read small =
        let n : ℕ = length body in
        let size : List ℕ = big_endian 4 n in
        let raw : List ℕ = (big_endian 2 magic ++ ((version ∷ []) ++ (size ++ body))) ++ rest in
        let p₀ = At-start (big_endian 2 magic ++ ((version ∷ []) ++ (size ++ body))) rest in
        let p₁ = At-next (big_endian 2 magic) ((version ∷ []) ++ (size ++ body)) p₀ in
        let p₂ = At-next (version ∷ []) (size ++ body) p₁ in
        let p₃ = At-next size body p₂ in
        let r₀ : word_at raw 0 2 ≡ magic =
          word_at-At 2 magic (omega arith) (At-first (big_endian 2 magic) _ p₀) in
        let r₁ : word_at raw 2 1 ≡ version =
          word_at-At 1 version (omega arith) (At-first (version ∷ []) (size ++ body) p₁) in
        let r₂ : word_at raw 3 4 ≡ n =
          word_at-At 4 n (omega (arith, small)) (At-first size body p₂) in
        let r₃ : slice raw header_size n ≡ body = slice-At p₃ in
        let fits = At-fits p₃ in
        let long : ltb (length raw) header_size ≡ false = ground arith in
        let limit : ltb max_body n ≡ false = ground arith in
        let covers : ltb (length raw) (header_size + n) ≡ false = ground arith in
        rw (long, r₀, r₁, r₂, limit, covers, r₃, read) refl

    -- The first message of a buffer is the one that was written first, and takes its bytes.
    pub decode_one-encode :
        (rest : List ℕ) {raw : List ℕ}
        → encode t m ≡ ok raw
        → decode_one t (raw ++ rest) ≡ ok (wire_frame t m, length raw)
    unfolding encode
    decode_one-encode rest {raw} q =
        let (body, qb, q₁) = >>=-inv (put_frame t (frame_of m)) _ q in
        let small : length body ≤ max_body = ground arith in
        let written : List ℕ =
          big_endian 2 magic ++ ((version ∷ []) ++ (big_endian 4 (length body) ++ body)) in
        let same : written ≡ raw = ground arith in
        let size : header_size + length body ≡ length raw = omega (
          arith,
          ap length same,
          length-append (big_endian 2 magic)
              ((version ∷ []) ++ (big_endian 4 (length body) ++ body)),
          length-append (big_endian 4 (length body)) body,
          length-big_endian 2 magic,
          length-big_endian 4 (length body),
        ) in
        subst (λ (bytes : List ℕ). decode_one t (bytes ++ rest) ≡ ok (wire_frame t m, length raw))
          same
          (decode_one-seal body rest (get_frame-put_frame qb) small
            ∙ ap (λ k. ok (wire_frame t m, k)) size)

-- What `encode` wrote of a message, `decode` gives back: the same kind, nodes, term and fields, where
-- commands and the values of a dict have become the texts that stand for them.
pub decode-encode :
    (t : Text) (m : Message) {raw : List ℕ}
    → IsText t
    → IsMessage m
    → encode t m ≡ ok raw
    → decode t raw ≡ ok (wire_frame t m)
unfolding decode
decode-encode t m {raw} law h q =
    let e =
      subst (λ bytes. decode_one t bytes ≡ ok (wire_frame t m, length raw)) (append-nil raw)
        (decode_one-encode t law m h [] q) in
    rw (e, ==_refl (length raw)) refl
