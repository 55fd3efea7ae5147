-- ===== src/Wire/Stream.antt =====
-- rsm/wire.py: buffers of several frames, and what holds of any buffer.
use replicated_state_machine.Prelude.{
  ℕ, zero, suc, ◌+◌, ◌≤◌, ◌<◌, ◌≡◌, refl, sym, ap, ◌∙◌, true, false, some, List, [], ◌∷◌, ◌++◌, map,
  length, drop, length-drop, All, ltb, arith, Bool-cases, inl, inr,
}
use mathlib.Core.List.{append_assoc, append-nil}
use replicated_state_machine.Errors.{
  Result-cases, Result, ok, err, Error, ◌>>=◌, >>=-inv, ok-injective, network_error,
}
use replicated_state_machine.Rpc.{Message}
use replicated_state_machine.Wire.Fields.{Text}
use replicated_state_machine.Wire.Frames.{
  Frame, max_body, header_size, encode, decode_one, frame_all, read_from, read_all,
}
use replicated_state_machine.Wire.FieldTrip.{IsText}
use replicated_state_machine.Wire.RoundTrip.{IsMessage, wire_frame, decode_one-encode}

-- A frame that was read lies in the buffer, takes its header at least, and no more than the limit.
pub decode_one_bounds :
    (t : Text) (raw : List ℕ) {f : Frame} {used : ℕ}
    → decode_one t raw ≡ ok (f, used)
    → (header_size ≤ used) × (used ≤ length raw) × (used ≤ header_size + max_body)
unfolding decode_one
decode_one_bounds t raw q = ground arith

read_from-returns :
    (t : Text) (fuel : ℕ) (raw : List ℕ) (at : ℕ)
    → length raw ≤ at + fuel
    → (r : Result (List Frame)) × (read_from t fuel raw at ≡ some r)
unfolding read_from
read_from-returns t zero raw at h =
    let over : ltb at (length raw) ≡ false = ground arith in (ok [], rw over refl)
read_from-returns t (suc fuel) raw at h = elim (Bool-cases (ltb at (length raw))) [
  | inr over ↦ (ok [], rw over refl)
  | inl more ↦ elim (Result-cases (decode_one t (drop at raw))) [
    | inl (e, q) ↦ (err e, rw (more, q) refl)
    | inr ((f, used), q) ↦
        let (least, _, _) = decode_one_bounds t (drop at raw) q in
        let (r, s) = read_from-returns t fuel raw (at + used) (omega (arith, least, h)) in
        ((r >>= λ frames. ok (f ∷ frames)), rw (more, q, s) refl)
  ]
]

-- `read_all` ends on every buffer, with frames or with an exception.
pub read_all_returns :
    (t : Text) (raw : List ℕ) → (r : Result (List Frame)) × (read_all t raw ≡ some r)
unfolding read_all
read_all_returns t raw = read_from-returns t (length raw) raw 0 (omega arith)

drop-nil : {A : Type 0} (n : ℕ) → drop {A = A} n [] ≡ []
drop-nil zero = refl
drop-nil (suc n) = refl

drop-drop : {A : Type 0} (m n : ℕ) (xs : List A) → drop n (drop m xs) ≡ drop (m + n) xs
drop-drop zero n xs = ap (λ k. drop k xs) (omega arith)
drop-drop (suc m) n [] = drop-nil n ∙ sym (drop-nil (suc m + n))
drop-drop (suc m) n (x ∷ xs) =
    let e : suc m + n ≡ suc (m + n) = omega arith in rw e (drop-drop m n xs)

drop-append : {A : Type 0} (xs ys : List A) → drop (length xs) (xs ++ ys) ≡ ys
drop-append [] ys = refl
drop-append (x ∷ xs) ys = drop-append xs ys

-- The frames `fs`, and then what the rest of a buffer gives.
abbrev before : List Frame → Result (List Frame) → Result (List Frame)
before [] last = last
before (f ∷ fs) last = do frames ← before fs last; ok (f ∷ frames)

before-ok : (fs : List Frame) → before fs (ok []) ≡ ok fs
before-ok [] = refl
before-ok (f ∷ fs) = rw (before-ok fs) refl

before-err : (fs : List Frame) (e : Error) → before fs (err e) ≡ err e
before-err [] e = refl
before-err (f ∷ fs) e = rw (before-err fs e) refl

module _ (t : Text) (law : IsText t) (raw tail : List ℕ) (last : Result (List Frame))
    (ending : (fuel at : ℕ)
      → drop at raw ≡ tail
      → at ≤ length raw
      → length raw ≤ at + fuel
      → read_from t fuel raw at ≡ some last) where
  first_read :
      (m : Message) (ms : List Message) (at : ℕ) {bytes : List ℕ}
      → IsMessage m
      → frame_all t (m ∷ ms) ≡ ok bytes
      → drop at raw ≡ bytes ++ tail
      → (a : List ℕ) × (b : List ℕ) × (frame_all t ms ≡ ok b)
        × (decode_one t (drop at raw) ≡ ok (wire_frame t m, length a))
        × (drop (at + length a) raw ≡ b ++ tail)
  unfolding frame_all
  first_read m ms at real q place =
      let (a, qa, q₁) = >>=-inv (encode t m) _ q in
      let (b, qb, q₂) = >>=-inv (frame_all t ms) _ q₁ in
      let here : drop at raw ≡ a ++ (b ++ tail) =
        place ∙ ap (λ (c : List ℕ). c ++ tail) (sym (ok-injective q₂)) ∙ append_assoc a b tail in
      (
        a,
        b,
        qb,
        rw here (decode_one-encode t law m real (b ++ tail) qa),
        sym (drop-drop at (length a) raw) ∙ rw here (drop-append a (b ++ tail)),
      )

  read_from-frame_all :
      (ms : List Message) (fuel at : ℕ) {bytes : List ℕ}
      → All IsMessage ms
      → frame_all t ms ≡ ok bytes
      → drop at raw ≡ bytes ++ tail
      → at ≤ length raw
      → length raw ≤ at + fuel
      → read_from t fuel raw at ≡ some (before (map (wire_frame t) ms) last)
  unfolding frame_all read_from
  read_from-frame_all [] fuel at real q place low h =
      ending fuel at (place ∙ ap (λ (b : List ℕ). b ++ tail) (sym (ok-injective q))) low h
  read_from-frame_all (m ∷ ms) zero at real q place low h =
      let (a, b, qb, read, next) = first_read m ms at real.0 q place in
      let (least, most, _) = decode_one_bounds t (drop at raw) read in
      absurd (omega (arith, least, most, length-drop at raw))
  read_from-frame_all (m ∷ ms) (suc fuel) at real q place low h =
      let (a, b, qb, read, next) = first_read m ms at real.0 q place in
      let (least, most, _) = decode_one_bounds t (drop at raw) read in
      let room = length-drop at raw in
      let more : ltb at (length raw) ≡ true = ground arith in
      let rest =
        read_from-frame_all ms fuel (at + length a) real.1 qb next (omega arith) (omega arith) in
      rw (more, read, rest) refl

read_from_end :
    (t : Text) (raw : List ℕ) (fuel at : ℕ)
    → drop at raw ≡ []
    → at ≤ length raw
    → length raw ≤ at + fuel
    → read_from t fuel raw at ≡ some (ok [])
unfolding read_from
read_from_end t raw zero at done low h =
    let over : ltb at (length raw) ≡ false = ground (arith, length-drop at raw, ap length done) in
    rw over refl
read_from_end t raw (suc fuel) at done low h =
    let over : ltb at (length raw) ≡ false = ground (arith, length-drop at raw, ap length done) in
    rw over refl

read_from_partial :
    (t : Text) (raw tail : List ℕ)
    → 1 ≤ length tail
    → length tail < header_size
    → (fuel at : ℕ) → drop at raw ≡ tail
    → at ≤ length raw
    → length raw ≤ at + fuel
    → read_from t fuel raw at ≡ some (err network_error)
unfolding read_from decode_one
read_from_partial t raw tail some_bytes short zero at here low h =
    absurd (omega (arith, length-drop at raw, ap length here))
read_from_partial t raw tail some_bytes short (suc fuel) at here low h =
    let more : ltb at (length raw) ≡ true = ground (arith, length-drop at raw, ap length here) in
    let few : ltb (length (drop at raw)) header_size ≡ true = ground (arith, ap length here) in
    rw (more, few) refl

-- `read_all` gives back every message of a stream that `frame_all` wrote, in order.
pub read_all-frame_all :
    (t : Text) (ms : List Message) {raw : List ℕ}
    → IsText t
    → All IsMessage ms
    → frame_all t ms ≡ ok raw
    → read_all t raw ≡ some (ok (map (wire_frame t) ms))
unfolding read_all
read_all-frame_all t ms {raw} law real q =
    let trip =
      read_from-frame_all t law raw [] (ok []) (read_from_end t raw) ms (length raw) 0 real q
        (sym (append-nil raw)) (omega arith) (omega arith) in
    trip ∙ ap some (before-ok (map (wire_frame t) ms))

-- A stream whose last message has come in part, with less than its header, makes `read_all` raise
-- `NetworkError`: nothing of the messages before it is returned.
pub read_all_partial :
    (t : Text) (ms : List Message) (tail : List ℕ) {bytes : List ℕ}
    → IsText t
    → All IsMessage ms
    → frame_all t ms ≡ ok bytes
    → 1 ≤ length tail
    → length tail < header_size
    → read_all t (bytes ++ tail) ≡ some (err network_error)
unfolding read_all
read_all_partial t ms tail {bytes} law real q some_bytes short =
    let raw : List ℕ = bytes ++ tail in
    let trip =
      read_from-frame_all t law raw tail (err network_error)
        (read_from_partial t raw tail some_bytes short) ms (length raw) 0 real q refl (omega arith)
        (omega arith) in
    trip ∙ ap some (before-err (map (wire_frame t) ms) network_error)
