-- ===== src/Wire/FieldTrip.antt =====
-- rsm/wire.py: what the writers of fields wrote, the readers read back.
use replicated_state_machine.Prelude.{
  ℕ, ◌+◌, ◌-◌, ◌*◌, ◌^◌, ◌≤◌, ◌<◌, ◌≡◌, refl, sym, ap, subst, ◌∙◌, ℤ, pos, negsuc, Bool, true,
  false, some, List, ◌++◌, length, length-append, ltb, arith, Bool-cases, inl, inr,
}
use replicated_state_machine.Errors.{ok, >>=-inv, ok-injective}
use replicated_state_machine.Log.{Entry}
use replicated_state_machine.Wire.Fields.{
  Text, big_endian, slice, word_at, signed, put_int, get_int, put_count, get_count, put_bool,
  get_bool, entry_of, put_str, get_str, as_text, or_none, put_entry, get_entry,
}
use replicated_state_machine.Wire.Places.{
  At, slice-At, At-fits, At-first, At-next, word_at-At, length-big_endian,
}

-- What Python documents of its texts: decoding undoes encoding.
pub record IsText (t : Text) : Type 0 where
  pub read_utf8 : (s : ℕ) → t.read (t.utf8 s) ≡ some s

-- A number that was written is a word of eight bytes.
put_int_word :
    (i : ℤ) {bytes : List ℕ}
    → put_int i ≡ ok bytes
    → (w : ℕ) × (bytes ≡ big_endian 8 w) × (w < 256 ^ 8) × (signed w ≡ i)
unfolding put_int
put_int_word (pos n) {bytes} q = elim (Bool-cases (ltb n (2 ^ 63))) [
  | inl fits ↦ (n, sym (ok-injective (simp fits at q)), ground arith, rw fits refl)
  | inr wide ↦ absurd (ground arith)
]
put_int_word (negsuc n) {bytes} q = elim (Bool-cases (ltb n (2 ^ 63))) [
  | inl fits ↦ (2 ^ 64 - 1 - n, sym (ok-injective (simp fits at q)), ground arith, ground arith)
  | inr wide ↦ absurd (ground arith)
]

pub length-put_int : (i : ℤ) {bytes : List ℕ} → put_int i ≡ ok bytes → length bytes ≡ 8
length-put_int i q = let (w, e, _, _) = put_int_word i q in ap length e ∙ length-big_endian 8 w

pub get_int-put_int :
    {raw : List ℕ} {at : ℕ} (i : ℤ) {bytes : List ℕ}
    → put_int i ≡ ok bytes
    → At raw at bytes
    → get_int raw at ≡ ok (i, at + length bytes)
unfolding get_int
get_int-put_int {raw} {at} i {bytes} q p =
    let (w, e, small, same) = put_int_word i q in
    let eight = length-put_int i q in
    let fits : ltb (length raw) (at + 8) ≡ false = ground (arith, At-fits p, eight) in
    let read : word_at raw at 8 ≡ w = word_at-At 8 w small (subst (At raw at) e p) in
    rw (fits, read, same, eight) refl

pub length-put_count : (n : ℕ) {bytes : List ℕ} → put_count n ≡ ok bytes → length bytes ≡ 2
unfolding put_count
length-put_count n {bytes} q =
    let e : big_endian 2 n ≡ bytes = ground arith in ap length (sym e) ∙ length-big_endian 2 n

-- A count is read back where its elements take two bytes each at least.
pub get_count-put_count :
    {raw : List ℕ} {at : ℕ} (n : ℕ) (body : List ℕ) {bytes : List ℕ}
    → put_count n ≡ ok bytes
    → n * 2 ≤ length body
    → At raw at (bytes ++ body)
    → get_count raw at ≡ ok (n, at + length bytes)
unfolding put_count get_count
get_count-put_count {raw} {at} n body {bytes} q room p =
    let e : big_endian 2 n ≡ bytes = ground arith in
    let small : n < 256 ^ 2 = ground arith in
    let two = length-put_count n q in
    let whole = At-fits p in
    let sum = length-append bytes body in
    let fits : ltb (length raw) (at + 2) ≡ false = ground arith in
    let read : word_at raw at 2 ≡ n =
      word_at-At 2 n small (subst (At raw at) (sym e) (At-first bytes body p)) in
    let covers : ltb (length raw - at) (n * 2) ≡ false = ground arith in
    rw (fits, read, covers, two) refl

pub get_bool-put_bool :
    {raw : List ℕ} {at : ℕ} (b : Bool)
    → At raw at (put_bool b)
    → get_bool raw at ≡ ok (b, at + length (put_bool b))
unfolding get_bool put_bool big_endian
get_bool-put_bool {raw} {at} true p =
    let whole = At-fits p in
    let fits : ltb at (length raw) ≡ true = ground arith in
    let read : word_at raw at 1 ≡ 1 = word_at-At 1 1 (omega arith) p in rw (fits, read) refl
get_bool-put_bool {raw} {at} false p =
    let whole = At-fits p in
    let fits : ltb at (length raw) ≡ true = ground arith in
    let read : word_at raw at 1 ≡ 0 = word_at-At 1 0 (omega arith) p in rw (fits, read) refl

-- An entry as it comes back: its command is the text that was written.
abbrev pub wire_entry : Text → Entry → Entry
wire_entry t e = record e { command = or_none t (as_text t e.command) }

module _ (t : Text) (law : IsText t) where
  pub get_str-put_str :
      {raw : List ℕ} {at : ℕ} (s : ℕ) {bytes : List ℕ}
      → put_str t s ≡ ok bytes
      → At raw at bytes
      → get_str t raw at ≡ ok (s, at + length bytes)
  unfolding put_str get_str
  get_str-put_str {raw} {at} s {bytes} q p =
      let text : List ℕ = t.utf8 s in
      let n : ℕ = length text in
      let e : big_endian 2 n ++ text ≡ bytes = ground arith in
      let small : n < 256 ^ 2 = ground arith in
      let p' : At raw at (big_endian 2 n ++ text) = subst (At raw at) (sym e) p in
      let two = length-big_endian 2 n in
      let sum = length-append (big_endian 2 n) text in
      let total = ap length e in
      let whole = At-fits p' in
      let fits : ltb (length raw) (at + 2) ≡ false = ground arith in
      let read : word_at raw at 2 ≡ n = word_at-At 2 n small (At-first _ text p') in
      let covers : ltb (length raw) (at + 2 + n) ≡ false = ground arith in
      let cut : slice raw (at + 2) n ≡ text =
        slice-At (subst (λ k. At raw (at + k) text) two (At-next (big_endian 2 n) text p')) in
      let size : at + length bytes ≡ at + 2 + n = omega (arith, total, sum, two) in
      rw (size, fits, read, covers, cut, law.read_utf8 s) refl

  pub get_entry-put_entry :
      {raw : List ℕ} {at : ℕ} (e : Entry) {bytes : List ℕ}
      → (1 ≤ e.term) × (1 ≤ e.index)
      → put_entry t e ≡ ok bytes
      → At raw at bytes
      → get_entry t raw at ≡ ok (wire_entry t e, at + length bytes)
  unfolding put_entry get_entry entry_of
  get_entry-put_entry {raw} {at} e {bytes} (real, real') q p =
      let (a, qa, q₁) = >>=-inv (put_int (pos e.index)) _ q in
      let (b, qb, q₂) = >>=-inv (put_int (pos e.term)) _ q₁ in
      let (c, qc, q₃) = >>=-inv (put_str t (as_text t e.command)) _ q₂ in
      let same = ok-injective q₃ in
      let p₀ : At raw at (a ++ (b ++ c)) = subst (At raw at) (sym same) p in
      let r₁ = get_int-put_int (pos e.index) qa (At-first a (b ++ c) p₀) in
      let p₁ = At-next a (b ++ c) p₀ in
      let r₂ = get_int-put_int (pos e.term) qb (At-first b c p₁) in
      let r₃ = get_str-put_str (as_text t e.command) qc (At-next b c p₁) in
      let real₁ : ltb e.term 1 ≡ false = ground arith in
      let real₂ : ltb e.index 1 ≡ false = ground arith in
      let end : at + length a + length b + length c ≡ at + length bytes =
        omega (arith, ap length same, length-append a (b ++ c), length-append b c) in
      rw (r₁, r₂, r₃, real₁, real₂, end) refl
