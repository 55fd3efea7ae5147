-- ===== src/Wire/ValueTrip.antt =====
-- rsm/wire.py: sequences and fields are read back as they were written.
use replicated_state_machine.Prelude.{
  ℕ, ◌+◌, ◌*◌, ◌≤◌, ◌≡◌, refl, sym, ap, subst, pos, List, [], ◌∷◌, ◌++◌, map, length, Dict, insert,
  length-append, All, arith,
}
use replicated_state_machine.Errors.{Result, ok, ◌>>=◌, >>=-inv, ok-injective}
use replicated_state_machine.Log.{Entry}
use replicated_state_machine.Wire.Fields.{
  Text, Kind, bool, int, str, entries, names, dict, Value, flag, integer, text, log_entries, texts,
  pairs, put_int, put_str, put_entry, put_entries, get_entries, put_strs, get_strs, put_pairs,
  get_pairs, put_count, get_count, counted, put_value, get_value, big_endian,
}
use replicated_state_machine.Wire.Places.{At, At-first, At-next, length-big_endian}
use replicated_state_machine.Wire.FieldTrip.{
  IsText, wire_entry, get_int-put_int, length-put_int, get_bool-put_bool, get_str-put_str,
  get_entry-put_entry, get_count-put_count,
}

-- What `Entry` checks when it is made.
abbrev pub IsEntry : Entry → Type 0
IsEntry e = (1 ≤ e.term) × (1 ≤ e.index)

abbrev pub kind_of : Value → Kind
kind_of (flag b) = bool
kind_of (integer i) = int
kind_of (text one) = str
kind_of (log_entries es) = entries
kind_of (texts ones) = names
kind_of (pairs d) = dict

abbrev pub IsValue : Value → Type 0
IsValue (log_entries es) = All IsEntry es
IsValue (flag b) = Unit
IsValue (integer i) = Unit
IsValue (text one) = Unit
IsValue (texts ones) = Unit
IsValue (pairs d) = Unit

-- the last step of a loop of `_get_value`
abbrev boxed : {A : Type 0} → (A → Value) → A × ℕ → Result (Value × ℕ)
boxed wrap read = ok (wrap read.0, read.1)

module _ (t : Text) where
  -- A dict as it comes back: its values are the texts that were written.
  abbrev pub rebuilt : Dict ℕ → Dict ℕ → Dict ℕ
  rebuilt [] made = made
  rebuilt ((key, held) ∷ rest) made = rebuilt rest (insert key (t.value_text held) made)

  abbrev pub wire_value : Value → Value
  wire_value (flag b) = flag b
  wire_value (integer i) = integer i
  wire_value (text one) = text one
  wire_value (log_entries es) = log_entries (map (wire_entry t) es)
  wire_value (texts ones) = texts ones
  wire_value (pairs d) = pairs (rebuilt d [])

  put_str-long : (s : ℕ) {bytes : List ℕ} → put_str t s ≡ ok bytes → 2 ≤ length bytes
  unfolding put_str
  put_str-long s {bytes} q =
      let raw : List ℕ = t.utf8 s in
      let e : big_endian 2 (length raw) ++ raw ≡ bytes = ground arith in
      omega (
        arith,
        ap length e,
        length-append (big_endian 2 (length raw)) raw,
        length-big_endian 2 (length raw),
      )

  put_entry-long : (e : Entry) {bytes : List ℕ} → put_entry t e ≡ ok bytes → 2 ≤ length bytes
  unfolding put_entry
  put_entry-long e q =
      let (a, qa, q₁) = >>=-inv (put_int (pos e.index)) _ q in
      let (b, qb, q₂) = >>=-inv (put_int (pos e.term)) _ q₁ in
      let (c, qc, q₃) = >>=-inv (put_str t _) _ q₂ in
      omega (
        arith,
        ap length (ok-injective q₃),
        length-append a (b ++ c),
        length-put_int (pos e.index) qa,
      )

  put_entries-long :
      (es : List Entry) {bytes : List ℕ}
      → put_entries t es ≡ ok bytes
      → length es * 2 ≤ length bytes
  unfolding put_entries
  put_entries-long [] q = omega arith
  put_entries-long (e ∷ es) q =
      let (a, qa, q₁) = >>=-inv (put_entry t e) _ q in
      let (b, qb, q₂) = >>=-inv (put_entries t es) _ q₁ in
      omega (
        arith,
        ap length (ok-injective q₂),
        length-append a b,
        put_entry-long e qa,
        put_entries-long es qb,
      )

  put_strs-long :
      (ones : List ℕ) {bytes : List ℕ} → put_strs t ones ≡ ok bytes → length ones * 2 ≤ length bytes
  unfolding put_strs
  put_strs-long [] q = omega arith
  put_strs-long (one ∷ ones) q =
      let (a, qa, q₁) = >>=-inv (put_str t one) _ q in
      let (b, qb, q₂) = >>=-inv (put_strs t ones) _ q₁ in
      omega (
        arith,
        ap length (ok-injective q₂),
        length-append a b,
        put_str-long one qa,
        put_strs-long ones qb,
      )

  put_pairs-long :
      (d : Dict ℕ) {bytes : List ℕ} → put_pairs t d ≡ ok bytes → length d * 2 ≤ length bytes
  unfolding put_pairs
  put_pairs-long [] q = omega arith
  put_pairs-long ((key, held) ∷ d) q =
      let (a, qa, q₁) = >>=-inv (put_str t key) _ q in
      let (b, qb, q₂) = >>=-inv (put_str t (t.value_text held)) _ q₁ in
      let (c, qc, q₃) = >>=-inv (put_pairs t d) _ q₂ in
      omega (
        arith,
        ap length (ok-injective q₃),
        length-append a (b ++ c),
        length-append b c,
        put_str-long key qa,
        put_pairs-long d qc,
      )

  module _ (law : IsText t) where
    get_entries-put_entries :
        {raw : List ℕ} (es : List Entry) (at : ℕ) {bytes : List ℕ}
        → All IsEntry es
        → put_entries t es ≡ ok bytes
        → At raw at bytes
        → get_entries t (length es) raw at ≡ ok (map (wire_entry t) es, at + length bytes)
    unfolding put_entries get_entries
    get_entries-put_entries {raw} [] at {bytes} real q p =
        let e : at ≡ at + length bytes = omega (arith, ap length (ok-injective q)) in
        ap (λ k. ok ([], k)) e
    get_entries-put_entries {raw} (e ∷ es) at {bytes} real q p =
        let (a, qa, q₁) = >>=-inv (put_entry t e) _ q in
        let (b, qb, q₂) = >>=-inv (put_entries t es) _ q₁ in
        let same = ok-injective q₂ in
        let p₀ : At raw at (a ++ b) = subst (At raw at) (sym same) p in
        let r₁ = get_entry-put_entry t law e real.0 qa (At-first a b p₀) in
        let r₂ = get_entries-put_entries es (at + length a) real.1 qb (At-next a b p₀) in
        let end : at + length a + length b ≡ at + length bytes =
          omega (arith, ap length same, length-append a b) in
        rw (r₁, r₂, end) refl

    get_strs-put_strs :
        {raw : List ℕ} (ones : List ℕ) (at : ℕ) {bytes : List ℕ}
        → put_strs t ones ≡ ok bytes
        → At raw at bytes
        → get_strs t (length ones) raw at ≡ ok (ones, at + length bytes)
    unfolding put_strs get_strs
    get_strs-put_strs {raw} [] at {bytes} q p =
        let e : at ≡ at + length bytes = omega (arith, ap length (ok-injective q)) in
        ap (λ k. ok ([], k)) e
    get_strs-put_strs {raw} (one ∷ ones) at {bytes} q p =
        let (a, qa, q₁) = >>=-inv (put_str t one) _ q in
        let (b, qb, q₂) = >>=-inv (put_strs t ones) _ q₁ in
        let same = ok-injective q₂ in
        let p₀ : At raw at (a ++ b) = subst (At raw at) (sym same) p in
        let r₁ = get_str-put_str t law one qa (At-first a b p₀) in
        let r₂ = get_strs-put_strs ones (at + length a) qb (At-next a b p₀) in
        let end : at + length a + length b ≡ at + length bytes =
          omega (arith, ap length same, length-append a b) in
        rw (r₁, r₂, end) refl

    get_pairs-put_pairs :
        {raw : List ℕ} (d made : Dict ℕ) (at : ℕ) {bytes : List ℕ}
        → put_pairs t d ≡ ok bytes
        → At raw at bytes
        → get_pairs t (length d) raw at made ≡ ok (rebuilt d made, at + length bytes)
    unfolding put_pairs get_pairs
    get_pairs-put_pairs {raw} [] made at {bytes} q p =
        let e : at ≡ at + length bytes = omega (arith, ap length (ok-injective q)) in
        ap (λ k. ok (made, k)) e
    get_pairs-put_pairs {raw} ((key, held) ∷ d) made at {bytes} q p =
        let (a, qa, q₁) = >>=-inv (put_str t key) _ q in
        let (b, qb, q₂) = >>=-inv (put_str t (t.value_text held)) _ q₁ in
        let (c, qc, q₃) = >>=-inv (put_pairs t d) _ q₂ in
        let same = ok-injective q₃ in
        let p₀ : At raw at (a ++ (b ++ c)) = subst (At raw at) (sym same) p in
        let p₁ = At-next a (b ++ c) p₀ in
        let r₁ = get_str-put_str t law key qa (At-first a (b ++ c) p₀) in
        let r₂ = get_str-put_str t law (t.value_text held) qb (At-first b c p₁) in
        let r₃ =
          get_pairs-put_pairs d (insert key (t.value_text held) made) (at + length a + length b) qc
            (At-next b c p₁) in
        let end : at + length a + length b + length c ≡ at + length bytes =
          omega (arith, ap length same, length-append a (b ++ c), length-append b c) in
        rw (r₁, r₂, r₃, end) refl

    -- A sequence behind its count.
    counted_trip :
        {A : Type 0} {raw : List ℕ} {at : ℕ} (n : ℕ) (joined : Result (List ℕ))
        (get : ℕ → List ℕ → ℕ → Result (A × ℕ)) (wrap : A → Value) (back : A) {bytes : List ℕ}
        → ((body : List ℕ) → joined ≡ ok body → n * 2 ≤ length body)
        → ((body : List ℕ) (start : ℕ)
            → joined ≡ ok body
            → At raw start body
            → get n raw start ≡ ok (back, start + length body))
        → counted t n joined ≡ ok bytes
        → At raw at bytes
        → (get_count raw at >>= λ x. get x.0 raw x.1 >>= boxed wrap)
          ≡ ok (wrap back, at + length bytes)
    counted_trip {A} {raw} {at} n joined get wrap back {bytes} long trip q p =
        let (body, qb, q₁) = >>=-inv joined _ q in
        let (count, qc, q₂) = >>=-inv (put_count n) _ q₁ in
        let same = ok-injective q₂ in
        let p₀ : At raw at (count ++ body) = subst (At raw at) (sym same) p in
        let r₁ = get_count-put_count n body qc (long body qb) p₀ in
        let r₂ = trip body (at + length count) qb (At-next count body p₀) in
        let end : at + length count + length body ≡ at + length bytes =
          omega (arith, ap length same, length-append count body) in
        rw (r₁, r₂, end) refl

    -- A field is read back, with the texts of its commands and values.
    pub get_value-put_value :
        {raw : List ℕ} {at : ℕ} (v : Value) {bytes : List ℕ}
        → IsValue v
        → put_value t v ≡ ok bytes
        → At raw at bytes
        → get_value t raw at (kind_of v) ≡ ok (wire_value v, at + length bytes)
    unfolding put_value get_value
    get_value-put_value {raw} {at} (flag b) real q p =
        let e = ok-injective q in
        let r = get_bool-put_bool b (subst (At raw at) (sym e) p) in rw (r, e) refl
    get_value-put_value (integer i) real q p = rw (get_int-put_int i q p) refl
    get_value-put_value (text one) real q p = rw (get_str-put_str t law one q p) refl
    get_value-put_value (log_entries es) real q p =
        counted_trip (length es) (put_entries t es) (get_entries t) log_entries
          (map (wire_entry t) es) (λ body k. put_entries-long es k)
          (λ body start k place. get_entries-put_entries es start real k place) q p
    get_value-put_value (texts ones) real q p =
        counted_trip (length ones) (put_strs t ones) (get_strs t) texts ones
          (λ body k. put_strs-long ones k)
          (λ body start k place. get_strs-put_strs ones start k place) q p
    get_value-put_value (pairs d) real q p =
        counted_trip (length d) (put_pairs t d) (λ n raw at. get_pairs t n raw at []) pairs
          (rebuilt d []) (λ body k. put_pairs-long d k)
          (λ body start k place. get_pairs-put_pairs d [] start k place) q p
