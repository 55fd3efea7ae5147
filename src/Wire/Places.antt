-- ===== src/Wire/Places.antt =====
-- Bytes at a place of a buffer, and numbers written big-endian.
use replicated_state_machine.Prelude.{
  ℕ, zero, suc, ◌+◌, ◌*◌, ◌/◌, ◌%◌, ◌^◌, ◌≤◌, ◌<◌, ◌≡◌, refl, sym, ap, ◌∙◌, List, [], ◌∷◌, ◌++◌,
  length, take, drop, length-append, arith,
}
use mathlib.Core.List.{append_assoc}
use replicated_state_machine.Wire.Fields.{big_endian, number_from, slice, word_at}

-- `bytes` stand in `raw` from `at` on.
pub record At (raw : List ℕ) (at : ℕ) (bytes : List ℕ) : Type 0 where
  pub front : List ℕ
  pub back : List ℕ
  pub whole : raw ≡ front ++ (bytes ++ back)
  pub place : length front ≡ at

drop-append : (xs ys : List ℕ) → drop (length xs) (xs ++ ys) ≡ ys
drop-append [] ys = refl
drop-append (x ∷ xs) ys = drop-append xs ys

take-append : (xs ys : List ℕ) → take (length xs) (xs ++ ys) ≡ xs
take-append [] ys = refl
take-append (x ∷ xs) ys = ap (λ zs. x ∷ zs) (take-append xs ys)

pub At-drop :
    {raw : List ℕ} {at : ℕ} {bytes : List ℕ} (h : At raw at bytes) → drop at raw ≡ bytes ++ h.back
At-drop {raw} {at} {bytes} h = rw (h.whole, ← h.place) (drop-append h.front (bytes ++ h.back))

pub slice-At :
    {raw : List ℕ} {at : ℕ} {bytes : List ℕ} → At raw at bytes → slice raw at (length bytes) ≡ bytes
unfolding slice
slice-At {raw} {at} {bytes} h = rw (At-drop h) (take-append bytes h.back)

pub At-fits :
    {raw : List ℕ} {at : ℕ} {bytes : List ℕ} → At raw at bytes → at + length bytes ≤ length raw
At-fits {raw} {at} {bytes} h = omega (
  arith,
  h.place,
  ap length h.whole,
  length-append h.front (bytes ++ h.back),
  length-append bytes h.back,
)

pub At-first : {raw : List ℕ} {at : ℕ} (a b : List ℕ) → At raw at (a ++ b) → At raw at a
At-first a b h = record {
  front = h.front;
  back = b ++ h.back;
  whole = h.whole ∙ ap (λ (zs : List ℕ). h.front ++ zs) (append_assoc a b h.back);
  place = h.place;
}

pub At-next : {raw : List ℕ} {at : ℕ} (a b : List ℕ) → At raw at (a ++ b) → At raw (at + length a) b
At-next a b h = record {
  front = h.front ++ a;
  back = h.back;
  whole = h.whole ∙ simp append_assoc;
  place = omega (arith, h.place, length-append h.front a);
}

pub At-start : (bytes back : List ℕ) → At (bytes ++ back) 0 bytes
At-start bytes back = record { front = []; back = back; whole = refl; place = refl }

pub length-big_endian : (k n : ℕ) → length (big_endian k n) ≡ k
unfolding big_endian
length-big_endian zero n = refl
length-big_endian (suc k) n =
    omega
      (arith, length-append (big_endian k (n / 256)) (n % 256 ∷ []), length-big_endian k (n / 256))

number_from-append :
    (acc : ℕ) (xs : List ℕ) (b : ℕ) → number_from acc (xs ++ b ∷ []) ≡ number_from acc xs * 256 + b
unfolding number_from
number_from-append acc [] b = refl
number_from-append acc (x ∷ xs) b = number_from-append (acc * 256 + x) xs b

-- What is written in `k` bytes and fits into them is read back.
pub number_from-big_endian : (k n : ℕ) → n < 256 ^ k → number_from 0 (big_endian k n) ≡ n
unfolding big_endian number_from
number_from-big_endian zero n h = omega arith
number_from-big_endian (suc k) n h = omega (
  arith,
  number_from-append 0 (big_endian k (n / 256)) (n % 256),
  number_from-big_endian k (n / 256) (omega arith),
)

pub word_at-At :
    {raw : List ℕ} {at : ℕ} (k n : ℕ)
    → n < 256 ^ k
    → At raw at (big_endian k n)
    → word_at raw at k ≡ n
unfolding word_at
word_at-At {raw} {at} k n h p =
    let e : slice raw at k ≡ big_endian k n =
      sym (ap (slice raw at) (length-big_endian k n)) ∙ slice-At p in
    ap (number_from 0) e ∙ number_from-big_endian k n h
