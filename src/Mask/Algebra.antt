-- ===== src/Mask/Algebra.antt =====
-- Union, intersection and difference of masks and the test for a common element (mask.rs), as
-- operations on sets.
use hybit.Base.{
  ℕ, zero, suc, ◌+◌, ◌*◌, ◌/◌, ◌%◌, ◌<◌, bit_and, bit_or, ◌≡◌, ◌≢◌, refl, sym, ap, ◌∙◌, arith, Bool,
  true, false, not, ◌&&◌, ◌||◌, ◌==◌, List, [], ◌∷◌, length, get_or, ok, err, two_64, Bool-cases,
  inl, inr, ◌↔◌,
}
use hybit.Bits.{bit, bit_not}
use hybit.Bits.Laws.{
  bit-zero, bit-bit_and, bit-bit_or, bit-bit_not, bit_and-lt, bit_or-lt, bit_exists,
}
use hybit.Bits.Ones.{ne-zero_of_bit}
use hybit.Core.{dimension_mismatch}
use hybit.Mask.{
  DofMask, div_ceil, zip_words, union_assign, intersect_assign, and_not_assign, any_common,
  intersects,
}
use hybit.Mask.Valid.{member, IsValid, IsMaskOf}

length-zip_words : (op : ℕ → ℕ → ℕ) (xs ys : List ℕ) → length (zip_words op xs ys) ≡ length xs
unfolding zip_words
length-zip_words op [] ys = refl
length-zip_words op (x ∷ xs) [] = refl
length-zip_words op (x ∷ xs) (y ∷ ys) = ap suc (length-zip_words op xs ys)

get_or-zip_words :
    (op : ℕ → ℕ → ℕ) (xs ys : List ℕ) (i : ℕ)
    → op 0 0 ≡ 0
    → length xs ≡ length ys
    → get_or (zip_words op xs ys) i 0 ≡ op (get_or xs i 0) (get_or ys i 0)
unfolding zip_words
get_or-zip_words op [] [] i e h = sym e
get_or-zip_words op [] (y ∷ ys) i e h = absurd (omega arith)
get_or-zip_words op (x ∷ xs) [] i e h = absurd (omega arith)
get_or-zip_words op (x ∷ xs) (y ∷ ys) zero e h = refl
get_or-zip_words op (x ∷ xs) (y ∷ ys) (suc i) e h = get_or-zip_words op xs ys i e (omega arith)

-- A word operation that acts on each bit by f.
record ActsBitwise (op : ℕ → ℕ → ℕ) (f : Bool → Bool → Bool) : Type 0 where
  at_zero : op 0 0 ≡ 0
  keeps_zero : f false false ≡ false
  bounded : (a b : ℕ) → a < two_64 → b < two_64 → op a b < two_64
  bits : (a b i : ℕ) → a < two_64 → b < two_64 → i < 64 → bit (op a b) i ≡ f (bit a i) (bit b i)

zipped-IsMaskOf :
    (op : ℕ → ℕ → ℕ) (f : Bool → Bool → Bool) (a b : DofMask)
    → ActsBitwise op f
    → IsValid a
    → IsValid b
    → a.len ≡ b.len
    → IsMaskOf a.len
        (λ i. f (member a i) (member b i))
        (ok (record a { words = zip_words op a.words b.words }))
zipped-IsMaskOf op f a b acts va vb same = record {
  mask = record a { words = zip_words op a.words b.words };
  returns = refl;
  valid = record {
    size = length-zip_words op a.words b.words ∙ va.size;
    word = λ i. rw (at i) (acts.bounded _ _ (va.word i) (vb.word i));
    tail = λ i h. members i ∙ rw (va.tail i h, vb.tail i (rw (← same) h)) acts.keeps_zero;
  };
  same_len = refl;
  members = members;
}
  where
    sizes : length a.words ≡ length b.words
    sizes = va.size ∙ ap (λ (n : ℕ). div_ceil n 64) same ∙ sym vb.size

    at :
        (i : ℕ)
        → get_or (zip_words op a.words b.words) i 0 ≡ op (get_or a.words i 0) (get_or b.words i 0)
    at i = get_or-zip_words op a.words b.words i acts.at_zero sizes

    members :
        (i : ℕ)
        → bit (get_or (zip_words op a.words b.words) (i / 64) 0) (i % 64)
          ≡ f (member a i) (member b i)
    members i =
        rw (at (i / 64))
          (acts.bits _ _ (i % 64) (va.word (i / 64)) (vb.word (i / 64)) (omega arith))

or_acts : ActsBitwise bit_or ◌||◌
or_acts = record {
  at_zero = refl;
  keeps_zero = refl;
  bounded = bit_or-lt 64;
  bits = λ a b i ha hb lt. bit-bit_or a b i;
}

and_acts : ActsBitwise bit_and ◌&&◌
and_acts = record {
  at_zero = refl;
  keeps_zero = refl;
  bounded = λ a b ha hb. bit_and-lt 64 a b ha;
  bits = λ a b i ha hb lt. bit-bit_and a b i;
}

and_not_acts : ActsBitwise (λ x y. bit_and x (bit_not y)) (λ p q. p && not q)
and_not_acts = record {
  at_zero = refl;
  keeps_zero = refl;
  bounded = λ a b ha hb. bit_and-lt 64 a (bit_not b) ha;
  bits = λ a b i ha hb lt. rw (bit-bit_and a (bit_not b) i, bit-bit_not b i hb lt);
}

-- On masks of one length the three assignments are union, intersection and difference of sets.
pub assign-IsMaskOf :
    (a b : DofMask)
    → IsValid a
    → IsValid b
    → a.len ≡ b.len
    → IsMaskOf a.len (λ i. member a i || member b i) (union_assign a b)
      × IsMaskOf a.len (λ i. member a i && member b i) (intersect_assign a b)
      × IsMaskOf a.len (λ i. member a i && not (member b i)) (and_not_assign a b)
unfolding union_assign intersect_assign and_not_assign
assign-IsMaskOf a b va vb same =
    let same_len : (a.len == b.len) ≡ true = ground arith in
    (
      rw same_len (zipped-IsMaskOf bit_or ◌||◌ a b or_acts va vb same),
      rw same_len (zipped-IsMaskOf bit_and ◌&&◌ a b and_acts va vb same),
      rw same_len (
          zipped-IsMaskOf (λ x y. bit_and x (bit_not y)) (λ p q. p && not q) a b and_not_acts va vb
            same),
    )

-- Masks of different lengths are refused, and the error carries both lengths.
pub assign_mismatch :
    (a b : DofMask)
    → a.len ≢ b.len
    → (union_assign a b ≡ err (dimension_mismatch a.len b.len))
      × (intersect_assign a b ≡ err (dimension_mismatch a.len b.len))
      × (and_not_assign a b ≡ err (dimension_mismatch a.len b.len))
      × (intersects a b ≡ err (dimension_mismatch a.len b.len))
unfolding union_assign intersect_assign and_not_assign intersects
assign_mismatch a b ne =
    let differ : (a.len == b.len) ≡ false = ground arith in
    (rw differ refl, rw differ refl, rw differ refl, rw differ refl)

any_common_found :
    (xs ys : List ℕ)
    → ((i : ℕ) → get_or xs i 0 < two_64)
    → any_common xs ys ≡ true
    → (w i : ℕ) × (i < 64) × (bit (get_or xs w 0) i ≡ true) × (bit (get_or ys w 0) i ≡ true)
unfolding any_common
any_common_found [] ys bounds h = absurd (cc h)
any_common_found (x ∷ xs) [] bounds h = absurd (cc h)
any_common_found (x ∷ xs) (y ∷ ys) bounds h = elim (Bool-cases (bit_and x y == 0)) [
  | inl none_here ↦
      let (w, i, lt, p, q) = any_common_found xs ys (λ k. bounds (suc k)) (rw none_here at h) in
      (suc w, i, lt, p, q)
  | inr some_here ↦
      let (i, lt, p) = bit_exists 64 (bit_and x y) (bit_and-lt 64 x y (bounds 0)) (ground arith) in
      (0, i, lt, ground (arith, bit-bit_and x y i), ground (arith, bit-bit_and x y i))
]

any_common_finds :
    (xs ys : List ℕ) (w i : ℕ)
    → bit (get_or xs w 0) i ≡ true
    → bit (get_or ys w 0) i ≡ true
    → any_common xs ys ≡ true
unfolding any_common
any_common_finds [] ys w i p q = ground (arith, bit-zero i)
any_common_finds (x ∷ xs) [] w i p q = ground (arith, bit-zero i)
any_common_finds (x ∷ xs) (y ∷ ys) zero i p q =
    ground (arith, bit-bit_and x y i, ne-zero_of_bit (bit_and x y) i)
any_common_finds (x ∷ xs) (y ∷ ys) (suc w) i p q = ground (arith, any_common_finds xs ys w i p q)

-- `intersects` on masks of one length answers whether the two sets have an element in common.
pub intersects_iff :
    (a b : DofMask)
    → IsValid a
    → a.len ≡ b.len
    → (answer : Bool) × (intersects a b ≡ ok answer)
      × ((answer ≡ true) ↔ ((i : ℕ) × (member a i ≡ true) × (member b i ≡ true)))
unfolding intersects
intersects_iff a b va same =
    let same_len : (a.len == b.len) ≡ true = ground arith in
    (
      any_common a.words b.words,
      rw same_len refl,
      (found, λ (i, p, q). any_common_finds a.words b.words (i / 64) (i % 64) p q),
    )
  where
    found : any_common a.words b.words ≡ true → (i : ℕ) × (member a i ≡ true) × (member b i ≡ true)
    found h =
        let (w, i, lt, p, q) = any_common_found a.words b.words va.word h in
        let quotient : (w * 64 + i) / 64 ≡ w = omega arith in
        let rest : (w * 64 + i) % 64 ≡ i = omega arith in
        (w * 64 + i, rw (quotient, rest) p, rw (quotient, rest) q)
