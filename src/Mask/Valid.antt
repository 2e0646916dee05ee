-- ===== src/Mask/Valid.antt =====
-- The set that a mask stands for, the invariant of masks, and single elements (mask.rs).
use hybit.Base.{
  ◌-◌, ◌*◌, all, range, get_or_beyond, ltb, suc, zero, List, not, [], ◌∷◌, ℕ, ◌+◌, ◌*◌, ◌/◌, ◌%◌,
  ◌≤◌, ◌<◌, bit_and, bit_or, ◌≡◌, refl, sym, ap, ◌∙◌, arith, Bool, true, false, ◌==◌, leb,
  if◌then◌else◌, length, get_or, set, get_or-set, lt→ltb, get_or-replicate, get_or_ext, length-set,
  length-replicate, at-eq-ok, ok, err, two_64, Bool-cases, inl, inr, leb→le, le→leb,
}
use hybit.Bits.{bit, one_shl, bit_not}
use hybit.Bits.Laws.{
  bit-zero, bit-bit_and, bit-bit_or, bit-bit_not, bit-one_shl, bit_and-lt, bit_or-lt, one_shl-lt,
  bit_ext,
}
use hybit.Bits.Ones.{test_bit}
use hybit.Core.{Result, invalid_argument}
use hybit.Mask.{DofMask, div_ceil, new, set_dof, contains}

-- Membership in the set that a mask stands for.
abbrev pub member : DofMask → ℕ → Bool
member m i = bit (get_or m.words (i / 64) 0) (i % 64)

pub record IsValid (m : DofMask) : Type 0 where
  pub size : length m.words ≡ div_ceil m.len 64
  pub word : (i : ℕ) → get_or m.words i 0 < two_64
  pub tail : (i : ℕ) → m.len ≤ i → member m i ≡ false

-- The run returns a valid mask over n numbers whose set is f.
pub record IsMaskOf (n : ℕ) (f : ℕ → Bool) (r : Result DofMask) : Type 0 where
  pub mask : DofMask
  pub returns : r ≡ ok mask
  pub valid : IsValid mask
  pub same_len : mask.len ≡ n
  pub members : (i : ℕ) → member mask i ≡ f i

pub word_in_range : (n i : ℕ) → i < n → i / 64 < div_ceil n 64
word_in_range n i h = ground arith

pub div_ceil_covers : (n w b : ℕ) → div_ceil n 64 ≤ w → n ≤ w * 64 + b
div_ceil_covers n w b h = ground arith

pub contains-eq-member : (m : DofMask) (i : ℕ) → IsValid m → contains m i ≡ ok (member m i)
unfolding contains
contains-eq-member m i v = elim (Bool-cases (leb m.len i)) [
  | inl out ↦ rw (out, v.tail i (leb→le m.len i out)) refl
  | inr inside ↦
      let there : i / 64 < length m.words = ground (arith, word_in_range m.len i, v.size) in
      rw (inside, at-eq-ok m.words (i / 64) 0 there)
        (ap ok (test_bit (get_or m.words (i / 64) 0) (i % 64) (v.word (i / 64))))
]

pub member-new : (n i : ℕ) → member (new n) i ≡ false
unfolding new
member-new n i = rw get_or-replicate (bit-zero (i % 64))

pub len-new : (n : ℕ) → (new n).len ≡ n
unfolding new
len-new n = refl

pub new-IsValid : (n : ℕ) → IsValid (new n)
unfolding new
new-IsValid n = record {
  size = length-replicate (div_ceil n 64) 0;
  word = λ i. rw get_or-replicate (omega arith);
  tail = λ i h. rw get_or-replicate (bit-zero (i % 64));
}

pub mask_ext :
    (a b : DofMask)
    → IsValid a
    → IsValid b
    → a.len ≡ b.len
    → ((i : ℕ) → member a i ≡ member b i)
    → a ≡ b
mask_ext a b va vb same h = λ k. record { len = same k; words = words_same k }
  where
    bits_same : (w i : ℕ) → i < 64 → bit (get_or a.words w 0) i ≡ bit (get_or b.words w 0) i
    bits_same w i lt =
        let quotient : (w * 64 + i) / 64 ≡ w = omega arith in
        let rest : (w * 64 + i) % 64 ≡ i = omega arith in rw (quotient, rest) at (h (w * 64 + i))

    words_same : a.words ≡ b.words
    words_same =
        get_or_ext 0 a.words b.words (va.size ∙ ap (λ (n : ℕ). div_ceil n 64) same ∙ sym vb.size)
          (λ w. bit_ext 64 _ _ (va.word w) (vb.word w) (bits_same w))

-- What `set` stores: the word with one bit changed.
abbrev pub stored_word : ℕ → ℕ → Bool → ℕ
stored_word w o value = if value then bit_or w (one_shl o) else bit_and w (bit_not (one_shl o))

stored_word-lt : (w o : ℕ) (value : Bool) → w < two_64 → o < 64 → stored_word w o value < two_64
stored_word-lt w o true h lt = bit_or-lt 64 w (one_shl o) h (one_shl-lt o lt)
stored_word-lt w o false h lt = bit_and-lt 64 w (bit_not (one_shl o)) h

bit-stored_word :
    (w o : ℕ) (value : Bool) (j : ℕ)
    → o < 64
    → j < 64
    → bit (stored_word w o value) j ≡ (if o == j then value else bit w j)
bit-stored_word w o true j lt ltj = rw bit-bit_or (ground (arith, bit-one_shl o j))
bit-stored_word w o false j lt ltj =
    rw bit-bit_and
      (ground (arith, bit-one_shl o j, bit-bit_not (one_shl o) j (one_shl-lt o lt) ltj))

-- Inside the mask `set` changes one element and nothing else.
pub set_dof-IsMaskOf :
    (m : DofMask) (i : ℕ) (value : Bool)
    → IsValid m
    → i < m.len
    → IsMaskOf m.len (λ j. if i == j then value else member m j) (set_dof m i value)
unfolding set_dof
set_dof-IsMaskOf m i value v h = record {
  mask = result;
  returns =
      rw (inside, at-eq-ok m.words (i / 64) 0 there, lt→ltb (i / 64) (length m.words) there) refl;
  valid = record {
    size = length-set m.words (i / 64) w' ∙ v.size;
    word = λ k. rw (get_or-set m.words (i / 64) k w' 0 there) (
        ground (
          arith,
          v.word k,
          v.word (i / 64),
          stored_word-lt (get_or m.words (i / 64) 0) (i % 64) value,
        ));
    tail = λ j out. members j ∙ ground (arith, v.tail j out);
  };
  same_len = refl;
  members = members;
}
  where
    w' : ℕ
    w' = stored_word (get_or m.words (i / 64) 0) (i % 64) value

    result : DofMask
    result = record m { words = set m.words (i / 64) w' }

    there : i / 64 < length m.words
    there = ground (arith, word_in_range m.len i, v.size)

    inside : leb m.len i ≡ false
    inside = ground arith

    members : (j : ℕ) → member result j ≡ (if i == j then value else member m j)
    members j =
        rw (get_or-set m.words (i / 64) (j / 64) w' 0 there)
          (ground (arith, bit-stored_word (get_or m.words (i / 64) 0) (i % 64) value (j % 64)))

-- Beyond the mask `set` is an error.
pub set_dof-out :
    (m : DofMask) (i : ℕ) (value : Bool)
    → m.len ≤ i
    → set_dof m i value ≡ err (invalid_argument "DOF mask index out of range")
unfolding set_dof
set_dof-out m i value h = rw (le→leb m.len i h) refl

all-range : (p : ℕ → Bool) (i n k : ℕ) → all p (range i n) ≡ true → i ≤ k → k < i + n → p k ≡ true
all-range p i zero k h le lt = absurd (omega arith)
all-range p i (suc n) k h le lt = elim (Bool-cases (i == k)) [
  | inl here ↦ let e : i ≡ k = ground arith in rw e at (all_head p i (range (suc i) n) h)
  | inr later ↦
      all-range p (suc i) n k (all_tail p i (range (suc i) n) h) (ground arith) (omega arith)
]
  where
    all_head : (p : ℕ → Bool) (x : ℕ) (xs : List ℕ) → all p (x ∷ xs) ≡ true → p x ≡ true
    all_head p x xs h = ground arith

    all_tail : (p : ℕ → Bool) (x : ℕ) (xs : List ℕ) → all p (x ∷ xs) ≡ true → all p xs ≡ true
    all_tail p x xs h = ground arith

pub words_below : (xs : List ℕ) (i : ℕ) → all (λ w. ltb w two_64) xs ≡ true → get_or xs i 0 < two_64
words_below [] i h = omega arith
words_below (x ∷ xs) zero h = ground arith
words_below (x ∷ xs) (suc i) h = words_below xs i (ground arith)

-- The invariant of a given mask, by computation.
pub IsValid-of_check :
    (m : DofMask)
    → length m.words ≡ div_ceil m.len 64
    → all (λ w. ltb w two_64) m.words ≡ true
    → all (λ i. not (member m i)) (range m.len (length m.words * 64 - m.len)) ≡ true
    → IsValid m
IsValid-of_check m size words tail = record {
  size = size;
  word = λ i. words_below m.words i words;
  tail = λ i out. elim (Bool-cases (ltb (i / 64) (length m.words))) [
    | inl inside ↦ ground (
      arith,
      all-range (λ (i : ℕ). not (member m i)) m.len (length m.words * 64 - m.len) i tail out
          (ground arith),
    )
    | inr beyond ↦ rw (get_or_beyond m.words (i / 64) 0 (ground arith)) (bit-zero (i % 64))
  ];
}
