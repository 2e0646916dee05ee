-- ===== src/Mask/OrWord.antt =====
-- `or_word` (mask.rs): a word of bits added to a mask.
use hybit.Base.{
  ℕ, ◌-◌, ◌/◌, ◌%◌, ◌<◌, bit_or, ◌≡◌, refl, sym, ap, ◌∙◌, arith, ◌&&◌, ◌||◌, ◌==◌, ltb, length,
  get_or, get_or-set, length-set, ltb→lt, ok, two_64, Bool-cases, inl, inr,
}
use hybit.Bits.{bit, one_shl}
use hybit.Bits.Laws.{bit-bit_and, bit-bit_or, bit-low_mask, bit_and-lt, bit_or-lt}
use hybit.Mask.{DofMask, div_ceil, or_word, merged_word}
use hybit.Mask.Valid.{member, IsValid, IsMaskOf}

bit-merged_word :
    (m : DofMask) (w bits j : ℕ)
    → IsValid m
    → w < length m.words
    → w ≡ j / 64
    → bit (merged_word m w bits) (j % 64) ≡ (member m j || (ltb j m.len && bit bits (j % 64)))
bit-merged_word m w bits j v inside here = ground (
  arith,
  bit-bit_and (bit_or (get_or m.words w 0) bits) (one_shl (m.len % 64) - 1) (j % 64),
  bit-bit_or (get_or m.words w 0) bits (j % 64),
  bit-low_mask (m.len % 64) (j % 64),
  v.tail j,
  v.size,
)

merged_word-lt :
    (m : DofMask) (w bits : ℕ) → IsValid m → bits < two_64 → merged_word m w bits < two_64
merged_word-lt m w bits v h = ground (
  arith,
  bit_and-lt 64 (bit_or (get_or m.words w 0) bits) (one_shl (m.len % 64) - 1),
  bit_or-lt 64 (get_or m.words w 0) bits (v.word w) h,
)

pub or_word_members :
    (m : DofMask) (w bits j : ℕ)
    → IsValid m
    → member (or_word m w bits) j
      ≡ (member m j || (ltb j m.len && (w == j / 64) && bit bits (j % 64)))
unfolding or_word
or_word_members m w bits j v = elim (Bool-cases (ltb w (length m.words))) [
  | inl inside ↦
      let here = ltb→lt w (length m.words) inside in
      rw (inside, get_or-set m.words w (j / 64) (merged_word m w bits) 0 here)
        (ground (arith, bit-merged_word m w bits j v here))
  | inr outside ↦ rw outside (ground (arith, v.size))
]

or_word_bound :
    (m : DofMask) (w bits : ℕ)
    → IsValid m
    → bits < two_64
    → (i : ℕ) → get_or (or_word m w bits).words i 0 < two_64
unfolding or_word
or_word_bound m w bits v h i = elim (Bool-cases (ltb w (length m.words))) [
  | inl inside ↦
      rw
        (inside, get_or-set m.words w i (merged_word m w bits) 0 (ltb→lt w (length m.words) inside))
        (ground (arith, v.word i, merged_word-lt m w bits v h))
  | inr outside ↦ rw outside (v.word i)
]

pub or_word_shape :
    (m : DofMask) (w bits : ℕ)
    → ((or_word m w bits).len ≡ m.len) × (length (or_word m w bits).words ≡ length m.words)
unfolding or_word
or_word_shape m w bits = elim (Bool-cases (ltb w (length m.words))) [
  | inl inside ↦ rw inside (refl, length-set m.words w (merged_word m w bits))
  | inr outside ↦ rw outside (refl, refl)
]

pub or_word-IsValid :
    (m : DofMask) (w bits : ℕ) → IsValid m → bits < two_64 → IsValid (or_word m w bits)
or_word-IsValid m w bits v h = record {
  size =
      (or_word_shape m w bits).1
      ∙ v.size
      ∙ ap (λ (n : ℕ). div_ceil n 64) (sym (or_word_shape m w bits).0);
  word = or_word_bound m w bits v h;
  tail =
      λ i out. or_word_members m w bits i v ∙ ground (arith, v.tail i, (or_word_shape m w bits).0);
}

-- `or_word` adds the elements that a word of bits names at its place, and none beyond the mask.
pub or_word-IsMaskOf :
    (m : DofMask) (w bits : ℕ)
    → IsValid m
    → bits < two_64
    → IsMaskOf m.len
        (λ j. member m j || (ltb j m.len && (w == j / 64) && bit bits (j % 64)))
        (ok (or_word m w bits))
or_word-IsMaskOf m w bits v h = record {
  mask = or_word m w bits;
  returns = refl;
  valid = or_word-IsValid m w bits v h;
  same_len = (or_word_shape m w bits).0;
  members = λ i. or_word_members m w bits i v;
}
