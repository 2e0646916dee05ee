-- ===== src/Layout/Spans.antt =====
-- Masks filled from one DOF to another by whole words (dof_layout.rs, field_region.rs).
use hybit.Base.{
  ℕ, zero, suc, ◌+◌, ◌-◌, ◌*◌, ◌/◌, ◌%◌, ◌≤◌, ◌<◌, ◌≡◌, ap, ◌∙◌, arith, Bool, true, false, ◌&&◌,
  ◌||◌, ◌==◌, ltb, leb, if◌then◌else◌, range, foldl, two_64, Bool-cases, inl, inr,
}
use hybit.Bits.{bit, bit_not, one_shl}
use hybit.Bits.Laws.{bit-low_mask, bit-bit_and, bit-bit_not, bit_and-lt, two_pow-pos, one_shl-lt}
use hybit.Mask.{DofMask, or_word}
use hybit.Mask.Valid.{member, IsValid}
use hybit.Mask.OrWord.{or_word-IsValid, or_word_members, or_word_shape}
use hybit.Layout.{max_shl, field_bits}

-- A valid mask over n whose set is f.
pub record Holds (n : ℕ) (f : ℕ → Bool) (m : DofMask) : Type 0 where
  pub valid : IsValid m
  pub same_len : m.len ≡ n
  pub members : (j : ℕ) → member m j ≡ f j

pub Holds-same :
    {n : ℕ} {f g : ℕ → Bool} {m : DofMask} → ((j : ℕ) → f j ≡ g j) → Holds n f m → Holds n g m
Holds-same e h = record { valid = h.valid; same_len = h.same_len; members = λ j. h.members j ∙ e j }

module _ (bits : ℕ → ℕ) (below : (w : ℕ) → bits w < two_64) where
  abbrev in_words : ℕ → ℕ → ℕ → Bool
  in_words a n j = leb a (j / 64) && ltb (j / 64) (a + n) && bit (bits (j / 64)) (j % 64)

  pub fold_words :
      (a n len : ℕ) (m : DofMask)
      → IsValid m
      → m.len ≡ len
      → Holds len
          (λ j. member m j || (ltb j len && in_words a n j))
          (foldl (λ m w. or_word m w (bits w)) m (range a n))
  fold_words a zero len m v e = record { valid = v; same_len = e; members = λ j. ground arith }
  fold_words a (suc n) len m v e =
      let next = or_word m a (bits a) in
      let rest : Holds len (λ j. member next j || (ltb j len && in_words (suc a) n j)) _ =
        fold_words (suc a) n len next (or_word-IsValid m a (bits a) v (below a))
          ((or_word_shape m a (bits a)).0 ∙ e) in
      Holds-same (λ j. step j) rest
    where
      step :
          (j : ℕ)
          → (member (or_word m a (bits a)) j || (ltb j len && in_words (suc a) n j))
            ≡ (member m j || (ltb j len && in_words a (suc n) j))
      step j = elim (Bool-cases (a == j / 64)) [
        | inl here ↦
            let same : a ≡ j / 64 = ground arith in
            rw (or_word_members m a (bits a) j v, e, same) (ground arith)
        | inr other ↦ rw (or_word_members m a (bits a) j v, e, other) (ground arith)
      ]

max_shl-eq : (n : ℕ) → n < 64 → max_shl n ≡ bit_not (one_shl n - 1)
max_shl-eq n h = omega (arith, two_pow-pos n, one_shl-lt n h)

pub bit-max_shl : (n j : ℕ) → n < 64 → j < 64 → bit (max_shl n) j ≡ leb n j
bit-max_shl n j h lt =
    rw
      (
        max_shl-eq n h,
        bit-bit_not (one_shl n - 1) j (omega (arith, one_shl-lt n h)) lt,
        bit-low_mask n j,
      )
      (ground arith)

pub max_shl-lt : (n : ℕ) → max_shl n < two_64
max_shl-lt n = omega arith

pub bit-max : (j : ℕ) → j < 64 → bit (two_64 - 1) j ≡ true
bit-max j lt = bit-low_mask 64 j ∙ ground arith

-- The bits of a word that lie between two DOFs.
unfoldable pub in_span : ℕ → ℕ → ℕ → Bool
in_span start last j = leb start j && leb j last

bit-high :
    (n j : ℕ) → n ≤ 64 → j < 64 → bit (if n == 64 then two_64 - 1 else one_shl n - 1) j ≡ ltb j n
bit-high n j h lt = elim (Bool-cases (n == 64)) [
  | inl full ↦ rw full (bit-max j lt ∙ ground arith)
  | inr part ↦ rw part (bit-low_mask n j)
]

pub bit-field_bits :
    (start last w j : ℕ)
    → start / 64 ≤ w
    → w ≤ last / 64
    → j < 64
    → bit (field_bits start last w) j ≡ in_span start last (w * 64 + j)
unfolding in_span
bit-field_bits start last w j lo hi lt =
    bit-bit_and _ _ j
    ∙ rw
        (
          bit-high (if w == last / 64 then last % 64 + 1 else 64) j (ground arith) lt,
          bit-max_shl (if w == start / 64 then start % 64 else 0) j (ground arith) lt,
        )
        (ground arith)

high-lt : (n : ℕ) → n ≤ 64 → (if n == 64 then two_64 - 1 else one_shl n - 1) < two_64
high-lt n h = elim (Bool-cases (n == 64)) [
  | inl full ↦ rw full (omega arith)
  | inr part ↦ rw part (omega (arith, one_shl-lt n (ground arith)))
]

pub field_bits-lt : (start last w : ℕ) → field_bits start last w < two_64
field_bits-lt start last w =
    bit_and-lt 64 (if last_exclusive == 64 then two_64 - 1 else one_shl last_exclusive - 1) _
      (high-lt last_exclusive (ground arith))
  where
    last_exclusive : ℕ
    last_exclusive = if w == last / 64 then last % 64 + 1 else 64

in_span_beyond :
    (start last j : ℕ)
    → (leb (start / 64) (j / 64) && leb (j / 64) (last / 64)) ≡ false
    → in_span start last j ≡ false
unfolding in_span
in_span_beyond start last j h = ground arith

-- Or-ing in a word for each word from that of `start` to that of `last` adds the DOFs between them.
pub fold_span :
    (bits : ℕ → ℕ) (start last len : ℕ) (m : DofMask)
    → ((w : ℕ) → bits w < two_64)
    → ((w j : ℕ)
        → start / 64 ≤ w
        → w ≤ last / 64
        → j < 64
        → bit (bits w) j ≡ in_span start last (w * 64 + j))
    → start ≤ last
    → IsValid m
    → m.len ≡ len
    → Holds len
        (λ j. member m j || (ltb j len && in_span start last j))
        (foldl (λ m w. or_word m w (bits w)) m (range (start / 64) (last / 64 + 1 - start / 64)))
fold_span bits start last len m below means le v e =
    Holds-same (λ j. ap (λ (b : Bool). member m j || (ltb j len && b)) (step j))
      (fold_words bits below (start / 64) (last / 64 + 1 - start / 64) len m v e)
  where
    inside :
        (j : ℕ)
        → start / 64 ≤ j / 64
        → j / 64 ≤ last / 64
        → bit (bits (j / 64)) (j % 64) ≡ in_span start last j
    inside j lo hi =
        means (j / 64) (j % 64) lo hi (omega arith) ∙ ap (in_span start last) (omega arith)

    step :
        (j : ℕ)
        → (leb (start / 64) (j / 64)
            && ltb (j / 64) (start / 64 + (last / 64 + 1 - start / 64))
            && bit (bits (j / 64)) (j % 64))
          ≡ in_span start last j
    step j = elim (Bool-cases (leb (start / 64) (j / 64) && leb (j / 64) (last / 64))) [
      | inl within ↦ rw (inside j (ground arith) (ground arith)) (ground arith)
      | inr beyond ↦ rw (in_span_beyond start last j beyond) (ground arith)
    ]
