-- ===== src/FieldRegion/Words.antt =====
-- The words of a block in `close_to_field_blocks` (field_region.rs), and the search for a selected
-- DOF in them.
use hybit.Base.{
  ℕ, zero, suc, ◌+◌, ◌-◌, ◌*◌, ◌/◌, ◌%◌, ◌≤◌, ◌<◌, bit_and, ◌≡◌, refl, sym, ◌∙◌, arith, Bool, true,
  not, ◌&&◌, ◌==◌, leb, List, [], ◌∷◌, length, get_or, take, drop, any, enumerate, two_64,
  Bool-cases, inl, inr,
}
use hybit.Bits.{bit}
use hybit.Bits.Laws.{bit-bit_and, bit_and-lt, bit-low_mask, bit_exists}
use hybit.Bits.Ones.{ne-zero_of_bit}
use hybit.Mask.{DofMask}
use hybit.Mask.Valid.{member, IsValid}
use hybit.Layout.Spans.{bit-max, bit-max_shl, in_span}
use hybit.FieldRegion.{low_bits, high_bits, block_hit}

bit-low_bits :
    (start w j : ℕ) → start / 64 ≤ w → j < 64 → bit (low_bits start w) j ≡ leb start (w * 64 + j)
bit-low_bits start w j lo lt = elim (Bool-cases (w == start / 64)) [
  | inl first ↦ rw first (bit-max_shl (start % 64) j (omega arith) lt ∙ ground arith)
  | inr later ↦ rw later (bit-max j lt ∙ ground arith)
]

bit-high_bits :
    (end w j : ℕ)
    → 0 < end
    → w ≤ (end - 1) / 64
    → j < 64
    → bit (high_bits end w) j ≡ leb (w * 64 + j) (end - 1)
bit-high_bits end w j pos hi lt = elim (Bool-cases ((w == (end - 1) / 64) && not (end % 64 == 0))) [
  | inl last ↦ rw last (bit-low_mask (end % 64) j ∙ ground arith)
  | inr inner ↦ rw inner (bit-max j lt ∙ ground arith)
]

pub bit-span_bits :
    (start end w j : ℕ)
    → start < end
    → start / 64 ≤ w
    → w ≤ (end - 1) / 64
    → j < 64
    → bit (bit_and (low_bits start w) (high_bits end w)) j ≡ in_span start (end - 1) (w * 64 + j)
unfolding in_span
bit-span_bits start end w j lt lo hi small =
    bit-bit_and (low_bits start w) (high_bits end w) j
    ∙ rw (bit-low_bits start w j lo small, bit-high_bits end w j (omega arith) hi small) refl

pub span_bits-lt : (start end w : ℕ) → bit_and (low_bits start w) (high_bits end w) < two_64
span_bits-lt start end w = bit_and-lt 64 (low_bits start w) (high_bits end w) (ground arith)

any_entry :
    (p : ℕ × ℕ → Bool) (s a b : ℕ) (ws : List ℕ)
    → any p (drop a (take b (enumerate s ws))) ≡ true
    → (i : ℕ) × (a ≤ i) × (i < b) × (i < length ws) × (p (s + i, get_or ws i 0) ≡ true)
any_entry p s zero zero ws h = absurd (cc h)
any_entry p s (suc a) zero ws h = absurd (cc h)
any_entry p s zero (suc b) [] h = absurd (cc h)
any_entry p s (suc a) (suc b) [] h = absurd (cc h)
any_entry p s zero (suc b) (w ∷ ws) h = elim (Bool-cases (p (s, w))) [
  | inl here ↦
      let e : s + 0 ≡ s = omega arith in (0, omega arith, omega arith, omega arith, rw e here)
  | inr later ↦
      let (i, lo, hi, inside, found) = any_entry p (suc s) 0 b ws (rw later at h) in
      let e : s + suc i ≡ suc s + i = omega arith in
      (suc i, omega arith, omega arith, omega arith, rw e found)
]
any_entry p s (suc a) (suc b) (w ∷ ws) h =
    let (i, lo, hi, inside, found) = any_entry p (suc s) a b ws h in
    let e : s + suc i ≡ suc s + i = omega arith in
    (suc i, omega arith, omega arith, omega arith, rw e found)

any_of_entry :
    (p : ℕ × ℕ → Bool) (s a b : ℕ) (ws : List ℕ) (i : ℕ)
    → a ≤ i
    → i < b
    → i < length ws
    → p (s + i, get_or ws i 0) ≡ true
    → any p (drop a (take b (enumerate s ws))) ≡ true
any_of_entry p s a zero ws i lo hi inside h = absurd (omega arith)
any_of_entry p s a (suc b) [] i lo hi inside h = absurd (omega arith)
any_of_entry p s zero (suc b) (w ∷ ws) zero lo hi inside h =
    let e : s + 0 ≡ s = omega arith in rw (rw e at h) refl
any_of_entry p s (suc a) (suc b) (w ∷ ws) zero lo hi inside h = absurd (omega arith)
any_of_entry p s zero (suc b) (w ∷ ws) (suc i) lo hi inside h =
    let e : s + suc i ≡ suc s + i = omega arith in
    ground
      (arith, any_of_entry p (suc s) 0 b ws i (omega arith) (omega arith) (omega arith) (rw e at h))
any_of_entry p s (suc a) (suc b) (w ∷ ws) (suc i) lo hi inside h =
    let e : s + suc i ≡ suc s + i = omega arith in
    any_of_entry p (suc s) a b ws i (omega arith) (omega arith) (omega arith) (rw e at h)

abbrev selected_bits : ℕ → ℕ → ℕ → ℕ → ℕ
selected_bits x start end w = bit_and (bit_and x (low_bits start w)) (high_bits end w)

module _ (m : DofMask) (v : IsValid m) (start end : ℕ) (some_dof : start < end) where
  bit-selected :
      (w j : ℕ)
      → start / 64 ≤ w
      → w ≤ (end - 1) / 64
      → j < 64
      → bit (selected_bits (get_or m.words w 0) start end w) j
        ≡ (member m (w * 64 + j) && in_span start (end - 1) (w * 64 + j))
  unfolding in_span
  bit-selected w j lo hi small =
      let word : (w * 64 + j) / 64 ≡ w = omega arith in
      let place : (w * 64 + j) % 64 ≡ j = omega arith in
      rw
        (
          bit-bit_and (bit_and (get_or m.words w 0) (low_bits start w)) (high_bits end w) j,
          bit-bit_and (get_or m.words w 0) (low_bits start w) j,
          bit-low_bits start w j lo small,
          bit-high_bits end w j (omega arith) hi small,
          word,
          place,
        )
        (ground arith)

  bounds :
      (i : ℕ)
      → (member m i && in_span start (end - 1) i) ≡ true
      → (start ≤ i) × (i < end) × (member m i ≡ true)
  unfolding in_span
  bounds i h = (ground arith, ground arith, ground arith)

  pub hit_member :
      block_hit m.words start end (end - 1) ≡ true
      → (i : ℕ) × (start ≤ i) × (i < end) × (member m i ≡ true)
  hit_member h =
      let (w, lo, hi, inside, found) =
        any_entry (λ (entry : ℕ × ℕ). not (selected_bits entry.1 start end entry.0 == 0)) 0
          (start / 64) ((end - 1) / 64 + 1) m.words h in
      let here : 0 + w ≡ w = omega arith in
      let found' = rw here at found in
      let (j, small, set) =
        bit_exists 64 (selected_bits (get_or m.words w 0) start end w)
          (bit_and-lt 64 _ _ (bit_and-lt 64 _ _ (v.word w))) (ground (arith, found')) in
      let both = sym (bit-selected w j lo (omega arith) small) ∙ set in
      let (above, below, chosen) = bounds (w * 64 + j) both in (w * 64 + j, above, below, chosen)

  pub member_hit :
      (i : ℕ)
      → start ≤ i
      → i < end
      → i / 64 < length m.words
      → member m i ≡ true
      → block_hit m.words start end (end - 1) ≡ true
  unfolding in_span
  member_hit i lo hi inside found =
      any_of_entry (λ (entry : ℕ × ℕ). not (selected_bits entry.1 start end entry.0 == 0)) 0
        (start / 64) ((end - 1) / 64 + 1) m.words (i / 64) (omega arith) (omega arith) inside
        nonzero
    where
      here : 0 + i / 64 ≡ i / 64
      here = omega arith

      back : i / 64 * 64 + i % 64 ≡ i
      back = omega arith

      set : bit (selected_bits (get_or m.words (i / 64) 0) start end (i / 64)) (i % 64) ≡ true
      set =
          bit-selected (i / 64) (i % 64) (omega arith) (omega arith) (omega arith)
          ∙ rw back (ground arith)

      nonzero : not (selected_bits (get_or m.words (i / 64) 0) start end (0 + i / 64) == 0) ≡ true
      nonzero = rw here (ground (arith, ne-zero_of_bit _ (i % 64) set))
