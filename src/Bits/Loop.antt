-- ===== src/Bits/Loop.antt =====
-- The loop over the set bits of a word, against a fold over the list of them.
use native.Mathlib.Nat.{zero-add}
use hybit.Base.{
  ℕ, zero, suc, ◌+◌, ◌*◌, ◌-◌, ◌/◌, ◌%◌, ◌^◌, ◌≤◌, ◌<◌, bit_and, ◌≡◌, ◌≢◌, refl, ap, arith, false,
  ◌==◌, two_64, [], ◌∷◌, foldl, length, Bool-cases, inl, inr,
}
use hybit.Bits.{
  count_ones, count_ones_of, trailing_zeros, trailing_zeros_of, clear_lowest, bit_loop,
  for_each_bit, ones, ones_from,
}
use hybit.Bits.Digits.{bit_and_halve}
use hybit.Bits.Laws.{two_pow-suc, bit_and-lt}

bit_and_self : (k w : ℕ) → w < 2 ^ k → bit_and w w ≡ w
bit_and_self zero zero h = refl
bit_and_self zero (suc w) h = absurd (omega arith)
bit_and_self (suc k) w h =
    omega (arith, bit_and_halve w w, bit_and_self k (w / 2) (omega (arith, two_pow-suc k)))

-- On an odd word `w & (w - 1)` clears bit 0; on an even one it goes to the half.
clear_odd : (k w : ℕ) → w < 2 ^ k → w % 2 ≡ 1 → clear_lowest w ≡ w - 1
unfolding clear_lowest
clear_odd zero w h odd = absurd (omega arith)
clear_odd (suc k) w h odd =
    let same : (w - 1) / 2 ≡ w / 2 = omega arith in
    omega (
      arith,
      bit_and_halve w (w - 1),
      ap (bit_and (w / 2)) same,
      bit_and_self k (w / 2) (omega (arith, two_pow-suc k)),
    )

clear_even : (w : ℕ) → w ≢ 0 → w % 2 ≡ 0 → clear_lowest w ≡ clear_lowest (w / 2) * 2
unfolding clear_lowest
clear_even w ne even =
    let same : (w - 1) / 2 ≡ w / 2 - 1 = omega arith in
    omega (arith, bit_and_halve w (w - 1), ap (bit_and (w / 2)) same)

-- One round: the least position, and the word without it.
ones_lowest :
    (k i w : ℕ)
    → w < 2 ^ k
    → w ≢ 0
    → ones_from i k w ≡ (i + trailing_zeros_of k w) ∷ ones_from i k (clear_lowest w)
unfolding ones_from trailing_zeros_of
ones_lowest zero i w h ne = absurd (omega arith)
ones_lowest (suc k) i w h ne = elim (Bool-cases (w % 2 == 1)) [
  | inl odd ↦
      let e : clear_lowest w ≡ w - 1 = clear_odd (suc k) w h (ground arith) in
      let same : (w - 1) / 2 ≡ w / 2 = ground arith in
      let cleared : (((w - 1) % 2) == 1) ≡ false = ground arith in
      let here : i + 0 ≡ i = omega arith in rw (e, odd, same, cleared, here) refl
  | inr even ↦
      let e : clear_lowest w ≡ clear_lowest (w / 2) * 2 = clear_even w (λ z. ne z) (ground arith) in
      let same : clear_lowest w / 2 ≡ clear_lowest (w / 2) = omega arith in
      let cleared : ((clear_lowest w % 2) == 1) ≡ false = ground arith in
      let there : i + suc (trailing_zeros_of k (w / 2)) ≡ suc i + trailing_zeros_of k (w / 2) =
        omega arith in
      rw (even, same, cleared, there)
        (ones_lowest k (suc i) (w / 2) (omega (arith, two_pow-suc k)) (ground arith))
]

count_lowest :
    (k w : ℕ) → w < 2 ^ k → w ≢ 0 → count_ones_of k w ≡ suc (count_ones_of k (clear_lowest w))
unfolding count_ones_of
count_lowest zero w h ne = absurd (omega arith)
count_lowest (suc k) w h ne = elim (Bool-cases (w % 2 == 1)) [
  | inl odd ↦
      let e : clear_lowest w ≡ w - 1 = clear_odd (suc k) w h (ground arith) in
      let same : (w - 1) / 2 ≡ w / 2 = ground arith in rw (e, same) (ground arith)
  | inr even ↦
      let e : clear_lowest w ≡ clear_lowest (w / 2) * 2 = clear_even w ne (ground arith) in
      let same : clear_lowest w / 2 ≡ clear_lowest (w / 2) = omega arith in
      rw same (ground (arith, count_lowest k (w / 2) (omega (arith, two_pow-suc k))))
]

pub ones_from-zero : (k i : ℕ) → ones_from i k 0 ≡ []
unfolding ones_from
ones_from-zero zero i = refl
ones_from-zero (suc k) i = ones_from-zero k (suc i)

pub count_ones_of-le : (k w : ℕ) → count_ones_of k w ≤ k
unfolding count_ones_of
count_ones_of-le zero w = omega arith
count_ones_of-le (suc k) w = omega (arith, count_ones_of-le k (w / 2))

pub length-ones_from : (k i w : ℕ) → length (ones_from i k w) ≡ count_ones_of k w
unfolding ones_from count_ones_of
length-ones_from zero i w = refl
length-ones_from (suc k) i w = ground (arith, length-ones_from k (suc i) (w / 2))

pub count_ones-eq : (w : ℕ) → count_ones w ≡ count_ones_of 64 w
unfolding count_ones
count_ones-eq w = refl

trailing_zeros-eq : (w : ℕ) → trailing_zeros w ≡ trailing_zeros_of 64 w
unfolding trailing_zeros
trailing_zeros-eq w = refl

pub ones-eq : (w : ℕ) → ones w ≡ ones_from 0 64 w
unfolding ones
ones-eq w = refl

pub clear_lowest-lt : (w : ℕ) → w < two_64 → clear_lowest w < two_64
unfolding clear_lowest
clear_lowest-lt w h = bit_and-lt 64 w (w - 1) h

bit_loop-eq-foldl {ℓ} :
    {S : Type ℓ} (body : S → ℕ → S) (fuel : ℕ) (s : S) (w : ℕ)
    → w < two_64
    → count_ones_of 64 w ≤ fuel
    → bit_loop fuel body s w ≡ foldl body s (ones_from 0 64 w)
unfolding bit_loop
bit_loop-eq-foldl body zero s zero h few = rw (ones_from-zero 64 0)
bit_loop-eq-foldl body zero s (suc w) h few =
    absurd (omega (arith, count_lowest 64 (suc w) h (omega arith)))
bit_loop-eq-foldl body (suc fuel) s w h few = elim (Bool-cases (w == 0)) [
  | inl done ↦ let e : w ≡ 0 = ground arith in rw (e, ones_from-zero 64 0)
  | inr more ↦
      let ne : w ≢ 0 = ground arith in
      rw (more, ones_lowest 64 0 w h ne, trailing_zeros-eq w, zero-add)
        (bit_loop-eq-foldl body fuel (body s (trailing_zeros_of 64 w)) (clear_lowest w)
          (clear_lowest-lt w h) (omega (arith, count_lowest 64 w h ne)))
]

-- The loop runs its body once on each set position, in ascending order, and 64 rounds suffice.
pub for_each_bit-eq-foldl {ℓ} :
    {S : Type ℓ} (body : S → ℕ → S) (s : S) (w : ℕ)
    → w < two_64
    → for_each_bit body s w ≡ foldl body s (ones w)
unfolding for_each_bit
for_each_bit-eq-foldl body s w h =
    rw (ones-eq w) (bit_loop-eq-foldl body 64 s w h (count_ones_of-le 64 w))

-- The positions of a word: the least, and those of the word without it.
pub ones-cons : (w : ℕ) → w < two_64 → w ≢ 0 → ones w ≡ trailing_zeros w ∷ ones (clear_lowest w)
ones-cons w h ne =
    rw (ones-eq w, ones-eq (clear_lowest w), ones_lowest 64 0 w h ne, trailing_zeros-eq w, zero-add)
      refl
