-- ===== src/Bits/Ones.antt =====
-- The positions that `ones` lists: the bits that are set, in ascending order.
use hybit.Base.{
  ℕ, zero, suc, ◌+◌, ◌/◌, ◌%◌, ◌^◌, ◌≤◌, ◌<◌, ◌≡◌, ◌≢◌, arith, true, false, ◌==◌, two_64, length,
  has, IsAscending, IsAscending-weaken, AllBelow, not-has_below, Bool-cases, inl, inr, bit_and, not,
  ◌&&◌,
}
use hybit.Bits.{bit, one_shl, count_ones, ones, ones_from}
use hybit.Bits.Laws.{two_pow-suc, bit-zero, bit-bit_and, bit-one_shl, bit_ext, bit_and-lt}
use hybit.Bits.Loop.{ones-eq, count_ones-eq, length-ones_from}

ones_from-IsAscending : (k i w : ℕ) → IsAscending i (ones_from i k w)
unfolding ones_from
ones_from-IsAscending zero i w = tt
ones_from-IsAscending (suc k) i w = elim (Bool-cases (w % 2 == 1)) [
  | inl odd ↦ rw odd (omega arith, ones_from-IsAscending k (suc i) (w / 2))
  | inr even ↦ rw even (
      IsAscending-weaken i (suc i) (ones_from (suc i) k (w / 2)) (omega arith)
        (ones_from-IsAscending k (suc i) (w / 2)))
]

has-ones_from : (k i w j : ℕ) → w < 2 ^ k → has (ones_from i k w) (i + j) ≡ bit w j
unfolding ones_from
has-ones_from zero i zero j h = rw bit-zero
has-ones_from zero i (suc w) j h = absurd (omega arith)
has-ones_from (suc k) i w zero h = ground (
  arith,
  not-has_below (suc i) (ones_from (suc i) k (w / 2)) (i + 0)
      (ones_from-IsAscending k (suc i) (w / 2)),
)
has-ones_from (suc k) i w (suc j) h =
    let there : i + suc j ≡ suc i + j = omega arith in
    rw there (ground (arith, has-ones_from k (suc i) (w / 2) j (omega (arith, two_pow-suc k))))

pub ones-IsAscending : (w : ℕ) → IsAscending 0 (ones w)
ones-IsAscending w = rw (ones-eq w) (ones_from-IsAscending 64 0 w)

pub has-ones : (w j : ℕ) → w < two_64 → has (ones w) j ≡ bit w j
has-ones w j h =
    rw (ones-eq w) (let e : 0 + j ≡ j = omega arith in rw e at (has-ones_from 64 0 w j h))

pub length-ones : (w : ℕ) → length (ones w) ≡ count_ones w
length-ones w = rw (ones-eq w, count_ones-eq w) (length-ones_from 64 0 w)

pub ne-zero_of_bit : (w i : ℕ) → bit w i ≡ true → w ≢ 0
ne-zero_of_bit w i h e = ground (arith, bit-zero i)

pub eq-zero_of_bits : (w : ℕ) → w < two_64 → ((i : ℕ) → i < 64 → bit w i ≡ false) → w ≡ 0
eq-zero_of_bits w h all =
    bit_ext 64 w 0 h (omega arith) (λ i lt. ground (arith, all i lt, bit-zero i))

masked : (w i j : ℕ) → bit (bit_and w (one_shl i)) j ≡ (bit w j && (i == j))
masked w i j = rw (bit-bit_and w (one_shl i) j, bit-one_shl i j)

-- `(word & (1u64 << i)) != 0` reads bit i.
pub test_bit : (w i : ℕ) → w < two_64 → not (bit_and w (one_shl i) == 0) ≡ bit w i
test_bit w i h = elim (Bool-cases (bit w i)) [
  | inl there ↦ ground (arith, ne-zero_of_bit (bit_and w (one_shl i)) i, masked w i i)
  | inr absent ↦ ground (
    arith,
    eq-zero_of_bits (bit_and w (one_shl i)) (bit_and-lt 64 w (one_shl i) h)
        (λ (j : ℕ) (lt : j < 64). ground (arith, masked w i j)),
  )
]

ones_from-AllBelow : (k i w hi : ℕ) → i + k ≤ hi → AllBelow hi (ones_from i k w)
unfolding ones_from
ones_from-AllBelow zero i w hi h = tt
ones_from-AllBelow (suc k) i w hi h = elim (Bool-cases (w % 2 == 1)) [
  | inl odd ↦ rw odd (omega arith, ones_from-AllBelow k (suc i) (w / 2) hi (omega arith))
  | inr even ↦ rw even (ones_from-AllBelow k (suc i) (w / 2) hi (omega arith))
]

pub ones-AllBelow : (w : ℕ) → AllBelow 64 (ones w)
ones-AllBelow w = rw (ones-eq w) (ones_from-AllBelow 64 0 w 64 (omega arith))
