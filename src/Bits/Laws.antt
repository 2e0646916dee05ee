-- ===== src/Bits/Laws.antt =====
-- The bits of a word under the operations of machine words.
use native.Mathlib.Nat.{pow-suc}
use Prim.Native.Nat.{differ, bit_and-bitwise}
use hybit.Base.{
  ℕ, zero, suc, ◌*◌, ◌-◌, ◌/◌, ◌%◌, ◌^◌, ◌≤◌, ◌<◌, bit_and, bit_or, bit_xor, ◌≡◌, ◌≢◌, refl, arith,
  true, false, not, xor, ◌&&◌, ◌||◌, ◌==◌, ltb, two_64, Bool-cases, inl, inr,
}
use hybit.Bits.{bit, one_shl, bit_not}
use hybit.Bits.Digits.{bit_and_halve, bit_or_halve, bit_xor_halve}

-- Pow facts in the form that `omega` reads.
pub two_pow-suc : (k : ℕ) → 2 ^ suc k ≡ 2 * 2 ^ k
two_pow-suc k = omega (arith, pow-suc 2 k)

pub two_pow-pos : (k : ℕ) → 0 < 2 ^ k
two_pow-pos zero = omega arith
two_pow-pos (suc k) = omega (arith, two_pow-suc k, two_pow-pos k)

pub bit-zero : (i : ℕ) → bit 0 i ≡ false
bit-zero zero = refl
bit-zero (suc i) = bit-zero i

pub bit-bit_and : (a b i : ℕ) → bit (bit_and a b) i ≡ (bit a i && bit b i)
bit-bit_and a b zero = ground (arith, bit_and_halve a b)
bit-bit_and a b (suc i) =
    let half : bit_and a b / 2 ≡ bit_and (a / 2) (b / 2) = omega (arith, bit_and_halve a b) in
    rw half (bit-bit_and (a / 2) (b / 2) i)

pub bit-bit_or : (a b i : ℕ) → bit (bit_or a b) i ≡ (bit a i || bit b i)
bit-bit_or a b zero = ground (arith, bit_or_halve a b)
bit-bit_or a b (suc i) =
    let half : bit_or a b / 2 ≡ bit_or (a / 2) (b / 2) = omega (arith, bit_or_halve a b) in
    rw half (bit-bit_or (a / 2) (b / 2) i)

-- A word below 2 ^ k has no bit from k on.
pub bit_beyond : (k w i : ℕ) → w < 2 ^ k → k ≤ i → bit w i ≡ false
bit_beyond zero zero i h le = bit-zero i
bit_beyond zero (suc w) i h le = absurd (omega arith)
bit_beyond (suc k) w zero h le = absurd (omega arith)
bit_beyond (suc k) w (suc i) h le =
    bit_beyond k (w / 2) i (omega (arith, two_pow-suc k)) (omega arith)

-- Words with the same bits are equal.
pub bit_ext : (k a b : ℕ) → a < 2 ^ k → b < 2 ^ k → ((i : ℕ) → i < k → bit a i ≡ bit b i) → a ≡ b
bit_ext zero a b ha hb h = omega arith
bit_ext (suc k) a b ha hb h =
    let halves : a / 2 ≡ b / 2 =
      bit_ext k (a / 2) (b / 2) (omega (arith, two_pow-suc k)) (omega (arith, two_pow-suc k))
        (λ i hi. h (suc i) (omega arith)) in
    ground (arith, h 0 (omega arith))

pub bit-one_shl : (k i : ℕ) → bit (one_shl k) i ≡ (k == i)
bit-one_shl zero zero = refl
bit-one_shl zero (suc i) = ground (arith, bit-zero i)
bit-one_shl (suc k) zero = ground (arith, two_pow-suc k)
bit-one_shl (suc k) (suc i) =
    let half : 2 ^ suc k / 2 ≡ 2 ^ k = omega (arith, two_pow-suc k) in
    rw half (ground (arith, bit-one_shl k i))

-- The k low bits of `(1u64 << k) - 1`.
pub bit-low_mask : (k i : ℕ) → bit (2 ^ k - 1) i ≡ ltb i k
bit-low_mask zero i = ground (arith, bit-zero i)
bit-low_mask (suc k) zero = ground (arith, two_pow-suc k, two_pow-pos k)
bit-low_mask (suc k) (suc i) =
    let half : (2 ^ suc k - 1) / 2 ≡ 2 ^ k - 1 = omega (arith, two_pow-suc k, two_pow-pos k) in
    rw half (ground (arith, bit-low_mask k i))

bit_complement : (k w i : ℕ) → w < 2 ^ k → i < k → bit (2 ^ k - 1 - w) i ≡ not (bit w i)
bit_complement zero w i h lt = absurd (omega arith)
bit_complement (suc k) w zero h lt = ground (arith, two_pow-suc k)
bit_complement (suc k) w (suc i) h lt =
    let half : (2 ^ suc k - 1 - w) / 2 ≡ 2 ^ k - 1 - w / 2 = omega (arith, two_pow-suc k) in
    rw half (bit_complement k (w / 2) i (omega (arith, two_pow-suc k)) (omega arith))

pub bit-bit_not : (w i : ℕ) → w < two_64 → i < 64 → bit (bit_not w) i ≡ not (bit w i)
bit-bit_not w i h lt = bit_complement 64 w i h lt

digit_xor :
    (x y : ℕ) → x < 2 → y < 2 → (differ x y < 2) × ((differ x y == 1) ≡ xor (x == 1) (y == 1))
unfolding xor
digit_xor zero zero h g = (omega arith, refl)
digit_xor zero (suc zero) h g = (omega arith, refl)
digit_xor (suc zero) zero h g = (omega arith, refl)
digit_xor (suc zero) (suc zero) h g = (omega arith, refl)
digit_xor (suc (suc x)) y h g = absurd (omega arith)
digit_xor zero (suc (suc y)) h g = absurd (omega arith)
digit_xor (suc zero) (suc (suc y)) h g = absurd (omega arith)

pub bit-bit_xor : (a b i : ℕ) → bit (bit_xor a b) i ≡ xor (bit a i) (bit b i)
bit-bit_xor a b zero =
    ground (arith, bit_xor_halve a b, digit_xor (a % 2) (b % 2) (omega arith) (omega arith))
bit-bit_xor a b (suc i) =
    let half : bit_xor a b / 2 ≡ bit_xor (a / 2) (b / 2) =
      omega (arith, bit_xor_halve a b, digit_xor (a % 2) (b % 2) (omega arith) (omega arith)) in
    rw half (bit-bit_xor (a / 2) (b / 2) i)

-- The operations stay below 2 ^ k.
pub bit_and-lt : (k a b : ℕ) → a < 2 ^ k → bit_and a b < 2 ^ k
bit_and-lt zero zero b h = omega (arith, bit_and-bitwise 0 b)
bit_and-lt zero (suc a) b h = absurd (omega arith)
bit_and-lt (suc k) a b h = omega (
  arith,
  two_pow-suc k,
  bit_and_halve a b,
  bit_and-lt k (a / 2) (b / 2) (omega (arith, two_pow-suc k)),
)

pub bit_or-lt : (k a b : ℕ) → a < 2 ^ k → b < 2 ^ k → bit_or a b < 2 ^ k
bit_or-lt zero zero zero h g = omega arith
bit_or-lt zero zero (suc b) h g = absurd (omega arith)
bit_or-lt zero (suc a) b h g = absurd (omega arith)
bit_or-lt (suc k) a b h g =
    let half =
      bit_or-lt k (a / 2) (b / 2) (omega (arith, two_pow-suc k)) (omega (arith, two_pow-suc k)) in
    omega (arith, two_pow-suc k, bit_or_halve a b)

one_shl_mono : (i k : ℕ) → i < k → one_shl i < 2 ^ k
one_shl_mono zero zero h = absurd (omega arith)
one_shl_mono zero (suc k) h = omega (arith, two_pow-suc k, two_pow-pos k)
one_shl_mono (suc i) zero h = absurd (omega arith)
one_shl_mono (suc i) (suc k) h =
    omega (arith, two_pow-suc k, two_pow-suc i, one_shl_mono i k (omega arith))

pub one_shl-lt : (i : ℕ) → i < 64 → one_shl i < two_64
one_shl-lt i h = one_shl_mono i 64 h

-- A word with no bit is zero, so `word & mask != 0` finds a bit.
pub bit_exists : (k w : ℕ) → w < 2 ^ k → w ≢ 0 → (i : ℕ) × (i < k) × (bit w i ≡ true)
bit_exists zero w h ne = absurd (omega arith)
bit_exists (suc k) w h ne = elim (Bool-cases (w % 2 == 1)) [
  | inl odd ↦ (0, omega arith, odd)
  | inr even ↦
      let (i, lt, found) = bit_exists k (w / 2) (omega (arith, two_pow-suc k)) (ground arith) in
      (suc i, omega arith, found)
]
