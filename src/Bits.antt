-- ===== src/Bits.antt =====
-- Machine words of 64 bits as natural numbers: the operations that the bitmap code of
-- crates/hybit-matrix uses, and the loop `while bits != 0 { …; bits &= bits - 1; }`.
pub mod Digits
pub mod Laws
pub mod Loop
pub mod Ones
use hybit.Base.{ℕ, zero, suc, ◌+◌, ◌-◌, ◌/◌, ◌%◌, ◌^◌, bit_and, bit_or, Bool, true, false}
use hybit.Base.{List, [], ◌∷◌, ◌==◌, if◌then◌else◌, two_64}

-- Bit `i` of a word, the meaning of `(word & (1u64 << i)) != 0`.
abbrev pub bit : ℕ → ℕ → Bool
bit w zero = w % 2 == 1
bit w (suc i) = bit (w / 2) i

-- `1u64 << i` for i < 64.
abbrev pub one_shl : ℕ → ℕ
one_shl i = 2 ^ i

-- `!word`.
abbrev pub bit_not : ℕ → ℕ
bit_not w = two_64 - 1 - w

pub count_ones_of : ℕ → ℕ → ℕ
count_ones_of zero w = 0
count_ones_of (suc k) w = w % 2 + count_ones_of k (w / 2)

-- `word.count_ones()`.
unfoldable pub count_ones : ℕ → ℕ
unfolding count_ones_of
count_ones w = count_ones_of 64 w

trailing_zeros_of : ℕ → ℕ → ℕ
trailing_zeros_of zero w = 0
trailing_zeros_of (suc k) w = if w % 2 == 1 then 0 else suc (trailing_zeros_of k (w / 2))

-- `word.trailing_zeros()`, which is 64 at 0.
unfoldable pub trailing_zeros : ℕ → ℕ
unfolding trailing_zeros_of
trailing_zeros w = trailing_zeros_of 64 w

-- `bits &= bits - 1`.
unfoldable pub clear_lowest : ℕ → ℕ
clear_lowest w = bit_and w (w - 1)

-- `while bits != 0 { let bit = bits.trailing_zeros(); body; bits &= bits - 1; }`, on fuel. A word
-- has at most 64 bits set, so the fuel is 64 rounds.
pub bit_loop {ℓ} : {S : Type ℓ} → ℕ → (S → ℕ → S) → S → ℕ → S
bit_loop zero body s bits = s
bit_loop (suc fuel) body s bits =
    let rest = bit_loop fuel body (body s (trailing_zeros bits)) (clear_lowest bits) in
    if bits == 0 then s else rest

unfoldable pub for_each_bit {ℓ} : {S : Type ℓ} → (S → ℕ → S) → S → ℕ → S
unfolding bit_loop clear_lowest
for_each_bit body s bits = bit_loop 64 body s bits

-- The positions of the bits that are set among the next k, in ascending order, counted from i.
pub ones_from : ℕ → ℕ → ℕ → List ℕ
ones_from i zero w = []
ones_from i (suc k) w =
    let rest = ones_from (suc i) k (w / 2) in if w % 2 == 1 then i ∷ rest else rest

unfoldable pub ones : ℕ → List ℕ
unfolding ones_from
ones w = ones_from 0 64 w
