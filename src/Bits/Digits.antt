-- ===== src/Bits/Digits.antt =====
-- The native operations on words, one binary digit at a time.
use Prim.Native.Nat.{
  digits, bitwise, differ, bit_and-bitwise, bit_or-bitwise, bit_xor-bitwise, min, max,
}
use hybit.Base.{arith, refl, ◌≡◌, ℕ, zero, suc, bit_and, bit_or, bit_xor, ◌≤◌, ◌+◌, ◌*◌, ◌/◌, ◌%◌}

-- The fuel of `digits` does not matter once it is at least the number.
more_fuel :
    (z : ℕ → ℕ) (op : ℕ → ℕ → ℕ) (k l x y : ℕ)
    → x ≤ k
    → x ≤ l
    → digits z op k x y ≡ digits z op l x y
more_fuel z op zero zero zero y p q = refl
more_fuel z op zero (suc l) zero y p q = refl
more_fuel z op (suc k) zero zero y p q = refl
more_fuel z op (suc k) (suc l) zero y p q = refl
more_fuel z op zero l (suc x) y p q = absurd (omega arith)
more_fuel z op (suc k) zero (suc x) y p q = absurd (omega arith)
more_fuel z op (suc k) (suc l) (suc x) y p q =
    rw (more_fuel z op k l (suc x / 2) (y / 2) (omega arith) (omega arith))

halve :
    (z : ℕ → ℕ) (op : ℕ → ℕ → ℕ) (x y : ℕ)
    → bitwise z op (suc x) y ≡ bitwise z op (suc x / 2) (y / 2) * 2 + op (suc x % 2) (y % 2)
halve z op x y = rw (more_fuel z op x (suc x / 2) (suc x / 2) (y / 2) (omega arith) (omega arith))

pub bit_and_halve : (x y : ℕ) → bit_and x y ≡ bit_and (x / 2) (y / 2) * 2 + min (x % 2) (y % 2)
bit_and_halve zero y = simp bit_and-bitwise (omega arith)
bit_and_halve (suc x) y = simp bit_and-bitwise (halve (λ y. 0) min x y)

pub bit_or_halve : (x y : ℕ) → bit_or x y ≡ bit_or (x / 2) (y / 2) * 2 + max (x % 2) (y % 2)
bit_or_halve zero y = simp bit_or-bitwise (omega arith)
bit_or_halve (suc x) y = simp bit_or-bitwise (halve (λ y. y) max x y)

pub bit_xor_halve : (x y : ℕ) → bit_xor x y ≡ bit_xor (x / 2) (y / 2) * 2 + differ (x % 2) (y % 2)
bit_xor_halve zero y = simp bit_xor-bitwise (omega arith)
bit_xor_halve (suc x) y = simp bit_xor-bitwise (halve (λ y. y) differ x y)
