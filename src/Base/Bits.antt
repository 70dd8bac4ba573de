-- ===== src/Base/Bits.antt =====
-- `&` and `|` digit by digit, and the mask 4 of the interrupt enable bit.
use Prim.Native.Nat.{
  ℕ, zero, suc, ◌+◌, ◌*◌, ◌/◌, ◌%◌, ◌≤◌, min, max, bit_and, bit_or, digits, bit_and-bitwise,
  bit_or-bitwise,
}
use mathlib.Core.Path.{◌≡◌, refl}
use native.Mathlib.Omega.{arith}

module _ (z : ℕ → ℕ) (f : ℕ → ℕ → ℕ) where
  -- Any count of digits that is large enough gives the same.
  digits-enough : (n m a b : ℕ) → a ≤ n → a ≤ m → digits z f n a b ≡ digits z f m a b
  digits-enough zero zero a b le le' = refl
  digits-enough zero (suc m) zero b le le' = refl
  digits-enough zero (suc m) (suc a) b le le' = absurd (omega (arith, le))
  digits-enough (suc n) zero zero b le le' = refl
  digits-enough (suc n) zero (suc a) b le le' = absurd (omega (arith, le'))
  digits-enough (suc n) (suc m) zero b le le' = refl
  digits-enough (suc n) (suc m) (suc a) b le le' =
      omega (arith, digits-enough n m (suc a / 2) (b / 2) (omega (arith, le)) (omega (arith, le')))

pub bit_and-halves : (a b : ℕ) → bit_and a b ≡ bit_and (a / 2) (b / 2) * 2 + min (a % 2) (b % 2)
bit_and-halves zero b = omega (arith, bit_and-bitwise 0 b, bit_and-bitwise 0 (b / 2))
bit_and-halves (suc a) b = omega (
  arith,
  bit_and-bitwise (suc a) b,
  bit_and-bitwise (suc a / 2) (b / 2),
  digits-enough (λ _. zero) min a (suc a / 2) (suc a / 2) (b / 2) (omega arith) (omega arith),
)

pub bit_or-halves : (a b : ℕ) → bit_or a b ≡ bit_or (a / 2) (b / 2) * 2 + max (a % 2) (b % 2)
bit_or-halves zero b = omega (arith, bit_or-bitwise 0 b, bit_or-bitwise 0 (b / 2))
bit_or-halves (suc a) b = omega (
  arith,
  bit_or-bitwise (suc a) b,
  bit_or-bitwise (suc a / 2) (b / 2),
  digits-enough (λ b. b) max a (suc a / 2) (suc a / 2) (b / 2) (omega arith) (omega arith),
)

bit_and-none_in : (n a : ℕ) → a ≤ n → bit_and a 0 ≡ 0
bit_and-none_in n zero le = bit_and-bitwise 0 0
bit_and-none_in zero (suc a) le = absurd (omega (arith, le))
bit_and-none_in (suc n) (suc a) le =
    omega (arith, bit_and-halves (suc a) 0, bit_and-none_in n (suc a / 2) (omega (arith, le)))

-- Bit 2 of a number, by the mask 4.
pub bit_and_four : (a : ℕ) → bit_and a 4 ≡ a / 4 % 2 * 4
bit_and_four a = omega (
  arith,
  bit_and-halves a 4,
  bit_and-halves (a / 2) 2,
  bit_and-halves (a / 2 / 2) 1,
  bit_and-none_in (a / 2 / 2 / 2) (a / 2 / 2 / 2) (omega arith),
)

pub bit_or_four : (a : ℕ) → bit_or a 4 / 4 % 2 ≡ 1
bit_or_four a =
    omega (arith, bit_or-halves a 4, bit_or-halves (a / 2) 2, bit_or-halves (a / 2 / 2) 1)

-- Bit 0, by the mask 1, and bit 2 under a mask without it.
pub bit_and_one : (a : ℕ) → bit_and a 1 ≡ a % 2
bit_and_one a = omega (arith, bit_and-halves a 1, bit_and-none_in (a / 2) (a / 2) (omega arith))

pub bit_or_one : (a : ℕ) → bit_or a 1 % 2 ≡ 1
bit_or_one a = omega (arith, bit_or-halves a 1)

pub bit_and_not_four : (a : ℕ) → bit_and a 0xfffffffb / 4 % 2 ≡ 0
bit_and_not_four a = omega (
  arith,
  bit_and-halves a 0xfffffffb,
  bit_and-halves (a / 2) 0x7ffffffd,
  bit_and-halves (a / 2 / 2) 0x3ffffffe,
)
