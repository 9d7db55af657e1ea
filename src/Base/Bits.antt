-- ===== src/Base/Bits.antt =====
-- The lowest bit of a word: `x & 1` and `x | 1` as arithmetic.
use Prim.Native.Nat.{
  ℕ, zero, suc, ◌+◌, ◌-◌, ◌*◌, ◌/◌, ◌%◌, ◌^◌, ◌≤◌, ◌<◌, min, max, bit_and, bit_or, digits,
  bit_and-bitwise, bit_or-bitwise,
}
use mathlib.Core.Path.{◌≡◌, refl, ◌∙◌}
use native.Mathlib.Nat.{pow-suc, one-le-pow}
use native.Mathlib.Omega.{arith}

-- Beside a zero the digits of a disjunction are those of the other number, if the fuel covers it.
or_digits-zero : (n a : ℕ) → a ≤ n → digits (λ b. b) max n a 0 ≡ a
or_digits-zero zero zero h = refl
or_digits-zero zero (suc a) h = absurd (omega arith)
or_digits-zero (suc n) zero h = refl
or_digits-zero (suc n) (suc a) h = omega (arith, or_digits-zero n (suc a / 2) (omega arith))

and_digits-zero : (n a : ℕ) → a ≤ n → digits (λ b. 0) min n a 0 ≡ 0
and_digits-zero zero zero h = refl
and_digits-zero zero (suc a) h = absurd (omega arith)
and_digits-zero (suc n) zero h = refl
and_digits-zero (suc n) (suc a) h = omega (arith, and_digits-zero n (suc a / 2) (omega arith))

-- `x | 1` sets the lowest bit.
pub bit_or-one : (a : ℕ) → bit_or a 1 ≡ a / 2 * 2 + 1
bit_or-one zero = refl
bit_or-one (suc a) =
    omega (arith, bit_or-bitwise (suc a) 1, or_digits-zero a (suc a / 2) (omega arith))

-- `x & 1` is the parity.
pub bit_and-one : (a : ℕ) → bit_and a 1 ≡ a % 2
bit_and-one zero = refl
bit_and-one (suc a) =
    omega (arith, bit_and-bitwise (suc a) 1, and_digits-zero a (suc a / 2) (omega arith))

and_digits-le : (n a b : ℕ) → digits (λ c. 0) min n a b ≤ b
and_digits-le zero a b = omega arith
and_digits-le (suc n) zero b = omega arith
and_digits-le (suc n) (suc a) b = ground (arith, and_digits-le n (suc a / 2) (b / 2))

-- A mask bounds what it lets through.
pub bit_and-le : (a b : ℕ) → bit_and a b ≤ b
bit_and-le a b = omega (arith, bit_and-bitwise a b, and_digits-le a a b)

and_digits-ones : (n k a b : ℕ) → a ≤ n → b + 1 ≡ 2 ^ k → a < 2 ^ k → digits (λ c. 0) min n a b ≡ a
and_digits-ones zero k a b h e l = omega arith
and_digits-ones (suc n) k zero b h e l = refl
and_digits-ones (suc n) zero (suc a) b h e l = absurd (omega (arith, e, l))
and_digits-ones (suc n) (suc k) (suc a) b h e l =
    let double = pow-suc 2 k in
    let ih =
      and_digits-ones n k (suc a / 2) (b / 2) (omega arith) (omega (arith, e, double))
        (omega (arith, l, double)) in
    let odd : b % 2 ≡ 1 = omega (arith, e, double) in ground (arith, ih, odd)

-- A mask of ones keeps the bits that it covers.
pub bit_and-ones : (k a : ℕ) → a < 2 ^ k → bit_and a (2 ^ k - 1) ≡ a
bit_and-ones k a h =
    bit_and-bitwise a (2 ^ k - 1)
    ∙ and_digits-ones a k a (2 ^ k - 1) (omega arith) (omega (arith, one-le-pow k 2 (omega arith)))
        h
