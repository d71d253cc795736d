-- ===== src/Base/Bits.antt =====
-- One bit of a number, and what the native bit operations do to it.
use Prim.Native.Nat.{bit_and, bit_or, digits, bit_and-bitwise, bit_or-bitwise}
use Prim.Native.Nat.{ℕ, zero, suc, ◌+◌, ◌*◌, ◌/◌, ◌%◌, ◌≤◌, min, max}
use mathlib.Core.Path.{◌≡◌, refl}
use native.Mathlib.Omega.{arith}

-- Bit k of n, 0 or 1.
abbrev pub bit : ℕ → ℕ → ℕ
bit zero n = n % 2
bit (suc k) n = bit k (n / 2)

pub bit_le : (k n : ℕ) → bit k n ≤ 1
bit_le zero n = omega arith
bit_le (suc k) n = bit_le k (n / 2)

pub bit-zero : (k : ℕ) → bit k 0 ≡ 0
bit-zero zero = refl
bit-zero (suc k) = bit-zero k

-- A number is determined by its bits below a width that holds it.
pub bit_ext : (w a b : ℕ) → ((k : ℕ) → bit k a ≡ bit k b) → a ≤ w → b ≤ w → a ≡ b
bit_ext zero a b h p q = omega arith
bit_ext (suc w) a b h p q =
    omega (arith, h 0, bit_ext w (a / 2) (b / 2) (λ k. h (suc k)) (omega arith) (omega arith))

-- A recursion on binary digits works on each bit by itself: `f` is applied to the bits, and `z`
-- gives what is left of the second number where the first has ended.
module _ (z : ℕ → ℕ) (f : ℕ → ℕ → ℕ) (ends : (k b : ℕ) → bit k (z b) ≡ f 0 (bit k b))
    (is_bit : (x y : ℕ) → x ≤ 1 → y ≤ 1 → f x y ≤ 1) where
  bit-at_end : (k b : ℕ) → bit k (z b) ≡ f (bit k 0) (bit k b)
  bit-at_end k b = let e = bit-zero k in rw e (ends k b)

  bit-digits : (n k a b : ℕ) → a ≤ n → bit k (digits z f n a b) ≡ f (bit k a) (bit k b)
  bit-digits zero k zero b h = bit-at_end k b
  bit-digits zero k (suc a) b h = absurd (omega arith)
  bit-digits (suc n) k zero b h = bit-at_end k b
  bit-digits (suc n) zero (suc a) b h =
      omega (arith, is_bit (suc a % 2) (b % 2) (omega arith) (omega arith))
  bit-digits (suc n) (suc k) (suc a) b h =
      rw half (bit-digits n k (suc a / 2) (b / 2) (omega arith))
    where
      half :
          (digits z f n (suc a / 2) (b / 2) * 2 + f (suc a % 2) (b % 2)) / 2
          ≡ digits z f n (suc a / 2) (b / 2)
      half = omega (arith, is_bit (suc a % 2) (b % 2) (omega arith) (omega arith))

pub bit-bit_or : (k a b : ℕ) → bit k (bit_or a b) ≡ max (bit k a) (bit k b)
bit-bit_or k a b =
    rw bit_or-bitwise
      (bit-digits (λ y. y) max (λ k y. omega arith) (λ x y p q. omega arith) a k a b (omega arith))

pub bit-bit_and : (k a b : ℕ) → bit k (bit_and a b) ≡ min (bit k a) (bit k b)
bit-bit_and k a b = rw bit_and-bitwise (
    bit-digits (λ y. 0) min (λ k y. omega (arith, bit-zero k)) (λ x y p q. omega arith) a k a b
      (omega arith))
