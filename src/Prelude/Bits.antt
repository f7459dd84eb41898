-- ===== src/Prelude/Bits.antt =====
-- The binary digits of a number, and what the bitwise operations do to each.
use Prim.Native.Nat.{
  ℕ, zero, suc, ◌+◌, ◌*◌, ◌/◌, ◌%◌, ◌≤◌, ◌<◌, min, max, bit_and, bit_or, bit_xor, digits, differ,
  bit_and-bitwise, bit_or-bitwise, bit_xor-bitwise,
}
use mathlib.Core.Path.{◌≡◌, refl}
use native.Mathlib.Omega.{arith}

-- The digit of weight 2 ^ k.
unfoldable pub bit : ℕ → ℕ → ℕ
bit x zero = x % 2
bit x (suc k) = bit (x / 2) k

-- Enough fuel is as good as more.
digits_enough :
    (z : ℕ → ℕ) (f : ℕ → ℕ → ℕ) (n m a b : ℕ) → a ≤ n → a ≤ m → digits z f n a b ≡ digits z f m a b
digits_enough z f zero zero a b p q = refl
digits_enough z f zero (suc m) zero b p q = refl
digits_enough z f (suc n) zero zero b p q = refl
digits_enough z f (suc n) (suc m) zero b p q = refl
digits_enough z f zero m (suc a) b p q = absurd (omega arith)
digits_enough z f (suc n) zero (suc a) b p q = absurd (omega arith)
digits_enough z f (suc n) (suc m) (suc a) b p q =
    rw (digits_enough z f n m (suc a / 2) (b / 2) (omega arith) (omega arith))

digits-suc :
    (z : ℕ → ℕ) (f : ℕ → ℕ → ℕ) (a b : ℕ)
    → digits z f (suc a) (suc a) b
      ≡ digits z f (suc a / 2) (suc a / 2) (b / 2) * 2 + f (suc a % 2) (b % 2)
digits-suc z f a b =
    omega (arith, digits_enough z f a (suc a / 2) (suc a / 2) (b / 2) (omega arith) (omega arith))

pub bit_and_digit : (a b : ℕ) → bit_and a b ≡ bit_and (a / 2) (b / 2) * 2 + min (a % 2) (b % 2)
bit_and_digit zero b = omega (arith, bit_and-bitwise zero b, bit_and-bitwise zero (b / 2))
bit_and_digit (suc a) b = omega (
  arith,
  bit_and-bitwise (suc a) b,
  bit_and-bitwise (suc a / 2) (b / 2),
  digits-suc (λ _. zero) min a b,
)

pub bit_or_digit : (a b : ℕ) → bit_or a b ≡ bit_or (a / 2) (b / 2) * 2 + max (a % 2) (b % 2)
bit_or_digit zero b = omega (arith, bit_or-bitwise zero b, bit_or-bitwise zero (b / 2))
bit_or_digit (suc a) b = omega (
  arith,
  bit_or-bitwise (suc a) b,
  bit_or-bitwise (suc a / 2) (b / 2),
  digits-suc (λ y. y) max a b,
)

-- 1 where two digits differ.
abbrev pub unlike : ℕ → ℕ → ℕ
unlike x y = (x + y) % 2

differ-unlike : (x y : ℕ) → x < 2 → y < 2 → differ x y ≡ unlike x y
differ-unlike zero y p q = omega arith
differ-unlike (suc zero) zero p q = refl
differ-unlike (suc zero) (suc zero) p q = refl
differ-unlike (suc zero) (suc (suc y)) p q = absurd (omega arith)
differ-unlike (suc (suc x)) y p q = absurd (omega arith)

pub bit_xor_digit : (a b : ℕ) → bit_xor a b ≡ bit_xor (a / 2) (b / 2) * 2 + unlike (a % 2) (b % 2)
bit_xor_digit zero b = omega (arith, bit_xor-bitwise zero b, bit_xor-bitwise zero (b / 2))
bit_xor_digit (suc a) b = omega (
  arith,
  bit_xor-bitwise (suc a) b,
  bit_xor-bitwise (suc a / 2) (b / 2),
  digits-suc (λ y. y) differ a b,
  differ-unlike (suc a % 2) (b % 2) (omega arith) (omega arith),
)

pub bit-lt : (x k : ℕ) → bit x k < 2
unfolding bit
bit-lt x zero = omega arith
bit-lt x (suc k) = bit-lt (x / 2) k

pub bit-bit_and : (a b k : ℕ) → bit (bit_and a b) k ≡ min (bit a k) (bit b k)
unfolding bit
bit-bit_and a b zero = omega (arith, bit_and_digit a b)
bit-bit_and a b (suc k) =
    let e : bit_and a b / 2 ≡ bit_and (a / 2) (b / 2) = omega (arith, bit_and_digit a b) in
    rw e (bit-bit_and (a / 2) (b / 2) k)

pub bit-bit_or : (a b k : ℕ) → bit (bit_or a b) k ≡ max (bit a k) (bit b k)
unfolding bit
bit-bit_or a b zero = omega (arith, bit_or_digit a b)
bit-bit_or a b (suc k) =
    let e : bit_or a b / 2 ≡ bit_or (a / 2) (b / 2) = omega (arith, bit_or_digit a b) in
    rw e (bit-bit_or (a / 2) (b / 2) k)

pub bit-bit_xor : (a b k : ℕ) → bit (bit_xor a b) k ≡ unlike (bit a k) (bit b k)
unfolding bit
bit-bit_xor a b zero = omega (arith, bit_xor_digit a b)
bit-bit_xor a b (suc k) =
    let e : bit_xor a b / 2 ≡ bit_xor (a / 2) (b / 2) = omega (arith, bit_xor_digit a b) in
    rw e (bit-bit_xor (a / 2) (b / 2) k)

bit_ext_fuel : (n a b : ℕ) → a ≤ n → b ≤ n → ((k : ℕ) → bit a k ≡ bit b k) → a ≡ b
unfolding bit
bit_ext_fuel zero a b p q h = omega arith
bit_ext_fuel (suc n) a b p q h =
    omega (arith, h 0, bit_ext_fuel n (a / 2) (b / 2) (omega arith) (omega arith) (λ k. h (suc k)))

-- Numbers with the same digits are the same.
pub bit_ext : (a b : ℕ) → ((k : ℕ) → bit a k ≡ bit b k) → a ≡ b
bit_ext a b h = bit_ext_fuel (a + b) a b (omega arith) (omega arith) h

pub bit-zero : (k : ℕ) → bit 0 k ≡ 0
unfolding bit
bit-zero zero = refl
bit-zero (suc k) = bit-zero k

pub eq_zero_of_bits : (a : ℕ) → ((k : ℕ) → bit a k ≡ 0) → a ≡ 0
eq_zero_of_bits a h = bit_ext a 0 (λ k. omega (arith, h k, bit-zero k))
