-- ===== src/Base/Bits.antt =====
-- The conjunction of words, one binary digit at a time.
use Prim.Native.Nat.{ℕ, zero, suc, ◌+◌, ◌*◌, ◌/◌, ◌%◌, ◌≤◌, min, bit_and, digits, bit_and-bitwise}
use mathlib.Core.Path.{◌≡◌, refl}
use native.Mathlib.Omega.{arith}

-- `bit_and` with the number of digits that it may read made explicit.
abbrev conj : ℕ → ℕ → ℕ → ℕ
conj fuel a b = digits (λ x. zero) min fuel a b

-- Digits past the highest one of `a` change nothing.
conj_enough : (f g a b : ℕ) → a ≤ f → a ≤ g → conj f a b ≡ conj g a b
conj_enough zero zero a b p q = refl
conj_enough zero (suc g) zero b p q = refl
conj_enough zero (suc g) (suc a) b p q = absurd (omega arith)
conj_enough (suc f) zero zero b p q = refl
conj_enough (suc f) zero (suc a) b p q = absurd (omega arith)
conj_enough (suc f) (suc g) zero b p q = refl
conj_enough (suc f) (suc g) (suc a) b p q =
    let shorter = conj_enough f g (suc a / 2) (b / 2) (omega arith) (omega arith) in omega arith

pub zero-bit_and : (b : ℕ) → bit_and 0 b ≡ 0
zero-bit_and b = bit_and-bitwise 0 b

pub bit_and_digit : (a b : ℕ) → bit_and a b ≡ bit_and (a / 2) (b / 2) * 2 + min (a % 2) (b % 2)
bit_and_digit zero b = omega (arith, zero-bit_and b, zero-bit_and (b / 2))
bit_and_digit (suc a) b =
    let whole = bit_and-bitwise (suc a) b in
    let half = bit_and-bitwise (suc a / 2) (b / 2) in
    let same = conj_enough a (suc a / 2) (suc a / 2) (b / 2) (omega arith) (omega arith) in
    omega arith

bit_and-zero_below : (fuel a : ℕ) → a ≤ fuel → bit_and a 0 ≡ 0
bit_and-zero_below fuel zero h = refl
bit_and-zero_below zero (suc a) h = absurd (omega arith)
bit_and-zero_below (suc fuel) (suc a) h =
    omega (arith, bit_and_digit (suc a) 0, bit_and-zero_below fuel (suc a / 2) (omega arith))

pub bit_and-zero : (a : ℕ) → bit_and a 0 ≡ 0
bit_and-zero a = bit_and-zero_below a a (omega arith)

-- Masks of one bit and of the two bits above the lowest.
pub bit_and-one : (a : ℕ) → bit_and a 1 ≡ a % 2
bit_and-one a = omega (arith, bit_and_digit a 1, bit_and-zero (a / 2))

pub bit_and-two : (a : ℕ) → bit_and a 2 ≡ a / 2 % 2 * 2
bit_and-two a = omega (arith, bit_and_digit a 2, bit_and-one (a / 2))

pub bit_and-four : (a : ℕ) → bit_and a 4 ≡ a / 4 % 2 * 4
bit_and-four a = omega (arith, bit_and_digit a 4, bit_and-two (a / 2))

pub bit_and-six : (a : ℕ) → bit_and a 6 ≡ bit_and a 2 + bit_and a 4
bit_and-six a = omega (
  arith,
  bit_and_digit a 6,
  bit_and_digit (a / 2) 3,
  bit_and-one (a / 2 / 2),
  bit_and-two a,
  bit_and-four a,
)
