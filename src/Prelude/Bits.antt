-- ===== src/Prelude/Bits.antt =====
-- Laws of the bit operations that the firmware uses on words: a shift by a nibble, masks, or.
use Prim.Native.Nat.{
  ℕ, zero, suc, ◌+◌, ◌*◌, ◌/◌, ◌%◌, ◌≤◌, ◌<◌, min, max, bit_and, bit_or, digits, bit_and-bitwise,
  bit_or-bitwise,
}
use mathlib.Core.Path.{◌≡◌, refl}
use native.Mathlib.Omega.{arith}
use mathlib.Core.Bool.{Bool, true, ◌&&◌}
use nrf52_unifying.Prelude.Tests.{◌==◌, ==_iff}

abbrev or_digits : ℕ → ℕ → ℕ → ℕ
or_digits n a b = digits (λ b. b) max n a b

-- More rounds than the first word has digits change nothing.
or_digits_rounds : (n m a b : ℕ) → a ≤ n → a ≤ m → or_digits n a b ≡ or_digits m a b
or_digits_rounds zero zero a b p q = refl
or_digits_rounds zero (suc m) zero b p q = refl
or_digits_rounds zero (suc m) (suc a) b p q = absurd (omega arith)
or_digits_rounds (suc n) zero zero b p q = refl
or_digits_rounds (suc n) zero (suc a) b p q = absurd (omega arith)
or_digits_rounds (suc n) (suc m) zero b p q = refl
or_digits_rounds (suc n) (suc m) (suc a) b p q =
    omega (arith, or_digits_rounds n m (suc a / 2) (b / 2) (omega arith) (omega arith))

zero-bit_or : (b : ℕ) → bit_or 0 b ≡ b
zero-bit_or b = bit_or-bitwise 0 b

bit_or_halves : (a b : ℕ) → bit_or a b ≡ bit_or (a / 2) (b / 2) * 2 + max (a % 2) (b % 2)
bit_or_halves zero b = omega (arith, zero-bit_or b, zero-bit_or (b / 2))
bit_or_halves (suc a) b = omega (
  arith,
  bit_or-bitwise (suc a) b,
  bit_or-bitwise (suc a / 2) (b / 2),
  or_digits_rounds a (suc a / 2) (suc a / 2) (b / 2) (omega arith) (omega arith),
)

bit_or-zero_below : (n a : ℕ) → a ≤ n → bit_or a 0 ≡ a
bit_or-zero_below n zero h = refl
bit_or-zero_below zero (suc a) h = absurd (omega arith)
bit_or-zero_below (suc n) (suc a) h =
    omega (arith, bit_or_halves (suc a) 0, bit_or-zero_below n (suc a / 2) (omega arith))

bit_or-zero : (a : ℕ) → bit_or a 0 ≡ a
bit_or-zero a = bit_or-zero_below a a (omega arith)

-- `(value << 4) | nibble` is a sum.
pub bit_or_nibble : (k n : ℕ) → n < 16 → bit_or (k * 16) n ≡ k * 16 + n
bit_or_nibble k n h = omega (
  arith,
  bit_or_halves (k * 16) n,
  bit_or_halves (k * 16 / 2) (n / 2),
  bit_or_halves (k * 16 / 2 / 2) (n / 2 / 2),
  bit_or_halves (k * 16 / 2 / 2 / 2) (n / 2 / 2 / 2),
  bit_or-zero k,
  four k n h,
)
  where
    four : (k n : ℕ) → n < 16 → bit_or (k * 16 / 2 / 2 / 2 / 2) (n / 2 / 2 / 2 / 2) ≡ bit_or k 0
    four k n h =
        let e : k * 16 / 2 / 2 / 2 / 2 ≡ k = omega arith in
        let f : n / 2 / 2 / 2 / 2 ≡ 0 = omega arith in rw (e, f)

-- `(x << 1) | 1`
pub bit_or_low_bit : (k : ℕ) → bit_or (k * 2) 1 ≡ k * 2 + 1
bit_or_low_bit k =
    let e : k * 2 / 2 ≡ k = omega arith in
    omega (arith, bit_or_halves (k * 2) 1, bit_or-zero k, halved k e)
  where
    halved : (k : ℕ) → k * 2 / 2 ≡ k → bit_or (k * 2 / 2) (1 / 2) ≡ bit_or k 0
    halved k e = rw e

abbrev and_digits : ℕ → ℕ → ℕ → ℕ
and_digits n a b = digits (λ b. zero) min n a b

and_digits_rounds : (n m a b : ℕ) → a ≤ n → a ≤ m → and_digits n a b ≡ and_digits m a b
and_digits_rounds zero zero a b p q = refl
and_digits_rounds zero (suc m) zero b p q = refl
and_digits_rounds zero (suc m) (suc a) b p q = absurd (omega arith)
and_digits_rounds (suc n) zero zero b p q = refl
and_digits_rounds (suc n) zero (suc a) b p q = absurd (omega arith)
and_digits_rounds (suc n) (suc m) zero b p q = refl
and_digits_rounds (suc n) (suc m) (suc a) b p q =
    omega (arith, and_digits_rounds n m (suc a / 2) (b / 2) (omega arith) (omega arith))

zero-bit_and : (b : ℕ) → bit_and 0 b ≡ 0
zero-bit_and b = bit_and-bitwise 0 b

bit_and_halves : (a b : ℕ) → bit_and a b ≡ bit_and (a / 2) (b / 2) * 2 + min (a % 2) (b % 2)
bit_and_halves zero b = omega (arith, zero-bit_and b, zero-bit_and (b / 2))
bit_and_halves (suc a) b = omega (
  arith,
  bit_and-bitwise (suc a) b,
  bit_and-bitwise (suc a / 2) (b / 2),
  and_digits_rounds a (suc a / 2) (suc a / 2) (b / 2) (omega arith) (omega arith),
)

bit_and-zero_below : (n a : ℕ) → a ≤ n → bit_and a 0 ≡ 0
bit_and-zero_below n zero h = refl
bit_and-zero_below zero (suc a) h = absurd (omega arith)
bit_and-zero_below (suc n) (suc a) h =
    omega (arith, bit_and_halves (suc a) 0, bit_and-zero_below n (suc a / 2) (omega arith))

pub bit_and-one : (a : ℕ) → bit_and a 1 ≡ a % 2
bit_and-one a = omega (arith, bit_and_halves a 1, bit_and-zero_below (a / 2) (a / 2) (omega arith))

pub bit_and_three : (a : ℕ) → bit_and a 3 ≡ a % 4
bit_and_three a = omega (arith, bit_and_halves a 3, bit_and-one (a / 2))

bit_and_seven : (a : ℕ) → bit_and a 7 ≡ a % 8
bit_and_seven a = omega (arith, bit_and_halves a 7, bit_and_three (a / 2))

-- `x & 15`
pub bit_and_nibble : (a : ℕ) → bit_and a 15 ≡ a % 16
bit_and_nibble a = omega (arith, bit_and_halves a 15, bit_and_seven (a / 2))

-- A test of every value below a bound.
unfoldable pub all_below : ℕ → (ℕ → Bool) → Bool
all_below zero p = true
all_below (suc n) p = p n && all_below n p

pub all_below→eq : (n : ℕ) (p : ℕ → Bool) (x : ℕ) → all_below n p ≡ true → x < n → p x ≡ true
unfolding all_below
all_below→eq zero p x h lt = absurd (omega arith)
all_below→eq (suc n) p x h lt = ground (arith, all_below→eq n p x)

ff_table : all_below 256 (λ x. bit_and 255 x == x) ≡ true
unfolding all_below
ff_table = refl

-- `0xff & b`: programming an erased byte.
pub ff-bit_and : (b : ℕ) → b < 256 → bit_and 255 b ≡ b
ff-bit_and b h = (==_iff _ b).0 (all_below→eq 256 _ b ff_table h)
