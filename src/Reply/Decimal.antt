-- ===== src/Reply/Decimal.antt =====
-- Decimal numbers as app/src/main.rs writes them.
use nrf52_unifying.Prelude.{
  ℕ, zero, suc, ◌+◌, ◌-◌, ◌*◌, ◌/◌, ◌%◌, ◌^◌, ◌≤◌, ◌<◌, ◌≡◌, refl, ap, ◌∙◌, true, [], ◌∷◌, ◌++◌,
  arith, length, length-append, ◌==◌, if◌then◌else◌, Bool-cases, inl, inr,
}
use nrf52_unifying.Prelude.Text.{Bytes}

-- The digits of a number below `10 ^ k`, the lowest first; none for 0.
unfoldable pub low_digits : ℕ → ℕ → Bytes
low_digits zero v = []
low_digits (suc k) v = if v == 0 then [] else (b'0' + v % 10) ∷ low_digits k (v / 10)

unfoldable pub rev : Bytes → Bytes
rev [] = []
rev (x ∷ xs) = rev xs ++ x ∷ []

-- The text of a number below `10 ^ k`.
unfoldable pub decimal_of : ℕ → ℕ → Bytes
unfolding low_digits rev
decimal_of k v = if v == 0 then b'0' ∷ [] else rev (low_digits k v)

-- The text of a `u32`, which has ten digits at most.
abbrev pub decimal : ℕ → Bytes
decimal v = decimal_of 10 v

-- Horner's scheme: the number that a text of digits is.
unfoldable pub value : ℕ → Bytes → ℕ
value acc [] = acc
value acc (d ∷ ds) = value (acc * 10 + (d - b'0')) ds

abbrev pub pow10 : ℕ → ℕ
pow10 zero = 1
pow10 (suc k) = 10 * pow10 k

value-append : (acc : ℕ) (xs ys : Bytes) → value acc (xs ++ ys) ≡ value (value acc xs) ys
unfolding value
value-append acc [] ys = refl
value-append acc (x ∷ xs) ys = value-append (acc * 10 + (x - b'0')) xs ys

value-low_digits : (k v : ℕ) → v < pow10 k → value 0 (rev (low_digits k v)) ≡ v
unfolding value low_digits rev
value-low_digits zero v h = omega (arith, h)
value-low_digits (suc k) v h = elim (Bool-cases (v == 0)) [
  | inl z ↦ rw z (ground (arith, z))
  | inr nz ↦ rw nz (
      value-append 0 (rev (low_digits k (v / 10))) ((b'0' + v % 10) ∷ [])
      ∙ ap (λ a. a * 10 + (b'0' + v % 10 - b'0')) (value-low_digits k (v / 10) (omega (arith, h)))
      ∙ omega arith)
]

value-decimal_of : (k v : ℕ) → v < pow10 k → value 0 (decimal_of k v) ≡ v
unfolding decimal_of value
value-decimal_of k v h = elim (Bool-cases (v == 0)) [
  | inl z ↦ rw z (ground (arith, z))
  | inr nz ↦ rw nz (value-low_digits k v h)
]

-- The text of a `u32` is read back as that number.
pub value-decimal : (v : ℕ) → v < 2 ^ 32 → value 0 (decimal v) ≡ v
value-decimal v h = value-decimal_of 10 v (omega arith)

length-rev : (xs : Bytes) → length (rev xs) ≡ length xs
unfolding rev
length-rev [] = refl
length-rev (x ∷ xs) = omega (arith, length-append (rev xs) (x ∷ []), length-rev xs)

pub length-low_digits : (k j v : ℕ) → v < pow10 j → length (low_digits k v) ≤ j
unfolding low_digits
length-low_digits zero j v h = omega arith
length-low_digits (suc k) zero v h =
    let z : (v == 0) ≡ true = ground (arith, h) in rw z (omega arith)
length-low_digits (suc k) (suc j) v h = elim (Bool-cases (v == 0)) [
  | inl z ↦ rw z (omega arith)
  | inr nz ↦ rw nz (omega (arith, length-low_digits k j (v / 10) (omega (arith, h))))
]

-- A number below `10 ^ j` has at most `j` digits.
pub length-decimal_of : (k j v : ℕ) → v < pow10 (suc j) → length (decimal_of k v) ≤ suc j
unfolding decimal_of
length-decimal_of k j v h = elim (Bool-cases (v == 0)) [
  | inl z ↦ rw z (omega arith)
  | inr nz ↦ rw nz (omega (arith, length-rev (low_digits k v), length-low_digits k (suc j) v h))
]
