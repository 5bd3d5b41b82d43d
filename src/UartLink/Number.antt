-- ===== src/UartLink/Number.antt =====
-- The request number of app/src/uart_link.rs: eight upper-case hexadecimal digits.
use nrf52_unifying.Prelude.{
  ℕ, zero, suc, ◌+◌, ◌*◌, ◌-◌, ◌/◌, ◌%◌, ◌^◌, ◌≤◌, ◌<◌, ◌≡◌, refl, ap, ◌∙◌, Bool, true, false, ◌&&◌,
  Option, none, some, [], ◌∷◌, ◌++◌, append-nil, append_assoc, arith, length, get_or, ◌==◌, ltb,
  ret, Bool-cases, inl, inr, ◌⊎◌,
}
use nrf52_unifying.Prelude.Bits.{all_below, all_below→eq, bit_or_nibble, bit_and_nibble}
use nrf52_unifying.Prelude.Buffer.{IsFilled, copy-IsFilled, set-IsFilled, IsFilled-zero}
use nrf52_unifying.Prelude.Text.{Bytes}
use nrf52_unifying.UartLink.{
  hex, is_number_digit, parse_number, hex_digits, number_loop, encode_reply,
}

abbrev pub digit : ℕ → ℕ
digit k = get_or hex_digits k 0

-- The digits from the one at `index` on.
abbrev pub digits_from : ℕ → ℕ → ℕ → Bytes
digits_from zero index n = []
digits_from (suc rounds) index n =
    digit (n / 2 ^ (28 - index * 4) % 16) ∷ digits_from rounds (index + 1) n

abbrev pub number_text : ℕ → Bytes
number_text n = digits_from 8 0 n

is_digit_of : ℕ → Bool
is_digit_of k = is_number_digit (digit k) && elim (hex (digit k)) [ none ↦ false | some v ↦ v == k ]

digit_table : all_below 16 is_digit_of ≡ true
unfolding all_below is_digit_of is_number_digit hex
digit_table = refl

digit_value : (k : ℕ) → k < 16 → (is_number_digit (digit k) ≡ true) × (hex (digit k) ≡ some k)
unfolding is_digit_of
digit_value k h =
    go (is_number_digit (digit k)) (hex (digit k)) (all_below→eq 16 is_digit_of k digit_table h)
  where
    go :
        (b : Bool) (o : Option ℕ)
        → (b && elim o as (λ x. Bool) [ none ↦ false | some v ↦ v == k ]) ≡ true
        → (b ≡ true) × (o ≡ some k)
    go true none e = absurd (cc e)
    go true (some v) e = ground arith
    go false o e = absurd (cc e)

parse_digit :
    (acc k : ℕ) (rest : Bytes)
    → acc < 2 ^ 28
    → k < 16
    → parse_number acc (digit k ∷ rest) ≡ parse_number (acc * 16 + k) rest
unfolding parse_number
parse_digit acc k rest ha hk =
    let wraps : acc * 16 % 2 ^ 32 ≡ acc * 16 = omega arith in
    rw ((digit_value k hk).0, parse_number)
      (rw ((digit_value k hk).1) (rw (wraps, bit_or_nibble acc k hk) refl))

next_digit :
    (acc m : ℕ) (rest : Bytes)
    → m < 2 ^ 32
    → acc ≡ m / 16
    → parse_number acc (digit (m % 16) ∷ rest) ≡ parse_number m rest
next_digit acc m rest h e =
    parse_digit acc (m % 16) rest (omega arith) (omega arith)
    ∙ ap (λ (k : ℕ). parse_number k rest) (omega arith)

-- The eight digits of a number below 2 ^ 32 are read back as that number.
pub parse_number-number_text : (n : ℕ) → n < 2 ^ 32 → parse_number 0 (number_text n) ≡ some n
parse_number-number_text n h =
    next_digit 0 (n / 2 ^ 28) _ (omega arith) (omega arith)
    ∙ next_digit (n / 2 ^ 28) (n / 2 ^ 24) _ (omega arith) (omega arith)
    ∙ next_digit (n / 2 ^ 24) (n / 2 ^ 20) _ (omega arith) (omega arith)
    ∙ next_digit (n / 2 ^ 20) (n / 2 ^ 16) _ (omega arith) (omega arith)
    ∙ next_digit (n / 2 ^ 16) (n / 2 ^ 12) _ (omega arith) (omega arith)
    ∙ next_digit (n / 2 ^ 12) (n / 2 ^ 8) _ (omega arith) (omega arith)
    ∙ next_digit (n / 2 ^ 8) (n / 2 ^ 4) _ (omega arith) (omega arith)
    ∙ next_digit (n / 2 ^ 4) (n / 1) [] (omega arith) (omega arith)
    ∙ unfold parse_number in ap some (omega arith)

number_loop-IsFilled :
    (rounds index n : ℕ) {cap : ℕ} {out text : Bytes}
    → IsFilled cap out (index + 1) text
    → index + 1 + rounds ≤ cap
    → IsFilled cap
        (number_loop rounds index n out)
        (index + 1 + rounds)
        (text ++ digits_from rounds index n)
unfolding number_loop
number_loop-IsFilled zero index n {cap} {out} {text} f fits =
    let e : index + 1 + 0 ≡ index + 1 = omega arith in rw (e, append-nil) f
number_loop-IsFilled (suc rounds) index n {cap} {out} {text} f fits =
    let d = digit (n / 2 ^ (28 - index * 4) % 16) in
    let e : index + 1 + suc rounds ≡ index + 1 + 1 + rounds = omega arith in
    rw
      (
        bit_and_nibble (n / 2 ^ (28 - index * 4)),
        e,
        ← append_assoc text (d ∷ []) (digits_from rounds (index + 1) n),
      )
      (number_loop-IsFilled rounds (index + 1) n (set-IsFilled d f (omega arith)) (omega arith))

-- The wire form of a reply.
abbrev pub reply_text : ℕ → Bytes → Bytes
reply_text number body = b'@' ∷ (number_text number ++ (b' ' ∷ body))

-- A reply is either refused, where the buffer is shorter than the body and ten bytes, or fills the
-- buffer from its start with an at sign, the eight digits of the number, a space and the body, and
-- the length is returned; it never panics.
pub encode_reply_lem :
    (number : ℕ) (body out : Bytes)
    → ((length out < length body + 10) × (encode_reply number body out ≡ ret none))
      ⊎ ((wire : Bytes) × (encode_reply number body out ≡ ret (some (wire, length body + 10)))
          × IsFilled (length out) wire (length body + 10) (reply_text number body))
unfolding encode_reply
encode_reply_lem number body out = elim (Bool-cases (ltb (length out) (length body + 10))) [
  | inl short ↦ inl (ground arith, rw short refl)
  | inr long ↦
      let room : length body + 10 ≤ length out = ground arith in
      let at = set-IsFilled b'@' (IsFilled-zero out) (omega arith) in
      let digits = number_loop-IsFilled 8 0 number at (omega arith) in
      let space = set-IsFilled b' ' digits (omega arith) in
      let (wire, e, f) = copy-IsFilled body space (omega arith) in
      let len : 10 + length body ≡ length body + 10 = omega arith in
      inr (wire, rw long (rw e refl), rw len at f)
]
