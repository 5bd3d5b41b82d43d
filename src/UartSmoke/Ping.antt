-- ===== src/UartSmoke/Ping.antt =====
-- The ping frames of app/src/uart_smoke.rs.
use nrf52_unifying.Prelude.{
  ℕ, zero, suc, ◌+◌, ◌-◌, take_all, not, ◌*◌, ◌/◌, ◌%◌, ◌^◌, ◌≤◌, ◌<◌, ◌≡◌, refl, ap, sym, ◌∙◌,
  subst, Bool, true, false, Option, none, some, [], ◌∷◌, ◌++◌, append-nil, append_assoc, arith,
  length, replicate, ◌==◌, ret, ◌>>=◌,
}
use nrf52_unifying.Prelude.Bits.{all_below, all_below→eq, bit_or_nibble, bit_and_nibble}
use nrf52_unifying.Prelude.Buffer.{IsFilled, store, store-IsFilled, copy-IsFilled, IsFilled-zero}
use nrf52_unifying.Prelude.Text.{Bytes, strip_prefix, strip_suffix, strip_prefix_append}
use nrf52_unifying.UartLink.Number.{digit, digits_from, number_text}
use nrf52_unifying.UartSmoke.{
  peer_prefix, tx_prefix, ping_loop, encode_ping, digit_value, sequence_loop, parse_line,
  parse_digits, without_cr,
}

same : Option ℕ → ℕ → Bool
same none k = false
same (some v) k = v == k

same→eq : (o : Option ℕ) (k : ℕ) → same o k ≡ true → o ≡ some k
unfolding same
same→eq none k h = absurd (ground arith)
same→eq (some v) k h = ground (arith, h)

digit_table : all_below 16 (λ k. same (digit_value (digit k)) k) ≡ true
unfolding all_below same digit_value
digit_table = refl

digit_value-digit : (k : ℕ) → k < 16 → digit_value (digit k) ≡ some k
digit_value-digit k h =
    same→eq (digit_value (digit k)) k
      (all_below→eq 16 (λ x. same (digit_value (digit x)) x) k digit_table h)

next_digit :
    (acc m : ℕ) (rest : Bytes)
    → m < 2 ^ 32
    → acc ≡ m / 16
    → sequence_loop acc (digit (m % 16) ∷ rest) ≡ sequence_loop m rest
unfolding sequence_loop
next_digit acc m rest h e =
    let wraps : acc * 16 % 2 ^ 32 ≡ acc * 16 = omega (arith, h, e) in
    rw (digit_value-digit (m % 16) (omega arith), sequence_loop)
      (rw (wraps, bit_or_nibble acc (m % 16) (omega arith))
        (ap (λ (k : ℕ). sequence_loop k rest) (omega (arith, e))))

sequence_loop-number_text : (n : ℕ) → n < 2 ^ 32 → sequence_loop 0 (number_text n) ≡ some n
sequence_loop-number_text n h =
    next_digit 0 (n / 2 ^ 28) _ (omega arith) (omega arith)
    ∙ next_digit (n / 2 ^ 28) (n / 2 ^ 24) _ (omega arith) (omega arith)
    ∙ next_digit (n / 2 ^ 24) (n / 2 ^ 20) _ (omega arith) (omega arith)
    ∙ next_digit (n / 2 ^ 20) (n / 2 ^ 16) _ (omega arith) (omega arith)
    ∙ next_digit (n / 2 ^ 16) (n / 2 ^ 12) _ (omega arith) (omega arith)
    ∙ next_digit (n / 2 ^ 12) (n / 2 ^ 8) _ (omega arith) (omega arith)
    ∙ next_digit (n / 2 ^ 8) (n / 2 ^ 4) _ (omega arith) (omega arith)
    ∙ next_digit (n / 2 ^ 4) (n / 1) [] (omega arith) (omega arith)
    ∙ unfold sequence_loop in ap some (omega arith)

ping_loop-IsFilled :
    (rounds index n at : ℕ) (out text : Bytes)
    → at ≡ length tx_prefix + index
    → IsFilled 24 out at text
    → at + rounds ≤ 24
    → (out' : Bytes) × (ping_loop rounds index n out ≡ ret out')
      × IsFilled 24 out' (at + rounds) (text ++ digits_from rounds index n)
unfolding ping_loop
ping_loop-IsFilled zero index n at out text e f room =
    let none_left : at ≡ at + 0 = omega arith in
    (out, refl, subst (λ k. IsFilled 24 out k (text ++ [])) none_left (rw append-nil f))
ping_loop-IsFilled (suc rounds) index n at out text e f room =
    let d = digit (n / 2 ^ (28 - index * 4) % 16) in
    let (out1, e1, f1) = store-IsFilled d f (omega (arith, room)) in
    let (out2, e2, f2) =
      ping_loop-IsFilled rounds (index + 1) n (at + 1) out1 (text ++ d ∷ []) (omega (arith, e)) f1
        (omega (arith, room)) in
    let len : at + 1 + rounds ≡ at + suc rounds = omega arith in
    (
      out2,
      rw (← e, bit_and_nibble (n / 2 ^ (28 - index * 4))) (rw e1 e2),
      subst (λ k. IsFilled 24 out2 k (text ++ (d ∷ digits_from rounds (index + 1) n))) len
          (subst (IsFilled 24 out2 (at + 1 + rounds))
            (append_assoc text (d ∷ []) (digits_from rounds (index + 1) n)) f2),
    )

strip_suffix-none : (b x : ℕ) (xs : Bytes) → (x == b) ≡ false → strip_suffix b (xs ++ x ∷ []) ≡ none
unfolding strip_suffix
strip_suffix-none b x [] h = rw h refl
strip_suffix-none b x (y ∷ []) h = rw (h, strip_suffix) refl
strip_suffix-none b x (y ∷ z ∷ zs) h = rw (strip_suffix-none b x (z ∷ zs) h, strip_suffix) refl

no_cr_table : all_below 16 (λ k. not (digit k == b'\r')) ≡ true
unfolding all_below
no_cr_table = refl

digit-no_cr : (k : ℕ) → k < 16 → (digit k == b'\r') ≡ false
digit-no_cr k h =
    let t : not (digit k == b'\r') ≡ true =
      all_below→eq 16 (λ x. not (digit x == b'\r')) k no_cr_table h in
    ground (arith, t)

without_cr-none : (line : Bytes) → strip_suffix b'\r' line ≡ none → without_cr line ≡ line
unfolding without_cr
without_cr-none line h = rw (h, without_cr) refl

parse_digits-some :
    (line digits : Bytes)
    → strip_prefix peer_prefix line ≡ some digits
    → length digits ≡ 8
    → parse_digits line ≡ sequence_loop 0 digits
unfolding parse_digits
parse_digits-some line digits h len =
    let eight : (length digits == 8) ≡ true = ground (arith, len) in
    rw (h, parse_digits) (rw (eight, parse_digits) refl)

parse_line_sequence : (n : ℕ) → n < 2 ^ 32 → parse_line (peer_prefix ++ number_text n) ≡ some n
unfolding parse_line
parse_line_sequence n h =
    let line = peer_prefix ++ number_text n in
    ap parse_digits (
      without_cr-none line (
        strip_suffix-none b'\r' (digit (n / 2 ^ 0 % 16)) (peer_prefix ++ digits_from 7 0 n)
          (digit-no_cr (n / 2 ^ 0 % 16) (omega arith))))
    ∙ parse_digits-some line (number_text n) (strip_prefix_append peer_prefix (number_text n)) refl
    ∙ sequence_loop-number_text n h

encode_ping-text : (n : ℕ) → encode_ping n ≡ ret (tx_prefix ++ (number_text n ++ b'\n' ∷ []))
unfolding encode_ping
encode_ping-text n =
    let (out1, e1, f1) = copy-IsFilled tx_prefix (IsFilled-zero (replicate 24 0)) (omega arith) in
    let (out2, e2, f2) =
      ping_loop-IsFilled 8 0 n 15 out1 tx_prefix (omega arith) f1 (omega arith) in
    let (out3, e3, f3) = store-IsFilled b'\n' f2 (omega arith) in
    ap (λ m. m >>= λ out. ping_loop 8 0 n out >>= λ o. store o 23 b'\n') e1
    ∙ ap (λ m. m >>= λ o. store o 23 b'\n') e2
    ∙ e3
    ∙ ap ret (sym (take_all out3 24 (omega (arith, f3.cap_is))) ∙ f3.starts)

-- For a sequence number below 2 ^ 32, encode_ping does not panic and is the prefix of this board,
-- the eight digits of the number and a line feed; and a line of the peer's prefix and these digits
-- is parsed as the number.
pub encode_ping_lem :
    (n : ℕ)
    → n < 2 ^ 32
    → (encode_ping n ≡ ret (tx_prefix ++ (number_text n ++ b'\n' ∷ [])))
      × (parse_line (peer_prefix ++ number_text n) ≡ some n)
encode_ping_lem n h = (encode_ping-text n, parse_line_sequence n h)
