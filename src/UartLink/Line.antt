-- ===== src/UartLink/Line.antt =====
-- `parse_line` of app/src/uart_link.rs against its specification on values without buffers.
use nrf52_unifying.Prelude.{
  ℕ, ◌≤◌, ◌≡◌, refl, not, ◌||◌, Option, none, some, [], ◌∷◌, arith, length, take, drop, replicate,
  length-drop, get_or, ltb, ◌==◌, if◌then◌else◌, Option-cases, Bool-cases, inl, inr, Returns,
}
use nrf52_unifying.Prelude.Buffer.{IsFilled, slice_to-IsFilled}
use nrf52_unifying.Prelude.Text.{Bytes, contains, strip_suffix, tokens}
use nrf52_unifying.UartLink.{
  line_limit, CommandError, argument, Frame, without_cr, parse_number, parse_command, parse_line,
  validate,
}
use nrf52_unifying.UartLink.Words.{join, length-join-tokens, canonical_loop-join}

-- A frame as a value: the number, the canonical command and the error.
pub record Message : Type 0 where
  pub number : ℕ
  pub text : Bytes
  pub error : Option CommandError

unfoldable pub message_of : ℕ → Bytes → Message
message_of number text = record {
  number = number;
  text = join (tokens text);
  error = if contains b'\r' text then some argument else validate (join (tokens text));
}

-- The message of a received line, if it has one.
unfoldable pub line_message : Bytes → Option Message
line_message received =
    let line = without_cr received in
    if ltb (length line) 10 || not (get_or line 0 0 == b'@') || not (get_or line 9 0 == b' ')
    then none
    else elim (parse_number 0 (take 8 (drop 1 line))) [
      | none ↦ none
      | some number ↦ some (message_of number (drop 10 line))
    ]

-- The frame's buffer holds the message.
abbrev pub Shows : Option Frame → Option Message → Type 0
Shows none none = Unit {0}
Shows (some f) (some m) =
    (f.number ≡ m.number) × IsFilled line_limit f.command f.len m.text × (f.error ≡ m.error)
Shows _ _ = ⊥

strip_suffix-length :
    (b : ℕ) (line : Bytes) {rest : Bytes}
    → strip_suffix b line ≡ some rest
    → length rest ≤ length line
unfolding strip_suffix
strip_suffix-length b [] h = cc
strip_suffix-length b (x ∷ []) {rest} h = ground arith
strip_suffix-length b (x ∷ y ∷ ys) {rest} h = elim (Option-cases (strip_suffix b (y ∷ ys))) [
  | inl e ↦ cc (rw (e, strip_suffix) at h)
  | inr (r, e) ↦
      let is_rest : some (x ∷ r) ≡ some rest = rw e at h in
      let eq : rest ≡ x ∷ r = cc is_rest in
      rw eq (let shorter = strip_suffix-length b (y ∷ ys) e in omega arith)
]

pub without_cr-length : (line : Bytes) → length (without_cr line) ≤ length line
unfolding without_cr
without_cr-length line = go (strip_suffix b'\r' line) refl
  where
    go :
        (o : Option Bytes)
        → strip_suffix b'\r' line ≡ o
        → length (elim o as (λ x. Bytes) [ none ↦ line | some rest ↦ rest ]) ≤ length line
    go none e = omega arith
    go (some rest) e = strip_suffix-length b'\r' line e

parse_command-Shows :
    (number : ℕ) (text : Bytes)
    → length text ≤ line_limit
    → Returns (parse_command number text) (λ f. Shows f (some (message_of number text)))
unfolding parse_command message_of
parse_command-Shows number text h =
    let (buf, len, e, f) =
      canonical_loop-join (tokens text) (replicate line_limit 0)
        (omega (arith, length-join-tokens text)) in
    rw e
      (rw (slice_to-IsFilled f (omega (arith, f.len_is, length-join-tokens text))) (refl, f, refl))

-- `parse_line` does not panic on a line of the parser, and returns the line's message.
pub parse_line-Shows :
    (received : Bytes)
    → length received ≤ line_limit
    → Returns (parse_line received) (λ f. Shows f (line_message received))
unfolding parse_line line_message
parse_line-Shows received h =
    let line = without_cr received in
    elim (Bool-cases
      (ltb (length line) 10 || not (get_or line 0 0 == b'@') || not (get_or line 9 0 == b' '))) [
        | inl short ↦ rw short tt
        | inr long ↦ rw long (elim (Option-cases (parse_number 0 (take 8 (drop 1 line)))) [
          | inl e ↦ rw e tt
          | inr (n, e) ↦ rw e (
              parse_command-Shows n (drop 10 line)
                (omega (arith, length-drop 10 line, without_cr-length received)))
        ])
      ]
