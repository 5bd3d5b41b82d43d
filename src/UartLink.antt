-- ===== src/UartLink.antt =====
-- app/src/uart_link.rs: the numbered lines of the UART link.
pub mod Words
pub mod Line
pub mod Stream
pub mod Resync
pub mod Number
pub mod Grammar
pub mod Command
mod Tests
use nrf52_unifying.Prelude.{
  ℕ, zero, suc, ◌+◌, ◌-◌, ◌*◌, ◌/◌, ◌%◌, ◌^◌, Bool, true, false, not, ◌&&◌, ◌||◌, Option, none,
  some, List, [], ◌∷◌, length, take, drop, get_or, set, replicate, leb, ltb, ◌==◌, if◌then◌else◌,
  bit_and, bit_or, Run, panic, ret, ◌>>=◌,
}
use nrf52_unifying.Prelude.Buffer.{store, copy, slice_to}
use nrf52_unifying.Prelude.Text.{Bytes, codes, eq_bytes, strip_suffix, last, contains, tokens}

abbrev pub line_limit : ℕ
line_limit = 256

pub data CommandError : Type 0 where
  command argument : CommandError

pub record Frame : Type 0 where
  pub number : ℕ
  pub command : Bytes
  pub len : ℕ
  pub error : Option CommandError

pub record Parser : Type 0 where
  pub line : Bytes
  pub len : ℕ
  pub discard : Bool

abbrev pub new : Parser
new = record { line = replicate line_limit 0; len = 0; discard = false }

unfoldable pub damaged : Parser → Parser
damaged p = record p { len = 0; discard = true }

-- `pending.last() != Some(&b'\n')`
unfoldable pub ends_open : Bytes → Bool
unfolding last
ends_open pending = elim (last pending) [ none ↦ true | some b ↦ not (b == b'\n') ]

abbrev pub is_empty : Bytes → Bool
is_empty [] = true
is_empty (_ ∷ _) = false

unfoldable pub session_changed : Parser → Bytes → Parser
unfolding ends_open
session_changed p pending =
    if not (p.len == 0) || not (is_empty pending)
    then record p { len = 0; discard = ends_open pending }
    else p

unfoldable pub hex : ℕ → Option ℕ
hex byte =
    if leb b'0' byte && leb byte b'9'
    then some (byte - b'0')
    else if leb b'A' byte && leb byte b'F'
    then some (byte - b'A' + 10)
    else if leb b'a' byte && leb byte b'f'
    then some (byte - b'a' + 10)
    else none

-- The loop of `hex_byte`, on a `u8`.
unfoldable pub hex_byte_loop : ℕ → Bytes → Option ℕ
unfolding hex
hex_byte_loop value [] = some value
hex_byte_loop value (byte ∷ bs) = elim (hex byte) [
  | none ↦ none
  | some v ↦ hex_byte_loop (bit_or (value * 16 % 256) v) bs
]

unfoldable pub hex_byte : Bytes → Option ℕ
unfolding hex_byte_loop
hex_byte token = if is_empty token || ltb 2 (length token) then none else hex_byte_loop 0 token

abbrev pub no_more : List Bytes → Bool
no_more [] = true
no_more (_ ∷ _) = false

abbrev pub below_four : Option ℕ → Bool
below_four none = false
below_four (some slot) = ltb slot 4

-- `tokens.next().and_then(hex_byte).is_some_and(|slot| slot < 4) && tokens.next().is_none()`
unfoldable pub slot_argument : List Bytes → Bool
slot_argument [] = false
slot_argument (t ∷ ts) = below_four (hex_byte t) && no_more ts

abbrev pub is_none : Option ℕ → Bool
is_none none = true
is_none (some _) = false

-- The loop over the keys of `UKEYDOWN`.
unfoldable pub validate_keys : ℕ → List Bytes → Option CommandError
validate_keys count [] = none
validate_keys count (t ∷ ts) =
    let rest = validate_keys (count + 1) ts in
    if ltb 6 (count + 1) || is_none (hex_byte t) then some argument else rest

unfoldable pub validate_report : List Bytes → Option CommandError
unfolding validate_keys
validate_report [] = some argument
validate_report (t ∷ ts) = if is_none (hex_byte t) then some argument else validate_keys 0 ts

unfoldable pub validate_tokens : List Bytes → Option CommandError
unfolding slot_argument validate_report
validate_tokens [] = some command
validate_tokens (t ∷ ts) =
    if eq_bytes t (codes "OTA")
    then none
    else if eq_bytes t (codes "VER") || eq_bytes t (codes "USTATUS")
    then (if no_more ts then none else some argument)
    else if eq_bytes t (codes "USWITCH") || eq_bytes t (codes "UPAIR")
    then (if slot_argument ts then none else some argument)
    else if eq_bytes t (codes "UKEYDOWN")
    then validate_report ts
    else some command

unfoldable pub validate : Bytes → Option CommandError
unfolding validate_tokens
validate line = validate_tokens (tokens line)

-- `byte.is_ascii_digit() || (b'A'..=b'F').contains(&byte)`
unfoldable pub is_number_digit : ℕ → Bool
is_number_digit byte = (leb b'0' byte && leb byte b'9') || (leb b'A' byte && leb byte b'F')

-- The loop over the eight digits of the request number, on a `u32`.
unfoldable pub parse_number : ℕ → Bytes → Option ℕ
unfolding is_number_digit hex
parse_number number [] = some number
parse_number number (byte ∷ bs) = elim (is_number_digit byte) [
  | false ↦ none
  | true ↦ elim (hex byte) [
    | none ↦ none
    | some v ↦ parse_number (bit_or (number * 16 % 2 ^ 32) v) bs
  ]
]

-- The loop that writes the tokens, one space apart, to `frame.command`.
unfoldable pub canonical_loop : List Bytes → Bool → Bytes → ℕ → Run (Bytes × ℕ)
unfolding store copy
canonical_loop [] first buf len = ret (buf, len)
canonical_loop (token ∷ ts) true buf len = do
  buf' ← copy buf len token
  canonical_loop ts false buf' (len + length token)
canonical_loop (token ∷ ts) false buf len = do
  spaced ← store buf len b' '
  buf' ← copy spaced (len + 1) token
  canonical_loop ts false buf' (len + 1 + length token)

-- `if let Some(without_cr) = line.strip_suffix(b"\r") { line = without_cr; }`
unfoldable pub without_cr : Bytes → Bytes
without_cr line = elim (strip_suffix b'\r' line) [ none ↦ line | some rest ↦ rest ]

-- `parse_line` behind the request number.
unfoldable pub parse_command : ℕ → Bytes → Run (Option Frame)
unfolding canonical_loop
parse_command number text = do
  (buf, len) ← canonical_loop (tokens text) true (replicate line_limit 0) 0
  line ← slice_to buf len
  ret (
      some (record {
        number = number;
        command = buf;
        len = len;
        error = if contains b'\r' text then some argument else validate line;
      }))

unfoldable pub parse_line : Bytes → Run (Option Frame)
unfolding parse_command
parse_line received =
    let line = without_cr received in
    if ltb (length line) 10 || not (get_or line 0 0 == b'@') || not (get_or line 9 0 == b' ')
    then ret none
    else elim (parse_number 0 (take 8 (drop 1 line))) [
      | none ↦ ret none
      | some number ↦ parse_command number (drop 10 line)
    ]

-- `byte == b'\r' || (0x20..=0x7e).contains(&byte)`
unfoldable pub is_text : ℕ → Bool
is_text byte = byte == b'\r' || (leb 0x20 byte && leb byte 0x7e)

-- `push` at a line feed, with the frame of the line behind it.
unfoldable pub end_line : Parser → Run (Parser × Option Frame)
end_line p = do
  frame ← if p.discard then ret none else (slice_to p.line p.len >>= parse_line)
  ret (record p { len = 0; discard = false }, frame)

unfoldable pub push : Parser → ℕ → Run (Parser × Option Frame)
unfolding damaged end_line is_text
push p byte =
    if byte == b'\n'
    then end_line p
    else if p.discard
    then ret (p, none)
    else if p.len == line_limit || not (is_text byte)
    then ret (damaged p, none)
    else (store p.line p.len byte >>= λ line. ret (record p { line = line; len = p.len + 1 }, none))

abbrev pub onto : Option Frame → Parser × List Frame → Parser × List Frame
onto none r = r
onto (some f) (p, fs) = (p, f ∷ fs)

-- The receive loop of app/src/main.rs over the bytes of a packet: the frames in order.
unfoldable pub feed : Parser → Bytes → Run (Parser × List Frame)
feed p [] = ret (p, [])
feed p (byte ∷ bs) = do (p', frame) ← push p byte; rest ← feed p' bs; ret (onto frame rest)

-- `b"0123456789ABCDEF"`
abbrev pub hex_digits : Bytes
hex_digits = codes "0123456789ABCDEF"

-- The loop over the digits of `encode_reply`, with the rounds that are left.
unfoldable pub number_loop : ℕ → ℕ → ℕ → Bytes → Bytes
number_loop zero index number out = out
number_loop (suc rounds) index number out =
    number_loop rounds (index + 1) number
      (set out (index + 1) (get_or hex_digits (bit_and (number / 2 ^ (28 - index * 4)) 15) 0))

-- The buffer and the length; every index is in range behind the test.
unfoldable pub encode_reply : ℕ → Bytes → Bytes → Run (Option (Bytes × ℕ))
unfolding number_loop
encode_reply number body out =
    if ltb (length out) (length body + 10)
    then ret none
    else (copy (set (number_loop 8 0 number (set out 0 b'@')) 9 b' ') 10 body >>= λ wire.
        ret (some (wire, length body + 10)))
