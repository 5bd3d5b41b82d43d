-- ===== src/UartSmoke.antt =====
-- app/src/uart_smoke.rs: the diagnostic frames, their parser and the counters.
pub mod Ping
pub mod Report
pub mod Diagnostic
pub mod Traffic
pub mod Lines
mod Tests
use nrf52_unifying.Prelude.{
  ℕ, zero, suc, ◌+◌, ◌-◌, ◌*◌, ◌/◌, ◌%◌, ◌^◌, min, Bool, true, false, not, ◌&&◌, ◌||◌, Option, none,
  some, List, [], ◌∷◌, ◌++◌, length, replicate, set, get_or, leb, ltb, ◌==◌, if◌then◌else◌, bit_and,
  bit_or, Run, panic, ret, ◌>>=◌,
}
use nrf52_unifying.Prelude.Buffer.{store, copy, slice_to}
use nrf52_unifying.Prelude.Text.{Bytes, codes, strip_prefix, strip_suffix}

abbrev pub peer_prefix : Bytes
peer_prefix = codes "#RP2040 PING "

abbrev pub tx_prefix : Bytes
tx_prefix = codes "#NRF52840 PING "

abbrev pub hex_digits : Bytes
hex_digits = codes "0123456789ABCDEF"

abbrev pub line_limit : ℕ
line_limit = 32

-- `NRF_UART_SMOKE_COUNTERS`
pub record Counters : Type 0 where
  pub rxbytes : ℕ
  pub peerframes : ℕ
  pub badframes : ℕ
  pub uart_errors : ℕ
  pub lastseq : ℕ
  pub txframes : ℕ

-- `saturating_add` on a `u32`.
unfoldable pub saturating_add : ℕ → ℕ → ℕ
saturating_add old value = min (old + value) (2 ^ 32 - 1)

unfoldable pub received_bytes : Counters → ℕ → Counters
unfolding saturating_add
received_bytes c count = record c { rxbytes = saturating_add c.rxbytes (count % 2 ^ 32) }

unfoldable pub bad_frame : Counters → Counters
unfolding saturating_add
bad_frame c = record c { badframes = saturating_add c.badframes 1 }

unfoldable pub uart_error : Counters → Counters
unfolding saturating_add
uart_error c = record c { uart_errors = saturating_add c.uart_errors 1 }

unfoldable pub received_peer : Counters → ℕ → Counters
unfolding saturating_add
received_peer c sequence = record c {
  peerframes = saturating_add c.peerframes 1;
  lastseq = sequence;
}

unfoldable pub transmitted_frame : Counters → Counters
unfolding saturating_add
transmitted_frame c = record c { txframes = saturating_add c.txframes 1 }

-- The loop over the digits of `encode_ping`, with the rounds that are left.
unfoldable pub ping_loop : ℕ → ℕ → ℕ → Bytes → Run Bytes
unfolding store
ping_loop zero index sequence out = ret out
ping_loop (suc rounds) index sequence out =
    store out (length tx_prefix + index)
      (get_or hex_digits (bit_and (sequence / 2 ^ (28 - index * 4)) 15) 0)
    >>= λ out'. ping_loop rounds (index + 1) sequence out'

unfoldable pub encode_ping : ℕ → Run Bytes
unfolding ping_loop copy store
encode_ping sequence = copy (replicate 24 0) 0 tx_prefix >>= λ out.
    ping_loop 8 0 sequence out >>= λ out'. store out' 23 b'\n'

pub data Frame : Type 0 where
  peer : ℕ → Frame
  bad : Frame

pub record Parser : Type 0 where
  pub line : Bytes
  pub len : ℕ
  pub discard : Bool

abbrev pub new : Parser
new = record { line = replicate line_limit 0; len = 0; discard = false }

-- Whether the damage is new to this line.
unfoldable pub damaged : Parser → Parser × Bool
damaged p = (record p { len = 0; discard = true }, not p.discard)

unfoldable pub digit_value : ℕ → Option ℕ
digit_value byte =
    if leb b'0' byte && leb byte b'9'
    then some (byte - b'0')
    else if leb b'A' byte && leb byte b'F'
    then some (byte - b'A' + 10)
    else none

unfoldable pub sequence_loop : ℕ → Bytes → Option ℕ
unfolding digit_value
sequence_loop sequence [] = some sequence
sequence_loop sequence (byte ∷ bytes) = elim (digit_value byte) [
  | none ↦ none
  | some nibble ↦ sequence_loop (bit_or (sequence * 16 % 2 ^ 32) nibble) bytes
]

unfoldable pub without_cr : Bytes → Bytes
unfolding strip_suffix
without_cr line = elim (strip_suffix b'\r' line) [ none ↦ line | some rest ↦ rest ]

unfoldable pub parse_digits : Bytes → Option ℕ
unfolding sequence_loop strip_prefix
parse_digits line = elim (strip_prefix peer_prefix line) [
  | none ↦ none
  | some digits ↦ if length digits == 8 then sequence_loop 0 digits else none
]

unfoldable pub parse_line : Bytes → Option ℕ
unfolding without_cr parse_digits
parse_line line = parse_digits (without_cr line)

abbrev pub frame_of : Option ℕ → Frame
frame_of none = bad
frame_of (some sequence) = peer sequence

-- The line feed: what the line makes, and the parser at the next line.
unfoldable pub end_line : Parser → Run (Parser × Option Frame)
unfolding slice_to parse_line
end_line p =
    if p.discard
    then ret (record p { len = 0; discard = false }, none)
    else (slice_to p.line p.len >>= λ line.
        ret (record p { len = 0; discard = false }, some (frame_of (parse_line line))))

abbrev pub is_text : ℕ → Bool
is_text byte = byte == b'\r' || (leb 0x20 byte && leb byte 0x7e)

unfoldable pub push : Parser → ℕ → Run (Parser × Option Frame)
unfolding end_line damaged store
push p byte =
    if byte == b'\n'
    then end_line p
    else if p.discard
    then ret (p, none)
    else if p.len == line_limit || not (is_text byte)
    then ret ((damaged p).0, some bad)
    else (store p.line p.len byte >>= λ line. ret (record p { line = line; len = p.len + 1 }, none))

abbrev pub onto : Option Frame → Parser × List Frame → Parser × List Frame
onto none r = r
onto (some f) (p, fs) = (p, f ∷ fs)

-- `for &byte in &packet[..n] { .. parser.push(byte) .. }`
unfoldable pub feed : Parser → Bytes → Run (Parser × List Frame)
unfolding push
feed p [] = ret (p, [])
feed p (byte ∷ bytes) = push p byte >>= λ r. feed r.0 bytes >>= λ q. ret (onto r.1 q)
