-- ===== src/UartSmoke/Tests.antt =====
-- Runs of app/src/uart_smoke.rs, and its theorems at concrete inputs.
use nrf52_unifying.Prelude.Buffer.{IsFilled}
use nrf52_unifying.UartSmoke.Diagnostic.{read_done}
use nrf52_unifying.UartSmoke.Report.{IsCounters, report, format_response, format_response_lem}
use nrf52_unifying.UartSmoke.Traffic.{Read, read_done-Read}
use nrf52_unifying.Prelude.{
  ◌≡◌, refl, arith, false, some, [], ◌∷◌, ◌++◌, length, replicate, ret, ℕ, Returns, ◌≤◌,
}
use nrf52_unifying.Prelude.Text.{Bytes, codes, contains, strip_prefix, strip_suffix}
use nrf52_unifying.UartLink.Number.{number_text}
use nrf52_unifying.UartSmoke.{
  line_limit, peer_prefix, tx_prefix, encode_ping, parse_line, parse_digits, without_cr,
  sequence_loop, digit_value, feed, Counters, new,
}
use nrf52_unifying.UartSmoke.Lines.{at, line_frame, feed-line_frame}
use nrf52_unifying.UartSmoke.Ping.{encode_ping_lem}

parse_line_crlf : parse_line (codes "#RP2040 PING 0000002A\r") ≡ some 42
unfolding parse_line without_cr parse_digits sequence_loop digit_value strip_prefix strip_suffix
parse_line_crlf = refl

encode_ping_lem_example :
    (encode_ping 0xDEADBEEF ≡ ret (tx_prefix ++ (number_text 0xDEADBEEF ++ b'\n' ∷ [])))
    × (parse_line (peer_prefix ++ number_text 0xDEADBEEF) ≡ some 0xDEADBEEF)
encode_ping_lem_example = encode_ping_lem 0xDEADBEEF (omega arith)

no_line_feed : contains b'\n' (codes "#RP2040 PING 0000002A") ≡ false
unfolding contains
no_line_feed = refl

feed-line_frame_example :
    (l' : Bytes) × (length l' ≡ line_limit)
    × (feed (at (replicate 32 7) 0 false) (codes "#RP2040 PING 0000002A" ++ b'\n' ∷ [])
        ≡ ret (at l' 0 false, line_frame (codes "#RP2040 PING 0000002A") ∷ []))
feed-line_frame_example =
    feed-line_frame (replicate 32 7) (codes "#RP2040 PING 0000002A") refl no_line_feed

abbrev counts : Counters
counts = record {
  rxbytes = 5;
  peerframes = 1;
  badframes = 0;
  uart_errors = 0;
  lastseq = 0xFFFFFFFF;
  txframes = 4294967295;
}

counts-IsCounters : IsCounters counts
counts-IsCounters = record {
  w0 = omega arith;
  w1 = omega arith;
  w2 = omega arith;
  w3 = omega arith;
  w4 = omega arith;
  w5 = omega arith;
}

format_response_lem_example :
    Returns
      (format_response counts (replicate 192 0))
      (λ r. (n : ℕ) × (r.1 ≡ some n) × (n ≤ 192) × IsFilled 192 r.0 n (report counts))
format_response_lem_example = format_response_lem counts (replicate 192 0) counts-IsCounters refl

read_done-Read_example :
    Returns
      (read_done new counts (codes "#RP2040 PING 00000001\nbad\n"))
      (Read new counts 26 (codes "#RP2040 PING 00000001\nbad\n"))
read_done-Read_example =
    read_done-Read new counts (codes "#RP2040 PING 00000001\nbad\n") (refl, omega arith)
      counts-IsCounters (omega arith)
