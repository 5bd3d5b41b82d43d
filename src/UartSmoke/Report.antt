-- ===== src/UartSmoke/Report.antt =====
-- `format_response` of app/src/uart_smoke.rs: the counters as a line of text.
use nrf52_unifying.Prelude.{
  ℕ, ◌+◌, ◌^◌, ◌≤◌, ◌<◌, ◌≡◌, refl, sym, subst, Bool, true, false, Option, none, some, List, [],
  ◌∷◌, ◌++◌, append-nil, append_assoc, length, length-append, ltb, if◌then◌else◌, Run, ret, ◌>>=◌,
  Returns, Returns-bind, arith,
}
use nrf52_unifying.Prelude.Buffer.{copy, IsFilled, copy-IsFilled, IsFilled-zero}
use nrf52_unifying.Prelude.Text.{Bytes, codes}
use nrf52_unifying.Reply.Decimal.{decimal, length-decimal_of}
use nrf52_unifying.Reply.Sequence.{join, length-join}
use nrf52_unifying.UartLink.Number.{number_text}
use nrf52_unifying.UartSmoke.{Counters}

pub record Output : Type 0 where
  pub bytes : Bytes
  pub len : ℕ

-- `Output::write_str`, with its `is_ok()`.
unfoldable pub write_str : Output → Bytes → Run (Output × Bool)
write_str out text =
    if ltb (length out.bytes) (out.len + length text)
    then ret (out, false)
    else copy out.bytes out.len text >>= λ bytes.
        ret (record { bytes = bytes; len = out.len + length text }, true)

-- `write!`: the pieces one after the other, up to the first that is refused.
unfoldable pub write_pieces : Output → List Bytes → Run (Output × Bool)
unfolding write_str
write_pieces out [] = ret (out, true)
write_pieces out (piece ∷ pieces) =
    write_str out piece >>= λ r. if r.1 then write_pieces r.0 pieces else ret (r.0, false)

-- The literals and the values of the format string, as `{}` and `{:08X}` write a `u32`.
abbrev pieces_of : Counters → List Bytes
pieces_of c =
    codes "UARTTEST rxbytes="
    ∷ decimal c.rxbytes
    ∷ codes " peerframes="
    ∷ decimal c.peerframes
    ∷ codes " badframes="
    ∷ decimal c.badframes
    ∷ codes " uart_errors="
    ∷ decimal c.uart_errors
    ∷ codes " lastseq="
    ∷ number_text c.lastseq
    ∷ codes " txframes="
    ∷ decimal c.txframes
    ∷ codes "\r\n"
    ∷ []

-- The buffer, and the length where all of the text fits.
unfoldable pub format_response : Counters → Bytes → Run (Bytes × Option ℕ)
unfolding write_pieces
format_response c buffer = write_pieces (record { bytes = buffer; len = 0 }) (pieces_of c) >>= λ r.
    ret (r.0.bytes, if r.1 then some r.0.len else none)

-- All pieces are written behind the text before.
record Written (cap : ℕ) (text : Bytes) (r : Output × Bool) : Type 0 where
  filled : IsFilled cap r.0.bytes r.0.len text
  ok : r.1 ≡ true

write_pieces-Written :
    (cap : ℕ) (out : Output) (text : Bytes) (pieces : List Bytes)
    → IsFilled cap out.bytes out.len text
    → length text + length (join pieces) ≤ cap
    → Returns (write_pieces out pieces) (Written cap (text ++ join pieces))
unfolding write_pieces
write_pieces-Written cap out text [] f le = record {
  filled = subst (IsFilled cap out.bytes out.len) (sym (append-nil text)) f;
  ok = refl;
}
write_pieces-Written cap out text (piece ∷ pieces) f le =
    let all : length (join (piece ∷ pieces)) ≡ length piece + length (join pieces) =
      length-append piece (join pieces) in
    let fits : out.len + length piece ≤ cap = omega (arith, le, f.len_is, all) in
    let room : ltb (length out.bytes) (out.len + length piece) ≡ false =
      ground (arith, fits, f.cap_is) in
    let (bytes, e, g) = copy-IsFilled piece f fits in
    let rest =
      write_pieces-Written cap (record { bytes = bytes; len = out.len + length piece })
        (text ++ piece) pieces g (omega (arith, le, all, length-append text piece)) in
    rw (room, e)
      (subst
        (λ t.
          Returns (write_pieces (record { bytes = bytes; len = out.len + length piece }) pieces)
            (Written cap t))
        (append_assoc text piece (join pieces)) rest)

-- The six words.
pub record IsCounters (c : Counters) : Type 0 where
  pub w0 : c.rxbytes < 2 ^ 32
  pub w1 : c.peerframes < 2 ^ 32
  pub w2 : c.badframes < 2 ^ 32
  pub w3 : c.uart_errors < 2 ^ 32
  pub w4 : c.lastseq < 2 ^ 32
  pub w5 : c.txframes < 2 ^ 32

report_short : (c : Counters) → IsCounters c → length (join (pieces_of c)) ≤ 192
report_short c h = rw (length-join (pieces_of c)) (
    omega (
      arith,
      length-decimal_of 10 9 c.rxbytes (omega (arith, h.w0)),
      length-decimal_of 10 9 c.peerframes (omega (arith, h.w1)),
      length-decimal_of 10 9 c.badframes (omega (arith, h.w2)),
      length-decimal_of 10 9 c.uart_errors (omega (arith, h.w3)),
      length-decimal_of 10 9 c.txframes (omega (arith, h.w5)),
    ))

-- The report: the word, then each counter behind its own name, and the end of a line. The last
-- sequence number is in eight hexadecimal digits, the other counters in decimal.
abbrev field : Bytes → Bytes → Bytes
field name value = codes " " ++ (name ++ (codes "=" ++ value))

abbrev pub report : Counters → Bytes
report c =
    codes "UARTTEST"
    ++ (field (codes "rxbytes") (decimal c.rxbytes)
        ++ (field (codes "peerframes") (decimal c.peerframes)
            ++ (field (codes "badframes") (decimal c.badframes)
                ++ (field (codes "uart_errors") (decimal c.uart_errors)
                    ++ (field (codes "lastseq") (number_text c.lastseq)
                        ++ (field (codes "txframes") (decimal c.txframes) ++ codes "\r\n"))))))

join-pieces_of : (c : Counters) → join (pieces_of c) ≡ report c
join-pieces_of c = refl

-- In a buffer of 192 bytes the report of any counters that are words, each behind its own name,
-- the last sequence number in eight hexadecimal digits and the others in decimal, is written from
-- its start without a panic and without a refusal, and its length is returned.
pub format_response_lem :
    (c : Counters) (buffer : Bytes)
    → IsCounters c
    → length buffer ≡ 192
    → Returns
        (format_response c buffer)
        (λ r. (n : ℕ) × (r.1 ≡ some n) × (n ≤ 192) × IsFilled 192 r.0 n (report c))
unfolding format_response
format_response_lem c buffer h size_is =
    let short = report_short c h in
    Returns-bind (write_pieces (record { bytes = buffer; len = 0 }) (pieces_of c)) _
      (Written 192 (join (pieces_of c))) _
      (write_pieces-Written 192 (record { bytes = buffer; len = 0 }) [] (pieces_of c)
        (subst (λ n. IsFilled n buffer 0 []) size_is (IsFilled-zero buffer)) (omega (arith, short)))
      (λ r w. (
        r.0.len,
        rw w.ok refl,
        omega (arith, short, w.filled.len_is),
        subst (IsFilled 192 r.0.bytes r.0.len) (join-pieces_of c) w.filled,
      ))
