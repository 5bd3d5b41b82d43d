-- ===== src/Tasks/Link.antt =====
-- `uart_rx_fut` and `uart_tx_fut` of app/src/main.rs: what the UART receives and sends, with the
-- counters that a debugger reads.
use nrf52_unifying.Prelude.{
  ℕ, ◌+◌, ◌%◌, ◌^◌, Bool, true, false, Option, none, some, List, [], ◌∷◌, ◌++◌, length, take, drop,
  ◌==◌, if◌then◌else◌, min, Run, ret, ◌>>=◌,
}
use nrf52_unifying.Prelude.Buffer.{slice_to}
use nrf52_unifying.Prelude.Text.{Bytes}
use nrf52_unifying.Tasks.{cdc, uart, Request, Reply, Shared, try_send, uart_damage}
use nrf52_unifying.UartLink.{Frame, Parser, damaged, session_changed, push, encode_reply}

-- `UartDebug`
pub record Debug : Type 0 where
  pub rx_bytes : ℕ
  pub rx_chunks : ℕ
  pub rx_frames : ℕ
  pub rx_errors : ℕ
  pub tx_bytes : ℕ
  pub tx_frames : ℕ
  pub tx_errors : ℕ
  pub rx_len : ℕ
  pub tx_len : ℕ
  pub rx : Bytes
  pub tx : Bytes

-- `debug_add`, on a `u32`.
abbrev pub debug_add : ℕ → ℕ → ℕ
debug_add p n = (p + n) % 2 ^ 32

-- The loop of `debug_packet` over the first 256 bytes, into a buffer of 256.
unfoldable pub debug_copy : Bytes → Bytes → Bytes
debug_copy buf bytes = take 256 bytes ++ drop (length (take 256 bytes)) buf

unfoldable pub debug_packet : Bool → Bytes → Debug → Debug
unfolding debug_copy
debug_packet true bytes d = record d {
  tx = debug_copy d.tx bytes;
  tx_len = min (length bytes) 256 % 2 ^ 32;
}
debug_packet false bytes d = record d {
  rx = debug_copy d.rx bytes;
  rx_len = min (length bytes) 256 % 2 ^ 32;
}

-- The variables of the receive task.
pub record Receiver : Type 0 where
  pub parser : Parser
  pub parser_session : ℕ
  pub read_session : ℕ
  pub debug : Debug

-- A round up to its wait.
unfoldable pub begin_read : Receiver → Shared → Receiver × Shared
begin_read r s = (
  record r {
    read_session = s.cdc_session;
    parser = if s.cdc_session == r.parser_session then r.parser else session_changed r.parser [];
    parser_session = s.cdc_session;
  },
  record s { uart_session_changed = false },
)

-- The wait ends by a change of the session, whose signal it takes.
unfoldable pub session_woken : Receiver → Shared → Receiver × Shared
session_woken r s = (r, record s { uart_session_changed = false })

unfoldable pub read_failed : Receiver → Shared → Receiver × Shared
unfolding uart_damage
read_failed r s = (
  record r {
    parser = damaged r.parser;
    debug = record r.debug { rx_errors = debug_add r.debug.rx_errors 1 };
  },
  uart_damage s,
)

abbrev pub request_of : Frame → ℕ → Shared → Request
request_of frame session s = record {
  source = uart frame.number session s.uart_generation;
  line = frame.command;
  len = frame.len;
  error = frame.error;
}

-- A frame is queued; where the queue is full, it is damage.
unfoldable pub submit : Receiver → Frame → Shared → Receiver × Shared
unfolding try_send uart_damage
submit r frame s =
    let r' : Receiver = record r {
      debug = record r.debug { rx_frames = debug_add r.debug.rx_frames 1 };
    } in
    let (queue, sent) = try_send 8 s.requests (request_of frame r.read_session s) in
    if sent
    then (r', record s { requests = queue })
    else (record r' { parser = damaged r'.parser }, uart_damage s)

unfoldable pub receive_byte : Receiver → Shared → ℕ → Run (Receiver × Shared)
unfolding submit push
receive_byte r s byte = push r.parser byte >>= λ p. ret (elim p.1 [
  | none ↦ (record r { parser = p.0 }, s)
  | some frame ↦ submit (record r { parser = p.0 }) frame s
])

unfoldable pub receive_bytes : Receiver → Shared → Bytes → Run (Receiver × Shared)
unfolding receive_byte
receive_bytes r s [] = ret (r, s)
receive_bytes r s (byte ∷ bytes) = receive_byte r s byte >>= λ q. receive_bytes q.0 q.1 bytes

abbrev counted : Receiver → Bytes → Receiver
counted r bytes = record r {
  debug = debug_packet false bytes (record r.debug {
    rx_bytes = debug_add r.debug.rx_bytes (length bytes);
    rx_chunks = debug_add r.debug.rx_chunks 1;
  });
}

-- The bytes that a read has brought: dropped where the session has changed since the read began.
unfoldable pub read_done : Receiver → Shared → Bytes → Run (Receiver × Shared)
unfolding debug_packet receive_bytes
read_done r s bytes =
    if s.cdc_session == r.read_session
    then receive_bytes (counted r bytes) s bytes
    else ret (
      record (counted r bytes) {
        parser = session_changed r.parser bytes;
        parser_session = s.cdc_session;
      },
      s,
    )

-- How the loop over `uart_tx.write` ends: all is sent, a write has failed, or one is waited for.
pub data Sent : Type 0 where
  done failed waiting : Sent

-- The loop, where each write takes a prefix of what is left or fails; with the bytes on the wire.
unfoldable pub send : Bytes → List (Option ℕ) → Bytes × Sent
send [] results = ([], done)
send (b ∷ bs) [] = ([], waiting)
send (b ∷ bs) (none ∷ results) = ([], failed)
send (b ∷ bs) (some n ∷ results) =
    let (wire, end) = send (drop n (b ∷ bs)) results in (take n (b ∷ bs) ++ wire, end)

abbrev sent_all : Sent → Bool
sent_all failed = false
sent_all _ = true

-- The end of the loop: the counters, and damage where a write has failed.
unfoldable pub sent : Sent → ℕ → Debug → Shared → Debug × Shared
unfolding uart_damage
sent done len d s =
    (record d { tx_bytes = debug_add d.tx_bytes len; tx_frames = debug_add d.tx_frames 1 }, s)
sent failed len d s = (record d { tx_errors = debug_add d.tx_errors 1 }, uart_damage s)
sent waiting len d s = (d, s)

-- The frame that `encode_reply` has made, where it fits the buffer.
unfoldable pub transmit_encoded :
    List (Option ℕ) → Debug → Shared → Option (Bytes × ℕ) → Run (Bytes × (Debug × Shared))
transmit_encoded results d s none = ret ([], (d, s))
transmit_encoded results d s (some (wire, len)) = slice_to wire len >>= λ frame.
    (let (out, end) = send frame results in ret (out, sent end len (debug_packet true frame d) s))

unfoldable pub transmit_line :
    ℕ → Reply → Bytes → List (Option ℕ) → Debug → Shared → Run (Bytes × (Debug × Shared))
unfolding transmit_encoded
transmit_line number reply buf results d s = slice_to reply.bytes reply.len >>= λ body.
    encode_reply number body buf >>= λ encoded. transmit_encoded results d s encoded

-- A reply of the queue, with the buffer as the replies before have left it: the bytes on the wire,
-- the counters, and the shared state at the end of the loop. Only the UART's replies are sent.
unfoldable pub transmit :
    Reply → Bytes → List (Option ℕ) → Debug → Shared → Run (Bytes × (Debug × Shared))
transmit reply buf results d s = elim reply.source [
  | cdc _ ↦ ret ([], (d, s))
  | uart number _ _ ↦ transmit_line number reply buf results d s
]
