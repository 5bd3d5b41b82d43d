-- ===== src/UartSmoke/Diagnostic.antt =====
-- The tasks of app/src/main.rs in the build with the feature uart-smoke: no command reaches the
-- radio, and the UART is only counted.
use nrf52_unifying.Prelude.{
  ℕ, Bool, true, false, not, ◌&&◌, Option, none, some, List, [], ◌∷◌, length, ◌==◌, if◌then◌else◌,
  replicate, Run, ret, ◌>>=◌,
}
use nrf52_unifying.Prelude.Buffer.{slice_to}
use nrf52_unifying.Prelude.Text.{Bytes, codes, eq_bytes}
use nrf52_unifying.Tasks.{
  Source, cdc, uart, Request, Reply, Shared, new_reply, try_send, wrapping_succ,
}
use nrf52_unifying.Tasks.Accept.{say, is_current}
use nrf52_unifying.Tasks.Link.{Sent, done, failed, waiting, send}
use nrf52_unifying.UartSmoke.{
  Counters, received_bytes, bad_frame, uart_error, received_peer, transmitted_frame, encode_ping,
  Frame, peer, bad, Parser, damaged, push,
}
use nrf52_unifying.UartSmoke.Report.{format_response}

abbrev is_cdc : Source → Bool
is_cdc (cdc _) = true
is_cdc (uart _ _ _) = false

abbrev pub reported : Reply → Bytes × Option ℕ → Run Reply
reported sink (out, none) = ret sink
reported sink (out, some n) = slice_to out n >>= λ text. say sink text

-- `VERSION_REPLY` holds the time of the build.
unfoldable pub handle_unifying_command : Bytes → Counters → Reply → Bytes → Run Reply
handle_unifying_command version_reply c sink line =
    if length line == 0
    then ret sink
    else if eq_bytes line (codes "VER")
    then say sink version_reply
    else if eq_bytes line (codes "UARTTEST") && is_cdc sink.source
    then (format_response c (replicate 192 0) >>= λ r. reported sink r)
    else say sink (codes "ERR DIAGNOSTIC\r\n")

-- The start of a round, with the session that the worker has seen.
unfoldable pub see_session : ℕ → Shared → ℕ × Shared
see_session seen s = if s.cdc_session == seen then (seen, s) else (
  s.cdc_session,
  if s.cdc_active then record s { maintenance_ready = some s.cdc_session } else s,
)

abbrev pub queued : ℕ → Shared → Reply → Shared
queued epoch s reply =
    if is_current s epoch then record s { cdc_replies = (try_send 1 s.cdc_replies reply).0 } else s

-- A request that the worker has received.
unfoldable pub accept : Bytes → Counters → Request → ℕ → Shared → Run Shared
unfolding handle_unifying_command
accept version_reply c request seen s = elim request.source [
  | uart _ _ _ ↦ ret s
  | cdc epoch ↦
      if not (is_current s epoch && seen == epoch)
      then ret s
      else slice_to request.line request.len >>= λ line.
          handle_unifying_command version_reply c (new_reply (cdc epoch)) line >>= λ reply.
          ret (queued epoch s reply)
]

abbrev pub counted : Option Frame → Counters → Counters
counted none c = c
counted (some (peer sequence)) c = received_peer c sequence
counted (some bad) c = bad_frame c

-- The loop over the bytes of a read.
unfoldable pub count_bytes : Parser → Counters → Bytes → Run (Parser × Counters)
count_bytes p c [] = ret (p, c)
count_bytes p c (byte ∷ bytes) = push p byte >>= λ r. count_bytes r.0 (counted r.1 c) bytes

unfoldable pub read_done : Parser → Counters → Bytes → Run (Parser × Counters)
unfolding count_bytes
read_done p c bytes = count_bytes p (received_bytes c (length bytes)) bytes

unfoldable pub read_failed : Parser → Counters → Parser × Counters
read_failed p c =
    let (p', new_damage) = damaged p in
    (p', if new_damage then bad_frame (uart_error c) else uart_error c)

abbrev sent_frame : Sent → Counters → Counters
sent_frame done c = transmitted_frame c
sent_frame failed c = uart_error c
sent_frame waiting c = c

-- A ping behind its timer, where each write takes a prefix or fails: the bytes on the wire, the next
-- sequence number and the counters.
unfoldable pub ping : ℕ → List (Option ℕ) → Counters → Run (Bytes × (ℕ × Counters))
ping sequence results c = encode_ping sequence >>= λ frame.
    (let (wire, end) = send frame results in ret (wire, (wrapping_succ sequence, sent_frame end c)))
