-- ===== src/Cdc/Tests.antt =====
-- Runs of the CDC session of app/src/main.rs over a flash in memory.
use nrf52_unifying.Cdc.Staging.{IsSerial, GoesOn}
use nrf52_unifying.Cdc.Received.{Uploading, Progress}
use nrf52_unifying.Cdc.{
  say, Serial, Texts, new_session, upload_packet, packet, packets, start_upload,
}
use nrf52_unifying.Cdc.Command.{parse_ota_command, write}
use nrf52_unifying.Cdc.Bounds.{packet-GoesOn}
use nrf52_unifying.Cdc.Session.{IsComplete, packets-IsComplete}
use nrf52_unifying.Cdc.Transfer.{IsTransfer, write_reply-IsTransfer, write_reply}
use nrf52_unifying.Cdc.Upload.{upload_packet-Progress}
use nrf52_unifying.Prelude.{
  ℕ, ◌≡◌, refl, true, none, some, [], ◌∷◌, ◌++◌, replicate, Returns, arith,
}
use nrf52_unifying.Prelude.Text.{eq_bytes, strip_prefix, Bytes, codes, joined}
use nrf52_unifying.Tasks.{initial}
use nrf52_unifying.Tasks.Memory.{in_memory, in_memory-IsStorage}
use nrf52_unifying.UartOta.Memory.{Cells}

write_parsed : parse_ota_command (codes "WRITE 1024") ≡ some (write 1024)
unfolding parse_ota_command eq_bytes strip_prefix
write_parsed = refl

overflow_refused : parse_ota_command (codes "WRITE 4294967296") ≡ none
unfolding parse_ota_command eq_bytes strip_prefix
overflow_refused = refl

abbrev texts : Texts
texts = record { info_boot = []; info_swap = []; info_revert = []; info_dfu = []; info_err = [] }

abbrev session : Serial
session = new_session (replicate 256 0) (replicate 68 0)

abbrev blank : Cells
blank x = 0xFF

session-IsSerial : IsSerial session
session-IsSerial = record {
  line_cap = refl;
  line_short = omega arith;
  staging_cap = refl;
  staging_short = omega arith;
}

packet-GoesOn_example :
    Returns
      (packet in_memory texts 1 session blank initial (codes "WRITE 8\r\nUSTATUS\n"))
      (GoesOn in_memory 1)
packet-GoesOn_example =
    packet-GoesOn in_memory 1 texts session blank initial (codes "WRITE 8\r\nUSTATUS\n")
      session-IsSerial (omega arith)

abbrev uploading : Serial
uploading = record session { upload_active = true; upload_size = 8 }

uploading-Uploading : Uploading in_memory (λ f. f) in_memory-IsStorage uploading blank []
uploading-Uploading = record {
  stored = [];
  pending = [];
  bytes_are = refl;
  filled = record { cap_is = refl; starts = refl; len_is = refl };
  short = omega arith;
  received_is = refl;
  in_storage = refl;
  runs = refl;
  unfinished = omega arith;
}

upload_packet-Progress_example :
    Returns
      (upload_packet in_memory uploading blank initial (1 ∷ 2 ∷ 3 ∷ 4 ∷ 5 ∷ 6 ∷ []))
      (Progress in_memory (λ f. f) in_memory-IsStorage 8 ([] ++ 1 ∷ 2 ∷ 3 ∷ 4 ∷ 5 ∷ 6 ∷ []))
upload_packet-Progress_example =
    upload_packet-Progress in_memory (λ f. f) in_memory-IsStorage uploading blank initial []
      (1 ∷ 2 ∷ 3 ∷ 4 ∷ 5 ∷ 6 ∷ []) uploading-Uploading (omega arith)

in_memory_works : (u : Cells) (a : ℕ) (bs : Bytes) → (in_memory.write_firmware u a bs).1 ≡ true
unfolding in_memory
in_memory_works u a bs = refl

packets-IsComplete_example :
    let o = start_upload in_memory session blank initial 8 in
    (o.1.1.1 ≡ say (codes "READY\r\n") ∷ [])
    × Returns
        (packets in_memory texts 1 o.0 o.1.0 o.1.1.0
          (((1 ∷ 2 ∷ 3 ∷ []) ∷ []) ++ (4 ∷ 5 ∷ 6 ∷ 7 ∷ 8 ∷ []) ∷ []))
        (IsComplete in_memory
          (λ f. f)
          in_memory-IsStorage
          in_memory_works
          texts
          1
          (joined ((1 ∷ 2 ∷ 3 ∷ []) ∷ []) ++ 4 ∷ 5 ∷ 6 ∷ 7 ∷ 8 ∷ []))
packets-IsComplete_example =
    packets-IsComplete in_memory (λ f. f) in_memory-IsStorage in_memory_works texts 1 session blank
      initial 8 ((1 ∷ 2 ∷ 3 ∷ []) ∷ []) (4 ∷ 5 ∷ 6 ∷ 7 ∷ 8 ∷ []) refl refl (omega arith)
      (omega arith) (omega arith) (omega arith) (omega arith) (omega arith)

write_reply-IsTransfer_example : IsTransfer (replicate 64 7) (write_reply (replicate 64 7))
write_reply-IsTransfer_example = write_reply-IsTransfer (replicate 64 7) (λ e. cc e)
