-- ===== src/Tasks/Accept.antt =====
-- What `worker_fut` of app/src/main.rs does with a request that it has received: whether it may be
-- executed, the firmware upload, the commands, and where the reply goes.
use nrf52_unifying.Device.{Device}
use nrf52_unifying.Flash.{Nor}
use nrf52_unifying.Prelude.{
  ℕ, ◌+◌, ◌*◌, Bool, true, false, not, ◌&&◌, ◌||◌, Option, none, some, ◌==◌, if◌then◌else◌, Run,
  ret, ◌>>=◌,
}
use nrf52_unifying.Prelude.Buffer.{slice_to}
use nrf52_unifying.Prelude.Text.{Bytes, codes, eq_bytes, starts_with}
use nrf52_unifying.Tasks.{
  Source, cdc, uart, Request, Reply, Shared, new_reply, write, write_all, try_send, BootState, boot,
  Updater,
}
use nrf52_unifying.Tasks.Worker.{Worker, Board, dfu_store, poll_if_due, all_up}
use nrf52_unifying.UartLink.{CommandError, command, argument}
use nrf52_unifying.UartOta
use nrf52_unifying.Unifying.Handle.{handle_unifying_command}

abbrev pub busy : Bytes
busy = codes "ERR BUSY\r\n"

-- `let _ = sink.write(text).await`
abbrev pub say : Reply → Bytes → Run Reply
say sink text = write sink text >>= λ r. ret r.0

abbrev pub is_ver : Option CommandError → Bytes → Bool
is_ver none line = eq_bytes line (codes "VER")
is_ver (some _) line = false

abbrev pub is_current : Shared → ℕ → Bool
is_current s epoch = s.cdc_active && s.cdc_session == epoch

-- The `match` on the source of a request: `none` where it is dropped.
unfoldable pub admit :
    Source → Option CommandError → Bytes → ℕ → Reply → Shared → Run (Option (Reply × Shared))
admit (cdc epoch) error line session_seen sink s =
    ret (if is_current s epoch && session_seen == epoch then some (sink, s) else none)
admit (uart number session fault_generation) error line session_seen sink s =
    if not (fault_generation == s.uart_generation)
    then ret none
    else if s.cdc_active || not (session == s.cdc_session)
    then (say sink busy >>= λ r. ret (some (r, s)))
    else if s.uart_sync_required
    then (if is_ver error line
        then ret (some (sink, record s { uart_sync_required = false }))
        else (say sink busy >>= λ r. ret (some (r, s))))
    else ret (some (sink, s))

abbrev pub is_uart : Source → Bool
is_uart (cdc _) = false
is_uart (uart _ _ _) = true

abbrev pub boot_text : Option BootState → Bytes
boot_text (some boot) = codes "OTA BOOT\r\n"
boot_text _ = codes "OTA PENDING\r\n"

module _ {D F U : Type 0} (device : Device D) (nor : Nor F) (updater : Updater U) where
  -- Before `OTA BEGIN` all keys are released, and the updater is a new one.
  unfoldable pub before_upload : Bytes → Worker D F U → Worker D F U
  unfolding all_up
  before_upload line w =
      if starts_with (codes "OTA BEGIN ") line
      then record w {
        unifying = all_up device nor updater w.unifying;
        updater = updater.renew w.updater;
      }
      else w

  -- The upload's reply, and whether to reboot.
  unfoldable pub run_ota : Bytes → Worker D F U → Worker D F U × (Bytes × Bool)
  run_ota line w =
      if eq_bytes line (codes "OTA INFO")
      then (let (u, state) = updater.get_state w.updater in
          (record w { updater = u }, (boot_text state, false)))
      else (let (u, (ota, reply)) = UartOta.handle (dfu_store updater) w.ota w.updater line in
          (
            record w { updater = u; ota = ota },
            (UartOta.reply_bytes reply, UartOta.asks_reboot reply),
          ))

  -- A line that begins with `OTA `, from the UART.
  unfoldable pub upload_line :
      ℕ → Bytes → Reply → Worker D F U → Shared → Run (Reply × (Worker D F U × Shared))
  upload_line now line sink w s =
      if s.upload_active
      then (say sink busy >>= λ r. ret (r, (w, s)))
      else (let (w', (text, reboot)) = run_ota line (before_upload line w) in
          say sink text >>= λ r. ret (
            r,
            (
              record w' { ota_deadline = now + 60 * 1000 },
              record s {
                uart_ota_active = w'.ota.active;
                reboot_requested = reboot || s.reboot_requested;
              },
            ),
          ))

  -- The verdict on the line, or its command.
  unfoldable pub answer :
      Board → Option CommandError → Bytes → Reply → Worker D F U → Run (Reply × Worker D F U)
  answer board (some command) line sink w = say sink (codes "ERR CMD\r\n") >>= λ r. ret (r, w)
  answer board (some argument) line sink w = say sink (codes "ERR ARG\r\n") >>= λ r. ret (r, w)
  answer board none line sink w =
      handle_unifying_command device nor board.version_reply board.clock w.unifying w.flash line
      >>= λ o. write_all sink o.1.1 >>= λ r. ret (r, record w { unifying = o.0; flash = o.1.0 })

  -- Behind the admission, where `sink.reply.len == 0` says that nothing has answered so far.
  unfoldable pub serve :
      Board
      → Source
      → Option CommandError
      → Bytes
      → Reply
      → Worker D F U
      → Shared
      → Run (Reply × (Worker D F U × Shared))
  serve board source error line sink w s =
      (if sink.len == 0 && is_uart source && starts_with (codes "OTA ") line
        then upload_line board.now line sink w s
        else ret (sink, (w, s)))
      >>= λ r. (if r.0.len == 0 && r.1.0.ota.active then say r.0 busy else ret r.0) >>= λ sink'.
          (if sink'.len == 0 then answer board error line sink' r.1.0 else ret (sink', r.1.0))
          >>= λ a. ret (a.0, (a.1, r.1.1))

  -- Behind the admission: a request that is not admitted is dropped.
  unfoldable pub after_admission :
      Board
      → Request
      → Bytes
      → Worker D F U
      → Shared
      → Option (Reply × Shared)
      → Run (Worker D F U × (Shared × Option Reply))
  after_admission board request line w s none = ret (w, (s, none))
  after_admission board request line w s (some (sink, s')) =
      serve board request.source request.error line sink w s' >>= λ r.
      ret (r.1.0, (r.1.1, some r.0))

  -- A request that the worker has received, up to its reply; `none` where it is dropped. The line
  -- of a request is never longer than its array.
  unfoldable pub accept :
      Board → Request → Worker D F U → Shared → Run (Worker D F U × (Shared × Option Reply))
  unfolding after_admission
  accept board request w s =
      let w' = poll_if_due device nor updater board s w in
      slice_to request.line request.len >>= λ line.
      admit request.source request.error line w'.session_seen (new_reply request.source) s
      >>= λ admitted. after_admission board request line w' s admitted

-- Where the reply goes: a CDC reply only to its own session and where there is room, and a UART
-- reply to its queue, for which the worker waits.
unfoldable pub deliver : Reply → Shared → Shared
unfolding try_send
deliver reply s = elim reply.source [
  | cdc epoch ↦
      if is_current s epoch
      then record s { cdc_replies = (try_send 1 s.cdc_replies reply).0 }
      else s
  | uart _ _ _ ↦ record s { uart_replies = (try_send 1 s.uart_replies reply).0 }
]
