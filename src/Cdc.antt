-- ===== src/Cdc.antt =====
-- `serial_fut` of app/src/main.rs: the command lines and the firmware upload over USB CDC.
pub mod Command
pub mod Staging
pub mod Bounds
pub mod Received
pub mod Upload
pub mod Session
pub mod Transfer
mod Tests
use nrf52_unifying.Cdc.Command.{
  OtaCommand, ping, info, write, boot_image, abort, reboot, parse_ota_command,
}
use nrf52_unifying.Prelude.{
  ℕ, zero, suc, ◌+◌, ◌-◌, ◌*◌, ◌/◌, ◌%◌, ◌^◌, Bool, true, false, not, ◌&&◌, ◌||◌, Option, none,
  some, List, [], ◌∷◌, ◌++◌, length, take, drop, replicate, min, leb, ltb, ◌==◌, if◌then◌else◌, Run,
  panic, ret, ◌>>=◌,
}
use nrf52_unifying.Prelude.Buffer.{store, copy, slice_to}
use nrf52_unifying.Prelude.Text.{Bytes, codes, eq_bytes, strip_prefix}
use nrf52_unifying.Tasks.Accept.{is_current}
use nrf52_unifying.Tasks.{
  Source, cdc, uart, Request, Reply, Shared, Updater, BootState, boot, swap, revert, dfu_detach,
}

abbrev pub active_image_limit : ℕ
active_image_limit = 480 * 1024

-- `session_ended`: whether its loop is left, which ends the session wherever it waits.
abbrev pub session_ended : ℕ → Shared → Bool
session_ended session s = not (is_current s session)

-- A round of the wait for the worker, which takes what is signalled: whether the session begins.
unfoldable pub wait_ready : ℕ → Shared → Shared × Bool
wait_ready session s = elim s.maintenance_ready [
  | none ↦ (s, false)
  | some ready ↦ (record s { maintenance_ready = none }, ready == session)
]

-- Behind a session, however it has ended.
unfoldable pub end_session : Shared → Shared
end_session s = record s { upload_active = false; cdc_replies = [] }

-- The variables of a session.
pub record Serial : Type 0 where
  pub line : Bytes
  pub line_len : ℕ
  pub discard_line : Bool
  pub upload_active : Bool
  pub upload_size : ℕ
  pub upload_received : ℕ
  pub image_ready : Bool
  pub staging : Bytes
  pub staging_len : ℕ

-- At the start of a session, with the arrays as the last session has left them.
abbrev pub new_session : Bytes → Bytes → Serial
new_session line staging = record {
  line = line;
  line_len = 0;
  discard_line = false;
  upload_active = false;
  upload_size = 0;
  upload_received = 0;
  image_ready = false;
  staging = staging;
  staging_len = 0;
}

-- What a session does outside its variables, in order: a text to the host, or a request to the
-- worker, whose reply it then waits for.
pub data Output : Type 0 where
  say : Bytes → Output
  ask : Request → Output

abbrev pub Outcome : Type 0 → Type 0
Outcome U = Serial × (U × (Shared × List Output))

-- `total & !0x03`
abbrev pub aligned : ℕ → ℕ
aligned total = total / 4 * 4

-- The texts of `INFO` hold the time of the build, which the build makes.
pub record Texts : Type 0 where
  pub info_boot : Bytes
  pub info_swap : Bytes
  pub info_revert : Bytes
  pub info_dfu : Bytes
  pub info_err : Bytes

abbrev pub info_text : Texts → Option BootState → Bytes
info_text texts (some boot) = texts.info_boot
info_text texts (some swap) = texts.info_swap
info_text texts (some revert) = texts.info_revert
info_text texts (some dfu_detach) = texts.info_dfu
info_text texts none = texts.info_err

module _ {U : Type 0} (updater : Updater U) where
  -- A write that fails ends the upload.
  unfoldable pub write_failed : Serial → U → Shared → Outcome U
  write_failed r u s = (
    record r {
      upload_active = false;
      upload_size = 0;
      upload_received = 0;
      image_ready = false;
      staging_len = 0;
    },
    (u, (record s { upload_active = false }, say (codes "ERR WRITE\r\n") ∷ [])),
  )

  -- All has come.
  unfoldable pub upload_done : Serial → U → Shared → Outcome U
  upload_done r u s = (
    record r { upload_active = false; image_ready = true },
    (u, (record s { upload_active = false }, say (codes "OK\r\n") ∷ [])),
  )

  -- The last bytes are written as a word, with `0xFF` behind them.
  unfoldable pub write_rest : Serial → U → Shared → Run (Outcome U)
  unfolding write_failed upload_done
  write_rest r u s =
      if r.staging_len == 0
      then ret (upload_done r u s)
      else slice_to r.staging r.staging_len >>= λ rest. copy (replicate 4 0xFF) 0 rest >>= λ padded.
          (let (u', written) = updater.write_firmware u r.upload_received padded in
            ret (
              if written
              then upload_done
                  (record r {
                    upload_received = r.upload_received + r.staging_len;
                    staging_len = 0;
                  })
                  u' s
              else write_failed r u' s))

  -- Behind the write of the whole words, of which there were `words` bytes out of `total`.
  unfoldable pub keep_rest : Serial → U → Shared → ℕ → ℕ → Run (Outcome U)
  unfolding write_rest
  keep_rest r u s words total = slice_to r.staging total >>= λ filled.
      (if ltb 0 (total - words) then copy r.staging 0 (drop words filled) else ret r.staging)
      >>= λ staging.
          (let r' : Serial = record r { staging = staging; staging_len = total - words } in
            if leb r'.upload_size (r'.upload_received + r'.staging_len)
            then write_rest r' u s
            else ret (r', (u, (s, []))))

  -- A packet while an upload is active.
  unfoldable pub upload_packet : Serial → U → Shared → Bytes → Run (Outcome U)
  unfolding write_failed keep_rest
  upload_packet r u s packet = copy r.staging r.staging_len packet >>= λ staging.
      (let r' : Serial = record r { staging = staging } in
        let total = r.staging_len + length packet in
        if ltb 0 (aligned total)
        then (slice_to staging (aligned total) >>= λ words.
            (let (u', written) = updater.write_firmware u r.upload_received words in
              if written
              then keep_rest (record r' { upload_received = r.upload_received + aligned total }) u'
                  s (aligned total) total
              else ret (write_failed r' u' s)))
        else keep_rest r' u s (aligned total) total)

  abbrev says : Serial → U → Shared → Bytes → Outcome U
  says r u s text = (r, (u, (s, say text ∷ [])))

  unfoldable pub start_upload : Serial → U → Shared → ℕ → Outcome U
  start_upload r u s size =
      if s.uart_ota_active
      then says r u s (codes "ERR BUSY\r\n")
      else if size == 0 || ltb active_image_limit size
      then says r u s (codes "ERR SIZE\r\n")
      else says
          (record r {
            upload_active = true;
            upload_size = size;
            upload_received = 0;
            staging_len = 0;
            image_ready = false;
          })
          u (record s { upload_active = true }) (codes "READY\r\n")

  unfoldable pub boot_command : Serial → U → Shared → Outcome U
  boot_command r u s =
      if s.uart_ota_active
      then says r u s (codes "ERR BUSY\r\n")
      else if not r.image_ready
      then says r u s (codes "ERR NOIMAGE\r\n")
      else (let (u', marked) = updater.mark_updated u in
          if marked
          then says r u' (record s { reboot_requested = true }) (codes "REBOOT\r\n")
          else says r u' s (codes "ERR MARK\r\n"))

  -- The request for a line that is not empty, behind what was said before.
  unfoldable pub ask_worker : ℕ → Bytes → ℕ → Serial → U → Shared → List Output → Run (Outcome U)
  ask_worker session line len r u s before =
      if len == 0
      then ret (r, (u, (s, before)))
      else slice_to line len >>= λ text. copy (replicate 256 0) 0 text >>= λ buf. ret (
        r,
        (
          u,
          (
            s,
            before
                ++ ask (record { source = cdc session; line = buf; len = len; error = none }) ∷ [],
          ),
        ),
      )

  -- A command of the upload, or a line for the worker; `REBOOT` is both.
  unfoldable pub run_line :
      Texts → ℕ → Option OtaCommand → Bytes → ℕ → Serial → U → Shared → Run (Outcome U)
  unfolding start_upload boot_command ask_worker
  run_line texts session none line len r u s = ask_worker session line len r u s []
  run_line texts session (some ping) line len r u s = ret (says r u s (codes "PONG\r\n"))
  run_line texts session (some info) line len r u s =
      let (u', state) = updater.get_state u in ret (says r u' s (info_text texts state))
  run_line texts session (some (write size)) line len r u s = ret (start_upload r u s size)
  run_line texts session (some boot_image) line len r u s = ret (boot_command r u s)
  run_line texts session (some abort) line len r u s = ret (
      says (record r { upload_active = false; image_ready = false; staging_len = 0 }) u
        (record s { upload_active = false }) (codes "ABORTED\r\n"))
  run_line texts session (some reboot) line len r u s =
      ask_worker session line len r u (record s { reboot_requested = true })
        (say (codes "REBOOT\r\n") ∷ [])

  unfoldable pub line_feed : Texts → ℕ → Serial → U → Shared → Run (Outcome U)
  unfolding run_line parse_ota_command
  line_feed texts session r u s =
      if r.discard_line
      then ret (says (record r { line_len = 0; discard_line = false }) u s (codes "ERR ARG\r\n"))
      else slice_to r.line r.line_len >>= λ text.
          run_line texts session (parse_ota_command text) r.line r.line_len
            (record r { line_len = 0 }) u s

  -- A byte of a packet that came while no upload was active.
  unfoldable pub line_byte : Texts → ℕ → Serial → U → Shared → ℕ → Run (Outcome U)
  unfolding line_feed
  line_byte texts session r u s b =
      if b == b'\n'
      then line_feed texts session r u s
      else if b == b'\r' || r.discard_line
      then ret (r, (u, (s, [])))
      else if r.line_len == length r.line
      then ret (record r { discard_line = true }, (u, (s, [])))
      else store r.line r.line_len b >>= λ line.
          ret (record r { line = line; line_len = r.line_len + 1 }, (u, (s, [])))

  -- A packet: the bytes in order, where no other task changes what is shared in between.
  unfoldable pub line_bytes : Texts → ℕ → Serial → U → Shared → Bytes → Run (Outcome U)
  unfolding line_byte
  line_bytes texts session r u s [] = ret (r, (u, (s, [])))
  line_bytes texts session r u s (b ∷ bs) = line_byte texts session r u s b >>= λ o.
      line_bytes texts session o.0 o.1.0 o.1.1.0 bs >>= λ q.
      ret (q.0, (q.1.0, (q.1.1.0, o.1.1.1 ++ q.1.1.1)))

  unfoldable pub packet : Texts → ℕ → Serial → U → Shared → Bytes → Run (Outcome U)
  packet texts session r u s bytes =
      if r.upload_active then upload_packet r u s bytes else line_bytes texts session r u s bytes

  -- The loop over the packets that the host sends.
  unfoldable pub packets : Texts → ℕ → Serial → U → Shared → List Bytes → Run (Outcome U)
  packets texts session r u s [] = ret (r, (u, (s, [])))
  packets texts session r u s (bytes ∷ more) = packet texts session r u s bytes >>= λ o.
      packets texts session o.0 o.1.0 o.1.1.0 more >>= λ q.
      ret (q.0, (q.1.0, (q.1.1.0, o.1.1.1 ++ q.1.1.1)))
