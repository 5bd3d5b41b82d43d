-- ===== src/Tasks/Worker.antt =====
-- `worker_fut` and `poll_radio` of app/src/main.rs, with the radio, the pairings and the upload that
-- the worker owns.
use nrf52_unifying.Device.{Device}
use nrf52_unifying.Flash.{Nor}
use nrf52_unifying.Prelude.{
  ℕ, zero, suc, ◌+◌, ◌-◌, ◌^◌, Bool, true, false, not, ◌&&◌, ◌||◌, none, some, replicate, leb, ltb,
  ◌==◌, if◌then◌else◌,
}
use nrf52_unifying.Prelude.Text.{Bytes}
use nrf52_unifying.Tasks.{Shared, Updater}
use nrf52_unifying.UartOta
use nrf52_unifying.UartOta.{Ota}
use nrf52_unifying.Unifying.{UnifyingState, press_key, save_current}
use nrf52_unifying.Unifying.Commands.{Clock}

abbrev pub interval : ℕ
interval = 8

-- `while deadline <= Instant::now() { deadline += interval; }`, with the clock at each test of the
-- loop, and a bound on the rounds.
unfoldable pub catch_up : ℕ → (ℕ → ℕ) → ℕ → ℕ
catch_up zero times deadline = deadline
catch_up (suc rounds) times deadline = elim (leb deadline (times 0)) [
  | true ↦ catch_up rounds (λ k. times (suc k)) (deadline + interval)
  | false ↦ deadline
]

pub record Worker (D F U : Type 0) : Type 0 where
  pub unifying : UnifyingState D
  pub flash : F
  pub updater : U
  pub ota : Ota
  pub ota_deadline : ℕ
  pub deadline : ℕ
  pub session_seen : ℕ

-- `UartDfuStore`; `checked_add` is on 32 bits.
unfoldable pub dfu_store : {U : Type 0} → Updater U → UartOta.Storage U
dfu_store updater = record {
  write = updater.write_firmware;
  read = λ u offset n.
      if leb (2 ^ 32) (offset + n) || ltb UartOta.limit (offset + n)
      then (u, none)
      else updater.read_dfu u offset n;
  commit = updater.mark_updated;
}

-- What the worker reads off the board in a stretch: the clock, in milliseconds, at the upload's
-- deadline, at the radio's, in the poll, and at each test of the loop behind the poll; and whether
-- the power warning was raised.
pub record Board : Type 0 where
  pub now : ℕ
  pub due : ℕ
  pub polling : ℕ
  pub polled : ℕ → ℕ
  pub power_warning : Bool
  pub clock : Clock
  pub version_reply : Bytes

module _ {D F U : Type 0} (device : Device D) (nor : Nor F) (updater : Updater U) where
  -- `tick()` and what its result and the time of the last transmission say of the link.
  unfoldable pub ticked : UnifyingState D → UnifyingState D
  ticked state =
      let d = device.tick state.device in
      record state {
        device = d;
        link_up =
            device.tick_ok state.device
            && (state.link_up
                || not (device.previous_transmit d == device.previous_transmit state.device));
      }

  unfoldable pub keep_alive : ℕ → Shared → UnifyingState D → UnifyingState D
  unfolding ticked
  keep_alive now s state =
      if state.connected && not s.upload_active && not s.uart_ota_active
      then ticked (record state {
        device =
            device.set_timeout state.device
              (if ltb 500 (now - state.last_activity) then 110 else 20);
      })
      else state

  unfoldable pub poll_radio : Board → Shared → UnifyingState D → F → UnifyingState D × F
  unfolding keep_alive save_current
  poll_radio board s state flash =
      let state' = keep_alive board.polling s state in
      (state', if board.power_warning then save_current device nor state' flash else flash)

  -- `if Instant::now() >= deadline { poll_radio(..); while .. }`. The bound on the rounds is
  -- enough for a clock that moves by less than an interval from one test of the loop to the next.
  unfoldable pub poll_if_due : Board → Shared → Worker D F U → Worker D F U
  poll_if_due board s w =
      if leb w.deadline board.due
      then (let (state, flash) = poll_radio board s w.unifying w.flash in
          record w {
            unifying = state;
            flash = flash;
            deadline = catch_up (board.polled 0 + 1) board.polled w.deadline;
          })
      else w

  -- `press_key(&mut unifying.device, &[0; KEYS_LEN], 0)`, where the link is connected.
  unfoldable pub all_up : UnifyingState D → UnifyingState D
  unfolding press_key
  all_up state =
      if state.connected
      then record state {
        device = (press_key device state.device (replicate device.keys_len 0) 0).0;
      }
      else state

  unfoldable pub expire_upload : ℕ → Worker D F U × Shared → Worker D F U × Shared
  unfolding UartOta.abort
  expire_upload now (w, s) =
      if w.ota.active && leb w.ota_deadline now
      then (
        record w { ota = UartOta.abort w.ota },
        record s { uart_ota_active = false; uart_sync_required = true },
      )
      else (w, s)

  unfoldable pub see_session : Worker D F U × Shared → Worker D F U × Shared
  unfolding all_up
  see_session (w, s) =
      if s.cdc_session == w.session_seen
      then (w, s)
      else if s.cdc_active
      then (
        record w { session_seen = s.cdc_session; unifying = all_up w.unifying },
        record s { maintenance_ready = some s.cdc_session },
      )
      else (record w { session_seen = s.cdc_session }, s)

  unfoldable pub see_damage : Worker D F U × Shared → Worker D F U × Shared
  unfolding all_up
  see_damage (w, s) =
      if s.uart_damaged
      then (record w { unifying = all_up w.unifying }, record s { uart_damaged = false })
      else (w, s)

  -- A round of the worker's loop up to its wait.
  unfoldable pub round : Board → Worker D F U × Shared → Worker D F U × Shared
  round board ws =
      let (w, s) = see_damage (see_session (expire_upload board.now ws)) in
      (poll_if_due board s w, s)
