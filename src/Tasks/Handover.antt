-- ===== src/Tasks/Handover.antt =====
-- How app/src/main.rs hands the radio to a CDC session that the host opens.
use nrf52_unifying.Cdc
use nrf52_unifying.Device.{Device}
use nrf52_unifying.Flash.{Nor}
use nrf52_unifying.Prelude.{◌^◌, ◌<◌, ◌≡◌, Bool, true, false, Option, some, ◌==◌, ret, arith}
use nrf52_unifying.Prelude.Text.{Bytes}
use nrf52_unifying.Tasks.{cdc, Reply, Shared, Updater, wrapping_succ}
use nrf52_unifying.Tasks.Accept.{admit}
use nrf52_unifying.Tasks.Usb.{control_round, change_session}
use nrf52_unifying.Tasks.Worker.{
  Worker, Board, round, expire_upload, see_session, see_damage, poll_if_due,
}
use nrf52_unifying.UartLink.{CommandError}

module _ {D F U : Type 0} (device : Device D) (nor : Nor F) (updater : Updater U) where
  -- A session that the worker has seen: the host may go on, and its requests are admitted.
  pub record IsHandedOver (o : Worker D F U × Shared) : Type 0 where
    pub active : o.1.cdc_active ≡ true
    pub announced : o.1.maintenance_ready ≡ some o.1.cdc_session
    pub begins : (Cdc.wait_ready o.1.cdc_session o.1).1 ≡ true
    pub admitted :
        (error : Option CommandError) (line : Bytes) (sink : Reply)
        → admit (cdc o.1.cdc_session) error line o.0.session_seen sink o.1 ≡ ret (some (sink, o.1))

  round-IsHandedOver :
      (board : Board) (w : Worker D F U) (s : Shared)
      → s.cdc_active ≡ true
      → (s.cdc_session == w.session_seen) ≡ false
      → IsHandedOver (round device nor updater board (w, s))
  unfolding Cdc.wait_ready round expire_upload see_session see_damage poll_if_due admit
  round-IsHandedOver board w s active fresh = record {
    active = ground arith;
    announced = ground arith;
    begins = ground arith;
    admitted = λ error line sink. ground arith;
  }

  -- Where the bus is configured, the line is up in both views, no CDC session is active, and the
  -- worker has seen the session number, which is below 2 ^ 32: a round of the control loop raises
  -- the signal that ends the worker's wait, and behind the worker's next round the session is
  -- active, it is announced as ready with its number, which ends the session's wait for it, and
  -- any request of it is admitted.
  pub control_round-IsHandedOver :
      (board : Board) (w : Worker D F U) (s : Shared) (by_signal : Bool)
      → s.usb_available ≡ true
      → s.usb_dtr_valid ≡ true
      → s.cdc_active ≡ false
      → w.session_seen ≡ s.cdc_session
      → s.cdc_session < 2 ^ 32
      → let s' = control_round by_signal true s in
        (s'.maintenance_changed ≡ true) × IsHandedOver (round device nor updater board (w, s'))
  unfolding control_round change_session
  control_round-IsHandedOver board w s by_signal available dtr idle seen small =
      let s' = control_round by_signal true s in
      let active : s'.cdc_active ≡ true = ground (arith, available, dtr, idle) in
      let next : s'.cdc_session ≡ wrapping_succ s.cdc_session =
        ground (arith, available, dtr, idle) in
      let fresh : (s'.cdc_session == w.session_seen) ≡ false = ground (arith, next, seen, small) in
      (ground (arith, available, dtr, idle), round-IsHandedOver board w s' active fresh)
