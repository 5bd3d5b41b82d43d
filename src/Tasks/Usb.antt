-- ===== src/Tasks/Usb.antt =====
-- `UsbLifecycle` and `control_fut` of app/src/main.rs: when a CDC session begins and ends.
use nrf52_unifying.Prelude.{ℕ, Bool, true, false, not, ◌&&◌, ◌||◌, [], ◌==◌, if◌then◌else◌, bit_and}
use nrf52_unifying.Tasks.{Shared, wrapping_succ}

unfoldable pub unavailable : Shared → Shared
unavailable s = record s {
  usb_available = false;
  usb_dtr_valid = false;
  cdc_active = false;
  cdc_session = wrapping_succ s.cdc_session;
  upload_active = false;
  cdc_replies = [];
  maintenance_changed = true;
  uart_session_changed = true;
  usb_lifecycle_changed = true;
}

unfoldable pub enabled : Bool → Shared → Shared
unfolding unavailable
enabled on s = if not on then unavailable s else s

unfoldable pub reset : Shared → Shared
unfolding unavailable
reset s = unavailable s

unfoldable pub configured : Bool → Shared → Shared
unfolding unavailable
configured on s =
    if on then record s { usb_available = true; usb_lifecycle_changed = true } else unavailable s

-- A control request; `class_interface` is whether its type is `Class` and its recipient
-- `Interface`.
unfoldable pub control_out : Bool → ℕ → ℕ → ℕ → Shared → Shared
control_out class_interface index request value s =
    if class_interface && index == 0 && request == 0x22
    then record s { usb_dtr_valid = not (bit_and value 1 == 0); usb_lifecycle_changed = true }
    else s

-- The change of the session in a round of the control loop.
unfoldable pub change_session : Bool → Shared → Shared
change_session next s = record s {
  cdc_session = wrapping_succ s.cdc_session;
  cdc_active = next;
  uart_sync_required = next || s.uart_sync_required;
  upload_active = next && s.upload_active;
  cdc_replies = if next then s.cdc_replies else [];
  maintenance_changed = true;
  uart_session_changed = true;
}

abbrev pub same : Bool → Bool → Bool
same true b = b
same false b = not b

-- A round of the control loop up to its wait, where `dtr` is what the CDC class says. Before it the
-- wait has ended by the signal, which it takes, or by a change that the class reports.
unfoldable pub control_round : Bool → Bool → Shared → Shared
unfolding change_session
control_round by_signal dtr s =
    let next = s.usb_available && s.usb_dtr_valid && dtr in
    let woken : Shared = if by_signal then record s { usb_lifecycle_changed = false } else s in
    if not (same next s.cdc_active) then change_session next woken else woken
