-- ===== src/Tasks.antt =====
-- The tasks of app/src/main.rs and what they share: the flags, the queues and the signals. A task
-- runs from one wait to the next without another in between, since one executor polls them all;
-- each such stretch is a function of the shared state.
pub mod Usb
pub mod Worker
pub mod Accept
pub mod Link
pub mod Memory
pub mod Keeps
pub mod Follows
pub mod Served
pub mod System
pub mod Invariant
pub mod Damage
pub mod Ownership
pub mod Owned
pub mod Start
pub mod Handover
pub mod Schedule
pub mod Replies
pub mod Exclusion
pub mod Transmit
mod Runs
mod Tests
use nrf52_unifying.Prelude.{
  ℕ, ◌+◌, ◌%◌, ◌^◌, Bool, true, false, Option, none, some, List, [], ◌∷◌, ◌++◌, length, replicate,
  ltb, if◌then◌else◌, Run, ret, ◌>>=◌,
}
use nrf52_unifying.Prelude.Buffer.{copy}
use nrf52_unifying.Prelude.Text.{Bytes}
use nrf52_unifying.UartLink.{CommandError}

pub data Source : Type 0 where
  cdc : ℕ → Source
  uart : (number session fault_generation : ℕ) → Source

pub record Request : Type 0 where
  pub source : Source
  pub line : Bytes
  pub len : ℕ
  pub error : Option CommandError

pub record Reply : Type 0 where
  pub source : Source
  pub bytes : Bytes
  pub len : ℕ

-- The statics of the program. A channel is the list of what it holds; a signal is whether it is
-- raised, or with what.
pub record Shared : Type 0 where
  pub requests : List Request
  pub cdc_replies : List Reply
  pub uart_replies : List Reply
  pub maintenance_changed : Bool
  pub maintenance_ready : Option ℕ
  pub uart_session_changed : Bool
  pub uart_sync_required : Bool
  pub cdc_active : Bool
  pub cdc_session : ℕ
  pub uart_ota_active : Bool
  pub upload_active : Bool
  pub uart_damaged : Bool
  pub uart_generation : ℕ
  pub usb_available : Bool
  pub usb_dtr_valid : Bool
  pub usb_lifecycle_changed : Bool
  pub reboot_requested : Bool

-- The statics as they are initialised.
abbrev pub initial : Shared
initial = record {
  requests = [];
  cdc_replies = [];
  uart_replies = [];
  maintenance_changed = false;
  maintenance_ready = none;
  uart_session_changed = false;
  uart_sync_required = true;
  cdc_active = false;
  cdc_session = 0;
  uart_ota_active = false;
  upload_active = false;
  uart_damaged = false;
  uart_generation = 0;
  usb_available = false;
  usb_dtr_valid = false;
  usb_lifecycle_changed = false;
  reboot_requested = false;
}

-- `fetch_add(1)` on an `AtomicU32`.
abbrev pub wrapping_succ : ℕ → ℕ
wrapping_succ n = (n + 1) % 2 ^ 32

-- `try_send` to a channel of this capacity: the queue, and whether there was room.
unfoldable pub try_send {ℓ} : {A : Type ℓ} → ℕ → List A → A → List A × Bool
try_send capacity queue a =
    if ltb (length queue) capacity then (queue ++ a ∷ [], true) else (queue, false)

-- `ReplySink::new`
abbrev pub new_reply : Source → Reply
new_reply source = record { source = source; bytes = replicate 512 0; len = 0 }

-- `ReplySink::write`, with its `is_ok()`; a text that does not fit is left out.
unfoldable pub write : Reply → Bytes → Run (Reply × Bool)
unfolding copy
write reply text =
    if ltb (length reply.bytes) (reply.len + length text)
    then ret (reply, false)
    else (copy reply.bytes reply.len text >>= λ bytes.
        ret (record reply { bytes = bytes; len = reply.len + length text }, true))

-- Texts passed to the sink one after the other.
unfoldable pub write_all : Reply → List Bytes → Run Reply
unfolding write
write_all reply [] = ret reply
write_all reply (text ∷ texts) = write reply text >>= λ r. write_all r.0 texts

-- `BootState`
pub data BootState : Type 0 where
  boot swap revert dfu_detach : BootState

-- `BlockingFirmwareUpdater` of embassy-boot, which is not part of the repository. A Boolean result
-- is `is_ok()`; `renew` is a new updater over the same flash.
pub record Updater (U : Type 0) : Type 0 where
  pub get_state : U → U × Option BootState
  pub write_firmware : U → ℕ → Bytes → U × Bool
  pub read_dfu : U → ℕ → ℕ → U × Option Bytes
  pub mark_updated : U → U × Bool
  pub mark_booted : U → U × Bool
  pub renew : U → U

-- The damage of the UART: what the receive and the transmit task do when a byte is lost.
unfoldable pub uart_damage : Shared → Shared
uart_damage s = record s {
  uart_generation = wrapping_succ s.uart_generation;
  uart_damaged = true;
  maintenance_changed = true;
}
