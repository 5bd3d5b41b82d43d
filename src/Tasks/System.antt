-- ===== src/Tasks/System.antt =====
-- The tasks of app/src/main.rs together: each step is a stretch of one task up to its next wait. A
-- CDC session and the receive task take a step for each byte, so that other tasks may come in
-- between where the code waits.
use nrf52_unifying.Cdc
use nrf52_unifying.Device.{Device}
use nrf52_unifying.Flash.{Nor}
use nrf52_unifying.Prelude.{
  ℕ, ◌+◌, ◌<◌, ◌≡◌, Bool, true, false, Option, none, some, List, [], ◌∷◌, ◌++◌, length,
  if◌then◌else◌, ret,
}
use nrf52_unifying.Prelude.Text.{Bytes}
use nrf52_unifying.Tasks.{cdc, uart, Request, Reply, Shared, Updater, try_send}
use nrf52_unifying.Tasks.Accept.{accept, deliver}
use nrf52_unifying.Tasks.Link.{
  Receiver, Debug, Sent, failed, begin_read, session_woken, read_failed, submit, request_of, sent,
}
use nrf52_unifying.Tasks.Usb.{enabled, reset, configured, control_out, control_round}
use nrf52_unifying.Tasks.Worker.{Worker, Board, round}
use nrf52_unifying.UartLink.{Frame}

-- What the USB stack and the control loop do.
pub data UsbEvent : Type 0 where
  set_enabled : Bool → UsbEvent
  bus_reset : UsbEvent
  set_configured : Bool → UsbEvent
  control_request : Bool → ℕ → ℕ → ℕ → UsbEvent
  control_loop : Bool → Bool → UsbEvent

abbrev pub usb_event : UsbEvent → Shared → Shared
usb_event (set_enabled on) s = enabled on s
usb_event bus_reset s = reset s
usb_event (set_configured on) s = configured on s
usb_event (control_request class_interface index request value) s =
    control_out class_interface index request value s
usb_event (control_loop by_signal dtr) s = control_round by_signal dtr s

-- The UART tasks, with the damage that each does.
pub data UartEvent : Type 0 where
  read_begun woken read_error : Receiver → UartEvent
  framed : Receiver → Frame → UartEvent
  written : Sent → ℕ → Debug → UartEvent

abbrev pub uart_event : UartEvent → Shared → Shared
uart_event (read_begun r) s = (begin_read r s).1
uart_event (woken r) s = (session_woken r s).1
uart_event (read_error r) s = (read_failed r s).1
uart_event (framed r frame) s = (submit r frame s).1
uart_event (written end len d) s = (sent end len d s).1

abbrev pub damage : UartEvent → Shared → ℕ
damage (read_error r) s = 1
damage (framed r frame) s =
    if (try_send 8 s.requests (request_of frame r.read_session s)).1 then 0 else 1
damage (written failed len d) s = 1
damage _ s = 0

-- Where the task of the CDC sessions is: without a session, waiting for the worker, or in a session
-- with its number and its variables.
pub data Serving : Type 0 where
  idle : Serving
  expects : ℕ → Serving
  serves : ℕ → Cdc.Serial → Serving

abbrev pub is_idle : Serving → Bool
is_idle idle = true
is_idle (expects _) = false
is_idle (serves _ _) = false

-- The worker and the updater, the shared state, the CDC sessions' task, and the reply that the worker has to deliver. Both
-- updaters of the program stand for the same flash.
pub record System (D F U : Type 0) : Type 0 where
  pub worker : Worker D F U
  pub shared : Shared
  pub serving : Serving
  pub outbox : Option Reply

-- The room that the worker waits for.
abbrev pub HasRoom : Reply → Shared → Type 0
HasRoom reply s = elim reply.source [ cdc _ ↦ Unit {0} | uart _ _ _ ↦ s.uart_replies ≡ [] ]

module _ {D F U : Type 0} (device : Device D) (nor : Nor F) (updater : Updater U) where
  -- A step from `a` to `b`, with the number of times that it damages the UART.
  pub data Step (a : System D F U) (damages : ℕ) (b : System D F U) : Type 0 where
    usb :
        (e : UsbEvent)
        → damages ≡ 0
        → b ≡ record a { shared = usb_event e a.shared }
        → Step a damages b
    link :
        (e : UartEvent)
        → damages ≡ damage e a.shared
        → b ≡ record a { shared = uart_event e a.shared }
        → Step a damages b
    take_reply :
        (reply : Reply) (rest : List Reply)
        → a.shared.uart_replies ≡ reply ∷ rest
        → damages ≡ 0
        → b ≡ record a { shared = record a.shared { uart_replies = rest } }
        → Step a damages b
    work :
        (board : Board)
        → a.outbox ≡ none
        → damages ≡ 0
        → b ≡ record a {
          worker = (round device nor updater board (a.worker, a.shared)).0;
          shared = (round device nor updater board (a.worker, a.shared)).1;
        }
        → Step a damages b
    receive :
        (board : Board) (request : Request) (rest : List Request) (w : Worker D F U) (s : Shared)
        (reply : Option Reply)
        → a.outbox ≡ none
        → a.shared.requests ≡ request ∷ rest
        → accept device nor updater board request a.worker (record a.shared { requests = rest })
          ≡ ret (w, (s, reply))
        → damages ≡ 0
        → b ≡ record { worker = w; shared = s; serving = a.serving; outbox = reply }
        → Step a damages b
    answer :
        (reply : Reply)
        → a.outbox ≡ some reply
        → HasRoom reply a.shared
        → damages ≡ 0
        → b ≡ record a { shared = deliver reply a.shared; outbox = none }
        → Step a damages b
    upload :
        (session : ℕ) (r : Cdc.Serial) (bytes : Bytes) (o : Cdc.Outcome U)
        → a.serving ≡ serves session r
        → r.upload_active ≡ true
        → Cdc.upload_packet updater r a.worker.updater a.shared bytes ≡ ret o
        → damages ≡ 0
        → b ≡ record a {
          worker = record a.worker { updater = o.1.0 };
          shared = o.1.1.0;
          serving = serves session o.0;
        }
        → Step a damages b
    type_ :
        (texts : Cdc.Texts) (session : ℕ) (r : Cdc.Serial) (byte : ℕ) (o : Cdc.Outcome U)
        → a.serving ≡ serves session r
        → Cdc.line_byte updater texts session r a.worker.updater a.shared byte ≡ ret o
        → damages ≡ 0
        → b ≡ record a {
          worker = record a.worker { updater = o.1.0 };
          shared = o.1.1.0;
          serving = serves session o.0;
        }
        → Step a damages b
    ask :
        (request : Request) (session : ℕ) (r : Cdc.Serial)
        → a.serving ≡ serves session r
        → request.source ≡ cdc session
        → length a.shared.requests < 8
        → damages ≡ 0
        → b ≡ record a { shared = record a.shared { requests = a.shared.requests ++ request ∷ [] } }
        → Step a damages b
    hear :
        (reply : Reply) (rest : List Reply)
        → a.shared.cdc_replies ≡ reply ∷ rest
        → damages ≡ 0
        → b ≡ record a { shared = record a.shared { cdc_replies = rest } }
        → Step a damages b
    begin :
        a.serving ≡ idle
        → a.shared.cdc_active ≡ true
        → damages ≡ 0
        → b ≡ record a { serving = expects a.shared.cdc_session }
        → Step a damages b
    wait :
        (session : ℕ) (line staging : Bytes)
        → a.serving ≡ expects session
        → damages ≡ 0
        → b ≡ record a {
          shared = (Cdc.wait_ready session a.shared).0;
          serving =
              if (Cdc.wait_ready session a.shared).1
              then serves session (Cdc.new_session line staging)
              else expects session;
        }
        → Step a damages b
    leave :
        is_idle a.serving ≡ false
        → damages ≡ 0
        → b ≡ record a { shared = Cdc.end_session a.shared; serving = idle }
        → Step a damages b
    -- A task takes a signal that it waits for, or a select drops one that it has taken.
    signal :
        (changed reboot : Bool) (ready : Option ℕ)
        → damages ≡ 0
        → b ≡ record a {
          shared = record a.shared {
            maintenance_changed = changed;
            maintenance_ready = ready;
            reboot_requested = reboot;
          };
        }
        → Step a damages b

  pub data Reach (a : System D F U) : ℕ → System D F U → Type 0 where
    here : Reach a 0 a
    next : {n m k : ℕ} {b c : System D F U} → Reach a n b → Step b m c → k ≡ n + m → Reach a k c
