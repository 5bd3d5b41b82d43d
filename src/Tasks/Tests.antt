-- ===== src/Tasks/Tests.antt =====
-- Runs of the tasks of app/src/main.rs over a flash in memory.
use nrf52_unifying.Tasks.Start.{started, IsExclusive, started-Reach-IsSafe}
use nrf52_unifying.Tasks.Handover.{IsHandedOver, control_round-IsHandedOver}
use nrf52_unifying.Tasks.Usb.{control_round}
use nrf52_unifying.Cdc
use nrf52_unifying.Cdc.Command.{parse_ota_command}
use nrf52_unifying.Device.Counting.{counting, counting-IsDevice}
use nrf52_unifying.Flash.Array.{array}
use nrf52_unifying.Prelude.{
  ℕ, zero, suc, ◌≡◌, refl, true, false, none, some, [], ◌∷◌, ◌++◌, replicate, ret, Returns, arith,
  ◌+◌, ◌<◌, ◌^◌, if◌then◌else◌, ◌≤◌,
}
use nrf52_unifying.Prelude.Text.{codes, eq_bytes, strip_prefix}
use nrf52_unifying.Storage.{Profile}
use nrf52_unifying.Tasks.{Source, cdc, uart, Request, Reply, Shared, initial}
use nrf52_unifying.Tasks.Accept.{accept}
use nrf52_unifying.Tasks.Damage.{accept-damaged}
use nrf52_unifying.Tasks.Exclusion.{Refused, accept-Refused}
use nrf52_unifying.Tasks.Invariant.{IsSafe}
use nrf52_unifying.Tasks.Link.{Receiver, Debug, transmit}
use nrf52_unifying.Tasks.Memory.{in_memory}
use nrf52_unifying.Tasks.Owned.{session_changes}
use nrf52_unifying.Tasks.Replies.{IsReply, Addressed, accept-Addressed}
use nrf52_unifying.Tasks.Schedule.{TakesSome, IsNext, poll_if_due-IsNext}
use nrf52_unifying.Tasks.System.{
  System, Reach, here, next, usb, link, set_configured, control_request, control_loop, usb_event,
  read_error, uart_event, idle, expects, serves, begin, work, wait,
}
use nrf52_unifying.Tasks.Runs.{typed, Typed, line_bytes-Typed}
use nrf52_unifying.Tasks.Transmit.{Transmitted, transmit-Transmitted}
use nrf52_unifying.Tasks.Worker.{Worker, Board, round, catch_up, poll_if_due}
use nrf52_unifying.UartLink
use nrf52_unifying.UartLink.Number.{reply_text}
use nrf52_unifying.UartOta
use nrf52_unifying.UartOta.Memory

abbrev profile : Profile
profile = record {
  address = 1 ∷ 2 ∷ 3 ∷ 4 ∷ 5 ∷ [];
  aes_key = replicate 16 7;
  aes_counter = 40;
  channel = 5;
}

abbrev erased : ℕ → ℕ
erased x = 0xff

abbrev worker : Worker Profile (ℕ → ℕ) UartOta.Memory.Cells
worker = record {
  unifying = record {
    device = profile;
    paired = true;
    connected = true;
    active_slot = 1;
    last_activity = 0;
    link_up = true;
  };
  flash = erased;
  updater = erased;
  ota = UartOta.fresh;
  ota_deadline = 0;
  deadline = 8;
  session_seen = 0;
}

abbrev start : System Profile (ℕ → ℕ) UartOta.Memory.Cells
start = record { worker = worker; shared = initial; serving = idle; outbox = none }

abbrev board : Board
board = record {
  now = 30;
  due = 30;
  polling = 31;
  polled = λ k. 130 + k;
  power_warning = false;
  clock = record { now = 30; id_ticks = 300; crypto_ticks = 500 };
  version_reply = codes "VER\r\n";
}

abbrev no_debug : Debug
no_debug = record {
  rx_bytes = 0;
  rx_chunks = 0;
  rx_frames = 0;
  rx_errors = 0;
  tx_bytes = 0;
  tx_frames = 0;
  tx_errors = 0;
  rx_len = 0;
  tx_len = 0;
  rx = replicate 256 0;
  tx = replicate 256 0;
}

abbrev receiver : Receiver
receiver = record { parser = UartLink.new; parser_session = 0; read_session = 0; debug = no_debug }

-- A read of the UART that fails.
abbrev torn : System Profile (ℕ → ℕ) UartOta.Memory.Cells
torn = record start { shared = uart_event (read_error receiver) initial }

start-IsSafe : IsSafe start
start-IsSafe = record {
  safe = record { exclusive = refl; powered = refl; noticed = refl };
  announced = refl;
}

torn-Reach : Reach counting (array 1048576) in_memory start 1 torn
torn-Reach = next here (link (read_error receiver) refl refl) refl

-- The host opens the port.
abbrev configured_state : Shared
configured_state =
    usb_event (control_request true 0 0x22 1) (usb_event (set_configured true) initial)

abbrev opened : Shared
opened = usb_event (control_loop true true) configured_state

opened_active : opened.cdc_active ≡ true
unfolding nrf52_unifying.Tasks.Usb.control_round nrf52_unifying.Tasks.Usb.control_out
    nrf52_unifying.Tasks.Usb.configured
opened_active = refl

-- The same behind the start of the program.
abbrev running : System Profile (ℕ → ℕ) UartOta.Memory.Cells
running = started counting (array 1048576) in_memory profile 30 erased erased

abbrev running_opened : System Profile (ℕ → ℕ) UartOta.Memory.Cells
running_opened = record running {
  shared =
      usb_event (control_loop true true) (
        usb_event (control_request true 0 0x22 1) (usb_event (set_configured true) running.shared));
}

running-Reach : Reach counting (array 1048576) in_memory running 0 running_opened
running-Reach =
    next
      (next (next here (usb (set_configured true) refl refl) refl)
        (usb (control_request true 0 0x22 1) refl refl) refl)
      (usb (control_loop true true) refl refl) refl

-- The session that is active then, which waits for the worker.
abbrev running_begun : System Profile (ℕ → ℕ) UartOta.Memory.Cells
running_begun = record running_opened { serving = expects running_opened.shared.cdc_session }

running_idle : running_opened.serving ≡ idle
unfolding started
running_idle = refl

running_active : running_opened.shared.cdc_active ≡ true
unfolding started nrf52_unifying.Tasks.Usb.configured nrf52_unifying.Tasks.Usb.control_out
    nrf52_unifying.Tasks.Usb.control_round nrf52_unifying.Tasks.Usb.change_session
running_active = refl

running_begun-Reach : Reach counting (array 1048576) in_memory running 0 running_begun
running_begun-Reach = next running-Reach (begin running_idle running_active refl refl) refl

-- The worker sees the session, and its task begins to serve it.
abbrev running_seen : System Profile (ℕ → ℕ) UartOta.Memory.Cells
running_seen = record running_begun {
  worker =
      (round counting (array 1048576) in_memory board
        (running_begun.worker, running_begun.shared)).0;
  shared =
      (round counting (array 1048576) in_memory board
        (running_begun.worker, running_begun.shared)).1;
}

abbrev serial : Cdc.Serial
serial = Cdc.new_session (replicate 256 0) (replicate 68 0)

abbrev running_served : System Profile (ℕ → ℕ) UartOta.Memory.Cells
running_served = record running_seen {
  shared = (Cdc.wait_ready running_opened.shared.cdc_session running_seen.shared).0;
  serving =
      if (Cdc.wait_ready running_opened.shared.cdc_session running_seen.shared).1
      then serves running_opened.shared.cdc_session serial
      else expects running_opened.shared.cdc_session;
}

running_quiet : running_begun.outbox ≡ none
unfolding started
running_quiet = refl

running_served-Reach : Reach counting (array 1048576) in_memory running 0 running_served
running_served-Reach =
    next (next running_begun-Reach (work board running_quiet refl refl) refl)
      (wait running_opened.shared.cdc_session (replicate 256 0) (replicate 68 0) refl refl refl)
      refl

abbrev texts : Cdc.Texts
texts = record { info_boot = []; info_swap = []; info_revert = []; info_dfu = []; info_err = [] }

-- Behind `WRITE 8`.
abbrev writing : Cdc.Outcome UartOta.Memory.Cells
writing = (
  record serial {
    line = codes "WRITE 8" ++ replicate 249 0;
    upload_active = true;
    upload_size = 8;
  },
  (
    running_served.worker.updater,
    (record running_served.shared { upload_active = true }, Cdc.say (codes "READY\r\n") ∷ []),
  ),
)

running_served-serves : running_served.serving ≡ serves 1 serial
unfolding started nrf52_unifying.Tasks.Usb.configured nrf52_unifying.Tasks.Usb.control_out
    nrf52_unifying.Tasks.Usb.control_round nrf52_unifying.Tasks.Usb.change_session round
    nrf52_unifying.Tasks.Worker.see_session nrf52_unifying.Tasks.Worker.see_damage
    nrf52_unifying.Tasks.Worker.expire_upload Cdc.wait_ready
running_served-serves = refl

write_typed :
    Cdc.line_bytes in_memory texts 1 serial running_served.worker.updater running_served.shared
      (codes "WRITE 8\n")
    ≡ ret writing
unfolding started nrf52_unifying.Tasks.Usb.configured nrf52_unifying.Tasks.Usb.control_out
    nrf52_unifying.Tasks.Usb.control_round nrf52_unifying.Tasks.Usb.change_session round
    nrf52_unifying.Tasks.Worker.see_session nrf52_unifying.Tasks.Worker.see_damage
    nrf52_unifying.Tasks.Worker.expire_upload Cdc.wait_ready Cdc.line_bytes Cdc.line_byte
    Cdc.line_feed Cdc.run_line Cdc.start_upload parse_ota_command strip_prefix eq_bytes
    nrf52_unifying.Prelude.Buffer.store nrf52_unifying.Prelude.Buffer.slice_to
write_typed = refl

upload_begun :
    Typed counting
      (array 1048576)
      in_memory
      running_served-Reach
      8
      (typed counting (array 1048576) in_memory running_served 1 writing)
upload_begun =
    line_bytes-Typed counting (array 1048576) in_memory texts (codes "WRITE 8\n") running_served 1
      serial writing running_served-Reach running_served-serves write_typed

served_few : session_changes counting (array 1048576) in_memory running_served-Reach ≤ 5
unfolding session_changes running_served-Reach running_begun-Reach running-Reach
served_few = ground arith

upload_few : session_changes counting (array 1048576) in_memory upload_begun.0 < 2 ^ 32
upload_few = omega (arith, upload_begun.1, served_few)

started-Reach-IsSafe_example :
    let writer = typed counting (array 1048576) in_memory running_served 1 writing in
    IsSafe writer × IsExclusive writer
started-Reach-IsSafe_example =
    started-Reach-IsSafe counting (array 1048576) in_memory profile 30 erased erased upload_begun.0
      upload_few

control_round-IsHandedOver_example :
    ((control_round true true configured_state).maintenance_changed ≡ true)
    × IsHandedOver counting (array 1048576) in_memory (
        round counting
          (array 1048576)
          in_memory
          board
          (worker, control_round true true configured_state))
unfolding nrf52_unifying.Tasks.Usb.control_out nrf52_unifying.Tasks.Usb.configured
control_round-IsHandedOver_example =
    control_round-IsHandedOver counting (array 1048576) in_memory board worker configured_state true
      refl refl refl refl (omega arith)

abbrev request : Request
request = record {
  source = uart 1 0 0;
  line = codes "VER" ++ replicate 253 0;
  len = 3;
  error = none;
}

accept-damaged_example :
    accept counting (array 1048576) in_memory board request worker torn.shared
    ≡ ret (
      poll_if_due counting (array 1048576) in_memory board torn.shared worker,
      (torn.shared, none),
    )
accept-damaged_example =
    accept-damaged counting (array 1048576) in_memory start torn 1 board request 1 0 start-IsSafe
      (omega arith) torn-Reach (omega arith) (omega arith) refl (omega arith)

accept-Refused_example :
    Returns (accept counting (array 1048576) in_memory board request worker opened) (
      Refused counting
        (array 1048576)
        in_memory
        (uart 1 0 0)
        (poll_if_due counting (array 1048576) in_memory board opened worker)
        opened)
accept-Refused_example =
    accept-Refused counting (array 1048576) in_memory board request 1 0 0 worker opened
      opened_active refl (omega arith)

accept-Addressed_example :
    Returns
      (accept counting (array 1048576) in_memory board request worker initial)
      (Addressed counting (array 1048576) in_memory counting-IsDevice (uart 1 0 0))
accept-Addressed_example =
    accept-Addressed counting (array 1048576) in_memory counting-IsDevice board request worker
      initial (omega arith) (omega arith) refl

-- A poll of 100 ms, and a clock that moves on behind it.
caught_up : catch_up 131 board.polled 8 ≡ 152
unfolding catch_up
caught_up = refl

poll_if_due-IsNext_example :
    IsNext board 8 (poll_if_due counting (array 1048576) in_memory board initial worker).deadline
poll_if_due-IsNext_example =
    poll_if_due-IsNext counting (array 1048576) in_memory board initial worker (λ k. omega arith)

abbrev reply : Reply
reply = record { source = uart 7 0 0; bytes = codes "OK" ++ replicate 510 0; len = 2 }

abbrev reply-IsReply : IsReply (uart 7 0 0) reply
reply-IsReply = record {
  for_ = refl;
  text = codes "OK";
  filled = record { cap_is = refl; starts = refl; len_is = refl };
}

takes_four : (n : ℕ) → TakesSome (replicate n (some 4))
takes_four zero = tt
takes_four (suc n) = (omega arith, takes_four n)

transmit-Transmitted_example :
    Returns
      (transmit reply (replicate 522 0) (some 5 ∷ replicate 11 (some 4)) no_debug initial)
      (Transmitted (some 5 ∷ replicate 11 (some 4)) (reply_text 7 (codes "OK")) no_debug initial)
transmit-Transmitted_example =
    transmit-Transmitted reply 7 0 0 (replicate 522 0) (some 5 ∷ replicate 11 (some 4)) no_debug
      initial reply-IsReply refl (omega arith, takes_four 11) (omega arith)
