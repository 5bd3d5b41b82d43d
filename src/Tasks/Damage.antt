-- ===== src/Tasks/Damage.antt =====
-- What app/src/main.rs promises of damage on the UART: a request that was queued before it is never
-- executed.
use nrf52_unifying.Cdc
use nrf52_unifying.Device.{Device}
use nrf52_unifying.Flash.{Nor}
use nrf52_unifying.Prelude.{
  ℕ, ◌+◌, ◌%◌, ◌^◌, ◌≤◌, ◌<◌, ◌≡◌, refl, ap, sym, ◌∙◌, true, false, none, length, leb, ◌==◌, ret,
  arith,
}
use nrf52_unifying.Prelude.Buffer.{slice_to}
use nrf52_unifying.Tasks.{uart, Request, Reply, Shared, Updater}
use nrf52_unifying.Tasks.Accept.{accept, admit, after_admission, deliver}
use nrf52_unifying.Tasks.Follows.{Follows, round-Follows}
use nrf52_unifying.Tasks.Served.{accept-Follows}
use nrf52_unifying.Tasks.Invariant.{IsSafe, Step-IsSafe}
use nrf52_unifying.Tasks.Keeps.{Ensures-eq, AfterSession, upload_packet-Keeps, line_byte-Keeps}
use nrf52_unifying.Tasks.Link.{
  done, failed, waiting, begin_read, session_woken, read_failed, submit, sent,
}
use nrf52_unifying.Tasks.System.{
  UsbEvent, set_enabled, bus_reset, set_configured, control_request, control_loop, usb_event,
  UartEvent, read_begun, woken, read_error, framed, written, uart_event, damage, System, Step, usb,
  link, take_reply, work, receive, answer, upload, type_, ask, hear, begin, wait, leave, signal,
  Reach, here, next,
}
use nrf52_unifying.Tasks.Usb.{enabled, reset, configured, control_out, control_round}
use nrf52_unifying.Tasks.Worker.{Board, poll_if_due}

usb_event-generation :
    (e : UsbEvent) (s : Shared) → (usb_event e s).uart_generation ≡ s.uart_generation
unfolding enabled reset configured control_out control_round
usb_event-generation (set_enabled on) s = ground arith
usb_event-generation bus_reset s = ground arith
usb_event-generation (set_configured on) s = ground arith
usb_event-generation (control_request class_interface index request value) s = ground arith
usb_event-generation (control_loop by_signal dtr) s = ground arith

uart_event-generation :
    (e : UartEvent) (s : Shared)
    → s.uart_generation < 2 ^ 32
    → (uart_event e s).uart_generation ≡ (s.uart_generation + damage e s) % 2 ^ 32
unfolding begin_read session_woken read_failed submit sent
uart_event-generation (read_begun r) s h = ground arith
uart_event-generation (woken r) s h = ground arith
uart_event-generation (read_error r) s h = ground arith
uart_event-generation (framed r frame) s h = ground arith
uart_event-generation (written done len d) s h = ground arith
uart_event-generation (written failed len d) s h = ground arith
uart_event-generation (written waiting len d) s h = ground arith

wait_ready-generation :
    (session : ℕ) (s : Shared) → (Cdc.wait_ready session s).0.uart_generation ≡ s.uart_generation
unfolding Cdc.wait_ready
wait_ready-generation session s = ground arith

end_session-generation : (s : Shared) → (Cdc.end_session s).uart_generation ≡ s.uart_generation
unfolding Cdc.end_session
end_session-generation s = refl

deliver-generation :
    (reply : Reply) (s : Shared) → (deliver reply s).uart_generation ≡ s.uart_generation
unfolding deliver
deliver-generation reply s = ground arith

module _ {D F U : Type 0} (device : Device D) (nor : Nor F) (updater : Updater U) where
  abbrev generation : System D F U → ℕ
  generation a = a.shared.uart_generation

  -- A step that damages nothing and keeps the generation.
  unchanged :
      (a b c : System D F U) (n : ℕ)
      → n ≡ 0
      → b ≡ c
      → generation c ≡ generation a
      → generation a < 2 ^ 32
      → generation b ≡ (generation a + n) % 2 ^ 32
  unchanged a b c n z q e l =
      ap (λ (x : System D F U). x.shared.uart_generation) q ∙ e ∙ omega (arith, z, l)

  Step-generation :
      (a : System D F U) (n : ℕ) (b : System D F U)
      → IsSafe a
      → generation a < 2 ^ 32
      → Step device nor updater a n b
      → generation b ≡ (generation a + n) % 2 ^ 32
  Step-generation a n b h l (usb e z q) =
      unchanged a b (record a { shared = usb_event e a.shared }) n z q
        (usb_event-generation e a.shared) l
  Step-generation a n b h l (link e z q) =
      ap (λ (x : System D F U). x.shared.uart_generation) q
      ∙ uart_event-generation e a.shared l
      ∙ ap (λ k. (generation a + k) % 2 ^ 32) (sym z)
  Step-generation a n b h l (take_reply reply rest _ z q) = unchanged a b _ n z q refl l
  Step-generation a n b h l (work board _ z q) =
      unchanged a b _ n z q
        (round-Follows device nor updater board a.worker a.shared h.announced).0.generation l
  Step-generation a n b h l (receive board request rest w s reply _ _ e z q) =
      let taken : Shared = record a.shared { requests = rest } in
      let f =
        Ensures-eq (accept device nor updater board request a.worker taken)
          (λ o. Follows device nor updater taken (o.0, o.1.0)) (w, (s, reply)) e
          (accept-Follows device nor updater board request a.worker taken h.announced) in
      unchanged a b (record { worker = w; shared = s; serving = a.serving; outbox = reply }) n z q
        f.0.generation l
  Step-generation a n b h l (answer reply _ _ z q) =
      unchanged a b _ n z q (deliver-generation reply a.shared) l
  Step-generation a n b h l (upload session r bytes o _ _ e z q) =
      unchanged a b _ n z q
        (Ensures-eq (Cdc.upload_packet updater r a.worker.updater a.shared bytes)
          (AfterSession updater r.upload_active a.shared) o e
          (upload_packet-Keeps updater r a.worker.updater a.shared bytes)).0.keeps.generation
        l
  Step-generation a n b h l (type_ texts session r byte o _ e z q) =
      unchanged a b _ n z q
        (Ensures-eq (Cdc.line_byte updater texts session r a.worker.updater a.shared byte)
          (AfterSession updater r.upload_active a.shared) o e
          (line_byte-Keeps updater texts session r a.worker.updater a.shared
            byte)).0.keeps.generation
        l
  Step-generation a n b h l (ask request session r _ _ _ z q) = unchanged a b _ n z q refl l
  Step-generation a n b h l (hear reply rest _ z q) = unchanged a b _ n z q refl l
  Step-generation a n b h l (begin _ _ z q) = unchanged a b _ n z q refl l
  Step-generation a n b h l (wait session line staging _ z q) =
      unchanged a b _ n z q (wait_ready-generation session a.shared) l
  Step-generation a n b h l (leave _ z q) =
      unchanged a b _ n z q (end_session-generation a.shared) l
  Step-generation a n b h l (signal changed reboot ready z q) = unchanged a b _ n z q refl l

  -- Whatever steps the tasks take, in any order: the UART's upload and the upload of a CDC session
  -- stay exclusive, the shared flag of the UART's upload tells whether the worker's is active, and
  -- a CDC session is active only while the bus is configured and its line is up or a change is
  -- signalled to the control loop, if all this holds at the start.
  pub Reach-IsSafe :
      {a b : System D F U} {n : ℕ} → IsSafe a → Reach device nor updater a n b → IsSafe b
  Reach-IsSafe h here = h
  Reach-IsSafe h (next {n} {m} {k} {b} {c} r s _) =
      Step-IsSafe device nor updater b m c s (Reach-IsSafe h r)

  Reach-generation :
      {a b : System D F U} {n : ℕ}
      → IsSafe a
      → generation a < 2 ^ 32
      → Reach device nor updater a n b
      → generation b ≡ (generation a + n) % 2 ^ 32
  Reach-generation h l here = omega (arith, l)
  Reach-generation {a} h l (next {n} {m} {k} {b} {c} r s e) =
      let before : generation b ≡ (generation a + n) % 2 ^ 32 = Reach-generation h l r in
      omega (arith, e, before, Step-generation b m c (Reach-IsSafe h r) (omega (arith, before)) s)

  -- From a state in which the uploads exclude one another, the flag of the UART's upload tells the
  -- worker's, and a CDC session is active only on a configured bus whose line is up or has just
  -- changed, and whose fault generation is below 2 ^ 32, let the tasks take any steps by which the
  -- UART is damaged at least once and less than 2 ^ 32 times: a UART request of the fault
  -- generation before these steps, whose length is within its array, is then dropped by the worker
  -- without a panic, a reply or a change to the shared state, and the worker does no more than the
  -- radio's poll if it is due.
  pub accept-damaged :
      (a b : System D F U) (n : ℕ) (board : Board) (request : Request) (number session : ℕ)
      → IsSafe a
      → generation a < 2 ^ 32
      → Reach device nor updater a n b
      → 0 < n
      → n < 2 ^ 32
      → request.source ≡ uart number session (generation a)
      → request.len ≤ length request.line
      → accept device nor updater board request b.worker b.shared
        ≡ ret (poll_if_due device nor updater board b.shared b.worker, (b.shared, none))
  unfolding accept admit slice_to after_admission
  accept-damaged a b n board request number session h l r pos small src fits =
      let moved : generation b ≡ (generation a + n) % 2 ^ 32 = Reach-generation h l r in
      let stale : (generation a == b.shared.uart_generation) ≡ false =
        ground (arith, moved, l, pos, small) in
      let within : leb request.len (length request.line) ≡ true = ground (arith, fits) in
      simp (within, src, stale) refl
