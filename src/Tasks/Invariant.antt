-- ===== src/Tasks/Invariant.antt =====
-- What holds of the tasks of app/src/main.rs between any two steps.
use nrf52_unifying.Cdc
use nrf52_unifying.Device.{Device}
use nrf52_unifying.Flash.{Nor}
use nrf52_unifying.Prelude.{
  ℕ, ◌≡◌, sym, subst, ◌∙◌, Bool, true, false, ◌||◌, Option, none, [], ◌∷◌, ◌++◌, arith, List, refl,
}
use nrf52_unifying.Tasks.{Reply, Shared, Updater, Request}
use nrf52_unifying.Tasks.Accept.{accept, deliver}
use nrf52_unifying.Tasks.Follows.{Follows, round-Follows}
use nrf52_unifying.Tasks.Served.{accept-Follows}
use nrf52_unifying.Tasks.Keeps.{
  Keeps, SessionKeeps, Ensures-eq, implies, both_uploads, AfterSession, upload_packet-Keeps,
  line_byte-Keeps,
}
use nrf52_unifying.Tasks.Link.{
  done, failed, waiting, begin_read, session_woken, read_failed, submit, sent,
}
use nrf52_unifying.Tasks.System.{
  UsbEvent, set_enabled, bus_reset, set_configured, control_request, control_loop, usb_event,
  UartEvent, read_begun, woken, read_error, framed, written, uart_event, System, Step, usb, link,
  Serving, serves, expects, begin, idle, take_reply, work, receive, answer, upload, type_, ask,
  hear, wait, leave, signal,
}
use nrf52_unifying.Tasks.Usb.{enabled, reset, configured, control_out, control_round}
use nrf52_unifying.Tasks.Worker.{Worker, round}

pub record IsSafeShared (s : Shared) : Type 0 where
  pub exclusive : both_uploads s ≡ false
  pub powered : implies s.cdc_active s.usb_available ≡ true
  pub noticed : implies s.cdc_active (s.usb_dtr_valid || s.usb_lifecycle_changed) ≡ true

usb_event-Safe : (e : UsbEvent) (s : Shared) → IsSafeShared s → IsSafeShared (usb_event e s)
unfolding enabled reset configured control_out control_round
usb_event-Safe (set_enabled on) s h = ground arith
usb_event-Safe bus_reset s h = ground arith
usb_event-Safe (set_configured on) s h = ground arith
usb_event-Safe (control_request class_interface index request value) s h = ground arith
usb_event-Safe (control_loop by_signal dtr) s h = ground arith

usb_event-ota : (e : UsbEvent) (s : Shared) → (usb_event e s).uart_ota_active ≡ s.uart_ota_active
unfolding enabled reset configured control_out control_round
usb_event-ota (set_enabled on) s = ground arith
usb_event-ota bus_reset s = ground arith
usb_event-ota (set_configured on) s = ground arith
usb_event-ota (control_request class_interface index request value) s = ground arith
usb_event-ota (control_loop by_signal dtr) s = ground arith

uart_event-Safe : (e : UartEvent) (s : Shared) → IsSafeShared s → IsSafeShared (uart_event e s)
unfolding begin_read session_woken read_failed submit sent
uart_event-Safe (read_begun r) s h = ground arith
uart_event-Safe (woken r) s h = ground arith
uart_event-Safe (read_error r) s h = ground arith
uart_event-Safe (framed r frame) s h = ground arith
uart_event-Safe (written done len d) s h = ground arith
uart_event-Safe (written failed len d) s h = ground arith
uart_event-Safe (written waiting len d) s h = ground arith

uart_event-ota : (e : UartEvent) (s : Shared) → (uart_event e s).uart_ota_active ≡ s.uart_ota_active
unfolding begin_read session_woken read_failed submit sent
uart_event-ota (read_begun r) s = ground arith
uart_event-ota (woken r) s = ground arith
uart_event-ota (read_error r) s = ground arith
uart_event-ota (framed r frame) s = ground arith
uart_event-ota (written done len d) s = ground arith
uart_event-ota (written failed len d) s = ground arith
uart_event-ota (written waiting len d) s = ground arith

wait_ready-Safe :
    (session : ℕ) (s : Shared) → IsSafeShared s → IsSafeShared (Cdc.wait_ready session s).0
unfolding Cdc.wait_ready
wait_ready-Safe session s h = ground arith

wait_ready-ota :
    (session : ℕ) (s : Shared) → (Cdc.wait_ready session s).0.uart_ota_active ≡ s.uart_ota_active
unfolding Cdc.wait_ready
wait_ready-ota session s = ground arith

end_session-Safe : (s : Shared) → IsSafeShared s → IsSafeShared (Cdc.end_session s)
unfolding Cdc.end_session
end_session-Safe s h = ground arith

end_session-ota : (s : Shared) → (Cdc.end_session s).uart_ota_active ≡ s.uart_ota_active
unfolding Cdc.end_session
end_session-ota s = refl

deliver-ota : (reply : Reply) (s : Shared) → (deliver reply s).uart_ota_active ≡ s.uart_ota_active
unfolding deliver
deliver-ota reply s = ground arith

deliver-Safe : (reply : Reply) (s : Shared) → IsSafeShared s → IsSafeShared (deliver reply s)
unfolding deliver
deliver-Safe reply s h = ground arith

Keeps-Safe : (s s' : Shared) → Keeps s s' → IsSafeShared s → IsSafeShared s'
Keeps-Safe s s' k h = record {
  exclusive = k.exclusive h.exclusive;
  powered = ground (arith, k.active, k.available, h.powered);
  noticed = ground (arith, k.active, k.dtr, k.changed, h.noticed);
}

-- The two uploads exclude one another, and the flag says whether the UART's is active; a CDC
-- session is active only while the USB is configured, and where its line has been dropped the
-- control loop is about to notice.
pub record IsSafe {D F U : Type 0} (x : System D F U) : Type 0 where
  pub safe : IsSafeShared x.shared
  pub announced : x.shared.uart_ota_active ≡ x.worker.ota.active

module _ {D F U : Type 0} (device : Device D) (nor : Nor F) (updater : Updater U) where
  follows-IsSafe :
      (s s' : Shared) (w : Worker D F U) (serving : Serving) (outbox : Option Reply)
      → Keeps s s'
      → s'.uart_ota_active ≡ w.ota.active
      → IsSafeShared s
      → IsSafe (record { worker = w; shared = s'; serving = serving; outbox = outbox })
  follows-IsSafe s s' w serving outbox k e h = record { safe = Keeps-Safe s s' k h; announced = e }

  session-IsSafe :
      (a : System D F U) (serving : Serving) (o : Cdc.Outcome U)
      → SessionKeeps a.shared o.1.1.0
      → IsSafe a
      → IsSafe (record a {
        worker = record a.worker { updater = o.1.0 };
        shared = o.1.1.0;
        serving = serving;
      })
  session-IsSafe a serving o k h = record {
    safe = Keeps-Safe a.shared o.1.1.0 k.keeps h.safe;
    announced = k.ota ∙ h.announced;
  }

  back : (a b c : System D F U) → b ≡ c → IsSafe c → IsSafe b
  back a b c e h = subst IsSafe (sym e) h

  -- The queues and the signals of the tasks do not matter.
  queues-IsSafe :
      (a : System D F U) (requests : List Request) (cdc_replies uart_replies : List Reply)
      (changed reboot : Bool) (ready : Option ℕ)
      → IsSafe a
      → IsSafe (record a {
        shared = record a.shared {
          requests = requests;
          cdc_replies = cdc_replies;
          uart_replies = uart_replies;
          maintenance_changed = changed;
          maintenance_ready = ready;
          reboot_requested = reboot;
        };
      })
  queues-IsSafe a requests cdc_replies uart_replies changed reboot ready h = record {
    safe = record {
      exclusive = h.safe.exclusive;
      powered = h.safe.powered;
      noticed = h.safe.noticed;
    };
    announced = h.announced;
  }

  pub Step-IsSafe :
      (a : System D F U) (n : ℕ) (b : System D F U)
      → Step device nor updater a n b
      → IsSafe a
      → IsSafe b
  Step-IsSafe a n b (usb e _ q) h =
      back a b (record a { shared = usb_event e a.shared }) q
        (record {
          safe = usb_event-Safe e a.shared h.safe;
          announced = usb_event-ota e a.shared ∙ h.announced;
        })
  Step-IsSafe a n b (link e _ q) h =
      back a b (record a { shared = uart_event e a.shared }) q
        (record {
          safe = uart_event-Safe e a.shared h.safe;
          announced = uart_event-ota e a.shared ∙ h.announced;
        })
  Step-IsSafe a n b (take_reply reply rest _ _ q) h =
      back a b (record a { shared = record a.shared { uart_replies = rest } }) q
        (queues-IsSafe a a.shared.requests a.shared.cdc_replies rest a.shared.maintenance_changed
          a.shared.reboot_requested a.shared.maintenance_ready h)
  Step-IsSafe a n b (work board _ _ q) h =
      let f = round-Follows device nor updater board a.worker a.shared h.announced in
      let r = round device nor updater board (a.worker, a.shared) in
      back a b (record a { worker = r.0; shared = r.1 }) q
        (follows-IsSafe a.shared r.1 r.0 a.serving a.outbox f.0 f.1 h.safe)
  Step-IsSafe a n b (receive board request rest w s reply _ _ e _ q) h =
      let taken : Shared = record a.shared { requests = rest } in
      let f =
        Ensures-eq (accept device nor updater board request a.worker taken)
          (λ o. Follows device nor updater taken (o.0, o.1.0)) (w, (s, reply)) e
          (accept-Follows device nor updater board request a.worker taken h.announced) in
      back a b (record { worker = w; shared = s; serving = a.serving; outbox = reply }) q
        (follows-IsSafe taken s w a.serving reply f.0 f.1
          (queues-IsSafe a rest a.shared.cdc_replies a.shared.uart_replies
            a.shared.maintenance_changed a.shared.reboot_requested a.shared.maintenance_ready
            h).safe)
  Step-IsSafe a n b (answer reply _ _ _ q) h =
      back a b (record a { shared = deliver reply a.shared; outbox = none }) q
        (record {
          safe = deliver-Safe reply a.shared h.safe;
          announced = deliver-ota reply a.shared ∙ h.announced;
        })
  Step-IsSafe a n b (upload session r bytes o _ _ e _ q) h =
      back a b
        (record a {
          worker = record a.worker { updater = o.1.0 };
          shared = o.1.1.0;
          serving = serves session o.0;
        })
        q
        (session-IsSafe a (serves session o.0) o
          (Ensures-eq (Cdc.upload_packet updater r a.worker.updater a.shared bytes)
            (AfterSession updater r.upload_active a.shared) o e
            (upload_packet-Keeps updater r a.worker.updater a.shared bytes)).0
          h)
  Step-IsSafe a n b (type_ texts session r byte o _ e _ q) h =
      back a b
        (record a {
          worker = record a.worker { updater = o.1.0 };
          shared = o.1.1.0;
          serving = serves session o.0;
        })
        q
        (session-IsSafe a (serves session o.0) o
          (Ensures-eq (Cdc.line_byte updater texts session r a.worker.updater a.shared byte)
            (AfterSession updater r.upload_active a.shared) o e
            (line_byte-Keeps updater texts session r a.worker.updater a.shared byte)).0
          h)
  Step-IsSafe a n b (ask request session r _ _ _ _ q) h =
      back a b
        (record a { shared = record a.shared { requests = a.shared.requests ++ request ∷ [] } }) q
        (queues-IsSafe a (a.shared.requests ++ request ∷ []) a.shared.cdc_replies
          a.shared.uart_replies a.shared.maintenance_changed a.shared.reboot_requested
          a.shared.maintenance_ready h)
  Step-IsSafe a n b (hear reply rest _ _ q) h =
      back a b (record a { shared = record a.shared { cdc_replies = rest } }) q
        (queues-IsSafe a a.shared.requests rest a.shared.uart_replies a.shared.maintenance_changed
          a.shared.reboot_requested a.shared.maintenance_ready h)
  Step-IsSafe a n b (begin _ _ _ q) h =
      back a b (record a { serving = expects a.shared.cdc_session }) q
        (record { safe = h.safe; announced = h.announced })
  Step-IsSafe a n b (wait session line staging _ _ q) h = subst IsSafe (sym q) (record {
    safe = wait_ready-Safe session a.shared h.safe;
    announced = wait_ready-ota session a.shared ∙ h.announced;
  })
  Step-IsSafe a n b (leave _ _ q) h =
      back a b (record a { shared = Cdc.end_session a.shared; serving = idle }) q
        (record {
          safe = end_session-Safe a.shared h.safe;
          announced = end_session-ota a.shared ∙ h.announced;
        })
  Step-IsSafe a n b (signal changed reboot ready _ q) h =
      back a b
        (record a {
          shared = record a.shared {
            maintenance_changed = changed;
            maintenance_ready = ready;
            reboot_requested = reboot;
          };
        })
        q
        (queues-IsSafe a a.shared.requests a.shared.cdc_replies a.shared.uart_replies changed reboot
          ready h)
