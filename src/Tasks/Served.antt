-- ===== src/Tasks/Served.antt =====
-- What the worker of app/src/main.rs leaves as it is in the shared state where it serves a request,
-- and that it announces whether an upload runs.
use nrf52_unifying.Device.{Device}
use nrf52_unifying.Flash.{Nor}
use nrf52_unifying.Prelude.{
  ℕ, ◌+◌, ◌*◌, ◌≡◌, refl, ap, ◌∙◌, sym, Bool, true, false, not, ◌&&◌, ◌||◌, Option, none, some,
  ◌==◌, if◌then◌else◌, Run, ret, ◌>>=◌, arith,
}
use nrf52_unifying.Prelude.Buffer.{slice_to}
use nrf52_unifying.Prelude.Text.{Bytes, codes, starts_with}
use nrf52_unifying.Tasks.{Source, cdc, uart, Request, Reply, Shared, new_reply, write_all, Updater}
use nrf52_unifying.Tasks.Accept.{
  busy, say, admit, upload_line, answer, serve, after_admission, accept, is_uart, run_ota,
  before_upload, is_ver, is_current,
}
use nrf52_unifying.Tasks.Keeps.{Ensures, Ensures-bind, Ensures-any, Ensures-if, Keeps, Keeps-refl}
use nrf52_unifying.Tasks.Worker.{Worker, Board, poll_if_due}
use nrf52_unifying.UartLink.{CommandError, command, argument}
use nrf52_unifying.UartOta.{Ota}
use nrf52_unifying.Unifying.Handle.{handle_unifying_command}
use nrf52_unifying.Tasks.Follows.{Keeps-trans, Keeps-other, IsAnnounced, Follows, poll_if_due-ota}

module _ {D F U : Type 0} (device : Device D) (nor : Nor F) (updater : Updater U) where
  -- The admission of a request.
  abbrev Admits : Shared → Option (Reply × Shared) → Type 0
  Admits s none = Unit {0}
  Admits s (some (sink, s')) =
      Keeps s s' × (s'.uart_ota_active ≡ s.uart_ota_active) × (s'.upload_active ≡ s.upload_active)

  admits :
      (b : Bool) (s : Shared) (x y : Run (Option (Reply × Shared)))
      → Ensures x (Admits s)
      → Ensures y (Admits s)
      → Ensures (if b then x else y) (Admits s)
  admits true s x y h k = h
  admits false s x y h k = k

  Admits-busy :
      (sink : Reply) (s : Shared) → Ensures (say sink busy >>= λ r. ret (some (r, s))) (Admits s)
  Admits-busy sink s =
      Ensures-bind (say sink busy) (λ r. ret (some (r, s))) (λ _. Unit {0}) (Admits s)
        (Ensures-any (say sink busy)) (λ r _. (Keeps-refl s, refl, refl))

  admit-Keeps :
      (source : Source) (error : Option CommandError) (line : Bytes) (session_seen : ℕ)
      (sink : Reply) (s : Shared)
      → Ensures (admit source error line session_seen sink s) (Admits s)
  unfolding admit
  admit-Keeps (cdc epoch) error line seen sink s = admitted (is_current s epoch && seen == epoch)
    where
      admitted : (b : Bool) → Admits s (if b then some (sink, s) else none)
      admitted true = (Keeps-refl s, refl, refl)
      admitted false = tt
  admit-Keeps (uart number session generation) error line seen sink s =
      admits (not (generation == s.uart_generation)) s _ _ tt (
        admits (s.cdc_active || not (session == s.cdc_session)) s _ _ (Admits-busy sink s) (
          admits s.uart_sync_required s _ _
            (admits (is_ver error line) s _ _
              (
                Keeps-other s s.maintenance_ready s.uart_damaged false s.reboot_requested,
                refl,
                refl,
              )
              (Admits-busy sink s))
            (Keeps-refl s, refl, refl)))

  -- A line of the upload: it runs only where no CDC upload does.
  upload_line-Follows :
      (now : ℕ) (line : Bytes) (sink : Reply) (w : Worker D F U) (s : Shared)
      → IsAnnounced device nor updater w s
      → Ensures
          (upload_line device nor updater now line sink w s)
          (λ o. Follows device nor updater s o.1)
  unfolding upload_line
  upload_line-Follows now line sink w s h = go s.upload_active refl
    where
      running : Run (Reply × (Worker D F U × Shared))
      running =
          let (w', (text, reboot)) =
            run_ota device nor updater line (before_upload device nor updater line w) in
          say sink text >>= λ r. ret (
            r,
            (
              record w' { ota_deadline = now + 60 * 1000 },
              record s {
                uart_ota_active = w'.ota.active;
                reboot_requested = reboot || s.reboot_requested;
              },
            ),
          )

      go :
          (b : Bool)
          → s.upload_active ≡ b
          → Ensures
              (if b then (say sink busy >>= λ r. ret (r, (w, s))) else running)
              (λ o. Follows device nor updater s o.1)
      go true e =
          Ensures-bind (say sink busy) (λ r. ret (r, (w, s))) (λ _. Unit {0})
            (λ o. Follows device nor updater s o.1) (Ensures-any (say sink busy))
            (λ r _. (Keeps-refl s, h, refl))
      go false e =
          let after = run_ota device nor updater line (before_upload device nor updater line w) in
          Ensures-bind (say sink after.1.0) _ (λ _. Unit {0})
            (λ o. Follows device nor updater s o.1) (Ensures-any (say sink after.1.0))
            (λ r _. (
              record {
                generation = refl;
                active = refl;
                session = refl;
                available = refl;
                dtr = refl;
                changed = refl;
                exclusive = λ x. ground (arith, e);
              },
              refl,
              refl,
            ))

  answer-ota :
      (board : Board) (error : Option CommandError) (line : Bytes) (sink : Reply) (w : Worker D F U)
      → Ensures (answer device nor updater board error line sink w) (λ o. o.1.ota ≡ w.ota)
  unfolding answer
  answer-ota board (some command) line sink w =
      Ensures-bind (say sink (codes "ERR CMD\r\n")) _ (λ _. Unit {0}) (λ o. o.1.ota ≡ w.ota)
        (Ensures-any (say sink (codes "ERR CMD\r\n"))) (λ r _. refl)
  answer-ota board (some argument) line sink w =
      Ensures-bind (say sink (codes "ERR ARG\r\n")) _ (λ _. Unit {0}) (λ o. o.1.ota ≡ w.ota)
        (Ensures-any (say sink (codes "ERR ARG\r\n"))) (λ r _. refl)
  answer-ota board none line sink w =
      let run =
        handle_unifying_command device nor board.version_reply board.clock w.unifying w.flash
          line in
      Ensures-bind run _ (λ _. Unit {0}) (λ o. o.1.ota ≡ w.ota) (Ensures-any run)
        (λ o _.
          Ensures-bind (write_all sink o.1.1) _ (λ _. Unit {0}) (λ o. o.1.ota ≡ w.ota)
            (Ensures-any (write_all sink o.1.1)) (λ r _. refl))

  serve-Follows :
      (board : Board) (source : Source) (error : Option CommandError) (line : Bytes) (sink : Reply)
      (w : Worker D F U) (s : Shared)
      → IsAnnounced device nor updater w s
      → Ensures
          (serve device nor updater board source error line sink w s)
          (λ o. Follows device nor updater s o.1)
  unfolding serve
  serve-Follows board source error line sink w s h =
      Ensures-bind
        (if sink.len == 0 && is_uart source && starts_with (codes "OTA ") line
          then upload_line device nor updater board.now line sink w s
          else ret (sink, (w, s)))
        _ (λ o. Follows device nor updater s o.1) (λ o. Follows device nor updater s o.1)
        (Ensures-if (sink.len == 0 && is_uart source && starts_with (codes "OTA ") line) _ _
          (λ o. Follows device nor updater s o.1) (upload_line-Follows board.now line sink w s h)
          (Keeps-refl s, h, refl))
        (λ r f.
          let refused = if r.0.len == 0 && r.1.0.ota.active then say r.0 busy else ret r.0 in
          Ensures-bind refused _ (λ _. Unit {0}) (λ o. Follows device nor updater s o.1)
            (Ensures-any refused)
            (λ sink' _.
              let answered =
                if sink'.len == 0
                then answer device nor updater board error line sink' r.1.0
                else ret (sink', r.1.0) in
              Ensures-bind answered _ (λ o. o.1.ota ≡ r.1.0.ota)
                (λ o. Follows device nor updater s o.1)
                (Ensures-if (sink'.len == 0)
                  (answer device nor updater board error line sink' r.1.0) (ret (sink', r.1.0))
                  (λ o. o.1.ota ≡ r.1.0.ota) (answer-ota board error line sink' r.1.0) refl)
                (λ a e. (f.0, f.1 ∙ sym (ap (λ (o : Ota). o.active) e), f.2))))

  -- A request that is received, up to its reply.
  pub accept-Follows :
      (board : Board) (request : Request) (w : Worker D F U) (s : Shared)
      → IsAnnounced device nor updater w s
      → Ensures
          (accept device nor updater board request w s)
          (λ o. Follows device nor updater s (o.0, o.1.0))
  unfolding accept
  accept-Follows board request w s h =
      let w' = poll_if_due device nor updater board s w in
      let h' : IsAnnounced device nor updater w' s =
        h ∙ sym (ap (λ (o : Ota). o.active) (poll_if_due-ota device nor updater board s w)) in
      let P : Worker D F U × (Shared × Option Reply) → Type 0 =
        λ o. Follows device nor updater s (o.0, o.1.0) in
      Ensures-bind (slice_to request.line request.len) _ (λ _. Unit {0}) P
        (Ensures-any (slice_to request.line request.len))
        (λ line _.
          Ensures-bind
            (admit request.source request.error line w'.session_seen (new_reply request.source) s) _
            (Admits s) P
            (admit-Keeps request.source request.error line w'.session_seen
              (new_reply request.source) s)
            (λ admitted k. served line admitted k))
    where
      served :
          (line : Bytes) (admitted : Option (Reply × Shared))
          → Admits s admitted
          → Ensures
              (after_admission device nor updater board request line
                (poll_if_due device nor updater board s w)
                s
                admitted)
              (λ o. Follows device nor updater s (o.0, o.1.0))
      served line none k = (
        Keeps-refl s,
        h ∙ sym (ap (λ (o : Ota). o.active) (poll_if_due-ota device nor updater board s w)),
        refl,
      )
      served line (some (sink, s')) k =
          let w' = poll_if_due device nor updater board s w in
          Ensures-bind (serve device nor updater board request.source request.error line sink w' s')
            _ (λ o. Follows device nor updater s' o.1)
            (λ o. Follows device nor updater s (o.0, o.1.0))
            (serve-Follows board request.source request.error line sink w' s' (
              k.1
              ∙ h
              ∙ sym (ap (λ (o : Ota). o.active) (poll_if_due-ota device nor updater board s w))))
            (λ r f. (Keeps-trans s s' r.1.1 k.0 f.0, f.1, f.2 ∙ k.2))
