-- ===== src/Tasks/Owned.antt =====
-- The upload of the current CDC session over any steps of the tasks of app/src/main.rs.
use nrf52_unifying.Cdc
use nrf52_unifying.Device.{Device}
use nrf52_unifying.Flash.{Nor}
use nrf52_unifying.Prelude.{
  ℕ, List, ◌^◌, ◌≤◌, ◌<◌, ◌≡◌, refl, sym, ap, subst, Bool, true, false, if◌then◌else◌, arith,
}
use nrf52_unifying.Tasks.{Shared, Updater, Reply}
use nrf52_unifying.Tasks.Accept.{accept, deliver}
use nrf52_unifying.Tasks.Damage.{Reach-IsSafe}
use nrf52_unifying.Tasks.Follows.{Follows, round-Follows}
use nrf52_unifying.Tasks.Invariant.{IsSafe}
use nrf52_unifying.Tasks.Keeps.{Ensures-eq, AfterSession, upload_packet-Keeps, line_byte-Keeps}
use nrf52_unifying.Tasks.Ownership.{
  uploads, number, counted, silent, usb_event-Moves, uart_event-flag, Owned, OwnedAfter, quiet,
  in_session, moved,
}
use nrf52_unifying.Tasks.Served.{accept-Follows}
use nrf52_unifying.Tasks.System.{
  System, idle, expects, serves, Step, usb, link, take_reply, work, receive, answer, upload, type_,
  ask, hear, begin, wait, leave, signal, Reach, here, next,
}

wait_ready-flag :
    (session : ℕ) (s : Shared) → (Cdc.wait_ready session s).0.cdc_session ≡ s.cdc_session
unfolding Cdc.wait_ready
wait_ready-flag session s = ground arith

end_session-session : (s : Shared) → (Cdc.end_session s).cdc_session ≡ s.cdc_session
unfolding Cdc.end_session
end_session-session s = refl

deliver-flag :
    (reply : Reply) (s : Shared)
    → ((deliver reply s).cdc_session ≡ s.cdc_session)
      × ((deliver reply s).upload_active ≡ s.upload_active)
unfolding deliver
deliver-flag reply s = (ground arith, ground arith)

new_number :
    (b : Bool) (session : ℕ) (r : Cdc.Serial)
    → number (if b then serves session r else expects session) ≡ session
new_number true session r = refl
new_number false session r = refl

new_uploads :
    (b : Bool) (session : ℕ) (line staging : List ℕ)
    → uploads (if b then serves session (Cdc.new_session line staging) else expects session) ≡ false
new_uploads true session line staging = refl
new_uploads false session line staging = refl

module _ {D F U : Type 0} (device : Device D) (nor : Nor F) (updater : Updater U) where
  Step-OwnedAfter :
      (k : ℕ) (a : System D F U) (n : ℕ) (b : System D F U)
      → Step device nor updater a n b
      → IsSafe a
      → counted k a.shared.cdc_session b.shared.cdc_session < 2 ^ 32
      → Owned device nor updater k a
      → OwnedAfter device nor updater k a b
  Step-OwnedAfter k a n b (usb e _ q) safe l h =
      moved device nor updater k a _ b q (usb_event-Moves e a.shared) refl l h
  Step-OwnedAfter k a n b (link e _ q) safe l h =
      quiet device nor updater k a _ b q (uart_event-flag e a.shared).0
        (uart_event-flag e a.shared).1 refl h
  Step-OwnedAfter k a n b (take_reply reply rest _ _ q) safe l h =
      quiet device nor updater k a _ b q refl refl refl h
  Step-OwnedAfter k a n b (work board _ _ q) safe l h =
      let f = round-Follows device nor updater board a.worker a.shared safe.announced in
      quiet device nor updater k a _ b q f.0.session f.2 refl h
  Step-OwnedAfter k a n b (receive board request rest w s reply _ _ e _ q) safe l h =
      let taken : Shared = record a.shared { requests = rest } in
      let f =
        Ensures-eq (accept device nor updater board request a.worker taken)
          (λ o. Follows device nor updater taken (o.0, o.1.0)) (w, (s, reply)) e
          (accept-Follows device nor updater board request a.worker taken safe.announced) in
      quiet device nor updater k a _ b q f.0.session f.2 refl h
  Step-OwnedAfter k a n b (answer reply _ _ _ q) safe l h =
      quiet device nor updater k a _ b q (deliver-flag reply a.shared).0
        (deliver-flag reply a.shared).1 refl h
  Step-OwnedAfter k a n b (upload session r bytes o v _ e _ q) safe l h =
      in_session device nor updater k session a b r o q v
        (Ensures-eq (Cdc.upload_packet updater r a.worker.updater a.shared bytes)
          (AfterSession updater r.upload_active a.shared) o e
          (upload_packet-Keeps updater r a.worker.updater a.shared bytes))
        h
  Step-OwnedAfter k a n b (type_ texts session r byte o v e _ q) safe l h =
      in_session device nor updater k session a b r o q v
        (Ensures-eq (Cdc.line_byte updater texts session r a.worker.updater a.shared byte)
          (AfterSession updater r.upload_active a.shared) o e
          (line_byte-Keeps updater texts session r a.worker.updater a.shared byte))
        h
  Step-OwnedAfter k a n b (ask request session r _ _ _ _ q) safe l h =
      quiet device nor updater k a _ b q refl refl refl h
  Step-OwnedAfter k a n b (hear reply rest _ _ q) safe l h =
      quiet device nor updater k a _ b q refl refl refl h
  Step-OwnedAfter k a n b (begin _ _ _ q) safe l h =
      subst (OwnedAfter device nor updater k a) (sym q) (
        silent k a.shared.cdc_session a.shared.cdc_session a.shared.upload_active
          (expects a.shared.cdc_session) refl h.session_is (omega (arith, h.session_is)) refl)
  Step-OwnedAfter k a n b (wait session line staging v _ q) safe l h =
      let ready = (Cdc.wait_ready session a.shared).1 in
      let begun : session ≤ k = omega (arith, h.begun, ap number v) in
      subst (OwnedAfter device nor updater k a) (sym q) (
        silent k a.shared.cdc_session (Cdc.wait_ready session a.shared).0.cdc_session
          (Cdc.wait_ready session a.shared).0.upload_active
          (if ready then serves session (Cdc.new_session line staging) else expects session)
          (wait_ready-flag session a.shared) h.session_is
          (omega (arith, begun, new_number ready session (Cdc.new_session line staging)))
          (new_uploads ready session line staging))
  Step-OwnedAfter k a n b (leave _ _ q) safe l h =
      subst (OwnedAfter device nor updater k a) (sym q) (
        silent k a.shared.cdc_session (Cdc.end_session a.shared).cdc_session
          (Cdc.end_session a.shared).upload_active idle (end_session-session a.shared) h.session_is
          (omega arith) refl)
  Step-OwnedAfter k a n b (signal changed reboot ready _ q) safe l h =
      quiet device nor updater k a _ b q refl refl refl h

  -- The steps that change the number of the CDC session.
  unfoldable pub session_changes : {a b : System D F U} {n : ℕ} → Reach device nor updater a n b → ℕ
  session_changes here = 0
  session_changes (next {n} {m} {k} {b} {c} r s e) =
      counted (session_changes r) b.shared.cdc_session c.shared.cdc_session

  pub Reach-Owned :
      {a b : System D F U} {n : ℕ}
      → IsSafe a
      → Owned device nor updater 0 a
      → (r : Reach device nor updater a n b) → session_changes r < 2 ^ 32
      → Owned device nor updater (session_changes r) b
  unfolding session_changes
  Reach-Owned safe h here l = h
  Reach-Owned safe h (next {n} {m} {k} {b} {c} r s e) l =
      Step-OwnedAfter (session_changes r) b m c s (Reach-IsSafe device nor updater safe r) l
        (Reach-Owned safe h r (ground (arith, l)))
