-- ===== src/Tasks/Ownership.antt =====
-- The upload of the CDC session that is current, against the flag that app/src/main.rs sets for it
-- and the worker's upload.
use nrf52_unifying.Cdc
use nrf52_unifying.Device.{Device}
use nrf52_unifying.Flash.{Nor}
use nrf52_unifying.Prelude.{
  ℕ, ◌+◌, ◌^◌, ◌≤◌, ◌<◌, ◌≡◌, refl, sym, subst, Bool, true, false, not, ◌&&◌, ◌⊎◌, inl, inr, ◌==◌,
  if◌then◌else◌, arith, Bool-cases,
}
use nrf52_unifying.Tasks.{Shared, Updater, wrapping_succ}
use nrf52_unifying.Tasks.Keeps.{implies, AfterSession}
use nrf52_unifying.Tasks.Link.{
  done, failed, waiting, begin_read, session_woken, read_failed, submit, sent,
}
use nrf52_unifying.Tasks.System.{
  UsbEvent, set_enabled, bus_reset, set_configured, control_request, control_loop, usb_event,
  UartEvent, read_begun, woken, read_error, framed, written, uart_event, System, Serving, idle,
  expects, serves,
}
use nrf52_unifying.Tasks.Usb.{
  unavailable, enabled, reset, configured, control_out, change_session, control_round, same,
}

abbrev pub uploads : Serving → Bool
uploads idle = false
uploads (expects _) = false
uploads (serves _ r) = r.upload_active

abbrev pub number : Serving → ℕ
number idle = 0
number (expects n) = n
number (serves n _) = n

-- The changes of the session so far, behind a step from one session to the next.
abbrev pub counted : ℕ → ℕ → ℕ → ℕ
counted k s s' = if s' == s then k else k + 1

-- Of the session's number, the flag and the task of the sessions: the sessions are numbered by
-- their changes, the task serves one that has begun, and if it is the one of now and uploads, the
-- flag is set.
pub record IsOwned (k session : ℕ) (flag : Bool) (v : Serving) : Type 0 where
  pub session_is : session ≡ k
  pub begun : number v ≤ k
  pub claim : implies (uploads v && number v == session) flag ≡ true

stays :
    (k s s' : ℕ) (f f' : Bool) (v : Serving)
    → s' ≡ s
    → f' ≡ f
    → IsOwned k s f v
    → IsOwned (counted k s s') s' f' v
stays k s s' f f' v e g h = record {
  session_is = ground (arith, e, h.session_is);
  begun = ground (arith, e, h.begun);
  claim = ground (arith, e, g, h.claim);
}

changes_to :
    (k s s' : ℕ) (f f' : Bool) (v : Serving)
    → s' ≡ wrapping_succ s
    → counted k s s' < 2 ^ 32
    → IsOwned k s f v
    → IsOwned (counted k s s') s' f' v
changes_to k s s' f f' v e l h = elim (Bool-cases (s' == s)) [
  | inl unmoved ↦ absurd (ground (arith, e, l, unmoved, h.session_is))
  | inr moved ↦
      let less : k + 1 < 2 ^ 32 = ground (arith, l, moved) in
      let later : s' ≡ k + 1 = omega (arith, e, less, h.session_is) in
      record {
        session_is = ground (arith, moved, later);
        begun = ground (arith, moved, h.begun);
        claim =
            let old : (number v == s') ≡ false = ground (arith, later, h.begun) in
            ground (arith, old);
      }
]

pub silent :
    (k s s' : ℕ) (f' : Bool) (v : Serving)
    → s' ≡ s
    → s ≡ k
    → number v ≤ k
    → uploads v ≡ false
    → IsOwned (counted k s s') s' f' v
silent k s s' f' v e session_is begun u = record {
  session_is = ground (arith, e, session_is);
  begun = ground (arith, e, begun);
  claim = ground (arith, u);
}

served :
    (k n s s' : ℕ) (f f' : Bool) (r r' : Cdc.Serial)
    → s' ≡ s
    → (implies r.upload_active f ≡ true → implies r'.upload_active f' ≡ true)
    → IsOwned k s f (serves n r)
    → IsOwned (counted k s s') s' f' (serves n r')
served k n s s' f f' r r' e c h = record {
  session_is = ground (arith, e, h.session_is);
  begun = ground (arith, e, h.begun);
  claim = elim (Bool-cases (n == s)) [
    | inl now ↦ ground (arith, e, now, c (ground (arith, now, h.claim)))
    | inr past ↦ ground (arith, e, past)
  ];
}

-- The session changes, or the flag is as it was.
abbrev pub Moves : Shared → Shared → Type 0
Moves s s' =
    ((s'.cdc_session ≡ s.cdc_session) × (s'.upload_active ≡ s.upload_active))
    ⊎ (s'.cdc_session ≡ wrapping_succ s.cdc_session)

round-Moves :
    (by_signal on : Bool) (s : Shared)
    → Moves s (
        let woken : Shared = if by_signal then record s { usb_lifecycle_changed = false } else s in
        if not (same on s.cdc_active) then change_session on woken else woken)
unfolding change_session
round-Moves true on s = elim (Bool-cases (not (same on s.cdc_active))) [
  | inl e ↦ rw e (inr refl)
  | inr e ↦ rw e (inl (refl, refl))
]
round-Moves false on s = elim (Bool-cases (not (same on s.cdc_active))) [
  | inl e ↦ rw e (inr refl)
  | inr e ↦ rw e (inl (refl, refl))
]

pub usb_event-Moves : (e : UsbEvent) (s : Shared) → Moves s (usb_event e s)
unfolding enabled reset configured control_out control_round unavailable change_session
usb_event-Moves (set_enabled true) s = inl (refl, refl)
usb_event-Moves (set_enabled false) s = inr refl
usb_event-Moves bus_reset s = inr refl
usb_event-Moves (set_configured true) s = inl (refl, refl)
usb_event-Moves (set_configured false) s = inr refl
usb_event-Moves (control_request class_interface index request value) s =
    inl (ground arith, ground arith)
usb_event-Moves (control_loop by_signal dtr) s =
    round-Moves by_signal (s.usb_available && s.usb_dtr_valid && dtr) s

pub uart_event-flag :
    (e : UartEvent) (s : Shared)
    → ((uart_event e s).cdc_session ≡ s.cdc_session)
      × ((uart_event e s).upload_active ≡ s.upload_active)
unfolding begin_read session_woken read_failed submit sent
uart_event-flag (read_begun r) s = (ground arith, ground arith)
uart_event-flag (woken r) s = (ground arith, ground arith)
uart_event-flag (read_error r) s = (ground arith, ground arith)
uart_event-flag (framed r frame) s = (ground arith, ground arith)
uart_event-flag (written done len d) s = (ground arith, ground arith)
uart_event-flag (written failed len d) s = (ground arith, ground arith)
uart_event-flag (written waiting len d) s = (ground arith, ground arith)

module _ {D F U : Type 0} (device : Device D) (nor : Nor F) (updater : Updater U) where
  abbrev pub Owned : ℕ → System D F U → Type 0
  Owned k x = IsOwned k x.shared.cdc_session x.shared.upload_active x.serving

  -- Behind a step from `a`.
  abbrev pub OwnedAfter : ℕ → System D F U → System D F U → Type 0
  OwnedAfter k a b = Owned (counted k a.shared.cdc_session b.shared.cdc_session) b

  pub quiet :
      (k : ℕ) (a c b : System D F U)
      → b ≡ c
      → c.shared.cdc_session ≡ a.shared.cdc_session
      → c.shared.upload_active ≡ a.shared.upload_active
      → c.serving ≡ a.serving
      → Owned k a
      → OwnedAfter k a b
  quiet k a c b q e g v h = subst (OwnedAfter k a) (sym q) (
      stays k a.shared.cdc_session c.shared.cdc_session a.shared.upload_active
        c.shared.upload_active c.serving e g
        (subst (IsOwned k a.shared.cdc_session a.shared.upload_active) (sym v) h))

  pub in_session :
      (k n : ℕ) (a b : System D F U) (r : Cdc.Serial) (o : Cdc.Outcome U)
      → b ≡ record a {
        worker = record a.worker { updater = o.1.0 };
        shared = o.1.1.0;
        serving = serves n o.0;
      }
      → a.serving ≡ serves n r
      → AfterSession updater r.upload_active a.shared o
      → Owned k a
      → OwnedAfter k a b
  in_session k n a b r o q v f h = subst (OwnedAfter k a) (sym q) (
      served k n a.shared.cdc_session o.1.1.0.cdc_session a.shared.upload_active
        o.1.1.0.upload_active r o.0 f.0.keeps.session f.1
        (subst (IsOwned k a.shared.cdc_session a.shared.upload_active) v h))

  pub moved :
      (k : ℕ) (a c b : System D F U)
      → b ≡ c
      → Moves a.shared c.shared
      → c.serving ≡ a.serving
      → counted k a.shared.cdc_session b.shared.cdc_session < 2 ^ 32
      → Owned k a
      → OwnedAfter k a b
  moved k a c b q (inl m) v l h = quiet k a c b q m.0 m.1 v h
  moved k a c b q (inr m) v l h = subst (OwnedAfter k a) (sym q) (
      changes_to k a.shared.cdc_session c.shared.cdc_session a.shared.upload_active
        c.shared.upload_active c.serving m
        (subst (λ (x : System D F U). counted k a.shared.cdc_session x.shared.cdc_session < 2 ^ 32)
          q l)
        (subst (IsOwned k a.shared.cdc_session a.shared.upload_active) (sym v) h))
