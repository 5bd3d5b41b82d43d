-- ===== src/Tasks/Follows.antt =====
-- What a round of the worker of app/src/main.rs leaves as it is in the shared state, and that it
-- announces whether an upload runs.
use nrf52_unifying.Device.{Device}
use nrf52_unifying.Flash.{Nor}
use nrf52_unifying.Prelude.{
  ℕ, ◌≡◌, refl, ap, ◌∙◌, sym, Bool, true, false, ◌&&◌, Option, some, leb, ◌==◌, if◌then◌else◌,
  arith, Bool-cases, inl, inr,
}
use nrf52_unifying.Tasks.{Shared, Updater}
use nrf52_unifying.Tasks.Keeps.{Keeps, Keeps-refl}
use nrf52_unifying.Tasks.Worker.{
  Worker, Board, poll_if_due, expire_upload, see_session, see_damage, round,
}
use nrf52_unifying.UartOta.{Ota}

pub Keeps-trans : (s t u : Shared) → Keeps s t → Keeps t u → Keeps s u
Keeps-trans s t u h k = record {
  generation = k.generation ∙ h.generation;
  active = k.active ∙ h.active;
  session = k.session ∙ h.session;
  available = k.available ∙ h.available;
  dtr = k.dtr ∙ h.dtr;
  changed = k.changed ∙ h.changed;
  exclusive = λ e. k.exclusive (h.exclusive e);
}

pub Keeps-other :
    (s : Shared) (ready : Option ℕ) (damaged sync reboot : Bool)
    → Keeps s (record s {
      maintenance_ready = ready;
      uart_damaged = damaged;
      uart_sync_required = sync;
      reboot_requested = reboot;
    })
Keeps-other s ready damaged sync reboot = record {
  generation = refl;
  active = refl;
  session = refl;
  available = refl;
  dtr = refl;
  changed = refl;
  exclusive = λ h. h;
}

module _ {D F U : Type 0} (device : Device D) (nor : Nor F) (updater : Updater U) where
  abbrev pub IsAnnounced : Worker D F U → Shared → Type 0
  IsAnnounced w s = s.uart_ota_active ≡ w.ota.active

  -- Behind a stretch of the worker.
  abbrev pub Follows : Shared → Worker D F U × Shared → Type 0
  Follows s (w', s') = Keeps s s' × IsAnnounced w' s' × (s'.upload_active ≡ s.upload_active)

  expire_upload-Follows :
      (now : ℕ) (w : Worker D F U) (s : Shared)
      → IsAnnounced w s
      → Follows s (expire_upload device nor updater now (w, s))
  unfolding expire_upload
  expire_upload-Follows now w s h = elim (Bool-cases (w.ota.active && leb w.ota_deadline now)) [
    | inr e ↦ rw e (Keeps-refl s, h, refl)
    | inl e ↦ rw e (
      record {
        generation = refl;
        active = refl;
        session = refl;
        available = refl;
        dtr = refl;
        changed = refl;
        exclusive = λ e. refl;
      },
      refl,
      refl,
    )
  ]

  pub choice :
      (b : Bool) (s : Shared) (x y : Worker D F U × Shared)
      → Follows s x
      → Follows s y
      → Follows s (if b then x else y)
  choice true s x y h k = h
  choice false s x y h k = k

  see_session-Follows :
      (w : Worker D F U) (s : Shared)
      → IsAnnounced w s
      → Follows s (see_session device nor updater (w, s))
  unfolding see_session
  see_session-Follows w s h =
      choice (s.cdc_session == w.session_seen) s _ _ (Keeps-refl s, h, refl)
        (choice s.cdc_active s _ _
          (
            Keeps-other s (some s.cdc_session) s.uart_damaged s.uart_sync_required
                s.reboot_requested,
            h,
            refl,
          )
          (Keeps-refl s, h, refl))

  see_damage-Follows :
      (w : Worker D F U) (s : Shared)
      → IsAnnounced w s
      → Follows s (see_damage device nor updater (w, s))
  unfolding see_damage
  see_damage-Follows w s h =
      choice s.uart_damaged s _ _
        (Keeps-other s s.maintenance_ready false s.uart_sync_required s.reboot_requested, h, refl)
        (Keeps-refl s, h, refl)

  pub poll_if_due-ota :
      (board : Board) (s : Shared) (w : Worker D F U)
      → (poll_if_due device nor updater board s w).ota ≡ w.ota
  unfolding poll_if_due
  poll_if_due-ota board s w = ground arith

  pub Follows-trans :
      (s : Shared) (x : Worker D F U × Shared) (y : Worker D F U × Shared)
      → Follows s x
      → Follows x.1 y
      → Follows s y
  Follows-trans s x y h k = (Keeps-trans s x.1 y.1 h.0 k.0, k.1, k.2 ∙ h.2)

  -- A round of the worker's loop up to its wait.
  pub round-Follows :
      (board : Board) (w : Worker D F U) (s : Shared)
      → IsAnnounced w s
      → Follows s (round device nor updater board (w, s))
  unfolding round
  round-Follows board w s h =
      let a = expire_upload device nor updater board.now (w, s) in
      let b = see_session device nor updater a in
      let c = see_damage device nor updater b in
      let fa = expire_upload-Follows board.now w s h in
      let fb = Follows-trans s a b fa (see_session-Follows a.0 a.1 fa.1) in
      let fc = Follows-trans s b c fb (see_damage-Follows b.0 b.1 fb.1) in
      (fc.0, fc.1 ∙ sym (ap (λ (o : Ota). o.active) (poll_if_due-ota board c.1 c.0)), fc.2)
