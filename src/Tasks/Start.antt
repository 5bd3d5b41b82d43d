-- ===== src/Tasks/Start.antt =====
-- The start of app/src/main.rs: the image that has been swapped in is confirmed, the pairing is
-- restored, and the tasks begin.
use nrf52_unifying.Device.{Device}
use nrf52_unifying.Flash.{Nor}
use nrf52_unifying.Prelude.{
  ℕ, ◌+◌, ◌^◌, ◌<◌, ◌≡◌, refl, Bool, true, false, ◌&&◌, ◌==◌, Option, none, some, arith, Bool-cases,
  inl, inr,
}
use nrf52_unifying.Tasks.{Shared, initial, BootState, boot, swap, revert, dfu_detach, Updater}
use nrf52_unifying.Tasks.Damage.{Reach-IsSafe}
use nrf52_unifying.Tasks.Invariant.{IsSafe}
use nrf52_unifying.Tasks.System.{System, Serving, idle, expects, serves, Reach}
use nrf52_unifying.Tasks.Accept.{is_current}
use nrf52_unifying.Tasks.Keeps.{implies}
use nrf52_unifying.Tasks.Owned.{session_changes, Reach-Owned}
use nrf52_unifying.Tasks.Ownership.{IsOwned, Owned}
use nrf52_unifying.Tasks.Worker.{interval}
use nrf52_unifying.UartOta
use nrf52_unifying.Unifying.Boot.{new, restore}

-- Behind `get_state`: the image is confirmed where it has been swapped in or back.
unfoldable pub confirm : {U : Type 0} → Updater U → U → Option BootState → U
confirm updater u (some swap) = (updater.mark_booted u).0
confirm updater u (some revert) = (updater.mark_booted u).0
confirm updater u (some boot) = u
confirm updater u (some dfu_detach) = u
confirm updater u none = u

-- Whether the CDC session of now is in an upload.
abbrev pub is_uploading : Serving → Shared → Bool
is_uploading idle s = false
is_uploading (expects _) s = false
is_uploading (serves n r) s = r.upload_active && is_current s n

-- The flag is set while the current session uploads, and the worker does not upload then.
pub record IsExclusive {D F U : Type 0} (x : System D F U) : Type 0 where
  pub flagged : implies (is_uploading x.serving x.shared) x.shared.upload_active ≡ true
  pub alone : (is_uploading x.serving x.shared && x.worker.ota.active) ≡ false

IsOwned-flagged :
    (k : ℕ) (v : Serving) (s : Shared)
    → IsOwned k s.cdc_session s.upload_active v
    → implies (is_uploading v s) s.upload_active ≡ true
IsOwned-flagged k idle s h = refl
IsOwned-flagged k (expects n) s h = refl
IsOwned-flagged k (serves n r) s h = elim (Bool-cases (n == s.cdc_session)) [
  | inl now ↦ ground (arith, now, h.claim)
  | inr past ↦
      let other : (s.cdc_session == n) ≡ false = ground (arith, past) in ground (arith, other)
]

module _ {D F U : Type 0} (device : Device D) (nor : Nor F) (updater : Updater U) where
  -- The system behind the start, at this time; `d` is the device that was made.
  unfoldable pub started : D → ℕ → F → U → System D F U
  unfolding confirm
  started d now flash u =
      let (u', boot_state) = updater.get_state u in
      let (state, flash') = restore device nor (new d now) flash in
      record {
        worker = record {
          unifying = state;
          flash = flash';
          updater = updater.renew (confirm updater u' boot_state);
          ota = UartOta.fresh;
          ota_deadline = now;
          deadline = now + interval;
          session_seen = 0;
        };
        shared = initial;
        serving = idle;
        outbox = none;
      }

  started-IsSafe : (d : D) (now : ℕ) (flash : F) (u : U) → IsSafe (started d now flash u)
  unfolding started
  started-IsSafe d now flash u = record {
    safe = record { exclusive = refl; powered = refl; noticed = refl };
    announced = refl;
  }

  started-Owned :
      (d : D) (now : ℕ) (flash : F) (u : U) → Owned device nor updater 0 (started d now flash u)
  unfolding started
  started-Owned d now flash u = record { session_is = refl; begun = omega arith; claim = refl }

  -- From the start of the program, whatever steps the tasks take, in any order, by which the
  -- number of the CDC session changes less than 2 ^ 32 times: while the current CDC session is in
  -- an upload, the shared flag of its upload is set and the worker is in no upload; the two shared
  -- flags are never both set, the one of the UART's upload tells whether the worker's is active,
  -- and a CDC session is active only while the bus is configured and its line is up or a change is
  -- signalled to the control loop.
  pub started-Reach-IsSafe :
      (d : D) (now : ℕ) (flash : F) (u : U) {n : ℕ} {b : System D F U}
      (r : Reach device nor updater (started d now flash u) n b)
      → session_changes device nor updater r < 2 ^ 32
      → IsSafe b × IsExclusive b
  started-Reach-IsSafe d now flash u {n = n} {b = b} r few =
      let start = started-IsSafe d now flash u in
      let safe = Reach-IsSafe device nor updater start r in
      let owned = Reach-Owned device nor updater start (started-Owned d now flash u) r few in
      let flagged =
        IsOwned-flagged (session_changes device nor updater r) b.serving b.shared owned in
      (
        safe,
        record {
          flagged = flagged;
          alone = ground (arith, flagged, safe.safe.exclusive, safe.announced);
        },
      )
