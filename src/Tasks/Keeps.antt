-- ===== src/Tasks/Keeps.antt =====
-- What the stretches of the tasks of app/src/main.rs leave as it is in the shared state.
use nrf52_unifying.Cdc.Command.{
  OtaCommand, ping, info, write, boot_image, abort, reboot, parse_ota_command,
}
use nrf52_unifying.Cdc
use nrf52_unifying.Prelude.{
  ℕ, ◌+◌, ◌-◌, leb, drop, replicate, ◌≡◌, refl, Bool, true, false, not, ◌&&◌, ◌||◌, Option, none,
  some, List, [], length, ltb, ◌==◌, if◌then◌else◌, Run, panic, ret, ◌>>=◌, arith,
}
use nrf52_unifying.Prelude.Buffer.{store, copy, slice_to}
use nrf52_unifying.Prelude.Text.{Bytes}
use nrf52_unifying.Tasks.{Shared, Updater}

-- What holds of a result, if there is one: a panic resets the board.
abbrev pub Ensures {ℓ} : {A : Type ℓ} → Run A → (A → Type 0) → Type 0
Ensures panic P = Unit {0}
Ensures (ret a) P = P a

pub Ensures-bind {ℓ κ} :
    {A : Type ℓ} {B : Type κ} (m : Run A) (f : A → Run B) (P : A → Type 0) (Q : B → Type 0)
    → Ensures m P
    → ((a : A) → P a → Ensures (f a) Q)
    → Ensures (m >>= f) Q
Ensures-bind panic f P Q h k = tt
Ensures-bind (ret a) f P Q h k = k a h

pub Ensures-any {ℓ} : {A : Type ℓ} (m : Run A) → Ensures m (λ _. Unit {0})
Ensures-any panic = tt
Ensures-any (ret a) = tt

pub Ensures-if {ℓ} :
    {A : Type ℓ} (b : Bool) (x y : Run A) (P : A → Type 0)
    → Ensures x P
    → Ensures y P
    → Ensures (if b then x else y) P
Ensures-if true x y P h k = h
Ensures-if false x y P h k = k

pub Ensures-eq {ℓ} :
    {A : Type ℓ} (m : Run A) (P : A → Type 0) (a : A) → m ≡ ret a → Ensures m P → P a
Ensures-eq m P a e h = rw e at h

-- Both uploads at once.
abbrev pub both_uploads : Shared → Bool
both_uploads s = s.uart_ota_active && s.upload_active

-- The parts of the shared state that neither the worker nor a CDC session changes.
pub record Keeps (s s' : Shared) : Type 0 where
  pub generation : s'.uart_generation ≡ s.uart_generation
  pub active : s'.cdc_active ≡ s.cdc_active
  pub session : s'.cdc_session ≡ s.cdc_session
  pub available : s'.usb_available ≡ s.usb_available
  pub dtr : s'.usb_dtr_valid ≡ s.usb_dtr_valid
  pub changed : s'.usb_lifecycle_changed ≡ s.usb_lifecycle_changed
  pub exclusive : both_uploads s ≡ false → both_uploads s' ≡ false

pub Keeps-refl : (s : Shared) → Keeps s s
Keeps-refl s = record {
  generation = refl;
  active = refl;
  session = refl;
  available = refl;
  dtr = refl;
  changed = refl;
  exclusive = λ h. h;
}

-- A CDC session also leaves the UART's upload as it is.
pub record SessionKeeps (s s' : Shared) : Type 0 where
  pub keeps : Keeps s s'
  pub ota : s'.uart_ota_active ≡ s.uart_ota_active

abbrev pub implies : Bool → Bool → Bool
implies a b = not a || b

module _ {U : Type 0} (updater : Updater U) where
  -- A session that uploads has said so, if it had before.
  abbrev pub AfterSession : Bool → Shared → Cdc.Outcome U → Type 0
  AfterSession b s (r, (u, (s', outputs))) =
      SessionKeeps s s'
      × (implies b s.upload_active ≡ true → implies r.upload_active s'.upload_active ≡ true)

  -- A run whose result is not needed.
  after :
      {A : Type 0} (m : Run A) (f : A → Run (Cdc.Outcome U)) (b : Bool) (s : Shared)
      → ((a : A) → Ensures (f a) (AfterSession b s))
      → Ensures (m >>= f) (AfterSession b s)
  after m f b s k = Ensures-bind m f (λ _. Unit {0}) (AfterSession b s) (Ensures-any m) (λ a _. k a)

  choice :
      (c b : Bool) (s : Shared) (x y : Run (Cdc.Outcome U))
      → Ensures x (AfterSession b s)
      → Ensures y (AfterSession b s)
      → Ensures (if c then x else y) (AfterSession b s)
  choice true b s x y h k = h
  choice false b s x y h k = k

  ended : (s : Shared) → SessionKeeps s (record s { upload_active = false })
  ended s = record {
    keeps = record {
      generation = refl;
      active = refl;
      session = refl;
      available = refl;
      dtr = refl;
      changed = refl;
      exclusive = λ h. ground arith;
    };
    ota = refl;
  }

  quiet : (s : Shared) → SessionKeeps s s
  quiet s = record { keeps = Keeps-refl s; ota = refl }

  either :
      (c b : Bool) (s : Shared) (x y : Cdc.Outcome U)
      → AfterSession b s x
      → AfterSession b s y
      → AfterSession b s (if c then x else y)
  either true b s x y h k = h
  either false b s x y h k = k

  write_rest-Keeps :
      (r : Cdc.Serial) (u : U) (s : Shared)
      → Ensures (Cdc.write_rest updater r u s) (AfterSession r.upload_active s)
  unfolding Cdc.write_rest
  write_rest-Keeps r u s =
      choice (r.staging_len == 0) r.upload_active s _ _ (ended s, λ _. refl)
        (after (slice_to r.staging r.staging_len) _ r.upload_active s (λ rest.
          after (copy (replicate 4 0xFF) 0 rest) _ r.upload_active s (λ padded.
            either (updater.write_firmware u r.upload_received padded).1 r.upload_active s _ _
              (ended s, λ _. refl) (ended s, λ _. refl))))

  keep_rest-Keeps :
      (r : Cdc.Serial) (u : U) (s : Shared) (words total : ℕ)
      → Ensures (Cdc.keep_rest updater r u s words total) (AfterSession r.upload_active s)
  unfolding Cdc.keep_rest
  keep_rest-Keeps r u s words total =
      after (slice_to r.staging total) _ r.upload_active s (λ filled.
        after
          (if ltb 0 (total - words) then copy r.staging 0 (drop words filled) else ret r.staging) _
          r.upload_active s
          (λ staging.
            choice (leb r.upload_size (r.upload_received + (total - words))) r.upload_active s _ _
              (write_rest-Keeps (record r { staging = staging; staging_len = total - words }) u s)
              (quiet s, λ h. h)))

  pub upload_packet-Keeps :
      (r : Cdc.Serial) (u : U) (s : Shared) (bytes : Bytes)
      → Ensures (Cdc.upload_packet updater r u s bytes) (AfterSession r.upload_active s)
  unfolding Cdc.upload_packet
  upload_packet-Keeps r u s bytes =
      let total = r.staging_len + length bytes in
      after (copy r.staging r.staging_len bytes) _ r.upload_active s (λ staging.
        choice (ltb 0 (Cdc.aligned total)) r.upload_active s _ _
          (after (slice_to staging (Cdc.aligned total)) _ r.upload_active s (λ words.
            choice (updater.write_firmware u r.upload_received words).1 r.upload_active s _ _
              (keep_rest-Keeps
                (record r {
                  staging = staging;
                  upload_received = r.upload_received + Cdc.aligned total;
                })
                (updater.write_firmware u r.upload_received words).0 s (Cdc.aligned total) total)
              (ended s, λ _. refl)))
          (keep_rest-Keeps (record r { staging = staging }) u s (Cdc.aligned total) total))

  start_upload-Keeps :
      (r : Cdc.Serial) (u : U) (s : Shared) (size : ℕ)
      → AfterSession r.upload_active s (Cdc.start_upload updater r u s size)
  unfolding Cdc.start_upload
  start_upload-Keeps r u s size = (
    record {
      keeps = record {
        generation = ground arith;
        active = ground arith;
        session = ground arith;
        available = ground arith;
        dtr = ground arith;
        changed = ground arith;
        exclusive = λ h. ground arith;
      };
      ota = ground arith;
    },
    λ h. ground arith,
  )

  rebooting : (s : Shared) → SessionKeeps s (record s { reboot_requested = true })
  rebooting s = record {
    keeps = record {
      generation = refl;
      active = refl;
      session = refl;
      available = refl;
      dtr = refl;
      changed = refl;
      exclusive = λ h. h;
    };
    ota = refl;
  }

  boot_command-Keeps :
      (r : Cdc.Serial) (u : U) (s : Shared)
      → AfterSession r.upload_active s (Cdc.boot_command updater r u s)
  unfolding Cdc.boot_command
  boot_command-Keeps r u s =
      either s.uart_ota_active r.upload_active s _ _ (quiet s, λ h. h)
        (either (not r.image_ready) r.upload_active s _ _ (quiet s, λ h. h)
          (either (updater.mark_updated u).1 r.upload_active s _ _ (rebooting s, λ h. h)
            (quiet s, λ h. h)))

  ask_worker-Keeps :
      (session : ℕ) (line : Bytes) (len : ℕ) (r : Cdc.Serial) (u : U) (s s' : Shared)
      (before : List Cdc.Output)
      → SessionKeeps s s'
      → (implies r.upload_active s.upload_active ≡ true
          → implies r.upload_active s'.upload_active ≡ true)
      → Ensures
          (Cdc.ask_worker updater session line len r u s' before)
          (AfterSession r.upload_active s)
  unfolding Cdc.ask_worker
  ask_worker-Keeps session line len r u s s' before h k =
      choice (len == 0) r.upload_active s _ _ (h, k)
        (after (slice_to line len) _ r.upload_active s
          (λ text. after (copy (replicate 256 0) 0 text) _ r.upload_active s (λ buf. (h, k))))

  run_line-Keeps :
      (texts : Cdc.Texts) (session : ℕ) (command : Option OtaCommand) (line : Bytes) (len : ℕ)
      (r : Cdc.Serial) (u : U) (s : Shared)
      → Ensures
          (Cdc.run_line updater texts session command line len r u s)
          (AfterSession r.upload_active s)
  unfolding Cdc.run_line
  run_line-Keeps texts session none line len r u s =
      ask_worker-Keeps session line len r u s s [] (quiet s) (λ h. h)
  run_line-Keeps texts session (some ping) line len r u s = (quiet s, λ h. h)
  run_line-Keeps texts session (some info) line len r u s = (quiet s, λ h. h)
  run_line-Keeps texts session (some (write size)) line len r u s = start_upload-Keeps r u s size
  run_line-Keeps texts session (some boot_image) line len r u s = boot_command-Keeps r u s
  run_line-Keeps texts session (some abort) line len r u s = (ended s, λ _. refl)
  run_line-Keeps texts session (some reboot) line len r u s =
      ask_worker-Keeps session line len r u s (record s { reboot_requested = true }) _ (rebooting s)
        (λ h. h)

  pub line_byte-Keeps :
      (texts : Cdc.Texts) (session : ℕ) (r : Cdc.Serial) (u : U) (s : Shared) (b : ℕ)
      → Ensures (Cdc.line_byte updater texts session r u s b) (AfterSession r.upload_active s)
  unfolding Cdc.line_byte Cdc.line_feed
  line_byte-Keeps texts session r u s b =
      choice (b == b'\n') r.upload_active s _ _
        (choice r.discard_line r.upload_active s _ _ (quiet s, λ h. h)
          (after (slice_to r.line r.line_len) _ r.upload_active s (λ text.
            run_line-Keeps texts session (parse_ota_command text) r.line r.line_len
              (record r { line_len = 0 }) u s)))
        (choice (b == b'\r' || r.discard_line) r.upload_active s _ _ (quiet s, λ h. h)
          (choice (r.line_len == length r.line) r.upload_active s _ _ (quiet s, λ h. h)
            (after (store r.line r.line_len b) _ r.upload_active s (λ line. (quiet s, λ h. h)))))
