-- ===== src/Cdc/Bounds.antt =====
-- The lines and packets of `serial_fut` of app/src/main.rs: no packet makes an index run out of its
-- arrays.
use nrf52_unifying.Cdc.{
  Serial, Output, Texts, upload_packet, start_upload, boot_command, ask_worker, run_line, line_feed,
  line_byte, line_bytes, packet,
}
use nrf52_unifying.Cdc.Command.{
  OtaCommand, ping, info, write, boot_image, abort, reboot, parse_ota_command,
}
use nrf52_unifying.Prelude.{
  ℕ, ◌≤◌, ◌≡◌, refl, true, false, ◌||◌, Option, none, some, List, [], ◌∷◌, ◌++◌, length, All,
  length-replicate, replicate, ◌==◌, if◌then◌else◌, ◌∙◌, Returns, Returns-bind, arith, Bool-cases,
  inl, inr,
}
use nrf52_unifying.Prelude.Buffer.{store, copy, slice_to, store-length, copy-length, slice-length}
use nrf52_unifying.Prelude.Text.{Bytes}
use nrf52_unifying.Tasks.{Shared, Updater}
use nrf52_unifying.Cdc.Staging.{IsSerial, IsAsked, GoesOn, upload_packet-GoesOn}

All-append {ℓ κ} :
    {A : Type ℓ} (P : A → Type κ) (xs ys : List A) → All P xs → All P ys → All P (xs ++ ys)
All-append P [] ys h k = k
All-append P (x ∷ xs) ys h k = (h.0, All-append P xs ys h.1 k)

All-snoc {ℓ κ} :
    {A : Type ℓ} (P : A → Type κ) (xs : List A) (x : A) → All P xs → P x → All P (xs ++ x ∷ [])
All-snoc P xs x h k = All-append P xs (x ∷ []) h (k, tt)

module _ {U : Type 0} (updater : Updater U) (session : ℕ) where
  ask_worker-GoesOn :
      (line : Bytes) (len : ℕ) (r : Serial) (u : U) (s : Shared) (before : List Output)
      → IsSerial r
      → length line ≡ 256
      → len ≤ 256
      → All (IsAsked session) before
      → Returns (ask_worker updater session line len r u s before) (GoesOn updater session)
  unfolding ask_worker
  ask_worker-GoesOn line len r u s before h l le b = elim (Bool-cases (len == 0)) [
    | inl e ↦ rw e (h, b)
    | inr e ↦ rw e (
        Returns-bind (slice_to line len) _ (λ b. length b ≡ len) (GoesOn updater session)
          (slice-length line len (omega (arith, l, le)))
          (λ text k.
            Returns-bind (copy (replicate 256 0) 0 text) _
              (λ b. length b ≡ length (replicate {A = ℕ} 256 0)) (GoesOn updater session)
              (copy-length (replicate 256 0) 0 text
                (omega (arith, k, le, length-replicate {A = ℕ} 256 0)))
              (λ buf n. (
                h,
                All-snoc (IsAsked session) before _ b
                    (refl, n ∙ length-replicate {A = ℕ} 256 0, ground (arith, e), le),
              ))))
  ]

  run_line-GoesOn :
      (texts : Texts) (command : Option OtaCommand) (line : Bytes) (len : ℕ) (r : Serial) (u : U)
      (s : Shared)
      → IsSerial r
      → length line ≡ 256
      → len ≤ 256
      → Returns (run_line updater texts session command line len r u s) (GoesOn updater session)
  unfolding run_line start_upload boot_command
  run_line-GoesOn texts none line len r u s h l le = ask_worker-GoesOn line len r u s [] h l le tt
  run_line-GoesOn texts (some ping) line len r u s h l le = (h, (tt, tt))
  run_line-GoesOn texts (some info) line len r u s h l le = (h, (tt, tt))
  run_line-GoesOn texts (some (write size)) line len r u s h l le = ground (arith, h)
  run_line-GoesOn texts (some boot_image) line len r u s h l le = ground (arith, h)
  run_line-GoesOn texts (some abort) line len r u s h l le = ground (arith, h)
  run_line-GoesOn texts (some reboot) line len r u s h l le =
      ask_worker-GoesOn line len r u _ _ h l le (tt, tt)

  line_byte-GoesOn :
      (texts : Texts) (r : Serial) (u : U) (s : Shared) (b : ℕ)
      → IsSerial r
      → Returns (line_byte updater texts session r u s b) (GoesOn updater session)
  unfolding line_byte line_feed
  line_byte-GoesOn texts r u s b h = elim (Bool-cases (b == b'\n')) [
    | inl e ↦ rw e (elim (Bool-cases r.discard_line) [
      | inl d ↦ rw d (ground (arith, h))
      | inr d ↦ rw d (
          Returns-bind (slice_to r.line r.line_len) _ (λ b. length b ≡ r.line_len)
            (GoesOn updater session) (slice-length r.line r.line_len (omega (arith, h)))
            (λ text _.
              run_line-GoesOn texts (parse_ota_command text) r.line r.line_len _ u s
                (ground (arith, h)) h.line_cap h.line_short))
    ])
    | inr e ↦ rw e (elim (Bool-cases (b == b'\r' || r.discard_line)) [
      | inl d ↦ rw d (h, tt)
      | inr d ↦ rw d (elim (Bool-cases (r.line_len == length r.line)) [
        | inl full ↦ rw full (ground (arith, h))
        | inr room ↦ rw room (
            Returns-bind (store r.line r.line_len b) _ (λ b. length b ≡ length r.line)
              (GoesOn updater session) (store-length r.line r.line_len b (ground (arith, h, room)))
              (λ line l. ground (arith, h, l, room)))
      ])
    ])
  ]

  line_bytes-GoesOn :
      (texts : Texts) (r : Serial) (u : U) (s : Shared) (bytes : Bytes)
      → IsSerial r
      → Returns (line_bytes updater texts session r u s bytes) (GoesOn updater session)
  unfolding line_bytes
  line_bytes-GoesOn texts r u s [] h = (h, tt)
  line_bytes-GoesOn texts r u s (b ∷ bs) h =
      Returns-bind (line_byte updater texts session r u s b) _ (GoesOn updater session)
        (GoesOn updater session) (line_byte-GoesOn texts r u s b h)
        (λ o g.
          Returns-bind (line_bytes updater texts session o.0 o.1.0 o.1.1.0 bs) _
            (GoesOn updater session) (GoesOn updater session)
            (line_bytes-GoesOn texts o.0 o.1.0 o.1.1.0 bs g.0)
            (λ q k. (k.0, All-append (IsAsked session) o.1.1.1 q.1.1.1 g.1 k.1)))

  -- With a line of at most 256 bytes in its array and fewer than 4 bytes staged in an array of 68,
  -- a session handles any packet of at most 64 bytes without a panic, whatever the updater does;
  -- the same bounds hold behind it, and each request to the worker is of this session and holds a
  -- line that is not empty and fits its array.
  pub packet-GoesOn :
      (texts : Texts) (r : Serial) (u : U) (s : Shared) (bytes : Bytes)
      → IsSerial r
      → length bytes ≤ 64
      → Returns (packet updater texts session r u s bytes) (GoesOn updater session)
  unfolding packet
  packet-GoesOn texts r u s bytes h le =
      elim r.upload_active
        as (λ b.
          Returns
            (if b
              then upload_packet updater r u s bytes
              else line_bytes updater texts session r u s bytes)
            (GoesOn updater session)) [
              | true ↦ upload_packet-GoesOn updater session r u s bytes h le
              | false ↦ line_bytes-GoesOn texts r u s bytes h
            ]
