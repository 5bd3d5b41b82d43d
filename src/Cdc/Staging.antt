-- ===== src/Cdc/Staging.antt =====
-- The arrays of `serial_fut` of app/src/main.rs, and that a packet of an upload stays in them.
use nrf52_unifying.Cdc.{
  Serial, Output, say, ask, Outcome, aligned, write_failed, upload_done, write_rest, keep_rest,
  upload_packet,
}
use nrf52_unifying.Prelude.{
  ℕ, ◌+◌, ◌-◌, ◌≤◌, ◌<◌, ◌≡◌, length, All, length-drop, drop, replicate, leb, ltb, ◌==◌, ret,
  if◌then◌else◌, ◌∙◌, Returns, Returns-bind, Returns-weaken, arith, Bool-cases, inl, inr,
}
use nrf52_unifying.Prelude.Buffer.{copy, slice_to, copy-length, slice-length}
use nrf52_unifying.Prelude.Text.{Bytes}
use nrf52_unifying.Tasks.{cdc, Shared, Updater}

pub record IsSerial (r : Serial) : Type 0 where
  pub line_cap : length r.line ≡ 256
  pub line_short : r.line_len ≤ 256
  pub staging_cap : length r.staging ≡ 68
  pub staging_short : r.staging_len < 4

-- A request of the session holds a line that is not empty and fits its buffer.
abbrev pub IsAsked : ℕ → Output → Type 0
IsAsked session (say _) = Unit {0}
IsAsked session (ask request) =
    (request.source ≡ cdc session)
    × (length request.line ≡ 256)
    × (0 < request.len)
    × (request.len ≤ 256)

module _ {U : Type 0} (updater : Updater U) (session : ℕ) where
  -- The session goes on with its arrays, and asks only what it may.
  abbrev pub GoesOn : Outcome U → Type 0
  GoesOn (r, (u, (s, outputs))) = IsSerial r × All (IsAsked session) outputs

  write_failed-GoesOn :
      (r : Serial) (u : U) (s : Shared) → IsSerial r → GoesOn (write_failed updater r u s)
  unfolding write_failed
  write_failed-GoesOn r u s h = ground arith

  upload_done-GoesOn :
      (r : Serial) (u : U) (s : Shared) → IsSerial r → GoesOn (upload_done updater r u s)
  unfolding upload_done
  upload_done-GoesOn r u s h = ground arith

  write_rest-GoesOn :
      (r : Serial) (u : U) (s : Shared) → IsSerial r → Returns (write_rest updater r u s) GoesOn
  unfolding write_rest
  write_rest-GoesOn r u s h = elim (Bool-cases (r.staging_len == 0)) [
    | inl e ↦ rw e (upload_done-GoesOn r u s h)
    | inr e ↦ rw e (
        Returns-bind (slice_to r.staging r.staging_len) _ (λ b. length b ≡ r.staging_len) GoesOn
          (slice-length r.staging r.staging_len (omega (arith, h)))
          (λ rest l.
            Returns-bind (copy (replicate 4 0xFF) 0 rest) _
              (λ b. length b ≡ length (replicate {A = ℕ} 4 0xFF)) GoesOn
              (copy-length (replicate 4 0xFF) 0 rest (omega (arith, h, l)))
              (λ padded _. elim (Bool-cases (updater.write_firmware u r.upload_received padded).1) [
                | inl good ↦ rw good (
                    upload_done-GoesOn
                      (record r {
                        upload_received = r.upload_received + r.staging_len;
                        staging_len = 0;
                      })
                      (updater.write_firmware u r.upload_received padded).0 s (ground (arith, h)))
                | inr bad ↦ rw bad (
                    write_failed-GoesOn r (updater.write_firmware u r.upload_received padded).0 s h)
              ])))
  ]

  keep_rest-GoesOn :
      (r : Serial) (u : U) (s : Shared) (words total : ℕ)
      → IsSerial r
      → total ≤ 68
      → total - words < 4
      → Returns (keep_rest updater r u s words total) GoesOn
  unfolding keep_rest
  keep_rest-GoesOn r u s words total h le small =
      Returns-bind (slice_to r.staging total) _ (λ b. length b ≡ total) GoesOn
        (slice-length r.staging total (omega (arith, h, le)))
        (λ filled l.
          Returns-bind
            (if ltb 0 (total - words) then copy r.staging 0 (drop words filled) else ret r.staging)
            _ (λ b. length b ≡ 68) GoesOn (moved filled l)
            (λ staging k.
              elim (Bool-cases (leb r.upload_size (r.upload_received + (total - words)))) [
                | inl full ↦ rw full (
                    write_rest-GoesOn (record r { staging = staging; staging_len = total - words })
                      u s
                      (record {
                        line_cap = h.line_cap;
                        line_short = h.line_short;
                        staging_cap = k;
                        staging_short = small;
                      }))
                | inr more ↦ rw more (
                  record {
                    line_cap = h.line_cap;
                    line_short = h.line_short;
                    staging_cap = k;
                    staging_short = small;
                  },
                  tt,
                )
              ]))
    where
      moved :
          (filled : Bytes)
          → length filled ≡ total
          → Returns
              (if ltb 0 (total - words)
                then copy r.staging 0 (drop words filled)
                else ret r.staging)
              (λ b. length b ≡ 68)
      moved filled l = elim (Bool-cases (ltb 0 (total - words))) [
        | inl some_ ↦ rw some_ (
            Returns-weaken (copy r.staging 0 (drop words filled)) (λ b. length b ≡ length r.staging)
              (λ b. length b ≡ 68)
              (copy-length r.staging 0 (drop words filled)
                (omega (arith, h, l, le, length-drop words filled)))
              (λ b e. omega (arith, h, e)))
        | inr none_ ↦ rw none_ h.staging_cap
      ]

  pub upload_packet-GoesOn :
      (r : Serial) (u : U) (s : Shared) (bytes : Bytes)
      → IsSerial r
      → length bytes ≤ 64
      → Returns (upload_packet updater r u s bytes) GoesOn
  unfolding upload_packet
  upload_packet-GoesOn r u s bytes h le =
      Returns-bind (copy r.staging r.staging_len bytes) _ (λ b. length b ≡ length r.staging) GoesOn
        (copy-length r.staging r.staging_len bytes (omega (arith, h, le)))
        (λ staging l. elim (Bool-cases (ltb 0 (aligned (r.staging_len + length bytes)))) [
          | inr none_ ↦ rw none_ (
              keep_rest-GoesOn (record r { staging = staging }) u s
                (aligned (r.staging_len + length bytes)) (r.staging_len + length bytes)
                (kept staging l) (omega (arith, h, le)) (omega arith))
          | inl some_ ↦ rw some_ (
              Returns-bind (slice_to staging (aligned (r.staging_len + length bytes))) _
                (λ b. length b ≡ aligned (r.staging_len + length bytes)) GoesOn
                (slice-length staging (aligned (r.staging_len + length bytes))
                  (omega (arith, h, l, le)))
                (λ words _. elim (Bool-cases (updater.write_firmware u r.upload_received words).1) [
                  | inl good ↦ rw good (
                      keep_rest-GoesOn
                        (record r {
                          staging = staging;
                          upload_received =
                              r.upload_received + aligned (r.staging_len + length bytes);
                        })
                        (updater.write_firmware u r.upload_received words).0 s
                        (aligned (r.staging_len + length bytes)) (r.staging_len + length bytes)
                        (kept_at staging
                          (r.upload_received + aligned (r.staging_len + length bytes)) l)
                        (omega (arith, h, le)) (omega arith))
                  | inr bad ↦ rw bad (
                      write_failed-GoesOn (record r { staging = staging })
                        (updater.write_firmware u r.upload_received words).0 s (kept staging l))
                ]))
        ])
    where
      kept :
          (staging : Bytes)
          → length staging ≡ length r.staging
          → IsSerial (record r { staging = staging })
      kept staging l = record {
        line_cap = h.line_cap;
        line_short = h.line_short;
        staging_cap = l ∙ h.staging_cap;
        staging_short = h.staging_short;
      }

      kept_at :
          (staging : Bytes) (n : ℕ)
          → length staging ≡ length r.staging
          → IsSerial (record r { staging = staging; upload_received = n })
      kept_at staging n l = record {
        line_cap = h.line_cap;
        line_short = h.line_short;
        staging_cap = l ∙ h.staging_cap;
        staging_short = h.staging_short;
      }
