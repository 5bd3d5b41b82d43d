-- ===== src/Cdc/Session.antt =====
-- A whole firmware upload through `serial_fut` of app/src/main.rs, from `WRITE` to its last packet.
use nrf52_unifying.Cdc.Received.{Uploading, HasFailed, Progress, broken, continued, completed}
use nrf52_unifying.Cdc.{
  Serial, say, Outcome, Texts, upload_packet, line_bytes, packet, packets, start_upload,
  active_image_limit,
}
use nrf52_unifying.Cdc.Upload.{upload_packet-Progress}
use nrf52_unifying.Prelude.{
  ℕ, ◌≤◌, ◌<◌, ◌≡◌, refl, ap, sym, subst, ◌∙◌, true, false, List, [], ◌∷◌, ◌++◌, All, length,
  length-append, append-nil, append_assoc, if◌then◌else◌, Returns, Returns-bind, arith,
}
use nrf52_unifying.Prelude.Text.{Bytes, codes, joined}
use nrf52_unifying.Tasks.{Shared, Updater}
use nrf52_unifying.Tasks.Worker.{dfu_store}
use nrf52_unifying.UartOta.Image.{slice, IsStorage}

module _ {U : Type 0} (updater : Updater U) (cells : U → ℕ → ℕ)
    (laws : IsStorage (dfu_store updater) cells)
    (works : (u : U) (a : ℕ) (bs : Bytes) → (updater.write_firmware u a bs).1 ≡ true)
    (texts : Texts) (session : ℕ) where
  -- The image is in the storage, and the host is told so.
  abbrev pub IsComplete : Bytes → Outcome U → Type 0
  IsComplete image (r, (u, (s, outputs))) =
      (r.image_ready ≡ true)
      × (r.upload_active ≡ false)
      × (slice (cells u) 0 (length image) ≡ image)
      × (outputs ≡ say (codes "OK\r\n") ∷ [])

  never_fails : HasFailed updater cells laws → ⊥
  never_fails f = let good = works f.before f.offset f.bytes in let bad = f.fails in cc

  packet_uploads :
      (r : Serial) (u : U) (s : Shared) (bytes : Bytes)
      → r.upload_active ≡ true
      → packet updater texts session r u s bytes ≡ upload_packet updater r u s bytes
  unfolding packet
  packet_uploads r u s bytes e =
      ap
        (λ b.
          if b
          then upload_packet updater r u s bytes
          else line_bytes updater texts session r u s bytes)
        e

  still_open :
      (size : ℕ) (bytes : Bytes) (o : Outcome U)
      → length bytes < size
      → Progress updater cells laws size bytes o
      → Uploading updater cells laws o.0 o.1.0 bytes × (o.0.upload_size ≡ size) × (o.1.1.1 ≡ [])
  still_open size bytes o l (broken f _ _ _) = absurd (never_fails f)
  still_open size bytes o l (continued h e n) = (h, e, n)
  still_open size bytes o l (completed full _ _ _ _) = absurd (omega arith)

  is_done :
      (size : ℕ) (bytes : Bytes) (o : Outcome U)
      → size ≤ length bytes
      → Progress updater cells laws size bytes o
      → IsComplete bytes o
  is_done size bytes o l (broken f _ _ _) = absurd (never_fails f)
  is_done size bytes o l (continued h e n) = absurd (omega (arith, h.unfinished, e))
  is_done size bytes o l (completed full a b c d) = (b, a, c, d)

  receive :
      (ps : List Bytes) (last bytes : Bytes) (r : Serial) (u : U) (s : Shared)
      → Uploading updater cells laws r u bytes
      → All (λ p. length p ≤ 64) ps
      → length last ≤ 64
      → length (bytes ++ joined ps) < r.upload_size
      → r.upload_size ≤ length ((bytes ++ joined ps) ++ last)
      → Returns
          (packets updater texts session r u s (ps ++ last ∷ []))
          (IsComplete ((bytes ++ joined ps) ++ last))
  unfolding packets
  receive [] last bytes r u s h small le open_ full =
      Returns-bind (packet updater texts session r u s last) _
        (Progress updater cells laws r.upload_size (bytes ++ last))
        (IsComplete ((bytes ++ []) ++ last))
        (rw (packet_uploads r u s last h.runs)
          (upload_packet-Progress updater cells laws r u s bytes last h le))
        (λ o p.
          let image : (bytes ++ []) ++ last ≡ bytes ++ last =
            ap (λ (t : Bytes). t ++ last) (append-nil bytes) in
          let size_le : r.upload_size ≤ length (bytes ++ last) =
            subst (λ (t : Bytes). r.upload_size ≤ length t) image full in
          let (ready, idle, stays, told) = is_done r.upload_size (bytes ++ last) o size_le p in
          (
            ready,
            idle,
            subst (λ (t : Bytes). slice (cells o.1.0) 0 (length t) ≡ t) (sym image) stays,
            append-nil o.1.1.1 ∙ told,
          ))
  receive (p ∷ ps) last bytes r u s h small le open_ full =
      let image : (bytes ++ p) ++ joined ps ≡ bytes ++ (p ++ joined ps) =
        append_assoc bytes p (joined ps) in
      let open' : length ((bytes ++ p) ++ joined ps) < r.upload_size =
        subst (λ (t : Bytes). length t < r.upload_size) (sym image) open_ in
      Returns-bind (packet updater texts session r u s p) _
        (Progress updater cells laws r.upload_size (bytes ++ p))
        (IsComplete ((bytes ++ (p ++ joined ps)) ++ last))
        (rw (packet_uploads r u s p h.runs)
          (upload_packet-Progress updater cells laws r u s bytes p h small.0))
        (λ o g.
          let (on, size_is, quiet) =
            still_open r.upload_size (bytes ++ p) o
              (omega (arith, open', length-append (bytes ++ p) (joined ps))) g in
          Returns-bind (packets updater texts session o.0 o.1.0 o.1.1.0 (ps ++ last ∷ [])) _
            (IsComplete (((bytes ++ p) ++ joined ps) ++ last))
            (IsComplete ((bytes ++ (p ++ joined ps)) ++ last))
            (receive ps last (bytes ++ p) o.0 o.1.0 o.1.1.0 on small.1 le (rw size_is open') (
              rw size_is
                (subst (λ (t : Bytes). r.upload_size ≤ length (t ++ last)) (sym image) full)))
            (λ q c. (
              c.0,
              c.1,
              subst (λ (t : Bytes). slice (cells q.1.0) 0 (length (t ++ last)) ≡ t ++ last) image
                  c.2,
              ap (λ t. t ++ q.1.1.1) quiet ∙ c.3,
            )))

  begun : Serial → ℕ → Serial
  begun r size = record r {
    upload_active = true;
    upload_size = size;
    upload_received = 0;
    staging_len = 0;
    image_ready = false;
  }

  start_upload-eq :
      (r : Serial) (u : U) (s : Shared) (size : ℕ)
      → s.uart_ota_active ≡ false
      → 0 < size
      → size ≤ active_image_limit
      → start_upload updater r u s size
        ≡ (begun r size, (u, (record s { upload_active = true }, say (codes "READY\r\n") ∷ [])))
  unfolding start_upload begun
  start_upload-eq r u s size free pos le = ground arith

  -- Over a storage that shows what was written and whose writes do not fail, while the UART
  -- uploads nothing: WRITE with a size of 1 to 480 * 1024 is answered with READY, and packets of
  -- at most 64 bytes, which reach that size with the last of them and not before, are then
  -- received without a panic, leave exactly their bytes at the start of the storage and the image
  -- ready, end the upload, and the only answer to them is OK.
  pub packets-IsComplete :
      (r : Serial) (u : U) (s : Shared) (size : ℕ) (ps : List Bytes) (last : Bytes)
      → length r.staging ≡ 68
      → s.uart_ota_active ≡ false
      → 0 < size
      → size ≤ active_image_limit
      → All (λ p. length p ≤ 64) ps
      → length last ≤ 64
      → length (joined ps) < size
      → size ≤ length (joined ps ++ last)
      → let o = start_upload updater r u s size in
        (o.1.1.1 ≡ say (codes "READY\r\n") ∷ [])
        × Returns
            (packets updater texts session o.0 o.1.0 o.1.1.0 (ps ++ last ∷ []))
            (IsComplete (joined ps ++ last))
  unfolding begun
  packets-IsComplete r u s size ps last cap free pos le small short open_ full =
      rw (start_upload-eq r u s size free pos le) (
        refl,
        receive ps last [] (begun r size) u (record s { upload_active = true })
            (record {
              stored = [];
              pending = [];
              bytes_are = refl;
              filled = record { cap_is = cap; starts = refl; len_is = refl };
              short = omega arith;
              received_is = refl;
              in_storage = refl;
              runs = refl;
              unfinished = pos;
            })
            small short open_ full,
      )
