-- ===== src/Cdc/Upload.antt =====
-- The packets of the firmware upload of `serial_fut` of app/src/main.rs.
use nrf52_unifying.Cdc.{Serial, aligned, keep_rest, upload_packet}
use nrf52_unifying.Prelude.{
  ℕ, zero, suc, subst, ◌+◌, ◌-◌, ◌≤◌, ◌<◌, ◌≡◌, refl, ap, sym, ◌∙◌, true, [], ◌∷◌, ◌++◌, length,
  length-append, length-take, length-drop, length-zero, take, drop, take-append-drop, leb, ltb,
  if◌then◌else◌, ret, Returns, arith, Bool-cases, inl, inr, append_assoc,
}
use nrf52_unifying.Prelude.Buffer.{copy, slice_to, IsFilled, copy-IsFilled, slice_to-IsFilled}
use nrf52_unifying.Prelude.Text.{Bytes}
use nrf52_unifying.Tasks.{Shared, Updater}
use nrf52_unifying.Tasks.Worker.{dfu_store}
use nrf52_unifying.UartOta.Image.{slice, IsStorage}
use nrf52_unifying.Cdc.Received.{
  Uploading, Progress, continued, write_at, write_failed-Progress, write_rest-Progress,
}

-- A prefix of what a buffer is filled with.
slice_to_prefix :
    {cap n : ℕ} {buf text : Bytes} (m : ℕ)
    → IsFilled cap buf n text
    → n ≤ cap
    → m ≤ n
    → slice_to buf m ≡ ret (take m text)
unfolding slice_to
slice_to_prefix {cap} {n} {buf} {text} m f le lt =
    ground (arith, f.cap_is, ap (take m) f.starts, take-take m n buf)
  where
    take-take : (m n : ℕ) (xs : Bytes) → m ≤ n → take m (take n xs) ≡ take m xs
    take-take zero n xs h = refl
    take-take (suc m) zero xs h = absurd (omega arith)
    take-take (suc m) (suc n) [] h = refl
    take-take (suc m) (suc n) (x ∷ xs) h = ap (◌∷◌ x) (take-take m n xs (omega arith))

module _ {U : Type 0} (updater : Updater U) (cells : U → ℕ → ℕ)
    (laws : IsStorage (dfu_store updater) cells) where
  -- What is left of the bytes in the array goes to its front.
  moved :
      (staging : Bytes) (words total : ℕ) (text : Bytes)
      → IsFilled 68 staging total text
      → total ≤ 68
      → (staging' : Bytes) × ((if ltb 0 (total - words)
            then copy staging 0 (drop words text)
            else ret staging)
          ≡ ret staging')
        × IsFilled 68 staging' (total - words) (drop words text)
  moved staging words total text f le = elim (Bool-cases (ltb 0 (total - words))) [
    | inl more ↦
        let (buf, e, g) =
          copy-IsFilled {cap = 68} {n = 0} {buf = staging} {text = []} (drop words text)
            (record { cap_is = f.cap_is; starts = refl; len_is = refl })
            (omega (arith, length-drop words text, f.len_is, le)) in
        (
          buf,
          rw more e,
          record {
            cap_is = g.cap_is;
            starts =
                ap (λ n. take n buf) {x = total - words} {y = 0 + length (drop words text)}
                  (omega (arith, length-drop words text, f.len_is))
                ∙ g.starts;
            len_is = omega (arith, length-drop words text, f.len_is);
          },
        )
    | inr none_ ↦
        let nothing : drop words text ≡ [] =
          length-zero (drop words text) (ground (arith, length-drop words text, f.len_is, none_)) in
        let zero_ : total - words ≡ 0 = ground (arith, none_) in
        (
          staging,
          rw none_ refl,
          record {
            cap_is = f.cap_is;
            starts = ap (λ n. take n staging) zero_ ∙ sym nothing;
            len_is = ap length nothing ∙ sym zero_;
          },
        )
  ]

  keep_rest-Progress :
      (r : Serial) (u : U) (s : Shared) (words total : ℕ) (stored text : Bytes)
      → r.upload_active ≡ true
      → IsFilled 68 r.staging total text
      → total ≤ 68
      → total - words < 4
      → r.upload_received ≡ length stored
      → slice (cells u) 0 (length stored) ≡ stored
      → Returns
          (keep_rest updater r u s words total)
          ((Progress updater cells laws) r.upload_size (stored ++ drop words text))
  unfolding keep_rest
  keep_rest-Progress r u s words total stored text active f le short received stays =
      let (staging, e, g) = moved r.staging words total text f le in
      rw (slice_to-IsFilled f le) (
        rw e (elim (Bool-cases (leb r.upload_size (r.upload_received + (total - words)))) [
          | inl full ↦ rw full (
              write_rest-Progress updater cells laws
                (record r { staging = staging; staging_len = total - words }) u s stored
                (drop words text) g short received stays
                (ground (arith, full, received, g.len_is, length-append stored (drop words text))))
          | inr more ↦ rw more (
              continued
                (record {
                  stored = stored;
                  pending = drop words text;
                  bytes_are = refl;
                  filled = g;
                  short = short;
                  received_is = received;
                  in_storage = stays;
                  runs = active;
                  unfinished =
                      ground
                        (arith, more, received, g.len_is, length-append stored (drop words text));
                })
                refl refl)
        ]))

  -- Over a storage that shows what was written, an upload that is active, is not complete, and has
  -- its first bytes in the storage and the last few in the staging array takes a packet of at most
  -- 64 bytes without a panic: it goes on as one that has received the packet too and answers
  -- nothing; or it is complete, with all bytes in the storage, and answers OK; or a write has
  -- failed, and it ends with no image ready and answers ERR WRITE.
  pub upload_packet-Progress :
      (r : Serial) (u : U) (s : Shared) (bytes packet : Bytes)
      → (Uploading updater cells laws) r u bytes
      → length packet ≤ 64
      → Returns
          (upload_packet updater r u s packet)
          ((Progress updater cells laws) r.upload_size (bytes ++ packet))
  unfolding upload_packet
  upload_packet-Progress r u s bytes packet h le =
      let (staging, e, g) = copy-IsFilled packet h.filled (omega (arith, h.short, le)) in
      let total = r.staging_len + length packet in
      let text = h.pending ++ packet in
      let fits : total ≤ 68 = omega (arith, h.short, le) in
      rw e (elim (Bool-cases (ltb 0 (aligned total))) [
        | inr none_ ↦ rw none_ (
            subst
              (λ t.
                Returns
                  (keep_rest updater (record r { staging = staging }) u s (aligned total) total)
                  ((Progress updater cells laws) r.upload_size t))
              (whole (aligned total)
                (ap (λ n. drop n text) {x = aligned total} {y = 0} (ground (arith, none_))))
              (keep_rest-Progress (record r { staging = staging }) u s (aligned total) total
                h.stored text h.runs g fits (omega arith) h.received_is h.in_storage))
        | inl some_ ↦ rw some_ (
            rw (slice_to_prefix (aligned total) g fits (omega arith))
              (elim (Bool-cases
                (updater.write_firmware u r.upload_received (take (aligned total) text)).1) [
                  | inr bad ↦ rw bad (
                      write_failed-Progress updater cells laws (record r { staging = staging })
                        (updater.write_firmware u r.upload_received (take (aligned total) text)).0 s
                        r.upload_size (bytes ++ packet)
                        (record {
                          before = u;
                          offset = r.upload_received;
                          bytes = take (aligned total) text;
                          fails = bad;
                        }))
                  | inl good ↦ rw good (words_written staging g fits good)
                ]))
      ])
    where
      text : Bytes
      text = h.pending ++ packet

      total : ℕ
      total = r.staging_len + length packet

      words : Bytes
      words = take (aligned total) text

      joined_up : h.stored ++ text ≡ bytes ++ packet
      joined_up =
          sym (append_assoc h.stored h.pending packet)
          ∙ ap (λ (t : Bytes). t ++ packet) (sym h.bytes_are)

      whole : (n : ℕ) → drop n text ≡ text → h.stored ++ drop n text ≡ bytes ++ packet
      whole n k = ap (λ (t : Bytes). h.stored ++ t) k ∙ joined_up

      words_written :
          (staging : Bytes)
          → IsFilled 68 staging total text
          → total ≤ 68
          → (updater.write_firmware u r.upload_received words).1 ≡ true
          → Returns
              (keep_rest updater
                (record r {
                  staging = staging;
                  upload_received = r.upload_received + aligned total;
                })
                (updater.write_firmware u r.upload_received words).0
                s
                (aligned total)
                total)
              ((Progress updater cells laws) r.upload_size (bytes ++ packet))
      words_written staging g fits good =
          let r' : Serial = record r {
            staging = staging;
            upload_received = r.upload_received + aligned total;
          } in
          let u' = (updater.write_firmware u r.upload_received words).0 in
          subst
            (λ t.
              Returns (keep_rest updater r' u' s (aligned total) total)
                ((Progress updater cells laws) r.upload_size t))
            (append_assoc h.stored words (drop (aligned total) text)
              ∙ ap (λ (t : Bytes). h.stored ++ t) (take-append-drop (aligned total) text)
              ∙ joined_up)
            (keep_rest-Progress r' u' s (aligned total) total (h.stored ++ words) text h.runs g fits
              (omega arith)
              (omega (
                arith,
                h.received_is,
                g.len_is,
                length-append h.stored words,
                length-take (aligned total) text,
              ))
              (write_at updater cells laws u r.upload_received h.stored words h.received_is
                h.in_storage good))
