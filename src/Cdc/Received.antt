-- ===== src/Cdc/Received.antt =====
-- The firmware upload of `serial_fut` of app/src/main.rs: what has been received, and its end.
use nrf52_unifying.Cdc.{Serial, say, Outcome, write_failed, upload_done, write_rest}
use nrf52_unifying.Prelude.{
  ℕ, subst, append-nil, ◌+◌, ◌≤◌, ◌<◌, ◌≡◌, refl, sym, true, false, [], ◌∷◌, ◌++◌, length,
  length-zero, drop, replicate, ◌==◌, ret, Returns, arith, Bool-cases, inl, inr, append_assoc,
}
use nrf52_unifying.Prelude.Buffer.{copy, IsFilled, slice_to-IsFilled}
use nrf52_unifying.Prelude.Text.{Bytes, codes}
use nrf52_unifying.Tasks.{Shared, Updater}
use nrf52_unifying.Tasks.Worker.{dfu_store}
use nrf52_unifying.UartOta.Image.{slice, IsStorage, write-append, slice-prefix}

pad : Bytes → Bytes
pad p = drop (0 + length p) (replicate 4 0xFF)

copy-pad : (p : Bytes) → length p ≤ 4 → copy (replicate 4 0xFF) 0 p ≡ ret (p ++ pad p)
unfolding copy pad
copy-pad p h = ground arith

module _ {U : Type 0} (updater : Updater U) (cells : U → ℕ → ℕ)
    (laws : IsStorage (dfu_store updater) cells) where
  -- A write behind what is stored.
  pub write_at :
      (u : U) (n : ℕ) (xs bs : Bytes)
      → n ≡ length xs
      → slice (cells u) 0 (length xs) ≡ xs
      → (updater.write_firmware u n bs).1 ≡ true
      → slice (cells (updater.write_firmware u n bs).0) 0 (length (xs ++ bs)) ≡ xs ++ bs
  unfolding dfu_store
  write_at u n xs bs e h =
      subst
        (λ k.
          (updater.write_firmware u k bs).1 ≡ true
          → slice (cells (updater.write_firmware u k bs).0) 0 (length (xs ++ bs)) ≡ xs ++ bs)
        (sym e) (λ good. write-append (dfu_store updater) cells laws u xs bs good h)

  -- The bytes that have come since the upload was begun: whole words are stored, the rest waits.
  pub record Uploading (r : Serial) (u : U) (bytes : Bytes) : Type 0 where
    pub stored : Bytes
    pub pending : Bytes
    pub bytes_are : bytes ≡ stored ++ pending
    pub filled : IsFilled 68 r.staging r.staging_len pending
    pub short : r.staging_len < 4
    pub received_is : r.upload_received ≡ length stored
    pub in_storage : slice (cells u) 0 (length stored) ≡ stored
    pub runs : r.upload_active ≡ true
    pub unfinished : length bytes < r.upload_size

  -- A write that fails.
  pub record HasFailed : Type 0 where
    pub before : U
    pub offset : ℕ
    pub bytes : Bytes
    pub fails : (updater.write_firmware before offset bytes).1 ≡ false

  -- What a packet leads to.
  pub data Progress (size : ℕ) (bytes : Bytes) (o : Outcome U) : Type 0 where
    broken :
        HasFailed
        → o.0.upload_active ≡ false
        → o.0.image_ready ≡ false
        → o.1.1.1 ≡ say (codes "ERR WRITE\r\n") ∷ []
        → Progress size bytes o
    continued :
        Uploading o.0 o.1.0 bytes → o.0.upload_size ≡ size → o.1.1.1 ≡ [] → Progress size bytes o
    completed :
        size ≤ length bytes
        → o.0.upload_active ≡ false
        → o.0.image_ready ≡ true
        → slice (cells o.1.0) 0 (length bytes) ≡ bytes
        → o.1.1.1 ≡ say (codes "OK\r\n") ∷ []
        → Progress size bytes o

  pub write_failed-Progress :
      (r : Serial) (u : U) (s : Shared) (size : ℕ) (bytes : Bytes)
      → HasFailed
      → Progress size bytes (write_failed updater r u s)
  unfolding write_failed
  write_failed-Progress r u s size bytes h = broken h refl refl refl

  -- The end: what is pending is written with the padding behind it.
  pub write_rest-Progress :
      (r : Serial) (u : U) (s : Shared) (stored pending : Bytes)
      → IsFilled 68 r.staging r.staging_len pending
      → r.staging_len < 4
      → r.upload_received ≡ length stored
      → slice (cells u) 0 (length stored) ≡ stored
      → r.upload_size ≤ length (stored ++ pending)
      → Returns (write_rest updater r u s) (Progress r.upload_size (stored ++ pending))
  unfolding write_rest upload_done
  write_rest-Progress r u s stored pending f short received stays full =
      elim (Bool-cases (r.staging_len == 0)) [
        | inl e ↦ rw e (completed full refl refl (nothing e) refl)
        | inr e ↦ rw e (
            rw (slice_to-IsFilled f (omega (arith, short))) (
              rw (copy-pad pending (omega (arith, f.len_is, short)))
                (elim (Bool-cases
                  (updater.write_firmware u r.upload_received (pending ++ pad pending)).1) [
                    | inl good ↦ rw good (completed full refl refl (something good) refl)
                    | inr bad ↦ rw bad (
                        write_failed-Progress r
                          (updater.write_firmware u r.upload_received (pending ++ pad pending)).0 s
                          r.upload_size (stored ++ pending)
                          (record {
                            before = u;
                            offset = r.upload_received;
                            bytes = pending ++ pad pending;
                            fails = bad;
                          }))
                  ])))
      ]
    where
      nothing :
          (r.staging_len == 0) ≡ true
          → slice (cells u) 0 (length (stored ++ pending)) ≡ stored ++ pending
      nothing e =
          let empty : pending ≡ [] = length-zero pending (ground (arith, f.len_is, e)) in
          rw (empty, append-nil stored) stays

      something :
          (updater.write_firmware u r.upload_received (pending ++ pad pending)).1 ≡ true
          → slice
              (cells (updater.write_firmware u r.upload_received (pending ++ pad pending)).0)
              0
              (length (stored ++ pending))
            ≡ stored ++ pending
      something good =
          let u' = (updater.write_firmware u r.upload_received (pending ++ pad pending)).0 in
          slice-prefix (cells u') (stored ++ pending) (pad pending) (
            subst (λ (t : Bytes). slice (cells u') 0 (length t) ≡ t)
              (sym (append_assoc stored pending (pad pending)))
              (write_at u r.upload_received stored (pending ++ pad pending) received stays good))
