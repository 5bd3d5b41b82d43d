-- ===== src/UartOta/Session.antt =====
-- A whole upload through app/src/uart_ota.rs over a storage that does not fail: `BEGIN`, the chunks
-- in order, and `COMMIT`.
use nrf52_unifying.Prelude.{
  ℕ, zero, suc, ◌+◌, ◌-◌, ◌/◌, ◌%◌, ◌^◌, ◌≤◌, ◌≡◌, refl, ap, sym, subst, ◌∙◌, Bool, true, false,
  not, ◌||◌, some, List, [], ◌∷◌, ◌++◌, arith, length, length-append, leb, ltb, ◌==◌, if◌then◌else◌,
  ==_iff, min,
}
use nrf52_unifying.Prelude.Text.{Bytes, codes, split, eq_bytes}
use nrf52_unifying.UartOta.{
  Storage, Ota, limit, crc_update, complement, write_chunk, accept_chunk, chunk_with, handle_data,
  handle_commit, commit_checked, commit_mark, image_crc, begin, begin_with, command, handle,
  is_empty, vector_refused, ok, ready, reboot,
}
use nrf52_unifying.UartOta.Image.{slice, IsStorage, image_crc-some}
use nrf52_unifying.UartOta.Upload.{Image, IsChunk, IsBegin, Matches}
use nrf52_unifying.UartOta.Chunk.{appended-Matches}

-- No call of the storage fails.
pub record Works {S : Type 0} (storage : Storage S) : Type 0 where
  pub reads : (s : S) (a n : ℕ) → (bs : Bytes) × ((storage.read s a n).1 ≡ some bs)
  pub writes : (s : S) (a : ℕ) (bs : Bytes) → (storage.write s a bs).1 ≡ true
  pub commits : (s : S) → (storage.commit s).1 ≡ true

-- The payload has a length that `DATA` takes.
abbrev pub Fits : Bytes → Type 0
Fits payload =
    (is_empty payload || ltb 128 (length payload) || not (length payload % 8 == 0)) ≡ false

-- The lines carry the image from `done` on, each the chunk behind the last, the first of them with
-- a vector table that fits.
abbrev pub Carries : ℕ → Bytes → List Bytes → Bytes → Type 0
Carries size done [] image = done ≡ image
Carries size done (line ∷ lines) image =
    (chunk : Bytes) × (c : IsChunk line (length done) chunk) × Fits c.payload
    × (vector_refused size (length done) chunk ≡ false)
    × (length (done ++ chunk) ≤ size)
    × Carries size (done ++ chunk) lines image

module _ {S : Type 0} (storage : Storage S) where
  -- The lines one after the other.
  abbrev pub handle_all : Ota → S → List Bytes → S × Ota
  handle_all o s [] = (s, o)
  handle_all o s (line ∷ lines) =
      let (s', (o', _)) = handle storage o s line in handle_all o' s' lines

  if_active : {A : Type 0} {b : Bool} (x y : A) → b ≡ true → (if not b then x else y) ≡ y
  if_active {b = true} x y h = refl
  if_active {b = false} x y h = absurd (ground arith)

  -- A `DATA` line goes to `accept_chunk`.
  data_line :
      (o : Ota) (s : S) (line : Bytes) (offset : ℕ) (chunk : Bytes) (c : IsChunk line offset chunk)
      → Fits c.payload
      → o.active ≡ true
      → handle storage o s line ≡ accept_chunk storage o s offset chunk
  unfolding handle command handle_data chunk_with eq_bytes
  data_line o s line offset chunk c f a =
      rw (c.words, handle) (if_active _ _ a ∙ rw c.number (rw f (rw c.pairs refl)))

  next_chunk :
      (o : Ota) (s : S) (n : ℕ) (chunk : Bytes)
      → n ≡ o.received
      → n + length chunk ≤ o.size
      → o.size ≤ limit
      → vector_refused o.size n chunk ≡ false
      → accept_chunk storage o s n chunk ≡ write_chunk storage o s n chunk
  unfolding accept_chunk
  next_chunk o s n chunk e l b v =
      let inside : (leb (2 ^ 32) (n + length chunk) || ltb o.size (n + length chunk)) ≡ false =
        ground (arith, l, b) in
      let new : ltb n o.received ≡ false = ground (arith, e) in
      let next : (n == o.received) ≡ true = ground (arith, e) in
      rw inside (rw new (rw next (rw v refl)))

  module _ (cells : S → ℕ → ℕ) (laws : IsStorage storage cells) (works : Works storage) where
    write_works :
        (o : Ota) (s : S) (n : ℕ) (chunk : Bytes)
        → write_chunk storage o s n chunk
          ≡ ((storage.write s n chunk).0, (record o { received = o.received + length chunk }, ok))
    unfolding write_chunk
    write_works o s n chunk = rw (works.writes s n chunk) refl

    -- The chunks one after the other are the image in the storage.
    chunks-Matches :
        (o : Ota) (s : S) (u : Image) (lines : List Bytes) (image : Bytes)
        → Matches o (cells s) u
        → Carries o.size u.accepted lines image
        → Matches
            (handle_all o s lines).1
            (cells (handle_all o s lines).0)
            (record u { accepted = image })
    chunks-Matches o s u [] image m e =
        subst (λ x. Matches o (cells s) (record u { accepted = x })) e m
    chunks-Matches o s u (line ∷ lines) image m (chunk, c, f, v, l, rest) =
        let fits : length u.accepted + length chunk ≤ o.size =
          omega (arith, l, length-append u.accepted chunk) in
        let step : handle storage o s line ≡ (
          (storage.write s (length u.accepted) chunk).0,
          (record o { received = o.received + length chunk }, ok),
        ) =
          data_line o s line (length u.accepted) chunk c f m.runs
          ∙ next_chunk o s (length u.accepted) chunk (sym m.received_is) fits
              (omega (arith, m.size_is, m.small)) v
          ∙ write_works o s (length u.accepted) chunk in
        subst
          (λ r.
            Matches (handle_all r.1.0 r.0 lines).1 (cells (handle_all r.1.0 r.0 lines).0)
              (record u { accepted = image }))
          (sym step)
          (chunks-Matches (record o { received = o.received + length chunk })
            (storage.write s (length u.accepted) chunk).0
            (record u { accepted = u.accepted ++ chunk }) lines image
            (appended-Matches storage cells laws line o s u chunk m (omega (arith, fits, m.size_is))
              (works.writes s (length u.accepted) chunk))
            rest)

    begin_line :
        (o : Ota) (s : S) (line : Bytes) (size crc : ℕ)
        → IsBegin line size crc
        → handle storage o s line
          ≡ (s, (record { active = true; size = size; received = 0; expected_crc = crc }, ready))
    unfolding handle command begin begin_with eq_bytes
    begin_line o s line size crc g =
        let good : (ltb size 256 || ltb limit size || not (size % 4 == 0)) ≡ false =
          ground (arith, g.large, g.small, g.aligned) in
        rw (g.words, handle)
          (rw (g.size_is, begin) (rw (g.crc_is, begin) (rw (good, begin_with) refl)))

    image_crc_works :
        (blocks : ℕ) (s : S) (offset crc size : ℕ)
        → (c : ℕ) × ((image_crc storage blocks s size offset crc).1 ≡ some c)
    unfolding image_crc
    image_crc_works zero s offset crc size = (crc, refl)
    image_crc_works (suc blocks) s offset crc size =
        let (bs, e) = works.reads s offset (min (size - offset) 64) in
        let (c, h) =
          image_crc_works blocks (storage.read s offset (min (size - offset) 64)).0 (offset + 64)
            (crc_update crc bs) size in
        (c, rw (e, image_crc) h)

    commit_checked_works :
        (o : Ota) (s : S) (c : ℕ)
        → complement c ≡ o.expected_crc
        → (commit_checked storage o s (some c)).1.1 ≡ reboot
    unfolding commit_checked commit_mark
    commit_checked_works o s c e =
        let same : (complement c == o.expected_crc) ≡ true =
          (==_iff (complement c) o.expected_crc).1 e in
        rw same (rw (works.commits s) refl)

    -- `COMMIT` of a complete image whose CRC is the announced one.
    commit_line :
        (o : Ota) (s : S) (u : Image)
        → Matches o (cells s) u
        → length u.accepted ≡ u.size
        → complement (crc_update (complement 0) u.accepted) ≡ u.crc
        → (handle storage o s (codes "OTA COMMIT")).1.1 ≡ reboot
    unfolding handle command handle_commit split eq_bytes
    commit_line o s u m l e =
        let ready_ : (not o.active || not (o.received == o.size)) ≡ false =
          ground (arith, m.runs, m.received_is, m.size_is, l) in
        let blocks = (o.size + 63) / 64 in
        let (c, h) = image_crc_works blocks s 0 (complement 0) o.size in
        let read : c ≡ crc_update (complement 0) u.accepted =
          image_crc-some storage cells laws blocks s 0 (complement 0) o.size c (omega arith) h
          ∙ ap (crc_update (complement 0))
              (ap (slice (cells s) 0) {x = o.size - 0} (omega (arith, m.size_is, l)) ∙ m.stored) in
        rw (ready_, handle_commit)
          (rw h (
            commit_checked_works o (image_crc storage blocks s o.size 0 (complement 0)).0 c
              (ap complement read ∙ e ∙ sym m.crc_is)))

    -- Over a storage of which no call fails, in whatever state, a BEGIN line of the image's length
    -- and then lines that carry the image chunk behind chunk, the first with a vector table that
    -- fits, leave the image in the storage; and if its CRC is the announced one, COMMIT then asks
    -- for the reboot.
    pub upload_lem :
        (o : Ota) (s : S) (line : Bytes) (lines : List Bytes) (image : Bytes) (crc : ℕ)
        → IsBegin line (length image) crc
        → Carries (length image) [] lines image
        → complement (crc_update (complement 0) image) ≡ crc
        → let (s', o') = handle_all o s (line ∷ lines) in
          (slice (cells s') 0 (length image) ≡ image)
          × ((handle storage o' s' (codes "OTA COMMIT")).1.1 ≡ reboot)
    upload_lem o s line lines image crc g carries e =
        let o1 : Ota = record {
          active = true;
          size = length image;
          received = 0;
          expected_crc = crc;
        } in
        let u : Image = record { size = length image; crc = crc; accepted = [] } in
        let begun : Matches o1 (cells s) u = record {
          runs = refl;
          size_is = refl;
          crc_is = refl;
          received_is = refl;
          stored = refl;
          bounded = omega arith;
          small = g.small;
        } in
        let m = chunks-Matches o1 s u lines image begun carries in
        let (s', o') = handle_all o1 s lines in
        subst
          (λ r.
            (slice (cells (handle_all r.1.0 r.0 lines).0) 0 (length image) ≡ image)
            × ((handle storage (handle_all r.1.0 r.0 lines).1 (handle_all r.1.0 r.0 lines).0
                  (codes "OTA COMMIT")).1.1
                ≡ reboot))
          (sym (begin_line o s line (length image) crc g))
          (m.stored, commit_line o' s' (record u { accepted = image }) m refl e)
