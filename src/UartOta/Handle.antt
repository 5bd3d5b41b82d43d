-- ===== src/UartOta/Handle.antt =====
-- `Ota::handle` of app/src/uart_ota.rs as steps of the upload.
use nrf52_unifying.Prelude.{
  ℕ, ◌+◌, ◌-◌, ◌/◌, ◌%◌, ◌≡◌, refl, ap, sym, ◌∙◌, not, ◌||◌, ◌&&◌, Option, none, some, List, [],
  ◌∷◌, arith, length, Option-cases, Bool-cases, inl, inr, ltb, ◌==◌, ==_iff,
}
use nrf52_unifying.Prelude.Text.{Bytes, codes, split, eq_bytes, eq_bytes_iff}
use nrf52_unifying.UartOta.{
  Storage, Ota, limit, crc_update, complement, hex, abort, handle_commit, commit_checked,
  commit_mark, image_crc, begin, begin_with, command, handle, no_more, err_cmd, cap, err_arg,
  err_size, err_incomplete, err_read, err_crc, err_mark,
}
use nrf52_unifying.UartOta.Image.{slice, IsStorage, image_crc-some, image_crc_keeps}
use nrf52_unifying.UartOta.Upload.{
  Image, begun, failed, committed, cancelled, Matches, Shows, Shows-keep, Outcome, refuse,
}
use nrf52_unifying.UartOta.Chunk.{handle_data-Step}

module _ {S : Type 0} (storage : Storage S) (cells : S → ℕ → ℕ) (laws : IsStorage storage cells)
    (line : Bytes) where
  begin-Step :
      (o : Ota) (s : S) (a : Option Image) (ts : List Bytes)
      → Shows o (cells s) a
      → split b' ' line ≡ codes "OTA" ∷ codes "BEGIN" ∷ ts
      → Outcome storage cells laws line a (s, begin o ts)
  unfolding begin begin_with
  begin-Step o s a [] m w = refuse storage cells laws line o s a err_arg tt m
  begin-Step o s a (t ∷ []) m w = elim (Option-cases (hex t)) [
    | inl e ↦ rw (e, begin) (refuse storage cells laws line o s a err_arg tt m)
    | inr (n, e) ↦ rw (e, begin) (refuse storage cells laws line o s a err_arg tt m)
  ]
  begin-Step o s a (t ∷ t' ∷ more) m w = elim (Option-cases (hex t)) [
    | inl e ↦ rw (e, begin) (refuse storage cells laws line o s a err_arg tt m)
    | inr (size, e) ↦
        rw (e, begin)
          (elim (Option-cases (hex t')) [
            | inl e' ↦ rw (e', begin) (refuse storage cells laws line o s a err_arg tt m)
            | inr (crc, e') ↦ rw (e', begin) (begun_with size crc more e e' w)
          ])
  ]
    where
      begun_with :
          (size crc : ℕ) (more : List Bytes)
          → hex t ≡ some size
          → hex t' ≡ some crc
          → split b' ' line ≡ codes "OTA" ∷ codes "BEGIN" ∷ t ∷ t' ∷ more
          → Outcome storage cells laws line a (s, begin_with o size crc more)
      begun_with size crc (_ ∷ _) e e' w = refuse storage cells laws line o s a err_size tt m
      begun_with size crc [] e e' w =
          elim (Bool-cases (ltb size 256 || ltb limit size || not (size % 4 == 0))) [
            | inl bad ↦ rw bad (refuse storage cells laws line o s a err_size tt m)
            | inr good ↦ rw good (
              some (record { size = size; crc = crc; accepted = [] }),
              begun a size crc (record {
                size_text = t;
                crc_text = t';
                words = w;
                size_is = e;
                crc_is = e';
                large = ground (arith, good);
                small = ground (arith, good);
                aligned = ground (arith, good);
              }),
              record {
                runs = refl;
                size_is = refl;
                crc_is = refl;
                received_is = refl;
                stored = refl;
                bounded = omega arith;
                small = ground (arith, good);
              },
            )
          ]

  commit_mark-Step :
      (o : Ota) (s : S) (u : Image)
      → Matches o (cells s) u
      → length u.accepted ≡ u.size
      → complement (crc_update (complement 0) u.accepted) ≡ u.crc
      → Outcome storage cells laws line (some u) (commit_mark storage o s)
  unfolding commit_mark abort
  commit_mark-Step o s u m l e = elim (Bool-cases (storage.commit s).1) [
    | inl good ↦ rw good (none, committed u l e, refl)
    | inr bad ↦ rw bad (none, failed u err_mark tt, refl)
  ]

  -- `COMMIT` behind its loop, with the CRC that the loop has read.
  commit_checked-Step :
      (o : Ota) (s : S) (u : Image) (c : Option ℕ)
      → Matches o (cells s) u
      → length u.accepted ≡ u.size
      → ((crc : ℕ) → c ≡ some crc → crc ≡ crc_update (complement 0) u.accepted)
      → Outcome storage cells laws line (some u) (commit_checked storage o s c)
  unfolding commit_checked abort
  commit_checked-Step o s u none m l h = (none, failed u err_read tt, refl)
  commit_checked-Step o s u (some crc) m l h =
      elim (Bool-cases (complement crc == o.expected_crc)) [
        | inr bad ↦ rw bad (none, failed u err_crc tt, refl)
        | inl good ↦ rw good (
            commit_mark-Step o s u m l (
              ap complement (sym (h crc refl))
              ∙ (==_iff (complement crc) o.expected_crc).0 good
              ∙ m.crc_is))
      ]

  handle_commit-Step :
      (o : Ota) (s : S) (a : Option Image)
      → Shows o (cells s) a
      → Outcome storage cells laws line a (handle_commit storage o s)
  unfolding handle_commit
  handle_commit-Step o s none m =
      simp m (refuse storage cells laws line o s none err_incomplete tt m)
  handle_commit-Step o s (some u) m = simp m.runs (elim (Bool-cases (o.received == o.size)) [
    | inr short ↦ rw short (refuse storage cells laws line o s (some u) err_incomplete tt m)
    | inl full ↦ rw full (
        let complete : length u.accepted ≡ u.size =
          ground (arith, full, m.received_is, m.size_is) in
        let after = image_crc storage ((o.size + 63) / 64) s o.size 0 (complement 0) in
        commit_checked-Step o after.0 u after.1
          (Shows-keep o (cells s) (cells after.0) (some u)
            (image_crc_keeps storage cells laws ((o.size + 63) / 64) s 0 (complement 0) o.size) m)
          complete
          (λ crc e.
            image_crc-some storage cells laws ((o.size + 63) / 64) s 0 (complement 0) o.size crc
              (omega arith) e
            ∙ ap (crc_update (complement 0)) (
                ap (slice (cells s) 0) {x = o.size - 0} (omega (arith, complete, m.size_is))
                ∙ m.stored)))
  ])

  command-Step :
      (o : Ota) (s : S) (a : Option Image) (ts : List Bytes)
      → Shows o (cells s) a
      → split b' ' line ≡ codes "OTA" ∷ ts
      → Outcome storage cells laws line a (command storage o s ts)
  unfolding command abort
  command-Step o s a [] m w = refuse storage cells laws line o s a err_arg tt m
  command-Step o s a (t ∷ ts) m w = elim (Bool-cases (eq_bytes t (codes "CAP") && no_more ts)) [
    | inl c ↦ rw c (refuse storage cells laws line o s a cap tt m)
    | inr c ↦ rw c (elim (Bool-cases (eq_bytes t (codes "BEGIN"))) [
      | inl b ↦ rw b (
          begin-Step o s a ts m
            (w ∙ ap (λ x. codes "OTA" ∷ x ∷ ts) ((eq_bytes_iff t (codes "BEGIN")).0 b)))
      | inr b ↦ rw b (elim (Bool-cases (eq_bytes t (codes "DATA"))) [
        | inl d ↦ rw d (
            handle_data-Step storage cells laws line o s a ts m
              (w ∙ ap (λ x. codes "OTA" ∷ x ∷ ts) ((eq_bytes_iff t (codes "DATA")).0 d)))
        | inr d ↦ rw d (elim (Bool-cases (eq_bytes t (codes "COMMIT") && no_more ts)) [
          | inl e ↦ rw e (handle_commit-Step o s a m)
          | inr e ↦ rw e (elim (Bool-cases (eq_bytes t (codes "ABORT") && no_more ts)) [
            | inl f ↦ rw f (none, cancelled a, refl)
            | inr f ↦ rw f (refuse storage cells laws line o s a err_arg tt m)
          ])
        ])
      ])
    ])
  ]

  -- Over a storage that shows what was written but may fail at any call, a line handled in a state
  -- that shows an upload is a step of that upload for that line with that reply, and the state and
  -- the storage afterwards show the upload behind the step. Only a complete image whose CRC is the
  -- announced one steps to a reboot, and a chunk is accepted only behind the bytes accepted so far
  -- or equal to them.
  pub handle-Step :
      (o : Ota) (s : S) (a : Option Image)
      → Shows o (cells s) a
      → Outcome storage cells laws line a (handle storage o s line)
  unfolding handle
  handle-Step o s a m = go (split b' ' line) refl
    where
      go :
          (ws : List Bytes)
          → split b' ' line ≡ ws
          → Outcome storage cells laws line a (handle storage o s line)
      go [] e = rw (e, handle) (refuse storage cells laws line o s a err_cmd tt m)
      go (w ∷ ts) e =
          rw (e, handle)
            (elim (Bool-cases (eq_bytes w (codes "OTA"))) [
              | inr bad ↦ rw bad (refuse storage cells laws line o s a err_cmd tt m)
              | inl good ↦ rw good (
                  command-Step o s a ts m
                    (e ∙ ap (λ x. x ∷ ts) ((eq_bytes_iff w (codes "OTA")).0 good)))
            ])
