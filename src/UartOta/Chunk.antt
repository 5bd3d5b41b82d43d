-- ===== src/UartOta/Chunk.antt =====
-- `OTA DATA` of app/src/uart_ota.rs: a chunk that is appended, repeated or refused.
use nrf52_unifying.Prelude.{
  ℕ, ◌+◌, ◌-◌, ◌^◌, ◌%◌, ◌≤◌, ◌≡◌, refl, ap, sym, subst, ◌∙◌, true, false, not, ◌||◌, Option, none,
  some, List, [], ◌∷◌, ◌++◌, arith, length, length-append, Option-cases, Bool-cases, inl, inr, leb,
  ltb, ◌==◌, ==_iff, leb→le,
}
use nrf52_unifying.Prelude.Text.{Bytes, codes, split, eq_bytes, eq_bytes_iff}
use nrf52_unifying.UartOta.{
  Storage, Ota, hex, decode_pairs, abort, retry_chunk, write_chunk, accept_chunk, chunk_with,
  handle_data, is_empty, vector_refused, err_arg, err_no_image, err_offset, ok, err_vector,
  err_write,
}
use nrf52_unifying.UartOta.Image.{write-append, slice, IsStorage, slice_split, length-slice}
use nrf52_unifying.UartOta.Upload.{
  Image, IsChunk, Step, refused, appended, repeated, failed, Matches, Shows, Shows-keep, Outcome,
  refuse,
}

three_pieces :
    (f : ℕ → ℕ) (a n k : ℕ)
    → slice f 0 (a + (n + k)) ≡ slice f 0 a ++ (slice f a n ++ slice f (a + n) k)
three_pieces f a n k =
    subst (λ z. slice f 0 (a + (n + k)) ≡ slice f 0 a ++ slice f z (n + k)) {x = 0 + a} {y = a}
      (omega arith) (slice_split f 0 a (n + k))
    ∙ ap (◌++◌ (slice f 0 a)) (slice_split f a n k)

module _ {S : Type 0} (storage : Storage S) (cells : S → ℕ → ℕ) (laws : IsStorage storage cells)
    (line : Bytes) where
  same_chunk :
      (o : Ota) (s : S) (u : Image) (offset : ℕ) (bytes : Bytes)
      → Matches o (cells s) u
      → IsChunk line offset bytes
      → offset + length bytes ≤ o.received
      → bytes ≡ slice (cells s) offset (length bytes)
      → Step line (some u) ok (some u)
  same_chunk o s u offset bytes m c l e =
      let f = cells s in
      let k = length u.accepted - (offset + length bytes) in
      repeated u (slice f 0 offset) bytes (slice f (offset + length bytes) k)
        (subst (λ n. IsChunk line n bytes) (sym (length-slice f 0 offset)) c)
        (sym m.stored
          ∙ ap (slice f 0) (omega (arith, l, m.received_is))
          ∙ three_pieces f offset (length bytes) k
          ∙ ap (λ x. slice f 0 offset ++ (x ++ slice f (offset + length bytes) k)) (sym e))

  retry_chunk-Step :
      (o : Ota) (s : S) (u : Image) (offset : ℕ) (bytes : Bytes)
      → Matches o (cells s) u
      → IsChunk line offset bytes
      → Outcome storage cells laws line (some u) (retry_chunk storage o s offset bytes)
  unfolding retry_chunk
  retry_chunk-Step o s u offset bytes m c =
      elim (Bool-cases (leb (offset + length bytes) o.received)) [
        | inr bad ↦ rw bad (refuse storage cells laws line o s (some u) err_offset tt m)
        | inl within ↦ rw within (elim (Option-cases (storage.read s offset (length bytes)).1) [
          | inl e ↦ rw e (some u, refused (some u) err_offset tt, kept)
          | inr (old, e) ↦ rw e (elim (Bool-cases (eq_bytes old bytes)) [
            | inr other ↦ rw other (some u, refused (some u) err_offset tt, kept)
            | inl same ↦ rw same (
              some u,
              same_chunk o s u offset bytes m c (leb→le _ _ within) (
                  sym ((eq_bytes_iff old bytes).0 same)
                  ∙ laws.read_shows s offset (length bytes) old e),
              kept,
            )
          ])
        ])
      ]
    where
      kept : Matches o (cells (storage.read s offset (length bytes)).0) u
      kept =
          Shows-keep o (cells s) (cells (storage.read s offset (length bytes)).0) (some u)
            (laws.read_keeps s offset (length bytes)) m

  -- What a write of the next chunk leaves.
  pub appended-Matches :
      (o : Ota) (s : S) (u : Image) (bytes : Bytes)
      → Matches o (cells s) u
      → length u.accepted + length bytes ≤ u.size
      → (storage.write s (length u.accepted) bytes).1 ≡ true
      → Matches
          (record o { received = o.received + length bytes })
          (cells (storage.write s (length u.accepted) bytes).0)
          (record u { accepted = u.accepted ++ bytes })
  appended-Matches o s u bytes m l good = record {
    runs = m.runs;
    size_is = m.size_is;
    crc_is = m.crc_is;
    small = m.small;
    received_is = omega (arith, m.received_is, length-append u.accepted bytes);
    stored = write-append storage cells laws s u.accepted bytes good m.stored;
    bounded = omega (arith, length-append u.accepted bytes, l);
  }

  write_chunk-Step :
      (o : Ota) (s : S) (u : Image) (bytes : Bytes)
      → Matches o (cells s) u
      → IsChunk line (length u.accepted) bytes
      → length u.accepted + length bytes ≤ u.size
      → Outcome storage cells laws line (some u) (write_chunk storage o s (length u.accepted) bytes)
  unfolding write_chunk abort
  write_chunk-Step o s u bytes m c l =
      elim (Bool-cases (storage.write s (length u.accepted) bytes).1) [
        | inr bad ↦ rw bad (none, failed u err_write tt, refl)
        | inl good ↦ rw good (
          some (record u { accepted = u.accepted ++ bytes }),
          appended u bytes c (omega (arith, length-append u.accepted bytes, l)),
          appended-Matches o s u bytes m l good,
        )
      ]

  accept_chunk-Step :
      (o : Ota) (s : S) (u : Image) (offset : ℕ) (bytes : Bytes)
      → Matches o (cells s) u
      → IsChunk line offset bytes
      → Outcome storage cells laws line (some u) (accept_chunk storage o s offset bytes)
  unfolding accept_chunk
  accept_chunk-Step o s u offset bytes m c =
      elim (Bool-cases
        (leb (2 ^ 32) (offset + length bytes) || ltb o.size (offset + length bytes))) [
          | inl bad ↦ rw bad (refuse storage cells laws line o s (some u) err_offset tt m)
          | inr inside ↦ rw inside (elim (Bool-cases (ltb offset o.received)) [
            | inl old ↦ rw old (retry_chunk-Step o s u offset bytes m c)
            | inr new ↦ rw new (elim (Bool-cases (offset == o.received)) [
              | inr other ↦ rw other (refuse storage cells laws line o s (some u) err_offset tt m)
              | inl next ↦ rw next (elim (Bool-cases (vector_refused o.size offset bytes)) [
                | inl bad ↦ rw bad (refuse storage cells laws line o s (some u) err_vector tt m)
                | inr good ↦ rw good (go inside ((==_iff offset o.received).0 next ∙ m.received_is))
              ])
            ])
          ])
        ]
    where
      go :
          (leb (2 ^ 32) (offset + length bytes) || ltb o.size (offset + length bytes)) ≡ false
          → offset ≡ length u.accepted
          → Outcome storage cells laws line (some u) (write_chunk storage o s offset bytes)
      go inside e =
          subst (λ n. Outcome storage cells laws line (some u) (write_chunk storage o s n bytes))
            (sym e)
            (write_chunk-Step o s u bytes m (subst (λ n. IsChunk line n bytes) e c)
              (ground (arith, e, inside, m.size_is)))

  chunk_with-Step :
      (o : Ota) (s : S) (u : Image) (offset : ℕ) (text payload : Bytes) (more : List Bytes)
      → Matches o (cells s) u
      → split b' ' line ≡ codes "OTA" ∷ codes "DATA" ∷ text ∷ payload ∷ more
      → hex text ≡ some offset
      → Outcome storage cells laws line (some u) (chunk_with storage o s offset payload more)
  unfolding chunk_with
  chunk_with-Step o s u offset text payload (_ ∷ _) m w e =
      refuse storage cells laws line o s (some u) err_arg tt m
  chunk_with-Step o s u offset text payload [] m w e =
      elim (Bool-cases
        (is_empty payload || ltb 128 (length payload) || not (length payload % 8 == 0))) [
          | inl bad ↦ rw bad (refuse storage cells laws line o s (some u) err_arg tt m)
          | inr good ↦ rw good (elim (Option-cases (decode_pairs payload)) [
            | inl d ↦ rw d (refuse storage cells laws line o s (some u) err_arg tt m)
            | inr (bytes, d) ↦ rw d (
                accept_chunk-Step o s u offset bytes m
                  (record { text = text; payload = payload; words = w; number = e; pairs = d }))
          ])
        ]

  pub handle_data-Step :
      (o : Ota) (s : S) (a : Option Image) (ts : List Bytes)
      → Shows o (cells s) a
      → split b' ' line ≡ codes "OTA" ∷ codes "DATA" ∷ ts
      → Outcome storage cells laws line a (handle_data storage o s ts)
  unfolding handle_data
  handle_data-Step o s none ts m w =
      simp m (refuse storage cells laws line o s none err_no_image tt m)
  handle_data-Step o s (some u) [] m w =
      simp m.runs (refuse storage cells laws line o s (some u) err_arg tt m)
  handle_data-Step o s (some u) (t ∷ []) m w = simp m.runs (elim (Option-cases (hex t)) [
    | inl e ↦ rw e (refuse storage cells laws line o s (some u) err_arg tt m)
    | inr (n, e) ↦ rw e (refuse storage cells laws line o s (some u) err_arg tt m)
  ])
  handle_data-Step o s (some u) (t ∷ payload ∷ more) m w =
      simp m.runs (elim (Option-cases (hex t)) [
        | inl e ↦ rw e (refuse storage cells laws line o s (some u) err_arg tt m)
        | inr (n, e) ↦ rw e (chunk_with-Step o s u n t payload more m w e)
      ])
