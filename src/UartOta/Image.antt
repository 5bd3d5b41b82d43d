-- ===== src/UartOta/Image.antt =====
-- The storage behind the trait of app/src/uart_ota.rs, and the image that `COMMIT` reads from it
-- in blocks.
use nrf52_unifying.Prelude.{
  ℕ, zero, suc, ◌+◌, ◌-◌, ◌*◌, ◌≤◌, ◌<◌, ◌≡◌, refl, ap, sym, subst, ◌∙◌, true, none, some, [], ◌∷◌,
  ◌++◌, append-nil, arith, bit_xor, length, length-append, take, take_append, min, Option-cases,
  inl, inr,
}
use mathlib.Core.Option.{some-injective}
use native.Mathlib.Decide.{dec_le}
use nrf52_unifying.Prelude.Text.{Bytes}
use nrf52_unifying.UartOta.{Storage, crc_update, crc_bits, image_crc}

-- The bytes of `n` cells from `a` on.
abbrev pub slice : (ℕ → ℕ) → ℕ → ℕ → Bytes
slice cells a zero = []
slice cells a (suc n) = cells a ∷ slice cells (a + 1) n

-- What `Ota` relies on: a read that succeeds shows the cells and changes none of them, and a
-- write that succeeds sets its range and nothing before it. Either may fail at any time.
pub record IsStorage {S : Type 0} (storage : Storage S) (cells : S → ℕ → ℕ) : Type 0 where
  pub read_shows :
      (s : S) (a n : ℕ) (bs : Bytes) → (storage.read s a n).1 ≡ some bs → bs ≡ slice (cells s) a n
  pub read_keeps : (s : S) (a n b : ℕ) → cells (storage.read s a n).0 b ≡ cells s b
  pub write_sets :
      (s : S) (a : ℕ) (bs : Bytes)
      → (storage.write s a bs).1 ≡ true
      → slice (cells (storage.write s a bs).0) a (length bs) ≡ bs
  pub write_keeps :
      (s : S) (a : ℕ) (bs : Bytes) (b : ℕ)
      → (storage.write s a bs).1 ≡ true
      → b < a
      → cells (storage.write s a bs).0 b ≡ cells s b

none-some : (c : ℕ) → none ≡ some c → ⊥
none-some c h = cc

pub slice_same :
    (f g : ℕ → ℕ) (a n : ℕ) → ((b : ℕ) → a ≤ b → b < a + n → f b ≡ g b) → slice f a n ≡ slice g a n
slice_same f g a zero h = refl
slice_same f g a (suc n) h =
    rw
      (
        h a (omega arith) (omega arith),
        slice_same f g (a + 1) n (λ b k l. h b (omega (arith, k)) (omega (arith, l))),
      )
      refl

pub slice_split : (f : ℕ → ℕ) (a m n : ℕ) → slice f a (m + n) ≡ slice f a m ++ slice f (a + m) n
slice_split f a zero n = ap2 (omega arith) (omega arith)
  where
    ap2 : {m k b c : ℕ} → m ≡ k → b ≡ c → slice f b m ≡ slice f c k
    ap2 p q = rw (p, q) refl
slice_split f a (suc m) n =
    subst (λ k. slice f a k ≡ f a ∷ (slice f (a + 1) m ++ slice f (a + suc m) n)) {x = suc (m + n)}
      (omega arith)
      (ap (◌∷◌ (f a))
        (slice_split f (a + 1) m n ∙ ap (λ b. slice f (a + 1) m ++ slice f b n) (omega arith)))

-- A block and what comes behind it.
block_split :
    (f : ℕ → ℕ) (a size : ℕ)
    → slice f a (size - a) ≡ slice f a (min (size - a) 64) ++ slice f (a + 64) (size - (a + 64))
block_split f a size = elim (dec_le (a + 64) size) [
  | yes l ↦
      subst (λ n. slice f a n ≡ slice f a (min n 64) ++ slice f (a + 64) (size - (a + 64)))
        {x = 64 + (size - (a + 64))} (omega arith)
        (subst
          (λ n.
            slice f a (64 + (size - (a + 64))) ≡ slice f a n ++ slice f (a + 64) (size - (a + 64)))
          {x = 64} (omega arith) (slice_split f a 64 (size - (a + 64))))
  | no l ↦
      subst (λ n. slice f a (size - a) ≡ slice f a n ++ slice f (a + 64) (size - (a + 64)))
        {x = size - a} (omega arith)
        (subst (λ n. slice f a (size - a) ≡ slice f a (size - a) ++ slice f (a + 64) n) {x = 0}
          (omega arith) (sym (append-nil _)))
]

pub length-slice : (f : ℕ → ℕ) (a n : ℕ) → length (slice f a n) ≡ n
length-slice f a zero = refl
length-slice f a (suc n) = ap suc (length-slice f (a + 1) n)

pub crc_update-append :
    (xs ys : Bytes) (crc : ℕ) → crc_update crc (xs ++ ys) ≡ crc_update (crc_update crc xs) ys
unfolding crc_update
crc_update-append [] ys crc = refl
crc_update-append (x ∷ xs) ys crc = crc_update-append xs ys (crc_bits 8 (bit_xor crc x))

-- The first part of what is stored.
pub slice-prefix :
    (f : ℕ → ℕ) (xs ys : Bytes)
    → slice f 0 (length (xs ++ ys)) ≡ xs ++ ys
    → slice f 0 (length xs) ≡ xs
slice-prefix f xs ys h =
    sym (
      take_append (slice f 0 (length xs)) (slice f (0 + length xs) (length ys)) (length xs)
        (sym (length-slice f 0 (length xs))))
    ∙ ap (take (length xs)) (
        sym (slice_split f 0 (length xs) (length ys))
        ∙ ap (slice f 0) (sym (length-append xs ys))
        ∙ h)
    ∙ take_append xs ys (length xs) refl

module _ {S : Type 0} (storage : Storage S) (cells : S → ℕ → ℕ)
    (laws : IsStorage storage cells) where
  pub image_crc_keeps :
      (blocks : ℕ) (s : S) (offset crc size b : ℕ)
      → cells (image_crc storage blocks s size offset crc).0 b ≡ cells s b
  unfolding image_crc
  image_crc_keeps zero s offset crc size b = refl
  image_crc_keeps (suc blocks) s offset crc size b =
      elim (Option-cases (storage.read s offset (min (size - offset) 64)).1) [
        | inl e ↦ rw (e, image_crc) (laws.read_keeps s offset _ b)
        | inr (bs, e) ↦
            rw (e, image_crc)
              (image_crc_keeps blocks (storage.read s offset (min (size - offset) 64)).0
                  (offset + 64) (crc_update crc bs) size b
                ∙ laws.read_keeps s offset _ b)
      ]

  -- The blocks together are the rest of the image.
  pub image_crc-some :
      (blocks : ℕ) (s : S) (offset crc size c : ℕ)
      → size ≤ offset + 64 * blocks
      → (image_crc storage blocks s size offset crc).1 ≡ some c
      → c ≡ crc_update crc (slice (cells s) offset (size - offset))
  unfolding image_crc
  image_crc-some zero s offset crc size c l h =
      subst (λ n. c ≡ crc_update crc (slice (cells s) offset n)) {x = 0} {y = size - offset}
        (omega arith) (unfold crc_update in sym (some-injective crc c h))
  image_crc-some (suc blocks) s offset crc size c l h =
      elim (Option-cases (storage.read s offset (min (size - offset) 64)).1) [
        | inl e ↦ absurd (none-some c (rw (e, image_crc) at h))
        | inr (bs, e) ↦
            let s' = (storage.read s offset (min (size - offset) 64)).0 in
            let shown = laws.read_shows s offset (min (size - offset) 64) bs e in
            let rest =
              image_crc-some blocks s' (offset + 64) (crc_update crc bs) size c (omega (arith, l))
                (rw (e, image_crc) at h) in
            let same =
              slice_same (cells s') (cells s) (offset + 64) (size - (offset + 64))
                (λ b _ _. laws.read_keeps s offset (min (size - offset) 64) b) in
            rest
            ∙ ap (crc_update (crc_update crc bs)) same
            ∙ ap
                (λ x.
                  crc_update (crc_update crc x)
                    (slice (cells s) (offset + 64) (size - (offset + 64))))
                shown
            ∙ sym (
                crc_update-append (slice (cells s) offset (min (size - offset) 64))
                  (slice (cells s) (offset + 64) (size - (offset + 64))) crc)
            ∙ ap (crc_update crc) (sym (block_split (cells s) offset size))
      ]

  -- A write behind what is stored.
  pub write-append :
      (s : S) (xs bytes : Bytes)
      → (storage.write s (length xs) bytes).1 ≡ true
      → slice (cells s) 0 (length xs) ≡ xs
      → slice (cells (storage.write s (length xs) bytes).0) 0 (length (xs ++ bytes)) ≡ xs ++ bytes
  write-append s xs bytes good h =
      let f = cells s in
      let f' = cells (storage.write s (length xs) bytes).0 in
      ap (slice f' 0) (length-append xs bytes)
      ∙ slice_split f' 0 (length xs) (length bytes)
      ∙ ap (◌++◌ (slice f' 0 (length xs))) (
          ap (λ a. slice f' a (length bytes)) (omega arith)
          ∙ laws.write_sets s (length xs) bytes good)
      ∙ ap (λ x. x ++ bytes)
          (slice_same f' f 0 (length xs)
              (λ b _ l. laws.write_keeps s (length xs) bytes b good (omega (arith, l)))
            ∙ h)
