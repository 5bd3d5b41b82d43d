-- ===== src/Storage/Page.antt =====
-- A flash page read as the list of its records: what a write and an erase do to that list.
use nrf52_unifying.Flash.{Nor, IsNor, IsCell, Apart, page_size}
use nrf52_unifying.Prelude.{
  ℕ, zero, suc, ◌+◌, ◌*◌, ◌%◌, ◌<◌, ◌≤◌, ◌≡◌, ◌⊎◌, inl, inr, refl, ap, ◌∙◌, Bool, true, Option,
  some, List, [], ◌∷◌, arith, length, replicate, All, Option-cases, subst,
}
use nrf52_unifying.Prelude.Text.{Bytes}
use nrf52_unifying.Storage.Log.{
  append_to, next_free, blank_of_free, next_free_later, next_free_here, next_free_ge,
}

mul_mono : (a b w : ℕ) → a ≤ b → a * w ≤ b * w
mul_mono a b w h = grind arith

abbrev pub Sized : ℕ → List Bytes → Type 0
Sized w rs = All (IsCell w) rs

module _ {F : Type 0} (nor : Nor F) (base w : ℕ) where
  -- The records `i`, `i + 1`, … of the page at `base` are `rs`.
  abbrev pub Holds : F → ℕ → List Bytes → Type 0
  Holds f i [] = Unit {0}
  Holds f i (r ∷ rs) = (nor.read f (base + i * w) w ≡ some r) × Holds f (i + 1) rs

  module _ {size : ℕ} (laws : IsNor nor size) where
    pub Holds-exists :
        (n i : ℕ) (f : F)
        → base + (i + n) * w ≤ size
        → (rs : List Bytes) × (length rs ≡ n) × Sized w rs × Holds f i rs
    Holds-exists zero i f h = ([], refl, tt, tt)
    Holds-exists (suc n) i f h =
        let (r, e, l) =
          laws.read_in f (base + i * w) w
            (omega (arith, mul_mono (i + 1) (i + suc n) w (omega arith))) in
        let (rs, k, s, hs) =
          Holds-exists n (i + 1) f
            (omega (arith, mul_mono (i + 1 + n) (i + suc n) w (omega arith))) in
        (r ∷ rs, ap suc k, (l, s), (e, hs))

    pub Holds-write_apart :
        (f : F) (a : ℕ) (bs : Bytes) (rs : List Bytes) (i : ℕ)
        → (a + length bs ≤ base + i * w) ⊎ (base + (i + length rs) * w ≤ a)
        → Holds f i rs
        → Holds (nor.write f a bs).0 i rs
    Holds-write_apart f a bs [] i d h = tt
    Holds-write_apart f a bs (r ∷ rs) i d (e, h) = (
      laws.write_apart f a bs (base + i * w) w (apart d) ∙ e,
      Holds-write_apart f a bs rs (i + 1) (later d) h,
    )
      where
        apart :
            (a + length bs ≤ base + i * w) ⊎ (base + (i + suc (length rs)) * w ≤ a)
            → Apart a (length bs) (base + i * w) w
        apart (inl x) = inl x
        apart (inr x) = inr (omega (arith, mul_mono (i + 1) (i + suc (length rs)) w (omega arith)))

        later :
            (a + length bs ≤ base + i * w) ⊎ (base + (i + suc (length rs)) * w ≤ a)
            → (a + length bs ≤ base + (i + 1) * w) ⊎ (base + (i + 1 + length rs) * w ≤ a)
        later (inl x) = inl (omega arith)
        later (inr x) =
            inr (omega (arith, mul_mono (i + 1 + length rs) (i + suc (length rs)) w (omega arith)))

    pub Holds-erase_apart :
        (f : F) (a b : ℕ) (rs : List Bytes) (i : ℕ)
        → (b ≤ base + i * w) ⊎ (base + (i + length rs) * w ≤ a)
        → Holds f i rs
        → Holds (nor.erase f a b).0 i rs
    Holds-erase_apart f a b [] i d h = tt
    Holds-erase_apart f a b (r ∷ rs) i d (e, h) = (
      laws.erase_apart f a b (base + i * w) w (apart d) ∙ e,
      Holds-erase_apart f a b rs (i + 1) (later d) h,
    )
      where
        apart :
            (b ≤ base + i * w) ⊎ (base + (i + suc (length rs)) * w ≤ a)
            → (b ≤ base + i * w) ⊎ (base + i * w + w ≤ a)
        apart (inl x) = inl x
        apart (inr x) = inr (omega (arith, mul_mono (i + 1) (i + suc (length rs)) w (omega arith)))

        later :
            (b ≤ base + i * w) ⊎ (base + (i + suc (length rs)) * w ≤ a)
            → (b ≤ base + (i + 1) * w) ⊎ (base + (i + 1 + length rs) * w ≤ a)
        later (inl x) = inl (omega arith)
        later (inr x) =
            inr (omega (arith, mul_mono (i + 1 + length rs) (i + suc (length rs)) w (omega arith)))

    -- An erased page holds erased records.
    pub Holds-erased :
        (f : F) (a b n i : ℕ)
        → a % page_size ≡ 0
        → b % page_size ≡ 0
        → b ≤ size
        → a ≤ base + i * w
        → base + (i + n) * w ≤ b
        → Holds (nor.erase f a b).0 i (replicate n (replicate w 0xff))
    Holds-erased f a b zero i ha hb hs lo hi = tt
    Holds-erased f a b (suc n) i ha hb hs lo hi = (
      laws.erase_inside f a b (base + i * w) w ha hb hs lo
          (omega (arith, mul_mono (i + 1) (i + suc n) w (omega arith))),
      Holds-erased f a b n (i + 1) ha hb hs (omega arith)
          (omega (arith, mul_mono (i + 1 + n) (i + suc n) w (omega arith))),
    )

    module _ {A : Type 0} (dec : Bytes → Option A) (blank : Bytes → Bool)
        (blank_erased : (r : Bytes) → IsCell w r → blank r ≡ true → r ≡ replicate w 0xff)
        (aligned : (k : ℕ) → (base + k * w) % 4 ≡ 0) (rec : Bytes) (sized : IsCell w rec)
        (word : w % 4 ≡ 0) where
      written :
          (f : F) (i : ℕ)
          → nor.read f (base + i * w) w ≡ some (replicate w 0xff)
          → base + i * w + w ≤ size
          → nor.read (nor.write f (base + i * w) rec).0 (base + i * w) w ≡ some rec
      written f i e fits =
          subst (λ n. nor.read (nor.write f (base + i * w) rec).0 (base + i * w) n ≡ some rec)
            sized.len
            (laws.write_erased f (base + i * w) rec (aligned i) (rw sized.len word) (omega arith)
              sized.bytes (rw sized.len e))

      -- A write at the free index puts the record where the log ends.
      pub Holds-append_to :
          (f : F) (rs : List Bytes) (limit i : ℕ)
          → Holds f i rs
          → Sized w rs
          → limit ≡ i + length rs
          → base + limit * w ≤ size
          → next_free dec blank limit rs i < limit
          → Holds
              (nor.write f (base + next_free dec blank limit rs i * w) rec).0
              i
              (append_to dec rs rec)
      unfolding append_to
      Holds-append_to f [] limit i h s e fits lt = tt
      Holds-append_to f (r ∷ rs) limit i h s e fits lt = elim (Option-cases (dec r)) [
        | inl d ↦
            let erased = blank_erased r s.0 (blank_of_free dec blank r rs limit i d lt) in
            rw (next_free_here dec blank r rs limit i d lt) (
              rw (d, append_to)
                (
                  written f i (h.0 ∙ ap some erased)
                      (omega (arith, mul_mono (i + 1) limit w (omega arith))),
                  Holds-write_apart f (base + i * w) rec rs (i + 1) (inl (omega arith)) h.1,
                ))
        | inr (x, d) ↦
            let later = next_free_later dec blank r rs limit i d in
            let lt' = rw later at lt in
            let ge = next_free_ge dec blank rs limit (i + 1) lt' in
            rw later (
              rw (d, append_to)
                (
                  laws.write_apart f _ rec (base + i * w) w (
                        inr (
                          omega
                            (arith, mul_mono (i + 1) (next_free dec blank limit rs (i + 1)) w ge)))
                      ∙ h.0,
                  Holds-append_to f rs limit (i + 1) h.1 s.1 (omega arith) fits lt',
                ))
      ]
