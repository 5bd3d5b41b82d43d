-- ===== src/Storage/Append.antt =====
-- One append to a log page of app/src/storage.rs, in place or after an erase.
use nrf52_unifying.Flash.{Nor, IsNor, IsCell, page_size}
use nrf52_unifying.Prelude.{
  ℕ, zero, suc, ◌+◌, ◌*◌, ◌%◌, ◌<◌, ◌≤◌, ◌≡◌, inl, inr, refl, ap, ◌∙◌, Bool, true, Option, none,
  some, List, [], ◌∷◌, arith, length, replicate, length-replicate, All, Option-cases,
}
use nrf52_unifying.Prelude.Text.{Bytes}
use nrf52_unifying.Storage.Log.{
  latest, append_to, next_free, IsLog, AllInvalid, AllInvalid-IsLog, latest-append_to,
  append_to-IsLog,
}
use nrf52_unifying.Storage.Page.{Holds, Sized, Holds-erased, Holds-append_to}

ff_bytes : (w : ℕ) → All (λ b. b < 256) (replicate w 0xff)
ff_bytes zero = tt
ff_bytes (suc w) = (omega arith, ff_bytes w)

length-append_to :
    {A : Type 0} (dec : Bytes → Option A) (rs : List Bytes) (rec : Bytes)
    → length (append_to dec rs rec) ≡ length rs
unfolding append_to
length-append_to dec [] rec = refl
length-append_to dec (r ∷ rs) rec = elim (Option-cases (dec r)) [
  | inl d ↦ rw (d, append_to) refl
  | inr (x, d) ↦ rw (d, append_to) (ap suc (length-append_to dec rs rec))
]

append_to-Sized :
    {A : Type 0} (dec : Bytes → Option A) (w : ℕ) (rs : List Bytes) (rec : Bytes)
    → IsCell w rec
    → Sized w rs
    → Sized w (append_to dec rs rec)
unfolding append_to
append_to-Sized dec w [] rec s h = tt
append_to-Sized dec w (r ∷ rs) rec s h = elim (Option-cases (dec r)) [
  | inl d ↦ rw (d, append_to) (s, h.1)
  | inr (x, d) ↦ rw (d, append_to) (h.0, append_to-Sized dec w rs rec s h.1)
]

-- What a log is about: how its records are read, its place in the flash, and the new record.
pub record IsFormat {A : Type 0} (dec : Bytes → Option A) (blank : Bytes → Bool) (base w n size : ℕ)
    : Type 0 where
  pub blank_erased : (r : Bytes) → IsCell w r → blank r ≡ true → r ≡ replicate w 0xff
  pub blank_ff : blank (replicate w 0xff) ≡ true
  pub dec_ff : dec (replicate w 0xff) ≡ none
  pub aligned : (k : ℕ) → (base + k * w) % 4 ≡ 0
  pub word : w % 4 ≡ 0
  pub page_aligned : base % page_size ≡ 0
  pub page_full : n * w ≡ page_size
  pub room : 0 < n
  pub in_flash : base + page_size ≤ size

module _ {F : Type 0} (nor : Nor F) {A : Type 0} (dec : Bytes → Option A) (blank : Bytes → Bool)
    (base w n : ℕ) where
  -- The page is a log.
  abbrev pub PageIsLog : F → Type 0
  PageIsLog f =
      (rs : List Bytes) × (length rs ≡ n)
      × Sized w rs
      × Holds nor base w f 0 rs
      × IsLog dec blank rs

  -- The page is a log whose last value is `v`.
  abbrev pub PageEnds : F → A → Type 0
  PageEnds f v =
      (rs : List Bytes) × (length rs ≡ n)
      × Sized w rs
      × Holds nor base w f 0 rs
      × IsLog dec blank rs
      × ((l : Option A) → latest dec rs l ≡ some v)

  module _ {size : ℕ} (laws : IsNor nor size) (format : IsFormat dec blank base w n size) where
    AllInvalid-erased : (m : ℕ) → AllInvalid dec (replicate m (replicate w 0xff))
    AllInvalid-erased zero = tt
    AllInvalid-erased (suc m) = (format.dec_ff, AllInvalid-erased m)

    Sized-erased : (m : ℕ) → Sized w (replicate m (replicate w 0xff))
    Sized-erased zero = tt
    Sized-erased (suc m) =
        (record { len = length-replicate w 0xff; bytes = ff_bytes w }, Sized-erased m)

    fits : base + (0 + n) * w ≤ size
    fits = omega (arith, format.page_full, format.in_flash)

    pub erase-PageIsLog :
        (f : F) (a b : ℕ)
        → a % page_size ≡ 0
        → b % page_size ≡ 0
        → b ≤ size
        → a ≤ base
        → base + page_size ≤ b
        → PageIsLog (nor.erase f a b).0
          × ((rs : List Bytes) × (length rs ≡ n)
              × Holds nor base w (nor.erase f a b).0 0 rs
              × AllInvalid dec rs)
    erase-PageIsLog f a b ha hb hs lo hi =
        let rs : List Bytes = replicate n (replicate w 0xff) in
        let held =
          Holds-erased nor base w laws f a b n 0 ha hb hs (omega arith)
            (omega (arith, format.page_full)) in
        let len = length-replicate n (replicate w 0xff) in
        (
          (rs, len, Sized-erased n, held, AllInvalid-IsLog dec blank rs (AllInvalid-erased n)),
          (rs, len, held, AllInvalid-erased n),
        )

    module _ (rec : Bytes) (v : A) (sized : IsCell w rec) (dec_rec : dec rec ≡ some v) where
      pub append_free :
          (f : F) (rs : List Bytes)
          → length rs ≡ n
          → Sized w rs
          → Holds nor base w f 0 rs
          → IsLog dec blank rs
          → next_free dec blank n rs 0 < n
          → PageEnds (nor.write f (base + next_free dec blank n rs 0 * w) rec).0 v
      append_free f rs len s held log lt = (
        append_to dec rs rec,
        length-append_to dec rs rec ∙ len,
        append_to-Sized dec w rs rec sized s,
        Holds-append_to nor base w laws dec blank format.blank_erased format.aligned rec sized
            format.word f rs n 0 held s (omega arith) (omega (arith, fits)) lt,
        append_to-IsLog dec blank dec_rec rs n 0 log (omega arith) lt,
        λ l. latest-append_to dec blank dec_rec rs n 0 l log (omega arith) lt,
      )

      first_free : (m : ℕ) → 0 < m → next_free dec blank n (replicate m (replicate w 0xff)) 0 ≡ 0
      unfolding next_free
      first_free zero h = absurd (omega arith)
      first_free (suc m) h = rw (format.dec_ff, format.blank_ff, next_free)

      pub append_erased :
          (f : F)
          → PageEnds (nor.write (nor.erase f base (base + page_size)).0 (base + 0 * w) rec).0 v
      unfolding next_free erase-PageIsLog
      append_erased f =
          let (rs, len, s, held, log) =
            (erase-PageIsLog f base (base + page_size) format.page_aligned
              (omega (arith, format.page_aligned)) format.in_flash (omega arith) (omega arith)).0 in
          let e = first_free n format.room in
          rw e at (
            append_free (nor.erase f base (base + page_size)).0 rs len s held log
              (rw e format.room))
