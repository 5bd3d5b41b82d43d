-- ===== src/Storage/Log.antt =====
-- Append-only logs of equal records in a flash page, as `load` and `save`, and likewise
-- `load_active_slot` and `save_active_slot`, read and write them (app/src/storage.rs).
use nrf52_unifying.Prelude.{
  ℕ, ◌+◌, ◌<◌, ◌≤◌, ◌≡◌, inl, inr, refl, Bool, true, Option, none, some, List, [], ◌∷◌, arith,
  length, All, if◌then◌else◌, Option-cases, Bool-cases,
}
use nrf52_unifying.Prelude.Text.{Bytes}

-- The records of a page, whatever `dec` makes of them.
module _ {A : Type 0} (dec : Bytes → Option A) where
  -- The value of the last record in front of the first that is not valid.
  unfoldable pub latest : List Bytes → Option A → Option A
  latest [] l = l
  latest (r ∷ rs) l = elim (dec r) [ none ↦ l | some v ↦ latest rs (some v) ]

  -- `rec` in place of the first record that is not valid.
  unfoldable pub append_to : List Bytes → Bytes → List Bytes
  append_to [] rec = []
  append_to (r ∷ rs) rec = elim (dec r) [ none ↦ rec ∷ rs | some v ↦ r ∷ append_to rs rec ]

  abbrev pub AllInvalid : List Bytes → Type 0
  AllInvalid rs = All (λ r. dec r ≡ none) rs

  module _ (blank : Bytes → Bool) where
    -- The index of the first record that is not valid if it is blank, else `limit`.
    unfoldable pub next_free : ℕ → List Bytes → ℕ → ℕ
    next_free limit [] i = limit
    next_free limit (r ∷ rs) i = elim (dec r) [
      | none ↦ if blank r then i else limit
      | some v ↦ next_free limit rs (i + 1)
    ]

    abbrev LogStep : Option A → Bool → Type 0 → Type 0 → Type 0
    LogStep none b invalid later = b ≡ true → invalid
    LogStep (some v) b invalid later = later

    -- Behind a blank first free record there is no valid one.
    abbrev pub IsLog : List Bytes → Type 0
    IsLog [] = Unit {0}
    IsLog (r ∷ rs) = LogStep (dec r) (blank r) (AllInvalid rs) (IsLog rs)

    pub AllInvalid-IsLog : (rs : List Bytes) → AllInvalid rs → IsLog rs
    AllInvalid-IsLog [] h = tt
    AllInvalid-IsLog (r ∷ rs) h = rw h.0 (λ b. h.1)

    pub latest-AllInvalid : (rs : List Bytes) (l : Option A) → AllInvalid rs → latest rs l ≡ l
    unfolding latest
    latest-AllInvalid [] l h = refl
    latest-AllInvalid (r ∷ rs) l h = rw (h.0, latest)

    pub blank_of_free :
        (r : Bytes) (rs : List Bytes) (limit i : ℕ)
        → dec r ≡ none
        → next_free limit (r ∷ rs) i < limit
        → blank r ≡ true
    unfolding next_free
    blank_of_free r rs limit i d lt = elim (Bool-cases (blank r)) [
      | inl b ↦ b
      | inr b ↦ absurd (omega (arith, (rw (d, b, next_free) at lt)))
    ]

    pub next_free_later :
        (r : Bytes) (rs : List Bytes) (limit i : ℕ) {x : A}
        → dec r ≡ some x
        → next_free limit (r ∷ rs) i ≡ next_free limit rs (i + 1)
    unfolding next_free
    next_free_later r rs limit i d = rw (d, next_free)

    pub next_free_here :
        (r : Bytes) (rs : List Bytes) (limit i : ℕ)
        → dec r ≡ none
        → next_free limit (r ∷ rs) i < limit
        → next_free limit (r ∷ rs) i ≡ i
    unfolding next_free
    next_free_here r rs limit i d lt = rw (d, blank_of_free r rs limit i d lt, next_free)

    pub next_free_ge :
        (rs : List Bytes) (limit i : ℕ) → next_free limit rs i < limit → i ≤ next_free limit rs i
    unfolding next_free
    next_free_ge [] limit i lt = absurd (omega arith)
    next_free_ge (r ∷ rs) limit i lt = elim (Option-cases (dec r)) [
      | inl d ↦ omega (arith, next_free_here r rs limit i d lt)
      | inr (x, d) ↦
          let e = next_free_later r rs limit i d in
          let later = next_free_ge rs limit (i + 1) (rw e at lt) in omega arith
    ]

    module _ {rec : Bytes} {v : A} (dec_rec : dec rec ≡ some v) where
      -- An append to a log is what is read next.
      pub latest-append_to :
          (rs : List Bytes) (limit i : ℕ) (l : Option A)
          → IsLog rs
          → limit ≡ i + length rs
          → next_free limit rs i < limit
          → latest (append_to rs rec) l ≡ some v
      unfolding latest append_to next_free
      latest-append_to [] limit i l h e lt = absurd (omega arith)
      latest-append_to (r ∷ rs) limit i l h e lt = elim (Option-cases (dec r)) [
        | inl d ↦
            rw (d, append_to)
              (rw (dec_rec, latest)
                (latest-AllInvalid rs (some v) ((rw d at h) (blank_of_free r rs limit i d lt))))
        | inr (x, d) ↦
            rw (d, append_to)
              (rw (d, latest)
                (latest-append_to rs limit (i + 1) (some x) (rw d at h) (omega arith)
                  (rw (next_free_later r rs limit i d) at lt)))
      ]

      -- The page is still a log.
      pub append_to-IsLog :
          (rs : List Bytes) (limit i : ℕ)
          → IsLog rs
          → limit ≡ i + length rs
          → next_free limit rs i < limit
          → IsLog (append_to rs rec)
      unfolding append_to next_free
      append_to-IsLog [] limit i h e lt = tt
      append_to-IsLog (r ∷ rs) limit i h e lt = elim (Option-cases (dec r)) [
        | inl d ↦
            rw (d, append_to)
              (rw dec_rec (AllInvalid-IsLog rs ((rw d at h) (blank_of_free r rs limit i d lt))))
        | inr (x, d) ↦
            rw (d, append_to)
              (rw d (
                append_to-IsLog rs limit (i + 1) (rw d at h) (omega arith)
                  (rw (next_free_later r rs limit i d) at lt)))
      ]
