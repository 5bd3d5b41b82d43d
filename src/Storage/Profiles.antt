-- ===== src/Storage/Profiles.antt =====
-- `load`, `save`, `clear_slot` and `clear_all` of app/src/storage.rs over a NOR flash.
use nrf52_unifying.Flash.{Nor, IsNor, page_size}
use nrf52_unifying.Prelude.{
  ℕ, ◌+◌, ◌<◌, ◌≤◌, ◌≡◌, ◌⊎◌, inl, inr, refl, ◌∙◌, Bool, true, false, Option, none, some, List, [],
  ◌∷◌, arith, length, replicate, if◌then◌else◌, leb, Option-cases, subst,
}
use nrf52_unifying.Prelude.Text.{Bytes}
use nrf52_unifying.Storage.{
  Profile, record_size, slots_per_page, max_profiles, active_page, page_base, encode, decode,
  all_ff, load_loop, load, next_loop, append_record, save,
}
use nrf52_unifying.Storage.Append.{IsFormat, PageIsLog, PageEnds, append_free, append_erased}
use nrf52_unifying.Storage.Codec.{
  IsProfile, decode-encode, encode-IsCell, decode_blank, all_ff-replicate, all_ff-blank,
}
use nrf52_unifying.Storage.Log.{latest, next_free, IsLog}
use nrf52_unifying.Storage.Page.{Holds, Sized}

-- The end of the pages that the module uses: four profile pages and the active-slot page.
abbrev pub storage_end : ℕ
storage_end = active_page + page_size

pub next_free-le :
    {A : Type 0} (dec : Bytes → Option A) (blank : Bytes → Bool) (rs : List Bytes) (limit i : ℕ)
    → limit ≡ i + length rs
    → (next_free dec blank limit rs i < limit) ⊎ (next_free dec blank limit rs i ≡ limit)
unfolding next_free
next_free-le dec blank [] limit i e = inr refl
next_free-le dec blank (r ∷ rs) limit i e = elim (Option-cases (dec r)) [
  | inl d ↦ rw (d, next_free) (either (blank r))
  | inr (x, d) ↦ rw (d, next_free) (next_free-le dec blank rs limit (i + 1) (omega arith))
]
  where
    either : (b : Bool) → ((if b then i else limit) < limit) ⊎ ((if b then i else limit) ≡ limit)
    either true = inl (omega arith)
    either false = inr refl

module _ {F : Type 0} (nor : Nor F) where
  pub load_loop-latest :
      (rs : List Bytes) (f : F) (base i : ℕ) (l : Option Profile)
      → Holds nor base record_size f i rs
      → load_loop nor (length rs) f base i l ≡ latest decode rs l
  unfolding load_loop latest
  load_loop-latest [] f base i l h = refl
  load_loop-latest (r ∷ rs) f base i l (e, h) = elim (Option-cases (decode r)) [
    | inl d ↦ rw (e, load_loop) (rw (d, latest) refl)
    | inr (p, d) ↦
        rw (e, load_loop) (rw (d, latest) (load_loop-latest rs f base (i + 1) (some p) h))
  ]

  next_loop-free :
      (rs : List Bytes) (f : F) (base i : ℕ)
      → Holds nor base record_size f i rs
      → next_loop nor (length rs) f base i ≡ some (next_free decode all_ff slots_per_page rs i)
  unfolding next_loop next_free
  next_loop-free [] f base i h = refl
  next_loop-free (r ∷ rs) f base i (e, h) = elim (Option-cases (decode r)) [
    | inl d ↦ rw (e, next_loop) (rw (d, next_free) refl)
    | inr (p, d) ↦ rw (e, next_loop) (rw (d, next_free) (next_loop-free rs f base (i + 1) h))
  ]

  -- The page of `slot` is a log of profiles.
  abbrev pub SlotIsLog : F → ℕ → Type 0
  SlotIsLog f slot = PageIsLog nor decode all_ff (page_base slot) record_size slots_per_page f

  SlotEnds : F → ℕ → Profile → Type 0
  SlotEnds f slot p = PageEnds nor decode all_ff (page_base slot) record_size slots_per_page f p

  module _ {size : ℕ} (laws : IsNor nor size) (fits : storage_end ≤ size) where
    pub slot-IsFormat :
        (slot : ℕ)
        → slot < max_profiles
        → IsFormat decode all_ff (page_base slot) record_size slots_per_page size
    unfolding page_base
    slot-IsFormat slot h = record {
      blank_erased = λ r c b. subst (λ n. r ≡ replicate n 0xff) c.len (all_ff-blank r b);
      blank_ff = all_ff-replicate record_size;
      dec_ff = decode_blank;
      aligned = λ k. omega arith;
      word = refl;
      page_aligned = omega arith;
      page_full = refl;
      room = omega arith;
      in_flash = omega arith;
    }

    pub in_range : (slot : ℕ) → slot < max_profiles → leb max_profiles slot ≡ false
    in_range slot h = ground arith

    pub below : (k : ℕ) → k < slots_per_page → leb slots_per_page k ≡ false
    below k h = ground arith

    pub erased_ok :
        (f : F) (slot : ℕ)
        → slot < max_profiles
        → (nor.erase f (page_base slot) (page_base slot + page_size)).1 ≡ true
    unfolding page_base
    erased_ok f slot h =
        laws.erase_ok f (page_base slot) (page_base slot + page_size) (omega arith) (omega arith)
          (omega arith) (omega arith)

    pub load-latest :
        (f : F) (slot : ℕ) (rs : List Bytes)
        → slot < max_profiles
        → length rs ≡ slots_per_page
        → Holds nor (page_base slot) record_size f 0 rs
        → load nor f slot ≡ latest decode rs none
    unfolding load
    load-latest f slot rs h len held = rw (in_range slot h) (
        subst (λ n. load_loop nor n f (page_base slot) 0 none ≡ latest decode rs none) len
          (load_loop-latest rs f (page_base slot) 0 none held))

    pub next-free :
        (f : F) (slot : ℕ) (rs : List Bytes)
        → length rs ≡ slots_per_page
        → Holds nor (page_base slot) record_size f 0 rs
        → next_loop nor slots_per_page f (page_base slot) 0
          ≡ some (next_free decode all_ff slots_per_page rs 0)
    next-free f slot rs len held =
        subst
          (λ n.
            next_loop nor n f (page_base slot) 0
            ≡ some (next_free decode all_ff slots_per_page rs 0))
          len (next_loop-free rs f (page_base slot) 0 held)

    append_record-SlotEnds :
        (f : F) (slot : ℕ) (p : Profile) (rs : List Bytes)
        → slot < max_profiles
        → IsProfile p
        → length rs ≡ slots_per_page
        → Sized record_size rs
        → Holds nor (page_base slot) record_size f 0 rs
        → IsLog decode all_ff rs
        → SlotEnds
            (append_record nor f
              (page_base slot)
              (next_free decode all_ff slots_per_page rs 0)
              (encode p))
            slot
            p
    unfolding SlotEnds append_record
    append_record-SlotEnds f slot p rs h wf len s held log =
        elim (next_free-le decode all_ff rs slots_per_page 0 (omega arith)) [
          | inl lt ↦ rw (below _ lt) (
              append_free nor decode all_ff (page_base slot) record_size slots_per_page laws
                (slot-IsFormat slot h) (encode p) p (encode-IsCell p wf) (decode-encode p wf) f rs
                len s held log lt)
          | inr full ↦ rw (full) (
              rw (erased_ok f slot h) (
                append_erased nor decode all_ff (page_base slot) record_size slots_per_page laws
                  (slot-IsFormat slot h) (encode p) p (encode-IsCell p wf) (decode-encode p wf) f))
        ]

    save-SlotEnds :
        (f : F) (slot : ℕ) (p : Profile)
        → slot < max_profiles
        → IsProfile p
        → SlotIsLog f slot
        → SlotEnds (save nor f slot p) slot p
    unfolding save
    save-SlotEnds f slot p h wf (rs, len, s, held, log) =
        rw (in_range slot h) (
          rw (next-free f slot rs len held)
            (append_record-SlotEnds f slot p rs h wf len s held log))

    -- Over a NOR flash of a size that reaches the end of the storage area, for one of the slots
    -- whose page is a log of records with blanks behind them, a well-formed profile that is saved
    -- is the one that is loaded, also where the page is full and is erased first.
    pub load-save :
        (f : F) (slot : ℕ) (p : Profile)
        → slot < max_profiles
        → IsProfile p
        → SlotIsLog f slot
        → load nor (save nor f slot p) slot ≡ some p
    unfolding SlotEnds
    load-save f slot p h wf log =
        let (rs, len, s, held, log', ends) = save-SlotEnds f slot p h wf log in
        load-latest (save nor f slot p) slot rs h len held ∙ ends none

    -- Over a NOR flash of a size that reaches the end of the storage area, saving a well-formed
    -- profile into a slot whose page is a log leaves its page a log.
    pub save-SlotIsLog :
        (f : F) (slot : ℕ) (p : Profile)
        → slot < max_profiles
        → IsProfile p
        → SlotIsLog f slot
        → SlotIsLog (save nor f slot p) slot
    unfolding SlotEnds
    save-SlotIsLog f slot p h wf log =
        let (rs, len, s, held, log', ends) = save-SlotEnds f slot p h wf log in
        (rs, len, s, held, log')
