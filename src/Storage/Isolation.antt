-- ===== src/Storage/Isolation.antt =====
-- What `save`, `clear_slot` and `clear_all` of app/src/storage.rs do to the other pages, and what
-- the erased pages hold.
use nrf52_unifying.Flash.{Nor, IsNor, page_size}
use nrf52_unifying.Prelude.{
  ℕ, ◌+◌, ◌*◌, ◌<◌, ◌≤◌, ◌≡◌, ◌≢◌, ◌⊎◌, inl, inr, sym, ◌∙◌, none, List, arith, length, ltb,
  Bool-cases,
}
use nrf52_unifying.Prelude.Text.{Bytes}
use nrf52_unifying.Storage.{
  Profile, record_size, slots_per_page, max_profiles, page_base, encode, decode, all_ff, load,
  append_record, save, clear_slot,
}
use nrf52_unifying.Storage.Codec.{IsProfile, length-encode}
use nrf52_unifying.Storage.Page.{Holds, Sized, Holds-exists, Holds-write_apart, Holds-erase_apart}
use nrf52_unifying.Storage.Profiles.{
  storage_end, next_free-le, in_range, below, erased_ok, next-free, load-latest,
}

-- The records `rs` of size `w` at `base` lie outside the page at `page`.
abbrev pub OffPage : ℕ → ℕ → List Bytes → ℕ → Type 0
OffPage base w rs page = (base + length rs * w ≤ page) ⊎ (page + page_size ≤ base)

module _ {F : Type 0} (nor : Nor F) {size : ℕ} (laws : IsNor nor size)
    (fits : storage_end ≤ size) where
  pub slot-exists :
      (f : F) (slot : ℕ)
      → slot < max_profiles
      → (rs : List Bytes) × (length rs ≡ slots_per_page)
        × Sized record_size rs
        × Holds nor (page_base slot) record_size f 0 rs
  unfolding page_base
  slot-exists f slot h =
      Holds-exists nor (page_base slot) record_size laws slots_per_page 0 f (omega arith)

  module _ (base w : ℕ) (rs : List Bytes) where
    pub erase-Holds :
        (f : F) (page : ℕ)
        → OffPage base w rs page
        → Holds nor base w f 0 rs
        → Holds nor base w (nor.erase f page (page + page_size)).0 0 rs
    erase-Holds f page off held =
        Holds-erase_apart nor base w laws f page (page + page_size) rs 0 (side off) held
      where
        side :
            OffPage base w rs page
            → (page + page_size ≤ base + 0 * w) ⊎ (base + (0 + length rs) * w ≤ page)
        side (inl a) = inr (omega arith)
        side (inr b) = inl (omega arith)

    write-Holds :
        (f : F) (page k : ℕ) (rec : Bytes)
        → k < slots_per_page
        → length rec ≡ record_size
        → OffPage base w rs page
        → Holds nor base w f 0 rs
        → Holds nor base w (nor.write f (page + k * record_size) rec).0 0 rs
    write-Holds f page k rec lt len off held =
        Holds-write_apart nor base w laws f (page + k * record_size) rec rs 0 (side off) held
      where
        side :
            OffPage base w rs page
            → (page + k * record_size + length rec ≤ base + 0 * w)
              ⊎ (base + (0 + length rs) * w ≤ page + k * record_size)
        side (inl a) = inr (omega arith)
        side (inr b) = inl (omega arith)

    append_record-Holds :
        (f : F) (slot k : ℕ) (rec : Bytes)
        → slot < max_profiles
        → (k < slots_per_page) ⊎ (k ≡ slots_per_page)
        → length rec ≡ record_size
        → OffPage base w rs (page_base slot)
        → Holds nor base w f 0 rs
        → Holds nor base w (append_record nor f (page_base slot) k rec) 0 rs
    unfolding append_record
    append_record-Holds f slot k rec h (inl lt) len off held =
        rw (below nor laws fits k lt) (write-Holds f (page_base slot) k rec lt len off held)
    append_record-Holds f slot k rec h (inr full) len off held = rw full (
        rw (erased_ok nor laws fits f slot h) (
          write-Holds (nor.erase f (page_base slot) (page_base slot + page_size)).0 (page_base slot)
            0 rec (omega arith) len off (erase-Holds f (page_base slot) off held)))

    -- `save` touches no record outside the slot's page, whatever the page holds.
    pub save-Holds :
        (f : F) (slot : ℕ) (p : Profile)
        → slot < max_profiles
        → IsProfile p
        → OffPage base w rs (page_base slot)
        → Holds nor base w f 0 rs
        → Holds nor base w (save nor f slot p) 0 rs
    unfolding save
    save-Holds f slot p h wf off held =
        let (old, len, s, there) = slot-exists f slot h in
        rw (in_range nor laws fits slot h) (
          rw (next-free nor laws fits f slot old len there) (
            append_record-Holds f slot _ (encode p) h
              (next_free-le decode all_ff old slots_per_page 0 (omega arith)) (length-encode p wf)
              off held))

    pub clear_slot-Holds :
        (f : F) (slot : ℕ)
        → slot < max_profiles
        → OffPage base w rs (page_base slot)
        → Holds nor base w f 0 rs
        → Holds nor base w (clear_slot nor f slot) 0 rs
    unfolding clear_slot
    clear_slot-Holds f slot h off held =
        rw (in_range nor laws fits slot h) (erase-Holds f (page_base slot) off held)

  pub other_slot :
      (slot other : ℕ) (rs : List Bytes)
      → length rs ≡ slots_per_page
      → slot ≢ other
      → OffPage (page_base other) record_size rs (page_base slot)
  unfolding page_base
  other_slot slot other rs len ne = elim (apart slot other ne) [
    | inl a ↦ inr (omega arith)
    | inr b ↦ inl (omega arith)
  ]
    where
      apart : (a b : ℕ) → a ≢ b → (a < b) ⊎ (b < a)
      apart a b ne = ground arith

  pub load_out_of_range : (f : F) (slot : ℕ) → max_profiles ≤ slot → load nor f slot ≡ none
  unfolding load
  load_out_of_range f slot h = ground arith

  -- Over a NOR flash of a size that reaches the end of the storage area, saving a well-formed
  -- profile into one of the slots leaves what is loaded for every other slot as it was, whatever
  -- the pages hold.
  pub load-save_other :
      (f : F) (slot other : ℕ) (p : Profile)
      → slot < max_profiles
      → IsProfile p
      → slot ≢ other
      → load nor (save nor f slot p) other ≡ load nor f other
  load-save_other f slot other p h wf ne = elim (Bool-cases (ltb other max_profiles)) [
    | inl lt ↦
        let small : other < max_profiles = ground arith in
        let (rs, len, s, held) = slot-exists f other small in
        let kept =
          save-Holds (page_base other) record_size rs f slot p h wf
            (other_slot slot other rs len ne) held in
        load-latest nor laws fits (save nor f slot p) other rs small len kept
        ∙ sym (load-latest nor laws fits f other rs small len held)
    | inr ge ↦
        let big : max_profiles ≤ other = ground arith in
        load_out_of_range (save nor f slot p) other big ∙ sym (load_out_of_range f other big)
  ]
