-- ===== src/Storage/Apart.antt =====
-- `save_active_slot` of app/src/storage.rs against the profile pages.
use nrf52_unifying.Flash.{Nor, IsNor, page_size}
use nrf52_unifying.Prelude.{
  ℕ, ◌+◌, ◌*◌, ◌<◌, ◌≤◌, ◌≡◌, ◌⊎◌, inl, inr, refl, sym, ◌∙◌, false, List, arith, length, leb, ltb,
  Bool-cases,
}
use nrf52_unifying.Prelude.Text.{Bytes}
use nrf52_unifying.Storage.{
  record_size, max_profiles, active_page, active_entries, page_base, to_le_bytes, load,
  append_active, save_active_slot,
}
use nrf52_unifying.Storage.Active.{next-free_active, slot_entry, free_entry}
use nrf52_unifying.Storage.Isolation.{slot-exists, erase-Holds, load_out_of_range}
use nrf52_unifying.Storage.Log.{next_free}
use nrf52_unifying.Storage.Page.{Holds, Holds-exists, Holds-write_apart}
use nrf52_unifying.Storage.Profiles.{storage_end, next_free-le, load-latest}

module _ {F : Type 0} (nor : Nor F) {size : ℕ} (laws : IsNor nor size)
    (fits : storage_end ≤ size) where
  module _ (base w : ℕ) (rs : List Bytes) (before : base + length rs * w ≤ active_page) where
    append_active-Holds :
        (f : F) (k slot : ℕ)
        → (k < active_entries) ⊎ (k ≡ active_entries)
        → Holds nor base w f 0 rs
        → Holds nor base w (append_active nor f k (to_le_bytes slot)) 0 rs
    unfolding append_active to_le_bytes
    append_active-Holds f k slot (inl lt) held =
        let free : leb active_entries k ≡ false = ground (arith, lt) in
        rw free (
          Holds-write_apart nor base w laws f (active_page + k * 4) (to_le_bytes slot) rs 0
            (inr (omega (arith, before))) held)
    append_active-Holds f k slot (inr full) held =
        let ok =
          laws.erase_ok f active_page (active_page + page_size) refl refl (omega arith) fits in
        rw full (
          rw ok (
            Holds-write_apart nor base w laws (nor.erase f active_page (active_page + page_size)).0
              (active_page + 0 * 4) (to_le_bytes slot) rs 0 (inr (omega (arith, before)))
              (erase-Holds nor laws fits base w rs f active_page (inl before) held)))

    pub save_active-Holds :
        (f : F) (slot : ℕ)
        → slot < max_profiles
        → Holds nor base w f 0 rs
        → Holds nor base w (save_active_slot nor f slot) 0 rs
    unfolding save_active_slot
    save_active-Holds f slot h held =
        let in_range : leb max_profiles slot ≡ false = ground (arith, h) in
        let (old, len, s, there) =
          Holds-exists nor active_page 4 laws active_entries 0 f (omega arith) in
        rw in_range (
          rw (next-free_active nor laws fits f old len there) (
            append_active-Holds f (next_free slot_entry free_entry active_entries old 0) slot
              (next_free-le slot_entry free_entry old active_entries 0 (omega (arith, len))) held))

  -- Over a NOR flash of a size that reaches the end of the storage area, saving one of the slots
  -- as the active one leaves the profile that is loaded for every slot as it was, whatever the
  -- pages hold.
  pub load-save_active :
      (f : F) (slot other : ℕ)
      → slot < max_profiles
      → load nor (save_active_slot nor f slot) other ≡ load nor f other
  unfolding page_base
  load-save_active f slot other h = elim (Bool-cases (ltb other max_profiles)) [
    | inl lt ↦
        let small : other < max_profiles = ground (arith, lt) in
        let (rs, len, s, held) = slot-exists nor laws fits f other small in
        load-latest nor laws fits (save_active_slot nor f slot) other rs small len (
          save_active-Holds (page_base other) record_size rs (omega (arith, len, small)) f slot h
            held)
        ∙ sym (load-latest nor laws fits f other rs small len held)
    | inr ge ↦
        let big : max_profiles ≤ other = ground (arith, ge) in
        load_out_of_range nor laws fits (save_active_slot nor f slot) other big
        ∙ sym (load_out_of_range nor laws fits f other big)
  ]
