-- ===== src/Storage/Clear.antt =====
-- The profile pages behind `clear_slot` and `clear_all` of app/src/storage.rs.
use nrf52_unifying.Flash.{Nor, IsNor, page_size}
use nrf52_unifying.Prelude.{ℕ, ◌+◌, ◌%◌, ◌<◌, ◌≤◌, ◌≡◌, ◌∙◌, none, arith}
use nrf52_unifying.Storage.{
  storage_base, record_size, slots_per_page, max_profiles, page_base, decode, all_ff, load,
  clear_slot, clear_all,
}
use nrf52_unifying.Storage.Append.{erase-PageIsLog}
use nrf52_unifying.Storage.Log.{latest-AllInvalid}
use nrf52_unifying.Storage.Profiles.{storage_end, SlotIsLog, slot-IsFormat, in_range, load-latest}

module _ {F : Type 0} (nor : Nor F) {size : ℕ} (laws : IsNor nor size)
    (fits : storage_end ≤ size) where
  erased-slot :
      (f : F) (slot a b : ℕ)
      → slot < max_profiles
      → a % page_size ≡ 0
      → b % page_size ≡ 0
      → b ≤ size
      → a ≤ page_base slot
      → page_base slot + page_size ≤ b
      → (load nor (nor.erase f a b).0 slot ≡ none) × SlotIsLog nor (nor.erase f a b).0 slot
  erased-slot f slot a b h ha hb hs lo hi =
      let (log, (rs, len, held, invalid)) =
        erase-PageIsLog nor decode all_ff (page_base slot) record_size slots_per_page laws
          (slot-IsFormat nor laws fits slot h) f a b ha hb hs lo hi in
      (
        load-latest nor laws fits (nor.erase f a b).0 slot rs h len held
            ∙ latest-AllInvalid decode all_ff rs none invalid,
        log,
      )

  -- Over a NOR flash of a size that reaches the end of the storage area, a slot that is cleared
  -- has no profile, and its page is a log, whatever it was before.
  pub load-clear_slot :
      (f : F) (slot : ℕ)
      → slot < max_profiles
      → (load nor (clear_slot nor f slot) slot ≡ none) × SlotIsLog nor (clear_slot nor f slot) slot
  unfolding clear_slot page_base
  load-clear_slot f slot h = rw (in_range nor laws fits slot h) (
      erased-slot f slot (page_base slot) (page_base slot + page_size) h (omega arith) (omega arith)
        (omega arith) (omega arith) (omega arith))

  -- Over a NOR flash of a size that reaches the end of the storage area, after clear_all no slot
  -- has a profile, and every slot's page is a log.
  pub load-clear_all :
      (f : F) (slot : ℕ)
      → slot < max_profiles
      → (load nor (clear_all nor f) slot ≡ none) × SlotIsLog nor (clear_all nor f) slot
  unfolding clear_all page_base
  load-clear_all f slot h =
      erased-slot f slot storage_base storage_end h (omega arith) (omega arith) (omega arith)
        (omega arith) (omega arith)
