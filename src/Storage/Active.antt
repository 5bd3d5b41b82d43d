-- ===== src/Storage/Active.antt =====
-- `load_active_slot` and `save_active_slot` of app/src/storage.rs over a NOR flash.
use nrf52_unifying.Flash.{Nor, IsNor, IsCell, page_size}
use nrf52_unifying.Prelude.{
  ℕ, ◌+◌, ◌<◌, ◌≤◌, ◌≡◌, inl, inr, refl, ap, sym, ◌∙◌, Bool, true, false, Option, none, some, List,
  [], ◌∷◌, arith, length, replicate, if◌then◌else◌, leb, ◌==◌, Bool-cases, subst,
}
use nrf52_unifying.Prelude.Text.{Bytes}
use nrf52_unifying.Storage.{
  Profile, storage_base, max_profiles, active_page, active_entries, page_base, to_le_bytes,
  from_le_bytes, save, clear_all, load_active_loop, load_active_slot, next_active_loop,
  append_active, save_active_slot,
}
use nrf52_unifying.Storage.Append.{
  IsFormat, PageIsLog, PageEnds, append_free, append_erased, erase-PageIsLog,
}
use nrf52_unifying.Storage.Codec.{IsProfile, from_le_bytes-to_le_bytes, to_le_bytes-IsCell}
use nrf52_unifying.Storage.Isolation.{save-Holds}
use nrf52_unifying.Storage.Log.{latest, next_free, IsLog, latest-AllInvalid}
use nrf52_unifying.Storage.Page.{Holds, Sized, Holds-exists}
use nrf52_unifying.Storage.Profiles.{storage_end, next_free-le}

-- How an entry of the active-slot page is read.
unfoldable pub slot_entry : Bytes → Option ℕ
slot_entry buf = if leb max_profiles (from_le_bytes buf) then none else some (from_le_bytes buf)

unfoldable pub free_entry : Bytes → Bool
free_entry buf = from_le_bytes buf == 0xffffffff

slot_entry_big : (r : Bytes) → leb max_profiles (from_le_bytes r) ≡ true → slot_entry r ≡ none
unfolding slot_entry
slot_entry_big r h = rw h

slot_entry_small :
    (r : Bytes) → leb max_profiles (from_le_bytes r) ≡ false → slot_entry r ≡ some (from_le_bytes r)
unfolding slot_entry
slot_entry_small r h = rw h

slot_entry_encode : (slot : ℕ) → slot < max_profiles → slot_entry (to_le_bytes slot) ≡ some slot
slot_entry_encode slot h =
    let e = from_le_bytes-to_le_bytes slot (omega arith) in
    slot_entry_small (to_le_bytes slot) (rw e (ground arith)) ∙ ap some e

-- An entry of four bytes that reads 2^32 - 1 is erased.
free_entry_erased : (r : Bytes) → IsCell 4 r → free_entry r ≡ true → r ≡ replicate 4 0xff
unfolding free_entry from_le_bytes
free_entry_erased (a ∷ b ∷ c ∷ d ∷ []) cell h = ground arith
free_entry_erased _ cell h = absurd (omega (arith, cell.len))

module _ {F : Type 0} (nor : Nor F) where
  load_active_loop-latest :
      (rs : List Bytes) (f : F) (i : ℕ) (l : Option ℕ)
      → Holds nor active_page 4 f i rs
      → load_active_loop nor (length rs) f i l ≡ latest slot_entry rs l
  unfolding load_active_loop latest
  load_active_loop-latest [] f i l h = refl
  load_active_loop-latest (r ∷ rs) f i l (e, h) =
      elim (Bool-cases (leb max_profiles (from_le_bytes r))) [
        | inl big ↦ rw (e, load_active_loop) (rw big (rw (slot_entry_big r big, latest) refl))
        | inr small ↦
            rw (e, load_active_loop)
              (rw small (
                rw (slot_entry_small r small, latest)
                  (load_active_loop-latest rs f (i + 1) (some (from_le_bytes r)) h)))
      ]

  next_active_loop-free :
      (rs : List Bytes) (f : F) (i : ℕ)
      → Holds nor active_page 4 f i rs
      → next_active_loop nor (length rs) f i
        ≡ some (next_free slot_entry free_entry active_entries rs i)
  unfolding next_active_loop next_free
  next_active_loop-free [] f i h = refl
  next_active_loop-free (r ∷ rs) f i (e, h) =
      elim (Bool-cases (leb max_profiles (from_le_bytes r))) [
        | inl big ↦
            rw (e, next_active_loop)
              (rw big (rw (slot_entry_big r big, next_free) (unfold free_entry in refl)))
        | inr small ↦
            rw (e, next_active_loop)
              (rw small
                (rw (slot_entry_small r small, next_free) (next_active_loop-free rs f (i + 1) h)))
      ]

  abbrev pub ActiveIsLog : F → Type 0
  ActiveIsLog f = PageIsLog nor slot_entry free_entry active_page 4 active_entries f

  ActiveEnds : F → ℕ → Type 0
  ActiveEnds f slot = PageEnds nor slot_entry free_entry active_page 4 active_entries f slot

  module _ {size : ℕ} (laws : IsNor nor size) (fits : storage_end ≤ size) where
    pub load_active-latest :
        (f : F) (rs : List Bytes)
        → length rs ≡ active_entries
        → Holds nor active_page 4 f 0 rs
        → load_active_slot nor f ≡ latest slot_entry rs none
    unfolding load_active_slot
    load_active-latest f rs len held =
        subst (λ n. load_active_loop nor n f 0 none ≡ latest slot_entry rs none) len
          (load_active_loop-latest rs f 0 none held)

    pub next-free_active :
        (f : F) (rs : List Bytes)
        → length rs ≡ active_entries
        → Holds nor active_page 4 f 0 rs
        → next_active_loop nor active_entries f 0
          ≡ some (next_free slot_entry free_entry active_entries rs 0)
    next-free_active f rs len held =
        subst
          (λ n.
            next_active_loop nor n f 0 ≡ some (next_free slot_entry free_entry active_entries rs 0))
          len (next_active_loop-free rs f 0 held)

    active-IsFormat : IsFormat slot_entry free_entry active_page 4 active_entries size
    unfolding slot_entry free_entry from_le_bytes
    active-IsFormat = record {
      blank_erased = λ r c b. free_entry_erased r c b;
      blank_ff = refl;
      dec_ff = refl;
      aligned = λ k. omega arith;
      word = refl;
      page_aligned = refl;
      page_full = refl;
      room = omega arith;
      in_flash = omega arith;
    }

    append_active-ActiveEnds :
        (f : F) (slot : ℕ) (rs : List Bytes)
        → slot < max_profiles
        → length rs ≡ active_entries
        → Sized 4 rs
        → Holds nor active_page 4 f 0 rs
        → IsLog slot_entry free_entry rs
        → ActiveEnds
            (append_active nor f
              (next_free slot_entry free_entry active_entries rs 0)
              (to_le_bytes slot))
            slot
    unfolding ActiveEnds append_active
    append_active-ActiveEnds f slot rs h len s held log =
        elim (next_free-le slot_entry free_entry rs active_entries 0 (omega arith)) [
          | inl lt ↦ rw (below _ lt) (
              append_free nor slot_entry free_entry active_page 4 active_entries laws
                active-IsFormat (to_le_bytes slot) slot (to_le_bytes-IsCell slot)
                (slot_entry_encode slot h) f rs len s held log lt)
          | inr full ↦ rw full (
              rw erased_ok (
                append_erased nor slot_entry free_entry active_page 4 active_entries laws
                  active-IsFormat (to_le_bytes slot) slot (to_le_bytes-IsCell slot)
                  (slot_entry_encode slot h) f))
        ]
      where
        below : (k : ℕ) → k < active_entries → leb active_entries k ≡ false
        below k lt = ground arith

        erased_ok : (nor.erase f active_page (active_page + page_size)).1 ≡ true
        erased_ok =
            laws.erase_ok f active_page (active_page + page_size) refl refl (omega arith) fits

    save_active-ActiveEnds :
        (f : F) (slot : ℕ)
        → slot < max_profiles
        → ActiveIsLog f
        → ActiveEnds (save_active_slot nor f slot) slot
    unfolding save_active_slot
    save_active-ActiveEnds f slot h (rs, len, s, held, log) =
        let in_range : leb max_profiles slot ≡ false = ground arith in
        rw in_range (
          rw (next-free_active f rs len held) (append_active-ActiveEnds f slot rs h len s held log))

    -- Over a NOR flash of a size that reaches the end of the storage area, where the page of
    -- active slots is a log, a slot of the profiles that is saved as the active one is the one
    -- that is loaded, and the page is a log again.
    pub load_active-save_active :
        (f : F) (slot : ℕ)
        → slot < max_profiles
        → ActiveIsLog f
        → (load_active_slot nor (save_active_slot nor f slot) ≡ some slot)
          × ActiveIsLog (save_active_slot nor f slot)
    unfolding ActiveEnds
    load_active-save_active f slot h log =
        let (rs, len, s, held, log', ends) = save_active-ActiveEnds f slot h log in
        (
          load_active-latest (save_active_slot nor f slot) rs len held ∙ ends none,
          (rs, len, s, held, log'),
        )

    -- Over a NOR flash of a size that reaches the end of the storage area, saving a well-formed
    -- profile into one of the slots does not change the active slot that is loaded.
    pub load_active-save :
        (f : F) (slot : ℕ) (p : Profile)
        → slot < max_profiles
        → IsProfile p
        → load_active_slot nor (save nor f slot p) ≡ load_active_slot nor f
    unfolding page_base
    load_active-save f slot p h wf =
        let (rs, len, s, held) =
          Holds-exists nor active_page 4 laws active_entries 0 f (omega arith) in
        let kept =
          save-Holds nor laws fits active_page 4 rs f slot p h wf (inr (omega arith)) held in
        load_active-latest (save nor f slot p) rs len kept ∙ sym (load_active-latest f rs len held)

    -- Saving a well-formed profile into one of the slots leaves the page of active slots a log.
    pub save-ActiveIsLog :
        (f : F) (slot : ℕ) (p : Profile)
        → slot < max_profiles
        → IsProfile p
        → ActiveIsLog f
        → ActiveIsLog (save nor f slot p)
    unfolding page_base
    save-ActiveIsLog f slot p h wf (rs, len, s, held, log) = (
      rs,
      len,
      s,
      save-Holds nor laws fits active_page 4 rs f slot p h wf (inr (omega arith)) held,
      log,
    )

    -- Over a NOR flash of a size that reaches the end of the storage area, after clear_all no
    -- active slot is stored, and its page is a log.
    pub load_active-clear_all :
        (f : F) → (load_active_slot nor (clear_all nor f) ≡ none) × ActiveIsLog (clear_all nor f)
    unfolding clear_all
    load_active-clear_all f =
        let (log, (rs, len, held, invalid)) =
          erase-PageIsLog nor slot_entry free_entry active_page 4 active_entries laws
            active-IsFormat f storage_base storage_end refl refl fits (omega arith) (omega arith) in
        (
          load_active-latest (nor.erase f storage_base storage_end).0 rs len held
              ∙ latest-AllInvalid slot_entry free_entry rs none invalid,
          log,
        )
