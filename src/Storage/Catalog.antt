-- ===== src/Storage/Catalog.antt =====
-- app/src/storage.rs as a table of profiles and an active slot: the pages behind any operations
-- show what the table has become.
use nrf52_unifying.Flash.{Nor, IsNor}
use nrf52_unifying.Prelude.{
  ℕ, ◌+◌, ◌*◌, ◌<◌, ◌≤◌, ◌≡◌, ◌≢◌, sym, ◌∙◌, Option, none, some, List, [], ◌∷◌, All, length, ◌==◌,
  if◌then◌else◌, Bool-cases, inl, inr, arith, subst,
}
use nrf52_unifying.Prelude.Text.{Bytes}
use nrf52_unifying.Storage.{
  Profile, record_size, slots_per_page, max_profiles, active_page, active_entries, page_base, load,
  save, clear_slot, clear_all, load_active_slot, save_active_slot,
}
use nrf52_unifying.Storage.Active.{
  ActiveIsLog, load_active-latest, load_active-save_active, load_active-clear_all,
}
use nrf52_unifying.Storage.Apart.{save_active-Holds}
use nrf52_unifying.Storage.Clear.{load-clear_slot, load-clear_all}
use nrf52_unifying.Storage.Codec.{IsProfile}
use nrf52_unifying.Storage.Isolation.{OffPage, save-Holds, clear_slot-Holds, other_slot}
use nrf52_unifying.Storage.Page.{Holds}
use nrf52_unifying.Storage.Profiles.{storage_end, SlotIsLog, load-latest, load-save, save-SlotIsLog}

-- What the storage stands for.
pub record Catalog : Type 0 where
  pub profiles : ℕ → Option Profile
  pub active : Option ℕ

pub data Operation : Type 0 where
  store : ℕ → Profile → Operation
  activate clear : ℕ → Operation
  clear_pages : Operation

abbrev put : (ℕ → Option Profile) → ℕ → Option Profile → ℕ → Option Profile
put profiles slot p k = if k == slot then p else profiles k

abbrev pub empty : Catalog
empty = record { profiles = λ k. none; active = none }

abbrev pub updated : Operation → Catalog → Catalog
updated (store slot p) c = record c { profiles = put c.profiles slot (some p) }
updated (activate slot) c = record c { active = some slot }
updated (clear slot) c = record c { profiles = put c.profiles slot none }
updated clear_pages c = empty

abbrev pub updates : List Operation → Catalog → Catalog
updates [] c = c
updates (o ∷ os) c = updates os (updated o c)

-- The slot is one of the profiles', and the profile well-formed.
abbrev pub IsValid : Operation → Type 0
IsValid (store slot p) = (slot < max_profiles) × IsProfile p
IsValid (activate slot) = slot < max_profiles
IsValid (clear slot) = slot < max_profiles
IsValid clear_pages = Unit {0}

module _ {F : Type 0} (nor : Nor F) where
  abbrev pub operate : Operation → F → F
  operate (store slot p) f = save nor f slot p
  operate (activate slot) f = save_active_slot nor f slot
  operate (clear slot) f = clear_slot nor f slot
  operate clear_pages f = clear_all nor f

  abbrev pub operations : List Operation → F → F
  operations [] f = f
  operations (o ∷ os) f = operations os (operate o f)

  -- A slot shows this entry, and its page is a log.
  abbrev pub SlotShows : F → ℕ → Option Profile → Type 0
  SlotShows f slot v = (load nor f slot ≡ v) × SlotIsLog nor f slot

  abbrev pub ActiveShows : F → Option ℕ → Type 0
  ActiveShows f v = (load_active_slot nor f ≡ v) × ActiveIsLog nor f

  pub record Shows (f : F) (c : Catalog) : Type 0 where
    pub slots : (slot : ℕ) → slot < max_profiles → SlotShows f slot (c.profiles slot)
    pub active_is : ActiveShows f c.active

  module _ {size : ℕ} (laws : IsNor nor size) (fits : storage_end ≤ size) where
    slot-kept :
        (f g : F) (slot : ℕ) (v : Option Profile)
        → slot < max_profiles
        → ((rs : List Bytes)
            → length rs ≡ slots_per_page
            → Holds nor (page_base slot) record_size f 0 rs
            → Holds nor (page_base slot) record_size g 0 rs)
        → SlotShows f slot v
        → SlotShows g slot v
    slot-kept f g slot v h keep (e, (rs, len, s, held, log)) = (
      load-latest nor laws fits g slot rs h len (keep rs len held)
          ∙ sym (load-latest nor laws fits f slot rs h len held)
          ∙ e,
      (rs, len, s, keep rs len held, log),
    )

    active-kept :
        (f g : F) (v : Option ℕ)
        → ((rs : List Bytes)
            → length rs ≡ active_entries
            → Holds nor active_page 4 f 0 rs
            → Holds nor active_page 4 g 0 rs)
        → ActiveShows f v
        → ActiveShows g v
    active-kept f g v keep (e, (rs, len, s, held, log)) = (
      load_active-latest nor laws fits g rs len (keep rs len held)
          ∙ sym (load_active-latest nor laws fits f rs len held)
          ∙ e,
      (rs, len, s, keep rs len held, log),
    )

    -- The entry of the slot that has changed, and the others.
    put-Shows :
        (g : F) (slot : ℕ) (v : Option Profile) (profiles : ℕ → Option Profile)
        → SlotShows g slot v
        → ((k : ℕ) → k < max_profiles → slot ≢ k → SlotShows g k (profiles k))
        → (k : ℕ) → k < max_profiles
        → SlotShows g k (put profiles slot v k)
    put-Shows g slot v profiles changed others k h = elim (Bool-cases (k == slot)) [
      | inl same ↦
          let e : slot ≡ k = ground (arith, same) in
          rw same (subst (λ k. SlotShows g k v) e changed)
      | inr other ↦ rw other (others k h (ground (arith, other)))
    ]

    off_active :
        (slot : ℕ) (rs : List Bytes)
        → slot < max_profiles
        → OffPage active_page 4 rs (page_base slot)
    unfolding page_base
    off_active slot rs h = inr (omega (arith, h))

    before_active :
        (slot : ℕ) (rs : List Bytes)
        → slot < max_profiles
        → length rs ≡ slots_per_page
        → page_base slot + length rs * record_size ≤ active_page
    unfolding page_base
    before_active slot rs h len = omega (arith, h, len)

    pub clear_all-Shows : (f : F) → Shows (clear_all nor f) empty
    clear_all-Shows f = record {
      slots = λ k l. load-clear_all nor laws fits f k l;
      active_is = load_active-clear_all nor laws fits f;
    }

    operate-Shows :
        (o : Operation) (f : F) (c : Catalog)
        → IsValid o
        → Shows f c
        → Shows (operate o f) (updated o c)
    operate-Shows (store slot p) f c (h, wf) s = record {
      slots =
          put-Shows (save nor f slot p) slot (some p) c.profiles
            (
              load-save nor laws fits f slot p h wf (s.slots slot h).1,
              save-SlotIsLog nor laws fits f slot p h wf (s.slots slot h).1,
            )
            (λ k l ne.
              slot-kept f (save nor f slot p) k (c.profiles k) l
                (λ rs len.
                  save-Holds nor laws fits (page_base k) record_size rs f slot p h wf
                    (other_slot nor laws fits slot k rs len ne))
                (s.slots k l));
      active_is =
          active-kept f (save nor f slot p) c.active
            (λ rs len.
              save-Holds nor laws fits active_page 4 rs f slot p h wf (off_active slot rs h))
            s.active_is;
    }
    operate-Shows (activate slot) f c h s = record {
      slots = λ k l.
          slot-kept f (save_active_slot nor f slot) k (c.profiles k) l
            (λ rs len.
              save_active-Holds nor laws fits (page_base k) record_size rs
                (before_active k rs l len) f slot h)
            (s.slots k l);
      active_is = load_active-save_active nor laws fits f slot h s.active_is.1;
    }
    operate-Shows (clear slot) f c h s = record {
      slots =
          put-Shows (clear_slot nor f slot) slot none c.profiles
            (load-clear_slot nor laws fits f slot h)
            (λ k l ne.
              slot-kept f (clear_slot nor f slot) k (c.profiles k) l
                (λ rs len.
                  clear_slot-Holds nor laws fits (page_base k) record_size rs f slot h
                    (other_slot nor laws fits slot k rs len ne))
                (s.slots k l));
      active_is =
          active-kept f (clear_slot nor f slot) c.active
            (λ rs len.
              clear_slot-Holds nor laws fits active_page 4 rs f slot h (off_active slot rs h))
            s.active_is;
    }
    operate-Shows clear_pages f c h s = clear_all-Shows f

    -- Over a NOR flash of a size that reaches the end of the storage area, whose pages are logs
    -- that show a table of profiles and an active slot: after any operations, each of which saves
    -- a well-formed profile in one of the slots, clears or activates one of the slots or clears
    -- everything, the pages are logs that show the table which these operations make of it.
    pub operations-Shows :
        (os : List Operation) (f : F) (c : Catalog)
        → All IsValid os
        → Shows f c
        → Shows (operations os f) (updates os c)
    operations-Shows [] f c h s = s
    operations-Shows (o ∷ os) f c (h, hs) s =
        operations-Shows os (operate o f) (updated o c) hs (operate-Shows o f c h s)
