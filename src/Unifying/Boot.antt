-- ===== src/Unifying/Boot.antt =====
-- What app/src/main.rs makes of the stored pairing when it starts: the counter jumps ahead of every
-- keystroke that may not have been saved.
use nrf52_unifying.Device.{Device, IsDevice}
use nrf52_unifying.Flash.{Nor, IsNor}
use nrf52_unifying.Prelude.{
  ℕ, zero, suc, ◌+◌, ◌*◌, ◌%◌, ◌^◌, ◌≤◌, ◌<◌, ◌≡◌, refl, sym, subst, ap, ◌∙◌, true, false, none,
  some, arith,
}
use nrf52_unifying.Storage.{Profile, max_profiles, load, save, load_active_slot}
use nrf52_unifying.Storage.Active.{load_active-save}
use nrf52_unifying.Storage.Codec.{IsProfile}
use nrf52_unifying.Storage.Profiles.{storage_end, SlotIsLog, load-save, save-SlotIsLog}
use nrf52_unifying.Unifying.{UnifyingState, apply_profile}

-- `UnifyingState::new`, with the device that it makes.
abbrev pub new : {D : Type 0} → D → ℕ → UnifyingState D
new device now = record {
  device = device;
  paired = false;
  connected = false;
  active_slot = 0;
  last_activity = now;
  link_up = false;
}

-- `profile.aes_counter.wrapping_add(512)`
abbrev pub jumped : Profile → Profile
jumped p = record p { aes_counter = (p.aes_counter + 512) % 2 ^ 32 }

module _ {D F : Type 0} (device : Device D) (nor : Nor F) where
  -- The pairing of a slot, if it has one.
  unfoldable pub resume : UnifyingState D → F → ℕ → UnifyingState D × F
  resume state flash slot = elim (load nor flash slot) [
    | none ↦ (state, flash)
    | some p ↦ (apply_profile device state (jumped p), save nor flash slot (jumped p))
  ]

  -- The active slot; where none is stored, slot 0 is tried.
  unfoldable pub restore : UnifyingState D → F → UnifyingState D × F
  restore state flash = elim (load_active_slot nor flash) [
    | none ↦ resume state flash 0
    | some slot ↦ resume (record state { active_slot = slot }) flash slot
  ]

  -- Starts one after the other, with nothing saved in between.
  unfoldable pub restarts : ℕ → UnifyingState D → F → UnifyingState D × F
  restarts zero state flash = restore state flash
  restarts (suc n) state flash = restore state (restarts n state flash).1

  module _ {size : ℕ} (laws : IsDevice device) (flash_laws : IsNor nor size)
      (fits : storage_end ≤ size) where
    -- A counter that has jumped `n` times.
    abbrev pub ahead : Profile → ℕ → Profile
    ahead p n = record p { aes_counter = (p.aes_counter + 512 * n) % 2 ^ 32 }

    ahead-IsProfile : (p : Profile) (n : ℕ) → IsProfile p → IsProfile (ahead p n)
    ahead-IsProfile p n h = record {
      address_len = h.address_len;
      key_len = h.key_len;
      address_bytes = h.address_bytes;
      key_bytes = h.key_bytes;
      counter_u32 = omega arith;
      channel_u8 = h.channel_u8;
    }

    jumped-ahead : (p : Profile) (n : ℕ) → jumped (ahead p n) ≡ ahead p (suc n)
    jumped-ahead p n =
        ap (λ c. record p { aes_counter = c })
          (let same : ((p.aes_counter + 512 * n) % 2 ^ 32 + 512) % 2 ^ 32
                ≡ (p.aes_counter + 512 * suc n) % 2 ^ 32 =
              omega arith in
            same)

    -- The active slot is paired with this profile, in the device and in the flash.
    pub record Resumed (slot : ℕ) (p : Profile) (o : UnifyingState D × F) : Type 0 where
      pub slot_is : o.0.active_slot ≡ slot
      pub paired : o.0.paired ≡ true
      pub connected : o.0.connected ≡ false
      pub profile_is : device.profile o.0.device ≡ p
      pub stored : load nor o.1 slot ≡ some p
      pub active : load_active_slot nor o.1 ≡ some slot
      pub log : SlotIsLog nor o.1 slot

    resume-some :
        (state : UnifyingState D) (flash : F) (slot : ℕ) (p : Profile)
        → load nor flash slot ≡ some p
        → resume state flash slot
          ≡ (apply_profile device state (jumped p), save nor flash slot (jumped p))
    unfolding resume
    resume-some state flash slot p e = rw (e, resume) refl

    restore-some :
        (state : UnifyingState D) (flash : F) (slot : ℕ)
        → load_active_slot nor flash ≡ some slot
        → restore state flash ≡ resume (record state { active_slot = slot }) flash slot
    unfolding restore
    restore-some state flash slot e = rw (e, restore) refl

    restore-Resumed :
        (state : UnifyingState D) (flash : F) (slot : ℕ) (p : Profile)
        → slot < max_profiles
        → IsProfile p
        → load_active_slot nor flash ≡ some slot
        → load nor flash slot ≡ some p
        → SlotIsLog nor flash slot
        → Resumed slot (ahead p 1) (restore state flash)
    unfolding apply_profile
    restore-Resumed state flash slot p h wf active stored log =
        let good = ahead-IsProfile p 1 wf in
        let placed : UnifyingState D = record state { active_slot = slot } in
        subst (Resumed slot (ahead p 1))
          (sym (restore-some state flash slot active ∙ resume-some placed flash slot p stored))
          (record {
            slot_is = refl;
            paired = refl;
            connected = refl;
            profile_is = laws.profile_set state.device (ahead p 1) good;
            stored = load-save nor flash_laws fits flash slot (ahead p 1) h good log;
            active = load_active-save nor flash_laws fits flash slot (ahead p 1) h good ∙ active;
            log = save-SlotIsLog nor flash_laws fits flash slot (ahead p 1) h good log;
          })

    -- Over a NOR flash of a size that reaches the end of the storage area, with a device whose
    -- profile fields have the range of their types, hold what is assigned to them and are kept
    -- when the radio is configured, and that has fewer than 256 pairing channels: where one of the
    -- slots is stored as the active one, its page is a log and holds a well-formed profile, then
    -- after any number of starts in a row, at least one, with no save in between, the device and
    -- the flash have that slot active and paired with that profile, its counter 512 further for
    -- each start, modulo 2 ^ 32, and the link is not connected.
    pub restarts-Resumed :
        (n : ℕ) (state : UnifyingState D) (flash : F) (slot : ℕ) (p : Profile)
        → slot < max_profiles
        → IsProfile p
        → load_active_slot nor flash ≡ some slot
        → load nor flash slot ≡ some p
        → SlotIsLog nor flash slot
        → Resumed slot (ahead p (suc n)) (restarts n state flash)
    unfolding restarts
    restarts-Resumed zero state flash slot p h wf active stored log =
        restore-Resumed state flash slot p h wf active stored log
    restarts-Resumed (suc n) state flash slot p h wf active stored log =
        let r = restarts-Resumed n state flash slot p h wf active stored log in
        subst (λ q. Resumed slot q (restore state (restarts n state flash).1))
          (jumped-ahead p (suc n))
          (restore-Resumed state (restarts n state flash).1 slot (ahead p (suc n)) h
            (ahead-IsProfile p (suc n) wf) r.active r.stored r.log)
