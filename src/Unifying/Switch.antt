-- ===== src/Unifying/Switch.antt =====
-- `switch_to` of app/src/main.rs: the pairing that is left, and the one that is loaded.
use nrf52_unifying.Device.{Device, IsDevice}
use nrf52_unifying.Flash.{Nor, IsNor}
use nrf52_unifying.Prelude.{
  ℕ, ◌<◌, ◌≤◌, ◌≡◌, ◌≢◌, refl, sym, subst, ap, ◌∙◌, Bool, true, false, some, arith, ◌==◌,
  if◌then◌else◌, Option-cases, inl, inr,
}
use nrf52_unifying.Storage.{Profile, max_profiles, load, save, save_active_slot}
use nrf52_unifying.Storage.Apart.{load-save_active}
use nrf52_unifying.Storage.Codec.{IsProfile}
use nrf52_unifying.Storage.Isolation.{load-save_other}
use nrf52_unifying.Storage.Profiles.{storage_end, SlotIsLog, load-save}
use nrf52_unifying.Unifying.{
  UnifyingState, current_profile, apply_profile, save_current, load_slot, switch_to,
}
use nrf52_unifying.Unifying.Links.{switch_to-slot}

module _ {D F : Type 0} (device : Device D) (nor : Nor F) {size : ℕ} (laws : IsDevice device)
    (flash_laws : IsNor nor size) (fits : storage_end ≤ size) where
  -- The slot that is switched to decides the flash: `load_slot` only reads.
  load_slot-flash :
      (state : UnifyingState D) (flash : F) (slot : ℕ)
      → (load_slot device nor state flash slot).1.0 ≡ flash
  unfolding load_slot
  load_slot-flash state flash slot = elim (Option-cases (load nor flash slot)) [
    | inl e ↦ rw (e, load_slot) refl
    | inr (p, e) ↦ rw (e, load_slot) refl
  ]

  -- The state and the flash that the new slot is loaded into.
  abbrev left : UnifyingState D → ℕ → UnifyingState D
  left state slot = record state { connected = false; link_up = false; active_slot = slot }

  abbrev stored : UnifyingState D → F → ℕ → F
  stored state flash slot = save_active_slot nor (save_current device nor state flash) slot

  switch_to-other :
      (state : UnifyingState D) (flash : F) (slot : ℕ)
      → state.active_slot ≢ slot
      → switch_to device nor state flash slot
        ≡ load_slot device nor (left state slot) (stored state flash slot) slot
  unfolding switch_to
  switch_to-other state flash slot ne =
      let other : (slot == state.active_slot) ≡ false = ground (arith, ne) in
      rw (other, switch_to) refl

  save_current-other :
      (state : UnifyingState D) (flash : F) (other : ℕ)
      → state.active_slot ≢ other
      → state.active_slot < max_profiles
      → load nor (save_current device nor state flash) other ≡ load nor flash other
  unfolding save_current current_profile
  save_current-other state flash other ne h = go state.paired
    where
      go :
          (b : Bool)
          → load nor
              (if b then save nor flash state.active_slot (device.profile state.device) else flash)
              other
            ≡ load nor flash other
      go true =
          load-save_other nor flash_laws fits flash state.active_slot other
            (device.profile state.device) h (laws.profile_typed state.device) ne
      go false = refl

  if_true : {A : Type 0} {b : Bool} (x y : A) → b ≡ true → (if b then x else y) ≡ x
  if_true {b = true} x y e = refl
  if_true {b = false} x y e = absurd (ground arith)

  -- A switch to another slot stores the pairing of the slot that is left.
  switch_to-stores :
      (state : UnifyingState D) (flash : F) (slot : ℕ)
      → state.active_slot ≢ slot
      → state.active_slot < max_profiles
      → slot < max_profiles
      → state.paired ≡ true
      → SlotIsLog nor flash state.active_slot
      → load nor (switch_to device nor state flash slot).1.0 state.active_slot
        ≡ some (device.profile state.device)
  unfolding save_current current_profile
  switch_to-stores state flash slot ne h hs paired log =
      let p = device.profile state.device in
      ap (λ r. load nor r.1.0 state.active_slot) (switch_to-other state flash slot ne)
      ∙ ap (λ f. load nor f state.active_slot)
          (load_slot-flash (left state slot) (stored state flash slot) slot)
      ∙ load-save_active nor flash_laws fits (save_current device nor state flash) slot
          state.active_slot hs
      ∙ ap (λ f. load nor f state.active_slot)
          (if_true (save nor flash state.active_slot p) flash paired)
      ∙ load-save nor flash_laws fits flash state.active_slot p h (laws.profile_typed state.device)
          log

  -- A switch to another slot leaves what is stored for it.
  stored-keeps :
      (state : UnifyingState D) (flash : F) (slot : ℕ)
      → state.active_slot ≢ slot
      → state.active_slot < max_profiles
      → slot < max_profiles
      → load nor (stored state flash slot) slot ≡ load nor flash slot
  stored-keeps state flash slot ne h hs =
      load-save_active nor flash_laws fits (save_current device nor state flash) slot slot hs
      ∙ save_current-other state flash slot ne h

  load_slot-some :
      (state : UnifyingState D) (flash : F) (slot : ℕ) (p : Profile)
      → IsProfile p
      → load nor flash slot ≡ some p
      → ((load_slot device nor state flash slot).1.1 ≡ true)
        × (device.profile (load_slot device nor state flash slot).0.device ≡ p)
  unfolding load_slot apply_profile
  load_slot-some state flash slot p wf e =
      (rw (e, load_slot) refl, rw (e, load_slot) (laws.profile_set state.device p wf))

  -- A switch to another slot, whose pairing is stored, brings it into the device.
  switch_to-loads :
      (state : UnifyingState D) (flash : F) (slot : ℕ) (p : Profile)
      → state.active_slot ≢ slot
      → state.active_slot < max_profiles
      → slot < max_profiles
      → IsProfile p
      → load nor flash slot ≡ some p
      → ((switch_to device nor state flash slot).1.1 ≡ true)
        × (device.profile (switch_to device nor state flash slot).0.device ≡ p)
  switch_to-loads state flash slot p ne h hs wf e =
      subst (λ r. (r.1.1 ≡ true) × (device.profile r.0.device ≡ p))
        (sym (switch_to-other state flash slot ne))
        (load_slot-some (left state slot) (stored state flash slot) slot p wf
          (stored-keeps state flash slot ne h hs ∙ e))

  -- Over a NOR flash of a size that reaches the end of the storage area, with a device whose
  -- profile fields have the range of their types, hold what is assigned to them and are kept when
  -- the radio is configured, and that has fewer than 256 pairing channels, and a state that is
  -- paired in one of the slots, whose page is a log: switching to another of the slots and then
  -- back finds a profile, and the device has the pairing and counter again that it had before.
  pub switch_to-back :
      (state : UnifyingState D) (flash : F) (slot : ℕ)
      → state.active_slot ≢ slot
      → state.active_slot < max_profiles
      → slot < max_profiles
      → state.paired ≡ true
      → SlotIsLog nor flash state.active_slot
      → let (away, (flash', _)) = switch_to device nor state flash slot in
        let (back, (_, has_profile)) = switch_to device nor away flash' state.active_slot in
        (has_profile ≡ true) × (device.profile back.device ≡ device.profile state.device)
  switch_to-back state flash slot ne h hs paired log =
      let (away, (flash', _)) = switch_to device nor state flash slot in
      let there : away.active_slot ≡ slot = switch_to-slot device nor laws state flash slot in
      switch_to-loads away flash' state.active_slot (device.profile state.device)
        (λ e. ne (sym e ∙ there)) (omega (arith, there, hs)) h (laws.profile_typed state.device)
        (switch_to-stores state flash slot ne h hs paired log)
