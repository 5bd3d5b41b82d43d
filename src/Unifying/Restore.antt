-- ===== src/Unifying/Restore.antt =====
-- `UPAIR` of app/src/main.rs behind its argument: the new pairing, or the link that there was.
use nrf52_unifying.Device.{Device, IsDevice}
use nrf52_unifying.Flash.{Nor, IsNor}
use nrf52_unifying.Prelude.{
  ℕ, zero, suc, ◌≤◌, ◌<◌, ◌≡◌, refl, sym, subst, ◌∙◌, Bool, true, false, not, ◌&&◌, none, some, [],
  ◌∷◌, arith, if◌then◌else◌, Returns, Returns-weaken, Bool-cases, inl, inr,
}
use nrf52_unifying.Prelude.Text.{codes}
use nrf52_unifying.Reply.{format_paired}
use nrf52_unifying.Reply.Formats.{paired_parts, format_paired_lem}
use nrf52_unifying.Reply.Sequence.{join}
use nrf52_unifying.Storage.{Profile, max_profiles, load, save, load_active_slot}
use nrf52_unifying.Storage.Active.{ActiveIsLog, load_active-save_active, save-ActiveIsLog}
use nrf52_unifying.Storage.Apart.{load-save_active}
use nrf52_unifying.Storage.Profiles.{storage_end, SlotIsLog, load-save}
use nrf52_unifying.Unifying.{UnifyingState, attempts, current_profile, apply_profile}
use nrf52_unifying.Unifying.Answers.{formatted_lem}
use nrf52_unifying.Unifying.Commands.{
  Clock, Outcome, previous, reconnected, pair_done, pair_failed, pair_into, pairing_params,
}

-- A number of attempts, each from where the one before has left it.
abbrev pub after {ℓ} : {A : Type ℓ} → (A → A × Bool) → ℕ → A → A
after try_ zero a = a
after try_ (suc n) a = after try_ n (try_ a).0

abbrev pub AllFail {ℓ} : {A : Type ℓ} → (A → A × Bool) → ℕ → A → Type 0
AllFail try_ zero a = Unit {0}
AllFail try_ (suc n) a = ((try_ a).1 ≡ false) × AllFail try_ n (try_ a).0

-- The first of the attempts that succeeds, or all of them fail.
data Attempted {ℓ} {A : Type ℓ} (try_ : A → A × Bool) (n : ℕ) (a : A) (r : A × Bool) : Type ℓ where
  success :
      (k : ℕ)
      → k < n
      → AllFail try_ k a
      → (try_ (after try_ k a)).1 ≡ true
      → r ≡ ((try_ (after try_ k a)).0, true)
      → Attempted try_ n a r
  failure : AllFail try_ n a → r ≡ (after try_ n a, false) → Attempted try_ n a r

attempts-Attempted {ℓ} :
    {A : Type ℓ} (n : ℕ) (try_ : A → A × Bool) (a : A) → Attempted try_ n a (attempts n try_ a)
unfolding attempts
attempts-Attempted {A = A} zero try_ a = failure tt refl
attempts-Attempted {A = A} (suc n) try_ a = elim (Bool-cases (try_ a).1) [
  | inl ok ↦ success 0 (omega arith) tt ok (rw (ok, attempts) refl)
  | inr bad ↦ rw (bad, attempts) (later (attempts-Attempted n try_ (try_ a).0) bad)
]
  where
    later :
        {r : A × Bool}
        → Attempted try_ n (try_ a).0 r
        → (try_ a).1 ≡ false
        → Attempted try_ (suc n) a r
    later (success k l fails ok e) bad = success (suc k) (omega (arith, l)) (bad, fails) ok e
    later (failure fails e) bad = failure (bad, fails) e

module _ {D F : Type 0} (device : Device D) (nor : Nor F) where
  -- The pairing and the slot of `before`, on a flash that is as it was; the link counts as connected
  -- only if it did before.
  pub record Restored (before : UnifyingState D) (flash : F) (o : Outcome device nor) : Type 0 where
    profile : device.profile o.0.device ≡ device.profile before.device
    paired : o.0.paired ≡ true
    connected : (o.0.connected && not before.connected) ≡ false
    active_slot : o.0.active_slot ≡ before.active_slot
    flash_kept : o.1.0 ≡ flash

  abbrev pub pairing : Clock → D → D × Bool
  pairing clock d = device.pair d (pairing_params device nor clock)

  -- The new pairing of the device in the slot.
  pub record Renewed (before : UnifyingState D) (slot : ℕ) (d : D) (o : Outcome device nor)
      : Type 0 where
    state : o.0 ≡ record before {
      device = d;
      paired = true;
      connected = true;
      link_up = true;
      active_slot = slot;
    }
    held : load nor o.1.0 slot ≡ some (device.profile d)
    next_start : load_active_slot nor o.1.0 ≡ some slot
    reply : o.1.1 ≡ join (paired_parts (device.profile d).address (device.profile d).channel) ∷ []

  -- How `UPAIR` into a slot ends: at the first of eight attempts that succeeds, with a pairing that
  -- is held in the slot and will be the one of the next start; behind eight that fail; or before
  -- them, at a radio that is not configured.
  pub data Ends (clock : Clock) (before : UnifyingState D) (flash : F) (slot : ℕ)
      (o : Outcome device nor) : Type 0 where
    renewed :
        (k : ℕ)
        → k < 8
        → AllFail (pairing clock) k (device.configure_radio before.device).0
        → (pairing clock (after (pairing clock) k (device.configure_radio before.device).0)).1
          ≡ true
        → Renewed before slot
            (pairing clock (after (pairing clock) k (device.configure_radio before.device).0)).0
            o
        → Ends clock before flash slot o
    refused :
        AllFail (pairing clock) 8 (device.configure_radio before.device).0
        → Restored before flash o
        → o.1.1 ≡ codes "ERR PAIR\r\n" ∷ []
        → Ends clock before flash slot o
    no_radio :
        (device.configure_radio before.device).1 ≡ false
        → Restored before flash o
        → o.1.1 ≡ codes "ERR RADIO\r\n" ∷ []
        → Ends clock before flash slot o

  module _ (laws : IsDevice device) where
    reconnected-Restored :
        (before state : UnifyingState D) (flash : F) (connected : Bool)
        → device.profile state.device ≡ device.profile before.device
        → state.paired ≡ true
        → state.active_slot ≡ before.active_slot
        → connected ≡ before.connected
        → Restored before flash
            (reconnected device nor state connected, (flash, codes "ERR PAIR\r\n" ∷ []))
    unfolding reconnected
    reconnected-Restored before state flash true p q a c = record {
      profile = laws.configure_keeps state.device ∙ p;
      paired = q;
      connected = ground (arith, c);
      active_slot = a;
      flash_kept = refl;
    }
    reconnected-Restored before state flash false p q a c = record {
      profile = p;
      paired = q;
      connected = refl;
      active_slot = a;
      flash_kept = refl;
    }

    -- Whatever the attempts have made of the device.
    pair_failed-Restored :
        (before : UnifyingState D) (d : D) (flash : F)
        → before.paired ≡ true
        → Returns
            (pair_failed device nor
              (previous device nor before)
              (record before { device = d })
              flash)
            (λ o. Restored before flash o × (o.1.1 ≡ codes "ERR PAIR\r\n" ∷ []))
    unfolding previous pair_failed current_profile apply_profile
    pair_failed-Restored before d flash paired =
        subst
          (λ o.
            Returns (pair_failed device nor o (record before { device = d }) flash)
              (λ o. Restored before flash o × (o.1.1 ≡ codes "ERR PAIR\r\n" ∷ [])))
          (sym (known (device.profile before.device, before.connected) paired))
          (
            reconnected-Restored before
                (apply_profile device (record before { device = d }) (device.profile before.device))
                flash before.connected
                (laws.profile_set d (device.profile before.device)
                  (laws.profile_typed before.device))
                refl refl refl,
            refl,
          )
      where
        known :
            {b : Bool} (link : Profile × Bool)
            → b ≡ true
            → (if b then some link else none) ≡ some link
        known {b = true} link e = refl
        known {b = false} link e = absurd (ground arith)

    module _ {size : ℕ} (flash_laws : IsNor nor size) (fits : storage_end ≤ size) where
      -- With a device whose profile fields have the range of their types, hold what is assigned to
      -- them and are kept when the radio is configured, and that has fewer than 256 pairing
      -- channels, and over a NOR flash of a size that reaches the end of the storage area: where
      -- the state was paired and the pages of the slot and of the active slots are logs, UPAIR
      -- into one of the slots does not panic and ends in one of three ways. At the first of eight
      -- attempts that succeeds, the state is paired and connected on that slot, what is loaded for
      -- the slot is the new pairing, the slot is loaded as the active one, and the reply names the
      -- address and the channel. Behind eight attempts that fail, or where the radio is not
      -- configured, the reply is the error, the device has its former pairing and counter, the
      -- state is paired on its former slot, it is connected only if it was, and the flash is as it
      -- was.
      pub pair_into-Ends :
          (clock : Clock) (before : UnifyingState D) (flash : F) (slot : ℕ)
          → before.paired ≡ true
          → slot < max_profiles
          → SlotIsLog nor flash slot
          → ActiveIsLog nor flash
          → Returns (pair_into device nor clock before flash slot) (Ends clock before flash slot)
      unfolding pair_into pair_done current_profile
      pair_into-Ends clock before flash slot paired small log active =
          elim (Bool-cases (device.configure_radio before.device).1) [
            | inr bad ↦ rw bad (
                no_radio bad
                  (record {
                    profile = laws.configure_keeps before.device;
                    paired = paired;
                    connected = ground arith;
                    active_slot = refl;
                    flash_kept = refl;
                  })
                  refl)
            | inl good ↦ rw good (
                tried
                  (attempts-Attempted 8 (pairing clock) (device.configure_radio before.device).0))
          ]
        where
          tried :
              {r : D × Bool}
              → Attempted (pairing clock) 8 (device.configure_radio before.device).0 r
              → Returns
                  (if r.1
                    then pair_done device nor (record before { device = r.0 }) flash slot
                    else pair_failed device nor
                        (previous device nor before)
                        (record before { device = r.0 })
                        flash)
                  (Ends clock before flash slot)
          tried (success k l fails ok e) =
              let d =
                (pairing clock
                  (after (pairing clock) k (device.configure_radio before.device).0)).0 in
              let wf = laws.profile_typed d in
              let p = device.profile d in
              rw e (
                rw
                  (formatted_lem 64 (λ out. format_paired out p.address p.channel)
                    (join (paired_parts p.address p.channel))
                    (format_paired_lem p.address p.channel wf.address_len wf.channel_u8))
                  (renewed k l fails ok (record {
                    state = refl;
                    held =
                        load-save_active nor flash_laws fits (save nor flash slot p) slot slot small
                        ∙ load-save nor flash_laws fits flash slot p small wf log;
                    next_start =
                        (load_active-save_active nor flash_laws fits (save nor flash slot p) slot
                          small
                          (save-ActiveIsLog nor flash_laws fits flash slot p small wf active)).0;
                    reply = refl;
                  })))
          tried (failure fails e) =
              let d = after (pairing clock) 8 (device.configure_radio before.device).0 in
              rw e (
                Returns-weaken
                  (pair_failed device nor (previous device nor before)
                    (record before { device = d }) flash)
                  _ (Ends clock before flash slot) (pair_failed-Restored before d flash paired)
                  (λ o h. refused fails h.0 h.1))
