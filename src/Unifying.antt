-- ===== src/Unifying.antt =====
-- `UnifyingState` of app/src/main.rs with its methods, and the sending of key reports.
pub mod Commands
pub mod Handle
pub mod Answers
pub mod Loops
pub mod Links
pub mod Keys
pub mod Total
pub mod Switch
pub mod Restore
pub mod Boot
mod Tests
use nrf52_unifying.Device.{Device}
use nrf52_unifying.Flash.{Nor}
use nrf52_unifying.Keymap.{char_to_hid}
use nrf52_unifying.Prelude.{
  ℕ, zero, suc, ◌+◌, ◌-◌, ◌*◌, ◌%◌, Bool, true, false, ◌&&◌, ◌||◌, Option, none, some, List, [],
  ◌∷◌, length, replicate, set, leb, ltb, ◌==◌, if◌then◌else◌, bit_or,
}
use nrf52_unifying.Prelude.Text.{Bytes}
use nrf52_unifying.Storage.{Profile, load, save, save_active_slot}

pub record UnifyingState (D : Type 0) : Type 0 where
  pub device : D
  pub paired : Bool
  pub connected : Bool
  pub active_slot : ℕ
  pub last_activity : ℕ
  pub link_up : Bool

-- One digit of `parse_u8_hex`.
unfoldable pub hex_nibble : ℕ → Option ℕ
hex_nibble c =
    if leb b'0' c && leb c b'9'
    then some (c - b'0')
    else if leb b'a' c && leb c b'f'
    then some (c - b'a' + 10)
    else if leb b'A' c && leb c b'F'
    then some (c - b'A' + 10)
    else none

unfoldable pub u8_hex_loop : ℕ → Bytes → Option ℕ
unfolding hex_nibble
u8_hex_loop value [] = some value
u8_hex_loop value (c ∷ cs) = elim (hex_nibble c) [
  | none ↦ none
  | some nibble ↦ u8_hex_loop (bit_or (value * 16 % 256) nibble) cs
]

unfoldable pub parse_u8_hex : Bytes → Option ℕ
unfolding u8_hex_loop
parse_u8_hex [] = none
parse_u8_hex (c ∷ cs) = if ltb 2 (length (c ∷ cs)) then none else u8_hex_loop 0 (c ∷ cs)

-- A loop that ends at the first attempt that succeeds.
unfoldable pub attempts {ℓ} : {A : Type ℓ} → ℕ → (A → A × Bool) → A → A × Bool
attempts zero try_ a = (a, false)
attempts (suc n) try_ a =
    let (a', done) = try_ a in elim done [ true ↦ (a', true) | false ↦ attempts n try_ a' ]

module _ {D : Type 0} (device : Device D) where
  unfoldable pub current_profile : UnifyingState D → Profile
  current_profile state = device.profile state.device

  unfoldable pub apply_profile : UnifyingState D → Profile → UnifyingState D
  apply_profile state p = record state {
    device = device.set_profile state.device p;
    paired = true;
    connected = false;
    link_up = false;
  }

  -- A keystroke, and a tick if it fails.
  abbrev pub send_or_tick : Bytes → ℕ → D → D × Bool
  send_or_tick keys modifier d =
      let (d', sent) = device.send_encrypted_keystroke d keys modifier in
      if sent then (d', true) else (device.tick d', false)

  unfoldable pub press_key : D → Bytes → ℕ → D × Bool
  unfolding attempts
  press_key d keys modifier = attempts 20 (send_or_tick keys modifier) d

  unfoldable pub release_keys : D → D
  unfolding attempts
  release_keys d = (attempts 20 (send_or_tick (replicate device.keys_len 0) 0) d).0

  unfoldable pub send_key_report : D → Bytes → ℕ → D × Bool
  unfolding press_key release_keys
  send_key_report d keys modifier =
      let (d', pressed) = press_key d keys modifier in (release_keys d', pressed)

  unfoldable pub type_char : D → ℕ → D × Bool
  unfolding press_key release_keys char_to_hid
  type_char d c = elim (char_to_hid c) [
    | none ↦ (d, false)
    | some key ↦
        let (d', pressed) =
          press_key d (set (replicate device.keys_len 0) 0 key.0) (if key.1 then 0x02 else 0x00) in
        (release_keys d', pressed)
  ]

  unfoldable pub send_report : UnifyingState D → Bytes → ℕ → UnifyingState D × Bool
  unfolding attempts
  send_report state keys modifier =
      let (d, sent) =
        attempts (if state.link_up then 3 else 1)
          (λ d. device.send_encrypted_keystroke d keys modifier) state.device in
      (record state { device = d; link_up = sent }, sent)

  module _ {F : Type 0} (nor : Nor F) where
    -- `storage::save(flash, active_slot, &current_profile())`, if the state is paired.
    unfoldable pub save_current : UnifyingState D → F → F
    unfolding current_profile
    save_current state flash =
        if state.paired then save nor flash state.active_slot (current_profile state) else flash

    -- Behind the test for the slot that is active already.
    unfoldable pub load_slot : UnifyingState D → F → ℕ → UnifyingState D × (F × Bool)
    unfolding apply_profile
    load_slot state flash slot = elim (load nor flash slot) [
      | some p ↦ (apply_profile state p, (flash, true))
      | none ↦ (record state { paired = false }, (flash, false))
    ]

    unfoldable pub switch_to : UnifyingState D → F → ℕ → UnifyingState D × (F × Bool)
    unfolding save_current load_slot
    switch_to state flash slot =
        if slot == state.active_slot
        then (state, (flash, state.paired))
        else (load_slot (record state { connected = false; link_up = false; active_slot = slot })
            (save_active_slot nor (save_current state flash) slot) slot)
