-- ===== src/Device.antt =====
-- `UnifyingDevice` of the submodule rust-unifying and the radio below it, which are not part of the
-- repository: an interface with the operations that app/src/main.rs calls.
pub mod Counting
use nrf52_unifying.Prelude.{◌≡◌, ℕ, Bool, ◌<◌, length}
use nrf52_unifying.Prelude.Text.{Bytes}
use nrf52_unifying.Storage.{Profile}
use nrf52_unifying.Storage.Codec.{IsProfile}

pub record PairingParams : Type 0 where
  pub id : ℕ
  pub product_id : ℕ
  pub device_type : ℕ
  pub crypto : ℕ
  pub serial : ℕ
  pub capabilities : ℕ
  pub name : Bytes

-- The fields `address`, `aes_key`, `aes_counter` and `channel` are read and assigned together as a
-- profile. A Boolean result is `is_ok()`; that of `tick`, which the commands do not look at, is
-- `tick_ok` of the device before.
pub record Device (D : Type 0) : Type 0 where
  pub profile : D → Profile
  pub set_profile : D → Profile → D
  pub set_timeout : D → ℕ → D
  pub configure_radio : D → D × Bool
  pub pair : D → PairingParams → D × Bool
  pub connect : D → D × Bool
  pub tick : D → D
  pub tick_ok : D → Bool
  pub previous_transmit : D → ℕ
  pub send_encrypted_keystroke : D → Bytes → ℕ → D × Bool
  pub set_addr_encoding : D → ℕ → D
  pub set_address : D → Bytes → D
  pub set_channel : D → ℕ → D
  pub probe_once : D → Bytes → D × Bool
  pub disable_radio : D → D
  pub pairing_address : Bytes
  pub pairing_channels : Bytes
  pub keys_len : ℕ

-- The fields hold values of their types, what is assigned to them, and keep it when the radio is
-- configured; there are few pairing
-- channels.
pub record IsDevice {D : Type 0} (device : Device D) : Type 0 where
  pub profile_typed : (d : D) → IsProfile (device.profile d)
  pub channels_few : length device.pairing_channels < 256
  pub profile_set :
      (d : D) (p : Profile) → IsProfile p → device.profile (device.set_profile d p) ≡ p
  pub configure_keeps : (d : D) → device.profile (device.configure_radio d).0 ≡ device.profile d
