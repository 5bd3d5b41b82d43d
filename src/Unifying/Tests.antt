-- ===== src/Unifying/Tests.antt =====
-- Commands of app/src/main.rs with a device that counts its keystrokes, and an array as flash.
use nrf52_unifying.Storage.Codec.{IsProfile}
use nrf52_unifying.Storage.Catalog.{
  Operation, store, activate, Shows, operations, updates, empty, operations-Shows, clear_all-Shows,
}
use nrf52_unifying.Unifying.Boot.{new, restarts, ahead, Resumed, restarts-Resumed}
use nrf52_unifying.Device.Counting.{counting, counting-IsDevice}
use nrf52_unifying.Flash.Array.{array-IsNor, array, Cells}
use nrf52_unifying.Prelude.{
  ◌≡◌, refl, arith, true, false, [], ◌∷◌, replicate, Returns, some, List, ℕ, zero, suc, All, ◌<◌,
}
use nrf52_unifying.Prelude.Text.{codes, eq_bytes}
use nrf52_unifying.Storage.{Profile, clear_all}
use nrf52_unifying.Storage.Active.{load_active-clear_all}
use nrf52_unifying.Storage.Clear.{load-clear_all}
use nrf52_unifying.Unifying.Switch.{switch_to-back}
use nrf52_unifying.Unifying.Restore.{Ends, pair_into-Ends}
use nrf52_unifying.Unifying.{switch_to, UnifyingState, parse_u8_hex, u8_hex_loop, hex_nibble}
use nrf52_unifying.Unifying.Commands.{Clock, pair_into}
use nrf52_unifying.Unifying.Handle.{handle_unifying_command}
use nrf52_unifying.Unifying.Answers.{Answered}
use nrf52_unifying.Unifying.Total.{handle_unifying_command-Answered}

abbrev paired_profile : Profile
paired_profile = record {
  address = 1 ∷ 2 ∷ 3 ∷ 4 ∷ 5 ∷ [];
  aes_key = replicate 16 7;
  aes_counter = 40;
  channel = 5;
}

abbrev state : UnifyingState Profile
state = record {
  device = paired_profile;
  paired = true;
  connected = true;
  active_slot = 1;
  last_activity = 0;
  link_up = true;
}

abbrev clock : Clock
clock = record { now = 9; id_ticks = 300; crypto_ticks = 4294967299 }

erased : Cells
erased x = 0xff

parse_u8_hex_two : parse_u8_hex (codes "4c") ≡ some 0x4C
unfolding parse_u8_hex u8_hex_loop hex_nibble
parse_u8_hex_two = refl

command_text-ne : eq_bytes (codes "UTYPE Hi?") [] ≡ false
unfolding eq_bytes
command_text-ne = refl

handle_unifying_command-Answered_example :
    Returns
      (handle_unifying_command counting
        (array 1048576)
        (codes "VER\r\n")
        clock
        state
        erased
        (codes "UTYPE Hi?"))
      (Answered counting (array 1048576) counting-IsDevice)
handle_unifying_command-Answered_example =
    handle_unifying_command-Answered counting (array 1048576) counting-IsDevice (codes "VER\r\n")
      clock state erased (codes "UTYPE Hi?") (omega arith) command_text-ne (omega arith)

-- The flash behind `clear_all`: its slots are logs.
cleared_flash : Cells
cleared_flash = clear_all (array 1048576) erased

switch_to-back_example :
    let (away, (flash', _)) = switch_to counting (array 1048576) state cleared_flash 3 in
    let (back, (_, has_profile)) = switch_to counting (array 1048576) away flash' 1 in
    (has_profile ≡ true) × (counting.profile back.device ≡ counting.profile paired_profile)
unfolding cleared_flash
switch_to-back_example =
    switch_to-back counting (array 1048576) counting-IsDevice (array-IsNor 1048576) (omega arith)
      state cleared_flash 3 (λ e. absurd (omega (arith, e))) (omega arith) (omega arith) refl
      (load-clear_all (array 1048576) (array-IsNor 1048576) (omega arith) erased 1 (omega arith)).1

pair_into-Ends_example :
    Returns
      (pair_into counting (array 1048576) clock state cleared_flash 2)
      (Ends counting (array 1048576) clock state cleared_flash 2)
unfolding cleared_flash
pair_into-Ends_example =
    pair_into-Ends counting (array 1048576) counting-IsDevice (array-IsNor 1048576) (omega arith)
      clock state cleared_flash 2 refl (omega arith)
      (load-clear_all (array 1048576) (array-IsNor 1048576) (omega arith) erased 2 (omega arith)).1
      (load_active-clear_all (array 1048576) (array-IsNor 1048576) (omega arith) erased).1

paired_profile-IsProfile : IsProfile paired_profile
paired_profile-IsProfile = record {
  address_len = refl;
  key_len = refl;
  address_bytes = (omega arith, (omega arith, (omega arith, (omega arith, (omega arith, tt)))));
  key_bytes = sevens 16;
  counter_u32 = omega arith;
  channel_u8 = omega arith;
}
  where
    sevens : (n : ℕ) → All (λ b. b < 256) (replicate n 7)
    sevens zero = tt
    sevens (suc n) = (omega arith, sevens n)

-- A pairing in slot 2, which is the active one.
abbrev pairing : List Operation
pairing = store 2 paired_profile ∷ activate 2 ∷ []

paired_flash : Cells
paired_flash = operations (array 1048576) pairing (clear_all (array 1048576) erased)

paired_flash-Shows : Shows (array 1048576) paired_flash (updates pairing empty)
unfolding paired_flash
paired_flash-Shows =
    operations-Shows (array 1048576) (array-IsNor 1048576) (omega arith) pairing
      (clear_all (array 1048576) erased) empty
      ((omega arith, paired_profile-IsProfile), (omega arith, tt))
      (clear_all-Shows (array 1048576) (array-IsNor 1048576) (omega arith) erased)

restarts-Resumed_example :
    Resumed counting
      (array 1048576)
      counting-IsDevice
      (array-IsNor 1048576)
      (omega arith)
      2
      (ahead counting
        (array 1048576)
        counting-IsDevice
        (array-IsNor 1048576)
        (omega arith)
        paired_profile
        3)
      (restarts counting (array 1048576) 2 (new paired_profile 0) paired_flash)
restarts-Resumed_example =
    restarts-Resumed counting (array 1048576) counting-IsDevice (array-IsNor 1048576) (omega arith)
      2 (new paired_profile 0) paired_flash 2 paired_profile (omega arith) paired_profile-IsProfile
      paired_flash-Shows.active_is.0 (paired_flash-Shows.slots 2 (omega arith)).0
      (paired_flash-Shows.slots 2 (omega arith)).1
