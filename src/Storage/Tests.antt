-- ===== src/Storage/Tests.antt =====
-- Runs of app/src/storage.rs on concrete flash, and its theorems at concrete inputs.
use nrf52_unifying.Storage.Catalog.{
  Operation, store, activate, clear, Shows, operations, updates, empty, operations-Shows,
  clear_all-Shows,
}
use nrf52_unifying.Flash.{Nor}
use nrf52_unifying.Flash.Array.{Cells, array, array-IsNor}
use nrf52_unifying.Prelude.{
  ◌≡◌, refl, none, some, [], ◌∷◌, arith, replicate, if◌then◌else◌, ◌==◌, List,
}
use nrf52_unifying.Storage.{
  Profile, load, load_loop, save, next_loop, append_record, encode, decode, all_ff, clear_slot,
  clear_all, load_active_slot, save_active_slot, page_base,
}
use nrf52_unifying.Storage.Apart.{load-save_active}
use nrf52_unifying.Storage.Active.{load_active-save_active, load_active-clear_all, ActiveIsLog}
use nrf52_unifying.Storage.Clear.{load-clear_slot}
use nrf52_unifying.Storage.Codec.{IsProfile, decode-encode}
use nrf52_unifying.Storage.Isolation.{load-save_other}
use nrf52_unifying.Storage.Profiles.{load-save, SlotIsLog}

abbrev chip : Nor Cells
chip = array 0x100000

abbrev keyboard : Profile
keyboard = record {
  address = 0xBB ∷ 0x0A ∷ 0xDC ∷ 0xA5 ∷ 0x75 ∷ [];
  aes_key = replicate 16 7;
  aes_counter = 0x01020304;
  channel = 62;
}

keyboard-IsProfile : IsProfile keyboard
keyboard-IsProfile = record {
  address_len = refl;
  key_len = refl;
  address_bytes = omega arith;
  key_bytes = omega arith;
  counter_u32 = omega arith;
  channel_u8 = omega arith;
}

-- A part with a torn write: the first record of slot 1 is neither a profile nor erased.
abbrev torn : Cells
torn x = if x == 0xF9000 then 0 else 0xff

abbrev fresh : Cells
fresh x = 0xff

saved_twice :
    load chip (save chip (save chip fresh 1 keyboard) 1 (record keyboard { channel = 5 })) 1
    ≡ some (record keyboard { channel = 5 })
unfolding load load_loop save next_loop append_record encode decode all_ff page_base array
saved_twice = refl

torn_page : (load chip torn 1 ≡ none) × (load chip (save chip torn 1 keyboard) 1 ≡ some keyboard)
unfolding load load_loop save next_loop append_record encode decode all_ff page_base array
torn_page = (refl, refl)

decode-encode_example : decode (encode keyboard) ≡ some keyboard
decode-encode_example = decode-encode keyboard keyboard-IsProfile

cleared_log : SlotIsLog chip (clear_slot chip torn 1) 1
cleared_log = (load-clear_slot chip (array-IsNor 0x100000) (omega arith) torn 1 (omega arith)).1

load-save_example : load chip (save chip (clear_slot chip torn 1) 1 keyboard) 1 ≡ some keyboard
load-save_example =
    load-save chip (array-IsNor 0x100000) (omega arith) (clear_slot chip torn 1) 1 keyboard
      (omega arith) keyboard-IsProfile cleared_log

load-save_other_example : load chip (save chip torn 1 keyboard) 2 ≡ load chip torn 2
load-save_other_example =
    load-save_other chip (array-IsNor 0x100000) (omega arith) torn 1 2 keyboard (omega arith)
      keyboard-IsProfile (omega arith)

load-save_active_example : load chip (save_active_slot chip torn 3) 2 ≡ load chip torn 2
load-save_active_example =
    load-save_active chip (array-IsNor 0x100000) (omega arith) torn 3 2 (omega arith)

load_active-save_active_example :
    (load_active_slot chip (save_active_slot chip (clear_all chip torn) 2) ≡ some 2)
    × ActiveIsLog chip (save_active_slot chip (clear_all chip torn) 2)
load_active-save_active_example =
    load_active-save_active chip (array-IsNor 0x100000) (omega arith) (clear_all chip torn) 2
      (omega arith) (load_active-clear_all chip (array-IsNor 0x100000) (omega arith) torn).1

abbrev changes : List Operation
changes = store 1 keyboard ∷ activate 1 ∷ store 2 keyboard ∷ clear 2 ∷ []

operations-Shows_example :
    Shows chip (operations chip changes (clear_all chip torn)) (updates changes empty)
operations-Shows_example =
    operations-Shows chip (array-IsNor 0x100000) (omega arith) changes (clear_all chip torn) empty
      (
        (omega arith, keyboard-IsProfile),
        (omega arith, ((omega arith, keyboard-IsProfile), (omega arith, tt))),
      )
      (clear_all-Shows chip (array-IsNor 0x100000) (omega arith) torn)
