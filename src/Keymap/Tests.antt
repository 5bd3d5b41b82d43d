-- ===== src/Keymap/Tests.antt =====
-- Keys of app/src/keymap.rs.
use nrf52_unifying.Prelude.{◌≡◌, refl, arith, some, true}
use nrf52_unifying.Keymap.{char_to_hid}
use nrf52_unifying.Keymap.Layout.{on_host, meant, char_to_hid_lem}

question_mark : char_to_hid b'?' ≡ some (0x38, true)
unfolding char_to_hid
question_mark = refl

char_to_hid_lem_example : on_host (char_to_hid b'~') ≡ meant b'~'
char_to_hid_lem_example = char_to_hid_lem b'~' (omega arith)
