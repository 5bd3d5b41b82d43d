-- ===== src/Keymap.antt =====
-- app/src/keymap.rs: the ASCII characters as HID scancodes.
mod Layout
mod Tests
use nrf52_unifying.Prelude.{
  ℕ, ◌+◌, ◌-◌, ◌≡◌, refl, Bool, true, false, ◌&&◌, ◌||◌, Option, none, some, List, [], ◌∷◌, leb,
  ◌==◌, if◌then◌else◌,
}

-- The arms for single characters.
abbrev single_keys : List (ℕ × (ℕ × Bool))
single_keys =
    (b'0', (0x27, false))
    ∷ (b'\n', (0x28, false))
    ∷ (b'\r', (0x28, false))
    ∷ (0x1b, (0x29, false))
    ∷ (0x08, (0x2A, false))
    ∷ (b'\t', (0x2B, false))
    ∷ (b' ', (0x2C, false))
    ∷ (b'-', (0x2D, false))
    ∷ (b'=', (0x2E, false))
    ∷ (b'[', (0x2F, false))
    ∷ (b']', (0x30, false))
    ∷ (b'\\', (0x31, false))
    ∷ (b';', (0x33, false))
    ∷ (39, (0x34, false))
    ∷ (b'`', (0x35, false))
    ∷ (b',', (0x36, false))
    ∷ (b'.', (0x37, false))
    ∷ (b'/', (0x38, false))
    ∷ (b'!', (0x1E, true))
    ∷ (b'@', (0x1F, true))
    ∷ (b'#', (0x20, true))
    ∷ (b'$', (0x21, true))
    ∷ (b'%', (0x22, true))
    ∷ (b'^', (0x23, true))
    ∷ (b'&', (0x24, true))
    ∷ (b'*', (0x25, true))
    ∷ (b'(', (0x26, true))
    ∷ (b')', (0x27, true))
    ∷ (b'_', (0x2D, true))
    ∷ (b'+', (0x2E, true))
    ∷ (b'{', (0x2F, true))
    ∷ (b'}', (0x30, true))
    ∷ (b'|', (0x31, true))
    ∷ (b':', (0x33, true))
    ∷ (34, (0x34, true))
    ∷ (b'~', (0x35, true))
    ∷ (b'<', (0x36, true))
    ∷ (b'>', (0x37, true))
    ∷ (b'?', (0x38, true))
    ∷ []

abbrev find_key : List (ℕ × (ℕ × Bool)) → ℕ → Option (ℕ × Bool)
find_key [] c = none
find_key ((k, r) ∷ rs) c = if k == c then some r else find_key rs c

-- The scancode, and whether it needs shift.
unfoldable pub char_to_hid : ℕ → Option (ℕ × Bool)
char_to_hid c =
    if leb b'a' c && leb c b'z'
    then some (0x04 + (c - b'a'), false)
    else if leb b'A' c && leb c b'Z'
    then some (0x04 + (c - b'A'), true)
    else if leb b'1' c && leb c b'9'
    then some (0x1E + (c - b'1'), false)
    else find_key single_keys c
