-- ===== src/Keymap/Layout.antt =====
-- The US keyboard of the HID usage tables, against app/src/keymap.rs.
use nrf52_unifying.Prelude.{
  ℕ, ◌-◌, ◌<◌, ◌≡◌, refl, Bool, true, false, ◌&&◌, ◌||◌, Option, none, some, ◌∷◌, ◌++◌, arith, leb,
  ◌==◌, if◌then◌else◌, get_or, ==_iff, ap,
}
use nrf52_unifying.Prelude.Bits.{all_below, all_below→eq}
use nrf52_unifying.Prelude.Text.{Bytes, codes}
use nrf52_unifying.Keymap.{char_to_hid}

-- The usages from 0x04 on, without and with shift; 0x32 is not on a US keyboard.
abbrev plain_row : Bytes
plain_row =
    codes "abcdefghijklmnopqrstuvwxyz1234567890"
    ++ (10 ∷ 27 ∷ 8 ∷ 9 ∷ 32 ∷ codes "-=[]")
    ++ (92 ∷ 0 ∷ b';' ∷ 39 ∷ codes "`,./")

abbrev shifted_row : Bytes
shifted_row =
    codes "ABCDEFGHIJKLMNOPQRSTUVWXYZ!@#$%^&*()"
    ++ (10 ∷ 27 ∷ 8 ∷ 9 ∷ 32 ∷ codes "_+{}|")
    ++ (0 ∷ b':' ∷ 34 ∷ codes "~<>?")

-- What the host types for a usage.
unfoldable pub layout : ℕ × Bool → ℕ
layout (usage, shift) = get_or (if shift then shifted_row else plain_row) (usage - 4) 0

-- Printable ASCII, and backspace, tab, line feed, carriage return and escape.
unfoldable pub is_typeable : ℕ → Bool
is_typeable c = leb b' ' c && leb c b'~' || c == 8 || c == 9 || c == 10 || c == 13 || c == 27

abbrev pub on_host : Option (ℕ × Bool) → Option ℕ
on_host none = none
on_host (some key) = some (layout key)

abbrev pub meant : ℕ → Option ℕ
meant c = if is_typeable c then some (if c == 13 then 10 else c) else none

abbrev same : Option ℕ → Option ℕ → Bool
same none none = true
same (some a) (some b) = a == b
same _ _ = false

same→eq : (a b : Option ℕ) → same a b ≡ true → a ≡ b
same→eq none none h = refl
same→eq none (some b) h = absurd (ground arith)
same→eq (some a) none h = absurd (ground arith)
same→eq (some a) (some b) h = ap some ((==_iff a b).0 h)

layout_table : all_below 256 (λ c. same (on_host (char_to_hid c)) (meant c)) ≡ true
unfolding all_below layout is_typeable char_to_hid
layout_table = refl

-- On a US keyboard the usage of a byte types that byte, or a line feed for a carriage return, and
-- exactly the bytes below 256 that can be typed have a usage.
pub char_to_hid_lem : (c : ℕ) → c < 256 → on_host (char_to_hid c) ≡ meant c
char_to_hid_lem c h =
    same→eq (on_host (char_to_hid c)) (meant c)
      (all_below→eq 256 (λ x. same (on_host (char_to_hid x)) (meant x)) c layout_table h)
