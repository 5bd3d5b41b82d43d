-- ===== src/Cdc/Command.antt =====
-- `OtaCommand` and `parse_ota_command` of app/src/main.rs.
use nrf52_unifying.Prelude.{
  ℕ, ◌+◌, ◌-◌, ◌*◌, ◌^◌, Bool, true, false, ◌&&◌, Option, none, some, [], ◌∷◌, leb, ltb, ◌==◌,
  if◌then◌else◌,
}
use nrf52_unifying.Prelude.Text.{Bytes, codes, eq_bytes, strip_prefix}

pub data OtaCommand : Type 0 where
  ping info : OtaCommand
  write : ℕ → OtaCommand
  boot_image abort reboot : OtaCommand

-- The digits of `str::parse::<usize>`, with 32 bits.
unfoldable pub parse_digits : ℕ → Bytes → Option ℕ
parse_digits n [] = some n
parse_digits n (b ∷ bs) =
    let rest = parse_digits (n * 10 + (b - b'0')) bs in
    if leb b'0' b && leb b b'9' && ltb (n * 10 + (b - b'0')) (2 ^ 32) then rest else none

abbrev pub is_empty : Bytes → Bool
is_empty [] = true
is_empty (_ ∷ _) = false

-- `text.parse::<usize>()`: one plus sign may stand before the digits. Bytes that are not UTF-8 are
-- not digits either.
unfoldable pub parse_usize : Bytes → Option ℕ
unfolding parse_digits
parse_usize [] = none
parse_usize (b ∷ bs) =
    if b == b'+' then (if is_empty bs then none else parse_digits 0 bs) else parse_digits 0 (b ∷ bs)

unfoldable pub parse_ota_command : Bytes → Option OtaCommand
unfolding parse_usize
parse_ota_command line =
    if eq_bytes line (codes "PING")
    then some ping
    else if eq_bytes line (codes "INFO")
    then some info
    else if eq_bytes line (codes "BOOT")
    then some boot_image
    else if eq_bytes line (codes "ABORT")
    then some abort
    else if eq_bytes line (codes "REBOOT")
    then some reboot
    else elim (strip_prefix (codes "WRITE ") line) [
      | none ↦ none
      | some rest ↦ elim (parse_usize rest) [ none ↦ none | some size ↦ some (write size) ]
    ]
