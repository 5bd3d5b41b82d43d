-- ===== src/Unifying/Total.antt =====
-- The answer of `handle_unifying_command` of app/src/main.rs to any line.
use nrf52_unifying.Device.{Device, IsDevice}
use nrf52_unifying.Flash.{Nor}
use nrf52_unifying.Prelude.{
  ◌^◌, ◌≤◌, ◌<◌, ◌≡◌, ap, false, ◌||◌, some, [], length, length-append, drop, ltb, if◌then◌else◌,
  Returns, arith, Bool-cases, Option-cases, inl, inr,
}
use nrf52_unifying.Prelude.Text.{
  Bytes, codes, eq_bytes, starts_with, strip_prefix, strip_prefix-eq_some,
}
use nrf52_unifying.Storage.{max_profiles}
use nrf52_unifying.Unifying.{UnifyingState}
use nrf52_unifying.Unifying.Commands.{Clock, parse_slot, says, upair, ukeepalive, usleep, ustatus}
use nrf52_unifying.Unifying.Handle.{udelete, handle_prefixed, handle_unifying_command}
use nrf52_unifying.Unifying.Answers.{parse_slot-lt, Answered, pair_into-Answered, uconnect-Answered}
use nrf52_unifying.Unifying.Links.{
  ustatus-Answered, ukeepalive-Answered, usleep-Answered, udelete-Answered, uswitch-Answered,
}
use nrf52_unifying.Unifying.Keys.{
  radiotest-Answered, ukey-Answered, ukeydown-Answered, utype-Answered,
}

module _ {D F : Type 0} (device : Device D) (nor : Nor F) (laws : IsDevice device) where
  rest-shorter : (p line rest : Bytes) → strip_prefix p line ≡ some rest → length rest ≤ length line
  rest-shorter p line rest e =
      omega (arith, ap length (strip_prefix-eq_some p line e), length-append p rest)

  handle_prefixed-Answered :
      (clock : Clock) (state : UnifyingState D) (flash : F) (line : Bytes)
      → state.active_slot < max_profiles
      → length line < 2 ^ 32
      → Returns (handle_prefixed device nor clock state flash line) (Answered device nor laws)
  unfolding handle_prefixed
  handle_prefixed-Answered clock state flash line h l =
      elim (Option-cases (strip_prefix (codes "USWITCH ") line)) [
        | inr (rest, e) ↦
            rw (e, handle_prefixed) (uswitch-Answered device nor laws state flash rest h)
        | inl e ↦
            rw (e, handle_prefixed)
              (elim (Option-cases (strip_prefix (codes "UKEY ") line)) [
                | inr (rest, e2) ↦ rw e2 (ukey-Answered device nor laws clock state flash rest h)
                | inl e2 ↦ rw e2 (elim (Option-cases (strip_prefix (codes "UKEYDOWN ") line)) [
                  | inr (rest, e3) ↦
                      rw e3 (ukeydown-Answered device nor laws clock state flash rest h)
                  | inl e3 ↦ rw e3 (elim (Option-cases (strip_prefix (codes "UTYPE ") line)) [
                    | inr (text, e4) ↦ rw e4 (
                        utype-Answered device nor laws clock state flash text h
                          (omega (arith, l, rest-shorter (codes "UTYPE ") line text e4)))
                    | inl e4 ↦ rw e4 (h, omega arith)
                  ])
                ])
              ])
      ]

  upair-Answered :
      (clock : Clock) (state : UnifyingState D) (flash : F) (line : Bytes)
      → state.active_slot < max_profiles
      → Returns (upair device nor clock state flash line) (Answered device nor laws)
  unfolding upair
  upair-Answered clock state flash line h = elim (Bool-cases (ltb 6 (length line))) [
    | inr short ↦
        rw short (pair_into-Answered device nor laws clock state flash state.active_slot h h)
    | inl long ↦ rw long (elim (Option-cases (parse_slot (drop 6 line))) [
      | inl e ↦ rw e (h, omega arith)
      | inr (slot, e) ↦ rw e (
          pair_into-Answered device nor laws clock state flash slot h
            (parse_slot-lt (drop 6 line) slot e))
    ])
  ]

  -- The commands behind `UCONNECT` in the chain of tests.
  simple_line-Answered :
      (version_reply : Bytes) (clock : Clock) (state : UnifyingState D) (flash : F) (line : Bytes)
      → state.active_slot < max_profiles
      → length line < 2 ^ 32
      → Returns
          (if eq_bytes line (codes "UKEEPALIVE")
            then ukeepalive device nor state flash
            else if eq_bytes line (codes "USLEEP")
            then usleep device nor state flash
            else if eq_bytes line (codes "USTATUS")
            then ustatus device nor state flash
            else if eq_bytes line (codes "VER")
            then says device nor state flash version_reply
            else if eq_bytes line (codes "UDELETE") || starts_with (codes "UDELETE ") line
            then udelete device nor state flash line
            else handle_prefixed device nor clock state flash line)
          (Answered device nor laws)
  simple_line-Answered version_reply clock state flash line h l =
      elim (Bool-cases (eq_bytes line (codes "UKEEPALIVE"))) [
        | inl c ↦ rw c (ukeepalive-Answered device nor laws state flash h)
        | inr c ↦ rw c (elim (Bool-cases (eq_bytes line (codes "USLEEP"))) [
          | inl d ↦ rw d (usleep-Answered device nor laws state flash h)
          | inr d ↦ rw d (elim (Bool-cases (eq_bytes line (codes "USTATUS"))) [
            | inl e ↦ rw e (ustatus-Answered device nor laws state flash h)
            | inr e ↦ rw e (elim (Bool-cases (eq_bytes line (codes "VER"))) [
              | inl v ↦ rw v (h, omega arith)
              | inr v ↦
                  rw v
                    (elim (Bool-cases
                      (eq_bytes line (codes "UDELETE") || starts_with (codes "UDELETE ") line)) [
                        | inl u ↦ rw u (udelete-Answered device nor laws state flash line h)
                        | inr u ↦ rw u (handle_prefixed-Answered clock state flash line h l)
                      ])
            ])
          ])
        ])
      ]

  -- With a device whose profile fields have the range of their types, hold what is assigned to
  -- them and are kept when the radio is configured, and that has fewer than 256 pairing channels,
  -- a command line that is not empty and shorter than 2 ^ 32, in a state whose active slot is one
  -- of the profiles', is handled without a panic and gets at least one reply, and the active slot
  -- is one of the profiles' again.
  pub handle_unifying_command-Answered :
      (version_reply : Bytes) (clock : Clock) (state : UnifyingState D) (flash : F) (line : Bytes)
      → state.active_slot < max_profiles
      → eq_bytes line [] ≡ false
      → length line < 2 ^ 32
      → Returns
          (handle_unifying_command device nor version_reply clock state flash line)
          (Answered device nor laws)
  unfolding handle_unifying_command
  handle_unifying_command-Answered version_reply clock state flash line h ne l =
      rw ne (elim (Bool-cases (eq_bytes line (codes "URADIOTEST"))) [
        | inl c ↦ rw c (radiotest-Answered device nor laws state flash h)
        | inr c ↦
            rw c
              (elim (Bool-cases
                (eq_bytes line (codes "UPAIR") || starts_with (codes "UPAIR ") line)) [
                  | inl d ↦ rw d (upair-Answered clock state flash line h)
                  | inr d ↦ rw d (elim (Bool-cases (eq_bytes line (codes "UCONNECT"))) [
                    | inl e ↦ rw e (uconnect-Answered device nor laws state flash h)
                    | inr e ↦ rw e (simple_line-Answered version_reply clock state flash line h l)
                  ])
                ])
      ])
