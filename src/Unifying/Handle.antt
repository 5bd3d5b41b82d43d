-- ===== src/Unifying/Handle.antt =====
-- The commands of app/src/main.rs that erase, switch and type, and `handle_unifying_command`.
use nrf52_unifying.Device.{Device}
use nrf52_unifying.Flash.{Nor}
use nrf52_unifying.Keymap.{char_to_hid}
use nrf52_unifying.Prelude.{
  ℕ, zero, suc, ◌+◌, Bool, true, false, not, ◌||◌, none, some, [], ◌∷◌, length, drop, ltb, ◌==◌,
  if◌then◌else◌, bit_and, Run, ret,
}
use nrf52_unifying.Prelude.Text.{Bytes, codes, eq_bytes, starts_with, strip_prefix, tokens}
use nrf52_unifying.Reply.{format_typed, format_switched, format_switched_empty}
use nrf52_unifying.Storage.{clear_slot, clear_all}
use nrf52_unifying.Unifying.{
  UnifyingState, send_key_report, type_char, send_report, save_current, switch_to,
}
use nrf52_unifying.Unifying.Commands.{
  Clock, formatted, parse_slot, parse_report, Outcome, says, says_formatted, radiotest, upair,
  uconnect, ukeepalive, usleep, ustatus,
}

module _ {D F : Type 0} (device : Device D) (nor : Nor F) where
  unfoldable pub delete_slot : UnifyingState D → F → ℕ → Run (Outcome device nor)
  delete_slot state flash s =
      says device nor
        (if state.active_slot == s
          then record state { paired = false; connected = false }
          else state)
        (clear_slot nor flash s) (codes "DELETED\r\n")

  unfoldable pub udelete : UnifyingState D → F → Bytes → Run (Outcome device nor)
  unfolding delete_slot parse_slot
  udelete state flash line =
      if ltb 8 (length line)
      then elim (parse_slot (drop 8 line)) [
        | none ↦ says device nor state flash (codes "ERR SLOT\r\n")
        | some s ↦ delete_slot state flash s
      ]
      else says device nor (record state { paired = false; connected = false })
          (clear_all nor flash) (codes "DELETED ALL\r\n")

  -- `USWITCH` behind `switch_to`.
  unfoldable pub switched : UnifyingState D → F → Bool → ℕ → Run (Outcome device nor)
  unfolding formatted format_switched format_switched_empty
  switched state flash has_profile slot =
      if has_profile
      then (let (d, configured) = device.configure_radio state.device in
          if configured
          then says_formatted device nor (record state { device = d; connected = true }) flash 48
              (λ out. format_switched out slot true)
          else says device nor (record state { device = d }) flash (codes "ERR RADIO\r\n"))
      else says_formatted device nor state flash 48 (λ out. format_switched_empty out slot)

  unfoldable pub uswitch : UnifyingState D → F → Bytes → Run (Outcome device nor)
  unfolding switched switch_to parse_slot
  uswitch state flash rest = elim (parse_slot rest) [
    | none ↦ says device nor state flash (codes "ERR SLOT\r\n")
    | some slot ↦
        let (state', (flash', has_profile)) = switch_to device nor state flash slot in
        switched state' flash' has_profile slot
  ]

  -- `last_activity` and the device's timeout.
  abbrev pub stirred : Clock → UnifyingState D → UnifyingState D
  stirred clock state = record state {
    last_activity = clock.now;
    device = device.set_timeout state.device 20;
  }

  abbrev pub ticks : ℕ → D → D
  ticks zero d = d
  ticks (suc n) d = ticks n (device.tick d)

  abbrev pub sent_text : Bool → Bytes
  sent_text ok = if ok then codes "OK\r\n" else codes "ERR SEND\r\n"

  unfoldable pub key_sent : UnifyingState D → F → ℕ × Bytes → Run (Outcome device nor)
  unfolding send_key_report save_current
  key_sent state flash (modifier, keys) =
      let (d, ok) = send_key_report device (ticks 5 state.device) keys modifier in
      let state' : UnifyingState D = record state { device = d } in
      says device nor state' (save_current device nor state' flash) (sent_text ok)

  unfoldable pub ukey : Clock → UnifyingState D → F → Bytes → Run (Outcome device nor)
  unfolding key_sent parse_report
  ukey clock state flash rest =
      if not state.connected
      then says device nor state flash (codes "ERR NOTCONN\r\n")
      else elim (parse_report device.keys_len (tokens rest)) [
        | none ↦ says device nor (stirred clock state) flash (codes "ERR ARG\r\n")
        | some report ↦ key_sent (stirred clock state) flash report
      ]

  unfoldable pub key_down : UnifyingState D → F → ℕ × Bytes → Run (Outcome device nor)
  unfolding send_report save_current
  key_down state flash (modifier, keys) =
      let (state', ok) = send_report device state keys modifier in
      says device nor state'
        (if bit_and (device.profile state'.device).aes_counter 0x7F == 0
          then save_current device nor state' flash
          else flash)
        (sent_text ok)

  unfoldable pub ukeydown : Clock → UnifyingState D → F → Bytes → Run (Outcome device nor)
  unfolding key_down parse_report
  ukeydown clock state flash rest =
      if not state.connected
      then says device nor state flash (codes "ERR NOTCONN\r\n")
      else elim (parse_report device.keys_len (tokens rest)) [
        | none ↦ says device nor (stirred clock state) flash (codes "ERR ARG\r\n")
        | some report ↦ key_down (stirred clock state) flash report
      ]

  -- The loop over the text, with `ok_count` and `total`.
  unfoldable pub type_loop : Bytes → D → ℕ → ℕ → D × (ℕ × ℕ)
  unfolding type_char char_to_hid
  type_loop [] d ok_count total = (d, (ok_count, total))
  type_loop (c ∷ text) d ok_count total = elim (char_to_hid c) [
    | none ↦ type_loop text d ok_count total
    | some key ↦
        let (d', typed) = type_char device d c in
        type_loop text d' (if typed then ok_count + 1 else ok_count) (total + 1)
  ]

  unfoldable pub utype : Clock → UnifyingState D → F → Bytes → Run (Outcome device nor)
  unfolding type_loop save_current formatted format_typed
  utype clock state flash text =
      if not state.connected
      then says device nor state flash (codes "ERR NOTCONN\r\n")
      else (let (d, (ok_count, total)) =
            type_loop text (ticks 5 (stirred clock state).device) 0 0 in
          let state' : UnifyingState D = record (stirred clock state) { device = d } in
          says_formatted device nor state' (save_current device nor state' flash) 48
            (λ out. format_typed out ok_count total))

  abbrev pub usage : Bytes
  usage =
      codes
        "UCMDS: VER UPAIR [slot] UCONNECT UTYPE <text> UKEY <mod> [keys] UKEYDOWN <mod> [keys] USWITCH <slot> USLEEP UKEEPALIVE USTATUS UDELETE [slot]\r\n"

  -- The commands with an argument behind a space.
  unfoldable pub handle_prefixed : Clock → UnifyingState D → F → Bytes → Run (Outcome device nor)
  unfolding uswitch ukey ukeydown utype
  handle_prefixed clock state flash line = elim (strip_prefix (codes "USWITCH ") line) [
    | some rest ↦ uswitch state flash rest
    | none ↦ elim (strip_prefix (codes "UKEY ") line) [
      | some rest ↦ ukey clock state flash rest
      | none ↦ elim (strip_prefix (codes "UKEYDOWN ") line) [
        | some rest ↦ ukeydown clock state flash rest
        | none ↦ elim (strip_prefix (codes "UTYPE ") line) [
          | some text ↦ utype clock state flash text
          | none ↦ says device nor state flash usage
        ]
      ]
    ]
  ]

  -- `VERSION_REPLY` holds the time of the build, which the build makes.
  unfoldable pub handle_unifying_command :
      Bytes → Clock → UnifyingState D → F → Bytes → Run (Outcome device nor)
  unfolding radiotest upair uconnect ukeepalive usleep ustatus udelete handle_prefixed
  handle_unifying_command version_reply clock state flash line =
      if eq_bytes line []
      then ret (state, (flash, []))
      else if eq_bytes line (codes "URADIOTEST")
      then radiotest device nor state flash
      else if eq_bytes line (codes "UPAIR") || starts_with (codes "UPAIR ") line
      then upair device nor clock state flash line
      else if eq_bytes line (codes "UCONNECT")
      then uconnect device nor state flash
      else if eq_bytes line (codes "UKEEPALIVE")
      then ukeepalive device nor state flash
      else if eq_bytes line (codes "USLEEP")
      then usleep device nor state flash
      else if eq_bytes line (codes "USTATUS")
      then ustatus device nor state flash
      else if eq_bytes line (codes "VER")
      then says device nor state flash version_reply
      else if eq_bytes line (codes "UDELETE") || starts_with (codes "UDELETE ") line
      then udelete state flash line
      else handle_prefixed clock state flash line
