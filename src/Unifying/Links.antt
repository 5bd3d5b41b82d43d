-- ===== src/Unifying/Links.antt =====
-- The answers of the commands of app/src/main.rs that report, sleep, erase and switch.
use nrf52_unifying.Device.{Device, IsDevice}
use nrf52_unifying.Flash.{Nor}
use nrf52_unifying.Prelude.{
  ℕ, ◌<◌, ◌≡◌, refl, sym, subst, Bool, true, false, not, length, drop, ltb, ◌==◌, if◌then◌else◌,
  Returns, arith, Bool-cases, Option-cases, inl, inr,
}
use nrf52_unifying.Prelude.Text.{Bytes, codes}
use nrf52_unifying.Reply.{format_status, format_switched, format_switched_empty}
use nrf52_unifying.Reply.Sequence.{join}
use nrf52_unifying.Reply.Formats.{
  status_parts, switched_parts, format_status_lem, format_switched_lem, format_switched_empty_lem,
}
use nrf52_unifying.Storage.{max_profiles, save_active_slot, load}
use nrf52_unifying.Unifying.{
  UnifyingState, save_current, switch_to, load_slot, current_profile, apply_profile,
}
use nrf52_unifying.Unifying.Commands.{parse_slot, says, ukeepalive, usleep, ustatus}
use nrf52_unifying.Unifying.Handle.{delete_slot, udelete, switched, uswitch}
use nrf52_unifying.Unifying.Answers.{formatted_lem, parse_slot-lt, Answered}

module _ {D F : Type 0} (device : Device D) (nor : Nor F) (laws : IsDevice device) where
  pub ustatus-Answered :
      (state : UnifyingState D) (flash : F)
      → state.active_slot < max_profiles
      → Returns (ustatus device nor state flash) (Answered device nor laws)
  unfolding ustatus current_profile
  ustatus-Answered state flash h =
      let p = device.profile state.device in
      let wf = laws.profile_typed state.device in
      rw
        (formatted_lem 96
          (λ out.
            format_status out state.active_slot state.paired state.connected p.channel
              p.aes_counter)
          (join
            (status_parts state.active_slot state.paired state.connected p.channel p.aes_counter))
          (format_status_lem state.active_slot state.paired state.connected p.channel p.aes_counter
            (omega (arith, h)) wf.channel_u8 wf.counter_u32))
        (h, omega arith)

  pub ukeepalive-Answered :
      (state : UnifyingState D) (flash : F)
      → state.active_slot < max_profiles
      → Returns (ukeepalive device nor state flash) (Answered device nor laws)
  unfolding ukeepalive
  ukeepalive-Answered state flash h = elim (Bool-cases (not state.connected)) [
    | inl off ↦ rw off (h, omega arith)
    | inr on ↦ rw on (h, omega arith)
  ]

  pub usleep-Answered :
      (state : UnifyingState D) (flash : F)
      → state.active_slot < max_profiles
      → Returns (usleep device nor state flash) (Answered device nor laws)
  unfolding usleep
  usleep-Answered state flash h = go state.connected
    where
      asleep : UnifyingState D
      asleep = record state { connected = false; device = device.disable_radio state.device }

      go :
          (b : Bool)
          → Returns
              (if b
                then says device nor asleep
                    (save_current device nor asleep flash)
                    (codes "SLEEP\r\n")
                else says device nor state flash (codes "SLEEP\r\n"))
              (Answered device nor laws)
      go true = (h, omega arith)
      go false = (h, omega arith)

  pub udelete-Answered :
      (state : UnifyingState D) (flash : F) (line : Bytes)
      → state.active_slot < max_profiles
      → Returns (udelete device nor state flash line) (Answered device nor laws)
  unfolding udelete delete_slot
  udelete-Answered state flash line h = elim (Bool-cases (ltb 8 (length line))) [
    | inr all ↦ rw all (h, omega arith)
    | inl one ↦ rw one (elim (Option-cases (parse_slot (drop 8 line))) [
      | inl e ↦ rw e (h, omega arith)
      | inr (s, e) ↦ rw e (elim (Bool-cases (state.active_slot == s)) [
        | inl same ↦ rw same (h, omega arith)
        | inr other ↦ rw other (h, omega arith)
      ])
    ])
  ]

  pub switched-Answered :
      (state : UnifyingState D) (flash : F) (has_profile : Bool) (slot : ℕ)
      → state.active_slot < max_profiles
      → slot < max_profiles
      → Returns (switched device nor state flash has_profile slot) (Answered device nor laws)
  unfolding switched
  switched-Answered state flash false slot h hs =
      rw
        (formatted_lem 48 (λ out. format_switched_empty out slot)
          (join (switched_parts slot (codes " EMPTY")))
          (format_switched_empty_lem slot (omega (arith, hs))))
        (h, omega arith)
  switched-Answered state flash true slot h hs =
      elim (Bool-cases (device.configure_radio state.device).1) [
        | inl ok ↦ rw ok (
            rw
              (formatted_lem 48 (λ out. format_switched out slot true)
                (join (switched_parts slot (codes " CONNECTED")))
                (format_switched_lem slot (omega (arith, hs))))
              (h, omega arith))
        | inr bad ↦ rw bad (h, omega arith)
      ]

  pub load_slot-slot :
      (state : UnifyingState D) (flash : F) (slot : ℕ)
      → (load_slot device nor state flash slot).0.active_slot ≡ state.active_slot
  unfolding load_slot apply_profile
  load_slot-slot state flash slot = elim (Option-cases (load nor flash slot)) [
    | inl e ↦ rw (e, load_slot) refl
    | inr (p, e) ↦ rw (e, load_slot) refl
  ]

  pub switch_to-slot :
      (state : UnifyingState D) (flash : F) (slot : ℕ)
      → (switch_to device nor state flash slot).0.active_slot ≡ slot
  unfolding switch_to
  switch_to-slot state flash slot = elim (Bool-cases (slot == state.active_slot)) [
    | inl same ↦ rw (same, switch_to) (ground (arith, same))
    | inr other ↦
        rw (other, switch_to)
          (load_slot-slot (record state { connected = false; link_up = false; active_slot = slot })
            (save_active_slot nor (save_current device nor state flash) slot) slot)
  ]

  pub uswitch-Answered :
      (state : UnifyingState D) (flash : F) (rest : Bytes)
      → state.active_slot < max_profiles
      → Returns (uswitch device nor state flash rest) (Answered device nor laws)
  unfolding uswitch
  uswitch-Answered state flash rest h = elim (Option-cases (parse_slot rest)) [
    | inl e ↦ rw (e, uswitch) (h, omega arith)
    | inr (slot, e) ↦
        let lt = parse_slot-lt rest slot e in
        let (state', (flash', has_profile)) = switch_to device nor state flash slot in
        rw (e, uswitch)
          (switched-Answered state' flash' has_profile slot
            (subst (λ n. n < max_profiles) (sym (switch_to-slot state flash slot)) lt) lt)
  ]
