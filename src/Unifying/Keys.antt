-- ===== src/Unifying/Keys.antt =====
-- The answers of the commands of app/src/main.rs that test the radio and send keys.
use nrf52_unifying.Device.{Device, IsDevice}
use nrf52_unifying.Flash.{Nor}
use nrf52_unifying.Prelude.{
  ℕ, zero, suc, ◌+◌, ◌^◌, ◌≤◌, ◌<◌, ◌≡◌, refl, not, ◌∷◌, length, ret, Returns, Returns-bind, arith,
  Bool-cases, Option-cases, inl, inr,
}
use nrf52_unifying.Prelude.Text.{Bytes, tokens}
use nrf52_unifying.Reply.{format_radiotest, format_typed}
use nrf52_unifying.Reply.Sequence.{join}
use nrf52_unifying.Reply.Formats.{
  typed_parts, radiotest_parts, format_typed_lem, format_radiotest_lem,
}
use nrf52_unifying.Storage.{max_profiles}
use nrf52_unifying.Unifying.{UnifyingState, send_report}
use nrf52_unifying.Unifying.Commands.{Clock, parse_report, radiotest, radiotest_loop, sweeps}
use nrf52_unifying.Unifying.Handle.{
  stirred, ticks, key_sent, ukey, key_down, ukeydown, type_loop, utype,
}
use nrf52_unifying.Unifying.Answers.{formatted_lem, Answered}
use nrf52_unifying.Unifying.Loops.{sweeps-le, type_loop-le}

module _ {D F : Type 0} (device : Device D) (nor : Nor F) (laws : IsDevice device) where
  radiotest_loop-Returns :
      (n : ℕ) (d : D) (enc : ℕ)
      → enc + n < 256
      → Returns (radiotest_loop device nor n d enc) (λ r. 0 < length r.1)
  unfolding radiotest_loop
  radiotest_loop-Returns zero d enc h = omega arith
  radiotest_loop-Returns (suc n) d enc h =
      let swept =
        sweeps device nor 3
          (device.set_address (device.set_addr_encoding d enc) device.pairing_address) 0 in
      let few : swept.1 ≤ 768 =
        sweeps-le device nor 3
          (device.set_address (device.set_addr_encoding d enc) device.pairing_address) 0 768
          (omega (arith, laws.channels_few)) in
      rw
        (formatted_lem 48 (λ out. format_radiotest out enc swept.1)
          (join (radiotest_parts enc swept.1))
          (format_radiotest_lem enc swept.1 (omega (arith, h)) (omega (arith, few))))
        (Returns-bind (radiotest_loop device nor n swept.0 (enc + 1))
          (λ r. ret (r.0, join (radiotest_parts enc swept.1) ∷ r.1)) (λ r. 0 < length r.1)
          (λ r. 0 < length r.1) (radiotest_loop-Returns n swept.0 (enc + 1) (omega (arith, h)))
          (λ r _. omega arith))

  pub radiotest-Answered :
      (state : UnifyingState D) (flash : F)
      → state.active_slot < max_profiles
      → Returns (radiotest device nor state flash) (Answered device nor laws)
  unfolding radiotest
  radiotest-Answered state flash h =
      let configured = device.configure_radio state.device in
      elim (Bool-cases configured.1) [
        | inl ok ↦ rw ok (
            Returns-bind (radiotest_loop device nor 4 configured.0 0)
              (λ r. ret (record state { device = r.0 }, (flash, r.1))) (λ r. 0 < length r.1)
              (Answered device nor laws) (radiotest_loop-Returns 4 configured.0 0 (omega arith))
              (λ r l. (h, l)))
        | inr bad ↦ rw bad (h, omega arith)
      ]

  pub send_report-slot :
      (state : UnifyingState D) (keys : Bytes) (modifier : ℕ)
      → (send_report device state keys modifier).0.active_slot ≡ state.active_slot
  unfolding send_report
  send_report-slot state keys modifier = refl

  pub ukey-Answered :
      (clock : Clock) (state : UnifyingState D) (flash : F) (rest : Bytes)
      → state.active_slot < max_profiles
      → Returns (ukey device nor clock state flash rest) (Answered device nor laws)
  unfolding ukey key_sent
  ukey-Answered clock state flash rest h = elim (Bool-cases (not state.connected)) [
    | inl off ↦ rw off (h, omega arith)
    | inr on ↦ rw on (elim (Option-cases (parse_report device.keys_len (tokens rest))) [
      | inl e ↦ rw e (h, omega arith)
      | inr (report, e) ↦ rw e (h, omega arith)
    ])
  ]

  pub ukeydown-Answered :
      (clock : Clock) (state : UnifyingState D) (flash : F) (rest : Bytes)
      → state.active_slot < max_profiles
      → Returns (ukeydown device nor clock state flash rest) (Answered device nor laws)
  unfolding ukeydown key_down send_report
  ukeydown-Answered clock state flash rest h = elim (Bool-cases (not state.connected)) [
    | inl off ↦ rw off (h, omega arith)
    | inr on ↦ rw on (elim (Option-cases (parse_report device.keys_len (tokens rest))) [
      | inl e ↦ rw e (h, omega arith)
      | inr (report, e) ↦ rw e (h, omega arith)
    ])
  ]

  pub utype-Answered :
      (clock : Clock) (state : UnifyingState D) (flash : F) (text : Bytes)
      → state.active_slot < max_profiles
      → length text < 2 ^ 32
      → Returns (utype device nor clock state flash text) (Answered device nor laws)
  unfolding utype
  utype-Answered clock state flash text h l = elim (Bool-cases (not state.connected)) [
    | inl off ↦ rw off (h, omega arith)
    | inr on ↦ rw on (
        let typed =
          type_loop device nor text (ticks device nor 5 (stirred device nor clock state).device) 0
            0 in
        let (ho, ht) =
          type_loop-le device nor text (ticks device nor 5 (stirred device nor clock state).device)
            0 0 (length text) (omega arith) (omega arith) in
        rw
          (formatted_lem 48 (λ out. format_typed out typed.1.0 typed.1.1)
            (join (typed_parts typed.1.0 typed.1.1))
            (format_typed_lem typed.1.0 typed.1.1 (omega (arith, ho, l)) (omega (arith, ht, l))))
          (h, omega arith))
  ]
