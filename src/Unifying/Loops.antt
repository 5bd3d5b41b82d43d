-- ===== src/Unifying/Loops.antt =====
-- The counts that the loops of app/src/main.rs keep.
use nrf52_unifying.Device.{Device}
use nrf52_unifying.Flash.{Nor}
use nrf52_unifying.Keymap.{char_to_hid}
use nrf52_unifying.Prelude.{
  ℕ, zero, suc, ◌+◌, ◌*◌, ◌≤◌, [], ◌∷◌, length, arith, Bool-cases, Option-cases, inl, inr,
}
use nrf52_unifying.Prelude.Text.{Bytes}
use nrf52_unifying.Unifying.{type_char}
use nrf52_unifying.Unifying.Commands.{sweeps, sweep}
use nrf52_unifying.Unifying.Handle.{type_loop}

pub sweep-le :
    {D F : Type 0} (device : Device D) (nor : Nor F) (chs : Bytes) (d : D) (acks : ℕ)
    → (sweep device nor chs d acks).1 ≤ acks + length chs
unfolding sweep
sweep-le device nor [] d acks = omega arith
sweep-le device nor (ch ∷ chs) d acks =
    let (d', acked) =
      device.probe_once (device.set_channel d ch) (0x00 ∷ 0x4F ∷ 0x00 ∷ 0x00 ∷ 0xB1 ∷ []) in
    elim (Bool-cases acked) [
      | inl yes_ ↦ rw (yes_, sweep) (omega (arith, sweep-le device nor chs d' (acks + 1)))
      | inr no_ ↦ rw (no_, sweep) (omega (arith, sweep-le device nor chs d' acks))
    ]

pub sweeps-le :
    {D F : Type 0} (device : Device D) (nor : Nor F) (n : ℕ) (d : D) (acks bound : ℕ)
    → acks + n * length device.pairing_channels ≤ bound
    → (sweeps device nor n d acks).1 ≤ bound
unfolding sweeps
sweeps-le device nor zero d acks bound h = omega (arith, h)
sweeps-le device nor (suc n) d acks bound h =
    let once = sweep device nor device.pairing_channels d acks in
    sweeps-le device nor n once.0 once.1 bound
      (grind (arith, sweep-le device nor device.pairing_channels d acks))

pub type_loop-le :
    {D F : Type 0} (device : Device D) (nor : Nor F) (text : Bytes) (d : D)
    (ok_count total bound : ℕ)
    → ok_count + length text ≤ bound
    → total + length text ≤ bound
    → ((type_loop device nor text d ok_count total).1.0 ≤ bound)
      × ((type_loop device nor text d ok_count total).1.1 ≤ bound)
unfolding type_loop
type_loop-le device nor [] d ok_count total bound ho ht = (omega (arith, ho), omega (arith, ht))
type_loop-le device nor (c ∷ text) d ok_count total bound ho ht =
    elim (Option-cases (char_to_hid c)) [
      | inl e ↦
          rw (e, type_loop)
            (type_loop-le device nor text d ok_count total bound (omega (arith, ho))
              (omega (arith, ht)))
      | inr (key, e) ↦
          let (d', typed) = type_char device d c in
          elim (Bool-cases typed) [
            | inl yes_ ↦
                rw (e, type_loop)
                  (rw (yes_, type_loop)
                    (type_loop-le device nor text d' (ok_count + 1) (total + 1) bound
                      (omega (arith, ho)) (omega (arith, ht))))
            | inr no_ ↦
                rw (e, type_loop)
                  (rw (no_, type_loop)
                    (type_loop-le device nor text d' ok_count (total + 1) bound (omega (arith, ho))
                      (omega (arith, ht))))
          ]
    ]
