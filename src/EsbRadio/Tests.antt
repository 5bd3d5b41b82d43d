-- ===== src/EsbRadio/Tests.antt =====
-- Runs of app/src/esb_radio.rs over a radio that is always answered.
use nrf52_unifying.EsbRadio.{
  EsbRadio, Address, crc_ok, Radio, new, transmit_payload, receive_payload, dma_header,
}
use nrf52_unifying.EsbRadio.Packets.{IsEsb, Holds, transmit_payload-Holds, receive_payload_lem}
use nrf52_unifying.EsbRadio.Registers.{IsAddress, hw_address-injective}
use nrf52_unifying.Prelude.{
  ◌≡◌, refl, [], ◌∷◌, ◌++◌, length, take, drop, min, replicate, Returns, arith,
}
use nrf52_unifying.Prelude.Text.{Bytes}

abbrev pairing_address : Address
pairing_address = record { a0 = 0xBB; a1 = 0x0A; a2 = 0xDC; a3 = 0xA5; a4 = 0x75 }

pairing_address-IsAddress : IsAddress pairing_address
pairing_address-IsAddress = record {
  b0 = omega arith;
  b1 = omega arith;
  b2 = omega arith;
  b3 = omega arith;
  b4 = omega arith;
}

hw_address-injective_example : pairing_address ≡ pairing_address
hw_address-injective_example =
    hw_address-injective pairing_address pairing_address 1 pairing_address-IsAddress
      pairing_address-IsAddress refl

-- The state of this radio is the last packet that it sent.
abbrev answering : Radio Bytes
answering = record {
  transmit = λ r buf. buf;
  listen = λ r buf. (r, (crc_ok, buf));
  disable = λ r. r;
  set_base_prefix = λ r base prefix. r;
  set_frequency = λ r f. r;
}

new-IsEsb : IsEsb answering 32 (omega arith) (λ r buf. refl) (new answering 32)
new-IsEsb = record { tx_cap = refl; rx_cap = refl; pid_small = omega arith; rx_small = omega arith }

transmit_payload-Holds_example :
    Returns
      (transmit_payload answering 32 (new answering 32) [] (1 ∷ 2 ∷ 3 ∷ []))
      (λ o. Holds answering 32 (omega arith) (λ r buf. refl) 1 (1 ∷ 2 ∷ 3 ∷ []) o.0)
transmit_payload-Holds_example =
    transmit_payload-Holds answering 32 (omega arith) (λ r buf. refl) (new answering 32) []
      (1 ∷ 2 ∷ 3 ∷ []) new-IsEsb

-- An acknowledgement with two bytes has come.
abbrev answered : EsbRadio
answered = record (new answering 32) { rx_buf = 2 ∷ 0 ∷ 8 ∷ 9 ∷ replicate 30 0; rx_len = 2 }

answered-IsEsb : IsEsb answering 32 (omega arith) (λ r buf. refl) answered
answered-IsEsb = record {
  tx_cap = refl;
  rx_cap = refl;
  pid_small = omega arith;
  rx_small = omega arith;
}

abbrev buffer : Bytes
buffer = replicate 8 0

receive_payload_lem_example : Returns (receive_payload answering 32 answered buffer) (λ o.
    (o.1.1 ≡ min 2 (length buffer))
    × (o.1.0 ≡ take o.1.1 (drop dma_header answered.rx_buf) ++ drop o.1.1 buffer)
    × (o.0.rx_len ≡ 0))
receive_payload_lem_example =
    receive_payload_lem answering 32 (omega arith) (λ r buf. refl) answered buffer answered-IsEsb
