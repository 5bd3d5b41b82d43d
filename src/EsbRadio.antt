-- ===== src/EsbRadio.antt =====
-- app/src/esb_radio.rs: packets and their acknowledgements, and the address registers.
-- The clock cycles in a microsecond only set the length of the waits, and are left out.
pub mod Registers
pub mod Packets
mod Tests
use nrf52_unifying.Prelude.{
  ℕ, zero, suc, ◌+◌, ◌*◌, ◌/◌, ◌%◌, ◌^◌, Bool, true, false, not, ◌&&◌, [], ◌∷◌, length, get_or, set,
  drop, replicate, take, min, leb, ltb, ◌==◌, if◌then◌else◌, bit_and, bit_or, Run, ret, ◌>>=◌,
}
use nrf52_unifying.Prelude.Buffer.{store, copy, slice_to}
use nrf52_unifying.Prelude.Text.{Bytes}

abbrev pub dma_header : ℕ
dma_header = 2

pub record EsbRadio : Type 0 where
  pub tx_buf : Bytes
  pub rx_buf : Bytes
  pub pid : ℕ
  pub retransmit_count : ℕ
  pub retransmit_delay : ℕ
  pub rx_len : ℕ
  pub addr_encoding : ℕ

-- How a wait for an acknowledgement ends.
pub data Ack : Type 0 where
  timed_out bad_crc crc_ok : Ack

-- The RADIO of the nRF52840 with its registers, which are not part of the repository: a transmission
-- of the buffer, the wait for the acknowledgement with what the DMA leaves of the receive buffer,
-- and the registers that are set.
pub record Radio (R : Type 0) : Type 0 where
  pub transmit : R → Bytes → R
  pub listen : R → Bytes → R × (Ack × Bytes)
  pub disable : R → R
  pub set_base_prefix : R → ℕ → ℕ → R
  pub set_frequency : R → ℕ → R

-- `u8::reverse_bits`, a bit in each round.
unfoldable pub reverse_loop : ℕ → ℕ → ℕ → ℕ
reverse_loop zero b acc = acc
reverse_loop (suc rounds) b acc = reverse_loop rounds (b / 2) (acc * 2 + b % 2)

unfoldable pub reverse_bits : ℕ → ℕ
unfolding reverse_loop
reverse_bits b = reverse_loop 8 b 0

-- `pack_base` of `hw_address`: `u32::from_be_bytes` of the reversed bytes.
unfoldable pub pack_base : ℕ → ℕ → ℕ → ℕ → ℕ
unfolding reverse_bits
pack_base a b c d =
    ((reverse_bits a * 256 + reverse_bits b) * 256 + reverse_bits c) * 256 + reverse_bits d

-- An address is an array of five bytes.
pub record Address : Type 0 where
  pub a0 : ℕ
  pub a1 : ℕ
  pub a2 : ℕ
  pub a3 : ℕ
  pub a4 : ℕ

-- `rev` is `a4, a3, a2, a1, a0`.
unfoldable pub hw_address : Address → ℕ → ℕ × ℕ
hw_address a encoding =
    if encoding == 0
    then (pack_base a.a4 a.a3 a.a2 a.a1, reverse_bits a.a0)
    else if encoding == 1
    then (pack_base a.a3 a.a2 a.a1 a.a0, reverse_bits a.a4)
    else if encoding == 2
    then (pack_base a.a0 a.a1 a.a2 a.a3, reverse_bits a.a4)
    else (pack_base a.a1 a.a2 a.a3 a.a4, reverse_bits a.a0)

-- `MAX_PAYLOAD_LEN` is a constant of rust-unifying.
module _ {R : Type 0} (radio : Radio R) (max_payload : ℕ) where
  -- `EsbRadio::new`
  abbrev pub new : EsbRadio
  new = record {
    tx_buf = replicate (dma_header + max_payload) 0;
    rx_buf = replicate (dma_header + max_payload) 0;
    pid = 0;
    retransmit_count = 15;
    retransmit_delay = 15;
    rx_len = 0;
    addr_encoding = 1;
  }

  unfoldable pub set_addr_encoding : EsbRadio → ℕ → EsbRadio
  set_addr_encoding e encoding = record e { addr_encoding = encoding }

  -- What is made of an acknowledgement; on time-out the radio is disabled.
  unfoldable pub heard : EsbRadio → R → Ack → EsbRadio × (R × Bool)
  heard e r timed_out = (e, (radio.disable r, false))
  heard e r bad_crc = (record e { rx_len = 0 }, (r, false))
  heard e r crc_ok =
      let len = get_or e.rx_buf 0 0 in
      (record e { rx_len = if ltb 0 len && leb len max_payload then len % 256 else 0 }, (r, true))

  unfoldable pub tx_once : EsbRadio → R → EsbRadio × (R × Bool)
  tx_once e r =
      let (r', (ack, rx_buf)) = radio.listen (radio.transmit r e.tx_buf) e.rx_buf in
      heard (record e { rx_buf = rx_buf }) r' ack

  -- The packet in the buffer: `[LENGTH, S1, payload...]`.
  unfoldable pub fill : EsbRadio → Bytes → Run EsbRadio
  fill e payload =
      let len = min (length payload) max_payload in
      let pid = bit_and (e.pid + 1) 0x03 in
      store e.tx_buf 0 (len % 256) >>= λ b0. store b0 1 (bit_or (pid * 2 % 256) 0x01) >>= λ b1.
      slice_to payload len >>= λ front. copy b1 dma_header front >>= λ tx_buf.
      ret (record e { pid = pid; tx_buf = tx_buf; rx_len = 0 })

  unfoldable pub probe_once : EsbRadio → R → Bytes → Run (EsbRadio × (R × Bool))
  probe_once e r payload = fill e payload >>= λ e'. ret (tx_once e' r)

  -- The loop over the attempts, with those that are left.
  unfoldable pub attempt_loop : ℕ → EsbRadio → R → EsbRadio × (R × Bool)
  attempt_loop zero e r = (e, (r, false))
  attempt_loop (suc left) e r =
      let (e', (r', acked)) = tx_once e r in
      elim acked [ true ↦ (e', (r', true)) | false ↦ attempt_loop left e' r' ]

  unfoldable pub transmit_payload : EsbRadio → R → Bytes → Run (EsbRadio × (R × Bool))
  transmit_payload e r payload =
      fill e payload >>= λ e'. ret (attempt_loop (e'.retransmit_count + 1) e' r)

  -- Into a buffer of the caller: the buffer and the length.
  unfoldable pub receive_payload : EsbRadio → Bytes → Run (EsbRadio × (Bytes × ℕ))
  receive_payload e payload =
      let len = min e.rx_len (length payload) in
      slice_to e.rx_buf (dma_header + len) >>= λ front.
      copy payload 0 (drop dma_header front) >>= λ payload'.
      ret (record e { rx_len = 0 }, (payload', len % 256))

  unfoldable pub payload_available : EsbRadio → Bool
  payload_available e = not (e.rx_len == 0)

  unfoldable pub payload_size : EsbRadio → ℕ
  payload_size e = e.rx_len

  unfoldable pub set_address : EsbRadio → R → Address → R
  set_address e r address =
      let (base, prefix) = hw_address address e.addr_encoding in radio.set_base_prefix r base prefix

  unfoldable pub set_channel : R → ℕ → R
  set_channel r channel = radio.set_frequency r (min channel 100)

  unfoldable pub set_retries : EsbRadio → ℕ → ℕ → EsbRadio
  set_retries e delay count = record e { retransmit_delay = delay; retransmit_count = count }
