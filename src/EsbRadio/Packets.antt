-- ===== src/EsbRadio/Packets.antt =====
-- The packets of app/src/esb_radio.rs: what is sent, how often the buffer may change, and what an
-- acknowledgement leaves.
use nrf52_unifying.EsbRadio.{
  EsbRadio, Ack, timed_out, bad_crc, crc_ok, Radio, dma_header, heard, tx_once, fill, attempt_loop,
  transmit_payload, receive_payload,
}
use nrf52_unifying.Prelude.{
  ℕ, zero, suc, ◌+◌, ◌*◌, ◌%◌, ◌≤◌, ◌<◌, ◌≡◌, refl, ap, sym, ◌∙◌, Bool, true, false, [], ◌∷◌, ◌++◌,
  length, length-take, length-drop, take, drop, min, bit_and, bit_or, ret, Returns, Returns-bind,
  arith,
}
use nrf52_unifying.Prelude.Bits.{bit_and_three, bit_or_low_bit}
use nrf52_unifying.Prelude.Buffer.{copy, slice_to, IsFilled, store-IsFilled, copy-IsFilled}
use nrf52_unifying.Prelude.Text.{Bytes}

-- The packet of a payload, of which at most `max_payload` bytes are sent.
abbrev pub packet_of : ℕ → ℕ → Bytes → Bytes
packet_of max_payload pid payload =
    let len = min (length payload) max_payload in len ∷ (pid * 2 + 1) ∷ take len payload

drop-take : (n : ℕ) (xs : Bytes) → drop 2 (take (suc (suc n)) xs) ≡ take n (drop 2 xs)
drop-take zero [] = refl
drop-take (suc n) [] = refl
drop-take zero (x ∷ []) = refl
drop-take (suc n) (x ∷ []) = refl
drop-take n (x ∷ y ∷ xs) = refl

slice_to_le : (buf : Bytes) (n : ℕ) → n ≤ length buf → slice_to buf n ≡ ret (take n buf)
unfolding slice_to
slice_to_le buf n h = ground arith

copy_front :
    (buf src : Bytes)
    → length src ≤ length buf
    → copy buf 0 src ≡ ret (src ++ drop (0 + length src) buf)
unfolding copy
copy_front buf src h = ground arith

module _ {R : Type 0} (radio : Radio R) (max_payload : ℕ) (fits_u8 : max_payload < 256)
    (dma : (r : R) (buf : Bytes) → length (radio.listen r buf).1.1 ≡ length buf) where
  pub record IsEsb (e : EsbRadio) : Type 0 where
    pub tx_cap : length e.tx_buf ≡ dma_header + max_payload
    pub rx_cap : length e.rx_buf ≡ dma_header + max_payload
    pub pid_small : e.pid < 4
    pub rx_small : e.rx_len ≤ max_payload

  -- The packet is in the buffer, with this id.
  pub record Holds (pid : ℕ) (payload : Bytes) (e : EsbRadio) : Type 0 where
    pub well : IsEsb e
    pub pid_is : e.pid ≡ pid
    pub packet_is :
        take (length (packet_of max_payload pid payload)) e.tx_buf
        ≡ packet_of max_payload pid payload

  fill-Holds :
      (e : EsbRadio) (payload : Bytes)
      → IsEsb e
      → Returns (fill radio max_payload e payload) (λ e'.
        Holds ((e.pid + 1) % 4) payload e'
        × (e'.rx_len ≡ 0)
        × (e'.retransmit_count ≡ e.retransmit_count))
  unfolding fill
  fill-Holds e payload h =
      let len = min (length payload) max_payload in
      let pid = bit_and (e.pid + 1) 0x03 in
      let start : IsFilled (dma_header + max_payload) e.tx_buf 0 [] = record {
        cap_is = h.tx_cap;
        starts = refl;
        len_is = refl;
      } in
      let (b0, e0, f0) = store-IsFilled (len % 256) start (omega arith) in
      let (b1, e1, f1) = store-IsFilled (bit_or (pid * 2 % 256) 0x01) f0 (omega arith) in
      let (b2, e2, f2) =
        copy-IsFilled (take len payload) f1 (omega (arith, length-take len payload)) in
      rw e0 (
        rw e1 (
          rw (slice_to_le payload len (omega arith)) (
            rw e2 (
              record {
                well = record {
                  tx_cap = f2.cap_is;
                  rx_cap = h.rx_cap;
                  pid_small = omega (arith, bit_and_three (e.pid + 1));
                  rx_small = omega arith;
                };
                pid_is = bit_and_three (e.pid + 1);
                packet_is = filled b2 f2;
              },
              refl,
              refl,
            ))))
    where
      filled :
          (buf : Bytes)
          → IsFilled
              (dma_header + max_payload)
              buf
              (2 + length (take (min (length payload) max_payload) payload))
              ((min (length payload) max_payload % 256)
                ∷ bit_or (bit_and (e.pid + 1) 0x03 * 2 % 256) 0x01
                ∷ take (min (length payload) max_payload) payload)
          → take (length (packet_of max_payload ((e.pid + 1) % 4) payload)) buf
            ≡ packet_of max_payload ((e.pid + 1) % 4) payload
      filled buf f =
          let len = min (length payload) max_payload in
          let same_len : len % 256 ≡ len = omega (arith, fits_u8) in
          let id : bit_and (e.pid + 1) 0x03 ≡ (e.pid + 1) % 4 = bit_and_three (e.pid + 1) in
          let low : (e.pid + 1) % 4 * 2 % 256 ≡ (e.pid + 1) % 4 * 2 = omega arith in
          let s1 : bit_or (bit_and (e.pid + 1) 0x03 * 2 % 256) 0x01 ≡ (e.pid + 1) % 4 * 2 + 1 =
            rw (id, low) (bit_or_low_bit ((e.pid + 1) % 4)) in
          ap (λ n. take n buf) {x = length (packet_of max_payload ((e.pid + 1) % 4) payload)}
            {y = 2 + length (take len payload)} (omega arith)
          ∙ f.starts
          ∙ ap (λ k. k ∷ bit_or (bit_and (e.pid + 1) 0x03 * 2 % 256) 0x01 ∷ take len payload)
              same_len
          ∙ ap (λ k. len ∷ k ∷ take len payload) s1

  tx_once-Holds :
      (e : EsbRadio) (r : R) (pid : ℕ) (payload : Bytes)
      → Holds pid payload e
      → Holds pid payload (tx_once radio max_payload e r).0
  unfolding tx_once heard
  tx_once-Holds e r pid payload h =
      let heard_ = radio.listen (radio.transmit r e.tx_buf) e.rx_buf in
      go heard_.1.0 heard_.0 heard_.1.1 (dma (radio.transmit r e.tx_buf) e.rx_buf)
    where
      go :
          (ack : Ack) (r' : R) (rx_buf : Bytes)
          → length rx_buf ≡ length e.rx_buf
          → Holds pid payload (heard radio max_payload (record e { rx_buf = rx_buf }) r' ack).0
      go timed_out r' rx_buf l = record {
        well = record {
          tx_cap = h.well.tx_cap;
          rx_cap = l ∙ h.well.rx_cap;
          pid_small = h.well.pid_small;
          rx_small = h.well.rx_small;
        };
        pid_is = h.pid_is;
        packet_is = h.packet_is;
      }
      go bad_crc r' rx_buf l = record {
        well = record {
          tx_cap = h.well.tx_cap;
          rx_cap = l ∙ h.well.rx_cap;
          pid_small = h.well.pid_small;
          rx_small = omega arith;
        };
        pid_is = h.pid_is;
        packet_is = h.packet_is;
      }
      go crc_ok r' rx_buf l = record {
        well = record {
          tx_cap = h.well.tx_cap;
          rx_cap = l ∙ h.well.rx_cap;
          pid_small = h.well.pid_small;
          rx_small = ground arith;
        };
        pid_is = h.pid_is;
        packet_is = h.packet_is;
      }

  attempt_loop-Holds :
      (left : ℕ) (e : EsbRadio) (r : R) (pid : ℕ) (payload : Bytes)
      → Holds pid payload e
      → Holds pid payload (attempt_loop radio max_payload left e r).0
  unfolding attempt_loop
  attempt_loop-Holds zero e r pid payload h = h
  attempt_loop-Holds (suc left) e r pid payload h =
      let o = tx_once radio max_payload e r in
      elim o.1.1
        as (λ b.
          let end : EsbRadio × (R × Bool) = elim b [
            | true ↦ (o.0, (o.1.0, true))
            | false ↦ attempt_loop radio max_payload left o.0 o.1.0
          ] in
          Holds pid payload end.0) [
            | true ↦ tx_once-Holds e r pid payload h
            | false ↦
                attempt_loop-Holds left o.0 o.1.0 pid payload (tx_once-Holds e r pid payload h)
          ]

  -- On a radio whose DMA keeps the length of the receive buffer, for a largest payload below 256
  -- and a driver with whole buffers, a packet id below 4 and a pending length within the largest
  -- payload: transmit_payload does not panic, whatever the radio answers, and all its attempts
  -- leave in the buffer the one packet of length, next packet id and the front of the payload, and
  -- the driver as it was required.
  pub transmit_payload-Holds :
      (e : EsbRadio) (r : R) (payload : Bytes)
      → IsEsb e
      → Returns
          (transmit_payload radio max_payload e r payload)
          (λ o. Holds ((e.pid + 1) % 4) payload o.0)
  unfolding transmit_payload
  transmit_payload-Holds e r payload h =
      Returns-bind (fill radio max_payload e payload) _ _ (λ o. Holds ((e.pid + 1) % 4) payload o.0)
        (fill-Holds e payload h)
        (λ e' f. attempt_loop-Holds (e'.retransmit_count + 1) e' r ((e.pid + 1) % 4) payload f.0)

  -- On a radio whose DMA keeps the length of the receive buffer, for a largest payload below 256
  -- and a driver with whole buffers, a packet id below 4 and a pending length within the largest
  -- payload: receive_payload does not panic, writes as much of the pending payload as fits to the
  -- front of the caller's buffer and leaves the rest of it, returns that length, and nothing is
  -- pending afterwards.
  pub receive_payload_lem :
      (e : EsbRadio) (buf : Bytes)
      → IsEsb e
      → Returns (receive_payload radio max_payload e buf) (λ o.
        (o.1.1 ≡ min e.rx_len (length buf))
        × (o.1.0 ≡ take o.1.1 (drop dma_header e.rx_buf) ++ drop o.1.1 buf)
        × (o.0.rx_len ≡ 0))
  unfolding receive_payload
  receive_payload_lem e buf h =
      let len = min e.rx_len (length buf) in
      let within : dma_header + len ≤ length e.rx_buf = omega (arith, h.rx_cap, h.rx_small) in
      let front = drop dma_header (take (dma_header + len) e.rx_buf) in
      let same : front ≡ take len (drop dma_header e.rx_buf) = two len e.rx_buf in
      let n : length front ≡ len = omega (
        arith,
        length-drop dma_header (take (dma_header + len) e.rx_buf),
        length-take (dma_header + len) e.rx_buf,
      ) in
      let small : len % 256 ≡ len = omega (arith, h.rx_small, fits_u8) in
      rw (slice_to_le e.rx_buf (dma_header + len) within) (
        rw (copy_front buf front (omega (arith, n))) (
          small,
          joined_ front (0 + length front) len (len % 256) same (omega (arith, n)) small,
          refl,
        ))
    where
      two : (n : ℕ) (xs : Bytes) → drop 2 (take (2 + n) xs) ≡ take n (drop 2 xs)
      two n xs =
          ap (λ k. drop 2 (take k xs)) {x = 2 + n} {y = suc (suc n)} (omega arith) ∙ drop-take n xs

      joined_ :
          (front : Bytes) (a len m : ℕ)
          → front ≡ take len (drop dma_header e.rx_buf)
          → a ≡ len
          → m ≡ len
          → front ++ drop a buf ≡ take m (drop dma_header e.rx_buf) ++ drop m buf
      joined_ front a len m p q r =
          ap (λ (t : Bytes). t ++ drop a buf) p
          ∙ ap (λ k. take len (drop dma_header e.rx_buf) ++ drop k buf) q
          ∙ ap (λ k. take k (drop dma_header e.rx_buf) ++ drop k buf) (sym r)
