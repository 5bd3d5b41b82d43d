-- ===== src/Tasks/Transmit.antt =====
-- `uart_tx_fut` of app/src/main.rs: a reply of the worker goes out whole as its numbered line, or is
-- damage.
use nrf52_unifying.Prelude.{
  ℕ, ◌+◌, ◌≤◌, ◌≡◌, refl, ap, sym, subst, true, ◌⊎◌, inl, inr, Option, List, [], ◌++◌, length,
  length-take, ret, Returns, arith,
}
use nrf52_unifying.Prelude.Buffer.{IsFilled, slice_to-IsFilled}
use nrf52_unifying.Prelude.Text.{Bytes}
use nrf52_unifying.Tasks.{Source, cdc, uart, Reply, Shared, uart_damage}
use nrf52_unifying.Tasks.Link.{
  Debug, debug_add, debug_packet, Sent, send, sent, transmit, transmit_line,
}
use nrf52_unifying.Tasks.Replies.{IsReply}
use nrf52_unifying.Tasks.Schedule.{TakesSome, Fails, Sends, whole, cut, send-Sends}
use nrf52_unifying.UartLink.Number.{reply_text, encode_reply_lem}

-- The frame is on the wire and counted; or a write has failed behind a part of it, and that is
-- damage.
abbrev pub Transmitted :
    List (Option ℕ) → Bytes → Debug → Shared → Bytes × (Debug × Shared) → Type 0
Transmitted results frame d s (wire, (d', s')) =
    ((wire ≡ frame) × (s' ≡ s) × (d'.tx_frames ≡ debug_add d.tx_frames 1))
    ⊎ (Fails results
        × ((rest : Bytes) × (wire ++ rest ≡ frame))
        × (s' ≡ uart_damage s)
        × (d'.tx_errors ≡ debug_add d.tx_errors 1))

sent-Transmitted :
    (results : List (Option ℕ)) (frame wire : Bytes) (end : Sent) (len : ℕ) (d : Debug) (s : Shared)
    → Sends results frame wire end
    → Transmitted results frame d s (wire, sent end len (debug_packet true frame d) s)
unfolding sent debug_packet
sent-Transmitted results frame wire end len d s (whole e w) = rw e (inl (w, refl, refl))
sent-Transmitted results frame wire end len d s (cut rest e w f) =
    rw e (inr (f, (rest, w), refl, refl))

-- The array holds what its length says.
short : (bytes text : Bytes) (len : ℕ) → IsFilled 512 bytes len text → len ≤ 512
short bytes text len f =
    omega (arith, f.cap_is, ap length f.starts, length-take len bytes, f.len_is)

transmit_line-Transmitted :
    (reply : Reply) (number : ℕ) (text buf : Bytes) (results : List (Option ℕ)) (d : Debug)
    (s : Shared)
    → IsFilled 512 reply.bytes reply.len text
    → length buf ≡ 522
    → TakesSome results
    → reply.len + 10 ≤ length results
    → Returns
        (transmit_line number reply buf results d s)
        (Transmitted results (reply_text number text) d s)
unfolding transmit_line
transmit_line-Transmitted reply number text buf results d s f cap t enough =
    let le = short reply.bytes text reply.len f in
    rw (slice_to-IsFilled f le) (elim (encode_reply_lem number text buf) [
      | inl (full, _) ↦ absurd (omega (arith, full, cap, le, f.len_is))
      | inr (wire, e, g) ↦ rw e (
          rw (slice_to-IsFilled g (omega (arith, cap, le, f.len_is))) (
            sent-Transmitted results (reply_text number text)
              (send (reply_text number text) results).0 (send (reply_text number text) results).1
              (length text + 10) d s
              (send-Sends (reply_text number text) results t
                (omega (arith, enough, f.len_is, g.len_is)))))
    ])

-- For a reply to a UART request that stands in its array of 512 bytes, with the wire buffer of 522
-- bytes and writes each of which takes at least one byte or fails, at least as many as the frame
-- has bytes: the transmit task does not panic, and either the numbered frame is on the wire, the
-- shared state is as it was and a frame is counted, or one of the writes fails, what is on the
-- wire is the front of the frame, and this is damage to the UART and an error counted.
pub transmit-Transmitted :
    (reply : Reply) (number session fault : ℕ) (buf : Bytes) (results : List (Option ℕ)) (d : Debug)
    (s : Shared)
    → (h : IsReply (uart number session fault) reply) → length buf ≡ 522
    → TakesSome results
    → reply.len + 10 ≤ length results
    → Returns (transmit reply buf results d s) (Transmitted results (reply_text number h.text) d s)
unfolding transmit
transmit-Transmitted reply number session fault buf results d s h cap t enough =
    go reply.source h.for_
  where
    go :
        (source : Source)
        → source ≡ uart number session fault
        → Returns
            (elim source [
              | cdc _ ↦ ret ([], (d, s))
              | uart n _ _ ↦ transmit_line n reply buf results d s
            ])
            (Transmitted results (reply_text number h.text) d s)
    go source e =
        subst
          (λ source'.
            Returns
              (elim source' [
                | cdc _ ↦ ret ([], (d, s))
                | uart n _ _ ↦ transmit_line n reply buf results d s
              ])
              (Transmitted results (reply_text number h.text) d s))
          (sym e)
          (transmit_line-Transmitted reply number h.text buf results d s h.filled cap t enough)
