-- ===== src/Cdc/Transfer.antt =====
-- The replies of `serial_fut` of app/src/main.rs: the wait for one, and `write_reply` with the USB
-- packets of a text.
use nrf52_unifying.Tasks.{Reply, cdc, uart}
use nrf52_unifying.Cdc.Command.{is_empty}
use nrf52_unifying.Prelude.{
  ℕ, zero, suc, ◌+◌, ◌%◌, ◌≤◌, ◌<◌, ◌≡◌, refl, ap, sym, ◌∙◌, true, false, List, [], ◌∷◌, ◌++◌, All,
  length, length-take, length-drop, length-zero, take, drop, take_all, take-append-drop, min, ltb,
  leb, subst, append_assoc, ◌≢◌, ◌==◌, if◌then◌else◌, arith, Bool-cases, inl, inr, not, ◌&&◌,
  Option, none, some,
}
use nrf52_unifying.Prelude.Text.{Bytes, joined}

-- The wait for the reply: replies of another session are passed over.
unfoldable pub await_reply : ℕ → List Reply → Option Bytes × List Reply
await_reply session [] = (none, [])
await_reply session (reply ∷ replies) =
    let rest = await_reply session replies in
    elim reply.source [
      | uart _ _ _ ↦ rest
      | cdc epoch ↦ if epoch == session then (some (take reply.len reply.bytes), replies) else rest
    ]

-- `write_reply`: the packets for a text, in rounds of which its length is enough.
unfoldable pub reply_loop : ℕ → Bytes → ℕ → List Bytes
reply_loop zero data_ offset = []
reply_loop (suc rounds) data_ offset =
    let end = min (offset + 64) (length data_) in
    elim (ltb offset (length data_)) [
      | false ↦ []
      | true ↦ drop offset (take end data_) ∷ reply_loop rounds data_ end
    ]

unfoldable pub write_reply : Bytes → List Bytes
unfolding reply_loop
write_reply data_ =
    reply_loop (length data_) data_ 0
    ++ (if not (is_empty data_) && length data_ % 64 == 0 then [] ∷ [] else [])

-- Full packets and then a shorter one, which ends the transfer.
pub record IsTransfer (text : Bytes) (packets : List Bytes) : Type 0 where
  pub front : List Bytes
  pub tail : Bytes
  pub packets_are : packets ≡ front ++ tail ∷ []
  pub full : All (λ p. length p ≡ 64) front
  pub short : length tail < 64
  pub text_is : joined front ++ tail ≡ text

drop-take : (n k : ℕ) (xs : Bytes) → n ≤ k → drop n (take k xs) ++ drop k xs ≡ drop n xs
drop-take zero k xs h = take-append-drop k xs
drop-take (suc n) zero xs h = absurd (omega arith)
drop-take (suc n) (suc k) [] h = refl
drop-take (suc n) (suc k) (x ∷ xs) h = drop-take n k xs (omega arith)

drop_all : (n : ℕ) (xs : Bytes) → length xs ≤ n → drop n xs ≡ []
drop_all n xs h = length-zero (drop n xs) (omega (arith, length-drop n xs))

-- The packet that ends a text, which is empty where the packets before are all full.
abbrev ending : Bytes → List Bytes
ending text = if length text % 64 == 0 then [] ∷ [] else []

reply_loop-done :
    (rounds : ℕ) (text : Bytes) (offset : ℕ)
    → length text ≤ offset
    → reply_loop rounds text offset ≡ []
unfolding reply_loop
reply_loop-done zero text offset h = refl
reply_loop-done (suc rounds) text offset h =
    let stop : ltb offset (length text) ≡ false = ground (arith, h) in rw (stop, reply_loop) refl

at_end :
    (text : Bytes) (offset : ℕ)
    → offset % 64 ≡ 0
    → length text ≡ offset
    → IsTransfer (drop offset text) (ending text)
at_end text offset z end =
    let whole : (length text % 64 == 0) ≡ true = ground (arith, z, end) in
    rw whole (record {
      front = [];
      tail = [];
      packets_are = refl;
      full = tt;
      short = omega arith;
      text_is = sym (drop_all offset text (omega (arith, end)));
    })

reply_loop-IsTransfer :
    (rounds : ℕ) (text : Bytes) (offset : ℕ)
    → offset % 64 ≡ 0
    → offset ≤ length text
    → length text ≤ offset + rounds
    → IsTransfer (drop offset text) (reply_loop rounds text offset ++ ending text)
unfolding reply_loop
reply_loop-IsTransfer zero text offset z le enough =
    at_end text offset z (omega (arith, le, enough))
reply_loop-IsTransfer (suc rounds) text offset z le enough =
    elim (Bool-cases (ltb offset (length text))) [
      | inr stop ↦
          let end : length text ≡ offset = ground (arith, stop, le) in
          subst (λ ps. IsTransfer (drop offset text) (ps ++ ending text))
            (sym (reply_loop-done (suc rounds) text offset (omega (arith, end))))
            (at_end text offset z end)
      | inl go ↦ elim (Bool-cases (leb (offset + 64) (length text))) [
        | inl whole ↦
            let end : min (offset + 64) (length text) ≡ offset + 64 = ground (arith, whole) in
            let rest =
              reply_loop-IsTransfer rounds text (offset + 64) (omega (arith, z))
                (ground (arith, whole)) (omega (arith, enough)) in
            rw (go, reply_loop)
              (rw end (record {
                front = drop offset (take (offset + 64) text) ∷ rest.front;
                tail = rest.tail;
                packets_are = ap (◌∷◌ (drop offset (take (offset + 64) text))) rest.packets_are;
                full = (
                  ground (
                    arith,
                    whole,
                    length-drop offset (take (offset + 64) text),
                    length-take (offset + 64) text,
                  ),
                  rest.full,
                );
                short = rest.short;
                text_is =
                    append_assoc (drop offset (take (offset + 64) text)) (joined rest.front)
                      rest.tail
                    ∙ ap (λ (t : Bytes). drop offset (take (offset + 64) text) ++ t) rest.text_is
                    ∙ drop-take offset (offset + 64) text (omega arith);
              }))
        | inr partial ↦
            let end : min (offset + 64) (length text) ≡ length text = ground (arith, partial) in
            let none_left : (length text % 64 == 0) ≡ false = ground (arith, z, go, partial) in
            rw (go, reply_loop)
              (rw end (
                rw (reply_loop-done rounds text (length text) (omega arith)) (
                  rw none_left (record {
                    front = [];
                    tail = drop offset (take (length text) text);
                    packets_are = refl;
                    full = tt;
                    short = ground (
                      arith,
                      partial,
                      go,
                      length-drop offset (take (length text) text),
                      length-take (length text) text,
                    );
                    text_is = ap (drop offset) (take_all text (length text) (omega arith));
                  }))))
      ]
    ]

-- The packets of a text that is not empty are a transfer of that text: packets of exactly 64 bytes
-- and then a shorter one, possibly empty, which together are the text.
pub write_reply-IsTransfer : (text : Bytes) → text ≢ [] → IsTransfer text (write_reply text)
unfolding write_reply
write_reply-IsTransfer [] h = absurd (h refl)
write_reply-IsTransfer (b ∷ bs) h =
    reply_loop-IsTransfer (length (b ∷ bs)) (b ∷ bs) 0 (omega arith) (omega arith) (omega arith)
