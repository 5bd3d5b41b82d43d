-- ===== src/UartSmoke/Traffic.antt =====
-- What the diagnostic build of app/src/main.rs counts of the bytes that it reads.
use nrf52_unifying.Prelude.{
  ℕ, ◌+◌, ◌-◌, ◌^◌, ◌≤◌, ◌≡◌, refl, ap, not, ◌||◌, Option, none, some, List, [], ◌∷◌, length, ◌==◌,
  min, ret, ◌∙◌, Returns, Returns-if, Returns-bind, Returns-weaken, Returns-result, arith,
  Bool-cases, inl, inr,
}
use nrf52_unifying.Prelude.Buffer.{store, slice_to, slice-length, store-length}
use nrf52_unifying.Prelude.Text.{Bytes}
use nrf52_unifying.UartSmoke.{
  Counters, received_bytes, bad_frame, received_peer, saturating_add, Frame, peer, bad, Parser,
  is_text, damaged, end_line, push, feed, onto, line_limit,
}
use nrf52_unifying.UartSmoke.Diagnostic.{count_bytes, read_done, counted}
use nrf52_unifying.UartSmoke.Report.{IsCounters}

abbrev pub IsParser : Parser → Type 0
IsParser p = (length p.line ≡ line_limit) × (p.len ≤ line_limit)

end_line-IsParser : (p : Parser) → IsParser p → Returns (end_line p) (λ r. IsParser r.0)
unfolding end_line
end_line-IsParser p h =
    Returns-if p.discard _ _ (λ r. IsParser r.0) (h.0, omega arith)
      (Returns-bind (slice_to p.line p.len) _ (λ line. length line ≡ p.len) (λ r. IsParser r.0)
        (slice-length p.line p.len (omega (arith, h.0, h.1))) (λ line e. (h.0, omega arith)))

-- The parser takes any byte.
push-IsParser : (p : Parser) (byte : ℕ) → IsParser p → Returns (push p byte) (λ r. IsParser r.0)
unfolding push damaged
push-IsParser p byte h =
    Returns-if (byte == b'\n') _ _ (λ r. IsParser r.0) (end_line-IsParser p h)
      (Returns-if p.discard _ _ (λ r. IsParser r.0) h
        (elim (Bool-cases (p.len == line_limit || not (is_text byte))) [
          | inl stop ↦ rw stop (h.0, omega arith)
          | inr go ↦ rw go (
              Returns-bind (store p.line p.len byte) _ (λ line. length line ≡ length p.line)
                (λ r. IsParser r.0) (store-length p.line p.len byte (ground (arith, go, h.0, h.1)))
                (λ line e. (e ∙ h.0, ground (arith, go, h.1))))
        ]))

abbrev pub bad_frames : List Frame → ℕ
bad_frames [] = 0
bad_frames (bad ∷ fs) = bad_frames fs + 1
bad_frames (peer _ ∷ fs) = bad_frames fs

abbrev pub peer_frames : List Frame → ℕ
peer_frames [] = 0
peer_frames (bad ∷ fs) = peer_frames fs
peer_frames (peer _ ∷ fs) = peer_frames fs + 1

abbrev pub last_sequence : ℕ → List Frame → ℕ
last_sequence n [] = n
last_sequence n (bad ∷ fs) = last_sequence n fs
last_sequence n (peer k ∷ fs) = last_sequence k fs

abbrev pub largest : ℕ
largest = 2 ^ 32 - 1

-- The counters `c'` are `c` behind `n` bytes and these frames: each count stops at the largest
-- word, and the last sequence number is that of the last peer frame.
pub record Counted (c : Counters) (n : ℕ) (fs : List Frame) (c' : Counters) : Type 0 where
  pub rxbytes_is : c'.rxbytes ≡ min (c.rxbytes + n) largest
  pub peerframes_is : c'.peerframes ≡ min (c.peerframes + peer_frames fs) largest
  pub badframes_is : c'.badframes ≡ min (c.badframes + bad_frames fs) largest
  pub errors_are : c'.uart_errors ≡ c.uart_errors
  pub lastseq_is : c'.lastseq ≡ last_sequence c.lastseq fs
  pub txframes_are : c'.txframes ≡ c.txframes

-- The counts are words.
abbrev IsCounts : Counters → Type 0
IsCounts c = (c.rxbytes ≤ largest) × (c.peerframes ≤ largest) × (c.badframes ≤ largest)

counted-Counted :
    (c c' : Counters) (o : Option Frame) (fs : List Frame) (p : Parser)
    → IsCounts c
    → Counted (counted o c) 0 fs c'
    → Counted c 0 (onto o (p, fs)).1 c'
unfolding bad_frame received_peer saturating_add
counted-Counted c c' none fs p h k = k
counted-Counted c c' (some bad) fs p h k = record {
  rxbytes_is = k.rxbytes_is;
  peerframes_is = k.peerframes_is;
  badframes_is = omega (arith, k.badframes_is, h.2);
  errors_are = k.errors_are;
  lastseq_is = k.lastseq_is;
  txframes_are = k.txframes_are;
}
counted-Counted c c' (some (peer n)) fs p h k = record {
  rxbytes_is = k.rxbytes_is;
  peerframes_is = omega (arith, k.peerframes_is, h.1);
  badframes_is = k.badframes_is;
  errors_are = k.errors_are;
  lastseq_is = k.lastseq_is;
  txframes_are = k.txframes_are;
}

counted-IsCounts : (c : Counters) (o : Option Frame) → IsCounts c → IsCounts (counted o c)
unfolding bad_frame received_peer saturating_add
counted-IsCounts c none h = h
counted-IsCounts c (some bad) h = (h.0, h.1, omega arith)
counted-IsCounts c (some (peer n)) h = (h.0, omega arith, h.2)

-- A read goes through, to a parser that can go on, with the counters behind these frames.
abbrev pub Read : Parser → Counters → ℕ → Bytes → Parser × Counters → Type 0
Read p c n bytes (p', c') =
    IsParser p' × ((fs : List Frame) × (feed p bytes ≡ ret (p', fs)) × Counted c n fs c')

feed-next :
    (p p' q : Parser) (byte : ℕ) (bytes : Bytes) (o : Option Frame) (fs : List Frame)
    → push p byte ≡ ret (p', o)
    → feed p' bytes ≡ ret (q, fs)
    → feed p (byte ∷ bytes) ≡ ret (q, (onto o (q, fs)).1)
unfolding feed
feed-next p p' q byte bytes o fs e f = rw e (rw f (ap ret (same_parser o)))
  where
    same_parser : (o : Option Frame) → onto o (q, fs) ≡ (q, (onto o (q, fs)).1)
    same_parser none = refl
    same_parser (some g) = refl

count_bytes-Read :
    (p : Parser) (c : Counters) (bytes : Bytes)
    → IsParser p
    → IsCounts c
    → Returns (count_bytes p c bytes) (Read p c 0 bytes)
unfolding count_bytes feed
count_bytes-Read p c [] h k = (
  h,
  (
    [],
    refl,
    record {
      rxbytes_is = omega (arith, k.0);
      peerframes_is = omega (arith, k.1);
      badframes_is = omega (arith, k.2);
      errors_are = refl;
      lastseq_is = refl;
      txframes_are = refl;
    },
  ),
)
count_bytes-Read p c (byte ∷ bytes) h k =
    let ((p', o), e, h') =
      Returns-result (push p byte) (λ r. IsParser r.0) (push-IsParser p byte h) in
    let rest = count_bytes-Read p' (counted o c) bytes h' (counted-IsCounts c o k) in
    rw e (
      Returns-weaken (count_bytes p' (counted o c) bytes) (Read p' (counted o c) 0 bytes) _ rest
        (λ q r. (
          r.0,
          (
            (onto o (q.0, r.1.0)).1,
            feed-next p p' q.0 byte bytes o r.1.0 e r.1.1,
            counted-Counted c q.1 o r.1.0 q.0 k r.1.2,
          ),
        )))

-- In the diagnostic build, with a parser whose line is within its 32 bytes and counters that are
-- words, a read of at most 256 bytes is handled without a panic; the parser is the one behind
-- feeding these bytes, its line is within its bytes again, and of the counters those of bytes,
-- peer frames and bad frames have grown by the bytes and by the frames that feed makes, up to 2 ^
-- 32 - 1, the last sequence number is that of the last peer frame, and the others are as they
-- were.
pub read_done-Read :
    (p : Parser) (c : Counters) (bytes : Bytes)
    → IsParser p
    → IsCounters c
    → length bytes ≤ 256
    → Returns (read_done p c bytes) (Read p c (length bytes) bytes)
unfolding read_done received_bytes saturating_add
read_done-Read p c bytes h k le =
    let c' = received_bytes c (length bytes) in
    Returns-weaken (count_bytes p c' bytes) (Read p c' 0 bytes) (Read p c (length bytes) bytes)
      (count_bytes-Read p c' bytes h (omega arith, omega (arith, k.w1), omega (arith, k.w2)))
      (λ q r. (
        r.0,
        (
          r.1.0,
          r.1.1,
          record {
            rxbytes_is = omega (arith, r.1.2.rxbytes_is, le);
            peerframes_is = r.1.2.peerframes_is;
            badframes_is = r.1.2.badframes_is;
            errors_are = r.1.2.errors_are;
            lastseq_is = r.1.2.lastseq_is;
            txframes_are = r.1.2.txframes_are;
          },
        ),
      ))
