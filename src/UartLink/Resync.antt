-- ===== src/UartLink/Resync.antt =====
-- Line boundaries in app/src/uart_link.rs: what one line makes, and what damage and a change of
-- session do to the line that was being received.
use nrf52_unifying.Prelude.{
  suc, ◌+◌, ◌≤◌, ◌<◌, ◌≡◌, refl, ap, sym, ◌∙◌, Bool, true, false, not, ◌||◌, ◌&&◌, Option, none,
  some, List, [], ◌∷◌, ◌++◌, append-nil, append_assoc, arith, length, length-append, leb, ◌==◌,
  if◌then◌else◌, Run, panic, ret, ◌>>=◌, Returns, Bool-cases, inl, inr, subst, ◌≢◌, ◌⊎◌,
}
use nrf52_unifying.Prelude.Text.{Bytes, contains}
use nrf52_unifying.UartLink.{
  line_limit, Frame, Parser, damaged, is_text, end_line, push, feed, onto, session_changed,
  ends_open, is_empty,
}
use nrf52_unifying.UartLink.Line.{Message, line_message}
use nrf52_unifying.UartLink.Stream.{
  Pending, cleared, receive, receive_all, prepend, Refines, AllShow, feed-Refines,
}

feed_none : (r : Run (Parser × List Frame)) → (r >>= λ x. ret (onto none x)) ≡ r
feed_none panic = refl
feed_none (ret (p, fs)) = refl

-- After damage the bytes up to the next line feed make no frame, and the parser goes on behind it
-- as at the start of a line.
pub feed-damaged :
    (p : Parser) (xs rest : Bytes)
    → contains b'\n' xs ≡ false
    → feed (damaged p) (xs ++ b'\n' ∷ rest) ≡ feed (record p { len = 0; discard = false }) rest
unfolding feed push damaged end_line contains
feed-damaged p [] rest h = feed_none (feed (record p { len = 0; discard = false }) rest)
feed-damaged p (x ∷ xs) rest h =
    let other : (x == b'\n') ≡ false = ground arith in
    rw other
      (feed_none (feed (damaged p) (xs ++ b'\n' ∷ rest)) ∙ feed-damaged p xs rest (rw other at h))

unfoldable pub all_text : Bytes → Bool
all_text [] = true
all_text (x ∷ xs) = is_text x && all_text xs

-- A line that fits the buffer and holds text only.
unfoldable pub is_line : Bytes → Bool
is_line xs = leb (length xs) line_limit && all_text xs

abbrev pub messages : Option Message → List Message
messages none = []
messages (some m) = m ∷ []

receive-dropped :
    (xs rest text : Bytes)
    → contains b'\n' xs ≡ false
    → receive_all (record { text = text; dropped = true }) (xs ++ b'\n' ∷ rest)
      ≡ receive_all cleared rest
unfolding receive_all receive contains
receive-dropped [] rest text h = refl
receive-dropped (x ∷ xs) rest text h =
    let other : (x == b'\n') ≡ false = ground arith in
    rw other (receive-dropped xs rest text (rw other at h))

abbrev line_result : Bool → Bytes → Pending × List Message
line_result good text = (cleared, if good then messages (line_message text) else [])

prepend-messages : (m : Option Message) → prepend m [] ≡ messages m
prepend-messages none = refl
prepend-messages (some m) = refl

receive_line_from :
    (xs text : Bytes)
    → contains b'\n' xs ≡ false
    → length text ≤ line_limit
    → receive_all (record { text = text; dropped = false }) (xs ++ b'\n' ∷ [])
      ≡ line_result (leb (length text + length xs) line_limit && all_text xs) (text ++ xs)
unfolding receive_all receive contains all_text
receive_line_from [] text h le =
    let fits : (leb (length text + 0) line_limit && true) ≡ true = ground arith in
    rw (fits, append-nil)
      (ap (λ (ms : List Message). (cleared, ms)) (prepend-messages (line_message text)))
receive_line_from (x ∷ xs) text h le =
    let other : (x == b'\n') ≡ false = ground arith in
    elim (Bool-cases (length text == line_limit || not (is_text x))) [
      | inl bad ↦
          let not_line : (leb (length text + suc (length xs)) line_limit
                && (is_text x && all_text xs))
              ≡ false =
            ground arith in
          rw (other, bad, not_line) (receive-dropped xs [] [] (rw other at h))
      | inr good ↦
          let short : length text < line_limit = ground arith in
          let same : (leb (length text + suc (length xs)) line_limit && (is_text x && all_text xs))
              ≡ (leb (length (text ++ x ∷ []) + length xs) line_limit && all_text xs) =
            ground (arith, length-append text (x ∷ [])) in
          rw (other, good, same)
            (receive_line_from xs (text ++ x ∷ []) (rw other at h)
                (omega (arith, length-append text (x ∷ [])))
              ∙ ap
                  (λ (t : Bytes).
                    line_result
                      (leb (length (text ++ x ∷ []) + length xs) line_limit && all_text xs) t)
                  (append_assoc text (x ∷ []) xs))
    ]

receive_line :
    (xs : Bytes)
    → contains b'\n' xs ≡ false
    → receive_all cleared (xs ++ b'\n' ∷ []) ≡ line_result (is_line xs) xs
unfolding is_line
receive_line xs h = receive_line_from xs [] h (omega arith) ∙ cond_zero
  where
    cond_zero :
        line_result (leb (0 + length xs) line_limit && all_text xs) xs
        ≡ line_result (leb (length xs) line_limit && all_text xs) xs
    cond_zero = let e : 0 + length xs ≡ length xs = omega arith in rw e

-- A parser at the start of a line.
pub record AtStart (p : Parser) : Type 0 where
  pub buffer : length p.line ≡ line_limit
  pub empty : p.len ≡ 0
  pub taking : p.discard ≡ false

AtStart-Refines : (p : Parser) → AtStart p → Refines p cleared
AtStart-Refines p a = record {
  holds = record { cap_is = a.buffer; starts = rw a.empty; len_is = sym a.empty };
  within = omega (arith, a.empty);
  flag = a.taking;
}

-- From a parser at the start of a line, a line without a line feed in it and then a line feed are
-- fed without a panic and leave the parser at the start of the next line; a line of at most 256
-- text bytes makes the frame of its message, if it has one, and any other line makes none.
pub feed_line :
    (p : Parser) (xs : Bytes)
    → AtStart p
    → contains b'\n' xs ≡ false
    → Returns (feed p (xs ++ b'\n' ∷ [])) (λ r.
      Refines r.0 cleared × AllShow r.1 (if is_line xs then messages (line_message xs) else []))
feed_line p xs a h =
    subst (λ t. Returns (feed p (xs ++ b'\n' ∷ [])) (λ r. Refines r.0 t.0 × AllShow r.1 t.1))
      (receive_line xs h) (feed-Refines (xs ++ b'\n' ∷ []) p cleared (AtStart-Refines p a))

-- In the middle of a line, or with bytes pending, a change of session drops what was received: if
-- the last pending byte is a line feed the next byte starts a line, and otherwise the bytes up to
-- the next line feed are dropped too.
pub feed-session_changed :
    (p : Parser) (pending xs rest : Bytes)
    → (p.len ≢ 0) ⊎ (pending ≢ [])
    → contains b'\n' xs ≡ false
    → feed (session_changed p pending) (xs ++ b'\n' ∷ rest)
      ≡ feed
          (record p { len = 0; discard = false })
          (if ends_open pending then rest else xs ++ b'\n' ∷ rest)
unfolding session_changed
feed-session_changed p pending xs rest c h = rw (changed c) (elim (Bool-cases (ends_open pending)) [
  | inl open_end ↦ rw open_end (unfold damaged in feed-damaged p xs rest h)
  | inr closed ↦ rw closed refl
])
  where
    not_empty : (ys : Bytes) → ys ≢ [] → not (is_empty ys) ≡ true
    not_empty [] ne = absurd (ne refl)
    not_empty (y ∷ ys) ne = refl

    changed : (p.len ≢ 0) ⊎ (pending ≢ []) → (not (p.len == 0) || not (is_empty pending)) ≡ true
    changed (inl ne) = ground arith
    changed (inr ne) = rw (not_empty pending ne) (or_true (not (p.len == 0)))
      where
        or_true : (b : Bool) → (b || true) ≡ true
        or_true true = refl
        or_true false = refl
