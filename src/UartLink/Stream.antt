-- ===== src/UartLink/Stream.antt =====
-- The parser of app/src/uart_link.rs as a machine on values: a received text, or a line that is
-- being dropped.
use nrf52_unifying.Prelude.{
  ℕ, ◌+◌, ◌≤◌, ◌<◌, ◌≡◌, refl, sym, ◌∙◌, Bool, true, false, not, ◌||◌, Option, none, some, List, [],
  ◌∷◌, ◌++◌, arith, length, ◌==◌, if◌then◌else◌, Run, panic, ret, ◌>>=◌, Returns, Bool-cases, inl,
  inr, Returns-bind,
}
use nrf52_unifying.Prelude.Buffer.{IsFilled, store-IsFilled, slice_to-IsFilled}
use nrf52_unifying.Prelude.Text.{Bytes}
use nrf52_unifying.UartLink.{
  line_limit, Frame, Parser, is_text, parse_line, end_line, push, feed, onto,
}
use nrf52_unifying.UartLink.Line.{Message, line_message, Shows, parse_line-Shows}

pub record Pending : Type 0 where
  pub text : Bytes
  pub dropped : Bool

abbrev pub cleared : Pending
cleared = record { text = []; dropped = false }

unfoldable pub receive : Pending → ℕ → Pending × Option Message
receive s byte =
    if byte == b'\n'
    then (cleared, if s.dropped then none else line_message s.text)
    else if s.dropped
    then (s, none)
    else if length s.text == line_limit || not (is_text byte)
    then (record { text = []; dropped = true }, none)
    else (record { text = s.text ++ byte ∷ []; dropped = false }, none)

abbrev pub prepend : Option Message → List Message → List Message
prepend none ms = ms
prepend (some m) ms = m ∷ ms

unfoldable pub receive_all : Pending → Bytes → Pending × List Message
receive_all s [] = (s, [])
receive_all s (byte ∷ bs) =
    let (s', m) = receive s byte in let (s'', ms) = receive_all s' bs in (s'', prepend m ms)

pub record Refines (p : Parser) (s : Pending) : Type 0 where
  pub holds : IsFilled line_limit p.line p.len s.text
  pub within : p.len ≤ line_limit
  pub flag : p.discard ≡ s.dropped

abbrev pub AllShow : List Frame → List Message → Type 0
AllShow [] [] = Unit {0}
AllShow (f ∷ fs) (m ∷ ms) = Shows (some f) (some m) × AllShow fs ms
AllShow _ _ = ⊥

empty_line : (p : Parser) → length p.line ≡ line_limit → IsFilled line_limit p.line 0 []
empty_line p h = record { cap_is = h; starts = refl; len_is = refl }

end_line-Refines :
    (p : Parser) (s : Pending)
    → Refines p s
    → Returns
        (end_line p)
        (λ r. Refines r.0 cleared × Shows r.1 (if s.dropped then none else line_message s.text))
unfolding end_line
end_line-Refines p s r = elim (Bool-cases s.dropped) [
  | inl d ↦ rw (r.flag ∙ d) (
      rw d
        (record { holds = empty_line p (r.holds).cap_is; within = omega arith; flag = refl }, tt))
  | inr d ↦ rw (r.flag ∙ d) (
      rw d (
        rw (slice_to-IsFilled r.holds r.within) (
          finish (parse_line s.text)
            (parse_line-Shows s.text (omega (arith, (r.holds).len_is, r.within))))))
]
  where
    finish :
        (o : Run (Option Frame))
        → Returns o (λ f. Shows f (line_message s.text))
        → Returns {A = Parser × Option Frame}
            (o >>= λ f. ret (record p { len = 0; discard = false }, f))
            (λ r. Refines r.0 cleared × Shows r.1 (line_message s.text))
    finish panic h = h
    finish (ret f) h =
        (record { holds = empty_line p (r.holds).cap_is; within = omega arith; flag = refl }, h)

-- From a parser that stands for a pending line of the machine on values, every byte is pushed
-- without a panic, the parser afterwards stands for what the machine makes of it, and the frame,
-- if there is one, shows the machine's message.
pub push-Refines :
    (p : Parser) (s : Pending) (byte : ℕ)
    → Refines p s
    → Returns (push p byte) (λ r. Refines r.0 (receive s byte).0 × Shows r.1 (receive s byte).1)
unfolding push receive
push-Refines p s byte r = elim (Bool-cases (byte == b'\n')) [
  | inl lf ↦ rw lf (end_line-Refines p s r)
  | inr other ↦ rw other (elim (Bool-cases s.dropped) [
    | inl d ↦
        rw (r.flag ∙ d) (rw d (record { holds = r.holds; within = r.within; flag = refl }, tt))
    | inr d ↦ rw (r.flag ∙ d) (
        rw (d, same_len)
          (elim (Bool-cases (length s.text == line_limit || not (is_text byte))) [
            | inl bad ↦ rw bad (
              record { holds = empty_line p (r.holds).cap_is; within = omega arith; flag = refl },
              tt,
            )
            | inr good ↦
                let short : length s.text < line_limit =
                  ground (arith, (r.holds).len_is, r.within) in
                let there : IsFilled line_limit p.line (length s.text) s.text =
                  rw (← same_len) r.holds in
                let (b, e, f) = store-IsFilled byte there short in
                rw good (
                  rw e (
                    record { holds = f; within = short_le (length s.text) short; flag = refl },
                    tt,
                  ))
          ]))
  ])
]
  where
    short_le : (n : ℕ) → n < line_limit → n + 1 ≤ line_limit
    short_le n h = omega arith

    same_len : p.len ≡ length s.text
    same_len = sym (r.holds).len_is

onto-Shows :
    (f : Option Frame) (m : Option Message) (r : Parser × List Frame) {s : Pending}
    (ms : List Message)
    → Shows f m
    → Refines r.0 s × AllShow r.1 ms
    → Refines (onto f r).0 s × AllShow (onto f r).1 (prepend m ms)
onto-Shows none none (p, fs) ms h k = k
onto-Shows (some f) (some m) (p, fs) ms h k = (k.0, (h, k.1))
onto-Shows none (some m) r ms h k = absurd h
onto-Shows (some f) none r ms h k = absurd h

-- From a parser that stands for a pending line of the machine on values, any bytes are fed without
-- a panic; the parser afterwards stands for what the machine makes of them, and the frames show
-- the machine's messages in their order.
pub feed-Refines :
    (bs : Bytes) (p : Parser) (s : Pending)
    → Refines p s
    → Returns (feed p bs) (λ r. Refines r.0 (receive_all s bs).0 × AllShow r.1 (receive_all s bs).1)
unfolding feed receive_all
feed-Refines [] p s r = (r, tt)
feed-Refines (byte ∷ bs) p s r = Returns-bind (push p byte) _ _ _ (push-Refines p s byte r) (λ a h.
    Returns-bind (feed a.0 bs) _ _ _ (feed-Refines bs a.0 (receive s byte).0 h.0)
      (λ b k. onto-Shows a.1 (receive s byte).1 b (receive_all (receive s byte).0 bs).1 h.1 k))
