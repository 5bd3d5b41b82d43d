-- ===== src/Reply/Sequence.antt =====
-- What a format of app/src/main.rs leaves in a buffer when each of its statements writes a text.
use nrf52_unifying.Prelude.{
  ℕ, ◌+◌, ◌≤◌, ◌≡◌, refl, ap, subst, ◌∙◌, List, [], ◌∷◌, ◌++◌, arith, length, length-append, take,
  Run, ret,
}
use nrf52_unifying.Prelude.Buffer.{IsFilled-zero}
use nrf52_unifying.Prelude.Text.{Bytes}
use nrf52_unifying.Reply.{Cursor, sequence, puts}
use nrf52_unifying.Reply.Writing.{Writes, Writes-then, puts-Writes}

-- The format does not panic: it leaves the text at the buffer's start, and returns its length.
abbrev pub Leaves : Run Cursor → Bytes → Type 0
Leaves run text = (buf : Bytes) × (run ≡ ret (buf, length text)) × (take (length text) buf ≡ text)

abbrev pub Formats : ℕ → (Bytes → Run Cursor) → Bytes → Type 0
Formats size format text = (out : Bytes) → length out ≡ size → Leaves (format out) text

from_start :
    (size : ℕ) (m : Cursor → Run Cursor) (text : Bytes)
    → Writes m text
    → length text ≤ size
    → Formats size (λ out. m (out, 0)) text
from_start size m text w room out e =
    let (buf, h, f) = w (length out) 0 out [] (IsFilled-zero out) (omega (arith, room, e)) in
    let len : 0 + length text ≡ length text = omega arith in
    (buf, h ∙ ap (λ n. ret (buf, n)) len, subst (λ n. take n buf ≡ text) len f.starts)

-- Statements, each with the text that it writes.
abbrev pub WriteAll : List (Cursor → Run Cursor) → List Bytes → Type 0
WriteAll [] [] = Unit {0}
WriteAll (m ∷ ms) (t ∷ ts) = Writes m t × WriteAll ms ts
WriteAll _ _ = ⊥

abbrev pub join : List Bytes → Bytes
join [] = []
join (t ∷ ts) = t ++ join ts

abbrev pub total : List Bytes → ℕ
total [] = 0
total (t ∷ ts) = length t + total ts

pub length-join : (ts : List Bytes) → length (join ts) ≡ total ts
length-join [] = refl
length-join (t ∷ ts) = omega (arith, length-append t (join ts), length-join ts)

sequence-Writes :
    (ms : List (Cursor → Run Cursor)) (ts : List Bytes)
    → WriteAll ms ts
    → Writes (sequence ms) (join ts)
unfolding sequence puts
sequence-Writes [] [] w = puts-Writes []
sequence-Writes [] (t ∷ ts) w = elim w [ ]
sequence-Writes (m ∷ ms) [] w = elim w [ ]
sequence-Writes (m ∷ ms) (t ∷ ts) w =
    Writes-then m (sequence ms) t (join ts) w.0 (sequence-Writes ms ts w.1)

pub writes :
    (size : ℕ) (ms : List (Cursor → Run Cursor)) (ts : List Bytes)
    → WriteAll ms ts
    → total ts ≤ size
    → Formats size (λ out. sequence ms (out, 0)) (join ts)
writes size ms ts w room =
    from_start size (sequence ms) (join ts) (sequence-Writes ms ts w)
      (omega (arith, room, length-join ts))
