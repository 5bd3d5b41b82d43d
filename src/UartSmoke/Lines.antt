-- ===== src/UartSmoke/Lines.antt =====
-- Whole lines through the parser of app/src/uart_smoke.rs.
use nrf52_unifying.Prelude.{
  ℕ, suc, ◌+◌, ◌≤◌, ◌≡◌, refl, ap, Bool, true, false, not, ◌&&◌, ◌||◌, none, some, [], ◌∷◌, ◌++◌,
  append-nil, append_assoc, arith, length, leb, ◌==◌, if◌then◌else◌, ret, Bool-cases, inl, inr,
}
use nrf52_unifying.Prelude.Buffer.{IsFilled, store, store-IsFilled, slice_to-IsFilled}
use nrf52_unifying.Prelude.Text.{Bytes, contains}
use nrf52_unifying.UartSmoke.{
  line_limit, Frame, bad, Parser, parse_line, frame_of, end_line, is_text, push, damaged, feed,
}

unfoldable pub all_text : Bytes → Bool
all_text [] = true
all_text (x ∷ xs) = is_text x && all_text xs

-- The frame of a line, behind `n` bytes that are there.
unfoldable pub frame_behind : ℕ → Bytes → Bytes → Frame
unfolding all_text
frame_behind n before xs =
    if leb (n + length xs) line_limit && all_text xs
    then frame_of (parse_line (before ++ xs))
    else bad

abbrev pub at : Bytes → ℕ → Bool → Parser
at line len discard = record { line = line; len = len; discard = discard }

feed-dropped :
    (l xs : Bytes) (n : ℕ)
    → contains b'\n' xs ≡ false
    → feed (at l n true) (xs ++ b'\n' ∷ []) ≡ ret (at l 0 false, [])
unfolding feed push end_line contains
feed-dropped l [] n h = refl
feed-dropped l (x ∷ xs) n h =
    let other : (x == b'\n') ≡ false = ground (arith, h) in
    rw other (rw (feed-dropped l xs n (ground (arith, h))) refl)

frame_behind_end :
    (n : ℕ) (before : Bytes)
    → n ≤ line_limit
    → frame_behind n before [] ≡ frame_of (parse_line before)
unfolding frame_behind
frame_behind_end n before le =
    let fits : leb (n + 0) line_limit ≡ true = ground (arith, le) in rw fits (rw append-nil refl)

frame_behind_stop :
    (n x : ℕ) (before xs : Bytes)
    → (n == line_limit || not (is_text x)) ≡ true
    → frame_behind n before (x ∷ xs) ≡ bad
unfolding frame_behind
frame_behind_stop n x before xs stop =
    let no_line : (leb (n + suc (length xs)) line_limit && (is_text x && all_text xs)) ≡ false =
      ground (arith, stop) in
    rw no_line refl

frame_behind_step :
    (n x : ℕ) (before xs : Bytes)
    → (n == line_limit || not (is_text x)) ≡ false
    → frame_behind (n + 1) (before ++ x ∷ []) xs ≡ frame_behind n before (x ∷ xs)
unfolding frame_behind
frame_behind_step n x before xs go =
    let text : is_text x ≡ true = ground (arith, go) in
    let len : n + 1 + length xs ≡ n + suc (length xs) = omega arith in
    rw (len, text, append_assoc before (x ∷ []) xs) refl

stored_push :
    (l l' : Bytes) (n x : ℕ)
    → (x == b'\n') ≡ false
    → (n == line_limit || not (is_text x)) ≡ false
    → store l n x ≡ ret l'
    → push (at l n false) x ≡ ret (at l' (n + 1) false, none)
unfolding push
stored_push l l' n x other go e = rw other (rw go (rw e refl))

stopped_push :
    (l : Bytes) (n x : ℕ)
    → (x == b'\n') ≡ false
    → (n == line_limit || not (is_text x)) ≡ true
    → push (at l n false) x ≡ ret (at l 0 true, some bad)
unfolding push damaged
stopped_push l n x other stop = rw other (rw stop refl)

end_push :
    (l before : Bytes) (n : ℕ)
    → IsFilled line_limit l n before
    → n ≤ line_limit
    → push (at l n false) b'\n' ≡ ret (at l 0 false, some (frame_of (parse_line before)))
unfolding push end_line
end_push l before n f le = rw (slice_to-IsFilled f le) refl

feed-behind :
    (xs l before : Bytes) (n : ℕ)
    → IsFilled line_limit l n before
    → n ≤ line_limit
    → contains b'\n' xs ≡ false
    → (l' : Bytes) × (length l' ≡ line_limit)
      × (feed (at l n false) (xs ++ b'\n' ∷ [])
          ≡ ret (at l' 0 false, frame_behind n before xs ∷ []))
unfolding feed contains
feed-behind [] l before n f le h =
    (l, f.cap_is, rw (end_push l before n f le) (rw (frame_behind_end n before le) refl))
feed-behind (x ∷ xs) l before n f le h =
    let other : (x == b'\n') ≡ false = ground (arith, h) in
    let rest : contains b'\n' xs ≡ false = ground (arith, h) in
    elim (Bool-cases (n == line_limit || not (is_text x))) [
      | inl stop ↦ (
        l,
        f.cap_is,
        rw (stopped_push l n x other stop)
            (rw (feed-dropped l xs 0 rest) (rw (frame_behind_stop n x before xs stop) refl)),
      )
      | inr go ↦
          let (l', e, f') = store-IsFilled x f (ground (arith, go, le)) in
          let (l2, k, fed) =
            feed-behind xs l' (before ++ x ∷ []) (n + 1) f' (ground (arith, go, le)) rest in
          (
            l2,
            k,
            rw (stored_push l l' n x other go e) (
                rw fed
                  (ap (λ fr. ret (at l2 0 false, fr ∷ [])) (frame_behind_step n x before xs go))),
          )
    ]

unfoldable pub line_frame : Bytes → Frame
unfolding all_text
line_frame xs = if leb (length xs) line_limit && all_text xs then frame_of (parse_line xs) else bad

-- In the diagnostic parser, from a start of a line with any contents of its 32 bytes, a line
-- without a line feed in it and then a line feed are fed without a panic and make exactly one
-- frame: of the sequence number of a line of at most 32 text bytes, and a bad frame where there is
-- none or the line is damaged; the parser is at the start of the next line.
pub feed-line_frame :
    (l xs : Bytes)
    → length l ≡ line_limit
    → contains b'\n' xs ≡ false
    → (l' : Bytes) × (length l' ≡ line_limit)
      × (feed (at l 0 false) (xs ++ b'\n' ∷ []) ≡ ret (at l' 0 false, line_frame xs ∷ []))
unfolding line_frame frame_behind
feed-line_frame l xs size h =
    let (l', k, fed) =
      feed-behind xs l [] 0 (record { cap_is = size; starts = refl; len_is = refl }) (omega arith)
        h in
    let len : 0 + length xs ≡ length xs = omega arith in (l', k, rw len at fed)
