-- ===== src/Reply/Writing.antt =====
-- The pieces that the formats of app/src/main.rs are made of, and the texts of each.
use mathlib.Core.List.{head?, tail}
use mathlib.Core.Option.{some-injective}
use nrf52_unifying.Prelude.{
  ℕ, zero, suc, ◌+◌, ◌/◌, ◌%◌, ◌^◌, ◌≤◌, ◌<◌, ◌≡◌, refl, ap, subst, ◌∙◌, true, [], ◌∷◌, ◌++◌,
  append-nil, append_assoc, arith, length, length-append, ◌==◌, Bool-cases, inl, inr, take, get_or,
  replicate, Run, ret, ◌>>=◌, bit_and,
}
use nrf52_unifying.Prelude.Buffer.{IsFilled, store-IsFilled, IsFilled-zero}
use nrf52_unifying.Prelude.Text.{Bytes, codes}
use nrf52_unifying.Reply.{
  Cursor, put, puts, finish, hex_digits, hex_byte, hex_bytes, digit_loop, emit_loop, write_digits,
  write_u32,
}
use nrf52_unifying.Reply.Decimal.{low_digits, rev, decimal, decimal_of, pow10, value, value-decimal}

-- The code appends the text to a buffer that has room for it.
abbrev pub Writes : (Cursor → Run Cursor) → Bytes → Type 0
Writes m text =
    (cap n : ℕ) (buf before : Bytes)
    → IsFilled cap buf n before
    → n + length text ≤ cap
    → (buf' : Bytes) × (m (buf, n) ≡ ret (buf', n + length text))
      × IsFilled cap buf' (n + length text) (before ++ text)

pub Writes-then :
    (m k : Cursor → Run Cursor) (a b : Bytes)
    → Writes m a
    → Writes k b
    → Writes (λ c. m c >>= λ c'. k c') (a ++ b)
Writes-then m k a b wm wk cap n buf before f room =
    let (buf1, e1, f1) = wm cap n buf before f (omega (arith, room, length-append a b)) in
    let (buf2, e2, f2) =
      wk cap (n + length a) buf1 (before ++ a) f1 (omega (arith, room, length-append a b)) in
    let len : n + length a + length b ≡ n + length (a ++ b) = omega (arith, length-append a b) in
    (
      buf2,
      rw e1 (e2 ∙ ap (λ p. ret (buf2, p)) len),
      subst (λ p. IsFilled cap buf2 p (before ++ (a ++ b))) len
          (subst (IsFilled cap buf2 (n + length a + length b)) (append_assoc before a b) f2),
    )

pub put-Writes : (b : ℕ) → Writes (put b) (b ∷ [])
unfolding put
put-Writes b cap n buf before f room =
    let (buf', e, f') = store-IsFilled b f (omega (arith, room)) in (buf', rw e refl, f')

pub puts-Writes : (text : Bytes) → Writes (puts text) text
unfolding puts
puts-Writes [] cap n buf before f room =
    let e : n ≡ n + 0 = omega arith in
    (
      buf,
      ap (λ p. ret (buf, p)) e,
      subst (λ p. IsFilled cap buf p (before ++ [])) e (rw append-nil f),
    )
puts-Writes (b ∷ bs) cap n buf before f room =
    Writes-then (put b) (puts bs) (b ∷ []) bs (put-Writes b) (puts-Writes bs) cap n buf before f
      room

pub finish-Writes : Writes finish (codes "\r\n")
unfolding finish
finish-Writes =
    Writes-then (put b'\r') (put b'\n') (b'\r' ∷ []) (b'\n' ∷ []) (put-Writes b'\r')
      (put-Writes b'\n')

unfoldable pub hex_byte_text : ℕ → Bytes
hex_byte_text b = get_or hex_digits (b / 16) 0 ∷ get_or hex_digits (bit_and b 0x0F) 0 ∷ []

abbrev pub hex_text : Bytes → Bytes
hex_text [] = []
hex_text (b ∷ bs) = hex_byte_text b ++ hex_text bs

hex_byte-Writes : (b : ℕ) → Writes (hex_byte b) (hex_byte_text b)
unfolding hex_byte hex_byte_text
hex_byte-Writes b =
    Writes-then (put (get_or hex_digits (b / 16) 0)) (put (get_or hex_digits (bit_and b 0x0F) 0)) _
      _ (put-Writes _) (put-Writes _)

pub hex_bytes-Writes : (bs : Bytes) → Writes (hex_bytes bs) (hex_text bs)
unfolding hex_bytes puts
hex_bytes-Writes [] = puts-Writes []
hex_bytes-Writes (b ∷ bs) =
    Writes-then (hex_byte b) (hex_bytes bs) (hex_byte_text b) (hex_text bs) (hex_byte-Writes b)
      (hex_bytes-Writes bs)

-- The digits that the second loop takes, from the last on.
backwards : ℕ → Bytes → Bytes
backwards zero digits = []
backwards (suc n) digits = get_or digits n 0 ∷ backwards n digits

backwards_snoc :
    (n x : ℕ) (digits : Bytes) → backwards (suc n) (x ∷ digits) ≡ backwards n digits ++ x ∷ []
unfolding backwards
backwards_snoc zero x digits = refl
backwards_snoc (suc n) x digits = ap (◌∷◌ (get_or digits n 0)) (backwards_snoc n x digits)

backwards-rev :
    (text digits : Bytes)
    → take (length text) digits ≡ text
    → backwards (length text) digits ≡ rev text
unfolding rev backwards
backwards-rev [] digits h = refl
backwards-rev (x ∷ text) [] h = absurd (cc h)
backwards-rev (x ∷ text) (y ∷ digits) h =
    backwards_snoc (length text) y digits
    ∙ ap (λ (z : Bytes). z ++ y ∷ []) (backwards-rev text digits (ap tail h))
    ∙ ap (λ z. rev text ++ z ∷ []) (some-injective y x (ap head? h))

emit_loop-Writes : (n : ℕ) (digits : Bytes) → Writes (emit_loop n digits) (backwards n digits)
unfolding emit_loop backwards puts
emit_loop-Writes zero digits = puts-Writes []
emit_loop-Writes (suc n) digits =
    Writes-then (put (get_or digits n 0)) (emit_loop n digits) (get_or digits n 0 ∷ [])
      (backwards n digits) (put-Writes (get_or digits n 0)) (emit_loop-Writes n digits)

digit_loop_lem :
    (k count v : ℕ) (digits text : Bytes)
    → IsFilled 10 digits count text
    → count + k ≤ 10
    → v < pow10 k
    → (digits' : Bytes) × (digit_loop (suc k) digits count v
        ≡ ret (digits', count + length (low_digits k v)))
      × IsFilled 10 digits' (count + length (low_digits k v)) (text ++ low_digits k v)
unfolding digit_loop low_digits
digit_loop_lem zero count v digits text f room h =
    let z : (v == 0) ≡ true = ground (arith, h) in
    let e : count ≡ count + 0 = omega arith in
    (
      digits,
      rw z (ap (λ p. ret (digits, p)) e),
      subst (λ p. IsFilled 10 digits p (text ++ [])) e (rw append-nil f),
    )
digit_loop_lem (suc k) count v digits text f room h = elim (Bool-cases (v == 0)) [
  | inl z ↦
      let e : count ≡ count + 0 = omega arith in
      rw z (
        digits,
        ap (λ p. ret (digits, p)) e,
        subst (λ p. IsFilled 10 digits p (text ++ [])) e (rw append-nil f),
      )
  | inr nz ↦
      let x = b'0' + v % 10 in
      let rest = low_digits k (v / 10) in
      let (d, e, g) = store-IsFilled x f (omega (arith, room)) in
      let (d', e', g') =
        digit_loop_lem k (count + 1) (v / 10) d (text ++ x ∷ []) g (omega (arith, room))
          (omega (arith, h)) in
      let len : count + 1 + length rest ≡ count + length (x ∷ rest) = omega arith in
      rw nz (
        d',
        rw e (e' ∙ ap (λ p. ret (d', p)) len),
        subst (λ p. IsFilled 10 d' p (text ++ x ∷ rest)) len
            (subst (IsFilled 10 d' (count + 1 + length rest)) (append_assoc text (x ∷ []) rest) g'),
      )
]

write_loops-Writes :
    (k v : ℕ)
    → k ≤ 10
    → v < pow10 k
    → Writes
        (λ c. digit_loop (suc k) (replicate 10 0) 0 v >>= λ r. emit_loop r.1 r.0 c)
        (rev (low_digits k v))
write_loops-Writes k v le h cap n buf before g room =
    let text = low_digits k v in
    let (d, e, f) =
      digit_loop_lem k 0 v (replicate 10 0) [] (IsFilled-zero (replicate 10 0)) (omega (arith, le))
        h in
    let len : 0 + length text ≡ length text = omega arith in
    let back : backwards (length text) d ≡ rev text =
      backwards-rev text d (subst (λ m. take m d ≡ text) len f.starts) in
    let (buf', e', f') =
      subst (Writes (emit_loop (length text) d)) back (emit_loop-Writes (length text) d) cap n buf
        before g room in
    (buf', rw (e ∙ ap (λ m. ret (d, m)) len) e', f')

write_digits-Writes :
    (rounds k v : ℕ)
    → suc k ≡ rounds
    → k ≤ 10
    → v < pow10 k
    → Writes (write_digits rounds v) (decimal_of k v)
unfolding write_digits decimal_of
write_digits-Writes rounds k v e le h =
    let loops : Writes (λ c. digit_loop rounds (replicate 10 0) 0 v >>= λ r. emit_loop r.1 r.0 c)
        (rev (low_digits k v)) =
      subst
        (λ m.
          Writes (λ c. digit_loop m (replicate 10 0) 0 v >>= λ r. emit_loop r.1 r.0 c)
            (rev (low_digits k v)))
        e (write_loops-Writes k v le h) in
    elim (Bool-cases (v == 0)) [ inl z ↦ rw z (put-Writes b'0') | inr nz ↦ rw nz loops ]

pub write_u32-Writes : (v : ℕ) → v < 2 ^ 32 → Writes (write_u32 v) (decimal v)
write_u32-Writes v h = write_digits-Writes 11 10 v refl (omega arith) (omega (arith, h))

-- A number below 2 ^ 32 is appended to a buffer that has room for its decimal text, without a
-- panic, and the digits of that text are the number.
pub write_u32_lem :
    (v size n : ℕ) (buf before : Bytes)
    → v < 2 ^ 32
    → IsFilled size buf n before
    → n + length (decimal v) ≤ size
    → (buf' : Bytes) × (write_u32 v (buf, n) ≡ ret (buf', n + length (decimal v)))
      × IsFilled size buf' (n + length (decimal v)) (before ++ decimal v)
      × (value 0 (decimal v) ≡ v)
write_u32_lem v size n buf before h f room =
    let (buf', e, f') = write_u32-Writes v h size n buf before f room in
    (buf', e, f', value-decimal v h)
