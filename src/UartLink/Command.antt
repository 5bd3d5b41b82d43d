-- ===== src/UartLink/Command.antt =====
-- Whole commands through the parser of app/src/uart_link.rs, and replies through `encode_reply`.
use nrf52_unifying.Prelude.{
  ℕ, zero, suc, ◌+◌, ◌^◌, ◌≤◌, ◌<◌, ◌≡◌, refl, ◌∙◌, Bool, true, false, ◌||◌, ◌&&◌, none, some, List,
  [], ◌∷◌, ◌++◌, arith, length, length-append, ltb, leb, ◌==◌, All, Returns, append-nil,
}
use nrf52_unifying.Prelude.Bits.{all_below, all_below→eq}
use nrf52_unifying.Prelude.Text.{Bytes, contains, contains-append, strip_suffix, tokens, IsWord}
use nrf52_unifying.UartLink.{Parser, line_limit, without_cr, is_text, validate, feed}
use nrf52_unifying.UartLink.Line.{message_of, line_message}
use nrf52_unifying.UartLink.Number.{
  digit, digits_from, number_text, reply_text, parse_number-number_text,
}
use nrf52_unifying.UartLink.Resync.{all_text, is_line, AtStart, feed_line}
use nrf52_unifying.UartLink.Stream.{cleared, Refines, AllShow}
use nrf52_unifying.UartLink.Words.{join, tokens-join}

abbrev pub IsPrintable : ℕ → Type 0
IsPrintable c = (0x20 ≤ c) × (c ≤ 0x7e)

abbrev pub AllPrintable : Bytes → Type 0
AllPrintable = All IsPrintable

printable_table : all_below 16 (λ k. leb 0x20 (digit k) && leb (digit k) 0x7e) ≡ true
unfolding all_below
printable_table = refl

digit-IsPrintable : (k : ℕ) → k < 16 → IsPrintable (digit k)
digit-IsPrintable k h = read (digit k) (all_below→eq 16 _ k printable_table h)
  where
    read : (c : ℕ) → (leb 0x20 c && leb c 0x7e) ≡ true → IsPrintable c
    read c h = ground arith

digits_from-AllPrintable : (rounds index n : ℕ) → AllPrintable (digits_from rounds index n)
digits_from-AllPrintable zero index n = tt
digits_from-AllPrintable (suc rounds) index n =
    (digit-IsPrintable _ (omega arith), digits_from-AllPrintable rounds (index + 1) n)

AllPrintable-append : (xs ys : Bytes) → AllPrintable xs → AllPrintable ys → AllPrintable (xs ++ ys)
AllPrintable-append [] ys h k = k
AllPrintable-append (x ∷ xs) ys h k = (h.0, AllPrintable-append xs ys h.1 k)

reply_text-AllPrintable :
    (n : ℕ) (text : Bytes) → AllPrintable text → AllPrintable (reply_text n text)
reply_text-AllPrintable n text h = (
  omega arith,
  AllPrintable-append (number_text n) (b' ' ∷ text) (digits_from-AllPrintable 8 0 n)
      (omega arith, h),
)

-- Printable text holds no control byte, and is text to the parser.
contains-control : (b : ℕ) (xs : Bytes) → b < 0x20 → AllPrintable xs → contains b xs ≡ false
unfolding contains
contains-control b [] h k = refl
contains-control b (x ∷ xs) h (k, ks) = ground (arith, contains-control b xs h ks)

all_text-AllPrintable : (xs : Bytes) → AllPrintable xs → all_text xs ≡ true
unfolding all_text is_text
all_text-AllPrintable [] h = refl
all_text-AllPrintable (x ∷ xs) (h, hs) = ground (arith, all_text-AllPrintable xs hs)

strip_suffix-without : (b : ℕ) (xs : Bytes) → contains b xs ≡ false → strip_suffix b xs ≡ none
unfolding strip_suffix contains
strip_suffix-without b [] h = refl
strip_suffix-without b (x ∷ []) h = ground arith
strip_suffix-without b (x ∷ y ∷ ys) h =
    rw (strip_suffix-without b (y ∷ ys) (later (x == b) h), strip_suffix) refl
  where
    later : (t : Bool) → (t || contains b (y ∷ ys)) ≡ false → contains b (y ∷ ys) ≡ false
    later true h = absurd (cc h)
    later false h = h

strip_suffix-snoc : (b : ℕ) (xs : Bytes) → strip_suffix b (xs ++ b ∷ []) ≡ some xs
unfolding strip_suffix
strip_suffix-snoc b [] = ground arith
strip_suffix-snoc b (x ∷ []) = ground arith
strip_suffix-snoc b (x ∷ y ∷ ys) = rw (strip_suffix-snoc b (y ∷ ys), strip_suffix) refl

-- A carriage return in front of the line feed is optional.
abbrev pub cr_end : Bool → Bytes
cr_end true = b'\r' ∷ []
cr_end false = []

without_cr-reply_text :
    (n : ℕ) (text : Bytes) (cr : Bool)
    → AllPrintable text
    → without_cr (reply_text n text ++ cr_end cr) ≡ reply_text n text
unfolding without_cr
without_cr-reply_text n text true h =
    rw (strip_suffix-snoc b'\r' (reply_text n text), without_cr) refl
without_cr-reply_text n text false h =
    let plain = reply_text-AllPrintable n text h in
    let none_there =
      strip_suffix-without b'\r' (reply_text n text)
        (contains-control b'\r' (reply_text n text) (omega arith) plain) in
    rw append-nil (rw (none_there, without_cr) refl)

-- A numbered line of printable text is read as its number and its words.
pub line_message-reply_text :
    (n : ℕ) (text : Bytes) (cr : Bool)
    → n < 2 ^ 32
    → AllPrintable text
    → line_message (reply_text n text ++ cr_end cr)
      ≡ some
          (record { number = n; text = join (tokens text); error = validate (join (tokens text)) })
unfolding line_message message_of
line_message-reply_text n text cr h plain =
    let stripped = without_cr-reply_text n text cr plain in
    let long : ltb (length (reply_text n text)) 10 ≡ false = ground arith in
    rw stripped (
      rw long (
        rw (parse_number-number_text n h)
          (rw stripped (rw (contains-control b'\r' text (omega arith) plain) refl))))

all_text-append :
    (xs ys : Bytes) → all_text xs ≡ true → all_text ys ≡ true → all_text (xs ++ ys) ≡ true
unfolding all_text
all_text-append [] ys a b = b
all_text-append (x ∷ xs) ys a b = ground (arith, all_text-append xs ys)

all_text-cr_end : (cr : Bool) → all_text (cr_end cr) ≡ true
unfolding all_text is_text
all_text-cr_end true = refl
all_text-cr_end false = refl

is_line-command :
    (n : ℕ) (text : Bytes) (cr : Bool)
    → AllPrintable text
    → length text ≤ 245
    → is_line (reply_text n text ++ cr_end cr) ≡ true
unfolding is_line
is_line-command n text cr h le =
    let texts =
      all_text-append (reply_text n text) (cr_end cr)
        (all_text-AllPrintable (reply_text n text) (reply_text-AllPrintable n text h))
        (all_text-cr_end cr) in
    rw (texts, short cr) refl
  where
    short : (cr : Bool) → leb (length (reply_text n text ++ cr_end cr)) line_limit ≡ true
    short true = ground (arith, length-append text (b'\r' ∷ []))
    short false = ground (arith, length-append text [])

no_line_feed :
    (n : ℕ) (text : Bytes) (cr : Bool)
    → AllPrintable text
    → contains b'\n' (reply_text n text ++ cr_end cr) ≡ false
unfolding contains
no_line_feed n text cr h =
    contains-append b'\n' (reply_text n text) (cr_end cr)
    ∙ rw
        (contains-control b'\n' (reply_text n text) (omega arith)
          (reply_text-AllPrintable n text h))
        (ends cr)
  where
    ends : (cr : Bool) → contains b'\n' (cr_end cr) ≡ false
    ends true = refl
    ends false = refl

-- A line of an at sign, a number below 2 ^ 32 in eight digits, a space and printable words one
-- space apart, at most 245 bytes of them, with or without a carriage return, makes exactly one
-- frame when it comes at the start of a line: with that number, those words, and the verdict of
-- validate on them.
pub feed_command :
    (p : Parser) (n : ℕ) (ws : List Bytes) (cr : Bool)
    → AtStart p
    → n < 2 ^ 32
    → All IsWord ws
    → AllPrintable (join ws)
    → length (join ws) ≤ 245
    → Returns (feed p ((reply_text n (join ws) ++ cr_end cr) ++ b'\n' ∷ [])) (λ r.
      Refines r.0 cleared
      × AllShow r.1 (record { number = n; text = join ws; error = validate (join ws) } ∷ []))
feed_command p n ws cr start h words plain le =
    let line = reply_text n (join ws) ++ cr_end cr in
    let fed = feed_line p line start (no_line_feed n (join ws) cr plain) in
    rw
      (
        is_line-command n (join ws) cr plain le,
        line_message-reply_text n (join ws) cr h plain,
        tokens-join ws words,
      )
      at fed
