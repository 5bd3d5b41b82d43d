-- ===== src/UartLink/Words.antt =====
-- The canonical form of a command in app/src/uart_link.rs: its words one space apart.
use nrf52_unifying.Prelude.{
  ℕ, suc, ◌+◌, ◌≤◌, ◌≡◌, refl, ap, ◌∙◌, Bool, true, false, List, [], ◌∷◌, ◌++◌, append-nil,
  append_assoc, arith, length, length-append, All, ◌==◌, if◌then◌else◌, Run, ret,
}
use nrf52_unifying.Prelude.Buffer.{IsFilled, store-IsFilled, copy-IsFilled, IsFilled-zero}
use nrf52_unifying.Prelude.Text.{
  onto_first, Bytes, contains, split, nonempty, tokens, IsWord, split_piece, split_last,
}
use nrf52_unifying.UartLink.{canonical_loop}

-- The words behind the first, each with its space.
abbrev pub spaced : List Bytes → Bytes
spaced [] = []
spaced (w ∷ ws) = b' ' ∷ (w ++ spaced ws)

abbrev pub join : List Bytes → Bytes
join [] = []
join (w ∷ ws) = w ++ spaced ws

split-spaced :
    (w : Bytes) (ws : List Bytes)
    → contains b' ' w ≡ false
    → All IsWord ws
    → split b' ' (w ++ spaced ws) ≡ w ∷ ws
split-spaced w [] h hs = rw append-nil (split_last b' ' w h)
split-spaced w (v ∷ vs) h hs =
    split_piece b' ' w (v ++ spaced vs) h ∙ ap (◌∷◌ w) (split-spaced v vs (hs.0).no_space hs.1)

nonempty-words : (ws : List Bytes) → All IsWord ws → nonempty ws ≡ ws
unfolding nonempty
nonempty-words [] h = refl
nonempty-words ([] ∷ ws) h = absurd ((h.0).ne_nil refl)
nonempty-words ((x ∷ w) ∷ ws) h = ap (◌∷◌ (x ∷ w)) (nonempty-words ws h.1)

-- The words of a canonical command are what it was made of.
pub tokens-join : (ws : List Bytes) → All IsWord ws → tokens (join ws) ≡ ws
unfolding tokens
tokens-join [] h = unfold split nonempty in refl
tokens-join (w ∷ ws) h =
    ap nonempty (split-spaced w ws (h.0).no_space h.1) ∙ nonempty-words (w ∷ ws) h

-- The bytes of some words with one separator for each.
abbrev weight : List Bytes → ℕ
weight [] = 0
weight (w ∷ ws) = length w + 1 + weight ws

weight-onto :
    (b : Bool) (x n : ℕ) (ws : List Bytes)
    → weight ws ≡ n + 1
    → weight (if b then [] ∷ ws else onto_first x ws) ≡ suc n + 1
weight-onto true x n ws h = omega arith
weight-onto false x n [] h = absurd (omega arith)
weight-onto false x n (w ∷ ws) h = omega arith

weight-split : (sep : ℕ) (line : Bytes) → weight (split sep line) ≡ length line + 1
unfolding split
weight-split sep [] = refl
weight-split sep (x ∷ xs) =
    weight-onto (x == sep) x (length xs) (split sep xs) (weight-split sep xs)

weight-nonempty : (ws : List Bytes) → weight (nonempty ws) ≤ weight ws
unfolding nonempty
weight-nonempty [] = omega arith
weight-nonempty ([] ∷ ws) = omega (arith, weight-nonempty ws)
weight-nonempty ((x ∷ w) ∷ ws) = omega (arith, weight-nonempty ws)

length-spaced : (ws : List Bytes) → length (spaced ws) ≡ weight ws
length-spaced [] = refl
length-spaced (w ∷ ws) = omega (arith, length-append w (spaced ws), length-spaced ws)

-- Canonical form is never longer than the text.
pub length-join-tokens : (text : Bytes) → length (join (tokens text)) ≤ length text
unfolding tokens
length-join-tokens text =
    go (nonempty (split b' ' text))
      (omega (arith, weight-nonempty (split b' ' text), weight-split b' ' text))
  where
    go : (ws : List Bytes) → weight ws ≤ length text + 1 → length (join ws) ≤ length text
    go [] h = omega arith
    go (w ∷ ws) h = omega (arith, length-append w (spaced ws), length-spaced ws)

-- The buffer and the length that the loop leaves, behind the text that was there.
abbrev Writes : Run (Bytes × ℕ) → ℕ → Bytes → Type 0
Writes r cap text = (buf : Bytes) × (len : ℕ) × (r ≡ ret (buf, len)) × IsFilled cap buf len text

canonical_loop-spaced :
    (ws : List Bytes) {cap len : ℕ} {buf text : Bytes}
    → IsFilled cap buf len text
    → len + length (spaced ws) ≤ cap
    → Writes (canonical_loop ws false buf len) cap (text ++ spaced ws)
unfolding canonical_loop
canonical_loop-spaced [] {cap} {len} {buf} {text} f fits = (buf, len, refl, rw append-nil f)
canonical_loop-spaced (w ∷ ws) {cap} {len} {buf} {text} f fits =
    let room = length-append w (spaced ws) in
    let (b1, e1, f1) = store-IsFilled b' ' f (omega (arith, room)) in
    let (b2, e2, f2) = copy-IsFilled w f1 (omega (arith, room)) in
    let (b3, n3, e3, f3) = canonical_loop-spaced ws f2 (omega (arith, room)) in
    (
      b3,
      n3,
      rw e1 (rw e2 e3),
      rw
          (
            append_assoc (text ++ b' ' ∷ []) w (spaced ws),
            append_assoc text (b' ' ∷ []) (w ++ spaced ws),
          )
          at f3,
    )

-- The loop never indexes out of the buffer, and leaves the canonical text there.
pub canonical_loop-join :
    (ws : List Bytes) (buf : Bytes)
    → length (join ws) ≤ length buf
    → Writes (canonical_loop ws true buf 0) (length buf) (join ws)
unfolding canonical_loop
canonical_loop-join [] buf fits = (buf, 0, refl, IsFilled-zero buf)
canonical_loop-join (w ∷ ws) buf fits =
    let room = length-append w (spaced ws) in
    let (b1, e1, f1) = copy-IsFilled w (IsFilled-zero buf) (omega (arith, room)) in
    let (b2, n2, e2, f2) = canonical_loop-spaced ws f1 (omega (arith, room)) in
    (b2, n2, rw e1 e2, f2)
