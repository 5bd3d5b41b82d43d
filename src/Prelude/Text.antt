-- ===== src/Prelude/Text.antt =====
-- Byte strings: literals, comparisons, prefixes and the splitting of a line into its words.
use Prim.Native.Char.{code}
use Prim.Native.Nat.{ℕ}
use Prim.Native.String.{String}
use mathlib.Core.Bool.{Bool, true, false, ◌&&◌, ◌||◌}
use mathlib.Core.List.{List, [], ◌∷◌, ◌++◌}
use mathlib.Core.Logic.{◌↔◌, ◌≢◌}
use mathlib.Core.Option.{Option, none, some}
use mathlib.Core.Path.{◌≡◌, refl}
use native.Mathlib.Omega.{arith}
use nrf52_unifying.Prelude.Lists.{All}
use nrf52_unifying.Prelude.Tests.{◌==◌, if◌then◌else◌}

abbrev pub Bytes : Type 0
Bytes = List ℕ

-- A byte string literal of the source, which holds ASCII only.
abbrev pub codes : String → Bytes
codes String.[] = []
codes (String.◌∷◌ c s) = code c ∷ codes s

-- Equality of slices.
unfoldable pub eq_bytes : Bytes → Bytes → Bool
eq_bytes [] [] = true
eq_bytes (x ∷ xs) (y ∷ ys) = x == y && eq_bytes xs ys
eq_bytes _ _ = false

pub eq_bytes_iff : (a b : Bytes) → (eq_bytes a b ≡ true) ↔ (a ≡ b)
unfolding eq_bytes
eq_bytes_iff (x ∷ a) (y ∷ b) = ground (arith, eq_bytes_iff a b)
eq_bytes_iff _ _ = ground arith

pub eq_bytes_refl : (a : Bytes) → eq_bytes a a ≡ true
eq_bytes_refl a = (eq_bytes_iff a a).1 refl

-- `line.strip_prefix(p)`
unfoldable pub strip_prefix : Bytes → Bytes → Option Bytes
strip_prefix [] line = some line
strip_prefix (p ∷ ps) [] = none
strip_prefix (p ∷ ps) (x ∷ xs) = if p == x then strip_prefix ps xs else none

pub strip_prefix-eq_some :
    (p line : Bytes) {rest : Bytes} → strip_prefix p line ≡ some rest → line ≡ p ++ rest
unfolding strip_prefix
strip_prefix-eq_some [] line h = cc
strip_prefix-eq_some (p ∷ ps) [] h = cc
strip_prefix-eq_some (p ∷ ps) (x ∷ xs) {rest} h =
    ground (arith, strip_prefix-eq_some ps xs {rest = rest})

pub strip_prefix_append : (p rest : Bytes) → strip_prefix p (p ++ rest) ≡ some rest
unfolding strip_prefix
strip_prefix_append [] rest = refl
strip_prefix_append (p ∷ ps) rest = ground (arith, strip_prefix_append ps rest)

-- `line.starts_with(p)`
unfoldable pub starts_with : Bytes → Bytes → Bool
starts_with [] line = true
starts_with (p ∷ ps) [] = false
starts_with (p ∷ ps) (x ∷ xs) = p == x && starts_with ps xs

-- `line.strip_suffix(&[b])`: the line without its last byte, if that is `b`.
unfoldable pub strip_suffix : ℕ → Bytes → Option Bytes
strip_suffix b [] = none
strip_suffix b (x ∷ []) = if x == b then some [] else none
strip_suffix b (x ∷ y ∷ ys) = elim (strip_suffix b (y ∷ ys)) [ none ↦ none | some r ↦ some (x ∷ r) ]

-- `line.last()`
unfoldable pub last : Bytes → Option ℕ
last [] = none
last (x ∷ []) = some x
last (x ∷ y ∷ ys) = last (y ∷ ys)

-- `line.contains(&b)`
unfoldable pub contains : ℕ → Bytes → Bool
contains b [] = false
contains b (x ∷ xs) = x == b || contains b xs

-- The bytes of some pieces one after the other.
abbrev pub joined : List Bytes → Bytes
joined [] = []
joined (p ∷ ps) = p ++ joined ps

-- `line.split(|&b| b == sep)`: always one piece at least.
abbrev pub onto_first : ℕ → List Bytes → List Bytes
onto_first x [] = (x ∷ []) ∷ []
onto_first x (w ∷ ws) = (x ∷ w) ∷ ws

unfoldable pub split : ℕ → Bytes → List Bytes
split sep [] = [] ∷ []
split sep (x ∷ xs) = if x == sep then [] ∷ split sep xs else onto_first x (split sep xs)

-- `.filter(|s| !s.is_empty())`
unfoldable pub nonempty : List Bytes → List Bytes
nonempty [] = []
nonempty ([] ∷ ws) = nonempty ws
nonempty ((x ∷ w) ∷ ws) = (x ∷ w) ∷ nonempty ws

-- `line.split(|&b| b == b' ').filter(|s| !s.is_empty())`
unfoldable pub tokens : Bytes → List Bytes
unfolding split nonempty
tokens line = nonempty (split b' ' line)

-- A word: not empty, and without the separator.
pub record IsWord (w : Bytes) : Type 0 where
  pub no_space : contains b' ' w ≡ false
  pub ne_nil : w ≢ []

abbrev NoSep : ℕ → Bytes → Type 0
NoSep sep w = contains sep w ≡ false

split-NoSep : (sep : ℕ) (line : Bytes) → All (NoSep sep) (split sep line)
unfolding split contains
split-NoSep sep [] = (refl, tt)
split-NoSep sep (x ∷ xs) = go (split sep xs) (split-NoSep sep xs)
  where
    go :
        (ws : List Bytes)
        → All (NoSep sep) ws
        → All (NoSep sep) (if x == sep then [] ∷ ws else onto_first x ws)
    go [] h = ground arith
    go (w ∷ ws) h = ground arith

nonempty-IsWord : (ws : List Bytes) → All (NoSep b' ') ws → All IsWord (nonempty ws)
unfolding nonempty
nonempty-IsWord [] h = tt
nonempty-IsWord ([] ∷ ws) h = nonempty-IsWord ws h.1
nonempty-IsWord ((x ∷ w) ∷ ws) h =
    (record { no_space = h.0; ne_nil = λ e. cc }, nonempty-IsWord ws h.1)

-- Every token is a word.
pub tokens-IsWord : (line : Bytes) → All IsWord (tokens line)
unfolding tokens
tokens-IsWord line = nonempty-IsWord _ (split-NoSep b' ' line)

-- A piece without the separator stands as it is in front of the next separator.
pub split_piece :
    (sep : ℕ) (w rest : Bytes)
    → contains sep w ≡ false
    → split sep (w ++ (sep ∷ rest)) ≡ w ∷ split sep rest
unfolding split contains
split_piece sep [] rest h = ground arith
split_piece sep (x ∷ w) rest h = ground (arith, split_piece sep w rest)

pub split_last : (sep : ℕ) (w : Bytes) → contains sep w ≡ false → split sep w ≡ w ∷ []
unfolding split contains
split_last sep [] h = refl
split_last sep (x ∷ w) h = ground (arith, split_last sep w)

pub contains-append :
    (b : ℕ) (xs ys : Bytes) → contains b (xs ++ ys) ≡ (contains b xs || contains b ys)
unfolding contains
contains-append b [] ys = refl
contains-append b (x ∷ xs) ys = ground (arith, contains-append b xs ys)
