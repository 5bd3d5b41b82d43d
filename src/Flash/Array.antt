-- ===== src/Flash/Array.antt =====
-- A NOR flash as a function from addresses to cells, for the interface of Flash.
use nrf52_unifying.Flash.{Nor, IsNor, Apart, page_size}
use mathlib.Core.List.{tail}
use nrf52_unifying.Prelude.{
  ℕ, zero, suc, ◌+◌, ◌-◌, ◌%◌, ◌<◌, ◌≤◌, ◌≡◌, ◌⊎◌, inl, inr, refl, ap, ◌∙◌, Bool, true, false, ◌&&◌,
  none, some, some, [], ◌∷◌, All, arith, length, replicate, leb, ltb, ◌==◌, get_or, bit_and,
  if◌then◌else◌, Bool-cases,
}
use nrf52_unifying.Prelude.Bits.{ff-bit_and}
use nrf52_unifying.Prelude.Text.{Bytes}

abbrev pub Cells : Type 0
Cells = ℕ → ℕ

-- The bytes of `n` cells from `a` on.
unfoldable pub window : Cells → ℕ → ℕ → Bytes
window f a zero = []
window f a (suc n) = (f a % 256) ∷ window f (a + 1) n

-- Erasing sets cells to 0xff; writing clears bits.
erased : Cells → ℕ → ℕ → Cells
erased f a b x = if leb a x && ltb x b then 0xff else f x

written : Cells → ℕ → Bytes → Cells
written f a bs x =
    if leb a x && ltb x (a + length bs) then bit_and (f x % 256) (get_or bs (x - a) 0) else f x

-- An operation that is done only if its arguments are in order.
abbrev outcome : Bool → Cells → Cells → Cells × Bool
outcome true g f = (g, true)
outcome false g f = (f, false)

-- Erases go by whole pages and writes by whole words, within the part.
unfoldable pub array : ℕ → Nor Cells
unfolding window erased written
array size = record {
  read = λ f a n. if leb (a + n) size then some (window f a n) else none;
  erase =
      λ f a b. outcome (a % page_size == 0 && b % page_size == 0 && leb b size) (erased f a b) f;
  write = λ f a bs.
      outcome (a % 4 == 0 && length bs % 4 == 0 && leb (a + length bs) size) (written f a bs) f;
}

length-window : (f : Cells) (a n : ℕ) → length (window f a n) ≡ n
unfolding window
length-window f a zero = refl
length-window f a (suc n) = ap suc (length-window f (a + 1) n)

window-bytes : (f : Cells) (a n : ℕ) → All (λ b. b < 256) (window f a n)
unfolding window
window-bytes f a zero = tt
window-bytes f a (suc n) = (omega arith, window-bytes f (a + 1) n)

-- Windows on cells that agree are equal.
window_eq :
    (f g : Cells) (a n : ℕ)
    → ((x : ℕ) → a ≤ x → x < a + n → f x % 256 ≡ g x % 256)
    → window f a n ≡ window g a n
unfolding window
window_eq f g a zero h = refl
window_eq f g a (suc n) h =
    let rest = window_eq f g (a + 1) n (λ x lo hi. h x (omega arith) (omega arith)) in
    rw (h a (omega arith) (omega arith), rest) refl

window_erased :
    (f : Cells) (a n : ℕ)
    → ((x : ℕ) → a ≤ x → x < a + n → f x ≡ 0xff)
    → window f a n ≡ replicate n 0xff
unfolding window
window_erased f a zero h = refl
window_erased f a (suc n) h =
    rw (h a (omega arith) (omega arith))
      (ap (◌∷◌ 0xff) (window_erased f (a + 1) n (λ x lo hi. h x (omega arith) (omega arith))))

erased_cells :
    (f : Cells) (a n : ℕ)
    → window f a n ≡ replicate n 0xff
    → (x : ℕ) → a ≤ x
    → x < a + n
    → f x % 256 ≡ 0xff
unfolding window
erased_cells f a zero e x lo hi = absurd (omega arith)
erased_cells f a (suc n) e x lo hi = elim (Bool-cases (x == a)) [
  | inl here ↦ let at : x ≡ a = ground arith in rw at (cc)
  | inr later ↦ erased_cells f (a + 1) n (ap tail e) x (ground arith) (omega arith)
]

-- A window that reads what is written there.
window_list :
    (f : Cells) (a : ℕ) (bs : Bytes)
    → ((x : ℕ) → a ≤ x → x < a + length bs → f x % 256 ≡ get_or bs (x - a) 0)
    → window f a (length bs) ≡ bs
unfolding window
window_list f a [] h = refl
window_list f a (b ∷ bs) h = rw (
  h a (omega arith) (omega arith) ∙ first (a - a) (omega arith),
  window_list f (a + 1) bs
      (λ x lo hi. h x (omega arith) (omega arith) ∙ next (x - a) (x - (a + 1)) (omega arith)),
)
  where
    first : (k : ℕ) → k ≡ 0 → get_or (b ∷ bs) k 0 ≡ b
    first zero e = refl
    first (suc k) e = absurd (omega arith)

    next : (k j : ℕ) → k ≡ suc j → get_or (b ∷ bs) k 0 ≡ get_or bs j 0
    next k j e = rw e

outcome-keeps :
    (t : Bool) (g f : Cells) (x : ℕ) → g x % 256 ≡ f x % 256 → (outcome t g f).0 x % 256 ≡ f x % 256
outcome-keeps true g f x h = h
outcome-keeps false g f x h = refl

read_fits :
    (f : Cells) (a n size : ℕ)
    → a + n ≤ size
    → (if leb (a + n) size then some (window f a n) else none) ≡ some (window f a n)
read_fits f a n size h = ground arith

get_or-bytes : (bs : Bytes) (k : ℕ) → All (λ b. b < 256) bs → get_or bs k 0 < 256
get_or-bytes [] k h = omega arith
get_or-bytes (b ∷ bs) zero h = h.0
get_or-bytes (b ∷ bs) (suc k) h = get_or-bytes bs k h.1

programmed :
    (f : Cells) (a : ℕ) (bs : Bytes) (x : ℕ)
    → All (λ b. b < 256) bs
    → a ≤ x
    → x < a + length bs
    → f x % 256 ≡ 0xff
    → written f a bs x % 256 ≡ get_or bs (x - a) 0
unfolding written
programmed f a bs x hb lo hi e =
    let small = get_or-bytes bs (x - a) hb in
    let inside : (leb a x && ltb x (a + length bs)) ≡ true = ground arith in
    rw inside (rw (e, ff-bit_and _ small) (omega arith))

write_erased_lem :
    (size : ℕ) (f : Cells) (a : ℕ) (bs : Bytes)
    → a % 4 ≡ 0
    → length bs % 4 ≡ 0
    → a + length bs ≤ size
    → All (λ b. b < 256) bs
    → (array size).read f a (length bs) ≡ some (replicate (length bs) 0xff)
    → (array size).read ((array size).write f a bs).0 a (length bs) ≡ some bs
unfolding array
write_erased_lem size f a bs ha hl hs hb e =
    let passes : (a % 4 == 0 && length bs % 4 == 0 && leb (a + length bs) size) ≡ true =
      ground arith in
    let was : window f a (length bs) ≡ replicate (length bs) 0xff =
      cc (e, read_fits f a (length bs) size hs) in
    rw passes (
      read_fits (written f a bs) a (length bs) size hs
      ∙ ap some (
          window_list (written f a bs) a bs
            (λ x lo hi. programmed f a bs x hb lo hi (erased_cells f a (length bs) was x lo hi))))

-- Reads of cells that an operation leaves alone.
read_same :
    (size : ℕ) (f g : Cells) (c m : ℕ)
    → ((x : ℕ) → c ≤ x → x < c + m → g x % 256 ≡ f x % 256)
    → (array size).read g c m ≡ (array size).read f c m
unfolding array
read_same size f g c m h =
    ap (λ (t : Bytes). if leb (c + m) size then some t else none) (window_eq g f c m h)

unwritten :
    (f : Cells) (a : ℕ) (bs : Bytes) (x : ℕ)
    → (x < a) ⊎ (a + length bs ≤ x)
    → written f a bs x % 256 ≡ f x % 256
unfolding written
unwritten f a bs x h = ground arith

unerased : (f : Cells) (a b x : ℕ) → (x < a) ⊎ (b ≤ x) → erased f a b x % 256 ≡ f x % 256
unfolding erased
unerased f a b x h = ground arith

inside_erased : (f : Cells) (a b x : ℕ) → a ≤ x → x < b → erased f a b x ≡ 0xff
unfolding erased
inside_erased f a b x lo hi = ground arith

write_apart_lem :
    (size : ℕ) (f : Cells) (a : ℕ) (bs : Bytes) (c m : ℕ)
    → Apart a (length bs) c m
    → (array size).read ((array size).write f a bs).0 c m ≡ (array size).read f c m
unfolding array
write_apart_lem size f a bs c m d =
    read_same size f _ c m
      (λ x lo hi. outcome-keeps _ (written f a bs) f x (unwritten f a bs x (outside d x lo hi)))
  where
    outside : Apart a (length bs) c m → (x : ℕ) → c ≤ x → x < c + m → (x < a) ⊎ (a + length bs ≤ x)
    outside (inl h) x lo hi = inr (omega arith)
    outside (inr h) x lo hi = inl (omega arith)

erase_apart_lem :
    (size : ℕ) (f : Cells) (a b c m : ℕ)
    → (b ≤ c) ⊎ (c + m ≤ a)
    → (array size).read ((array size).erase f a b).0 c m ≡ (array size).read f c m
unfolding array
erase_apart_lem size f a b c m d =
    read_same size f _ c m
      (λ x lo hi. outcome-keeps _ (erased f a b) f x (unerased f a b x (outside d x lo hi)))
  where
    outside : (b ≤ c) ⊎ (c + m ≤ a) → (x : ℕ) → c ≤ x → x < c + m → (x < a) ⊎ (b ≤ x)
    outside (inl h) x lo hi = inr (omega arith)
    outside (inr h) x lo hi = inl (omega arith)

pages :
    (a b size : ℕ)
    → a % page_size ≡ 0
    → b % page_size ≡ 0
    → b ≤ size
    → (a % page_size == 0 && b % page_size == 0 && leb b size) ≡ true
pages a b size ha hb hs = ground arith

erase_inside_lem :
    (size : ℕ) (f : Cells) (a b c m : ℕ)
    → a % page_size ≡ 0
    → b % page_size ≡ 0
    → b ≤ size
    → a ≤ c
    → c + m ≤ b
    → (array size).read ((array size).erase f a b).0 c m ≡ some (replicate m 0xff)
unfolding array
erase_inside_lem size f a b c m ha hb hs lo hi = rw (pages a b size ha hb hs) (
    read_fits (erased f a b) c m size (omega arith)
    ∙ ap some (
        window_erased (erased f a b) c m
          (λ x from to. inside_erased f a b x (omega arith) (omega arith))))

-- The model is a NOR flash.
pub array-IsNor : (size : ℕ) → IsNor (array size) size
unfolding array
array-IsNor size = record {
  read_in = λ f a n h. (
    window f a n,
    read_fits f a n size h,
    record { len = length-window f a n; bytes = window-bytes f a n },
  );
  write_erased = write_erased_lem size;
  write_apart = write_apart_lem size;
  erase_ok = λ f a b ha hb le hs. rw (pages a b size ha hb hs) refl;
  erase_inside = erase_inside_lem size;
  erase_apart = erase_apart_lem size;
}
