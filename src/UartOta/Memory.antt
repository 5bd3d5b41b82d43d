-- ===== src/UartOta/Memory.antt =====
-- A storage for app/src/uart_ota.rs in memory, for the runs.
use mathlib.Core.Option.{some-injective}
use nrf52_unifying.Prelude.{
  ℕ, ◌+◌, ◌<◌, ◌≡◌, refl, ap, sym, ◌∙◌, true, false, some, [], ◌∷◌, arith, length, ◌==◌,
  if◌then◌else◌,
}
use nrf52_unifying.Prelude.Text.{Bytes}
use nrf52_unifying.UartOta.{Storage}
use nrf52_unifying.UartOta.Image.{slice, IsStorage, slice_same}

abbrev pub Cells : Type 0
Cells = ℕ → ℕ

-- The cells with some bytes from `a` on.
unfoldable pub overwrite : Cells → ℕ → Bytes → Cells
overwrite f a [] x = f x
overwrite f a (b ∷ bs) x = if x == a then b else overwrite f (a + 1) bs x

unfoldable pub memory : Storage Cells
memory = record {
  write = λ f a bs. (overwrite f a bs, true);
  read = λ f a n. (f, some (slice f a n));
  commit = λ f. (f, true);
}

overwrite_before : (f : Cells) (a : ℕ) (bs : Bytes) (x : ℕ) → x < a → overwrite f a bs x ≡ f x
unfolding overwrite
overwrite_before f a [] x l = refl
overwrite_before f a (b ∷ bs) x l =
    let other : (x == a) ≡ false = ground (arith, l) in
    rw other (overwrite_before f (a + 1) bs x (omega (arith, l)))

overwrite_at : (f : Cells) (a b : ℕ) (bs : Bytes) → overwrite f a (b ∷ bs) a ≡ b
unfolding overwrite
overwrite_at f a b bs = ground arith

overwrite_behind :
    (f : Cells) (a b : ℕ) (bs : Bytes) (x : ℕ)
    → a < x
    → overwrite f a (b ∷ bs) x ≡ overwrite f (a + 1) bs x
unfolding overwrite
overwrite_behind f a b bs x l = let other : (x == a) ≡ false = ground (arith, l) in rw other refl

slice-overwrite : (f : Cells) (a : ℕ) (bs : Bytes) → slice (overwrite f a bs) a (length bs) ≡ bs
slice-overwrite f a [] = refl
slice-overwrite f a (b ∷ bs) = rw (overwrite_at f a b bs) (
    ap (◌∷◌ b) (
      slice_same (overwrite f a (b ∷ bs)) (overwrite f (a + 1) bs) (a + 1) (length bs)
        (λ x k _. overwrite_behind f a b bs x (omega (arith, k)))
      ∙ slice-overwrite f (a + 1) bs))

pub memory-IsStorage : IsStorage memory (λ f. f)
unfolding memory
memory-IsStorage = record {
  read_shows = λ f a n bs e. sym (some-injective (slice f a n) bs e);
  read_keeps = λ f a n x. refl;
  write_sets = λ f a bs _. slice-overwrite f a bs;
  write_keeps = λ f a bs x _ l. overwrite_before f a bs x l;
}
