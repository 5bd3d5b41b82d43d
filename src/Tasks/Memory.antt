-- ===== src/Tasks/Memory.antt =====
-- An updater over a flash in memory, and a worker, for the runs.
use mathlib.Core.Option.{some-injective}
use nrf52_unifying.Prelude.{
  ℕ, ◌+◌, ◌^◌, ◌≡◌, refl, sym, true, false, ◌||◌, Option, none, some, leb, ltb, if◌then◌else◌, Bool,
}
use nrf52_unifying.Prelude.Text.{Bytes}
use nrf52_unifying.Tasks.{Updater, boot}
use nrf52_unifying.Tasks.Worker.{dfu_store}
use nrf52_unifying.UartOta
use nrf52_unifying.UartOta.Image.{slice, IsStorage}
use nrf52_unifying.UartOta.Memory.{Cells, overwrite, memory, memory-IsStorage}

unfoldable pub in_memory : Updater Cells
unfolding overwrite
in_memory = record {
  get_state = λ f. (f, some boot);
  write_firmware = λ f a bs. (overwrite f a bs, true);
  read_dfu = λ f a n. (f, some (slice f a n));
  mark_updated = λ f. (f, true);
  mark_booted = λ f. (f, true);
  renew = λ f. f;
}

-- What a read brings, where it is refused or not.
abbrev guarded : Bool → Cells × Option Bytes → Cells × Option Bytes
guarded b x = if b then (x.0, none) else x

shown :
    (b : Bool) (f : Cells) (a n : ℕ) (bs : Bytes)
    → (guarded b (f, some (slice f a n))).1 ≡ some bs
    → bs ≡ slice f a n
shown true f a n bs e = absurd (never e)
  where
    never : none ≡ some bs → ⊥
    never e = cc
shown false f a n bs e = sym (some-injective (slice f a n) bs e)

kept : (b : Bool) (f : Cells) (a n x : ℕ) → (guarded b (f, some (slice f a n))).0 x ≡ f x
kept true f a n x = refl
kept false f a n x = refl

pub in_memory-IsStorage : IsStorage (dfu_store in_memory) (λ f. f)
unfolding in_memory dfu_store memory
in_memory-IsStorage = record {
  read_shows = λ f a n bs e. shown (leb (2 ^ 32) (a + n) || ltb UartOta.limit (a + n)) f a n bs e;
  read_keeps = λ f a n x. kept (leb (2 ^ 32) (a + n) || ltb UartOta.limit (a + n)) f a n x;
  write_sets = memory-IsStorage.write_sets;
  write_keeps = memory-IsStorage.write_keeps;
}
