-- ===== src/Flash.antt =====
-- The NOR flash of the board, `embassy_nrf::nvmc::Nvmc`, which is not part of the repository: an
-- interface with the operations that app/src/storage.rs calls.
pub mod Array
use nrf52_unifying.Prelude.{
  All, ◌<◌, ℕ, ◌+◌, ◌%◌, ◌≤◌, ◌≡◌, ◌⊎◌, Bool, true, Option, some, length, replicate,
}
use nrf52_unifying.Prelude.Text.{Bytes}

-- `read(offset, &mut buf)`, with the length of `buf`, `none` on an error; `erase(from, to)` and
-- `write(offset, bytes)` with `is_ok()`.
pub record Nor (F : Type 0) : Type 0 where
  pub read : F → ℕ → ℕ → Option Bytes
  pub erase : F → ℕ → ℕ → F × Bool
  pub write : F → ℕ → Bytes → F × Bool

-- The contents of a buffer of `n` bytes.
pub record IsCell (n : ℕ) (bs : Bytes) : Type 0 where
  pub len : length bs ≡ n
  pub bytes : All (λ b. b < 256) bs

-- The erase granularity of the part.
abbrev pub page_size : ℕ
page_size = 4096

abbrev pub Apart : ℕ → ℕ → ℕ → ℕ → Type 0
Apart a n c m = (a + n ≤ c) ⊎ (c + m ≤ a)

-- The documented behaviour of NOR flash of `size` bytes: reads in range succeed, erased cells read
-- 0xff, erased cells take what is written, and nothing outside the range is touched.
pub record IsNor {F : Type 0} (nor : Nor F) (size : ℕ) : Type 0 where
  pub read_in :
      (f : F) (a n : ℕ) → a + n ≤ size → (bs : Bytes) × (nor.read f a n ≡ some bs) × IsCell n bs
  pub write_erased :
      (f : F) (a : ℕ) (bs : Bytes)
      → a % 4 ≡ 0
      → length bs % 4 ≡ 0
      → a + length bs ≤ size
      → All (λ b. b < 256) bs
      → nor.read f a (length bs) ≡ some (replicate (length bs) 0xff)
      → nor.read (nor.write f a bs).0 a (length bs) ≡ some bs
  pub write_apart :
      (f : F) (a : ℕ) (bs : Bytes) (c m : ℕ)
      → Apart a (length bs) c m
      → nor.read (nor.write f a bs).0 c m ≡ nor.read f c m
  pub erase_ok :
      (f : F) (a b : ℕ)
      → a % page_size ≡ 0
      → b % page_size ≡ 0
      → a ≤ b
      → b ≤ size
      → (nor.erase f a b).1 ≡ true
  pub erase_inside :
      (f : F) (a b c m : ℕ)
      → a % page_size ≡ 0
      → b % page_size ≡ 0
      → b ≤ size
      → a ≤ c
      → c + m ≤ b
      → nor.read (nor.erase f a b).0 c m ≡ some (replicate m 0xff)
  pub erase_apart :
      (f : F) (a b c m : ℕ)
      → (b ≤ c) ⊎ (c + m ≤ a)
      → nor.read (nor.erase f a b).0 c m ≡ nor.read f c m
