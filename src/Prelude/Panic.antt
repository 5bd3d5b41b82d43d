-- ===== src/Prelude/Panic.antt =====
-- Code that may panic (an index or a slice out of range, which resets the board): `panic`, or
-- `ret` with the value.

use mathlib.Core.Bool.{Bool, true, false}
use mathlib.Core.Path.{◌≡◌, refl}
use nrf52_unifying.Prelude.Tests.{if◌then◌else◌}

pub data Run {ℓ} (A : Type ℓ) : Type ℓ where
  panic : Run A
  ret : A → Run A

infixl 5 ◌>>=◌
abbrev pub ◌>>=◌ {ℓ κ} : {A : Type ℓ} {B : Type κ} → Run A → (A → Run B) → Run B
panic >>= f = panic
ret a >>= f = f a

-- The code does not panic, and what it returns has the property.
abbrev pub Returns {ℓ} : {A : Type ℓ} → Run A → (A → Type 0) → Type 0
Returns panic P = ⊥
Returns (ret a) P = P a

pub Returns-bind {ℓ κ} :
    {A : Type ℓ} {B : Type κ} (m : Run A) (f : A → Run B) (P : A → Type 0) (Q : B → Type 0)
    → Returns m P
    → ((a : A) → P a → Returns (f a) Q)
    → Returns (m >>= f) Q
Returns-bind panic f P Q h k = h
Returns-bind (ret a) f P Q h k = k a h

pub Returns-weaken {ℓ} :
    {A : Type ℓ} (m : Run A) (P Q : A → Type 0) → Returns m P → ((a : A) → P a → Q a) → Returns m Q
Returns-weaken panic P Q h k = h
Returns-weaken (ret a) P Q h k = k a h

pub Returns-if {ℓ} :
    {A : Type ℓ} (b : Bool) (m n : Run A) (P : A → Type 0)
    → Returns m P
    → Returns n P
    → Returns (if b then m else n) P
Returns-if true m n P h k = h
Returns-if false m n P h k = k

-- The result of code that does not panic.
pub Returns-result {ℓ} :
    {A : Type ℓ} (m : Run A) (P : A → Type 0) → Returns m P → (a : A) × (m ≡ ret a) × P a
Returns-result panic P h = absurd h
Returns-result (ret a) P h = (a, refl, h)
