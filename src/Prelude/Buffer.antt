-- ===== src/Prelude/Buffer.antt =====
-- Fixed buffers: indexing and copying as Rust does them, with a panic out of range.
use Prim.Native.Nat.{ℕ, suc, ◌+◌, ◌≤◌, ◌<◌}
use mathlib.Core.List.{[], ◌∷◌, ◌++◌, append_assoc}
use mathlib.Core.Path.{◌≡◌, refl, sym, ap, ◌∙◌}
use native.Mathlib.Omega.{arith}
use nrf52_unifying.Prelude.Lists.{
  length, set, take, drop, length-append, length-set, length-take, length-drop, take-set_snoc,
  take_append,
}
use nrf52_unifying.Prelude.Panic.{Run, panic, ret, Returns}
use nrf52_unifying.Prelude.Tests.{leb, ltb, if◌then◌else◌}
use nrf52_unifying.Prelude.Text.{Bytes}

-- `buf[i] = v`
unfoldable pub store : Bytes → ℕ → ℕ → Run Bytes
store buf i v = if ltb i (length buf) then ret (set buf i v) else panic

abbrev splice : Bytes → ℕ → Bytes → Bytes
splice buf i src = take i buf ++ (src ++ drop (i + length src) buf)

-- `buf[i..i + src.len()].copy_from_slice(src)`
unfoldable pub copy : Bytes → ℕ → Bytes → Run Bytes
copy buf i src = if leb (i + length src) (length buf) then ret (splice buf i src) else panic

-- `&buf[..n]`
unfoldable pub slice_to : Bytes → ℕ → Run Bytes
slice_to buf n = if leb n (length buf) then ret (take n buf) else panic

-- A buffer of `cap` bytes that starts with `text`.
pub record IsFilled (cap : ℕ) (buf : Bytes) (n : ℕ) (text : Bytes) : Type 0 where
  pub cap_is : length buf ≡ cap
  pub starts : take n buf ≡ text
  pub len_is : length text ≡ n

pub store-IsFilled :
    {cap n : ℕ} {buf text : Bytes} (v : ℕ)
    → IsFilled cap buf n text
    → n < cap
    → (buf' : Bytes) × (store buf n v ≡ ret buf') × IsFilled cap buf' (n + 1) (text ++ v ∷ [])
unfolding store
store-IsFilled {cap} {n} {buf} {text} v f lt = (
  set buf n v,
  ground (arith, f.cap_is),
  record {
    cap_is = length-set buf n v ∙ f.cap_is;
    starts =
        ap (λ k. take k (set buf n v)) (suc_of n)
        ∙ take-set_snoc n buf v (omega (arith, f.cap_is))
        ∙ ap (λ (t : Bytes). t ++ v ∷ []) f.starts;
    len_is = omega (arith, length-append text (v ∷ []), f.len_is);
  },
)
  where
    suc_of : (n : ℕ) → n + 1 ≡ suc n
    suc_of n = omega arith

-- `buf[i] = v` in range, where the code has tested the range before.
pub set-IsFilled :
    {cap n : ℕ} {buf text : Bytes} (v : ℕ)
    → IsFilled cap buf n text
    → n < cap
    → IsFilled cap (set buf n v) (n + 1) (text ++ v ∷ [])
unfolding store
set-IsFilled {cap} {n} {buf} {text} v f lt =
    let (b, e, g) = store-IsFilled v f lt in
    let same : set buf n v ≡ b = ground (arith, f.cap_is) in rw same g

length-splice :
    (buf : Bytes) (n : ℕ) (src : Bytes)
    → n + length src ≤ length buf
    → length (splice buf n src) ≡ length buf
length-splice buf n src h = omega (
  arith,
  length-append (take n buf) (src ++ drop (n + length src) buf),
  length-append src (drop (n + length src) buf),
  length-take n buf,
  length-drop (n + length src) buf,
)

pub copy-IsFilled :
    {cap n : ℕ} {buf text : Bytes} (src : Bytes)
    → IsFilled cap buf n text
    → n + length src ≤ cap
    → (buf' : Bytes) × (copy buf n src ≡ ret buf')
      × IsFilled cap buf' (n + length src) (text ++ src)
unfolding copy
copy-IsFilled {cap} {n} {buf} {text} src f le =
    let fits : n + length src ≤ length buf = omega (arith, f.cap_is) in
    (
      splice buf n src,
      ground arith,
      record {
        cap_is = length-splice buf n src fits ∙ f.cap_is;
        starts =
            ap (take (n + length src)) (
              ap (λ (t : Bytes). t ++ (src ++ drop (n + length src) buf)) f.starts
              ∙ sym (append_assoc text src (drop (n + length src) buf)))
            ∙ take_append (text ++ src) (drop (n + length src) buf) (n + length src)
                (omega (arith, length-append text src, f.len_is));
        len_is = omega (arith, length-append text src, f.len_is);
      },
    )

pub slice_to-IsFilled :
    {cap n : ℕ} {buf text : Bytes} → IsFilled cap buf n text → n ≤ cap → slice_to buf n ≡ ret text
unfolding slice_to
slice_to-IsFilled f le = ground (arith, f.cap_is, f.starts)

pub IsFilled-zero : (buf : Bytes) → IsFilled (length buf) buf 0 []
IsFilled-zero buf = record { cap_is = refl; starts = refl; len_is = refl }

pub store-length :
    (buf : Bytes) (i v : ℕ) → i < length buf → Returns (store buf i v) (λ b. length b ≡ length buf)
unfolding store
store-length buf i v h = ground (arith, length-set buf i v)

pub copy-length :
    (buf : Bytes) (i : ℕ) (src : Bytes)
    → i + length src ≤ length buf
    → Returns (copy buf i src) (λ b. length b ≡ length buf)
unfolding copy
copy-length buf i src h = ground (
  arith,
  length-append (take i buf) (src ++ drop (i + length src) buf),
  length-append src (drop (i + length src) buf),
  length-take i buf,
  length-drop (i + length src) buf,
)

pub slice-length :
    (buf : Bytes) (n : ℕ) → n ≤ length buf → Returns (slice_to buf n) (λ b. length b ≡ n)
unfolding slice_to
slice-length buf n h = ground (arith, length-take n buf)
