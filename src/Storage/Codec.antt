-- ===== src/Storage/Codec.antt =====
-- The profile record of app/src/storage.rs: what `decode` makes of what `encode` wrote.
use nrf52_unifying.Flash.{IsCell}
use nrf52_unifying.Prelude.{
  All, ℕ, zero, suc, ◌+◌, ◌^◌, ◌<◌, ◌≡◌, refl, ap, sym, ◌∙◌, true, none, some, [], ◌∷◌, ◌++◌, arith,
  length, replicate, drop, get_or, take_append, drop_append, length-append,
}
use nrf52_unifying.Prelude.Text.{Bytes}
use nrf52_unifying.Storage.{
  Profile, magic, record_size, to_le_bytes, from_le_bytes, encode, decode, all_ff,
}

-- The types of the fields: `[u8; 5]`, `[u8; 16]`, `u32` and `u8`.
pub record IsProfile (p : Profile) : Type 0 where
  pub address_len : length p.address ≡ 5
  pub key_len : length p.aes_key ≡ 16
  pub address_bytes : All (λ b. b < 256) p.address
  pub key_bytes : All (λ b. b < 256) p.aes_key
  pub counter_u32 : p.aes_counter < 2 ^ 32
  pub channel_u8 : p.channel < 256

pub from_le_bytes-to_le_bytes : (x : ℕ) → x < 2 ^ 32 → from_le_bytes (to_le_bytes x) ≡ x
unfolding from_le_bytes to_le_bytes
from_le_bytes-to_le_bytes x h = omega arith

get_or-drop : (xs : Bytes) (n d : ℕ) → get_or xs n d ≡ get_or (drop n xs) 0 d
get_or-drop [] zero d = refl
get_or-drop [] (suc n) d = refl
get_or-drop (x ∷ xs) zero d = refl
get_or-drop (x ∷ xs) (suc n) d = get_or-drop xs n d

drop-append_add : (xs ys : Bytes) (n m : ℕ) → n ≡ length xs → drop (n + m) (xs ++ ys) ≡ drop m ys
drop-append_add [] ys n m h = rw h (ap (λ k. drop k ys) (omega arith))
drop-append_add (x ∷ xs) ys zero m h = absurd (omega arith)
drop-append_add (x ∷ xs) ys (suc n) m h =
    ap (λ k. drop k (x ∷ (xs ++ ys))) (add_suc n m) ∙ drop-append_add xs ys n m (omega arith)
  where
    add_suc : (n m : ℕ) → suc n + m ≡ suc (n + m)
    add_suc n m = omega arith

-- A well-formed profile is read back as it was written.
pub decode-encode : (p : Profile) → IsProfile p → decode (encode p) ≡ some p
unfolding decode encode
decode-encode p h =
    let tail : Bytes = p.channel ∷ 0 ∷ 0 ∷ (p.aes_key ++ to_le_bytes p.aes_counter) in
    let key = drop_append p.aes_key (to_le_bytes p.aes_counter) 16 (sym h.key_len) in
    rw
      (
        take_append p.address tail 5 (sym h.address_len),
        drop-append_add p.address tail 5 3 (sym h.address_len),
        drop-append_add p.address tail 5 19 (sym h.address_len),
        get_or-drop (p.address ++ tail) 5 0,
        drop_append p.address tail 5 (sym h.address_len),
        take_append p.aes_key (to_le_bytes p.aes_counter) 16 (sym h.key_len),
        key,
      )
      (ap (λ (k : ℕ). some (record p { aes_counter = k }))
        (from_le_bytes-to_le_bytes p.aes_counter h.counter_u32))

pub length-encode : (p : Profile) → IsProfile p → length (encode p) ≡ record_size
unfolding encode
length-encode p h = omega (
  arith,
  length-append p.address (p.channel ∷ 0 ∷ 0 ∷ (p.aes_key ++ to_le_bytes p.aes_counter)),
  length-append p.aes_key (to_le_bytes p.aes_counter),
  h.address_len,
  h.key_len,
)

All-append : (P : ℕ → Type 0) (xs ys : Bytes) → All P xs → All P ys → All P (xs ++ ys)
All-append P [] ys h k = k
All-append P (x ∷ xs) ys h k = (h.0, All-append P xs ys h.1 k)

pub to_le_bytes-IsCell : (x : ℕ) → IsCell 4 (to_le_bytes x)
unfolding to_le_bytes
to_le_bytes-IsCell x = record { len = refl; bytes = omega arith }

-- A record is 32 bytes.
pub encode-IsCell : (p : Profile) → IsProfile p → IsCell record_size (encode p)
unfolding encode
encode-IsCell p h = record {
  len = length-encode p h;
  bytes = All-append _ (to_le_bytes magic) _ (to_le_bytes-IsCell magic).bytes (
      All-append _ p.address _ h.address_bytes (
        h.channel_u8,
        (
          omega arith,
          (
            omega arith,
            All-append _ p.aes_key _ h.key_bytes (to_le_bytes-IsCell p.aes_counter).bytes,
          ),
        ),
      ));
}

-- An erased record is no profile.
pub decode_blank : decode (replicate record_size 0xff) ≡ none
unfolding decode
decode_blank = refl

pub all_ff-replicate : (n : ℕ) → all_ff (replicate n 0xff) ≡ true
unfolding all_ff
all_ff-replicate zero = refl
all_ff-replicate (suc n) = all_ff-replicate n

pub all_ff-blank : (r : Bytes) → all_ff r ≡ true → r ≡ replicate (length r) 0xff
unfolding all_ff
all_ff-blank [] h = refl
all_ff-blank (b ∷ bs) h = ground (arith, all_ff-blank bs)
