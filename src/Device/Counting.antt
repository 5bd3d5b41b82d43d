-- ===== src/Device/Counting.antt =====
-- A device for app/src/main.rs that counts its keystrokes, for the runs.
use nrf52_unifying.Device.{Device, IsDevice}
use nrf52_unifying.Prelude.{
  ◌&&◌, All, zero, suc, ltb, ◌==◌, if◌then◌else◌, length-replicate, Bool-cases, inl, inr, ℕ, ◌+◌,
  ◌%◌, ◌^◌, ◌≡◌, refl, arith, true, [], ◌∷◌, replicate, length, Bool, ◌<◌,
}
use nrf52_unifying.Prelude.Text.{Bytes}
use nrf52_unifying.Storage.{Profile}
use nrf52_unifying.Storage.Codec.{IsProfile}

unfoldable pub all_bytes : Bytes → Bool
all_bytes [] = true
all_bytes (b ∷ bs) = ltb b 256 && all_bytes bs

abbrev IsBytes : Bytes → Type 0
IsBytes bs = All (λ b. b < 256) bs

all_bytes-IsBytes : (bs : Bytes) → all_bytes bs ≡ true → IsBytes bs
unfolding all_bytes
all_bytes-IsBytes [] h = tt
all_bytes-IsBytes (b ∷ bs) h = (ground (arith, h), all_bytes-IsBytes bs (ground (arith, h)))

IsBytes-all_bytes : (bs : Bytes) → IsBytes bs → all_bytes bs ≡ true
unfolding all_bytes
IsBytes-all_bytes [] h = refl
IsBytes-all_bytes (b ∷ bs) h = ground (arith, h.0, IsBytes-all_bytes bs h.1)

-- A value of a field of `n` bytes.
unfoldable pub fit : ℕ → Bytes → Bytes
fit n bs = if length bs == n && all_bytes bs then bs else replicate n 0

replicate-IsBytes : (n : ℕ) → IsBytes (replicate n 0)
replicate-IsBytes zero = tt
replicate-IsBytes (suc n) = (omega arith, replicate-IsBytes n)

fit-IsBytes : (n : ℕ) (bs : Bytes) → (length (fit n bs) ≡ n) × IsBytes (fit n bs)
unfolding fit
fit-IsBytes n bs = elim (Bool-cases (length bs == n && all_bytes bs)) [
  | inl good ↦ rw good (ground (arith, good), all_bytes-IsBytes bs (ground (arith, good)))
  | inr bad ↦ rw bad (length-replicate n 0, replicate-IsBytes n)
]

fit_same : (n : ℕ) (bs : Bytes) → length bs ≡ n → IsBytes bs → fit n bs ≡ bs
unfolding fit
fit_same n bs len h =
    let good : (length bs == n && all_bytes bs) ≡ true =
      ground (arith, len, IsBytes-all_bytes bs h) in
    rw good refl

-- A device that is a profile, with each field in its range.
abbrev pub typed : Profile → Profile
typed p = record {
  address = fit 5 p.address;
  aes_key = fit 16 p.aes_key;
  aes_counter = p.aes_counter % 2 ^ 32;
  channel = p.channel % 256;
}

unfoldable pub counting : Device Profile
counting = record {
  profile = typed;
  set_profile = λ d p. p;
  set_timeout = λ d t. d;
  configure_radio = λ d. (d, true);
  pair = λ d p. (d, true);
  connect = λ d. (d, true);
  tick = λ d. d;
  tick_ok = λ d. true;
  previous_transmit = λ d. 0;
  send_encrypted_keystroke =
      λ d keys modifier. (record d { aes_counter = d.aes_counter + 1 }, true);
  set_addr_encoding = λ d e. d;
  set_address = λ d a. d;
  set_channel = λ d c. d;
  probe_once = λ d bs. (d, true);
  disable_radio = λ d. d;
  pairing_address = 0xBB ∷ 0x0A ∷ 0xDC ∷ 0xA5 ∷ 0x75 ∷ [];
  pairing_channels = 5 ∷ 8 ∷ 14 ∷ [];
  keys_len = 6;
}

typed-IsProfile : (p : Profile) → IsProfile (typed p)
typed-IsProfile p = record {
  address_len = (fit-IsBytes 5 p.address).0;
  key_len = (fit-IsBytes 16 p.aes_key).0;
  address_bytes = (fit-IsBytes 5 p.address).1;
  key_bytes = (fit-IsBytes 16 p.aes_key).1;
  counter_u32 = omega arith;
  channel_u8 = omega arith;
}

typed_same : (p : Profile) → IsProfile p → typed p ≡ p
typed_same p h =
    let counter : p.aes_counter % 2 ^ 32 ≡ p.aes_counter = omega (arith, h.counter_u32) in
    let channel : p.channel % 256 ≡ p.channel = omega (arith, h.channel_u8) in
    rw
      (
        fit_same 5 p.address h.address_len h.address_bytes,
        fit_same 16 p.aes_key h.key_len h.key_bytes,
        counter,
        channel,
      )
      refl

pub counting-IsDevice : IsDevice counting
unfolding counting
counting-IsDevice = record {
  profile_typed = λ d. typed-IsProfile d;
  channels_few = omega arith;
  profile_set = λ d p h. typed_same p h;
  configure_keeps = λ d. refl;
}
