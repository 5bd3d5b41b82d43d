-- ===== src/UartLink/Grammar.antt =====
-- The commands that `validate` of app/src/uart_link.rs accepts, as a grammar of words.
use nrf52_unifying.Prelude.Bits.{bit_or_nibble}
use nrf52_unifying.Prelude.{
  ℕ, ◌+◌, ◌≤◌, ◌<◌, ◌≡◌, ◌↔◌, refl, ap, ◌∙◌, Bool, true, false, ◌||◌, none, some, List, [], ◌∷◌,
  arith, length, ltb, if◌then◌else◌, All, Option-cases, Bool-cases, inl, inr, ◌*◌, ◌&&◌, ◌-◌, sym,
  subst, bit_or, ◌%◌, leb,
}
use nrf52_unifying.Prelude.Text.{Bytes, codes, eq_bytes, eq_bytes_iff}
use nrf52_unifying.UartLink.{
  argument, hex_byte, no_more, slot_argument, validate_keys, validate_report, validate_tokens, hex,
  hex_byte_loop,
}

-- A hexadecimal digit and its value.
pub data HexDigit (c v : ℕ) : Type 0 where
  decimal : v < 10 → c ≡ b'0' + v → HexDigit c v
  upper : (k : ℕ) → k < 6 → c ≡ b'A' + k → v ≡ 10 + k → HexDigit c v
  lower : (k : ℕ) → k < 6 → c ≡ b'a' + k → v ≡ 10 + k → HexDigit c v

-- One or two hexadecimal digits and their value.
pub data HexNumber (t : Bytes) (v : ℕ) : Type 0 where
  one_digit : (c : ℕ) → t ≡ c ∷ [] → HexDigit c v → HexNumber t v
  two_digits :
      (c d high low : ℕ)
      → t ≡ c ∷ d ∷ []
      → HexDigit c high
      → HexDigit d low
      → v ≡ 16 * high + low
      → HexNumber t v

abbrev pub IsHexByte : Bytes → Type 0
IsHexByte t = (v : ℕ) × HexNumber t v

pub data Accepted (line : List Bytes) : Type 0 where
  ota : (ws : List Bytes) → line ≡ codes "OTA" ∷ ws → Accepted line
  ver : line ≡ codes "VER" ∷ [] → Accepted line
  ustatus : line ≡ codes "USTATUS" ∷ [] → Accepted line
  uswitch :
      (t : Bytes) (slot : ℕ)
      → line ≡ codes "USWITCH" ∷ t ∷ []
      → HexNumber t slot
      → slot < 4
      → Accepted line
  upair :
      (t : Bytes) (slot : ℕ)
      → line ≡ codes "UPAIR" ∷ t ∷ []
      → HexNumber t slot
      → slot < 4
      → Accepted line
  ukeydown :
      (t : Bytes) (keys : List Bytes)
      → line ≡ codes "UKEYDOWN" ∷ t ∷ keys
      → IsHexByte t
      → length keys ≤ 6
      → All IsHexByte keys
      → Accepted line

some_inj : {m n : ℕ} → some m ≡ some n → m ≡ n
some_inj e = cc e

hex-HexDigit : (c v : ℕ) → hex c ≡ some v → HexDigit c v
unfolding hex
hex-HexDigit c v e = elim (Bool-cases (leb b'0' c && leb c b'9')) [
  | inl d ↦
      let f = rw (d, hex) at e in
      decimal (ground (arith, d, some_inj f)) (ground (arith, d, some_inj f))
  | inr d ↦ elim (Bool-cases (leb b'A' c && leb c b'F')) [
    | inl u ↦
        upper (c - b'A') (ground (arith, u)) (ground (arith, u))
          (ground (arith, some_inj (rw (u, d, hex) at e)))
    | inr u ↦ elim (Bool-cases (leb b'a' c && leb c b'f')) [
      | inl l ↦
          lower (c - b'a') (ground (arith, l)) (ground (arith, l))
            (ground (arith, some_inj (rw (l, u, d, hex) at e)))
      | inr l ↦ absurd (none-some (rw (l, u, d, hex) at e))
    ]
  ]
]
  where
    none-some : {n : ℕ} → none ≡ some n → ⊥
    none-some e = cc e

HexDigit-hex : (c v : ℕ) → HexDigit c v → (hex c ≡ some v) × (v < 16)
unfolding hex
HexDigit-hex c v (decimal l e) = ground arith
HexDigit-hex c v (upper k l e f) = ground arith
HexDigit-hex c v (lower k l e f) = ground arith

zero_or : (v : ℕ) → v < 16 → bit_or 0 v ≡ v
zero_or v l = bit_or_nibble 0 v l ∙ omega arith

hex_byte-one : (c v : ℕ) → HexDigit c v → hex_byte (c ∷ []) ≡ some v
unfolding hex_byte hex_byte_loop
hex_byte-one c v d =
    let (e, l) = HexDigit-hex c v d in
    rw (e, hex_byte, hex_byte_loop) (ap (λ n. some n) (zero_or v l))

hex_byte-two :
    (c d high low : ℕ)
    → HexDigit c high
    → HexDigit d low
    → hex_byte (c ∷ d ∷ []) ≡ some (16 * high + low)
unfolding hex_byte hex_byte_loop
hex_byte-two c d high low hc hd =
    let (e, l) = HexDigit-hex c high hc in
    let (f, m) = HexDigit-hex d low hd in
    let first : bit_or (0 * 16 % 256) high ≡ high = zero_or high l in
    let wraps : high * 16 % 256 ≡ high * 16 = omega (arith, l) in
    rw (e, f, hex_byte, hex_byte_loop, first, wraps, bit_or_nibble high low m)
      (ap (λ n. some n) (omega arith))

hex_byte-HexNumber : (t : Bytes) (v : ℕ) → hex_byte t ≡ some v → HexNumber t v
unfolding hex_byte hex_byte_loop
hex_byte-HexNumber [] v h = absurd (cc h)
hex_byte-HexNumber (c ∷ []) v h = elim (Option-cases (hex c)) [
  | inl e ↦ absurd (cc (rw (e, hex_byte, hex_byte_loop) at h))
  | inr (w, e) ↦
      let digit = hex-HexDigit c w e in
      one_digit c refl (subst (HexDigit c) (some_inj (sym (hex_byte-one c w digit) ∙ h)) digit)
]
hex_byte-HexNumber (c ∷ d ∷ []) v h = elim (Option-cases (hex c)) [
  | inl e ↦ absurd (cc (rw (e, hex_byte, hex_byte_loop) at h))
  | inr (high, e) ↦ elim (Option-cases (hex d)) [
    | inl f ↦ absurd (cc (rw (e, f, hex_byte, hex_byte_loop) at h))
    | inr (low, f) ↦
        let first = hex-HexDigit c high e in
        let second = hex-HexDigit d low f in
        two_digits c d high low refl first second
          (some_inj (sym h ∙ hex_byte-two c d high low first second))
  ]
]
hex_byte-HexNumber (c ∷ d ∷ e ∷ t) v h =
    let long : ltb 2 (length (c ∷ d ∷ e ∷ t)) ≡ true = ground arith in
    absurd (cc (rw (long, hex_byte) at h))

HexNumber-hex_byte : (t : Bytes) (v : ℕ) → HexNumber t v → hex_byte t ≡ some v
HexNumber-hex_byte t v (one_digit c e d) = rw e (hex_byte-one c v d)
HexNumber-hex_byte t v (two_digits c d high low e hc hd is) =
    rw (e, is) (hex_byte-two c d high low hc hd)

no_more-nil : (ts : List Bytes) → no_more ts ≡ true → ts ≡ []
no_more-nil [] h = refl
no_more-nil (t ∷ ts) h = absurd (cc h)

slot_argument_iff :
    (ts : List Bytes)
    → slot_argument ts ≡ true
    → (t : Bytes) × (slot : ℕ) × (ts ≡ t ∷ []) × HexNumber t slot × (slot < 4)
unfolding slot_argument
slot_argument_iff [] h = absurd (cc h)
slot_argument_iff (t ∷ ts) h = elim (Option-cases (hex_byte t)) [
  | inl e ↦ absurd (cc (rw e at h))
  | inr (slot, e) ↦
      let h' = rw e at h in
      (
        t,
        slot,
        ap (◌∷◌ t) (no_more-nil ts (ground arith)),
        hex_byte-HexNumber t slot e,
        ground arith,
      )
]

validate_keys-none :
    (count : ℕ) (ts : List Bytes)
    → count ≤ 6
    → validate_keys count ts ≡ none
    → (count + length ts ≤ 6) × All IsHexByte ts
unfolding validate_keys
validate_keys-none count [] le h = (omega arith, tt)
validate_keys-none count (t ∷ ts) le h = elim (Option-cases (hex_byte t)) [
  | inl e ↦ absurd (bad (ltb 6 (count + 1)) (rw e at h))
  | inr (v, e) ↦
      let h' = rw e at h in
      let more : count + 1 ≤ 6 = ground arith in
      let later = validate_keys-none (count + 1) ts more (ground arith) in
      (omega arith, ((v, hex_byte-HexNumber t v e), later.1))
]
  where
    bad :
        (b : Bool) → (if b || true then some argument else validate_keys (count + 1) ts) ≡ none → ⊥
    bad true h = cc h
    bad false h = cc h

validate_keys-accepts :
    (count : ℕ) (ts : List Bytes)
    → count + length ts ≤ 6
    → All IsHexByte ts
    → validate_keys count ts ≡ none
unfolding validate_keys
validate_keys-accepts count [] le h = refl
validate_keys-accepts count (t ∷ ts) le ((v, e), hs) =
    let fits : ltb 6 (count + 1) ≡ false = ground arith in
    rw (fits, HexNumber-hex_byte t v e) (validate_keys-accepts (count + 1) ts (omega arith) hs)

validate_report-none :
    (ts : List Bytes)
    → validate_report ts ≡ none
    → (t : Bytes) × (keys : List Bytes) × (ts ≡ t ∷ keys)
      × IsHexByte t
      × (length keys ≤ 6)
      × All IsHexByte keys
unfolding validate_report
validate_report-none [] h = absurd (cc h)
validate_report-none (t ∷ ts) h = elim (Option-cases (hex_byte t)) [
  | inl e ↦ absurd (cc (rw e at h))
  | inr (v, e) ↦
      let keys = validate_keys-none 0 ts (omega arith) (rw e at h) in
      (t, ts, refl, (v, hex_byte-HexNumber t v e), omega arith, keys.1)
]

slot_argument-accepts :
    (t : Bytes) (slot : ℕ) → HexNumber t slot → slot < 4 → slot_argument (t ∷ []) ≡ true
unfolding slot_argument
slot_argument-accepts t slot e h = rw (HexNumber-hex_byte t slot e) (ground arith)

passes : (b : Bool) → (if b then none else some argument) ≡ none → b ≡ true
passes true h = refl
passes false h = absurd (cc h)

headed : (t name : Bytes) (ts : List Bytes) → eq_bytes t name ≡ true → (t ∷ ts) ≡ (name ∷ ts)
headed t name ts h = ap (λ (w : Bytes). w ∷ ts) ((eq_bytes_iff t name).0 h)

nullary :
    (t : Bytes) (ts : List Bytes)
    → (eq_bytes t (codes "VER") || eq_bytes t (codes "USTATUS")) ≡ true
    → no_more ts ≡ true
    → Accepted (t ∷ ts)
nullary t ts name h = elim (Bool-cases (eq_bytes t (codes "VER"))) [
  | inl v ↦ ver (headed t _ ts v ∙ ap (λ (l : List Bytes). codes "VER" ∷ l) (no_more-nil ts h))
  | inr v ↦ ustatus (
      headed t _ ts (rw v at name)
      ∙ ap (λ (l : List Bytes). codes "USTATUS" ∷ l) (no_more-nil ts h))
]

slotted :
    (t : Bytes) (ts : List Bytes)
    → (eq_bytes t (codes "USWITCH") || eq_bytes t (codes "UPAIR")) ≡ true
    → slot_argument ts ≡ true
    → Accepted (t ∷ ts)
slotted t ts name h =
    let (s, slot, e, v, lt) = slot_argument_iff ts h in
    elim (Bool-cases (eq_bytes t (codes "USWITCH"))) [
      | inl w ↦
          uswitch s slot (headed t _ ts w ∙ ap (λ (l : List Bytes). codes "USWITCH" ∷ l) e) v lt
      | inr w ↦
          upair s slot (headed t _ ts (rw w at name) ∙ ap (λ (l : List Bytes). codes "UPAIR" ∷ l) e)
            v lt
    ]

reported :
    (t : Bytes) (ts : List Bytes)
    → eq_bytes t (codes "UKEYDOWN") ≡ true
    → validate_report ts ≡ none
    → Accepted (t ∷ ts)
reported t ts name h =
    let (m, keys, e, v, le, hs) = validate_report-none ts h in
    ukeydown m keys (headed t _ ts name ∙ ap (λ (l : List Bytes). codes "UKEYDOWN" ∷ l) e) v le hs

validate_tokens-none : (ts : List Bytes) → validate_tokens ts ≡ none → Accepted ts
unfolding validate_tokens
validate_tokens-none [] h = absurd (cc h)
validate_tokens-none (t ∷ ts) h = elim (Bool-cases (eq_bytes t (codes "OTA"))) [
  | inl a ↦ ota ts (headed t _ ts a)
  | inr a ↦
      let h1 = rw a at h in
      elim (Bool-cases (eq_bytes t (codes "VER") || eq_bytes t (codes "USTATUS"))) [
        | inl b ↦ nullary t ts b (passes (no_more ts) (rw b at h1))
        | inr b ↦
            let h2 = rw b at h1 in
            elim (Bool-cases (eq_bytes t (codes "USWITCH") || eq_bytes t (codes "UPAIR"))) [
              | inl c ↦ slotted t ts c (passes (slot_argument ts) (rw c at h2))
              | inr c ↦
                  let h3 = rw c at h2 in
                  elim (Bool-cases (eq_bytes t (codes "UKEYDOWN"))) [
                    | inl d ↦ reported t ts d (rw d at h3)
                    | inr d ↦ absurd (cc (rw d at h3))
                  ]
            ]
      ]
]

-- The words of a command pass validate exactly when they are in the grammar of accepted commands,
-- whose numbers are of one or two hexadecimal digits.
pub validate_tokens_iff : (ts : List Bytes) → (validate_tokens ts ≡ none) ↔ Accepted ts
validate_tokens_iff ts = (validate_tokens-none ts, accepts ts)
  where
    accepts : (ts : List Bytes) → Accepted ts → validate_tokens ts ≡ none
    accepts ts (ota ws e) = rw e (unfold validate_tokens eq_bytes in refl)
    accepts ts (ver e) = rw e (unfold validate_tokens eq_bytes in refl)
    accepts ts (ustatus e) = rw e (unfold validate_tokens eq_bytes in refl)
    accepts ts (uswitch t slot e h lt) =
        rw e (unfold validate_tokens eq_bytes in rw (slot_argument-accepts t slot h lt) refl)
    accepts ts (upair t slot e h lt) =
        rw e (unfold validate_tokens eq_bytes in rw (slot_argument-accepts t slot h lt) refl)
    accepts ts (ukeydown t keys e (v, h) le hs) = rw e (
        unfold validate_tokens eq_bytes validate_report in
        rw (HexNumber-hex_byte t v h) (validate_keys-accepts 0 keys (omega arith) hs))
