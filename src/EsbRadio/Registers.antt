-- ===== src/EsbRadio/Registers.antt =====
-- `hw_address` of app/src/esb_radio.rs: no two addresses share their registers.
use nrf52_unifying.EsbRadio.{reverse_bits, pack_base, Address, hw_address}
use nrf52_unifying.Prelude.{
  ℕ, ◌+◌, ◌*◌, ◌<◌, ◌≡◌, refl, ap, sym, ◌∙◌, Bool, true, ◌&&◌, ltb, ◌==◌, ==_iff, arith, Bool-cases,
  inl, inr,
}
use nrf52_unifying.Prelude.Bits.{all_below, all_below→eq}

reversible : ℕ → Bool
reversible b = reverse_bits (reverse_bits b) == b && ltb (reverse_bits b) 256

reverse_table : all_below 256 reversible ≡ true
unfolding all_below reversible reverse_bits
reverse_table = refl

reverse_facts : (b : ℕ) → b < 256 → (reverse_bits (reverse_bits b) ≡ b) × (reverse_bits b < 256)
unfolding reversible
reverse_facts b h =
    ground (
      arith,
      ==_iff (reverse_bits (reverse_bits b)) b,
      all_below→eq 256 reversible b reverse_table h,
    )

reverse_bits-injective : (a b : ℕ) → a < 256 → b < 256 → reverse_bits a ≡ reverse_bits b → a ≡ b
reverse_bits-injective a b h k e =
    sym (reverse_facts a h).0 ∙ ap reverse_bits e ∙ (reverse_facts b k).0

-- Five bytes.
pub record IsAddress (a : Address) : Type 0 where
  pub b0 : a.a0 < 256
  pub b1 : a.a1 < 256
  pub b2 : a.a2 < 256
  pub b3 : a.a3 < 256
  pub b4 : a.a4 < 256

pack_base-injective :
    (a b c d a' b' c' d' : ℕ)
    → a < 256
    → b < 256
    → c < 256
    → d < 256
    → a' < 256
    → b' < 256
    → c' < 256
    → d' < 256
    → pack_base a b c d ≡ pack_base a' b' c' d'
    → (a ≡ a') × (b ≡ b') × (c ≡ c') × (d ≡ d')
unfolding pack_base
pack_base-injective a b c d a' b' c' d' ha hb hc hd ka kb kc kd e =
    let (p, q, r, s) =
      digits (reverse_bits a) (reverse_bits b) (reverse_bits c) (reverse_bits d) (reverse_bits a')
        (reverse_bits b') (reverse_bits c') (reverse_bits d') (reverse_facts b hb).1
        (reverse_facts c hc).1 (reverse_facts d hd).1 (reverse_facts b' kb).1
        (reverse_facts c' kc).1 (reverse_facts d' kd).1 e in
    (
      reverse_bits-injective a a' ha ka p,
      reverse_bits-injective b b' hb kb q,
      reverse_bits-injective c c' hc kc r,
      reverse_bits-injective d d' hd kd s,
    )
  where
    digits :
        (a b c d a' b' c' d' : ℕ)
        → b < 256
        → c < 256
        → d < 256
        → b' < 256
        → c' < 256
        → d' < 256
        → ((a * 256 + b) * 256 + c) * 256 + d ≡ ((a' * 256 + b') * 256 + c') * 256 + d'
        → (a ≡ a') × (b ≡ b') × (c ≡ c') × (d ≡ d')
    digits a b c d a' b' c' d' hb hc hd kb kc kd e = omega arith

same_address :
    (a b : Address) → a.a0 ≡ b.a0 → a.a1 ≡ b.a1 → a.a2 ≡ b.a2 → a.a3 ≡ b.a3 → a.a4 ≡ b.a4 → a ≡ b
same_address a b e0 e1 e2 e3 e4 = ground arith

-- In each encoding, two addresses of five bytes that give the same base and prefix are the same.
pub hw_address-injective :
    (a b : Address) (encoding : ℕ)
    → IsAddress a
    → IsAddress b
    → hw_address a encoding ≡ hw_address b encoding
    → a ≡ b
unfolding hw_address
hw_address-injective a b encoding h k e = elim (Bool-cases (encoding == 0)) [
  | inl c ↦
      let same : (pack_base a.a4 a.a3 a.a2 a.a1, reverse_bits a.a0)
          ≡ (pack_base b.a4 b.a3 b.a2 b.a1, reverse_bits b.a0) =
        rw c at e in
      let (p, q, r, s) =
        pack_base-injective a.a4 a.a3 a.a2 a.a1 b.a4 b.a3 b.a2 b.a1 h.b4 h.b3 h.b2 h.b1 k.b4 k.b3
          k.b2 k.b1 (ap (λ (x : ℕ × ℕ). x.0) same) in
      let t = reverse_bits-injective a.a0 b.a0 h.b0 k.b0 (ap (λ (x : ℕ × ℕ). x.1) same) in
      same_address a b t s r q p
  | inr c ↦ elim (Bool-cases (encoding == 1)) [
    | inl d ↦
        let same : (pack_base a.a3 a.a2 a.a1 a.a0, reverse_bits a.a4)
            ≡ (pack_base b.a3 b.a2 b.a1 b.a0, reverse_bits b.a4) =
          rw d at (rw c at e) in
        let (p, q, r, s) =
          pack_base-injective a.a3 a.a2 a.a1 a.a0 b.a3 b.a2 b.a1 b.a0 h.b3 h.b2 h.b1 h.b0 k.b3 k.b2
            k.b1 k.b0 (ap (λ (x : ℕ × ℕ). x.0) same) in
        let t = reverse_bits-injective a.a4 b.a4 h.b4 k.b4 (ap (λ (x : ℕ × ℕ). x.1) same) in
        same_address a b s r q p t
    | inr d ↦ elim (Bool-cases (encoding == 2)) [
      | inl f ↦
          let same : (pack_base a.a0 a.a1 a.a2 a.a3, reverse_bits a.a4)
              ≡ (pack_base b.a0 b.a1 b.a2 b.a3, reverse_bits b.a4) =
            rw f at (rw d at (rw c at e)) in
          let (p, q, r, s) =
            pack_base-injective a.a0 a.a1 a.a2 a.a3 b.a0 b.a1 b.a2 b.a3 h.b0 h.b1 h.b2 h.b3 k.b0
              k.b1 k.b2 k.b3 (ap (λ (x : ℕ × ℕ). x.0) same) in
          let t = reverse_bits-injective a.a4 b.a4 h.b4 k.b4 (ap (λ (x : ℕ × ℕ). x.1) same) in
          same_address a b p q r s t
      | inr f ↦
          let same : (pack_base a.a1 a.a2 a.a3 a.a4, reverse_bits a.a0)
              ≡ (pack_base b.a1 b.a2 b.a3 b.a4, reverse_bits b.a0) =
            rw f at (rw d at (rw c at e)) in
          let (p, q, r, s) =
            pack_base-injective a.a1 a.a2 a.a3 a.a4 b.a1 b.a2 b.a3 b.a4 h.b1 h.b2 h.b3 h.b4 k.b1
              k.b2 k.b3 k.b4 (ap (λ (x : ℕ × ℕ). x.0) same) in
          let t = reverse_bits-injective a.a0 b.a0 h.b0 k.b0 (ap (λ (x : ℕ × ℕ). x.1) same) in
          same_address a b t p q r s
    ]
  ]
]
