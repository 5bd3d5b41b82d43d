-- ===== src/Unifying/Answers.antt =====
-- The answers of `UPAIR` and `UCONNECT` of app/src/main.rs.
use nrf52_unifying.Device.{Device, IsDevice}
use nrf52_unifying.Flash.{Nor}
use nrf52_unifying.Prelude.{
  ℕ, ◌<◌, ◌≡◌, refl, ap, sym, subst, Bool, true, false, not, Option, none, some, length,
  length-take, length-replicate, replicate, leb, ltb, if◌then◌else◌, Run, ret, Returns, arith,
  Bool-cases, Option-cases, inl, inr,
}
use nrf52_unifying.Prelude.Buffer.{slice_to}
use nrf52_unifying.Prelude.Text.{Bytes}
use nrf52_unifying.Reply.{Cursor, format_paired, format_connected}
use nrf52_unifying.Reply.Sequence.{Formats, join}
use nrf52_unifying.Reply.Formats.{
  paired_parts, connected_parts, format_paired_lem, format_connected_lem,
}
use nrf52_unifying.Storage.{max_profiles, Profile}
use nrf52_unifying.Unifying.{UnifyingState, attempts, current_profile, apply_profile, parse_u8_hex}
use nrf52_unifying.Unifying.Commands.{
  Clock, formatted, parse_slot, Outcome, says_formatted, pair_into, pair_done, pair_failed,
  previous, reconnected, pairing_params, uconnect,
}

-- A format whose text fits gives that text to the sink.
pub formatted_lem :
    (size : ℕ) (format : Bytes → Run Cursor) (text : Bytes)
    → Formats size format text
    → formatted size format ≡ ret text
unfolding formatted slice_to
formatted_lem size format text h =
    let (buf, e, t) = h (replicate size 0) (length-replicate size 0) in
    let fits : leb (length text) (length buf) ≡ true =
      ground (arith, length-take (length text) buf, ap length t) in
    rw e (rw fits (rw t refl))

-- A slot argument is one of the profiles'.
pub parse_slot-lt : (text : Bytes) (slot : ℕ) → parse_slot text ≡ some slot → slot < max_profiles
unfolding parse_slot
parse_slot-lt text slot h = elim (Option-cases (parse_u8_hex text)) [
  | inl e ↦ absurd (none-some slot (rw (e, parse_slot) at h))
  | inr (s, e) ↦ go s (rw (e, parse_slot) at h)
]
  where
    none-some : (n : ℕ) → none ≡ some n → ⊥
    none-some n e = cc

    go : (s : ℕ) → (if ltb s max_profiles then some s else none) ≡ some slot → slot < max_profiles
    go s e = ground (arith, e)

module _ {D F : Type 0} (device : Device D) (nor : Nor F) (laws : IsDevice device) where
  -- The active slot is one of the profiles', and there is a reply.
  abbrev pub Answered : Outcome device nor → Type 0
  Answered (state, (flash, replies)) = (state.active_slot < max_profiles) × (0 < length replies)

  says_formatted-Answered :
      (state : UnifyingState D) (flash : F) (size : ℕ) (format : Bytes → Run Cursor) (text : Bytes)
      → state.active_slot < max_profiles
      → Formats size format text
      → Returns (says_formatted device nor state flash size format) Answered
  says_formatted-Answered state flash size format text h f =
      rw (formatted_lem size format text f) (h, omega arith)

  pair_done-Answered :
      (state : UnifyingState D) (flash : F) (slot : ℕ)
      → slot < max_profiles
      → Returns (pair_done device nor state flash slot) Answered
  unfolding pair_done current_profile
  pair_done-Answered state flash slot hs =
      let p = device.profile state.device in
      let wf = laws.profile_typed state.device in
      rw
        (formatted_lem 64 (λ out. format_paired out p.address p.channel)
          (join (paired_parts p.address p.channel))
          (format_paired_lem p.address p.channel wf.address_len wf.channel_u8))
        (hs, omega arith)

  reconnected-slot :
      (state : UnifyingState D) (connected : Bool)
      → (reconnected device nor state connected).active_slot ≡ state.active_slot
  unfolding reconnected
  reconnected-slot state true = refl
  reconnected-slot state false = refl

  pair_failed-Answered :
      (before : Option (Profile × Bool)) (state : UnifyingState D) (flash : F)
      → state.active_slot < max_profiles
      → Returns (pair_failed device nor before state flash) Answered
  unfolding pair_failed apply_profile
  pair_failed-Answered none state flash h = (h, omega arith)
  pair_failed-Answered (some (p, c)) state flash h = (
    subst (λ n. n < max_profiles) (sym (reconnected-slot (apply_profile device state p) c)) h,
    omega arith,
  )

  pub pair_into-Answered :
      (clock : Clock) (state : UnifyingState D) (flash : F) (slot : ℕ)
      → state.active_slot < max_profiles
      → slot < max_profiles
      → Returns (pair_into device nor clock state flash slot) Answered
  unfolding pair_into
  pair_into-Answered clock state flash slot h hs =
      let configured = device.configure_radio state.device in
      let tried = attempts 8 (λ d. device.pair d (pairing_params device nor clock)) configured.0 in
      elim (Bool-cases configured.1) [
        | inr bad ↦ rw bad (h, omega arith)
        | inl good ↦ rw good (elim (Bool-cases tried.1) [
          | inl ok ↦ rw ok (pair_done-Answered (record state { device = tried.0 }) flash slot hs)
          | inr bad ↦ rw bad (
              pair_failed-Answered (previous device nor state) (record state { device = tried.0 })
                flash h)
        ])
      ]

  pub uconnect-Answered :
      (state : UnifyingState D) (flash : F)
      → state.active_slot < max_profiles
      → Returns (uconnect device nor state flash) Answered
  unfolding uconnect
  uconnect-Answered state flash h =
      let configured = device.configure_radio state.device in
      let tried = attempts 60 device.connect configured.0 in
      elim (Bool-cases (not state.paired)) [
        | inl unpaired ↦ rw unpaired (h, omega arith)
        | inr paired ↦ rw paired (elim (Bool-cases (not configured.1)) [
          | inl bad ↦ rw bad (h, omega arith)
          | inr good ↦ rw good (elim (Bool-cases tried.1) [
            | inr bad ↦ rw bad (h, omega arith)
            | inl ok ↦ rw ok (
                rw
                  (formatted_lem 32 (λ out. format_connected out (device.profile tried.0).channel)
                    (join (connected_parts (device.profile tried.0).channel))
                    (format_connected_lem (device.profile tried.0).channel
                      (laws.profile_typed tried.0).channel_u8))
                  (h, omega arith))
          ])
        ])
      ]
