-- ===== src/Unifying/Commands.antt =====
-- `handle_unifying_command` of app/src/main.rs, a definition for each command. The replies are the
-- texts passed to the sink, in their order; its result is not looked at.
use nrf52_unifying.Device.{Device, PairingParams}
use nrf52_unifying.Flash.{Nor}
use nrf52_unifying.Prelude.{
  ℕ, zero, suc, ◌+◌, ◌%◌, ◌^◌, Bool, true, false, not, Option, none, some, List, [], ◌∷◌, length,
  drop, replicate, set, leb, ltb, if◌then◌else◌, bit_or, Run, ret, ◌>>=◌,
}
use nrf52_unifying.Prelude.Buffer.{slice_to}
use nrf52_unifying.Prelude.Text.{Bytes, codes}
use nrf52_unifying.Reply.{Cursor, format_paired, format_connected, format_radiotest, format_status}
use nrf52_unifying.Storage.{Profile, max_profiles, save, save_active_slot}
use nrf52_unifying.Unifying.{
  UnifyingState, parse_u8_hex, attempts, current_profile, apply_profile, save_current,
}

-- `EsbRadio::ADDR_ENCODINGS`
abbrev pub addr_encodings : ℕ
addr_encodings = 4

-- The readings of the clock that a command takes.
pub record Clock : Type 0 where
  pub now : ℕ
  pub id_ticks : ℕ
  pub crypto_ticks : ℕ

-- `let n = format(&mut out, ..); sink.write(&out[..n])`, with `out` of this size.
unfoldable pub formatted : ℕ → (Bytes → Run Cursor) → Run Bytes
formatted size format = format (replicate size 0) >>= λ c. slice_to c.0 c.1

-- A slot argument: `Some(s) if s < MAX_PROFILES`.
unfoldable pub parse_slot : Bytes → Option ℕ
unfolding parse_u8_hex
parse_slot text = elim (parse_u8_hex text) [
  | none ↦ none
  | some s ↦ if ltb s max_profiles then some s else none
]

-- The loop over the key tokens; `none` when `bad` is set.
unfoldable pub parse_keys : ℕ → List Bytes → Bytes → ℕ → Option Bytes
unfolding parse_u8_hex
parse_keys keys_len [] keys count = some keys
parse_keys keys_len (tok ∷ toks) keys count =
    if leb keys_len count then none else elim (parse_u8_hex tok) [
      | none ↦ none
      | some k ↦ parse_keys keys_len toks (set keys count k) (count + 1)
    ]

-- The modifier and the keys of `UKEY` and `UKEYDOWN`, or `none` for `ERR ARG`.
unfoldable pub parse_report : ℕ → List Bytes → Option (ℕ × Bytes)
unfolding parse_u8_hex parse_keys
parse_report keys_len [] = none
parse_report keys_len (tok ∷ toks) = elim (parse_u8_hex tok) [
  | none ↦ none
  | some modifier ↦ elim (parse_keys keys_len toks (replicate keys_len 0) 0) [
    | none ↦ none
    | some keys ↦ some (modifier, keys)
  ]
]

module _ {D F : Type 0} (device : Device D) (nor : Nor F) where
  -- The state, the flash and the replies.
  abbrev pub Outcome : Type 0
  Outcome = UnifyingState D × (F × List Bytes)

  abbrev pub says : UnifyingState D → F → Bytes → Run Outcome
  says state flash text = ret (state, (flash, text ∷ []))

  abbrev pub says_formatted : UnifyingState D → F → ℕ → (Bytes → Run Cursor) → Run Outcome
  says_formatted state flash size format = formatted size format >>= λ text. says state flash text

  -- One sweep over the pairing channels, with the acknowledgements counted.
  unfoldable pub sweep : Bytes → D → ℕ → D × ℕ
  sweep [] d acks = (d, acks)
  sweep (ch ∷ chs) d acks =
      let (d', acked) =
        device.probe_once (device.set_channel d ch) (0x00 ∷ 0x4F ∷ 0x00 ∷ 0x00 ∷ 0xB1 ∷ []) in
      sweep chs d' (if acked then acks + 1 else acks)

  unfoldable pub sweeps : ℕ → D → ℕ → D × ℕ
  unfolding sweep
  sweeps zero d acks = (d, acks)
  sweeps (suc n) d acks =
      let (d', acks') = sweep device.pairing_channels d acks in sweeps n d' acks'

  -- The loop over the address encodings from `enc` on.
  unfoldable pub radiotest_loop : ℕ → D → ℕ → Run (D × List Bytes)
  unfolding sweeps formatted format_radiotest
  radiotest_loop zero d enc = ret (d, codes "RADIOTEST DONE\r\n" ∷ [])
  radiotest_loop (suc n) d enc =
      let (d', acks) =
        sweeps 3 (device.set_address (device.set_addr_encoding d enc) device.pairing_address) 0 in
      formatted 48 (λ out. format_radiotest out enc acks) >>= λ text.
      radiotest_loop n d' (enc + 1) >>= λ r. ret (r.0, text ∷ r.1)

  unfoldable pub radiotest : UnifyingState D → F → Run Outcome
  unfolding radiotest_loop
  radiotest state flash =
      let (d, configured) = device.configure_radio state.device in
      if configured
      then (radiotest_loop addr_encodings d 0 >>= λ r.
          ret (record state { device = r.0 }, (flash, r.1)))
      else says (record state { device = d }) flash (codes "ERR RADIO\r\n")

  abbrev pub pairing_params : Clock → PairingParams
  pairing_params clock = record {
    id = bit_or (clock.id_ticks % 256) 0x01;
    product_id = 0x1025;
    device_type = 0x0147;
    crypto = clock.crypto_ticks % 2 ^ 32;
    serial = 0xA58094B6;
    capabilities = 0x1E40;
    name = codes "RustKbd";
  }

  -- `UPAIR` behind its attempts that succeed.
  unfoldable pub pair_done : UnifyingState D → F → ℕ → Run Outcome
  unfolding current_profile format_paired formatted
  pair_done state flash slot =
      let state' : UnifyingState D = record state {
        paired = true;
        connected = true;
        link_up = true;
        active_slot = slot;
      } in
      let p = current_profile device state' in
      says_formatted state' (save_active_slot nor (save nor flash slot p) slot) 64
        (λ out. format_paired out p.address p.channel)

  -- The old link, which `pair` overwrites as it goes.
  unfoldable pub previous : UnifyingState D → Option (Profile × Bool)
  unfolding current_profile
  previous state =
      if state.paired then some (current_profile device state, state.connected) else none

  -- `state.connected = connected && state.device.configure_radio().is_ok()`
  unfoldable pub reconnected : UnifyingState D → Bool → UnifyingState D
  reconnected state false = record state { connected = false }
  reconnected state true =
      let (d, configured) = device.configure_radio state.device in
      record state { device = d; connected = configured }

  -- `UPAIR` behind its attempts that fail.
  unfoldable pub pair_failed : Option (Profile × Bool) → UnifyingState D → F → Run Outcome
  unfolding apply_profile reconnected
  pair_failed none state flash = says state flash (codes "ERR PAIR\r\n")
  pair_failed (some (profile, connected)) state flash =
      says (reconnected (apply_profile device state profile) connected) flash (codes "ERR PAIR\r\n")

  unfoldable pub pair_into : Clock → UnifyingState D → F → ℕ → Run Outcome
  unfolding attempts pair_done pair_failed previous
  pair_into clock state flash slot =
      let (d, configured) = device.configure_radio state.device in
      if configured
      then (let (d', paired) = attempts 8 (λ d. device.pair d (pairing_params clock)) d in
          if paired
          then pair_done (record state { device = d' }) flash slot
          else pair_failed (previous state) (record state { device = d' }) flash)
      else says (record state { device = d }) flash (codes "ERR RADIO\r\n")

  unfoldable pub upair : Clock → UnifyingState D → F → Bytes → Run Outcome
  unfolding pair_into parse_slot
  upair clock state flash line =
      if ltb 6 (length line)
      then elim (parse_slot (drop 6 line)) [
        | none ↦ says state flash (codes "ERR SLOT\r\n")
        | some slot ↦ pair_into clock state flash slot
      ]
      else pair_into clock state flash state.active_slot

  unfoldable pub uconnect : UnifyingState D → F → Run Outcome
  unfolding attempts formatted format_connected
  uconnect state flash =
      if not state.paired
      then says state flash (codes "ERR NOTPAIRED\r\n")
      else (let (d, configured) = device.configure_radio state.device in
          if not configured
          then says (record state { device = d }) flash (codes "ERR RADIO\r\n")
          else (let (d', done) = attempts 60 device.connect d in
              if done
              then says_formatted (record state { device = d'; connected = true; link_up = true })
                  flash 32 (λ out. format_connected out (device.profile d').channel)
              else says (record state { device = d' }) flash (codes "ERR CONNECT\r\n")))

  unfoldable pub ukeepalive : UnifyingState D → F → Run Outcome
  ukeepalive state flash =
      if not state.connected
      then says state flash (codes "ERR NOTCONN\r\n")
      else says (record state { device = device.tick state.device }) flash (codes "TICK\r\n")

  unfoldable pub usleep : UnifyingState D → F → Run Outcome
  unfolding save_current
  usleep state flash =
      if state.connected
      then (let state' : UnifyingState D = record state {
        connected = false;
        device = device.disable_radio state.device;
      } in
          says state' (save_current device nor state' flash) (codes "SLEEP\r\n"))
      else says state flash (codes "SLEEP\r\n")

  unfoldable pub ustatus : UnifyingState D → F → Run Outcome
  unfolding formatted format_status current_profile
  ustatus state flash =
      let p = current_profile device state in
      says_formatted state flash 96 (λ out.
        format_status out state.active_slot state.paired state.connected p.channel p.aes_counter)
