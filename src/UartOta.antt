-- ===== src/UartOta.antt =====
-- app/src/uart_ota.rs: firmware upload over the UART, stop and wait.
pub mod Image
pub mod Upload
pub mod Chunk
pub mod Handle
pub mod Session
pub mod Memory
mod Tests
use nrf52_unifying.Prelude.{
  ℕ, zero, suc, ◌+◌, ◌-◌, ◌*◌, ◌/◌, ◌%◌, ◌^◌, Bool, true, false, not, ◌&&◌, ◌||◌, Option, none,
  some, List, [], ◌∷◌, ◌++◌, length, take, drop, min, leb, ltb, ◌==◌, if◌then◌else◌, bit_and,
  bit_or, bit_xor,
}
use nrf52_unifying.Prelude.Text.{Bytes, codes, eq_bytes, split}

abbrev pub limit : ℕ
limit = 480 * 1024

-- The trait `Storage`: `write` and `commit` with their Boolean result, `read` of some bytes with
-- the contents of the buffer, or `none` for `false`. Each may change the storage.
pub record Storage (S : Type 0) : Type 0 where
  pub write : S → ℕ → Bytes → S × Bool
  pub read : S → ℕ → ℕ → S × Option Bytes
  pub commit : S → S × Bool

-- One bit of `crc_update`: `(crc >> 1) ^ (0xedb88320 & 0u32.wrapping_sub(crc & 1))`.
unfoldable pub crc_bit : ℕ → ℕ
crc_bit crc = bit_xor (crc / 2) (bit_and 0xedb88320 ((2 ^ 32 - bit_and crc 1) % 2 ^ 32))

unfoldable pub crc_bits : ℕ → ℕ → ℕ
unfolding crc_bit
crc_bits zero crc = crc
crc_bits (suc rounds) crc = crc_bits rounds (crc_bit crc)

unfoldable pub crc_update : ℕ → Bytes → ℕ
unfolding crc_bits
crc_update crc [] = crc
crc_update crc (b ∷ bs) = crc_update (crc_bits 8 (bit_xor crc b)) bs

-- `!crc` on a `u32`.
abbrev pub complement : ℕ → ℕ
complement crc = 2 ^ 32 - 1 - crc

unfoldable pub nibble : ℕ → Option ℕ
nibble b =
    if leb b'0' b && leb b b'9'
    then some (b - b'0')
    else if leb b'A' b && leb b b'F'
    then some (b - b'A' + 10)
    else if leb b'a' b && leb b b'f'
    then some (b - b'a' + 10)
    else none

-- The `try_fold` of `hex`, on a `u32`.
unfoldable pub hex_fold : ℕ → Bytes → Option ℕ
unfolding nibble
hex_fold v [] = some v
hex_fold v (b ∷ bs) = elim (nibble b) [
  | none ↦ none
  | some d ↦ hex_fold (bit_or (v * 16 % 2 ^ 32) d) bs
]

abbrev is_empty : Bytes → Bool
is_empty [] = true
is_empty (_ ∷ _) = false

unfoldable pub hex : Bytes → Option ℕ
unfolding hex_fold
hex s = if is_empty s || ltb 8 (length s) then none else hex_fold 0 s

pub record Ota : Type 0 where
  pub active : Bool
  pub size : ℕ
  pub received : ℕ
  pub expected_crc : ℕ

-- `Ota::default()`
abbrev pub fresh : Ota
fresh = record { active = false; size = 0; received = 0; expected_crc = 0 }

unfoldable pub abort : Ota → Ota
abort o = record o { active = false; received = 0 }

-- The replies, and whether to reboot.
pub data Reply : Type 0 where
  err_cmd cap ready err_arg err_size err_no_image err_offset ok err_vector err_write : Reply
  err_incomplete err_read err_crc err_mark reboot aborted : Reply

-- The bytes of a reply.
unfoldable pub reply_bytes : Reply → Bytes
reply_bytes err_cmd = codes "ERR CMD\r\n"
reply_bytes cap = codes "OTA UART1 BLOCK64 CRC32\r\n"
reply_bytes ready = codes "READY\r\n"
reply_bytes err_arg = codes "ERR ARG\r\n"
reply_bytes err_size = codes "ERR SIZE\r\n"
reply_bytes err_no_image = codes "ERR NOIMAGE\r\n"
reply_bytes err_offset = codes "ERR OFFSET\r\n"
reply_bytes ok = codes "OK\r\n"
reply_bytes err_vector = codes "ERR VECTOR\r\n"
reply_bytes err_write = codes "ERR WRITE\r\n"
reply_bytes err_incomplete = codes "ERR INCOMPLETE\r\n"
reply_bytes err_read = codes "ERR READ\r\n"
reply_bytes err_crc = codes "ERR CRC\r\n"
reply_bytes err_mark = codes "ERR MARK\r\n"
reply_bytes reboot = codes "REBOOT\r\n"
reply_bytes aborted = codes "ABORTED\r\n"

-- The second part of the result: only a commit asks for a reboot.
unfoldable pub asks_reboot : Reply → Bool
asks_reboot reboot = true
asks_reboot _ = false

-- `t.next().and_then(hex)`
abbrev pub next_hex : List Bytes → Option ℕ
next_hex [] = none
next_hex (t ∷ ts) = hex t

abbrev pub rest_of : List Bytes → List Bytes
rest_of [] = []
rest_of (t ∷ ts) = ts

abbrev pub no_more : List Bytes → Bool
no_more [] = true
no_more (_ ∷ _) = false

-- `OTA BEGIN` behind its two numbers.
unfoldable pub begin_with : Ota → ℕ → ℕ → List Bytes → Ota × Reply
begin_with o size crc more =
    if not (no_more more) || ltb size 256 || ltb limit size || not (size % 4 == 0)
    then (o, err_size)
    else (record { active = true; size = size; received = 0; expected_crc = crc }, ready)

unfoldable pub begin : Ota → List Bytes → Ota × Reply
unfolding begin_with
begin o ts = elim (next_hex ts) [
  | none ↦ (o, err_arg)
  | some size ↦ elim (next_hex (rest_of ts)) [
    | none ↦ (o, err_arg)
    | some crc ↦ begin_with o size crc (rest_of (rest_of ts))
  ]
]

-- The loop over `payload.chunks(2)`: `bytes[..n]`, or `none` at a pair that is not hexadecimal.
unfoldable pub decode_pairs : Bytes → Option Bytes
decode_pairs [] = some []
decode_pairs (a ∷ []) = elim (hex (a ∷ [])) [ none ↦ none | some v ↦ some ((v % 256) ∷ []) ]
decode_pairs (a ∷ b ∷ rest) = elim (hex (a ∷ b ∷ [])) [
  | none ↦ none
  | some v ↦ elim (decode_pairs rest) [ none ↦ none | some bs ↦ some ((v % 256) ∷ bs) ]
]

-- `u32::from_le_bytes`
unfoldable pub from_le_bytes : Bytes → ℕ
from_le_bytes [] = 0
from_le_bytes (b ∷ bs) = b + 256 * from_le_bytes bs

-- `reset & !1`
abbrev pub even_part : ℕ → ℕ
even_part reset = bit_and reset (2 ^ 32 - 2)

-- The test of the first chunk's initial stack pointer and reset vector.
unfoldable pub vector_ok : ℕ → Bytes → Bool
unfolding from_le_bytes
vector_ok size bytes =
    let sp = from_le_bytes (take 4 bytes) in
    let reset = from_le_bytes (take 4 (drop 4 bytes)) in
    leb 0x20000000 sp
    && leb sp 0x20040000
    && (sp % 8 == 0)
    && not (bit_and reset 1 == 0)
    && leb 0x7100 (even_part reset)
    && ltb (even_part reset) (0x7000 + size)

-- The first chunk holds the vector table.
unfoldable pub vector_refused : ℕ → ℕ → Bytes → Bool
unfolding vector_ok
vector_refused size offset bytes =
    offset == 0 && (ltb (length bytes) 8 || not (vector_ok size bytes))

module _ {S : Type 0} (storage : Storage S) where
  -- A chunk below `received`: only an identical one is accepted.
  unfoldable pub retry_chunk : Ota → S → ℕ → Bytes → S × (Ota × Reply)
  retry_chunk o s offset bytes =
      if leb (offset + length bytes) o.received
      then (let (s', old) = storage.read s offset (length bytes) in
          (
            s',
            (
              o,
              elim old [ none ↦ err_offset | some b ↦ if eq_bytes b bytes then ok else err_offset ],
            ),
          ))
      else (s, (o, err_offset))

  -- The next chunk, which is written.
  unfoldable pub write_chunk : Ota → S → ℕ → Bytes → S × (Ota × Reply)
  unfolding abort
  write_chunk o s offset bytes =
      let (s', written) = storage.write s offset bytes in
      if written
      then (s', (record o { received = o.received + length bytes }, ok))
      else (s', (abort o, err_write))

  -- `OTA DATA` behind its decoded payload, `bytes[..n]`. `checked_add` is on 32 bits.
  unfoldable pub accept_chunk : Ota → S → ℕ → Bytes → S × (Ota × Reply)
  unfolding retry_chunk write_chunk vector_refused
  accept_chunk o s offset bytes =
      let end = offset + length bytes in
      if leb (2 ^ 32) end || ltb o.size end
      then (s, (o, err_offset))
      else if ltb offset o.received
      then retry_chunk o s offset bytes
      else if not (offset == o.received)
      then (s, (o, err_offset))
      else if vector_refused o.size offset bytes
      then (s, (o, err_vector))
      else write_chunk o s offset bytes

  -- The length of `payload` is even behind the guard, so that `n` is the number of its pairs.
  unfoldable pub chunk_with : Ota → S → ℕ → Bytes → List Bytes → S × (Ota × Reply)
  unfolding accept_chunk decode_pairs
  chunk_with o s offset payload more =
      if not (no_more more)
        || is_empty payload
        || ltb 128 (length payload)
        || not (length payload % 8 == 0)
      then (s, (o, err_arg))
      else elim (decode_pairs payload) [
        | none ↦ (s, (o, err_arg))
        | some bytes ↦ accept_chunk o s offset bytes
      ]

  -- `OTA DATA`, with the words behind it.
  unfoldable pub handle_data : Ota → S → List Bytes → S × (Ota × Reply)
  unfolding chunk_with
  handle_data o s ts = if not o.active then (s, (o, err_no_image)) else elim (next_hex ts) [
    | none ↦ (s, (o, err_arg))
    | some offset ↦ elim (rest_of ts) [
      | [] ↦ (s, (o, err_arg))
      | payload ∷ more ↦ chunk_with o s offset payload more
    ]
  ]

  -- The loop of `COMMIT` over the blocks from `offset`; `none` at a read that fails. The first
  -- argument is the number of blocks that `step_by` still has.
  unfoldable pub image_crc : ℕ → S → ℕ → ℕ → ℕ → S × Option ℕ
  unfolding crc_update
  image_crc zero s size offset crc = (s, some crc)
  image_crc (suc blocks) s size offset crc =
      let (s', block) = storage.read s offset (min (size - offset) 64) in
      elim block [
        | none ↦ (s', none)
        | some bytes ↦ image_crc blocks s' size (offset + 64) (crc_update crc bytes)
      ]

  unfoldable pub commit_mark : Ota → S → S × (Ota × Reply)
  unfolding abort
  commit_mark o s =
      let (s', marked) = storage.commit s in
      if marked then (s', (record o { active = false }, reboot)) else (s', (abort o, err_mark))

  unfoldable pub commit_checked : Ota → S → Option ℕ → S × (Ota × Reply)
  unfolding abort commit_mark
  commit_checked o s crc = elim crc [
    | none ↦ (s, (abort o, err_read))
    | some crc ↦
        if complement crc == o.expected_crc then commit_mark o s else (s, (abort o, err_crc))
  ]

  -- `OTA COMMIT`: `(0..size).step_by(64)` has `⌈size / 64⌉` elements.
  unfoldable pub handle_commit : Ota → S → S × (Ota × Reply)
  unfolding image_crc commit_checked
  handle_commit o s =
      if not o.active || not (o.received == o.size)
      then (s, (o, err_incomplete))
      else (let (s', crc) = image_crc ((o.size + 63) / 64) s o.size 0 (complement 0) in
          commit_checked o s' crc)

  -- The second word and those behind it.
  unfoldable pub command : Ota → S → List Bytes → S × (Ota × Reply)
  unfolding begin handle_data handle_commit abort
  command o s [] = (s, (o, err_arg))
  command o s (word ∷ ts) =
      if eq_bytes word (codes "CAP") && no_more ts
      then (s, (o, cap))
      else if eq_bytes word (codes "BEGIN")
      then (s, begin o ts)
      else if eq_bytes word (codes "DATA")
      then handle_data o s ts
      else if eq_bytes word (codes "COMMIT") && no_more ts
      then handle_commit o s
      else if eq_bytes word (codes "ABORT") && no_more ts
      then (s, (abort o, aborted))
      else (s, (o, err_arg))

  unfoldable pub handle : Ota → S → Bytes → S × (Ota × Reply)
  unfolding command
  handle o s line = elim (split b' ' line) [
    | [] ↦ (s, (o, err_cmd))
    | word ∷ ts ↦ if eq_bytes word (codes "OTA") then command o s ts else (s, (o, err_cmd))
  ]
