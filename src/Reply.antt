-- ===== src/Reply.antt =====
-- The texts that app/src/main.rs replies with, written into a fixed buffer: a cursor is the buffer
-- and the position behind what is written.
pub mod Decimal
pub mod Writing
pub mod Sequence
pub mod Formats
mod Tests
use nrf52_unifying.Prelude.{
  ℕ, zero, suc, ◌+◌, ◌-◌, ◌*◌, ◌/◌, ◌%◌, Bool, true, false, ◌&&◌, ◌||◌, Option, none, some, List,
  [], ◌∷◌, length, replicate, leb, ltb, ◌==◌, if◌then◌else◌, bit_and, bit_or, get_or, Run, panic,
  ret, ◌>>=◌,
}
use nrf52_unifying.Prelude.Buffer.{store}
use nrf52_unifying.Prelude.Text.{Bytes, codes}

abbrev pub Cursor : Type 0
Cursor = Bytes × ℕ

-- `out[pos] = b; pos += 1`
unfoldable pub put : ℕ → Cursor → Run Cursor
put b (out, pos) = store out pos b >>= λ o. ret (o, pos + 1)

-- `for &b in text { out[pos] = b; pos += 1; }`
unfoldable pub puts : Bytes → Cursor → Run Cursor
unfolding put
puts [] c = ret c
puts (b ∷ bs) c = put b c >>= λ c'. puts bs c'

-- `out[pos] = b'\r'; out[pos + 1] = b'\n'; pos + 2`
unfoldable pub finish : Cursor → Run Cursor
unfolding put
finish c = put b'\r' c >>= λ c'. put b'\n' c'

abbrev pub hex_digits : Bytes
hex_digits = codes "0123456789ABCDEF"

-- `hex_byte(out, pos, byte); pos += 2`
unfoldable pub hex_byte : ℕ → Cursor → Run Cursor
unfolding put
hex_byte b c =
    put (get_or hex_digits (b / 16) 0) c >>= λ c'. put (get_or hex_digits (bit_and b 0x0F) 0) c'

unfoldable pub hex_bytes : Bytes → Cursor → Run Cursor
unfolding hex_byte
hex_bytes [] c = ret c
hex_bytes (b ∷ bs) c = hex_byte b c >>= λ c'. hex_bytes bs c'

-- The first loop of `write_u32`: the digits, the lowest first. The store at index 10 panics, so
-- that eleven rounds are all there can be.
unfoldable pub digit_loop : ℕ → Bytes → ℕ → ℕ → Run (Bytes × ℕ)
digit_loop zero digits count value = panic
digit_loop (suc rounds) digits count value =
    if value == 0
    then ret (digits, count)
    else (store digits count (b'0' + value % 10) >>= λ d.
        digit_loop rounds d (count + 1) (value / 10))

-- The second loop: the digits from `count - 1` down.
unfoldable pub emit_loop : ℕ → Bytes → Cursor → Run Cursor
unfolding put
emit_loop zero digits c = ret c
emit_loop (suc count) digits c = put (get_or digits count 0) c >>= λ c'. emit_loop count digits c'

unfoldable pub write_digits : ℕ → ℕ → Cursor → Run Cursor
unfolding put digit_loop emit_loop
write_digits rounds value c =
    if value == 0
    then put b'0' c
    else (digit_loop rounds (replicate 10 0) 0 value >>= λ r. emit_loop r.1 r.0 c)

abbrev pub write_u32 : ℕ → Cursor → Run Cursor
write_u32 value c = write_digits 11 value c

-- Statements that write, one behind the other.
unfoldable pub sequence : List (Cursor → Run Cursor) → Cursor → Run Cursor
sequence [] c = ret c
sequence (m ∷ ms) c = m c >>= λ c'. sequence ms c'

unfoldable pub format_typed : Bytes → ℕ → ℕ → Run Cursor
unfolding sequence
format_typed out ok total =
    sequence (puts (codes "TYPED ") ∷ write_u32 ok ∷ put b'/' ∷ write_u32 total ∷ finish ∷ [])
      (out, 0)

unfoldable pub format_paired : Bytes → Bytes → ℕ → Run Cursor
unfolding sequence
format_paired out address channel =
    sequence
      (puts (codes "PAIRED ")
        ∷ hex_bytes address
        ∷ puts (codes " CH=")
        ∷ write_u32 channel
        ∷ finish
        ∷ [])
      (out, 0)

unfoldable pub format_connected : Bytes → ℕ → Run Cursor
unfolding sequence
format_connected out channel =
    sequence (puts (codes "CONNECTED CH=") ∷ write_u32 channel ∷ finish ∷ []) (out, 0)

unfoldable pub format_radiotest : Bytes → ℕ → ℕ → Run Cursor
unfolding sequence
format_radiotest out encoding acks =
    sequence
      (puts (codes "RADIOTEST ENC=")
        ∷ write_u32 encoding
        ∷ puts (codes " ACKS=")
        ∷ write_u32 acks
        ∷ finish
        ∷ [])
      (out, 0)

abbrev pub flag : Bool → ℕ
flag b = if b then b'1' else b'0'

-- The fields of the state that `format_status` reads, in the order of its output.
unfoldable pub format_status : Bytes → ℕ → Bool → Bool → ℕ → ℕ → Run Cursor
unfolding sequence
format_status out active_slot paired connected channel aes_counter =
    sequence
      (puts (codes "STATUS SLOT=")
        ∷ write_u32 active_slot
        ∷ puts (codes " PAIRED=")
        ∷ put (flag paired)
        ∷ puts (codes " CONN=")
        ∷ put (flag connected)
        ∷ puts (codes " CH=")
        ∷ write_u32 channel
        ∷ puts (codes " CNT=")
        ∷ write_u32 aes_counter
        ∷ finish
        ∷ [])
      (out, 0)

abbrev pub switch_word : Bool → Bytes
switch_word connected = if connected then codes " CONNECTED" else codes " NOCONN"

unfoldable pub format_switched : Bytes → ℕ → Bool → Run Cursor
unfolding sequence
format_switched out slot connected =
    sequence
      (puts (codes "SWITCHED ") ∷ write_u32 slot ∷ puts (switch_word connected) ∷ finish ∷ [])
      (out, 0)

unfoldable pub format_switched_empty : Bytes → ℕ → Run Cursor
unfolding sequence
format_switched_empty out slot =
    sequence (puts (codes "SWITCHED ") ∷ write_u32 slot ∷ puts (codes " EMPTY") ∷ finish ∷ [])
      (out, 0)
