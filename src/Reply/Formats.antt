-- ===== src/Reply/Formats.antt =====
-- The formats of app/src/main.rs in the buffers that their callers pass.
use nrf52_unifying.Prelude.{ℕ, ◌*◌, ◌^◌, ◌<◌, ◌≡◌, refl, Bool, true, List, [], ◌∷◌, arith, length}
use nrf52_unifying.Prelude.Text.{Bytes, codes}
use nrf52_unifying.Reply.{
  put, puts, finish, hex_bytes, write_u32, format_typed, format_paired, format_connected,
  format_radiotest, flag, format_status, format_switched, format_switched_empty,
}
use nrf52_unifying.Reply.Decimal.{decimal, length-decimal_of}
use nrf52_unifying.Reply.Writing.{
  put-Writes, puts-Writes, finish-Writes, hex_text, hex_byte_text, hex_bytes-Writes,
  write_u32-Writes,
}
use nrf52_unifying.Reply.Sequence.{Leaves, Formats, join, writes}

-- The status line, of the five fields that the state has.
abbrev pub status_parts : ℕ → Bool → Bool → ℕ → ℕ → List Bytes
status_parts slot paired connected channel counter =
    codes "STATUS SLOT="
    ∷ decimal slot
    ∷ codes " PAIRED="
    ∷ (flag paired ∷ [])
    ∷ codes " CONN="
    ∷ (flag connected ∷ [])
    ∷ codes " CH="
    ∷ decimal channel
    ∷ codes " CNT="
    ∷ decimal counter
    ∷ codes "\r\n"
    ∷ []

-- In a buffer of 96 bytes, the status line of a slot and a channel below 256, two flags and a
-- counter below 2 ^ 32 is written from the start without a panic, and its length is returned.
pub format_status_lem :
    (slot : ℕ) (paired connected : Bool) (channel counter : ℕ)
    → slot < 256
    → channel < 256
    → counter < 2 ^ 32
    → (out : Bytes) → length out ≡ 96
    → Leaves
        (format_status out slot paired connected channel counter)
        (join (status_parts slot paired connected channel counter))
unfolding format_status
format_status_lem slot paired connected channel counter hs hc hn =
    writes 96
      (puts (codes "STATUS SLOT=")
        ∷ write_u32 slot
        ∷ puts (codes " PAIRED=")
        ∷ put (flag paired)
        ∷ puts (codes " CONN=")
        ∷ put (flag connected)
        ∷ puts (codes " CH=")
        ∷ write_u32 channel
        ∷ puts (codes " CNT=")
        ∷ write_u32 counter
        ∷ finish
        ∷ [])
      (status_parts slot paired connected channel counter)
      (
        puts-Writes (codes "STATUS SLOT="),
        (
          write_u32-Writes slot (omega (arith, hs)),
          (
            puts-Writes (codes " PAIRED="),
            (
              put-Writes (flag paired),
              (
                puts-Writes (codes " CONN="),
                (
                  put-Writes (flag connected),
                  (
                    puts-Writes (codes " CH="),
                    (
                      write_u32-Writes channel (omega (arith, hc)),
                      (
                        puts-Writes (codes " CNT="),
                        (write_u32-Writes counter hn, (finish-Writes, tt)),
                      ),
                    ),
                  ),
                ),
              ),
            ),
          ),
        ),
      )
      (omega (
        arith,
        length-decimal_of 10 2 slot (omega (arith, hs)),
        length-decimal_of 10 2 channel (omega (arith, hc)),
        length-decimal_of 10 9 counter (omega (arith, hn)),
      ))

length-hex_text : (bs : Bytes) → length (hex_text bs) ≡ 2 * length bs
unfolding hex_byte_text
length-hex_text [] = refl
length-hex_text (b ∷ bs) = omega (arith, length-hex_text bs)

abbrev pub paired_parts : Bytes → ℕ → List Bytes
paired_parts address channel =
    codes "PAIRED " ∷ hex_text address ∷ codes " CH=" ∷ decimal channel ∷ codes "\r\n" ∷ []

-- In a buffer of 64 bytes, the line of an address of five bytes in hexadecimal and of a channel
-- below 256 is written from the start without a panic, and its length is returned.
pub format_paired_lem :
    (address : Bytes) (channel : ℕ)
    → length address ≡ 5
    → channel < 256
    → (out : Bytes) → length out ≡ 64
    → Leaves (format_paired out address channel) (join (paired_parts address channel))
unfolding format_paired
format_paired_lem address channel ha hc =
    writes 64
      (puts (codes "PAIRED ")
        ∷ hex_bytes address
        ∷ puts (codes " CH=")
        ∷ write_u32 channel
        ∷ finish
        ∷ [])
      (paired_parts address channel)
      (
        puts-Writes (codes "PAIRED "),
        (
          hex_bytes-Writes address,
          (
            puts-Writes (codes " CH="),
            (write_u32-Writes channel (omega (arith, hc)), (finish-Writes, tt)),
          ),
        ),
      )
      (omega
        (arith, length-hex_text address, ha, length-decimal_of 10 2 channel (omega (arith, hc))))

abbrev pub typed_parts : ℕ → ℕ → List Bytes
typed_parts ok all = codes "TYPED " ∷ decimal ok ∷ (b'/' ∷ []) ∷ decimal all ∷ codes "\r\n" ∷ []

-- In a buffer of 48 bytes, the line of any two counts below 2 ^ 32 is written from the start
-- without a panic, and its length is returned.
pub format_typed_lem :
    (ok all : ℕ)
    → ok < 2 ^ 32
    → all < 2 ^ 32
    → (out : Bytes) → length out ≡ 48
    → Leaves (format_typed out ok all) (join (typed_parts ok all))
unfolding format_typed
format_typed_lem ok all ho ht =
    writes 48 (puts (codes "TYPED ") ∷ write_u32 ok ∷ put b'/' ∷ write_u32 all ∷ finish ∷ [])
      (typed_parts ok all)
      (
        puts-Writes (codes "TYPED "),
        (write_u32-Writes ok ho, (put-Writes b'/', (write_u32-Writes all ht, (finish-Writes, tt)))),
      )
      (omega (
        arith,
        length-decimal_of 10 9 ok (omega (arith, ho)),
        length-decimal_of 10 9 all (omega (arith, ht)),
      ))

abbrev pub connected_parts : ℕ → List Bytes
connected_parts channel = codes "CONNECTED CH=" ∷ decimal channel ∷ codes "\r\n" ∷ []

pub format_connected_lem :
    (channel : ℕ)
    → channel < 256
    → Formats 32 (λ out. format_connected out channel) (join (connected_parts channel))
unfolding format_connected
format_connected_lem channel hc =
    writes 32 (puts (codes "CONNECTED CH=") ∷ write_u32 channel ∷ finish ∷ [])
      (connected_parts channel)
      (
        puts-Writes (codes "CONNECTED CH="),
        (write_u32-Writes channel (omega (arith, hc)), (finish-Writes, tt)),
      )
      (omega (arith, length-decimal_of 10 2 channel (omega (arith, hc))))

abbrev pub radiotest_parts : ℕ → ℕ → List Bytes
radiotest_parts encoding acks =
    codes "RADIOTEST ENC=" ∷ decimal encoding ∷ codes " ACKS=" ∷ decimal acks ∷ codes "\r\n" ∷ []

pub format_radiotest_lem :
    (encoding acks : ℕ)
    → encoding < 256
    → acks < 2 ^ 32
    → Formats 48 (λ out. format_radiotest out encoding acks) (join (radiotest_parts encoding acks))
unfolding format_radiotest
format_radiotest_lem encoding acks he ha =
    writes 48
      (puts (codes "RADIOTEST ENC=")
        ∷ write_u32 encoding
        ∷ puts (codes " ACKS=")
        ∷ write_u32 acks
        ∷ finish
        ∷ [])
      (radiotest_parts encoding acks)
      (
        puts-Writes (codes "RADIOTEST ENC="),
        (
          write_u32-Writes encoding (omega (arith, he)),
          (puts-Writes (codes " ACKS="), (write_u32-Writes acks ha, (finish-Writes, tt))),
        ),
      )
      (omega (
        arith,
        length-decimal_of 10 2 encoding (omega (arith, he)),
        length-decimal_of 10 9 acks (omega (arith, ha)),
      ))

abbrev pub switched_parts : ℕ → Bytes → List Bytes
switched_parts slot word = codes "SWITCHED " ∷ decimal slot ∷ word ∷ codes "\r\n" ∷ []

pub format_switched_lem :
    (slot : ℕ)
    → slot < 256
    → Formats 48
        (λ out. format_switched out slot true)
        (join (switched_parts slot (codes " CONNECTED")))
unfolding format_switched
format_switched_lem slot h =
    writes 48 (puts (codes "SWITCHED ") ∷ write_u32 slot ∷ puts (codes " CONNECTED") ∷ finish ∷ [])
      (switched_parts slot (codes " CONNECTED"))
      (
        puts-Writes (codes "SWITCHED "),
        (
          write_u32-Writes slot (omega (arith, h)),
          (puts-Writes (codes " CONNECTED"), (finish-Writes, tt)),
        ),
      )
      (omega (arith, length-decimal_of 10 2 slot (omega (arith, h))))

pub format_switched_empty_lem :
    (slot : ℕ)
    → slot < 256
    → Formats 48
        (λ out. format_switched_empty out slot)
        (join (switched_parts slot (codes " EMPTY")))
unfolding format_switched_empty
format_switched_empty_lem slot h =
    writes 48 (puts (codes "SWITCHED ") ∷ write_u32 slot ∷ puts (codes " EMPTY") ∷ finish ∷ [])
      (switched_parts slot (codes " EMPTY"))
      (
        puts-Writes (codes "SWITCHED "),
        (
          write_u32-Writes slot (omega (arith, h)),
          (puts-Writes (codes " EMPTY"), (finish-Writes, tt)),
        ),
      )
      (omega (arith, length-decimal_of 10 2 slot (omega (arith, h))))
