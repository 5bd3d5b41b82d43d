-- ===== src/UartLink/Tests.antt =====
-- The unit tests of app/src/uart_link.rs, and its theorems at concrete inputs.
use nrf52_unifying.Prelude.{
  ℕ, ◌+◌, ◌<◌, ◌≡◌, ◌⊎◌, inr, ◌↔◌, refl, true, false, Option, none, some, List, [], ◌∷◌, ◌++◌,
  arith, length, take, replicate, Run, panic, ret, Returns, if◌then◌else◌,
}
use nrf52_unifying.Prelude.Buffer.{IsFilled, slice_to}
use nrf52_unifying.Prelude.Text.{Bytes, codes, eq_bytes, strip_suffix, contains, tokens, IsWord}
use nrf52_unifying.UartLink.{
  CommandError, argument, command, Frame, Parser, new, damaged, session_changed, ends_open,
  hex_byte, validate_tokens, validate, parse_line, push, feed, encode_reply, without_cr,
  parse_number,
}
use nrf52_unifying.UartLink.Command.{feed_command}
use nrf52_unifying.UartLink.Grammar.{Accepted, validate_tokens_iff}
use nrf52_unifying.UartLink.Line.{line_message}
use nrf52_unifying.UartLink.Number.{reply_text, encode_reply_lem}
use nrf52_unifying.UartLink.Resync.{
  AtStart, is_line, messages, feed_line, feed-damaged, feed-session_changed,
}
use nrf52_unifying.UartLink.Stream.{cleared, receive_all, Refines, AllShow, feed-Refines}
use nrf52_unifying.UartLink.Words.{join}

-- The frames as number, command and error.
abbrev shown : List Frame → List (ℕ × Bytes × Option CommandError)
shown [] = []
shown (f ∷ fs) = (f.number, take f.len f.command, f.error) ∷ shown fs

abbrev frames : Run (Parser × List Frame) → List (ℕ × Bytes × Option CommandError)
frames panic = []
frames (ret (p, fs)) = shown fs

split_and_coalesced :
    frames (feed new (codes "@00000001 UKEYDOWN 02 04\r\n@00000002 UKEYDOWN 00\n"))
    ≡ (1, codes "UKEYDOWN 02 04", none) ∷ (2, codes "UKEYDOWN 00", none) ∷ []
unfolding feed push parse_line strip_suffix without_cr tokens eq_bytes hex_byte validate contains
    slice_to parse_number
split_and_coalesced = refl

invalid_number_is_discarded :
    frames (feed new (codes "@0000000a VER\n@000000001 VER\n@FFFFFFFF VER\n"))
    ≡ (0xFFFFFFFF, codes "VER", none) ∷ []
unfolding feed push parse_line strip_suffix without_cr tokens eq_bytes hex_byte validate contains
    slice_to parse_number
invalid_number_is_discarded = refl

numbered_errors :
    frames (feed new (codes "@00000003 UDELETE 00\n@00000004 USWITCH 04\n@0000000A UPAIR 01 02\n"))
    ≡ (3, codes "UDELETE 00", some command)
      ∷ (4, codes "USWITCH 04", some argument)
      ∷ (10, codes "UPAIR 01 02", some argument)
      ∷ []
unfolding feed push parse_line strip_suffix without_cr tokens eq_bytes hex_byte validate contains
    slice_to parse_number
numbered_errors = refl

embedded_cr :
    frames (feed new (codes "@00000001 VER\r UPAIR\n@00000003 USTATUS\r\n"))
    ≡ (1, codes "VER\r UPAIR", some argument) ∷ (3, codes "USTATUS", none) ∷ []
unfolding feed push parse_line strip_suffix without_cr tokens eq_bytes hex_byte validate contains
    slice_to parse_number
embedded_cr = refl

new-AtStart : AtStart new
new-AtStart = record { buffer = refl; empty = refl; taking = refl }

new-Refines : Refines new cleared
new-Refines = record {
  holds = record { cap_is = refl; starts = refl; len_is = refl };
  within = omega arith;
  flag = refl;
}

feed-Refines_example : Returns (feed new (codes "@00000001 VER\n")) (λ r.
    Refines r.0 (receive_all cleared (codes "@00000001 VER\n")).0
    × AllShow r.1 (receive_all cleared (codes "@00000001 VER\n")).1)
feed-Refines_example = feed-Refines (codes "@00000001 VER\n") new cleared new-Refines

feed_line_example : Returns (feed new (codes "@00000001 VER" ++ b'\n' ∷ [])) (λ r.
    Refines r.0 cleared
    × AllShow r.1 (
        if is_line (codes "@00000001 VER")
        then messages (line_message (codes "@00000001 VER"))
        else []))
unfolding contains
feed_line_example = feed_line new (codes "@00000001 VER") new-AtStart refl

feed-damaged_example :
    feed (damaged new) (codes "@00000005 VER" ++ b'\n' ∷ codes "@00000006 VER\n")
    ≡ feed (record new { len = 0; discard = false }) (codes "@00000006 VER\n")
unfolding contains
feed-damaged_example = feed-damaged new (codes "@00000005 VER") (codes "@00000006 VER\n") refl

feed-session_changed_example :
    feed
      (session_changed new (codes "@00000002 UKEYDOWN"))
      (codes " 00 04" ++ b'\n' ∷ codes "@00000003 USTATUS\n")
    ≡ feed
        (record new { len = 0; discard = false })
        (if ends_open (codes "@00000002 UKEYDOWN")
          then codes "@00000003 USTATUS\n"
          else codes " 00 04" ++ b'\n' ∷ codes "@00000003 USTATUS\n")
unfolding contains
feed-session_changed_example =
    feed-session_changed new (codes "@00000002 UKEYDOWN") (codes " 00 04")
      (codes "@00000003 USTATUS\n") (inr (λ e. cc e)) refl

word : (w : Bytes) → contains b' ' w ≡ false → (w ≡ [] → ⊥) → IsWord w
word w h ne = record { no_space = h; ne_nil = ne }

feed_command_example :
    Returns
      (feed new
        ((reply_text 7 (join (codes "USWITCH" ∷ codes "01" ∷ [])) ++ b'\r' ∷ []) ++ b'\n' ∷ []))
      (λ r.
        Refines r.0 cleared
        × AllShow r.1 (
            record {
              number = 7;
              text = join (codes "USWITCH" ∷ codes "01" ∷ []);
              error = validate (join (codes "USWITCH" ∷ codes "01" ∷ []));
            }
            ∷ []))
unfolding contains
feed_command_example =
    feed_command new 7 (codes "USWITCH" ∷ codes "01" ∷ []) true new-AtStart (omega arith)
      (word _ refl (λ e. cc e), (word _ refl (λ e. cc e), tt)) (omega arith) (omega arith)

validate_tokens_iff_example :
    (validate_tokens (codes "USWITCH" ∷ codes "01" ∷ []) ≡ none)
    ↔ Accepted (codes "USWITCH" ∷ codes "01" ∷ [])
validate_tokens_iff_example = validate_tokens_iff (codes "USWITCH" ∷ codes "01" ∷ [])

abbrev wire_buffer : Bytes
wire_buffer = replicate 32 0

encode_reply_lem_example :
    ((length wire_buffer < length (codes "ERR ARG\r\n") + 10)
      × (encode_reply 4 (codes "ERR ARG\r\n") wire_buffer ≡ ret none))
    ⊎ ((wire : Bytes) × (encode_reply 4 (codes "ERR ARG\r\n") wire_buffer
          ≡ ret (some (wire, length (codes "ERR ARG\r\n") + 10)))
        × IsFilled
            (length wire_buffer)
            wire
            (length (codes "ERR ARG\r\n") + 10)
            (reply_text 4 (codes "ERR ARG\r\n")))
encode_reply_lem_example = encode_reply_lem 4 (codes "ERR ARG\r\n") wire_buffer
