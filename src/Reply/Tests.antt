-- ===== src/Reply/Tests.antt =====
-- Replies of app/src/main.rs.
use nrf52_unifying.Prelude.{refl, arith, true, false, [], ◌∷◌, replicate}
use nrf52_unifying.Prelude.Text.{Bytes}
use nrf52_unifying.Reply.{format_status, format_paired}
use nrf52_unifying.Reply.Sequence.{Leaves, join}
use nrf52_unifying.Reply.Formats.{status_parts, paired_parts, format_status_lem, format_paired_lem}

format_status_lem_example :
    Leaves
      (format_status (replicate 96 7) 2 true false 74 4294967295)
      (join (status_parts 2 true false 74 4294967295))
format_status_lem_example =
    format_status_lem 2 true false 74 4294967295 (omega arith) (omega arith) (omega arith)
      (replicate 96 7) refl

abbrev address : Bytes
address = 0x4A ∷ 0x00 ∷ 0xFF ∷ 0x10 ∷ 0x07 ∷ []

format_paired_lem_example :
    Leaves (format_paired (replicate 64 0) address 5) (join (paired_parts address 5))
format_paired_lem_example = format_paired_lem address 5 refl (omega arith) (replicate 64 0) refl
