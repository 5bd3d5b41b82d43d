-- ===== src/UartOta/Tests.antt =====
-- Runs of app/src/uart_ota.rs over a storage in memory.
use nrf52_unifying.Prelude.{
  ◌≡◌, refl, true, Option, some, List, [], ◌∷◌, ◌++◌, arith, replicate, get_or,
}
use nrf52_unifying.Prelude.Text.{Bytes, codes, split}
use nrf52_unifying.UartOta.{
  Ota, fresh, crc_bit, crc_bits, crc_update, complement, nibble, hex_fold, hex, decode_pairs,
  from_le_bytes, vector_ok, vector_refused, handle, reboot,
}
use nrf52_unifying.UartOta.Memory.{Cells, memory, memory-IsStorage}
use nrf52_unifying.UartOta.Image.{slice}
use nrf52_unifying.UartOta.Upload.{Image, IsBegin, Step, Shows}
use nrf52_unifying.UartOta.Handle.{handle-Step}
use nrf52_unifying.UartOta.Session.{Works, Carries, handle_all, upload_lem}

memory-Works : Works memory
unfolding memory
memory-Works = record {
  reads = λ f a n. (slice f a n, refl);
  writes = λ f a bs. refl;
  commits = λ f. refl;
}

-- An image of 320 bytes: a vector table, and zeros.
abbrev vector_chunk : Bytes
vector_chunk = 0 ∷ 0 ∷ 4 ∷ 32 ∷ 1 ∷ 0x71 ∷ replicate 58 0

abbrev image : Bytes
image = vector_chunk ++ replicate 256 0

abbrev begin_text : Bytes
begin_text = codes "OTA BEGIN 140 bc6ce36c"

abbrev zeros_text : Bytes
zeros_text = replicate 128 b'0'

abbrev vector_text : Bytes
vector_text = codes "000004200171" ++ replicate 116 b'0'

abbrev upload_lines : List Bytes
upload_lines =
    (codes "OTA DATA 0 " ++ vector_text)
    ∷ (codes "OTA DATA 40 " ++ zeros_text)
    ∷ (codes "OTA DATA 80 " ++ zeros_text)
    ∷ (codes "OTA DATA C0 " ++ zeros_text)
    ∷ (codes "OTA DATA 100 " ++ zeros_text)
    ∷ []

begin_text-IsBegin : IsBegin begin_text 320 0xbc6ce36c
unfolding split hex hex_fold nibble
begin_text-IsBegin = record {
  size_text = codes "140";
  crc_text = codes "bc6ce36c";
  words = refl;
  size_is = refl;
  crc_is = refl;
  large = omega arith;
  small = omega arith;
  aligned = refl;
}

crc_known : complement (crc_update (complement 0) (codes "123456789")) ≡ 0xcbf43926
unfolding crc_update crc_bits crc_bit
crc_known = refl

image_crc_is : complement (crc_update (complement 0) image) ≡ 0xbc6ce36c
unfolding crc_update crc_bits crc_bit
image_crc_is = refl

lines-Carries : Carries 320 [] upload_lines image
unfolding split hex hex_fold nibble decode_pairs vector_refused vector_ok from_le_bytes
lines-Carries = (
  vector_chunk,
  record { text = codes "0"; payload = vector_text; words = refl; number = refl; pairs = refl },
  refl,
  refl,
  omega arith,
  (
    replicate 64 0,
    record { text = codes "40"; payload = zeros_text; words = refl; number = refl; pairs = refl },
    refl,
    refl,
    omega arith,
    (
      replicate 64 0,
      record { text = codes "80"; payload = zeros_text; words = refl; number = refl; pairs = refl },
      refl,
      refl,
      omega arith,
      (
        replicate 64 0,
        record {
          text = codes "C0";
          payload = zeros_text;
          words = refl;
          number = refl;
          pairs = refl;
        },
        refl,
        refl,
        omega arith,
        (
          replicate 64 0,
          record {
            text = codes "100";
            payload = zeros_text;
            words = refl;
            number = refl;
            pairs = refl;
          },
          refl,
          refl,
          omega arith,
          refl,
        ),
      ),
    ),
  ),
)

erased : Cells
erased x = 0xff

upload_lem_example :
    let (s', o') = handle_all memory fresh erased (begin_text ∷ upload_lines) in
    (slice s' 0 320 ≡ image) × ((handle memory o' s' (codes "OTA COMMIT")).1.1 ≡ reboot)
upload_lem_example =
    upload_lem memory (λ f. f) memory-IsStorage memory-Works fresh erased begin_text upload_lines
      image 0xbc6ce36c begin_text-IsBegin lines-Carries image_crc_is

complete : Ota
complete = record { active = true; size = 320; received = 320; expected_crc = 0xbc6ce36c }

complete_cells : Cells
complete_cells x = get_or image x 0

complete-Shows :
    Shows complete complete_cells (some (record { size = 320; crc = 0xbc6ce36c; accepted = image }))
unfolding complete complete_cells
complete-Shows = record {
  runs = refl;
  size_is = refl;
  crc_is = refl;
  received_is = refl;
  stored = refl;
  bounded = omega arith;
  small = omega arith;
}

handle-Step_example :
    (a : Option Image) × Step
      (codes "OTA COMMIT")
      (some (record { size = 320; crc = 0xbc6ce36c; accepted = image }))
      (handle memory complete complete_cells (codes "OTA COMMIT")).1.1
      a
    × Shows
        (handle memory complete complete_cells (codes "OTA COMMIT")).1.0
        (handle memory complete complete_cells (codes "OTA COMMIT")).0
        a
handle-Step_example =
    handle-Step memory (λ f. f) memory-IsStorage (codes "OTA COMMIT") complete complete_cells
      (some (record { size = 320; crc = 0xbc6ce36c; accepted = image })) complete-Shows
