-- ===== src/Storage.antt =====
-- app/src/storage.rs: pairing profiles and the active slot as append-only logs in flash pages.
pub mod Codec
pub mod Log
pub mod Page
pub mod Append
pub mod Profiles
pub mod Isolation
pub mod Clear
pub mod Active
pub mod Apart
pub mod Catalog
mod Tests
use nrf52_unifying.Flash.{Nor, page_size}
use nrf52_unifying.Prelude.{
  ℕ, zero, suc, ◌+◌, ◌*◌, ◌/◌, ◌%◌, ◌^◌, ◌≡◌, ◌<◌, ◌≤◌, Bool, true, false, ◌&&◌, Option, none, some,
  List, [], ◌∷◌, ◌++◌, length, take, drop, get_or, leb, ◌==◌, if◌then◌else◌,
}
use nrf52_unifying.Prelude.Text.{Bytes}

abbrev pub storage_base : ℕ
storage_base = 0xF8000

abbrev pub record_size : ℕ
record_size = 32

abbrev pub slots_per_page : ℕ
slots_per_page = page_size / record_size

abbrev pub max_profiles : ℕ
max_profiles = 4

abbrev pub active_page : ℕ
active_page = storage_base + page_size * max_profiles

abbrev pub active_entries : ℕ
active_entries = page_size / 4

abbrev pub magic : ℕ
magic = 0x55464B31

pub record Profile : Type 0 where
  pub address : Bytes
  pub aes_key : Bytes
  pub aes_counter : ℕ
  pub channel : ℕ

unfoldable pub page_base : ℕ → ℕ
page_base slot = storage_base + page_size * slot

-- `u32::to_le_bytes`
unfoldable pub to_le_bytes : ℕ → Bytes
to_le_bytes x = (x % 256) ∷ (x / 256 % 256) ∷ (x / 65536 % 256) ∷ (x / 16777216 % 256) ∷ []

-- `u32::from_le_bytes`, of four bytes.
unfoldable pub from_le_bytes : Bytes → ℕ
from_le_bytes [] = 0
from_le_bytes (b ∷ bs) = b + 256 * from_le_bytes bs

-- The record's fields one behind the other; bytes 10 and 11 keep their zeros.
unfoldable pub encode : Profile → Bytes
unfolding to_le_bytes
encode p =
    to_le_bytes magic
    ++ (p.address ++ (p.channel ∷ 0 ∷ 0 ∷ (p.aes_key ++ to_le_bytes p.aes_counter)))

unfoldable pub decode : Bytes → Option Profile
unfolding from_le_bytes
decode rec =
    if from_le_bytes (take 4 rec) == magic
    then some (record {
      address = take 5 (drop 4 rec);
      aes_key = take 16 (drop 12 rec);
      aes_counter = from_le_bytes (take 4 (drop 28 rec));
      channel = get_or rec 9 0;
    })
    else none

-- `rec.iter().all(|&byte| byte == 0xff)`
unfoldable pub all_ff : Bytes → Bool
all_ff [] = true
all_ff (b ∷ bs) = b == 0xff && all_ff bs

module _ {F : Type 0} (nor : Nor F) where
  -- `for i in 0..SLOTS_PER_PAGE` of `load`, with the rounds that are left.
  unfoldable pub load_loop : ℕ → F → ℕ → ℕ → Option Profile → Option Profile
  load_loop zero flash base i latest = latest
  load_loop (suc rounds) flash base i latest =
      elim (nor.read flash (base + i * record_size) record_size) [
        | none ↦ latest
        | some rec ↦ elim (decode rec) [
          | none ↦ latest
          | some profile ↦ load_loop rounds flash base (i + 1) (some profile)
        ]
      ]

  unfoldable pub load : F → ℕ → Option Profile
  load flash slot =
      if leb max_profiles slot then none else load_loop slots_per_page flash (page_base slot) 0 none

  -- The search of `save` for the first record that is not valid: `none` on a read error, else `next`.
  unfoldable pub next_loop : ℕ → F → ℕ → ℕ → Option ℕ
  next_loop zero flash base i = some slots_per_page
  next_loop (suc rounds) flash base i = elim (nor.read flash (base + i * record_size) record_size) [
    | none ↦ none
    | some rec ↦ elim (decode rec) [
      | none ↦ some (if all_ff rec then i else slots_per_page)
      | some profile ↦ next_loop rounds flash base (i + 1)
    ]
  ]

  -- The rest of `save`: erase if the page has no free record, then write.
  unfoldable pub append_record : F → ℕ → ℕ → Bytes → F
  append_record flash base next rec =
      if leb slots_per_page next
      then (let (erased, ok) = nor.erase flash base (base + page_size) in
          if ok then (nor.write erased (base + 0 * record_size) rec).0 else erased)
      else (nor.write flash (base + next * record_size) rec).0

  unfoldable pub save : F → ℕ → Profile → F
  save flash slot profile =
      if leb max_profiles slot
      then flash
      else elim (next_loop slots_per_page flash (page_base slot) 0) [
        | none ↦ flash
        | some next ↦ append_record flash (page_base slot) next (encode profile)
      ]

  unfoldable pub clear_slot : F → ℕ → F
  clear_slot flash slot =
      if leb max_profiles slot
      then flash
      else (nor.erase flash (page_base slot) (page_base slot + page_size)).0

  unfoldable pub clear_all : F → F
  clear_all flash = (nor.erase flash storage_base (active_page + page_size)).0

  unfoldable pub load_active_loop : ℕ → F → ℕ → Option ℕ → Option ℕ
  load_active_loop zero flash i latest = latest
  load_active_loop (suc rounds) flash i latest = elim (nor.read flash (active_page + i * 4) 4) [
    | none ↦ latest
    | some buf ↦
        let val = from_le_bytes buf in
        let more = load_active_loop rounds flash (i + 1) (some val) in
        if leb max_profiles val then latest else more
  ]

  unfoldable pub load_active_slot : F → Option ℕ
  load_active_slot flash = load_active_loop active_entries flash 0 none

  unfoldable pub next_active_loop : ℕ → F → ℕ → Option ℕ
  next_active_loop zero flash i = some active_entries
  next_active_loop (suc rounds) flash i = elim (nor.read flash (active_page + i * 4) 4) [
    | none ↦ none
    | some buf ↦
        let val = from_le_bytes buf in
        let more = next_active_loop rounds flash (i + 1) in
        if leb max_profiles val
        then some (if val == 0xffffffff then i else active_entries)
        else more
  ]

  unfoldable pub append_active : F → ℕ → Bytes → F
  append_active flash next entry =
      if leb active_entries next
      then (let (erased, ok) = nor.erase flash active_page (active_page + page_size) in
          if ok then (nor.write erased (active_page + 0 * 4) entry).0 else erased)
      else (nor.write flash (active_page + next * 4) entry).0

  unfoldable pub save_active_slot : F → ℕ → F
  save_active_slot flash slot =
      if leb max_profiles slot then flash else elim (next_active_loop active_entries flash 0) [
        | none ↦ flash
        | some next ↦ append_active flash next (to_le_bytes slot)
      ]
