-- ===== src/UartOta/Upload.antt =====
-- What an upload through app/src/uart_ota.rs is, without the storage: the size and CRC that were
-- announced and the bytes accepted so far.
use nrf52_unifying.Prelude.{
  ℕ, ◌%◌, ◌≤◌, ◌≡◌, ◌∙◌, true, false, Option, none, some, [], ◌∷◌, ◌++◌, length,
}
use nrf52_unifying.Prelude.Text.{Bytes, codes, split}
use nrf52_unifying.UartOta.{
  Storage, Ota, Reply, limit, crc_update, complement, hex, decode_pairs, ready, ok, err_write,
  err_read, err_crc, err_mark, reboot, aborted,
}
use nrf52_unifying.UartOta.Image.{slice, IsStorage, slice_same}

pub record Image : Type 0 where
  pub size : ℕ
  pub crc : ℕ
  pub accepted : Bytes

-- A `DATA` line for these bytes at this offset.
pub record IsChunk (line : Bytes) (offset : ℕ) (bytes : Bytes) : Type 0 where
  pub text : Bytes
  pub payload : Bytes
  pub words : split b' ' line ≡ codes "OTA" ∷ codes "DATA" ∷ text ∷ payload ∷ []
  pub number : hex text ≡ some offset
  pub pairs : decode_pairs payload ≡ some bytes

-- A `BEGIN` line of an image that has a size the board can take.
pub record IsBegin (line : Bytes) (size crc : ℕ) : Type 0 where
  pub size_text : Bytes
  pub crc_text : Bytes
  pub words : split b' ' line ≡ codes "OTA" ∷ codes "BEGIN" ∷ size_text ∷ crc_text ∷ []
  pub size_is : hex size_text ≡ some size
  pub crc_is : hex crc_text ≡ some crc
  pub large : 256 ≤ size
  pub small : size ≤ limit
  pub aligned : size % 4 ≡ 0

-- The replies that change nothing.
abbrev pub IsRefusal : Reply → Type 0
IsRefusal ready = ⊥
IsRefusal ok = ⊥
IsRefusal err_write = ⊥
IsRefusal err_read = ⊥
IsRefusal err_crc = ⊥
IsRefusal err_mark = ⊥
IsRefusal reboot = ⊥
IsRefusal aborted = ⊥
IsRefusal _ = Unit {0}

-- The replies to a storage that fails or an image that is damaged: the upload is over.
abbrev pub IsFailure : Reply → Type 0
IsFailure err_write = Unit {0}
IsFailure err_read = Unit {0}
IsFailure err_crc = Unit {0}
IsFailure err_mark = Unit {0}
IsFailure _ = ⊥

-- One line, its reply, and the upload before and after it.
pub data Step (line : Bytes) : Option Image → Reply → Option Image → Type 0 where
  refused : (a : Option Image) (r : Reply) → IsRefusal r → Step line a r a
  begun :
      (a : Option Image) (size crc : ℕ)
      → IsBegin line size crc
      → Step line a ready (some (record { size = size; crc = crc; accepted = [] }))
  appended :
      (u : Image) (bytes : Bytes)
      → IsChunk line (length u.accepted) bytes
      → length (u.accepted ++ bytes) ≤ u.size
      → Step line (some u) ok (some (record u { accepted = u.accepted ++ bytes }))
  repeated :
      (u : Image) (before bytes behind : Bytes)
      → IsChunk line (length before) bytes
      → u.accepted ≡ before ++ (bytes ++ behind)
      → Step line (some u) ok (some u)
  failed : (u : Image) (r : Reply) → IsFailure r → Step line (some u) r none
  committed :
      (u : Image)
      → length u.accepted ≡ u.size
      → complement (crc_update (complement 0) u.accepted) ≡ u.crc
      → Step line (some u) reboot none
  cancelled : (a : Option Image) → Step line a aborted none

-- The state of the code, and the cells of its storage, for an upload that runs.
pub record Matches (o : Ota) (f : ℕ → ℕ) (u : Image) : Type 0 where
  pub runs : o.active ≡ true
  pub size_is : o.size ≡ u.size
  pub crc_is : o.expected_crc ≡ u.crc
  pub received_is : o.received ≡ length u.accepted
  pub stored : slice f 0 (length u.accepted) ≡ u.accepted
  pub bounded : length u.accepted ≤ u.size
  pub small : u.size ≤ limit

abbrev pub Shows : Ota → (ℕ → ℕ) → Option Image → Type 0
Shows o f none = o.active ≡ false
Shows o f (some u) = Matches o f u

pub Shows-keep :
    (o : Ota) (f g : ℕ → ℕ) (a : Option Image) → ((b : ℕ) → g b ≡ f b) → Shows o f a → Shows o g a
Shows-keep o f g none h m = m
Shows-keep o f g (some u) h m = record {
  runs = m.runs;
  size_is = m.size_is;
  crc_is = m.crc_is;
  received_is = m.received_is;
  bounded = m.bounded;
  small = m.small;
  stored = slice_same g f 0 (length u.accepted) (λ b _ _. h b) ∙ m.stored;
}

module _ {S : Type 0} (storage : Storage S) (cells : S → ℕ → ℕ) (laws : IsStorage storage cells)
    (line : Bytes) where
  abbrev pub Outcome : Option Image → S × (Ota × Reply) → Type 0
  Outcome a (s, (o, r)) = (a' : Option Image) × Step line a r a' × Shows o (cells s) a'

  pub refuse :
      (o : Ota) (s : S) (a : Option Image) (r : Reply)
      → IsRefusal r
      → Shows o (cells s) a
      → Outcome a (s, (o, r))
  refuse o s a r h m = (a, refused a r h, m)
