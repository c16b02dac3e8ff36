-- ===== src/Storage/Format.antt =====
-- foyer-storage/src: what is written to a region. `EntryHeader` and the entries of generic.rs, the
-- header of region.rs, compress.rs, and the alignment of foyer-common/src/bits.rs.
pub mod Bytes
pub mod Header
use foyer.Prelude.{
  wrapping_add, wrapping_sub, ℕ, ◌+◌, ◌-◌, ◌*◌, ◌/◌, ◌%◌, ◌≡◌, Bool, ◌&&◌, Option, none, some, List,
  ◌++◌, ◌==◌, if◌then◌else◌, ◌>>=◌,
}
use Prim.Native.Nat.{bit_and, bit_or}
use foyer.Storage.Format.Bytes.{ByteOrder}

pub data Compression : Type 0 where
  uncompressed zstd lz4 : Compression

unfoldable pub to_u8 : Compression → ℕ
to_u8 uncompressed = 0
to_u8 zstd = 1
to_u8 lz4 = 2

-- `TryFrom<u8>`
unfoldable pub try_from : ℕ → Option Compression
try_from v =
    if v == 0
    then some uncompressed
    else if v == 1
    then some zstd
    else if v == 2
    then some lz4
    else none

abbrev pub entry_magic : ℕ
entry_magic = 2533566208

abbrev pub entry_magic_mask : ℕ
entry_magic_mask = 4294967040

abbrev pub region_magic : ℕ
region_magic = 429327143

pub record EntryHeader : Type 0 where
  pub key_len : ℕ
  pub value_len : ℕ
  pub sequence : ℕ
  pub checksum : ℕ
  pub compression : Compression

abbrev pub serialized_len : ℕ
serialized_len = 28

-- `(v + align - 1) & !(align - 1)` and `v & !(align - 1)`, for a power of two, on `usize`.
unfoldable pub align_up : ℕ → ℕ → ℕ
align_up align v = wrapping_sub (wrapping_add v align) 1 / align * align

unfoldable pub align_down : ℕ → ℕ → ℕ
align_down align v = v / align * align

unfoldable pub is_aligned : ℕ → ℕ → Bool
is_aligned align v = v % align == 0

-- What a key or a value is on disk: the trait `Cursor` gives the bytes, `read` may fail.
pub record Code {ℓ} (A : Type ℓ) : Type ℓ where
  pub bytes : A → List ℕ
  pub read : List ℕ → Option A
  pub read-bytes : (a : A) → read (bytes a) ≡ some a

module _ (b : ByteOrder) where
  open b use {put_u32, put_u64, get_u32, get_u64}

  unfoldable pub write : EntryHeader → List ℕ
  write h =
      put_u32 h.key_len
      ++ (put_u32 h.value_len
          ++ (put_u64 h.sequence
              ++ (put_u64 h.checksum ++ put_u32 (bit_or entry_magic (to_u8 h.compression)))))

  -- The magic number and the compression, which end the header.
  unfoldable pub read_tag : ℕ → Option Compression
  read_tag v = if bit_and v entry_magic_mask == entry_magic then try_from (v % 256) else none

  -- A buffer that is too short is a panic, the outer `none`; an error is the inner one.
  unfoldable pub read : List ℕ → Option (Option EntryHeader)
  read buf = do
    (key_len, buf1) ← get_u32 buf
    (value_len, buf2) ← get_u32 buf1
    (sequence, buf3) ← get_u64 buf2
    (checksum, buf4) ← get_u64 buf3
    (v, buf5) ← get_u32 buf4
    some (
        read_tag v >>= λ c. some (record {
          key_len = key_len;
          value_len = value_len;
          sequence = sequence;
          checksum = checksum;
          compression = c;
        }))

  -- `RegionHeader`, whose only version is 1.
  unfoldable pub write_region : List ℕ
  write_region = put_u64 region_magic ++ put_u64 1

  unfoldable pub read_region : List ℕ → Option Bool
  read_region buf = do
    (magic, buf1) ← get_u64 buf
    (version, buf2) ← get_u64 buf1
    some (magic == region_magic && version == 1)
