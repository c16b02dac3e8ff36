-- ===== src/Storage/Entry.antt =====
-- foyer-storage/src: an entry (flusher.rs), its bytes as `FlushBuffer::write` of buffer.rs makes
-- them, and `read_entry` of generic.rs.
pub mod Laws
use foyer.Prelude.{
  ℕ, ◌+◌, ◌%◌, ◌^◌, Option, none, some, List, ◌++◌, leb, ◌==◌, if◌then◌else◌, ◌>>=◌, length,
}
use foyer.Storage.Format.{
  Compression, uncompressed, zstd, lz4, EntryHeader, serialized_len, Code, write, read,
}
use foyer.Storage.Format.Bytes.{ByteOrder, take, drop}

pub record Entry {ℓ} (K V : Type ℓ) : Type ℓ where
  pub key : K
  pub value : V
  pub sequence : ℕ
  pub compression : Compression

-- The crates that are not code of this repository: numbers as bytes, the two compressions, and
-- the hash that serves as a checksum. A compressor that writes to memory does not fail.
pub record Crates : Type 0 where
  pub bytes : ByteOrder
  pub zstd_encode : List ℕ → List ℕ
  pub zstd_decode : List ℕ → Option (List ℕ)
  pub lz4_encode : List ℕ → List ℕ
  pub lz4_decode : List ℕ → Option (List ℕ)
  pub checksum : List ℕ → ℕ

module _ (x : Crates) where
  unfoldable pub compress : Compression → List ℕ → List ℕ
  compress uncompressed l = l
  compress zstd l = x.zstd_encode l
  compress lz4 l = x.lz4_encode l

  unfoldable pub decompress : Compression → List ℕ → Option (List ℕ)
  decompress uncompressed l = some l
  decompress zstd l = x.zstd_decode l
  decompress lz4 l = x.lz4_decode l

module _ {ℓ} {K V : Type ℓ} (x : Crates) (keys : Code K) (values : Code V) where
  -- The value, compressed, and the key.
  unfoldable pub value_bytes : Entry K V → List ℕ
  value_bytes e = compress x e.compression (values.bytes e.value)

  -- `as u32` keeps the low 32 bits of a length.
  unfoldable pub header_of : Entry K V → EntryHeader
  header_of e = record {
    key_len = length (keys.bytes e.key) % 2 ^ 32;
    value_len = length (value_bytes e) % 2 ^ 32;
    sequence = e.sequence;
    checksum = x.checksum (value_bytes e ++ keys.bytes e.key);
    compression = e.compression;
  }

  -- header, value, key
  unfoldable pub encode : Entry K V → List ℕ
  encode e = write x.bytes (header_of e) ++ (value_bytes e ++ keys.bytes e.key)

  -- The key, and the checksum of both, once the value is read.
  unfoldable pub read_key : EntryHeader → List ℕ → V → Option (Option (K × V))
  read_key h body value =
      if leb (h.value_len + h.key_len) (length body)
      then some (do
        key ← keys.read (take h.key_len (drop h.value_len body))
        (if x.checksum (take (h.value_len + h.key_len) body) == h.checksum
            then some (key, value)
            else none))
      else none

  -- The rest of `read_entry` behind the header; a slice out of range is a panic, the outer `none`.
  unfoldable pub read_body : EntryHeader → List ℕ → Option (Option (K × V))
  read_body h body =
      if leb h.value_len (length body)
      then (elim (decompress x h.compression (take h.value_len body) >>= values.read) [
        | none ↦ some none
        | some value ↦ read_key h body value
      ])
      else none

  -- An error of the header is the inner `none`.
  unfoldable pub read_entry : List ℕ → Option (Option (K × V))
  read_entry buf = do
    parsed ← read x.bytes buf
    elim parsed [ none ↦ some none | some h ↦ read_body h (drop serialized_len buf) ]
