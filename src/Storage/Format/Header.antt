-- ===== src/Storage/Format/Header.antt =====
-- foyer-storage/src/generic.rs and region.rs: the headers are read back.
use foyer.Prelude.{ℕ, ◌^◌, ◌<◌, ◌≡◌, refl, true, some, List, ◌++◌, arith, length, length-append}
use Prim.Native.Nat.{bit_or}
use mathlib.Core.List.{append_assoc}
use foyer.Storage.Format.{
  Compression, uncompressed, zstd, lz4, to_u8, try_from, EntryHeader, entry_magic, serialized_len,
  write, read, read_tag, write_region, read_region, region_magic,
}
use foyer.Storage.Format.Bytes.{ByteOrder, ByteOrderLaws}

-- The fields of a header fit in their words.
pub record Fits (h : EntryHeader) : Type 0 where
  pub key_len : h.key_len < 2 ^ 32
  pub value_len : h.value_len < 2 ^ 32
  pub sequence : h.sequence < 2 ^ 64
  pub checksum : h.checksum < 2 ^ 64

module _ (b : ByteOrder) (laws : ByteOrderLaws b) where
  pub length-write : (h : EntryHeader) → length (write b h) ≡ serialized_len
  unfolding write
  length-write h =
      let v = bit_or entry_magic (to_u8 h.compression) in
      let p1 = b.put_u32 h.key_len in
      let p2 = b.put_u32 h.value_len in
      let p3 = b.put_u64 h.sequence in
      let p4 = b.put_u64 h.checksum in
      omega (
        arith,
        laws.length-put_u32 h.key_len,
        laws.length-put_u32 h.value_len,
        laws.length-put_u64 h.sequence,
        laws.length-put_u64 h.checksum,
        laws.length-put_u32 v,
        length-append p1 (p2 ++ (p3 ++ (p4 ++ b.put_u32 v))),
        length-append p2 (p3 ++ (p4 ++ b.put_u32 v)),
        length-append p3 (p4 ++ b.put_u32 v),
        length-append p4 (b.put_u32 v),
      )

  tag : (c : Compression) → read_tag b (bit_or entry_magic (to_u8 c)) ≡ some c
  unfolding read_tag to_u8 try_from
  tag uncompressed = refl
  tag zstd = refl
  tag lz4 = refl

  tag_fits : (c : Compression) → bit_or entry_magic (to_u8 c) < 2 ^ 32
  unfolding to_u8
  tag_fits uncompressed = omega arith
  tag_fits zstd = omega arith
  tag_fits lz4 = omega arith

  -- A header whose fields fit in their words is read back, whatever follows it.
  pub read-write :
      (h : EntryHeader) (rest : List ℕ) → Fits h → read b (write b h ++ rest) ≡ some (some h)
  unfolding read write
  read-write h rest f =
      let v = bit_or entry_magic (to_u8 h.compression) in
      let p1 = b.put_u32 h.key_len in
      let p2 = b.put_u32 h.value_len in
      let p3 = b.put_u64 h.sequence in
      let p4 = b.put_u64 h.checksum in
      let p5 = b.put_u32 v in
      rw
        (
          append_assoc p1 (p2 ++ (p3 ++ (p4 ++ p5))) rest,
          laws.get-put_u32 h.key_len ((p2 ++ (p3 ++ (p4 ++ p5))) ++ rest) f.key_len,
          append_assoc p2 (p3 ++ (p4 ++ p5)) rest,
          laws.get-put_u32 h.value_len ((p3 ++ (p4 ++ p5)) ++ rest) f.value_len,
          append_assoc p3 (p4 ++ p5) rest,
          laws.get-put_u64 h.sequence ((p4 ++ p5) ++ rest) f.sequence,
          append_assoc p4 p5 rest,
          laws.get-put_u64 h.checksum (p5 ++ rest) f.checksum,
          laws.get-put_u32 v rest (tag_fits h.compression),
          tag h.compression,
        )
        refl

  -- The header of a region is read back.
  pub read_region-write_region :
      (rest : List ℕ) → read_region b (write_region b ++ rest) ≡ some true
  unfolding read_region write_region
  read_region-write_region rest =
      rw
        (
          append_assoc (b.put_u64 region_magic) (b.put_u64 1) rest,
          laws.get-put_u64 region_magic (b.put_u64 1 ++ rest) (omega arith),
          laws.get-put_u64 1 rest (omega arith),
        )
        refl

  pub length-write_region : length (write_region b) ≡ 16
  unfolding write_region
  length-write_region = omega (
    arith,
    laws.length-put_u64 region_magic,
    laws.length-put_u64 1,
    length-append (b.put_u64 region_magic) (b.put_u64 1),
  )
