-- ===== src/Storage/Entry/Laws.antt =====
-- foyer-storage/src: `read_entry` of generic.rs reads what `FlushBuffer::write` of buffer.rs wrote.
use foyer.Prelude.{
  ℕ, ◌+◌, ◌^◌, ◌<◌, ◌≡◌, refl, sym, ◌∙◌, true, some, List, ◌++◌, arith, leb, ==_refl, leb_of_le,
  length, length-append,
}
use mathlib.Core.List.{append_assoc}
use foyer.Storage.Format.{
  Compression, uncompressed, zstd, lz4, EntryHeader, serialized_len, Code, write, read,
}
use foyer.Storage.Format.Bytes.{ByteOrderLaws, take, drop, take-append, drop-append}
use foyer.Storage.Format.Header.{Fits, read-write, length-write}
use foyer.Storage.Entry.{
  Entry, Crates, compress, decompress, value_bytes, header_of, encode, read_body, read_key,
  read_entry,
}

-- What the crates document: they decode what they encoded, and a checksum is a word.
pub record CratesLaws (x : Crates) : Type 0 where
  pub bytes : ByteOrderLaws x.bytes
  pub zstd_decode-encode : (l : List ℕ) → x.zstd_decode (x.zstd_encode l) ≡ some l
  pub lz4_decode-encode : (l : List ℕ) → x.lz4_decode (x.lz4_encode l) ≡ some l
  pub checksum_word : (l : List ℕ) → x.checksum l < 2 ^ 64

module _ {ℓ} {K V : Type ℓ} (x : Crates) (keys : Code K) (values : Code V) where
  -- The lengths of an entry fit in the fields of its header.
  pub record IsSmall (e : Entry K V) : Type 0 where
    pub key : length (keys.bytes e.key) < 2 ^ 32
    pub value : length (value_bytes x keys values e) < 2 ^ 32
    pub sequence : e.sequence < 2 ^ 64

module _ {ℓ} {K V : Type ℓ} (x : Crates) (laws : CratesLaws x) (keys : Code K)
    (values : Code V) where
  decompress-compress : (c : Compression) (l : List ℕ) → decompress x c (compress x c l) ≡ some l
  unfolding compress decompress
  decompress-compress uncompressed l = refl
  decompress-compress zstd l = laws.zstd_decode-encode l
  decompress-compress lz4 l = laws.lz4_decode-encode l

  pub header-Fits : (e : Entry K V) → IsSmall x keys values e → Fits (header_of x keys values e)
  unfolding header_of
  header-Fits e s = record {
    key_len = omega arith;
    value_len = omega arith;
    sequence = s.sequence;
    checksum = laws.checksum_word (value_bytes x keys values e ++ keys.bytes e.key);
  }

  -- The bytes behind a header that tells their lengths and their checksum.
  read_key-bytes :
      (h : EntryHeader) (v k padding : List ℕ) (value : V) {key : K}
      → h.value_len ≡ length v
      → h.key_len ≡ length k
      → x.checksum (v ++ k) ≡ h.checksum
      → keys.read k ≡ some key
      → read_key x keys values h ((v ++ k) ++ padding) value ≡ some (some (key, value))
  unfolding read_key
  read_key-bytes h v k padding value ev ek ec es =
      rw
        (
          leb_of_le (h.value_len + h.key_len) (length ((v ++ k) ++ padding))
              (omega (arith, ev, ek, length-append (v ++ k) padding, length-append v k)),
          take-append (v ++ k) padding (h.value_len + h.key_len)
              (omega (arith, ev, ek, length-append v k)),
          append_assoc v k padding,
          drop-append v (k ++ padding) h.value_len ev,
          take-append k padding h.key_len ek,
          es,
          ec,
          ==_refl h.checksum,
        )
        refl

  read_body-bytes :
      (h : EntryHeader) (v k padding : List ℕ) {plain : List ℕ} {value : V} {key : K}
      → h.value_len ≡ length v
      → h.key_len ≡ length k
      → x.checksum (v ++ k) ≡ h.checksum
      → decompress x h.compression v ≡ some plain
      → values.read plain ≡ some value
      → keys.read k ≡ some key
      → read_body x keys values h ((v ++ k) ++ padding) ≡ some (some (key, value))
  unfolding read_body
  read_body-bytes h v k padding {value = value} ev ek ec ed er es =
      let fits : leb h.value_len (length ((v ++ k) ++ padding)) ≡ true =
        leb_of_le h.value_len (length ((v ++ k) ++ padding))
          (omega (arith, ev, ek, length-append (v ++ k) padding, length-append v k)) in
      let front : take h.value_len ((v ++ k) ++ padding) ≡ v =
        rw (append_assoc v k padding) (take-append v (k ++ padding) h.value_len ev) in
      rw (fits, front, ed, er) (read_key-bytes h v k padding value ev ek ec es)

  read_entry-header :
      (buf : List ℕ) (h : EntryHeader) (rest : List ℕ)
      → read x.bytes buf ≡ some (some h)
      → drop serialized_len buf ≡ rest
      → read_entry x keys values buf ≡ read_body x keys values h rest
  unfolding read_entry
  read_entry-header buf h rest er ed = rw (er, ed) refl

  body :
      (e : Entry K V) (padding : List ℕ)
      → IsSmall x keys values e
      → read_body x keys values
          (header_of x keys values e)
          ((value_bytes x keys values e ++ keys.bytes e.key) ++ padding)
        ≡ some (some (e.key, e.value))
  unfolding header_of value_bytes
  body e padding s =
      read_body-bytes (header_of x keys values e) (value_bytes x keys values e) (keys.bytes e.key)
        padding (omega (arith, s.value)) (omega (arith, s.key)) refl
        (decompress-compress e.compression (values.bytes e.value)) (values.read-bytes e.value)
        (keys.read-bytes e.key)

  -- An entry whose lengths fit in the header is read back from its bytes, whatever follows them.
  pub read_entry-encode :
      (e : Entry K V) (padding : List ℕ)
      → IsSmall x keys values e
      → read_entry x keys values (encode x keys values e ++ padding) ≡ some (some (e.key, e.value))
  unfolding encode
  read_entry-encode e padding s =
      let h = header_of x keys values e in
      let w = write x.bytes h in
      let rest = (value_bytes x keys values e ++ keys.bytes e.key) ++ padding in
      rw (append_assoc w (value_bytes x keys values e ++ keys.bytes e.key) padding) (
        read_entry-header (w ++ rest) h rest
          (read-write x.bytes laws.bytes h rest (header-Fits e s))
          (drop-append w rest serialized_len (sym (length-write x.bytes laws.bytes h)))
        ∙ body e padding s)

  pub length-encode :
      (e : Entry K V)
      → length (encode x keys values e)
        ≡ 28 + (length (value_bytes x keys values e) + length (keys.bytes e.key))
  unfolding encode
  length-encode e =
      let h = header_of x keys values e in
      let w = write x.bytes h in
      let v = value_bytes x keys values e in
      omega (
        arith,
        length-write x.bytes laws.bytes h,
        length-append w (v ++ keys.bytes e.key),
        length-append v (keys.bytes e.key),
      )
