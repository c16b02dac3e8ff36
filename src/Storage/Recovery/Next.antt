-- ===== src/Storage/Recovery/Next.antt =====
-- foyer-storage/src/generic.rs: `RegionEntryIter::next` finds the entry that was written at its
-- cursor.
use foyer.Prelude.{
  ℕ, ◌+◌, ◌-◌, ◌%◌, ◌^◌, ◌≤◌, ◌<◌, ◌≡◌, refl, sym, ap, subst, ◌∙◌, false, some, List, [], ◌++◌,
  arith, ltb, leb, ◌==◌, ==_of_ne, leb_of_le, length, length-append,
}
use mathlib.Core.List.{append_assoc}
use foyer.Storage.Format.{Code, EntryHeader, write, read, align_up, align_down}
use foyer.Storage.Format.Header.{read-write, length-write}
use foyer.Storage.Device.{Disk, load, length-load, load-split}
use foyer.Storage.Entry.{Entry, value_bytes, header_of, encode}
use foyer.Storage.Entry.Laws.{IsSmall, header-Fits, length-encode, read_entry-encode}
use foyer.Storage.Buffer.{Machine, PositionedEntry}
use foyer.Storage.Buffer.Align.{align_up-ge, align_down-le, align_down-greatest}
use foyer.Storage.Buffer.Flush.{MachineLaws}
use foyer.Storage.Flusher.{item_of}
use foyer.Storage.Recovery.{
  RegionEntryIter, slice, key_at, item_at, next_of, next, view_of, next_kv,
}
use foyer.Storage.Recovery.Loads.{take-load, drop-load, load-inside}

slice-load :
    (from start end to r : ℕ) (d : Disk)
    → from ≤ start
    → start ≤ end
    → end ≤ to
    → slice (load (to - from) r from d) (start - from) (end - from)
      ≡ some (load (end - start) r start d)
unfolding slice
slice-load from start end to r d b1 b2 b3 =
    let n = to - from in
    let inside : end - from ≤ length (load n r from d) =
      omega (arith, b1, b2, b3, length-load n r from d) in
    let e : from + (start - from) ≡ start = omega (arith, b1) in
    let k : (end - from) - (start - from) ≡ end - start = omega (arith, b1, b2) in
    let short : end - start ≤ n - (start - from) = omega (arith, b1, b2, b3) in
    rw
      (
        leb_of_le (start - from) (end - from) (omega (arith, b1, b2)),
        leb_of_le (end - from) (length (load n r from d)) inside,
        drop-load (start - from) n r from d (omega (arith, b1, b2, b3)),
        e,
        k,
        take-load (end - start) (n - (start - from)) r start d short,
      )
      refl

module _ {ℓ} {K V : Type ℓ} (m : Machine) (keys : Code K) (values : Code V) where
  -- An entry with its padding is on the disk at the cursor, in a block that is not the last one of
  -- its region, and the iterator can see it: its key is not empty, and the lengths of its value and
  -- its key sum up to 32 bits.
  pub record IsAt (e : Entry K V) (s : RegionEntryIter) (d : Disk) : Type ℓ where
    pub padding : List ℕ
    pub bytes :
        load (length (encode m.crates keys values e ++ padding)) s.region s.cursor d
        ≡ encode m.crates keys values e ++ padding
    pub size :
        length (encode m.crates keys values e ++ padding)
        ≡ align_up m.geometry.align (length (encode m.crates keys values e))
    pub at_block : s.cursor % m.geometry.align ≡ 0
    pub behind_header : m.geometry.align ≤ s.cursor
    pub before_last : s.cursor + m.geometry.align < m.geometry.region_size
    pub room : s.cursor + length (encode m.crates keys values e) ≤ m.geometry.region_size
    pub small : IsSmall m.crates keys values e
    pub sum : length (value_bytes m.crates keys values e) + length (keys.bytes e.key) < 2 ^ 32
    pub has_key : 0 < length (keys.bytes e.key)

module _ {ℓ} {K V : Type ℓ} (m : Machine) (laws : MachineLaws m) (keys : Code K)
    (values : Code V) where
  -- The first block starts with the header.
  load-header :
      (e : Entry K V) (s : RegionEntryIter) (d : Disk)
      → IsAt m keys values e s d
      → 28 ≤ m.geometry.align
      → read m.crates.bytes (load m.geometry.align s.region s.cursor d)
        ≡ some (some (header_of m.crates keys values e))
  unfolding encode
  load-header e s d at b =
      let h = header_of m.crates keys values e in
      let w = write m.crates.bytes h in
      let rest = value_bytes m.crates keys values e ++ keys.bytes e.key in
      let r = m.geometry.align - 28 in
      let a = m.geometry.align in
      let whole : a ≡ 28 + r = omega (arith, b) in
      let n : length w ≡ 28 = length-write m.crates.bytes laws.crates.bytes h in
      let shape : (w ++ rest) ++ at.padding ≡ w ++ (rest ++ at.padding) =
        append_assoc w rest at.padding in
      let start : s.cursor + 0 ≡ s.cursor = omega arith in
      let front : load 28 s.region s.cursor d ≡ w =
        subst (λ k. load k s.region s.cursor d ≡ w) n
          (subst (λ a. load (length w) s.region a d ≡ w) start
            (load-inside [] w (rest ++ at.padding) s.region s.cursor d
              (subst (λ l. load (length l) s.region s.cursor d ≡ l) shape at.bytes))) in
      let split : load a s.region s.cursor d ≡ w ++ load r s.region (s.cursor + 28) d =
        ap (λ k. load k s.region s.cursor d) whole
        ∙ load-split 28 r s.region s.cursor d
        ∙ ap (λ l. l ++ load r s.region (s.cursor + 28) d) front in
      rw split (
        read-write m.crates.bytes laws.crates.bytes h (load r s.region (s.cursor + 28) d)
          (header-Fits m.crates laws.crates keys values e at.small))

  -- The key stands behind the header and the value.
  load-key :
      (e : Entry K V) (s : RegionEntryIter) (d : Disk)
      → IsAt m keys values e s d
      → load
          (length (keys.bytes e.key))
          s.region
          (s.cursor + 28 + length (value_bytes m.crates keys values e))
          d
        ≡ keys.bytes e.key
  unfolding encode
  load-key e s d at =
      let h = header_of m.crates keys values e in
      let w = write m.crates.bytes h in
      let v = value_bytes m.crates keys values e in
      let k = keys.bytes e.key in
      let n : length w ≡ 28 = length-write m.crates.bytes laws.crates.bytes h in
      let place : s.cursor + length (w ++ v) ≡ s.cursor + 28 + length v =
        omega (arith, n, length-append w v) in
      let shape : (w ++ (v ++ k)) ++ at.padding ≡ (w ++ v) ++ (k ++ at.padding) =
        ap (λ l. l ++ at.padding) (sym (append_assoc w v k)) ∙ append_assoc (w ++ v) k at.padding in
      subst (λ a. load (length k) s.region a d ≡ k) place
        (load-inside (w ++ v) k at.padding s.region s.cursor d
          (subst (λ l. load (length l) s.region s.cursor d ≡ l) shape at.bytes))

  key_at-reads :
      (e : Entry K V) (s : RegionEntryIter) (d : Disk) (h : EntryHeader) (block : List ℕ)
      → IsAt m keys values e s d
      → key_at m keys values s h block
          (s.cursor + 28 + length (value_bytes m.crates keys values e))
          (s.cursor
            + 28
            + (length (value_bytes m.crates keys values e) + length (keys.bytes e.key)))
          d
        ≡ some (some e.key)
  unfolding key_at
  key_at-reads e s d h block at =
      let a = m.geometry.align in
      let v = length (value_bytes m.crates keys values e) in
      let k = length (keys.bytes e.key) in
      let start = s.cursor + 28 + v in
      let end = s.cursor + 28 + (v + k) in
      let pos : 0 < a = omega (arith, laws.header) in
      let after : s.cursor ≤ align_down a start =
        align_down-greatest a start s.cursor pos (omega arith) at.at_block in
      let apart : (align_down a start == s.cursor - a) ≡ false =
        ==_of_ne _ _ λ same. omega (arith, same, after, pos, at.behind_header) in
      let len = length-encode m.crates laws.crates keys values e in
      let n : end - start ≡ k = omega arith in
      rw
        (
          apart,
          slice-load (align_down a start) start end (align_up a end) s.region d
              (align_down-le a start) (omega arith)
              (align_up-ge a end pos (omega (arith, at.room, len, laws.block, laws.addresses))),
          n,
          load-key e s d at,
          keys.read-bytes e.key,
        )
        refl

  -- The place of the entry at the cursor.
  abbrev pub found : Entry K V → RegionEntryIter → PositionedEntry K V
  found e s = record {
    entry = e;
    region = s.region;
    offset = s.cursor;
    len = align_up m.geometry.align (length (encode m.crates keys values e));
  }

  next_of-Finds :
      (e : Entry K V) (s : RegionEntryIter) (d : Disk) (block : List ℕ)
      → IsAt m keys values e s d
      → next_of m keys values s (header_of m.crates keys values e) block d
        ≡ some (some (e.key, item_of (found e s)), record s { cursor = s.cursor + (found e s).len })
  unfolding next_of item_at item_of header_of
  next_of-Finds e s d block at =
      let v = length (value_bytes m.crates keys values e) in
      let k = length (keys.bytes e.key) in
      let ev : v % 2 ^ 32 ≡ v = omega (arith, at.small.value) in
      let ek : k % 2 ^ 32 ≡ k = omega (arith, at.small.key) in
      let sum : (v + k) % 2 ^ 32 ≡ v + k = omega (arith, at.sum) in
      let len : v + k + 28 ≡ length (encode m.crates keys values e) =
        omega (arith, length-encode m.crates laws.crates keys values e) in
      let far : leb (s.cursor + 28 + (v + k)) (s.cursor + 28 + v) ≡ false =
        ground (arith, at.has_key) in
      let within : ltb m.geometry.region_size (s.cursor + 28 + (v + k)) ≡ false =
        ground (arith, at.room, length-encode m.crates laws.crates keys values e) in
      let h : EntryHeader = record {
        key_len = k;
        value_len = v;
        sequence = e.sequence;
        checksum = m.crates.checksum (value_bytes m.crates keys values e ++ keys.bytes e.key);
        compression = e.compression;
      } in
      rw (ev, ek, sum, far, within, key_at-reads e s d h block at, len) refl

  -- At an entry that is on the disk, with a key that is not empty, lengths whose sum fits in 32
  -- bits, and in a block of its region that is not the last one, the iterator never faults, gives
  -- the key of the entry with the item that the flusher puts in the catalog, and moves behind its
  -- padding. A block has room for the header of an entry.
  pub next-Finds :
      (e : Entry K V) (s : RegionEntryIter) (d : Disk)
      → IsAt m keys values e s d
      → 28 ≤ m.geometry.align
      → next m keys values s d
        ≡ some (some (e.key, item_of (found e s)), record s { cursor = s.cursor + (found e s).len })
  unfolding next
  next-Finds e s d at b =
      let more : leb m.geometry.region_size (s.cursor + m.geometry.align) ≡ false =
        ground (arith, at.before_last) in
      rw (more, load-header e s d at b)
        (next_of-Finds e s d (load m.geometry.align s.region s.cursor d) at)

  -- The place of an item in a region below 4 GiB is what the view has.
  view_of-found :
      (e : Entry K V) (s : RegionEntryIter)
      → s.cursor < 2 ^ 32
      → (found e s).len < 2 ^ 32
      → view_of m keys values (item_of (found e s)) ≡ some (s.cursor, (found e s).len)
  unfolding view_of item_of
  view_of-found e s b1 b2 =
      let e1 : s.cursor % 2 ^ 32 ≡ s.cursor = omega (arith, b1) in
      let e2 : (found e s).len % 2 ^ 32 ≡ (found e s).len = omega (arith, b2) in rw (e1, e2) refl

  -- At an entry that is on the disk, below 4 GiB in its region and shorter than that, with a key
  -- that is not empty, lengths whose sum fits in 32 bits, and in a block that is not the last one,
  -- the iterator reads back the key and the value and moves behind the padding. A block has room
  -- for the header of an entry.
  pub next_kv-Reads :
      (e : Entry K V) (s : RegionEntryIter) (d : Disk)
      → IsAt m keys values e s d
      → 28 ≤ m.geometry.align
      → s.cursor < 2 ^ 32
      → (found e s).len < 2 ^ 32
      → next_kv m keys values s d
        ≡ some (some (e.key, e.value), record s { cursor = s.cursor + (found e s).len })
  unfolding next_kv
  next_kv-Reads e s d at b b1 b2 =
      let n : s.cursor + (found e s).len - s.cursor ≡ (found e s).len = omega arith in
      let block : load (found e s).len s.region s.cursor d
          ≡ encode m.crates keys values e ++ at.padding =
        subst (λ k. load k s.region s.cursor d ≡ encode m.crates keys values e ++ at.padding)
          at.size at.bytes in
      rw
        (
          next-Finds e s d at b,
          view_of-found e s b1 b2,
          n,
          block,
          read_entry-encode m.crates laws.crates keys values e at.padding at.small,
        )
        refl
