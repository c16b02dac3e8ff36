-- ===== src/Storage/Recovery.antt =====
-- foyer-storage/src/generic.rs: `RegionEntryIter`, which walks over the entries of a region when a
-- store is opened. The cursor is below the size of its region, so that its sums with lengths of 32
-- bits do not wrap; the sum of two such lengths does. Every read of the device succeeds; the outer
-- `none` is a slice out of range.
pub mod Loads
pub mod Next
pub mod Region
use foyer.Prelude.{
  ℕ, zero, suc, ◌+◌, ◌-◌, ◌%◌, ◌^◌, ◌&&◌, ◌||◌, Option, none, some, List, [], ◌∷◌, ◌++◌, ltb, leb,
  ◌==◌, if◌then◌else◌, ◌>>=◌, length,
}
use foyer.Storage.Format.{
  Code, EntryHeader, serialized_len, read, read_region, align_up, align_down,
}
use foyer.Storage.Format.Bytes.{take, drop}
use Prim.Native.Nat.{max}
use foyer.Storage.Catalog.{Item, Catalog, inflight, region, insert}
use foyer.Storage.Catalog.Ordered.{Order}
use foyer.Storage.Device.{Disk, load}
use foyer.Storage.Entry.{read_entry}
use foyer.Storage.Buffer.{Machine}

pub record RegionEntryIter : Type 0 where
  pub region : ℕ
  pub cursor : ℕ

-- `&l[start..end]`
unfoldable pub slice : List ℕ → ℕ → ℕ → Option (List ℕ)
slice l start end =
    if leb start end && leb end (length l) then some (take (end - start) (drop start l)) else none

module _ (m : Machine) where
  -- A region without a header has no iterator.
  unfoldable pub open_region : ℕ → Disk → Option (Option RegionEntryIter)
  open_region r d = do
    valid ← read_region m.crates.bytes (load m.geometry.align r 0 d)
    some (if valid then some (record { region = r; cursor = m.geometry.align }) else none)

module _ {ℓ} {K V : Type ℓ} (m : Machine) (keys : Code K) (values : Code V) where
  -- The key between two addresses: from the block that was read, `block`, or read with its own
  -- blocks.
  unfoldable pub key_at :
      RegionEntryIter
      → EntryHeader
      → (block : List ℕ) → (abs_start abs_end : ℕ) → Disk
      → Option (Option K)
  key_at s h block abs_start abs_end d =
      let align_start = align_down m.geometry.align abs_start in
      let align_end = align_up m.geometry.align abs_end in
      if align_start == s.cursor - m.geometry.align && align_end == s.cursor
      then (do
        bytes ←
            slice block (serialized_len + h.value_len) (serialized_len + h.value_len + h.key_len)
        some (keys.read bytes))
      else (do
        bytes ←
            slice (load (align_end - align_start) s.region align_start d) (abs_start - align_start)
              (abs_end - align_start)
        some (keys.read bytes))

  -- The end of a turn: the item of the key, and the step to the next entry.
  unfoldable pub item_at :
      RegionEntryIter
      → EntryHeader
      → (entry_len : ℕ) → Option K
      → Option (K × Item K V) × RegionEntryIter
  item_at s h entry_len none = (none, s)
  item_at s h entry_len (some key) = (
    some (
      key,
      record {
        sequence = h.sequence;
        index =
            region (record { id = s.region; offset = s.cursor % 2 ^ 32; len = entry_len % 2 ^ 32 });
      },
    ),
    record s { cursor = s.cursor + entry_len },
  )

  -- The turn once the header is read; the lengths are added as words of 32 bits.
  unfoldable pub next_of :
      RegionEntryIter
      → EntryHeader
      → (block : List ℕ) → Disk
      → Option (Option (K × Item K V) × RegionEntryIter)
  next_of s h block d =
      let both = (h.value_len + h.key_len) % 2 ^ 32 in
      let abs_start = s.cursor + serialized_len + h.value_len in
      let abs_end = s.cursor + serialized_len + both in
      if leb abs_end abs_start || ltb m.geometry.region_size abs_end then some (none, s) else (do
        key ← key_at s h block abs_start abs_end d
        some (item_at s h (align_up m.geometry.align (both + serialized_len)) key))

  unfoldable pub next : RegionEntryIter → Disk → Option (Option (K × Item K V) × RegionEntryIter)
  next s d =
      if leb m.geometry.region_size (s.cursor + m.geometry.align) then some (none, s) else (do
        let block = load m.geometry.align s.region s.cursor d
        header ← read m.crates.bytes block
        (elim header [ none ↦ some (none, s) | some h ↦ next_of s h block d ]))

  -- The region that an item gives, with the place and the length of its entry there.
  unfoldable pub view_of : Item K V → Option (ℕ × ℕ)
  view_of item = elim item.index [
    | inflight _ _ ↦ none
    | region view ↦ some (view.offset, view.len)
  ]

  -- An item that is not on disk is a panic.
  unfoldable pub next_kv : RegionEntryIter → Disk → Option (Option (K × V) × RegionEntryIter)
  next_kv s d = do
    (found, s') ← next s d
    (elim found [
      | none ↦ some (none, s')
      | some pair ↦ (do
        (start, len) ← view_of pair.1
        kv ← read_entry m.crates keys values (load (start + len - start) s.region start d)
        some (kv, s'))
    ])

-- What the recovery of a region changes: the catalog and the queues of the region manager.
pub record Regions {ℓ} (K V : Type ℓ) : Type ℓ where
  pub catalog : Catalog K V
  pub clean_regions : List ℕ
  pub evictable : List ℕ

module _ {ℓ} {K V : Type ℓ} (order : Order K) (hash : K → ℕ) (m : Machine) (keys : Code K)
    (values : Code V) where
  -- The loop of `recover_region`, with the largest sequence so far; each turn that goes on moves
  -- the cursor.
  unfoldable pub walk :
      (fuel : ℕ) → RegionEntryIter → Disk → (sequence : ℕ) → Catalog K V → Option (ℕ × Catalog K V)
  walk zero s d sequence c = none
  walk (suc n) s d sequence c = do
    (found, s') ← next m keys values s d
    (elim found [
      | none ↦ some (sequence, c)
      | some pair ↦ (do
        c' ← insert order hash pair.0 pair.1 c
        walk n s' d (max sequence pair.1.sequence) c')
    ])

  unfoldable pub recover_region : ℕ → Disk → Regions K V → Option (Option ℕ × Regions K V)
  recover_region r d f = do
    opened ← open_region m r d
    (elim opened [
      | none ↦ some (none, record f { clean_regions = f.clean_regions ++ (r ∷ []) })
      | some s ↦ (do
        (sequence, c) ← walk m.geometry.region_size s d 0 f.catalog
        some (some sequence, record f { catalog = c; evictable = f.evictable ++ (r ∷ []) }))
    ])
