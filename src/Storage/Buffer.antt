-- ===== src/Storage/Buffer.antt =====
-- foyer-storage/src/buffer.rs: `FlushBuffer`, which gathers entries and writes them to a region.
-- The device that it holds is a part of its state here. `none` is a failed `debug_assert!` or a
-- slice out of range. The capacity of the buffer, which grows as needed, is left out.
pub mod Align
pub mod Placed
pub mod Flush
pub mod Write
use foyer.Prelude.{
  wrapping_add, ℕ, ◌+◌, ◌-◌, Bool, ◌||◌, Option, none, some, List, [], ◌∷◌, ◌++◌, ltb, leb, ◌==◌,
  if◌then◌else◌, ◌>>=◌, length,
}
use foyer.Storage.Format.{align_up, is_aligned, write_region}
use foyer.Storage.Format.Bytes.{fill}
use foyer.Storage.Device.{Disk, Geometry}
use foyer.Storage.Entry.{Entry, Crates, encode}
use foyer.Storage.Format.{Code}

pub record PositionedEntry {ℓ} (K V : Type ℓ) : Type ℓ where
  pub entry : Entry K V
  pub region : ℕ
  pub offset : ℕ
  pub len : ℕ

pub record FlushBuffer {ℓ} (K V : Type ℓ) : Type ℓ where
  pub buffer : List ℕ
  pub region : Option ℕ
  pub offset : ℕ
  pub entries : List (PositionedEntry K V)
  pub disk : Disk

-- The results, an error of the device among them.
pub data Outcome {ℓ} (K V : Type ℓ) : Type ℓ where
  flushed : List (PositionedEntry K V) → Outcome K V
  need_rotate : Entry K V → Outcome K V
  device_error : Outcome K V

-- A write of a device tells if it succeeded; the operating system does the rest. The bytes that
-- `set_len` shows without writing them are `junk`.
pub record Machine : Type 0 where
  pub geometry : Geometry
  pub crates : Crates
  pub device_write : List ℕ → ℕ → ℕ → Disk → Bool × Disk
  pub junk : ℕ → ℕ

module _ {ℓ} {K V : Type ℓ} (m : Machine) (keys : Code K) (values : Code V) where
  unfoldable pub new : Disk → FlushBuffer K V
  new disk = record { buffer = []; region = none; offset = 0; entries = []; disk = disk }

  unfoldable pub remaining : FlushBuffer K V → ℕ
  remaining s = elim s.region [
    | none ↦ 0
    | some _ ↦ m.geometry.region_size - wrapping_add s.offset (length s.buffer)
  ]

  -- The turn of `flush` when the buffer has a region.
  unfoldable pub flush_to : (region : ℕ) → FlushBuffer K V → Option (FlushBuffer K V × Outcome K V)
  flush_to region s =
      let len = align_up m.geometry.align (length s.buffer) in
      let (ok, disk) =
        m.device_write (s.buffer ++ fill m.junk (len - length s.buffer)) region s.offset s.disk in
      if leb (wrapping_add s.offset len) m.geometry.region_size
      then some (
          if ok
          then (
            record {
              buffer = [];
              region =
                  (if wrapping_add s.offset len == m.geometry.region_size
                    then none
                    else some region);
              offset = wrapping_add s.offset len;
              entries = [];
              disk = disk;
            },
            flushed s.entries,
          )
          else (record s { buffer = []; disk = disk }, device_error))
      else none

  unfoldable pub flush : FlushBuffer K V → Option (FlushBuffer K V × Outcome K V)
  flush s = elim s.region [
    | none ↦ elim s.entries [ [] ↦ some (s, flushed []) | _ ∷ _ ↦ none ]
    | some region ↦ flush_to region s
  ]

  -- The new region starts with its header.
  unfoldable pub start : ℕ → FlushBuffer K V → Option (FlushBuffer K V)
  start region s =
      let header = write_region m.crates.bytes in
      elim s.buffer [
        | [] ↦
            if leb (length header) m.geometry.align
            then some (record s {
              buffer = header ++ fill m.junk (m.geometry.align - length header);
              region = some region;
              offset = 0;
            })
            else none
        | _ ∷ _ ↦ none
      ]

  unfoldable pub rotate : ℕ → FlushBuffer K V → Option (FlushBuffer K V × Outcome K V)
  rotate region s = do
    (s1, outcome) ← flush s
    (elim outcome [
      | flushed entries ↦ (do s2 ← start region s1; some (s2, flushed entries))
      | need_rotate e ↦ some (s1, need_rotate e)
      | device_error ↦ some (s1, device_error)
    ])

  -- The buffer with an entry behind the bytes it has, filled up to the next block.
  unfoldable pub put : (region : ℕ) → Entry K V → FlushBuffer K V → FlushBuffer K V
  put region e s =
      let full = s.buffer ++ encode m.crates keys values e in
      let target = align_up m.geometry.align (length full) in
      record s {
        buffer = full ++ fill m.junk (target - length full);
        entries =
            s.entries
            ++ (record {
              entry = e;
              region = region;
              offset = wrapping_add s.offset (length s.buffer);
              len = target - length s.buffer;
            }
                ∷ []);
      }

  unfoldable pub flush_if_full : FlushBuffer K V → Option (FlushBuffer K V × Outcome K V)
  flush_if_full s =
      if leb m.geometry.io_size (length s.buffer) || remaining s == 0
      then flush s
      else some (s, flushed [])

  unfoldable pub write : Entry K V → FlushBuffer K V → Option (FlushBuffer K V × Outcome K V)
  write e s = elim s.region [
    | none ↦ some (s, need_rotate e)
    | some region ↦
        if is_aligned m.geometry.align (length s.buffer)
        then (if ltb m.geometry.region_size
              (wrapping_add s.offset (length (s.buffer ++ encode m.crates keys values e)))
            then some (s, need_rotate e)
            else flush_if_full (put region e s))
        else none
  ]
