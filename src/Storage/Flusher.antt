-- ===== src/Storage/Flusher.antt =====
-- foyer-storage/src/flusher.rs: `Flusher`, which writes entries and puts their places in the
-- catalog. Of the region manager it has the queue of the clean regions and the regions that it
-- gives to the eviction policy. Locks and metrics are left out. `none` is a panic.
pub mod Laws
pub mod Rotation
use foyer.Prelude.{ℕ, ◌+◌, ◌%◌, ◌^◌, Option, none, some, List, [], ◌∷◌, ◌++◌, ◌>>=◌}
use foyer.Storage.Format.{Code}
use foyer.Storage.Catalog.{Catalog, Item, region, insert}
use foyer.Storage.Catalog.Ordered.{Order}
use foyer.Storage.Entry.{Entry}
use foyer.Storage.Buffer.{
  PositionedEntry, FlushBuffer, flushed, need_rotate, device_error, Machine, rotate, write,
}

pub record Flusher {ℓ} (K V : Type ℓ) : Type ℓ where
  pub buffer : FlushBuffer K V
  pub catalog : Catalog K V
  pub clean_regions : List ℕ
  pub evictable : List ℕ

-- `handle` returns, fails with the device, or waits for a clean region.
pub data Progress : Type 0 where
  finished failed waits : Progress

module _ {ℓ} {K V : Type ℓ} where
  -- `as u32` keeps the low 32 bits.
  unfoldable pub item_of : PositionedEntry K V → Item K V
  item_of p = record {
    sequence = p.entry.sequence;
    index = region (record { id = p.region; offset = p.offset % 2 ^ 32; len = p.len % 2 ^ 32 });
  }

module _ {ℓ} {K V : Type ℓ} (order : Order K) (hash : K → ℕ) where
  unfoldable pub update_catalog : List (PositionedEntry K V) → Catalog K V → Option (Catalog K V)
  update_catalog [] c = some c
  update_catalog (p ∷ entries) c = do
    c' ← insert order hash p.entry.key (item_of p) c
    update_catalog entries c'

-- `self.region_manager.eviction_push(old_region)`
unfoldable pub eviction_push : Option ℕ → List ℕ → List ℕ
eviction_push none l = l
eviction_push (some r) l = l ++ (r ∷ [])

module _ {ℓ} {K V : Type ℓ} (order : Order K) (hash : K → ℕ) (m : Machine) (keys : Code K)
    (values : Code V) where
  -- The second write, to a buffer that was just rotated.
  unfoldable pub retry : Entry K V → Flusher K V → Option (Flusher K V × Progress)
  retry e f = do
    (buffer, outcome) ← write m keys values e f.buffer
    (elim outcome [
      | flushed entries ↦ (do
        c ← update_catalog order hash entries f.catalog
        some (record f { buffer = buffer; catalog = c }, finished))
      | need_rotate _ ↦ none
      | device_error ↦ some (record f { buffer = buffer }, failed)
    ])

  -- The rotation to a clean region `r`.
  unfoldable pub rotate_and_retry :
      ℕ → Option ℕ → Entry K V → Flusher K V → Option (Flusher K V × Progress)
  rotate_and_retry r old e f = do
    (buffer, outcome) ← rotate m keys values r f.buffer
    (elim outcome [
      | flushed entries ↦ (do
        c ← update_catalog order hash entries f.catalog
        retry e
            (record f { buffer = buffer; catalog = c; evictable = eviction_push old f.evictable }))
      | need_rotate _ ↦ some (record f { buffer = buffer }, failed)
      | device_error ↦ some (record f { buffer = buffer }, failed)
    ])

  unfoldable pub handle : Entry K V → Flusher K V → Option (Flusher K V × Progress)
  handle e f = do
    (buffer, outcome) ← write m keys values e f.buffer
    (elim outcome [
      | flushed entries ↦ (do
        c ← update_catalog order hash entries f.catalog
        some (record f { buffer = buffer; catalog = c }, finished))
      | need_rotate e' ↦ elim f.clean_regions [
        | [] ↦ some (record f { buffer = buffer }, waits)
        | r ∷ rest ↦
            rotate_and_retry r f.buffer.region e'
              (record f { buffer = buffer; clean_regions = rest })
      ]
      | device_error ↦ some (record f { buffer = buffer }, failed)
    ])
