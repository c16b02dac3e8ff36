-- ===== src/Storage/Flusher/Rotation.antt =====
-- foyer-storage/src/flusher.rs: the rotation of `handle`, and the whole of it.
use foyer.Prelude.{ℕ, Option, some, List, [], ◌∷◌}
use foyer.Storage.Format.{Code}
use foyer.Storage.Catalog.Ordered.{Order}
use foyer.Storage.Entry.{Entry}
use foyer.Storage.Buffer.{Machine}
use foyer.Storage.Buffer.Flush.{MachineLaws}
use foyer.Storage.Flusher.{Flusher, Progress, waits, rotate_and_retry}

module _ {ℓ} {K V : Type ℓ} (order : Order K) (hash : K → ℕ) (m : Machine) (laws : MachineLaws m)
    (keys : Code K) (values : Code V) where
  -- What `handle` does once the buffer returned the entry, by the clean regions.
  turned : Entry K V → Flusher K V → List ℕ → Option (Flusher K V × Progress)
  turned e f l = elim l [
    | [] ↦ some (f, waits)
    | r ∷ rest ↦
        rotate_and_retry order hash m keys values r f.buffer.region e
          (record f { clean_regions = rest })
  ]
