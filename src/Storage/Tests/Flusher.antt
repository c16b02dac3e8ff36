-- ===== src/Storage/Tests/Flusher.antt =====
-- A run of the flusher.
use foyer.Prelude.{ℕ, List, [], ◌∷◌}
use foyer.Prelude.{none-ne-some}
use foyer.Storage.Catalog
use foyer.Storage.Catalog.{Catalog, lookup, shard}
use foyer.Storage.Catalog.Laws.{Covered}
use foyer.Storage.Catalog.Ordered
use foyer.Storage.Flusher.{Flusher}
use foyer.Storage.Tests.Catalog.{numbers, same_hash}
use foyer.Storage.Tests.Entry.{empty}

abbrev pub empty_catalog : Catalog ℕ (List ℕ)
empty_catalog = Catalog.new 4 1

pub empty_catalog-Covered : Covered numbers same_hash empty_catalog
unfolding lookup shard Catalog.new Ordered.get
empty_catalog-Covered k item r is on = absurd (none-ne-some is)

-- The first two regions are clean.
abbrev flusher : Flusher ℕ (List ℕ)
flusher = record {
  buffer = empty;
  catalog = empty_catalog;
  clean_regions = 0 ∷ 1 ∷ [];
  evictable = [];
}
