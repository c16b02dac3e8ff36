-- ===== src/Storage/Tests/Recovery.antt =====
-- The recovery of a region.
use foyer.Prelude.{ℕ, ◌≡◌, refl, true, some, List, [], ◌∷◌, ◌++◌, arith}
use foyer.Storage.Format.{write_region, read_region}
use foyer.Storage.Format.Bytes.{fill}
use foyer.Storage.Catalog
use foyer.Storage.Catalog.{Catalog, lookup, shard}
use foyer.Storage.Device.{Disk, write_at, load}
use foyer.Storage.Entry.{Entry, encode}
use foyer.Storage.Buffer.{Machine}
use foyer.Storage.Buffer.Flush.{MachineLaws}
use foyer.Storage.Flusher.{update_catalog}
use foyer.Storage.Flusher.Laws.{Knows}
use foyer.Storage.Recovery.{RegionEntryIter, Regions, next, next_kv, recover_region}
use foyer.Storage.Recovery.Next.{IsAt, next_kv-Reads}
use foyer.Storage.Recovery.Region.{Chain, ends, follows, places, recover_region-Recovers}
use foyer.Storage.Tests.Catalog.{numbers, same_hash}
use foyer.Storage.Tests.Entry.{number, bytes, entry, entry-IsSmall, crates, crates-CratesLaws}
use foyer.Storage.Tests.Flusher.{empty_catalog, empty_catalog-Covered}

-- Regions of four blocks.
abbrev larger : Machine
larger = record {
  geometry = record { align = 64; io_size = 128; region_size = 256; regions = 4 };
  crates = crates;
  device_write = λ buf r o d. (true, write_at buf r o d);
  junk = λ n. 255;
}

larger-MachineLaws : MachineLaws larger
larger-MachineLaws = record {
  crates = crates-CratesLaws;
  header = omega arith;
  block = omega arith;
  addresses = omega arith;
  blocks = refl;
  written = λ buf r o d e. refl;
}

-- The region 3 has its header and one entry.
abbrev disk : Disk
disk =
    write_at (write_region crates.bytes) 3 0
      (write_at (encode crates number bytes entry ++ fill (λ n. 255) 31) 3 64 (λ r a. 0))

abbrev at_entry : RegionEntryIter
at_entry = record { region = 3; cursor = 64 }

disk-IsAt : IsAt larger number bytes entry at_entry disk
unfolding load write_at encode foyer.Storage.Entry.header_of foyer.Storage.Entry.value_bytes
    foyer.Storage.Entry.compress foyer.Storage.Format.write foyer.Storage.Format.to_u8
    foyer.Storage.Format.align_up foyer.Prelude.wrapping_sub foyer.Prelude.wrapping_add write_region
    fill
disk-IsAt = record {
  padding = fill (λ n. 255) 31;
  bytes = refl;
  size = refl;
  at_block = refl;
  behind_header = omega arith;
  before_last = omega arith;
  room = omega arith;
  small = entry-IsSmall;
  sum = omega arith;
  has_key = omega arith;
}

disk-Chain : Chain larger larger-MachineLaws number bytes disk (entry ∷ []) at_entry
unfolding next load write_at encode foyer.Storage.Entry.header_of foyer.Storage.Entry.value_bytes
    foyer.Storage.Entry.compress foyer.Storage.Format.write foyer.Storage.Format.to_u8
    foyer.Storage.Format.align_up foyer.Prelude.wrapping_sub foyer.Prelude.wrapping_add write_region
    fill foyer.Storage.Format.read foyer.Storage.Format.read_tag
disk-Chain = follows disk-IsAt (ends refl)

disk_header : read_region crates.bytes (load 64 3 0 disk) ≡ some true
unfolding load write_at encode foyer.Storage.Entry.header_of foyer.Storage.Entry.value_bytes
    foyer.Storage.Entry.compress foyer.Storage.Format.write foyer.Storage.Format.to_u8 write_region
    fill read_region
disk_header = refl

abbrev regions : Regions ℕ (List ℕ)
regions = record { catalog = empty_catalog; clean_regions = []; evictable = [] }

recover_region-Recovers_example :
    (c : Catalog ℕ (List ℕ)) × (update_catalog numbers same_hash
        (places larger larger-MachineLaws number bytes (entry ∷ []) at_entry)
        empty_catalog
      ≡ some c)
    × (recover_region numbers same_hash larger number bytes 3 disk regions
        ≡ some (some 5, record regions { catalog = c; evictable = 3 ∷ [] }))
    × Knows numbers same_hash 4 c
unfolding Catalog.new
recover_region-Recovers_example =
    recover_region-Recovers larger larger-MachineLaws number bytes numbers same_hash 3 disk regions
      (entry ∷ []) disk_header disk-Chain (omega arith)
      (record { covered = empty_catalog-Covered; count_of = refl }) (omega arith)

next_kv-Reads_example :
    next_kv larger number bytes at_entry disk
    ≡ some (some (7, 1 ∷ 2 ∷ 3 ∷ []), record { region = 3; cursor = 128 })
unfolding encode foyer.Storage.Entry.header_of foyer.Storage.Entry.value_bytes
    foyer.Storage.Entry.compress foyer.Storage.Format.write foyer.Storage.Format.align_up
    foyer.Prelude.wrapping_sub foyer.Prelude.wrapping_add
next_kv-Reads_example =
    next_kv-Reads larger larger-MachineLaws number bytes entry at_entry disk disk-IsAt (omega arith)
      (omega arith) (omega arith)
