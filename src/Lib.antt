-- ===== src/Lib.antt =====
-- foyer: the hybrid cache of this repository. Modelled are its in-memory part, the linked list
-- under the eviction algorithms, the indices, the catalog, the flusher and the recovery of its disk
-- part, and two helpers, the bounds of ranges and batches.
--
-- The crate foyer-memory is a sharded in-memory cache. A shard (foyer-memory/src/generic.rs) joins
-- an indexer, which finds a handle by its key, and an eviction container, which picks the handle to
-- give up next. Handles live in boxes that are reused through an object pool, and count the
-- references that clients hold. The crate foyer-storage keeps entries on disk in regions; its
-- catalog (foyer-storage/src/catalog.rs) finds the item of a key, and gives up the items of a
-- region. The file indices.rs beside it is an index of the same kind that lib.rs of the crate does
-- not declare.
--
--   Prelude, Prelude/*       the names that every file shares, machine words and list lemmas
--   Memory/Handle            foyer-memory/src/handle.rs: `BaseHandle`
--   Memory/Queue             a list of pointers, as the algorithms see the intrusive `Dlist`
--   Memory/Eviction          foyer-memory/src/eviction/mod.rs: the trait `Eviction` and its contract
--   Memory/Eviction/Fifo     foyer-memory/src/eviction/fifo.rs
--   Memory/Eviction/Lru      foyer-memory/src/eviction/lru.rs
--   Memory/Eviction/S3Fifo   foyer-memory/src/eviction/s3fifo.rs
--   Memory/Eviction/Lfu      foyer-memory/src/eviction/lfu.rs
--   Memory/Indexer           foyer-memory/src/indexer.rs: the trait `Indexer` and its contract
--   Memory/Indexer/Table     foyer-memory/src/indexer.rs: `HashTableIndexer`
--   Memory/Shard             foyer-memory/src/generic.rs: `CacheShard`, and metrics.rs
--   Memory/Shard/Reference   foyer-memory/src/generic.rs: `GenericCacheEntry`
--   Memory/Cache             foyer-memory/src/generic.rs: `GenericCache`, its state and its waiters
--   Memory/Cache/Operations  foyer-memory/src/generic.rs: its methods, `GenericEntry`, the fetches
--   Memory/Cache/*           what the methods do to the waiters and the references, and the runs
--   Memory/Tests             concrete runs
--   Intrusive/Dlist          foyer-intrusive/src/collections/dlist.rs: `Dlist` and its links
--   Intrusive/Dlist/Iter     foyer-intrusive/src/collections/dlist.rs: iterators and operations
--   Intrusive/Dlist/*        when the links stand for a list, and that the operations keep to it
--   Intrusive/Tests          concrete runs
--   Storage/Indices          foyer-storage/src/indices.rs: `Indices`
--   Storage/Catalog          foyer-storage/src/catalog.rs: `Catalog`, with its laws
--   Storage/Format           foyer-storage/src/generic.rs, region.rs, compress.rs and
--                            foyer-common/src/bits.rs: headers, compressions, alignment
--   Storage/Entry            foyer-storage/src/buffer.rs and generic.rs: an entry and its bytes
--   Storage/Device           the bytes of a device
--   Storage/Buffer           foyer-storage/src/buffer.rs: `FlushBuffer`
--   Storage/Buffer/*         the bytes of the entries that wait, and what the operations do
--   Storage/Flusher          foyer-storage/src/flusher.rs: `Flusher::handle`, with its laws
--   Storage/Recovery         foyer-storage/src/generic.rs: `RegionEntryIter` and `recover_region`
--   Storage/Tests            concrete runs
--   Common/Range             foyer-common/src/range.rs: `RangeBoundsExt` over `usize`
--   Common/Batch             foyer-common/src/batch.rs: `Batch`
--   Common/Tests             concrete runs
--
-- A pointer to a handle is a number, and the memory is a function from pointers to handles. An
-- operation takes the state and the memory and returns both; a panic, an `assert!` or undefined
-- behaviour of the code is `none`. Of the debug assertions, those of the flush buffer (but for the
-- capacity of its vector) and of `S3Fifo::pop` are part of the model; those about the flags, links
-- and entries of single handles are left out where the code goes on without them. The generic
-- parameters of `CacheShard` are records: of the operations (`Eviction`, `Indexer`, `ObjectPool`)
-- and of the laws that the shard uses (`EvictionLaws`, `IndexerLaws`, `ObjectPoolLaws`). The lock
-- of a shard makes each operation one step. Numbers of the type `usize` wrap at 2 ^ 64. The
-- assertion of `S3Fifo::pop` fails in states that a shard reaches, so `pop` has a parameter that
-- tells whether the build has debug assertions, and the contract is proved for a build without.
--
-- `GenericCache` keeps what its shards share beside them, and what it does to the world: the calls
-- of the listener, the messages in the channels, the fetches that were spawned. Whether a receiver
-- is still there is an argument of the operations that send. The end of a fetch is a step of its
-- own, between any two calls. A task whose future panics has no step.
--
-- A link of a `Dlist` is a number, and the memory of the links is shared by all lists.
--
-- A disk is a function from regions and addresses to bytes, and is a part of the buffer that writes
-- to it. A write of the device tells whether it succeeded. Bytes that the code shows without having
-- written them are arbitrary. The flusher takes one entry at a time; when no region is clean, it
-- waits, which is a result of its own. A region has less than 2 ^ 63 bytes, since its addresses are
-- offsets of a file. The recovery of a region has as many turns as the region has bytes, since each
-- turn that goes on moves the cursor; the reads of a recovery succeed.
--
-- Loops that walk a queue recurse on it. The loop of `CacheShard::evict` has one round of fuel
-- more than the container has handles, since each round that goes on takes one out; the loop of
-- `S3Fifo::evict_main` has the sum of the frequencies and one more, since each round that goes on
-- takes one from a frequency.
--
-- Parameters, since they are not code of this repository: the hash table of hashbrown, the sketch
-- of cmsketch, the queue of crossbeam behind the object pool, the hash function and the keys'
-- equality, the crate bytes, the compressions of zstd and lz4, the checksum, and the writes of the
-- device. Capacities that the code scales by a floating point ratio are scaled by any function.
--
-- Not modelled: the facade cache.rs, which only chooses an algorithm; the rest of foyer-storage, of
-- foyer-common and of foyer-intrusive; the crate foyer-experimental; benchmarks.
pub mod Prelude
pub mod Memory
pub mod Storage
pub mod Common
pub mod Intrusive
