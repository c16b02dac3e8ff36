-- ===== src/Memory/Tests/Cache.antt =====
-- Runs of `GenericCache` of foyer-memory/src/generic.rs, over the FIFO algorithm.
use foyer.Prelude.{
  ℕ, suc, ◌≡◌, refl, Bool, none, some, List, [], ◌∷◌, arith, ◌==◌, wrapping_add, contains,
}
use foyer.Memory.Handle.{new_base}
use foyer.Memory.Eviction.Fifo as Fifo
use foyer.Memory.Eviction.Fifo.{Fifo, FifoContext, FifoOwn, fifo_context, fifo_own}
use foyer.Memory.Shard
use foyer.Memory.Indexer.Table
use foyer.Memory.Shard.{Shard, Metrics, Entry}
use foyer.Memory.Cache.{
  Slot, GenericCache, miss, slot_at, set_slot, find, delete, view, put, index, lock,
}
use foyer.Memory.Cache.Operations.{
  new, new_slots, of_slots, insert_with_context, waiting, entry, entry_at, request, finish, fail,
  end_task, without_task,
}
use foyer.Memory.Cache.Calls.{waiters_of, ask}
use foyer.Memory.Cache.Serve.{Holds, count_receiving, insert_with_context-Serves}
use foyer.Memory.Cache.Fetches.{Fetched}
use foyer.Memory.Cache.Runs.{requests, start, after, Reachable-Fetched}
use foyer.Memory.Cache.Finish.{Ends, finish-Answers}
use foyer.Memory.Tests.{keys, Slots}
use foyer.Memory.Tests.Shard.{parts, no_metrics, one_item, one_item-IsValid}

abbrev TestCache : Type 0
TestCache = GenericCache ℕ ℕ FifoContext FifoOwn Slots Fifo (List ℕ)

-- The item with the key 1 is in the cache; 7 and 8 wait for the key 2.
abbrev one_slot : Slot ℕ Slots Fifo
one_slot = record {
  indexer = (one_item 0).indexer;
  eviction = (one_item 0).eviction;
  capacity = 4;
  usage = 3;
  waiters = (2, 7 ∷ 8 ∷ []) ∷ [];
}

abbrev one_cache : TestCache
one_cache = record {
  shards = one_slot ∷ [];
  capacity = 4;
  memory = (one_item 0).memory;
  next = 1;
  object_pool = [];
  metrics = no_metrics;
  heard = [];
  delivered = [];
  broken = [];
  tasks = (0, 2) ∷ [];
  next_channel = 9;
  next_task = 1;
}

-- The receiver of 8 is gone.
abbrev only_seven : ℕ → Bool
only_seven tx = tx == 7

insert_with_context-Serves_example :
    (p : ℕ) × (c' : TestCache) × (insert_with_context keys parts.e parts.i parts.o only_seven 2 20 3
        fifo_context one_cache
      ≡ some (p, c'))
    × Holds parts 2 20 fifo_context p
        (suc (count_receiving only_seven (waiting (waiters_of keys 2 one_cache))))
        c'
    × ((slot' : Slot ℕ Slots Fifo) × (c'.shards ≡ slot' ∷ [])
        × (parts.i.get 2 2 slot'.indexer c'.memory ≡ some p))
unfolding view waiters_of ask lock slot_at find index
insert_with_context-Serves_example =
    insert_with_context-Serves parts only_seven 2 20 3 fifo_context one_slot one_cache refl
      (one_item-IsValid 0) (omega arith) (omega arith)

two_refs : suc (count_receiving only_seven (waiting (waiters_of keys 2 one_cache))) ≡ 2
unfolding waiters_of ask lock slot_at find index count_receiving
two_refs = refl

-- The fetch of the key 2 fails.
abbrev failed : TestCache
failed = record one_cache {
  shards = record one_slot { waiters = [] } ∷ [];
  broken = 7 ∷ 8 ∷ [];
  tasks = [];
}

finish-Answers_example : Ends keys parts.e parts.i parts.o 2 7 none none failed
unfolding finish fail end_task without_task lock index slot_at set_slot put view find delete
    waiters_of ask contains
finish-Answers_example =
    finish-Answers keys parts.e parts.i parts.o only_seven 0 2 none none one_cache failed 7 refl
      refl refl

-- A new cache of one shard, and then a request for the key 2.
abbrev asked_cache : TestCache
asked_cache = record {
  shards =
      record {
        indexer = [];
        eviction = record { queue = [] };
        capacity = 10;
        usage = 0;
        waiters = (2, []) ∷ [];
      }
      ∷ [];
  capacity = 10;
  memory = λ q. record { base = new_base; own = fifo_own };
  next = 0;
  object_pool = [];
  metrics = record no_metrics { miss = 1; fetch = 1 };
  heard = [];
  delivered = [];
  broken = [];
  tasks = (0, 2) ∷ [];
  next_channel = 0;
  next_task = 1;
}

abbrev new_cache : TestCache
new_cache = record asked_cache {
  shards =
      record {
        indexer = [];
        eviction = record { queue = [] };
        capacity = 10;
        usage = 0;
        waiters = [];
      }
      ∷ [];
  metrics = no_metrics;
  tasks = [];
  next_task = 0;
}

makes : new keys parts.e parts.i parts.o 10 1 [] no_metrics ≡ some new_cache
unfolding new new_slots of_slots Shard.new Fifo.new
makes = refl

asks : entry keys parts.e parts.i parts.o 2 new_cache ≡ some (miss 0, asked_cache)
unfolding entry entry_at request Shard.get Shard.get_at lock index slot_at set_slot put view find
    wrapping_add Table.get
asks = refl

Reachable-Fetched_example : Fetched keys asked_cache
Reachable-Fetched_example =
    Reachable-Fetched keys parts.e parts.i parts.o asked_cache
      (after (start 10 1 [] no_metrics makes) (requests 2 (miss 0) asks))
