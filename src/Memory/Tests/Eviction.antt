-- ===== src/Memory/Tests/Eviction.antt =====
-- Runs of the algorithms of foyer-memory/src/eviction and of the indexer.
use foyer.Prelude.{
  ℕ, ◌/◌, ◌≡◌, refl, ◌↔◌, Bool, true, ◌||◌, Option, some, List, [], ◌∷◌, arith, ◌==◌, if◌then◌else◌,
  contains, sum_by,
}
use foyer.Memory.Handle.{BaseHandleFlags, in_eviction, charge_of}
use foyer.Memory.Eviction.{EvictionLaws}
use foyer.Memory.Eviction.Fifo.{FifoContext, FifoOwn, FifoMemory, fifo_own, fifo_context}
use foyer.Memory.Eviction.Fifo.Laws as FifoLaws
use foyer.Memory.Eviction.Lru.{Lru, LruMemory, high_priority}
use foyer.Memory.Eviction.Lru.Push as LruPush
use foyer.Memory.Eviction.Lru.Laws as LruLaws
use foyer.Memory.Eviction.S3Fifo.{S3Fifo, S3FifoMemory, s3fifo_context, small, no_queue}
use foyer.Memory.Eviction.S3Fifo as S3FifoCode
use foyer.Memory.Eviction.S3Fifo.Evict as S3FifoEvict
use foyer.Memory.Eviction.S3Fifo.Counters as Counters
use foyer.Memory.Eviction.S3Fifo.Stuck as Stuck
use foyer.Memory.Eviction.S3Fifo.Laws as S3FifoLaws
use foyer.Memory.Indexer.{IndexerLaws}
use foyer.Memory.Indexer.Table.Laws as TableLaws
use foyer.Memory.Tests.{keys, slots, slots_laws, count}

fifo-EvictionLaws_example : EvictionLaws (FifoLaws.fifo {K = ℕ} {V = ℕ}) FifoLaws.IsWf
fifo-EvictionLaws_example = FifoLaws.fifo-EvictionLaws

-- A quarter of the capacity for the small queue, or for the high priority pool.
abbrev quarter : ℕ → ℕ
quarter c = c / 4

lru-EvictionLaws_example : EvictionLaws (LruLaws.lru {K = ℕ} {V = ℕ} true quarter) LruPush.IsWf
lru-EvictionLaws_example = LruLaws.lru-EvictionLaws true quarter

s3fifo-EvictionLaws_example :
    EvictionLaws (S3FifoLaws.s3fifo {K = ℕ} {V = ℕ} quarter) S3FifoEvict.IsWf
s3fifo-EvictionLaws_example = S3FifoLaws.s3fifo-EvictionLaws quarter

table-IndexerLaws_example :
    IndexerLaws keys
      (TableLaws.table_indexer {K = ℕ} {V = ℕ} {C = FifoContext} {X = FifoOwn} keys slots count
        slots_laws)
      (TableLaws.IsIndexed keys slots count slots_laws)
table-IndexerLaws_example = TableLaws.table-IndexerLaws keys slots count slots_laws

-- Handles 0 and 1 with charge 3 each; the container has the first.
abbrev flags_of : Bool → BaseHandleFlags
flags_of on = record { in_indexer = true; in_eviction = on }

abbrev fifo_memory : FifoMemory ℕ ℕ
fifo_memory q = record {
  base = record {
    entry = some (q, q, fifo_context);
    hash = q;
    charge = 3;
    refs = 0;
    flags = flags_of (q == 0);
  };
  own = fifo_own;
}

abbrev lru_memory : LruMemory ℕ ℕ
lru_memory q = record {
  base = record {
    entry = some (q, q, high_priority);
    hash = q;
    charge = 3;
    refs = 0;
    flags = flags_of (q == 0);
  };
  own = record { in_high_priority_pool = q == 0 };
}

abbrev lru_state : Lru
lru_state = record {
  high_priority_list = 0 ∷ [];
  list = [];
  high_priority_charges = 3;
  high_priority_charges_capacity = 4;
}

lru_state-IsWf : LruPush.IsWf lru_state lru_memory
unfolding contains sum_by
lru_state-IsWf = record {
  high = λ q. ground arith;
  low = λ q. ground arith;
  high_distinct = (refl, _);
  low_distinct = _;
  charges = omega arith;
  small = λ q a. omega arith;
}

abbrev s3fifo_memory : S3FifoMemory ℕ ℕ
s3fifo_memory q = record {
  base = record {
    entry = some (q, q, s3fifo_context);
    hash = q;
    charge = 3;
    refs = 0;
    flags = flags_of (q == 0 || q == 1);
  };
  own = record {
    freq = if q == 0 then 2 else 0;
    queue = if q == 0 || q == 1 then small else no_queue;
  };
}

abbrev s3fifo_state : S3Fifo
s3fifo_state = record {
  small_queue = 0 ∷ 1 ∷ [];
  main_queue = [];
  small_capacity = 1;
  small_charges = 6;
  main_charges = 0;
}

s3fifo_state-IsWf : S3FifoEvict.IsWf s3fifo_state s3fifo_memory
unfolding contains
s3fifo_state-IsWf = record {
  in_small = λ q. ground arith;
  in_main = λ q. ground arith;
  placed = λ q h. ground arith;
  small_distinct = (refl, (refl, _));
  main_distinct = _;
  freqs = λ q. ground arith;
}

-- The handle 0 was accessed twice and goes to the main queue; the handle 1 is evicted.
evict_lem_example :
    (r : Option ℕ × S3Fifo × S3FifoMemory ℕ ℕ) × (S3FifoCode.evict s3fifo_state s3fifo_memory
      ≡ some r)
    × S3FifoEvict.Evicts (in_eviction s3fifo_memory) (S3FifoCode.len s3fifo_state) s3fifo_memory r
evict_lem_example =
    S3FifoEvict.evict_lem (in_eviction s3fifo_memory) s3fifo_state s3fifo_memory s3fifo_state-IsWf

s3fifo_state-IsCounted : Counters.IsCounted (charge_of s3fifo_memory) s3fifo_state
unfolding contains sum_by
s3fifo_state-IsCounted = record {
  in_small = omega arith;
  in_main = omega arith;
  words = λ q h. omega arith;
}

clear-IsCounted_iff_example :
    (ps : List ℕ) × (s' : S3Fifo) × (m' : S3FifoMemory ℕ ℕ) × (S3FifoCode.clear s3fifo_state
        s3fifo_memory
      ≡ some (ps, s', m'))
    × (S3FifoCode.len s' ≡ 0)
    × (Counters.IsCounted (charge_of s3fifo_memory) s'
        ↔ ((s3fifo_state.small_charges ≡ 0) × (s3fifo_state.main_charges ≡ 0)))
clear-IsCounted_iff_example = Counters.clear-IsCounted_iff s3fifo_state s3fifo_memory

-- Both handles fit into a small queue with a capacity of 8.
abbrev roomy_state : S3Fifo
roomy_state = record {
  small_queue = 0 ∷ 1 ∷ [];
  main_queue = [];
  small_capacity = 8;
  small_charges = 6;
  main_charges = 0;
}
