-- ===== src/Memory/Tests/Shard.antt =====
-- Runs of the cache shard of foyer-memory/src/generic.rs, over the FIFO algorithm.
use foyer.Prelude.{
  ℕ, ◌≡◌, refl, sym, ◌∙◌, inl, inr, true, false, Option, none, some, List, [], ◌∷◌, arith, ◌==◌,
  if◌then◌else◌, Bool-cases, contains,
}
use foyer.Memory.Handle.{BaseHandle, no_flags, in_eviction, in_indexer, is_inited, key}
use foyer.Memory.Eviction.Fifo.{Fifo, FifoContext, FifoOwn, fifo_context, fifo_own}
use foyer.Memory.Eviction.Fifo.Laws.{fifo, fifo-EvictionLaws}
use foyer.Memory.Eviction.Fifo.Laws as FifoLaws
use foyer.Memory.Indexer.Table.Laws.{table_indexer, table-IndexerLaws, IsIndexed}
use foyer.Memory.Shard.{
  Shard, Metrics, Entry, insert, get, remove, clear, evict, try_release_handle,
  try_release_external_handle,
}
use foyer.Memory.Shard.Invariant.{Parts, Inv, IsValid}
use foyer.Memory.Shard.Release.{
  Releases, Drops, try_release_handle-Releases, try_release_external_handle-Drops,
}
use foyer.Memory.Shard.Evict.{Evicts, evict-Evicts}
use foyer.Memory.Shard.Insert.{Inserts, insert-Inserts}
use foyer.Memory.Shard.Lookup.{Gets, get-Gets, Removes, remove-Removes}
use foyer.Memory.Shard.{new}
use foyer.Memory.Shard.Reference.{refs_of, clone, drop_reference, clone-drop_reference}
use foyer.Prelude.{◌>>=◌}
use foyer.Memory.Shard.Create.{new-IsValid}
use foyer.Memory.Eviction.Fifo as Fifo
use foyer.Memory.Shard.Clear.{clear-IsValid}
use foyer.Memory.Shard.Sum.{sum_below}
use foyer.Memory.Tests.{keys, Slots, slots, slots_laws, count, boxes, boxes_laws, occurrences}

abbrev pub TestShard : Type 0
TestShard = Shard ℕ ℕ FifoContext FifoOwn Slots Fifo (List ℕ)

abbrev pub parts : Parts ℕ ℕ FifoContext FifoOwn Slots Fifo (List ℕ)
parts = record {
  keys = keys;
  e = fifo;
  IsEvictable = FifoLaws.IsWf;
  eviction_laws = fifo-EvictionLaws;
  i = table_indexer keys slots count slots_laws;
  IsIndexed = IsIndexed keys slots count slots_laws;
  indexer_laws = table-IndexerLaws keys slots count slots_laws;
  o = boxes;
  count = occurrences;
  pool_laws = boxes_laws;
}

abbrev pub no_metrics : Metrics
no_metrics = record {
  insert = 0;
  replace = 0;
  hit = 0;
  miss = 0;
  fetch = 0;
  queue = 0;
  remove = 0;
  evict = 0;
  reinsert = 0;
  release = 0;
}

abbrev pub no_base : BaseHandle ℕ ℕ FifoContext
no_base = record { entry = none; hash = 0; charge = 0; refs = 0; flags = no_flags }

-- One item with key 1, value 10 and charge 3 is in the cache, under the pointer 0.
abbrev pub item : ℕ → BaseHandle ℕ ℕ FifoContext
item refs = record {
  entry = some (1, 10, fifo_context);
  hash = 1;
  charge = 3;
  refs = refs;
  flags = record { in_indexer = true; in_eviction = true };
}

abbrev pub one_item : ℕ → TestShard
one_item refs = record {
  indexer = (1, 0) ∷ [];
  eviction = record { queue = 0 ∷ [] };
  capacity = 4;
  usage = 3;
  memory = λ q. record { base = if q == 0 then item refs else no_base; own = fifo_own };
  next = 1;
  object_pool = [];
  metrics = no_metrics;
}

item-is : (refs q : ℕ) → in_indexer (one_item refs).memory q ≡ true → q ≡ 0
item-is refs q a = ground (arith, a)

pub one_item-IsValid : (refs : ℕ) → IsValid parts (one_item refs)
unfolding key contains sum_below
one_item-IsValid refs = record {
  indexer_wf = record {
    held = λ a q x. (ground (arith, x), ground (arith, x));
    present = λ q a. ground (arith, a);
    once = λ a q. ground arith;
    keyed = λ q a. (1, ground (arith, a), ground (arith, a));
    unique = λ p q a b c. item-is refs p a ∙ sym (item-is refs q b);
  };
  eviction_wf = record { flags = λ q. ground arith; distinct = (refl, _) };
  covered = λ q a. ground (arith, a);
  kept = λ q a b c d. ground (arith, a);
  allocated = λ q a. ground (arith, a);
  charges = λ q a. ground (arith, a);
  pooled = λ q a. absurd (omega arith);
  pooled_once = λ q. omega arith;
  usage_sum = omega arith;
  pending_out = λ q a. absurd (ground (arith, a));
}

-- The new item of charge 3 does not fit beside the old one, to which nobody refers.
insert-Inserts_example :
    (p : ℕ) × (out : List (Entry ℕ ℕ FifoContext)) × (s' : TestShard) × (insert parts.e parts.i
        parts.o 2 2 20 3 fifo_context
        (one_item 0)
        []
      ≡ some (p, out, s'))
    × Inserts parts 2 20 fifo_context 3 p (one_item 0) [] s'
insert-Inserts_example =
    insert-Inserts parts 2 20 fifo_context 3 (one_item 0) [] (one_item-IsValid 0) (omega arith)

get-Gets_example :
    (s' : TestShard) × (get parts.e parts.i parts.o 1 1 (one_item 0)
      ≡ some (parts.i.get 1 1 (one_item 0).indexer (one_item 0).memory, s'))
    × Gets parts (parts.i.get 1 1 (one_item 0).indexer (one_item 0).memory) (one_item 0) s'
get-Gets_example = get-Gets parts 1 (one_item 0) (one_item-IsValid 0) (λ p.
    elim (Bool-cases (p == 0)) [
      | inl here ↦ ground (arith, here)
      | inr other ↦ ground (arith, other)
    ])

remove-Removes_example :
    (r : Option (Entry ℕ ℕ FifoContext)) × (s' : TestShard) × (remove parts.e parts.i parts.o 1 1
        (one_item 0)
      ≡ some (r, s'))
    × Removes parts 1 (parts.i.get 1 1 (one_item 0).indexer (one_item 0).memory) (one_item 0) r s'
remove-Removes_example = remove-Removes parts 1 (one_item 0) (one_item-IsValid 0)

clear-IsValid_example :
    (out : List (Entry ℕ ℕ FifoContext)) × (s' : TestShard) × (clear parts.e parts.i parts.o
        (one_item 1)
        []
      ≡ some (out, s'))
    × IsValid parts s'
    × ((q : ℕ) → in_indexer s'.memory q ≡ false)
    × ((q : ℕ) → in_eviction s'.memory q ≡ false)
    × ((q : ℕ) → (s'.memory q).base.refs ≡ 0 → is_inited (s'.memory q).base ≡ false)
clear-IsValid_example = clear-IsValid parts (one_item 1) [] (one_item-IsValid 1)

evict-Evicts_example :
    (out : List (Entry ℕ ℕ FifoContext)) × (s' : TestShard) × (evict parts.e parts.i parts.o 3
        (one_item 0)
        []
      ≡ some (out, s'))
    × Evicts parts none 3 (one_item 0) s'
evict-Evicts_example = evict-Evicts parts none 3 (one_item 0) [] (one_item-IsValid 0)

-- The last reference is dropped while the item is still in both containers.
try_release_external_handle-Drops_example :
    (r : Option (Entry ℕ ℕ FifoContext)) × (s' : TestShard) × (try_release_external_handle parts.e
        parts.i parts.o 0
        (one_item 1)
      ≡ some (r, s'))
    × Drops parts 0 (one_item 1) r s'
try_release_external_handle-Drops_example =
    try_release_external_handle-Drops parts 0 (one_item 1) (one_item-IsValid 1) refl (omega arith)
      (omega arith)

loose-Inv : Inv parts none (0 ∷ []) (one_item 0)
unfolding contains
loose-Inv =
    let w = one_item-IsValid 0 in
    record {
      indexer_wf = w.indexer_wf;
      eviction_wf = w.eviction_wf;
      covered = w.covered;
      kept = λ q a b c d. w.kept q a b c refl;
      allocated = w.allocated;
      charges = w.charges;
      pooled = w.pooled;
      pooled_once = w.pooled_once;
      usage_sum = w.usage_sum;
      pending_out = w.pending_out;
    }

try_release_handle-Releases_example :
    (r : Option (Entry ℕ ℕ FifoContext)) × (s' : TestShard) × (try_release_handle parts.e parts.i
        parts.o 0 false
        (one_item 0)
      ≡ some (r, s'))
    × Releases parts none [] 0 (one_item 0) r s'
    × (false ≡ false
        → in_eviction (one_item 0).memory 0 ≡ false
        → s'.eviction ≡ (one_item 0).eviction)
try_release_handle-Releases_example =
    try_release_handle-Releases parts none [] 0 false (one_item 0) loose-Inv refl refl

new-IsValid_example :
    (s : TestShard) × (new parts.e parts.i parts.o 10 [] no_metrics ≡ some s)
    × IsValid parts s
    × (s.capacity ≡ 10)
new-IsValid_example =
    new-IsValid parts 10 [] no_metrics (record { queue = [] }) (unfold Fifo.new in refl) (λ q. refl)

clone-drop_reference_example :
    (s' : TestShard) × ((clone 0 (one_item 1) >>= λ r.
    drop_reference parts.e parts.i parts.o r.0 r.1 [])
      ≡ some ([], s'))
    × IsValid parts s'
    × ((q : ℕ) → (s'.memory q).base ≡ ((one_item 1).memory q).base)
clone-drop_reference_example =
    clone-drop_reference parts 0 (one_item 1) [] (one_item-IsValid 1)
      (unfold refs_of in omega arith) (unfold refs_of in omega arith)
