-- ===== src/Memory/Cache.antt =====
-- foyer-memory/src/generic.rs: `GenericCache`, its shards with the requests that wait for a fetch,
-- and the tasks that fetch. A call is one step: only the shard's part of it holds a lock.
pub mod Operations
pub mod Waiters
pub mod Slots
pub mod Calls
pub mod Answers
pub mod Fetches
pub mod Runs
pub mod Finish
pub mod Serve
use foyer.Prelude.{
  ℕ, zero, suc, ◌+◌, ◌%◌, Option, none, some, List, [], ◌∷◌, ◌++◌, if◌then◌else◌, wrapping_add,
  length,
}
use foyer.Memory.Handle.{Memory}
use foyer.Memory.Indexer.{KeyOps}
use foyer.Memory.Shard
use foyer.Memory.Shard.{Shard, Metrics, Entry}

-- `waiters` of a shard: for a key that is being fetched, the senders of those that wait for it.
abbrev pub Waiters {ℓ} : (K : Type ℓ) → Type ℓ
Waiters K = List (K × List ℕ)

-- What a shard has for itself.
pub record Slot {ℓ} (K : Type ℓ) (T S : Type 0) : Type ℓ where
  pub indexer : T
  pub eviction : S
  pub capacity : ℕ
  pub usage : ℕ
  pub waiters : Waiters K

-- The cache with what its shards share, and what it does to the world: `heard` are the calls of
-- `on_release`, `delivered` what went through a channel, `broken` the channels whose sender was
-- dropped, and `tasks` the fetches that were spawned and have not finished.
pub record GenericCache {ℓ} (K V : Type ℓ) (C X T S Q : Type 0) : Type ℓ where
  pub shards : List (Slot K T S)
  pub capacity : ℕ
  pub memory : Memory K V C X
  pub next : ℕ
  pub object_pool : Q
  pub metrics : Metrics
  pub heard : List (Entry K V C)
  pub delivered : List (ℕ × ℕ)
  pub broken : List ℕ
  pub tasks : List (ℕ × K)
  pub next_channel : ℕ
  pub next_task : ℕ

-- `GenericEntry`: a reference, the receiver of a channel, or the handle of a task.
pub data GenericEntry : Type 0 where
  invalid : GenericEntry
  hit : ℕ → GenericEntry
  wait : ℕ → GenericEntry
  miss : ℕ → GenericEntry

module _ {ℓ} {A : Type ℓ} where
  unfoldable pub slot_at : ℕ → List A → Option A
  slot_at n [] = none
  slot_at zero (x ∷ xs) = some x
  slot_at (suc n) (x ∷ xs) = slot_at n xs

  unfoldable pub set_slot : ℕ → A → List A → List A
  set_slot n y [] = []
  set_slot zero y (x ∷ xs) = y ∷ xs
  set_slot (suc n) y (x ∷ xs) = x ∷ set_slot n y xs

module _ {ℓ} {K : Type ℓ} (keys : KeyOps K) where
  open keys use {beq}

  -- `HashMap::get`
  unfoldable pub find : K → Waiters K → Option (List ℕ)
  find k [] = none
  find k ((k', txs) ∷ w) = if beq k k' then some txs else find k w

  -- `HashMap::remove`, without what it returns.
  unfoldable pub delete : K → Waiters K → Waiters K
  delete k [] = []
  delete k ((k', txs) ∷ w) = if beq k k' then delete k w else (k', txs) ∷ delete k w

module _ {ℓ} {K : Type ℓ} {T S : Type 0} where
  unfoldable pub sum_usages : List (Slot K T S) → ℕ
  sum_usages [] = 0
  sum_usages (slot ∷ slots) = wrapping_add slot.usage (sum_usages slots)

module _ {ℓ} {K V : Type ℓ} {C X T S Q : Type 0} where
  -- A shard as its methods see it.
  unfoldable pub view : Slot K T S → GenericCache K V C X T S Q → Shard K V C X T S Q
  view slot c = record {
    indexer = slot.indexer;
    eviction = slot.eviction;
    capacity = slot.capacity;
    usage = slot.usage;
    memory = c.memory;
    next = c.next;
    object_pool = c.object_pool;
    metrics = c.metrics;
  }

  -- The cache after a method of its shard `n`.
  unfoldable pub put :
      ℕ → Waiters K → Shard K V C X T S Q → GenericCache K V C X T S Q → GenericCache K V C X T S Q
  put n w s c = record c {
    shards =
        set_slot n
          (record {
            indexer = s.indexer;
            eviction = s.eviction;
            capacity = s.capacity;
            usage = s.usage;
            waiters = w;
          })
          c.shards;
    memory = s.memory;
    next = s.next;
    object_pool = s.object_pool;
    metrics = s.metrics;
  }

  -- `hash as usize % self.shards.len()`
  unfoldable pub index : ℕ → GenericCache K V C X T S Q → ℕ
  index hash c = hash % length c.shards

  -- `self.shards[hash as usize % self.shards.len()].lock()`: without shards this is a panic.
  unfoldable pub lock : ℕ → GenericCache K V C X T S Q → Option (Slot K T S)
  lock hash c = slot_at (index hash c) c.shards

  -- The calls of `on_release`.
  unfoldable pub hear : List (Entry K V C) → GenericCache K V C X T S Q → GenericCache K V C X T S Q
  hear out c = record c { heard = c.heard ++ out }

  unfoldable pub capacity : GenericCache K V C X T S Q → ℕ
  capacity c = c.capacity

  unfoldable pub usage : GenericCache K V C X T S Q → ℕ
  usage c = sum_usages c.shards
