-- ===== src/Memory/Cache/Operations.antt =====
-- foyer-memory/src/generic.rs: the methods of `GenericCache` and the futures that `entry` gives.
use foyer.Prelude.{
  ℕ, zero, suc, ◌/◌, ◌⊎◌, inl, Bool, ◌&&◌, Option, none, some, List, [], ◌∷◌, ◌++◌, ◌==◌,
  if◌then◌else◌, ◌>>=◌, wrapping_add, length,
}
use foyer.Memory.Handle.{has_refs, inc_refs, on_base, inc_refs_by, new_base}
use foyer.Memory.Eviction.{Eviction}
use foyer.Memory.Indexer.{KeyOps, Indexer}
use foyer.Memory.Shard
use foyer.Memory.Shard.{Shard, Metrics, Entry, ObjectPool, collect}
use foyer.Memory.Cache.{
  Waiters, Slot, GenericCache, GenericEntry, invalid, hit, wait, miss, find, delete, view, put,
  index, lock, hear,
}

-- What a future of the standard library gives when it is polled.
pub data Poll {ℓ} (A : Type ℓ) : Type ℓ where
  pending : Poll A
  ready : A → Poll A

-- `join_result.unwrap()`: a task that panicked is a panic here.
unfoldable pub unwrap_join {ℓ} :
    {E : Type ℓ} → ℕ → Poll (Option (ℕ ⊎ E)) → Option (Poll (ℕ ⊎ E) × GenericEntry)
unwrap_join task pending = some (pending, miss task)
unwrap_join task (ready none) = none
unwrap_join task (ready (some result)) = some (ready result, miss task)

-- `poll` of `GenericEntry`, over what the channel and the task give, with the error of a channel
-- converted; `none` is a panic.
unfoldable pub poll {ℓ} :
    {E : Type ℓ}
    → (receive : ℕ → Poll (ℕ ⊎ E)) → (join : ℕ → Poll (Option (ℕ ⊎ E))) → GenericEntry
    → Option (Poll (ℕ ⊎ E) × GenericEntry)
poll receive join invalid = none
poll receive join (hit p) = some (ready (inl p), invalid)
poll receive join (wait rx) = some (receive rx, wait rx)
poll receive join (miss task) = unwrap_join task (join task)

-- Those in the list that the map has, if it has one.
abbrev pub waiting : Option (List ℕ) → List ℕ
waiting none = []
waiting (some txs) = txs

module _ {ℓ} {K : Type ℓ} (keys : KeyOps K) where
  open keys use {beq}

  -- The tasks that are not this one.
  unfoldable pub without_task : ℕ → K → List (ℕ × K) → List (ℕ × K)
  without_task task k [] = []
  without_task task k ((task', k') ∷ ts) =
      if task == task' && beq k k'
      then without_task task k ts
      else (task', k') ∷ without_task task k ts

module _ {ℓ} {K V : Type ℓ} {C X T S Q : Type 0} where
  -- `clone` of `GenericCacheEntry`, with its assert.
  unfoldable pub clone : ℕ → GenericCache K V C X T S Q → Option (GenericCache K V C X T S Q)
  clone p c =
      if has_refs (c.memory p).base
      then some (record c { memory = on_base inc_refs p c.memory })
      else none

module _ {ℓ} {K V : Type ℓ} {C X T S Q : Type 0} (keys : KeyOps K) where
  open keys use {hash_one}

  -- What `entry` does when the key is not in the cache, by whether it is being fetched.
  unfoldable pub request :
      K
      → ℕ
      → Waiters K
      → Option (List ℕ)
      → Shard K V C X T S Q
      → GenericCache K V C X T S Q
      → GenericEntry × GenericCache K V C X T S Q
  request k n w (some txs) s c = (
    wait c.next_channel,
    put n ((k, txs ++ c.next_channel ∷ []) ∷ delete keys k w)
        (record s { metrics = record s.metrics { queue = wrapping_add s.metrics.queue 1 } })
        (record c { next_channel = suc c.next_channel }),
  )
  request k n w none s c = (
    miss c.next_task,
    put n ((k, []) ∷ w)
        (record s { metrics = record s.metrics { fetch = wrapping_add s.metrics.fetch 1 } })
        (record c { tasks = (c.next_task, k) ∷ c.tasks; next_task = suc c.next_task }),
  )

  unfoldable pub entry_at :
      K
      → ℕ
      → Waiters K
      → Option ℕ
      → Shard K V C X T S Q
      → GenericCache K V C X T S Q
      → GenericEntry × GenericCache K V C X T S Q
  entry_at k n w (some p) s c = (hit p, put n w s c)
  entry_at k n w none s c = request k n w (find keys k w) s c

  -- `shard.waiters.remove(&key)` of a failed fetch, which drops the senders.
  unfoldable pub fail : K → GenericCache K V C X T S Q → Option (GenericCache K V C X T S Q)
  fail k c = do
    slot ← lock (hash_one k) c
    let c' = put (index (hash_one k) c) (delete keys k slot.waiters) (view slot c) c
    some (record c' { broken = c'.broken ++ waiting (find keys k slot.waiters) })

  unfoldable pub end_task : ℕ → K → GenericCache K V C X T S Q → GenericCache K V C X T S Q
  end_task task k c = record c { tasks = without_task keys task k c.tasks }

module _ {ℓ} {K V : Type ℓ} {C X T S Q : Type 0} (keys : KeyOps K) (e : Eviction K V C X S)
    (i : Indexer K V C X T) (o : ObjectPool Q) where
  open keys use {hash_one, beq}

  -- The shards that `new` makes; each starts from the eviction configuration.
  unfoldable pub new_slots : ℕ → ℕ → Q → Metrics → Option (List (Slot K T S))
  new_slots zero shard_capacity pool metrics = some []
  new_slots (suc n) shard_capacity pool metrics = do
    s ← Shard.new e i o shard_capacity pool metrics
    slots ← new_slots n shard_capacity pool metrics
    some (
        record {
          indexer = s.indexer;
          eviction = s.eviction;
          capacity = s.capacity;
          usage = s.usage;
          waiters = [];
        }
        ∷ slots)

  -- A cache of the shards, before the first call.
  unfoldable pub of_slots : ℕ → Q → Metrics → List (Slot K T S) → GenericCache K V C X T S Q
  of_slots capacity pool metrics slots = record {
    shards = slots;
    capacity = capacity;
    memory = λ q. record { base = new_base; own = e.new_own };
    next = 0;
    object_pool = pool;
    metrics = metrics;
    heard = [];
    delivered = [];
    broken = [];
    tasks = [];
    next_channel = 0;
    next_task = 0;
  }

  -- `config.capacity / config.shards` is a panic for a configuration without shards.
  unfoldable pub new : ℕ → ℕ → Q → Metrics → Option (GenericCache K V C X T S Q)
  new capacity shards pool metrics = if shards == 0 then none else (do
    slots ← new_slots shards (capacity / shards) pool metrics
    some (of_slots capacity pool metrics slots))

  -- `try_release_external_handle`, which `drop` of `GenericCacheEntry` calls.
  unfoldable pub try_release_external_handle :
      ℕ → GenericCache K V C X T S Q → Option (GenericCache K V C X T S Q)
  try_release_external_handle p c = do
    slot ← lock (c.memory p).base.hash c
    (entry, s) ← Shard.try_release_external_handle e i o p (view slot c)
    some (hear (collect entry []) (put (index (c.memory p).base.hash c) slot.waiters s c))

  -- `let _ = waiter.send(...)`: if the receiver is gone, the reference comes back and is dropped.
  unfoldable pub send :
      (receiving : ℕ → Bool)
      → ℕ
      → ℕ
      → GenericCache K V C X T S Q
      → Option (GenericCache K V C X T S Q)
  send receiving p tx c =
      if receiving tx
      then some (record c { delivered = c.delivered ++ (tx, p) ∷ [] })
      else try_release_external_handle p c

  unfoldable pub send_each :
      (receiving : ℕ → Bool)
      → ℕ
      → List ℕ
      → GenericCache K V C X T S Q
      → Option (GenericCache K V C X T S Q)
  send_each receiving p [] c = some c
  send_each receiving p (tx ∷ txs) c = send receiving p tx c >>= send_each receiving p txs

  -- `insert_with_context`: the new reference, and those of the waiters.
  unfoldable pub insert_with_context :
      (receiving : ℕ → Bool)
      → K
      → V
      → ℕ
      → C
      → GenericCache K V C X T S Q
      → Option (ℕ × GenericCache K V C X T S Q)
  insert_with_context receiving k v charge context c =
      let hash = hash_one k in
      do
        slot ← lock hash c
        let txs = waiting (find keys k slot.waiters)
        (p, out, s) ← Shard.insert e i o hash k v charge context (view slot c) []
        c' ← send_each receiving p txs (
            put (index hash c) (delete keys k slot.waiters)
              (record s { memory = on_base (inc_refs_by (length txs)) p s.memory }) c)
        some (p, hear out c')

  -- `insert`, with the default context.
  unfoldable pub insert :
      (default : C)
      → (receiving : ℕ → Bool) → K
      → V
      → ℕ
      → GenericCache K V C X T S Q
      → Option (ℕ × GenericCache K V C X T S Q)
  insert default receiving k v charge c = insert_with_context receiving k v charge default c

  unfoldable pub remove : K → GenericCache K V C X T S Q → Option (GenericCache K V C X T S Q)
  remove k c =
      let hash = hash_one k in
      do
        slot ← lock hash c
        (entry, s) ← Shard.remove e i o hash k (view slot c)
        some (hear (collect entry []) (put (index hash c) slot.waiters s c))

  unfoldable pub get :
      K → GenericCache K V C X T S Q → Option (Option ℕ × GenericCache K V C X T S Q)
  get k c =
      let hash = hash_one k in
      do
        slot ← lock hash c
        (found, s) ← Shard.get e i o hash k (view slot c)
        some (found, put (index hash c) slot.waiters s c)

  -- The loop of `clear` over the shards from the `n`th on. What they release is not told to the
  -- listener.
  unfoldable pub clear_each :
      ℕ → List (Slot K T S) → GenericCache K V C X T S Q → Option (GenericCache K V C X T S Q)
  clear_each n [] c = some c
  clear_each n (slot ∷ slots) c = do
    (_, s) ← Shard.clear e i o (view slot c) []
    clear_each (suc n) slots (put n slot.waiters s c)

  unfoldable pub clear : GenericCache K V C X T S Q → Option (GenericCache K V C X T S Q)
  clear c = clear_each 0 c.shards c

  unfoldable pub entry :
      K → GenericCache K V C X T S Q → Option (GenericEntry × GenericCache K V C X T S Q)
  entry k c =
      let hash = hash_one k in
      do
        slot ← lock hash c
        (found, s) ← Shard.get e i o hash k (view slot c)
        some (entry_at keys k (index hash c) slot.waiters found s c)

  -- The spawned task of a key, after the future gave its value or its error: what it returns.
  unfoldable pub finish :
      (receiving : ℕ → Bool)
      → ℕ
      → K
      → Option (V × ℕ × C)
      → GenericCache K V C X T S Q
      → Option (Option ℕ × GenericCache K V C X T S Q)
  finish receiving task k (some (v, charge, context)) c = do
    (p, c') ← insert_with_context receiving k v charge context c
    some (some p, end_task keys task k c')
  finish receiving task k none c = do c' ← fail keys k c; some (none, end_task keys task k c')
