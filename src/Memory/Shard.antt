-- ===== src/Memory/Shard.antt =====
-- foyer-memory/src/generic.rs: `CacheShard`, over an eviction algorithm, an indexer and the object
-- pool. Its lock makes each operation one step.
pub mod Sum
pub mod Invariant
pub mod Release
pub mod Evict
pub mod Alloc
pub mod Replace
pub mod Insert
pub mod Lookup
pub mod Clear
pub mod Create
pub mod Reference
use foyer.Prelude.{
  ℕ, zero, suc, ◌+◌, ◌-◌, ◌≤◌, ◌≡◌, Bool, true, false, ◌&&◌, Option, none, some, List, [], ◌∷◌,
  ◌++◌, ltb, leb, ◌==◌, if◌then◌else◌, ◌>>=◌, wrapping_add, wrapping_sub, length,
}
use foyer.Memory.Handle.{
  Memory, store, on_base, in_eviction, in_indexer, charge_of, has_refs, new_base, init, take, key,
  value, context, inc_refs, dec_refs,
}
use foyer.Memory.Eviction.{Eviction}
use foyer.Memory.Indexer.{Indexer}

-- `crossbeam::queue::ArrayQueue`, which is not code of this repository. `push` onto a full queue
-- drops the box.
pub record ObjectPool (Q : Type 0) : Type 0 where
  pub pop : Q → Option (ℕ × Q)
  pub push : ℕ → Q → Q

-- What the crate documents: `count` is how often a pool has a box. A pool hands out what was put
-- in, once.
pub record ObjectPoolLaws {Q : Type 0} (o : ObjectPool Q) (count : Q → ℕ → ℕ) : Type 0 where
  pub count-pop :
      (p : ℕ) (a b : Q) (q : ℕ)
      → o.pop a ≡ some (p, b)
      → count a q ≡ count b q + (if q == p then 1 else 0)
  pub count-push :
      (p : ℕ) (a : Q) (q : ℕ) → count (o.push p a) q ≤ count a q + (if q == p then 1 else 0)

-- foyer-memory/src/metrics.rs.
pub record Metrics : Type 0 where
  pub insert : ℕ
  pub replace : ℕ
  pub hit : ℕ
  pub miss : ℕ
  pub fetch : ℕ
  pub queue : ℕ
  pub remove : ℕ
  pub evict : ℕ
  pub reinsert : ℕ
  pub release : ℕ

-- The shard with the shared state that it reaches: the memory of the handles, where `next` is the
-- first pointer that was never allocated, the object pool and the metrics.
pub record Shard {ℓ} (K V : Type ℓ) (C X T S Q : Type 0) : Type ℓ where
  pub indexer : T
  pub eviction : S
  pub capacity : ℕ
  pub usage : ℕ
  pub memory : Memory K V C X
  pub next : ℕ
  pub object_pool : Q
  pub metrics : Metrics

-- What a release hands to the listener.
abbrev pub Entry {ℓ} : (K V : Type ℓ) (C : Type 0) → Type ℓ
Entry K V C = K × V × C × ℕ

module _ {ℓ} {K V : Type ℓ} {C : Type 0} where
  -- `last_reference_entries.push(entry)`, if there is an entry.
  abbrev pub collect : Option (Entry K V C) → List (Entry K V C) → List (Entry K V C)
  collect none out = out
  collect (some entry) out = out ++ entry ∷ []

module _ {ℓ} {K V : Type ℓ} {C X T S Q : Type 0} where
  -- The new part of a shard after a call of the eviction algorithm.
  abbrev pub with_eviction : Shard K V C X T S Q → S × Memory K V C X → Shard K V C X T S Q
  with_eviction s r = record s { eviction = r.0; memory = r.1 }

  unfoldable pub count_reinsert : Bool → Shard K V C X T S Q → Shard K V C X T S Q
  count_reinsert was_in_eviction s = record s {
    metrics = record s.metrics {
      reinsert = if was_in_eviction then wrapping_add s.metrics.reinsert 1 else s.metrics.reinsert;
    };
  }

module _ {ℓ} {K V : Type ℓ} {C X T S Q : Type 0} (e : Eviction K V C X S) (i : Indexer K V C X T)
    (o : ObjectPool Q) where
  -- A shard with no handles, with a usage of its own, and the object pool and metrics that the
  -- shards share. A configuration that the eviction algorithm refuses is a panic.
  unfoldable pub new : ℕ → Q → Metrics → Option (Shard K V C X T S Q)
  new capacity object_pool metrics = do
    eviction ← e.create capacity
    some (record {
      indexer = i.new;
      eviction = eviction;
      capacity = capacity;
      usage = 0;
      memory = λ q. record { base = new_base; own = e.new_own };
      next = 0;
      object_pool = object_pool;
      metrics = metrics;
    })

  -- `if base.is_in_eviction() { self.eviction.remove(ptr) }`.
  unfoldable pub remove_from_eviction : ℕ → Shard K V C X T S Q → Option (Shard K V C X T S Q)
  remove_from_eviction p s =
      if in_eviction s.memory p
      then (e.remove p s.eviction s.memory >>= λ r. some (with_eviction s r))
      else some s

  -- The end of `try_release_handle`, on a handle in neither container.
  unfoldable pub release :
      ℕ → Shard K V C X T S Q → Option (Option (Entry K V C) × Shard K V C X T S Q)
  release p s = do
    (entry, b) ← take (s.memory p).base
    some (
      some entry,
      record s {
        usage = wrapping_sub s.usage (charge_of s.memory p);
        memory = store p (record { base = b; own = (s.memory p).own }) s.memory;
        object_pool = o.push p s.object_pool;
        metrics = record s.metrics { release = wrapping_add s.metrics.release 1 };
      },
    )

  -- `self.indexer.remove(base.hash(), base.key())`, with the key that the handle has.
  unfoldable pub unindex_key : Option K → ℕ → Shard K V C X T S Q → Option (Shard K V C X T S Q)
  unindex_key none p s = none
  unindex_key (some k) p s =
      let (_, t, m) = i.remove (s.memory p).base.hash k s.indexer s.memory in
      some (record s { indexer = t; memory = m })

  -- The part of `try_release_handle` that gives the handle up.
  unfoldable pub give_up :
      ℕ → Shard K V C X T S Q → Option (Option (Entry K V C) × Shard K V C X T S Q)
  give_up p s = do
    s' ← unindex_key (key (s.memory p).base) p s
    s'' ← remove_from_eviction p s'
    release p s''

  -- The part of `try_release_handle` that tries the reinsertion.
  unfoldable pub try_reinsert :
      ℕ → Shard K V C X T S Q → Option (Option (Entry K V C) × Shard K V C X T S Q)
  try_reinsert p s = do
    r ← e.reinsert p s.eviction s.memory
    let s' = with_eviction s r
    (if in_eviction s'.memory p
        then some (none, count_reinsert (in_eviction s.memory p) s')
        else give_up p s')

  unfoldable pub try_release_handle :
      ℕ → Bool → Shard K V C X T S Q → Option (Option (Entry K V C) × Shard K V C X T S Q)
  try_release_handle p reinsert s =
      if has_refs (s.memory p).base
      then some (none, s)
      else if in_indexer s.memory p
      then if reinsert && leb s.usage s.capacity then try_reinsert p s else give_up p s
      else release p s

  unfoldable pub try_release_external_handle :
      ℕ → Shard K V C X T S Q → Option (Option (Entry K V C) × Shard K V C X T S Q)
  try_release_external_handle p s =
      try_release_handle p true (record s { memory = on_base dec_refs p s.memory })

  -- The loop of `evict`: each round that goes on takes a handle out of the eviction container.
  unfoldable pub evict_loop :
      ℕ
      → ℕ
      → Shard K V C X T S Q
      → List (Entry K V C)
      → Option (List (Entry K V C) × Shard K V C X T S Q)
  evict_loop zero charge s out = none
  evict_loop (suc fuel) charge s out =
      let round = (do
        (popped, ev, m) ← e.pop s.eviction s.memory
        let s' = with_eviction s (ev, m)
        elim popped [
          | none ↦ some (out, s')
          | some p ↦ do
            (entry, s'') ← try_release_handle p false (record s' {
              metrics = record s'.metrics { evict = wrapping_add s'.metrics.evict 1 };
            })
            evict_loop fuel charge s'' (collect entry out)
        ]) in
      if ltb s.capacity (wrapping_add s.usage charge) then round else some (out, s)

  unfoldable pub evict :
      ℕ
      → Shard K V C X T S Q
      → List (Entry K V C)
      → Option (List (Entry K V C) × Shard K V C X T S Q)
  evict charge s out = evict_loop (suc (e.len s.eviction)) charge s out

  -- `object_pool.pop().unwrap_or_else(|| Box::new(H::new()))`.
  unfoldable pub alloc : Shard K V C X T S Q → ℕ × Shard K V C X T S Q
  alloc s = elim (o.pop s.object_pool) [
    | none ↦ (
      s.next,
      record s {
        memory = store s.next (record { base = new_base; own = e.new_own }) s.memory;
        next = suc s.next;
      },
    )
    | some (p, q) ↦ (p, record s { object_pool = q })
  ]

  -- What `insert` does with the handle that the new one replaces in the indexer.
  unfoldable pub replace :
      Option ℕ
      → Shard K V C X T S Q
      → List (Entry K V C)
      → Option (List (Entry K V C) × Shard K V C X T S Q)
  replace none s out =
      some
        (out, record s { metrics = record s.metrics { insert = wrapping_add s.metrics.insert 1 } })
  replace (some old) s out = do
    s' ←
        remove_from_eviction old
          (record s { metrics = record s.metrics { replace = wrapping_add s.metrics.replace 1 } })
    (entry, s'') ← try_release_handle old false s'
    some (collect entry out, s'')

  -- The end of `insert`, from the push into the eviction container on.
  unfoldable pub enlist : ℕ → ℕ → Shard K V C X T S Q → Option (Shard K V C X T S Q)
  enlist p charge s = do
    (ev, m) ← e.push p s.eviction s.memory
    some (record s {
      eviction = ev;
      usage = wrapping_add s.usage charge;
      memory = on_base inc_refs p m;
    })

  unfoldable pub insert :
      ℕ
      → K
      → V
      → ℕ
      → C
      → Shard K V C X T S Q
      → List (Entry K V C)
      → Option (ℕ × List (Entry K V C) × Shard K V C X T S Q)
  insert hash key value charge context s out =
      let (p, s1) = alloc s in
      let s2 = record s1 { memory = on_base (init hash key value charge context) p s1.memory } in
      do
        (out3, s3) ← evict charge s2 out
        (old, t, m) ← i.insert p s3.indexer s3.memory
        (out4, s4) ← replace old (record s3 { indexer = t; memory = m }) out3
        s5 ← enlist p charge s4
        some (p, out4, s5)

  -- What `get` does with the handle that the indexer has for the key.
  unfoldable pub get_at : Option ℕ → Shard K V C X T S Q → Option (Option ℕ × Shard K V C X T S Q)
  get_at none s =
      some (none, record s { metrics = record s.metrics { miss = wrapping_add s.metrics.miss 1 } })
  get_at (some p) s = do
    (ev, m) ← e.access p s.eviction (on_base inc_refs p s.memory)
    some (
      some p,
      record s {
        eviction = ev;
        memory = m;
        metrics = record s.metrics { hit = wrapping_add s.metrics.hit 1 };
      },
    )

  unfoldable pub get : ℕ → K → Shard K V C X T S Q → Option (Option ℕ × Shard K V C X T S Q)
  get hash key s = get_at (i.get hash key s.indexer s.memory) s

  -- What `remove` does with the handle that the indexer had for the key.
  unfoldable pub remove_at :
      Option ℕ → Shard K V C X T S Q → Option (Option (Entry K V C) × Shard K V C X T S Q)
  remove_at none s = some (none, s)
  remove_at (some p) s = do
    s' ←
        remove_from_eviction p
          (record s { metrics = record s.metrics { remove = wrapping_add s.metrics.remove 1 } })
    try_release_handle p false s'

  unfoldable pub remove :
      ℕ → K → Shard K V C X T S Q → Option (Option (Entry K V C) × Shard K V C X T S Q)
  remove hash key s =
      let (found, t, m) = i.remove hash key s.indexer s.memory in
      remove_at found (record s { indexer = t; memory = m })

  -- The loop of `clear` over the handles drained from the indexer.
  unfoldable pub release_each :
      List ℕ
      → Shard K V C X T S Q
      → List (Entry K V C)
      → Option (List (Entry K V C) × Shard K V C X T S Q)
  release_each [] s out = some (out, s)
  release_each (p ∷ ps) s out =
      try_release_handle p false s >>= λ r. release_each ps r.1 (collect r.0 out)

  unfoldable pub clear :
      Shard K V C X T S Q → List (Entry K V C) → Option (List (Entry K V C) × Shard K V C X T S Q)
  clear s out =
      let (ps, t, m) = i.drain s.indexer s.memory in
      do
        (_, ev, m') ← e.clear s.eviction m
        release_each ps
            (record s {
              indexer = t;
              eviction = ev;
              memory = m';
              metrics = record s.metrics { remove = wrapping_add s.metrics.remove (length ps) };
            })
            out

  -- The drop of a shard.
  unfoldable pub drop : Shard K V C X T S Q → Option (List (Entry K V C) × Shard K V C X T S Q)
  drop s = clear s []
