-- ===== src/Memory/Shard/Create.antt =====
-- `new` of `CacheShard` in foyer-memory/src/generic.rs.
use foyer.Prelude.{ℕ, ◌≡◌, refl, some, arith, contains}
use foyer.Memory.Handle.{new_base}
use foyer.Memory.Shard.{Shard, Metrics, new}
use foyer.Memory.Shard.Invariant.{Parts, IsValid}
use foyer.Memory.Shard.Sum.{sum_below}

module _ {ℓ} {K V : Type ℓ} {C X T S Q : Type 0} (parts : Parts K V C X T S Q) where
  open parts use {e, i, o, count, eviction_laws, indexer_laws}

  -- A shard that is made from an empty object pool is valid.
  pub new-IsValid :
      (capacity : ℕ) (pool : Q) (metrics : Metrics) (v : S)
      → e.create capacity ≡ some v
      → ((q : ℕ) → count pool q ≡ 0)
      → (s : Shard K V C X T S Q) × (new e i o capacity pool metrics ≡ some s)
        × IsValid parts s
        × (s.capacity ≡ capacity)
  unfolding new new_base contains sum_below
  new-IsValid capacity pool metrics v made none_pooled = (
    record {
      indexer = i.new;
      eviction = v;
      capacity = capacity;
      usage = 0;
      memory = λ q. record { base = new_base; own = e.new_own };
      next = 0;
      object_pool = pool;
      metrics = metrics;
    },
    rw made refl,
    record {
      indexer_wf = indexer_laws.new_law _ (λ q. refl);
      eviction_wf = eviction_laws.create_law capacity _ made (λ q. refl) (λ q. refl);
      covered = λ q a. absurd (ground (arith, a));
      kept = λ q a b c d. absurd (ground (arith, a));
      allocated = λ q a. absurd (ground (arith, a));
      charges = λ q a. absurd (ground (arith, a));
      pooled = λ q a. absurd (omega (arith, none_pooled q));
      pooled_once = λ q. omega (arith, none_pooled q);
      usage_sum = omega arith;
      pending_out = λ q a. absurd (ground (arith, a));
    },
    refl,
  )
