-- ===== src/Memory/Shard/Alloc.antt =====
-- The new handle of `insert` in foyer-memory/src/generic.rs: allocated, and inited.
use foyer.Prelude.{
  ℕ, suc, ◌%◌, ◌<◌, ◌≡◌, refl, sym, ap, ◌∙◌, inl, inr, false, none, some, [], arith, ◌==◌, ==_refl,
  Option-cases, usize_mod, contains,
}
use foyer.Memory.Handle.{
  BaseHandle, Memory, store, on_base, in_eviction, in_indexer, is_inited, new_base, init, key,
}
use foyer.Memory.Shard.{Shard, alloc}
use foyer.Memory.Shard.Sum.{sum_below, sum_below_cong}
use foyer.Memory.Shard.Invariant.{Parts, Inv, IsValid, weight, indexed_inited, total}

module _ {ℓ} {K V : Type ℓ} {C X T S Q : Type 0} (parts : Parts K V C X T S Q) where
  open parts use {
    e, i, o, keys, IsEvictable, IsIndexed, count, eviction_laws, indexer_laws, pool_laws,
  }

  -- A handle that is neither in use nor in the pool.
  pub record IsSpare (p : ℕ) (s : Shard K V C X T S Q) : Type ℓ where
    pub valid : IsValid parts s
    pub uninited : is_inited (s.memory p).base ≡ false
    pub below : p < s.next
    pub unpooled : count s.object_pool p ≡ 0

  -- An uninited handle is in neither container.
  pub outside :
      (s : Shard K V C X T S Q) (p : ℕ)
      → IsValid parts s
      → is_inited (s.memory p).base ≡ false
      → (in_indexer s.memory p ≡ false) × (in_eviction s.memory p ≡ false)
  outside s p w off = (
    ground (arith, indexed_inited parts s p w.indexer_wf, off),
    ground (arith, indexed_inited parts s p w.indexer_wf, w.covered p, off),
  )

  fresh_sum :
      (m : Memory K V C X) (n : ℕ)
      → sum_below (weight none (store n (record { base = new_base; own = e.new_own }) m)) (suc n)
        ≡ sum_below (weight none m) n
  unfolding new_base sum_below
  fresh_sum m n =
      let m' : Memory K V C X = store n (record { base = new_base; own = e.new_own }) m in
      let last : weight none m' n ≡ 0 = ground (arith, ==_refl n) in
      omega
        (arith, last, sum_below_cong (weight none m') (weight none m) n (λ q l. ground (arith, l)))

  fresh-IsSpare :
      (s : Shard K V C X T S Q)
      → IsValid parts s
      → IsSpare s.next (record s {
        memory = store s.next (record { base = new_base; own = e.new_own }) s.memory;
        next = suc s.next;
      })
  unfolding new_base key contains
  fresh-IsSpare s w =
      let unused : is_inited (s.memory s.next).base ≡ false = ground (arith, w.allocated s.next) in
      let (off, out) = outside s s.next w unused in
      let m = store s.next (record { base = new_base; own = e.new_own }) s.memory in
      record {
        valid = record {
          indexer_wf =
              indexer_laws.stable s.indexer s.memory m w.indexer_wf (λ q. ground (arith, off))
                (λ q on.
                  let far : (q == s.next) ≡ false = ground (arith, on, off) in
                  (rw far refl, rw far refl));
          eviction_wf =
              eviction_laws.fresh s.next new_base s.eviction s.memory w.eviction_wf out refl;
          covered = λ q a. ground (arith, w.covered q);
          kept = λ q a b c d. ground (arith, w.kept q);
          allocated = λ q a. ground (arith, w.allocated q);
          charges = λ q a. ground (arith, w.charges q);
          pooled = λ q a. ground (arith, w.pooled q);
          pooled_once = w.pooled_once;
          usage_sum = w.usage_sum ∙ ap (λ n. n % usize_mod) (sym (fresh_sum s.memory s.next));
          pending_out = λ q a. ground arith;
        };
        uninited = ground (arith, ==_refl s.next);
        below = omega arith;
        unpooled = ground (arith, w.pooled s.next);
      }

  pooled-IsSpare :
      (s : Shard K V C X T S Q)
      → IsValid parts s
      → (p : ℕ) (q : Q) → o.pop s.object_pool ≡ some (p, q)
      → IsSpare p (record s { object_pool = q })
  pooled-IsSpare s w p q f =
      let counts = λ (r : ℕ). pool_laws.count-pop p s.object_pool q r f in
      record {
        valid = record {
          indexer_wf = w.indexer_wf;
          eviction_wf = w.eviction_wf;
          covered = w.covered;
          kept = w.kept;
          allocated = w.allocated;
          charges = w.charges;
          pooled = λ r a. w.pooled r (omega (arith, counts r));
          pooled_once = λ r. omega (arith, counts r, w.pooled_once r);
          usage_sum = w.usage_sum;
          pending_out = w.pending_out;
        };
        uninited = (w.pooled p (ground (arith, counts p, ==_refl p))).0;
        below = (w.pooled p (ground (arith, counts p, ==_refl p))).1;
        unpooled = ground (arith, counts p, ==_refl p, w.pooled_once p);
      }

  -- `alloc` gives a spare handle, from the pool or new.
  pub alloc-IsSpare :
      (s : Shard K V C X T S Q)
      → IsValid parts s
      → (p : ℕ) × (s' : Shard K V C X T S Q) × (alloc e i o s ≡ (p, s'))
        × IsSpare p s'
        × (s'.capacity ≡ s.capacity)
        × (total parts none s' ≡ total parts none s)
  unfolding alloc
  alloc-IsSpare s w = elim (Option-cases (o.pop s.object_pool)) [
    | inl empty ↦ (_, _, rw (empty, alloc) refl, fresh-IsSpare s w, refl, fresh_sum s.memory s.next)
    | inr ((p, q), f) ↦
        (p, record s { object_pool = q }, rw (f, alloc) refl, pooled-IsSpare s w p q f, refl, refl)
  ]

  -- The state of the new handle from `init` to the push.
  pub record IsPending (k : K) (v : V) (c : C) (charge : ℕ) (b : BaseHandle K V C) : Type ℓ where
    pub entry : b.entry ≡ some (k, v, c)
    pub hash : b.hash ≡ keys.hash_one k
    pub charged : b.charge ≡ charge
    pub idle : b.refs ≡ 0

  pub init-Inv :
      (k : K) (v : V) (c : C) (charge p : ℕ) (s : Shard K V C X T S Q)
      → IsSpare p s
      → charge < usize_mod
      → let m = on_base (init (keys.hash_one k) k v charge c) p s.memory in
        Inv parts (some p) [] (record s { memory = m })
        × IsPending k v c charge (m p).base
        × (in_indexer m p ≡ false)
        × (total parts (some p) (record s { memory = m }) ≡ total parts none s)
  unfolding init key contains
  init-Inv k v c charge p s spare bound =
      let w = spare.valid in
      let (off, out) = outside s p w spare.uninited in
      let m : Memory K V C X = on_base (init (keys.hash_one k) k v charge c) p s.memory in
      let sums : sum_below (weight (some p) m) s.next ≡ sum_below (weight none s.memory) s.next =
        sum_below_cong (weight (some p) m) (weight none s.memory) s.next
          (λ q l. ground (arith, spare.uninited)) in
      (
        record {
          indexer_wf =
              indexer_laws.stable s.indexer s.memory m w.indexer_wf (λ q. ground (arith, off))
                (λ q on.
                  let far : (q == p) ≡ false = ground (arith, on, off) in
                  (rw far refl, rw far refl));
          eviction_wf =
              eviction_laws.stable s.eviction s.memory m w.eviction_wf (λ q. ground arith)
                (λ q. ground (arith, out)) (λ q on. ground (arith, out));
          covered = λ q a. ground (arith, w.covered q);
          kept = λ q a b d f. ground (arith, w.kept q);
          allocated = λ q a. ground (arith, w.allocated q, spare.below);
          charges = λ q a. ground (arith, w.charges q, bound);
          pooled = λ q a. ground (arith, w.pooled q, spare.unpooled);
          pooled_once = w.pooled_once;
          usage_sum = w.usage_sum ∙ ap (λ n. n % usize_mod) (sym sums);
          pending_out = λ q a. ground (arith, a);
        },
        rw (==_refl p) (record { entry = refl; hash = refl; charged = refl; idle = refl }),
        rw (==_refl p) refl,
        sums,
      )
