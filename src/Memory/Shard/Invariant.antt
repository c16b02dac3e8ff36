-- ===== src/Memory/Shard/Invariant.antt =====
-- The invariant of a cache shard of foyer-memory/src/generic.rs, and the parts that it is built of.
use foyer.Prelude.{
  ℕ, ◌%◌, ◌≤◌, ◌<◌, ◌≡◌, refl, sym, ap, ◌∙◌, inl, inr, Bool, true, false, not, ◌&&◌, Option, none,
  some, List, [], arith, ◌==◌, if◌then◌else◌, ==_iff, Bool-cases, usize_mod, contains,
}
use foyer.Memory.Handle.{
  BaseHandle, Memory, on_base, in_eviction, in_indexer, charge_of, is_inited, set_in_eviction,
  set_in_indexer, key,
}
use foyer.Memory.Eviction.{Eviction, EvictionLaws}
use foyer.Memory.Indexer.{KeyOps, Indexer, IndexerLaws, is_at}
use foyer.Memory.Shard.{Shard, ObjectPool, ObjectPoolLaws, Metrics}
use foyer.Memory.Shard.Sum.{sum_below, sum_below_cong}

-- The type arguments of `CacheShard`, each with its contract.
pub record Parts {ℓ} (K V : Type ℓ) (C X T S Q : Type 0) : Type (ℓ + 1) where
  pub keys : KeyOps K
  pub e : Eviction K V C X S
  pub IsEvictable : S → Memory K V C X → Type 0
  pub eviction_laws : EvictionLaws e IsEvictable
  pub i : Indexer K V C X T
  pub IsIndexed : T → Memory K V C X → Type ℓ
  pub indexer_laws : IndexerLaws keys i IsIndexed
  pub o : ObjectPool Q
  pub count : Q → ℕ → ℕ
  pub pool_laws : ObjectPoolLaws o count

-- What a handle adds to the usage: its charge while it is inited, but not before `insert` counts
-- it.
abbrev pub weight {ℓ} : {K V : Type ℓ} {C X : Type 0} → Option ℕ → Memory K V C X → ℕ → ℕ
weight pending m q = if is_inited (m q).base && not (is_at pending q) then charge_of m q else 0

-- A write of both flags.
abbrev pub flagged {ℓ} :
    {K V : Type ℓ} {C : Type 0} → Bool → Bool → BaseHandle K V C → BaseHandle K V C
flagged in_index in_evict b = set_in_eviction in_evict (set_in_indexer in_index b)

module _ {ℓ} {K V : Type ℓ} {C X T S Q : Type 0} (parts : Parts K V C X T S Q) where
  open parts use {IsEvictable, IsIndexed, count}

  -- `pending` is the handle that `insert` has in hand, and `loose` are those that a loop is about
  -- to release; between the operations there are none.
  pub record Inv (pending : Option ℕ) (loose : List ℕ) (s : Shard K V C X T S Q) : Type ℓ where
    pub indexer_wf : IsIndexed s.indexer s.memory
    pub eviction_wf : IsEvictable s.eviction s.memory
    -- The indexer covers the eviction container.
    pub covered : (q : ℕ) → in_eviction s.memory q ≡ true → in_indexer s.memory q ≡ true
    -- A handle that nobody refers to is in the eviction container, or is released.
    pub kept :
        (q : ℕ)
        → is_inited (s.memory q).base ≡ true
        → (s.memory q).base.refs ≡ 0
        → is_at pending q ≡ false
        → contains loose q ≡ false
        → in_eviction s.memory q ≡ true
    pub allocated : (q : ℕ) → is_inited (s.memory q).base ≡ true → q < s.next
    pub charges : (q : ℕ) → is_inited (s.memory q).base ≡ true → charge_of s.memory q < usize_mod
    -- A box in the pool is an uninited handle, and is there once.
    pub pooled :
        (q : ℕ) → 0 < count s.object_pool q → (is_inited (s.memory q).base ≡ false) × (q < s.next)
    pub pooled_once : (q : ℕ) → count s.object_pool q ≤ 1
    pub usage_sum : s.usage ≡ sum_below (weight pending s.memory) s.next % usize_mod
    pub pending_out :
        (q : ℕ)
        → is_at pending q ≡ true
        → (is_inited (s.memory q).base ≡ true) × (in_eviction s.memory q ≡ false)

  -- Between the operations.
  abbrev pub IsValid : Shard K V C X T S Q → Type ℓ
  IsValid s = Inv none [] s

  -- An indexed handle is inited.
  pub indexed_inited :
      (s : Shard K V C X T S Q) (q : ℕ)
      → IsIndexed s.indexer s.memory
      → in_indexer s.memory q ≡ true
      → is_inited (s.memory q).base ≡ true
  unfolding key
  indexed_inited s q w on =
      let (k, e, _) = parts.indexer_laws.indexed q s.indexer s.memory w on in ground (arith, e)

  -- The charges of all handles that the shard counts.
  abbrev pub total : Option ℕ → Shard K V C X T S Q → ℕ
  total pending s = sum_below (weight pending s.memory) s.next

  pub flagged_sum :
      (pending : Option ℕ) (index evict : ℕ → Bool) (m m' : Memory K V C X) (n : ℕ)
      → ((q : ℕ) → (m' q).base ≡ flagged (index q) (evict q) (m q).base)
      → sum_below (weight pending m) n ≡ sum_below (weight pending m') n
  flagged_sum pending index evict m m' n bases =
      sum_below_cong _ _ n (λ q _. ground (arith, bases q))

  -- The containers move handles by their flags alone; what is left to show of the invariant is
  -- which flags are set.
  pub flagged-Inv :
      (pending : Option ℕ) (loose loose' : List ℕ) (index evict : ℕ → Bool)
      (s : Shard K V C X T S Q) (t : T) (v : S) (m : Memory K V C X) (x : Metrics)
      → Inv pending loose s
      → IsIndexed t m
      → IsEvictable v m
      → ((q : ℕ) → (m q).base ≡ flagged (index q) (evict q) (s.memory q).base)
      → ((q : ℕ) → evict q ≡ true → index q ≡ true)
      → ((q : ℕ) → is_at pending q ≡ true → evict q ≡ false)
      → ((q : ℕ)
          → is_inited (s.memory q).base ≡ true
          → (s.memory q).base.refs ≡ 0
          → is_at pending q ≡ false
          → contains loose' q ≡ false
          → evict q ≡ true)
      → Inv pending loose' (record s { indexer = t; eviction = v; memory = m; metrics = x })
  flagged-Inv pending loose loose' index evict s t v m x w wt wv bases cover out keep = record {
    indexer_wf = wt;
    eviction_wf = wv;
    covered = λ q on. ground (arith, bases q, cover q);
    kept = λ q a b c d. ground (arith, bases q, keep q);
    allocated = λ q a. ground (arith, bases q, w.allocated q);
    charges = λ q a. ground (arith, bases q, w.charges q);
    pooled = λ q a. ground (arith, bases q, w.pooled q);
    pooled_once = w.pooled_once;
    usage_sum =
        w.usage_sum
        ∙ ap (λ n. n % usize_mod) (flagged_sum pending index evict s.memory m s.next bases);
    pending_out = λ q a. ground (arith, bases q, w.pending_out q, out q);
  }

  -- Each container is indifferent to the flag of the other.
  pub IsIndexed-after_eviction :
      (t : T) (m m' : Memory K V C X) (f : ℕ → Bool)
      → IsIndexed t m
      → ((q : ℕ) → (m' q).base ≡ set_in_eviction (f q) (m q).base)
      → IsIndexed t m'
  unfolding key
  IsIndexed-after_eviction t m m' f w bases =
      parts.indexer_laws.stable t m m' w (λ q. ground (arith, bases q))
        (λ q on. (ground (arith, bases q), ground (arith, bases q)))

  pub IsEvictable-after_index :
      (v : S) (m m' : Memory K V C X) (f : ℕ → Bool)
      → IsEvictable v m
      → ((q : ℕ) → (m' q).base ≡ set_in_indexer (f q) (m q).base)
      → ((q : ℕ) → (m' q).own ≡ (m q).own)
      → IsEvictable v m'
  IsEvictable-after_index v m m' f w bases owns =
      parts.eviction_laws.stable v m m' w owns (λ q. ground (arith, bases q))
        (λ q on. ground (arith, bases q))

  -- The pointer that the indexer has for the key of an indexed handle.
  pub get_own_key :
      (k : K) (p : ℕ) (t : T) (m : Memory K V C X)
      → IsIndexed t m
      → in_indexer m p ≡ true
      → key (m p).base ≡ some k
      → parts.i.get (parts.keys.hash_one k) k t m ≡ some p
  get_own_key k p t m w on e = go (parts.i.get (parts.keys.hash_one k) k t m) refl
    where
      go : (found : Option ℕ) → parts.i.get (parts.keys.hash_one k) k t m ≡ found → found ≡ some p
      go none f = absurd (parts.indexer_laws.get_none k p t m w f on e)
      go (some q) f =
          let (on', e') = parts.indexer_laws.get_some k q t m w f in
          ap some (parts.indexer_laws.unique q p t m w on' on (e' ∙ sym e))

  -- A change of one reference count keeps the invariant, if the count is not zero, or the handle
  -- is in the eviction container, or is about to be released.
  pub counted-Inv :
      (pending : Option ℕ) (loose loose' : List ℕ) (g : ℕ → ℕ) (p : ℕ) (s : Shard K V C X T S Q)
      → Inv pending loose s
      → ((q : ℕ) → (q == p) ≡ false → contains loose' q ≡ contains loose q)
      → (is_inited (s.memory p).base ≡ true
          → g (s.memory p).base.refs ≡ 0
          → contains loose' p ≡ false
          → in_eviction s.memory p ≡ true)
      → Inv pending loose'
          (record s { memory = on_base (λ b. record b { refs = g b.refs }) p s.memory })
  unfolding key
  counted-Inv pending loose loose' g p s w same keep = record {
    indexer_wf =
        parts.indexer_laws.stable s.indexer s.memory _ w.indexer_wf (λ q. ground arith)
          (λ q on. (ground arith, ground arith));
    eviction_wf =
        parts.eviction_laws.stable s.eviction s.memory _ w.eviction_wf (λ q. ground arith)
          (λ q. ground arith) (λ q on. ground arith);
    covered = λ q on. ground (arith, w.covered q);
    kept = λ q a b c d. elim (Bool-cases (q == p)) [
      | inl here ↦ ground (arith, keep, here, a, b, d, (==_iff q p).0 here)
      | inr other ↦ ground (arith, w.kept q, same q other, other, a, b, c, d)
    ];
    allocated = λ q a. ground (arith, w.allocated q);
    charges = λ q a. ground (arith, w.charges q);
    pooled = λ q a. ground (arith, w.pooled q);
    pooled_once = w.pooled_once;
    usage_sum =
        w.usage_sum
        ∙ ap (λ n. n % usize_mod)
            (sum_below_cong (weight pending s.memory) _ s.next (λ q _. ground arith));
    pending_out = λ q a. ground (arith, w.pending_out q);
  }
