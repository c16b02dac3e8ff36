-- ===== src/Memory/Shard/Insert.antt =====
-- `insert` of foyer-memory/src/generic.rs.
use foyer.Prelude.{
  ℕ, ◌+◌, ◌%◌, ◌≤◌, ◌<◌, ◌≡◌, refl, ap, subst, ◌∙◌, ◌⊎◌, inl, inr, true, false, ◌||◌, Option, none,
  some, List, [], arith, ◌==◌, ==_refl, usize_mod, wrapping_add, wrapping_add-mod, contains,
}
use foyer.Memory.Handle.{
  Memory, on_base, in_eviction, in_indexer, charge_of, is_inited, set_in_eviction, init, key,
  inc_refs, is_in_eviction,
}
use foyer.Memory.Eviction.{Effect}
use foyer.Memory.Shard.{Shard, Entry, alloc, replace, enlist, evict, insert}
use foyer.Memory.Shard.Sum.{sum_below, sum_below_cong, sum_below_change}
use foyer.Memory.Shard.Invariant.{
  Parts, Inv, IsValid, weight, counted-Inv, indexed_inited, IsIndexed-after_eviction, get_own_key,
  total,
}
use foyer.Memory.Shard.Evict.{HasRoom, evict-Evicts}
use foyer.Memory.Shard.Alloc.{alloc-IsSpare, init-Inv}
use foyer.Memory.Shard.Replace.{replace-Replaces}

module _ {ℓ} {K V : Type ℓ} {C X T S Q : Type 0} (parts : Parts K V C X T S Q) where
  open parts use {
    e, i, o, keys, IsEvictable, IsIndexed, count, eviction_laws, indexer_laws, pool_laws,
  }

  enlisted_sum :
      (p charge n : ℕ) (m m' : Memory K V C X)
      → p < n
      → is_inited (m p).base ≡ true
      → charge_of m p ≡ charge
      → ((q : ℕ) → (m' q).base ≡ set_in_eviction (q == p || in_eviction m q) (m q).base)
      → sum_below (weight none m') n ≡ sum_below (weight (some p) m) n + charge
  enlisted_sum p charge n m m' below live charged bases =
      let before : weight (some p) m p ≡ 0 = ground (arith, ==_refl p) in
      let after : weight none m' p ≡ charge = ground (arith, bases p, live, charged) in
      omega (
        arith,
        before,
        after,
        sum_below_change (weight (some p) m) (weight none m') p n below
            (λ q h. ground (arith, bases q, h)),
      )

  -- The push, before the reference is counted.
  pushed-IsValid :
      (p charge : ℕ) (s : Shard K V C X T S Q) (v : S) (m : Memory K V C X)
      → Inv parts (some p) [] s
      → in_indexer s.memory p ≡ true
      → charge_of s.memory p ≡ charge
      → Effect IsEvictable s.memory (λ q. q == p || in_eviction s.memory q) v m
      → let s' : Shard K V C X T S Q = record s {
        eviction = v;
        usage = wrapping_add s.usage charge;
        memory = m;
      } in
        IsValid parts s' × (total parts none s' ≡ total parts (some p) s + charge)
  pushed-IsValid p charge s v m w on charged y =
      let live = indexed_inited parts s p w.indexer_wf on in
      let sums =
        enlisted_sum p charge s.next s.memory m (w.allocated p live) live charged y.bases in
      (
        record {
          indexer_wf = IsIndexed-after_eviction parts s.indexer s.memory m _ w.indexer_wf y.bases;
          eviction_wf = y.wf;
          covered = λ q a. ground (arith, y.bases q, w.covered q, on);
          kept = λ q a b c d. ground (arith, y.bases q, w.kept q);
          allocated = λ q a. ground (arith, y.bases q, w.allocated q);
          charges = λ q a. ground (arith, y.bases q, w.charges q);
          pooled = λ q a. ground (arith, y.bases q, w.pooled q);
          pooled_once = w.pooled_once;
          usage_sum = wrapping_add-mod _ _ _ _ w.usage_sum sums;
          pending_out = λ q a. ground arith;
        },
        sums,
      )

  enlist_lem :
      (p charge : ℕ) (s : Shard K V C X T S Q)
      → Inv parts (some p) [] s
      → in_indexer s.memory p ≡ true
      → charge_of s.memory p ≡ charge
      → (s' : Shard K V C X T S Q) × (enlist e i o p charge s ≡ some s')
        × IsValid parts s'
        × ((s'.memory p).base ≡ inc_refs (set_in_eviction true (s.memory p).base))
        × (s'.capacity ≡ s.capacity)
        × (total parts none s' ≡ total parts (some p) s + charge)
  unfolding enlist inc_refs contains
  enlist_lem p charge s w on charged =
      let live = indexed_inited parts s p w.indexer_wf on in
      let out : in_eviction s.memory p ≡ false = (w.pending_out p (==_refl p)).1 in
      let (v, m, f, y) =
        eviction_laws.push_law p s.eviction s.memory w.eviction_wf live out (w.charges p live) in
      let (w1, sums) = pushed-IsValid p charge s v m w on charged y in
      (
        _,
        rw f refl,
        counted-Inv parts none [] [] (λ n. wrapping_add n 1) p _ w1 (λ q a. refl)
            (λ a b c. ground (arith, y.bases p, ==_refl p)),
        ground (arith, y.bases p, ==_refl p),
        refl,
        sum_below_cong _ _ s.next (λ q _. ground arith) ∙ sums,
      )

  -- The shard when `insert` calls `evict`: the new handle is inited and counted nowhere.
  abbrev pub prepared : K → V → C → ℕ → Shard K V C X T S Q → Shard K V C X T S Q
  prepared k v c charge s =
      let (p, s1) = alloc e i o s in
      record s1 { memory = on_base (init (keys.hash_one k) k v charge c) p s1.memory }

  -- What `insert` promises of the shard afterwards, where `p` is the new handle.
  pub record Inserts (k : K) (v : V) (c : C) (charge p : ℕ) (s : Shard K V C X T S Q)
      (out : List (Entry K V C)) (s' : Shard K V C X T S Q) : Type ℓ where
    pub valid : IsValid parts s'
    pub found : i.get (keys.hash_one k) k s'.indexer s'.memory ≡ some p
    pub entry : (s'.memory p).base.entry ≡ some (k, v, c)
    pub refs : (s'.memory p).base.refs ≡ 1
    pub evictable : in_eviction s'.memory p ≡ true
    pub capacity_kept : s'.capacity ≡ s.capacity
    pub room :
        total parts none s + charge < usize_mod
        → (s'.usage ≤ s'.capacity)
          ⊎ ((out3 : List (Entry K V C)) × (s0 s3 : Shard K V C X T S Q) × (evict e i o charge
                  (prepared k v c charge s)
                  out
                ≡ some (out3, s3))
              × (e.pop s0.eviction s0.memory ≡ some (none, s3.eviction, s3.memory)))

  -- The usage after the push is within the capacity, if `evict` made room.
  room_after :
      (charge t t1 t2 t3 usage3 usage6 capacity : ℕ)
      → wrapping_add usage3 charge ≤ capacity
      → usage3 ≡ t1 % usize_mod
      → usage6 ≡ t3 % usize_mod
      → t1 ≤ t
      → t2 ≤ t1
      → t3 ≡ t2 + charge
      → t + charge < usize_mod
      → usage6 ≤ capacity
  unfolding wrapping_add
  room_after charge t t1 t2 t3 usage3 usage6 capacity a b c d f g h = omega arith

  -- The calls of `insert`, in their order.
  insert_steps :
      (h : ℕ) (k : K) (v : V) (c : C) (charge p : ℕ) (s s1 s3 s5 s6 : Shard K V C X T S Q)
      (out out3 out5 : List (Entry K V C)) (old : Option ℕ) (t : T) (m : Memory K V C X)
      → alloc e i o s ≡ (p, s1)
      → evict e i o charge (record s1 { memory = on_base (init h k v charge c) p s1.memory }) out
        ≡ some (out3, s3)
      → i.insert p s3.indexer s3.memory ≡ some (old, t, m)
      → replace e i o old (record s3 { indexer = t; memory = m }) out3 ≡ some (out5, s5)
      → enlist e i o p charge s5 ≡ some s6
      → insert e i o h k v charge c s out ≡ some (p, out5, s6)
  unfolding insert
  insert_steps h k v c charge p s s1 s3 s5 s6 out out3 out5 old t m f1 f3 f4 f5 f6 =
      rw (f1, f3, f4, f5, f6) refl

  -- `insert` never faults: it makes a handle with one reference, which the indexer finds for the
  -- key and which is in the eviction container, and keeps the shard valid. If the charges of all
  -- handles and the new one fit in a word, the usage is then at most the capacity, or else the
  -- call of `evict` ended because the eviction algorithm had no handle to give.
  pub insert-Inserts :
      (k : K) (v : V) (c : C) (charge : ℕ) (s : Shard K V C X T S Q) (out : List (Entry K V C))
      → IsValid parts s
      → charge < usize_mod
      → (p : ℕ) × (out' : List (Entry K V C)) × (s' : Shard K V C X T S Q) × (insert e i o
            (keys.hash_one k)
            k
            v
            charge
            c
            s
            out
          ≡ some (p, out', s'))
        × Inserts k v c charge p s out s'
  unfolding key HasRoom inc_refs wrapping_add
  insert-Inserts k v c charge s out w bound =
      let (p, s1, f1, spare, cap1, sum1) = alloc-IsSpare parts s w in
      let (w2, pend, off, sum2) = init-Inv parts k v c charge p s1 spare bound in
      let m2 : Memory K V C X = on_base (init (keys.hash_one k) k v charge c) p s1.memory in
      let s2 : Shard K V C X T S Q = record s1 { memory = m2 } in
      let (out3, s3, f3, y3) = evict-Evicts parts (some p) charge s2 out w2 in
      let out_of : in_eviction m2 p ≡ false = (w2.pending_out p (==_refl p)).1 in
      let same3 : (s3.memory p).base ≡ (m2 p).base = y3.untouched p out_of in
      let off3 : in_indexer s3.memory p ≡ false = ground (arith, same3, off) in
      let (t, m, f4, x4) =
        indexer_laws.insert_law p k s3.indexer s3.memory y3.inv.indexer_wf
          (ground (arith, same3, pend.entry)) (ground (arith, same3, pend.hash)) off3 in
      let (out5, s5, f5, y5) = replace-Replaces parts p _ k s3 t m out3 y3.inv off3 refl x4 in
      let (s6, f6, w6, base6, cap6, sum6) =
        enlist_lem p charge s5 y5.inv (ground (arith, y5.base))
          (ground (arith, y5.base, same3, pend.charged)) in
      let entry6 : (s6.memory p).base.entry ≡ some (k, v, c) =
        ap (λ b. b.entry) base6
        ∙ ap (λ b. b.entry) y5.base
        ∙ ap (λ b. b.entry) same3
        ∙ pend.entry in
      let refs6 : (s6.memory p).base.refs ≡ 1 = ground (arith, base6, y5.base, same3, pend.idle) in
      (
        p,
        out5,
        s6,
        insert_steps _ k v c charge p s s1 s3 s5 s6 out out3 out5 _ t m f1 f3 f4 f5 f6,
        record {
          valid = w6;
          found =
              get_own_key parts k p s6.indexer s6.memory w6.indexer_wf
                (ground (arith, base6, y5.base)) (ground (arith, entry6));
          entry = entry6;
          refs = refs6;
          evictable = ap is_in_eviction base6;
          capacity_kept = cap6 ∙ y5.capacity_kept ∙ y3.capacity_kept ∙ cap1;
          room = λ fits.
              elim y3.room
                as (λ _.
                  (s6.usage ≤ s6.capacity)
                  ⊎ ((out3 : List (Entry K V C)) × (s0 s3 : Shard K V C X T S Q) × (evict e i o
                          charge (prepared k v c charge s) out
                        ≡ some (out3, s3))
                      × (e.pop s0.eviction s0.memory ≡ some (none, s3.eviction, s3.memory)))) [
                        | inl a ↦ inl (
                            room_after charge _ _ _ _ _ _ _
                              (ground (arith, a, cap6, y5.capacity_kept)) y3.inv.usage_sum
                              w6.usage_sum
                              (subst (λ n. total parts (some p) s3 ≤ n) (sum2 ∙ sum1) y3.total_le)
                              y5.total_le sum6 fits)
                        | inr (s0, g) ↦ inr (out3, s0, s3, rw (f1, f3) refl, g)
                      ];
        },
      )
