-- ===== src/Memory/Shard/Replace.antt =====
-- `insert` of foyer-memory/src/generic.rs from the indexer to the push: the handle that the new one
-- replaces is released.
use foyer.Prelude.{
  ℕ, ◌≤◌, ◌≡◌, refl, true, false, not, ◌&&◌, ◌||◌, Option, none, some, List, [], ◌∷◌, arith, ◌==◌,
  ==_refl, wrapping_add, contains,
}
use foyer.Memory.Handle.{Memory, in_eviction, in_indexer, set_in_indexer}
use foyer.Memory.Indexer.{IndexEffect, is_at}
use foyer.Memory.Shard.{Shard, Metrics, Entry, collect, replace}
use foyer.Memory.Shard.Invariant.{
  Parts, Inv, flagged, flagged-Inv, indexed_inited, IsIndexed-after_eviction,
  IsEvictable-after_index, total, flagged_sum,
}
use foyer.Memory.Shard.Release.{try_release_handle-Releases, remove_from_eviction_lem}

module _ {ℓ} {K V : Type ℓ} {C X T S Q : Type 0} (parts : Parts K V C X T S Q) where
  open parts use {
    e, i, o, keys, IsEvictable, IsIndexed, count, eviction_laws, indexer_laws, pool_laws,
  }

  -- The state between the indexer and the push: the new handle is indexed.
  pub record Replaces (p : ℕ) (s s' : Shard K V C X T S Q) : Type ℓ where
    pub inv : Inv parts (some p) [] s'
    pub base : (s'.memory p).base ≡ set_in_indexer true (s.memory p).base
    pub capacity_kept : s'.capacity ≡ s.capacity
    pub total_le : total parts (some p) s' ≤ total parts (some p) s

  pub replace_none :
      (p : ℕ) (s : Shard K V C X T S Q) (t : T) (m : Memory K V C X) (x : Metrics)
      → Inv parts (some p) [] s
      → IndexEffect IsIndexed s.memory
          (λ q. q == p || in_indexer s.memory q && not (is_at none q))
          t
          m
      → Replaces p s (record s { indexer = t; memory = m; metrics = x })
  replace_none p s t m x w y =
      let index = λ (q : ℕ). q == p || in_indexer s.memory q && not (is_at none q) in
      let bases : (q : ℕ)
          → (m q).base ≡ flagged (index q) (in_eviction s.memory q) (s.memory q).base =
        λ q. ground (arith, y.bases q) in
      record {
        inv =
            flagged-Inv parts (some p) [] [] index (in_eviction s.memory) s t s.eviction m x w y.wf
              (IsEvictable-after_index parts s.eviction s.memory m _ w.eviction_wf y.bases y.owns)
              bases (λ q a. ground (arith, w.covered q)) (λ q a. (w.pending_out q a).1) w.kept;
        base = ground (arith, y.bases p, ==_refl p);
        capacity_kept = refl;
        total_le = omega (
          arith,
          flagged_sum parts (some p) index (in_eviction s.memory) s.memory m s.next bases,
        );
      }

  pub replace_some :
      (p old : ℕ) (s : Shard K V C X T S Q) (t : T) (m : Memory K V C X) (out : List (Entry K V C))
      → Inv parts (some p) [] s
      → in_indexer s.memory p ≡ false
      → in_indexer s.memory old ≡ true
      → IndexEffect IsIndexed s.memory
          (λ q. q == p || in_indexer s.memory q && not (is_at (some old) q))
          t
          m
      → (out' : List (Entry K V C)) × (s' : Shard K V C X T S Q) × (replace e i o
            (some old)
            (record s { indexer = t; memory = m })
            out
          ≡ some (out', s'))
        × Replaces p s s'
  unfolding replace contains
  replace_some p old s t m out w off on y =
      let ne : (old == p) ≡ false = ground (arith, on, off) in
      let ne' : (p == old) ≡ false = ground (arith, on, off) in
      let index = λ (q : ℕ). q == p || in_indexer s.memory q && not (q == old) in
      let evict = λ (q : ℕ). in_eviction s.memory q && not (q == old) in
      let x = record s.metrics { replace = wrapping_add s.metrics.replace 1 } in
      let s1 : Shard K V C X T S Q = record s { indexer = t; memory = m; metrics = x } in
      let (v, m', f, wv, bases', _) =
        remove_from_eviction_lem parts old s1
          (IsEvictable-after_index parts s.eviction s.memory m _ w.eviction_wf y.bases y.owns) in
      let bases : (q : ℕ) → (m' q).base ≡ flagged (index q) (evict q) (s.memory q).base =
        λ q. ground (arith, y.bases q, bases' q) in
      let s2 : Shard K V C X T S Q = record s {
        indexer = t;
        eviction = v;
        memory = m';
        metrics = x;
      } in
      let w2 : Inv parts (some p) (old ∷ []) s2 =
        flagged-Inv parts (some p) [] (old ∷ []) index evict s t v m' x w
          (IsIndexed-after_eviction parts t m m' _ y.wf bases') wv bases
          (λ q a. ground (arith, w.covered q)) (λ q a. ground (arith, w.pending_out q))
          (λ q a b c d. ground (arith, w.kept q a b c, d)) in
      let live = indexed_inited parts s old w.indexer_wf on in
      let (r, s3, g, z, _) =
        try_release_handle-Releases parts (some p) [] old false s2 w2
          (ground (arith, bases old, live)) ne in
      (
        collect r out,
        s3,
        rw (f, g) refl,
        record {
          inv = z.inv;
          base = ground (arith, z.others p ne', bases p, ==_refl p, ne');
          capacity_kept = z.capacity_kept;
          total_le =
              omega (
                arith,
                z.total_le,
                flagged_sum parts (some p) index evict s.memory m' s.next bases,
              );
        },
      )

  -- Both cases, after the call of the indexer.
  pub replace-Replaces :
      (p : ℕ) (found : Option ℕ) (k : K) (s : Shard K V C X T S Q) (t : T) (m : Memory K V C X)
      (out : List (Entry K V C))
      → Inv parts (some p) [] s
      → in_indexer s.memory p ≡ false
      → i.get (keys.hash_one k) k s.indexer s.memory ≡ found
      → IndexEffect IsIndexed s.memory
          (λ q. q == p || in_indexer s.memory q && not (is_at found q))
          t
          m
      → (out' : List (Entry K V C)) × (s' : Shard K V C X T S Q) × (replace e i o found
            (record s { indexer = t; memory = m })
            out
          ≡ some (out', s'))
        × Replaces p s s'
  unfolding replace
  replace-Replaces p none k s t m out w off f y = (out, _, refl, replace_none p s t m _ w y)
  replace-Replaces p (some old) k s t m out w off f y =
      let (on, _) = indexer_laws.get_some k old s.indexer s.memory w.indexer_wf f in
      replace_some p old s t m out w off on y
