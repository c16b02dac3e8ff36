-- ===== src/Memory/Shard/Evict.antt =====
-- The loop of `evict` in foyer-memory/src/generic.rs.
use foyer.Prelude.{
  ℕ, zero, suc, ◌≤◌, ◌<◌, ◌≡◌, refl, ap, ◌∙◌, ◌⊎◌, inl, inr, false, not, ◌&&◌, Option, none, some,
  List, [], ◌∷◌, arith, ltb, ◌==◌, ==_refl, ltb→ge, Bool-cases, wrapping_add, contains,
}
use foyer.Memory.Handle.{Memory, in_eviction, in_indexer}
use foyer.Memory.Eviction.{Effect}
use foyer.Memory.Shard.{Shard, Metrics, Entry, with_eviction, collect, evict_loop, evict}
use foyer.Memory.Shard.Invariant.{
  Parts, Inv, flagged-Inv, indexed_inited, IsIndexed-after_eviction, total, flagged_sum,
}
use foyer.Memory.Shard.Release.{try_release_handle-Releases}

module _ {ℓ} {K V : Type ℓ} {C X T S Q : Type 0} (parts : Parts K V C X T S Q) where
  open parts use {e, i, o, IsEvictable, IsIndexed, eviction_laws}

  -- There is room for the charge, or the eviction container had no handle to give.
  unfoldable pub HasRoom : ℕ → Shard K V C X T S Q → Type ℓ
  HasRoom charge s' =
      (wrapping_add s'.usage charge ≤ s'.capacity)
      ⊎ ((s0 : Shard K V C X T S Q) × (e.pop s0.eviction s0.memory
            ≡ some (none, s'.eviction, s'.memory)))

  -- What the loop promises: handles outside the eviction container are left alone.
  pub record Evicts (pending : Option ℕ) (charge : ℕ) (s s' : Shard K V C X T S Q) : Type ℓ where
    pub inv : Inv parts pending [] s'
    pub untouched :
        (q : ℕ) → in_eviction s.memory q ≡ false → (s'.memory q).base ≡ (s.memory q).base
    pub capacity_kept : s'.capacity ≡ s.capacity
    pub total_le : total parts pending s' ≤ total parts pending s
    pub room : HasRoom charge s'

  -- The state after a handle was popped, before it is released.
  popped-Inv :
      (pending : Option ℕ) (p : ℕ) (s : Shard K V C X T S Q) (v : S) (m : Memory K V C X)
      (x : Metrics)
      → Inv parts pending [] s
      → Effect IsEvictable s.memory (λ q. in_eviction s.memory q && not (q == p)) v m
      → Inv parts pending (p ∷ []) (record s { eviction = v; memory = m; metrics = x })
  unfolding contains
  popped-Inv pending p s v m x w y =
      flagged-Inv parts pending [] (p ∷ []) (in_indexer s.memory)
        (λ q. in_eviction s.memory q && not (q == p)) s s.indexer v m x w
        (IsIndexed-after_eviction parts s.indexer s.memory m _ w.indexer_wf y.bases) y.wf
        (λ q. ground (arith, y.bases q)) (λ q a. w.covered q (ground (arith, a)))
        (λ q a. ground (arith, w.pending_out q)) (λ q a b c d. ground (arith, w.kept q a b c, d))

  evict_loop_lem :
      (pending : Option ℕ) (fuel charge : ℕ) (s : Shard K V C X T S Q) (out : List (Entry K V C))
      → Inv parts pending [] s
      → e.len s.eviction < fuel
      → (out' : List (Entry K V C)) × (s' : Shard K V C X T S Q) × (evict_loop e i o fuel charge s
            out
          ≡ some (out', s'))
        × Evicts pending charge s s'
  unfolding evict_loop contains HasRoom
  evict_loop_lem pending zero charge s out w f = absurd (omega arith)
  evict_loop_lem pending (suc fuel) charge s out w f =
      elim (Bool-cases (ltb s.capacity (wrapping_add s.usage charge))) [
        | inr fits ↦ (
          out,
          s,
          rw fits refl,
          record {
            inv = w;
            untouched = λ q a. refl;
            capacity_kept = refl;
            total_le = omega arith;
            room = inl (ltb→ge _ _ fits);
          },
        )
        | inl over ↦ elim (eviction_laws.pop_law s.eviction s.memory w.eviction_wf) [
          | inl (v, m, g, y) ↦ (
            out,
            with_eviction s (v, m),
            rw (over, g) refl,
            record {
              inv =
                  flagged-Inv parts pending [] [] (in_indexer s.memory) (in_eviction s.memory) s
                    s.indexer v m s.metrics w
                    (IsIndexed-after_eviction parts s.indexer s.memory m _ w.indexer_wf y.bases)
                    y.wf (λ q. ground (arith, y.bases q)) w.covered (λ q a. (w.pending_out q a).1)
                    (λ q a b c d. w.kept q a b c d);
              untouched = λ q a. ground (arith, y.bases q, a);
              capacity_kept = refl;
              total_le = omega (
                arith,
                flagged_sum parts pending (in_indexer s.memory) (in_eviction s.memory) s.memory m
                    s.next (λ q. ground (arith, y.bases q)),
              );
              room = inr (s, g);
            },
          )
          | inr (p, v, m, g, on, size, y) ↦
              let s1 : Shard K V C X T S Q = record s {
                eviction = v;
                memory = m;
                metrics = record s.metrics { evict = wrapping_add s.metrics.evict 1 };
              } in
              let live = indexed_inited parts s p w.indexer_wf (w.covered p on) in
              let (r, s2, h, x, same) =
                try_release_handle-Releases parts pending [] p false s1
                  (popped-Inv pending p s v m _ w y) (ground (arith, y.bases p, live))
                  (ground (arith, w.pending_out p, on)) in
              let kept_ev : s2.eviction ≡ v = same refl (ground (arith, y.bases p, ==_refl p)) in
              let (out', s3, l, z) =
                evict_loop_lem pending fuel charge s2 (collect r out) x.inv
                  (omega (arith, ap e.len kept_ev)) in
              (
                out',
                s3,
                rw (over, g, h) l,
                record {
                  inv = z.inv;
                  untouched = λ q a.
                      let far : (q == p) ≡ false = ground (arith, a, on) in
                      let near : (m q).base ≡ (s.memory q).base = ground (arith, y.bases q, a) in
                      z.untouched q (ground (arith, x.others q far, near, a))
                      ∙ x.others q far
                      ∙ near;
                  capacity_kept = z.capacity_kept ∙ x.capacity_kept;
                  total_le = omega (
                    arith,
                    z.total_le,
                    x.total_le,
                    flagged_sum parts pending (in_indexer s.memory)
                        (λ q. in_eviction s.memory q && not (q == p)) s.memory m s.next
                        (λ q. ground (arith, y.bases q)),
                  );
                  room = z.room;
                },
              )
        ]
      ]

  -- `evict` never faults, and its loop ends. It keeps the invariant and leaves the handles
  -- outside the eviction container alone; then there is room for the charge, or the eviction
  -- algorithm had no handle to give.
  pub evict-Evicts :
      (pending : Option ℕ) (charge : ℕ) (s : Shard K V C X T S Q) (out : List (Entry K V C))
      → Inv parts pending [] s
      → (out' : List (Entry K V C)) × (s' : Shard K V C X T S Q) × (evict e i o charge s out
          ≡ some (out', s'))
        × Evicts pending charge s s'
  unfolding evict
  evict-Evicts pending charge s out w =
      evict_loop_lem pending (suc (e.len s.eviction)) charge s out w (omega arith)
