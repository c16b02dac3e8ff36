-- ===== src/Memory/Shard/Clear.antt =====
-- `clear` of foyer-memory/src/generic.rs.
use foyer.Prelude.{
  ℕ, ◌≡◌, refl, sym, subst, ◌∙◌, inl, inr, true, false, none, some, List, [], ◌∷◌, arith, ◌==◌,
  ==_iff, ==_refl, Bool-cases, wrapping_add, contains, length, IsDistinct,
}
use foyer.Memory.Handle.{in_eviction, in_indexer, is_inited}
use foyer.Memory.Shard.{Shard, Metrics, Entry, collect, release_each, clear}
use foyer.Memory.Shard.Invariant.{
  Parts, Inv, IsValid, flagged, flagged-Inv, indexed_inited, IsIndexed-after_eviction,
  IsEvictable-after_index,
}
use foyer.Memory.Shard.Release.{try_release_handle-Releases}

module _ {ℓ} {K V : Type ℓ} {C X T S Q : Type 0} (parts : Parts K V C X T S Q) where
  open parts use {
    e, i, o, keys, IsEvictable, IsIndexed, count, eviction_laws, indexer_laws, pool_laws,
  }

  apart :
      (p q : ℕ) (ps : List ℕ)
      → contains (p ∷ ps) q ≡ false
      → ((q == p) ≡ false) × (contains ps q ≡ false)
  unfolding contains
  apart p q ps a = (ground (arith, a), ground (arith, a))

  -- The loop: it releases every handle that nobody refers to, and puts none back.
  release_each-Inv :
      (ps : List ℕ) (s : Shard K V C X T S Q) (out : List (Entry K V C))
      → Inv parts none ps s
      → IsDistinct ps
      → ((q : ℕ) → contains ps q ≡ true → is_inited (s.memory q).base ≡ true)
      → ((q : ℕ) → in_indexer s.memory q ≡ false)
      → (out' : List (Entry K V C)) × (s' : Shard K V C X T S Q) × (release_each e i o ps s out
          ≡ some (out', s'))
        × IsValid parts s'
        × ((q : ℕ) → in_indexer s'.memory q ≡ false)
        × ((q : ℕ) → contains ps q ≡ false → (s'.memory q).base ≡ (s.memory q).base)
  unfolding release_each contains
  release_each-Inv [] s out w d live off = (out, s, refl, w, off, λ q a. refl)
  release_each-Inv (p ∷ ps) s out w d live off =
      let (r, s1, f, x, _) =
        try_release_handle-Releases parts none ps p false s w (ground (arith, live p, ==_refl p))
          refl in
      let (out', s', g, w', off', others) =
        release_each-Inv ps s1 (collect r out) x.inv d.1
          (λ q a. elim (Bool-cases (q == p)) [
            | inl here ↦ absurd (ground (arith, a, d.0, (==_iff q p).0 here))
            | inr other ↦ ground (arith, x.others q other, live q, a, other)
          ])
          (λ q. elim (Bool-cases (q == p)) [
            | inl here ↦
                subst (λ z. in_indexer s1.memory z ≡ false) (sym ((==_iff q p).0 here))
                  (x.off_stays (off p))
            | inr other ↦ ground (arith, x.others q other, off q)
          ]) in
      (
        out',
        s',
        rw f g,
        w',
        off',
        λ q a. let (far, out_of) = apart p q ps a in others q out_of ∙ x.others q far,
      )

  -- `clear` never faults and keeps the shard valid; no handle is in the indexer afterwards, nor in
  -- the eviction container, and a handle is still inited only if there is a reference to it.
  pub clear-IsValid :
      (s : Shard K V C X T S Q) (out : List (Entry K V C))
      → IsValid parts s
      → (out' : List (Entry K V C)) × (s' : Shard K V C X T S Q) × (clear e i o s out
          ≡ some (out', s'))
        × IsValid parts s'
        × ((q : ℕ) → in_indexer s'.memory q ≡ false)
        × ((q : ℕ) → in_eviction s'.memory q ≡ false)
        × ((q : ℕ) → (s'.memory q).base.refs ≡ 0 → is_inited (s'.memory q).base ≡ false)
  unfolding clear contains
  clear-IsValid s out w =
      let (ps, t, m, f, d, all, y) = indexer_laws.drain_law s.indexer s.memory w.indexer_wf in
      let wv = IsEvictable-after_index parts s.eviction s.memory m _ w.eviction_wf y.bases y.owns in
      let (qs, v, m', g, _, z) = eviction_laws.clear_law s.eviction m wv in
      let x : Metrics = record s.metrics { remove = wrapping_add s.metrics.remove (length ps) } in
      let s1 : Shard K V C X T S Q = record s {
        indexer = t;
        eviction = v;
        memory = m';
        metrics = x;
      } in
      let bases : (q : ℕ) → (m' q).base ≡ flagged false false (s.memory q).base =
        λ q. ground (arith, y.bases q, z.bases q) in
      let w1 : Inv parts none ps s1 =
        flagged-Inv parts none [] ps (λ q. false) (λ q. false) s t v m' x w
          (IsIndexed-after_eviction parts t m m' _ y.wf z.bases) z.wf bases (λ q a. a) (λ q a. refl)
          (λ q a b c d. absurd (ground (arith, w.kept q a b refl refl, w.covered q, all q, d))) in
      let (out', s', h, w', off, _) =
        release_each-Inv ps s1 out w1 d
          (λ q a. ground (arith, bases q, indexed_inited parts s q w.indexer_wf (sym (all q) ∙ a)))
          (λ q. ground (arith, bases q)) in
      let out_of : (q : ℕ) → in_eviction s'.memory q ≡ false =
        λ q. ground (arith, w'.covered q, off q) in
      (out', s', rw (f, g) h, w', off, out_of, λ q a. ground (arith, w'.kept q, out_of q, a))
