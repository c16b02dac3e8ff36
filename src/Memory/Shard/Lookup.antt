-- ===== src/Memory/Shard/Lookup.antt =====
-- `get` and `remove` of foyer-memory/src/generic.rs.
use foyer.Prelude.{
  some-inj, ℕ, ◌+◌, ◌<◌, ◌≡◌, refl, sym, ap, subst, ◌∙◌, inl, inr, true, false, not, ◌&&◌, Option,
  none, some, [], ◌∷◌, arith, ◌==◌, if◌then◌else◌, ==_iff, ==_refl, Bool-cases, Option-cases,
  usize_mod, wrapping_add, contains,
}
use foyer.Memory.Handle.{Memory, on_base, in_eviction, in_indexer, key, inc_refs}
use foyer.Memory.Indexer.{IndexEffect, is_at}
use foyer.Memory.Shard.{Shard, Entry, get_at, get, remove_at, remove}
use foyer.Memory.Shard.Invariant.{
  Parts, Inv, IsValid, flagged, flagged-Inv, counted-Inv, indexed_inited, IsIndexed-after_eviction,
  IsEvictable-after_index,
}
use foyer.Memory.Shard.Release.{
  Outcome, Outcome-flagged, try_release_handle-Releases, remove_from_eviction_lem,
}

module _ {ℓ} {K V : Type ℓ} {C X T S Q : Type 0} (parts : Parts K V C X T S Q) where
  open parts use {
    e, i, o, keys, IsEvictable, IsIndexed, count, eviction_laws, indexer_laws, pool_laws,
  }

  -- What `get` promises: it finds what the indexer has for the key, and counts a reference to it.
  pub Gets : Option ℕ → Shard K V C X T S Q → Shard K V C X T S Q → Type ℓ
  Gets found s s' =
      IsValid parts s'
      × ((q : ℕ)
          → (s'.memory q).base
            ≡ (if is_at found q then inc_refs (s.memory q).base else (s.memory q).base))

  get_at-Gets :
      (found : Option ℕ) (s : Shard K V C X T S Q)
      → IsValid parts s
      → ((p : ℕ) → found ≡ some p → (s.memory p).base.refs + 1 < usize_mod)
      → (s' : Shard K V C X T S Q) × (get_at e i o found s ≡ some (found, s')) × Gets found s s'
  unfolding get_at Gets inc_refs wrapping_add
  get_at-Gets none s w bound = (
    _,
    refl,
    (
      flagged-Inv parts none [] [] (in_indexer s.memory) (in_eviction s.memory) s s.indexer
          s.eviction s.memory _ w w.indexer_wf w.eviction_wf (λ q. refl) w.covered
          (λ q a. (w.pending_out q a).1) w.kept,
      λ q. refl,
    ),
  )
  get_at-Gets (some p) s w bound =
      let m = on_base inc_refs p s.memory in
      let s1 : Shard K V C X T S Q = record s { memory = m } in
      let w1 : IsValid parts s1 =
        counted-Inv parts none [] [] (λ n. wrapping_add n 1) p s w (λ q a. refl)
          (λ a z _. absurd (ground (arith, z, bound p refl))) in
      let (v, m', f, x) = eviction_laws.access_law p s.eviction m w1.eviction_wf in
      let bases : (q : ℕ) → (m' q).base ≡ flagged (in_indexer m q) (in_eviction m q) (m q).base =
        λ q. ground (arith, x.bases q) in
      (
        record s {
          eviction = v;
          memory = m';
          metrics = record s.metrics { hit = wrapping_add s.metrics.hit 1 };
        },
        rw f refl,
        (
          flagged-Inv parts none [] [] (in_indexer m) (in_eviction m) s1 s.indexer v m'
              (record s.metrics { hit = wrapping_add s.metrics.hit 1 }) w1
              (IsIndexed-after_eviction parts s.indexer m m' _ w1.indexer_wf x.bases) x.wf bases
              w1.covered (λ q a. (w1.pending_out q a).1) w1.kept,
          λ q. ground (arith, bases q),
        ),
      )

  -- `get` never faults and keeps the shard valid. It returns what the indexer has for the key, with
  -- one more reference, which may not overflow, and changes no other handle.
  pub get-Gets :
      (k : K) (s : Shard K V C X T S Q)
      → IsValid parts s
      → ((p : ℕ) → (s.memory p).base.refs + 1 < usize_mod)
      → (s' : Shard K V C X T S Q) × (get e i o (keys.hash_one k) k s
          ≡ some (i.get (keys.hash_one k) k s.indexer s.memory, s'))
        × Gets (i.get (keys.hash_one k) k s.indexer s.memory) s s'
  unfolding get
  get-Gets k s w bound = get_at-Gets _ s w (λ p a. bound p)

  -- What is left to do for a handle that the indexer has given back: after the eviction container
  -- let go of it as well, it is released.
  remove_some :
      (p : ℕ) (s : Shard K V C X T S Q) (t : T) (m : Memory K V C X)
      → IsValid parts s
      → in_indexer s.memory p ≡ true
      → IndexEffect IsIndexed s.memory (λ q. in_indexer s.memory q && not (is_at (some p) q)) t m
      → (r : Option (Entry K V C)) × (s' : Shard K V C X T S Q) × (remove_at e i o
            (some p)
            (record s { indexer = t; memory = m })
          ≡ some (r, s'))
        × IsValid parts s'
        × ((q : ℕ) → (q == p) ≡ false → (s'.memory q).base ≡ (s.memory q).base)
        × (in_indexer s'.memory p ≡ false)
        × Outcome parts p s r s'
  unfolding remove_at contains
  remove_some p s t m w on y =
      let index = λ (q : ℕ). in_indexer s.memory q && not (q == p) in
      let evict = λ (q : ℕ). in_eviction s.memory q && not (q == p) in
      let x = record s.metrics { remove = wrapping_add s.metrics.remove 1 } in
      let s1 : Shard K V C X T S Q = record s { indexer = t; memory = m; metrics = x } in
      let (v, m', f, wv, bases', _) =
        remove_from_eviction_lem parts p s1
          (IsEvictable-after_index parts s.eviction s.memory m _ w.eviction_wf y.bases y.owns) in
      let bases : (q : ℕ) → (m' q).base ≡ flagged (index q) (evict q) (s.memory q).base =
        λ q. ground (arith, y.bases q, bases' q) in
      let s2 : Shard K V C X T S Q = record s {
        indexer = t;
        eviction = v;
        memory = m';
        metrics = x;
      } in
      let w2 : Inv parts none (p ∷ []) s2 =
        flagged-Inv parts none [] (p ∷ []) index evict s t v m' x w
          (IsIndexed-after_eviction parts t m m' _ y.wf bases') wv bases
          (λ q a. ground (arith, w.covered q)) (λ q a. (ground (arith, w.pending_out q)))
          (λ q a b c d. ground (arith, w.kept q a b c, d)) in
      let live = indexed_inited parts s p w.indexer_wf on in
      let (r, s3, g, z, _) =
        try_release_handle-Releases parts none [] p false s2 w2 (ground (arith, bases p, live))
          refl in
      (
        r,
        s3,
        rw (f, g) refl,
        z.inv,
        λ q a. ground (arith, z.others q a, bases q, a),
        z.off_stays (ground (arith, bases p, ==_refl p)),
        Outcome-flagged parts (index p) (evict p) p s s2 s3 r (bases p) z.outcome,
      )

  -- What `remove` promises: the key is gone, other handles are left alone, and the handle that had
  -- the key is given up, with its entry, only if nobody refers to it.
  pub Removes :
      K → Option ℕ → Shard K V C X T S Q → Option (Entry K V C) → Shard K V C X T S Q → Type ℓ
  Removes k found s r s' =
      IsValid parts s'
      × (i.get (keys.hash_one k) k s'.indexer s'.memory ≡ none)
      × ((q : ℕ) → is_at found q ≡ false → (s'.memory q).base ≡ (s.memory q).base)
      × ((p : ℕ) → found ≡ some p → Outcome parts p s r s')

  -- The key of a removed handle is found no more.
  get_removed :
      (k : K) (found : Option ℕ) (s s' : Shard K V C X T S Q)
      → IsIndexed s.indexer s.memory
      → IsIndexed s'.indexer s'.memory
      → i.get (keys.hash_one k) k s.indexer s.memory ≡ found
      → ((q : ℕ) → is_at found q ≡ false → (s'.memory q).base ≡ (s.memory q).base)
      → ((p : ℕ) → found ≡ some p → in_indexer s'.memory p ≡ false)
      → i.get (keys.hash_one k) k s'.indexer s'.memory ≡ none
  unfolding key
  get_removed k found s s' w w' f others off =
      elim (Option-cases (i.get (keys.hash_one k) k s'.indexer s'.memory)) [
        | inl here ↦ here
        | inr (q, there) ↦
            let (on', at') = indexer_laws.get_some k q s'.indexer s'.memory w' there in
            absurd (same_key found q f on' at' off others)
      ]
    where
      same_key :
          (x : Option ℕ) (q : ℕ)
          → i.get (keys.hash_one k) k s.indexer s.memory ≡ x
          → in_indexer s'.memory q ≡ true
          → key (s'.memory q).base ≡ some k
          → ((p : ℕ) → x ≡ some p → in_indexer s'.memory p ≡ false)
          → ((q : ℕ) → is_at x q ≡ false → (s'.memory q).base ≡ (s.memory q).base)
          → ⊥
      same_key none q f on at off others =
          indexer_laws.get_none k q s.indexer s.memory w f (ground (arith, others q refl, on))
            (ap key (sym (others q refl)) ∙ at)
      same_key (some p) q f on at off others = elim (Bool-cases (q == p)) [
        | inl here ↦ absurd (ground (arith, off p refl, on, (==_iff q p).0 here))
        | inr other ↦
            let (on_p, at_p) = indexer_laws.get_some k p s.indexer s.memory w f in
            let same : q ≡ p =
              indexer_laws.unique q p s.indexer s.memory w (ground (arith, others q other, on)) on_p
                (ap key (sym (others q other)) ∙ at ∙ sym at_p) in
            ground (arith, same, other)
      ]

  remove_at-Removes :
      (k : K) (found : Option ℕ) (s : Shard K V C X T S Q) (t : T) (m : Memory K V C X)
      → IsValid parts s
      → i.get (keys.hash_one k) k s.indexer s.memory ≡ found
      → IndexEffect IsIndexed s.memory (λ q. in_indexer s.memory q && not (is_at found q)) t m
      → (r : Option (Entry K V C)) × (s' : Shard K V C X T S Q) × (remove_at e i o found
            (record s { indexer = t; memory = m })
          ≡ some (r, s'))
        × Removes k found s r s'
  unfolding remove_at Removes
  remove_at-Removes k none s t m w f y =
      let bases : (q : ℕ)
          → (m q).base
            ≡ flagged (in_indexer s.memory q) (in_eviction s.memory q) (s.memory q).base =
        λ q. ground (arith, y.bases q) in
      let s' : Shard K V C X T S Q = record s { indexer = t; memory = m } in
      let w' : IsValid parts s' =
        flagged-Inv parts none [] [] (in_indexer s.memory) (in_eviction s.memory) s t s.eviction m
          s.metrics w y.wf
          (IsEvictable-after_index parts s.eviction s.memory m _ w.eviction_wf y.bases y.owns) bases
          w.covered (λ q a. (w.pending_out q a).1) w.kept in
      let same : (q : ℕ) → (m q).base ≡ (s.memory q).base = λ q. bases q in
      (
        none,
        s',
        refl,
        (
          w',
          get_removed k none s s' w.indexer_wf y.wf f (λ q _. same q)
              (λ p a. absurd (ground (arith, a))),
          (λ q _. same q),
          (λ p a. absurd (ground (arith, a))),
        ),
      )
  remove_at-Removes k (some p) s t m w f y =
      let (on, _) = indexer_laws.get_some k p s.indexer s.memory w.indexer_wf f in
      let (r, s', g, w', others, off, became) = remove_some p s t m w on y in
      (
        r,
        s',
        g,
        (
          w',
          get_removed k (some p) s s' w.indexer_wf w'.indexer_wf f others
              (λ q a. subst (λ x. in_indexer s'.memory x ≡ false) (some-inj a) off),
          others,
          (λ q a. subst (λ x. Outcome parts x s r s') (some-inj a) became),
        ),
      )

  -- `remove` never faults and keeps the shard valid. Afterwards the key is not found, and the
  -- handle that had it is given up, with its entry, only if nobody refers to it. No other handle
  -- changes.
  pub remove-Removes :
      (k : K) (s : Shard K V C X T S Q)
      → IsValid parts s
      → (r : Option (Entry K V C)) × (s' : Shard K V C X T S Q) × (remove e i o
            (keys.hash_one k)
            k
            s
          ≡ some (r, s'))
        × Removes k (i.get (keys.hash_one k) k s.indexer s.memory) s r s'
  unfolding remove
  remove-Removes k s w =
      let (t, m, f, y) = indexer_laws.remove_law k s.indexer s.memory w.indexer_wf in
      let (r, s', g, z) = remove_at-Removes k _ s t m w refl y in (r, s', rw (f, g) refl, z)
