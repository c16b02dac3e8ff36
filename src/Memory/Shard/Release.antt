-- ===== src/Memory/Shard/Release.antt =====
-- `try_release_handle` of foyer-memory/src/generic.rs keeps the invariant of the shard.
use foyer.Prelude.{
  suc, ℕ, ◌+◌, ◌≤◌, ◌<◌, ◌≡◌, refl, sym, ap, ◌∙◌, ◌≢◌, ◌⊎◌, inl, inr, Bool, true, false, not, ◌&&◌,
  Option, none, some, List, [], ◌∷◌, arith, leb, ◌==◌, if◌then◌else◌, ==_iff, ==_refl, Bool-cases,
  ◌>>=◌, >>=_assoc, usize_mod, wrapping_add, wrapping_sub, wrapping_sub-mod, contains,
}
use foyer.Memory.Handle.{
  BaseHandle, Memory, on_base, in_eviction, in_indexer, charge_of, is_inited, set_in_eviction,
  has_refs, take, key, dec_refs,
}
use foyer.Memory.Indexer.{is_at}
use foyer.Memory.Shard.{
  Shard, Entry, with_eviction, count_reinsert, remove_from_eviction, release, unindex_key, give_up,
  try_reinsert, try_release_handle, try_release_external_handle,
}
use foyer.Memory.Shard.Sum.{sum_below, sum_below_change}
use foyer.Memory.Shard.Invariant.{
  Parts, Inv, IsValid, weight, flagged, flagged-Inv, indexed_inited, IsIndexed-after_eviction,
  IsEvictable-after_index, get_own_key, counted-Inv, total, flagged_sum,
}

take_by {ℓ} :
    {K V : Type ℓ} {C : Type 0} (entry : Option (K × V × C)) (b : BaseHandle K V C)
    → b.entry ≡ entry
    → is_inited b ≡ true
    → (x : Entry K V C) × (take b ≡ some (x, record b { entry = none }))
      × (b.entry ≡ some (x.0, x.1, x.2))
      × (x.3 ≡ b.charge)
unfolding take
take_by none b f live = absurd (ground arith)
take_by (some (k, v, c)) b f live = ((k, v, c, b.charge), rw (f, take) refl, f, refl)

module _ {ℓ} {K V : Type ℓ} {C X T S Q : Type 0} (parts : Parts K V C X T S Q) where
  open parts use {
    e, i, o, keys, IsEvictable, IsIndexed, count, eviction_laws, indexer_laws, pool_laws,
  }

  -- What became of a handle that was to be released: it is still in use or was reinserted, or
  -- nobody referred to it, and its entry is handed out.
  pub Outcome : ℕ → Shard K V C X T S Q → Option (Entry K V C) → Shard K V C X T S Q → Type ℓ
  Outcome p s r s' =
      ((r ≡ none) × (is_inited (s'.memory p).base ≡ true))
      ⊎ ((x : Entry K V C) × (r ≡ some x)
          × ((s.memory p).base.refs ≡ 0)
          × (is_inited (s'.memory p).base ≡ false)
          × ((s.memory p).base.entry ≡ some (x.0, x.1, x.2))
          × (x.3 ≡ charge_of s.memory p))

  pub record Releases (pending : Option ℕ) (loose : List ℕ) (p : ℕ) (s : Shard K V C X T S Q)
      (r : Option (Entry K V C)) (s' : Shard K V C X T S Q) : Type ℓ where
    pub inv : Inv parts pending loose s'
    pub others : (q : ℕ) → (q == p) ≡ false → (s'.memory q).base ≡ (s.memory q).base
    pub capacity_kept : s'.capacity ≡ s.capacity
    pub total_le : total parts pending s' ≤ total parts pending s
    pub outcome : Outcome p s r s'
    pub off_stays : in_indexer s.memory p ≡ false → in_indexer s'.memory p ≡ false
    pub refs_stay :
        is_inited (s'.memory p).base ≡ true → (s'.memory p).base.refs ≡ (s.memory p).base.refs

  -- The writes of `release` to the memory.
  abbrev emptied : ℕ → Memory K V C X → Memory K V C X
  emptied p m = on_base (λ b. record b { entry = none }) p m

  emptied_sum :
      (pending : Option ℕ) (p next : ℕ) (m : Memory K V C X)
      → p < next
      → is_inited (m p).base ≡ true
      → is_at pending p ≡ false
      → sum_below (weight pending m) next
        ≡ sum_below (weight pending (emptied p m)) next + charge_of m p
  emptied_sum pending p next m below live out =
      let change =
        sum_below_change (weight pending m) (weight pending (emptied p m)) p next below
          (λ q h. ground (arith, h)) in
      let before : weight pending m p ≡ charge_of m p = ground (arith, live, out) in
      let after : weight pending (emptied p m) p ≡ 0 = ground (arith, ==_refl p) in
      omega (arith, change, before, after)

  -- Giving up a handle that is in neither container and that nobody refers to.
  release_lem :
      (pending : Option ℕ) (loose : List ℕ) (p : ℕ) (s : Shard K V C X T S Q)
      → Inv parts pending (p ∷ loose) s
      → is_inited (s.memory p).base ≡ true
      → (s.memory p).base.refs ≡ 0
      → in_indexer s.memory p ≡ false
      → is_at pending p ≡ false
      → (r : Option (Entry K V C)) × (s' : Shard K V C X T S Q) × (release e i o p s ≡ some (r, s'))
        × Releases pending loose p s r s'
        × (s'.eviction ≡ s.eviction)
  unfolding release Outcome contains
  release_lem pending loose p s w live idle off out =
      let (x, taken, entry, charge) = take_by _ (s.memory p).base refl live in
      let off' : in_eviction s.memory p ≡ false = ground (arith, w.covered p) in
      let m' = emptied p s.memory in
      let s' : Shard K V C X T S Q = record s {
        usage = wrapping_sub s.usage (charge_of s.memory p);
        memory = m';
        object_pool = o.push p s.object_pool;
        metrics = record s.metrics { release = wrapping_add s.metrics.release 1 };
      } in
      (
        some x,
        s',
        rw taken refl,
        record {
          inv = record {
            indexer_wf =
                indexer_laws.stable s.indexer s.memory m' w.indexer_wf (λ q. ground arith)
                  (λ q on.
                    let far : (q == p) ≡ false = ground (arith, off, on) in
                    (rw far refl, rw far refl));
            eviction_wf =
                eviction_laws.stable s.eviction s.memory m' w.eviction_wf (λ q. ground arith)
                  (λ q. ground arith) (λ q _. ground arith);
            covered = λ q on. ground (arith, w.covered q);
            kept = λ q a b c d. ground (arith, w.kept q);
            allocated = λ q a. ground (arith, w.allocated q);
            charges = λ q a. ground (arith, w.charges q);
            pooled = λ q a.
                ground (arith, w.pooled q, w.allocated q, pool_laws.count-push p s.object_pool q);
            pooled_once = λ q.
                ground (arith, w.pooled q, w.pooled_once q, pool_laws.count-push p s.object_pool q);
            usage_sum =
                wrapping_sub-mod _ _ _ _ w.usage_sum (w.charges p live)
                  (emptied_sum pending p s.next s.memory (w.allocated p live) live out);
            pending_out = λ q a. ground (arith, w.pending_out q);
          };
          others = λ q h. ground (arith, h);
          capacity_kept = refl;
          total_le =
              omega (arith, emptied_sum pending p s.next s.memory (w.allocated p live) live out);
          outcome = inr (x, refl, idle, ground arith, entry, charge);
          off_stays = λ a. ground (arith, a);
          refs_stay = λ a. absurd (ground (arith, a, ==_refl p));
        },
        refl,
      )

  pub remove_from_eviction_lem :
      (p : ℕ) (s : Shard K V C X T S Q)
      → IsEvictable s.eviction s.memory
      → (v : S) × (m' : Memory K V C X) × (remove_from_eviction e i o p s
          ≡ some (record s { eviction = v; memory = m' }))
        × IsEvictable v m'
        × ((q : ℕ)
            → (m' q).base
              ≡ set_in_eviction (in_eviction s.memory q && not (q == p)) (s.memory q).base)
        × (in_eviction s.memory p ≡ false → v ≡ s.eviction)
  unfolding remove_from_eviction
  remove_from_eviction_lem p s w = elim (Bool-cases (in_eviction s.memory p)) [
    | inl on ↦
        let (v, m', f, x) = eviction_laws.remove_law p s.eviction s.memory w on in
        (v, m', rw (on, f) refl, x.wf, x.bases, λ off. ground arith)
    | inr off ↦ (
      s.eviction,
      s.memory,
      rw off refl,
      w,
      λ q. elim (Bool-cases (q == p)) [
        | inl here ↦ ground (arith, off, ap s.memory ((==_iff q p).0 here))
        | inr other ↦ ground (arith, other)
      ],
      λ _. refl,
    )
  ]

  -- Both containers let go of an indexed handle.
  pub detached :
      (k : K) (p : ℕ) (s : Shard K V C X T S Q)
      → IsIndexed s.indexer s.memory
      → IsEvictable s.eviction s.memory
      → in_indexer s.memory p ≡ true
      → key (s.memory p).base ≡ some k
      → (t : T) × (v : S) × (m' : Memory K V C X) × ((unindex_key e i o (some k) p s >>= λ s'.
            remove_from_eviction e i o p s')
          ≡ some (record s { indexer = t; eviction = v; memory = m' }))
        × IsIndexed t m'
        × IsEvictable v m'
        × ((q : ℕ)
            → (m' q).base
              ≡ flagged
                  (in_indexer s.memory q && not (q == p))
                  (in_eviction s.memory q && not (q == p))
                  (s.memory q).base)
        × (in_eviction s.memory p ≡ false → v ≡ s.eviction)
  unfolding unindex_key
  detached k p s wt wv on f =
      let (k', f', hash') = indexer_laws.indexed p s.indexer s.memory wt on in
      let hash : (s.memory p).base.hash ≡ keys.hash_one k = ground (arith, f, f', hash') in
      let found = get_own_key parts k p s.indexer s.memory wt on f in
      let (t, m, removed, x) = indexer_laws.remove_law k s.indexer s.memory wt in
      let s1 : Shard K V C X T S Q = record s { indexer = t; memory = m } in
      let (v, m', g, y, bases, same) =
        remove_from_eviction_lem p s1
          (IsEvictable-after_index parts s.eviction s.memory m _ wv x.bases x.owns) in
      (
        t,
        v,
        m',
        rw (hash, removed) g,
        IsIndexed-after_eviction parts t m m' _ x.wf bases,
        y,
        λ q. ground (arith, x.bases q, bases q, found),
        λ off. same (ground (arith, x.bases p)),
      )

  -- The outcome is the same, seen from before the flags changed.
  pub Outcome-flagged :
      (index evict : Bool) (p : ℕ) (s s1 s2 : Shard K V C X T S Q) (r : Option (Entry K V C))
      → (s1.memory p).base ≡ flagged index evict (s.memory p).base
      → Outcome p s1 r s2
      → Outcome p s r s2
  unfolding Outcome
  Outcome-flagged index evict p s s1 s2 r base (inl (a, b)) = inl (a, b)
  Outcome-flagged index evict p s s1 s2 r base (inr (x, a, idle, c, entry, charge)) = inr (
    x,
    a,
    ground (arith, base, idle),
    c,
    ground (arith, base, entry),
    ground (arith, base, charge),
  )

  give_up_lem :
      (pending : Option ℕ) (loose : List ℕ) (p : ℕ) (s : Shard K V C X T S Q)
      → Inv parts pending (p ∷ loose) s
      → (s.memory p).base.refs ≡ 0
      → in_indexer s.memory p ≡ true
      → is_at pending p ≡ false
      → (r : Option (Entry K V C)) × (s' : Shard K V C X T S Q) × (give_up e i o p s ≡ some (r, s'))
        × Releases pending loose p s r s'
        × (in_eviction s.memory p ≡ false → s'.eviction ≡ s.eviction)
  unfolding give_up contains Outcome
  give_up_lem pending loose p s w idle on out =
      let (k, f, _) = indexer_laws.indexed p s.indexer s.memory w.indexer_wf on in
      let live = indexed_inited parts s p w.indexer_wf on in
      let (t, v, m, g, wt, wv, bases, same) = detached k p s w.indexer_wf w.eviction_wf on f in
      let s1 : Shard K V C X T S Q = record s { indexer = t; eviction = v; memory = m } in
      let w1 : Inv parts pending (p ∷ loose) s1 =
        flagged-Inv parts pending (p ∷ loose) (p ∷ loose) _ _ s t v m s.metrics w wt wv bases
          (λ q a. ground (arith, w.covered q)) (λ q a. ground (arith, w.pending_out q))
          (λ q a b c d. ground (arith, w.kept q)) in
      let (r, s2, h, x, same') =
        release_lem pending loose p s1 w1 (ground (arith, bases p, live))
          (ground (arith, bases p, idle)) (ground (arith, bases p)) out in
      (
        r,
        s2,
        rw f (
            sym (
              >>=_assoc (unindex_key e i o (some k) p s) (remove_from_eviction e i o p)
                (release e i o p))
            ∙ ap (λ z. z >>= release e i o p) g
            ∙ h),
        record {
          inv = x.inv;
          others = λ q a. ground (arith, x.others q a, bases q, a);
          capacity_kept = x.capacity_kept;
          total_le =
              omega (arith, x.total_le, flagged_sum parts pending _ _ s.memory m s.next bases);
          outcome = Outcome-flagged _ _ p s s1 s2 r (bases p) x.outcome;
          off_stays = λ a. absurd (ground (arith, a, on));
          refs_stay = λ a. x.refs_stay a ∙ ground (arith, bases p);
        },
        λ off. same' ∙ same off,
      )

  try_reinsert_lem :
      (pending : Option ℕ) (loose : List ℕ) (p : ℕ) (s : Shard K V C X T S Q)
      → Inv parts pending (p ∷ loose) s
      → (s.memory p).base.refs ≡ 0
      → in_indexer s.memory p ≡ true
      → is_at pending p ≡ false
      → (r : Option (Entry K V C)) × (s' : Shard K V C X T S Q) × (try_reinsert e i o p s
          ≡ some (r, s'))
        × Releases pending loose p s r s'
  unfolding try_reinsert count_reinsert contains Outcome
  try_reinsert_lem pending loose p s w idle on out =
      let live = indexed_inited parts s p w.indexer_wf on in
      let (kept_on, v, m, f, stays, x) =
        eviction_laws.reinsert_law p s.eviction s.memory w.eviction_wf live (w.charges p live) in
      let wt = IsIndexed-after_eviction parts s.indexer s.memory m _ w.indexer_wf x.bases in
      let bases : (q : ℕ)
          → (m q).base
            ≡ flagged (in_indexer s.memory q) (if q == p then kept_on else in_eviction s.memory q)
                (s.memory q).base =
        λ q. ground (arith, x.bases q) in
      let cover : (q : ℕ)
          → (if q == p then kept_on else in_eviction s.memory q) ≡ true
          → in_indexer s.memory q ≡ true =
        λ q a. ground (arith, w.covered q, on) in
      elim (Bool-cases (in_eviction m p)) [
        | inl back ↦ (
          none,
          count_reinsert (in_eviction s.memory p) (with_eviction s (v, m)),
          rw (f, back) refl,
          record {
            inv =
                flagged-Inv parts pending (p ∷ loose) loose _ _ s s.indexer v m _ w wt x.wf bases
                  cover (λ q a. ground (arith, w.pending_out q, out))
                  (λ q a b c d. ground (arith, w.kept q, back, bases p));
            others = λ q a. ground (arith, bases q, a);
            capacity_kept = refl;
            total_le = omega (arith, flagged_sum parts pending _ _ s.memory m s.next bases);
            outcome = inl (refl, ground (arith, bases p, live));
            off_stays = λ a. absurd (ground (arith, a, on));
            refs_stay = λ a. ground (arith, bases p);
          },
        )
        | inr gone ↦
            let s1 = with_eviction s (v, m) in
            let w1 : Inv parts pending (p ∷ loose) s1 =
              flagged-Inv parts pending (p ∷ loose) (p ∷ loose) _ _ s s.indexer v m s.metrics w wt
                x.wf bases cover (λ q a. ground (arith, w.pending_out q, out))
                (λ q a b c d. ground (arith, w.kept q)) in
            let (r, s2, h, y, _) =
              give_up_lem pending loose p s1 w1 (ground (arith, bases p, idle))
                (ground (arith, bases p, on)) out in
            (
              r,
              s2,
              rw (f, gone) h,
              record {
                inv = y.inv;
                others = λ q a. ground (arith, y.others q a, bases q, a);
                capacity_kept = y.capacity_kept;
                total_le =
                    omega
                      (arith, y.total_le, flagged_sum parts pending _ _ s.memory m s.next bases);
                outcome = Outcome-flagged _ _ p s s1 s2 r (bases p) y.outcome;
                off_stays = λ a. absurd (ground (arith, a, on));
                refs_stay = λ a. y.refs_stay a ∙ ground (arith, bases p);
              },
            )
      ]

  -- A handle in use is left alone.
  in_use_lem :
      (pending : Option ℕ) (loose : List ℕ) (p : ℕ) (s : Shard K V C X T S Q)
      → Inv parts pending (p ∷ loose) s
      → is_inited (s.memory p).base ≡ true
      → (s.memory p).base.refs ≢ 0
      → Releases pending loose p s none s
  unfolding contains Outcome
  in_use_lem pending loose p s w live used = record {
    inv =
        flagged-Inv parts pending (p ∷ loose) loose (in_indexer s.memory) (in_eviction s.memory) s
          s.indexer s.eviction s.memory s.metrics w w.indexer_wf w.eviction_wf (λ q. refl) w.covered
          (λ q a. ground (arith, w.pending_out q))
          (λ q a b c d. elim (Bool-cases (q == p)) [
            | inl here ↦
                absurd (used (ap (λ r. (s.memory r).base.refs) (sym ((==_iff q p).0 here)) ∙ b))
            | inr other ↦ w.kept q a b c (ground (arith, other, d))
          ]);
    others = λ q a. refl;
    capacity_kept = refl;
    total_le = omega arith;
    outcome = inl (refl, live);
    off_stays = λ a. a;
    refs_stay = λ a. refl;
  }

  -- `try_release_handle` never faults. It keeps the invariant, changes no other handle than the one
  -- it is about, and gives that one up only if nobody refers to it; then it hands out the entry and
  -- the charge of the handle. Without reinsertion it does not touch the eviction container if the
  -- handle is outside.
  pub try_release_handle-Releases :
      (pending : Option ℕ) (loose : List ℕ) (p : ℕ) (reinsert : Bool) (s : Shard K V C X T S Q)
      → Inv parts pending (p ∷ loose) s
      → is_inited (s.memory p).base ≡ true
      → is_at pending p ≡ false
      → (r : Option (Entry K V C)) × (s' : Shard K V C X T S Q) × (try_release_handle e i o p
            reinsert s
          ≡ some (r, s'))
        × Releases pending loose p s r s'
        × (reinsert ≡ false → in_eviction s.memory p ≡ false → s'.eviction ≡ s.eviction)
  unfolding try_release_handle
  try_release_handle-Releases pending loose p reinsert s w live out =
      elim (Bool-cases (has_refs (s.memory p).base)) [
        | inl used ↦ (
          none,
          s,
          rw used refl,
          in_use_lem pending loose p s w live (λ z. ground (arith, used, z)),
          λ _ _. refl,
        )
        | inr free ↦
            let idle : (s.memory p).base.refs ≡ 0 = ground (arith, free) in
            elim (Bool-cases (in_indexer s.memory p)) [
              | inr off ↦
                  let (r, s', f, x, same) = release_lem pending loose p s w live idle off out in
                  (r, s', rw (free, off) f, x, λ _ _. same)
              | inl on ↦ elim (Bool-cases (reinsert && leb s.usage s.capacity)) [
                | inl again ↦
                    let (r, s', f, x) = try_reinsert_lem pending loose p s w idle on out in
                    (r, s', rw (free, on, again) f, x, λ a _. absurd (ground (arith, a, again)))
                | inr never ↦
                    let (r, s', f, x, same) = give_up_lem pending loose p s w idle on out in
                    (r, s', rw (free, on, never) f, x, λ _ off. same off)
              ]
            ]
      ]

  -- What the drop of one reference to a handle does: the handle stays with one reference less, and
  -- is in the eviction container if that was the last; or it was the last, and the entry is handed
  -- out. No other handle changes.
  pub record Drops (p : ℕ) (s : Shard K V C X T S Q) (r : Option (Entry K V C))
      (s' : Shard K V C X T S Q) : Type ℓ where
    pub valid : IsValid parts s'
    pub others : (q : ℕ) → (q == p) ≡ false → (s'.memory q).base ≡ (s.memory q).base
    pub outcome :
        ((r ≡ none)
          × (is_inited (s'.memory p).base ≡ true)
          × (suc (s'.memory p).base.refs ≡ (s.memory p).base.refs)
          × ((s.memory p).base.refs ≡ 1 → in_eviction s'.memory p ≡ true))
        ⊎ ((x : Entry K V C) × (r ≡ some x)
            × ((s.memory p).base.refs ≡ 1)
            × (is_inited (s'.memory p).base ≡ false)
            × ((s.memory p).base.entry ≡ some (x.0, x.1, x.2))
            × (x.3 ≡ charge_of s.memory p))
    pub last :
        (s.memory p).base.refs ≡ 1
        → in_indexer s.memory p ≡ false
        → is_inited (s'.memory p).base ≡ false

  Releases-Drops :
      (p : ℕ) (s : Shard K V C X T S Q) (r : Option (Entry K V C)) (s' : Shard K V C X T S Q)
      → 0 < (s.memory p).base.refs
      → (s.memory p).base.refs < usize_mod
      → Releases none [] p (record s { memory = on_base dec_refs p s.memory }) r s'
      → Drops p s r s'
  unfolding dec_refs contains Outcome wrapping_sub
  Releases-Drops p s r s' used bound x = record {
    valid = x.inv;
    others = λ q a. ground (arith, x.others q a, a);
    outcome = elim x.outcome [
      | inl (a, b) ↦
          let refs : suc (s'.memory p).base.refs ≡ (s.memory p).base.refs =
            ground (arith, x.refs_stay b, ==_refl p, used, bound) in
          inl (a, b, refs, λ one. x.inv.kept p b (omega (arith, refs, one)) refl refl)
      | inr (y, a, idle, b, c, d) ↦ inr (
        y,
        a,
        ground (arith, idle, ==_refl p, used, bound),
        b,
        ground (arith, c, ==_refl p),
        ground (arith, d, ==_refl p),
      )
    ];
    last = λ one off. elim (Bool-cases (is_inited (s'.memory p).base)) [
      | inl live ↦
          let idle : (s'.memory p).base.refs ≡ 0 =
            ground (arith, x.refs_stay live, ==_refl p, one) in
          let on : in_indexer s'.memory p ≡ true =
            x.inv.covered p (x.inv.kept p live idle refl refl) in
          absurd (ground (arith, on, x.off_stays (ground (arith, off, ==_refl p))))
      | inr gone ↦ gone
    ];
  }

  -- The drop of an external reference to an inited handle, which has one, never faults, and keeps
  -- the shard valid. The handle has one reference less and stays, in the eviction container if none
  -- is left, or this was the last reference, and the entry is handed out; that is so whenever the
  -- last reference to a handle outside the indexer is dropped. No other handle changes.
  pub try_release_external_handle-Drops :
      (p : ℕ) (s : Shard K V C X T S Q)
      → IsValid parts s
      → is_inited (s.memory p).base ≡ true
      → 0 < (s.memory p).base.refs
      → (s.memory p).base.refs < usize_mod
      → (r : Option (Entry K V C)) × (s' : Shard K V C X T S Q) × (try_release_external_handle e i o
            p s
          ≡ some (r, s'))
        × Drops p s r s'
  unfolding try_release_external_handle dec_refs contains Outcome wrapping_sub
  try_release_external_handle-Drops p s w live used bound =
      let m = on_base dec_refs p s.memory in
      let s1 : Shard K V C X T S Q = record s { memory = m } in
      let w1 : Inv parts none (p ∷ []) s1 =
        counted-Inv parts none [] (p ∷ []) (λ n. wrapping_sub n 1) p s w (λ q a. ground (arith, a))
          (λ a b c. absurd (ground (arith, ==_refl p, c))) in
      let (r, s2, f, x, _) =
        try_release_handle-Releases none [] p true s1 w1 (ground (arith, ==_refl p, live)) refl in
      (r, s2, f, Releases-Drops p s r s2 used bound x)
