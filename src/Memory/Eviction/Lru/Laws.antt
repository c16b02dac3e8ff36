-- ===== src/Memory/Eviction/Lru/Laws.antt =====
-- The LRU algorithm of foyer-memory/src/eviction/lru.rs meets the contract of `Eviction`.
use foyer.Prelude.{
  ℕ, suc, ◌+◌, ◌%◌, ◌<◌, ◌≡◌, refl, ap, subst, ◌∙◌, ◌⊎◌, inl, inr, Bool, true, false, not, ◌&&◌,
  none, some, List, [], ◌∷◌, arith, ◌==◌, if◌then◌else◌, Bool-cases, usize_mod, wrapping_sub,
  wrapping_sub-mod, contains, erase, sum_by, length, IsDistinct, contains-append, sum_by_cong,
}
use foyer.Memory.Handle.{on_base, in_eviction, charge_of, is_inited, set_in_eviction}
use foyer.Memory.Eviction.{Eviction, EvictionLaws, Effect}
use foyer.Memory.Handle.{for_each, for_each_lem}
use foyer.Memory.Queue.{remove_raw, TakesOut, erase-TakesOut, tail-TakesOut, absent-TakesOut}
use foyer.Memory.Eviction.Lru.{new_own}
use foyer.Memory.Eviction.Lru.{
  Lru, LruMemory, LruContext, LruOwn, new, push, pop_front, uncharge, pop, unlink, access, remove,
  reinsert, release, uncharge_all, clear, len,
}
use foyer.Memory.Eviction.Lru.Push.{IsWf, IsSplit-cong, push-Pushed, pooled}

module _ {ℓ} {K V : Type ℓ} where
  -- Both lists without a handle that the container holds, its charge taken off.
  without-Effect :
      (p : ℕ) (high low : List ℕ) (s : Lru) (m : LruMemory K V)
      → IsWf s m
      → in_eviction m p ≡ true
      → TakesOut p s.high_priority_list high
      → TakesOut p s.list low
      → Effect IsWf m
          (λ q. in_eviction m q && not (q == p))
          (record s {
            high_priority_list = high;
            list = low;
            high_priority_charges = uncharge p m s.high_priority_charges;
          })
          (on_base (set_in_eviction false) p m)
  unfolding uncharge wrapping_sub
  without-Effect p high low s m w on h l = record {
    wf = record {
      high = λ q. ground (arith, w.high q, h.members q);
      low = λ q. ground (arith, w.low q, l.members q);
      high_distinct = h.distinct;
      low_distinct = l.distinct;
      charges = ground (
        arith,
        w.charges,
        w.high p,
        w.small p,
        h.sums (charge_of m),
        sum_by_cong (charge_of m) (charge_of (on_base (set_in_eviction false) p m)) high
            (λ q _. ground arith),
      );
      small = λ q e. ground (arith, w.small q, h.members q);
    };
    bases = λ q. ground arith;
  }

  pop_front_lem :
      (low high : List ℕ) (s : Lru) (m : LruMemory K V)
      → IsWf s m
      → s.list ≡ low
      → s.high_priority_list ≡ high
      → (pop_front low high ≡ none)
        ⊎ ((p : ℕ) × (low' : List ℕ) × (high' : List ℕ) × (pop_front low high
              ≡ some (p, low', high'))
            × (in_eviction m p ≡ true)
            × (length high + length low ≡ suc (length high' + length low'))
            × TakesOut p low low'
            × TakesOut p high high')
  unfolding pop_front contains
  pop_front_lem [] [] s m w l h = inl refl
  pop_front_lem [] (p ∷ high) s m w l h =
      let d = subst IsDistinct h w.high_distinct in
      inr (
        p,
        [],
        high,
        refl,
        ground (arith, w.high p),
        omega arith,
        absent-TakesOut p [] tt refl,
        tail-TakesOut p high d,
      )
  pop_front_lem (p ∷ low) high s m w l h =
      let d = subst IsDistinct l w.low_distinct in
      inr (
        p,
        low,
        high,
        refl,
        ground (arith, w.low p),
        omega arith,
        tail-TakesOut p low d,
        absent-TakesOut p high (subst IsDistinct h w.high_distinct)
            (ground (arith, w.low p, w.high p)),
      )

  -- `pop` takes a handle of the container, from the front of the low priority list while that
  -- is not empty, and takes none only if both lists are empty.
  pub pop_lem :
      (s : Lru) (m : LruMemory K V)
      → IsWf s m
      → (pop s m ≡ some (none, s, m))
        ⊎ ((p : ℕ) × (s' : Lru) × (m' : LruMemory K V) × (pop s m ≡ some (some p, s', m'))
            × (in_eviction m p ≡ true)
            × (len s ≡ suc (len s'))
            × Effect IsWf m (λ q. in_eviction m q && not (q == p)) s' m')
  unfolding pop len
  pop_lem s m w = elim (pop_front_lem s.list s.high_priority_list s m w refl refl) [
    | inl e ↦ inl (rw (e, pop) refl)
    | inr (p, low, high, e, on, size, l, h) ↦ inr (
      p,
      record s {
        high_priority_list = high;
        list = low;
        high_priority_charges = uncharge p m s.high_priority_charges;
      },
      on_base (set_in_eviction false) p m,
      rw (e, pop) refl,
      on,
      size,
      without-Effect p high low s m w on h l,
    )
  ]

  unlink_lem :
      (on_high : Bool) (p : ℕ) (s : Lru) (m : LruMemory K V)
      → IsWf s m
      → in_eviction m p ≡ true
      → pooled m p ≡ on_high
      → (high : List ℕ) × (low : List ℕ) × (unlink on_high p s
          ≡ some (record s { high_priority_list = high; list = low }))
        × TakesOut p s.high_priority_list high
        × TakesOut p s.list low
  unfolding unlink remove_raw
  unlink_lem true p s m w on e =
      let here : contains s.high_priority_list p ≡ true = ground (arith, w.high p) in
      (
        erase p s.high_priority_list,
        s.list,
        rw here refl,
        erase-TakesOut p s.high_priority_list w.high_distinct here,
        absent-TakesOut p s.list w.low_distinct (ground (arith, w.low p)),
      )
  unlink_lem false p s m w on e =
      let here : contains s.list p ≡ true = ground (arith, w.low p) in
      (
        s.high_priority_list,
        erase p s.list,
        rw here refl,
        absent-TakesOut p s.high_priority_list w.high_distinct (ground (arith, w.high p)),
        erase-TakesOut p s.list w.low_distinct here,
      )

  -- The law of `remove`.
  pub remove_lem :
      (p : ℕ) (s : Lru) (m : LruMemory K V)
      → IsWf s m
      → in_eviction m p ≡ true
      → (s' : Lru) × (m' : LruMemory K V) × (remove p s m ≡ some (s', m'))
        × Effect IsWf m (λ q. in_eviction m q && not (q == p)) s' m'
  unfolding remove
  remove_lem p s m w on =
      let (high, low, e, h, l) = unlink_lem (pooled m p) p s m w on refl in
      (
        record s {
          high_priority_list = high;
          list = low;
          high_priority_charges = uncharge p m s.high_priority_charges;
        },
        on_base (set_in_eviction false) p m,
        rw e refl,
        without-Effect p high low s m w on h l,
      )

  -- The law of `reinsert`: the handle is in the container afterwards, wherever it was before.
  pub reinsert_lem :
      (p : ℕ) (s : Lru) (m : LruMemory K V)
      → IsWf s m
      → is_inited (m p).base ≡ true
      → charge_of m p < usize_mod
      → (s' : Lru) × (m' : LruMemory K V) × (reinsert p s m ≡ some (s', m'))
        × Effect IsWf m (λ q. if q == p then true else in_eviction m q) s' m'
  unfolding reinsert
  reinsert_lem p s m w live c = elim (Bool-cases (in_eviction m p)) [
    | inl on ↦
        let (s1, m1, e1, o1) = remove_lem p s m w on in
        let (s2, m2, e2, o2) =
          push-Pushed p s1 m1 o1.wf (ground (arith, o1.bases p)) (ground (arith, o1.bases p))
            (ground (arith, o1.bases p)) in
        (
          s2,
          m2,
          rw (on, e1) e2,
          record { wf = o2.effect.wf; bases = λ q. ground (arith, o1.bases q, o2.effect.bases q) },
        )
    | inr off ↦
        let (s2, m2, e2, o2) = push-Pushed p s m w live off c in
        (
          s2,
          m2,
          rw off e2,
          record { wf = o2.effect.wf; bases = λ q. ground (arith, o2.effect.bases q) },
        )
  ]

  uncharge_all_lem :
      (l : List ℕ) (m : LruMemory K V) (charges : ℕ)
      → charges ≡ sum_by (charge_of m) l % usize_mod
      → ((q : ℕ) → contains l q ≡ true → charge_of m q < usize_mod)
      → uncharge_all l m charges ≡ 0
  unfolding uncharge_all sum_by contains
  uncharge_all_lem [] m charges e small = omega arith
  uncharge_all_lem (p ∷ l) m charges e small =
      uncharge_all_lem l m _ (wrapping_sub-mod _ _ _ _ e (small p (ground arith)) (omega arith))
        (λ q h. small q (ground arith))

  -- The memory after both loops of `clear`.
  abbrev released : Lru → LruMemory K V → LruMemory K V
  released s m = for_each release s.high_priority_list (for_each release s.list m)

  released_lem :
      (s : Lru) (m : LruMemory K V) (q : ℕ)
      → IsWf s m
      → ((released s m q).base ≡ set_in_eviction false (m q).base)
        × ((released s m q).own ≡ (m q).own)
  released_lem s m q w =
      let first = for_each_lem release s.list m q w.low_distinct in
      let second =
        for_each_lem release s.high_priority_list (for_each release s.list m) q w.high_distinct in
      (ground (arith, first, second, w.high q, w.low q), ground (arith, first, second))

  -- The law of `clear`; the charges of the high priority pool are then zero, as its last
  -- assertion says.
  pub clear_lem :
      (s : Lru) (m : LruMemory K V)
      → IsWf s m
      → (ps : List ℕ) × (s' : Lru) × (m' : LruMemory K V) × (clear s m ≡ some (ps, s', m'))
        × ((q : ℕ) → contains ps q ≡ in_eviction m q)
        × (s'.high_priority_charges ≡ 0)
        × Effect IsWf m (λ q. false) s' m'
  unfolding clear contains sum_by
  clear_lem s m w =
      let first = λ (q : ℕ). for_each_lem release s.list m q w.low_distinct in
      let zero_charges =
        uncharge_all_lem s.high_priority_list (for_each release s.list m) s.high_priority_charges
          (w.charges
            ∙ ap (λ t. t % usize_mod)
                (sum_by_cong (charge_of m) _ s.high_priority_list (λ q _. ground (arith, first q))))
          (λ q h. ground (arith, first q, w.small q)) in
      (
        _,
        _,
        _,
        refl,
        λ q. ground (arith, contains-append s.list s.high_priority_list q, w.high q, w.low q),
        zero_charges,
        record {
          wf = record {
            high = λ q. ground (arith, released_lem s m q w);
            low = λ q. ground (arith, released_lem s m q w);
            high_distinct = tt;
            low_distinct = tt;
            charges = zero_charges;
            small = λ q h. ground (arith, h);
          };
          bases = λ q. (released_lem s m q w).0;
        },
      )

module _ {ℓ} {K V : Type ℓ} (ratio_valid : Bool) (scale : ℕ → ℕ) where
  abbrev pub lru : Eviction K V LruContext LruOwn Lru
  lru = record {
    new_own = new_own;
    create = new ratio_valid scale;
    push = push;
    pop = pop;
    reinsert = reinsert;
    access = access;
    remove = remove;
    clear = clear;
    len = len;
  }

  create_lem :
      (capacity : ℕ) (m : LruMemory K V) {s : Lru}
      → new ratio_valid scale capacity ≡ some s
      → ((q : ℕ) → in_eviction m q ≡ false)
      → IsWf s m
  unfolding new contains sum_by
  create_lem capacity m e out = record {
    high = λ q. ground (arith, out q);
    low = λ q. ground (arith, out q);
    high_distinct = ground arith;
    low_distinct = ground arith;
    charges = ground arith;
    small = λ q h. ground arith;
  }

  -- LRU meets the contract of `Eviction`, whatever the ratio of the high priority pool.
  pub lru-EvictionLaws : EvictionLaws lru IsWf
  unfolding access
  lru-EvictionLaws = record {
    create_law = λ capacity m e out _. create_lem capacity m e out;
    push_law = λ p s m w live out c.
        let (s', m', e, o) = push-Pushed p s m w live out c in (s', m', e, o.effect);
    pop_law = λ s m w. elim (pop_lem s m w) [
      | inl e ↦ inl (s, m, e, record { wf = w; bases = λ q. ground arith })
      | inr r ↦ inr r
    ];
    reinsert_law = λ p s m w live c.
        let (s', m', e, o) = reinsert_lem p s m w live c in (true, s', m', e, λ _. refl, o);
    access_law = λ p s m w. (s, m, refl, record { wf = w; bases = λ q. ground arith });
    remove_law = remove_lem;
    clear_law = λ s m w. let (ps, s', m', e, c, _, o) = clear_lem s m w in (ps, s', m', e, c, o);
    stable = λ s m m' w own on charge. IsSplit-cong _ _ s m m' w on own charge;
    fresh = λ p b s m w out off. record {
      high = λ q. ground (arith, w.high q);
      low = λ q. ground (arith, w.low q);
      high_distinct = w.high_distinct;
      low_distinct = w.low_distinct;
      charges =
          w.charges
          ∙ ap (λ t. t % usize_mod)
              (sum_by_cong (charge_of m) _ s.high_priority_list (λ q h. ground (arith, w.high q)));
      small = λ q h. ground (arith, w.small q, w.high q);
    };
  }
