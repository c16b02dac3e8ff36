-- ===== src/Memory/Eviction/Lru/Push.antt =====
-- `push` of foyer-memory/src/eviction/lru.rs and its overflow loop keep the two lists in order.
use foyer.Prelude.{
  ℕ, ◌%◌, ◌≤◌, ◌<◌, ◌≡◌, refl, sym, ap, ◌∙◌, ◌≢◌, ◌⊎◌, inl, inr, Bool, true, false, not, ◌&&◌, ◌||◌,
  Option, none, some, List, [], ◌∷◌, ◌++◌, arith, ltb, ◌==◌, ltb→ge, Bool-cases, usize_mod,
  wrapping_add, wrapping_sub, wrapping_add-mod, wrapping_sub-mod, contains, sum_by, IsDistinct,
  contains-snoc, IsDistinct-snoc, sum_by-snoc, sum_by_cong,
}
use foyer.Memory.Handle.{
  BaseHandle, on_base, on_own, in_eviction, charge_of, is_inited, set_in_eviction, context,
}
use foyer.Memory.Eviction.{Effect}
use foyer.Memory.Eviction.Lru.{
  Lru, LruMemory, LruContext, high_priority, low_priority, set_pool, may_overflow,
  may_overflow_high_priority_pool, push_by, push,
}

abbrev lru : List ℕ → List ℕ → ℕ → ℕ → Lru
lru high list charges capacity = record {
  high_priority_list = high;
  list = list;
  high_priority_charges = charges;
  high_priority_charges_capacity = capacity;
}

module _ {ℓ} {K V : Type ℓ} where
  abbrev pub pooled : LruMemory K V → ℕ → Bool
  pooled m q = (m q).own.in_high_priority_pool

  -- The lists hold the handles of `held`, each once, in the list that its flag names, and the
  -- charges of the high priority list are counted modulo the word size.
  pub record IsSplit (held : ℕ → Bool) (s : Lru) (m : LruMemory K V) : Type 0 where
    pub high : (q : ℕ) → contains s.high_priority_list q ≡ (held q && pooled m q)
    pub low : (q : ℕ) → contains s.list q ≡ (held q && not (pooled m q))
    pub high_distinct : IsDistinct s.high_priority_list
    pub low_distinct : IsDistinct s.list
    pub charges : s.high_priority_charges ≡ sum_by (charge_of m) s.high_priority_list % usize_mod
    pub small : (q : ℕ) → contains s.high_priority_list q ≡ true → charge_of m q < usize_mod

  abbrev pub IsWf : Lru → LruMemory K V → Type 0
  IsWf s m = IsSplit (in_eviction m) s m

  -- One round of the loop: the front of the high priority list goes to the back of the other.
  overflow_step :
      (held : ℕ → Bool) (p : ℕ) (high list : List ℕ) (charges capacity : ℕ) (m : LruMemory K V)
      → IsSplit held (lru (p ∷ high) list charges capacity) m
      → IsSplit held
          (lru high (list ++ p ∷ []) (wrapping_sub charges (charge_of m p)) capacity)
          (on_own (set_pool false) p m)
  unfolding contains sum_by
  overflow_step held p high list charges capacity m w = record {
    high = λ q. ground (arith, w.high q, w.high_distinct.0);
    low = λ q. ground (arith, w.low q, w.high q, w.high p, contains-snoc list p q);
    high_distinct = w.high_distinct.1;
    low_distinct = IsDistinct-snoc list p w.low_distinct (ground (arith, w.low p, w.high p));
    charges = wrapping_sub-mod _ _ _ _ w.charges (w.small p (ground arith)) (
        omega (
          arith,
          sum_by_cong (charge_of m) (charge_of (on_own (set_pool false) p m)) high
              (λ q _. ground arith),
        ));
    small = λ q h. ground (arith, w.small q);
  }

  -- What the loop promises: it ends with no more charges than the capacity, and changes no base.
  pub record Overflows (held : ℕ → Bool) (capacity : ℕ) (m : LruMemory K V) (s' : Lru)
      (m' : LruMemory K V) : Type ℓ where
    pub split : IsSplit held s' m'
    pub within : s'.high_priority_charges ≤ capacity
    pub capacity_kept : s'.high_priority_charges_capacity ≡ capacity
    pub same_bases : (q : ℕ) → (m' q).base ≡ (m q).base

  may_overflow_lem :
      (held : ℕ → Bool) (high list : List ℕ) (charges capacity : ℕ) (m : LruMemory K V)
      → IsSplit held (lru high list charges capacity) m
      → (s' : Lru) × (m' : LruMemory K V) × (may_overflow high list charges capacity m
          ≡ some (s', m'))
        × Overflows held capacity m s' m'
  unfolding may_overflow sum_by
  may_overflow_lem held [] list charges capacity m w = (
    lru [] list charges capacity,
    m,
    ground (arith, w.charges),
    record {
      split = w;
      within = ground (arith, w.charges);
      capacity_kept = refl;
      same_bases = λ q. refl;
    },
  )
  may_overflow_lem held (p ∷ high) list charges capacity m w =
      elim (Bool-cases (ltb capacity charges)) [
        | inl over ↦
            let (s', m', e, o) =
              may_overflow_lem held high (list ++ p ∷ []) (wrapping_sub charges (charge_of m p))
                capacity (on_own (set_pool false) p m)
                (overflow_step held p high list charges capacity m w) in
            (
              s',
              m',
              rw over e,
              record {
                split = o.split;
                within = o.within;
                capacity_kept = o.capacity_kept;
                same_bases = λ q. ground (arith, o.same_bases q);
              },
            )
        | inr fits ↦ (
          lru (p ∷ high) list charges capacity,
          m,
          rw fits refl,
          record {
            split = w;
            within = ltb→ge _ _ fits;
            capacity_kept = refl;
            same_bases = λ q. refl;
          },
        )
      ]

  -- The lists depend on the memory through the own fields and the charges of their handles.
  pub IsSplit-cong :
      (held held' : ℕ → Bool) (s : Lru) (m m' : LruMemory K V)
      → IsSplit held s m
      → ((q : ℕ) → held' q ≡ held q)
      → ((q : ℕ) → (m' q).own ≡ (m q).own)
      → ((q : ℕ) → held q ≡ true → charge_of m' q ≡ charge_of m q)
      → IsSplit held' s m'
  IsSplit-cong held held' s m m' w same own charge = record {
    high = λ q. ground (arith, w.high q, same q, own q);
    low = λ q. ground (arith, w.low q, same q, own q);
    high_distinct = w.high_distinct;
    low_distinct = w.low_distinct;
    charges =
        w.charges
        ∙ ap (λ t. t % usize_mod)
            (sum_by_cong (charge_of m) (charge_of m') s.high_priority_list
              (λ q h. sym (charge q (ground (arith, w.high q)))));
    small = λ q h. rw (charge q (ground (arith, w.high q))) (w.small q h);
  }

  push_high-IsSplit :
      (p : ℕ) (s : Lru) (m : LruMemory K V)
      → IsWf s m
      → in_eviction m p ≡ false
      → charge_of m p < usize_mod
      → IsSplit
          (λ q. q == p || in_eviction m q)
          (record s {
            high_priority_list = s.high_priority_list ++ p ∷ [];
            high_priority_charges = wrapping_add s.high_priority_charges (charge_of m p);
          })
          (on_own (set_pool true) p m)
  push_high-IsSplit p s m w out c = record {
    high = λ q. ground (arith, w.high q, contains-snoc s.high_priority_list p q);
    low = λ q. ground (arith, w.low q);
    high_distinct =
        IsDistinct-snoc s.high_priority_list p w.high_distinct (ground (arith, w.high p));
    low_distinct = w.low_distinct;
    charges = wrapping_add-mod _ _ _ _ w.charges (
        sym (
          sum_by_cong (charge_of m) (charge_of (on_own (set_pool true) p m))
            (s.high_priority_list ++ p ∷ []) (λ q _. ground arith))
        ∙ sum_by-snoc (charge_of m) s.high_priority_list p);
    small = λ q h. ground (arith, w.small q, contains-snoc s.high_priority_list p q);
  }

  push_low-IsSplit :
      (p : ℕ) (s : Lru) (m : LruMemory K V)
      → IsWf s m
      → in_eviction m p ≡ false
      → IsSplit
          (λ q. q == p || in_eviction m q)
          (record s { list = s.list ++ p ∷ [] })
          (on_own (set_pool false) p m)
  push_low-IsSplit p s m w out = record {
    high = λ q. ground (arith, w.high q);
    low = λ q. ground (arith, w.low q, contains-snoc s.list p q);
    high_distinct = w.high_distinct;
    low_distinct = IsDistinct-snoc s.list p w.low_distinct (ground (arith, w.low p));
    charges =
        w.charges
        ∙ ap (λ t. t % usize_mod)
            (sum_by_cong (charge_of m) (charge_of (on_own (set_pool false) p m))
              s.high_priority_list (λ q _. ground arith));
    small = λ q h. ground (arith, w.small q);
  }

  -- The law of `push`, with the bound on the high priority pool.
  pub record Pushed (p : ℕ) (s : Lru) (m : LruMemory K V) (s' : Lru) (m' : LruMemory K V)
      : Type ℓ where
    pub effect : Effect IsWf m (λ q. q == p || in_eviction m q) s' m'
    pub capacity_kept : s'.high_priority_charges_capacity ≡ s.high_priority_charges_capacity
    pub within :
        (context (m p).base ≡ some high_priority)
          ⊎ (s.high_priority_charges ≤ s.high_priority_charges_capacity)
        → s'.high_priority_charges ≤ s'.high_priority_charges_capacity

  push-Effect :
      (p : ℕ) (m : LruMemory K V) (s' : Lru) (m' : LruMemory K V)
      → IsSplit (λ q. q == p || in_eviction m q) s' m'
      → ((q : ℕ) → (m' q).base ≡ (m q).base)
      → Effect IsWf m (λ q. q == p || in_eviction m q) s' (on_base (set_in_eviction true) p m')
  push-Effect p m s' m' split same = record {
    wf =
        IsSplit-cong _ _ s' m' _ split (λ q. ground (arith, same q)) (λ q. ground arith)
          (λ q _. ground arith);
    bases = λ q. ground (arith, same q);
  }

  push_by_lem :
      (o : Option LruContext) (p : ℕ) (s : Lru) (m : LruMemory K V)
      → context (m p).base ≡ o
      → o ≢ none
      → IsWf s m
      → in_eviction m p ≡ false
      → charge_of m p < usize_mod
      → (s' : Lru) × (m' : LruMemory K V) × (push_by o p s m ≡ some (s', m'))
        × Pushed p s m s' (on_base (set_in_eviction true) p m')
  unfolding push_by may_overflow_high_priority_pool
  push_by_lem none p s m e h w out c = absurd (h refl)
  push_by_lem (some high_priority) p s m e h w out c =
      let (s', m', r, o) =
        may_overflow_lem (λ q. q == p || in_eviction m q) _ _ _ s.high_priority_charges_capacity _
          (push_high-IsSplit p s m w out c) in
      (
        s',
        m',
        r,
        record {
          effect = push-Effect p m s' m' o.split (λ q. ground (arith, o.same_bases q));
          capacity_kept = o.capacity_kept;
          within = λ _. omega (arith, o.within, o.capacity_kept);
        },
      )
  push_by_lem (some low_priority) p s m e h w out c = (
    _,
    _,
    refl,
    record {
      effect = push-Effect p m _ _ (push_low-IsSplit p s m w out) (λ q. ground arith);
      capacity_kept = refl;
      within = λ h. ground arith;
    },
  )

  context-ne-none : (b : BaseHandle K V LruContext) → is_inited b ≡ true → context b ≢ none
  unfolding context
  context-ne-none b h e = ground arith

  -- Pushing an inited handle that is outside the container succeeds: the lists stay in order, the
  -- handle and no other joins the container, and the charges of the high priority pool are then
  -- at most its capacity, if the handle has high priority or they were so before.
  pub push-Pushed :
      (p : ℕ) (s : Lru) (m : LruMemory K V)
      → IsWf s m
      → is_inited (m p).base ≡ true
      → in_eviction m p ≡ false
      → charge_of m p < usize_mod
      → (s' : Lru) × (m' : LruMemory K V) × (push p s m ≡ some (s', m')) × Pushed p s m s' m'
  unfolding push
  push-Pushed p s m w live out c =
      let (s', m', e, o) =
        push_by_lem (context (m p).base) p s m refl (context-ne-none (m p).base live) w out c in
      (s', on_base (set_in_eviction true) p m', rw e refl, o)
