-- ===== src/Memory/Eviction/S3Fifo/Evict.antt =====
-- The two eviction loops of foyer-memory/src/eviction/s3fifo.rs.
use foyer.Prelude.{
  some-inj, ltb→ge, sym, ap, ◌⊎◌, ℕ, zero, suc, ◌+◌, ◌≤◌, ◌<◌, ◌≡◌, refl, ◌∙◌, ◌≢◌, inl, inr, Bool,
  true, false, not, ◌&&◌, Option, none, some, List, [], ◌∷◌, ◌++◌, arith, ltb, ◌==◌, ltb→lt,
  Bool-cases, wrapping_sub, contains, sum_by, length, length-append, IsDistinct, contains-snoc,
  IsDistinct-snoc, sum_by-snoc, sum_by_cong,
}
use foyer.Memory.Handle.{on_own, in_eviction, charge_of}
use foyer.Memory.Eviction.S3Fifo.{
  S3Fifo, S3FifoMemory, Queue, no_queue, main, small, dec, set_queue, freq_of, promote, evict_small,
  evict_main_loop, evict_main, or_evict_main, evict, len,
}

abbrev pub is_small : Queue → Bool
is_small no_queue = false
is_small main = false
is_small small = true

abbrev pub is_main : Queue → Bool
is_main no_queue = false
is_main main = true
is_main small = false

-- The handles of `held` but the one that was taken.
abbrev pub without : (ℕ → Bool) → Option ℕ → ℕ → Bool
without held none q = held q
without held (some p) q = held q && not (q == p)

snoc-ne-nil : (l : List ℕ) (p : ℕ) → l ++ p ∷ [] ≢ []
snoc-ne-nil [] p e = ground arith
snoc-ne-nil (x ∷ l) p e = ground arith

module _ {ℓ} {K V : Type ℓ} where
  abbrev pub queue_of : S3FifoMemory K V → ℕ → Queue
  queue_of m q = (m q).own.queue

  -- The queues hold the handles of `held`, each once, in the queue that the handle names; a
  -- frequency is at most 3.
  pub record IsSplit (held : ℕ → Bool) (s : S3Fifo) (m : S3FifoMemory K V) : Type 0 where
    pub in_small : (q : ℕ) → contains s.small_queue q ≡ (held q && is_small (queue_of m q))
    pub in_main : (q : ℕ) → contains s.main_queue q ≡ (held q && is_main (queue_of m q))
    pub placed : (q : ℕ) → held q ≡ true → queue_of m q ≢ no_queue
    pub small_distinct : IsDistinct s.small_queue
    pub main_distinct : IsDistinct s.main_queue
    pub freqs : (q : ℕ) → freq_of m q ≤ 3

  abbrev pub IsWf : S3Fifo → S3FifoMemory K V → Type 0
  IsWf s m = IsSplit (in_eviction m) s m

  -- The queues of `promote`.
  promote-IsSplit :
      (held : ℕ → Bool) (p : ℕ) (rest : List ℕ) (s : S3Fifo) (m : S3FifoMemory K V)
      → IsSplit held (record s { small_queue = p ∷ rest }) m
      → IsSplit held (promote p rest s m) (on_own (set_queue main) p m)
  unfolding promote contains
  promote-IsSplit held p rest s m w = record {
    in_small = λ q. ground (arith, w.in_small q, w.in_small p, w.small_distinct.0);
    in_main = λ q. ground (arith, w.in_main q, w.in_small p, contains-snoc s.main_queue p q);
    placed = λ q h. ground (arith, w.placed q h);
    small_distinct = w.small_distinct.1;
    main_distinct =
        IsDistinct-snoc s.main_queue p w.main_distinct (ground (arith, w.in_main p, w.in_small p));
    freqs = λ q. ground (arith, w.freqs q);
  }

  -- What an eviction loop promises of its result: the queues hold all but the handle taken, which
  -- they held, and no base changes.
  pub record Evicts (held : ℕ → Bool) (size : ℕ) (m : S3FifoMemory K V)
      (r : Option ℕ × S3Fifo × S3FifoMemory K V) : Type ℓ where
    pub split : IsSplit (without held r.0) r.1 r.2
    pub taken : (p : ℕ) → r.0 ≡ some p → held p ≡ true
    pub size_none : r.0 ≡ none → size ≡ len r.1
    pub size_some : (p : ℕ) → r.0 ≡ some p → size ≡ suc (len r.1)
    pub same_bases : (q : ℕ) → (r.2 q).base ≡ (m q).base

  Evicts-after :
      (held : ℕ → Bool) (size size' : ℕ) (m m' : S3FifoMemory K V)
      (r : Option ℕ × S3Fifo × S3FifoMemory K V)
      → size ≡ size'
      → ((q : ℕ) → (m' q).base ≡ (m q).base)
      → Evicts held size' m' r
      → Evicts held size m r
  Evicts-after held size size' m m' r e same v = record {
    split = v.split;
    taken = v.taken;
    size_none = λ h. e ∙ v.size_none h;
    size_some = λ p h. e ∙ v.size_some p h;
    same_bases = λ q. v.same_bases q ∙ same q;
  }

  evict_small_lem :
      (held : ℕ → Bool) (l : List ℕ) (s : S3Fifo) (m : S3FifoMemory K V)
      → IsSplit held (record s { small_queue = l }) m
      → Evicts held (length l + length s.main_queue) m (evict_small l s m)
  unfolding evict_small len contains
  evict_small_lem held [] s m w = record {
    split = w;
    taken = λ p e. ground arith;
    size_none = λ _. refl;
    size_some = λ p e. ground arith;
    same_bases = λ q. refl;
  }
  evict_small_lem held (p ∷ l) s m w = elim (Bool-cases (ltb 1 (freq_of m p))) [
    | inl hot ↦ rw hot (
        Evicts-after held _ _ m (on_own (set_queue main) p m) _
          (unfold promote in omega (arith, length-append {0} s.main_queue (p ∷ [])))
          (λ q. ground arith)
          (evict_small_lem held l (promote p l s m) (on_own (set_queue main) p m)
            (promote-IsSplit held p l s m w)))
    | inr cold ↦ rw cold (record {
      split = record {
        in_small = λ q. ground (arith, w.in_small q, w.small_distinct.0);
        in_main = λ q. ground (arith, w.in_main q, w.in_small p);
        placed = λ q h. ground (arith, w.placed q);
        small_distinct = w.small_distinct.1;
        main_distinct = w.main_distinct;
        freqs = λ q. ground (arith, w.freqs q);
      };
      taken = λ q e. ground (arith, w.in_small q);
      size_none = λ e. ground arith;
      size_some = λ q e. omega arith;
      same_bases = λ q. ground arith;
    })
  ]

  -- One round of the main loop that goes on.
  rotate-IsSplit :
      (held : ℕ → Bool) (p : ℕ) (rest : List ℕ) (s : S3Fifo) (m : S3FifoMemory K V)
      → IsSplit held (record s { main_queue = p ∷ rest }) m
      → IsSplit held (record s { main_queue = rest ++ p ∷ [] }) (on_own dec p m)
  unfolding dec contains
  rotate-IsSplit held p rest s m w = record {
    in_small = λ q. ground (arith, w.in_small q);
    in_main = λ q. ground (arith, w.in_main q, contains-snoc rest p q);
    placed = λ q h. ground (arith, w.placed q);
    small_distinct = w.small_distinct;
    main_distinct = IsDistinct-snoc rest p w.main_distinct.1 w.main_distinct.0;
    freqs = λ q. ground (arith, w.freqs q);
  }

  -- It takes one from the sum of the frequencies, which the fuel exceeds.
  rotate_sum :
      (p : ℕ) (rest : List ℕ) (m : S3FifoMemory K V)
      → contains rest p ≡ false
      → 0 < freq_of m p
      → sum_by (freq_of m) (p ∷ rest) ≡ suc (sum_by (freq_of (on_own dec p m)) (rest ++ p ∷ []))
  unfolding dec sum_by
  rotate_sum p rest m d h = ground (
    arith,
    sum_by-snoc (freq_of (on_own dec p m)) rest p,
    sum_by_cong (freq_of m) (freq_of (on_own dec p m)) rest (λ q h. ground arith),
  )

  evict_main_loop_lem :
      (held : ℕ → Bool) (fuel : ℕ) (l : List ℕ) (s : S3Fifo) (m : S3FifoMemory K V)
      → IsSplit held (record s { main_queue = l }) m
      → sum_by (freq_of m) l < fuel
      → (r : Option ℕ × S3Fifo × S3FifoMemory K V) × (evict_main_loop fuel l s m ≡ some r)
        × Evicts held (length s.small_queue + length l) m r
        × (r.0 ≡ none → l ≡ [])
  unfolding evict_main_loop len contains
  evict_main_loop_lem held zero l s m w f = absurd (omega arith)
  evict_main_loop_lem held (suc fuel) [] s m w f = (
    _,
    refl,
    record {
      split = w;
      taken = λ p e. ground arith;
      size_none = λ _. refl;
      size_some = λ p e. ground arith;
      same_bases = λ q. refl;
    },
    λ _. refl,
  )
  evict_main_loop_lem held (suc fuel) (p ∷ l) s m w f = elim (Bool-cases (ltb 0 (freq_of m p))) [
    | inl hot ↦
        let sums = rotate_sum p l m w.main_distinct.0 (ltb→lt _ _ hot) in
        let (r, e, v, n) =
          evict_main_loop_lem held fuel (l ++ p ∷ []) s (on_own dec p m)
            (rotate-IsSplit held p l s m w) (omega arith) in
        (
          r,
          rw hot e,
          Evicts-after held _ _ m (on_own dec p m) r (omega (arith, length-append {0} l (p ∷ [])))
              (λ q. ground arith) v,
          λ h. absurd (snoc-ne-nil l p (n h)),
        )
    | inr cold ↦ (
      (
        some p,
        record s { main_queue = l; main_charges = wrapping_sub s.main_charges (charge_of m p) },
        on_own (set_queue no_queue) p m,
      ),
      rw cold refl,
      record {
        split = record {
          in_small = λ q. ground (arith, w.in_small q, w.in_main p);
          in_main = λ q. ground (arith, w.in_main q, w.main_distinct.0);
          placed = λ q h. ground (arith, w.placed q);
          small_distinct = w.small_distinct;
          main_distinct = w.main_distinct.1;
          freqs = λ q. ground (arith, w.freqs q);
        };
        taken = λ q e. ground (arith, w.in_main q);
        size_none = λ e. ground arith;
        size_some = λ q e. omega arith;
        same_bases = λ q. ground arith;
      },
      λ e. ground arith,
    )
  ]

  evict_main_lem :
      (held : ℕ → Bool) (s : S3Fifo) (m : S3FifoMemory K V)
      → IsSplit held s m
      → (r : Option ℕ × S3Fifo × S3FifoMemory K V) × (evict_main s m ≡ some r)
        × Evicts held (len s) m r
        × (r.0 ≡ none → s.main_queue ≡ [])
  unfolding evict_main len
  evict_main_lem held s m w = evict_main_loop_lem held _ s.main_queue s m w (omega arith)

  or_evict_main_lem :
      (held : ℕ → Bool) (size : ℕ) (m : S3FifoMemory K V) (r : Option ℕ × S3Fifo × S3FifoMemory K V)
      → Evicts held size m r
      → (r' : Option ℕ × S3Fifo × S3FifoMemory K V) × (or_evict_main r ≡ some r')
        × Evicts held size m r'
  unfolding or_evict_main
  or_evict_main_lem held size m (some p, s, m1) v = (_, refl, v)
  or_evict_main_lem held size m (none, s, m1) v =
      let (r, e, v', _) = evict_main_lem held s m1 v.split in
      (r, e, Evicts-after held size _ m m1 r (v.size_none refl) v.same_bases v')

  -- `evict` ends within its fuel, and takes out of the queues the handle that it returns and
  -- nothing else.
  pub evict_lem :
      (held : ℕ → Bool) (s : S3Fifo) (m : S3FifoMemory K V)
      → IsSplit held s m
      → (r : Option ℕ × S3Fifo × S3FifoMemory K V) × (evict s m ≡ some r) × Evicts held (len s) m r
  unfolding evict
  evict_lem held s m w = elim (Bool-cases (ltb s.small_capacity s.small_charges)) [
    | inl over ↦
        rw over
          (or_evict_main_lem held _ m _ (unfold len in evict_small_lem held s.small_queue s m w))
    | inr fits ↦ let (r, e, v, _) = evict_main_lem held s m w in (r, rw fits e, v)
  ]

  evict_small-none :
      (l : List ℕ) (s : S3Fifo) (m : S3FifoMemory K V)
      → (evict_small l s m).0 ≡ none
      → (evict_small l s m).1.small_queue ≡ []
  unfolding evict_small
  evict_small-none [] s m e = refl
  evict_small-none (p ∷ l) s m e = elim (Bool-cases (ltb 1 (freq_of m p))) [
    | inl hot ↦
        rw hot (evict_small-none l (promote p l s m) (on_own (set_queue main) p m) (rw hot at e))
    | inr cold ↦ absurd (ground (arith, cold, e))
  ]

  -- When `evict_small` finds nothing and `evict_main` then finds nothing, there was nothing.
  or_evict_main-none :
      (held : ℕ → Bool) (size : ℕ) (m : S3FifoMemory K V)
      (x r : Option ℕ × S3Fifo × S3FifoMemory K V)
      → Evicts held size m x
      → (x.0 ≡ none → x.1.small_queue ≡ [])
      → or_evict_main x ≡ some r
      → r.0 ≡ none
      → size ≡ 0
  unfolding or_evict_main len
  or_evict_main-none held size m (some p, s, m1) r v none_small e n =
      absurd (ground (arith, ap (λ y. y.0) (some-inj e), n))
  or_evict_main-none held size m (none, s, m1) r v none_small e n =
      let (r', e', v', none_main) = evict_main_lem held s m1 v.split in
      let found : r' ≡ r = some-inj (sym e' ∙ e) in
      let main_empty = none_main (ap (λ y. y.0) found ∙ n) in
      v.size_none refl ∙ rw (none_small refl, main_empty) refl

  -- `evict` finds nothing if there is nothing, or if the main queue is empty and the charges of the
  -- small queue are within its capacity.
  pub evict-none :
      (held : ℕ → Bool) (s : S3Fifo) (m : S3FifoMemory K V)
      (r : Option ℕ × S3Fifo × S3FifoMemory K V)
      → IsSplit held s m
      → evict s m ≡ some r
      → r.0 ≡ none
      → (len s ≡ 0) ⊎ ((s.main_queue ≡ []) × (s.small_charges ≤ s.small_capacity))
  unfolding evict len
  evict-none held s m r w e n = elim (Bool-cases (ltb s.small_capacity s.small_charges)) [
    | inl over ↦ inl (
        or_evict_main-none held _ m (evict_small s.small_queue s m) r
          (evict_small_lem held s.small_queue s m w) (evict_small-none s.small_queue s m)
          (rw over at e) n)
    | inr fits ↦
        let (r', e', v', none_main) = evict_main_lem held s m w in
        let found : r' ≡ r = some-inj (sym e' ∙ rw fits at e) in
        inr (none_main (ap (λ y. y.0) found ∙ n), ltb→ge s.small_capacity s.small_charges fits)
  ]
