-- ===== src/Memory/Eviction/Lfu/Overflow.antt =====
-- The overflows of foyer-memory/src/eviction/lfu.rs into the probation queue.
use foyer.Prelude.{
  ℕ, ◌≤◌, ◌≡◌, refl, ap, ◌∙◌, inl, inr, Bool, true, false, some, List, [], ◌∷◌, ◌++◌, arith, ltb,
  if◌then◌else◌, ==_refl, ltb→ge, Bool-cases, wrapping_add, wrapping_sub, contains, sum_by,
}
use foyer.Memory.Handle.{Handle, on_own, charge_of}
use foyer.Memory.Handle.{Handle}
use foyer.Memory.Eviction.Lfu.{LfuContext}
use foyer.Memory.Queue.{tail-TakesOut}
use foyer.Memory.Eviction.Lfu.{
  Lfu, LfuMemory, LfuOwn, Queue, no_queue, window, probation, protected, queue_of, set_queue,
  increase_queue_charges, decrease_queue_charges, to_probation, overflow_window, overflow_protected,
}
use foyer.Memory.Eviction.Lfu.Split.{
  is_window, is_probation, is_protected, is_queued, Holds-take, Holds-put, Holds-cong, IsSplit,
}

pub window_of : (queue : Queue) → is_window queue ≡ true → queue ≡ window
window_of no_queue e = absurd (ground (arith, e))
window_of window e = refl
window_of probation e = absurd (ground (arith, e))
window_of protected e = absurd (ground (arith, e))

pub protected_of : (queue : Queue) → is_protected queue ≡ true → queue ≡ protected
protected_of no_queue e = absurd (ground (arith, e))
protected_of window e = absurd (ground (arith, e))
protected_of probation e = absurd (ground (arith, e))
protected_of protected e = refl

module _ {ℓ} {K V : Type ℓ} where
  pub queue_at :
      (queue : Queue) (p : ℕ) (m : LfuMemory K V)
      → queue_of (on_own (set_queue queue) p m) p ≡ queue
  queue_at queue p m = ap (λ b. (if b then on_own_at else m p).own.queue) (==_refl p)
    where
      on_own_at : Handle K V LfuContext LfuOwn
      on_own_at = record { base = (m p).base; own = set_queue queue (m p).own }

module _ {ℓ} {K V : Type ℓ} {F : Type 0} where
  -- What a loop of overflows promises: every handle of the container stays in it, and the queues
  -- stay in order.
  pub record Overflows (held : ℕ → Bool) (s : Lfu F) (m : LfuMemory K V) (s' : Lfu F)
      (m' : LfuMemory K V) : Type ℓ where
    pub split : IsSplit held s' m'
    pub same_bases : (q : ℕ) → (m' q).base ≡ (m q).base
    pub window_capacity_kept : s'.window_charges_capacity ≡ s.window_charges_capacity
    pub protected_capacity_kept : s'.protected_charges_capacity ≡ s.protected_charges_capacity

  -- The state after the front of the window went to `probation`.
  abbrev from_window : ℕ → List ℕ → Lfu F → LfuMemory K V → Lfu F
  from_window p rest s m = record s {
    window_queue = rest;
    window_charges = wrapping_sub s.window_charges (charge_of m p);
    probation_charges = wrapping_add s.probation_charges (charge_of m p);
    probation_queue = s.probation_queue ++ p ∷ [];
  }

  from_window_lem :
      (held : ℕ → Bool) (p : ℕ) (rest : List ℕ) (s : Lfu F) (m : LfuMemory K V)
      → IsSplit held (record s { window_queue = p ∷ rest }) m
      → (to_probation p (record s { window_queue = rest }) m
          ≡ some (from_window p rest s m, on_own (set_queue probation) p m))
        × IsSplit held (from_window p rest s m) (on_own (set_queue probation) p m)
  unfolding to_probation increase_queue_charges decrease_queue_charges contains
  from_window_lem held p rest s m w =
      let at : queue_of m p ≡ window =
        window_of (queue_of m p) (ground (arith, w.in_window.members p, ==_refl p)) in
      let charge_at : charge_of (on_own (set_queue probation) p m) p ≡ charge_of m p =
        ground arith in
      let on : held p ≡ true = w.placed p ∙ ap is_queued at in
      (
        rw (at, queue_at probation p m, charge_at) refl,
        record {
          in_window =
              Holds-take p _ _ _ _ _ _ _ w.in_window (tail-TakesOut p rest w.in_window.distinct)
                (ap is_window at) (w.words p on) (λ q. ground (arith, at)) (λ q. ground arith);
          in_probation =
              Holds-put p _ _ _ _ _ _ w.in_probation (ap is_probation at) (λ q. ground (arith, at))
                (λ q. ground arith);
          in_protected =
              Holds-cong _ _ _ _ _ _ w.in_protected (λ q. ground (arith, at)) (λ q _. ground arith);
          placed = λ q. ground (arith, at, w.placed q);
          words = λ q h. ground (arith, w.words q h);
        },
      )

  -- The state after the front of the protected queue went to `probation`.
  abbrev from_protected : ℕ → List ℕ → Lfu F → LfuMemory K V → Lfu F
  from_protected p rest s m = record s {
    protected_queue = rest;
    protected_charges = wrapping_sub s.protected_charges (charge_of m p);
    probation_charges = wrapping_add s.probation_charges (charge_of m p);
    probation_queue = s.probation_queue ++ p ∷ [];
  }

  from_protected_lem :
      (held : ℕ → Bool) (p : ℕ) (rest : List ℕ) (s : Lfu F) (m : LfuMemory K V)
      → IsSplit held (record s { protected_queue = p ∷ rest }) m
      → (to_probation p (record s { protected_queue = rest }) m
          ≡ some (from_protected p rest s m, on_own (set_queue probation) p m))
        × IsSplit held (from_protected p rest s m) (on_own (set_queue probation) p m)
  unfolding to_probation increase_queue_charges decrease_queue_charges contains
  from_protected_lem held p rest s m w =
      let at : queue_of m p ≡ protected =
        protected_of (queue_of m p) (ground (arith, w.in_protected.members p, ==_refl p)) in
      let charge_at : charge_of (on_own (set_queue probation) p m) p ≡ charge_of m p =
        ground arith in
      let on : held p ≡ true = w.placed p ∙ ap is_queued at in
      (
        rw (at, queue_at probation p m, charge_at) refl,
        record {
          in_window =
              Holds-cong _ _ _ _ _ _ w.in_window (λ q. ground (arith, at)) (λ q _. ground arith);
          in_probation =
              Holds-put p _ _ _ _ _ _ w.in_probation (ap is_probation at) (λ q. ground (arith, at))
                (λ q. ground arith);
          in_protected =
              Holds-take p _ _ _ _ _ _ _ w.in_protected
                (tail-TakesOut p rest w.in_protected.distinct) (ap is_protected at) (w.words p on)
                (λ q. ground (arith, at)) (λ q. ground arith);
          placed = λ q. ground (arith, at, w.placed q);
          words = λ q h. ground (arith, w.words q h);
        },
      )

  -- The loop ends before the window is empty, since the charges of an empty window are zero.
  pub overflow_window_lem :
      (held : ℕ → Bool) (l : List ℕ) (s : Lfu F) (m : LfuMemory K V)
      → IsSplit held (record s { window_queue = l }) m
      → (s' : Lfu F) × (m' : LfuMemory K V) × (overflow_window l s m ≡ some (s', m'))
        × Overflows held s m s' m'
        × (s'.window_charges ≤ s'.window_charges_capacity)
  unfolding overflow_window contains sum_by
  overflow_window_lem held [] s m w =
      let zero_sum : s.window_charges ≡ 0 = w.in_window.counted in
      let fits : ltb s.window_charges_capacity s.window_charges ≡ false =
        ground (arith, zero_sum) in
      (
        record s { window_queue = [] },
        m,
        rw fits refl,
        record {
          split = w;
          same_bases = λ q. refl;
          window_capacity_kept = refl;
          protected_capacity_kept = refl;
        },
        ltb→ge _ _ fits,
      )
  overflow_window_lem held (p ∷ rest) s m w =
      elim (Bool-cases (ltb s.window_charges_capacity s.window_charges)) [
        | inl over ↦
            let (e, v) = from_window_lem held p rest s m w in
            let (s', m', f, o, within) =
              overflow_window_lem held rest (from_window p rest s m)
                (on_own (set_queue probation) p m) v in
            (
              s',
              m',
              rw (over, e) f,
              record {
                split = o.split;
                same_bases = λ q. o.same_bases q ∙ ground arith;
                window_capacity_kept = o.window_capacity_kept;
                protected_capacity_kept = o.protected_capacity_kept;
              },
              within,
            )
        | inr fits ↦ (
          record s { window_queue = p ∷ rest },
          m,
          rw fits refl,
          record {
            split = w;
            same_bases = λ q. refl;
            window_capacity_kept = refl;
            protected_capacity_kept = refl;
          },
          ltb→ge _ _ fits,
        )
      ]

  -- The loop ends before the protected queue is empty, since the charges of an empty queue are
  -- zero.
  pub overflow_protected_lem :
      (held : ℕ → Bool) (l : List ℕ) (s : Lfu F) (m : LfuMemory K V)
      → IsSplit held (record s { protected_queue = l }) m
      → (s' : Lfu F) × (m' : LfuMemory K V) × (overflow_protected l s m ≡ some (s', m'))
        × Overflows held s m s' m'
        × (s'.protected_charges ≤ s'.protected_charges_capacity)
  unfolding overflow_protected contains sum_by
  overflow_protected_lem held [] s m w =
      let zero_sum : s.protected_charges ≡ 0 = w.in_protected.counted in
      let fits : ltb s.protected_charges_capacity s.protected_charges ≡ false =
        ground (arith, zero_sum) in
      (
        record s { protected_queue = [] },
        m,
        rw fits refl,
        record {
          split = w;
          same_bases = λ q. refl;
          window_capacity_kept = refl;
          protected_capacity_kept = refl;
        },
        ltb→ge _ _ fits,
      )
  overflow_protected_lem held (p ∷ rest) s m w =
      elim (Bool-cases (ltb s.protected_charges_capacity s.protected_charges)) [
        | inl over ↦
            let (e, v) = from_protected_lem held p rest s m w in
            let (s', m', f, o, within) =
              overflow_protected_lem held rest (from_protected p rest s m)
                (on_own (set_queue probation) p m) v in
            (
              s',
              m',
              rw (over, e) f,
              record {
                split = o.split;
                same_bases = λ q. o.same_bases q ∙ ground arith;
                window_capacity_kept = o.window_capacity_kept;
                protected_capacity_kept = o.protected_capacity_kept;
              },
              within,
            )
        | inr fits ↦ (
          record s { protected_queue = p ∷ rest },
          m,
          rw fits refl,
          record {
            split = w;
            same_bases = λ q. refl;
            window_capacity_kept = refl;
            protected_capacity_kept = refl;
          },
          ltb→ge _ _ fits,
        )
      ]
