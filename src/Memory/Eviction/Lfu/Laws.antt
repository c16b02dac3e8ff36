-- ===== src/Memory/Eviction/Lfu/Laws.antt =====
-- The algorithm of foyer-memory/src/eviction/lfu.rs meets the contract of the trait.
use foyer.Prelude.{
  ℕ, zero, suc, ◌≤◌, ◌<◌, ◌≡◌, refl, sym, ap, subst, ◌∙◌, inl, inr, Bool, true, false, ◌||◌, some,
  List, [], ◌∷◌, ◌++◌, arith, leb, ◌==◌, if◌then◌else◌, ==_iff, ==_of_ne, Bool-cases, usize_mod,
  wrapping_add, wrapping_sub, contains, erase, sum_by, length, contains-snoc,
}
use foyer.Memory.Handle.{on_base, on_own, in_eviction, charge_of, set_in_eviction}
use foyer.Memory.Eviction.{Eviction, EvictionLaws, Effect}
use foyer.Memory.Eviction.Lfu.{new_own}
use foyer.Memory.Eviction.Lfu.{
  Sketch, Lfu, LfuContext, LfuMemory, LfuOwn, Queue, no_queue, window, probation, protected,
  queue_of, set_queue, increase_queue_charges, decrease_queue_charges, unlink, len, new,
  update_frequencies, push, pop, promote, reinsert_in, reinsert, access, remove, clear_loop, clear,
}
use foyer.Memory.Eviction.Lfu.Split.{
  is_window, is_probation, is_protected, is_queued, Holds-take, Holds-put, Holds-cong, Holds-rotate,
  IsSplit, IsWf,
}
use foyer.Memory.Eviction.Lfu.Overflow.{queue_at, overflow_window_lem, overflow_protected_lem}
use foyer.Memory.Eviction.Lfu.Pop.{pop-nonempty, lfu_remove_lem, erased}

empty_contains : (l : List ℕ) (q : ℕ) → length l ≡ 0 → contains l q ≡ false
unfolding contains
empty_contains [] q e = refl
empty_contains (x ∷ l) q e = absurd (omega (arith, e))

module _ {ℓ} {K V : Type ℓ} where
  -- The memory of `push` before the overflow.
  abbrev named : ℕ → LfuMemory K V → LfuMemory K V
  named p m = on_own (set_queue window) p (on_base (set_in_eviction true) p m)

module _ {ℓ} {K V : Type ℓ} {F : Type 0} where
  IsSplit-held :
      (held held' : ℕ → Bool) (s : Lfu F) (m : LfuMemory K V)
      → IsSplit held s m
      → ((q : ℕ) → held' q ≡ held q)
      → IsSplit held' s m
  IsSplit-held held held' s m w same = record {
    in_window = w.in_window;
    in_probation = w.in_probation;
    in_protected = w.in_protected;
    placed = λ q. same q ∙ w.placed q;
    words = λ q h. w.words q (sym (same q) ∙ h);
  }

  -- The frequencies do not matter to the queues.
  update_frequencies-IsSplit :
      (sketch : Sketch F) (hash : ℕ) (held : ℕ → Bool) (s : Lfu F) (m : LfuMemory K V)
      → IsSplit held s m
      → IsSplit held (update_frequencies sketch hash s) m
        × ((update_frequencies sketch hash s).window_charges_capacity ≡ s.window_charges_capacity)
  unfolding update_frequencies
  update_frequencies-IsSplit sketch hash held s m w =
      elim (Bool-cases (leb s.decay (wrapping_add s.step 1))) [
        | inl late ↦ rw late (
          record {
            in_window = w.in_window;
            in_probation = w.in_probation;
            in_protected = w.in_protected;
            placed = w.placed;
            words = w.words;
          },
          refl,
        )
        | inr early ↦ rw early (
          record {
            in_window = w.in_window;
            in_probation = w.in_probation;
            in_protected = w.in_protected;
            placed = w.placed;
            words = w.words;
          },
          refl,
        )
      ]

  -- The state of `push` before the frequencies are updated.
  abbrev pushed : ℕ → Lfu F → LfuMemory K V → Lfu F
  pushed p s m = record s {
    window_queue = s.window_queue ++ p ∷ [];
    window_charges = wrapping_add s.window_charges (charge_of m p);
  }

  pushed-IsSplit :
      (p : ℕ) (s : Lfu F) (m : LfuMemory K V)
      → IsWf s m
      → in_eviction m p ≡ false
      → charge_of m p < usize_mod
      → IsSplit (λ q. q == p || in_eviction m q) (pushed p s m) (named p m)
  pushed-IsSplit p s m w out word =
      let off : is_queued (queue_of m p) ≡ false = sym (w.placed p) ∙ out in
      record {
        in_window =
            Holds-put p _ _ _ _ _ _ w.in_window (ground (arith, off)) (λ q. ground (arith, off))
              (λ q. ground arith);
        in_probation =
            Holds-cong _ _ _ _ _ _ w.in_probation (λ q. ground (arith, off)) (λ q _. ground arith);
        in_protected =
            Holds-cong _ _ _ _ _ _ w.in_protected (λ q. ground (arith, off)) (λ q _. ground arith);
        placed = λ q. ground (arith, w.placed q);
        words = λ q h. elim (Bool-cases (q == p)) [
          | inl here ↦ ground (arith, word, here)
          | inr other ↦ ground (arith, w.words q, h, other)
        ];
      }

  -- A push never faults: the handle and no other joins the container, and the window is then
  -- within its capacity.
  pub push-window_fits :
      (sketch : Sketch F) (p : ℕ) (s : Lfu F) (m : LfuMemory K V)
      → IsWf s m
      → in_eviction m p ≡ false
      → charge_of m p < usize_mod
      → (s' : Lfu F) × (m' : LfuMemory K V) × (push sketch p s m ≡ some (s', m'))
        × Effect IsWf m (λ q. q == p || in_eviction m q) s' m'
        × (s'.window_charges ≤ s.window_charges_capacity)
  unfolding push increase_queue_charges
  push-window_fits sketch p s m w out word =
      let held = λ (q : ℕ). q == p || in_eviction m q in
      let hash : ℕ = (named p m p).base.hash in
      let (v, capacity) =
        update_frequencies-IsSplit sketch hash held (pushed p s m) (named p m)
          (pushed-IsSplit p s m w out word) in
      let s1 = update_frequencies sketch hash (pushed p s m) in
      let charge_at : charge_of (named p m) p ≡ charge_of m p = ground arith in
      let (s', m', e, o, within) = overflow_window_lem held s1.window_queue s1 (named p m) v in
      (
        s',
        m',
        rw (queue_at window p (on_base (set_in_eviction true) p m), charge_at) e,
        record {
          wf = IsSplit-held _ _ s' m' o.split (λ q. ground (arith, o.same_bases q));
          bases = λ q. ground (arith, o.same_bases q);
        },
        subst (λ n. s'.window_charges ≤ n) (o.window_capacity_kept ∙ capacity) within,
      )

  -- The state of a promotion before the overflow.
  abbrev promoted : ℕ → Lfu F → LfuMemory K V → Lfu F
  promoted p s m = record s {
    probation_queue = erase p s.probation_queue;
    probation_charges = wrapping_sub s.probation_charges (charge_of m p);
    protected_charges = wrapping_add s.protected_charges (charge_of m p);
    protected_queue = s.protected_queue ++ p ∷ [];
  }

  promoted-IsSplit :
      (p : ℕ) (s : Lfu F) (m : LfuMemory K V)
      → IsWf s m
      → queue_of m p ≡ probation
      → IsSplit (in_eviction m) (promoted p s m) (on_own (set_queue protected) p m)
  promoted-IsSplit p s m w at =
      let on : in_eviction m p ≡ true = w.placed p ∙ ap is_queued at in
      let (_, t) = erased p s.probation_queue _ _ _ w.in_probation (ap is_probation at) in
      record {
        in_window =
            Holds-cong _ _ _ _ _ _ w.in_window (λ q. ground (arith, at)) (λ q _. ground arith);
        in_probation =
            Holds-take p _ _ _ _ _ _ _ w.in_probation t (ap is_probation at) (w.words p on)
              (λ q. ground (arith, at)) (λ q. ground arith);
        in_protected =
            Holds-put p _ _ _ _ _ _ w.in_protected (ap is_protected at) (λ q. ground (arith, at))
              (λ q. ground arith);
        placed = λ q. ground (arith, at, w.placed q);
        words = λ q h. ground (arith, w.words q h);
      }

  -- A promotion out of `probation` never faults: no handle leaves or joins the container, and the
  -- protected queue is then within its capacity.
  pub promote-protected_fits :
      (p : ℕ) (s : Lfu F) (m : LfuMemory K V)
      → IsWf s m
      → queue_of m p ≡ probation
      → (s' : Lfu F) × (m' : LfuMemory K V) × (promote p s m ≡ some (s', m'))
        × Effect IsWf m (in_eviction m) s' m'
        × (s'.protected_charges ≤ s.protected_charges_capacity)
  unfolding promote unlink increase_queue_charges decrease_queue_charges
  promote-protected_fits p s m w at =
      let v = promoted-IsSplit p s m w at in
      let (f, _) = erased p s.probation_queue _ _ _ w.in_probation (ap is_probation at) in
      let charge_at : charge_of (on_own (set_queue protected) p m) p ≡ charge_of m p =
        ground arith in
      let (s', m', e, o, within) =
        overflow_protected_lem (in_eviction m) (s.protected_queue ++ p ∷ []) (promoted p s m)
          (on_own (set_queue protected) p m) v in
      (
        s',
        m',
        rw (f, at, queue_at protected p m, charge_at) e,
        record {
          wf = IsSplit-held _ _ s' m' o.split (λ q. ground (arith, o.same_bases q));
          bases = λ q. ground (arith, o.same_bases q);
        },
        subst (λ n. s'.protected_charges ≤ n) o.protected_capacity_kept within,
      )

  reinsert_in_lem :
      (sketch : Sketch F) (queue : Queue) (p : ℕ) (s : Lfu F) (m : LfuMemory K V)
      → IsWf s m
      → charge_of m p < usize_mod
      → queue_of m p ≡ queue
      → (s' : Lfu F) × (m' : LfuMemory K V) × (reinsert_in sketch queue p s m ≡ some (s', m'))
        × Effect IsWf m (λ q. if q == p then true else in_eviction m q) s' m'
  unfolding reinsert_in unlink
  reinsert_in_lem sketch no_queue p s m w word at =
      let out : in_eviction m p ≡ false = w.placed p ∙ ap is_queued at in
      let (s', m', e, x, _) = push-window_fits sketch p s m w out word in
      (s', m', e, record { wf = x.wf; bases = λ q. ground (arith, x.bases q) })
  reinsert_in_lem sketch window p s m w word at =
      let on : in_eviction m p ≡ true = w.placed p ∙ ap is_queued at in
      let (f, t) = erased p s.window_queue _ _ _ w.in_window (ap is_window at) in
      (
        record s { window_queue = erase p s.window_queue ++ p ∷ [] },
        m,
        rw f refl,
        record {
          wf = record {
            in_window = Holds-rotate p _ _ _ _ _ w.in_window t (ap is_window at);
            in_probation = w.in_probation;
            in_protected = w.in_protected;
            placed = w.placed;
            words = w.words;
          };
          bases = λ q. ground (arith, on);
        },
      )
  reinsert_in_lem sketch probation p s m w word at =
      let on : in_eviction m p ≡ true = w.placed p ∙ ap is_queued at in
      let (s', m', e, x, _) = promote-protected_fits p s m w at in
      (s', m', e, record { wf = x.wf; bases = λ q. ground (arith, x.bases q, on) })
  reinsert_in_lem sketch protected p s m w word at =
      let on : in_eviction m p ≡ true = w.placed p ∙ ap is_queued at in
      let (f, t) = erased p s.protected_queue _ _ _ w.in_protected (ap is_protected at) in
      (
        record s { protected_queue = erase p s.protected_queue ++ p ∷ [] },
        m,
        rw f refl,
        record {
          wf = record {
            in_window = w.in_window;
            in_probation = w.in_probation;
            in_protected = Holds-rotate p _ _ _ _ _ w.in_protected t (ap is_protected at);
            placed = w.placed;
            words = w.words;
          };
          bases = λ q. ground (arith, on);
        },
      )

  nothing_held :
      (s : Lfu F) (m : LfuMemory K V) (q : ℕ) → IsWf s m → len s ≡ 0 → in_eviction m q ≡ false
  unfolding len
  nothing_held s m q w e =
      let a = empty_contains s.window_queue q (omega (arith, e)) in
      let b = empty_contains s.probation_queue q (omega (arith, e)) in
      let c = empty_contains s.protected_queue q (omega (arith, e)) in
      ground (
        arith,
        a,
        b,
        c,
        w.placed q,
        w.in_window.members q,
        w.in_probation.members q,
        w.in_protected.members q,
      )

  -- The loop of `clear` ends, since each round takes a handle out.
  clear_loop_lem :
      (sketch : Sketch F) (fuel : ℕ) (res : List ℕ) (s : Lfu F) (m : LfuMemory K V)
      → IsWf s m
      → len s < fuel
      → (ps : List ℕ) × (s' : Lfu F) × (m' : LfuMemory K V) × (clear_loop sketch fuel res s m
          ≡ some (ps, s', m'))
        × ((q : ℕ) → contains ps q ≡ (contains res q || in_eviction m q))
        × Effect IsWf m (λ q. false) s' m'
  unfolding clear_loop
  clear_loop_lem sketch zero res s m w f = absurd (omega arith)
  clear_loop_lem sketch (suc fuel) res s m w f = elim (pop-nonempty sketch s m w) [
    | inl (empty, _) ↦
        let none_in : (q : ℕ) → in_eviction m q ≡ false = λ q. nothing_held s m q w empty in
        let done : (len s == 0) ≡ true = (==_iff _ _).1 empty in
        (
          res,
          s,
          m,
          rw done refl,
          λ q. ground (arith, none_in q),
          record { wf = w; bases = λ q. ground (arith, none_in q) },
        )
    | inr (p, s1, m1, e, on, size, x) ↦
        let more : (len s == 0) ≡ false =
          ==_of_ne _ _ (λ (z : len s ≡ 0). omega (arith, z, size)) in
        let (ps, s', m', g, all, y) =
          clear_loop_lem sketch fuel (res ++ p ∷ []) s1 m1 x.wf (omega (arith, size)) in
        (
          ps,
          s',
          m',
          rw (more, e) g,
          λ q. ground (arith, all q, contains-snoc res p q, x.bases q, on, ==_iff q p),
          record { wf = y.wf; bases = λ q. ground (arith, y.bases q, x.bases q) },
        )
  ]

  -- The law of `clear`.
  lfu_clear_lem :
      (sketch : Sketch F) (s : Lfu F) (m : LfuMemory K V)
      → IsWf s m
      → (ps : List ℕ) × (s' : Lfu F) × (m' : LfuMemory K V) × (clear sketch s m ≡ some (ps, s', m'))
        × ((q : ℕ) → contains ps q ≡ in_eviction m q)
        × Effect IsWf m (λ q. false) s' m'
  unfolding clear contains
  lfu_clear_lem sketch s m w = clear_loop_lem sketch (suc (len s)) [] s m w (omega arith)

  IsSplit-stable :
      (s : Lfu F) (m m' : LfuMemory K V)
      → IsWf s m
      → ((q : ℕ) → (m' q).own ≡ (m q).own)
      → ((q : ℕ) → in_eviction m' q ≡ in_eviction m q)
      → ((q : ℕ) → in_eviction m q ≡ true → charge_of m' q ≡ charge_of m q)
      → IsWf s m'
  IsSplit-stable s m m' w own on charge =
      let same : (q : ℕ) → queue_of m' q ≡ queue_of m q = λ q. ap (λ o. o.queue) (own q) in
      record {
        in_window =
            Holds-cong _ _ _ _ _ _ w.in_window (λ q. ap is_window (same q))
              (λ q h. charge q (ground (arith, w.placed q, h)));
        in_probation =
            Holds-cong _ _ _ _ _ _ w.in_probation (λ q. ap is_probation (same q))
              (λ q h. charge q (ground (arith, w.placed q, h)));
        in_protected =
            Holds-cong _ _ _ _ _ _ w.in_protected (λ q. ap is_protected (same q))
              (λ q h. charge q (ground (arith, w.placed q, h)));
        placed = λ q. on q ∙ w.placed q ∙ sym (ap is_queued (same q));
        words = λ q h.
            let before = sym (on q) ∙ h in
            subst (λ n. n < usize_mod) (sym (charge q before)) (w.words q before);
      }

module _ {ℓ} {K V : Type ℓ} {F : Type 0} (sketch : Sketch F) (ratios_valid : Bool)
    (window_scale protected_scale : ℕ → ℕ) where
  abbrev pub lfu : Eviction K V LfuContext LfuOwn (Lfu F)
  lfu = record {
    new_own = new_own;
    create = new sketch ratios_valid window_scale protected_scale;
    push = push sketch;
    pop = pop sketch;
    reinsert = reinsert sketch;
    access = access sketch;
    remove = remove;
    clear = clear sketch;
    len = len;
  }

  create_lem :
      (capacity : ℕ) (m : LfuMemory K V) {s : Lfu F}
      → lfu.create capacity ≡ some s
      → ((q : ℕ) → in_eviction m q ≡ false)
      → ((q : ℕ) → (m q).own ≡ lfu.new_own)
      → IsWf s m
  unfolding new contains sum_by
  create_lem capacity m e out own = record {
    in_window = record {
      members = λ q. ground (arith, own q);
      distinct = ground arith;
      counted = ground arith;
    };
    in_probation = record {
      members = λ q. ground (arith, own q);
      distinct = ground arith;
      counted = ground arith;
    };
    in_protected = record {
      members = λ q. ground (arith, own q);
      distinct = ground arith;
      counted = ground arith;
    };
    placed = λ q. ground (arith, out q, own q);
    words = λ q h. absurd (ground (arith, out q, h));
  }

  -- `Lfu` meets the contract of `Eviction`.
  pub lfu-EvictionLaws : EvictionLaws lfu IsWf
  unfolding reinsert access
  lfu-EvictionLaws = record {
    create_law = λ capacity m e out own. create_lem capacity m e out own;
    push_law = λ p s m w _ out word.
        let (s', m', e, x, _) = push-window_fits sketch p s m w out word in (s', m', e, x);
    pop_law = λ s m w. elim (pop-nonempty sketch s m w) [
      | inl (_, e) ↦ inl (s, m, e, record { wf = w; bases = λ q. ground arith })
      | inr r ↦ inr r
    ];
    reinsert_law = λ p s m w _ word.
        let (s', m', e, x) = reinsert_in_lem sketch (queue_of m p) p s m w word refl in
        (true, s', m', e, (λ _. refl), x);
    access_law = λ p s m w.
        let (v, _) = update_frequencies-IsSplit sketch (m p).base.hash _ s m w in
        (
          update_frequencies sketch (m p).base.hash s,
          m,
          refl,
          record { wf = v; bases = λ q. ground arith },
        );
    remove_law = lfu_remove_lem;
    clear_law = lfu_clear_lem sketch;
    stable = IsSplit-stable;
    fresh = λ p b s m w out off.
        let idle : is_queued (queue_of m p) ≡ false = sym (w.placed p) ∙ out in
        record {
          in_window =
              Holds-cong _ _ _ _ _ _ w.in_window (λ q. ground (arith, idle))
                (λ q h. ground (arith, idle, h));
          in_probation =
              Holds-cong _ _ _ _ _ _ w.in_probation (λ q. ground (arith, idle))
                (λ q h. ground (arith, idle, h));
          in_protected =
              Holds-cong _ _ _ _ _ _ w.in_protected (λ q. ground (arith, idle))
                (λ q h. ground (arith, idle, h));
          placed = λ q. ground (arith, w.placed q, off);
          words = λ q h. ground (arith, w.words q, h, off);
        };
  }
