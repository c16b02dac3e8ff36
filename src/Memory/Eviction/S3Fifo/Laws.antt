-- ===== src/Memory/Eviction/S3Fifo/Laws.antt =====
-- The S3-FIFO algorithm of foyer-memory/src/eviction/s3fifo.rs meets the contract of `Eviction`.
use foyer.Prelude.{
  ℕ, suc, ◌≡◌, refl, ◌⊎◌, inl, inr, Bool, true, false, not, ◌&&◌, ◌||◌, Option, none, some, List,
  arith, ◌==◌, wrapping_sub, contains, erase, contains-snoc, contains-append, IsDistinct-snoc,
}
use foyer.Memory.Handle.{on_base, on_own, in_eviction, charge_of, set_in_eviction}
use foyer.Memory.Eviction.{Eviction, EvictionLaws, Effect}
use foyer.Memory.Handle.{for_each, for_each_lem}
use foyer.Memory.Queue.{remove_raw, TakesOut, erase-TakesOut, absent-TakesOut}
use foyer.Memory.Eviction.S3Fifo.{new_own}
use foyer.Memory.Eviction.S3Fifo.{
  S3Fifo, S3FifoMemory, S3FifoContext, S3FifoOwn, Queue, no_queue, main, small, inc, set_queue,
  freq_of, new, push, finish, pop, reinsert, access, unlink, remove, release, clear, len,
}
use foyer.Memory.Eviction.S3Fifo.Evict.{
  is_small, is_main, queue_of, IsSplit, IsWf, Evicts, evict_lem,
}

module _ {ℓ} {K V : Type ℓ} where
  pub IsSplit-cong :
      (held held' : ℕ → Bool) (s : S3Fifo) (m m' : S3FifoMemory K V)
      → IsSplit held s m
      → ((q : ℕ) → held' q ≡ held q)
      → ((q : ℕ) → (m' q).own ≡ (m q).own)
      → IsSplit held' s m'
  IsSplit-cong held held' s m m' w same own = record {
    in_small = λ q. ground (arith, w.in_small q, same q, own q);
    in_main = λ q. ground (arith, w.in_main q, same q, own q);
    placed = λ q h. ground (arith, w.placed q, same q, own q);
    small_distinct = w.small_distinct;
    main_distinct = w.main_distinct;
    freqs = λ q. ground (arith, w.freqs q, own q);
  }

  -- The law of `push`.
  pub push_lem :
      (p : ℕ) (s : S3Fifo) (m : S3FifoMemory K V)
      → IsWf s m
      → in_eviction m p ≡ false
      → (s' : S3Fifo) × (m' : S3FifoMemory K V) × (push p s m ≡ some (s', m'))
        × Effect IsWf m (λ q. q == p || in_eviction m q) s' m'
  unfolding push
  push_lem p s m w out = (
    _,
    _,
    refl,
    record {
      wf = record {
        in_small = λ q. ground (arith, w.in_small q, contains-snoc s.small_queue p q);
        in_main = λ q. ground (arith, w.in_main q);
        placed = λ q h. ground (arith, w.placed q);
        small_distinct =
            IsDistinct-snoc s.small_queue p w.small_distinct (ground (arith, w.in_small p));
        main_distinct = w.main_distinct;
        freqs = λ q. ground (arith, w.freqs q);
      };
      bases = λ q. ground arith;
    },
  )

  finish_lem :
      (s : S3Fifo) (m : S3FifoMemory K V) (r : Option ℕ × S3Fifo × S3FifoMemory K V)
      → Evicts (in_eviction m) (len s) m r
      → ((s' : S3Fifo) × (m' : S3FifoMemory K V) × (finish false r ≡ some (none, s', m'))
          × Effect IsWf m (in_eviction m) s' m')
        ⊎ ((p : ℕ) × (s' : S3Fifo) × (m' : S3FifoMemory K V) × (finish false r
              ≡ some (some p, s', m'))
            × (in_eviction m p ≡ true)
            × (len s ≡ suc (len s'))
            × Effect IsWf m (λ q. in_eviction m q && not (q == p)) s' m')
  unfolding finish
  finish_lem s m (none, s', m') v = inl (
    s',
    m',
    refl,
    record {
      wf =
          IsSplit-cong (in_eviction m) (in_eviction m') s' m' m' v.split
            (λ q. ground (arith, v.same_bases q)) (λ q. refl);
      bases = λ q. ground (arith, v.same_bases q);
    },
  )
  finish_lem s m (some p, s', m') v = inr (
    p,
    s',
    _,
    refl,
    v.taken p refl,
    v.size_some p refl,
    record {
      wf =
          IsSplit-cong _ _ s' m' (on_base (set_in_eviction false) p m') v.split
            (λ q. ground (arith, v.same_bases q)) (λ q. ground arith);
      bases = λ q. ground (arith, v.same_bases q);
    },
  )

  -- The law of `pop` in a build without debug assertions: the loops end, and a handle that is
  -- returned came from the queues.
  pub pop_lem :
      (s : S3Fifo) (m : S3FifoMemory K V)
      → IsWf s m
      → ((s' : S3Fifo) × (m' : S3FifoMemory K V) × (pop false s m ≡ some (none, s', m'))
          × Effect IsWf m (in_eviction m) s' m')
        ⊎ ((p : ℕ) × (s' : S3Fifo) × (m' : S3FifoMemory K V) × (pop false s m
              ≡ some (some p, s', m'))
            × (in_eviction m p ≡ true)
            × (len s ≡ suc (len s'))
            × Effect IsWf m (λ q. in_eviction m q && not (q == p)) s' m')
  unfolding pop
  pop_lem s m w =
      let (r, e, v) = evict_lem (in_eviction m) s m w in
      elim (finish_lem s m r v) [
        | inl (s', m', f, o) ↦ inl (s', m', rw (e, pop) f, o)
        | inr (p, s', m', f, on, size, o) ↦ inr (p, s', m', rw (e, pop) f, on, size, o)
      ]

  -- The queues without a handle that the container holds.
  without-Effect :
      (p : ℕ) (main_queue small_queue : List ℕ) (s s' : S3Fifo) (m : S3FifoMemory K V)
      → IsWf s m
      → TakesOut p s.main_queue s'.main_queue
      → TakesOut p s.small_queue s'.small_queue
      → Effect IsWf m
          (λ q. in_eviction m q && not (q == p))
          s'
          (on_base (set_in_eviction false) p (on_own (set_queue no_queue) p m))
  without-Effect p main_queue small_queue s s' m w h l = record {
    wf = record {
      in_small = λ q. ground (arith, w.in_small q, l.members q);
      in_main = λ q. ground (arith, w.in_main q, h.members q);
      placed = λ q e. ground (arith, w.placed q);
      small_distinct = l.distinct;
      main_distinct = h.distinct;
      freqs = λ q. ground (arith, w.freqs q);
    };
    bases = λ q. ground arith;
  }

  unlink_lem :
      (queue : Queue) (p : ℕ) (s : S3Fifo) (m : S3FifoMemory K V)
      → IsWf s m
      → in_eviction m p ≡ true
      → queue_of m p ≡ queue
      → (s' : S3Fifo) × (unlink queue p (charge_of m p) s ≡ some s')
        × TakesOut p s.main_queue s'.main_queue
        × TakesOut p s.small_queue s'.small_queue
  unfolding unlink remove_raw
  unlink_lem no_queue p s m w on e = absurd (w.placed p on e)
  unlink_lem main p s m w on e =
      let here : contains s.main_queue p ≡ true = ground (arith, w.in_main p) in
      (
        record s {
          main_queue = erase p s.main_queue;
          main_charges = wrapping_sub s.main_charges (charge_of m p);
        },
        rw here refl,
        erase-TakesOut p s.main_queue w.main_distinct here,
        absent-TakesOut p s.small_queue w.small_distinct (ground (arith, w.in_small p)),
      )
  unlink_lem small p s m w on e =
      let here : contains s.small_queue p ≡ true = ground (arith, w.in_small p) in
      (
        record s {
          small_queue = erase p s.small_queue;
          small_charges = wrapping_sub s.small_charges (charge_of m p);
        },
        rw here refl,
        absent-TakesOut p s.main_queue w.main_distinct (ground (arith, w.in_main p)),
        erase-TakesOut p s.small_queue w.small_distinct here,
      )

  -- The law of `remove`: `unreachable!` is not reached.
  pub remove_lem :
      (p : ℕ) (s : S3Fifo) (m : S3FifoMemory K V)
      → IsWf s m
      → in_eviction m p ≡ true
      → (s' : S3Fifo) × (m' : S3FifoMemory K V) × (remove p s m ≡ some (s', m'))
        × Effect IsWf m (λ q. in_eviction m q && not (q == p)) s' m'
  unfolding remove
  remove_lem p s m w on =
      let (s', e, h, l) = unlink_lem (queue_of m p) p s m w on refl in
      (s', _, rw (e, remove) refl, without-Effect p s.main_queue s.small_queue s s' m w h l)

  -- The memory after both loops of `clear`.
  abbrev released : S3Fifo → S3FifoMemory K V → S3FifoMemory K V
  released s m = for_each release s.main_queue (for_each release s.small_queue m)

  placed_lem :
      (s : S3Fifo) (m : S3FifoMemory K V) (q : ℕ)
      → IsWf s m
      → in_eviction m q ≡ true
      → (is_small (queue_of m q) || is_main (queue_of m q)) ≡ true
  placed_lem s m q w on = ground (arith, w.placed q on)

  released_lem :
      (s : S3Fifo) (m : S3FifoMemory K V) (q : ℕ)
      → IsWf s m
      → ((released s m q).base ≡ set_in_eviction false (m q).base)
        × (freq_of (released s m) q ≡ freq_of m q)
  released_lem s m q w =
      let first = for_each_lem release s.small_queue m q w.small_distinct in
      let second =
        for_each_lem release s.main_queue (for_each release s.small_queue m) q w.main_distinct in
      (
        ground (arith, first, second, w.in_small q, w.in_main q, placed_lem s m q w),
        ground (arith, first, second),
      )

  -- The law of `clear`.
  pub clear_lem :
      (s : S3Fifo) (m : S3FifoMemory K V)
      → IsWf s m
      → (ps : List ℕ) × (s' : S3Fifo) × (m' : S3FifoMemory K V) × (clear s m ≡ some (ps, s', m'))
        × ((q : ℕ) → contains ps q ≡ in_eviction m q)
        × Effect IsWf m (λ q. false) s' m'
  unfolding clear contains
  clear_lem s m w = (
    _,
    _,
    _,
    refl,
    λ q. ground (
      arith,
      contains-append s.small_queue s.main_queue q,
      w.in_small q,
      w.in_main q,
      placed_lem s m q w,
    ),
    record {
      wf = record {
        in_small = λ q. ground (arith, released_lem s m q w);
        in_main = λ q. ground (arith, released_lem s m q w);
        placed = λ q h. ground (arith, released_lem s m q w);
        small_distinct = tt;
        main_distinct = tt;
        freqs = λ q. ground (arith, released_lem s m q w, w.freqs q);
      };
      bases = λ q. (released_lem s m q w).0;
    },
  )

  -- The law of `access`: a frequency stays at most 3.
  pub access_lem :
      (p : ℕ) (s : S3Fifo) (m : S3FifoMemory K V)
      → IsWf s m
      → (s' : S3Fifo) × (m' : S3FifoMemory K V) × (access p s m ≡ some (s', m'))
        × Effect IsWf m (in_eviction m) s' m'
  unfolding access inc
  access_lem p s m w = (
    s,
    _,
    refl,
    record {
      wf = record {
        in_small = λ q. ground (arith, w.in_small q);
        in_main = λ q. ground (arith, w.in_main q);
        placed = λ q h. ground (arith, w.placed q);
        small_distinct = w.small_distinct;
        main_distinct = w.main_distinct;
        freqs = λ q. ground (arith, w.freqs q);
      };
      bases = λ q. ground arith;
    },
  )

module _ {ℓ} {K V : Type ℓ} (scale : ℕ → ℕ) where
  -- The algorithm in a build without debug assertions: the one of `pop` fails in states that a
  -- shard can be in.
  abbrev pub s3fifo : Eviction K V S3FifoContext S3FifoOwn S3Fifo
  s3fifo = record {
    new_own = new_own;
    create = new scale;
    push = push;
    pop = pop false;
    reinsert = reinsert;
    access = access;
    remove = remove;
    clear = clear;
    len = len;
  }

  create_lem :
      (capacity : ℕ) (m : S3FifoMemory K V) {s : S3Fifo}
      → new scale capacity ≡ some s
      → ((q : ℕ) → in_eviction m q ≡ false)
      → ((q : ℕ) → (m q).own ≡ record { freq = 0; queue = no_queue })
      → IsWf s m
  unfolding new contains
  create_lem capacity m e out own = record {
    in_small = λ q. ground (arith, out q);
    in_main = λ q. ground (arith, out q);
    placed = λ q h. ground (arith, out q);
    small_distinct = ground arith;
    main_distinct = ground arith;
    freqs = λ q. ground (arith, own q);
  }

  -- In a build without debug assertions, S3-FIFO meets the contract of `Eviction`, whatever the
  -- ratio of the small queue.
  pub s3fifo-EvictionLaws : EvictionLaws s3fifo IsWf
  unfolding reinsert
  s3fifo-EvictionLaws = record {
    create_law = λ capacity m e out own. create_lem capacity m e out own;
    push_law = λ p s m w _ out _. push_lem p s m w out;
    pop_law = pop_lem;
    reinsert_law = λ p s m w _ _.
        (in_eviction m p, s, m, refl, λ e. e, record { wf = w; bases = λ q. ground arith });
    access_law = access_lem;
    remove_law = remove_lem;
    clear_law = clear_lem;
    stable = λ s m m' w own on charge. IsSplit-cong _ _ s m m' w on own;
    fresh = λ p b s m w out off. record {
      in_small = λ q. ground (arith, w.in_small q);
      in_main = λ q. ground (arith, w.in_main q);
      placed = λ q h. ground (arith, w.placed q);
      small_distinct = w.small_distinct;
      main_distinct = w.main_distinct;
      freqs = λ q. ground (arith, w.freqs q);
    };
  }
