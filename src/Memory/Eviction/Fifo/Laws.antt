-- ===== src/Memory/Eviction/Fifo/Laws.antt =====
-- The FIFO algorithm of foyer-memory/src/eviction/fifo.rs meets the contract of `Eviction`.
use foyer.Prelude.{
  ℕ, suc, ◌≡◌, refl, sym, ◌∙◌, ◌⊎◌, inl, inr, true, false, not, ◌&&◌, ◌||◌, none, some, List, [],
  ◌∷◌, ◌++◌, arith, ◌==◌, ◌>>=◌, contains, erase, IsDistinct, contains-snoc, contains-erase,
  IsDistinct-snoc, IsDistinct-erase,
}
use foyer.Memory.Handle.{for_each_lem, on_base, in_eviction, set_in_eviction}
use foyer.Memory.Eviction.{Eviction, EvictionLaws, Effect}
use foyer.Memory.Eviction.Fifo.{new_own}
use foyer.Memory.Eviction.Fifo.{
  Fifo, FifoMemory, FifoContext, FifoOwn, new, push, pop, reinsert, access, remove, clear, len,
  pop_front, release,
}

module _ {ℓ} {K V : Type ℓ} where
  abbrev pub fifo : Eviction K V FifoContext FifoOwn Fifo
  fifo = record {
    new_own = new_own;
    create = new;
    push = push;
    pop = pop;
    reinsert = reinsert;
    access = access;
    remove = remove;
    clear = clear;
    len = len;
  }

  -- The queue holds each handle once, and the flags say which handles it holds.
  pub record IsWf (s : Fifo) (m : FifoMemory K V) : Type 0 where
    pub flags : (q : ℕ) → in_eviction m q ≡ contains s.queue q
    pub distinct : IsDistinct s.queue

  -- The law of `push`.
  pub push_lem :
      (p : ℕ) (s : Fifo) (m : FifoMemory K V)
      → IsWf s m
      → in_eviction m p ≡ false
      → (s' : Fifo) × (m' : FifoMemory K V) × (push p s m ≡ some (s', m'))
        × Effect IsWf m (λ q. q == p || in_eviction m q) s' m'
  unfolding push
  push_lem p s m w out = (
    _,
    _,
    refl,
    record {
      wf = record {
        flags = λ q. ground (arith, contains-snoc s.queue p q, w.flags q);
        distinct = IsDistinct-snoc s.queue p w.distinct (ground (arith, w.flags p));
      };
      bases = λ q. ground arith;
    },
  )

  pop_front_lem :
      (l : List ℕ) (m : FifoMemory K V)
      → IsWf (record { queue = l }) m
      → (pop_front l m ≡ some (none, record { queue = l }, m))
        ⊎ ((p : ℕ) × (s' : Fifo) × (m' : FifoMemory K V) × (pop_front l m ≡ some (some p, s', m'))
            × (in_eviction m p ≡ true)
            × (len (record { queue = l }) ≡ suc (len s'))
            × Effect IsWf m (λ q. in_eviction m q && not (q == p)) s' m')
  unfolding pop_front len contains
  pop_front_lem [] m w = inl refl
  pop_front_lem (p ∷ l) m w = inr (
    p,
    _,
    _,
    refl,
    ground (arith, w.flags p),
    refl,
    record {
      wf = record { flags = λ q. ground (arith, w.flags q, w.distinct.0); distinct = w.distinct.1 };
      bases = λ q. ground arith;
    },
  )

  -- The law of `pop`.
  pub pop_lem :
      (s : Fifo) (m : FifoMemory K V)
      → IsWf s m
      → (pop s m ≡ some (none, s, m))
        ⊎ ((p : ℕ) × (s' : Fifo) × (m' : FifoMemory K V) × (pop s m ≡ some (some p, s', m'))
            × (in_eviction m p ≡ true)
            × (len s ≡ suc (len s'))
            × Effect IsWf m (λ q. in_eviction m q && not (q == p)) s' m')
  unfolding pop
  pop_lem s m w = pop_front_lem s.queue m w

  -- `pop` takes the handle that was pushed first.
  pub push-pop_oldest :
      (p q : ℕ) (rest : List ℕ) (s : Fifo) (m : FifoMemory K V)
      → s.queue ≡ p ∷ rest
      → (push q s m >>= λ r. pop r.0 r.1)
        ≡ some (
          some p,
          record { queue = rest ++ q ∷ [] },
          on_base (set_in_eviction false) p (on_base (set_in_eviction true) q m),
        )
  unfolding push pop pop_front
  push-pop_oldest p q rest s m e = rw e

  -- The law of `remove`.
  pub remove_lem :
      (p : ℕ) (s : Fifo) (m : FifoMemory K V)
      → IsWf s m
      → in_eviction m p ≡ true
      → (s' : Fifo) × (m' : FifoMemory K V) × (remove p s m ≡ some (s', m'))
        × Effect IsWf m (λ q. in_eviction m q && not (q == p)) s' m'
  unfolding remove
  remove_lem p s m w on = (
    record { queue = erase p s.queue },
    on_base (set_in_eviction false) p m,
    rw (sym (w.flags p) ∙ on) refl,
    record {
      wf = record {
        flags = λ q. ground (arith, contains-erase p s.queue q w.distinct, w.flags q);
        distinct = IsDistinct-erase p s.queue w.distinct;
      };
      bases = λ q. ground arith;
    },
  )

  -- The law of `clear`.
  pub clear_lem :
      (s : Fifo) (m : FifoMemory K V)
      → IsWf s m
      → (ps : List ℕ) × (s' : Fifo) × (m' : FifoMemory K V) × (clear s m ≡ some (ps, s', m'))
        × ((q : ℕ) → contains ps q ≡ in_eviction m q)
        × Effect IsWf m (λ q. false) s' m'
  unfolding clear contains
  clear_lem s m w = (
    _,
    _,
    _,
    refl,
    λ q. sym (w.flags q),
    record {
      wf = record {
        flags = λ q. ground (arith, for_each_lem release s.queue m q w.distinct, w.flags q);
        distinct = tt;
      };
      bases = λ q. ground (arith, for_each_lem release s.queue m q w.distinct, w.flags q);
    },
  )

  -- FIFO meets the contract.
  pub fifo-EvictionLaws : EvictionLaws fifo IsWf
  unfolding new reinsert access contains
  fifo-EvictionLaws = record {
    create_law = λ capacity m e out own. record {
      flags = λ q. ground (arith, out q);
      distinct = ground arith;
    };
    push_law = λ p s m w _ out _. push_lem p s m w out;
    pop_law = λ s m w. elim (pop_lem s m w) [
      | inl e ↦ inl (s, m, e, record { wf = w; bases = λ q. ground arith })
      | inr r ↦ inr r
    ];
    reinsert_law = λ p s m w _ _.
        (in_eviction m p, s, m, refl, λ e. e, record { wf = w; bases = λ q. ground arith });
    access_law = λ p s m w. (s, m, refl, record { wf = w; bases = λ q. ground arith });
    remove_law = remove_lem;
    clear_law = clear_lem;
    stable =
        λ s m m' w own on charge. record { flags = λ q. on q ∙ w.flags q; distinct = w.distinct };
    fresh = λ p b s m w out off. record {
      flags = λ q. ground (arith, w.flags q);
      distinct = w.distinct;
    };
  }
