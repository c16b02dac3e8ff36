-- ===== src/Memory/Eviction/S3Fifo.antt =====
-- foyer-memory/src/eviction/s3fifo.rs: the S3-FIFO algorithm, with a small and a main queue.
pub mod Evict
pub mod Laws
pub mod Counters
pub mod Stuck
use foyer.Prelude.{
  ℕ, zero, suc, ◌+◌, ◌-◌, ◌%◌, ◌^◌, min, Bool, true, false, not, ◌&&◌, Option, none, some, List, [],
  ◌∷◌, ◌++◌, ltb, ◌==◌, if◌then◌else◌, ◌>>=◌, wrapping_add, wrapping_sub, sum_by, length,
}
use foyer.Memory.Handle.{Handle, Memory, on_base, on_own, charge_of, set_in_eviction}
use foyer.Memory.Handle.{for_each}
use foyer.Memory.Queue.{remove_raw}

pub data S3FifoContext : Type 0 where
  s3fifo_context : S3FifoContext

pub data Queue : Type 0 where
  no_queue main small : Queue

-- What an S3-FIFO handle has beside its link and its base; `freq` is a `u8`.
pub record S3FifoOwn : Type 0 where
  pub freq : ℕ
  pub queue : Queue

-- `new` of the handle, beside the base.
abbrev pub new_own : S3FifoOwn
new_own = record { freq = 0; queue = no_queue }

unfoldable pub inc : S3FifoOwn → S3FifoOwn
inc own = record own { freq = min ((own.freq + 1) % 2 ^ 8) 3 }

unfoldable pub dec : S3FifoOwn → S3FifoOwn
dec own = record own { freq = own.freq - 1 }

unfoldable pub reset : S3FifoOwn → S3FifoOwn
reset own = record own { freq = 0 }

abbrev pub set_queue : Queue → S3FifoOwn → S3FifoOwn
set_queue queue own = record { freq = own.freq; queue = queue }

pub record S3Fifo : Type 0 where
  pub small_queue : List ℕ
  pub main_queue : List ℕ
  pub small_capacity : ℕ
  pub small_charges : ℕ
  pub main_charges : ℕ

abbrev pub S3FifoMemory {ℓ} : (K V : Type ℓ) → Type ℓ
S3FifoMemory K V = Memory K V S3FifoContext S3FifoOwn

-- `capacity as f64 * small_queue_capacity_ratio` is a function of the capacity.
unfoldable pub new : (scale : ℕ → ℕ) → ℕ → Option S3Fifo
new scale capacity = some (record {
  small_queue = [];
  main_queue = [];
  small_capacity = scale capacity;
  small_charges = 0;
  main_charges = 0;
})

unfoldable pub len : S3Fifo → ℕ
len s = length s.small_queue + length s.main_queue

abbrev pub is_empty : S3Fifo → Bool
is_empty s = len s == 0

-- The queues and the counters after `remove`; a handle in no queue is `unreachable!`.
unfoldable pub unlink : Queue → ℕ → ℕ → S3Fifo → Option S3Fifo
unlink no_queue p charge s = none
unlink main p charge s = do
  queue ← remove_raw p s.main_queue
  some (record s { main_queue = queue; main_charges = wrapping_sub s.main_charges charge })
unlink small p charge s = do
  queue ← remove_raw p s.small_queue
  some (record s { small_queue = queue; small_charges = wrapping_sub s.small_charges charge })

module _ {ℓ} {K V : Type ℓ} where
  abbrev pub freq_of : S3FifoMemory K V → ℕ → ℕ
  freq_of m q = (m q).own.freq

  -- The front of the small queue goes to the main queue, with its charge.
  unfoldable pub promote : ℕ → List ℕ → S3Fifo → S3FifoMemory K V → S3Fifo
  promote p rest s m = record s {
    small_queue = rest;
    main_queue = s.main_queue ++ p ∷ [];
    small_charges = wrapping_sub s.small_charges (charge_of m p);
    main_charges = wrapping_add s.main_charges (charge_of m p);
  }

  -- The loop of `evict_small`, on the small queue.
  unfoldable pub evict_small :
      List ℕ → S3Fifo → S3FifoMemory K V → Option ℕ × S3Fifo × S3FifoMemory K V
  unfolding promote reset
  evict_small [] s m = (none, record s { small_queue = [] }, m)
  evict_small (p ∷ rest) s m =
      let next = evict_small rest (promote p rest s m) (on_own (set_queue main) p m) in
      if ltb 1 (freq_of m p) then next else (
        some p,
        record s {
          small_queue = rest;
          small_charges = wrapping_sub s.small_charges (charge_of m p);
        },
        on_own (λ own. reset (set_queue no_queue own)) p m,
      )

  -- The loop of `evict_main`, on the main queue. Each round that goes on takes one from a
  -- frequency, so the fuel of `evict_main` is never used up.
  unfoldable pub evict_main_loop :
      ℕ → List ℕ → S3Fifo → S3FifoMemory K V → Option (Option ℕ × S3Fifo × S3FifoMemory K V)
  unfolding dec
  evict_main_loop zero l s m = none
  evict_main_loop (suc fuel) [] s m = some (none, record s { main_queue = [] }, m)
  evict_main_loop (suc fuel) (p ∷ rest) s m =
      let next = evict_main_loop fuel (rest ++ p ∷ []) s (on_own dec p m) in
      if ltb 0 (freq_of m p)
      then next
      else some (
        some p,
        record s { main_queue = rest; main_charges = wrapping_sub s.main_charges (charge_of m p) },
        on_own (set_queue no_queue) p m,
      )

  unfoldable pub evict_main :
      S3Fifo → S3FifoMemory K V → Option (Option ℕ × S3Fifo × S3FifoMemory K V)
  evict_main s m = evict_main_loop (suc (sum_by (freq_of m) s.main_queue)) s.main_queue s m

  -- The second operand of `&&` in `evict`: what `evict_small` found, or else `evict_main`.
  unfoldable pub or_evict_main :
      Option ℕ × S3Fifo × S3FifoMemory K V → Option (Option ℕ × S3Fifo × S3FifoMemory K V)
  or_evict_main (some p, s, m) = some (some p, s, m)
  or_evict_main (none, s, m) = evict_main s m

  unfoldable pub evict : S3Fifo → S3FifoMemory K V → Option (Option ℕ × S3Fifo × S3FifoMemory K V)
  evict s m =
      if ltb s.small_capacity s.small_charges
      then or_evict_main (evict_small s.small_queue s m)
      else evict_main s m

  unfoldable pub push : ℕ → S3Fifo → S3FifoMemory K V → Option (S3Fifo × S3FifoMemory K V)
  push p s m = some (
    record s {
      small_queue = s.small_queue ++ p ∷ [];
      small_charges = wrapping_add s.small_charges (charge_of m p);
    },
    on_base (set_in_eviction true) p (on_own (set_queue small) p m),
  )

  -- What `pop` does with the result of `evict`: where it found nothing, a build with debug
  -- assertions has `debug_assert!(self.is_empty())`.
  unfoldable pub finish :
      (debug_assertions : Bool)
      → Option ℕ × S3Fifo × S3FifoMemory K V
      → Option (Option ℕ × S3Fifo × S3FifoMemory K V)
  finish debug_assertions (none, s, m) =
      if debug_assertions && not (is_empty s) then none else some (none, s, m)
  finish debug_assertions (some p, s, m) = some (some p, s, on_base (set_in_eviction false) p m)

  unfoldable pub pop :
      (debug_assertions : Bool)
      → S3Fifo
      → S3FifoMemory K V
      → Option (Option ℕ × S3Fifo × S3FifoMemory K V)
  pop debug_assertions s m = do evicted ← evict s m; finish debug_assertions evicted

  unfoldable pub reinsert : ℕ → S3Fifo → S3FifoMemory K V → Option (S3Fifo × S3FifoMemory K V)
  reinsert p s m = some (s, m)

  unfoldable pub access : ℕ → S3Fifo → S3FifoMemory K V → Option (S3Fifo × S3FifoMemory K V)
  unfolding inc
  access p s m = some (s, on_own inc p m)

  unfoldable pub remove : ℕ → S3Fifo → S3FifoMemory K V → Option (S3Fifo × S3FifoMemory K V)
  remove p s m = do
    s' ← unlink (m p).own.queue p (charge_of m p) s
    some (s', on_base (set_in_eviction false) p (on_own (set_queue no_queue) p m))

  abbrev pub release : Handle K V S3FifoContext S3FifoOwn → Handle K V S3FifoContext S3FifoOwn
  release h = record { base = set_in_eviction false h.base; own = set_queue no_queue h.own }

  -- Both queues are emptied; the counters of charges keep their values.
  unfoldable pub clear : S3Fifo → S3FifoMemory K V → Option (List ℕ × S3Fifo × S3FifoMemory K V)
  clear s m = some (
    s.small_queue ++ s.main_queue,
    record s { small_queue = []; main_queue = [] },
    for_each release s.main_queue (for_each release s.small_queue m),
  )
