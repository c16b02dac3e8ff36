-- ===== src/Memory/Eviction/Lfu.antt =====
-- foyer-memory/src/eviction/lfu.rs: the LFU algorithm, with a window, a probation and a
-- protected queue.
pub mod Split
pub mod Overflow
pub mod Pop
pub mod Laws
use foyer.Prelude.{
  ℕ, zero, suc, ◌+◌, ◌/◌, Bool, true, false, Option, none, some, List, [], ◌∷◌, ◌++◌, ltb, leb,
  ◌==◌, if◌then◌else◌, ◌>>=◌, wrapping_add, wrapping_sub, length,
}
use foyer.Memory.Handle.{Memory, on_base, on_own, charge_of, set_in_eviction}
use foyer.Memory.Queue.{remove_raw}

pub data LfuContext : Type 0 where
  lfu_context : LfuContext

pub data Queue : Type 0 where
  no_queue window probation protected : Queue

-- What an LFU handle has beside its link and its base.
pub record LfuOwn : Type 0 where
  pub queue : Queue

-- `new` of the handle, beside the base.
abbrev pub new_own : LfuOwn
new_own = record { queue = no_queue }

-- `CMSketchU16` of the crate cmsketch, which is not code of this repository.
pub record Sketch (F : Type 0) : Type 0 where
  pub new : F
  pub inc : ℕ → F → F
  pub estimate : ℕ → F → ℕ
  pub halve : F → F
  pub width : F → ℕ

pub record Lfu (F : Type 0) : Type 0 where
  pub window_queue : List ℕ
  pub probation_queue : List ℕ
  pub protected_queue : List ℕ
  pub window_charges : ℕ
  pub probation_charges : ℕ
  pub protected_charges : ℕ
  pub window_charges_capacity : ℕ
  pub protected_charges_capacity : ℕ
  pub frequencies : F
  pub step : ℕ
  pub decay : ℕ

abbrev pub LfuMemory {ℓ} : (K V : Type ℓ) → Type ℓ
LfuMemory K V = Memory K V LfuContext LfuOwn

abbrev pub set_queue : Queue → LfuOwn → LfuOwn
set_queue queue own = record { queue = queue }

module _ {F : Type 0} where
  -- A handle in no queue is `unreachable!`.
  unfoldable pub increase_queue_charges : Queue → ℕ → Lfu F → Option (Lfu F)
  increase_queue_charges no_queue charges s = none
  increase_queue_charges window charges s =
      some (record s { window_charges = wrapping_add s.window_charges charges })
  increase_queue_charges probation charges s =
      some (record s { probation_charges = wrapping_add s.probation_charges charges })
  increase_queue_charges protected charges s =
      some (record s { protected_charges = wrapping_add s.protected_charges charges })

  unfoldable pub decrease_queue_charges : Queue → ℕ → Lfu F → Option (Lfu F)
  decrease_queue_charges no_queue charges s = none
  decrease_queue_charges window charges s =
      some (record s { window_charges = wrapping_sub s.window_charges charges })
  decrease_queue_charges probation charges s =
      some (record s { probation_charges = wrapping_sub s.probation_charges charges })
  decrease_queue_charges protected charges s =
      some (record s { protected_charges = wrapping_sub s.protected_charges charges })

  unfoldable pub len : Lfu F → ℕ
  len s = length s.window_queue + length s.probation_queue + length s.protected_queue

  abbrev pub is_empty : Lfu F → Bool
  is_empty s = len s == 0

  -- The queues after the link of a handle in `queue` was taken out.
  unfoldable pub unlink : Queue → ℕ → Lfu F → Option (Lfu F)
  unlink no_queue p s = none
  unlink window p s = do l ← remove_raw p s.window_queue; some (record s { window_queue = l })
  unlink probation p s = do
    l ← remove_raw p s.probation_queue
    some (record s { probation_queue = l })
  unlink protected p s = do
    l ← remove_raw p s.protected_queue
    some (record s { protected_queue = l })

  -- The front of `protected`.
  unfoldable pub front_protected : List ℕ → Lfu F → Option (ℕ × Lfu F)
  front_protected [] s = none
  front_protected (p ∷ rest) s = some (p, record s { protected_queue = rest })

module _ {F : Type 0} (sketch : Sketch F) where
  -- The capacities are scaled by ratios, which `new` asserts to be valid.
  unfoldable pub new :
      (ratios_valid : Bool) → (window_scale protected_scale : ℕ → ℕ) → ℕ → Option (Lfu F)
  new ratios_valid window_scale protected_scale capacity =
      if ratios_valid
      then some (record {
        window_queue = [];
        probation_queue = [];
        protected_queue = [];
        window_charges = 0;
        probation_charges = 0;
        protected_charges = 0;
        window_charges_capacity = window_scale capacity;
        protected_charges_capacity = protected_scale capacity;
        frequencies = sketch.new;
        step = 0;
        decay = sketch.width sketch.new;
      })
      else none

  unfoldable pub update_frequencies : ℕ → Lfu F → Lfu F
  update_frequencies hash s =
      let frequencies = sketch.inc hash s.frequencies in
      let step = wrapping_add s.step 1 in
      if leb s.decay step
      then record s { frequencies = sketch.halve frequencies; step = step / 2 }
      else record s { frequencies = frequencies; step = step }

module _ {ℓ} {K V : Type ℓ} where
  abbrev pub queue_of : LfuMemory K V → ℕ → Queue
  queue_of m q = (m q).own.queue

module _ {ℓ} {K V : Type ℓ} {F : Type 0} where
  -- A handle that was taken off the front of another queue goes to the back of `probation`.
  unfoldable pub to_probation : ℕ → Lfu F → LfuMemory K V → Option (Lfu F × LfuMemory K V)
  to_probation p s m = do
    s' ← decrease_queue_charges (queue_of m p) (charge_of m p) s
    let m' = on_own (set_queue probation) p m
    s'' ← increase_queue_charges (queue_of m' p) (charge_of m' p) s'
    some (record s'' { probation_queue = s''.probation_queue ++ p ∷ [] }, m')

  -- The loop at the end of `push`, on the window. `unwrap_unchecked` of an empty queue is
  -- undefined.
  unfoldable pub overflow_window : List ℕ → Lfu F → LfuMemory K V → Option (Lfu F × LfuMemory K V)
  overflow_window [] s m =
      if ltb s.window_charges_capacity s.window_charges
      then none
      else some (record s { window_queue = [] }, m)
  overflow_window (p ∷ rest) s m =
      let next =
        to_probation p (record s { window_queue = rest }) m >>= λ r. overflow_window rest r.0 r.1 in
      if ltb s.window_charges_capacity s.window_charges
      then next
      else some (record s { window_queue = p ∷ rest }, m)

  -- The loop at the end of `reinsert` from `probation`, on the protected queue.
  unfoldable pub overflow_protected :
      List ℕ → Lfu F → LfuMemory K V → Option (Lfu F × LfuMemory K V)
  overflow_protected [] s m =
      if ltb s.protected_charges_capacity s.protected_charges
      then none
      else some (record s { protected_queue = [] }, m)
  overflow_protected (p ∷ rest) s m =
      let next = to_probation p (record s { protected_queue = rest }) m >>= λ r.
      overflow_protected rest r.0 r.1 in
      if ltb s.protected_charges_capacity s.protected_charges
      then next
      else some (record s { protected_queue = p ∷ rest }, m)

  -- What `pop` does with the handle that it took.
  unfoldable pub finish :
      Option (ℕ × Lfu F) → Lfu F → LfuMemory K V → Option (Option ℕ × Lfu F × LfuMemory K V)
  finish none s m = some (none, s, m)
  finish (some (p, s')) s m = do
    s'' ← decrease_queue_charges (queue_of m p) (charge_of m p) s'
    some (some p, s'', on_base (set_in_eviction false) p (on_own (set_queue no_queue) p m))

  unfoldable pub remove : ℕ → Lfu F → LfuMemory K V → Option (Lfu F × LfuMemory K V)
  remove p s m = do
    s' ← unlink (queue_of m p) p s
    s'' ← decrease_queue_charges (queue_of m p) (charge_of m p) s'
    some (s'', on_base (set_in_eviction false) p (on_own (set_queue no_queue) p m))

  -- The promotion of a handle from `probation`.
  unfoldable pub promote : ℕ → Lfu F → LfuMemory K V → Option (Lfu F × LfuMemory K V)
  promote p s m = do
    s1 ← unlink probation p s
    s2 ← decrease_queue_charges (queue_of m p) (charge_of m p) s1
    let m' = on_own (set_queue protected) p m
    s3 ← increase_queue_charges (queue_of m' p) (charge_of m' p) s2
    let s4 = record s3 { protected_queue = s3.protected_queue ++ p ∷ [] }
    overflow_protected s4.protected_queue s4 m'

module _ {ℓ} {K V : Type ℓ} {F : Type 0} (sketch : Sketch F) where
  unfoldable pub push : ℕ → Lfu F → LfuMemory K V → Option (Lfu F × LfuMemory K V)
  push p s m =
      let m' = on_own (set_queue window) p (on_base (set_in_eviction true) p m) in
      do
        s' ←
            increase_queue_charges (queue_of m' p) (charge_of m' p)
              (record s { window_queue = s.window_queue ++ p ∷ [] })
        let s'' = update_frequencies sketch (m' p).base.hash s'
        overflow_window s''.window_queue s'' m'

  -- The pointer that `pop` takes, by the fronts of `window` and `probation`.
  unfoldable pub front : List ℕ → List ℕ → Lfu F → LfuMemory K V → Option (ℕ × Lfu F)
  front [] [] s m = front_protected s.protected_queue s
  front [] (p ∷ rest) s m = some (p, record s { probation_queue = rest })
  front (p ∷ rest) [] s m = some (p, record s { window_queue = rest })
  front (p ∷ rest) (p' ∷ rest') s m =
      if ltb (sketch.estimate (m p).base.hash s.frequencies)
        (sketch.estimate (m p').base.hash s.frequencies)
      then some (p, record s { window_queue = rest })
      else some (p', record s { probation_queue = rest' })

  unfoldable pub pop : Lfu F → LfuMemory K V → Option (Option ℕ × Lfu F × LfuMemory K V)
  pop s m = finish (front s.window_queue s.probation_queue s m) s m

  -- `reinsert`, by the queue of the handle.
  unfoldable pub reinsert_in : Queue → ℕ → Lfu F → LfuMemory K V → Option (Lfu F × LfuMemory K V)
  reinsert_in no_queue p s m = push p s m
  reinsert_in window p s m = do
    s' ← unlink window p s
    some (record s' { window_queue = s'.window_queue ++ p ∷ [] }, m)
  reinsert_in probation p s m = promote p s m
  reinsert_in protected p s m = do
    s' ← unlink protected p s
    some (record s' { protected_queue = s'.protected_queue ++ p ∷ [] }, m)

  unfoldable pub reinsert : ℕ → Lfu F → LfuMemory K V → Option (Lfu F × LfuMemory K V)
  reinsert p s m = reinsert_in (queue_of m p) p s m

  unfoldable pub access : ℕ → Lfu F → LfuMemory K V → Option (Lfu F × LfuMemory K V)
  access p s m = some (update_frequencies sketch (m p).base.hash s, m)

  -- The loop of `clear`, which pops until the container is empty.
  unfoldable pub clear_loop :
      ℕ → List ℕ → Lfu F → LfuMemory K V → Option (List ℕ × Lfu F × LfuMemory K V)
  clear_loop zero res s m = none
  clear_loop (suc fuel) res s m =
      let next = (do
        (popped, s', m') ← pop s m
        elim popped [ none ↦ none | some p ↦ clear_loop fuel (res ++ p ∷ []) s' m' ]) in
      if is_empty s then some (res, s, m) else next

  unfoldable pub clear : Lfu F → LfuMemory K V → Option (List ℕ × Lfu F × LfuMemory K V)
  clear s m = clear_loop (suc (len s)) [] s m
