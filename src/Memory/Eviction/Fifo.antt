-- ===== src/Memory/Eviction/Fifo.antt =====
-- foyer-memory/src/eviction/fifo.rs: the FIFO algorithm.
pub mod Laws
use foyer.Prelude.{
  ℕ, Bool, true, false, Option, none, some, List, [], ◌∷◌, ◌++◌, ◌==◌, if◌then◌else◌, ◌>>=◌, length,
}
use foyer.Memory.Queue.{remove_raw}
use foyer.Memory.Handle.{Handle, Memory, for_each, on_base, set_in_eviction}

pub data FifoContext : Type 0 where
  fifo_context : FifoContext

-- A handle of this algorithm has no fields of its own.
pub data FifoOwn : Type 0 where
  fifo_own : FifoOwn

-- `new` of the handle, beside the base.
abbrev pub new_own : FifoOwn
new_own = fifo_own

-- The head of the list is the front of the queue.
pub record Fifo : Type 0 where
  pub queue : List ℕ

abbrev pub FifoMemory {ℓ} : (K V : Type ℓ) → Type ℓ
FifoMemory K V = Memory K V FifoContext FifoOwn

unfoldable pub new : ℕ → Option Fifo
new capacity = some (record { queue = [] })

unfoldable pub len : Fifo → ℕ
len s = length s.queue

abbrev pub is_empty : Fifo → Bool
is_empty s = len s == 0

module _ {ℓ} {K V : Type ℓ} where
  unfoldable pub push : ℕ → Fifo → FifoMemory K V → Option (Fifo × FifoMemory K V)
  push p s m = some (record { queue = s.queue ++ p ∷ [] }, on_base (set_in_eviction true) p m)

  pop_front : List ℕ → FifoMemory K V → Option (Option ℕ × Fifo × FifoMemory K V)
  pop_front [] m = some (none, record { queue = [] }, m)
  pop_front (p ∷ rest) m =
      some (some p, record { queue = rest }, on_base (set_in_eviction false) p m)

  unfoldable pub pop : Fifo → FifoMemory K V → Option (Option ℕ × Fifo × FifoMemory K V)
  unfolding pop_front
  pop s m = pop_front s.queue m

  unfoldable pub reinsert : ℕ → Fifo → FifoMemory K V → Option (Fifo × FifoMemory K V)
  reinsert p s m = some (s, m)

  unfoldable pub access : ℕ → Fifo → FifoMemory K V → Option (Fifo × FifoMemory K V)
  access p s m = some (s, m)

  -- The element is taken out by its link, and `unwrap` panics if there is none.
  unfoldable pub remove : ℕ → Fifo → FifoMemory K V → Option (Fifo × FifoMemory K V)
  unfolding remove_raw
  remove p s m = do
    queue ← remove_raw p s.queue
    some (record { queue = queue }, on_base (set_in_eviction false) p m)

  abbrev pub release : Handle K V FifoContext FifoOwn → Handle K V FifoContext FifoOwn
  release h = record h { base = set_in_eviction false h.base }

  unfoldable pub clear : Fifo → FifoMemory K V → Option (List ℕ × Fifo × FifoMemory K V)
  clear s m = some (s.queue, record { queue = [] }, for_each release s.queue m)
