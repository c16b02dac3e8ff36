-- ===== src/Memory/Eviction/Lru.antt =====
-- foyer-memory/src/eviction/lru.rs: the LRU algorithm with a high priority pool.
pub mod Push
pub mod Laws
use foyer.Prelude.{
  ℕ, ◌+◌, Bool, true, false, Option, none, some, List, [], ◌∷◌, ◌++◌, ltb, ◌==◌, if◌then◌else◌,
  ◌>>=◌, wrapping_add, wrapping_sub, length,
}
use foyer.Memory.Handle.{
  Handle, Memory, on_base, on_own, in_eviction, charge_of, set_in_eviction, context,
}
use foyer.Memory.Handle.{for_each}
use foyer.Memory.Queue.{remove_raw}

pub data LruContext : Type 0 where
  high_priority low_priority : LruContext

-- `CacheContext` of foyer-memory/src/context.rs.
pub data CacheContext : Type 0 where
  default lru_priority_low : CacheContext

unfoldable pub from_cache_context : CacheContext → LruContext
from_cache_context default = high_priority
from_cache_context lru_priority_low = low_priority

unfoldable pub to_cache_context : LruContext → CacheContext
to_cache_context high_priority = default
to_cache_context low_priority = lru_priority_low

-- What an LRU handle has beside its link and its base.
pub record LruOwn : Type 0 where
  pub in_high_priority_pool : Bool

-- `new` of the handle, beside the base.
abbrev pub new_own : LruOwn
new_own = record { in_high_priority_pool = false }

pub record Lru : Type 0 where
  pub high_priority_list : List ℕ
  pub list : List ℕ
  pub high_priority_charges : ℕ
  pub high_priority_charges_capacity : ℕ

abbrev pub LruMemory {ℓ} : (K V : Type ℓ) → Type ℓ
LruMemory K V = Memory K V LruContext LruOwn

-- `capacity as f64 * high_priority_pool_ratio` is a function of the capacity, given with the
-- check that the ratio lies in [0, 1].
unfoldable pub new : (ratio_valid : Bool) → (scale : ℕ → ℕ) → ℕ → Option Lru
new ratio_valid scale capacity =
    if ratio_valid
    then some (record {
      high_priority_list = [];
      list = [];
      high_priority_charges = 0;
      high_priority_charges_capacity = scale capacity;
    })
    else none

unfoldable pub len : Lru → ℕ
len s = length s.high_priority_list + length s.list

abbrev pub is_empty : Lru → Bool
is_empty s = len s == 0

abbrev pub set_pool : Bool → LruOwn → LruOwn
set_pool on own = record { in_high_priority_pool = on }

-- The pointer that `pop` takes, and the two lists after it: from the low priority list first.
unfoldable pub pop_front : List ℕ → List ℕ → Option (ℕ × List ℕ × List ℕ)
pop_front (p ∷ list) high = some (p, list, high)
pop_front [] (p ∷ high) = some (p, [], high)
pop_front [] [] = none

-- The two lists without the link, which is in one of them.
unfoldable pub unlink : Bool → ℕ → Lru → Option Lru
unlink true p s = do
  high ← remove_raw p s.high_priority_list
  some (record s { high_priority_list = high })
unlink false p s = do list ← remove_raw p s.list; some (record s { list = list })

module _ {ℓ} {K V : Type ℓ} where
  -- The loop of `may_overflow_high_priority_pool`, on the high priority list. `unwrap_unchecked`
  -- of an empty list is undefined.
  unfoldable pub may_overflow :
      List ℕ → List ℕ → ℕ → ℕ → LruMemory K V → Option (Lru × LruMemory K V)
  may_overflow [] list charges capacity m =
      if ltb capacity charges
      then none
      else some (
        record {
          high_priority_list = [];
          list = list;
          high_priority_charges = charges;
          high_priority_charges_capacity = capacity;
        },
        m,
      )
  may_overflow (p ∷ high) list charges capacity m =
      let rest =
        may_overflow high (list ++ p ∷ []) (wrapping_sub charges (charge_of m p)) capacity
          (on_own (set_pool false) p m) in
      if ltb capacity charges
      then rest
      else some (
        record {
          high_priority_list = p ∷ high;
          list = list;
          high_priority_charges = charges;
          high_priority_charges_capacity = capacity;
        },
        m,
      )

  unfoldable pub may_overflow_high_priority_pool :
      Lru → LruMemory K V → Option (Lru × LruMemory K V)
  may_overflow_high_priority_pool s m =
      may_overflow s.high_priority_list s.list s.high_priority_charges
        s.high_priority_charges_capacity m

  -- The `match` of `push` on the context of the handle.
  unfoldable pub push_by :
      Option LruContext → ℕ → Lru → LruMemory K V → Option (Lru × LruMemory K V)
  push_by none p s m = none
  push_by (some high_priority) p s m =
      may_overflow_high_priority_pool
        (record s {
          high_priority_list = s.high_priority_list ++ p ∷ [];
          high_priority_charges = wrapping_add s.high_priority_charges (charge_of m p);
        })
        (on_own (set_pool true) p m)
  push_by (some low_priority) p s m =
      some (record s { list = s.list ++ p ∷ [] }, on_own (set_pool false) p m)

  unfoldable pub push : ℕ → Lru → LruMemory K V → Option (Lru × LruMemory K V)
  push p s m = do
    (s', m') ← push_by (context (m p).base) p s m
    some (s', on_base (set_in_eviction true) p m')

  unfoldable pub uncharge : ℕ → LruMemory K V → ℕ → ℕ
  uncharge p m charges =
      if (m p).own.in_high_priority_pool then wrapping_sub charges (charge_of m p) else charges

  unfoldable pub pop : Lru → LruMemory K V → Option (Option ℕ × Lru × LruMemory K V)
  pop s m = elim (pop_front s.list s.high_priority_list) [
    | none ↦ some (none, s, m)
    | some (p, list, high) ↦ some (
      some p,
      record s {
        high_priority_list = high;
        list = list;
        high_priority_charges = uncharge p m s.high_priority_charges;
      },
      on_base (set_in_eviction false) p m,
    )
  ]

  unfoldable pub access : ℕ → Lru → LruMemory K V → Option (Lru × LruMemory K V)
  access p s m = some (s, m)

  unfoldable pub remove : ℕ → Lru → LruMemory K V → Option (Lru × LruMemory K V)
  remove p s m = do
    s' ← unlink (m p).own.in_high_priority_pool p s
    some (
      record s' { high_priority_charges = uncharge p m s.high_priority_charges },
      on_base (set_in_eviction false) p m,
    )

  unfoldable pub reinsert : ℕ → Lru → LruMemory K V → Option (Lru × LruMemory K V)
  reinsert p s m = if in_eviction m p then (remove p s m >>= λ r. push p r.0 r.1) else push p s m

  abbrev pub release : Handle K V LruContext LruOwn → Handle K V LruContext LruOwn
  release h = record h { base = set_in_eviction false h.base }

  -- The charges that are left when each handle of the high priority list is popped.
  unfoldable pub uncharge_all : List ℕ → LruMemory K V → ℕ → ℕ
  uncharge_all [] m charges = charges
  uncharge_all (p ∷ high) m charges = uncharge_all high m (wrapping_sub charges (charge_of m p))

  unfoldable pub clear : Lru → LruMemory K V → Option (List ℕ × Lru × LruMemory K V)
  clear s m =
      let m' = for_each release s.list m in
      some (
        s.list ++ s.high_priority_list,
        record s {
          high_priority_list = [];
          list = [];
          high_priority_charges = uncharge_all s.high_priority_list m' s.high_priority_charges;
        },
        for_each release s.high_priority_list m',
      )
