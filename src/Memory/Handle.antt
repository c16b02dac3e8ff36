-- ===== src/Memory/Handle.antt =====
-- foyer-memory/src/handle.rs: the base handle that every eviction algorithm embeds, and the memory
-- that holds the handles. A pointer is a number, and the memory is a function on pointers.
use foyer.Prelude.{
  ℕ, ◌≡◌, refl, Bool, true, false, Option, none, some, List, [], ◌∷◌, arith, ltb, ◌==◌,
  if◌then◌else◌, wrapping_add, wrapping_sub, contains, IsDistinct,
}

-- The set of two bits, one field each.
pub record BaseHandleFlags : Type 0 where
  pub in_indexer : Bool
  pub in_eviction : Bool

abbrev pub no_flags : BaseHandleFlags
no_flags = record { in_indexer = false; in_eviction = false }

pub record BaseHandle {ℓ} (K V : Type ℓ) (C : Type 0) : Type ℓ where
  pub entry : Option (K × V × C)
  pub hash : ℕ
  pub charge : ℕ
  pub refs : ℕ
  pub flags : BaseHandleFlags

module _ {ℓ} {K V : Type ℓ} {C : Type 0} where
  -- `new`.
  unfoldable pub new_base : BaseHandle K V C
  new_base = record { entry = none; hash = 0; charge = 0; refs = 0; flags = no_flags }

  unfoldable pub init : ℕ → K → V → ℕ → C → BaseHandle K V C → BaseHandle K V C
  init hash key value charge context b = record {
    entry = some (key, value, context);
    hash = hash;
    charge = charge;
    refs = 0;
    flags = no_flags;
  }

  -- `take` leaves the handle uninited and hands the entry out; on an uninited handle it faults.
  unfoldable pub take : BaseHandle K V C → Option ((K × V × C × ℕ) × BaseHandle K V C)
  take b = elim b.entry [
    | none ↦ none
    | some (key, value, context) ↦ some ((key, value, context, b.charge), record b { entry = none })
  ]

  abbrev pub is_inited : BaseHandle K V C → Bool
  is_inited b = elim b.entry [ none ↦ false | some e ↦ true ]

  unfoldable pub key : BaseHandle K V C → Option K
  key b = elim b.entry [ none ↦ none | some (k, v, c) ↦ some k ]

  unfoldable pub value : BaseHandle K V C → Option V
  value b = elim b.entry [ none ↦ none | some (k, v, c) ↦ some v ]

  unfoldable pub context : BaseHandle K V C → Option C
  context b = elim b.entry [ none ↦ none | some (k, v, c) ↦ some c ]

  unfoldable pub inc_refs_by : ℕ → BaseHandle K V C → BaseHandle K V C
  inc_refs_by val b = record b { refs = wrapping_add b.refs val }

  unfoldable pub inc_refs : BaseHandle K V C → BaseHandle K V C
  unfolding inc_refs_by
  inc_refs b = inc_refs_by 1 b

  unfoldable pub dec_refs : BaseHandle K V C → BaseHandle K V C
  dec_refs b = record b { refs = wrapping_sub b.refs 1 }

  abbrev pub has_refs : BaseHandle K V C → Bool
  has_refs b = ltb 0 b.refs

  abbrev pub is_in_indexer : BaseHandle K V C → Bool
  is_in_indexer b = b.flags.in_indexer

  abbrev pub set_in_indexer : Bool → BaseHandle K V C → BaseHandle K V C
  set_in_indexer on b = record b {
    flags = record { in_indexer = on; in_eviction = b.flags.in_eviction };
  }

  abbrev pub is_in_eviction : BaseHandle K V C → Bool
  is_in_eviction b = b.flags.in_eviction

  abbrev pub set_in_eviction : Bool → BaseHandle K V C → BaseHandle K V C
  set_in_eviction on b = record b {
    flags = record { in_indexer = b.flags.in_indexer; in_eviction = on };
  }

-- A handle: its base, and the fields of its own that an eviction algorithm adds. Its link in a
-- queue is the pointer's place in that queue.
pub record Handle {ℓ} (K V : Type ℓ) (C X : Type 0) : Type ℓ where
  pub base : BaseHandle K V C
  pub own : X

abbrev pub Memory {ℓ} : (K V : Type ℓ) (C X : Type 0) → Type ℓ
Memory K V C X = ℕ → Handle K V C X

module _ {ℓ} {K V : Type ℓ} {C X : Type 0} where
  -- A write of a whole handle.
  abbrev pub store : ℕ → Handle K V C X → Memory K V C X → Memory K V C X
  store p h m q = if q == p then h else m q

  -- `base_mut` with a write to the base.
  abbrev pub on_base : (BaseHandle K V C → BaseHandle K V C) → ℕ → Memory K V C X → Memory K V C X
  on_base f p m = store p (record { base = f (m p).base; own = (m p).own }) m

  -- A write to the other fields.
  abbrev pub on_own : (X → X) → ℕ → Memory K V C X → Memory K V C X
  on_own f p m = store p (record { base = (m p).base; own = f (m p).own }) m

  abbrev pub in_eviction : Memory K V C X → ℕ → Bool
  in_eviction m q = is_in_eviction (m q).base

  abbrev pub in_indexer : Memory K V C X → ℕ → Bool
  in_indexer m q = is_in_indexer (m q).base

  abbrev pub charge_of : Memory K V C X → ℕ → ℕ
  charge_of m q = (m q).base.charge

  -- A loop that changes each handle of a list, in order.
  unfoldable pub for_each :
      (Handle K V C X → Handle K V C X) → List ℕ → Memory K V C X → Memory K V C X
  for_each f [] m = m
  for_each f (p ∷ l) m = for_each f l (store p (f (m p)) m)

  pub for_each_lem :
      (f : Handle K V C X → Handle K V C X) (l : List ℕ) (m : Memory K V C X) (q : ℕ)
      → IsDistinct l
      → for_each f l m q ≡ (if contains l q then f (m q) else m q)
  unfolding for_each contains
  for_each_lem f [] m q d = refl
  for_each_lem f (p ∷ l) m q d = ground (arith, for_each_lem f l (store p (f (m p)) m) q d.1)
