-- ===== src/Storage/Indices.antt =====
-- foyer-storage/src/indices.rs: an index of entries on disk, by key and by region, which lib.rs
-- of the crate does not declare as a module. Its lock makes each operation one step.
pub mod Sequence
pub mod Laws
use foyer.Prelude.{
  ℕ, ◌%◌, ◌^◌, ◌≡◌, ◌↔◌, Bool, true, false, Option, none, some, List, [], ◌∷◌, ltb, ◌==◌,
  if◌then◌else◌, ◌>>=◌, wrapping_add,
}

-- The order and equality of keys, of which the index uses the equality.
pub record KeyEq {ℓ} (K : Type ℓ) : Type ℓ where
  pub beq : K → K → Bool
  pub beq_iff : (a b : K) → (beq a b ≡ true) ↔ (a ≡ b)

pub record Index {ℓ} (K : Type ℓ) : Type ℓ where
  pub key : K
  pub region : ℕ
  pub version : ℕ
  pub offset : ℕ
  pub len : ℕ
  pub key_len : ℕ
  pub value_len : ℕ

pub record Slot : Type 0 where
  pub region : ℕ
  pub sequence : ℕ

module _ {ℓ} {A : Type ℓ} where
  -- A `BTreeMap<u32, _>`, as its entries in the order of their keys.
  unfoldable pub find : ℕ → List (ℕ × A) → Option A
  find n [] = none
  find n ((m, a) ∷ l) = if n == m then some a else find n l

  unfoldable pub put : ℕ → A → List (ℕ × A) → List (ℕ × A)
  put n a [] = (n, a) ∷ []
  put n a ((m, b) ∷ l) =
      if n == m then (n, a) ∷ l else if ltb n m then (n, a) ∷ (m, b) ∷ l else (m, b) ∷ put n a l

  unfoldable pub delete : ℕ → List (ℕ × A) → List (ℕ × A)
  delete n [] = []
  delete n ((m, a) ∷ l) = if n == m then delete n l else (m, a) ∷ delete n l

  unfoldable pub values : List (ℕ × A) → List A
  values [] = []
  values ((m, a) ∷ l) = a ∷ values l

-- A `BTreeMap<K, Slot>` and the vectors, which have `count` elements, are functions.
pub record Indices {ℓ} (K : Type ℓ) : Type ℓ where
  pub slots : K → Option Slot
  pub regions : ℕ → List (ℕ × Index K)
  pub sequences : ℕ → ℕ
  pub count : ℕ

-- A write to one element.
abbrev pub update {ℓ} : {A : Type ℓ} → ℕ → A → (ℕ → A) → ℕ → A
update i a f j = if j == i then a else f j

unfoldable pub new {ℓ} : {K : Type ℓ} → ℕ → Indices K
new regions = record { slots = λ k. none; regions = λ r. []; sequences = λ r. 0; count = regions }

unfoldable pub clear {ℓ} : {K : Type ℓ} → Indices K → Indices K
clear s = record s { slots = λ k. none; regions = λ r. [] }

module _ {ℓ} {K : Type ℓ} (keys : KeyEq K) where
  abbrev pub set_slot : K → Option Slot → (K → Option Slot) → K → Option Slot
  set_slot k slot slots k' = if keys.beq k' k then slot else slots k'

  -- A region that is out of range is a panic.
  unfoldable pub insert : Index K → Indices K → Option (Indices K)
  insert index s =
      let sequence = s.sequences index.region % 2 ^ 32 in
      if ltb index.region s.count
      then some (record s {
        sequences = update index.region (wrapping_add (s.sequences index.region) 1) s.sequences;
        regions = update index.region (put sequence index (s.regions index.region)) s.regions;
        slots =
            set_slot index.key (some (record { region = index.region; sequence = sequence }))
              s.slots;
      })
      else none

  -- What `lookup` does with the slot of the key.
  unfoldable pub lookup_at : Option Slot → Indices K → Option (Option (Index K))
  lookup_at none s = some none
  lookup_at (some slot) s =
      if ltb slot.region s.count then some (find slot.sequence (s.regions slot.region)) else none

  unfoldable pub lookup : K → Indices K → Option (Option (Index K))
  lookup k s = lookup_at (s.slots k) s

  -- What `remove_inner` does with the slot of the key, which is out of the map of slots.
  unfoldable pub remove_at : Option Slot → Indices K → Option (Option (Index K) × Indices K)
  remove_at none s = some (none, s)
  remove_at (some slot) s =
      if ltb slot.region s.count
      then some (
        find slot.sequence (s.regions slot.region),
        record s {
          regions = update slot.region (delete slot.sequence (s.regions slot.region)) s.regions;
        },
      )
      else none

  unfoldable pub remove : K → Indices K → Option (Option (Index K) × Indices K)
  remove k s = remove_at (s.slots k) (record s { slots = set_slot k none s.slots })

  -- What `remap` does with the index of the old key.
  unfoldable pub remap_to : K → Option (Index K) → Indices K → Option (Bool × Indices K)
  remap_to new_key none s = some (false, s)
  remap_to new_key (some index) s =
      insert (record index { key = new_key }) s >>= λ s'. some (true, s')

  unfoldable pub remap : K → K → Indices K → Option (Bool × Indices K)
  remap old_key new_key s = remove old_key s >>= λ r. remap_to new_key r.0 r.1

  -- The loop of `take_region` over the indices of the region.
  unfoldable pub remove_slots : List (Index K) → (K → Option Slot) → K → Option Slot
  remove_slots [] slots = slots
  remove_slots (index ∷ l) slots = remove_slots l (set_slot index.key none slots)

  unfoldable pub take_region : ℕ → Indices K → Option (List (Index K) × Indices K)
  take_region region s =
      let indices = values (s.regions region) in
      if ltb region s.count
      then some (
        indices,
        record s { regions = update region [] s.regions; slots = remove_slots indices s.slots },
      )
      else none
