-- ===== src/Storage/Catalog.antt =====
-- foyer-storage/src/catalog.rs: `Catalog`, which finds the item of a key and the keys of a region.
-- A lock makes each access to a map one step; here an operation is one step. The time of the
-- insertion, which only the metrics read, is left out.
pub mod Ordered
pub mod Laws
pub mod Reclaim
use foyer.Prelude.{
  ℕ, ◌+◌, ◌%◌, ◌^◌, Option, none, some, List, [], ◌∷◌, ◌++◌, ltb, ◌==◌, if◌then◌else◌, ◌>>=◌,
}
use foyer.Storage.Catalog.Ordered
use foyer.Storage.Catalog.Ordered.{Order, Map}

-- The place of an entry; the view counts its copies for the region, which is not part of it here.
pub record RegionView : Type 0 where
  pub id : ℕ
  pub offset : ℕ
  pub len : ℕ

pub data Index {ℓ} (K V : Type ℓ) : Type ℓ where
  inflight : K → V → Index K V
  region : RegionView → Index K V

pub record Item {ℓ} (K V : Type ℓ) : Type ℓ where
  pub sequence : ℕ
  pub index : Index K V

-- `items` has `2 ^ bits` maps and `regions` has `region_count`.
pub record Catalog {ℓ} (K V : Type ℓ) : Type ℓ where
  pub bits : ℕ
  pub items : ℕ → Map K (Item K V)
  pub region_count : ℕ
  pub regions : ℕ → Map K ℕ

module _ {ℓ} {A : Type ℓ} where
  -- One place of a vector of maps is written.
  abbrev pub set_map : ℕ → A → (ℕ → A) → ℕ → A
  set_map n x f m = if m == n then x else f m

module _ {ℓ} {K V : Type ℓ} where
  unfoldable pub new : ℕ → ℕ → Catalog K V
  new regions bits = record {
    bits = bits;
    items = λ n. [];
    region_count = regions;
    regions = λ r. [];
  }

  -- The region of an item that is on disk.
  unfoldable pub region_of : Item K V → Option ℕ
  region_of item = elim item.index [ inflight _ _ ↦ none | region view ↦ some view.id ]

  unfoldable pub clear : Catalog K V → Catalog K V
  clear c = record c { items = λ n. []; regions = λ r. [] }

-- The hash of a key is not code of this repository.
module _ {ℓ} {K V : Type ℓ} (order : Order K) (hash : K → ℕ) where
  -- `hash & ((1 << bits) - 1)`, a remainder modulo a power of two.
  unfoldable pub shard : K → Catalog K V → ℕ
  shard k c = hash k % 2 ^ c.bits

  unfoldable pub lookup : K → Catalog K V → Option (Item K V)
  lookup k c = Ordered.get order k (c.items (shard k c))

  -- `self.regions[id].lock().insert(key, sequence)`: out of range it is a panic.
  unfoldable pub note : Option ℕ → K → ℕ → Catalog K V → Option (Catalog K V)
  note none k sequence c = some c
  note (some r) k sequence c =
      if ltb r c.region_count
      then some (record c {
        regions = set_map r (Ordered.insert order k sequence (c.regions r)) c.regions;
      })
      else none

  unfoldable pub insert : K → Item K V → Catalog K V → Option (Catalog K V)
  insert k item c = do
    c' ← note (region_of item) k item.sequence c
    some (record c' {
      items = set_map (shard k c) (Ordered.insert order k item (c.items (shard k c))) c.items;
    })

  unfoldable pub forget : Option ℕ → K → Catalog K V → Option (Catalog K V)
  forget none k c = some c
  forget (some r) k c =
      if ltb r c.region_count
      then some (record c { regions = set_map r (Ordered.remove order k (c.regions r)) c.regions })
      else none

  -- The removal from `items`.
  unfoldable pub delete : K → Catalog K V → Catalog K V
  delete k c = record c {
    items = set_map (shard k c) (Ordered.remove order k (c.items (shard k c))) c.items;
  }

  unfoldable pub remove_item :
      Option (Item K V) → K → Catalog K V → Option (Option (Item K V) × Catalog K V)
  remove_item none k c = some (none, c)
  remove_item (some item) k c = do c' ← forget (region_of item) k (delete k c); some (some item, c')

  unfoldable pub remove : K → Catalog K V → Option (Option (Item K V) × Catalog K V)
  remove k c = remove_item (lookup k c) k c

  -- A key of the region: its item is taken, if it still has the sequence.
  unfoldable pub take_item :
      Option (Item K V) → K → ℕ → Catalog K V → List (K × Item K V) × Catalog K V
  take_item none k sequence c = ([], c)
  take_item (some item) k sequence c =
      if item.sequence == sequence then ((k, item) ∷ [], delete k c) else ([], c)

  unfoldable pub take_items : Map K ℕ → Catalog K V → List (K × Item K V) × Catalog K V
  take_items [] c = ([], c)
  take_items ((k, sequence) ∷ keys) c =
      let (items, c') = take_item (lookup k c) k sequence c in
      let (items', c'') = take_items keys c' in (items ++ items', c'')

  unfoldable pub take_region : ℕ → Catalog K V → Option (List (K × Item K V) × Catalog K V)
  take_region r c =
      if ltb r c.region_count
      then some (take_items (c.regions r) (record c { regions = set_map r [] c.regions }))
      else none
