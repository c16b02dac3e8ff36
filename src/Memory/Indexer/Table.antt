-- ===== src/Memory/Indexer/Table.antt =====
-- foyer-memory/src/indexer.rs: `HashTableIndexer`, over the hash table of the crate hashbrown.
pub mod Laws
use foyer.Prelude.{
  ℕ, ◌+◌, ◌-◌, ◌≤◌, ◌<◌, ◌≡◌, Bool, true, false, ◌&&◌, Option, none, some, List, ◌==◌,
  if◌then◌else◌, contains, IsDistinct,
}
use foyer.Memory.Handle.{Handle, Memory, on_base, set_in_indexer, key}
use foyer.Memory.Handle.{for_each}
use foyer.Memory.Indexer.{KeyOps}

-- `hashbrown::hash_table::HashTable<NonNull<H>>`, which is not code of this repository. An entry
-- is a pointer with the hash that it was inserted under; `replace` is the write through the
-- occupied entry of the third argument, `remove` and `insert` are those of the entry API.
pub record HashTable (T : Type 0) : Type 0 where
  pub new : T
  pub find : ℕ → (ℕ → Bool) → T → Option ℕ
  pub insert : ℕ → ℕ → T → T
  pub replace : ℕ → ℕ → ℕ → T → T
  pub remove : ℕ → ℕ → T → T
  pub drain : T → List ℕ

abbrev pub one_at : ℕ → ℕ → ℕ → ℕ → ℕ
one_at h p h' q = if h' == h && q == p then 1 else 0

-- What the crate documents: `count` is how often a table has a pointer under a hash.
pub record HashTableLaws {T : Type 0} (h : HashTable T) (count : T → ℕ → ℕ → ℕ) : Type 0 where
  pub count-new : (a q : ℕ) → count h.new a q ≡ 0
  pub find_some :
      (a p : ℕ) (eq : ℕ → Bool) (t : T) → h.find a eq t ≡ some p → (0 < count t a p) × (eq p ≡ true)
  pub find_none :
      (a p : ℕ) (eq : ℕ → Bool) (t : T) → h.find a eq t ≡ none → 0 < count t a p → eq p ≡ false
  pub count-insert :
      (a p : ℕ) (t : T) (b q : ℕ) → count (h.insert a p t) b q ≡ count t b q + one_at a p b q
  pub count-replace :
      (a p p' : ℕ) (t : T) (b q : ℕ)
      → 0 < count t a p
      → count (h.replace a p p' t) b q + one_at a p b q ≡ count t b q + one_at a p' b q
  pub count-remove :
      (a p : ℕ) (t : T) (b q : ℕ)
      → 0 < count t a p
      → count (h.remove a p t) b q + one_at a p b q ≡ count t b q
  pub drain_held : (t : T) (q : ℕ) → contains (h.drain t) q ≡ true → (a : ℕ) × (0 < count t a q)
  pub held_drain : (t : T) (a q : ℕ) → 0 < count t a q → contains (h.drain t) q ≡ true
  pub drain_distinct :
      (t : T)
      → ((a q : ℕ) → count t a q ≤ 1)
      → ((a b q : ℕ) → 0 < count t a q → 0 < count t b q → a ≡ b)
      → IsDistinct (h.drain t)

abbrev pub unindex {ℓ} : {K V : Type ℓ} {C X : Type 0} → Handle K V C X → Handle K V C X
unindex a = record a { base = set_in_indexer false a.base }

module _ {ℓ} {K V : Type ℓ} {C X T : Type 0} (keys : KeyOps K) (h : HashTable T) where
  -- `|p| p.as_ref().base().key() == key`, for a handle that has a key.
  unfoldable pub has_key : K → Memory K V C X → ℕ → Bool
  has_key k m p = elim (key (m p).base) [ none ↦ false | some k' ↦ keys.beq k' k ]

  unfoldable pub get : ℕ → K → T → Memory K V C X → Option ℕ
  get hash k t m = h.find hash (has_key k m) t

  -- The two arms of `insert`, by the entry that the table has for the key.
  unfoldable pub insert_at : Option ℕ → ℕ → ℕ → T → Memory K V C X → Option ℕ × T × Memory K V C X
  insert_at (some old) hash p t m =
      (some old, h.replace hash old p t, on_base (set_in_indexer false) old m)
  insert_at none hash p t m = (none, h.insert hash p t, m)

  -- The rest of `insert`, with the key of the handle; with none, `key` faults.
  unfoldable pub insert_key :
      Option K → ℕ → T → Memory K V C X → Option (Option ℕ × T × Memory K V C X)
  insert_key none p t m = none
  insert_key (some k) p t m =
      let m' = on_base (set_in_indexer true) p m in
      let hash = (m p).base.hash in some (insert_at (h.find hash (has_key k m') t) hash p t m')

  unfoldable pub insert : ℕ → T → Memory K V C X → Option (Option ℕ × T × Memory K V C X)
  insert p t m = insert_key (key (m p).base) p t m

  unfoldable pub remove_at : Option ℕ → ℕ → T → Memory K V C X → Option ℕ × T × Memory K V C X
  remove_at (some p) hash t m = (some p, h.remove hash p t, on_base (set_in_indexer false) p m)
  remove_at none hash t m = (none, t, m)

  unfoldable pub remove : ℕ → K → T → Memory K V C X → Option ℕ × T × Memory K V C X
  remove hash k t m = remove_at (h.find hash (has_key k m) t) hash t m

  unfoldable pub drain : T → Memory K V C X → List ℕ × T × Memory K V C X
  drain t m = (h.drain t, h.new, for_each unindex (h.drain t) m)
