-- ===== src/Storage/Tests.antt =====
-- Runs of foyer-storage/src/indices.rs; the children have those of the other files.
mod Catalog
mod Entry
mod Flusher
mod Recovery
use foyer.Prelude.{
  some-inj, none-ne-some, ℕ, ◌^◌, ◌<◌, ◌≡◌, refl, sym, ap, subst, ◌∙◌, ◌⊎◌, inl, inr, none, some,
  [], ◌∷◌, arith, ◌==◌, if◌then◌else◌, ==_iff, Bool-cases,
}
use foyer.Storage.Indices.{Index, KeyEq, Indices, Slot, find, values, lookup, insert, take_region}
use foyer.Storage.Indices.Laws.{IsValid, lookup_live}
use foyer.Storage.Indices.Laws.Insert.{insert-lookup}
use foyer.Storage.Indices.Laws.Remove.{Removes, remove-lookup}
use foyer.Storage.Indices.Laws.Take.{has_key, take_region-lookup}

abbrev numbers : KeyEq ℕ
numbers = record { beq = λ a b. a == b; beq_iff = λ a b. ==_iff a b }

abbrev index_of : ℕ → ℕ → Index ℕ
index_of key region = record {
  key = key;
  region = region;
  version = 0;
  offset = 0;
  len = 64;
  key_len = 8;
  value_len = 40;
}

-- The key 1 was inserted into the region 0 and then into the region 1: the index in the region 0 is
-- stale.
abbrev twice : Indices ℕ
twice = record {
  slots = λ k. if k == 1 then some (record { region = 1; sequence = 0 }) else none;
  regions =
      λ r. if r == 0 then (0, index_of 1 0) ∷ [] else if r == 1 then (0, index_of 1 1) ∷ [] else [];
  sequences = λ r. if r == 0 then 1 else if r == 1 then 1 else 0;
  count = 2;
}

twice-live :
    (k : ℕ) (slot : Slot)
    → twice.slots k ≡ some slot
    → (slot.region < 2)
      × (index : Index ℕ) × (find slot.sequence (twice.regions slot.region) ≡ some index)
      × (index.key ≡ k)
unfolding find
twice-live k slot e = elim (Bool-cases (k == 1)) [
  | inr other ↦ absurd (none-ne-some (rw other at e))
  | inl here ↦
      subst
        (λ (x : Slot).
          (x.region < 2)
          × (index : Index ℕ) × (find x.sequence (twice.regions x.region) ≡ some index)
          × (index.key ≡ k))
        (some-inj (rw here at e)) (omega arith, index_of 1 1, refl, sym ((==_iff k 1).0 here))
]

one_entry :
    (n r : ℕ) (x : Index ℕ) → find n ((0, index_of 1 r) ∷ []) ≡ some x → (n < 1) × (x.region ≡ r)
unfolding find
one_entry n r x e = elim (Bool-cases (n == 0)) [
  | inl here ↦ (ground (arith, here), ap (λ y. y.region) (sym (some-inj (rw here at e))))
  | inr other ↦ absurd (none-ne-some (rw other at e))
]

twice-fresh :
    (r n : ℕ) (x : Index ℕ)
    → find n (twice.regions r) ≡ some x
    → (n < twice.sequences r) × (x.region ≡ r)
unfolding find
twice-fresh r n x e = elim (Bool-cases (r == 0)) [
  | inl here ↦
      let (below, at) = one_entry n 0 x (rw here at e) in
      (ground (arith, here, below), at ∙ sym ((==_iff r 0).0 here))
  | inr far ↦ elim (Bool-cases (r == 1)) [
    | inl here ↦
        let (below, at) = one_entry n 1 x (rw (far, here) at e) in
        (ground (arith, far, here, below), at ∙ sym ((==_iff r 1).0 here))
    | inr away ↦ absurd (none-ne-some (rw (far, away) at e))
  ]
]

twice-IsValid : IsValid numbers twice
twice-IsValid = record { live = twice-live; fresh = twice-fresh }

lookup_live_example :
    ((twice.slots 1 ≡ none) × (lookup numbers 1 twice ≡ some none))
    ⊎ ((slot : Slot) × (index : Index ℕ) × (twice.slots 1 ≡ some slot)
        × (lookup numbers 1 twice ≡ some (some index))
        × (index.key ≡ 1)
        × (index.region ≡ slot.region))
lookup_live_example = lookup_live numbers 1 twice twice-IsValid

insert-lookup_example :
    (s' : Indices ℕ) × (insert numbers (index_of 2 0) twice ≡ some s')
    × IsValid numbers s'
    × (s'.count ≡ 2)
    × ((k : ℕ)
        → lookup numbers k s'
          ≡ (if k == 2 then some (some (index_of 2 0)) else lookup numbers k twice))
insert-lookup_example =
    insert-lookup numbers (index_of 2 0) twice twice-IsValid (omega arith) (omega arith)

remove-lookup_example : Removes numbers 1 twice
remove-lookup_example = remove-lookup numbers 1 twice twice-IsValid

words : (r : ℕ) → twice.sequences r < 2 ^ 32
words r = ground arith

-- The key 1 is lost, although its slot is in the region 1.
take_region-lookup_example :
    (s' : Indices ℕ) × (take_region numbers 0 twice ≡ some (values (twice.regions 0), s'))
    × IsValid numbers s'
    × ((k : ℕ)
        → lookup numbers k s' ≡ (
            if has_key numbers k (values (twice.regions 0))
            then some none
            else lookup numbers k twice))
take_region-lookup_example = take_region-lookup numbers 0 twice twice-IsValid (omega arith)
