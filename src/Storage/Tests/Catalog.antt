-- ===== src/Storage/Tests/Catalog.antt =====
-- Runs of foyer-storage/src/catalog.rs.
use foyer.Prelude.{
  ℕ, ◌%◌, ◌<◌, ◌≡◌, refl, sym, ap, subst, ◌∙◌, inl, inr, false, none, some, List, [], ◌∷◌, arith,
  ltb, ◌==◌, if◌then◌else◌, ==_iff, Bool-cases,
}
use foyer.Prelude.{some-inj, none-ne-some}
use foyer.Storage.Catalog.Ordered
use foyer.Storage.Catalog.Ordered.{Order}
use foyer.Storage.Catalog.{
  inflight, region, Item, Catalog, shard, lookup, region_of, insert, remove, take_region,
}
use foyer.Storage.Catalog.Laws.{Covered, listed, Puts, insert-Puts, Forgets, remove-Forgets}
use foyer.Storage.Catalog.Reclaim.{Reclaims, take_region-Reclaims}

abbrev pub numbers : Order ℕ
numbers = record { beq = λ a b. a == b; beq_iff = λ a b. ==_iff a b; before = λ a b. ltb a b }

abbrev pub same_hash : ℕ → ℕ
same_hash k = k

abbrev on_disk : ℕ → ℕ → Item ℕ ℕ
on_disk r sequence = record {
  sequence = sequence;
  index = region (record { id = r; offset = 4096; len = 64 });
}

-- The key 1 is in the region 0, and the key 3 is not yet on disk.
abbrev two_items : Catalog ℕ ℕ
two_items = record {
  bits = 1;
  items = λ n.
      if n == 1
      then (1, on_disk 0 5) ∷ (3, record { sequence = 6; index = inflight 3 30 }) ∷ []
      else [];
  region_count = 2;
  regions = λ r. if r == 0 then (1, 5) ∷ (7, 2) ∷ [] else [];
}

-- What `Covered` says of one item of a key.
abbrev Placed : ℕ → Item ℕ ℕ → Type 0
Placed k item =
    (r : ℕ)
    → region_of item ≡ some r
    → (r < 2) × (listed numbers same_hash r k two_items ≡ some item.sequence)

first-Placed : Placed 1 (on_disk 0 5)
unfolding region_of listed Ordered.get
first-Placed r on =
    subst (λ n. (n < 2) × (listed numbers same_hash n 1 two_items ≡ some 5)) (some-inj on)
      (omega arith, refl)

second-Placed : Placed 3 (record { sequence = 6; index = inflight 3 30 })
unfolding region_of
second-Placed r on = absurd (none-ne-some on)

not_found :
    (k : ℕ) → (k == 1) ≡ false → (k == 3) ≡ false → lookup numbers same_hash k two_items ≡ none
unfolding lookup shard Ordered.get
not_found k one three = elim (Bool-cases (k % 2 == 1)) [
  | inl odd ↦ rw (odd, one, three) refl
  | inr even ↦ rw even refl
]

two_items-Covered : Covered numbers same_hash two_items
unfolding lookup shard Ordered.get listed region_of
two_items-Covered k item r is on = elim (Bool-cases (k == 1)) [
  | inl one ↦
      let here = (==_iff k 1).0 one in
      let same = some-inj (ap (λ x. lookup numbers same_hash x two_items) (sym here) ∙ is) in
      subst (λ x. Placed x item) (sym here) (subst (Placed 1) same first-Placed) r on
  | inr not_one ↦ elim (Bool-cases (k == 3)) [
    | inl three ↦
        let here = (==_iff k 3).0 three in
        let same = some-inj (ap (λ x. lookup numbers same_hash x two_items) (sym here) ∙ is) in
        subst (λ x. Placed x item) (sym here) (subst (Placed 3) same second-Placed) r on
    | inr not_three ↦ absurd (none-ne-some (sym (not_found k not_one not_three) ∙ is))
  ]
]

insert-Puts_example :
    (c' : Catalog ℕ ℕ) × (insert numbers same_hash 3 (on_disk 1 6) two_items ≡ some c')
    × Puts numbers same_hash 3 (on_disk 1 6) two_items c'
unfolding region_of
insert-Puts_example =
    insert-Puts numbers same_hash 3 (on_disk 1 6) two_items two_items-Covered
      (λ r e. ground (arith, some-inj e))

remove-Forgets_example :
    (c' : Catalog ℕ ℕ) × (remove numbers same_hash 1 two_items
      ≡ some (lookup numbers same_hash 1 two_items, c'))
    × Forgets numbers same_hash 1 two_items c'
remove-Forgets_example = remove-Forgets numbers same_hash 1 two_items two_items-Covered

take_region-Reclaims_example :
    (items : List (ℕ × Item ℕ ℕ)) × (c' : Catalog ℕ ℕ) × (take_region numbers same_hash 0 two_items
      ≡ some (items, c'))
    × Reclaims numbers same_hash 0 two_items items c'
take_region-Reclaims_example =
    take_region-Reclaims numbers same_hash 0 two_items two_items-Covered (omega arith)
