-- ===== src/Storage/Catalog/Laws.antt =====
-- foyer-storage/src/catalog.rs: what an operation does to the lookups of all keys.
use foyer.Prelude.{
  ℕ, ◌%◌, ◌^◌, ◌<◌, ◌≡◌, refl, sym, ap, ◌∙◌, inl, inr, Bool, true, false, ◌&&◌, Option, none, some,
  arith, ltb, ◌==◌, if◌then◌else◌, ==_iff, ==_refl, Bool-cases,
}
use foyer.Prelude.{some-inj, none-ne-some}
use foyer.Storage.Catalog.Ordered
use foyer.Storage.Catalog.Ordered.{Order, Map, get-insert, get-remove}
use foyer.Storage.Catalog.{
  Item, Catalog, set_map, region_of, shard, lookup, note, insert, forget, delete, remove_item,
  remove,
}

-- The test of a region against an optional one.
abbrev pub same_region : Option ℕ → ℕ → Bool
same_region none r = false
same_region (some n) r = r == n

module _ {ℓ} {K V : Type ℓ} (order : Order K) (hash : K → ℕ) where
  open order use {beq, beq_iff}

  -- Where a key is listed, by the region.
  unfoldable pub listed : ℕ → K → Catalog K V → Option ℕ
  listed r k c = Ordered.get order k (c.regions r)

  -- An item on disk is listed in its region, under its sequence.
  abbrev pub Covered : Catalog K V → Type ℓ
  Covered c =
      (k : K) (item : Item K V) (r : ℕ)
      → lookup order hash k c ≡ some item
      → region_of item ≡ some r
      → (r < c.region_count) × (listed r k c ≡ some item.sequence)

  -- A write of the map that holds `k`, which reaches `k` alone, reaches no other key's lookup.
  lookup-set :
      (k j : K) (x : Option (Item K V)) (m : Map K (Item K V)) (c : Catalog K V)
      → Ordered.get order j m
        ≡ (if beq j k then x else Ordered.get order j (c.items (shard order hash k c)))
      → lookup order hash j (record c { items = set_map (shard order hash k c) m c.items })
        ≡ (if beq j k then x else lookup order hash j c)
  unfolding lookup shard
  lookup-set k j x m c h = elim (Bool-cases (hash j % 2 ^ c.bits == hash k % 2 ^ c.bits)) [
    | inl e ↦ rw (e, h, (==_iff (hash j % 2 ^ c.bits) (hash k % 2 ^ c.bits)).0 e) refl
    | inr e ↦ elim (Bool-cases (beq j k)) [
      | inl near ↦ absurd (ground (arith, e, ap (λ y. hash y % 2 ^ c.bits) ((beq_iff j k).0 near)))
      | inr far ↦ rw (e, far) refl
    ]
  ]

  pub lookup-delete :
      (k j : K) (c : Catalog K V)
      → lookup order hash j (delete order hash k c)
        ≡ (if beq j k then none else lookup order hash j c)
  unfolding delete
  lookup-delete k j c =
      lookup-set k j none (Ordered.remove order k (c.items (shard order hash k c))) c
        (get-remove order k j (c.items (shard order hash k c)))

  -- The regions do not matter to a lookup.
  lookup-regions :
      (j : K) (f : ℕ → Map K ℕ) (c : Catalog K V)
      → lookup order hash j (record c { regions = f }) ≡ lookup order hash j c
  unfolding lookup shard
  lookup-regions j f c = refl

  -- What `note` does: the listing of a region.
  note_lem :
      (o : Option ℕ) (k : K) (sequence : ℕ) (c : Catalog K V)
      → ((r : ℕ) → o ≡ some r → r < c.region_count)
      → (f : ℕ → Map K ℕ) × (note order hash o k sequence c ≡ some (record c { regions = f }))
        × ((r : ℕ) (j : K)
            → Ordered.get order j (f r) ≡ (
                if same_region o r && beq j k
                then some sequence
                else Ordered.get order j (c.regions r)))
  unfolding note
  note_lem none k sequence c h = (c.regions, refl, λ r j. refl)
  note_lem (some n) k sequence c h =
      let on : ltb n c.region_count ≡ true = ground (arith, h n refl) in
      (
        set_map n (Ordered.insert order k sequence (c.regions n)) c.regions,
        rw on refl,
        λ r j. elim (Bool-cases (r == n)) [
          | inl e ↦ rw (e, (==_iff r n).0 e) (get-insert order k j sequence (c.regions n))
          | inr e ↦ rw e refl
        ],
      )

  -- The catalog after `k` got a new item.
  pub record Puts (k : K) (item : Item K V) (c c' : Catalog K V) : Type ℓ where
    pub lookups :
        (j : K) → lookup order hash j c' ≡ (if beq j k then some item else lookup order hash j c)
    pub covered : Covered c'
    pub regions_kept : c'.region_count ≡ c.region_count

  -- An insertion never faults if the region of the item exists. Then the key has the item, no
  -- other key's item changes, and all items on disk stay listed in their regions.
  pub insert-Puts :
      (k : K) (item : Item K V) (c : Catalog K V)
      → Covered c
      → ((r : ℕ) → region_of item ≡ some r → r < c.region_count)
      → (c' : Catalog K V) × (insert order hash k item c ≡ some c') × Puts k item c c'
  unfolding insert listed shard lookup
  insert-Puts k item c w h =
      let (f, e, regions) = note_lem (region_of item) k item.sequence c h in
      let m = Ordered.insert order k item (c.items (shard order hash k c)) in
      let c1 : Catalog K V = record c { regions = f } in
      let c2 : Catalog K V = record c1 { items = set_map (shard order hash k c) m c.items } in
      let found : (j : K)
          → lookup order hash j c2 ≡ (if beq j k then some item else lookup order hash j c) =
        λ j.
          lookup-set k j (some item) m c1
            (get-insert order k j item (c.items (shard order hash k c))) in
      (
        c2,
        rw e refl,
        record {
          lookups = found;
          covered = λ j item' r is on. elim (Bool-cases (beq j k)) [
            | inl near ↦
                let same : item ≡ item' = some-inj (sym (found j ∙ rw near refl) ∙ is) in
                let on' : region_of item ≡ some r = ap region_of same ∙ on in
                (h r on', regions r j ∙ rw (on', ==_refl r, near) (ap (λ x. some x.sequence) same))
            | inr far ↦
                let (b, l) = w j item' r (sym (found j ∙ rw far refl) ∙ is) on in
                (b, regions r j ∙ ground (arith, far, l))
          ];
          regions_kept = refl;
        },
      )

  forget_lem :
      (o : Option ℕ) (k : K) (c : Catalog K V)
      → ((r : ℕ) → o ≡ some r → r < c.region_count)
      → (f : ℕ → Map K ℕ) × (forget order hash o k c ≡ some (record c { regions = f }))
        × ((r : ℕ) (j : K)
            → Ordered.get order j (f r)
              ≡ (if same_region o r && beq j k then none else Ordered.get order j (c.regions r)))
  unfolding forget
  forget_lem none k c h = (c.regions, refl, λ r j. refl)
  forget_lem (some n) k c h =
      let on : ltb n c.region_count ≡ true = ground (arith, h n refl) in
      (
        set_map n (Ordered.remove order k (c.regions n)) c.regions,
        rw on refl,
        λ r j. elim (Bool-cases (r == n)) [
          | inl e ↦ rw (e, (==_iff r n).0 e) (get-remove order k j (c.regions n))
          | inr e ↦ rw e refl
        ],
      )

  -- The catalog after `k` lost its item.
  pub record Forgets (k : K) (c c' : Catalog K V) : Type ℓ where
    pub lookups :
        (j : K) → lookup order hash j c' ≡ (if beq j k then none else lookup order hash j c)
    pub covered : Covered c'

  remove_item-Forgets :
      (o : Option (Item K V)) (k : K) (c : Catalog K V)
      → lookup order hash k c ≡ o
      → Covered c
      → (c' : Catalog K V) × (remove_item order hash o k c ≡ some (o, c')) × Forgets k c c'
  unfolding remove_item listed delete lookup shard
  remove_item-Forgets none k c e w = (
    c,
    refl,
    record {
      lookups = λ j. elim (Bool-cases (beq j k)) [
        | inl near ↦ rw near (ap (λ x. lookup order hash x c) ((beq_iff j k).0 near) ∙ e)
        | inr far ↦ rw far refl
      ];
      covered = w;
    },
  )
  remove_item-Forgets (some item) k c e w =
      let c1 = delete order hash k c in
      let (f, g, regions) = forget_lem (region_of item) k c1 (λ r on. (w k item r e on).0) in
      let c2 : Catalog K V = record c1 { regions = f } in
      let found : (j : K)
          → lookup order hash j c2 ≡ (if beq j k then none else lookup order hash j c) =
        λ j. lookup-regions j f c1 ∙ lookup-delete k j c in
      (
        c2,
        rw g refl,
        record {
          lookups = found;
          covered = λ j item' r is on. elim (Bool-cases (beq j k)) [
            | inl near ↦ absurd (none-ne-some (sym (found j ∙ rw near refl) ∙ is))
            | inr far ↦
                let (b, l) = w j item' r (sym (found j ∙ rw far refl) ∙ is) on in
                (b, regions r j ∙ ground (arith, far, l))
          ];
        },
      )

  -- A removal never faults. It gives what a lookup finds; then the key is not found, no other
  -- key's item changes, and all items on disk stay listed in their regions.
  pub remove-Forgets :
      (k : K) (c : Catalog K V)
      → Covered c
      → (c' : Catalog K V) × (remove order hash k c ≡ some (lookup order hash k c, c'))
        × Forgets k c c'
  unfolding remove
  remove-Forgets k c w = remove_item-Forgets (lookup order hash k c) k c refl w
