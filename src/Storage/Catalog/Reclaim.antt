-- ===== src/Storage/Catalog/Reclaim.antt =====
-- foyer-storage/src/catalog.rs: `take_region`, after which the region can be written anew.
use foyer.Prelude.{
  ℕ, ◌<◌, ◌≡◌, refl, sym, ap, ◌∙◌, ◌≢◌, inl, inr, Bool, true, false, ◌&&◌, ◌||◌, Option, none, some,
  List, [], ◌∷◌, ◌++◌, arith, ltb, ◌==◌, if◌then◌else◌, ==_iff, Bool-cases, Option-cases,
}
use foyer.Prelude.{some-inj, none-ne-some}
use foyer.Storage.Catalog.Ordered
use foyer.Storage.Catalog.Ordered.{Order, Map, beq_congr, beq_join}
use foyer.Storage.Catalog.{
  Item, Catalog, set_map, shard, lookup, delete, region_of, take_item, take_items, take_region,
}
use foyer.Storage.Catalog.Laws.{Covered, listed, lookup-delete}

module _ {ℓ} {K : Type ℓ} (order : Order K) where
  open order use {beq}

  -- The key is listed with the sequence.
  unfoldable pub has_pair : K → ℕ → Map K ℕ → Bool
  has_pair k sequence [] = false
  has_pair k sequence ((k', s) ∷ m) = (beq k k' && sequence == s) || has_pair k sequence m

  listed_pair :
      (k : K) (s : ℕ) (m : Map K ℕ) → Ordered.get order k m ≡ some s → has_pair k s m ≡ true
  unfolding has_pair Ordered.get
  listed_pair k s [] h = absurd (none-ne-some h)
  listed_pair k s ((k', s') ∷ m) h = elim (Bool-cases (beq k k')) [
    | inl near ↦
        let same : some s' ≡ some s = sym (rw near refl) ∙ h in
        rw near (ground (arith, some-inj same))
    | inr far ↦ ground (arith, far, listed_pair k s m (sym (rw far refl) ∙ h))
  ]

module _ {ℓ} {K V : Type ℓ} (order : Order K) where
  -- The item that a key has is listed under its sequence.
  unfoldable pub is_taken : K → Option (Item K V) → Map K ℕ → Bool
  is_taken k none keys = false
  is_taken k (some item) keys = has_pair order k item.sequence keys

  is_taken-cons :
      (j k : K) (s : ℕ) (o : Option (Item K V)) (keys : Map K ℕ)
      → is_taken j o ((k, s) ∷ keys) ≡ (is_taken j o ((k, s) ∷ []) || is_taken j o keys)
  unfolding is_taken has_pair
  is_taken-cons j k s none keys = refl
  is_taken-cons j k s (some item) keys = ground arith

module _ {ℓ} {K V : Type ℓ} (order : Order K) (hash : K → ℕ) where
  open order use {beq, beq_iff}

  -- What `take_items` does to the catalog, and what it gives.
  pub record Takes (keys : Map K ℕ) (c : Catalog K V) (items : List (K × Item K V))
      (c' : Catalog K V) : Type ℓ where
    pub lookups :
        (j : K)
        → lookup order hash j c'
          ≡ (if is_taken order j (lookup order hash j c) keys then none else lookup order hash j c)
    pub given :
        (j : K)
        → Ordered.get order j items
          ≡ (if is_taken order j (lookup order hash j c) keys then lookup order hash j c else none)
    pub regions_kept : c'.regions ≡ c.regions
    pub count_kept : c'.region_count ≡ c.region_count

  get-append :
      (j : K) (l l' : List (K × Item K V))
      → Ordered.get order j (l ++ l')
        ≡ elim (Ordered.get order j l) [ none ↦ Ordered.get order j l' | some x ↦ some x ]
  unfolding Ordered.get
  get-append j [] l' = refl
  get-append j ((k, x) ∷ l) l' = ground (arith, get-append j l l')

  -- Nothing is taken.
  keeps-Takes :
      (keys : Map K ℕ) (c : Catalog K V)
      → ((j : K) → is_taken order j (lookup order hash j c) keys ≡ false)
      → Takes keys c [] c
  unfolding Ordered.get
  keeps-Takes keys c h = record {
    lookups = λ j. rw (h j) refl;
    given = λ j. rw (h j) refl;
    regions_kept = refl;
    count_kept = refl;
  }

  lookup_near :
      (k j : K) (o : Option (Item K V)) (c : Catalog K V)
      → lookup order hash k c ≡ o
      → beq j k ≡ true
      → lookup order hash j c ≡ o
  lookup_near k j o c e near = ap (λ x. lookup order hash x c) ((beq_iff j k).0 near) ∙ e

  is_taken_far :
      (j k : K) (s : ℕ) (o : Option (Item K V))
      → beq j k ≡ false
      → is_taken order j o ((k, s) ∷ []) ≡ false
  unfolding is_taken has_pair
  is_taken_far j k s none far = refl
  is_taken_far j k s (some item) far = ground (arith, far)

  take_item-Takes :
      (k : K) (sequence : ℕ) (o : Option (Item K V)) (c : Catalog K V)
      → lookup order hash k c ≡ o
      → Takes
          ((k, sequence) ∷ [])
          c
          (take_item order hash o k sequence c).0
          (take_item order hash o k sequence c).1
  unfolding take_item is_taken has_pair Ordered.get delete
  take_item-Takes k sequence none c e = keeps-Takes ((k, sequence) ∷ []) c λ j.
      elim (Bool-cases (beq j k)) [
        | inl near ↦ rw (lookup_near k j none c e near) refl
        | inr far ↦ is_taken_far j k sequence (lookup order hash j c) far
      ]
  take_item-Takes k sequence (some item) c e = elim (Bool-cases (item.sequence == sequence)) [
    | inr other ↦ rw other (
        keeps-Takes ((k, sequence) ∷ []) c λ j. elim (Bool-cases (beq j k)) [
          | inl near ↦ rw (lookup_near k j (some item) c e near, near, other) refl
          | inr far ↦ is_taken_far j k sequence (lookup order hash j c) far
        ])
    | inl same ↦ rw same (record {
      lookups = λ j. lookup-delete order hash k j c ∙ elim (Bool-cases (beq j k)) [
        | inl near ↦ rw (lookup_near k j (some item) c e near, near, same) refl
        | inr far ↦ rw (is_taken_far j k sequence (lookup order hash j c) far, far) refl
      ];
      given = λ j. elim (Bool-cases (beq j k)) [
        | inl near ↦ rw (lookup_near k j (some item) c e near, near, same) refl
        | inr far ↦ rw (is_taken_far j k sequence (lookup order hash j c) far, far) refl
      ];
      regions_kept = refl;
      count_kept = refl;
    })
  ]

  append_some :
      (j : K) (l l' : List (K × Item K V)) (x : Item K V)
      → Ordered.get order j l ≡ some x
      → Ordered.get order j (l ++ l') ≡ some x
  append_some j l l' x h = get-append j l l' ∙ rw h refl

  append_none :
      (j : K) (l l' : List (K × Item K V))
      → Ordered.get order j l ≡ none
      → Ordered.get order j (l ++ l') ≡ Ordered.get order j l'
  append_none j l l' h = get-append j l l' ∙ rw h refl

  joined_taken :
      (j k : K) (s : ℕ) (keys : Map K ℕ) (items items' : List (K × Item K V)) (c c' : Catalog K V)
      → Takes ((k, s) ∷ []) c items c'
      → (o : Option (Item K V)) → lookup order hash j c ≡ o
      → is_taken order j o ((k, s) ∷ []) ≡ true
      → Ordered.get order j (items ++ items')
        ≡ (if is_taken order j o ((k, s) ∷ keys) then o else none)
  unfolding is_taken
  joined_taken j k s keys items items' c c' a none e t = ground (arith, t)
  joined_taken j k s keys items items' c c' a (some item) e t =
      append_some j items items' item (a.given j ∙ rw (e, t) refl)
      ∙ rw (is_taken-cons order j k s (some item) keys, t) refl

  -- The key that was taken first is not found by the rest.
  joined_given :
      (j k : K) (s : ℕ) (keys : Map K ℕ) (items items' : List (K × Item K V))
      (c c' c'' : Catalog K V)
      → Takes ((k, s) ∷ []) c items c'
      → Takes keys c' items' c''
      → (o : Option (Item K V)) → lookup order hash j c ≡ o
      → Ordered.get order j (items ++ items')
        ≡ (if is_taken order j o ((k, s) ∷ keys) then o else none)
  joined_given j k s keys items items' c c' c'' a b o e =
      elim (Bool-cases (is_taken order j o ((k, s) ∷ []))) [
        | inl t ↦ joined_taken j k s keys items items' c c' a o e t
        | inr f ↦
            let gone : Ordered.get order j items ≡ none = a.given j ∙ rw (e, f) refl in
            let same : lookup order hash j c' ≡ o = a.lookups j ∙ rw (e, f) refl in
            append_none j items items' gone
            ∙ b.given j
            ∙ rw (same, is_taken-cons order j k s o keys, f) refl
      ]

  joined-Takes :
      (k : K) (s : ℕ) (keys : Map K ℕ) (items items' : List (K × Item K V)) (c c' c'' : Catalog K V)
      → Takes ((k, s) ∷ []) c items c'
      → Takes keys c' items' c''
      → Takes ((k, s) ∷ keys) c (items ++ items') c''
  unfolding is_taken
  joined-Takes k s keys items items' c c' c'' a b = record {
    lookups = λ j.
        b.lookups j
        ∙ rw (is_taken-cons order j k s (lookup order hash j c) keys, a.lookups j)
            (elim (Bool-cases (is_taken order j (lookup order hash j c) ((k, s) ∷ []))) [
              | inl t ↦ rw t refl
              | inr f ↦ rw f refl
            ]);
    given = λ j. joined_given j k s keys items items' c c' c'' a b (lookup order hash j c) refl;
    regions_kept = b.regions_kept ∙ a.regions_kept;
    count_kept = b.count_kept ∙ a.count_kept;
  }

  take_items-Takes :
      (keys : Map K ℕ) (c : Catalog K V)
      → Takes keys c (take_items order hash keys c).0 (take_items order hash keys c).1
  unfolding take_items is_taken has_pair Ordered.get
  take_items-Takes [] c = keeps-Takes [] c λ j. elim (Option-cases (lookup order hash j c)) [
    | inl e ↦ rw e refl
    | inr (item, e) ↦ rw e refl
  ]
  take_items-Takes ((k, sequence) ∷ keys) c =
      let r = take_item order hash (lookup order hash k c) k sequence c in
      joined-Takes k sequence keys r.0 (take_items order hash keys r.1).0 c r.1
        (take_items order hash keys r.1).1
        (take_item-Takes k sequence (lookup order hash k c) c refl) (take_items-Takes keys r.1)

  -- The catalog after the region `r` was taken.
  pub record Reclaims (r : ℕ) (c : Catalog K V) (items : List (K × Item K V)) (c' : Catalog K V)
      : Type ℓ where
    pub takes : Takes (c.regions r) (record c { regions = set_map r [] c.regions }) items c'
    pub emptied :
        (k : K) (item : Item K V) → lookup order hash k c' ≡ some item → region_of item ≢ some r
    pub covered : Covered order hash c'

  -- Whoever is not taken with the region is not in it.
  left_out :
      (r : ℕ) (c c' : Catalog K V) (items : List (K × Item K V)) (k : K) (item : Item K V)
      → Takes (c.regions r) (record c { regions = set_map r [] c.regions }) items c'
      → lookup order hash k c' ≡ some item
      → (lookup order hash k c ≡ some item)
        × (is_taken order k (lookup order hash k c) (c.regions r) ≡ false)
  unfolding lookup shard
  left_out r c c' items k item t is =
      elim (Bool-cases (is_taken order k (lookup order hash k c) (c.regions r))) [
        | inl on ↦ absurd (none-ne-some (sym (t.lookups k ∙ rw on refl) ∙ is))
        | inr off ↦ (sym (t.lookups k ∙ rw off refl) ∙ is, off)
      ]

  emptied_by :
      (r : ℕ) (c c' : Catalog K V) (items : List (K × Item K V)) (k : K) (item : Item K V)
      → Covered order hash c
      → Takes (c.regions r) (record c { regions = set_map r [] c.regions }) items c'
      → lookup order hash k c' ≡ some item
      → region_of item ≢ some r
  unfolding listed is_taken
  emptied_by r c c' items k item w t is on =
      let (was, off) = left_out r c c' items k item t is in
      let (_, l) = w k item r was on in
      let pair = listed_pair order k item.sequence (c.regions r) l in
      let taken : is_taken order k (lookup order hash k c) (c.regions r) ≡ true = rw was pair in
      ground (arith, taken, off)

  -- Taking a region that exists never faults. It gives the items that are listed in the region
  -- under their sequences, and removes them and no others; then no key has an item in the region,
  -- and the items of the other regions stay listed.
  pub take_region-Reclaims :
      (r : ℕ) (c : Catalog K V)
      → Covered order hash c
      → r < c.region_count
      → (items : List (K × Item K V)) × (c' : Catalog K V) × (take_region order hash r c
          ≡ some (items, c'))
        × Reclaims r c items c'
  unfolding take_region listed
  take_region-Reclaims r c w b =
      let c1 : Catalog K V = record c { regions = set_map r [] c.regions } in
      let on : ltb r c.region_count ≡ true = ground (arith, b) in
      let (items, c') = take_items order hash (c.regions r) c1 in
      let t : Takes (c.regions r) c1 items c' = take_items-Takes (c.regions r) c1 in
      (
        items,
        c',
        rw on refl,
        record {
          takes = t;
          emptied = λ k item is. emptied_by r c c' items k item w t is;
          covered = λ k item n is in_n. elim (Bool-cases (n == r)) [
            | inl e ↦
                absurd (emptied_by r c c' items k item w t is (in_n ∙ ap some ((==_iff n r).0 e)))
            | inr e ↦
                let (below, l) = w k item n (left_out r c c' items k item t is).0 in_n in
                (rw t.count_kept below, rw (t.regions_kept, e) l)
          ];
        },
      )
