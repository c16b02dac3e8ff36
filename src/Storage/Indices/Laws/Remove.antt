-- ===== src/Storage/Indices/Laws/Remove.antt =====
-- `remove` and `remap` of foyer-storage/src/indices.rs.
use foyer.Prelude.{some-inj, none-ne-some}
use foyer.Prelude.{
  ℕ, ◌^◌, ◌<◌, ◌≡◌, refl, sym, ap, subst, ◌∙◌, inl, inr, true, false, Option, none, some, arith,
  ltb, ◌==◌, if◌then◌else◌, ==_iff, Bool-cases, Option-cases,
}
use foyer.Storage.Indices.{
  Index, KeyEq, Indices, Slot, find, delete, lookup_at, lookup, update, set_slot, remove_at, remove,
  remap_to, remap,
}
use foyer.Storage.Indices.Sequence.{find-delete_other, find-delete-some}
use foyer.Storage.Indices.Laws.{IsValid, lookup_kept, lookup_live}
use foyer.Storage.Indices.Laws.Insert.{insert-lookup}

module _ {ℓ} {K : Type ℓ} (keys : KeyEq K) where
  -- The state after the removal of a key that has a slot.
  abbrev removed : K → Slot → Indices K → Indices K
  removed k slot s = record s {
    slots = set_slot keys k none s.slots;
    regions = update slot.region (delete slot.sequence (s.regions slot.region)) s.regions;
  }

  -- The index of another key is still there.
  other_kept :
      (k k' : K) (slot slot' : Slot) (s : Indices K)
      → IsValid keys s
      → s.slots k ≡ some slot
      → s.slots k' ≡ some slot'
      → keys.beq k' k ≡ false
      → find slot'.sequence ((removed k slot s).regions slot'.region)
        ≡ find slot'.sequence (s.regions slot'.region)
  other_kept k k' slot slot' s w e e' far =
      let (_, x, f, at) = w.live k slot e in
      let (_, x', f', at') = w.live k' slot' e' in
      elim (Bool-cases (slot'.region == slot.region)) [
        | inr other ↦ rw other refl
        | inl here ↦ elim (Bool-cases (slot'.sequence == slot.sequence)) [
          | inr apart ↦
              let same = (==_iff slot'.region slot.region).0 here in
              rw here (
                find-delete_other slot.sequence (s.regions slot.region) slot'.sequence apart
                ∙ ap (λ r. find slot'.sequence (s.regions r)) (sym same))
          | inl equal ↦
              let same = (==_iff slot'.region slot.region).0 here in
              let same' = (==_iff slot'.sequence slot.sequence).0 equal in
              let one : some x' ≡ some x =
                sym f'
                ∙ ap (λ r. find slot'.sequence (s.regions r)) same
                ∙ ap (λ n. find n (s.regions slot.region)) same'
                ∙ f in
              let keys_same : k' ≡ k = sym at' ∙ ap (λ y. y.key) (some-inj one) ∙ at in
              absurd (ground (arith, far, (keys.beq_iff k' k).1 keys_same))
        ]
      ]

  removed-IsValid :
      (k : K) (slot : Slot) (s : Indices K)
      → IsValid keys s
      → s.slots k ≡ some slot
      → IsValid keys (removed k slot s)
  removed-IsValid k slot s w e = record {
    live = λ k' slot' e'. elim (Bool-cases (keys.beq k' k)) [
      | inl here ↦ absurd (none-ne-some (rw here at e'))
      | inr far ↦
          let before : s.slots k' ≡ some slot' = rw far at e' in
          let (inside, x, f, at) = w.live k' slot' before in
          (inside, x, other_kept k k' slot slot' s w e before far ∙ f, at)
    ];
    fresh = λ r n x f. elim (Bool-cases (r == slot.region)) [
      | inr other ↦ w.fresh r n x (rw other at f)
      | inl here ↦ w.fresh r n x (
          subst (λ r'. find n (s.regions r') ≡ some x) (sym ((==_iff r slot.region).0 here))
            (find-delete-some slot.sequence (s.regions slot.region) n x (rw here at f)))
    ];
  }

  -- What a removal promises.
  pub Removes : K → Indices K → Type ℓ
  Removes k s =
      (found : Option (Index K)) × (s' : Indices K) × (remove keys k s ≡ some (found, s'))
      × (lookup keys k s ≡ some found)
      × IsValid keys s'
      × (s'.count ≡ s.count)
      × ((r : ℕ) → s'.sequences r ≡ s.sequences r)
      × ((k' : K) → lookup keys k' s' ≡ (if keys.beq k' k then some none else lookup keys k' s))

  -- The key of a removed slot is not found.
  gone :
      (k k' : K) (s s' : Indices K)
      → s'.slots k' ≡ (if keys.beq k' k then none else s.slots k')
      → keys.beq k' k ≡ true
      → lookup keys k' s' ≡ some none
  unfolding lookup lookup_at
  gone k k' s s' e here = rw (e, here) refl

  absent : (k : K) (s : Indices K) → IsValid keys s → s.slots k ≡ none → Removes k s
  unfolding Removes remove remove_at
  absent k s w e =
      let s' : Indices K = record s { slots = set_slot keys k none s.slots } in
      (
        none,
        s',
        rw e refl,
        nothing k s e,
        record {
          live = λ k' slot e'. elim (Bool-cases (keys.beq k' k)) [
            | inl here ↦ absurd (none-ne-some (rw here at e'))
            | inr far ↦ w.live k' slot (rw far at e')
          ];
          fresh = w.fresh;
        },
        refl,
        (λ r. refl),
        λ k'. elim (Bool-cases (keys.beq k' k)) [
          | inl here ↦ gone k k' s s' refl here ∙ rw here refl
          | inr far ↦ lookup_kept keys k' s s' (rw far refl) refl (λ _ _. refl) ∙ rw far refl
        ],
      )
    where
      nothing : (k : K) (s : Indices K) → s.slots k ≡ none → lookup keys k s ≡ some none
      nothing k s e = unfold lookup lookup_at in rw e refl

  found_at :
      (k : K) (slot : Slot) (x : Index K) (s : Indices K)
      → s.slots k ≡ some slot
      → slot.region < s.count
      → find slot.sequence (s.regions slot.region) ≡ some x
      → lookup keys k s ≡ some (some x)
  unfolding lookup lookup_at
  found_at k slot x s e inside f =
      let within : ltb slot.region s.count ≡ true = ground (arith, inside) in rw (e, within, f) refl

  present :
      (k : K) (slot : Slot) (s : Indices K) → IsValid keys s → s.slots k ≡ some slot → Removes k s
  unfolding Removes remove remove_at
  present k slot s w e =
      let (inside, x, f, _) = w.live k slot e in
      let within : ltb slot.region s.count ≡ true = ground (arith, inside) in
      let s' : Indices K = removed k slot s in
      (
        some x,
        s',
        rw (e, within, f) refl,
        found_at k slot x s e inside f,
        removed-IsValid k slot s w e,
        refl,
        (λ r. refl),
        λ k'. elim (Bool-cases (keys.beq k' k)) [
          | inl here ↦ gone k k' s s' refl here ∙ rw here refl
          | inr far ↦
              lookup_kept keys k' s s' (rw far refl) refl
                (λ slot' e'. other_kept k k' slot slot' s w e e' far)
              ∙ rw far refl
        ],
      )

  -- A removal never faults and returns what a lookup of the key finds. Afterwards the key is not
  -- found, and every other key as before.
  pub remove-lookup : (k : K) (s : Indices K) → IsValid keys s → Removes k s
  unfolding Removes
  remove-lookup k s w = elim (Option-cases (s.slots k)) [
    | inl e ↦ absent k s w e
    | inr (slot, e) ↦ present k slot s w e
  ]

  -- An index that is found is in a region that exists.
  found_inside :
      (k : K) (s : Indices K) (x : Index K)
      → IsValid keys s
      → lookup keys k s ≡ some (some x)
      → x.region < s.count
  found_inside k s x w e = elim (lookup_live keys k s w) [
    | inl (_, e') ↦ absurd (none-ne-some (some-inj (sym e' ∙ e)))
    | inr (slot, y, at, e', _, same) ↦
        let (inside, _, _, _) = w.live k slot at in
        let one : y ≡ x = some-inj (some-inj (sym e' ∙ e)) in
        subst (λ n. n < s.count) (sym same ∙ ap (λ z. z.region) one) inside
  ]

  -- What a remapping promises, by whether the old key is found.
  pub Remaps : K → K → Option (Index K) → Indices K → Type ℓ
  Remaps old_key new_key none s =
      (s' : Indices K) × (remap keys old_key new_key s ≡ some (false, s'))
      × IsValid keys s'
      × ((k : K) → lookup keys k s' ≡ (if keys.beq k old_key then some none else lookup keys k s))
  Remaps old_key new_key (some index) s =
      (s' : Indices K) × (remap keys old_key new_key s ≡ some (true, s'))
      × IsValid keys s'
      × ((k : K)
          → lookup keys k s' ≡ (
              if keys.beq k new_key
              then some (some (record index { key = new_key }))
              else if keys.beq k old_key
              then some none
              else lookup keys k s))

  remap_from :
      (old_key new_key : K) (s : Indices K) (found : Option (Index K)) (s1 : Indices K)
      → IsValid keys s
      → ((r : ℕ) → s.sequences r < 2 ^ 32)
      → remove keys old_key s ≡ some (found, s1)
      → lookup keys old_key s ≡ some found
      → IsValid keys s1
      → s1.count ≡ s.count
      → ((r : ℕ) → s1.sequences r ≡ s.sequences r)
      → ((k : K) → lookup keys k s1 ≡ (if keys.beq k old_key then some none else lookup keys k s))
      → Remaps old_key new_key found s
  unfolding remap remap_to Remaps
  remap_from old_key new_key s none s1 w bound e f w1 count sequences looks =
      (s1, rw e refl, w1, looks)
  remap_from old_key new_key s (some index) s1 w bound e f w1 count sequences looks =
      let index' : Index K = record index { key = new_key } in
      let (s', g, w', _, looks') =
        insert-lookup keys index' s1 w1
          (subst (λ n. index.region < n) (sym count) (found_inside old_key s index w f))
          (subst (λ n. n < 2 ^ 32) (sym (sequences index.region)) (bound index.region)) in
      (
        s',
        rw (e, g) refl,
        w',
        λ k. looks' k ∙ ap (λ z. if keys.beq k new_key then some (some index') else z) (looks k),
      )

  -- A remapping never faults, as long as every region has sequences of 32 bits left. An old key
  -- that is found gives its index to the new key and is found no more itself; every other key is
  -- found as before. If the old key is not found, all are.
  pub remap-lookup :
      (old_key new_key : K) (s : Indices K)
      → IsValid keys s
      → ((r : ℕ) → s.sequences r < 2 ^ 32)
      → (found : Option (Index K)) × (lookup keys old_key s ≡ some found)
        × Remaps old_key new_key found s
  unfolding Removes
  remap-lookup old_key new_key s w bound =
      let (found, s1, e, f, w1, count, sequences, looks) = remove-lookup old_key s w in
      (found, f, remap_from old_key new_key s found s1 w bound e f w1 count sequences looks)
