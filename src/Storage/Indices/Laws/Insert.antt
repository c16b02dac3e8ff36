-- ===== src/Storage/Indices/Laws/Insert.antt =====
-- `insert` of foyer-storage/src/indices.rs.
use foyer.Prelude.{
  some-inj, ℕ, ◌+◌, ◌%◌, ◌^◌, ◌<◌, ◌≡◌, refl, sym, ap, subst, ◌∙◌, inl, inr, true, false, ◌&&◌,
  some, arith, ltb, ◌==◌, if◌then◌else◌, ==_iff, ==_refl, Bool-cases, usize_mod, wrapping_add,
}
use foyer.Storage.Indices.{
  Index, KeyEq, Indices, Slot, find, put, lookup_at, lookup, update, set_slot, insert,
}
use foyer.Storage.Indices.Sequence.{find-put}
use foyer.Storage.Indices.Laws.{IsValid, beq-true, lookup_kept}

module _ {ℓ} {K : Type ℓ} (keys : KeyEq K) where
  -- The state after an insertion.
  abbrev inserted : Index K → Indices K → Indices K
  inserted index s =
      let sequence = s.sequences index.region in
      record s {
        sequences = update index.region (sequence + 1) s.sequences;
        regions = update index.region (put sequence index (s.regions index.region)) s.regions;
        slots =
            set_slot keys index.key (some (record { region = index.region; sequence = sequence }))
              s.slots;
      }

  -- What the regions have after an insertion.
  find-inserted :
      (index : Index K) (s : Indices K) (r n : ℕ)
      → find n ((inserted index s).regions r) ≡ (
          if r == index.region && n == s.sequences index.region
          then some index
          else find n (s.regions r))
  find-inserted index s r n = elim (Bool-cases (r == index.region)) [
    | inl here ↦ rw here (
        find-put (s.sequences index.region) index (s.regions index.region) n
        ∙ ap (λ x. if n == s.sequences index.region then some index else find n (s.regions x))
            (sym ((==_iff r index.region).0 here)))
    | inr other ↦ rw other refl
  ]

  -- An index that was there before is still there.
  find-kept :
      (index : Index K) (s : Indices K) (r n : ℕ) (x : Index K)
      → IsValid keys s
      → find n (s.regions r) ≡ some x
      → find n ((inserted index s).regions r) ≡ some x
  find-kept index s r n x w e =
      let (below, _) = w.fresh r n x e in
      let apart : (r == index.region && n == s.sequences index.region) ≡ false =
        elim (Bool-cases (r == index.region)) [
          | inl here ↦
              let at = (==_iff r index.region).0 here in
              let same : s.sequences r ≡ s.sequences index.region = ap s.sequences at in
              ground (arith, here, below, same)
          | inr other ↦ ground (arith, other)
        ] in
      find-inserted index s r n ∙ rw apart e

  fresh_after :
      (index : Index K) (s : Indices K)
      → IsValid keys s
      → (r n : ℕ) (x : Index K) → find n ((inserted index s).regions r) ≡ some x
      → (n < (inserted index s).sequences r) × (x.region ≡ r)
  fresh_after index s w r n x e =
      elim (Bool-cases (r == index.region && n == s.sequences index.region)) [
        | inl here ↦
            let same : some index ≡ some x = sym (find-inserted index s r n ∙ rw here refl) ∙ e in
            (ground (arith, here), ap (λ y. y.region) (sym (some-inj same)) ∙ ground (arith, here))
        | inr other ↦
            let before : find n (s.regions r) ≡ some x =
              sym (find-inserted index s r n ∙ rw other refl) ∙ e in
            let (below, at) = w.fresh r n x before in (grown index s r n below, at)
      ]
    where
      grown :
          (index : Index K) (s : Indices K) (r n : ℕ)
          → n < s.sequences r
          → n < (inserted index s).sequences r
      grown index s r n below = elim (Bool-cases (r == index.region)) [
        | inl here ↦
            let same : s.sequences r ≡ s.sequences index.region =
              ap s.sequences ((==_iff r index.region).0 here) in
            ground (arith, here, below, same)
        | inr other ↦ ground (arith, other, below)
      ]

  inserted-IsValid :
      (index : Index K) (s : Indices K)
      → IsValid keys s
      → index.region < s.count
      → IsValid keys (inserted index s)
  inserted-IsValid index s w inside = record {
    live = λ k slot e. elim (Bool-cases (keys.beq k index.key)) [
      | inl here ↦
          subst
            (λ (x : Slot).
              (x.region < s.count)
              × (index' : Index K) × (find x.sequence ((inserted index s).regions x.region)
                  ≡ some index')
              × (index'.key ≡ k))
            (some-inj (rw here at e))
            (
              inside,
              index,
              find-inserted index s index.region (s.sequences index.region)
                  ∙ rw (==_refl index.region, ==_refl (s.sequences index.region)) refl,
              sym (beq-true keys k index.key here),
            )
      | inr other ↦
          let (within, x, f, at) = w.live k slot (rw other at e) in
          (within, x, find-kept index s slot.region slot.sequence x w f, at)
    ];
    fresh = fresh_after index s w;
  }

  -- The new index is found.
  found :
      (index : Index K) (s : Indices K) (k : K)
      → index.region < s.count
      → keys.beq k index.key ≡ true
      → lookup keys k (inserted index s) ≡ some (some index)
  unfolding lookup lookup_at
  found index s k inside here =
      let within : ltb index.region s.count ≡ true = ground (arith, inside) in
      let there = find-inserted index s index.region (s.sequences index.region) in
      let now : find (s.sequences index.region) ((inserted index s).regions index.region)
          ≡ some index =
        there ∙ rw (==_refl index.region, ==_refl (s.sequences index.region)) refl in
      rw (here, within) (ap some now)

  -- An insertion into a region that exists never faults, as long as the region has sequences of 32
  -- bits left. Afterwards the key is found with the new index, and every other key as before.
  pub insert-lookup :
      (index : Index K) (s : Indices K)
      → IsValid keys s
      → index.region < s.count
      → s.sequences index.region < 2 ^ 32
      → (s' : Indices K) × (insert keys index s ≡ some s')
        × IsValid keys s'
        × (s'.count ≡ s.count)
        × ((k : K)
            → lookup keys k s'
              ≡ (if keys.beq k index.key then some (some index) else lookup keys k s))
  unfolding insert wrapping_add
  insert-lookup index s w inside bound =
      let within : ltb index.region s.count ≡ true = ground (arith, inside) in
      let word : s.sequences index.region % 2 ^ 32 ≡ s.sequences index.region =
        omega (arith, bound) in
      let next : (s.sequences index.region + 1) % usize_mod ≡ s.sequences index.region + 1 =
        omega (arith, bound) in
      (
        inserted index s,
        rw (within, word, next) refl,
        inserted-IsValid index s w inside,
        refl,
        λ k. elim (Bool-cases (keys.beq k index.key)) [
          | inl here ↦ rw here (found index s k inside here)
          | inr other ↦ rw other (
              lookup_kept keys k s (inserted index s) (rw other refl) refl (λ slot e.
                let (_, x, f, _) = w.live k slot e in
                find-kept index s slot.region slot.sequence x w f ∙ sym f))
        ],
      )
