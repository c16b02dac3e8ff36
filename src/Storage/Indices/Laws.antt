-- ===== src/Storage/Indices/Laws.antt =====
-- What the operations of foyer-storage/src/indices.rs do to the map from keys to indices.
pub mod Insert
pub mod Remove
pub mod Take
use foyer.Prelude.{
  ℕ, ◌-◌, ◌<◌, ◌≡◌, refl, ◌⊎◌, inl, inr, true, none, some, arith, ltb, if◌then◌else◌, Option-cases,
}
use foyer.Storage.Indices.{Index, KeyEq, Indices, Slot, find, lookup_at, lookup, new, clear}

module _ {ℓ} {K : Type ℓ} (keys : KeyEq K) where
  pub beq-true : (a b : K) → keys.beq a b ≡ true → a ≡ b
  beq-true a b e = (keys.beq_iff a b).0 e

  pub beq_refl : (a : K) → keys.beq a a ≡ true
  beq_refl a = (keys.beq_iff a a).1 refl

  -- A slot names an index of its key in its region, and a sequence of a region that has an index
  -- was handed out.
  pub record IsValid (s : Indices K) : Type ℓ where
    pub live :
        (k : K) (slot : Slot)
        → s.slots k ≡ some slot
        → (slot.region < s.count)
          × (index : Index K) × (find slot.sequence (s.regions slot.region) ≡ some index)
          × (index.key ≡ k)
    pub fresh :
        (r n : ℕ) (index : Index K)
        → find n (s.regions r) ≡ some index
        → (n < s.sequences r) × (index.region ≡ r)

  -- A valid index never faults on a lookup.
  pub lookup_live :
      (k : K) (s : Indices K)
      → IsValid s
      → ((s.slots k ≡ none) × (lookup keys k s ≡ some none))
        ⊎ ((slot : Slot) × (index : Index K) × (s.slots k ≡ some slot)
            × (lookup keys k s ≡ some (some index))
            × (index.key ≡ k)
            × (index.region ≡ slot.region))
  unfolding lookup lookup_at
  lookup_live k s w = elim (Option-cases (s.slots k)) [
    | inl e ↦ inl (e, rw e refl)
    | inr (slot, e) ↦
        let (inside, index, f, at) = w.live k slot e in
        let within : ltb slot.region s.count ≡ true = ground (arith, inside) in
        inr (slot, index, e, rw (e, within, f) refl, at, (w.fresh _ _ index f).1)
  ]

  -- A key whose slot is kept, and whose region keeps the index there, is found as before.
  pub lookup_kept :
      (k : K) (s s' : Indices K)
      → s'.slots k ≡ s.slots k
      → s'.count ≡ s.count
      → ((slot : Slot)
          → s.slots k ≡ some slot
          → find slot.sequence (s'.regions slot.region)
            ≡ find slot.sequence (s.regions slot.region))
      → lookup keys k s' ≡ lookup keys k s
  unfolding lookup lookup_at
  lookup_kept k s s' same count kept = elim (Option-cases (s.slots k)) [
    | inl e ↦ rw (same, e) refl
    | inr (slot, e) ↦ rw (same, e, count, kept slot e) refl
  ]

  -- A new index, and one that was cleared, are valid and find nothing.
  pub empty-IsValid :
      (regions : ℕ) (s : Indices K)
      → IsValid (new regions)
        × IsValid (clear s)
        × ((k : K) → lookup keys k (new regions) ≡ some none)
        × ((k : K) → lookup keys k (clear s) ≡ some none)
  unfolding new clear lookup lookup_at find
  empty-IsValid regions s = (
    record {
      live = λ k slot e. absurd (ground (arith, e));
      fresh = λ r n index e. absurd (ground (arith, e));
    },
    record {
      live = λ k slot e. absurd (ground (arith, e));
      fresh = λ r n index e. absurd (ground (arith, e));
    },
    (λ k. refl),
    (λ k. refl),
  )
