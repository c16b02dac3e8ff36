-- ===== src/Storage/Indices/Laws/Take.antt =====
-- `take_region` of foyer-storage/src/indices.rs.
use foyer.Prelude.{some-inj, none-ne-some}
use foyer.Prelude.{
  ℕ, ◌<◌, ◌≡◌, refl, sym, ap, subst, ◌∙◌, inl, inr, Bool, true, false, ◌||◌, Option, none, some,
  List, [], ◌∷◌, arith, ltb, ◌==◌, if◌then◌else◌, ==_iff, Bool-cases,
}
use foyer.Storage.Indices.{
  Index, KeyEq, Indices, Slot, find, values, lookup_at, lookup, update, set_slot, remove_slots,
  take_region,
}
use foyer.Storage.Indices.Laws.{IsValid, beq_refl, lookup_kept}

module _ {ℓ} {K : Type ℓ} (keys : KeyEq K) where
  -- The key is that of an index in the list.
  abbrev pub has_key : K → List (Index K) → Bool
  has_key k [] = false
  has_key k (index ∷ l) = keys.beq k index.key || has_key k l

  remove_slots_lem :
      (l : List (Index K)) (slots : K → Option Slot) (k : K)
      → remove_slots keys l slots k ≡ (if has_key k l then none else slots k)
  unfolding remove_slots
  remove_slots_lem [] slots k = refl
  remove_slots_lem (index ∷ l) slots k =
      remove_slots_lem l (set_slot keys index.key none slots) k
      ∙ elim (Bool-cases (keys.beq k index.key)) [
        | inl here ↦ elim (Bool-cases (has_key k l)) [
          | inl a ↦ rw (here, a) refl
          | inr a ↦ rw (here, a) refl
        ]
        | inr far ↦ rw far refl
      ]

  find-has_key :
      (l : List (ℕ × Index K)) (n : ℕ) (index : Index K)
      → find n l ≡ some index
      → has_key index.key (values l) ≡ true
  unfolding find values
  find-has_key [] n index e = absurd (none-ne-some e)
  find-has_key ((m, x) ∷ l) n index e = elim (Bool-cases (n == m)) [
    | inl here ↦
        let same : x ≡ index = some-inj (rw here at e) in
        subst (λ y. has_key y.key (values ((m, x) ∷ l)) ≡ true) same (rw (beq_refl keys x.key) refl)
    | inr far ↦
        let later : has_key index.key (values l) ≡ true = find-has_key l n index (rw far at e) in
        elim (Bool-cases (keys.beq index.key x.key)) [ inl a ↦ rw a refl | inr a ↦ rw a later ]
  ]

  -- A key that no index of the region has is in another region.
  kept_elsewhere :
      (region : ℕ) (s : Indices K)
      → IsValid keys s
      → (k : K) (slot : Slot) → s.slots k ≡ some slot
      → has_key k (values (s.regions region)) ≡ false
      → find slot.sequence (update region [] s.regions slot.region)
        ≡ find slot.sequence (s.regions slot.region)
  kept_elsewhere region s w k slot e off = elim (Bool-cases (slot.region == region)) [
    | inr far ↦ rw far refl
    | inl here ↦
        let (_, x, f, at) = w.live k slot e in
        let same = (==_iff slot.region region).0 here in
        let there = find-has_key (s.regions slot.region) slot.sequence x f in
        let on : has_key k (values (s.regions region)) ≡ true =
          ap (λ r. has_key k (values (s.regions r))) (sym same)
          ∙ ap (λ y. has_key y (values (s.regions slot.region))) (sym at)
          ∙ there in
        absurd (ground (arith, on, off))
  ]

  taken-IsValid :
      (region : ℕ) (s : Indices K)
      → IsValid keys s
      → IsValid keys (record s {
        regions = update region [] s.regions;
        slots = remove_slots keys (values (s.regions region)) s.slots;
      })
  unfolding find
  taken-IsValid region s w =
      let indices = values (s.regions region) in
      record {
        live = λ k slot e. elim (Bool-cases (has_key k indices)) [
          | inl on ↦
              absurd (none-ne-some (sym (remove_slots_lem indices s.slots k ∙ rw on refl) ∙ e))
          | inr off ↦
              let before : s.slots k ≡ some slot =
                sym (remove_slots_lem indices s.slots k ∙ rw off refl) ∙ e in
              let (inside, x, f, at) = w.live k slot before in
              (inside, x, kept_elsewhere region s w k slot before off ∙ f, at)
        ];
        fresh = λ r n x f. elim (Bool-cases (r == region)) [
          | inl here ↦ absurd (none-ne-some (rw here at f))
          | inr far ↦ w.fresh r n x (rw far at f)
        ];
      }

  no_slot : (k : K) (s : Indices K) → s.slots k ≡ none → lookup keys k s ≡ some none
  unfolding lookup lookup_at
  no_slot k s e = rw e refl

  -- Taking a region that exists never faults and returns its indices. Afterwards a key that one of
  -- them has is not found, whatever its slot was; every other key is found as before.
  pub take_region-lookup :
      (region : ℕ) (s : Indices K)
      → IsValid keys s
      → region < s.count
      → (s' : Indices K) × (take_region keys region s ≡ some (values (s.regions region), s'))
        × IsValid keys s'
        × ((k : K)
            → lookup keys k s'
              ≡ (if has_key k (values (s.regions region)) then some none else lookup keys k s))
  unfolding take_region
  take_region-lookup region s w inside =
      let within : ltb region s.count ≡ true = ground (arith, inside) in
      let indices = values (s.regions region) in
      let s' : Indices K = record s {
        regions = update region [] s.regions;
        slots = remove_slots keys indices s.slots;
      } in
      (
        s',
        rw within refl,
        taken-IsValid region s w,
        λ k. elim (Bool-cases (has_key k indices)) [
          | inl on ↦ rw on (no_slot k s' (remove_slots_lem indices s.slots k ∙ rw on refl))
          | inr off ↦ rw off (
              lookup_kept keys k s s' (remove_slots_lem indices s.slots k ∙ rw off refl) refl
                (λ slot e. kept_elsewhere region s w k slot e off))
        ],
      )
