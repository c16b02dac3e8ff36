-- ===== src/Storage/Indices/Sequence.antt =====
-- The maps by sequence of foyer-storage/src/indices.rs.
use foyer.Prelude.{
  none-ne-some, ℕ, ◌≡◌, refl, sym, ◌∙◌, inl, inr, false, none, some, List, [], ◌∷◌, arith, ltb,
  ◌==◌, if◌then◌else◌, Bool-cases,
}
use foyer.Storage.Indices.{find, put, delete}

module _ {ℓ} {A : Type ℓ} where
  pub find-put :
      (n : ℕ) (a : A) (l : List (ℕ × A)) (q : ℕ)
      → find q (put n a l) ≡ (if q == n then some a else find q l)
  unfolding find put
  find-put n a [] q = refl
  find-put n a ((m, b) ∷ l) q = elim (Bool-cases (n == m)) [
    | inl same ↦ elim (Bool-cases (q == n)) [
      | inl here ↦ rw (same, here) refl
      | inr other ↦
          let far : (q == m) ≡ false = ground (arith, same, other) in rw (same, other, far) refl
    ]
    | inr differ ↦ elim (Bool-cases (ltb n m)) [
      | inl below ↦ rw (differ, below) refl
      | inr above ↦
          rw (differ, above)
            (elim (Bool-cases (q == m)) [
              | inl here ↦
                  let far : (q == n) ≡ false = ground (arith, differ, here) in rw (here, far) refl
              | inr other ↦ rw other (find-put n a l q)
            ])
    ]
  ]

  pub find-delete :
      (n : ℕ) (l : List (ℕ × A)) (q : ℕ) → find q (delete n l) ≡ (if q == n then none else find q l)
  unfolding find delete
  find-delete n [] q = elim (Bool-cases (q == n)) [
    | inl here ↦ rw here refl
    | inr far ↦ rw far refl
  ]
  find-delete n ((m, b) ∷ l) q = elim (Bool-cases (n == m)) [
    | inl same ↦ elim (Bool-cases (q == n)) [
      | inl here ↦ rw (same, here) (find-delete n l q ∙ rw here refl)
      | inr far ↦
          let far' : (q == m) ≡ false = ground (arith, same, far) in
          rw (same, far, far') (find-delete n l q ∙ rw far refl)
    ]
    | inr differ ↦ rw differ (elim (Bool-cases (q == m)) [
      | inl here ↦ let far : (q == n) ≡ false = ground (arith, differ, here) in rw (here, far) refl
      | inr other ↦ rw other (find-delete n l q)
    ])
  ]

  pub find-delete_other :
      (n : ℕ) (l : List (ℕ × A)) (q : ℕ) → (q == n) ≡ false → find q (delete n l) ≡ find q l
  find-delete_other n l q far = find-delete n l q ∙ rw far refl

  -- What a deletion leaves was there before.
  pub find-delete-some :
      (n : ℕ) (l : List (ℕ × A)) (q : ℕ) (a : A) → find q (delete n l) ≡ some a → find q l ≡ some a
  find-delete-some n l q a e = elim (Bool-cases (q == n)) [
    | inl here ↦ absurd (none-ne-some (sym (find-delete n l q ∙ rw here refl) ∙ e))
    | inr far ↦ sym (find-delete_other n l q far) ∙ e
  ]
