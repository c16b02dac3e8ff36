-- ===== src/Storage/Catalog/Ordered.antt =====
-- `BTreeMap` of the standard library: a list of pairs in the order of the keys.
use foyer.Prelude.{
  ◌≡◌, refl, sym, ap, ◌∙◌, ◌↔◌, Bool, true, Option, none, some, List, [], ◌∷◌, arith, if◌then◌else◌,
}

pub record Order {ℓ} (K : Type ℓ) : Type ℓ where
  pub beq : K → K → Bool
  pub beq_iff : (a b : K) → (beq a b ≡ true) ↔ (a ≡ b)
  pub before : K → K → Bool

abbrev pub Map {ℓ κ} : (K : Type ℓ) (A : Type κ) → Type (ℓ ⊔ κ)
Map K A = List (K × A)

module _ {ℓ} {K : Type ℓ} (order : Order K) where
  open order use {beq, beq_iff}

  pub beq_congr : (j k k' : K) → beq k k' ≡ true → beq j k' ≡ beq j k
  beq_congr j k k' e = ap (beq j) (sym ((beq_iff k k').0 e))

  pub beq_join : (j k k' : K) → beq j k ≡ true → beq j k' ≡ true → beq k k' ≡ true
  beq_join j k k' e e' = (beq_iff k k').1 (sym ((beq_iff j k).0 e) ∙ (beq_iff j k').0 e')

module _ {ℓ κ} {K : Type ℓ} {A : Type κ} (order : Order K) where
  open order use {beq, before}

  unfoldable pub get : K → Map K A → Option A
  get k [] = none
  get k ((k', a) ∷ m) = if beq k k' then some a else get k m

  unfoldable pub insert : K → A → Map K A → Map K A
  insert k a [] = (k, a) ∷ []
  insert k a ((k', b) ∷ m) =
      if beq k k'
      then (k, a) ∷ m
      else if before k k'
      then (k, a) ∷ (k', b) ∷ m
      else (k', b) ∷ insert k a m

  unfoldable pub remove : K → Map K A → Map K A
  remove k [] = []
  remove k ((k', a) ∷ m) = if beq k k' then remove k m else (k', a) ∷ remove k m

  pub get-insert :
      (k j : K) (a : A) (m : Map K A) → get j (insert k a m) ≡ (if beq j k then some a else get j m)
  unfolding get insert
  get-insert k j a [] = refl
  get-insert k j a ((k', b) ∷ m) =
      ground (arith, get-insert k j a m, beq_congr order j k k', beq_join order j k k')

  pub get-remove :
      (k j : K) (m : Map K A) → get j (remove k m) ≡ (if beq j k then none else get j m)
  unfolding get remove
  get-remove k j [] = ground arith
  get-remove k j ((k', b) ∷ m) =
      ground (arith, get-remove k j m, beq_congr order j k k', beq_join order j k k')
