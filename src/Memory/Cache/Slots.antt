-- ===== src/Memory/Cache/Slots.antt =====
-- The places of a list, for the shards of foyer-memory/src/generic.rs.
use foyer.Prelude.{
  ℕ, zero, suc, ◌≡◌, refl, ap, ◌∙◌, some, List, [], ◌∷◌, arith, ◌==◌, if◌then◌else◌, ==_of_ne,
  length,
}
use foyer.Prelude.{none-ne-some}
use foyer.Memory.Cache.{slot_at, set_slot}

module _ {ℓ} {A : Type ℓ} where
  pub slot_at-set_slot :
      (n m : ℕ) (x y : A) (l : List A)
      → slot_at n l ≡ some x
      → slot_at m (set_slot n y l) ≡ (if m == n then some y else slot_at m l)
  unfolding slot_at set_slot
  slot_at-set_slot n m x y [] h = absurd (none-ne-some h)
  slot_at-set_slot zero zero x y (z ∷ l) h = refl
  slot_at-set_slot zero (suc m) x y (z ∷ l) h = rw (==_of_ne (suc m) 0 (omega arith)) refl
  slot_at-set_slot (suc n) zero x y (z ∷ l) h = rw (==_of_ne 0 (suc n) (omega arith)) refl
  slot_at-set_slot (suc n) (suc m) x y (z ∷ l) h =
      slot_at-set_slot n m x y l h ∙ ap (λ b. if b then some y else slot_at m l) (suc_test m n)
    where
      suc_test : (m n : ℕ) → (m == n) ≡ (suc m == suc n)
      suc_test m n = ground arith

  pub length-set_slot : (n : ℕ) (y : A) (l : List A) → length (set_slot n y l) ≡ length l
  unfolding set_slot
  length-set_slot n y [] = refl
  length-set_slot zero y (x ∷ l) = refl
  length-set_slot (suc n) y (x ∷ l) = ap suc (length-set_slot n y l)
