-- ===== src/Prelude/Lists.antt =====
-- Queues of pointers as lists of native numbers: membership, removal, sums.
use Prim.Native.Nat.{ℕ, suc, ◌+◌}
use mathlib.Core.Path.{◌≡◌, refl}
use mathlib.Core.Bool.{Bool, true, false, ◌||◌, ◌&&◌, not}
use mathlib.Core.List.{List, [], ◌∷◌, ◌++◌}
use native.Mathlib.Omega.{arith}
use foyer.Prelude.Tests.{◌==◌, if◌then◌else◌}

module _ {ℓ} {A : Type ℓ} where
  abbrev pub length : List A → ℕ
  length [] = 0
  length (x ∷ xs) = suc (length xs)

  pub length-append : (xs ys : List A) → length (xs ++ ys) ≡ length xs + length ys
  length-append [] ys = omega arith
  length-append (x ∷ xs) ys = omega (arith, length-append xs ys)

unfoldable pub contains : List ℕ → ℕ → Bool
contains [] a = false
contains (x ∷ xs) a = a == x || contains xs a

-- Removes the first occurrence.
unfoldable pub erase : ℕ → List ℕ → List ℕ
erase a [] = []
erase a (x ∷ xs) = if a == x then xs else x ∷ erase a xs

abbrev pub IsDistinct : List ℕ → Type 0
IsDistinct [] = Unit
IsDistinct (x ∷ xs) = (contains xs x ≡ false) × IsDistinct xs

unfoldable pub sum_by : (ℕ → ℕ) → List ℕ → ℕ
sum_by f [] = 0
sum_by f (x ∷ xs) = f x + sum_by f xs

pub contains-snoc : (xs : List ℕ) (a q : ℕ) → contains (xs ++ a ∷ []) q ≡ (q == a || contains xs q)
unfolding contains
contains-snoc [] a q = ground arith
contains-snoc (x ∷ xs) a q = ground (arith, contains-snoc xs a q)

pub contains-append :
    (xs ys : List ℕ) (q : ℕ) → contains (xs ++ ys) q ≡ (contains xs q || contains ys q)
unfolding contains
contains-append [] ys q = refl
contains-append (x ∷ xs) ys q = ground (arith, contains-append xs ys q)

pub contains-erase :
    (a : ℕ) (xs : List ℕ) (q : ℕ)
    → IsDistinct xs
    → contains (erase a xs) q ≡ (contains xs q && not (q == a))
unfolding contains erase
contains-erase a [] q d = refl
contains-erase a (x ∷ xs) q d = ground (arith, contains-erase a xs q d.1)

pub IsDistinct-snoc :
    (xs : List ℕ) (a : ℕ) → IsDistinct xs → contains xs a ≡ false → IsDistinct (xs ++ a ∷ [])
unfolding contains
IsDistinct-snoc [] a d h = (refl, tt)
IsDistinct-snoc (x ∷ xs) a d h =
    (ground (arith, contains-snoc xs a x), IsDistinct-snoc xs a d.1 (ground arith))

pub IsDistinct-erase : (a : ℕ) (xs : List ℕ) → IsDistinct xs → IsDistinct (erase a xs)
unfolding contains erase
IsDistinct-erase a [] d = tt
IsDistinct-erase a (x ∷ xs) d = ground (arith, IsDistinct-erase a xs d.1, contains-erase a xs x d.1)

pub sum_by-snoc : (f : ℕ → ℕ) (xs : List ℕ) (a : ℕ) → sum_by f (xs ++ a ∷ []) ≡ sum_by f xs + f a
unfolding sum_by
sum_by-snoc f [] a = omega arith
sum_by-snoc f (x ∷ xs) a = omega (arith, sum_by-snoc f xs a)

pub sum_by-erase :
    (f : ℕ → ℕ) (a : ℕ) (xs : List ℕ)
    → contains xs a ≡ true
    → sum_by f xs ≡ sum_by f (erase a xs) + f a
unfolding sum_by contains erase
sum_by-erase f a [] h = ground arith
sum_by-erase f a (x ∷ xs) h = ground (arith, sum_by-erase f a xs)

pub sum_by_cong :
    (f g : ℕ → ℕ) (xs : List ℕ)
    → ((q : ℕ) → contains xs q ≡ true → f q ≡ g q)
    → sum_by f xs ≡ sum_by g xs
unfolding sum_by contains
sum_by_cong f g [] h = refl
sum_by_cong f g (x ∷ xs) h = ground (arith, h x, sum_by_cong f g xs (λ q m. h q (ground arith)))
