-- ===== src/Memory/Shard/Sum.antt =====
-- The charges of all handles that a shard of foyer-memory/src/generic.rs allocated, as a sum.
use foyer.Prelude.{
  ℕ, zero, suc, ◌+◌, ◌≤◌, ◌<◌, ◌≡◌, refl, ap, inl, inr, false, arith, ◌==◌, ==_iff, ==_of_ne,
  Bool-cases,
}

unfoldable pub sum_below : (ℕ → ℕ) → ℕ → ℕ
sum_below f zero = 0
sum_below f (suc n) = sum_below f n + f n

pub sum_below-zero : (f : ℕ → ℕ) (n : ℕ) → ((q : ℕ) → f q ≡ 0) → sum_below f n ≡ 0
unfolding sum_below
sum_below-zero f zero h = refl
sum_below-zero f (suc n) h = omega (arith, sum_below-zero f n h, h n)

pub sum_below_cong :
    (f g : ℕ → ℕ) (n : ℕ) → ((q : ℕ) → q < n → f q ≡ g q) → sum_below f n ≡ sum_below g n
unfolding sum_below
sum_below_cong f g zero h = refl
sum_below_cong f g (suc n) h =
    omega (arith, sum_below_cong f g n (λ q l. h q (omega arith)), h n (omega arith))

-- A change at one place changes the sum by as much.
pub sum_below_change :
    (f g : ℕ → ℕ) (p n : ℕ)
    → p < n
    → ((q : ℕ) → (q == p) ≡ false → f q ≡ g q)
    → sum_below f n + g p ≡ sum_below g n + f p
unfolding sum_below
sum_below_change f g p zero l h = absurd (omega arith)
sum_below_change f g p (suc n) l h = elim (Bool-cases (n == p)) [
  | inl here ↦
      let same : n ≡ p = (==_iff n p).0 here in
      omega (
        arith,
        ap f same,
        ap g same,
        sum_below_cong f g n (λ q m. h q (==_of_ne q p (λ e. omega arith))),
      )
  | inr other ↦
      let below : p < n = ground arith in omega (arith, sum_below_change f g p n below h, h n other)
]

pub le_sum_below : (f : ℕ → ℕ) (p n : ℕ) → p < n → f p ≤ sum_below f n
unfolding sum_below
le_sum_below f p zero l = absurd (omega arith)
le_sum_below f p (suc n) l = elim (Bool-cases (n == p)) [
  | inl here ↦ omega (arith, ap f ((==_iff n p).0 here))
  | inr other ↦ let below : p < n = ground arith in omega (arith, le_sum_below f p n below)
]
