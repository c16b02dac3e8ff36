-- ===== src/Prelude/Word.antt =====
-- `usize` and `u64` arithmetic of a release build: 64 bits, wrapping.
use Prim.Native.Nat.{ℕ, ◌+◌, ◌-◌, ◌%◌, ◌^◌, ◌<◌}
use mathlib.Core.Path.{◌≡◌}
use native.Mathlib.Omega.{arith}

abbrev pub usize_mod : ℕ
usize_mod = 2 ^ 64

unfoldable pub wrapping_add : ℕ → ℕ → ℕ
wrapping_add a b = (a + b) % usize_mod

unfoldable pub wrapping_sub : ℕ → ℕ → ℕ
wrapping_sub a b = (a + usize_mod - b) % usize_mod

-- A sum that fits in a word does not wrap.
pub wrapping_add_fits : (a b : ℕ) → a + b < usize_mod → wrapping_add a b ≡ a + b
unfolding wrapping_add
wrapping_add_fits a b h = omega (arith, h)

-- A counter that holds a sum modulo the word size follows the sum.
pub wrapping_add-mod :
    (c s a t : ℕ) → c ≡ s % usize_mod → t ≡ s + a → wrapping_add c a ≡ t % usize_mod
unfolding wrapping_add
wrapping_add-mod c s a t h e = omega arith

pub wrapping_sub-mod :
    (c s a t : ℕ) → c ≡ s % usize_mod → a < usize_mod → s ≡ t + a → wrapping_sub c a ≡ t % usize_mod
unfolding wrapping_sub
wrapping_sub-mod c s a t h b e = omega arith
