-- ===== src/Storage/Buffer/Align.antt =====
-- foyer-common/src/bits.rs: the arithmetic of aligned numbers.
use foyer.Prelude.{
  usize_mod, wrapping_add, wrapping_sub, ℕ, suc, ◌+◌, ◌-◌, ◌*◌, ◌/◌, ◌%◌, ◌≤◌, ◌<◌, ◌≡◌, sym, ap,
  ◌∙◌, arith,
}
use native.Mathlib.Nat.{
  div-mul-le_self, lt-div-mul-add, mul-mod_left, div-add-mod', lt_of_mul-lt-mul_right,
  mul-le-mul_right, add-mod, mod-mod, zero-mod,
}
use foyer.Storage.Format.{align_up, align_down}

pub align_up-IsAligned : (a v : ℕ) → align_up a v % a ≡ 0
unfolding align_up
align_up-IsAligned a v = mul-mod_left (wrapping_sub (wrapping_add v a) 1 / a) a

-- Without a wrap-around.
align_up_lem : (a v : ℕ) → 0 < a → v + a < usize_mod → align_up a v ≡ (v + a - 1) / a * a
unfolding align_up wrapping_add wrapping_sub
align_up_lem a v pos fits =
    let e : ((v + a) % usize_mod + usize_mod - 1) % usize_mod ≡ v + a - 1 =
      omega (arith, pos, fits) in
    ap (λ t. t / a * a) e

pub align_up-ge : (a v : ℕ) → 0 < a → v + a < usize_mod → v ≤ align_up a v
align_up-ge a v pos fits =
    omega (arith, pos, align_up_lem a v pos fits, lt-div-mul-add {a = v + a - 1} pos)

-- It is the least aligned number that is as large.
pub align_up-least : (a v n : ℕ) → 0 < a → v + a < usize_mod → v ≤ n → n % a ≡ 0 → align_up a v ≤ n
align_up-least a v n pos fits l e =
    let q = (v + a - 1) / a in
    let k = n / a in
    let en : k * a ≡ n = omega (arith, e, div-add-mod' n a) in
    let below : q * a < suc k * a = omega (arith, pos, l, en, div-mul-le_self (v + a - 1) a) in
    let b : q < suc k = lt_of_mul-lt-mul_right a below in
    let c : q * a ≤ k * a = mul-le-mul_right a (omega (arith, b)) in
    omega (arith, c, en, align_up_lem a v pos fits)

pub sum-IsAligned : (a m n : ℕ) → m % a ≡ 0 → n % a ≡ 0 → (m + n) % a ≡ 0
sum-IsAligned a m n em en = add-mod m n a ∙ rw (em, en) (zero-mod a)

pub difference-IsAligned : (a m n : ℕ) → m ≤ n → m % a ≡ 0 → n % a ≡ 0 → (n - m) % a ≡ 0
difference-IsAligned a m n l em en =
    let none_left : ((n - m) % a + 0) ≡ (n - m) % a = omega arith in
    let whole : n - m + m ≡ n = omega (arith, l) in
    let sum : (n - m + m) % a ≡ ((n - m) % a + m % a) % a = add-mod (n - m) m a in
    sym (mod-mod (n - m) a)
    ∙ ap (λ t. t % a) (sym none_left)
    ∙ ap (λ t. ((n - m) % a + t) % a) (sym em)
    ∙ sym sum
    ∙ ap (λ t. t % a) whole
    ∙ en

pub align_down-le : (a v : ℕ) → align_down a v ≤ v
unfolding align_down
align_down-le a v = div-mul-le_self v a

pub align_down-greatest : (a v n : ℕ) → 0 < a → n ≤ v → n % a ≡ 0 → n ≤ align_down a v
unfolding align_down
align_down-greatest a v n pos l e =
    let q = v / a in
    let k = n / a in
    let en : k * a ≡ n = omega (arith, e, div-add-mod' n a) in
    let below : k * a < suc q * a = omega (arith, l, en, lt-div-mul-add {a = v} pos) in
    let b : k < suc q = lt_of_mul-lt-mul_right a below in
    let c : k * a ≤ q * a = mul-le-mul_right a (omega (arith, b)) in omega (arith, c, en)
