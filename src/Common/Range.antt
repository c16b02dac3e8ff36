-- ===== src/Common/Range.antt =====
-- foyer-common/src/range.rs: the bounds of a range, here over `usize`.
use foyer.Prelude.{
  some-inj, none-ne-some, ℕ, ◌+◌, ◌≤◌, ◌<◌, ◌≡◌, refl, sym, ap, ◌∙◌, ◌↔◌, Bool, true, false, ◌&&◌,
  Option, none, some, arith, ltb, leb, ◌==◌, if◌then◌else◌, ◌>>=◌, usize_mod, wrapping_add,
  wrapping_sub,
}

-- `std::ops::Bound`.
pub data Bound {ℓ} (A : Type ℓ) : Type ℓ where
  included excluded : A → Bound A
  unbounded : Bound A

-- A value of a type with `RangeBounds`: its two bounds.
pub record Bounds {ℓ} (A : Type ℓ) : Type ℓ where
  pub start_bound : Bound A
  pub end_bound : Bound A

-- `std::ops::Range`.
pub record Range : Type 0 where
  pub start : ℕ
  pub end : ℕ

-- `unwrap_or`.
unfoldable pub unwrap_or : Option ℕ → ℕ → ℕ
unwrap_or none d = d
unwrap_or (some a) d = a

unfoldable pub start_of : Bound ℕ → Option ℕ
start_of (included v) = some v
start_of (excluded v) = some (wrapping_add v 1)
start_of unbounded = none

unfoldable pub end_of : Bound ℕ → Option ℕ
end_of (included v) = some (wrapping_add v 1)
end_of (excluded v) = some v
end_of unbounded = none

unfoldable pub start_with_bound : Bounds ℕ → ℕ → ℕ
start_with_bound r bound = unwrap_or (start_of r.start_bound) bound

unfoldable pub end_with_bound : Bounds ℕ → ℕ → ℕ
end_with_bound r bound = unwrap_or (end_of r.end_bound) bound

unfoldable pub bounds : Bounds ℕ → Range → Range
bounds r range = record { start = start_with_bound r range.start; end = end_with_bound r range.end }

unfoldable pub size : Bounds ℕ → Option ℕ
size r = do start ← start_of r.start_bound; end ← end_of r.end_bound; some (wrapping_sub end start)

unfoldable pub is_empty : Bounds ℕ → Bool
is_empty r = elim (size r) [ none ↦ false | some len ↦ len == 0 ]

abbrev pub is_unbounded {ℓ} : {A : Type ℓ} → Bound A → Bool
is_unbounded (included v) = false
is_unbounded (excluded v) = false
is_unbounded unbounded = true

unfoldable pub is_full : Bounds ℕ → Bool
is_full r = is_unbounded r.start_bound && is_unbounded r.end_bound

unfoldable pub map_bound {ℓ κ} : {A : Type ℓ} {B : Type κ} → (A → B) → Bound A → Bound B
map_bound f (included v) = included (f v)
map_bound f (excluded v) = excluded (f v)
map_bound f unbounded = unbounded

unfoldable pub map_bounds {ℓ κ} : {A : Type ℓ} {B : Type κ} → (A → B) → Bounds A → Bounds B
map_bounds f r = record {
  start_bound = map_bound f r.start_bound;
  end_bound = map_bound f r.end_bound;
}

-- Membership, as `RangeBounds::contains` defines it.
abbrev pub above : Bound ℕ → ℕ → Bool
above (included v) x = leb v x
above (excluded v) x = ltb v x
above unbounded x = true

abbrev pub below : Bound ℕ → ℕ → Bool
below (included v) x = leb x v
below (excluded v) x = ltb x v
below unbounded x = true

-- No bound is the greatest number of its type, whose successor overflows.
abbrev pub fits : Bound ℕ → Bool
fits (included v) = ltb (v + 1) usize_mod
fits (excluded v) = ltb (v + 1) usize_mod
fits unbounded = true

start_lem :
    (b : Bound ℕ) (d x : ℕ)
    → fits b ≡ true
    → leb (unwrap_or (start_of b) d) x ≡ (if is_unbounded b then leb d x else above b x)
unfolding unwrap_or start_of wrapping_add
start_lem (included v) d x f = refl
start_lem (excluded v) d x f = ground (arith, f)
start_lem unbounded d x f = refl

end_lem :
    (b : Bound ℕ) (d x : ℕ)
    → fits b ≡ true
    → ltb x (unwrap_or (end_of b) d) ≡ (if is_unbounded b then ltb x d else below b x)
unfolding unwrap_or end_of wrapping_add
end_lem (included v) d x f = ground (arith, f)
end_lem (excluded v) d x f = refl
end_lem unbounded d x f = refl

-- The half-open range that `bounds` makes of a range of any kind inside an enclosing one has
-- exactly the numbers that the bounds admit, where those of the enclosing range stand in for a
-- bound that is missing; no bound may be the greatest `usize`, whose successor wraps.
pub bounds-below :
    (r : Bounds ℕ) (range : Range) (x : ℕ)
    → fits r.start_bound ≡ true
    → fits r.end_bound ≡ true
    → (leb (bounds r range).start x && ltb x (bounds r range).end) ≡ (
        (if is_unbounded r.start_bound then leb range.start x else above r.start_bound x)
        && (if is_unbounded r.end_bound then ltb x range.end else below r.end_bound x))
unfolding bounds start_with_bound end_with_bound
bounds-below r range x f g =
    ap (λ b. b && ltb x (end_with_bound r range.end)) (start_lem r.start_bound range.start x f)
    ∙ ap
        (λ b.
          (if is_unbounded r.start_bound then leb range.start x else above r.start_bound x) && b)
        (end_lem r.end_bound range.end x g)

from_start : (c : Bound ℕ) (a x : ℕ) → fits c ≡ true → start_of c ≡ some a → above c x ≡ leb a x
unfolding start_of wrapping_add
from_start (included v) a x f e = ap (λ n. leb n x) (some-inj e)
from_start (excluded v) a x f e = ground (arith, f, e)
from_start unbounded a x f e = absurd (none-ne-some e)

to_end : (c : Bound ℕ) (b x : ℕ) → fits c ≡ true → end_of c ≡ some b → below c x ≡ ltb x b
unfolding end_of wrapping_add
to_end (included v) b x f e = ground (arith, f, e)
to_end (excluded v) b x f e = ap (λ n. ltb x n) (some-inj e)
to_end unbounded b x f e = absurd (none-ne-some e)

-- A number that both bounds admit lies between the start and the end.
inside_lem :
    (r : Bounds ℕ) (a b x : ℕ)
    → fits r.start_bound ≡ true
    → fits r.end_bound ≡ true
    → start_of r.start_bound ≡ some a
    → end_of r.end_bound ≡ some b
    → (above r.start_bound x && below r.end_bound x) ≡ (leb a x && ltb x b)
inside_lem r a b x f g e h =
    ap (λ c. c && below r.end_bound x) (from_start r.start_bound a x f e)
    ∙ ap (λ c. leb a x && c) (to_end r.end_bound b x g h)

size_lem :
    (c d : Bound ℕ) (a b : ℕ)
    → start_of c ≡ some a
    → end_of d ≡ some b
    → size (record { start_bound = c; end_bound = d }) ≡ some (wrapping_sub b a)
unfolding size
size_lem c d a b e h =
    ap (λ s. s >>= λ start. end_of d >>= λ end. some (wrapping_sub end start)) e
    ∙ ap (λ s. s >>= λ end. some (wrapping_sub end a)) h

is_empty_lem :
    (r : Bounds ℕ) (a b : ℕ)
    → start_of r.start_bound ≡ some a
    → end_of r.end_bound ≡ some b
    → is_empty r ≡ (wrapping_sub b a == 0)
unfolding is_empty
is_empty_lem r a b e h =
    ap (λ s. elim s as (λ x. Bool) [ none ↦ false | some len ↦ len == 0 ])
      (size_lem r.start_bound r.end_bound a b e h)

-- A range with both bounds, neither of them the greatest `usize`, whose start is not past its end,
-- is empty exactly if no number is within its bounds.
pub is_empty_iff :
    (r : Bounds ℕ) (a b : ℕ)
    → fits r.start_bound ≡ true
    → fits r.end_bound ≡ true
    → start_of r.start_bound ≡ some a
    → end_of r.end_bound ≡ some b
    → a ≤ b
    → b < usize_mod
    → (is_empty r ≡ true) ↔ ((x : ℕ) → (above r.start_bound x && below r.end_bound x) ≡ false)
unfolding wrapping_sub
is_empty_iff r a b f g e h order word = (
  (λ empty x.
      let width = sym (is_empty_lem r a b e h) ∙ empty in
      inside_lem r a b x f g e h ∙ ground (arith, width, order, word)),
  (λ none_in.
      let at_start = sym (inside_lem r a b a f g e h) ∙ none_in a in
      is_empty_lem r a b e h ∙ ground (arith, at_start, order, word)),
)
