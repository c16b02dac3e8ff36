-- ===== src/Common/Tests.antt =====
-- Runs of foyer-common/src/range.rs and batch.rs.
use foyer.Prelude.{
  ℕ, ◌≡◌, refl, ◌↔◌, true, false, ◌&&◌, arith, ltb, leb, if◌then◌else◌, wrapping_add,
}
use foyer.Common.Batch.{Batch}
use foyer.Prelude.{List, [], ◌∷◌}
use foyer.Common.Range.{
  included, excluded, unbounded, Bounds, Range, bounds, is_empty, is_unbounded, above, below,
  start_of, end_of, bounds-below, is_empty_iff,
}

-- `(3, ..)` inside `0..10`.
abbrev after_three : Bounds ℕ
after_three = record { start_bound = excluded 3; end_bound = unbounded }

abbrev ten : Range
ten = record { start = 0; end = 10 }

bounds-below_example :
    (leb (bounds after_three ten).start 4 && ltb 4 (bounds after_three ten).end) ≡ (
      (if is_unbounded after_three.start_bound then leb 0 4 else above after_three.start_bound 4)
      && (if is_unbounded after_three.end_bound then ltb 4 10 else below after_three.end_bound 4))
bounds-below_example = bounds-below after_three ten 4 refl refl

-- `4..=5`.
abbrev four_five : Bounds ℕ
four_five = record { start_bound = included 4; end_bound = included 5 }

is_empty_iff_example :
    (is_empty four_five ≡ true)
    ↔ ((x : ℕ) → (above four_five.start_bound x && below four_five.end_bound x) ≡ false)
is_empty_iff_example =
    is_empty_iff four_five 4 6 refl refl (unfold start_of in refl)
      (unfold end_of wrapping_add in refl) (omega arith) (omega arith)

abbrev idle : Batch ℕ
idle = record { queue = []; next = 5 }

abbrev jobs : List ℕ
jobs = 8 ∷ 9 ∷ []
