-- ===== src/Prelude.antt =====
-- The names that every module shares: the libraries', passed on, and the helpers of three children.
mod Tests
mod Word
mod Lists
pub use Tests.*
unfoldable pub use Word.{wrapping_add, wrapping_sub}
pub use Word.{usize_mod, wrapping_add_fits, wrapping_add-mod, wrapping_sub-mod}
unfoldable pub use Lists.{contains, erase, sum_by}
pub use Lists.{length, length-append, IsDistinct, contains-snoc, contains-append}
pub use Lists.{contains-erase, IsDistinct-snoc, IsDistinct-erase}
pub use Lists.{sum_by-snoc, sum_by-erase, sum_by_cong}
pub use Prim.Native.Nat.{ℕ, zero, suc, ◌+◌, ◌-◌, ◌*◌, ◌/◌, ◌%◌, ◌^◌, ◌≤◌, ◌<◌, min}
pub use mathlib.Core.Path.{◌≡◌, refl, sym, ap, subst, ◌∙◌, fun_ext}
pub use mathlib.Core.Logic.{◌≢◌, ◌↔◌, ◌⊎◌, inl, inr}
pub use mathlib.Core.Bool.{Bool, true, false, not, ◌&&◌, ◌||◌}
pub use mathlib.Core.Option.{Option, none, some}
pub use mathlib.Core.List.{List, [], ◌∷◌, ◌++◌, map}
pub use native.Mathlib.Omega.{arith}
