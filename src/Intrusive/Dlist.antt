-- ===== src/Intrusive/Dlist.antt =====
-- foyer-intrusive/src/collections/dlist.rs: the intrusive doubly linked list. A link is named by
-- its address; the adapter's `link2item` and `item2link` only shift an address, so that an item,
-- its pointer and its link have one name. `Links` is the memory that holds the links of every list.
pub mod Iter
pub mod Segment
pub mod Represents
pub mod Ends
pub mod Insert
pub mod Remove
pub mod Traverse
pub mod Refinement
use foyer.Prelude.{ℕ, Bool, true, false, ◌&&◌, Option, none, some, ◌==◌, if◌then◌else◌}

pub record DlistLink : Type 0 where
  pub prev : Option ℕ
  pub next : Option ℕ
  pub is_linked : Bool

abbrev pub Links : Type 0
Links = ℕ → DlistLink

-- `#[derive(Default)]`
abbrev pub default_link : DlistLink
default_link = record { prev = none; next = none; is_linked = false }

-- A write to the link at `p`.
unfoldable pub set : ℕ → DlistLink → Links → Links
set p link s q = if q == p then link else s q

-- The fields of `Dlist`, its adapter aside.
pub record Dlist : Type 0 where
  pub head : Option ℕ
  pub tail : Option ℕ
  pub len : ℕ

unfoldable pub new : Dlist
new = record { head = none; tail = none; len = 0 }

-- `==` on `Option<NonNull<DlistLink>>`
unfoldable pub same : Option ℕ → Option ℕ → Bool
same none none = true
same (some p) (some q) = p == q
same none (some q) = false
same (some p) none = false

-- `front` and `front_mut`, `back` and `back_mut`
unfoldable pub front : Dlist → Option ℕ
front d = d.head

unfoldable pub back : Dlist → Option ℕ
back d = d.tail

unfoldable pub is_empty : Dlist → Bool
is_empty d = d.len == 0

-- `if let Some(prev) = &mut prev { prev.as_mut().next = ... }`
unfoldable pub set_next : Option ℕ → Option ℕ → Links → Links
set_next none v s = s
set_next (some p) v s = set p (record (s p) { next = v }) s

unfoldable pub set_prev : Option ℕ → Option ℕ → Links → Links
set_prev none v s = s
set_prev (some p) v s = set p (record (s p) { prev = v }) s

-- `prev_of_raw` and `next_of_raw`, with their mutable forms
unfoldable pub prev_of_raw : ℕ → Links → Option ℕ
prev_of_raw p s = (s p).prev

unfoldable pub next_of_raw : ℕ → Links → Option ℕ
next_of_raw p s = (s p).next

-- The asserts of `replace_with` are `none`; the second list of the result is `src`.
unfoldable pub replace_with : Dlist → Dlist → Option (Dlist × Dlist)
replace_with d src =
    if same d.head none && same d.tail none && d.len == 0
    then some (
      record { head = src.head; tail = src.tail; len = src.len },
      record { head = none; tail = none; len = 0 },
    )
    else none
