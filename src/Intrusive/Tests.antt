-- ===== src/Intrusive/Tests.antt =====
-- Lists of two links in a memory of three, for foyer-intrusive/src/collections/dlist.rs.
use foyer.Prelude.{
  ℕ, ◌≡◌, refl, true, none, some, List, [], ◌∷◌, arith, ◌==◌, if◌then◌else◌, contains, erase,
}
use foyer.Memory.Queue
use foyer.Intrusive.Dlist.{same, Dlist, Links, default_link, new, replace_with}
use foyer.Intrusive.Dlist.Iter.{iter_mut, insert_before, insert_after, remove, push_back, drop}
use foyer.Intrusive.Dlist.Segment.{first, last, Segment}
use foyer.Intrusive.Dlist.Represents.{Represents, of_list, new-Represents}
use foyer.Intrusive.Dlist.Insert.{Inserts, insert_before-Inserts, insert_after-Inserts}
use foyer.Intrusive.Dlist.Remove.{Unlinks, remove-Unlinks}
use foyer.Intrusive.Dlist.Traverse.{Drops, drop-Drops}
use foyer.Intrusive.Dlist.Refinement
use foyer.Intrusive.Dlist.Refinement.{
  DlistOp, op_push_back, op_push_front, op_pop_front, op_pop_back, op_remove_raw, run, list_run,
  list_step, Owns, run-refines,
}

abbrev fresh : Links
fresh q = default_link

-- 3 and 5 are in the list.
abbrev two_links : Links
two_links q =
    if q == 3
    then record { prev = none; next = some 5; is_linked = true }
    else if q == 5
    then record { prev = some 3; next = none; is_linked = true }
    else default_link

abbrev two : List ℕ
two = 3 ∷ 5 ∷ []

two-Represents : Represents two_links (of_list two) two
unfolding first last Segment contains
two-Represents = record {
  head = refl;
  tail = refl;
  len = refl;
  bounded = omega arith;
  chain = (refl, refl, refl, (refl, refl, refl, tt));
  distinct = (refl, (refl, tt));
}

insert_before_example :
    (d : Dlist) × (s : Links) × (insert_before 7
        (record { link = some 5; dlist = of_list two })
        two_links
      ≡ some (record { link = some 5; dlist = d }, s))
    × Inserts two_links 7 (3 ∷ []) (5 ∷ []) d s
unfolding first
insert_before_example =
    insert_before-Inserts 7 (record { link = some 5; dlist = of_list two }) two_links (3 ∷ [])
      (5 ∷ []) refl two-Represents refl (omega arith)

insert_after_example :
    (d : Dlist) × (s : Links) × (insert_after 7
        (record { link = some 5; dlist = of_list two })
        two_links
      ≡ some (record { link = some 5; dlist = d }, s))
    × Inserts two_links 7 two [] d s
unfolding last
insert_after_example =
    insert_after-Inserts 7 (record { link = some 5; dlist = of_list two }) two_links two [] refl
      two-Represents refl (omega arith)

remove_example :
    (d : Dlist) × (s : Links) × (remove (record { link = some 3; dlist = of_list two }) two_links
      ≡ (some 3, record { link = some 5; dlist = d }, s))
    × Unlinks two_links 3 [] (5 ∷ []) d s
unfolding first
remove_example =
    remove-Unlinks 3 (record { link = some 3; dlist = of_list two }) two_links [] (5 ∷ []) refl
      two-Represents

drop_example :
    (d : Dlist) × (s : Links) × (drop 3 (of_list two) two_links ≡ some (d, s))
    × Drops two_links two d s
drop_example = drop-Drops two_links (of_list two) two two-Represents

new-Owns : Owns fresh new []
unfolding contains
new-Owns = record { represents = new-Represents fresh; marked = λ q. refl }

abbrev ops : List DlistOp
ops = op_push_back 3 ∷ op_push_front 5 ∷ op_push_back 4 ∷ op_remove_raw 3 ∷ op_pop_back ∷ []

run_example :
    (d : Dlist) × (s : Links) × (run ops new fresh
      ≡ some (none ∷ none ∷ none ∷ some 3 ∷ some 4 ∷ [], d, s))
    × Owns s d (5 ∷ [])
unfolding list_run list_step contains Refinement.pop_last erase Queue.remove_raw
run_example =
    run-refines ops new fresh [] (5 ∷ []) (none ∷ none ∷ none ∷ some 3 ∷ some 4 ∷ []) new-Owns
      (omega arith) refl

-- A link that is in a list is refused.
push_linked : push_back 3 (of_list two) two_links ≡ none
unfolding push_back insert_before iter_mut
push_linked = refl

-- `replace_with` moves the list into an empty one.
replace_test : replace_with new (of_list two) ≡ some (of_list two, of_list [])
unfolding replace_with new same first last
replace_test = refl
