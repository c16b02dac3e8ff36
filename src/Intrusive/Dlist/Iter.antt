-- ===== src/Intrusive/Dlist/Iter.antt =====
-- foyer-intrusive/src/collections/dlist.rs: the iterators, the operations through them, and those
-- of the list that stand on them. `DlistIter` is `DlistIterMut` without the operations that write.
use foyer.Prelude.{
  ℕ, zero, suc, Bool, true, false, Option, none, some, List, [], ◌∷◌, if◌then◌else◌, ◌>>=◌,
  wrapping_add, wrapping_sub,
}
use foyer.Intrusive.Dlist.{Dlist, Links, set, same, set_next, set_prev, is_empty}

-- The list that `dlist` borrows is held by value.
pub record DlistIterMut : Type 0 where
  pub link : Option ℕ
  pub dlist : Dlist

unfoldable pub iter_mut : Dlist → DlistIterMut
iter_mut d = record { link = none; dlist = d }

unfoldable pub iter_mut_from_raw : ℕ → Dlist → DlistIterMut
iter_mut_from_raw p d = record { link = some p; dlist = d }

unfoldable pub is_valid : DlistIterMut → Bool
is_valid it = elim it.link [ none ↦ false | some _ ↦ true ]

unfoldable pub next : DlistIterMut → Links → DlistIterMut
next it s = record it { link = elim it.link [ none ↦ it.dlist.head | some p ↦ (s p).next ] }

unfoldable pub prev : DlistIterMut → Links → DlistIterMut
prev it s = record it { link = elim it.link [ none ↦ it.dlist.tail | some p ↦ (s p).prev ] }

unfoldable pub to_front : DlistIterMut → DlistIterMut
to_front it = record it { link = it.dlist.head }

unfoldable pub to_back : DlistIterMut → DlistIterMut
to_back it = record it { link = it.dlist.tail }

unfoldable pub is_front : DlistIterMut → Bool
is_front it = same it.link it.dlist.head

unfoldable pub is_back : DlistIterMut → Bool
is_back it = same it.link it.dlist.tail

-- What is left of the list when the link `p` between `before` and `after` goes.
unfoldable pub unlink : ℕ → Option ℕ → Option ℕ → Dlist → Dlist
unlink p before after d = record {
  head = if same (some p) d.head then after else d.head;
  tail = if same (some p) d.tail then before else d.tail;
  len = wrapping_sub d.len 1;
}

unfoldable pub clear_link : ℕ → Links → Links
clear_link p s = set p (record { prev = none; next = none; is_linked = false }) s

-- The pointer that is taken out, the iterator on the link behind it, and the links.
unfoldable pub remove : DlistIterMut → Links → Option ℕ × DlistIterMut × Links
remove it s = elim it.link [
  | none ↦ (none, it, s)
  | some p ↦ (
    some p,
    record { link = (s p).next; dlist = unlink p (s p).prev (s p).next it.dlist },
    clear_link p (set_prev (s p).next (s p).prev (set_next (s p).prev (s p).next s)),
  )
]

unfoldable pub link_between : ℕ → Option ℕ → Option ℕ → Links → Links
link_between p before after s =
    let s' = set_prev after (some p) (set_next before (some p) s) in
    set p (record (s' p) { prev = before; next = after }) s'

unfoldable pub link_before : ℕ → ℕ → Links → Links
link_before p after s = link_between p (s after).prev (some after) s

unfoldable pub link_after : ℕ → ℕ → Links → Links
link_after p before s = link_between p (some before) (s before).next s

unfoldable pub mark_linked : ℕ → Links → Links
mark_linked p s = set p (record (s p) { is_linked = true }) s

-- `none` is the failed assert that the new link is in no list.
unfoldable pub insert_before : ℕ → DlistIterMut → Links → Option (DlistIterMut × Links)
insert_before p it s =
    if (s p).is_linked
    then none
    else let tail : Option ℕ = elim it.link [ none ↦ some p | some _ ↦ it.dlist.tail ] in
      let s' : Links = elim it.link [
        | none ↦ link_between p it.dlist.tail none s
        | some after ↦ link_before p after s
      ] in
      some (
        record it {
          dlist = record {
            head = if same it.dlist.head it.link then some p else it.dlist.head;
            tail = tail;
            len = wrapping_add it.dlist.len 1;
          };
        },
        mark_linked p s',
      )

unfoldable pub insert_after : ℕ → DlistIterMut → Links → Option (DlistIterMut × Links)
insert_after p it s =
    if (s p).is_linked
    then none
    else let head : Option ℕ = elim it.link [ none ↦ some p | some _ ↦ it.dlist.head ] in
      let s' : Links = elim it.link [
        | none ↦ link_between p none it.dlist.head s
        | some before ↦ link_after p before s
      ] in
      some (
        record it {
          dlist = record {
            head = head;
            tail = if same it.dlist.tail it.link then some p else it.dlist.tail;
            len = wrapping_add it.dlist.len 1;
          };
        },
        mark_linked p s',
      )

unfoldable pub push_front : ℕ → Dlist → Links → Option (Dlist × Links)
push_front p d s = do (it, s') ← insert_after p (iter_mut d) s; some (it.dlist, s')

unfoldable pub push_back : ℕ → Dlist → Links → Option (Dlist × Links)
push_back p d s = do (it, s') ← insert_before p (iter_mut d) s; some (it.dlist, s')

abbrev pub removed : Option ℕ × DlistIterMut × Links → Option ℕ × Dlist × Links
removed (p, it, s) = (p, it.dlist, s)

unfoldable pub pop_front : Dlist → Links → Option ℕ × Dlist × Links
pop_front d s = removed (remove (next (iter_mut d) s) s)

unfoldable pub pop_back : Dlist → Links → Option ℕ × Dlist × Links
pop_back d s = removed (remove (prev (iter_mut d) s) s)

unfoldable pub remove_raw : ℕ → Dlist → Links → Option ℕ × Dlist × Links
remove_raw p d s = removed (remove (iter_mut_from_raw p d) s)

-- The loop of `drop`, on fuel; `none` is fuel that runs out.
unfoldable pub remove_all : ℕ → DlistIterMut → Links → Option (DlistIterMut × Links)
remove_all zero it s = none
remove_all (suc fuel) it s =
    let (_, it', s') = remove it s in
    let rest = remove_all fuel it' s' in if is_valid it then rest else some (it, s)

-- `drop`: `none` is also the failed assert that the list is empty after the loop.
unfoldable pub drop : ℕ → Dlist → Links → Option (Dlist × Links)
drop fuel d s = do
  (it, s') ← remove_all fuel (to_front (iter_mut d)) s
  if is_empty it.dlist then some (it.dlist, s') else none

unfoldable pub collect : Option ℕ → Option (List ℕ) → Option (List ℕ)
collect none rest = some []
collect (some p) rest = do l ← rest; some (p ∷ l)

-- `Iterator::next` until it gives `None`: the items of a `for` loop, on fuel.
unfoldable pub items : ℕ → DlistIterMut → Links → Option (List ℕ)
items zero it s = none
items (suc fuel) it s = collect (next it s).link (items fuel (next it s) s)
