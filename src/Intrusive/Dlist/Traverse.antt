-- ===== src/Intrusive/Dlist/Traverse.antt =====
-- foyer-intrusive/src/collections/dlist.rs: the walks along a list, and `drop`.
use foyer.Prelude.{
  ℕ, suc, ◌≡◌, refl, sym, ap, subst, ◌∙◌, inl, inr, true, none, some, List, [], ◌∷◌, ◌++◌, arith,
  ◌==◌, ==_iff, Bool-cases, contains, length,
}
use mathlib.Core.List.{append_assoc}
use foyer.Intrusive.Dlist.{Dlist, Links, is_empty, default_link}
use foyer.Intrusive.Dlist.Iter.{
  DlistIterMut, iter_mut, to_front, is_valid, next, prev, remove_all, drop, collect, items,
}
use foyer.Intrusive.Dlist.Segment.{first, last, Segment, Segment-append, next_of_last}
use foyer.Intrusive.Dlist.Ends.{last-Inside, last-append}
use foyer.Intrusive.Dlist.Remove.{remove-Unlinks}
use foyer.Intrusive.Dlist.Represents.{Represents, SameOutside}

pub next-step :
    (s : Links) (l l' : List ℕ) (it : DlistIterMut)
    → Represents s it.dlist (l ++ l')
    → it.link ≡ last none l
    → next it s ≡ record it { link = first l' none }
unfolding next last
next-step s [] l' it r at = rw (at, r.head) refl
next-step s (q ∷ l) l' it r at =
    let (p, e, _) = last-Inside q l in
    let chain = (Segment-append s none (q ∷ l) l' none r.chain).0 in
    rw (at, e, next_of_last s none q l (first l' none) p chain e) refl

pub prev-step :
    (s : Links) (l l' : List ℕ) (it : DlistIterMut)
    → Represents s it.dlist (l ++ l')
    → it.link ≡ first l' none
    → prev it s ≡ record it { link = last none l }
unfolding prev first last Segment
prev-step s l [] it r at = rw (at, r.tail, last-append l [] none) refl
prev-step s l (q ∷ l') it r at = rw (at, (Segment-append s none l (q ∷ l') none r.chain).1.0) refl

-- From the place between `l` and `l'` a walk gives the links of `l'` in order.
pub items-rest :
    (s : Links) (l l' : List ℕ) (it : DlistIterMut)
    → Represents s it.dlist (l ++ l')
    → it.link ≡ last none l
    → items (suc (length l')) it s ≡ some l'
unfolding items collect first last
items-rest s l [] it r at = rw (items, next-step s l [] it r at) refl
items-rest s l (p ∷ l') it r at =
    let it' = record it { link = some p } in
    let e : (l ++ p ∷ []) ++ l' ≡ l ++ p ∷ l' = append_assoc l (p ∷ []) l' in
    let rest =
      items-rest s (l ++ p ∷ []) l' it' (subst (Represents s it.dlist) (sym e) r)
        (sym (last-append l (p ∷ []) none)) in
    rw (items, next-step s l (p ∷ l') it r at, rest) refl

-- The loop of `drop` from the front.
pub record Drops (s : Links) (l : List ℕ) (d : Dlist) (s' : Links) : Type 0 where
  pub represents : Represents s' d []
  pub cleared : (q : ℕ) → contains l q ≡ true → s' q ≡ default_link
  pub elsewhere : SameOutside l s s'

remove_all-Drops :
    (s : Links) (l : List ℕ) (it : DlistIterMut)
    → Represents s it.dlist l
    → it.link ≡ first l none
    → (d : Dlist) × (s' : Links) × (remove_all (suc (length l)) it s
        ≡ some (record { link = none; dlist = d }, s'))
      × Drops s l d s'
unfolding remove_all is_valid first contains
remove_all-Drops s [] it r at = (
  it.dlist,
  s,
  rw at refl,
  record { represents = r; cleared = λ q i. ground (arith, i); elsewhere = λ q out. refl },
)
remove_all-Drops s (p ∷ l) it r at =
    let (d, s1, e, i) = remove-Unlinks p it s [] l at r in
    let (d', s', e', i') =
      remove_all-Drops s1 l (record { link = first l none; dlist = d }) i.represents refl in
    (
      d',
      s',
      rw (e, at) e',
      record {
        represents = i'.represents;
        cleared = λ q j. elim (Bool-cases (q == p)) [
          | inl h ↦
              let eq = (==_iff q p).0 h in
              i'.elsewhere q (rw eq r.distinct.0) ∙ ap s1 eq ∙ i.cleared
          | inr h ↦ i'.cleared q (ground (arith, j, h))
        ];
        elsewhere = λ q out. i'.elsewhere q (ground (arith, out)) ∙ i.elsewhere q out;
      },
    )

-- `drop` ends: as many turns as the list has links, and one more, are enough.
pub drop-Drops :
    (s : Links) (d : Dlist) (l : List ℕ)
    → Represents s d l
    → (d' : Dlist) × (s' : Links) × (drop (suc (length l)) d s ≡ some (d', s')) × Drops s l d' s'
unfolding drop to_front iter_mut is_empty
drop-Drops s d l r =
    let (d', s', e, i) = remove_all-Drops s l (to_front (iter_mut d)) r r.head in
    (d', s', rw (e, i.represents.len) refl, i)

-- Walking the whole list gives it.
pub items-list :
    (s : Links) (d : Dlist) (l : List ℕ)
    → Represents s d l
    → items (suc (length l)) (iter_mut d) s ≡ some l
unfolding iter_mut last
items-list s d l r = items-rest s [] l (iter_mut d) r refl

-- A step back undoes a step forward.
pub prev-next :
    (s : Links) (l l' : List ℕ) (it : DlistIterMut)
    → Represents s it.dlist (l ++ l')
    → it.link ≡ last none l
    → prev (next it s) s ≡ it
prev-next s l l' it r at =
    rw
      (
        next-step s l l' it r at,
        prev-step s l l' (record it { link = first l' none }) r refl,
        sym at,
      )
      refl
