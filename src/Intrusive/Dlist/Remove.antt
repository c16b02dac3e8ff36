-- ===== src/Intrusive/Dlist/Remove.antt =====
-- foyer-intrusive/src/collections/dlist.rs: the removals refine those from a list of addresses.
use foyer.Prelude.{
  ℕ, ◌<◌, ◌≡◌, refl, sym, subst, ◌∙◌, true, false, Option, none, some, List, [], ◌∷◌, ◌++◌, arith,
  ◌==◌, ==_refl, usize_mod, wrapping_sub, contains, length, length-append, IsDistinct,
  contains-append,
}
use foyer.Intrusive.Dlist.{Dlist, Links, set, set_next, set_prev, default_link}
use foyer.Intrusive.Dlist.Iter.{
  DlistIterMut, iter_mut, iter_mut_from_raw, next, prev, unlink, clear_link, remove, pop_front,
  pop_back, remove_raw,
}
use foyer.Intrusive.Dlist.Segment.{
  first, last, Segment, Segment-cong, Segment-append, Segment-join, Segment-set_next,
  Segment-set_prev, set_next-Avoids, set_prev-Avoids, set-other, ne_of_contains, Avoids, Apart,
  Apart-sym, first-Avoids, last-Avoids,
}
use foyer.Intrusive.Dlist.Ends.{first-remove, last-remove, last-append}
use foyer.Intrusive.Dlist.Represents.{
  Represents, of_list, of_list_eq, of_list-Represents, SameOutside, IsDistinct-append,
  IsDistinct-join,
}

IsDistinct-remove :
    (p : ℕ) (l l' : List ℕ)
    → IsDistinct (l ++ p ∷ l')
    → IsDistinct (l ++ l') × (contains l p ≡ false) × (contains l' p ≡ false)
unfolding contains
IsDistinct-remove p l l' d =
    let parts = IsDistinct-append l (p ∷ l') d in
    let out = Apart-sym l (p ∷ l') parts.2 in
    (
      IsDistinct-join l l' parts.0 parts.1.1 λ q i. ground (arith, parts.2 q i),
      out p (ground arith),
      parts.1.0,
    )

module _ (p : ℕ) (s : Links) where
  unfoldable unlinked : Option ℕ → Option ℕ → Links
  unlinked before after = clear_link p (set_prev after before (set_next before after s))

  unlinked-other :
      (before after : Option ℕ) (q : ℕ)
      → (q == p) ≡ false
      → unlinked before after q ≡ set_prev after before (set_next before after s) q
  unfolding unlinked clear_link
  unlinked-other before after q h =
      set-other p q default_link (set_prev after before (set_next before after s)) h

  unlinked-old : (before after : Option ℕ) → unlinked before after p ≡ default_link
  unfolding unlinked clear_link set
  unlinked-old before after = rw (==_refl p) refl

  module _ (l l' : List ℕ) (d : IsDistinct (l ++ p ∷ l')) where
    unlinked-Segment :
        Segment s none (l ++ p ∷ l') none
        → Segment (unlinked (last none l) (first l' none)) none (l ++ l') none
    unfolding Segment Avoids first
    unlinked-Segment h =
        let before = last none l in
        let after = first l' none in
        let (_, out, out') = IsDistinct-remove p l l' d in
        let parts = IsDistinct-append l l' (IsDistinct-remove p l l' d).0 in
        let chains = Segment-append s none l (p ∷ l') none h in
        let s1 = set_next before after s in
        let s2 = set_prev after before s1 in
        let s3 = unlinked before after in
        let avoids = last-Avoids l none l' tt parts.2 in
        let avoids' = first-Avoids l' none l tt (Apart-sym l l' parts.2) in
        let front1 : Segment s1 none l after =
          Segment-set_next s none l (some p) after parts.0 chains.0 in
        let back1 : Segment s1 (some p) l' none =
          Segment-cong s s1 (some p) l' none (set_next-Avoids before after s l' avoids)
            chains.1.3 in
        let front2 : Segment s2 none l after =
          Segment-cong s1 s2 none l after (set_prev-Avoids after before s1 l avoids') front1 in
        let back2 : Segment s2 before l' none =
          Segment-set_prev s1 (some p) l' none before parts.1 back1 in
        let front3 : Segment s3 none l after =
          Segment-cong s2 s3 none l after
            (λ q i. unlinked-other before after q (ne_of_contains l p q out i)) front2 in
        let back3 : Segment s3 before l' none =
          Segment-cong s2 s3 before l' none
            (λ q i. unlinked-other before after q (ne_of_contains l' p q out' i)) back2 in
        Segment-join s3 none l l' none front3 back3

    unlinked-elsewhere : SameOutside (l ++ p ∷ l') s (unlinked (last none l) (first l' none))
    unfolding contains Avoids
    unlinked-elsewhere q out =
        let before = last none l in
        let after = first l' none in
        let e = contains-append l (p ∷ l') q in
        let apart : Apart l (q ∷ []) =
          λ r i. ground (arith, ne_of_contains l q r (ground (arith, out, e)) i) in
        let apart' : Apart l' (q ∷ []) =
          λ r i. ground (arith, ne_of_contains l' q r (ground (arith, out, e)) i) in
        let same : contains (q ∷ []) q ≡ true = ground (arith, ==_refl q) in
        unlinked-other before after q (ground (arith, out, e))
        ∙ set_prev-Avoids after before (set_next before after s) (q ∷ [])
            (first-Avoids l' none (q ∷ []) tt apart') q same
        ∙ set_next-Avoids before after s (q ∷ []) (last-Avoids l none (q ∷ []) tt apart) q same

    remove-step :
        Segment s none (l ++ p ∷ l') none
        → length (l ++ p ∷ l') < usize_mod
        → remove (record { link = some p; dlist = of_list (l ++ p ∷ l') }) s ≡ (
          some p,
          record { link = first l' none; dlist = of_list (l ++ l') },
          unlinked (last none l) (first l' none),
        )
    unfolding remove unlink unlinked Segment wrapping_sub
    remove-step h b =
        let at = (Segment-append s none l (p ∷ l') none h).1 in
        let len : wrapping_sub (length (l ++ p ∷ l')) 1 ≡ length (l ++ l') =
          omega (arith, b, length-append l l', length-append l (p ∷ l')) in
        rw (at.0, at.1, first-remove p l l' d, last-remove p l l' d, len) refl

-- The links after `p` went out of `l ++ p ∷ l'`: `p` is as new, and no other list is written to.
pub record Unlinks (s : Links) (p : ℕ) (l l' : List ℕ) (d : Dlist) (s' : Links) : Type 0 where
  pub represents : Represents s' d (l ++ l')
  pub cleared : s' p ≡ default_link
  pub elsewhere : SameOutside (l ++ p ∷ l') s s'

-- `remove` of an iterator that is on a link gives that link's pointer, takes it out of the list
-- and moves to the link behind it.
pub remove-Unlinks :
    (p : ℕ) (it : DlistIterMut) (s : Links) (l l' : List ℕ)
    → it.link ≡ some p
    → Represents s it.dlist (l ++ p ∷ l')
    → (d : Dlist) × (s' : Links) × (remove it s
        ≡ (some p, record { link = first l' none; dlist = d }, s'))
      × Unlinks s p l l' d s'
remove-Unlinks p it s l l' at r = (
  of_list (l ++ l'),
  unlinked p s (last none l) (first l' none),
  rw (at, of_list_eq s it.dlist (l ++ p ∷ l') r)
      (remove-step p s l l' r.distinct r.chain r.bounded),
  record {
    represents =
        of_list-Represents (unlinked p s (last none l) (first l' none)) (l ++ l')
          (omega (arith, r.bounded, length-append l l', length-append l (p ∷ l')))
          (unlinked-Segment p s l l' r.distinct r.chain) (IsDistinct-remove p l l' r.distinct).0;
    cleared = unlinked-old p s (last none l) (first l' none);
    elsewhere = unlinked-elsewhere p s l l' r.distinct;
  },
)

pub pop_front-Unlinks :
    (p : ℕ) (d : Dlist) (s : Links) (l : List ℕ)
    → Represents s d (p ∷ l)
    → (d' : Dlist) × (s' : Links) × (pop_front d s ≡ (some p, d', s')) × Unlinks s p [] l d' s'
unfolding pop_front iter_mut next first
pop_front-Unlinks p d s l r =
    let (d', s', e, i) = remove-Unlinks p (next (iter_mut d) s) s [] l r.head r in
    (d', s', rw e refl, i)

pub pop_back-Unlinks :
    (p : ℕ) (d : Dlist) (s : Links) (l : List ℕ)
    → Represents s d (l ++ p ∷ [])
    → (d' : Dlist) × (s' : Links) × (pop_back d s ≡ (some p, d', s')) × Unlinks s p l [] d' s'
unfolding pop_back iter_mut prev last
pop_back-Unlinks p d s l r =
    let (d', s', e, i) =
      remove-Unlinks p (prev (iter_mut d) s) s l [] (r.tail ∙ last-append l (p ∷ []) none) r in
    (d', s', rw e refl, i)

pub remove_raw-Unlinks :
    (p : ℕ) (d : Dlist) (s : Links) (l l' : List ℕ)
    → Represents s d (l ++ p ∷ l')
    → (d' : Dlist) × (s' : Links) × (remove_raw p d s ≡ (some p, d', s')) × Unlinks s p l l' d' s'
unfolding remove_raw iter_mut_from_raw
remove_raw-Unlinks p d s l l' r =
    let (d', s', e, i) = remove-Unlinks p (iter_mut_from_raw p d) s l l' refl r in
    (d', s', rw e refl, i)

pub pop_empty :
    (d : Dlist) (s : Links)
    → Represents s d []
    → (pop_front d s ≡ (none, d, s)) × (pop_back d s ≡ (none, d, s))
unfolding pop_front pop_back iter_mut next prev remove first last
pop_empty d s r =
    subst (λ e. (pop_front e s ≡ (none, e, s)) × (pop_back e s ≡ (none, e, s)))
      (sym (of_list_eq s d [] r)) (refl, refl)
