-- ===== src/Intrusive/Dlist/Insert.antt =====
-- foyer-intrusive/src/collections/dlist.rs: the insertions refine those into a list of addresses.
use foyer.Prelude.{
  ℕ, ◌+◌, ◌<◌, ◌≡◌, refl, sym, subst, ◌∙◌, true, false, Option, none, some, List, [], ◌∷◌, ◌++◌,
  arith, ◌==◌, ==_refl, usize_mod, wrapping_add, contains, length, length-append, IsDistinct,
  contains-append,
}
use mathlib.Core.List.{append-nil}
use foyer.Intrusive.Dlist.{Dlist, Links, set, set_next, set_prev}
use foyer.Intrusive.Dlist.Iter.{
  DlistIterMut, iter_mut, link_between, link_before, link_after, mark_linked, insert_before,
  insert_after, push_front, push_back,
}
use foyer.Intrusive.Dlist.Segment.{
  next_of_last, first, last, Segment, Segment-cong, Segment-append, Segment-join, Segment-set_next,
  Segment-set_prev, set_next-Avoids, set_prev-Avoids, set-other, ne_of_contains, Avoids, Apart,
  Apart-sym, first-Avoids, last-Avoids,
}
use foyer.Intrusive.Dlist.Ends.{last-Inside, last-append, first-insert, last-insert}
use foyer.Intrusive.Dlist.Represents.{
  Represents, of_list, of_list_eq, of_list-Represents, SameOutside, not-mem_of_unlinked,
  IsDistinct-append, IsDistinct-join,
}

module _ (p : ℕ) (s : Links) where
  -- The chain after the new link is in.
  unfoldable pub linked : Option ℕ → Option ℕ → Links
  linked before after = mark_linked p (link_between p before after s)

  mark-other : (q : ℕ) (s' : Links) → (q == p) ≡ false → mark_linked p s' q ≡ s' q
  unfolding mark_linked
  mark-other q s' h = set-other p q (record (s' p) { is_linked = true }) s' h

  linked-other :
      (before after : Option ℕ) (q : ℕ)
      → (q == p) ≡ false
      → linked before after q ≡ set_prev after (some p) (set_next before (some p) s) q
  unfolding linked link_between
  linked-other before after q h =
      let s' = set_prev after (some p) (set_next before (some p) s) in
      let link = record (s' p) { prev = before; next = after } in
      mark-other q (set p link s') h ∙ set-other p q link s' h

  linked-new :
      (before after : Option ℕ)
      → linked before after p ≡ record { prev = before; next = after; is_linked = true }
  unfolding linked link_between mark_linked set
  linked-new before after = ground arith

  pub linked-Segment :
      (l l' : List ℕ)
      → IsDistinct (l ++ l')
      → contains (l ++ l') p ≡ false
      → Segment s none (l ++ l') none
      → Segment (linked (last none l) (first l' none)) none (l ++ p ∷ l') none
  unfolding Segment Avoids first
  linked-Segment l l' d out h =
      let before = last none l in
      let after = first l' none in
      let d' = IsDistinct-append l l' d in
      let chains = Segment-append s none l l' none h in
      let outs = contains-append l l' p in
      let s1 = set_next before (some p) s in
      let s2 = set_prev after (some p) s1 in
      let s3 = linked before after in
      let avoids = last-Avoids l none l' tt d'.2 in
      let avoids' = first-Avoids l' none l tt (Apart-sym l l' d'.2) in
      let front1 : Segment s1 none l (some p) =
        Segment-set_next s none l after (some p) d'.0 chains.0 in
      let back1 : Segment s1 before l' none =
        Segment-cong s s1 before l' none (set_next-Avoids before (some p) s l' avoids) chains.1 in
      let front2 : Segment s2 none l (some p) =
        Segment-cong s1 s2 none l (some p) (set_prev-Avoids after (some p) s1 l avoids') front1 in
      let back2 : Segment s2 (some p) l' none =
        Segment-set_prev s1 before l' none (some p) d'.1 back1 in
      let front3 : Segment s3 none l (some p) =
        Segment-cong s2 s3 none l (some p)
          (λ q i. linked-other before after q (ne_of_contains l p q (ground (arith, out, outs)) i))
          front2 in
      let back3 : Segment s3 (some p) l' none =
        Segment-cong s2 s3 (some p) l' none
          (λ q i. linked-other before after q (ne_of_contains l' p q (ground (arith, out, outs)) i))
          back2 in
      let e = linked-new before after in
      Segment-join s3 none l (p ∷ l') none front3 (rw e refl, rw e refl, rw e refl, back3)

-- The links of `l ++ p ∷ l'` after `p` went in, and the links of no other list.
pub record Inserts (s : Links) (p : ℕ) (l l' : List ℕ) (d : Dlist) (s' : Links) : Type 0 where
  pub represents : Represents s' d (l ++ p ∷ l')
  pub elsewhere : SameOutside (l ++ p ∷ l') s s'

IsDistinct-insert :
    (p : ℕ) (l l' : List ℕ)
    → IsDistinct (l ++ l')
    → contains (l ++ l') p ≡ false
    → IsDistinct (l ++ p ∷ l')
unfolding contains
IsDistinct-insert p l l' d out =
    let parts = IsDistinct-append l l' d in
    let e = contains-append l l' p in
    IsDistinct-join l (p ∷ l') parts.0 (ground (arith, e, out), parts.1)
      λ q i. ground (arith, parts.2 q i, ne_of_contains l p q (ground (arith, e, out)) i)

length_insert : (p : ℕ) (l l' : List ℕ) → length (l ++ p ∷ l') ≡ length (l ++ l') + 1
length_insert p l l' = omega (arith, length-append l l', length-append l (p ∷ l'))

module _ (p : ℕ) (s : Links) (l l' : List ℕ) where
  linked-elsewhere : SameOutside (l ++ p ∷ l') s (linked p s (last none l) (first l' none))
  unfolding contains Avoids
  linked-elsewhere q out =
      let before = last none l in
      let after = first l' none in
      let e = contains-append l (p ∷ l') q in
      let apart : Apart l (q ∷ []) =
        λ r i. ground (arith, ne_of_contains l q r (ground (arith, out, e)) i) in
      let apart' : Apart l' (q ∷ []) =
        λ r i. ground (arith, ne_of_contains l' q r (ground (arith, out, e)) i) in
      let same : contains (q ∷ []) q ≡ true = ground (arith, ==_refl q) in
      linked-other p s before after q (ground (arith, out, e))
      ∙ set_prev-Avoids after (some p) (set_next before (some p) s) (q ∷ [])
          (first-Avoids l' none (q ∷ []) tt apart') q same
      ∙ set_next-Avoids before (some p) s (q ∷ []) (last-Avoids l none (q ∷ []) tt apart) q same

  linked-Inserts :
      length (l ++ l') + 1 < usize_mod
      → IsDistinct (l ++ l')
      → contains (l ++ l') p ≡ false
      → Segment s none (l ++ l') none
      → Inserts s p l l' (of_list (l ++ p ∷ l')) (linked p s (last none l) (first l' none))
  linked-Inserts b d out h = record {
    represents =
        of_list-Represents (linked p s (last none l) (first l' none)) (l ++ p ∷ l')
          (omega (arith, b, length_insert p l l')) (linked-Segment p s l l' d out h)
          (IsDistinct-insert p l l' d out);
    elsewhere = linked-elsewhere;
  }

len_insert :
    (p : ℕ) (l l' : List ℕ)
    → length (l ++ l') + 1 < usize_mod
    → wrapping_add (length (l ++ l')) 1 ≡ length (l ++ p ∷ l')
unfolding wrapping_add
len_insert p l l' b = omega (arith, length_insert p l l', b)

insert_before-step :
    (p : ℕ) (s : Links) (l l' : List ℕ)
    → IsDistinct (l ++ l')
    → length (l ++ l') + 1 < usize_mod
    → Segment s none (l ++ l') none
    → (s p).is_linked ≡ false
    → insert_before p (record { link = first l' none; dlist = of_list (l ++ l') }) s
      ≡ some (
        record { link = first l' none; dlist = of_list (l ++ p ∷ l') },
        linked p s (last none l) (first l' none),
      )
unfolding insert_before linked link_before first last Segment
insert_before-step p s l [] d b h u =
    rw
      (
        u,
        first-insert p l [] d,
        last-append l [] none,
        last-append l (p ∷ []) none,
        len_insert p l [] b,
      )
      refl
insert_before-step p s l (q ∷ l') d b h u =
    let e = (Segment-append s none l (q ∷ l') none h).1 in
    rw
      (
        u,
        first-insert p l (q ∷ l') d,
        e.0,
        last-append l (q ∷ l') none,
        last-append l (p ∷ q ∷ l') none,
        len_insert p l (q ∷ l') b,
      )
      refl

insert_after-step :
    (p : ℕ) (s : Links) (l l' : List ℕ)
    → IsDistinct (l ++ l')
    → length (l ++ l') + 1 < usize_mod
    → Segment s none (l ++ l') none
    → (s p).is_linked ≡ false
    → insert_after p (record { link = last none l; dlist = of_list (l ++ l') }) s
      ≡ some (
        record { link = last none l; dlist = of_list (l ++ p ∷ l') },
        linked p s (last none l) (first l' none),
      )
unfolding insert_after linked link_after first last
insert_after-step p s [] l' d b h u = rw (u, last-insert p [] l' d, len_insert p [] l' b) refl
insert_after-step p s (q ∷ l) l' d b h u =
    let (r, e, i) = last-Inside q l in
    let chain = (Segment-append s none (q ∷ l) l' none h).0 in
    let tail = last-insert p (q ∷ l) l' d in
    rw (u, e, next_of_last s none q l (first l' none) r chain e, len_insert p (q ∷ l) l' b)
      (rw (sym e, tail) refl)

-- An insertion before the link that the iterator is on, or at the back when it is on none, puts
-- the new link in front of that link, and writes to no other list; the iterator stays.
pub insert_before-Inserts :
    (p : ℕ) (it : DlistIterMut) (s : Links) (l l' : List ℕ)
    → it.link ≡ first l' none
    → Represents s it.dlist (l ++ l')
    → (s p).is_linked ≡ false
    → length (l ++ l') + 1 < usize_mod
    → (d : Dlist) × (s' : Links) × (insert_before p it s ≡ some (record it { dlist = d }, s'))
      × Inserts s p l l' d s'
insert_before-Inserts p it s l l' at r u b = (
  of_list (l ++ p ∷ l'),
  linked p s (last none l) (first l' none),
  rw (at, of_list_eq s it.dlist (l ++ l') r) (insert_before-step p s l l' r.distinct b r.chain u),
  linked-Inserts p s l l' b r.distinct (not-mem_of_unlinked s none (l ++ l') none p r.chain u)
      r.chain,
)

-- An insertion behind the link that the iterator is on, or at the front when it is on none, puts
-- the new link behind that link, and writes to no other list; the iterator stays.
pub insert_after-Inserts :
    (p : ℕ) (it : DlistIterMut) (s : Links) (l l' : List ℕ)
    → it.link ≡ last none l
    → Represents s it.dlist (l ++ l')
    → (s p).is_linked ≡ false
    → length (l ++ l') + 1 < usize_mod
    → (d : Dlist) × (s' : Links) × (insert_after p it s ≡ some (record it { dlist = d }, s'))
      × Inserts s p l l' d s'
insert_after-Inserts p it s l l' at r u b = (
  of_list (l ++ p ∷ l'),
  linked p s (last none l) (first l' none),
  rw (at, of_list_eq s it.dlist (l ++ l') r) (insert_after-step p s l l' r.distinct b r.chain u),
  linked-Inserts p s l l' b r.distinct (not-mem_of_unlinked s none (l ++ l') none p r.chain u)
      r.chain,
)

pub push_front-Inserts :
    (p : ℕ) (d : Dlist) (s : Links) (l : List ℕ)
    → Represents s d l
    → (s p).is_linked ≡ false
    → length l + 1 < usize_mod
    → (d' : Dlist) × (s' : Links) × (push_front p d s ≡ some (d', s')) × Inserts s p [] l d' s'
unfolding push_front iter_mut last
push_front-Inserts p d s l r u b =
    let (d', s', e, i) = insert_after-Inserts p (iter_mut d) s [] l refl r u b in
    (d', s', rw e refl, i)

pub push_back-Inserts :
    (p : ℕ) (d : Dlist) (s : Links) (l : List ℕ)
    → Represents s d l
    → (s p).is_linked ≡ false
    → length l + 1 < usize_mod
    → (d' : Dlist) × (s' : Links) × (push_back p d s ≡ some (d', s')) × Inserts s p l [] d' s'
unfolding push_back iter_mut first
push_back-Inserts p d s l r u b =
    let (d', s', e, i) =
      insert_before-Inserts p (iter_mut d) s l [] refl
        (subst (Represents s d) (sym (append-nil l)) r) u (rw (append-nil l) b) in
    (d', s', rw e refl, i)
