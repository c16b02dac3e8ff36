-- ===== src/Intrusive/Dlist/Ends.antt =====
-- The first and the last address of a list in two parts, and the tests of a link against the ends.
use foyer.Prelude.{
  ℕ, ◌≡◌, refl, ap, true, false, Option, none, some, List, [], ◌∷◌, ◌++◌, arith, if◌then◌else◌,
  ==_refl, ==_of_ne, contains, IsDistinct, contains-append,
}
use foyer.Intrusive.Dlist.{same}
use foyer.Intrusive.Dlist.Segment.{first, last, Avoids, Apart, first-Avoids, last-Avoids, Apart-sym}
use foyer.Intrusive.Dlist.Represents.{same_refl, IsDistinct-append}

pub first-append : (l l' : List ℕ) (o : Option ℕ) → first (l ++ l') o ≡ first l (first l' o)
unfolding first
first-append [] l' o = refl
first-append (p ∷ l) l' o = refl

pub last-append : (l l' : List ℕ) (o : Option ℕ) → last o (l ++ l') ≡ last (last o l) l'
unfolding last
last-append [] l' o = refl
last-append (p ∷ l) l' o = last-append l l' (some p)

-- The link is there and in `l`.
abbrev pub Inside : Option ℕ → List ℕ → Type 0
Inside o l = (p : ℕ) × (o ≡ some p) × (contains l p ≡ true)

pub last-Inside : (p : ℕ) (l : List ℕ) → Inside (last (some p) l) (p ∷ l)
unfolding last contains
last-Inside p [] = (p, refl, ground arith)
last-Inside p (q ∷ l) = let (r, e, i) = last-Inside q l in (r, e, ground (arith, i))

same_apart : (l : List ℕ) (o o' : Option ℕ) → Inside o l → Avoids o' l → same o o' ≡ false
unfolding same Avoids
same_apart l o none (p, e, i) h = rw e refl
same_apart l o (some q) (p, e, i) h =
    rw e (==_of_ne p q λ e'. ground (arith, i, h, ap (contains l) e'))

-- The head after `p` goes between `l` and `l'`.
pub first-insert :
    (p : ℕ) (l l' : List ℕ)
    → IsDistinct (l ++ l')
    → (if same (first (l ++ l') none) (first l' none) then some p else first (l ++ l') none)
      ≡ first (l ++ p ∷ l') none
unfolding first contains Avoids
first-insert p [] l' d = rw (same_refl (first l' none)) refl
first-insert p (q ∷ l) l' d =
    let apart : Apart l' (q ∷ l) = Apart-sym (q ∷ l) l' (IsDistinct-append (q ∷ l) l' d).2 in
    let avoids = first-Avoids l' none (q ∷ l) tt apart in
    rw (same_apart (q ∷ l) (some q) (first l' none) (q, refl, ground arith) avoids) refl

-- The tail after `p` goes between `l` and `l'`.
pub last-insert :
    (p : ℕ) (l l' : List ℕ)
    → IsDistinct (l ++ l')
    → (if same (last none (l ++ l')) (last none l) then some p else last none (l ++ l'))
      ≡ last none (l ++ p ∷ l')
unfolding last Avoids
last-insert p l [] d =
    rw (last-append l [] none, last-append l (p ∷ []) none, same_refl (last none l)) refl
last-insert p l (q ∷ l') d =
    let avoids = last-Avoids l none (q ∷ l') tt (IsDistinct-append l (q ∷ l') d).2 in
    rw
      (
        last-append l (q ∷ l') none,
        last-append l (p ∷ q ∷ l') none,
        same_apart (q ∷ l') (last (some q) l') (last none l) (last-Inside q l') avoids,
      )
      refl

-- The head after `p` between `l` and `l'` goes.
pub first-remove :
    (p : ℕ) (l l' : List ℕ)
    → IsDistinct (l ++ p ∷ l')
    → (if same (some p) (first (l ++ p ∷ l') none) then first l' none else first (l ++ p ∷ l') none)
      ≡ first (l ++ l') none
unfolding first same contains
first-remove p [] l' d = rw (==_refl p) refl
first-remove p (q ∷ l) l' d =
    rw (==_of_ne p q λ e. ground (arith, d.0, contains-append l (p ∷ l') q, ==_refl p, e)) refl

-- The tail after `p` between `l` and `l'` goes.
pub last-remove :
    (p : ℕ) (l l' : List ℕ)
    → IsDistinct (l ++ p ∷ l')
    → (if same (some p) (last none (l ++ p ∷ l')) then last none l else last none (l ++ p ∷ l'))
      ≡ last none (l ++ l')
unfolding last same contains
last-remove p l [] d = rw (last-append l (p ∷ []) none, last-append l [] none, ==_refl p) refl
last-remove p l (q ∷ l') d =
    let (r, e, i) = last-Inside q l' in
    let d' = (IsDistinct-append l (p ∷ q ∷ l') d).1 in
    let ne = ==_of_ne p r λ e'. ground (arith, d'.0, i, ap (contains (q ∷ l')) e') in
    rw (last-append l (p ∷ q ∷ l') none, last-append l (q ∷ l') none, e, ne) refl
