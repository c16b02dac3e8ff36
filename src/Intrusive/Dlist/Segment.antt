-- ===== src/Intrusive/Dlist/Segment.antt =====
-- A run of links that are chained in both directions, and what a write does to it.
use foyer.Prelude.{
  ℕ, ◌≡◌, refl, sym, ap, inl, inr, true, false, Option, none, some, List, [], ◌∷◌, ◌++◌, arith,
  ◌==◌, ==_of_ne, Bool-cases, contains, IsDistinct,
}
use foyer.Prelude.{some-inj}
use foyer.Intrusive.Dlist.{DlistLink, Links, set, set_next, set_prev}

-- The first link of `l`, or the one behind it.
unfoldable pub first : List ℕ → Option ℕ → Option ℕ
first [] after = after
first (p ∷ l) after = some p

-- The last link of `l`, or the one before it.
unfoldable pub last : Option ℕ → List ℕ → Option ℕ
last before [] = before
last before (p ∷ l) = last (some p) l

-- The links of `l` are chained, from `before` to `after`.
unfoldable pub Segment : Links → Option ℕ → List ℕ → Option ℕ → Type 0
Segment s before [] after = Unit
Segment s before (p ∷ l) after =
    ((s p).prev ≡ before)
    × ((s p).next ≡ first l after)
    × ((s p).is_linked ≡ true)
    × Segment s (some p) l after

-- The link, if any, is not in `l`.
unfoldable pub Avoids : Option ℕ → List ℕ → Type 0
Avoids none l = Unit
Avoids (some p) l = contains l p ≡ false

pub Segment-cong :
    (s s' : Links) (before : Option ℕ) (l : List ℕ) (after : Option ℕ)
    → ((q : ℕ) → contains l q ≡ true → s' q ≡ s q)
    → Segment s before l after
    → Segment s' before l after
unfolding Segment contains
Segment-cong s s' before [] after same h = tt
Segment-cong s s' before (p ∷ l) after same h =
    let e : s' p ≡ s p = same p (ground arith) in
    (
      rw e h.0,
      rw e h.1,
      rw e h.2,
      Segment-cong s s' (some p) l after (λ q i. same q (ground arith)) h.3,
    )

pub Segment-append :
    (s : Links) (before : Option ℕ) (l l' : List ℕ) (after : Option ℕ)
    → Segment s before (l ++ l') after
    → Segment s before l (first l' after) × Segment s (last before l) l' after
unfolding Segment first last
Segment-append s before [] l' after h = (tt, h)
Segment-append s before (p ∷ []) l' after h = ((h.0, h.1, h.2, tt), h.3)
Segment-append s before (p ∷ q ∷ l) l' after h =
    let rest = Segment-append s (some p) (q ∷ l) l' after h.3 in ((h.0, h.1, h.2, rest.0), rest.1)

pub Segment-join :
    (s : Links) (before : Option ℕ) (l l' : List ℕ) (after : Option ℕ)
    → Segment s before l (first l' after)
    → Segment s (last before l) l' after
    → Segment s before (l ++ l') after
unfolding Segment first last
Segment-join s before [] l' after h h' = h'
Segment-join s before (p ∷ []) l' after h h' = (h.0, h.1, h.2, h')
Segment-join s before (p ∷ q ∷ l) l' after h h' =
    (h.0, h.1, h.2, Segment-join s (some p) (q ∷ l) l' after h.3 h')

pub ne_of_contains :
    (l : List ℕ) (p q : ℕ) → contains l p ≡ false → contains l q ≡ true → (q == p) ≡ false
ne_of_contains l p q h i = ==_of_ne q p λ e. ground (arith, h, i, ap (contains l) e)

pub set-other : (p q : ℕ) (link : DlistLink) (s : Links) → (q == p) ≡ false → set p link s q ≡ s q
unfolding set
set-other p q link s h = rw h refl

-- No link is in both lists.
abbrev pub Apart : List ℕ → List ℕ → Type 0
Apart l l' = (q : ℕ) → contains l q ≡ true → contains l' q ≡ false

pub Apart-sym : (l l' : List ℕ) → Apart l l' → Apart l' l
Apart-sym l l' apart q i = elim (Bool-cases (contains l q)) [
  | inl h ↦ ground (arith, apart q h, i)
  | inr h ↦ h
]

pub first-Avoids :
    (l : List ℕ) (o : Option ℕ) (l' : List ℕ) → Avoids o l' → Apart l l' → Avoids (first l o) l'
unfolding first Avoids contains
first-Avoids [] o l' h apart = h
first-Avoids (p ∷ l) o l' h apart = apart p (ground arith)

pub last-Avoids :
    (l : List ℕ) (o : Option ℕ) (l' : List ℕ) → Avoids o l' → Apart l l' → Avoids (last o l) l'
unfolding last Avoids contains
last-Avoids [] o l' h apart = h
last-Avoids (p ∷ l) o l' h apart =
    last-Avoids l (some p) l' (apart p (ground arith)) λ q i. apart q (ground arith)

pub set_next-Avoids :
    (o v : Option ℕ) (s : Links) (l : List ℕ)
    → Avoids o l
    → (q : ℕ) → contains l q ≡ true
    → set_next o v s q ≡ s q
unfolding set_next Avoids
set_next-Avoids none v s l h q i = refl
set_next-Avoids (some p) v s l h q i =
    set-other p q (record (s p) { next = v }) s (ne_of_contains l p q h i)

pub set_prev-Avoids :
    (o v : Option ℕ) (s : Links) (l : List ℕ)
    → Avoids o l
    → (q : ℕ) → contains l q ≡ true
    → set_prev o v s q ≡ s q
unfolding set_prev Avoids
set_prev-Avoids none v s l h q i = refl
set_prev-Avoids (some p) v s l h q i =
    set-other p q (record (s p) { prev = v }) s (ne_of_contains l p q h i)

-- A new link behind the last one.
pub Segment-set_next :
    (s : Links) (before : Option ℕ) (l : List ℕ) (after v : Option ℕ)
    → IsDistinct l
    → Segment s before l after
    → Segment (set_next (last before l) v s) before l v
unfolding Segment first last set_next set contains Avoids
Segment-set_next s before [] after v d h = tt
Segment-set_next s before (p ∷ []) after v d h =
    (ground (arith, h.0), ground arith, ground (arith, h.2), tt)
Segment-set_next s before (p ∷ q ∷ l) after v d h =
    let apart : Apart (q ∷ l) (p ∷ []) = λ r i. ground (arith, d.0) in
    let avoids : Avoids (last (some q) l) (p ∷ []) = last-Avoids (q ∷ l) none (p ∷ []) tt apart in
    let e = set_next-Avoids (last (some q) l) v s (p ∷ []) avoids p (ground arith) in
    (rw e h.0, rw e h.1, rw e h.2, Segment-set_next s (some p) (q ∷ l) after v d.1 h.3)

-- A new link before the first one.
pub Segment-set_prev :
    (s : Links) (before : Option ℕ) (l : List ℕ) (after v : Option ℕ)
    → IsDistinct l
    → Segment s before l after
    → Segment (set_prev (first l after) v s) v l after
unfolding Segment set_prev set first contains Avoids
Segment-set_prev s before [] after v d h = tt
Segment-set_prev s before (p ∷ l) after v d h = (
  ground arith,
  ground (arith, h.1),
  ground (arith, h.2),
  Segment-cong s (set p (record (s p) { prev = v }) s) (some p) l after
      (λ q i. set-other p q (record (s p) { prev = v }) s (ne_of_contains l p q d.0 i)) h.3,
)

pub next_of_last :
    (s : Links) (before : Option ℕ) (p : ℕ) (l : List ℕ) (after : Option ℕ) (r : ℕ)
    → Segment s before (p ∷ l) after
    → last (some p) l ≡ some r
    → (s r).next ≡ after
unfolding Segment last first
next_of_last s before p [] after r h e = rw (sym (some-inj e)) h.1
next_of_last s before p (q ∷ l) after r h e = next_of_last s (some p) q l after r h.3 e
