-- ===== src/Intrusive/Dlist/Represents.antt =====
-- When the head, the tail, the length and the links of a `Dlist` stand for a list of addresses.
use foyer.Prelude.{
  ℕ, ◌<◌, ◌≡◌, refl, sym, ap, inl, inr, true, false, Option, none, some, List, [], ◌∷◌, ◌++◌, arith,
  ◌==◌, ==_iff, ==_refl, Bool-cases, usize_mod, contains, length, IsDistinct, contains-append,
}
use foyer.Intrusive.Dlist.{Dlist, Links, same, new}
use foyer.Intrusive.Dlist.Segment.{first, last, Segment, Segment-cong, Apart}

pub record Represents (s : Links) (d : Dlist) (l : List ℕ) : Type 0 where
  pub head : d.head ≡ first l none
  pub tail : d.tail ≡ last none l
  pub len : d.len ≡ length l
  pub bounded : length l < usize_mod
  pub chain : Segment s none l none
  pub distinct : IsDistinct l

-- The links of `l` hold the same in both memories.
abbrev pub Agree : List ℕ → Links → Links → Type 0
Agree l s s' = (q : ℕ) → contains l q ≡ true → s' q ≡ s q

-- A list does not feel the writes of another one.
pub Represents-cong :
    (s s' : Links) (d : Dlist) (l : List ℕ) → Agree l s s' → Represents s d l → Represents s' d l
Represents-cong s s' d l same r = record {
  head = r.head;
  tail = r.tail;
  len = r.len;
  bounded = r.bounded;
  chain = Segment-cong s s' none l none same r.chain;
  distinct = r.distinct;
}

-- The header of the list that stands for `l`.
abbrev pub of_list : List ℕ → Dlist
of_list l = record { head = first l none; tail = last none l; len = length l }

pub of_list_eq : (s : Links) (d : Dlist) (l : List ℕ) → Represents s d l → d ≡ of_list l
of_list_eq s d l r = rw (sym r.head, sym r.tail, sym r.len) refl

pub of_list-Represents :
    (s : Links) (l : List ℕ)
    → length l < usize_mod
    → Segment s none l none
    → IsDistinct l
    → Represents s (of_list l) l
of_list-Represents s l b h d = record {
  head = refl;
  tail = refl;
  len = refl;
  bounded = b;
  chain = h;
  distinct = d;
}

-- Writes reach the links of `l` only.
abbrev pub SameOutside : List ℕ → Links → Links → Type 0
SameOutside l s s' = (q : ℕ) → contains l q ≡ false → s' q ≡ s q

pub not-mem_of_unlinked :
    (s : Links) (before : Option ℕ) (l : List ℕ) (after : Option ℕ) (p : ℕ)
    → Segment s before l after
    → (s p).is_linked ≡ false
    → contains l p ≡ false
unfolding Segment contains
not-mem_of_unlinked s before [] after p h u = refl
not-mem_of_unlinked s before (q ∷ l) after p h u =
    let rest = not-mem_of_unlinked s (some q) l after p h.3 u in
    elim (Bool-cases (p == q)) [
      | inl e ↦ ground (arith, h.2, u, ap (λ r. (s r).is_linked) ((==_iff p q).0 e))
      | inr e ↦ ground (arith, rest, e)
    ]

pub new-Represents : (s : Links) → Represents s new []
unfolding new first last Segment
new-Represents s = record {
  head = refl;
  tail = refl;
  len = refl;
  bounded = omega arith;
  chain = tt;
  distinct = tt;
}

pub same_refl : (o : Option ℕ) → same o o ≡ true
unfolding same
same_refl none = refl
same_refl (some p) = ==_refl p

pub IsDistinct-append :
    (l l' : List ℕ) → IsDistinct (l ++ l') → IsDistinct l × IsDistinct l' × Apart l l'
unfolding contains
IsDistinct-append [] l' d = (tt, d, λ q i. ground (arith, i))
IsDistinct-append (p ∷ l) l' d =
    let rest = IsDistinct-append l l' d.1 in
    let e = contains-append l l' p in
    (
      (ground (arith, d.0, e), rest.0),
      rest.1,
      λ q i. elim (Bool-cases (q == p)) [
        | inl h ↦ ground (arith, d.0, e, i, h)
        | inr h ↦ rest.2 q (ground (arith, i, h))
      ],
    )

pub IsDistinct-join :
    (l l' : List ℕ) → IsDistinct l → IsDistinct l' → Apart l l' → IsDistinct (l ++ l')
unfolding contains
IsDistinct-join [] l' d d' apart = d'
IsDistinct-join (p ∷ l) l' d d' apart = (
  rw (contains-append l l' p, d.0) (apart p (ground arith)),
  IsDistinct-join l l' d.1 d' λ q i. apart q (ground (arith, i)),
)
