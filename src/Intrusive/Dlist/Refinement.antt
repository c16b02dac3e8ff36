-- ===== src/Intrusive/Dlist/Refinement.antt =====
-- foyer-intrusive/src/collections/dlist.rs: a sequence of operations on a `Dlist`, against the same
-- sequence on the list of addresses that foyer-memory's eviction algorithms are modelled on.
use foyer.Prelude.{
  ℕ, ◌+◌, ◌≤◌, ◌<◌, ◌≡◌, refl, sym, ap, subst, ◌∙◌, inl, inr, true, false, Option, none, some, List,
  [], ◌∷◌, ◌++◌, arith, ◌==◌, if◌then◌else◌, ==_iff, Bool-cases, Option-cases, ◌>>=◌, usize_mod,
  contains, erase, length, length-append, contains-append,
}
use foyer.Prelude.{some-inj, none-ne-some}
use mathlib.Core.List.{append-nil}
use foyer.Memory.Queue
use foyer.Intrusive.Dlist.{Dlist, Links}
use foyer.Intrusive.Dlist.Iter.{push_front, push_back, pop_front, pop_back, remove_raw}
use foyer.Intrusive.Dlist.Segment.{Segment}
use foyer.Intrusive.Dlist.Insert.{Inserts, push_front-Inserts, push_back-Inserts}
use foyer.Intrusive.Dlist.Remove.{
  Unlinks, pop_front-Unlinks, pop_back-Unlinks, remove_raw-Unlinks, pop_empty,
}
use foyer.Intrusive.Dlist.Represents.{Represents}

pub data DlistOp : Type 0 where
  op_push_front op_push_back op_remove_raw : ℕ → DlistOp
  op_pop_front op_pop_back : DlistOp

-- What one call gives back, and the list and the links after it.
unfoldable pub step : DlistOp → Dlist → Links → Option (Option ℕ × Dlist × Links)
step (op_push_front p) d s = do (d', s') ← push_front p d s; some (none, d', s')
step (op_push_back p) d s = do (d', s') ← push_back p d s; some (none, d', s')
step (op_remove_raw p) d s = some (remove_raw p d s)
step op_pop_front d s = some (pop_front d s)
step op_pop_back d s = some (pop_back d s)

unfoldable pub pop_last : List ℕ → Option ℕ × List ℕ
pop_last [] = (none, [])
pop_last (p ∷ []) = (some p, [])
pop_last (p ∷ q ∷ l) = let (r, l') = pop_last (q ∷ l) in (r, p ∷ l')

unfoldable pub pop_first : List ℕ → Option ℕ × List ℕ
pop_first [] = (none, [])
pop_first (p ∷ l) = (some p, l)

-- The same call on a list. To push an address that is in, or to remove one that is not, is `none`.
unfoldable pub list_step : DlistOp → List ℕ → Option (Option ℕ × List ℕ)
list_step (op_push_front p) l = if contains l p then none else some (none, p ∷ l)
list_step (op_push_back p) l = if contains l p then none else some (none, l ++ p ∷ [])
list_step (op_remove_raw p) l = do l' ← Queue.remove_raw p l; some (some p, l')
list_step op_pop_front l = some (pop_first l)
list_step op_pop_back l = some (pop_last l)

unfoldable pub run : List DlistOp → Dlist → Links → Option (List (Option ℕ) × Dlist × Links)
run [] d s = some ([], d, s)
run (op ∷ ops) d s = do
  (out, d', s') ← step op d s
  (outs, d'', s'') ← run ops d' s'
  some (out ∷ outs, d'', s'')

unfoldable pub list_run : List DlistOp → List ℕ → Option (List (Option ℕ) × List ℕ)
list_run [] l = some ([], l)
list_run (op ∷ ops) l = do
  (out, l') ← list_step op l
  (outs, l'') ← list_run ops l'
  some (out ∷ outs, l'')

-- The list stands for `l`, and a link is marked exactly if it is in `l`.
pub record Owns (s : Links) (d : Dlist) (l : List ℕ) : Type 0 where
  pub represents : Represents s d l
  pub marked : (q : ℕ) → (s q).is_linked ≡ contains l q

marked-Segment :
    (s : Links) (before : Option ℕ) (l : List ℕ) (after : Option ℕ) (q : ℕ)
    → Segment s before l after
    → contains l q ≡ true
    → (s q).is_linked ≡ true
unfolding Segment contains
marked-Segment s before [] after q h i = ground (arith, i)
marked-Segment s before (p ∷ l) after q h i = elim (Bool-cases (q == p)) [
  | inl e ↦ rw ((==_iff q p).0 e) h.2
  | inr e ↦ marked-Segment s (some p) l after q h.3 (ground (arith, i, e))
]

-- The rest of the memory is as it was, where the lists differ by `p` only.
Owns-of_same :
    (s s' : Links) (d d' : Dlist) (l l' : List ℕ)
    → Owns s d l
    → Represents s' d' l'
    → ((q : ℕ) → contains l' q ≡ false → (s' q).is_linked ≡ false)
    → Owns s' d' l'
Owns-of_same s s' d d' l l' o r out = record {
  represents = r;
  marked = λ q. elim (Bool-cases (contains l' q)) [
    | inl e ↦ marked-Segment s' none l' none q r.chain e ∙ sym e
    | inr e ↦ out q e ∙ sym e
  ];
}

Inserts-Owns :
    (s s' : Links) (p : ℕ) (d d' : Dlist) (l l' : List ℕ)
    → Owns s d (l ++ l')
    → Inserts s p l l' d' s'
    → Owns s' d' (l ++ p ∷ l')
unfolding contains
Inserts-Owns s s' p d d' l l' o i =
    Owns-of_same s s' d d' (l ++ l') (l ++ p ∷ l') o i.represents λ q e.
      ap (λ x. x.is_linked) (i.elsewhere q e)
      ∙ o.marked q
      ∙ ground (arith, e, contains-append l l' q, contains-append l (p ∷ l') q)

Unlinks-Owns :
    (s s' : Links) (p : ℕ) (d d' : Dlist) (l l' : List ℕ)
    → Owns s d (l ++ p ∷ l')
    → Unlinks s p l l' d' s'
    → Owns s' d' (l ++ l')
unfolding contains
Unlinks-Owns s s' p d d' l l' o i =
    Owns-of_same s s' d d' (l ++ p ∷ l') (l ++ l') o i.represents λ q e.
      elim (Bool-cases (q == p)) [
        | inl h ↦ rw ((==_iff q p).0 h, i.cleared) refl
        | inr h ↦
            let out : contains (l ++ p ∷ l') q ≡ false =
              ground (arith, e, h, contains-append l l' q, contains-append l (p ∷ l') q) in
            ap (λ x. x.is_linked) (i.elsewhere q out) ∙ o.marked q ∙ out
      ]

pop_last-split :
    (p : ℕ) (l : List ℕ)
    → (l' : List ℕ) × (r : ℕ) × (p ∷ l ≡ l' ++ r ∷ []) × (pop_last (p ∷ l) ≡ (some r, l'))
unfolding pop_last
pop_last-split p [] = ([], p, refl, refl)
pop_last-split p (q ∷ l) =
    let (l', r, e, e') = pop_last-split q l in (p ∷ l', r, ap (λ t. p ∷ t) e, rw e' refl)

erase-split :
    (p : ℕ) (l : List ℕ)
    → contains l p ≡ true
    → (l1 : List ℕ) × (l2 : List ℕ) × (l ≡ l1 ++ p ∷ l2) × (erase p l ≡ l1 ++ l2)
unfolding contains erase
erase-split p [] i = ground (arith, i)
erase-split p (q ∷ l) i = elim (Bool-cases (p == q)) [
  | inl e ↦ ([], l, ap (λ t. t ∷ l) (sym ((==_iff p q).0 e)), rw e refl)
  | inr e ↦
      let (l1, l2, e1, e2) = erase-split p l (ground (arith, i, e)) in
      (q ∷ l1, l2, ap (λ t. q ∷ t) e1, rw (e, e2) refl)
]

-- One call follows the list.
record Follows (op : DlistOp) (d : Dlist) (s : Links) (l : List ℕ) (out : Option ℕ) (l' : List ℕ)
    : Type 0 where
  dlist : Dlist
  links : Links
  stepped : step op d s ≡ some (out, dlist, links)
  owns : Owns links dlist l'
  grows : length l' ≤ length l + 1

follows :
    {op : DlistOp} {d : Dlist} {s : Links} {out out' : Option ℕ} {k l l' : List ℕ}
    → ◌≡◌ {A = Option (Option ℕ × List ℕ)} (some (out, l)) (some (out', l'))
    → Follows op d s k out l
    → Follows op d s k out' l'
follows {op} {d} {s} {k = k} e = subst (λ r. Follows op d s k r.0 r.1) (some-inj e)

module _ (d : Dlist) (s : Links) (l : List ℕ) (o : Owns s d l) where
  push_front-Follows :
      (p : ℕ)
      → length l + 1 < usize_mod
      → contains l p ≡ false
      → Follows (op_push_front p) d s l none (p ∷ l)
  unfolding step
  push_front-Follows p b e =
      let (d', s', e', i) = push_front-Inserts p d s l o.represents (o.marked p ∙ e) b in
      record {
        dlist = d';
        links = s';
        stepped = rw e' refl;
        owns = Inserts-Owns s s' p d d' [] l o i;
        grows = omega arith;
      }

  push_back-Follows :
      (p : ℕ)
      → length l + 1 < usize_mod
      → contains l p ≡ false
      → Follows (op_push_back p) d s l none (l ++ p ∷ [])
  unfolding step
  push_back-Follows p b e =
      let (d', s', e', i) = push_back-Inserts p d s l o.represents (o.marked p ∙ e) b in
      record {
        dlist = d';
        links = s';
        stepped = rw e' refl;
        owns = Inserts-Owns s s' p d d' l [] (subst (Owns s d) (sym (append-nil l)) o) i;
        grows = omega (arith, length-append l (p ∷ []));
      }

  remove_raw-Follows :
      (p : ℕ) → contains l p ≡ true → Follows (op_remove_raw p) d s l (some p) (erase p l)
  unfolding step
  remove_raw-Follows p e =
      let (l1, l2, at, gone) = erase-split p l e in
      let o' = subst (Owns s d) at o in
      let (d', s', e', i) = remove_raw-Unlinks p d s l1 l2 o'.represents in
      record {
        dlist = d';
        links = s';
        stepped = rw e' refl;
        owns = subst (Owns s' d') (sym gone) (Unlinks-Owns s s' p d d' l1 l2 o' i);
        grows =
            omega
              (arith, length-append l1 (p ∷ l2), length-append l1 l2, ap length at, ap length gone);
      }

  pop_empty-Follows :
      l ≡ [] → Follows op_pop_front d s l none [] × Follows op_pop_back d s l none []
  unfolding step
  pop_empty-Follows e =
      let o' = subst (Owns s d) e o in
      let stays = pop_empty d s o'.represents in
      (
        record { dlist = d; links = s; stepped = ap some stays.0; owns = o'; grows = omega arith },
        record { dlist = d; links = s; stepped = ap some stays.1; owns = o'; grows = omega arith },
      )

  pop_front-Follows : (p : ℕ) (l' : List ℕ) → l ≡ p ∷ l' → Follows op_pop_front d s l (some p) l'
  unfolding step
  pop_front-Follows p l' at =
      let o' = subst (Owns s d) at o in
      let (d', s', e', i) = pop_front-Unlinks p d s l' o'.represents in
      record {
        dlist = d';
        links = s';
        stepped = ap some e';
        owns = Unlinks-Owns s s' p d d' [] l' o' i;
        grows = omega (arith, ap length at);
      }

  pop_back-Follows :
      (p : ℕ) (l' : List ℕ) → l ≡ l' ++ p ∷ [] → Follows op_pop_back d s l (some p) l'
  unfolding step
  pop_back-Follows p l' at =
      let o' = subst (Owns s d) at o in
      let (d', s', e', i) = pop_back-Unlinks p d s l' o'.represents in
      record {
        dlist = d';
        links = s';
        stepped = ap some e';
        owns = subst (Owns s' d') (append-nil l') (Unlinks-Owns s s' p d d' l' [] o' i);
        grows = omega (arith, ap length at, length-append l' (p ∷ []));
      }

step-Follows :
    (op : DlistOp) (d : Dlist) (s : Links) (l l' : List ℕ) (out : Option ℕ)
    → Owns s d l
    → length l + 1 < usize_mod
    → list_step op l ≡ some (out, l')
    → Follows op d s l out l'
unfolding list_step pop_first pop_last Queue.remove_raw
step-Follows (op_push_front p) d s l l' out o b h = elim (Bool-cases (contains l p)) [
  | inl e ↦ absurd (none-ne-some (sym (rw e refl) ∙ h))
  | inr e ↦ follows (rw e refl ∙ h) (push_front-Follows d s l o p b e)
]
step-Follows (op_push_back p) d s l l' out o b h = elim (Bool-cases (contains l p)) [
  | inl e ↦ absurd (none-ne-some (sym (rw e refl) ∙ h))
  | inr e ↦ follows (rw e refl ∙ h) (push_back-Follows d s l o p b e)
]
step-Follows (op_remove_raw p) d s l l' out o b h = elim (Bool-cases (contains l p)) [
  | inl e ↦ follows (rw e refl ∙ h) (remove_raw-Follows d s l o p e)
  | inr e ↦ absurd (none-ne-some (sym (rw e refl) ∙ h))
]
step-Follows op_pop_front d s [] l' out o b h = follows h (pop_empty-Follows d s [] o refl).0
step-Follows op_pop_front d s (p ∷ l) l' out o b h =
    follows h (pop_front-Follows d s (p ∷ l) o p l refl)
step-Follows op_pop_back d s [] l' out o b h = follows h (pop_empty-Follows d s [] o refl).1
step-Follows op_pop_back d s (p ∷ l) l' out o b h =
    let (l1, r, at, e) = pop_last-split p l in
    follows (ap some (sym e) ∙ h) (pop_back-Follows d s (p ∷ l) o r l1 at)

-- Every sequence of operations that the list allows gives on the `Dlist` what it gives on the
-- list, and leaves links that stand for the list that is left, as long as the length fits.
pub run-refines :
    (ops : List DlistOp) (d : Dlist) (s : Links) (l l' : List ℕ) (outs : List (Option ℕ))
    → Owns s d l
    → length l + length ops < usize_mod
    → list_run ops l ≡ some (outs, l')
    → (d' : Dlist) × (s' : Links) × (run ops d s ≡ some (outs, d', s')) × Owns s' d' l'
unfolding run list_run
run-refines [] d s l l' outs o b h =
    let e = some-inj h in
    (d, s, ap (λ r. some (r, d, s)) (ap (λ r. r.0) e), subst (Owns s d) (ap (λ r. r.1) e) o)
run-refines (op ∷ ops) d s l l' outs o b h = elim (Option-cases (list_step op l)) [
  | inl e ↦ absurd (none-ne-some (sym (rw e refl) ∙ h))
  | inr ((out, l1), e) ↦ elim (Option-cases (list_run ops l1)) [
    | inl e' ↦ absurd (none-ne-some (sym (rw (e, e') refl) ∙ h))
    | inr ((outs1, l2), e') ↦
        let f = step-Follows op d s l l1 out o (omega (arith, b)) e in
        let (d', s', r, o') =
          run-refines ops f.dlist f.links l1 l2 outs1 f.owns (omega (arith, f.grows, b)) e' in
        let ends : (out ∷ outs1, l2) ≡ (outs, l') = some-inj (sym (rw (e, e') refl) ∙ h) in
        (
          d',
          s',
          rw (f.stepped, r) (ap (λ x. some (x.0, d', s')) ends),
          subst (λ x. Owns s' d' x.1) ends o',
        )
  ]
]
