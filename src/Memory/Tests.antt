-- ===== src/Memory/Tests.antt =====
-- A key type, a hash table and an object pool, for the tests of foyer-memory/src.
mod Eviction
mod Lfu
mod Shard
mod Cache
use foyer.Prelude.{
  ℕ, ◌+◌, ◌-◌, ◌≤◌, ◌<◌, ◌≡◌, refl, inl, inr, Bool, true, false, ◌&&◌, Option, none, some, List, [],
  ◌∷◌, arith, ◌==◌, if◌then◌else◌, ==_iff, ==_refl, Bool-cases, contains, IsDistinct,
}
use foyer.Memory.Indexer.{KeyOps}
use foyer.Memory.Indexer.Table.{HashTable, HashTableLaws, one_at}
use foyer.Memory.Shard.{ObjectPool, ObjectPoolLaws}

abbrev pub keys : KeyOps ℕ
keys = record { beq = λ a b. a == b; beq_iff = λ a b. ==_iff a b; hash_one = λ a. a }

abbrev pub Slots : Type 0
Slots = List (ℕ × ℕ)

abbrev pub count : Slots → ℕ → ℕ → ℕ
count [] a q = 0
count ((h, p) ∷ t) a q = one_at h p a q + count t a q

abbrev find : ℕ → (ℕ → Bool) → Slots → Option ℕ
find a eq [] = none
find a eq ((h, p) ∷ t) = if h == a && eq p then some p else find a eq t

abbrev replace : ℕ → ℕ → ℕ → Slots → Slots
replace a p p' [] = []
replace a p p' ((h, q) ∷ t) = if h == a && q == p then (a, p') ∷ t else (h, q) ∷ replace a p p' t

abbrev remove : ℕ → ℕ → Slots → Slots
remove a p [] = []
remove a p ((h, q) ∷ t) = if h == a && q == p then t else (h, q) ∷ remove a p t

abbrev drain : Slots → List ℕ
drain [] = []
drain ((h, p) ∷ t) = p ∷ drain t

abbrev pub slots : HashTable Slots
slots = record {
  new = [];
  find = find;
  insert = λ a p t. (a, p) ∷ t;
  replace = replace;
  remove = remove;
  drain = drain;
}

find_some_lem :
    (a p : ℕ) (eq : ℕ → Bool) (t : Slots) → find a eq t ≡ some p → (0 < count t a p) × (eq p ≡ true)
find_some_lem a p eq [] e = absurd (ground (arith, e))
find_some_lem a p eq ((h, q) ∷ t) e = elim (Bool-cases (h == a && eq q)) [
  | inl here ↦ (ground (arith, e, here), ground (arith, e, here))
  | inr other ↦
      let (x, y) = find_some_lem a p eq t (ground (arith, e, other)) in (ground (arith, x), y)
]

find_none_lem :
    (a p : ℕ) (eq : ℕ → Bool) (t : Slots) → find a eq t ≡ none → 0 < count t a p → eq p ≡ false
find_none_lem a p eq [] e c = absurd (ground (arith, c))
find_none_lem a p eq ((h, q) ∷ t) e c = elim (Bool-cases (a == h && p == q)) [
  | inl here ↦ ground (arith, e, here)
  | inr other ↦ find_none_lem a p eq t (ground (arith, e)) (ground (arith, c, other))
]

count-replace_lem :
    (a p p' : ℕ) (t : Slots) (b q : ℕ)
    → 0 < count t a p
    → count (replace a p p' t) b q + one_at a p b q ≡ count t b q + one_at a p' b q
count-replace_lem a p p' [] b q c = absurd (ground (arith, c))
count-replace_lem a p p' ((h, r) ∷ t) b q c = elim (Bool-cases (h == a && r == p)) [
  | inl here ↦ ground (arith, here)
  | inr other ↦ ground (arith, other, count-replace_lem a p p' t b q (ground (arith, c, other)))
]

count-remove_lem :
    (a p : ℕ) (t : Slots) (b q : ℕ)
    → 0 < count t a p
    → count (remove a p t) b q + one_at a p b q ≡ count t b q
count-remove_lem a p [] b q c = absurd (ground (arith, c))
count-remove_lem a p ((h, r) ∷ t) b q c = elim (Bool-cases (h == a && r == p)) [
  | inl here ↦ ground (arith, here)
  | inr other ↦ ground (arith, other, count-remove_lem a p t b q (ground (arith, c, other)))
]

drain_held_lem : (t : Slots) (q : ℕ) → contains (drain t) q ≡ true → (a : ℕ) × (0 < count t a q)
unfolding contains
drain_held_lem [] q e = absurd (ground (arith, e))
drain_held_lem ((h, p) ∷ t) q e = elim (Bool-cases (q == p)) [
  | inl here ↦ (h, ground (arith, here, ==_refl h))
  | inr other ↦ let (a, x) = drain_held_lem t q (ground (arith, e, other)) in (a, ground (arith, x))
]

held_drain_lem : (t : Slots) (a q : ℕ) → 0 < count t a q → contains (drain t) q ≡ true
unfolding contains
held_drain_lem [] a q c = absurd (ground (arith, c))
held_drain_lem ((h, p) ∷ t) a q c = elim (Bool-cases (q == p)) [
  | inl here ↦ ground (arith, here)
  | inr other ↦ ground (arith, other, held_drain_lem t a q (ground (arith, c, other)))
]

drain_distinct_lem :
    (t : Slots)
    → ((a q : ℕ) → count t a q ≤ 1)
    → ((a b q : ℕ) → 0 < count t a q → 0 < count t b q → a ≡ b)
    → IsDistinct (drain t)
drain_distinct_lem [] c u = _
drain_distinct_lem ((h, p) ∷ t) c u = (
  elim (Bool-cases (contains (drain t) p)) [
    | inl twice ↦
        let (a, x) = drain_held_lem t p twice in
        let same : a ≡ h = u a h p (ground (arith, x)) (ground (arith, ==_refl h, ==_refl p)) in
        absurd (ground (arith, c h p, x, same, ==_refl h, ==_refl p))
    | inr once ↦ once
  ],
  drain_distinct_lem t (λ a q. ground (arith, c a q))
      (λ a b q x y. u a b q (ground (arith, x)) (ground (arith, y))),
)

pub slots_laws : HashTableLaws slots count
slots_laws = record {
  count-new = λ a q. refl;
  find_some = find_some_lem;
  find_none = find_none_lem;
  count-insert = λ a p t b q. ground arith;
  count-replace = count-replace_lem;
  count-remove = count-remove_lem;
  drain_held = drain_held_lem;
  held_drain = held_drain_lem;
  drain_distinct = drain_distinct_lem;
}

abbrev pub boxes : ObjectPool (List ℕ)
boxes = record { pop = λ l. elim l [ [] ↦ none | p ∷ rest ↦ some (p, rest) ]; push = λ p l. p ∷ l }

abbrev pub occurrences : List ℕ → ℕ → ℕ
occurrences [] q = 0
occurrences (p ∷ l) q = (if q == p then 1 else 0) + occurrences l q

pub boxes_laws : ObjectPoolLaws boxes occurrences
boxes_laws = record { count-pop = count-pop_lem; count-push = λ p a q. ground arith }
  where
    count-pop_lem :
        (p : ℕ) (a b : List ℕ) (q : ℕ)
        → boxes.pop a ≡ some (p, b)
        → occurrences a q ≡ occurrences b q + (if q == p then 1 else 0)
    count-pop_lem p [] b q e = absurd (ground (arith, e))
    count-pop_lem p (x ∷ rest) b q e = ground (arith, e)
