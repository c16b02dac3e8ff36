-- ===== src/Memory/Queue.antt =====
-- foyer-intrusive/src/collections/dlist.rs, as the eviction algorithms see it: a queue of handles
-- is the list of their pointers, front first. `push_back` is `◌++◌`.
use foyer.Prelude.{
  ℕ, ◌+◌, ◌≡◌, true, false, not, ◌&&◌, ◌||◌, Option, none, some, List, [], ◌∷◌, ◌++◌, arith, ◌==◌,
  if◌then◌else◌, contains, erase, sum_by, IsDistinct, contains-snoc, contains-erase,
  IsDistinct-snoc, IsDistinct-erase, sum_by-snoc, sum_by-erase,
}

-- To take out a link that is not in the list is undefined.
unfoldable pub remove_raw : ℕ → List ℕ → Option (List ℕ)
remove_raw p l = if contains l p then some (erase p l) else none

-- `l'` is the queue `l` without `p`, which it need not hold.
pub record TakesOut (p : ℕ) (l l' : List ℕ) : Type 0 where
  pub members : (q : ℕ) → contains l' q ≡ (contains l q && not (q == p))
  pub distinct : IsDistinct l'
  pub sums : (f : ℕ → ℕ) → sum_by f l ≡ sum_by f l' + (if contains l p then f p else 0)

pub erase-TakesOut :
    (p : ℕ) (l : List ℕ) → IsDistinct l → contains l p ≡ true → TakesOut p l (erase p l)
erase-TakesOut p l d h = record {
  members = λ q. contains-erase p l q d;
  distinct = IsDistinct-erase p l d;
  sums = λ f. rw h (sum_by-erase f p l h);
}

pub tail-TakesOut : (p : ℕ) (l : List ℕ) → IsDistinct (p ∷ l) → TakesOut p (p ∷ l) l
unfolding contains sum_by
tail-TakesOut p l d = record {
  members = λ q. ground (arith, d.0);
  distinct = d.1;
  sums = λ f. ground arith;
}

pub absent-TakesOut : (p : ℕ) (l : List ℕ) → IsDistinct l → contains l p ≡ false → TakesOut p l l
absent-TakesOut p l d h = record {
  members = λ q. ground arith;
  distinct = d;
  sums = λ f. rw h (omega arith);
}

-- `l'` is the queue `l` with `p` at its back.
pub record PutsIn (p : ℕ) (l l' : List ℕ) : Type 0 where
  pub members : (q : ℕ) → contains l' q ≡ (q == p || contains l q)
  pub distinct : IsDistinct l'
  pub sums : (f : ℕ → ℕ) → sum_by f l' ≡ sum_by f l + f p

pub snoc-PutsIn :
    (p : ℕ) (l : List ℕ) → IsDistinct l → contains l p ≡ false → PutsIn p l (l ++ p ∷ [])
snoc-PutsIn p l d h = record {
  members = contains-snoc l p;
  distinct = IsDistinct-snoc l p d h;
  sums = λ f. sum_by-snoc f l p;
}
