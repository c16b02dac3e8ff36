-- ===== src/Memory/Cache/Waiters.antt =====
-- The map of waiters of a shard of foyer-memory/src/generic.rs.
use foyer.Prelude.{◌≡◌, refl, sym, ap, ◌∙◌, true, none, [], ◌∷◌, arith, if◌then◌else◌}
use foyer.Memory.Indexer.{KeyOps}
use foyer.Memory.Cache.{Waiters, find, delete}

module _ {ℓ} {K : Type ℓ} (keys : KeyOps K) where
  open keys use {beq, beq_iff}

  pub beq_refl : (k : K) → beq k k ≡ true
  beq_refl k = (beq_iff k k).1 refl

  pub beq_congr : (j k k' : K) → beq k k' ≡ true → beq j k' ≡ beq j k
  beq_congr j k k' e = ap (beq j) (sym ((beq_iff k k').0 e))

  pub beq_join : (j k k' : K) → beq j k ≡ true → beq j k' ≡ true → beq k k' ≡ true
  beq_join j k k' e e' = (beq_iff k k').1 (sym ((beq_iff j k).0 e) ∙ (beq_iff j k').0 e')

  pub find-delete :
      (k j : K) (w : Waiters K)
      → find keys j (delete keys k w) ≡ (if beq j k then none else find keys j w)
  unfolding find delete
  find-delete k j [] = ground arith
  find-delete k j ((k', txs) ∷ w) =
      ground (arith, find-delete k j w, beq_congr j k k', beq_join j k k')
