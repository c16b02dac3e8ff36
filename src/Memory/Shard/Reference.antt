-- ===== src/Memory/Shard/Reference.antt =====
-- `GenericCacheEntry` of foyer-memory/src/generic.rs: a counted reference to a handle of a shard.
use foyer.Prelude.{
  ℕ, ◌+◌, ◌<◌, ◌≡◌, refl, inl, inr, true, Option, none, some, List, [], ◌∷◌, ◌++◌, arith, ◌==◌,
  if◌then◌else◌, ==_iff, ==_refl, Bool-cases, ◌>>=◌, usize_mod, wrapping_add, wrapping_sub,
}
use foyer.Memory.Handle.{
  Memory, on_base, charge_of, has_refs, key, value, context, inc_refs, dec_refs,
}
use foyer.Memory.Eviction.{Eviction}
use foyer.Memory.Indexer.{Indexer}
use foyer.Memory.Shard.{Shard, ObjectPool, Entry, try_release_handle, try_release_external_handle}
use foyer.Memory.Shard.Invariant.{Parts, IsValid, counted-Inv}

module _ {ℓ} {K V : Type ℓ} {C X T S Q : Type 0} where
  -- The getters, through the pointer of the reference.
  unfoldable pub key_of : ℕ → Shard K V C X T S Q → Option K
  key_of p s = key (s.memory p).base

  unfoldable pub value_of : ℕ → Shard K V C X T S Q → Option V
  value_of p s = value (s.memory p).base

  unfoldable pub context_of : ℕ → Shard K V C X T S Q → Option C
  context_of p s = context (s.memory p).base

  unfoldable pub charge_at : ℕ → Shard K V C X T S Q → ℕ
  charge_at p s = charge_of s.memory p

  unfoldable pub refs_of : ℕ → Shard K V C X T S Q → ℕ
  refs_of p s = (s.memory p).base.refs

  -- `deref` is the value.
  unfoldable pub deref : ℕ → Shard K V C X T S Q → Option V
  deref p s = value_of p s

  -- A clone asserts that the handle has references, and counts one more.
  unfoldable pub clone : ℕ → Shard K V C X T S Q → Option (ℕ × Shard K V C X T S Q)
  clone p s =
      if has_refs (s.memory p).base
      then some (p, record s { memory = on_base inc_refs p s.memory })
      else none

  -- The call of the listener with what was released, after those that it had before.
  unfoldable pub on_release :
      List (Entry K V C)
      → Option (Entry K V C) × Shard K V C X T S Q
      → List (Entry K V C) × Shard K V C X T S Q
  on_release heard (none, s) = (heard, s)
  on_release heard (some entry, s) = (heard ++ entry ∷ [], s)

module _ {ℓ} {K V : Type ℓ} {C X T S Q : Type 0} (e : Eviction K V C X S) (i : Indexer K V C X T)
    (o : ObjectPool Q) where
  -- `try_release_external_handle` of `GenericCache`, in the shard of the handle.
  unfoldable pub release_reference :
      ℕ
      → Shard K V C X T S Q
      → List (Entry K V C)
      → Option (List (Entry K V C) × Shard K V C X T S Q)
  release_reference p s heard = do
    r ← try_release_external_handle e i o p s
    some (on_release heard r)

  unfoldable pub drop_reference :
      ℕ
      → Shard K V C X T S Q
      → List (Entry K V C)
      → Option (List (Entry K V C) × Shard K V C X T S Q)
  drop_reference p s heard = release_reference p s heard

module _ {ℓ} {K V : Type ℓ} {C X T S Q : Type 0} (parts : Parts K V C X T S Q) where
  open parts use {e, i, o}

  -- The clone of a reference can be dropped again: neither faults, the listener hears nothing, the
  -- shard stays valid, and every handle is as it was before.
  pub clone-drop_reference :
      (p : ℕ) (s : Shard K V C X T S Q) (heard : List (Entry K V C))
      → IsValid parts s
      → 0 < refs_of p s
      → refs_of p s + 1 < usize_mod
      → (s' : Shard K V C X T S Q) × ((clone p s >>= λ r. drop_reference e i o r.0 r.1 heard)
          ≡ some (heard, s'))
        × IsValid parts s'
        × ((q : ℕ) → (s'.memory q).base ≡ (s.memory q).base)
  unfolding clone drop_reference release_reference on_release try_release_external_handle
      try_release_handle refs_of inc_refs dec_refs wrapping_add wrapping_sub
  clone-drop_reference p s heard w used bound =
      let m : Memory K V C X = on_base dec_refs p (on_base inc_refs p s.memory) in
      let s' : Shard K V C X T S Q = record s { memory = m } in
      let same : (q : ℕ) → (m q).base ≡ (s.memory q).base = λ q. elim (Bool-cases (q == p)) [
        | inl here ↦ ground (arith, here, bound, used, (==_iff q p).0 here)
        | inr far ↦ ground (arith, far)
      ] in
      let held : has_refs (s.memory p).base ≡ true = ground (arith, used) in
      let still : has_refs (m p).base ≡ true = ground (arith, same p, held) in
      let w1 =
        counted-Inv parts none [] [] (λ n. wrapping_add n 1) p s w (λ q a. refl)
          (λ a z _. absurd (ground (arith, z, bound))) in
      let w2 : IsValid parts s' =
        counted-Inv parts none [] [] (λ n. wrapping_sub n 1) p
          (record s { memory = on_base inc_refs p s.memory }) w1 (λ q a. refl)
          (λ a z _. absurd (ground (arith, z, bound, used, ==_refl p))) in
      (s', rw (held, still) refl, w2, same)
