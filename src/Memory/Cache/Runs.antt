-- ===== src/Memory/Cache/Runs.antt =====
-- foyer-memory/src/generic.rs: the runs of a cache; in all of them, whoever waits has a fetch to
-- wait for.
use foyer.Prelude.{
  ℕ, zero, suc, ◌/◌, ◌%◌, ◌≡◌, refl, sym, ap, subst, ◌∙◌, inl, inr, Bool, true, Option, none, some,
  List, [], ◌∷◌, ◌==◌, Bool-cases, ◌>>=◌, length,
}
use foyer.Prelude.{some-inj, none-ne-some, some_of_bind}
use foyer.Memory.Handle.{has_refs, inc_refs, on_base}
use foyer.Memory.Eviction.{Eviction}
use foyer.Memory.Indexer.{KeyOps, Indexer}
use foyer.Memory.Shard
use foyer.Memory.Shard.{Shard, Metrics, Entry, ObjectPool, collect}
use foyer.Memory.Cache.{Slot, GenericCache, GenericEntry, slot_at, find, view, index, lock}
use foyer.Memory.Cache.Waiters.{beq_refl}
use foyer.Memory.Cache.Operations.{
  new, new_slots, of_slots, try_release_external_handle, insert_with_context, remove, get, clear,
  entry, fail, finish, end_task, clone,
}
use foyer.Memory.Cache.Calls.{
  ask, waiters_of, Quiet, same_shards-Quiet, try_release-Quiet, remove-Quiet, get-Quiet,
  clear-Quiet,
}
use foyer.Memory.Cache.Answers.{Answered, insert-Served}
use foyer.Memory.Cache.Fetches.{
  is_task, Fetched, Quiet-Fetched, Answered-Fetched, end_task-Fetched, entry_at-Fetched,
  fail-Answered,
}

module _ {ℓ} {K V : Type ℓ} {C X T S Q : Type 0} (keys : KeyOps K) (e : Eviction K V C X S)
    (i : Indexer K V C X T) (o : ObjectPool Q) where
  open keys use {hash_one}

  -- One call, or the end of one task that is under way.
  pub data Step : GenericCache K V C X T S Q → GenericCache K V C X T S Q → Type ℓ where
    inserts :
        (receiving : ℕ → Bool) (k : K) (v : V) (charge : ℕ) (context : C) (p : ℕ)
        {c c' : GenericCache K V C X T S Q}
        → insert_with_context keys e i o receiving k v charge context c ≡ some (p, c')
        → Step c c'
    removes :
        (k : K) {c c' : GenericCache K V C X T S Q} → remove keys e i o k c ≡ some c' → Step c c'
    gets :
        (k : K) (found : Option ℕ) {c c' : GenericCache K V C X T S Q}
        → get keys e i o k c ≡ some (found, c')
        → Step c c'
    clears : {c c' : GenericCache K V C X T S Q} → clear keys e i o c ≡ some c' → Step c c'
    requests :
        (k : K) (given : GenericEntry) {c c' : GenericCache K V C X T S Q}
        → entry keys e i o k c ≡ some (given, c')
        → Step c c'
    finishes :
        (receiving : ℕ → Bool) (task : ℕ) (k : K) (result : Option (V × ℕ × C)) (out : Option ℕ)
        {c c' : GenericCache K V C X T S Q}
        → is_task keys task k c.tasks ≡ true
        → finish keys e i o receiving task k result c ≡ some (out, c')
        → Step c c'
    clones : (p : ℕ) {c c' : GenericCache K V C X T S Q} → clone p c ≡ some c' → Step c c'
    drops :
        (p : ℕ) {c c' : GenericCache K V C X T S Q}
        → try_release_external_handle keys e i o p c ≡ some c'
        → Step c c'

  -- The caches that the runs of `new` reach.
  pub data Reachable : GenericCache K V C X T S Q → Type ℓ where
    start :
        (capacity shards : ℕ) (pool : Q) (metrics : Metrics) {c : GenericCache K V C X T S Q}
        → new keys e i o capacity shards pool metrics ≡ some c
        → Reachable c
    after : {c c' : GenericCache K V C X T S Q} → Reachable c → Step c c' → Reachable c'

  -- A task ends after the waiters of its key were answered.
  ended_Fetched :
      (task : ℕ) (k : K) (c c' : GenericCache K V C X T S Q)
      → Answered keys k c c'
      → Fetched keys c
      → Fetched keys (end_task keys task k c')
  ended_Fetched task k c c' a f =
      end_task-Fetched keys task k c' (a.waiters k ∙ rw (beq_refl keys k) refl)
        (Answered-Fetched keys k c c' a f)

  entry-Fetched :
      (k : K) (given : GenericEntry) (c c' : GenericCache K V C X T S Q)
      → entry keys e i o k c ≡ some (given, c')
      → Fetched keys c
      → Fetched keys c'
  unfolding entry
  entry-Fetched k given c c' h f =
      let (slot, h1, h2) = some_of_bind (lock (hash_one k) c) _ (given, c') h in
      let (r, _, h4) =
        some_of_bind (Shard.get e i o (hash_one k) k (view slot c)) _ (given, c') h2 in
      subst (Fetched keys) (ap (λ x. x.1) (some-inj h4))
        (entry_at-Fetched keys k r.0 slot r.1 c h1 f)

  clone-Quiet : (p : ℕ) (c c' : GenericCache K V C X T S Q) → clone p c ≡ some c' → Quiet keys c c'
  unfolding clone
  clone-Quiet p c c' h = elim (Bool-cases (has_refs (c.memory p).base)) [
    | inl on ↦ subst (Quiet keys c) (some-inj (sym (rw on refl) ∙ h)) (
        same_shards-Quiet keys c (record c { memory = on_base inc_refs p c.memory }) refl refl refl)
    | inr off ↦ absurd (none-ne-some (sym (rw off refl) ∙ h))
  ]

  ask-cons :
      (k : K) (slot : Slot K T S) (slots : List (Slot K T S)) (m : ℕ)
      → slot.waiters ≡ []
      → ((n : ℕ) → ask keys k (slot_at n slots) ≡ none)
      → ask keys k (slot_at m (slot ∷ slots)) ≡ none
  unfolding ask slot_at find
  ask-cons k slot slots zero h rest = rw h refl
  ask-cons k slot slots (suc m) h rest = rest m

  new_slots-none :
      (n shard_capacity : ℕ) (pool : Q) (metrics : Metrics) (slots : List (Slot K T S)) (m : ℕ)
      (k : K)
      → new_slots keys e i o n shard_capacity pool metrics ≡ some slots
      → ask keys k (slot_at m slots) ≡ none
  unfolding new_slots slot_at ask find
  new_slots-none zero shard_capacity pool metrics slots m k h =
      subst (λ l. ask keys k (slot_at m l) ≡ none) (some-inj h) refl
  new_slots-none (suc n) shard_capacity pool metrics slots m k h =
      let (s, h1, h2) = some_of_bind (Shard.new e i o shard_capacity pool metrics) _ slots h in
      let (rest, h3, h4) =
        some_of_bind (new_slots keys e i o n shard_capacity pool metrics) _ slots h2 in
      subst (λ l. ask keys k (slot_at m l) ≡ none) (some-inj h4)
        (ask-cons k _ rest m refl λ l. new_slots-none n shard_capacity pool metrics rest l k h3)

  finish-Fetched :
      (receiving : ℕ → Bool) (task : ℕ) (k : K) (result : Option (V × ℕ × C)) (out : Option ℕ)
      (c c' : GenericCache K V C X T S Q)
      → finish keys e i o receiving task k result c ≡ some (out, c')
      → Fetched keys c
      → Fetched keys c'
  unfolding finish
  finish-Fetched receiving task k (some (v, charge, context)) out c c' h f =
      let (r, h1, h2) =
        some_of_bind (insert_with_context keys e i o receiving k v charge context c) _ (out, c')
          h in
      let a = (insert-Served keys e i o receiving k v charge context r.0 c r.1 h1).answered in
      subst (Fetched keys) (ap (λ x. x.1) (some-inj h2)) (ended_Fetched task k c r.1 a f)
  finish-Fetched receiving task k none out c c' h f =
      let (c1, h1, h2) = some_of_bind (fail keys k c) _ (out, c') h in
      let a = (fail-Answered keys k c c1 h1).0 in
      subst (Fetched keys) (ap (λ x. x.1) (some-inj h2)) (ended_Fetched task k c c1 a f)

  Step-Fetched : (c c' : GenericCache K V C X T S Q) → Step c c' → Fetched keys c → Fetched keys c'
  Step-Fetched c c' (inserts receiving k v charge context p h) f =
      Answered-Fetched keys k c c'
        (insert-Served keys e i o receiving k v charge context p c c' h).answered f
  Step-Fetched c c' (removes k h) f = Quiet-Fetched keys c c' (remove-Quiet keys e i o k c c' h) f
  Step-Fetched c c' (gets k found h) f =
      Quiet-Fetched keys c c' (get-Quiet keys e i o k found c c' h) f
  Step-Fetched c c' (clears h) f = Quiet-Fetched keys c c' (clear-Quiet keys e i o c c' h) f
  Step-Fetched c c' (requests k given h) f = entry-Fetched k given c c' h f
  Step-Fetched c c' (finishes receiving task k result out on h) f =
      finish-Fetched receiving task k result out c c' h f
  Step-Fetched c c' (clones p h) f = Quiet-Fetched keys c c' (clone-Quiet p c c' h) f
  Step-Fetched c c' (drops p h) f =
      Quiet-Fetched keys c c' (try_release-Quiet keys e i o p c c' h) f

  new-Fetched :
      (capacity shards : ℕ) (pool : Q) (metrics : Metrics) (c : GenericCache K V C X T S Q)
      → new keys e i o capacity shards pool metrics ≡ some c
      → Fetched keys c
  unfolding new of_slots waiters_of lock index
  new-Fetched capacity shards pool metrics c h k txs h' = elim (Bool-cases (shards == 0)) [
    | inl zero_shards ↦ absurd (none-ne-some (sym (rw zero_shards refl) ∙ h))
    | inr some_shards ↦
        let n = capacity / shards in
        let f : List (Slot K T S) → Option (GenericCache K V C X T S Q) =
          λ slots. some (of_slots keys e i o capacity pool metrics slots) in
        let made : (new_slots keys e i o shards n pool metrics >>= f) ≡ some c =
          sym (rw some_shards refl) ∙ h in
        let (slots, h1, h2) = some_of_bind (new_slots keys e i o shards n pool metrics) f c made in
        let empty = new_slots-none shards n pool metrics slots (hash_one k % length slots) k h1 in
        let none_wait = subst (λ x. waiters_of keys k x ≡ none) (some-inj h2) empty in
        absurd (none-ne-some (sym none_wait ∙ h'))
  ]

  -- In every run, whoever waits for a key waits for a fetch that is under way: whatever calls came
  -- between, and also after a fetch of the same key ended.
  pub Reachable-Fetched : (c : GenericCache K V C X T S Q) → Reachable c → Fetched keys c
  Reachable-Fetched c (start capacity shards pool metrics h) =
      new-Fetched capacity shards pool metrics c h
  Reachable-Fetched c (after {c = before} r s) =
      Step-Fetched before c s (Reachable-Fetched before r)
