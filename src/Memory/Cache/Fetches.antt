-- ===== src/Memory/Cache/Fetches.antt =====
-- foyer-memory/src/generic.rs: the fetches that the waiters of a cache wait for, over one call.
use foyer.Prelude.{
  ℕ, suc, ◌≡◌, refl, sym, ap, subst, ◌∙◌, inl, inr, Bool, true, false, ◌&&◌, ◌||◌, Option, none,
  some, List, [], ◌∷◌, ◌++◌, arith, ◌==◌, if◌then◌else◌, Bool-cases, wrapping_add,
}
use foyer.Prelude.{some-inj, none-ne-some, some_of_bind}
use foyer.Memory.Indexer.{KeyOps}
use foyer.Memory.Shard.{Shard}
use foyer.Memory.Cache.{Waiters, Slot, GenericCache, find, delete, view, put, index, lock}
use foyer.Memory.Cache.Waiters.{find-delete}
use foyer.Memory.Cache.Operations.{entry_at, request, waiting, fail, end_task, without_task}
use foyer.Memory.Cache.Calls.{asked, ask, waiters_of, put-waiters, Quiet, put-Quiet}
use foyer.Memory.Cache.Answers.{Answered, put-delete-Answered}

module _ {ℓ} {K : Type ℓ} (keys : KeyOps K) where
  open keys use {beq}

  -- A fetch of the key is under way.
  unfoldable pub fetching : K → List (ℕ × K) → Bool
  fetching k [] = false
  fetching k ((_, k') ∷ ts) = beq k k' || fetching k ts

  -- The task is under way, for the key.
  unfoldable pub is_task : ℕ → K → List (ℕ × K) → Bool
  is_task task k [] = false
  is_task task k ((task', k') ∷ ts) = (task == task' && beq k k') || is_task task k ts

  -- The other keys' tasks stay.
  pub fetching-without_task :
      (task : ℕ) (k j : K) (ts : List (ℕ × K))
      → beq j k ≡ false
      → fetching j ts ≡ true
      → fetching j (without_task keys task k ts) ≡ true
  unfolding fetching without_task
  fetching-without_task task k j [] far h = ground (arith, h)
  fetching-without_task task k j ((task', k') ∷ ts) far h =
      ground (arith, h, fetching-without_task task k j ts far, keys.beq_iff k k', ap (beq j))

module _ {ℓ} {K V : Type ℓ} {C X T S Q : Type 0} (keys : KeyOps K) where
  -- Whoever waits for a key waits for a fetch that is under way.
  abbrev pub Fetched : GenericCache K V C X T S Q → Type ℓ
  Fetched c =
      (k : K) (txs : List ℕ) → waiters_of keys k c ≡ some txs → fetching keys k c.tasks ≡ true

  pub Quiet-Fetched : (c c' : GenericCache K V C X T S Q) → Quiet keys c c' → Fetched c → Fetched c'
  Quiet-Fetched c c' q f k txs h = rw q.tasks (f k txs (sym (q.waiters k) ∙ h))

  pub Answered-Fetched :
      (k : K) (c c' : GenericCache K V C X T S Q) → Answered keys k c c' → Fetched c → Fetched c'
  Answered-Fetched k c c' a f j txs h = elim (Bool-cases (keys.beq j k)) [
    | inl near ↦ absurd (none-ne-some (sym (a.waiters j ∙ rw near refl) ∙ h))
    | inr far ↦ rw a.tasks (f j txs (sym (a.waiters j ∙ rw far refl) ∙ h))
  ]

  -- The end of a task whose key has no waiters.
  pub end_task-Fetched :
      (task : ℕ) (k : K) (c : GenericCache K V C X T S Q)
      → waiters_of keys k c ≡ none
      → Fetched c
      → Fetched (end_task keys task k c)
  unfolding end_task waiters_of lock index
  end_task-Fetched task k c gone f j txs h = elim (Bool-cases (keys.beq j k)) [
    | inl near ↦ absurd (
        none-ne-some
          (sym gone ∙ ap (λ x. waiters_of keys x c) (sym ((keys.beq_iff j k).0 near)) ∙ h))
    | inr far ↦ fetching-without_task keys task k j c.tasks far (f j txs h)
  ]

  pub fail-Answered :
      (k : K) (c c' : GenericCache K V C X T S Q)
      → fail keys k c ≡ some c'
      → Answered keys k c c'
        × (c'.broken ≡ c.broken ++ waiting (waiters_of keys k c))
        × (c'.delivered ≡ c.delivered)
  unfolding fail waiters_of ask put lock index
  fail-Answered k c c' h =
      let (slot, h1, h2) = some_of_bind (lock (keys.hash_one k) c) _ c' h in
      let a = put-delete-Answered keys k slot (view slot c) c h1 in
      subst
        (λ x.
          Answered keys k c x
          × (x.broken ≡ c.broken ++ waiting (ask keys k (lock (keys.hash_one k) c)))
          × (x.delivered ≡ c.delivered))
        (some-inj h2) (record { waiters = a.waiters; tasks = a.tasks }, rw h1 refl, refl)

  -- The waiters of a key are written anew; those of no other key change.
  put_cons-waiters :
      (k j : K) (txs : List ℕ) (w : Waiters K) (slot : Slot K T S) (s : Shard K V C X T S Q)
      (c : GenericCache K V C X T S Q)
      → lock (keys.hash_one k) c ≡ some slot
      → (keys.beq j k ≡ false → find keys j w ≡ find keys j slot.waiters)
      → waiters_of keys j (put (index (keys.hash_one k) c) ((k, txs) ∷ w) s c)
        ≡ (if keys.beq j k then some txs else waiters_of keys j c)
  unfolding find lock
  put_cons-waiters k j txs w slot s c h same =
      put-waiters keys j (index (keys.hash_one k) c) ((k, txs) ∷ w) slot s c h
      ∙ elim (Bool-cases (index (keys.hash_one j) c == index (keys.hash_one k) c)) [
        | inl e ↦ elim (Bool-cases (keys.beq j k)) [
          | inl near ↦ rw (e, near) refl
          | inr far ↦ rw (e, far) (same far ∙ asked keys (index (keys.hash_one k) c) slot c h j e)
        ]
        | inr e ↦ elim (Bool-cases (keys.beq j k)) [
          | inl near ↦
              absurd
                (ground (arith, e, ap (λ x. index (keys.hash_one x) c) ((keys.beq_iff j k).0 near)))
          | inr far ↦ rw (e, far) refl
        ]
      ]

  waiters_of-slot :
      (k : K) (slot : Slot K T S) (c : GenericCache K V C X T S Q)
      → lock (keys.hash_one k) c ≡ some slot
      → waiters_of keys k c ≡ find keys k slot.waiters
  unfolding waiters_of ask
  waiters_of-slot k slot c h = rw h refl

  -- One more waits, or a task begins.
  request-Fetched :
      (k : K) (o : Option (List ℕ)) (slot : Slot K T S) (s : Shard K V C X T S Q)
      (c : GenericCache K V C X T S Q)
      → lock (keys.hash_one k) c ≡ some slot
      → find keys k slot.waiters ≡ o
      → Fetched c
      → Fetched (request keys k (index (keys.hash_one k) c) slot.waiters o s c).1
  unfolding request put fetching waiters_of lock index
  request-Fetched k (some txs) slot s c h e f j txs' h' =
      let eq =
        put_cons-waiters k j (txs ++ c.next_channel ∷ []) (delete keys k slot.waiters) slot
          (record s { metrics = record s.metrics { queue = wrapping_add s.metrics.queue 1 } })
          (record c { next_channel = suc c.next_channel }) h
          (λ far. find-delete keys k j slot.waiters ∙ rw far refl) in
      elim (Bool-cases (keys.beq j k)) [
        | inl near ↦ f j txs (
            ap (λ x. waiters_of keys x c) ((keys.beq_iff j k).0 near)
            ∙ waiters_of-slot k slot c h
            ∙ e)
        | inr far ↦ f j txs' (sym (eq ∙ rw far refl) ∙ h')
      ]
  request-Fetched k none slot s c h e f j txs' h' =
      let eq =
        put_cons-waiters k j [] slot.waiters slot
          (record s { metrics = record s.metrics { fetch = wrapping_add s.metrics.fetch 1 } })
          (record c { tasks = (c.next_task, k) ∷ c.tasks; next_task = suc c.next_task }) h
          (λ far. refl) in
      elim (Bool-cases (keys.beq j k)) [
        | inl near ↦ rw near refl
        | inr far ↦ rw far (f j txs' (sym (eq ∙ rw far refl) ∙ h'))
      ]

  pub entry_at-Fetched :
      (k : K) (found : Option ℕ) (slot : Slot K T S) (s : Shard K V C X T S Q)
      (c : GenericCache K V C X T S Q)
      → lock (keys.hash_one k) c ≡ some slot
      → Fetched c
      → Fetched (entry_at keys k (index (keys.hash_one k) c) slot.waiters found s c).1
  unfolding entry_at lock
  entry_at-Fetched k (some p) slot s c h f =
      Quiet-Fetched c (put (index (keys.hash_one k) c) slot.waiters s c)
        (put-Quiet keys (index (keys.hash_one k) c) slot s c h) f
  entry_at-Fetched k none slot s c h f =
      request-Fetched k (find keys k slot.waiters) slot s c h refl f
