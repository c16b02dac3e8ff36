-- ===== src/Memory/Cache/Calls.antt =====
-- foyer-memory/src/generic.rs: what the methods of `GenericCache` do to the waiters and the tasks.
use foyer.Prelude.{
  ℕ, suc, ◌+◌, ◌%◌, ◌≡◌, refl, sym, ap, subst, ◌∙◌, inl, inr, Bool, true, Option, none, some, List,
  [], ◌∷◌, ◌++◌, arith, ◌==◌, if◌then◌else◌, ==_iff, ==_of_ne, Bool-cases, length,
}
use foyer.Prelude.{some-inj, some_of_bind}
use foyer.Memory.Eviction.{Eviction}
use foyer.Memory.Indexer.{KeyOps, Indexer}
use foyer.Memory.Shard
use foyer.Memory.Shard.{Shard, Metrics, Entry, ObjectPool, collect}
use foyer.Memory.Cache.{
  Waiters, Slot, GenericCache, slot_at, set_slot, find, delete, view, put, index, lock, hear,
}
use foyer.Memory.Cache.Slots.{slot_at-set_slot, length-set_slot}
use foyer.Memory.Cache.Waiters.{find-delete}
use foyer.Memory.Cache.Operations.{
  try_release_external_handle, send, send_each, remove, get, clear_each, clear,
}

module _ {ℓ} {K : Type ℓ} {T S : Type 0} (keys : KeyOps K) where
  unfoldable pub ask : K → Option (Slot K T S) → Option (List ℕ)
  ask k none = none
  ask k (some slot) = find keys k slot.waiters

module _ {ℓ} {K V : Type ℓ} {C X T S Q : Type 0} (keys : KeyOps K) where
  open keys use {hash_one, beq}

  -- Those that wait for a key.
  unfoldable pub waiters_of : K → GenericCache K V C X T S Q → Option (List ℕ)
  waiters_of k c = ask keys k (lock (hash_one k) c)

  pub put-waiters :
      (k : K) (n : ℕ) (w : Waiters K) (slot : Slot K T S) (s : Shard K V C X T S Q)
      (c : GenericCache K V C X T S Q)
      → slot_at n c.shards ≡ some slot
      → waiters_of k (put n w s c)
        ≡ (if index (hash_one k) c == n then find keys k w else waiters_of k c)
  unfolding waiters_of ask put index lock
  put-waiters k n w slot s c h =
      let slot' : Slot K T S = record {
        indexer = s.indexer;
        eviction = s.eviction;
        capacity = s.capacity;
        usage = s.usage;
        waiters = w;
      } in
      let at = slot_at-set_slot n (hash_one k % length c.shards) slot slot' c.shards h in
      rw (length-set_slot n slot' c.shards, at)
        (elim (Bool-cases (hash_one k % length c.shards == n)) [
          | inl e ↦ rw e refl
          | inr e ↦ rw e refl
        ])

  -- Nobody begins or ends to wait.
  pub record Quiet (c c' : GenericCache K V C X T S Q) : Type ℓ where
    pub waiters : (k : K) → waiters_of k c' ≡ waiters_of k c
    pub tasks : c'.tasks ≡ c.tasks
    pub broken : c'.broken ≡ c.broken

  pub Quiet-then : (c c' c'' : GenericCache K V C X T S Q) → Quiet c c' → Quiet c' c'' → Quiet c c''
  Quiet-then c c' c'' q q' = record {
    waiters = λ k. q'.waiters k ∙ q.waiters k;
    tasks = q'.tasks ∙ q.tasks;
    broken = q'.broken ∙ q.broken;
  }

  -- The waiters of a key, by the shard that it goes to.
  pub asked :
      (n : ℕ) (slot : Slot K T S) (c : GenericCache K V C X T S Q)
      → slot_at n c.shards ≡ some slot
      → (k : K) → (index (hash_one k) c == n) ≡ true
      → find keys k slot.waiters ≡ waiters_of k c
  unfolding waiters_of lock ask
  asked n slot c h k e = rw ((==_iff (index (hash_one k) c) n).0 e, h) refl

  pub put-Quiet :
      (n : ℕ) (slot : Slot K T S) (s : Shard K V C X T S Q) (c : GenericCache K V C X T S Q)
      → slot_at n c.shards ≡ some slot
      → Quiet c (put n slot.waiters s c)
  unfolding put
  put-Quiet n slot s c h = record {
    waiters = λ k.
        put-waiters k n slot.waiters slot s c h ∙ elim (Bool-cases (index (hash_one k) c == n)) [
          | inl e ↦ rw e (asked n slot c h k e)
          | inr e ↦ rw e refl
        ];
    tasks = refl;
    broken = refl;
  }

  pub same_shards-Quiet :
      (c c' : GenericCache K V C X T S Q)
      → c'.shards ≡ c.shards
      → c'.tasks ≡ c.tasks
      → c'.broken ≡ c.broken
      → Quiet c c'
  unfolding waiters_of lock index
  same_shards-Quiet c c' h t b = record { waiters = λ k. rw h refl; tasks = t; broken = b }

  pub hear-put-Quiet :
      (n : ℕ) (slot : Slot K T S) (s : Shard K V C X T S Q) (out : List (Entry K V C))
      (c : GenericCache K V C X T S Q)
      → slot_at n c.shards ≡ some slot
      → Quiet c (hear out (put n slot.waiters s c))
  unfolding hear
  hear-put-Quiet n slot s out c h =
      Quiet-then c (put n slot.waiters s c) (hear out (put n slot.waiters s c))
        (put-Quiet n slot s c h) (same_shards-Quiet _ _ refl refl refl)

  -- The waiters of a key go; no others do.
  pub put-delete-waiters :
      (k j : K) (slot : Slot K T S) (s : Shard K V C X T S Q) (c : GenericCache K V C X T S Q)
      → lock (hash_one k) c ≡ some slot
      → waiters_of j (put (index (hash_one k) c) (delete keys k slot.waiters) s c)
        ≡ (if beq j k then none else waiters_of j c)
  unfolding lock
  put-delete-waiters k j slot s c h =
      put-waiters j (index (hash_one k) c) (delete keys k slot.waiters) slot s c h
      ∙ elim (Bool-cases (index (hash_one j) c == index (hash_one k) c)) [
        | inl e ↦
            rw (e, find-delete keys k j slot.waiters, asked (index (hash_one k) c) slot c h j e)
              refl
        | inr e ↦ elim (Bool-cases (beq j k)) [
          | inl e' ↦
              absurd (ground (arith, e, ap (λ x. index (hash_one x) c) ((keys.beq_iff j k).0 e')))
          | inr e' ↦ rw (e, e') refl
        ]
      ]

module _ {ℓ} {K V : Type ℓ} {C X T S Q : Type 0} (keys : KeyOps K) (e : Eviction K V C X S)
    (i : Indexer K V C X T) (o : ObjectPool Q) where
  open keys use {hash_one, beq}

  pub try_release-Quiet :
      (p : ℕ) (c c' : GenericCache K V C X T S Q)
      → try_release_external_handle keys e i o p c ≡ some c'
      → Quiet keys c c'
  unfolding try_release_external_handle lock
  try_release-Quiet p c c' h =
      let n = index (c.memory p).base.hash c in
      let (slot, h1, h2) = some_of_bind (slot_at n c.shards) _ c' h in
      let (r, _, h4) =
        some_of_bind (Shard.try_release_external_handle e i o p (view slot c)) _ c' h2 in
      subst (Quiet keys c) (some-inj h4) (hear-put-Quiet keys n slot r.1 (collect r.0 []) c h1)

  pub send-Quiet :
      (receiving : ℕ → Bool) (p tx : ℕ) (c c' : GenericCache K V C X T S Q)
      → send keys e i o receiving p tx c ≡ some c'
      → Quiet keys c c'
  unfolding send
  send-Quiet receiving p tx c c' h = elim (Bool-cases (receiving tx)) [
    | inl on ↦ subst (Quiet keys c) (some-inj (sym (rw on refl) ∙ h)) (
        same_shards-Quiet keys c (record c { delivered = c.delivered ++ (tx, p) ∷ [] }) refl refl
          refl)
    | inr off ↦ try_release-Quiet p c c' (sym (rw off refl) ∙ h)
  ]

  pub send_each-Quiet :
      (receiving : ℕ → Bool) (p : ℕ) (txs : List ℕ) (c c' : GenericCache K V C X T S Q)
      → send_each keys e i o receiving p txs c ≡ some c'
      → Quiet keys c c'
  unfolding send_each
  send_each-Quiet receiving p [] c c' h =
      same_shards-Quiet keys c c' (ap (λ x. x.shards) (sym (some-inj h)))
        (ap (λ x. x.tasks) (sym (some-inj h))) (ap (λ x. x.broken) (sym (some-inj h)))
  send_each-Quiet receiving p (tx ∷ txs) c c' h =
      let (c1, h1, h2) = some_of_bind (send keys e i o receiving p tx c) _ c' h in
      Quiet-then keys c c1 c' (send-Quiet receiving p tx c c1 h1)
        (send_each-Quiet receiving p txs c1 c' h2)

  pub remove-Quiet :
      (k : K) (c c' : GenericCache K V C X T S Q)
      → remove keys e i o k c ≡ some c'
      → Quiet keys c c'
  unfolding remove lock
  remove-Quiet k c c' h =
      let n = index (hash_one k) c in
      let (slot, h1, h2) = some_of_bind (slot_at n c.shards) _ c' h in
      let (r, _, h4) = some_of_bind (Shard.remove e i o (hash_one k) k (view slot c)) _ c' h2 in
      subst (Quiet keys c) (some-inj h4) (hear-put-Quiet keys n slot r.1 (collect r.0 []) c h1)

  pub get-Quiet :
      (k : K) (found : Option ℕ) (c c' : GenericCache K V C X T S Q)
      → get keys e i o k c ≡ some (found, c')
      → Quiet keys c c'
  unfolding get lock
  get-Quiet k found c c' h =
      let n = index (hash_one k) c in
      let (slot, h1, h2) = some_of_bind (slot_at n c.shards) _ (found, c') h in
      let (r, _, h4) =
        some_of_bind (Shard.get e i o (hash_one k) k (view slot c)) _ (found, c') h2 in
      subst (Quiet keys c) (ap (λ x. x.1) (some-inj h4)) (put-Quiet keys n slot r.1 c h1)

  -- A write to a place leaves the places behind it.
  beyond :
      (m n : ℕ) (slot slot' : Slot K T S) (slots : List (Slot K T S))
      → slot_at n slots ≡ some slot
      → slot_at (m + suc n) slots ≡ slot_at (m + suc n) (set_slot n slot' slots)
  beyond m n slot slot' slots h = sym (
      slot_at-set_slot n (m + suc n) slot slot' slots h
      ∙ rw (==_of_ne (m + suc n) n (omega arith)) refl)

  clear_each-Quiet :
      (n : ℕ) (slots : List (Slot K T S)) (c c' : GenericCache K V C X T S Q)
      → ((m : ℕ) → slot_at m slots ≡ slot_at (m + n) c.shards)
      → clear_each keys e i o n slots c ≡ some c'
      → Quiet keys c c'
  unfolding clear_each slot_at put
  clear_each-Quiet n [] c c' same h =
      subst (Quiet keys c) (some-inj h) (same_shards-Quiet keys c c refl refl refl)
  clear_each-Quiet n (slot ∷ slots) c c' same h =
      let (r, _, h2) = some_of_bind (Shard.clear e i o (view slot c) []) _ c' h in
      let at : slot_at n c.shards ≡ some slot =
        ap (λ l. slot_at l c.shards) (omega arith) ∙ sym (same 0) in
      Quiet-then keys c (put n slot.waiters r.1 c) c' (put-Quiet keys n slot r.1 c at) (
        clear_each-Quiet (suc n) slots (put n slot.waiters r.1 c) c'
          (λ m.
            same (suc m)
            ∙ ap (λ l. slot_at l c.shards) (omega arith)
            ∙ beyond m n slot _ c.shards at)
          h2)

  pub clear-Quiet :
      (c c' : GenericCache K V C X T S Q) → clear keys e i o c ≡ some c' → Quiet keys c c'
  unfolding clear
  clear-Quiet c c' h =
      clear_each-Quiet 0 c.shards c c' (λ m. ap (λ l. slot_at l c.shards) (omega arith)) h
