-- ===== src/Memory/Cache/Serve.antt =====
-- foyer-memory/src/generic.rs: the references that `insert_with_context` makes, for a cache with
-- one shard.
use foyer.Prelude.{
  ℕ, suc, ◌+◌, ◌%◌, ◌<◌, ◌≡◌, refl, ap, subst, inl, inr, Bool, true, none, some, List, [], ◌∷◌,
  ◌++◌, arith, if◌then◌else◌, ==_refl, Bool-cases, usize_mod, wrapping_add, wrapping_sub, contains,
  length,
}
use foyer.Memory.Handle.{on_base, in_indexer, has_refs, key, inc_refs_by, dec_refs}
use foyer.Memory.Shard
use foyer.Memory.Shard.{Shard, Metrics, Entry, ObjectPool, collect}
use foyer.Memory.Shard.Invariant.{Parts, IsValid, counted-Inv, get_own_key}
use foyer.Memory.Shard.Insert.{Inserts, insert-Inserts}
use foyer.Memory.Cache.{
  Waiters, Slot, GenericCache, slot_at, set_slot, find, delete, view, put, index, lock, hear,
}
use foyer.Memory.Cache.Operations.{
  try_release_external_handle, send, send_each, insert_with_context, waiting,
}
use foyer.Memory.Cache.Calls.{waiters_of, ask}

-- How many of the receivers are there.
unfoldable pub count_receiving : (receiving : ℕ → Bool) → List ℕ → ℕ
count_receiving receiving [] = 0
count_receiving receiving (tx ∷ txs) =
    (if receiving tx then 1 else 0) + count_receiving receiving txs

module _ {ℓ} {K V : Type ℓ} {C X T S Q : Type 0} (parts : Parts K V C X T S Q) where
  open parts use {keys, e, i, o}

  -- The cache has one shard, which is valid, and the handle that it indexes for the key has so
  -- many references.
  pub record Holds (k : K) (v : V) (x : C) (p refs : ℕ) (c : GenericCache K V C X T S Q)
      : Type ℓ where
    pub slot : Slot K T S
    pub one : c.shards ≡ slot ∷ []
    pub valid : IsValid parts (view slot c)
    pub indexed : in_indexer c.memory p ≡ true
    pub entry : (c.memory p).base.entry ≡ some (k, v, x)
    pub refs_are : (c.memory p).base.refs ≡ refs

  -- The shard as a slot.
  abbrev slot_of : Waiters K → Shard K V C X T S Q → Slot K T S
  slot_of w s = record {
    indexer = s.indexer;
    eviction = s.eviction;
    capacity = s.capacity;
    usage = s.usage;
    waiters = w;
  }

  lock_one :
      (hash : ℕ) (slot : Slot K T S) (c : GenericCache K V C X T S Q)
      → c.shards ≡ slot ∷ []
      → (index hash c ≡ 0) × (lock hash c ≡ some slot)
  unfolding lock index slot_at
  lock_one hash slot c h =
      let at : hash % length c.shards ≡ 0 = rw h (omega arith) in (at, rw (at, h) refl)

  shard_release :
      (p : ℕ) (s : Shard K V C X T S Q)
      → has_refs (dec_refs (s.memory p).base) ≡ true
      → Shard.try_release_external_handle e i o p s
        ≡ some (none, record s { memory = on_base dec_refs p s.memory })
  unfolding Shard.try_release_external_handle Shard.try_release_handle
  shard_release p s h =
      let still : has_refs (on_base dec_refs p s.memory p).base ≡ true = ground (arith, h) in
      rw still refl

  -- A reference among others is dropped.
  release_one :
      (k : K) (v : V) (x : C) (p r : ℕ) (c : GenericCache K V C X T S Q)
      → Holds k v x p (suc (suc r)) c
      → suc (suc r) < usize_mod
      → (c' : GenericCache K V C X T S Q) × (try_release_external_handle keys e i o p c ≡ some c')
        × Holds k v x p (suc r) c'
  unfolding try_release_external_handle put hear view dec_refs wrapping_sub contains set_slot
  release_one k v x p r c h b =
      let (at, locked) = lock_one (c.memory p).base.hash h.slot c h.one in
      let s = view h.slot c in
      let s' : Shard K V C X T S Q = record s { memory = on_base dec_refs p c.memory } in
      let still : has_refs (dec_refs (c.memory p).base) ≡ true = ground (arith, h.refs_are, b) in
      (
        hear [] (put 0 h.slot.waiters s' c),
        rw (locked, shard_release p s still, at) refl,
        record {
          slot = slot_of h.slot.waiters s';
          one = rw h.one refl;
          valid =
              counted-Inv parts none [] [] (λ n. wrapping_sub n 1) p s h.valid (λ q a. refl)
                (λ a z _. absurd (ground (arith, z, h.refs_are, b)));
          indexed = ground (arith, h.indexed);
          entry = ground (arith, h.entry);
          refs_are = ground (arith, h.refs_are, b, ==_refl p);
        },
      )

  sent_one :
      (k : K) (v : V) (x : C) (p r : ℕ) (out : List (ℕ × ℕ)) (c : GenericCache K V C X T S Q)
      → Holds k v x p r c
      → Holds k v x p r (record c { delivered = c.delivered ++ out })
  unfolding view
  sent_one k v x p r out c h = record {
    slot = h.slot;
    one = h.one;
    valid = h.valid;
    indexed = h.indexed;
    entry = h.entry;
    refs_are = h.refs_are;
  }

  send_each-Holds :
      (receiving : ℕ → Bool) (k : K) (v : V) (x : C) (p r : ℕ) (txs : List ℕ)
      (c : GenericCache K V C X T S Q)
      → Holds k v x p (suc (length txs + r)) c
      → suc (length txs + r) < usize_mod
      → (c' : GenericCache K V C X T S Q) × (send_each keys e i o receiving p txs c ≡ some c')
        × Holds k v x p (suc (count_receiving receiving txs + r)) c'
  unfolding send_each send count_receiving
  send_each-Holds receiving k v x p r [] c h b = (c, refl, h)
  send_each-Holds receiving k v x p r (tx ∷ txs) c h b = elim (Bool-cases (receiving tx)) [
    | inl on ↦
        let c1 : GenericCache K V C X T S Q = record c {
          delivered = c.delivered ++ (tx, p) ∷ [];
        } in
        let shift : (n : ℕ) → suc (suc n + r) ≡ suc (n + suc r) = λ n. omega arith in
        let (c', f, h') =
          send_each-Holds receiving k v x p (suc r) txs c1
            (subst (λ n. Holds k v x p n c1) (shift (length txs))
              (sent_one k v x p _ ((tx, p) ∷ []) c h))
            (omega (arith, b)) in
        (c', rw on f, rw on (subst (λ n. Holds k v x p n c') (omega arith) h'))
    | inr off ↦
        let (c1, g, h1) =
          release_one k v x p (length txs + r) c (subst (λ n. Holds k v x p n c) (omega arith) h)
            (omega (arith, b)) in
        let (c', f, h') = send_each-Holds receiving k v x p r txs c1 h1 (omega (arith, b)) in
        (c', rw (off, g) f, rw off (subst (λ n. Holds k v x p n c') (omega arith) h'))
  ]

  inserted-Holds :
      (k : K) (v : V) (x : C) (charge p n : ℕ) (slot : Slot K T S) (s : Shard K V C X T S Q)
      (w : Waiters K) (s0 : Shard K V C X T S Q) (c : GenericCache K V C X T S Q)
      → c.shards ≡ slot ∷ []
      → Inserts parts k v x charge p s0 [] s
      → suc n < usize_mod
      → Holds k v x p (suc n) (put 0 w (record s { memory = on_base (inc_refs_by n) p s.memory }) c)
  unfolding put view inc_refs_by wrapping_add contains set_slot
  inserted-Holds k v x charge p n slot s w s0 c one y b = record {
    slot = slot_of w (record s { memory = on_base (inc_refs_by n) p s.memory });
    one = rw one refl;
    valid =
        counted-Inv parts none [] [] (λ r. wrapping_add r n) p s y.valid (λ q a. refl)
          (λ a z _. absurd (ground (arith, z, y.refs, b)));
    indexed = ground (arith, y.valid.covered p y.evictable);
    entry = ground (arith, y.entry);
    refs_are = ground (arith, y.refs, b, ==_refl p);
  }

  hear-Holds :
      (k : K) (v : V) (x : C) (p r : ℕ) (out : List (Entry K V C)) (c : GenericCache K V C X T S Q)
      → Holds k v x p r c
      → Holds k v x p r (hear out c)
  unfolding view hear
  hear-Holds k v x p r out c h = record {
    slot = h.slot;
    one = h.one;
    valid = h.valid;
    indexed = h.indexed;
    entry = h.entry;
    refs_are = h.refs_are;
  }

  Holds-found :
      (k : K) (v : V) (x : C) (p r : ℕ) (c : GenericCache K V C X T S Q)
      → (h : Holds k v x p r c) → i.get (keys.hash_one k) k h.slot.indexer c.memory ≡ some p
  unfolding key view
  Holds-found k v x p r c h =
      get_own_key parts k p h.slot.indexer c.memory h.valid.indexer_wf h.indexed
        (ground (arith, h.entry))

  -- The calls of `insert_with_context`, in their order.
  serve_steps :
      (receiving : ℕ → Bool) (k : K) (v : V) (charge p : ℕ) (x : C) (slot : Slot K T S)
      (s : Shard K V C X T S Q) (out : List (Entry K V C)) (c c' : GenericCache K V C X T S Q)
      → index (keys.hash_one k) c ≡ 0
      → lock (keys.hash_one k) c ≡ some slot
      → Shard.insert e i o (keys.hash_one k) k v charge x (view slot c) [] ≡ some (p, out, s)
      → send_each keys e i o receiving p (waiting (find keys k slot.waiters)) (
          put 0
            (delete keys k slot.waiters)
            (record s {
              memory =
                  on_base (inc_refs_by (length (waiting (find keys k slot.waiters)))) p s.memory;
            })
            c)
        ≡ some c'
      → insert_with_context keys e i o receiving k v charge x c ≡ some (p, hear out c')
  unfolding insert_with_context
  serve_steps receiving k v charge p x slot s out c c' f1 f2 f3 f4 = rw (f2, f3, f1, f4) refl

  -- An insertion into a valid cache of one shard never faults and keeps the shard valid. The key is
  -- then found, with one reference for the caller and one for each waiter that is there to
  -- receive it: those for the others were dropped again.
  pub insert_with_context-Serves :
      (receiving : ℕ → Bool) (k : K) (v : V) (charge : ℕ) (x : C) (slot : Slot K T S)
      (c : GenericCache K V C X T S Q)
      → c.shards ≡ slot ∷ []
      → IsValid parts (view slot c)
      → charge < usize_mod
      → length (waiting (waiters_of keys k c)) + 1 < usize_mod
      → (p : ℕ) × (c' : GenericCache K V C X T S Q) × (insert_with_context keys e i o receiving k v
            charge x c
          ≡ some (p, c'))
        × Holds k v x p (suc (count_receiving receiving (waiting (waiters_of keys k c)))) c'
        × ((slot' : Slot K T S) × (c'.shards ≡ slot' ∷ [])
            × (i.get (keys.hash_one k) k slot'.indexer c'.memory ≡ some p))
  unfolding waiters_of ask
  insert_with_context-Serves receiving k v charge x slot c one valid b bw =
      let (at, locked) = lock_one (keys.hash_one k) slot c one in
      let waits : waiting (waiters_of keys k c) ≡ waiting (find keys k slot.waiters) =
        rw locked refl in
      let txs = waiting (find keys k slot.waiters) in
      let w = delete keys k slot.waiters in
      let fits : suc (length txs) < usize_mod = omega (arith, bw, ap (λ l. length l) waits) in
      let (p, out, s, f, y) = insert-Inserts parts k v x charge (view slot c) [] valid b in
      let c1 = put 0 w (record s { memory = on_base (inc_refs_by (length txs)) p s.memory }) c in
      let h1 = inserted-Holds k v x charge p (length txs) slot s w (view slot c) c one y fits in
      let (c2, g, h2) =
        send_each-Holds receiving k v x p 0 txs c1
          (subst (λ n. Holds k v x p n c1) (omega arith) h1) (omega (arith, fits)) in
      let same : suc (count_receiving receiving txs + 0)
          ≡ suc (count_receiving receiving (waiting (waiters_of keys k c))) =
        rw waits (omega arith) in
      let h3 = hear-Holds k v x p (suc (count_receiving receiving txs + 0)) out c2 h2 in
      (
        p,
        hear out c2,
        serve_steps receiving k v charge p x slot s out c c2 at locked f g,
        subst (λ n. Holds k v x p n (hear out c2)) same h3,
        (
          h3.slot,
          h3.one,
          Holds-found k v x p (suc (count_receiving receiving txs + 0)) (hear out c2) h3,
        ),
      )
