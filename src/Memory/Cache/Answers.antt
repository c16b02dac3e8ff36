-- ===== src/Memory/Cache/Answers.antt =====
-- foyer-memory/src/generic.rs: how an insertion or the end of a fetch answers those that wait.
use foyer.Prelude.{
  ℕ, ◌≡◌, refl, sym, ap, subst, ◌∙◌, inl, inr, Bool, none, some, List, [], ◌∷◌, ◌++◌, if◌then◌else◌,
  Bool-cases, length,
}
use foyer.Prelude.{some-inj, some_of_bind}
use mathlib.Core.List.{append-nil, append_assoc}
use foyer.Memory.Handle.{on_base, inc_refs_by}
use foyer.Memory.Eviction.{Eviction}
use foyer.Memory.Indexer.{KeyOps, Indexer}
use foyer.Memory.Shard
use foyer.Memory.Shard.{Shard, Metrics, Entry, ObjectPool, collect}
use foyer.Memory.Cache.{Slot, GenericCache, find, delete, view, put, index, lock, hear}
use foyer.Memory.Cache.Operations.{
  try_release_external_handle, send, send_each, insert_with_context, waiting,
}
use foyer.Memory.Cache.Calls.{
  ask, waiters_of, put-delete-waiters, Quiet, Quiet-then, same_shards-Quiet, send_each-Quiet,
}

-- What goes through the channels whose receiver is there.
unfoldable pub deliveries : (receiving : ℕ → Bool) → ℕ → List ℕ → List (ℕ × ℕ)
deliveries receiving p [] = []
deliveries receiving p (tx ∷ txs) =
    if receiving tx then (tx, p) ∷ deliveries receiving p txs else deliveries receiving p txs

module _ {ℓ} {K V : Type ℓ} {C X T S Q : Type 0} (keys : KeyOps K) where
  open keys use {hash_one, beq}

  -- Nobody waits for the key any more; all else is as it was.
  pub record Answered (k : K) (c c' : GenericCache K V C X T S Q) : Type ℓ where
    pub waiters : (j : K) → waiters_of keys j c' ≡ (if beq j k then none else waiters_of keys j c)
    pub tasks : c'.tasks ≡ c.tasks

  pub Answered-Quiet :
      (k : K) (c c' c'' : GenericCache K V C X T S Q)
      → Answered k c c'
      → Quiet keys c' c''
      → Answered k c c''
  Answered-Quiet k c c' c'' a q = record {
    waiters = λ j. q.waiters j ∙ a.waiters j;
    tasks = q.tasks ∙ a.tasks;
  }

  pub put-delete-Answered :
      (k : K) (slot : Slot K T S) (s : Shard K V C X T S Q) (c : GenericCache K V C X T S Q)
      → lock (hash_one k) c ≡ some slot
      → Answered k c (put (index (hash_one k) c) (delete keys k slot.waiters) s c)
  unfolding put
  put-delete-Answered k slot s c h = record {
    waiters = λ j. put-delete-waiters keys k j slot s c h;
    tasks = refl;
  }

module _ {ℓ} {K V : Type ℓ} {C X T S Q : Type 0} (keys : KeyOps K) (e : Eviction K V C X S)
    (i : Indexer K V C X T) (o : ObjectPool Q) where
  open keys use {hash_one, beq}

  try_release-delivered :
      (p : ℕ) (c c' : GenericCache K V C X T S Q)
      → try_release_external_handle keys e i o p c ≡ some c'
      → c'.delivered ≡ c.delivered
  unfolding try_release_external_handle hear put
  try_release-delivered p c c' h =
      let hash = (c.memory p).base.hash in
      let (slot, h1, h2) = some_of_bind (lock hash c) _ c' h in
      let (r, _, h4) =
        some_of_bind (Shard.try_release_external_handle e i o p (view slot c)) _ c' h2 in
      ap (λ x. x.delivered) (sym (some-inj h4))

  send_each-delivered :
      (receiving : ℕ → Bool) (p : ℕ) (txs : List ℕ) (c c' : GenericCache K V C X T S Q)
      → send_each keys e i o receiving p txs c ≡ some c'
      → c'.delivered ≡ c.delivered ++ deliveries receiving p txs
  unfolding send_each send deliveries
  send_each-delivered receiving p [] c c' h =
      ap (λ x. x.delivered) (sym (some-inj h)) ∙ sym (append-nil c.delivered)
  send_each-delivered receiving p (tx ∷ txs) c c' h =
      let (c1, h1, h2) = some_of_bind (send keys e i o receiving p tx c) _ c' h in
      let rest = send_each-delivered receiving p txs c1 c' h2 in
      elim (Bool-cases (receiving tx)) [
        | inl on ↦
            let c2 : GenericCache K V C X T S Q = record c {
              delivered = c.delivered ++ (tx, p) ∷ [];
            } in
            let sent : some c2 ≡ some c1 = sym (rw on refl) ∙ h1 in
            let at : c1.delivered ≡ c.delivered ++ (tx, p) ∷ [] =
              ap (λ x. x.delivered) (sym (some-inj sent)) in
            rest
            ∙ rw (at, on) (append_assoc c.delivered ((tx, p) ∷ []) (deliveries receiving p txs))
        | inr off ↦
            let at : c1.delivered ≡ c.delivered =
              try_release-delivered p c c1 (sym (rw off refl) ∙ h1) in
            rest ∙ rw (at, off) refl
      ]

  -- Those that wait for the key get `p`, each with a receiver, and no channel breaks.
  pub record Served (receiving : ℕ → Bool) (k : K) (p : ℕ) (c c' : GenericCache K V C X T S Q)
      : Type ℓ where
    pub answered : Answered keys k c c'
    pub delivered :
        c'.delivered ≡ c.delivered ++ deliveries receiving p (waiting (waiters_of keys k c))
    pub unbroken : c'.broken ≡ c.broken

  hear-Quiet :
      (out : List (Entry K V C)) (c : GenericCache K V C X T S Q) → Quiet keys c (hear out c)
  unfolding hear
  hear-Quiet out c = same_shards-Quiet keys c (hear out c) refl refl refl

  -- The part of the insertion behind the call of the shard.
  sent-Served :
      (receiving : ℕ → Bool) (k : K) (p : ℕ) (slot : Slot K T S) (s : Shard K V C X T S Q)
      (out : List (Entry K V C)) (c c' : GenericCache K V C X T S Q)
      → lock (hash_one k) c ≡ some slot
      → send_each keys e i o receiving p
          (waiting (find keys k slot.waiters))
          (put (index (hash_one k) c) (delete keys k slot.waiters) s c)
        ≡ some c'
      → Served receiving k p c (hear out c')
  unfolding waiters_of hear put ask
  sent-Served receiving k p slot s out c c' h sent =
      let txs = waiting (find keys k slot.waiters) in
      let c1 = put (index (hash_one k) c) (delete keys k slot.waiters) s c in
      let quiet = send_each-Quiet keys e i o receiving p txs c1 c' sent in
      record {
        answered =
            Answered-Quiet keys k c c1 (hear out c') (put-delete-Answered keys k slot s c h)
              (Quiet-then keys c1 c' (hear out c') quiet (hear-Quiet out c'));
        delivered = rw h (send_each-delivered receiving p txs c1 c' sent);
        unbroken = quiet.broken;
      }

  -- The insertion of a key answers all that wait for it with the new reference.
  pub insert-Served :
      (receiving : ℕ → Bool) (k : K) (v : V) (charge : ℕ) (context : C) (p : ℕ)
      (c c' : GenericCache K V C X T S Q)
      → insert_with_context keys e i o receiving k v charge context c ≡ some (p, c')
      → Served receiving k p c c'
  unfolding insert_with_context
  insert-Served receiving k v charge context p c c' h =
      let hash = hash_one k in
      let (slot, h1, h2) = some_of_bind (lock hash c) _ (p, c') h in
      let txs = waiting (find keys k slot.waiters) in
      let (r, _, h4) =
        some_of_bind (Shard.insert e i o hash k v charge context (view slot c) []) _ (p, c') h2 in
      let s : Shard K V C X T S Q = record (r.2) {
        memory = on_base (inc_refs_by (length txs)) r.0 (r.2).memory;
      } in
      let (c2, h5, h6) =
        some_of_bind
          (send_each keys e i o receiving r.0 txs
            (put (index hash c) (delete keys k slot.waiters) s c))
          _ (p, c') h4 in
      subst (λ x. Served receiving k x.0 c x.1) (some-inj h6)
        (sent-Served receiving k r.0 slot s r.1 c c2 h1 h5)
