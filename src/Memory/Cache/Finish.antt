-- ===== src/Memory/Cache/Finish.antt =====
-- foyer-memory/src/generic.rs: the end of a fetch answers whoever waits for its key.
use foyer.Prelude.{
  ℕ, ◌≡◌, refl, ap, subst, ◌∙◌, ◌⊎◌, inl, inr, Bool, true, false, ◌&&◌, ◌||◌, Option, none, some,
  List, [], ◌∷◌, ◌++◌, arith, ◌==◌, ==_iff, contains, contains-append,
}
use foyer.Prelude.{some-inj, some_of_bind}
use foyer.Memory.Eviction.{Eviction}
use foyer.Memory.Indexer.{KeyOps, Indexer}
use foyer.Memory.Shard.{ObjectPool}
use foyer.Memory.Cache.{GenericCache, index, lock}
use foyer.Memory.Cache.Waiters.{beq_refl}
use foyer.Memory.Cache.Operations.{insert_with_context, waiting, fail, finish, end_task}
use foyer.Memory.Cache.Calls.{waiters_of}
use foyer.Memory.Cache.Answers.{Answered, deliveries, insert-Served}
use foyer.Memory.Cache.Fetches.{fail-Answered}

-- The message is among those that went through the channels.
unfoldable pub is_delivered : ℕ → ℕ → List (ℕ × ℕ) → Bool
is_delivered tx p [] = false
is_delivered tx p ((tx', p') ∷ l) = (tx == tx' && p == p') || is_delivered tx p l

is_delivered-append :
    (tx p : ℕ) (l l' : List (ℕ × ℕ))
    → is_delivered tx p l' ≡ true
    → is_delivered tx p (l ++ l') ≡ true
unfolding is_delivered
is_delivered-append tx p [] l' h = h
is_delivered-append tx p ((tx', p') ∷ l) l' h = ground (arith, is_delivered-append tx p l l' h)

is_delivered-deliveries :
    (receiving : ℕ → Bool) (p tx : ℕ) (txs : List ℕ)
    → contains txs tx ≡ true
    → receiving tx ≡ true
    → is_delivered tx p (deliveries receiving p txs) ≡ true
unfolding is_delivered deliveries contains
is_delivered-deliveries receiving p tx [] i on = ground (arith, i)
is_delivered-deliveries receiving p tx (tx' ∷ txs) i on =
    ground (arith, i, on, is_delivered-deliveries receiving p tx txs, ap receiving, ==_iff tx tx')

module _ {ℓ} {K V : Type ℓ} {C X T S Q : Type 0} (keys : KeyOps K) (e : Eviction K V C X S)
    (i : Indexer K V C X T) (o : ObjectPool Q) where
  -- How the end of the fetch of `k` leaves the receiver of `tx`.
  pub record Ends (k : K) (tx : ℕ) (result : Option (V × ℕ × C)) (out : Option ℕ)
      (c' : GenericCache K V C X T S Q) : Type ℓ where
    pub gone : waiters_of keys k c' ≡ none
    pub answer :
        ((p : ℕ) × (out ≡ some p) × (is_delivered tx p c'.delivered ≡ true))
        ⊎ ((out ≡ none) × (result ≡ none) × (contains c'.broken tx ≡ true))

  none_left :
      (task : ℕ) (k : K) (c c' : GenericCache K V C X T S Q)
      → Answered keys k c c'
      → waiters_of keys k (end_task keys task k c') ≡ none
  unfolding end_task waiters_of lock index
  none_left task k c c' a = a.waiters k ∙ rw (beq_refl keys k) refl

  -- When the fetch of a key ends, nobody waits for the key any more, and who waited has an answer
  -- if it is still there to receive one: the reference that the task returns, or, when the fetch
  -- failed, the end of its channel.
  pub finish-Answers :
      (receiving : ℕ → Bool) (task : ℕ) (k : K) (result : Option (V × ℕ × C)) (out : Option ℕ)
      (c c' : GenericCache K V C X T S Q) (tx : ℕ)
      → finish keys e i o receiving task k result c ≡ some (out, c')
      → contains (waiting (waiters_of keys k c)) tx ≡ true
      → receiving tx ≡ true
      → Ends k tx result out c'
  unfolding finish end_task contains
  finish-Answers receiving task k (some (v, charge, context)) out c c' tx h waits on =
      let (r, h1, h2) =
        some_of_bind (insert_with_context keys e i o receiving k v charge context c) _ (out, c')
          h in
      let served = insert-Served keys e i o receiving k v charge context r.0 c r.1 h1 in
      let txs = waiting (waiters_of keys k c) in
      subst (λ x. Ends k tx (some (v, charge, context)) x.0 x.1) (some-inj h2)
        (record {
          gone = none_left task k c r.1 served.answered;
          answer = inl (
            r.0,
            refl,
            rw served.delivered (
                is_delivered-append tx r.0 c.delivered (deliveries receiving r.0 txs)
                  (is_delivered-deliveries receiving r.0 tx txs waits on)),
          );
        })
  finish-Answers receiving task k none out c c' tx h waits on =
      let (c1, h1, h2) = some_of_bind (fail keys k c) _ (out, c') h in
      let (a, broken, _) = fail-Answered keys k c c1 h1 in
      let txs = waiting (waiters_of keys k c) in
      subst (λ x. Ends k tx none x.0 x.1) (some-inj h2)
        (record {
          gone = none_left task k c c1 a;
          answer =
              inr (refl, refl, rw broken (ground (arith, contains-append c.broken txs tx, waits)));
        })
