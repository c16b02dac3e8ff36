-- ===== src/Memory/Indexer.antt =====
-- foyer-memory/src/indexer.rs: the trait `Indexer`, as operations over the indexer's state and the
-- memory of handles, and its contract, as a record of laws.
pub mod Table
use foyer.Prelude.{
  ℕ, ◌≡◌, ◌≢◌, ◌↔◌, Bool, true, false, not, ◌&&◌, ◌||◌, Option, none, some, List, ◌==◌,
  if◌then◌else◌, contains, IsDistinct,
}
use foyer.Memory.Handle.{Memory, in_indexer, set_in_indexer, key}

-- The keys' `Eq` and the hash builder.
pub record KeyOps {ℓ} (K : Type ℓ) : Type ℓ where
  pub beq : K → K → Bool
  pub beq_iff : (a b : K) → (beq a b ≡ true) ↔ (a ≡ b)
  pub hash_one : K → ℕ

-- The test of a pointer against an optional one.
abbrev pub is_at : Option ℕ → ℕ → Bool
is_at none q = false
is_at (some p) q = q == p

-- A fault of `insert`, on a handle with no key, is `none`.
pub record Indexer {ℓ} (K V : Type ℓ) (C X T : Type 0) : Type ℓ where
  pub new : T
  pub insert : ℕ → T → Memory K V C X → Option (Option ℕ × T × Memory K V C X)
  pub get : ℕ → K → T → Memory K V C X → Option ℕ
  pub remove : ℕ → K → T → Memory K V C X → Option ℕ × T × Memory K V C X
  pub drain : T → Memory K V C X → List ℕ × T × Memory K V C X

-- The state is well formed after the call, and of the handles the call changes the flag
-- `IN_INDEXER` alone, which is then `flag`.
pub record IndexEffect {ℓ} {K V : Type ℓ} {C X T : Type 0} (IsWf : T → Memory K V C X → Type ℓ)
    (m : Memory K V C X) (flag : ℕ → Bool) (t' : T) (m' : Memory K V C X) : Type ℓ where
  pub wf : IsWf t' m'
  pub bases : (q : ℕ) → (m' q).base ≡ set_in_indexer (flag q) (m q).base
  pub owns : (q : ℕ) → (m' q).own ≡ (m q).own

-- The contract of the trait. A client sees an indexer through these laws only.
pub record IndexerLaws {ℓ} {K V : Type ℓ} {C X T : Type 0} (keys : KeyOps K) (i : Indexer K V C X T)
    (IsWf : T → Memory K V C X → Type ℓ) : Type ℓ where
  pub new_law : (m : Memory K V C X) → ((q : ℕ) → in_indexer m q ≡ false) → IsWf i.new m
  -- The handle joins; the one with its key, if there was one, leaves and is returned.
  pub insert_law :
      (p : ℕ) (k : K) (t : T) (m : Memory K V C X)
      → IsWf t m
      → key (m p).base ≡ some k
      → (m p).base.hash ≡ keys.hash_one k
      → in_indexer m p ≡ false
      → (t' : T) × (m' : Memory K V C X) × (i.insert p t m
          ≡ some (i.get (keys.hash_one k) k t m, t', m'))
        × IndexEffect IsWf m
            (λ q. q == p || in_indexer m q && not (is_at (i.get (keys.hash_one k) k t m) q))
            t'
            m'
  pub get_some :
      (k : K) (p : ℕ) (t : T) (m : Memory K V C X)
      → IsWf t m
      → i.get (keys.hash_one k) k t m ≡ some p
      → (in_indexer m p ≡ true) × (key (m p).base ≡ some k)
  pub get_none :
      (k : K) (p : ℕ) (t : T) (m : Memory K V C X)
      → IsWf t m
      → i.get (keys.hash_one k) k t m ≡ none
      → in_indexer m p ≡ true
      → key (m p).base ≢ some k
  pub remove_law :
      (k : K) (t : T) (m : Memory K V C X)
      → IsWf t m
      → (t' : T) × (m' : Memory K V C X) × (i.remove (keys.hash_one k) k t m
          ≡ (i.get (keys.hash_one k) k t m, t', m'))
        × IndexEffect IsWf m
            (λ q. in_indexer m q && not (is_at (i.get (keys.hash_one k) k t m) q))
            t'
            m'
  pub drain_law :
      (t : T) (m : Memory K V C X)
      → IsWf t m
      → (ps : List ℕ) × (t' : T) × (m' : Memory K V C X) × (i.drain t m ≡ (ps, t', m'))
        × IsDistinct ps
        × ((q : ℕ) → contains ps q ≡ in_indexer m q)
        × IndexEffect IsWf m (λ q. false) t' m'
  -- An indexed handle has a key, with its hash, and no other indexed handle has that key.
  pub indexed :
      (p : ℕ) (t : T) (m : Memory K V C X)
      → IsWf t m
      → in_indexer m p ≡ true
      → (k : K) × (key (m p).base ≡ some k) × ((m p).base.hash ≡ keys.hash_one k)
  pub unique :
      (p q : ℕ) (t : T) (m : Memory K V C X)
      → IsWf t m
      → in_indexer m p ≡ true
      → in_indexer m q ≡ true
      → key (m p).base ≡ key (m q).base
      → p ≡ q
  -- Writes of the client: the flags are kept, and the entries and hashes of indexed handles.
  pub stable :
      (t : T) (m m' : Memory K V C X)
      → IsWf t m
      → ((q : ℕ) → in_indexer m' q ≡ in_indexer m q)
      → ((q : ℕ)
          → in_indexer m q ≡ true
          → (key (m' q).base ≡ key (m q).base) × ((m' q).base.hash ≡ (m q).base.hash))
      → IsWf t m'
