-- ===== src/Memory/Eviction.antt =====
-- foyer-memory/src/eviction/mod.rs: the trait `Eviction`, as operations over an eviction state and
-- the memory of handles, and what the shard relies on, as a record of laws: the flags of the
-- handles and the faults, not the order in which an algorithm gives handles up.
pub mod Fifo
pub mod Lru
pub mod S3Fifo
pub mod Lfu
use foyer.Prelude.{
  ℕ, suc, ◌<◌, ◌≡◌, ◌⊎◌, Bool, true, false, not, ◌&&◌, ◌||◌, Option, none, some, List, ◌==◌,
  if◌then◌else◌, usize_mod, contains,
}
use foyer.Memory.Handle.{
  BaseHandle, Memory, store, in_eviction, charge_of, is_inited, set_in_eviction,
}

-- `none` is a fault: a panic, or undefined behaviour such as `unwrap_unchecked` on `None`.
-- `create` is `new` with the configuration given; `new_own` holds the fields of `Handle::new`.
pub record Eviction {ℓ} (K V : Type ℓ) (C X S : Type 0) : Type ℓ where
  pub new_own : X
  pub create : ℕ → Option S
  pub push : ℕ → S → Memory K V C X → Option (S × Memory K V C X)
  pub pop : S → Memory K V C X → Option (Option ℕ × S × Memory K V C X)
  pub reinsert : ℕ → S → Memory K V C X → Option (S × Memory K V C X)
  pub access : ℕ → S → Memory K V C X → Option (S × Memory K V C X)
  pub remove : ℕ → S → Memory K V C X → Option (S × Memory K V C X)
  pub clear : S → Memory K V C X → Option (List ℕ × S × Memory K V C X)
  pub len : S → ℕ

-- The state is well formed after the call, and of the bases of handles the call changes the
-- flag `IN_EVICTION` alone, which is then `flag`.
pub record Effect {ℓ} {K V : Type ℓ} {C X S : Type 0} (IsWf : S → Memory K V C X → Type 0)
    (m : Memory K V C X) (flag : ℕ → Bool) (s' : S) (m' : Memory K V C X) : Type ℓ where
  pub wf : IsWf s' m'
  pub bases : (q : ℕ) → (m' q).base ≡ set_in_eviction (flag q) (m q).base

-- The contract of the trait. A client sees an algorithm through these laws only.
pub record EvictionLaws {ℓ} {K V : Type ℓ} {C X S : Type 0} (e : Eviction K V C X S)
    (IsWf : S → Memory K V C X → Type 0) : Type ℓ where
  pub create_law :
      (capacity : ℕ) (m : Memory K V C X) {s : S}
      → e.create capacity ≡ some s
      → ((q : ℕ) → in_eviction m q ≡ false)
      → ((q : ℕ) → (m q).own ≡ e.new_own)
      → IsWf s m
  pub push_law :
      (p : ℕ) (s : S) (m : Memory K V C X)
      → IsWf s m
      → is_inited (m p).base ≡ true
      → in_eviction m p ≡ false
      → charge_of m p < usize_mod
      → (s' : S) × (m' : Memory K V C X) × (e.push p s m ≡ some (s', m'))
        × Effect IsWf m (λ q. q == p || in_eviction m q) s' m'
  pub pop_law :
      (s : S) (m : Memory K V C X)
      → IsWf s m
      → ((s' : S) × (m' : Memory K V C X) × (e.pop s m ≡ some (none, s', m'))
          × Effect IsWf m (in_eviction m) s' m')
        ⊎ ((p : ℕ) × (s' : S) × (m' : Memory K V C X) × (e.pop s m ≡ some (some p, s', m'))
            × (in_eviction m p ≡ true)
            × (e.len s ≡ suc (e.len s'))
            × Effect IsWf m (λ q. in_eviction m q && not (q == p)) s' m')
  -- A handle in the container stays there; the algorithm decides about any other.
  pub reinsert_law :
      (p : ℕ) (s : S) (m : Memory K V C X)
      → IsWf s m
      → is_inited (m p).base ≡ true
      → charge_of m p < usize_mod
      → (on : Bool) × (s' : S) × (m' : Memory K V C X) × (e.reinsert p s m ≡ some (s', m'))
        × (in_eviction m p ≡ true → on ≡ true)
        × Effect IsWf m (λ q. if q == p then on else in_eviction m q) s' m'
  pub access_law :
      (p : ℕ) (s : S) (m : Memory K V C X)
      → IsWf s m
      → (s' : S) × (m' : Memory K V C X) × (e.access p s m ≡ some (s', m'))
        × Effect IsWf m (in_eviction m) s' m'
  pub remove_law :
      (p : ℕ) (s : S) (m : Memory K V C X)
      → IsWf s m
      → in_eviction m p ≡ true
      → (s' : S) × (m' : Memory K V C X) × (e.remove p s m ≡ some (s', m'))
        × Effect IsWf m (λ q. in_eviction m q && not (q == p)) s' m'
  pub clear_law :
      (s : S) (m : Memory K V C X)
      → IsWf s m
      → (ps : List ℕ) × (s' : S) × (m' : Memory K V C X) × (e.clear s m ≡ some (ps, s', m'))
        × ((q : ℕ) → contains ps q ≡ in_eviction m q)
        × Effect IsWf m (λ q. false) s' m'
  -- Writes of the client: to the bases, with the flag of every handle and the charge of each in
  -- the container kept; and of a new handle, on a pointer outside the container.
  pub stable :
      (s : S) (m m' : Memory K V C X)
      → IsWf s m
      → ((q : ℕ) → (m' q).own ≡ (m q).own)
      → ((q : ℕ) → in_eviction m' q ≡ in_eviction m q)
      → ((q : ℕ) → in_eviction m q ≡ true → charge_of m' q ≡ charge_of m q)
      → IsWf s m'
  pub fresh :
      (p : ℕ) (b : BaseHandle K V C) (s : S) (m : Memory K V C X)
      → IsWf s m
      → in_eviction m p ≡ false
      → b.flags.in_eviction ≡ false
      → IsWf s (store p (record { base = b; own = e.new_own }) m)
