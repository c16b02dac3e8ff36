-- ===== src/Memory/Eviction/Lfu/Split.antt =====
-- The well-formed states of foyer-memory/src/eviction/lfu.rs.
use foyer.Prelude.{
  ℕ, ◌%◌, ◌<◌, ◌≡◌, sym, ap, ◌∙◌, inl, inr, Bool, true, false, not, ◌&&◌, ◌||◌, List, [], ◌∷◌, ◌++◌,
  arith, ◌==◌, ==_iff, ==_refl, Bool-cases, usize_mod, wrapping_add, wrapping_sub, wrapping_add-mod,
  wrapping_sub-mod, contains, sum_by, IsDistinct, contains-snoc, IsDistinct-snoc, sum_by-snoc,
  sum_by_cong,
}
use foyer.Memory.Handle.{in_eviction, charge_of}
use foyer.Memory.Queue.{TakesOut}
use foyer.Memory.Eviction.Lfu.{
  Lfu, LfuMemory, Queue, no_queue, window, probation, protected, queue_of,
}

abbrev pub is_window : Queue → Bool
is_window no_queue = false
is_window window = true
is_window probation = false
is_window protected = false

abbrev pub is_probation : Queue → Bool
is_probation no_queue = false
is_probation window = false
is_probation probation = true
is_probation protected = false

abbrev pub is_protected : Queue → Bool
is_protected no_queue = false
is_protected window = false
is_protected probation = false
is_protected protected = true

abbrev pub is_queued : Queue → Bool
is_queued queue = is_window queue || is_probation queue || is_protected queue

-- The queue has the handles of `held`, each once, and the counter is the sum of their charges,
-- modulo the word size.
pub record Holds (held : ℕ → Bool) (charge : ℕ → ℕ) (l : List ℕ) (charges : ℕ) : Type 0 where
  pub members : (q : ℕ) → contains l q ≡ held q
  pub distinct : IsDistinct l
  pub counted : charges ≡ sum_by charge l % usize_mod

pub Holds-take :
    (p : ℕ) (held held' : ℕ → Bool) (charge charge' : ℕ → ℕ) (l l' : List ℕ) (charges : ℕ)
    → Holds held charge l charges
    → TakesOut p l l'
    → held p ≡ true
    → charge p < usize_mod
    → ((q : ℕ) → held' q ≡ (held q && not (q == p)))
    → ((q : ℕ) → charge' q ≡ charge q)
    → Holds held' charge' l' (wrapping_sub charges (charge p))
Holds-take p held held' charge charge' l l' charges w t on word same costs = record {
  members = λ q. t.members q ∙ ap (λ b. b && not (q == p)) (w.members q) ∙ sym (same q);
  distinct = t.distinct;
  counted = wrapping_sub-mod _ _ _ _ w.counted word (
      let sums = t.sums charge in
      let there : contains l p ≡ true = w.members p ∙ on in
      let again = sum_by_cong charge' charge l' (λ q _. costs q) in
      ground (arith, sums, there, again));
}

pub Holds-put :
    (p : ℕ) (held held' : ℕ → Bool) (charge charge' : ℕ → ℕ) (l : List ℕ) (charges : ℕ)
    → Holds held charge l charges
    → held p ≡ false
    → ((q : ℕ) → held' q ≡ (q == p || held q))
    → ((q : ℕ) → charge' q ≡ charge q)
    → Holds held' charge' (l ++ p ∷ []) (wrapping_add charges (charge p))
Holds-put p held held' charge charge' l charges w off same costs = record {
  members = λ q. contains-snoc l p q ∙ ap (λ b. q == p || b) (w.members q) ∙ sym (same q);
  distinct = IsDistinct-snoc l p w.distinct (w.members p ∙ off);
  counted =
      wrapping_add-mod _ _ _ _ w.counted
        (sum_by_cong charge' charge (l ++ p ∷ []) (λ q _. costs q) ∙ sum_by-snoc charge l p);
}

pub Holds-cong :
    (held held' : ℕ → Bool) (charge charge' : ℕ → ℕ) (l : List ℕ) (charges : ℕ)
    → Holds held charge l charges
    → ((q : ℕ) → held' q ≡ held q)
    → ((q : ℕ) → held q ≡ true → charge' q ≡ charge q)
    → Holds held' charge' l charges
Holds-cong held held' charge charge' l charges w same costs = record {
  members = λ q. w.members q ∙ sym (same q);
  distinct = w.distinct;
  counted =
      w.counted
      ∙ ap (λ n. n % usize_mod)
          (sym (sum_by_cong charge' charge l (λ q on. costs q (sym (w.members q) ∙ on))));
}

-- A handle goes to the back of its queue.
pub Holds-rotate :
    (p : ℕ) (held : ℕ → Bool) (charge : ℕ → ℕ) (l l' : List ℕ) (charges : ℕ)
    → Holds held charge l charges
    → TakesOut p l l'
    → held p ≡ true
    → Holds held charge (l' ++ p ∷ []) charges
Holds-rotate p held charge l l' charges w t on =
    let there : contains l p ≡ true = w.members p ∙ on in
    record {
      members = λ q. elim (Bool-cases (q == p)) [
        | inl here ↦ ground (arith, contains-snoc l' p q, here, on, (==_iff q p).0 here)
        | inr other ↦ ground (arith, contains-snoc l' p q, other, t.members q, w.members q)
      ];
      distinct = IsDistinct-snoc l' p t.distinct (ground (arith, t.members p, ==_refl p));
      counted =
          w.counted
          ∙ ap (λ n. n % usize_mod)
              (let sums = t.sums charge in ground (arith, sums, there, sum_by-snoc charge l' p));
    }

module _ {ℓ} {K V : Type ℓ} {F : Type 0} where
  -- A handle is in the queue that it names, and in the container if it names one.
  pub record IsSplit (held : ℕ → Bool) (s : Lfu F) (m : LfuMemory K V) : Type 0 where
    pub in_window :
        Holds (λ q. is_window (queue_of m q)) (charge_of m) s.window_queue s.window_charges
    pub in_probation :
        Holds (λ q. is_probation (queue_of m q)) (charge_of m) s.probation_queue s.probation_charges
    pub in_protected :
        Holds (λ q. is_protected (queue_of m q)) (charge_of m) s.protected_queue s.protected_charges
    pub placed : (q : ℕ) → held q ≡ is_queued (queue_of m q)
    pub words : (q : ℕ) → held q ≡ true → charge_of m q < usize_mod

  abbrev pub IsWf : Lfu F → LfuMemory K V → Type 0
  IsWf s m = IsSplit (in_eviction m) s m
