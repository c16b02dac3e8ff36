-- ===== src/Memory/Eviction/Lfu/Pop.antt =====
-- `pop` and `remove` of foyer-memory/src/eviction/lfu.rs.
use foyer.Prelude.{
  ℕ, suc, ◌≡◌, refl, sym, ap, subst, ◌∙◌, ◌⊎◌, inl, inr, Bool, true, false, not, ◌&&◌, Option, none,
  some, List, [], ◌∷◌, arith, ltb, ◌==◌, ==_refl, Bool-cases, ◌>>=◌, wrapping_sub, contains, erase,
  length, IsDistinct,
}
use foyer.Memory.Handle.{on_base, on_own, in_eviction, charge_of, set_in_eviction}
use foyer.Prelude.{>>=_assoc}
use foyer.Memory.Eviction.{Effect}
use foyer.Memory.Queue.{remove_raw, TakesOut, tail-TakesOut, erase-TakesOut}
use foyer.Memory.Eviction.Lfu.{
  Sketch, Lfu, LfuMemory, Queue, no_queue, window, probation, protected, queue_of, set_queue,
  decrease_queue_charges, unlink, len, front_protected, front, finish, pop, remove,
}
use foyer.Memory.Eviction.Lfu.Split.{
  is_window, is_probation, is_protected, is_queued, Holds, Holds-take, Holds-cong, IsWf,
}
use foyer.Memory.Eviction.Lfu.Overflow.{window_of, protected_of}

pub probation_of : (queue : Queue) → is_probation queue ≡ true → queue ≡ probation
probation_of no_queue e = absurd (ground (arith, e))
probation_of window e = absurd (ground (arith, e))
probation_of probation e = refl
probation_of protected e = absurd (ground (arith, e))

pub erased :
    (p : ℕ) (l : List ℕ) (held : ℕ → Bool) (charge : ℕ → ℕ) (charges : ℕ)
    → Holds held charge l charges
    → held p ≡ true
    → (remove_raw p l ≡ some (erase p l)) × TakesOut p l (erase p l)
unfolding remove_raw
erased p l held charge charges w on =
    let there : contains l p ≡ true = w.members p ∙ on in
    (rw there refl, erase-TakesOut p l w.distinct there)

module _ {ℓ} {K V : Type ℓ} where
  -- The memory after a handle has left the container.
  abbrev pub left : ℕ → LfuMemory K V → LfuMemory K V
  left p m = on_base (set_in_eviction false) p (on_own (set_queue no_queue) p m)

module _ {ℓ} {K V : Type ℓ} {F : Type 0} where
  -- What it is for a handle to leave the container.
  pub Leaves : ℕ → Lfu F → LfuMemory K V → Lfu F → Type ℓ
  Leaves p s m s' =
      (in_eviction m p ≡ true) × Effect IsWf m (λ q. in_eviction m q && not (q == p)) s' (left p m)

  leave_window :
      (p : ℕ) (l : List ℕ) (s : Lfu F) (m : LfuMemory K V)
      → IsWf s m
      → queue_of m p ≡ window
      → TakesOut p s.window_queue l
      → (s' : Lfu F) × (decrease_queue_charges
            (queue_of m p)
            (charge_of m p)
            (record s { window_queue = l })
          ≡ some s')
        × (len s' ≡ len (record s { window_queue = l }))
        × Leaves p s m s'
  unfolding decrease_queue_charges Leaves len
  leave_window p l s m w at t =
      let on : in_eviction m p ≡ true = w.placed p ∙ ap is_queued at in
      (
        record s {
          window_queue = l;
          window_charges = wrapping_sub s.window_charges (charge_of m p);
        },
        rw at refl,
        refl,
        (
          on,
          record {
            wf = record {
              in_window =
                  Holds-take p _ _ _ _ _ _ _ w.in_window t (ap is_window at) (w.words p on)
                    (λ q. ground (arith, at)) (λ q. ground arith);
              in_probation =
                  Holds-cong _ _ _ _ _ _ w.in_probation (λ q. ground (arith, at))
                    (λ q _. ground arith);
              in_protected =
                  Holds-cong _ _ _ _ _ _ w.in_protected (λ q. ground (arith, at))
                    (λ q _. ground arith);
              placed = λ q. ground (arith, at, w.placed q);
              words = λ q h. ground (arith, w.words q, h);
            };
            bases = λ q. ground arith;
          },
        ),
      )

  leave_probation :
      (p : ℕ) (l : List ℕ) (s : Lfu F) (m : LfuMemory K V)
      → IsWf s m
      → queue_of m p ≡ probation
      → TakesOut p s.probation_queue l
      → (s' : Lfu F) × (decrease_queue_charges
            (queue_of m p)
            (charge_of m p)
            (record s { probation_queue = l })
          ≡ some s')
        × (len s' ≡ len (record s { probation_queue = l }))
        × Leaves p s m s'
  unfolding decrease_queue_charges Leaves len
  leave_probation p l s m w at t =
      let on : in_eviction m p ≡ true = w.placed p ∙ ap is_queued at in
      (
        record s {
          probation_queue = l;
          probation_charges = wrapping_sub s.probation_charges (charge_of m p);
        },
        rw at refl,
        refl,
        (
          on,
          record {
            wf = record {
              in_window =
                  Holds-cong _ _ _ _ _ _ w.in_window (λ q. ground (arith, at))
                    (λ q _. ground arith);
              in_probation =
                  Holds-take p _ _ _ _ _ _ _ w.in_probation t (ap is_probation at) (w.words p on)
                    (λ q. ground (arith, at)) (λ q. ground arith);
              in_protected =
                  Holds-cong _ _ _ _ _ _ w.in_protected (λ q. ground (arith, at))
                    (λ q _. ground arith);
              placed = λ q. ground (arith, at, w.placed q);
              words = λ q h. ground (arith, w.words q, h);
            };
            bases = λ q. ground arith;
          },
        ),
      )

  leave_protected :
      (p : ℕ) (l : List ℕ) (s : Lfu F) (m : LfuMemory K V)
      → IsWf s m
      → queue_of m p ≡ protected
      → TakesOut p s.protected_queue l
      → (s' : Lfu F) × (decrease_queue_charges
            (queue_of m p)
            (charge_of m p)
            (record s { protected_queue = l })
          ≡ some s')
        × (len s' ≡ len (record s { protected_queue = l }))
        × Leaves p s m s'
  unfolding decrease_queue_charges Leaves len
  leave_protected p l s m w at t =
      let on : in_eviction m p ≡ true = w.placed p ∙ ap is_queued at in
      (
        record s {
          protected_queue = l;
          protected_charges = wrapping_sub s.protected_charges (charge_of m p);
        },
        rw at refl,
        refl,
        (
          on,
          record {
            wf = record {
              in_window =
                  Holds-cong _ _ _ _ _ _ w.in_window (λ q. ground (arith, at))
                    (λ q _. ground arith);
              in_probation =
                  Holds-cong _ _ _ _ _ _ w.in_probation (λ q. ground (arith, at))
                    (λ q _. ground arith);
              in_protected =
                  Holds-take p _ _ _ _ _ _ _ w.in_protected t (ap is_protected at) (w.words p on)
                    (λ q. ground (arith, at)) (λ q. ground arith);
              placed = λ q. ground (arith, at, w.placed q);
              words = λ q h. ground (arith, w.words q, h);
            };
            bases = λ q. ground arith;
          },
        ),
      )

  remove_by :
      (queue : Queue) (p : ℕ) (s : Lfu F) (m : LfuMemory K V)
      → IsWf s m
      → queue_of m p ≡ queue
      → is_queued queue ≡ true
      → (s' : Lfu F) × ((unlink queue p s >>= λ s1.
            decrease_queue_charges (queue_of m p) (charge_of m p) s1)
          ≡ some s')
        × Leaves p s m s'
  unfolding unlink
  remove_by no_queue p s m w at on = absurd (ground (arith, on))
  remove_by window p s m w at on =
      let (f, t) = erased p s.window_queue _ _ _ w.in_window (ap is_window at) in
      let (s', g, _, x) = leave_window p _ s m w at t in (s', rw f g, x)
  remove_by probation p s m w at on =
      let (f, t) = erased p s.probation_queue _ _ _ w.in_probation (ap is_probation at) in
      let (s', g, _, x) = leave_probation p _ s m w at t in (s', rw f g, x)
  remove_by protected p s m w at on =
      let (f, t) = erased p s.protected_queue _ _ _ w.in_protected (ap is_protected at) in
      let (s', g, _, x) = leave_protected p _ s m w at t in (s', rw f g, x)

  -- The law of `remove`.
  pub lfu_remove_lem :
      (p : ℕ) (s : Lfu F) (m : LfuMemory K V)
      → IsWf s m
      → in_eviction m p ≡ true
      → (s' : Lfu F) × (m' : LfuMemory K V) × (remove p s m ≡ some (s', m'))
        × Effect IsWf m (λ q. in_eviction m q && not (q == p)) s' m'
  unfolding remove Leaves
  lfu_remove_lem p s m w on =
      let (s', f, (_, x)) = remove_by (queue_of m p) p s m w refl (sym (w.placed p) ∙ on) in
      (
        s',
        left p m,
        sym (
              >>=_assoc (unlink (queue_of m p) p s)
                (λ s1. decrease_queue_charges (queue_of m p) (charge_of m p) s1)
                (λ s2. some (s2, left p m)))
            ∙ ap (λ z. z >>= λ s2. some (s2, left p m)) f,
        x,
      )

  -- A pointer that `pop` takes leaves the container, and the queues are one handle shorter.
  pub Takes : Option (ℕ × Lfu F) → Lfu F → LfuMemory K V → Type ℓ
  Takes r s m =
      ((r ≡ none) × (len s ≡ 0))
      ⊎ ((p : ℕ) × (s1 s' : Lfu F) × (r ≡ some (p, s1))
          × (decrease_queue_charges (queue_of m p) (charge_of m p) s1 ≡ some s')
          × (len s ≡ suc (len s'))
          × Leaves p s m s')

  in_window_front :
      (p : ℕ) (rest : List ℕ) (s : Lfu F) (m : LfuMemory K V)
      → IsWf s m
      → s.window_queue ≡ p ∷ rest
      → Takes (some (p, record s { window_queue = rest })) s m
  unfolding Takes len contains
  in_window_front p rest s m w e =
      let t : TakesOut p s.window_queue rest =
        subst (λ l. TakesOut p l rest) (sym e)
          (tail-TakesOut p rest (subst IsDistinct e w.in_window.distinct)) in
      let on : contains s.window_queue p ≡ true =
        ap (λ l. contains l p) e ∙ ground (arith, ==_refl p) in
      let at = window_of (queue_of m p) (sym (w.in_window.members p) ∙ on) in
      let (s', f, shorter, x) = leave_window p rest s m w at t in
      let sizes : length s.window_queue ≡ suc (length rest) = ap length e in
      inr (p, record s { window_queue = rest }, s', refl, f, omega (arith, shorter, sizes), x)

  in_probation_front :
      (p : ℕ) (rest : List ℕ) (s : Lfu F) (m : LfuMemory K V)
      → IsWf s m
      → s.probation_queue ≡ p ∷ rest
      → Takes (some (p, record s { probation_queue = rest })) s m
  unfolding Takes len contains
  in_probation_front p rest s m w e =
      let t : TakesOut p s.probation_queue rest =
        subst (λ l. TakesOut p l rest) (sym e)
          (tail-TakesOut p rest (subst IsDistinct e w.in_probation.distinct)) in
      let on : contains s.probation_queue p ≡ true =
        ap (λ l. contains l p) e ∙ ground (arith, ==_refl p) in
      let at = probation_of (queue_of m p) (sym (w.in_probation.members p) ∙ on) in
      let (s', f, shorter, x) = leave_probation p rest s m w at t in
      let sizes : length s.probation_queue ≡ suc (length rest) = ap length e in
      inr (p, record s { probation_queue = rest }, s', refl, f, omega (arith, shorter, sizes), x)

  in_protected_front :
      (p : ℕ) (rest : List ℕ) (s : Lfu F) (m : LfuMemory K V)
      → IsWf s m
      → s.protected_queue ≡ p ∷ rest
      → Takes (some (p, record s { protected_queue = rest })) s m
  unfolding Takes len contains
  in_protected_front p rest s m w e =
      let t : TakesOut p s.protected_queue rest =
        subst (λ l. TakesOut p l rest) (sym e)
          (tail-TakesOut p rest (subst IsDistinct e w.in_protected.distinct)) in
      let on : contains s.protected_queue p ≡ true =
        ap (λ l. contains l p) e ∙ ground (arith, ==_refl p) in
      let at = protected_of (queue_of m p) (sym (w.in_protected.members p) ∙ on) in
      let (s', f, shorter, x) = leave_protected p rest s m w at t in
      let sizes : length s.protected_queue ≡ suc (length rest) = ap length e in
      inr (p, record s { protected_queue = rest }, s', refl, f, omega (arith, shorter, sizes), x)

  front_protected_lem :
      (l : List ℕ) (s : Lfu F) (m : LfuMemory K V)
      → IsWf s m
      → s.window_queue ≡ []
      → s.probation_queue ≡ []
      → s.protected_queue ≡ l
      → Takes (front_protected l s) s m
  unfolding front_protected Takes len
  front_protected_lem [] s m w e1 e2 e3 = inl (refl, rw (e1, e2, e3) refl)
  front_protected_lem (p ∷ rest) s m w e1 e2 e3 = in_protected_front p rest s m w e3

  front_lem :
      (sketch : Sketch F) (l l' : List ℕ) (s : Lfu F) (m : LfuMemory K V)
      → IsWf s m
      → s.window_queue ≡ l
      → s.probation_queue ≡ l'
      → Takes (front sketch l l' s m) s m
  unfolding front
  front_lem sketch [] [] s m w e e' = front_protected_lem s.protected_queue s m w e e' refl
  front_lem sketch [] (p ∷ rest) s m w e e' = in_probation_front p rest s m w e'
  front_lem sketch (p ∷ rest) [] s m w e e' = in_window_front p rest s m w e
  front_lem sketch (p ∷ rest) (p' ∷ rest') s m w e e' =
      elim (Bool-cases (
        ltb (sketch.estimate (m p).base.hash s.frequencies)
          (sketch.estimate (m p').base.hash s.frequencies))) [
            | inl colder ↦ rw colder (in_window_front p rest s m w e)
            | inr hotter ↦ rw hotter (in_probation_front p' rest' s m w e')
          ]

  -- `pop` never faults. It returns nothing only if the container is empty, and else takes a handle
  -- of the container out of it, and no other.
  pub pop-nonempty :
      (sketch : Sketch F) (s : Lfu F) (m : LfuMemory K V)
      → IsWf s m
      → ((len s ≡ 0) × (pop sketch s m ≡ some (none, s, m)))
        ⊎ ((p : ℕ) × (s' : Lfu F) × (m' : LfuMemory K V) × (pop sketch s m ≡ some (some p, s', m'))
            × (in_eviction m p ≡ true)
            × (len s ≡ suc (len s'))
            × Effect IsWf m (λ q. in_eviction m q && not (q == p)) s' m')
  unfolding pop finish Takes Leaves
  pop-nonempty sketch s m w =
      elim (front_lem sketch s.window_queue s.probation_queue s m w refl refl) [
        | inl (e, size) ↦ inl (size, rw e refl)
        | inr (p, s1, s', e, f, size, (on, x)) ↦ inr (p, s', left p m, rw (e, f) refl, on, size, x)
      ]
