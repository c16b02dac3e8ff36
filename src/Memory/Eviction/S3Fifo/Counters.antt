-- ===== src/Memory/Eviction/S3Fifo/Counters.antt =====
-- The charge counters of foyer-memory/src/eviction/s3fifo.rs.
use foyer.Prelude.{
  some-inj, none-ne-some, ℕ, zero, suc, ◌%◌, ◌<◌, ◌≡◌, refl, sym, ap, subst, ◌∙◌, ◌↔◌, inl, inr,
  true, false, ◌||◌, Option, none, some, List, [], ◌∷◌, ◌++◌, arith, ltb, ◌==◌, ==_iff, ==_refl,
  Bool-cases, Option-cases, usize_mod, wrapping_add, wrapping_sub, wrapping_add-mod,
  wrapping_sub-mod, contains, sum_by, IsDistinct, contains-snoc, contains-erase, sum_by-snoc,
  sum_by-erase,
}
use foyer.Memory.Handle.{on_own, in_eviction, charge_of}
use foyer.Memory.Queue.{remove_raw}
use foyer.Memory.Eviction.S3Fifo.{
  S3Fifo, S3FifoMemory, Queue, no_queue, main, small, freq_of, promote, evict_small,
  evict_main_loop, evict_main, or_evict_main, evict, push, finish, pop, unlink, remove, clear, dec,
  set_queue, len,
}
use foyer.Memory.Eviction.S3Fifo.Evict.{IsWf, evict_lem}
use foyer.Memory.Eviction.S3Fifo.Laws.{remove_lem}

-- The counters are the sums of the charges in the queues, modulo the word size, and each charge is
-- a word.
pub record IsCounted (charge : ℕ → ℕ) (s : S3Fifo) : Type 0 where
  pub in_small : s.small_charges ≡ sum_by charge s.small_queue % usize_mod
  pub in_main : s.main_charges ≡ sum_by charge s.main_queue % usize_mod
  pub words :
      (q : ℕ) → (contains s.small_queue q || contains s.main_queue q) ≡ true → charge q < usize_mod

-- One handle leaves the small queue for the back of the main queue.
promoted-IsCounted :
    (charge : ℕ → ℕ) (p : ℕ) (rest : List ℕ) (s : S3Fifo)
    → IsCounted charge (record s { small_queue = p ∷ rest })
    → IsCounted charge (record s {
      small_queue = rest;
      main_queue = s.main_queue ++ p ∷ [];
      small_charges = wrapping_sub s.small_charges (charge p);
      main_charges = wrapping_add s.main_charges (charge p);
    })
unfolding contains sum_by
promoted-IsCounted charge p rest s w =
    let word : charge p < usize_mod = w.words p (ground (arith, ==_refl p)) in
    record {
      in_small = wrapping_sub-mod _ _ _ _ w.in_small word (omega arith);
      in_main = wrapping_add-mod _ _ _ _ w.in_main (sum_by-snoc charge s.main_queue p);
      words = λ q h. w.words q (ground (arith, h, contains-snoc s.main_queue p q));
    }

unlink-IsCounted :
    (queue : Queue) (charge : ℕ → ℕ) (p : ℕ) (s s' : S3Fifo)
    → IsDistinct s.small_queue
    → IsDistinct s.main_queue
    → IsCounted charge s
    → unlink queue p (charge p) s ≡ some s'
    → IsCounted charge s'
unfolding unlink remove_raw
unlink-IsCounted no_queue charge p s s' d d' w e = absurd (ground (arith, e))
unlink-IsCounted main charge p s s' d d' w e = elim (Bool-cases (contains s.main_queue p)) [
  | inl on ↦
      subst (λ o. IsCounted charge o) (some-inj (rw on at e))
        (record {
          in_small = w.in_small;
          in_main =
              wrapping_sub-mod _ _ _ _ w.in_main (w.words p (ground (arith, on)))
                (sum_by-erase charge p s.main_queue on);
          words = λ q h. w.words q (ground (arith, h, contains-erase p s.main_queue q d'));
        })
  | inr off ↦ absurd (none-ne-some (rw off at e))
]
unlink-IsCounted small charge p s s' d d' w e = elim (Bool-cases (contains s.small_queue p)) [
  | inl on ↦
      subst (λ o. IsCounted charge o) (some-inj (rw on at e))
        (record {
          in_small =
              wrapping_sub-mod _ _ _ _ w.in_small (w.words p (ground (arith, on)))
                (sum_by-erase charge p s.small_queue on);
          in_main = w.in_main;
          words = λ q h. w.words q (ground (arith, h, contains-erase p s.small_queue q d));
        })
  | inr off ↦ absurd (none-ne-some (rw off at e))
]

module _ {ℓ} {K V : Type ℓ} where
  evict_small-IsCounted :
      (charge : ℕ → ℕ) (l : List ℕ) (s : S3Fifo) (m : S3FifoMemory K V)
      → ((q : ℕ) → charge_of m q ≡ charge q)
      → IsCounted charge (record s { small_queue = l })
      → IsCounted charge (evict_small l s m).1
        × ((q : ℕ) → charge_of (evict_small l s m).2 q ≡ charge q)
  unfolding evict_small contains sum_by promote
  evict_small-IsCounted charge [] s m same w = (w, same)
  evict_small-IsCounted charge (p ∷ rest) s m same w =
      let word : charge p < usize_mod = w.words p (ground (arith, ==_refl p)) in
      elim (Bool-cases (ltb 1 (freq_of m p))) [
        | inl hot ↦ rw hot (
            evict_small-IsCounted charge rest (promote p rest s m) (on_own (set_queue main) p m)
              (λ q. ground (arith, same q)) (rw (same p) (promoted-IsCounted charge p rest s w)))
        | inr cold ↦ rw cold (
          record {
            in_small =
                wrapping_sub-mod _ _ _ _ w.in_small (subst (λ n. n < usize_mod) (sym (same p)) word)
                  (omega (arith, same p));
            in_main = w.in_main;
            words = λ q h. w.words q (ground (arith, h));
          },
          λ q. ground (arith, same q),
        )
      ]

  evict_main_loop-IsCounted :
      (charge : ℕ → ℕ) (fuel : ℕ) (l : List ℕ) (s : S3Fifo) (m : S3FifoMemory K V)
      (r : Option ℕ × S3Fifo × S3FifoMemory K V)
      → ((q : ℕ) → charge_of m q ≡ charge q)
      → IsCounted charge (record s { main_queue = l })
      → evict_main_loop fuel l s m ≡ some r
      → IsCounted charge r.1
  unfolding evict_main_loop contains sum_by
  evict_main_loop-IsCounted charge zero l s m r same w e = absurd (ground (arith, e))
  evict_main_loop-IsCounted charge (suc fuel) [] s m r same w e =
      subst (λ o. IsCounted charge o) (ap (λ x. x.1) (some-inj e)) w
  evict_main_loop-IsCounted charge (suc fuel) (p ∷ rest) s m r same w e =
      let word : charge p < usize_mod = w.words p (ground (arith, ==_refl p)) in
      elim (Bool-cases (ltb 0 (freq_of m p))) [
        | inl hot ↦
            evict_main_loop-IsCounted charge fuel (rest ++ p ∷ []) s (on_own dec p m) r
              (λ q. ground (arith, same q))
              (record {
                in_small = w.in_small;
                in_main =
                    w.in_main ∙ ap (λ n. n % usize_mod) (omega (arith, sum_by-snoc charge rest p));
                words = λ q h. w.words q (ground (arith, h, contains-snoc rest p q));
              })
              (rw hot at e)
        | inr cold ↦
            subst (λ o. IsCounted charge o) (ap (λ x. x.1) (some-inj (rw cold at e)))
              (record {
                in_small = w.in_small;
                in_main =
                    wrapping_sub-mod _ _ _ _ w.in_main
                      (subst (λ n. n < usize_mod) (sym (same p)) word) (omega (arith, same p));
                words = λ q h. w.words q (ground (arith, h));
              })
      ]

  or_evict_main-IsCounted :
      (charge : ℕ → ℕ) (found : Option ℕ × S3Fifo × S3FifoMemory K V)
      (r : Option ℕ × S3Fifo × S3FifoMemory K V)
      → IsCounted charge found.1 × ((q : ℕ) → charge_of found.2 q ≡ charge q)
      → or_evict_main found ≡ some r
      → IsCounted charge r.1
  unfolding or_evict_main evict_main
  or_evict_main-IsCounted charge (some p, s, m) r w e =
      subst (λ o. IsCounted charge o) (ap (λ x. x.1) (some-inj e)) w.0
  or_evict_main-IsCounted charge (none, s, m) r w e =
      evict_main_loop-IsCounted charge _ s.main_queue s m r w.1 w.0 e

  evict-IsCounted :
      (s : S3Fifo) (m : S3FifoMemory K V) (r : Option ℕ × S3Fifo × S3FifoMemory K V)
      → IsCounted (charge_of m) s
      → evict s m ≡ some r
      → IsCounted (charge_of m) r.1
  unfolding evict evict_main
  evict-IsCounted s m r w e = elim (Bool-cases (ltb s.small_capacity s.small_charges)) [
    | inl over ↦
        or_evict_main-IsCounted (charge_of m) (evict_small s.small_queue s m) r
          (evict_small-IsCounted (charge_of m) s.small_queue s m (λ q. refl) w) (rw over at e)
    | inr fits ↦
        evict_main_loop-IsCounted (charge_of m) _ s.main_queue s m r (λ q. refl) w (rw fits at e)
  ]

  finish_queues : (x r : Option ℕ × S3Fifo × S3FifoMemory K V) → finish false x ≡ some r → r.1 ≡ x.1
  unfolding finish
  finish_queues (none, s, m) r e = ap (λ y. y.1) (sym (some-inj e))
  finish_queues (some p, s, m) r e = ap (λ y. y.1) (sym (some-inj e))

  finish_found :
      (x : Option ℕ × S3Fifo × S3FifoMemory K V)
      → (r : Option ℕ × S3Fifo × S3FifoMemory K V) × (finish false x ≡ some r)
  unfolding finish
  finish_found (none, s, m) = (_, refl)
  finish_found (some p, s, m) = (_, refl)

  -- Without debug assertions `pop` never faults, and keeps the counters equal to the sums of the
  -- charges in the queues, also when it moves handles from queue to queue.
  pub pop-IsCounted :
      (s : S3Fifo) (m : S3FifoMemory K V)
      → IsWf s m
      → IsCounted (charge_of m) s
      → (r : Option ℕ × S3Fifo × S3FifoMemory K V) × (pop false s m ≡ some r)
        × IsCounted (charge_of m) r.1
  unfolding pop
  pop-IsCounted s m v w =
      let (x, found, _) = evict_lem (in_eviction m) s m v in
      let (r, f) = finish_found x in
      (
        r,
        rw found f,
        subst (λ o. IsCounted (charge_of m) o) (sym (finish_queues x r f))
            (evict-IsCounted s m x w found),
      )

  -- `push` keeps the counters equal to the sums of the charges in the queues.
  pub push-IsCounted :
      (p : ℕ) (s : S3Fifo) (m : S3FifoMemory K V) (r : S3Fifo × S3FifoMemory K V)
      → charge_of m p < usize_mod
      → IsCounted (charge_of m) s
      → push p s m ≡ some r
      → IsCounted (charge_of m) r.0
  unfolding push
  push-IsCounted p s m r word w e =
      subst (λ o. IsCounted (charge_of m) o) (ap (λ x. x.0) (some-inj e))
        (record {
          in_small =
              wrapping_add-mod _ _ _ _ w.in_small (sum_by-snoc (charge_of m) s.small_queue p);
          in_main = w.in_main;
          words = λ q h. elim (Bool-cases (q == p)) [
            | inl here ↦ subst (λ x. charge_of m x < usize_mod) (sym ((==_iff q p).0 here)) word
            | inr other ↦ w.words q (ground (arith, h, other, contains-snoc s.small_queue p q))
          ];
        })

  removed-IsCounted :
      (p : ℕ) (s : S3Fifo) (m : S3FifoMemory K V) (r : S3Fifo × S3FifoMemory K V)
      → IsWf s m
      → IsCounted (charge_of m) s
      → remove p s m ≡ some r
      → IsCounted (charge_of m) r.0
  unfolding remove
  removed-IsCounted p s m r v w e =
      elim (Option-cases (unlink (m p).own.queue p (charge_of m p) s)) [
        | inl fault ↦ absurd (none-ne-some (rw fault at e))
        | inr (s', found) ↦
            subst (λ o. IsCounted (charge_of m) o) (ap (λ y. y.0) (some-inj (rw found at e)))
              (unlink-IsCounted _ (charge_of m) p s s' v.small_distinct v.main_distinct w found)
      ]

  -- `remove` of a handle in the container never faults, and keeps the counters equal to the sums of
  -- the charges in the queues.
  pub remove-IsCounted :
      (p : ℕ) (s : S3Fifo) (m : S3FifoMemory K V)
      → IsWf s m
      → in_eviction m p ≡ true
      → IsCounted (charge_of m) s
      → (s' : S3Fifo) × (m' : S3FifoMemory K V) × (remove p s m ≡ some (s', m'))
        × IsCounted (charge_of m) s'
  remove-IsCounted p s m v on w =
      let (s', m', e, _) = remove_lem p s m v on in
      (s', m', e, removed-IsCounted p s m (s', m') v w e)

  -- `clear` empties both queues, and the counters then are the sums of the charges in them exactly
  -- if they were zero before.
  pub clear-IsCounted_iff :
      (s : S3Fifo) (m : S3FifoMemory K V)
      → (ps : List ℕ) × (s' : S3Fifo) × (m' : S3FifoMemory K V) × (clear s m ≡ some (ps, s', m'))
        × (len s' ≡ 0)
        × (IsCounted (charge_of m) s' ↔ ((s.small_charges ≡ 0) × (s.main_charges ≡ 0)))
  unfolding clear len sum_by contains
  clear-IsCounted_iff s m = (
    _,
    _,
    _,
    refl,
    refl,
    (
      (λ w. (w.in_small, w.in_main)),
      (λ z. record { in_small = z.0; in_main = z.1; words = λ q h. absurd (ground (arith, h)) }),
    ),
  )
