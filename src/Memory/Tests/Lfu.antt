-- ===== src/Memory/Tests/Lfu.antt =====
-- Runs of the algorithm of foyer-memory/src/eviction/lfu.rs.
use foyer.Prelude.{
  ℕ, ◌/◌, ◌≤◌, ◌≡◌, refl, true, ◌||◌, some, List, [], ◌∷◌, arith, ◌==◌, if◌then◌else◌, contains,
  sum_by,
}
use foyer.Memory.Handle.{in_eviction}
use foyer.Memory.Eviction.{EvictionLaws, Effect}
use foyer.Memory.Eviction.Lfu.{
  Sketch, Lfu, LfuMemory, lfu_context, no_queue, window, probation, promote,
}
use foyer.Memory.Eviction.Lfu.Split.{IsWf}
use foyer.Memory.Eviction.Lfu.Laws.{lfu, lfu-EvictionLaws, promote-protected_fits}
use foyer.Memory.Tests.{occurrences}

-- A sketch that counts exactly and never forgets.
abbrev exact : Sketch (List ℕ)
exact = record {
  new = [];
  inc = λ h f. h ∷ f;
  estimate = λ h f. occurrences f h;
  halve = λ f. f;
  width = λ f. 4;
}

abbrev tenth : ℕ → ℕ
tenth c = c / 10

lfu-EvictionLaws_example : EvictionLaws (lfu {K = ℕ} {V = ℕ} exact true tenth tenth) IsWf
lfu-EvictionLaws_example = lfu-EvictionLaws exact true tenth tenth

-- The handle 0 is in the window and the handle 2 in `probation`; the handle 1 is in no queue.
abbrev lfu_memory : LfuMemory ℕ ℕ
lfu_memory q = record {
  base = record {
    entry = some (q, q, lfu_context);
    hash = q;
    charge = 3;
    refs = 0;
    flags = record { in_indexer = true; in_eviction = q == 0 || q == 2 };
  };
  own = record { queue = if q == 0 then window else if q == 2 then probation else no_queue };
}

abbrev lfu_state : Lfu (List ℕ)
lfu_state = record {
  window_queue = 0 ∷ [];
  probation_queue = 2 ∷ [];
  protected_queue = [];
  window_charges = 3;
  probation_charges = 3;
  protected_charges = 0;
  window_charges_capacity = 4;
  protected_charges_capacity = 4;
  frequencies = 0 ∷ [];
  step = 1;
  decay = 4;
}

lfu_state-IsWf : IsWf lfu_state lfu_memory
unfolding contains sum_by
lfu_state-IsWf = record {
  in_window = record { members = λ q. ground arith; distinct = (refl, _); counted = omega arith };
  in_probation = record {
    members = λ q. ground arith;
    distinct = (refl, _);
    counted = omega arith;
  };
  in_protected = record { members = λ q. ground arith; distinct = _; counted = omega arith };
  placed = λ q. ground arith;
  words = λ q h. omega arith;
}

promote-protected_fits_example :
    (s' : Lfu (List ℕ)) × (m' : LfuMemory ℕ ℕ) × (promote 2 lfu_state lfu_memory ≡ some (s', m'))
    × Effect IsWf lfu_memory (in_eviction lfu_memory) s' m'
    × (s'.protected_charges ≤ 4)
promote-protected_fits_example = promote-protected_fits 2 lfu_state lfu_memory lfu_state-IsWf refl
