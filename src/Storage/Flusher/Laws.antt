-- ===== src/Storage/Flusher/Laws.antt =====
-- foyer-storage/src/flusher.rs: what `handle` does to the entries and to the catalog.
use foyer.Prelude.{ℕ, ◌<◌, ◌≡◌, refl, sym, ap, subst, ◌∙◌, some, List, [], ◌∷◌, ◌++◌, map, arith}
use foyer.Prelude.{some-inj, none-ne-some, some_of_bind}
use foyer.Storage.Format.{Code}
use foyer.Storage.Catalog.{Catalog, region_of, insert}
use foyer.Storage.Catalog.Ordered.{Order}
use foyer.Storage.Catalog.Laws.{Covered, insert-Puts}
use foyer.Storage.Entry.{Entry}
use foyer.Storage.Buffer.{PositionedEntry, FlushBuffer, Outcome, need_rotate, Machine, write, put}
use foyer.Storage.Buffer.Placed.{All, nothing, also, All-map, All-snoc, All-left}
use foyer.Storage.Buffer.Flush.{MachineLaws, IsValid, idle, writing, Succeeds, done, fails, Refuses}
use foyer.Storage.Buffer.Write.{position, Writes}
use foyer.Storage.Flusher.{
  Flusher, Progress, finished, failed, waits, item_of, update_catalog, retry,
}

module _ {ℓ} {K V : Type ℓ} (order : Order K) (hash : K → ℕ) where
  -- A catalog has listed the items on disk, and knows so many regions.
  pub record Knows (count : ℕ) (c : Catalog K V) : Type ℓ where
    pub covered : Covered order hash c
    pub count_of : c.region_count ≡ count

  exists :
      (count : ℕ) (p : PositionedEntry K V) (c : Catalog K V)
      → p.region < count
      → c.region_count ≡ count
      → (r : ℕ) → region_of (item_of p) ≡ some r
      → r < c.region_count
  unfolding item_of region_of
  exists count p c b e r on = omega (arith, b, e, some-inj on)

  pub update_catalog-append :
      (l l' : List (PositionedEntry K V)) (c c' : Catalog K V)
      → update_catalog order hash l c ≡ some c'
      → update_catalog order hash (l ++ l') c ≡ update_catalog order hash l' c'
  unfolding update_catalog
  update_catalog-append [] l' c c' h = ap (update_catalog order hash l') (some-inj h)
  update_catalog-append (p ∷ l) l' c c' h =
      let (c1, e, rest) = some_of_bind (insert order hash p.entry.key (item_of p) c) _ c' h in
      rw e (update_catalog-append l l' c1 c' rest)

  -- An update with entries of existing regions never faults and keeps all items listed.
  pub update_catalog-Knows :
      (count : ℕ) (entries : List (PositionedEntry K V)) (c : Catalog K V)
      → Knows count c
      → All (λ p. p.region < count) entries
      → (c' : Catalog K V) × (update_catalog order hash entries c ≡ some c') × Knows count c'
  unfolding update_catalog
  update_catalog-Knows count [] c w b = (c, refl, w)
  update_catalog-Knows count (p ∷ entries) c w (also b rest) =
      let (c1, e, puts) =
        insert-Puts order hash p.entry.key (item_of p) c w.covered
          (exists count p c b w.count_of) in
      let (c2, e2, w2) =
        update_catalog-Knows count entries c1
          (record { covered = puts.covered; count_of = puts.regions_kept ∙ w.count_of }) rest in
      (c2, rw e e2, w2)

module _ {ℓ} {K V : Type ℓ} (order : Order K) (hash : K → ℕ) (m : Machine) (keys : Code K)
    (values : Code V) where
  -- The buffer is valid, items on disk are listed, and clean regions exist.
  pub record IsFine (f : Flusher K V) : Type ℓ where
    pub valid : IsValid m keys values f.buffer
    pub knows : Knows order hash m.geometry.regions f.catalog
    pub clean : All (λ r. r < m.geometry.regions) f.clean_regions

  -- An entry that is taken: the catalog has what is reported, which with the entries that still
  -- wait are those that waited before and the new one, in this order. The flusher is fine, or has
  -- failed, and then the device refused the bytes of the buffer `full`.
  pub data Takes (e : Entry K V) (f f' : Flusher K V) : Progress → Type ℓ where
    completed :
        (reported : List (PositionedEntry K V))
        → IsFine f'
        → update_catalog order hash reported f.catalog ≡ some f'.catalog
        → map (λ p. p.entry) (reported ++ f'.buffer.entries)
          ≡ map (λ p. p.entry) f.buffer.entries ++ (e ∷ [])
        → Takes e f f' finished
    broken :
        (full : FlushBuffer K V) (reported : List (PositionedEntry K V))
        → Refuses m keys values full f'.buffer
        → update_catalog order hash reported f.catalog ≡ some f'.catalog
        → map (λ p. p.entry) (reported ++ f'.buffer.entries)
          ≡ map (λ p. p.entry) f.buffer.entries ++ (e ∷ [])
        → Takes e f f' failed

  -- What `handle` does with an entry: it takes it; or the buffer has returned it, and no region is
  -- clean, or the device refused the bytes that waited when the buffer was to rotate.
  pub data Handles (e : Entry K V) (f f' : Flusher K V) : Progress → Type ℓ where
    taken : {p : Progress} → Takes e f f' p → Handles e f f' p
    stalled :
        Writes m keys values e f.buffer f.buffer (need_rotate e)
        → f.clean_regions ≡ []
        → f' ≡ f
        → Handles e f f' waits
    stuck :
        Writes m keys values e f.buffer f.buffer (need_rotate e)
        → Refuses m keys values f.buffer f'.buffer
        → f'.catalog ≡ f.catalog
        → Handles e f f' failed

module _ {ℓ} {K V : Type ℓ} (order : Order K) (hash : K → ℕ) (m : Machine) (laws : MachineLaws m)
    (keys : Code K) (values : Code V) where
  pub in_device :
      (s : FlushBuffer K V)
      → IsValid m keys values s
      → All (λ p. p.region < m.geometry.regions) s.entries
  in_device s (idle er eb ee) = subst (All (λ p. p.region < m.geometry.regions)) (sym ee) nothing
  in_device s (writing er w) = All-map (λ p on. omega (arith, on.in_region, w.in_device)) w.placed

  bound_of :
      (s : FlushBuffer K V) (r : ℕ)
      → IsValid m keys values s
      → s.region ≡ some r
      → r < m.geometry.regions
  bound_of s r (idle er eb ee) e = absurd (none-ne-some (sym er ∙ e))
  bound_of s r (writing er w) e = omega (arith, some-inj (sym er ∙ e), w.in_device)

  map-snoc :
      (l : List (PositionedEntry K V)) (p : PositionedEntry K V)
      → map (λ p. p.entry) (l ++ (p ∷ [])) ≡ map (λ p. p.entry) l ++ (p.entry ∷ [])
  map-snoc [] p = refl
  map-snoc (q ∷ l) p = ap (λ t. q.entry ∷ t) (map-snoc l p)

  -- A write that a region has room for, and the update with what it reports.
  pub retry-accepted :
      (e : Entry K V) (f : Flusher K V) (r : ℕ) (s : FlushBuffer K V) (o : Outcome K V)
      → IsFine order hash m keys values f
      → f.buffer.region ≡ some r
      → write m keys values e f.buffer ≡ some (s, o)
      → Succeeds m keys values
          (f.buffer.entries ++ (position m keys values r e f.buffer ∷ []))
          (put m keys values r e f.buffer)
          s
          o
      → (f' : Flusher K V) × (p : Progress) × (retry order hash m keys values e f ≡ some (f', p))
        × Takes order hash m keys values e f f' p
  unfolding retry update_catalog
  retry-accepted e f r s _ w er ew (fails refuses eq) = (
    record f { buffer = s },
    failed,
    rw ew refl,
    broken (put m keys values r e f.buffer) [] refuses refl (
        ap (map (λ p. p.entry)) eq
        ∙ map-snoc f.buffer.entries (position m keys values r e f.buffer)),
  )
  retry-accepted e f r s _ w er ew (done {entries = entries} valid on eq) =
      let queue = f.buffer.entries ++ (position m keys values r e f.buffer ∷ []) in
      let bounds : All (λ p. p.region < m.geometry.regions) queue =
        All-snoc (in_device f.buffer w.valid) (bound_of f.buffer r w.valid er) in
      let (c, ec, known) =
        update_catalog-Knows order hash m.geometry.regions entries f.catalog w.knows (
          All-left entries s.entries
            (subst (All (λ p. p.region < m.geometry.regions)) (sym eq) bounds)) in
      (
        record f { buffer = s; catalog = c },
        finished,
        rw (ew, ec) refl,
        completed entries (record { valid = valid; knows = known; clean = w.clean }) ec
            (ap (map (λ p. p.entry)) eq
              ∙ map-snoc f.buffer.entries (position m keys values r e f.buffer)),
      )
