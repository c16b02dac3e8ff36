-- ===== src/Storage/Recovery/Region.antt =====
-- foyer-storage/src/generic.rs: `recover_region` puts the entries of a region in the catalog.
use foyer.Prelude.{
  ℕ, zero, suc, ◌+◌, ◌-◌, ◌≤◌, ◌<◌, ◌≡◌, refl, ap, true, none, some, List, [], ◌∷◌, ◌++◌, arith,
  length,
}
use foyer.Storage.Format.{Code}
use foyer.Storage.Device.{Disk, load}
use foyer.Storage.Entry.{Entry, encode}
use foyer.Storage.Buffer.{Machine, PositionedEntry}
use foyer.Storage.Buffer.Align.{align_up-ge}
use foyer.Storage.Buffer.Flush.{MachineLaws}
use foyer.Storage.Flusher.{item_of}
use foyer.Storage.Entry.Laws.{length-encode}
use foyer.Storage.Recovery.{RegionEntryIter, next}
use Prim.Native.Nat.{max}
use foyer.Prelude.{some_of_bind, some-inj}
use foyer.Storage.Format.{read_region}
use foyer.Storage.Catalog.{Catalog, insert}
use foyer.Storage.Catalog.Ordered.{Order}
use foyer.Storage.Buffer.Placed.{All, nothing, also}
use foyer.Storage.Flusher.{update_catalog}
use foyer.Storage.Flusher.Laws.{Knows, update_catalog-Knows}
use foyer.Storage.Recovery.{Regions, open_region, walk, recover_region}
use foyer.Storage.Recovery.Next.{IsAt, found, next-Finds}

module _ {ℓ} {K V : Type ℓ} (m : Machine) (laws : MachineLaws m) (keys : Code K)
    (values : Code V) where
  abbrev pub behind : Entry K V → RegionEntryIter → RegionEntryIter
  behind e s = record s { cursor = s.cursor + (found m laws keys values e s).len }

  -- Entries that follow each other in a region, each of which the iterator can see (`IsAt`), up to
  -- where the iterator stops.
  pub data Chain (d : Disk) : List (Entry K V) → RegionEntryIter → Type ℓ where
    ends : {s : RegionEntryIter} → next m keys values s d ≡ some (none, s) → Chain d [] s
    follows :
        {s : RegionEntryIter} {e : Entry K V} {rest : List (Entry K V)}
        → IsAt m keys values e s d
        → Chain d rest (behind e s)
        → Chain d (e ∷ rest) s

  unfoldable pub places : List (Entry K V) → RegionEntryIter → List (PositionedEntry K V)
  places [] s = []
  places (e ∷ rest) s = found m laws keys values e s ∷ places rest (behind e s)

  pub places-All :
      (l : List (Entry K V)) (s : RegionEntryIter) (count : ℕ)
      → s.region < count
      → All (λ p. p.region < count) (places l s)
  unfolding places
  places-All [] s count b = nothing
  places-All (e ∷ rest) s count b = also b (places-All rest (behind e s) count b)

  -- A region has fewer entries than bytes behind the cursor.
  length-Chain :
      (d : Disk) (l : List (Entry K V)) (s : RegionEntryIter)
      → Chain d l s
      → length l ≤ m.geometry.region_size - s.cursor
  length-Chain d _ s (ends e) = omega arith
  length-Chain d _ s (follows {e = e} {rest = rest} at more) =
      let ih = length-Chain d rest (behind e s) more in
      omega (
        arith,
        ih,
        laws.header,
        at.before_last,
        length-encode m.crates laws.crates keys values e,
        align_up-ge m.geometry.align (length (encode m.crates keys values e))
            (omega (arith, laws.header)) (omega (arith, at.room, laws.block, laws.addresses)),
      )

  abbrev pub max_sequence : ℕ → List (Entry K V) → ℕ
  max_sequence q [] = q
  max_sequence q (e ∷ rest) = max_sequence (max q e.sequence) rest

  walk-Chain :
      (order : Order K) (hash : K → ℕ) (d : Disk) (l : List (Entry K V)) (s : RegionEntryIter)
      (fuel q : ℕ) (c c' : Catalog K V)
      → Chain d l s
      → 28 ≤ m.geometry.align
      → length l < fuel
      → update_catalog order hash (places l s) c ≡ some c'
      → walk order hash m keys values fuel s d q c ≡ some (max_sequence q l, c')
  unfolding walk update_catalog places item_of
  walk-Chain order hash d l s zero q c c' chain b f up = absurd (omega (arith, f))
  walk-Chain order hash d _ s (suc fuel) q c c' (ends e) b f up =
      rw e (ap (λ x. some (q, x)) (some-inj up))
  walk-Chain order hash d _ s (suc fuel) q c c' (follows {e = e} {rest = rest} at more) b f up =
      let (c1, e1, up1) =
        some_of_bind (insert order hash e.key (item_of (found m laws keys values e s)) c) _ c' up in
      rw (next-Finds m laws keys values e s d at b, e1)
        (walk-Chain order hash d rest (behind e s) fuel (max q e.sequence) c1 c' more b
          (omega (arith, f)) up1)

  -- A region with a header and a chain of entries, which have keys that are not empty and lengths
  -- whose sums fit in 32 bits and start before the last block, is recovered without a fault up to
  -- where the iterator stops: the fuel is enough, these entries are put in the catalog at their
  -- places, in their order, as the flusher puts them, the largest sequence of them is returned, and
  -- the region can be evicted. A block has room for the header of an entry.
  pub recover_region-Recovers :
      (order : Order K) (hash : K → ℕ) (r : ℕ) (d : Disk) (f : Regions K V) (l : List (Entry K V))
      → read_region m.crates.bytes (load m.geometry.align r 0 d) ≡ some true
      → Chain d l (record { region = r; cursor = m.geometry.align })
      → 28 ≤ m.geometry.align
      → Knows order hash m.geometry.regions f.catalog
      → r < m.geometry.regions
      → (c : Catalog K V) × (update_catalog order hash
            (places l (record { region = r; cursor = m.geometry.align }))
            f.catalog
          ≡ some c)
        × (recover_region order hash m keys values r d f
            ≡ some (
              some (max_sequence 0 l),
              record f { catalog = c; evictable = f.evictable ++ (r ∷ []) },
            ))
        × Knows order hash m.geometry.regions c
  unfolding recover_region open_region
  recover_region-Recovers order hash r d f l header chain b known exists =
      let s : RegionEntryIter = record { region = r; cursor = m.geometry.align } in
      let (c, up, known') =
        update_catalog-Knows order hash m.geometry.regions (places l s) f.catalog known
          (places-All l s m.geometry.regions exists) in
      let enough : length l < m.geometry.region_size =
        omega (arith, length-Chain d l s chain, laws.header, laws.block) in
      let run =
        walk-Chain order hash d l s m.geometry.region_size 0 f.catalog c chain b enough up in
      (c, up, rw (header, run) refl, known')
