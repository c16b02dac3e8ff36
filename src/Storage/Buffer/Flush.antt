-- ===== src/Storage/Buffer/Flush.antt =====
-- foyer-storage/src/buffer.rs: `flush` brings the entries that wait to the device.
use foyer.Prelude.{
  usize_mod, wrapping_add_fits, ◌^◌, ℕ, ◌+◌, ◌-◌, ◌%◌, ◌≤◌, ◌<◌, ◌≡◌, refl, sym, ap, subst, ◌∙◌,
  inl, inr, Bool, true, false, none, some, List, [], ◌++◌, arith, ◌==◌, if◌then◌else◌, Bool-cases,
  leb_of_le, length,
}
use mathlib.Core.List.{append-nil}
use native.Mathlib.Nat.{zero-mod}
use foyer.Storage.Format.{Code, align_up}
use foyer.Storage.Format.Bytes.{fill}
use foyer.Storage.Device.{Disk, write_at}
use foyer.Storage.Entry.Laws.{CratesLaws}
use foyer.Storage.Buffer.{
  PositionedEntry, FlushBuffer, Outcome, flushed, device_error, Machine, flush, flush_to,
}
use foyer.Storage.Buffer.Align.{align_up-ge, align_up-least, sum-IsAligned}
use foyer.Storage.Buffer.Placed.{All, nothing, All-map, Placed, IsOnDisk, Placed-write_at}

-- What a device documents: a region has room for its header and is made of whole blocks, its
-- addresses are offsets of a file, and a write that succeeds is on the disk.
pub record MachineLaws (m : Machine) : Type 0 where
  pub crates : CratesLaws m.crates
  pub header : 16 ≤ m.geometry.align
  pub block : m.geometry.align ≤ m.geometry.region_size
  pub addresses : m.geometry.region_size < 2 ^ 63
  pub blocks : m.geometry.region_size % m.geometry.align ≡ 0
  pub written :
      (buf : List ℕ) (r o : ℕ) (d : Disk)
      → (m.device_write buf r o d).0 ≡ true
      → (m.device_write buf r o d).1 ≡ write_at buf r o d

module _ {ℓ} {K V : Type ℓ} (m : Machine) (keys : Code K) (values : Code V) where
  -- A buffer for a region is made of whole blocks that the region has room for, and every entry
  -- that waits has its bytes in it.
  pub record Writing (r : ℕ) (s : FlushBuffer K V) : Type ℓ where
    pub aligned : length s.buffer % m.geometry.align ≡ 0
    pub at_block : s.offset % m.geometry.align ≡ 0
    pub in_device : r < m.geometry.regions
    pub room : s.offset + length s.buffer ≤ m.geometry.region_size
    pub placed : All (Placed m.crates keys values s.buffer r s.offset) s.entries

  -- A buffer without a region is empty.
  pub data IsValid (s : FlushBuffer K V) : Type ℓ where
    idle : s.region ≡ none → s.buffer ≡ [] → s.entries ≡ [] → IsValid s
    writing : {r : ℕ} → s.region ≡ some r → Writing r s → IsValid s

  -- The device refuses the bytes of the buffer `s`, which is left without them: its entries wait
  -- on, and the disk is what the device made of it.
  pub record Refuses (s s' : FlushBuffer K V) : Type ℓ where
    pub to : ℕ
    pub region : s.region ≡ some to
    pub refused : (m.device_write s.buffer to s.offset s.disk).0 ≡ false
    pub left : s' ≡ record s { buffer = []; disk = (m.device_write s.buffer to s.offset s.disk).1 }

  -- The entries that an operation reports can be read back, and with those that still wait they
  -- are all that there were, in their order, in a valid buffer; or the device refuses the bytes of
  -- the buffer `full`, and all entries wait.
  pub data Succeeds (queue : List (PositionedEntry K V)) (full s : FlushBuffer K V)
      : Outcome K V → Type ℓ where
    done :
        {entries : List (PositionedEntry K V)}
        → IsValid s
        → All (IsOnDisk m.crates keys values s.disk) entries
        → entries ++ s.entries ≡ queue
        → Succeeds queue full s (flushed entries)
    fails : Refuses full s → s.entries ≡ queue → Succeeds queue full s device_error

  -- A flush empties the buffer and reports all the entries that waited, or the device refuses.
  pub data Flushes (s s' : FlushBuffer K V) : Outcome K V → Type ℓ where
    emptied :
        IsValid s'
        → s'.buffer ≡ []
        → s'.entries ≡ []
        → All (IsOnDisk m.crates keys values s'.disk) s.entries
        → Flushes s s' (flushed s.entries)
    refuses : Refuses s s' → Flushes s s' device_error

module _ {ℓ} {K V : Type ℓ} (m : Machine) (laws : MachineLaws m) (keys : Code K)
    (values : Code V) where
  word :
      (s : FlushBuffer K V) (r : ℕ)
      → Writing m keys values r s
      → length s.buffer + m.geometry.align < usize_mod
  word s r w = omega (arith, w.room, laws.block, laws.addresses)

  no_padding :
      (s : FlushBuffer K V) (r : ℕ)
      → Writing m keys values r s
      → align_up m.geometry.align (length s.buffer) ≡ length s.buffer
  no_padding s r w = omega (
    arith,
    laws.header,
    align_up-ge m.geometry.align (length s.buffer) (omega (arith, laws.header)) (word s r w),
    align_up-least m.geometry.align (length s.buffer) (length s.buffer) (omega (arith, laws.header))
        (word s r w) (omega arith) w.aligned,
  )

  after_flush :
      (s : FlushBuffer K V) (r : ℕ) (disk : Disk)
      → Writing m keys values r s
      → IsValid m keys values (record {
        buffer = [];
        region = (if s.offset + length s.buffer == m.geometry.region_size then none else some r);
        offset = s.offset + length s.buffer;
        entries = [];
        disk = disk;
      })
  after_flush s r disk w =
      elim (Bool-cases (s.offset + length s.buffer == m.geometry.region_size)) [
        | inl e ↦ idle (rw e refl) refl refl
        | inr e ↦ writing {r = r} (rw e refl) (record {
          aligned = zero-mod m.geometry.align;
          at_block = sum-IsAligned m.geometry.align s.offset (length s.buffer) w.at_block w.aligned;
          in_device = w.in_device;
          room = omega (arith, w.room);
          placed = nothing;
        })
      ]

  -- The buffer and the results of a flush to the region `r`, by the result of the device.
  written_to : ℕ → FlushBuffer K V → Bool → Disk → FlushBuffer K V × Outcome K V
  written_to r s ok disk =
      if ok
      then (
        record {
          buffer = [];
          region = (if s.offset + length s.buffer == m.geometry.region_size then none else some r);
          offset = s.offset + length s.buffer;
          entries = [];
          disk = disk;
        },
        flushed s.entries,
      )
      else (record s { buffer = []; disk = disk }, device_error)

  flush_to-blocks :
      (s : FlushBuffer K V) (r : ℕ)
      → Writing m keys values r s
      → (ok : Bool) (disk : Disk) → m.device_write s.buffer r s.offset s.disk ≡ (ok, disk)
      → flush_to m keys values r s ≡ some (written_to r s ok disk)
  unfolding flush_to fill written_to
  flush_to-blocks s r w ok disk e =
      let same : length s.buffer - length s.buffer ≡ 0 = omega arith in
      rw
        (
          no_padding s r w,
          same,
          wrapping_add_fits s.offset (length s.buffer) (omega (arith, w.room, laws.addresses)),
          append-nil s.buffer,
          e,
          leb_of_le (s.offset + length s.buffer) m.geometry.region_size w.room,
        )
        refl

  flush_to-Flushes :
      (s : FlushBuffer K V) (r : ℕ)
      → s.region ≡ some r
      → Writing m keys values r s
      → (s' : FlushBuffer K V) × (o : Outcome K V) × (flush_to m keys values r s ≡ some (s', o))
        × Flushes m keys values s s' o
  unfolding written_to
  flush_to-Flushes s r er w =
      let (ok, disk) = m.device_write s.buffer r s.offset s.disk in
      let e : flush_to m keys values r s ≡ some (written_to r s ok disk) =
        flush_to-blocks s r w ok disk refl in
      elim (Bool-cases ok) [
        | inl good ↦ (
          (written_to r s true disk).0,
          (written_to r s true disk).1,
          e ∙ ap (λ b. some (written_to r s b disk)) good,
          emptied (after_flush s r disk w) refl refl (
              All-map
                (λ p on.
                  subst (λ d. IsOnDisk m.crates keys values d p)
                    (sym (laws.written s.buffer r s.offset s.disk good))
                    (Placed-write_at m.crates keys values laws.crates s.buffer r s.offset s.disk p
                      on))
                w.placed),
        )
        | inr bad ↦ (
          (written_to r s false disk).0,
          (written_to r s false disk).1,
          e ∙ ap (λ b. some (written_to r s b disk)) bad,
          refuses (record { to = r; region = er; refused = bad; left = refl }),
        )
      ]

  flush-writing :
      (s : FlushBuffer K V) (r : ℕ)
      → s.region ≡ some r
      → flush m keys values s ≡ flush_to m keys values r s
  unfolding flush
  flush-writing s r er = ground (arith, er)

  flush-idle :
      (s : FlushBuffer K V)
      → s.region ≡ none
      → s.entries ≡ []
      → flush m keys values s ≡ some (s, flushed [])
  unfolding flush
  flush-idle s er ee = ground (arith, er, ee)

  -- A flush of a valid buffer never faults, and unless the device refuses the bytes, it empties the
  -- buffer and reports the entries that waited, each of which can be read back.
  pub flush-Flushes :
      (s : FlushBuffer K V)
      → IsValid m keys values s
      → (s' : FlushBuffer K V) × (o : Outcome K V) × (flush m keys values s ≡ some (s', o))
        × Flushes m keys values s s' o
  unfolding flush
  flush-Flushes s (idle er eb ee) = (
    s,
    flushed s.entries,
    flush-idle s er ee ∙ ap (λ l. some (s, flushed l)) (sym ee),
    emptied (idle er eb ee) eb ee
        (subst (All (IsOnDisk m.crates keys values s.disk)) (sym ee) nothing),
  )
  flush-Flushes s (writing er w) =
      let (s', o, e, t) = flush_to-Flushes s _ er w in (s', o, flush-writing s _ er ∙ e, t)

  pub Flushes-Succeeds :
      {s s' : FlushBuffer K V} {o : Outcome K V}
      → Flushes m keys values s s' o
      → Succeeds m keys values s.entries s s' o
  Flushes-Succeeds {s = s} (emptied w eb ee on) =
      done w on (ap (λ l. s.entries ++ l) ee ∙ append-nil s.entries)
  Flushes-Succeeds (refuses f) = fails f (ap (λ b. b.entries) f.left)
