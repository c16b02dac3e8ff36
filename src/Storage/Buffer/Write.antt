-- ===== src/Storage/Buffer/Write.antt =====
-- foyer-storage/src/buffer.rs: `write` and `rotate`.
use foyer.Prelude.{
  wrapping_add, wrapping_add_fits, usize_mod, ℕ, ◌+◌, ◌-◌, ◌≤◌, ◌<◌, ◌≡◌, refl, sym, ap, subst, inl,
  inr, true, ◌||◌, none, some, List, [], ◌∷◌, ◌++◌, arith, ltb, leb, ◌==◌, ltb→lt, ltb→ge,
  Bool-cases, leb_of_le, length, length-append,
}
use native.Mathlib.Nat.{zero-mod, mod_self}
use mathlib.Core.List.{append_assoc, append-nil}
use foyer.Storage.Format.{Code, align_up, is_aligned, write_region}
use foyer.Storage.Format.Bytes.{fill, length-fill}
use foyer.Storage.Format.Header.{length-write_region}
use foyer.Storage.Entry.{Entry, encode}
use foyer.Storage.Entry.Laws.{IsSmall, length-encode}
use foyer.Storage.Buffer.{
  PositionedEntry, FlushBuffer, Outcome, flushed, need_rotate, device_error, Machine, flush, start,
  rotate, put, flush_if_full, write, remaining,
}
use foyer.Storage.Buffer.Align.{
  align_up-IsAligned, align_up-ge, align_up-least, difference-IsAligned,
}
use foyer.Storage.Buffer.Placed.{All, nothing, All-map, All-snoc, Placed, IsOnDisk, Placed-append}
use foyer.Storage.Buffer.Flush.{
  MachineLaws, Writing, IsValid, idle, writing, Succeeds, done, Flushes, emptied, refuses, Refuses,
  flush-Flushes, Flushes-Succeeds,
}

module _ {ℓ} {K V : Type ℓ} (m : Machine) (keys : Code K) (values : Code V) where
  -- The place of an entry behind the bytes of the buffer, in whole blocks.
  abbrev pub position : ℕ → Entry K V → FlushBuffer K V → PositionedEntry K V
  position r e s = record {
    entry = e;
    region = r;
    offset = wrapping_add s.offset (length s.buffer);
    len =
        align_up m.geometry.align (length (s.buffer ++ encode m.crates keys values e))
        - length s.buffer;
  }

  -- A write puts its entry behind the others, and the buffer is flushed if it is full; or it
  -- returns the entry and changes nothing if the buffer has no region, or the region has no room
  -- for it.
  pub data Writes (e : Entry K V) (s s' : FlushBuffer K V) : Outcome K V → Type ℓ where
    without_region : s.region ≡ none → s' ≡ s → Writes e s s' (need_rotate e)
    without_room :
        m.geometry.region_size < s.offset + length (s.buffer ++ encode m.crates keys values e)
        → s' ≡ s
        → Writes e s s' (need_rotate e)
    accepted :
        {r : ℕ} {o : Outcome K V}
        → s.region ≡ some r
        → Succeeds m keys values (s.entries ++ (position r e s ∷ [])) (put m keys values r e s) s' o
        → Writes e s s' o

  -- A buffer at the first block of a region, with the disk of another.
  pub record IsNew (r : ℕ) (s s' : FlushBuffer K V) : Type ℓ where
    pub region : s'.region ≡ some r
    pub waiting : s'.entries ≡ []
    pub disk : s'.disk ≡ s.disk
    pub size : s'.offset + length s'.buffer ≡ m.geometry.align
    pub state : Writing m keys values r s'

  pub data Rotates (r : ℕ) (s s' : FlushBuffer K V) : Outcome K V → Type ℓ where
    moved :
        IsNew r s' s'
        → All (IsOnDisk m.crates keys values s'.disk) s.entries
        → Rotates r s s' (flushed s.entries)
    stopped : Refuses m keys values s s' → Rotates r s s' device_error

module _ {ℓ} {K V : Type ℓ} (m : Machine) (laws : MachineLaws m) (keys : Code K)
    (values : Code V) where
  length-pad : (l : List ℕ) (n : ℕ) → length l ≤ n → length (l ++ fill m.junk (n - length l)) ≡ n
  length-pad l n b =
      omega
        (arith, b, length-append l (fill m.junk (n - length l)), length-fill m.junk (n - length l))

  put-Writing :
      (s : FlushBuffer K V) (r : ℕ) (e : Entry K V)
      → Writing m keys values r s
      → IsSmall m.crates keys values e
      → s.offset + length (s.buffer ++ encode m.crates keys values e) ≤ m.geometry.region_size
      → Writing m keys values r (put m keys values r e s)
  unfolding put
  put-Writing s r e w small fits =
      let a = m.geometry.align in
      let code = encode m.crates keys values e in
      let full = s.buffer ++ code in
      let target = align_up a (length full) in
      let padding = fill m.junk (target - length full) in
      let pos : 0 < a = omega (arith, laws.header) in
      let word : length full + a < usize_mod = omega (arith, fits, laws.block, laws.addresses) in
      let plain : wrapping_add s.offset (length s.buffer) ≡ s.offset + length s.buffer =
        wrapping_add_fits s.offset (length s.buffer) (omega (arith, w.room, laws.addresses)) in
      let ge : length full ≤ target = align_up-ge a (length full) pos word in
      let len : length (full ++ padding) ≡ target = length-pad full target ge in
      let below : target ≤ m.geometry.region_size - s.offset =
        align_up-least a (length full) (m.geometry.region_size - s.offset) pos word
          (omega (arith, fits))
          (difference-IsAligned a s.offset m.geometry.region_size (omega (arith, fits)) w.at_block
            laws.blocks) in
      let bytes : full ++ padding ≡ s.buffer ++ (code ++ padding) =
        append_assoc s.buffer code padding in
      record {
        aligned = rw len (align_up-IsAligned a (length full));
        at_block = w.at_block;
        in_device = w.in_device;
        room = omega (arith, fits, len, below);
        placed = rw bytes (
            All-snoc
              (All-map
                (λ p on.
                  Placed-append m.crates keys values s.buffer (code ++ padding) r s.offset p on)
                w.placed)
              (record {
                before = s.buffer;
                padding = padding;
                after = [];
                bytes = ap (λ l. s.buffer ++ l) (sym (append-nil (code ++ padding)));
                in_region = refl;
                place = plain;
                size =
                    omega (arith, len, ap length bytes, length-append s.buffer (code ++ padding));
                small = small;
              }));
      }

  flush_if_full-Succeeds :
      (s : FlushBuffer K V)
      → IsValid m keys values s
      → (s' : FlushBuffer K V) × (o : Outcome K V) × (flush_if_full m keys values s ≡ some (s', o))
        × Succeeds m keys values s.entries s s' o
  unfolding flush_if_full
  flush_if_full-Succeeds s w =
      elim (Bool-cases
        (leb m.geometry.io_size (length s.buffer) || remaining m keys values s == 0)) [
          | inl e ↦
              let (s', o, eq, t) = flush-Flushes m laws keys values s w in
              (s', o, rw e eq, Flushes-Succeeds m laws keys values t)
          | inr e ↦ (s, flushed [], rw e refl, done w nothing refl)
        ]

  write-in :
      (e : Entry K V) (s : FlushBuffer K V) (r : ℕ)
      → s.region ≡ some r
      → Writing m keys values r s
      → IsSmall m.crates keys values e
      → (s' : FlushBuffer K V) × (o : Outcome K V) × (write m keys values e s ≡ some (s', o))
        × Writes m keys values e s s' o
  unfolding write is_aligned put
  write-in e s r er w small =
      let code = encode m.crates keys values e in
      let full = length (s.buffer ++ code) in
      let plain : wrapping_add s.offset full ≡ s.offset + full = wrapping_add_fits s.offset full (
        omega (
          arith,
          w.room,
          laws.addresses,
          small.key,
          small.value,
          length-append s.buffer code,
          length-encode m.crates laws.crates keys values e,
        )) in
      elim (Bool-cases (ltb m.geometry.region_size (s.offset + length (s.buffer ++ code)))) [
        | inl big ↦ (
          s,
          need_rotate e,
          ground (arith, er, w.aligned, plain, big),
          without_room (ltb→lt m.geometry.region_size (s.offset + length (s.buffer ++ code)) big)
              refl,
        )
        | inr fits ↦
            let (s', o, eq, t) = flush_if_full-Succeeds (put m keys values r e s) (
              writing er (
                put-Writing s r e w small
                  (ltb→ge m.geometry.region_size (s.offset + length (s.buffer ++ code)) fits))) in
            (s', o, ground (arith, er, w.aligned, plain, fits, eq), accepted er t)
      ]

  -- A write of an entry whose lengths fit in its header, to a valid buffer, never faults. The
  -- entries that it reports can be read back from the device, and with those that still wait they
  -- are the ones that waited before and the new one, in this order, and the buffer stays valid; an
  -- entry without room is returned, and the buffer is left as it was. Only if the device refuses
  -- the bytes of the full buffer is that an error; then the buffer has lost the bytes, and all
  -- entries wait.
  pub write-Writes :
      (e : Entry K V) (s : FlushBuffer K V)
      → IsValid m keys values s
      → IsSmall m.crates keys values e
      → (s' : FlushBuffer K V) × (o : Outcome K V) × (write m keys values e s ≡ some (s', o))
        × Writes m keys values e s s' o
  unfolding write
  write-Writes e s (idle er eb ee) small =
      (s, need_rotate e, ground (arith, er), without_region er refl)
  write-Writes e s (writing er w) small = write-in e s _ er w small

  start-Writing :
      (r : ℕ) (s : FlushBuffer K V)
      → r < m.geometry.regions
      → s.buffer ≡ []
      → s.entries ≡ []
      → (s' : FlushBuffer K V) × (start m keys values r s ≡ some s') × IsNew m keys values r s s'
  unfolding start
  start-Writing r s b eb ee =
      let header = write_region m.crates.bytes in
      let a = m.geometry.align in
      let n : length header ≡ 16 = length-write_region m.crates.bytes laws.crates.bytes in
      let len : length (header ++ fill m.junk (a - length header)) ≡ a =
        length-pad header a (omega (arith, n, laws.header)) in
      let fits : leb (length header) a ≡ true =
        leb_of_le (length header) a (omega (arith, n, laws.header)) in
      (
        record s {
          buffer = header ++ fill m.junk (a - length header);
          region = some r;
          offset = 0;
        },
        ground (arith, eb, fits),
        record {
          region = refl;
          waiting = ee;
          disk = refl;
          size = omega (arith, len);
          state = record {
            aligned = rw len (mod_self a);
            at_block = zero-mod a;
            in_device = b;
            room = omega (arith, len, laws.block);
            placed =
                subst
                  (All
                    (Placed m.crates keys values (header ++ fill m.junk (a - length header)) r 0))
                  (sym ee) nothing;
          };
        },
      )

  rotate-Flushes :
      (r : ℕ) (s s1 : FlushBuffer K V) (o : Outcome K V)
      → r < m.geometry.regions
      → flush m keys values s ≡ some (s1, o)
      → Flushes m keys values s s1 o
      → (s' : FlushBuffer K V) × (o' : Outcome K V) × (rotate m keys values r s ≡ some (s', o'))
        × Rotates m keys values r s s' o'
  unfolding rotate
  rotate-Flushes r s s1 _ b e (emptied w eb ee on) =
      let (s', es, t) = start-Writing r s1 b eb ee in
      (
        s',
        flushed s.entries,
        rw (e, es) refl,
        moved
            (record {
              region = t.region;
              waiting = t.waiting;
              disk = refl;
              size = t.size;
              state = t.state;
            })
            (subst (λ d. All (IsOnDisk m.crates keys values d) s.entries) (sym t.disk) on),
      )
  rotate-Flushes r s s1 _ b e (refuses f) = (s1, device_error, rw e refl, stopped f)

  -- A rotation of a valid buffer to a region of the device never faults. It reports the entries
  -- that waited, each of which can be read back, and the buffer is at the first block of its new
  -- region; or the device refuses the bytes of the buffer, and then the entries wait on.
  pub rotate-Rotates :
      (r : ℕ) (s : FlushBuffer K V)
      → r < m.geometry.regions
      → IsValid m keys values s
      → (s' : FlushBuffer K V) × (o : Outcome K V) × (rotate m keys values r s ≡ some (s', o))
        × Rotates m keys values r s s' o
  rotate-Rotates r s b w =
      let (s1, o, e, f) = flush-Flushes m laws keys values s w in rotate-Flushes r s s1 o b e f
