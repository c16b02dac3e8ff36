-- ===== src/Storage/Buffer/Placed.antt =====
-- foyer-storage/src/buffer.rs: the entries that wait in a buffer, and their bytes.
use foyer.Prelude.{
  ℕ, ◌+◌, ◌≡◌, refl, sym, ap, subst, ◌∙◌, some, List, [], ◌∷◌, ◌++◌, arith, length, length-append,
}
use mathlib.Core.List.{append_assoc}
use foyer.Storage.Format.{Code}
use foyer.Storage.Format.Bytes.{take, drop, take-append, drop-append}
use foyer.Storage.Device.{Disk, write_at, load, length-load, load-split, load-write_at}
use foyer.Storage.Entry.{Crates, encode, read_entry}
use foyer.Storage.Entry.Laws.{CratesLaws, IsSmall, read_entry-encode}
use foyer.Storage.Buffer.{PositionedEntry}

pub data All {ℓ κ} {A : Type ℓ} (P : A → Type κ) : List A → Type (ℓ ⊔ κ) where
  nothing : All P []
  also : {a : A} {l : List A} → P a → All P l → All P (a ∷ l)

module _ {ℓ κ μ} {A : Type ℓ} {P : A → Type κ} {Q : A → Type μ} where
  pub All-map : {l : List A} → ((a : A) → P a → Q a) → All P l → All Q l
  All-map f nothing = nothing
  All-map f (also p rest) = also (f _ p) (All-map f rest)

module _ {ℓ κ} {A : Type ℓ} {P : A → Type κ} where
  pub All-left : (l l' : List A) → All P (l ++ l') → All P l
  All-left [] l' a = nothing
  All-left (x ∷ l) l' (also p rest) = also p (All-left l l' rest)

  pub All-snoc : {l : List A} {a : A} → All P l → P a → All P (l ++ (a ∷ []))
  All-snoc nothing p = also p nothing
  All-snoc (also q rest) p = also q (All-snoc rest p)

-- A part of what is written is found in its place.
pub load-part :
    (before part after : List ℕ) (r o : ℕ) (d : Disk)
    → load (length part) r (o + length before) (write_at (before ++ (part ++ after)) r o d) ≡ part
load-part before part after r o d =
    let d' = write_at (before ++ (part ++ after)) r o d in
    let nb = length before in
    let np = length part in
    let na = length after in
    let total : length (before ++ (part ++ after)) ≡ nb + (np + na) =
      omega (arith, length-append before (part ++ after), length-append part after) in
    let whole : load (nb + (np + na)) r o d' ≡ before ++ (part ++ after) =
      subst (λ n. load n r o d' ≡ before ++ (part ++ after)) total
        (load-write_at (before ++ (part ++ after)) r o d) in
    let split : load nb r o d' ++ (load np r (o + nb) d' ++ load na r (o + nb + np) d')
        ≡ before ++ (part ++ after) =
      ap (λ l. load nb r o d' ++ l) (sym (load-split np na r (o + nb) d'))
      ∙ sym (load-split nb (np + na) r o d')
      ∙ whole in
    let front : load np r (o + nb) d' ++ load na r (o + nb + np) d' ≡ part ++ after =
      sym (drop-append (load nb r o d') _ nb (sym (length-load nb r o d')))
      ∙ ap (drop nb) split
      ∙ drop-append before (part ++ after) nb refl in
    sym (take-append (load np r (o + nb) d') _ np (sym (length-load np r (o + nb) d')))
    ∙ ap (take np) front
    ∙ take-append part after np refl

module _ {ℓ} {K V : Type ℓ} (x : Crates) (keys : Code K) (values : Code V) where
  -- An entry has its bytes, and some padding, in the buffer for a place in a region.
  pub record Placed (buffer : List ℕ) (region offset : ℕ) (p : PositionedEntry K V) : Type ℓ where
    pub before : List ℕ
    pub padding : List ℕ
    pub after : List ℕ
    pub bytes : buffer ≡ before ++ ((encode x keys values p.entry ++ padding) ++ after)
    pub in_region : p.region ≡ region
    pub place : p.offset ≡ offset + length before
    pub size : p.len ≡ length (encode x keys values p.entry ++ padding)
    pub small : IsSmall x keys values p.entry

  -- The entry is read back from its place on a disk.
  abbrev pub IsOnDisk : Disk → PositionedEntry K V → Type ℓ
  IsOnDisk d p =
      read_entry x keys values (load p.len p.region p.offset d)
      ≡ some (some (p.entry.key, p.entry.value))

  pub Placed-append :
      (buffer more : List ℕ) (region offset : ℕ) (p : PositionedEntry K V)
      → Placed buffer region offset p
      → Placed (buffer ++ more) region offset p
  Placed-append buffer more region offset p w =
      let block = encode x keys values p.entry ++ w.padding in
      record {
        before = w.before;
        padding = w.padding;
        after = w.after ++ more;
        bytes =
            ap (λ l. l ++ more) w.bytes
            ∙ append_assoc w.before (block ++ w.after) more
            ∙ ap (λ l. w.before ++ l) (append_assoc block w.after more);
        in_region = w.in_region;
        place = w.place;
        size = w.size;
        small = w.small;
      }

  pub Placed-write_at :
      CratesLaws x
      → (buffer : List ℕ) (region offset : ℕ) (d : Disk) (p : PositionedEntry K V)
      → Placed buffer region offset p
      → IsOnDisk (write_at buffer region offset d) p
  Placed-write_at laws buffer region offset d p w =
      let block = encode x keys values p.entry ++ w.padding in
      rw (w.size, w.in_region, w.place, w.bytes, load-part w.before block w.after region offset d)
        (read_entry-encode x laws keys values p.entry w.padding w.small)
