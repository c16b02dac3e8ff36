-- ===== src/Storage/Recovery/Loads.antt =====
-- Parts of what is loaded from a device.
use foyer.Prelude.{
  ℕ, ◌+◌, ◌-◌, ◌≤◌, ◌≡◌, refl, sym, ap, subst, ◌∙◌, List, ◌++◌, arith, length, length-append,
}
use foyer.Storage.Format.Bytes.{take, drop, take-append, drop-append}
use foyer.Storage.Device.{Disk, load, length-load, load-split}

pub take-load : (i n r a : ℕ) (d : Disk) → i ≤ n → take i (load n r a d) ≡ load i r a d
take-load i n r a d b =
    let e : n ≡ i + (n - i) = omega (arith, b) in
    subst (λ k. take i (load k r a d) ≡ load i r a d) (sym e)
      (ap (take i) (load-split i (n - i) r a d)
        ∙ take-append (load i r a d) (load (n - i) r (a + i) d) i (sym (length-load i r a d)))

pub drop-load : (i n r a : ℕ) (d : Disk) → i ≤ n → drop i (load n r a d) ≡ load (n - i) r (a + i) d
drop-load i n r a d b =
    let e : n ≡ i + (n - i) = omega (arith, b) in
    ap (λ k. drop i (load k r a d)) e
    ∙ ap (drop i) (load-split i (n - i) r a d)
    ∙ drop-append (load i r a d) (load (n - i) r (a + i) d) i (sym (length-load i r a d))

-- What is loaded from a part of a block that is on the disk.
pub load-inside :
    (before part after : List ℕ) (r a : ℕ) (d : Disk)
    → load (length (before ++ (part ++ after))) r a d ≡ before ++ (part ++ after)
    → load (length part) r (a + length before) d ≡ part
load-inside before part after r a d h =
    let n = length (before ++ (part ++ after)) in
    let e : n ≡ length before + (length part + length after) =
      omega (arith, length-append before (part ++ after), length-append part after) in
    let tail : load (n - length before) r (a + length before) d ≡ part ++ after =
      sym (drop-load (length before) n r a d (omega (arith, e)))
      ∙ ap (drop (length before)) h
      ∙ drop-append before (part ++ after) (length before) refl in
    sym (take-load (length part) (n - length before) r (a + length before) d (omega (arith, e)))
    ∙ ap (take (length part)) tail
    ∙ take-append part after (length part) refl
