-- ===== src/Storage/Device.antt =====
-- foyer-storage/src/device/mod.rs: a device as the rest of the crate sees it, a memory of bytes for
-- each region. `load` reads in pieces of the size that suits the device, which is not visible.
use foyer.Prelude.{
  ℕ, zero, suc, ◌+◌, ◌<◌, ◌≡◌, refl, ap, subst, ◌∙◌, false, ◌&&◌, List, [], ◌∷◌, ◌++◌, arith, ltb,
  leb, ◌==◌, if◌then◌else◌, ==_refl, length,
}

-- The byte at an address of a region.
abbrev pub Disk : Type 0
Disk = ℕ → ℕ → ℕ

-- The constants of a device; `align` is a power of two.
pub record Geometry : Type 0 where
  pub align : ℕ
  pub io_size : ℕ
  pub region_size : ℕ
  pub regions : ℕ

unfoldable pub write_at : List ℕ → ℕ → ℕ → Disk → Disk
write_at [] region offset d = d
write_at (x ∷ buf) region offset d =
    write_at buf region (suc offset) λ r a. if r == region && a == offset then x else d r a

-- The `n` bytes of a region from an address on.
unfoldable pub load : ℕ → ℕ → ℕ → Disk → List ℕ
load zero region offset d = []
load (suc n) region offset d = d region offset ∷ load n region (suc offset) d

pub length-load : (n r a : ℕ) (d : Disk) → length (load n r a d) ≡ n
unfolding load
length-load zero r a d = refl
length-load (suc n) r a d = ap suc (length-load n r (suc a) d)

pub load-split : (n m r a : ℕ) (d : Disk) → load (n + m) r a d ≡ load n r a d ++ load m r (a + n) d
unfolding load
load-split zero m r a d =
    let e : 0 + m ≡ m = omega arith in let e' : a + 0 ≡ a = omega arith in rw (e, e') refl
load-split (suc n) m r a d =
    let e : suc n + m ≡ suc (n + m) = omega arith in
    let e' : a + suc n ≡ suc a + n = omega arith in
    rw (e, e') (ap (λ t. d r a ∷ t) (load-split n m r (suc a) d))

-- A write reaches its own range alone.
pub write_at-outside :
    (buf : List ℕ) (r o r' a : ℕ) (d : Disk)
    → (r' == r && leb o a && ltb a (o + length buf)) ≡ false
    → write_at buf r o d r' a ≡ d r' a
unfolding write_at
write_at-outside [] r o r' a d h = refl
write_at-outside (x ∷ buf) r o r' a d h =
    write_at-outside buf r (suc o) r' a (λ s b. if s == r && b == o then x else d s b)
      (ground (arith, h))
    ∙ ground (arith, h)

pub load_cong :
    (n r a : ℕ) (d d' : Disk)
    → ((i : ℕ) → i < n → d' r (a + i) ≡ d r (a + i))
    → load n r a d' ≡ load n r a d
unfolding load
load_cong zero r a d d' h = refl
load_cong (suc n) r a d d' h =
    let e : a + 0 ≡ a = omega arith in
    let here : d' r a ≡ d r a = subst (λ x. d' r x ≡ d r x) e (h 0 (omega arith)) in
    rw here (
      ap (λ t. d r a ∷ t)
        (load_cong n r (suc a) d d'
          λ i b. subst (λ x. d' r x ≡ d r x) (omega arith) (h (suc i) (omega (arith, b)))))

pub load-write_at :
    (buf : List ℕ) (r o : ℕ) (d : Disk) → load (length buf) r o (write_at buf r o d) ≡ buf
unfolding load write_at
load-write_at [] r o d = refl
load-write_at (x ∷ buf) r o d =
    let d1 : Disk = λ s b. if s == r && b == o then x else d s b in
    let first : write_at buf r (suc o) d1 r o ≡ x =
      write_at-outside buf r (suc o) r o d1 (ground arith) ∙ rw (==_refl r, ==_refl o) refl in
    rw first (ap (λ t. x ∷ t) (load-write_at buf r (suc o) d1))
