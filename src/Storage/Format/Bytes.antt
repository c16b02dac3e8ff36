-- ===== src/Storage/Format/Bytes.antt =====
-- The crate bytes, which is not code of this repository, and parts of a list.
use foyer.Prelude.{
  ℕ, zero, suc, ◌^◌, ◌<◌, ◌≡◌, refl, ap, Option, some, List, [], ◌∷◌, ◌++◌, arith, length,
}

-- `BufMut::put_u32` and the like append a number, `Buf::get_u32` and the like take one from the
-- front, and panic when there are too few bytes.
pub record ByteOrder : Type 0 where
  pub put_u32 : ℕ → List ℕ
  pub put_u64 : ℕ → List ℕ
  pub get_u32 : List ℕ → Option (ℕ × List ℕ)
  pub get_u64 : List ℕ → Option (ℕ × List ℕ)

-- What the crate documents: a number has so many bytes, and is read back.
pub record ByteOrderLaws (b : ByteOrder) : Type 0 where
  pub length-put_u32 : (n : ℕ) → length (b.put_u32 n) ≡ 4
  pub length-put_u64 : (n : ℕ) → length (b.put_u64 n) ≡ 8
  pub get-put_u32 :
      (n : ℕ) (rest : List ℕ) → n < 2 ^ 32 → b.get_u32 (b.put_u32 n ++ rest) ≡ some (n, rest)
  pub get-put_u64 :
      (n : ℕ) (rest : List ℕ) → n < 2 ^ 64 → b.get_u64 (b.put_u64 n ++ rest) ≡ some (n, rest)

-- Bytes that nobody has written.
unfoldable pub fill : (junk : ℕ → ℕ) → ℕ → List ℕ
fill junk zero = []
fill junk (suc n) = junk n ∷ fill junk n

unfoldable pub take : ℕ → List ℕ → List ℕ
take zero l = []
take (suc n) [] = []
take (suc n) (x ∷ l) = x ∷ take n l

unfoldable pub drop : ℕ → List ℕ → List ℕ
drop zero l = l
drop (suc n) [] = []
drop (suc n) (x ∷ l) = drop n l

pub length-fill : (junk : ℕ → ℕ) (n : ℕ) → length (fill junk n) ≡ n
unfolding fill
length-fill junk zero = refl
length-fill junk (suc n) = ap suc (length-fill junk n)

pub take-append : (l l' : List ℕ) (n : ℕ) → n ≡ length l → take n (l ++ l') ≡ l
unfolding take
take-append [] l' zero e = refl
take-append [] l' (suc n) e = absurd (omega (arith, e))
take-append (x ∷ l) l' zero e = absurd (omega (arith, e))
take-append (x ∷ l) l' (suc n) e = ap (λ t. x ∷ t) (take-append l l' n (omega (arith, e)))

pub drop-append : (l l' : List ℕ) (n : ℕ) → n ≡ length l → drop n (l ++ l') ≡ l'
unfolding drop
drop-append [] l' zero e = refl
drop-append [] l' (suc n) e = absurd (omega (arith, e))
drop-append (x ∷ l) l' zero e = absurd (omega (arith, e))
drop-append (x ∷ l) l' (suc n) e = drop-append l l' n (omega (arith, e))
