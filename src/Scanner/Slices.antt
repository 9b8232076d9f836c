-- ===== src/Scanner/Slices.antt =====
-- Pieces of a text by positions.
use netspoc.Prelude.{
  ℕ, zero, suc, ◌+◌, ◌-◌, ◌≡◌, refl, ap, [], ◌∷◌, ◌++◌, arith, length, take, drop,
}
use netspoc.Prelude.Bytes.{Bytes}
use netspoc.Scanner.{slice}

pub drop-length : (xs : Bytes) → drop (length xs) xs ≡ []
drop-length [] = refl
drop-length (x ∷ xs) = drop-length xs

pub drop-suc : (n : ℕ) (xs : Bytes) (y : ℕ) (ys : Bytes) → drop n xs ≡ y ∷ ys → drop (suc n) xs ≡ ys
drop-suc zero [] y ys e = cc
drop-suc zero (x ∷ xs) y ys e = cc
drop-suc (suc n) [] y ys e = cc
drop-suc (suc n) (x ∷ xs) y ys e = drop-suc n xs y ys e

take-append : (xs ys : Bytes) → take (length xs) (xs ++ ys) ≡ xs
take-append [] ys = refl
take-append (x ∷ xs) ys = ap (λ t. x ∷ t) (take-append xs ys)

-- The piece between two positions, from what stands behind the first one.
pub slice-append :
    (src xs ys : Bytes) (from to : ℕ)
    → drop from src ≡ xs ++ ys
    → to ≡ from + length xs
    → slice src from to ≡ xs
slice-append src xs ys from to e f =
    let width : to - from ≡ length xs = omega arith in rw (width, e) (take-append xs ys)
