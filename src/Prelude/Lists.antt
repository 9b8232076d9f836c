-- ===== src/Prelude/Lists.antt =====
-- Lists by native numbers, membership and quantifiers as types that compute, and Boolean searches.
use Prim.Native.Nat.{ℕ, zero, suc, ◌+◌}
use mathlib.Core.Path.{◌≡◌, refl, sym, subst}
use mathlib.Core.Bool.{Bool, true, false, ◌&&◌, ◌||◌}
use mathlib.Core.List.{List, [], ◌∷◌, ◌++◌, Memᴰ}
use mathlib.Core.List.Memᴰ.{head, tail}
use native.Mathlib.Omega.{arith}
use netspoc.Prelude.Tests.{if◌then◌else◌}

module _ {ℓ} {A : Type ℓ} where
  abbrev pub length : List A → ℕ
  length [] = 0
  length (x ∷ xs) = suc (length xs)

  abbrev pub All {κ} : (A → Type κ) → List A → Type κ
  All P [] = Unit
  All P (x ∷ xs) = P x × All P xs

  -- Whether some element passes a test.
  abbrev pub any : (A → Bool) → List A → Bool
  any p [] = false
  any p (x ∷ xs) = p x || any p xs

  any_cons :
      (p : A → Bool) (x : A) (xs : List A) (b : Bool)
      → p x ≡ b
      → (b || any p xs) ≡ true
      → (any p xs ≡ true → (a : A) × Memᴰ a xs × (p a ≡ true))
      → (a : A) × Memᴰ a (x ∷ xs) × (p a ≡ true)
  any_cons p x xs true e _ ih = (x, head refl, e)
  any_cons p x xs false e t ih = let (a, m, h) = ih t in (a, tail m, h)

  pub any→Mem : (p : A → Bool) (xs : List A) → any p xs ≡ true → (a : A) × Memᴰ a xs × (p a ≡ true)
  any→Mem p [] h = cc
  any→Mem p (x ∷ xs) h = any_cons p x xs (p x) refl h (any→Mem p xs)

  pub Mem→any : (p : A → Bool) (xs : List A) (a : A) → Memᴰ a xs → p a ≡ true → any p xs ≡ true
  Mem→any p [] a m e = elim m [ ]
  Mem→any p (x ∷ xs) a (head same) e = ground (arith, same)
  Mem→any p (x ∷ xs) a (tail m) e = ground (arith, Mem→any p xs a m e)

  pub All-Mem {κ} : (P : A → Type κ) (xs : List A) (a : A) → All P xs → Memᴰ a xs → P a
  All-Mem P [] a h m = elim m [ ]
  All-Mem P (x ∷ xs) a h (head same) = subst P (sym same) h.0
  All-Mem P (x ∷ xs) a h (tail m) = All-Mem P xs a h.1 m

  pub Mem-All {κ} : (P : A → Type κ) (xs : List A) → ((a : A) → Memᴰ a xs → P a) → All P xs
  Mem-All P [] h = tt
  Mem-All P (x ∷ xs) h = (h x (head refl), Mem-All P xs (λ a m. h a (tail m)))

  -- The elements that pass a test, in order.
  abbrev pub select : (A → Bool) → List A → List A
  select p [] = []
  select p (x ∷ xs) = let rest = select p xs in if p x then x ∷ rest else rest

  pub any-append : (p : A → Bool) (xs ys : List A) → any p (xs ++ ys) ≡ (any p xs || any p ys)
  any-append p [] ys = refl
  any-append p (x ∷ xs) ys = ground (arith, any-append p xs ys)

  pub any-select : (p q : A → Bool) (xs : List A) → any p (select q xs) ≡ any (λ x. q x && p x) xs
  any-select p q [] = refl
  any-select p q (x ∷ xs) = ground (arith, any-select p q xs)

  pub Mem-before : {x : A} (xs ys : List A) → Memᴰ x xs → Memᴰ x (xs ++ ys)
  Mem-before [] ys m = elim m [ ]
  Mem-before (x ∷ xs) ys (head e) = head e
  Mem-before (x ∷ xs) ys (tail m) = tail (Mem-before xs ys m)

  pub Mem-behind : {x : A} (xs ys : List A) → Memᴰ x ys → Memᴰ x (xs ++ ys)
  Mem-behind [] ys m = m
  Mem-behind (x ∷ xs) ys m = tail (Mem-behind xs ys m)

  pub All-append {κ} : (P : A → Type κ) (xs ys : List A) → All P xs → All P ys → All P (xs ++ ys)
  All-append P [] ys h k = k
  All-append P (x ∷ xs) ys h k = (h.0, All-append P xs ys h.1 k)

  abbrev pub take : ℕ → List A → List A
  take zero xs = []
  take (suc n) [] = []
  take (suc n) (x ∷ xs) = x ∷ take n xs

  abbrev pub drop : ℕ → List A → List A
  drop zero xs = xs
  drop (suc n) [] = []
  drop (suc n) (x ∷ xs) = drop n xs

  pub length-append : (xs ys : List A) → length (xs ++ ys) ≡ length xs + length ys
  length-append [] ys = omega arith
  length-append (x ∷ xs) ys = omega (arith, length-append xs ys)
