-- ===== src/Prelude/Count.antt =====
-- How often a number stands in a list, for lists without duplicates.
use Prim.Native.Nat.{ℕ, ◌+◌, ◌≤◌}
use mathlib.Core.Path.{◌≡◌, refl, sym, ◌∙◌, ap, subst}
use mathlib.Core.Bool.{Bool, true, false, ◌||◌}
use mathlib.Core.Logic.{◌≢◌, inl, inr}
use mathlib.Core.List.{List, [], ◌∷◌, ◌++◌, Memᴰ, Permᴰ}
use mathlib.Core.List.Memᴰ.{head, tail}
use native.Mathlib.Omega.{arith}
use netspoc.Prelude.Tests.{if◌then◌else◌, ◌==◌, ==_iff, ==_refl, Bool-cases}
use netspoc.Prelude.Lists.{any, any→Mem, Mem→any}

abbrev pub once : ℕ → ℕ → ℕ
once r x = if x == r then 1 else 0

abbrev pub count : ℕ → List ℕ → ℕ
count r [] = 0
count r (x ∷ xs) = once r x + count r xs

-- No number stands in the list twice.
abbrev pub Unique : List ℕ → Type 0
Unique rs = (r : ℕ) → count r rs ≤ 1

pub count-append : (r : ℕ) (xs ys : List ℕ) → count r (xs ++ ys) ≡ count r xs + count r ys
count-append r [] ys = omega arith
count-append r (x ∷ xs) ys = rw (count-append r xs ys) (omega arith)

pub count-Perm : (r : ℕ) {xs ys : List ℕ} → Permᴰ xs ys → count r xs ≡ count r ys
count-Perm r Permᴰ.nil = refl
count-Perm r (Permᴰ.cons e d) = rw (e, count-Perm r d) refl
count-Perm r (Permᴰ.swap e f) = rw (e, f) (omega arith)
count-Perm r (Permᴰ.trans d d') = count-Perm r d ∙ count-Perm r d'

pub count→Mem : (r : ℕ) (xs : List ℕ) → 1 ≤ count r xs → Memᴰ r xs
count→Mem r [] le = absurd (omega arith)
count→Mem r (x ∷ xs) le = elim (Bool-cases (x == r)) [
  | inl e ↦ head (sym ((==_iff x r).0 e))
  | inr e ↦ tail (count→Mem r xs (ground arith))
]

pub Mem→count : (r : ℕ) (xs : List ℕ) → Memᴰ r xs → 1 ≤ count r xs
Mem→count r [] m = elim m [ ]
Mem→count r (x ∷ xs) (head same) = ground (arith, ==_refl r)
Mem→count r (x ∷ xs) (tail m) = let le = Mem→count r xs m in omega arith

-- What stands in front of a list without duplicates differs from the rest.
pub count_rest : (x y : ℕ) (xs : List ℕ) → Unique (x ∷ xs) → Memᴰ y xs → x ≢ y
count_rest x y xs u m e =
    let le = u x in
    let one = Mem→count x xs (subst (λ z. Memᴰ z xs) (sym e) m) in ground (arith, ==_iff x x)

pub Unique-tail : (x : ℕ) (xs : List ℕ) → Unique (x ∷ xs) → Unique xs
Unique-tail x xs u r = omega (arith, u r)

pub Mem-Perm : (x : ℕ) {xs ys : List ℕ} → Permᴰ xs ys → Memᴰ x xs → Memᴰ x ys
Mem-Perm x {xs} {ys} d m = count→Mem x ys (omega (arith, Mem→count x xs m, count-Perm x d))

any_onward :
    (f g : ℕ → Bool) (rs : List ℕ)
    → ((r : ℕ) → Memᴰ r rs → f r ≡ true → any g rs ≡ true)
    → any f rs ≡ true
    → any g rs ≡ true
any_onward f g rs h e = let (r, m, t) = any→Mem f rs e in h r m t

any_pair_onward :
    (f g : ℕ → Bool) (rs : List ℕ) (a b : ℕ)
    → Memᴰ a rs
    → Memᴰ b rs
    → ((r : ℕ) → (r == a) ≡ false → (r == b) ≡ false → f r ≡ g r)
    → (f a || f b) ≡ (g a || g b)
    → any f rs ≡ true
    → any g rs ≡ true
any_pair_onward f g rs a b ma mb same both = any_onward f g rs λ r m t. elim (Bool-cases (g a)) [
  | inl ga ↦ Mem→any g rs a ma ga
  | inr na ↦ elim (Bool-cases (g b)) [
    | inl gb ↦ Mem→any g rs b mb gb
    | inr nb ↦ elim (Bool-cases (r == a)) [
      | inl e ↦ let e' = ap f ((==_iff r a).0 e) in absurd (ground arith)
      | inr ea ↦ elim (Bool-cases (r == b)) [
        | inl e ↦ let e' = ap f ((==_iff r b).0 e) in absurd (ground arith)
        | inr eb ↦ Mem→any g rs r m (sym (same r ea eb) ∙ t)
      ]
    ]
  ]
]

-- Two tests that agree off two elements, and on the two together, agree on the list.
pub any_pair :
    (f g : ℕ → Bool) (rs : List ℕ) (a b : ℕ)
    → Memᴰ a rs
    → Memᴰ b rs
    → ((r : ℕ) → (r == a) ≡ false → (r == b) ≡ false → f r ≡ g r)
    → (f a || f b) ≡ (g a || g b)
    → any f rs ≡ any g rs
any_pair f g rs a b ma mb same both = ground (
  arith,
  any_pair_onward f g rs a b ma mb same both,
  any_pair_onward g f rs a b ma mb (λ r ea eb. sym (same r ea eb)) (sym both),
)
