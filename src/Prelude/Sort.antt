-- ===== src/Prelude/Sort.antt =====
-- `sort.Slice` of Go's library as an interface: it permutes the slice, and where the order is
-- a strict weak order no element stands behind one that it is less than.
use mathlib.Core.Path.{◌≡◌, refl, ◌∙◌, subst}
use mathlib.Core.Bool.{Bool, true, false}
use mathlib.Core.List.{List, [], ◌∷◌, Permᴰ}
use native.Mathlib.Omega.{arith}
use netspoc.Prelude.Lists.{All, any}

module _ {A : Type 0} where
  -- No element is less than one before it.
  abbrev pub Sorted : (A → A → Bool) → List A → Type 0
  Sorted less [] = Unit
  Sorted less (x ∷ xs) = All (λ y. less y x ≡ false) xs × Sorted less xs

  -- A strict weak order: asymmetric, and what is not less is transitive.
  abbrev pub Weak : (A → A → Bool) → Type 0
  Weak less =
      ((a b : A) → less a b ≡ true → less b a ≡ false)
      × ((a b c : A) → less b a ≡ false → less c b ≡ false → less c a ≡ false)

  pub any-Perm : (p : A → Bool) {xs ys : List A} → Permᴰ xs ys → any p xs ≡ any p ys
  any-Perm p Permᴰ.nil = refl
  any-Perm p (Permᴰ.cons {a} {b} e d) = rw (e, any-Perm p d) refl
  any-Perm p (Permᴰ.swap {a} {b} {a'} {b'} e f) = rw (e, f) (ground arith)
  any-Perm p (Permᴰ.trans d d') = any-Perm p d ∙ any-Perm p d'

  pub All-Perm {κ} : (P : A → Type κ) {xs ys : List A} → Permᴰ xs ys → All P xs → All P ys
  All-Perm P Permᴰ.nil h = h
  All-Perm P (Permᴰ.cons e d) h = (subst P e h.0, All-Perm P d h.1)
  All-Perm P (Permᴰ.swap e f) h = (subst P f (h.1).0, (subst P e h.0, (h.1).1))
  All-Perm P (Permᴰ.trans d d') h = All-Perm P d' (All-Perm P d h)

  -- Each element with those behind it.
  abbrev pub Pairwise : (A → A → Type 0) → List A → Type 0
  Pairwise R [] = Unit
  Pairwise R (x ∷ xs) = All (R x) xs × Pairwise R xs

  pub Pairwise-Perm :
      (R : A → A → Type 0)
      → ((a b : A) → R a b → R b a)
      → {xs ys : List A} → Permᴰ xs ys
      → Pairwise R xs
      → Pairwise R ys
  Pairwise-Perm R sw Permᴰ.nil h = h
  Pairwise-Perm R sw (Permᴰ.cons {a} {b} {l₁} {l₂} e d) h =
      (subst (λ z. All (R z) l₂) e (All-Perm (R a) d h.0), Pairwise-Perm R sw d h.1)
  Pairwise-Perm R sw (Permᴰ.swap {a} {b} {a'} {b'} {l} e f) h =
      let first = subst (λ z. R b z) e (sw a b (h.0).0) in
      (
        (subst (λ z. R z b') f first, subst (λ z. All (R z) l) f (h.1).0),
        (subst (λ z. All (R z) l) e (h.0).1, (h.1).1),
      )
  Pairwise-Perm R sw (Permᴰ.trans d d') h = Pairwise-Perm R sw d' (Pairwise-Perm R sw d h)

pub record SortSlice (A : Type 0) : Type 0 where
  pub sort : (A → A → Bool) → List A → List A
  pub sort-Perm : (less : A → A → Bool) (xs : List A) → Permᴰ (sort less xs) xs
  pub sort-Sorted : (less : A → A → Bool) (xs : List A) → Weak less → Sorted less (sort less xs)
