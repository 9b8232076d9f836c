-- ===== src/Tests/Sorting.antt =====
-- Insertion sort keeps what is asked of `sort.Slice`.
use mathlib.Core.List.{Permᴰ}
use mathlib.Core.List.Permᴰ
use netspoc.Prelude.{
  ◌≡◌, refl, Bool, false, List, [], ◌∷◌, if◌then◌else◌, inl, inr, Bool-cases, All,
}
use netspoc.Prelude.Sort.{SortSlice, Sorted, Weak}

module _ {A : Type 0} (less : A → A → Bool) where
  abbrev put : A → List A → List A
  put x [] = x ∷ []
  put x (y ∷ ys) = let rest = put x ys in if less x y then x ∷ y ∷ ys else y ∷ rest

  abbrev put_all : List A → List A
  put_all [] = []
  put_all (x ∷ xs) = put x (put_all xs)

  put-Perm : (x : A) (xs : List A) → Permᴰ (put x xs) (x ∷ xs)
  put-Perm x [] = Permᴰ.refl (x ∷ [])
  put-Perm x (y ∷ ys) = elim (Bool-cases (less x y)) [
    | inl e ↦ rw e (Permᴰ.refl (x ∷ y ∷ ys))
    | inr e ↦ rw e (Permᴰ.trans (Permᴰ.cons refl (put-Perm x ys)) (Permᴰ.swap refl refl))
  ]

  pub put_all-Perm : (xs : List A) → Permᴰ (put_all xs) xs
  put_all-Perm [] = Permᴰ.nil
  put_all-Perm (x ∷ xs) = Permᴰ.trans (put-Perm x (put_all xs)) (Permᴰ.cons refl (put_all-Perm xs))

  put-All : (P : A → Type 0) (x : A) (xs : List A) → P x → All P xs → All P (put x xs)
  put-All P x [] px ps = (px, tt)
  put-All P x (y ∷ ys) px ps = elim (Bool-cases (less x y)) [
    | inl e ↦ rw e (px, ps)
    | inr e ↦ rw e (ps.0, put-All P x ys px ps.1)
  ]

  All-less :
      (weak : Weak less) (x y : A) (ys : List A)
      → less y x ≡ false
      → All (λ z. less z y ≡ false) ys
      → All (λ z. less z x ≡ false) ys
  All-less weak x y [] e ps = tt
  All-less weak x y (z ∷ zs) e ps = (weak.1 x y z e ps.0, All-less weak x y zs e ps.1)

  put-Sorted : (weak : Weak less) (x : A) (xs : List A) → Sorted less xs → Sorted less (put x xs)
  put-Sorted weak x [] sorted = (tt, tt)
  put-Sorted weak x (y ∷ ys) sorted = elim (Bool-cases (less x y)) [
    | inl e ↦ let ge = weak.0 x y e in rw e ((ge, All-less weak x y ys ge sorted.0), sorted)
    | inr e ↦ rw e (put-All (λ z. less z y ≡ false) x ys e sorted.0, put-Sorted weak x ys sorted.1)
  ]

  pub put_all-Sorted : (weak : Weak less) (xs : List A) → Sorted less (put_all xs)
  put_all-Sorted weak [] = tt
  put_all-Sorted weak (x ∷ xs) = put-Sorted weak x (put_all xs) (put_all-Sorted weak xs)

unfoldable pub insertion_sort : (A : Type 0) → SortSlice A
insertion_sort A = record {
  sort = λ less xs. put_all less xs;
  sort-Perm = λ less xs. put_all-Perm less xs;
  sort-Sorted = λ less xs weak. put_all-Sorted less weak xs;
}
