-- ===== src/Pass2/Groups/Subset.antt =====
-- A list of different elements that are all in a list of the same length is a permutation of it.
use mathlib.Core.List.{Memᴰ, Permᴰ}
use mathlib.Core.List.Memᴰ.{head, tail}
use mathlib.Core.List.Permᴰ
use netspoc.Prelude.{suc, ◌≡◌, ◌≢◌, refl, sym, ap, ◌∙◌, List, [], ◌∷◌, arith, length, All}
use netspoc.Prelude.Sort.{Pairwise}

module _ {A : Type 0} where
  length-Perm : {xs ys : List A} → Permᴰ xs ys → length xs ≡ length ys
  length-Perm Permᴰ.nil = refl
  length-Perm (Permᴰ.cons e d) = ap suc (length-Perm d)
  length-Perm (Permᴰ.swap e f) = refl
  length-Perm (Permᴰ.trans d d') = length-Perm d ∙ length-Perm d'

  onward : (x : A) {xs ys : List A} → Permᴰ xs ys → Memᴰ x xs → Memᴰ x ys
  onward x Permᴰ.nil h = elim h [ ]
  onward x (Permᴰ.cons e d) (head f) = head (f ∙ e)
  onward x (Permᴰ.cons e d) (tail h) = tail (onward x d h)
  onward x (Permᴰ.swap e f) (head g) = tail (head (g ∙ e))
  onward x (Permᴰ.swap e f) (tail (head g)) = head (g ∙ f)
  onward x (Permᴰ.swap e f) (tail (tail h)) = tail (tail h)
  onward x (Permᴰ.trans d d') h = onward x d' (onward x d h)

  taken_out : (x : A) (ys : List A) → Memᴰ x ys → (zs : List A) × Permᴰ ys (x ∷ zs)
  taken_out x [] h = elim h [ ]
  taken_out x (y ∷ ys) (head e) = (ys, Permᴰ.cons (sym e) (Permᴰ.refl ys))
  taken_out x (y ∷ ys) (tail h) =
      let (zs, d) = taken_out x ys h in
      (y ∷ zs, Permᴰ.trans (Permᴰ.cons refl d) (Permᴰ.swap refl refl))

  others_stay :
      (x : A) (xs ys : List A)
      → All (λ z. x ≢ z) xs
      → All (λ z. Memᴰ z (x ∷ ys)) xs
      → All (λ z. Memᴰ z ys) xs
  others_stay x [] ys ne h = tt
  others_stay x (z ∷ zs) ys ne h =
      (elim h.0 [ head e ↦ absurd (ne.0 (sym e)) | tail k ↦ k ], others_stay x zs ys ne.1 h.1)

  all_onward :
      {ys zs : List A}
      → Permᴰ ys zs
      → (xs : List A) → All (λ z. Memᴰ z ys) xs
      → All (λ z. Memᴰ z zs) xs
  all_onward d [] h = tt
  all_onward d (x ∷ xs) h = (onward x d h.0, all_onward d xs h.1)

  pub subset-Perm :
      (xs ys : List A)
      → Pairwise (λ x y. x ≢ y) xs
      → All (λ z. Memᴰ z ys) xs
      → length ys ≡ length xs
      → Permᴰ ys xs
  subset-Perm [] [] differ h e = Permᴰ.nil
  subset-Perm [] (y ∷ ys) differ h e = absurd (omega (arith, e))
  subset-Perm (x ∷ xs) ys differ h e =
      let (zs, d) = taken_out x ys h.0 in
      let same = length-Perm d in
      let rest = others_stay x xs zs differ.0 (all_onward d xs h.1) in
      Permᴰ.trans d (Permᴰ.cons refl (subset-Perm xs zs differ.1 rest (omega (arith, same, e))))
