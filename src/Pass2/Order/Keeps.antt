-- ===== src/Pass2/Order/Keeps.antt =====
-- What marking and linking leave as it is.
use netspoc.Prelude.{
  ℕ, ◌+◌, ◌≡◌, ◌≢◌, inl, inr, refl, ◌∙◌, true, Option, some, List, [], ◌∷◌, ◌==◌, ==_iff, ==_refl,
  Bool-cases,
}
use netspoc.Pass2.Rules.{Proto}
use netspoc.Pass2.Order.{mark, set_up, mark_same_low, mark_neighbors}

-- A field that `mark` does not write.
module _ {ℓ} {A : Type ℓ} (field : Proto → A)
    (unmarked : (p : Proto) → field (record p { has_neighbor = true }) ≡ field p) where
  mark-field : (a : ℕ) (s : ℕ → Proto) (x : ℕ) → field (mark a s x) ≡ field (s x)
  unfolding mark
  mark-field a s x = elim (Bool-cases (a == x)) [
    | inl e ↦ let same = (==_iff a x).0 e in rw (e, same) (unmarked (s x))
    | inr e ↦ rw e refl
  ]

  mark_same_low-field :
      (low : ℕ) (cs : List ℕ) (s : ℕ → Proto) (x : ℕ)
      → field (mark_same_low low cs s x) ≡ field (s x)
  unfolding mark_same_low
  mark_same_low-field low [] s x = refl
  mark_same_low-field low (c ∷ cs) s x = elim (Bool-cases ((s c).low == low)) [
    | inl e ↦ rw e (mark_same_low-field low cs (mark c s) x ∙ mark-field c s x)
    | inr e ↦ rw e refl
  ]

  pub mark_neighbors-field :
      (a b : ℕ) (cs : List ℕ) (s : ℕ → Proto) (x : ℕ)
      → field (mark_neighbors a b cs s x) ≡ field (s x)
  unfolding mark_neighbors
  mark_neighbors-field a b cs s x = elim (Bool-cases ((s a).high + 1 == (s b).low)) [
    | inl e ↦ rw e (
        mark_same_low-field (s b).low cs (mark b (mark a s)) x
        ∙ mark-field b (mark a s) x
        ∙ mark-field a s x)
    | inr e ↦ rw e refl
  ]

-- A field that `set_up` does not write.
pub set_up-field {ℓ} :
    {A : Type ℓ} (field : Proto → A)
    → ((p : Proto) (o : Option ℕ) → field (record p { up = o }) ≡ field p)
    → (a up : ℕ) (s : ℕ → Proto) (x : ℕ) → field (set_up a up s x) ≡ field (s x)
unfolding set_up
set_up-field field kept a up s x = elim (Bool-cases (a == x)) [
  | inl e ↦ let same = (==_iff a x).0 e in rw (e, same) (kept (s x) (some up))
  | inr e ↦ rw e refl
]

pub set_up_here : (a up : ℕ) (s : ℕ → Proto) → (set_up a up s a).up ≡ some up
unfolding set_up
set_up_here a up s = rw (==_refl a) refl

pub set_up_other : (a up : ℕ) (s : ℕ → Proto) (x : ℕ) → a ≢ x → (set_up a up s x).up ≡ (s x).up
unfolding set_up
set_up_other a up s x ne = elim (Bool-cases (a == x)) [
  | inl e ↦ absurd (ne ((==_iff a x).0 e))
  | inr e ↦ rw e refl
]
