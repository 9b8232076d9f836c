-- ===== src/Pass2/Optimize/Marks.antt =====
-- What a run of the optimiser may do to the rules: set `deleted`, each time for a reason.
use mathlib.Core.Path.{subst}
use netspoc.Prelude.{ℕ, ◌≡◌, ◌⊎◌, inl, inr, refl, ap, ◌∙◌, true, Bool-cases, ==_iff, ==_refl, ◌==◌}
use netspoc.Pass2.Rules.{CiscoRule, State, delete}

pub record Marks (Cov : ℕ → Type 0) (s s' : State) : Type 0 where
  pub kept : (p : ℕ) → s'.rule p ≡ record (s.rule p) { deleted = (s'.rule p).deleted }
  pub stays : (p : ℕ) → (s.rule p).deleted ≡ true → (s'.rule p).deleted ≡ true
  pub cause : (p : ℕ) → (s'.rule p).deleted ≡ true → ((s.rule p).deleted ≡ true) ⊎ Cov p

pub Marks-refl : (Cov : ℕ → Type 0) (s : State) → Marks Cov s s
Marks-refl Cov s = record { kept = λ p. refl; stays = λ p e. e; cause = λ p e. inl e }

pub Marks-weaken :
    {Cov Cov' : ℕ → Type 0} {s s' : State}
    → ((p : ℕ) → Cov p → Cov' p)
    → Marks Cov s s'
    → Marks Cov' s s'
Marks-weaken f m = record {
  kept = m.kept;
  stays = m.stays;
  cause = λ p e. elim (m.cause p e) [ inl d ↦ inl d | inr c ↦ inr (f p c) ];
}

pub Marks-delete :
    {Cov : ℕ → Type 0} {s s' : State} (r : ℕ) → Cov r → Marks Cov s s' → Marks Cov s (delete r s')
Marks-delete {Cov} {s} {s'} r c m = record {
  kept = λ p. elim (Bool-cases (r == p)) [
    | inl e ↦
        subst
          (λ q.
            (delete r s').rule q ≡ record (s.rule q) { deleted = ((delete r s').rule q).deleted })
          ((==_iff r p).0 e)
          (rw (==_refl r) (ap (λ (x : CiscoRule). record x { deleted = true }) (m.kept r)))
    | inr e ↦ rw e (m.kept p)
  ];
  stays = λ p d. elim (Bool-cases (r == p)) [ inl e ↦ rw e | inr e ↦ rw e (m.stays p d) ];
  cause = λ p. elim (Bool-cases (r == p)) [
    | inl e ↦ λ _. inr (subst Cov ((==_iff r p).0 e) c)
    | inr e ↦ rw e (m.cause p)
  ];
}

-- Two runs one after the other.
pub Marks-trans :
    {Cov Cov' : ℕ → Type 0} {s t u : State}
    → Marks Cov s t
    → Marks Cov' t u
    → Marks (λ p. Cov p ⊎ Cov' p) s u
Marks-trans {s} {t} {u} m n = record {
  kept =
      λ p. n.kept p ∙ ap (λ (x : CiscoRule). record x { deleted = (u.rule p).deleted }) (m.kept p);
  stays = λ p d. n.stays p (m.stays p d);
  cause = λ p d. elim (n.cause p d) [
    | inl e ↦ elim (m.cause p e) [ inl before ↦ inl before | inr c ↦ inr (inl c) ]
    | inr c ↦ inr (inr c)
  ];
}
