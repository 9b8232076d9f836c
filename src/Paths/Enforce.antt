-- ===== src/Paths/Enforce.antt =====
-- `removeUnenforceableRules` and what it notes at the services.
use netspoc.Prelude.{
  ℕ, ◌≡◌, inl, inr, refl, ap, ◌∙◌, Bool, not, ◌&&◌, ◌||◌, List, [], ◌∷◌, ◌==◌, arith, Bool-cases,
  any, select,
}
use netspoc.Paths.{
  Topology, SomeObj, PathRule, Service, reported, collect_dst, collect_src, collect_unenforceable,
  set_enforceable, unenforceable, remove_unenforceable_rules,
}

module _ (t : Topology) where
  -- Some pair of the two lists is reported and passes a test.
  abbrev pub blames : Bool → (SomeObj × SomeObj → Bool) → List SomeObj → List SomeObj → Bool
  blames coupling f ss ds = any (λ s. any (λ d. reported t coupling s d && f (s, d)) ds) ss

  collect_dst-any :
      (c : Bool) (f : SomeObj × SomeObj → Bool) (s : SomeObj) (ds : List SomeObj)
      (seen : List (SomeObj × SomeObj))
      → any f (collect_dst t c s ds seen)
        ≡ (any (λ d. reported t c s d && f (s, d)) ds || any f seen)
  unfolding collect_dst
  collect_dst-any c f s [] seen = refl
  collect_dst-any c f s (d ∷ ds) seen = elim (Bool-cases (reported t c s d)) [
    | inl e ↦ rw e (collect_dst-any c f s ds ((s, d) ∷ seen) ∙ ground arith)
    | inr e ↦ rw e (collect_dst-any c f s ds seen)
  ]

  collect_src-any :
      (c : Bool) (f : SomeObj × SomeObj → Bool) (ss ds : List SomeObj)
      (seen : List (SomeObj × SomeObj))
      → any f (collect_src t c ss ds seen) ≡ (blames c f ss ds || any f seen)
  unfolding collect_src
  collect_src-any c f [] ds seen = refl
  collect_src-any c f (s ∷ ss) ds seen =
      collect_src-any c f ss ds (collect_dst t c s ds seen)
      ∙ rw (collect_dst-any c f s ds seen) (ground arith)

  -- The rule is the service's, and lies inside one zone or not.
  abbrev pub enforces : ℕ → PathRule → Bool
  enforces x r = r.service_rule.service == x && not (unenforceable t r)

  abbrev pub blamed : ℕ → (SomeObj × SomeObj → Bool) → PathRule → Bool
  blamed x f r =
      r.service_rule.service == x
      && unenforceable t r
      && blames r.service_rule.coupling f r.src r.dst

  pub rules_left :
      (rs : List PathRule) (services : ℕ → Service)
      → (remove_unenforceable_rules t rs services).0 ≡ select (λ r. not (unenforceable t r)) rs
  unfolding remove_unenforceable_rules
  rules_left [] services = refl
  rules_left (r ∷ rs) services = elim (Bool-cases (unenforceable t r)) [
    | inl e ↦ rw e (rules_left rs (collect_unenforceable t r services))
    | inr e ↦
        rw e
          (ap (λ rest. r ∷ rest) (rules_left rs (set_enforceable r.service_rule.service services)))
  ]

  collect-enforceable :
      (r : PathRule) (services : ℕ → Service) (x : ℕ)
      → (collect_unenforceable t r services x).seen_enforceable ≡ (services x).seen_enforceable
  unfolding collect_unenforceable
  collect-enforceable r services x = elim (Bool-cases (r.service_rule.service == x)) [
    | inl e ↦ rw e refl
    | inr e ↦ rw e refl
  ]

  collect-any :
      (r : PathRule) (services : ℕ → Service) (x : ℕ) (f : SomeObj × SomeObj → Bool)
      → any f (collect_unenforceable t r services x).seen_unenforceable ≡ (
          (r.service_rule.service == x && blames r.service_rule.coupling f r.src r.dst)
          || any f (services x).seen_unenforceable)
  unfolding collect_unenforceable
  collect-any r services x f = elim (Bool-cases (r.service_rule.service == x)) [
    | inl e ↦
        rw e (collect_src-any r.service_rule.coupling f r.src r.dst (services x).seen_unenforceable)
    | inr e ↦ rw e refl
  ]

  set-enforceable :
      (s : ℕ) (services : ℕ → Service) (x : ℕ)
      → (set_enforceable s services x).seen_enforceable ≡ (s == x || (services x).seen_enforceable)
  unfolding set_enforceable
  set-enforceable s services x = elim (Bool-cases (s == x)) [
    | inl e ↦ rw e refl
    | inr e ↦ rw e refl
  ]

  set-any :
      (s : ℕ) (services : ℕ → Service) (x : ℕ) (f : SomeObj × SomeObj → Bool)
      → any f (set_enforceable s services x).seen_unenforceable
        ≡ any f (services x).seen_unenforceable
  unfolding set_enforceable
  set-any s services x f = elim (Bool-cases (s == x)) [ inl e ↦ rw e refl | inr e ↦ rw e refl ]

  pub enforceable_seen :
      (rs : List PathRule) (services : ℕ → Service) (x : ℕ)
      → ((remove_unenforceable_rules t rs services).1 x).seen_enforceable
        ≡ (any (enforces x) rs || (services x).seen_enforceable)
  unfolding remove_unenforceable_rules
  enforceable_seen [] services x = refl
  enforceable_seen (r ∷ rs) services x = elim (Bool-cases (unenforceable t r)) [
    | inl e ↦ rw e (
        enforceable_seen rs (collect_unenforceable t r services) x
        ∙ rw (collect-enforceable r services x) (ground arith))
    | inr e ↦ rw e (
        enforceable_seen rs (set_enforceable r.service_rule.service services) x
        ∙ rw (set-enforceable r.service_rule.service services x) (ground arith))
  ]

  pub unenforceable_seen :
      (rs : List PathRule) (services : ℕ → Service) (x : ℕ) (f : SomeObj × SomeObj → Bool)
      → any f ((remove_unenforceable_rules t rs services).1 x).seen_unenforceable
        ≡ (any (blamed x f) rs || any f (services x).seen_unenforceable)
  unfolding remove_unenforceable_rules
  unenforceable_seen [] services x f = refl
  unenforceable_seen (r ∷ rs) services x f = elim (Bool-cases (unenforceable t r)) [
    | inl e ↦ rw e (
        unenforceable_seen rs (collect_unenforceable t r services) x f
        ∙ rw (collect-any r services x f) (ground arith))
    | inr e ↦ rw e (
        unenforceable_seen rs (set_enforceable r.service_rule.service services) x f
        ∙ rw (set-any r.service_rule.service services x f) (ground arith))
  ]
