-- ===== src/Paths/Pairs.antt =====
-- Pairs of a source and a destination, through `splitRulesByPath`.
use netspoc.Prelude.{
  ◌≡◌, inl, inr, refl, sym, ◌∙◌, Bool, true, false, not, ◌||◌, List, [], ◌∷◌, arith, Bool-cases,
  any, any-append, All, All-append,
}
use netspoc.Paths.{
  Topology, SomeObj, PathStore, ServiceRule, PathRule, path_eq, get_path_node, add_path,
  group_paths, split_rule_group, pair_dst, pair_src, split_rules_by_path,
}
use netspoc.Paths.Split.{Parts, any_parts, split_rule_group-any_parts}

-- Some source and destination of the rule pass a test with its service rule.
abbrev pub pairs : (ServiceRule → SomeObj → SomeObj → Bool) → PathRule → Bool
pairs h r = any (λ s. any (h r.service_rule s) r.dst) r.src

-- The rule has sources and destinations.
abbrev pub HasPairs : PathRule → Type 0
HasPairs r = (any (λ _. true) r.src ≡ true) × (any (λ _. true) r.dst ≡ true)

any_or {ℓ} :
    {A : Type ℓ} (p q : A → Bool) (xs : List A) → any (λ x. p x || q x) xs ≡ (any p xs || any q xs)
any_or p q [] = refl
any_or p q (x ∷ xs) = ground (arith, any_or p q xs)

pub any_none {ℓ} : {A : Type ℓ} (xs : List A) → any (λ _. false) xs ≡ false
any_none [] = refl
any_none (x ∷ xs) = any_none xs

any_same {ℓ} :
    {A : Type ℓ} (p q : A → Bool) (xs : List A) → ((x : A) → p x ≡ q x) → any p xs ≡ any q xs
any_same p q [] e = refl
any_same p q (x ∷ xs) e = rw (e x, any_same p q xs e) refl

Full : Parts → Type 0
Full g = All (λ (part : PathStore × List SomeObj). any (λ _. true) part.1 ≡ true) g

add_path-Full : (p : PathStore) (o : SomeObj) (g : Parts) → Full g → Full (add_path p o g)
unfolding add_path Full
add_path-Full p o [] h = (refl, tt)
add_path-Full p o ((q, os) ∷ g) h = elim (Bool-cases (path_eq q p)) [
  | inl e ↦ rw e (rw (any-append (λ _. true) os (o ∷ [])) (ground (arith, h.0)), h.1)
  | inr e ↦ rw e (h.0, add_path-Full p o g h.1)
]

module _ (t : Topology) where
  group_paths-Full : (os : List SomeObj) (g : Parts) → Full g → Full (group_paths t os g)
  unfolding group_paths
  group_paths-Full [] g h = h
  group_paths-Full (o ∷ os) g h =
      group_paths-Full os (add_path (get_path_node t o) o g)
        (add_path-Full (get_path_node t o) o g h)

  split_rule_group-Full : (os : List SomeObj) → Full (split_rule_group t os)
  unfolding split_rule_group Full
  split_rule_group-Full [] = tt
  split_rule_group-Full (o ∷ os) =
      elim (Bool-cases (any (λ el. not (path_eq (get_path_node t o) (get_path_node t el))) os)) [
        | inl e ↦ rw e (group_paths-Full (o ∷ os) [] tt)
        | inr e ↦ rw e (refl, tt)
      ]

  pair_dst-HasPairs :
      (sr : ServiceRule) (s : PathStore × List SomeObj) (ds : Parts)
      → any (λ _. true) s.1 ≡ true
      → Full ds
      → All HasPairs (pair_dst sr s ds)
  unfolding pair_dst Full
  pair_dst-HasPairs sr s [] h hs = tt
  pair_dst-HasPairs sr s (d ∷ ds) h hs = ((h, hs.0), pair_dst-HasPairs sr s ds h hs.1)

  pair_src-HasPairs :
      (sr : ServiceRule) (ss ds : Parts) → Full ss → Full ds → All HasPairs (pair_src sr ss ds)
  unfolding pair_src Full
  pair_src-HasPairs sr [] ds hs hd = tt
  pair_src-HasPairs sr (s ∷ ss) ds hs hd =
      All-append HasPairs (pair_dst sr s ds) (pair_src sr ss ds) (pair_dst-HasPairs sr s ds hs.0 hd)
        (pair_src-HasPairs sr ss ds hs.1 hd)

  pub split_rules_by_path-HasPairs : (rs : List PathRule) → All HasPairs (split_rules_by_path t rs)
  unfolding split_rules_by_path
  split_rules_by_path-HasPairs [] = tt
  split_rules_by_path-HasPairs (r ∷ rs) =
      All-append HasPairs
        (pair_src r.service_rule (split_rule_group t r.src) (split_rule_group t r.dst))
        (split_rules_by_path t rs)
        (pair_src-HasPairs r.service_rule (split_rule_group t r.src) (split_rule_group t r.dst)
          (split_rule_group-Full r.src) (split_rule_group-Full r.dst))
        (split_rules_by_path-HasPairs rs)

  module _ (h : ServiceRule → SomeObj → SomeObj → Bool) where
    pair_dst-pairs :
        (sr : ServiceRule) (s : PathStore × List SomeObj) (ds : Parts)
        → any (pairs h) (pair_dst sr s ds) ≡ any (λ x. any_parts (h sr x) ds) s.1
    unfolding pair_dst
    pair_dst-pairs sr s [] = sym (any_none s.1)
    pair_dst-pairs sr s (d ∷ ds) =
        rw (pair_dst-pairs sr s ds)
          (sym (any_or (λ x. any (h sr x) d.1) (λ x. any_parts (h sr x) ds) s.1))

    pair_src-pairs :
        (sr : ServiceRule) (ss ds : Parts)
        → any (pairs h) (pair_src sr ss ds) ≡ any_parts (λ x. any_parts (h sr x) ds) ss
    unfolding pair_src
    pair_src-pairs sr [] ds = refl
    pair_src-pairs sr (s ∷ ss) ds =
        any-append (pairs h) (pair_dst sr s ds) (pair_src sr ss ds)
        ∙ rw (pair_dst-pairs sr s ds, pair_src-pairs sr ss ds) refl

    -- The pairs of a rule are those of its parts.
    split-pairs :
        (r : PathRule)
        → any
            (pairs h)
            (pair_src r.service_rule (split_rule_group t r.src) (split_rule_group t r.dst))
          ≡ pairs h r
    split-pairs r =
        pair_src-pairs r.service_rule (split_rule_group t r.src) (split_rule_group t r.dst)
        ∙ split_rule_group-any_parts t
            (λ x. any_parts (h r.service_rule x) (split_rule_group t r.dst)) r.src
        ∙ any_same (λ x. any_parts (h r.service_rule x) (split_rule_group t r.dst))
            (λ x. any (h r.service_rule x) r.dst) r.src
            (λ x. split_rule_group-any_parts t (h r.service_rule x) r.dst)

    -- The pairs of all rules stay.
    pub split_rules_by_path-pairs :
        (rs : List PathRule) → any (pairs h) (split_rules_by_path t rs) ≡ any (pairs h) rs
    unfolding split_rules_by_path
    split_rules_by_path-pairs [] = refl
    split_rules_by_path-pairs (r ∷ rs) =
        any-append (pairs h)
          (pair_src r.service_rule (split_rule_group t r.src) (split_rule_group t r.dst))
          (split_rules_by_path t rs)
        ∙ rw (split-pairs r, split_rules_by_path-pairs rs) refl
