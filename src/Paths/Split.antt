-- ===== src/Paths/Split.antt =====
-- `splitRulesByPath` against the rules that it is given.
use netspoc.Prelude.{
  ◌≡◌, inl, inr, refl, sym, ap, ◌∙◌, Bool, true, false, not, ◌&&◌, ◌||◌, List, [], ◌∷◌, ==_iff,
  arith, Bool-cases, any, any-append, All, All-append,
}
use netspoc.Paths.{
  Topology, SomeObj, PathStore, zone, router, ServiceRule, PathRule, path_eq, get_path_node,
  add_path, group_paths, split_rule_group, pair_dst, pair_src, split_rules_by_path,
}

path_eq-eq : (p q : PathStore) → path_eq p q ≡ true → p ≡ q
path_eq-eq (zone a) (zone b) e = ap zone ((==_iff a b).0 e)
path_eq-eq (router a) (router b) e = ap router ((==_iff a b).0 e)
path_eq-eq (PathStore.router_intf a) (PathStore.router_intf b) e =
    ap PathStore.router_intf ((==_iff a b).0 e)
path_eq-eq _ _ e = cc

abbrev pub Parts : Type 0
Parts = List (PathStore × List SomeObj)

-- Some element of some part passes a test.
abbrev pub any_parts : (SomeObj → Bool) → Parts → Bool
any_parts f g = any (λ (part : PathStore × List SomeObj). any f part.1) g

add_path-any_parts :
    (f : SomeObj → Bool) (p : PathStore) (o : SomeObj) (g : Parts)
    → any_parts f (add_path p o g) ≡ (f o || any_parts f g)
unfolding add_path
add_path-any_parts f p o [] = ground arith
add_path-any_parts f p o ((q, os) ∷ g) = elim (Bool-cases (path_eq q p)) [
  | inl e ↦ rw (e, any-append f os (o ∷ [])) (ground arith)
  | inr e ↦ rw (e, add_path-any_parts f p o g) (ground arith)
]

module _ (t : Topology) where
  -- Each part holds elements of its path only.
  abbrev Homog : Parts → Type 0
  Homog g =
      All (λ (part : PathStore × List SomeObj). All (λ o. get_path_node t o ≡ part.0) part.1) g

  add_path-Homog :
      (p : PathStore) (o : SomeObj) (g : Parts)
      → get_path_node t o ≡ p
      → Homog g
      → Homog (add_path p o g)
  unfolding add_path
  add_path-Homog p o [] e h = ((e, tt), tt)
  add_path-Homog p o ((q, os) ∷ g) e h = elim (Bool-cases (path_eq q p)) [
    | inl s ↦ rw s (
      All-append (λ o. get_path_node t o ≡ q) os (o ∷ []) h.0 (e ∙ sym (path_eq-eq q p s), tt),
      h.1,
    )
    | inr s ↦ rw s (h.0, add_path-Homog p o g e h.1)
  ]

  group_paths-Homog : (os : List SomeObj) (g : Parts) → Homog g → Homog (group_paths t os g)
  unfolding group_paths
  group_paths-Homog [] g h = h
  group_paths-Homog (o ∷ os) g h =
      group_paths-Homog os (add_path (get_path_node t o) o g)
        (add_path-Homog (get_path_node t o) o g refl h)

  group_paths-any_parts :
      (f : SomeObj → Bool) (os : List SomeObj) (g : Parts)
      → any_parts f (group_paths t os g) ≡ (any f os || any_parts f g)
  unfolding group_paths
  group_paths-any_parts f [] g = refl
  group_paths-any_parts f (o ∷ os) g =
      group_paths-any_parts f os (add_path (get_path_node t o) o g)
      ∙ rw (add_path-any_parts f (get_path_node t o) o g) (ground arith)

  same_path :
      (p : PathStore) (os : List SomeObj)
      → any (λ el. not (path_eq p (get_path_node t el))) os ≡ false
      → All (λ o. get_path_node t o ≡ p) os
  same_path p [] e = tt
  same_path p (o ∷ os) e =
      (sym (path_eq-eq p (get_path_node t o) (ground arith)), same_path p os (ground arith))

  split_rule_group-Homog : (os : List SomeObj) → Homog (split_rule_group t os)
  unfolding split_rule_group
  split_rule_group-Homog [] = tt
  split_rule_group-Homog (o ∷ os) =
      elim (Bool-cases (any (λ el. not (path_eq (get_path_node t o) (get_path_node t el))) os)) [
        | inl e ↦ rw e (group_paths-Homog (o ∷ os) [] tt)
        | inr e ↦ rw e ((refl, same_path (get_path_node t o) os e), tt)
      ]

  pub split_rule_group-any_parts :
      (f : SomeObj → Bool) (os : List SomeObj) → any_parts f (split_rule_group t os) ≡ any f os
  unfolding split_rule_group
  split_rule_group-any_parts f [] = refl
  split_rule_group-any_parts f (o ∷ os) =
      elim (Bool-cases (any (λ el. not (path_eq (get_path_node t o) (get_path_node t el))) os)) [
        | inl e ↦ rw e (ground (arith, group_paths-any_parts f (o ∷ os) []))
        | inr e ↦ rw e (ground arith)
      ]

  -- The rule passes a test on its service rule and on an element of either side.
  abbrev pub concerns : (ServiceRule → Bool) → (SomeObj → Bool) → (SomeObj → Bool) → PathRule → Bool
  concerns k f g r = k r.service_rule && any f r.src && any g r.dst

  -- All elements of the rule have its paths.
  abbrev pub OnPath : PathRule → Type 0
  OnPath r =
      All (λ o. get_path_node t o ≡ r.src_path) r.src
      × All (λ o. get_path_node t o ≡ r.dst_path) r.dst

  module _ (k : ServiceRule → Bool) (f g : SomeObj → Bool) where
    pair_dst-concerns :
        (sr : ServiceRule) (s : PathStore × List SomeObj) (ds : Parts)
        → any (concerns k f g) (pair_dst sr s ds) ≡ (k sr && any f s.1 && any_parts g ds)
    unfolding pair_dst
    pair_dst-concerns sr s [] = ground arith
    pair_dst-concerns sr s (d ∷ ds) = rw (pair_dst-concerns sr s ds) (ground arith)

    pair_src-concerns :
        (sr : ServiceRule) (ss ds : Parts)
        → any (concerns k f g) (pair_src sr ss ds) ≡ (k sr && any_parts f ss && any_parts g ds)
    unfolding pair_src
    pair_src-concerns sr [] ds = ground arith
    pair_src-concerns sr (s ∷ ss) ds =
        any-append (concerns k f g) (pair_dst sr s ds) (pair_src sr ss ds)
        ∙ rw (pair_dst-concerns sr s ds, pair_src-concerns sr ss ds) (ground arith)

    split-concerns :
        (rs : List PathRule)
        → any (concerns k f g) (split_rules_by_path t rs) ≡ any (concerns k f g) rs
    unfolding split_rules_by_path
    split-concerns [] = refl
    split-concerns (r ∷ rs) =
        any-append (concerns k f g)
          (pair_src r.service_rule (split_rule_group t r.src) (split_rule_group t r.dst))
          (split_rules_by_path t rs)
        ∙ rw
            (
              pair_src-concerns r.service_rule (split_rule_group t r.src)
                  (split_rule_group t r.dst),
              split_rule_group-any_parts f r.src,
              split_rule_group-any_parts g r.dst,
              split-concerns rs,
            )
            refl

  pair_dst-OnPath :
      (sr : ServiceRule) (s : PathStore × List SomeObj) (ds : Parts)
      → All (λ o. get_path_node t o ≡ s.0) s.1
      → Homog ds
      → All OnPath (pair_dst sr s ds)
  unfolding pair_dst
  pair_dst-OnPath sr s [] h hs = tt
  pair_dst-OnPath sr s (d ∷ ds) h hs = ((h, hs.0), pair_dst-OnPath sr s ds h hs.1)

  pair_src-OnPath :
      (sr : ServiceRule) (ss ds : Parts) → Homog ss → Homog ds → All OnPath (pair_src sr ss ds)
  unfolding pair_src
  pair_src-OnPath sr [] ds hs hd = tt
  pair_src-OnPath sr (s ∷ ss) ds hs hd =
      All-append OnPath (pair_dst sr s ds) (pair_src sr ss ds) (pair_dst-OnPath sr s ds hs.0 hd)
        (pair_src-OnPath sr ss ds hs.1 hd)

  split-OnPath : (rs : List PathRule) → All OnPath (split_rules_by_path t rs)
  unfolding split_rules_by_path
  split-OnPath [] = tt
  split-OnPath (r ∷ rs) =
      All-append OnPath
        (pair_src r.service_rule (split_rule_group t r.src) (split_rule_group t r.dst))
        (split_rules_by_path t rs)
        (pair_src-OnPath r.service_rule (split_rule_group t r.src) (split_rule_group t r.dst)
          (split_rule_group-Homog r.src) (split_rule_group-Homog r.dst))
        (split-OnPath rs)

  -- All elements of the rules that come out have the paths of their rule, and for each kind of service
  -- rule, source and destination there is a rule exactly if there was one before: no pair of a source
  -- and a destination is lost or made up.
  pub split_rules_by_path-OnPath :
      (rs : List PathRule)
      → All OnPath (split_rules_by_path t rs)
        × ((k : ServiceRule → Bool) (f g : SomeObj → Bool)
            → any (concerns k f g) (split_rules_by_path t rs) ≡ any (concerns k f g) rs)
  split_rules_by_path-OnPath rs = (split-OnPath rs, λ k f g. split-concerns k f g rs)
