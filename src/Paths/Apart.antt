-- ===== src/Paths/Apart.antt =====
-- `groupPathRules` as a whole: which pairs of objects it leaves, and what it notes at the services.
use netspoc.Prelude.{
  ℕ, ◌≡◌, refl, sym, ap, ◌∙◌, Bool, true, false, not, ◌&&◌, ◌||◌, List, [], ◌∷◌, ◌==◌, arith, any,
  All, select,
}
use netspoc.Prelude.Lists.{any-select, Mem-All, All-Mem}
use netspoc.Paths.{
  Topology, SomeObj, ServiceRule, PathRule, Service, get_path_node, reported, unenforceable,
  split_rules_by_path, group_path_rules,
}
use netspoc.Paths.Split.{OnPath, split_rules_by_path-OnPath}
use netspoc.Paths.Enforce.{
  blames, enforces, blamed, rules_left, enforceable_seen, unenforceable_seen,
}
use netspoc.Paths.Zones.{
  Clusters, MainRouter, zone_of, apart, silent, reported-silent, get_zone-get_path_node,
  zone_eq-leader,
}
use netspoc.Paths.Pairs.{
  pairs, any_none, HasPairs, split_rules_by_path-pairs, split_rules_by_path-HasPairs,
}

any_where {ℓ} :
    {A : Type ℓ} (p q : A → Bool) (xs : List A) → All (λ x. p x ≡ q x) xs → any p xs ≡ any q xs
any_where p q [] e = refl
any_where p q (x ∷ xs) e = rw (e.0, any_where p q xs e.1) refl

any_and {ℓ} :
    {A : Type ℓ} (c : Bool) (p : A → Bool) (xs : List A) → any (λ x. c && p x) xs ≡ (c && any p xs)
any_and c p [] = ground arith
any_and c p (x ∷ xs) = rw (any_and c p xs) (ground arith)

All-map {ℓ κ} :
    {A : Type ℓ} {P Q : A → Type κ} (xs : List A) → ((x : A) → P x → Q x) → All P xs → All Q xs
All-map [] f h = tt
All-map (x ∷ xs) f h = (f x h.0, All-map xs f h.1)

any_const {ℓ} :
    {A : Type ℓ} (c : Bool) (xs : List A) → any (λ _. true) xs ≡ true → any (λ _. c) xs ≡ c
any_const true xs e = e
any_const false xs e = any_none xs

-- All pairs of a rule pass a test of its service rule alone, or none does.
pairs-HasPairs :
    (k : ServiceRule → Bool) (r : PathRule)
    → HasPairs r
    → pairs (λ sr s d. k sr) r ≡ k r.service_rule
pairs-HasPairs k r (src, dst) =
    rw (any_const (k r.service_rule) r.dst dst) (any_const (k r.service_rule) r.src src)

-- A pair of the service that is worth a warning if it lies inside one zone.
abbrev pub worth :
    Topology → ℕ → (SomeObj × SomeObj → Bool) → ServiceRule → SomeObj → SomeObj → Bool
worth t x f sr s d = sr.service == x && (not (sr.coupling && silent t s d) && f (s, d))

module _ (t : Topology) (clusters : Clusters t) (main : MainRouter t) where
  apart-path :
      (r : PathRule) (s d : SomeObj)
      → get_path_node t s ≡ r.src_path
      → get_path_node t d ≡ r.dst_path
      → apart t s d ≡ not (unenforceable t r)
  unfolding unenforceable
  apart-path r s d es ed =
      rw
        (
          sym es,
          sym ed,
          get_zone-get_path_node t main s,
          get_zone-get_path_node t main d,
          zone_eq-leader t clusters (zone_of t s) (zone_of t d),
        )
        refl

  -- On one pair of paths, all pairs are inside one zone or none is.
  pairs-apart :
      (c : Bool → Bool) (h : ServiceRule → SomeObj → SomeObj → Bool) (r : PathRule)
      → OnPath t r
      → pairs (λ sr s d. c (apart t s d) && h sr s d) r ≡ (c (not (unenforceable t r)) && pairs h r)
  pairs-apart c h r (src, dst) =
      any_where (λ s. any (λ d. c (apart t s d) && h r.service_rule s d) r.dst)
        (λ s. c (not (unenforceable t r)) && any (h r.service_rule s) r.dst) r.src
        (All-map r.src
          (λ s es.
            any_where (λ d. c (apart t s d) && h r.service_rule s d)
              (λ d. c (not (unenforceable t r)) && h r.service_rule s d) r.dst
              (All-map r.dst
                (λ d ed. ap (λ b. c b && h r.service_rule s d) (apart-path r s d es ed)) dst)
            ∙ any_and (c (not (unenforceable t r))) (h r.service_rule s) r.dst)
          src)
      ∙ any_and (c (not (unenforceable t r))) (λ s. any (h r.service_rule s) r.dst) r.src

  pairs-left :
      (h : ServiceRule → SomeObj → SomeObj → Bool) (rs : List PathRule)
      → All (OnPath t) rs
      → any (pairs h) (select (λ r. not (unenforceable t r)) rs)
        ≡ any (pairs (λ sr s d. apart t s d && h sr s d)) rs
  pairs-left h rs on =
      any-select (pairs h) (λ r. not (unenforceable t r)) rs
      ∙ sym (
          any_where (pairs (λ sr s d. apart t s d && h sr s d))
            (λ r. not (unenforceable t r) && pairs h r) rs
            (All-map rs (λ r o. pairs-apart (λ b. b) h r o) on))

  -- A service has a pair between zones if it has a rule that stays.
  pairs-enforces :
      (x : ℕ) (r : PathRule)
      → OnPath t r
      → HasPairs r
      → enforces t x r ≡ pairs (λ sr s d. apart t s d && sr.service == x) r
  pairs-enforces x r on has =
      rw
        (
          pairs-apart (λ b. b) (λ sr s d. sr.service == x) r on,
          pairs-HasPairs (λ sr. sr.service == x) r has,
        )
        (ground arith)

  source-blames :
      (x : ℕ) (f : SomeObj × SomeObj → Bool) (r : PathRule) (s : SomeObj)
      → any (worth t x f r.service_rule s) r.dst ≡ (
          r.service_rule.service == x
          && any (λ d. reported t r.service_rule.coupling s d && f (s, d)) r.dst)
  source-blames x f r s =
      any_and (r.service_rule.service == x)
        (λ d. not (r.service_rule.coupling && silent t s d) && f (s, d)) r.dst
      ∙ ap (λ b. r.service_rule.service == x && b)
          (any_where (λ d. not (r.service_rule.coupling && silent t s d) && f (s, d))
            (λ d. reported t r.service_rule.coupling s d && f (s, d)) r.dst
            (Mem-All _ r.dst (λ d m.
              ap (λ b. b && f (s, d)) (sym (reported-silent t r.service_rule.coupling s d)))))

  pairs-blames :
      (x : ℕ) (f : SomeObj × SomeObj → Bool) (r : PathRule)
      → pairs (worth t x f) r
        ≡ (r.service_rule.service == x && blames t r.service_rule.coupling f r.src r.dst)
  pairs-blames x f r =
      any_where (λ s. any (worth t x f r.service_rule s) r.dst)
        (λ s.
          r.service_rule.service == x
          && any (λ d. reported t r.service_rule.coupling s d && f (s, d)) r.dst)
        r.src (Mem-All _ r.src (λ s m. source-blames x f r s))
      ∙ any_and (r.service_rule.service == x)
          (λ s. any (λ d. reported t r.service_rule.coupling s d && f (s, d)) r.dst) r.src

  pairs-blamed :
      (x : ℕ) (f : SomeObj × SomeObj → Bool) (r : PathRule)
      → OnPath t r
      → blamed t x f r ≡ pairs (λ sr s d. not (apart t s d) && worth t x f sr s d) r
  pairs-blamed x f r on = rw (pairs-apart not (worth t x f) r on, pairs-blames x f r) (ground arith)

  any-enforces :
      (x : ℕ) (rules : List PathRule)
      → any (enforces t x) (split_rules_by_path t rules)
        ≡ any (pairs (λ sr s d. apart t s d && sr.service == x)) rules
  any-enforces x rules =
      any_where (enforces t x) (pairs (λ sr s d. apart t s d && sr.service == x))
        (split_rules_by_path t rules)
        (Mem-All _ (split_rules_by_path t rules) (λ r m.
          pairs-enforces x r
            (All-Mem (OnPath t) (split_rules_by_path t rules) r
              (split_rules_by_path-OnPath t rules).0 m)
            (All-Mem HasPairs (split_rules_by_path t rules) r (split_rules_by_path-HasPairs t rules)
              m)))
      ∙ split_rules_by_path-pairs t (λ sr s d. apart t s d && sr.service == x) rules

  any-blamed :
      (x : ℕ) (f : SomeObj × SomeObj → Bool) (rules : List PathRule)
      → any (blamed t x f) (split_rules_by_path t rules)
        ≡ any (pairs (λ sr s d. not (apart t s d) && worth t x f sr s d)) rules
  any-blamed x f rules =
      any_where (blamed t x f) (pairs (λ sr s d. not (apart t s d) && worth t x f sr s d))
        (split_rules_by_path t rules)
        (All-map (split_rules_by_path t rules) (λ r on. pairs-blamed x f r on)
          (split_rules_by_path-OnPath t rules).0)
      ∙ split_rules_by_path-pairs t (λ sr s d. not (apart t s d) && worth t x f sr s d) rules

  any-left :
      (h : ServiceRule → SomeObj → SomeObj → Bool) (rules : List PathRule)
      → any (pairs h) (select (λ r. not (unenforceable t r)) (split_rules_by_path t rules))
        ≡ any (pairs (λ sr s d. apart t s d && h sr s d)) rules
  any-left h rules =
      pairs-left h (split_rules_by_path t rules) (split_rules_by_path-OnPath t rules).0
      ∙ split_rules_by_path-pairs t (λ sr s d. apart t s d && h sr s d) rules

  -- Where the zones of a cluster share their list and a main interface is one of the same router,
  -- `groupPathRules` leaves exactly the pairs of a source and a destination of its rules that lie in
  -- different zones, the zones of a cluster taken as one. A service is then noted as enforceable
  -- exactly if it was before or has such a pair, and a pair as unenforceable exactly if it was before
  -- or is a pair of the service inside one zone, but for the silent pairs of coupled users.
  pub group_path_rules-apart :
      (rules : List PathRule) (services : ℕ → Service)
      → let (left, services') = group_path_rules t rules services in
        ((h : ServiceRule → SomeObj → SomeObj → Bool)
          → any (pairs h) left ≡ any (pairs (λ sr s d. apart t s d && h sr s d)) rules)
        × ((x : ℕ)
            → (services' x).seen_enforceable ≡ (
                any (pairs (λ sr s d. apart t s d && sr.service == x)) rules
                || (services x).seen_enforceable))
        × ((x : ℕ) (f : SomeObj × SomeObj → Bool)
            → any f (services' x).seen_unenforceable ≡ (
                any (pairs (λ sr s d. not (apart t s d) && worth t x f sr s d)) rules
                || any f (services x).seen_unenforceable))
  unfolding group_path_rules
  group_path_rules-apart rules services = (
    λ h.
        ap (any (pairs h)) (rules_left t (split_rules_by_path t rules) services) ∙ any-left h rules,
    λ x.
        enforceable_seen t (split_rules_by_path t rules) services x
        ∙ ap (λ b. b || (services x).seen_enforceable) (any-enforces x rules),
    λ x f.
        unenforceable_seen t (split_rules_by_path t rules) services x f
        ∙ ap (λ b. b || any f (services x).seen_unenforceable) (any-blamed x f rules),
  )
