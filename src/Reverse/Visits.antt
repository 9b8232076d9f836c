-- ===== src/Reverse/Visits.antt =====
-- The cache over pairs of paths changes nothing.
use netspoc.Prelude.{
  ℕ, ◌≡◌, inl, inr, refl, sym, ap, Bool, true, false, not, ◌&&◌, some, List, [], ◌∷◌, ◌++◌,
  if◌then◌else◌, ◌==◌, arith, Bool-cases, Option-cases,
}
use netspoc.Reverse.{
  Spoc, GroupedRule, Cache, find_pair, walk_path, known_path, has_stateless_router, new_prt_group,
  make_rules, by_range, reverse_found, reverse_group, reverse_one, extra_rules, gen_reverse_rules1,
}

-- What the cache holds is what a walk finds.
pub Right : Spoc → Cache → Type 0
Right c cache =
    (sp dp : ℕ) (b : Bool) → find_pair sp dp cache ≡ some b → walk_path (c.walk sp dp) false ≡ b

-- The extra rules for one rule, looked up without a cache.
unfoldable pub reverse_plain : Spoc → GroupedRule → List GroupedRule
reverse_plain c r = if r.oneway then [] else elim (new_prt_group c.prt r.deny false r.prt) [
  | [] ↦ []
  | p ∷ ps ↦
      if not (walk_path (c.walk r.src_path r.dst_path) false)
      then []
      else make_rules c r (by_range c r.src_range (p ∷ ps) [])
]

Right-cons :
    (c : Spoc) (sp dp : ℕ) (cache : Cache)
    → Right c cache
    → Right c (((sp, dp), walk_path (c.walk sp dp) false) ∷ cache)
unfolding Right
Right-cons c sp dp cache right s d b e = elim (Bool-cases (sp == s && dp == d)) [
  | inl t ↦
      let same_s : sp ≡ s = ground arith in
      let same_d : dp ≡ d = ground arith in rw (sym same_s, sym same_d) (ground arith)
  | inr f ↦ right s d b (ground arith)
]

has_walked :
    (c : Spoc) (sp dp : ℕ) (cache : Cache)
    → Right c cache
    → (b : Bool) → find_pair sp dp cache ≡ some b
    → b ≡ walk_path (c.walk sp dp) false
unfolding Right
has_walked c sp dp cache right b e = sym (right sp dp b e)

has_stateless_router_lem :
    (c : Spoc) (sp dp : ℕ) (cache : Cache)
    → Right c cache
    → let (b, cache') = has_stateless_router c sp dp cache in
      (b ≡ walk_path (c.walk sp dp) false) × Right c cache'
unfolding has_stateless_router known_path
has_stateless_router_lem c sp dp cache right = elim (Option-cases (find_pair sp dp cache)) [
  | inl e ↦ rw e (refl, Right-cons c sp dp cache right)
  | inr (b, e) ↦ rw e (has_walked c sp dp cache right b e, right)
]

one_way : (c : Spoc) (r : GroupedRule) → r.oneway ≡ true → [] ≡ reverse_plain c r
unfolding reverse_plain
one_way c r e = rw e refl

reverse_found_lem :
    (c : Spoc) (r : GroupedRule) (p : ℕ) (ps : List ℕ) (cache : Cache)
    → Right c cache
    → let (extra, cache') = reverse_group c r (p ∷ ps) cache in
      (extra ≡ (
        if not (walk_path (c.walk r.src_path r.dst_path) false)
        then []
        else make_rules c r (by_range c r.src_range (p ∷ ps) [])))
      × Right c cache'
unfolding reverse_group reverse_found
reverse_found_lem c r p ps cache right =
    let (e, right') = has_stateless_router_lem c r.src_path r.dst_path cache right in
    (rw e refl, right')

reverse_group_lem :
    (c : Spoc) (r : GroupedRule) (ps : List ℕ) (cache : Cache)
    → r.oneway ≡ false
    → new_prt_group c.prt r.deny false r.prt ≡ ps
    → Right c cache
    → let (extra, cache') = reverse_group c r ps cache in
      (extra ≡ reverse_plain c r) × Right c cache'
unfolding reverse_plain reverse_group
reverse_group_lem c r [] cache two e right = rw (two, e) (refl, right)
reverse_group_lem c r (p ∷ ps) cache two e right =
    rw (two, e) (reverse_found_lem c r p ps cache right)

pub reverse_one-plain :
    (c : Spoc) (r : GroupedRule) (cache : Cache)
    → Right c cache
    → let (extra, cache') = reverse_one c r cache in (extra ≡ reverse_plain c r) × Right c cache'
unfolding reverse_one
reverse_one-plain c r cache right = elim (Bool-cases r.oneway) [
  | inl e ↦ simp e (one_way c r e, right)
  | inr e ↦
      simp e (reverse_group_lem c r (new_prt_group c.prt r.deny false r.prt) cache e refl right)
]

-- The extra rules of all rules, each looked up without a cache.
abbrev pub plain_rules : Spoc → List GroupedRule → List GroupedRule
plain_rules c [] = []
plain_rules c (r ∷ rs) = reverse_plain c r ++ plain_rules c rs

extra_rules-plain :
    (c : Spoc) (rs : List GroupedRule) (cache : Cache)
    → Right c cache
    → extra_rules c rs cache ≡ plain_rules c rs
unfolding extra_rules
extra_rules-plain c [] cache right = refl
extra_rules-plain c (r ∷ rs) cache right =
    let (e, right') = reverse_one-plain c r cache right in
    rw (e, extra_rules-plain c rs (reverse_one c r cache).1 right') refl

-- The rules that are added are, in order, those that a walk for each single rule gives: the cache
-- over pairs of path stores changes no result.
pub gen_reverse_rules1-plain :
    (c : Spoc) (rs : List GroupedRule) → gen_reverse_rules1 c rs ≡ rs ++ plain_rules c rs
unfolding gen_reverse_rules1 Right
gen_reverse_rules1-plain c rs = ap (λ x. rs ++ x) (extra_rules-plain c rs [] (λ sp dp b e. cc))
