-- ===== src/Pass2/Redundant.antt =====
-- go/cmd/spoc2/main.go: the rule tree and `optimizeRedundantRules`. A `map` is an association list,
-- and a loop over a map visits its entries in the order of the list.
pub mod Visits
pub mod Tree
use mathlib.Core.Bool.{Bool-discrete}
use netspoc.Prelude.Assoc.{lookup, alter}
use netspoc.Prelude.{
  ℕ, zero, suc, ◌≡◌, Bool, true, false, not, ◌&&◌, Option, none, some, List, [], ◌∷◌, if◌then◌else◌,
  ◌==◌, ℕ_discrete,
}
use netspoc.Pass2.Rules.{CiscoRule, Objects, State, net_up, prt_up, same_log, delete}

-- `ruleTree1`, keyed by protocol, up to `ruleTree`, keyed by `deny`. The leaves are rules.
abbrev pub RuleTree1 : Type 0
RuleTree1 = List (ℕ × ℕ)

abbrev pub RuleTree2 : Type 0
RuleTree2 = List (ℕ × RuleTree1)

abbrev pub RuleTree3 : Type 0
RuleTree3 = List (ℕ × RuleTree2)

abbrev pub RuleTree4 : Type 0
RuleTree4 = List (ℕ × RuleTree3)

abbrev pub RuleTree : Type 0
RuleTree = List (Bool × RuleTree4)

abbrev pub at : {V : Type 0} → ℕ → List (ℕ × V) → Option V
at = lookup ℕ_discrete

visit : {V : Type 0} → (V → State → State) → Option V → State → State
visit body none s = s
visit body (some sub) s = body sub s

-- `k = k.up; if k == nil { break }`, then the next round.
go_on : Option ℕ → (ℕ → State) → State → State
go_on none next s = s
go_on (some q) next s = next q

-- `for { if sub, ok := cmp[k]; ok { body(sub) }; k = k.up; if k == nil { break } }`, on fuel.
pub climb :
    {V : Type 0} → (ℕ → Option ℕ) → (V → State → State) → ℕ → List (ℕ × V) → ℕ → State → State
climb up body zero cmp k s = s
climb up body (suc fuel) cmp k s =
    let s' = visit body (at k cmp) s in go_on (up k) (λ q. climb up body fuel cmp q s') s'

-- `for k, v := range m { body(k, v) }`
pub for_entries : {K V : Type 0} → (K → V → State → State) → List (K × V) → State → State
for_entries body [] s = s
for_entries body ((k, v) ∷ m) s = for_entries body m (body k v s)

-- The innermost loop: the rule `r` is deleted if another rule of `cmp`, at `k` or above, has its log.
pub delete_redundant : (ℕ → Option ℕ) → ℕ → RuleTree1 → ℕ → ℕ → State → State
delete_redundant up zero cmp k r s = s
delete_redundant up (suc fuel) cmp k r s =
    let next = go_on (up k) (λ q. delete_redundant up fuel cmp q r s) s in
    elim (at k cmp) [
      | none ↦ next
      | some c ↦ if not (c == r) && same_log (s.rule c) (s.rule r) then delete r s else next
    ]

module _ (h : Objects) where
  unless_deleted : RuleTree1 → ℕ → ℕ → State → State
  unless_deleted cmp prt r s =
      if (s.rule r).deleted then s else delete_redundant (prt_up h) h.depth cmp prt r s

  pub redundant_prt : RuleTree1 → RuleTree1 → State → State
  unfolding unless_deleted
  redundant_prt cmp chg = for_entries (unless_deleted cmp) chg

  pub redundant_dst : RuleTree2 → RuleTree2 → State → State
  redundant_dst cmp chg =
      for_entries (λ dst sub. climb (net_up h) (λ c. redundant_prt c sub) h.depth cmp dst) chg

  pub redundant_src : RuleTree3 → RuleTree3 → State → State
  redundant_src cmp chg =
      for_entries (λ src sub. climb (net_up h) (λ c. redundant_dst c sub) h.depth cmp src) chg

  pub redundant_range : RuleTree4 → RuleTree4 → State → State
  redundant_range cmp chg =
      for_entries (λ range sub. climb (prt_up h) (λ c. redundant_src c sub) h.depth cmp range) chg

  -- The loop over `deny`: a permit rule is compared with the permit rules and then with the deny rules.
  compare_deny : RuleTree → Bool → RuleTree4 → State → State
  unfolding visit
  compare_deny cmp true sub s = visit (λ c. redundant_range c sub) (lookup Bool-discrete true cmp) s
  compare_deny cmp false sub s =
      visit (λ c. redundant_range c sub) (lookup Bool-discrete true cmp)
        (visit (λ c. redundant_range c sub) (lookup Bool-discrete false cmp) s)

  unfoldable pub optimize_redundant_rules : RuleTree → RuleTree → State → State
  unfolding visit go_on climb for_entries delete_redundant unless_deleted redundant_prt
      redundant_dst redundant_src redundant_range compare_deny
  optimize_redundant_rules cmp chg = for_entries (compare_deny cmp) chg

-- The keys under which a rule stands in the tree.
pub record Key : Type 0 where
  pub deny : Bool
  pub range : ℕ
  pub src : ℕ
  pub dst : ℕ
  pub prt : ℕ

abbrev and_then : {A B : Type 0} → Option A → (A → Option B) → Option B
and_then none f = none
and_then (some a) f = f a

-- `tree[deny][srcRange][src][dst][prt]`
abbrev find_dst : ℕ → ℕ → RuleTree2 → Option ℕ
find_dst dst prt t = and_then (at dst t) (at prt)

abbrev find_src : ℕ → ℕ → ℕ → RuleTree3 → Option ℕ
find_src src dst prt t = and_then (at src t) (find_dst dst prt)

abbrev find_range : ℕ → ℕ → ℕ → ℕ → RuleTree4 → Option ℕ
find_range range src dst prt t = and_then (at range t) (find_src src dst prt)

abbrev pub find : RuleTree → Key → Option ℕ
find t k = and_then (lookup Bool-discrete k.deny t) (find_range k.range k.src k.dst k.prt)

or_empty : {K V : Type 0} → Option (List (K × V)) → List (K × V)
or_empty none = []
or_empty (some m) = m

-- `tree.add(deny).add(srcRange).add(src).add(dst)[prt] = r`: a missing subtree is made.
abbrev insert_prt : ℕ → ℕ → RuleTree1 → RuleTree1
insert_prt prt r = alter ℕ_discrete prt (λ _. r)

abbrev insert_dst : ℕ → ℕ → ℕ → RuleTree2 → RuleTree2
insert_dst dst prt r = alter ℕ_discrete dst (λ o. insert_prt prt r (or_empty o))

abbrev insert_src : ℕ → ℕ → ℕ → ℕ → RuleTree3 → RuleTree3
insert_src src dst prt r = alter ℕ_discrete src (λ o. insert_dst dst prt r (or_empty o))

abbrev insert_range : ℕ → ℕ → ℕ → ℕ → ℕ → RuleTree4 → RuleTree4
insert_range range src dst prt r =
    alter ℕ_discrete range (λ o. insert_src src dst prt r (or_empty o))

unfoldable pub insert : Key → ℕ → RuleTree → RuleTree
unfolding or_empty
insert k r = alter Bool-discrete k.deny (λ o. insert_range k.range k.src k.dst k.prt r (or_empty o))

unfoldable pub key_of : ℕ → CiscoRule → Key
key_of prt_ip r = record {
  deny = r.deny;
  range = elim r.src_range [ none ↦ prt_ip | some p ↦ p ];
  src = r.src;
  dst = r.dst;
  prt = r.prt;
}
