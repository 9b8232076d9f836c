-- ===== src/Pass2/Optimize.antt =====
-- go/cmd/spoc2/main.go: `optimizeRules`, which deletes the redundant rules of an access list.
pub mod Marks
pub mod Fill
pub mod Survive
pub mod Verdict
pub mod Sound
use netspoc.Prelude.{
  ℕ, Bool, true, false, not, ◌&&◌, Option, none, some, List, [], ◌∷◌, if◌then◌else◌,
}
use netspoc.Pass2.Rules.{CiscoRule, IpNet, Objects, State, update, delete}
use netspoc.Pass2.Redundant.{RuleTree, Key, find, insert, key_of, optimize_redundant_rules}

abbrev pub start : (ℕ → CiscoRule) → State
start store = record { rule = store; changed = false }

add_at : Option ℕ → Key → ℕ → RuleTree × State → RuleTree × State
add_at none key r (t, s) = (insert key r t, s)
add_at (some _) key r (t, s) = (t, delete r s)

-- The closure `addRule`: of two rules with the same keys the second is deleted.
pub add_rule : ℕ → ℕ → RuleTree × State → RuleTree × State
unfolding add_at
add_rule prt_ip r (t, s) = let key = key_of prt_ip (s.rule r) in add_at (find t key) key r (t, s)

pub fill_tree : ℕ → List ℕ → RuleTree × State → RuleTree × State
fill_tree prt_ip [] ts = ts
fill_tree prt_ip (r ∷ rs) ts = fill_tree prt_ip rs (add_rule prt_ip r ts)

or_self : Option ℕ → ℕ → ℕ
or_self none p = p
or_self (some q) p = q

-- The rule on the optimised networks, for protocol IP.
pub widen : Objects → ℕ → CiscoRule → CiscoRule
unfolding or_self
widen h prt_ip r = record r {
  src = or_self (h.net r.src).opt_networks r.src;
  dst = if (h.net r.dst).need_protect then r.dst else or_self (h.net r.dst).opt_networks r.dst;
  prt = prt_ip;
  src_range = none;
}

-- Whether the loop over the secondary rules passes a rule over.
skips : Objects → CiscoRule → Bool
skips h r =
    if not r.opt_secondary
    then true
    else if r.deleted
    then true
    else if (h.net r.src).no_opt_addrs
    then true
    else (h.net r.dst).no_opt_addrs

pub add_secondary : Objects → ℕ → ℕ → RuleTree × State → RuleTree × State
unfolding skips
add_secondary h prt_ip r (t, s) =
    if skips h (s.rule r)
    then (t, s)
    else add_rule prt_ip r (t, record s { rule = update s.rule r (widen h prt_ip (s.rule r)) })

pub fill_secondary : Objects → ℕ → List ℕ → RuleTree × State → RuleTree × State
fill_secondary h prt_ip [] ts = ts
fill_secondary h prt_ip (r ∷ rs) ts = fill_secondary h prt_ip rs (add_secondary h prt_ip r ts)

-- `if len(secondaryTree) != 0 { … }`
pub apply_secondary : Objects → RuleTree → RuleTree → State → State
apply_secondary h [] tree s = s
apply_secondary h (b ∷ sec) tree s =
    optimize_redundant_rules h (b ∷ sec) tree (optimize_redundant_rules h (b ∷ sec) (b ∷ sec) s)

-- `for _, rule := range rules { if !rule.deleted { newRules.push(rule) } }`
unfoldable pub not_deleted : (ℕ → CiscoRule) → List ℕ → List ℕ
not_deleted store [] = []
not_deleted store (r ∷ rs) =
    let rest = not_deleted store rs in if (store r).deleted then rest else r ∷ rest

unfoldable pub remove_deleted : State → List ℕ → List ℕ
remove_deleted s rs = if s.changed then not_deleted s.rule rs else rs

-- The two phases before the deleted rules are taken out of the list.
pub primary : Objects → ℕ → (ℕ → CiscoRule) → List ℕ → RuleTree × State
primary h prt_ip store rs =
    let (tree, s) = fill_tree prt_ip rs ([], start store) in
    (tree, optimize_redundant_rules h tree tree s)

pub secondary : Objects → ℕ → List ℕ → RuleTree × State → State
secondary h prt_ip rs (tree, s) =
    let (sec, s') = fill_secondary h prt_ip rs ([], s) in apply_secondary h sec tree s'

-- The rules as they stand after the run, and the list that is returned.
unfoldable pub optimize_rules : Objects → ℕ → (ℕ → CiscoRule) → List ℕ → (ℕ → CiscoRule) × List ℕ
unfolding add_rule insert key_of optimize_redundant_rules fill_tree widen add_secondary
    fill_secondary apply_secondary not_deleted remove_deleted primary secondary
optimize_rules h prt_ip store rs =
    let s = secondary h prt_ip rs (primary h prt_ip store rs) in (s.rule, remove_deleted s rs)
