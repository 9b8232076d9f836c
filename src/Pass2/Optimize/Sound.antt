-- ===== src/Pass2/Optimize/Sound.antt =====
-- `optimizeRules` keeps the verdict on every packet.
use mathlib.Core.List.{Memᴰ}
use mathlib.Core.List.Memᴰ.{head, tail}
use netspoc.Prelude.{ℕ, ◌≡◌, ◌⊎◌, refl, ap, ◌∙◌, Bool, true, false, List, [], ◌∷◌}
use netspoc.Pass2.Rules.{CiscoRule, Objects, State}
use netspoc.Pass2.Redundant.{RuleTree, key_of}
use netspoc.Pass2.Optimize.{
  start, fill_tree, primary, secondary, skips, add_secondary, fill_secondary, apply_secondary,
  optimize_rules,
}
use netspoc.Pass2.Optimize.Marks.{Marks, Marks-trans}
use netspoc.Pass2.Optimize.Fill.{Filled, Distinct, Active, fill_tree-Filled}
use netspoc.Pass2.Optimize.Survive.{Ranked, Cov, run-Marks, placed-Survivor}
use netspoc.Pass2.Optimize.Verdict.{
  Packet, verdict, applies, applies_before, applies_above, verdict-eq, verdict-remove_deleted,
}

abbrev pub NoSecondary : (ℕ → CiscoRule) → List ℕ → Type 0
NoSecondary store rs = (r : ℕ) → Memᴰ r rs → (store r).opt_secondary ≡ false

-- Without secondary rules the second phase does nothing.
fill_secondary_none :
    (h : Objects) (prt_ip : ℕ) (s : State) (t : RuleTree) (rs : List ℕ)
    → NoSecondary s.rule rs
    → fill_secondary h prt_ip rs (t, s) ≡ (t, s)
unfolding fill_secondary add_secondary skips
fill_secondary_none h prt_ip s t [] none_secondary = refl
fill_secondary_none h prt_ip s t (r ∷ rs) none_secondary =
    rw (none_secondary r (head refl))
      (fill_secondary_none h prt_ip s t rs (λ q m. none_secondary q (tail m)))

secondary_none :
    (h : Objects) (prt_ip : ℕ) (t : RuleTree) (s : State) (rs : List ℕ)
    → NoSecondary s.rule rs
    → secondary h prt_ip rs (t, s) ≡ s
unfolding secondary apply_secondary
secondary_none h prt_ip t s rs none_secondary =
    rw (fill_secondary_none h prt_ip s [] rs none_secondary) refl

module _ {h : Objects} (ranked : Ranked h) (pkt : Packet h) (prt_ip : ℕ) (store : ℕ → CiscoRule)
    (rs : List ℕ) (distinct : Distinct rs) (active : Active (start store) rs) where
  filled : Filled prt_ip (start store) (λ r. Memᴰ r rs) (fill_tree prt_ip rs ([], start store))
  filled = fill_tree-Filled prt_ip (start store) rs distinct active

  abbrev after : State
  after = (primary h prt_ip store rs).1

  abbrev tree : RuleTree
  tree = (fill_tree prt_ip rs ([], start store)).0

  abbrev added : State
  added = (fill_tree prt_ip rs ([], start store)).1

  Reason : ℕ → Type 0
  Reason r = Memᴰ r rs ⊎ Cov h ranked prt_ip (start store) (λ r. Memᴰ r rs) tree added filled r

  run : Marks Reason (start store) after
  unfolding primary Reason
  run =
      Marks-trans filled.marks
        (run-Marks h ranked prt_ip (start store) (λ r. Memᴰ r rs) tree added filled)

  onward :
      (deny : Bool) (r : ℕ)
      → Memᴰ r rs
      → applies pkt prt_ip deny (store r) ≡ true
      → (c : ℕ) × Memᴰ c rs
        × ((applies pkt prt_ip deny (after.rule c) ≡ true)
            ⊎ (applies pkt prt_ip true (after.rule c) ≡ true))
  unfolding primary key_of
  onward deny r m e =
      let (c, m', a, alive) =
        placed-Survivor h ranked prt_ip (start store) (λ r. Memᴰ r rs) tree added filled r m in
      (c, m', applies_above pkt prt_ip deny (start store) after r c run a a.deny alive e)

  -- The first phase by itself.
  verdict-primary : verdict pkt prt_ip after.rule rs ≡ verdict pkt prt_ip store rs
  verdict-primary =
      verdict-eq pkt prt_ip store after.rule rs onward
        λ deny r. applies_before pkt prt_ip deny (start store) after r run

  -- In a list without secondary rules, whose rules are in force and given once each, over objects
  -- whose chains of `up` end, each packet meets the same verdict before and after `optimizeRules`:
  -- no deny rule and no permit rule that decides on it is lost. Deny rules are asked first, and what
  -- an object covers, the objects above it cover too.
  pub verdict-optimize_rules :
      NoSecondary store rs
      → let (store', rs') = optimize_rules h prt_ip store rs in
        verdict pkt prt_ip store' rs' ≡ verdict pkt prt_ip store rs
  unfolding optimize_rules
  verdict-optimize_rules none_secondary =
      let same_state =
        secondary_none h prt_ip (primary h prt_ip store rs).0 after rs
          (λ r m. ap (λ (x : CiscoRule). x.opt_secondary) (run.kept r) ∙ none_secondary r m) in
      rw same_state (verdict-remove_deleted pkt prt_ip after rs ∙ verdict-primary)

  same_state : NoSecondary store rs → secondary h prt_ip rs (primary h prt_ip store rs) ≡ after
  same_state none_secondary =
      secondary_none h prt_ip (primary h prt_ip store rs).0 after rs
        λ r m. ap (λ (x : CiscoRule). x.opt_secondary) (run.kept r) ∙ none_secondary r m
