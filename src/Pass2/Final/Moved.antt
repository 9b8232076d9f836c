-- ===== src/Pass2/Final/Moved.antt =====
-- `moveRulesEspAh` keeps what the access list does.
use netspoc.Prelude.{
  ℕ, ◌≡◌, refl, sym, ◌∙◌, Bool, true, false, not, ◌&&◌, ◌||◌, Option, none, some, List, [], ◌∷◌,
  ◌++◌, any, select, any-append, any-select, arith,
}
use netspoc.Prelude.Sort.{SortSlice, any-Perm}
use netspoc.Pass2.Rules.{CiscoRule, Objects}
use netspoc.Pass2.Final.{in_class, move_rules_esp_ah, crypto_less}
use netspoc.Pass2.Final.Match.{
  first_match, or_else-verdict_of, denies, permits, DenyFirst, first_match-append,
  first_match-denies, first_match-permits, first_match-DenyFirst,
}

any_none :
    (p : CiscoRule → Bool) (xs : List CiscoRule)
    → ((r : CiscoRule) → p r ≡ false)
    → any p xs ≡ false
any_none p [] e = refl
any_none p (x ∷ xs) e = rw (e x, any_none p xs e) refl

module _ (slices : SortSlice CiscoRule) (h : Objects) (esp ah : Option ℕ) where
  split_any :
      (c : CiscoRule → Bool) (rs : List CiscoRule)
      → (any (λ r. in_class esp ah true r && c r) rs
          || any (λ r. in_class esp ah false r && c r) rs)
        ≡ any (λ r. not r.deny && c r) rs
  unfolding in_class
  split_any c [] = refl
  split_any c (r ∷ rs) = ground (arith, split_any c rs)

  crypto : List CiscoRule → List CiscoRule
  crypto rs = slices.sort (crypto_less h) (select (in_class esp ah true) rs)

  others : List CiscoRule → List CiscoRule
  others rs = select (in_class esp ah false) rs

  any-crypto :
      (p : CiscoRule → Bool) (rs : List CiscoRule)
      → any p (crypto rs) ≡ any (λ r. in_class esp ah true r && p r) rs
  unfolding crypto
  any-crypto p rs =
      any-Perm p (slices.sort-Perm (crypto_less h) (select (in_class esp ah true) rs))
      ∙ any-select p (in_class esp ah true) rs

  any-tail :
      (p : CiscoRule → Bool) (rs : List CiscoRule)
      → any p (crypto rs ++ others rs) ≡ any (λ r. not r.deny && p r) rs
  unfolding others
  any-tail p rs =
      rw
        (
          any-append p (crypto rs) (others rs),
          any-crypto p rs,
          any-select p (in_class esp ah false) rs,
        )
        (split_any p rs)

  moved : List CiscoRule → List CiscoRule
  moved rs = select denies rs ++ (crypto rs ++ others rs)

  first_match-moved :
      (c : CiscoRule → Bool) (rs : List CiscoRule)
      → DenyFirst rs
      → first_match c (moved rs) ≡ first_match c rs
  unfolding moved
  first_match-moved c rs order =
      first_match-append c (select denies rs) (crypto rs ++ others rs)
      ∙ rw
          (
            first_match-denies c (select denies rs) no_permit,
            first_match-permits c (crypto rs ++ others rs) no_deny,
            or_else-verdict_of (any c (select denies rs)) (any c (crypto rs ++ others rs)),
            any-select c denies rs,
            any-tail c rs,
          )
          (sym (first_match-DenyFirst c rs order))
    where
      no_permit : any permits (select denies rs) ≡ false
      no_permit =
          any-select permits denies rs
          ∙ any_none (λ r. denies r && permits r) rs (λ r. ground arith)

      no_deny : any denies (crypto rs ++ others rs) ≡ false
      no_deny = any-tail denies rs ∙ any_none (λ r. permits r && denies r) rs (λ r. ground arith)

-- Where deny rules come first, moving the rules for ESP, AH and logging changes for no packet
-- which rule's action decides on it.
pub first_match-move_rules_esp_ah :
    (slices : SortSlice CiscoRule) (h : Objects) (esp ah : Option ℕ) (log : Bool)
    (c : CiscoRule → Bool) (rs : List CiscoRule)
    → DenyFirst rs
    → first_match c (move_rules_esp_ah slices h esp ah log rs) ≡ first_match c rs
unfolding move_rules_esp_ah moved crypto others
first_match-move_rules_esp_ah slices h none none false c rs order = refl
first_match-move_rules_esp_ah slices h none none true c rs order =
    first_match-moved slices h none none c rs order
first_match-move_rules_esp_ah slices h none (some a) log c rs order =
    first_match-moved slices h none (some a) c rs order
first_match-move_rules_esp_ah slices h (some e) ah log c rs order =
    first_match-moved slices h (some e) ah c rs order
