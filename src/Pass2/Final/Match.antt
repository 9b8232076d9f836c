-- ===== src/Pass2/Final/Match.antt =====
-- What a device does with an access list: the first rule that covers a packet decides.
use netspoc.Prelude.{
  ◌≡◌, ◌↔◌, ◌⊎◌, inl, inr, refl, sym, Bool, true, false, not, ◌&&◌, List, [], ◌∷◌, ◌++◌, any,
  if◌then◌else◌, arith, Bool-cases,
}
use netspoc.Pass2.Rules.{CiscoRule}
pub use netspoc.Pass2.Optimize.Verdict.{Verdict, denied, permitted, unmatched}

abbrev pub decision : CiscoRule → Verdict
decision r = if r.deny then denied else permitted

abbrev pub or_else : Verdict → Verdict → Verdict
or_else denied w = denied
or_else permitted w = permitted
or_else unmatched w = w

pub or_else-unmatched : (v : Verdict) → or_else v unmatched ≡ v
or_else-unmatched denied = refl
or_else-unmatched permitted = refl
or_else-unmatched unmatched = refl

-- A verdict where deny rules are asked first.
abbrev pub verdict_of : Bool → Bool → Verdict
verdict_of d p = if d then denied else if p then permitted else unmatched

pub or_else-verdict_of :
    (d p : Bool) → or_else (verdict_of d false) (verdict_of false p) ≡ verdict_of d p
or_else-verdict_of true p = refl
or_else-verdict_of false p = refl

abbrev pub denies : CiscoRule → Bool
denies r = r.deny

abbrev pub permits : CiscoRule → Bool
permits r = not r.deny

-- `c` says which rules cover the packet.
module _ (c : CiscoRule → Bool) where
  abbrev pub first_match : List CiscoRule → Verdict
  first_match [] = unmatched
  first_match (r ∷ rs) = let rest = first_match rs in if c r then decision r else rest

  or_else-decision : (r : CiscoRule) (w : Verdict) → or_else (decision r) w ≡ decision r
  or_else-decision r w = elim (Bool-cases r.deny) [ inl e ↦ rw e refl | inr e ↦ rw e refl ]

  pub first_match-append :
      (xs ys : List CiscoRule) → first_match (xs ++ ys) ≡ or_else (first_match xs) (first_match ys)
  first_match-append [] ys = refl
  first_match-append (r ∷ rs) ys = elim (Bool-cases (c r)) [
    | inl e ↦ rw e (sym (or_else-decision r (first_match ys)))
    | inr e ↦ rw e (first_match-append rs ys)
  ]

  pub first_match-denies :
      (xs : List CiscoRule) → any permits xs ≡ false → first_match xs ≡ verdict_of (any c xs) false
  first_match-denies [] e = refl
  first_match-denies (r ∷ rs) e = ground (arith, first_match-denies rs)

  pub first_match-permits :
      (xs : List CiscoRule) → any denies xs ≡ false → first_match xs ≡ verdict_of false (any c xs)
  first_match-permits [] e = refl
  first_match-permits (r ∷ rs) e = ground (arith, first_match-permits rs)

  -- No rule of the list covers the packet.
  pub unmatched_iff : (xs : List CiscoRule) → (first_match xs ≡ unmatched) ↔ (any c xs ≡ false)
  unmatched_iff [] = ground arith
  unmatched_iff (r ∷ rs) = ground (arith, unmatched_iff rs)

-- Deny rules come before permit rules.
abbrev pub DenyFirst : List CiscoRule → Type 0
DenyFirst [] = Unit
DenyFirst (r ∷ rs) = ((r.deny ≡ true) ⊎ (any denies rs ≡ false)) × DenyFirst rs

deny_first_step :
    (c : CiscoRule → Bool) (r : CiscoRule) (rs : List CiscoRule)
    → (r.deny ≡ true) ⊎ (any denies rs ≡ false)
    → first_match c rs ≡ verdict_of (any (λ q. q.deny && c q) rs) (any (λ q. not q.deny && c q) rs)
    → (any denies rs ≡ false → any (λ q. q.deny && c q) rs ≡ false)
    → first_match c (r ∷ rs)
      ≡ verdict_of (any (λ q. q.deny && c q) (r ∷ rs)) (any (λ q. not q.deny && c q) (r ∷ rs))
deny_first_step c r rs o ih quiet = ground (arith, ih, quiet, o)

any-denies :
    (c : CiscoRule → Bool) (rs : List CiscoRule)
    → any denies rs ≡ false
    → any (λ q. q.deny && c q) rs ≡ false
any-denies c [] e = refl
any-denies c (r ∷ rs) e = ground (arith, any-denies c rs)

pub first_match-DenyFirst :
    (c : CiscoRule → Bool) (rs : List CiscoRule)
    → DenyFirst rs
    → first_match c rs ≡ verdict_of (any (λ q. q.deny && c q) rs) (any (λ q. not q.deny && c q) rs)
first_match-DenyFirst c [] o = refl
first_match-DenyFirst c (r ∷ rs) o =
    deny_first_step c r rs o.0 (first_match-DenyFirst c rs o.1) (any-denies c rs)
