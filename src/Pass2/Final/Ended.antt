-- ===== src/Pass2/Final/Ended.antt =====
-- `checkFinalPermit` and `addFinalPermitDenyRule`: what the end of an access list does.
use netspoc.Prelude.{
  ◌≡◌, ◌≢◌, ◌↔◌, ◌⊎◌, inl, inr, refl, sym, ap, ◌∙◌, Bool, true, false, ◌&&◌, ◌||◌, none, List, [],
  ◌∷◌, ◌++◌, All, if◌then◌else◌, ◌==◌, arith, Bool-cases,
}
use netspoc.Pass2.Rules.{CiscoRule}
use netspoc.Pass2.Final.{
  AclInfo, last_permits, permits_any, check_final_permit, add_final_permit_deny_rule, rule_ip_any,
  add_final,
}
use netspoc.Pass2.Final.Match.{
  Verdict, denied, permitted, unmatched, first_match, or_else, decision, or_else-unmatched,
  first_match-append,
}

-- The last rule is `permit ip any any`.
unfoldable pub EndsInPermit : AclInfo → List CiscoRule → Type 0
EndsInPermit acl rules =
    (before : List CiscoRule) × (last : CiscoRule) × (rules ≡ before ++ last ∷ [])
    × (last.deny ≡ false)
    × (last.src ≡ acl.network00)
    × (last.dst ≡ acl.network00)
    × (last.prt ≡ acl.prt_ip)

-- Only rules for TCP and UDP name source ports.
unfoldable pub NoRange : AclInfo → List CiscoRule → Type 0
NoRange acl = All (λ (r : CiscoRule). r.prt ≡ acl.prt_ip → r.src_range ≡ none)

-- A rule `ip any any` covers the packet.
unfoldable pub AnyCovers : AclInfo → (CiscoRule → Bool) → Type 0
AnyCovers acl c =
    (r : CiscoRule)
    → r.src ≡ acl.network00
    → r.dst ≡ acl.network00
    → r.prt ≡ acl.prt_ip
    → r.src_range ≡ none
    → c r ≡ true

abbrev pub final_verdict : Bool → Bool → Verdict
final_verdict add_deny add_permit =
    if add_deny then denied else if add_permit then permitted else unmatched

data Decided : Verdict → Type 0 where
  by_deny : Decided denied
  by_permit : Decided permitted

or_else-Decided : (v w : Verdict) → Decided v → or_else v w ≡ v
or_else-Decided _ w by_deny = refl
or_else-Decided _ w by_permit = refl

decision-Decided : (r : CiscoRule) → Decided (decision r)
decision-Decided r = elim (Bool-cases r.deny) [ inl e ↦ rw e by_deny | inr e ↦ rw e by_permit ]

covered_last :
    (acl : AclInfo) (c : CiscoRule → Bool)
    → AnyCovers acl c
    → (r : CiscoRule) → (r.prt ≡ acl.prt_ip → r.src_range ≡ none)
    → (permits_any acl r && r.dst == acl.network00) ≡ true
    → c r ≡ true
unfolding permits_any AnyCovers
covered_last acl c covers r bare e =
    let same_prt : r.prt ≡ acl.prt_ip = ground arith in
    covers r (ground arith) (ground arith) same_prt (bare same_prt)

last_permits-Decided :
    (acl : AclInfo) (c : CiscoRule → Bool)
    → AnyCovers acl c
    → (rs : List CiscoRule) → NoRange acl rs
    → last_permits acl rs ≡ true
    → Decided (first_match c rs)
unfolding last_permits NoRange
last_permits-Decided acl c covers [] bare e = cc
last_permits-Decided acl c covers (r ∷ []) bare e =
    rw (covered_last acl c covers r bare.0 e) (decision-Decided r)
last_permits-Decided acl c covers (r ∷ s ∷ rs) bare e = elim (Bool-cases (c r)) [
  | inl t ↦ rw t (decision-Decided r)
  | inr f ↦ rw f (last_permits-Decided acl c covers (s ∷ rs) bare.1 e)
]

last_covers :
    (acl : AclInfo) (c : CiscoRule → Bool)
    → AnyCovers acl c
    → (deny : Bool) → c (rule_ip_any acl deny acl.network00) ≡ true
unfolding AnyCovers
last_covers acl c covers deny = covers (rule_ip_any acl deny acl.network00) refl refl refl refl

last_added :
    (acl : AclInfo) (c : CiscoRule → Bool)
    → AnyCovers acl c
    → (deny permit : Bool)
    → first_match c (add_final_permit_deny_rule deny permit acl).rules
      ≡ or_else (first_match c acl.rules) (final_verdict deny permit)
unfolding add_final_permit_deny_rule
last_added acl c covers true permit =
    first_match-append c acl.rules (rule_ip_any acl true acl.network00 ∷ [])
    ∙ rw (last_covers acl c covers true) refl
last_added acl c covers false true =
    first_match-append c acl.rules (rule_ip_any acl false acl.network00 ∷ [])
    ∙ rw (last_covers acl c covers false) refl
last_added acl c covers false false = sym (or_else-unmatched (first_match c acl.rules))

last_permits-EndsInPermit :
    (acl : AclInfo) (rs : List CiscoRule) → last_permits acl rs ≡ true → EndsInPermit acl rs
unfolding last_permits permits_any EndsInPermit
last_permits-EndsInPermit acl [] e = cc
last_permits-EndsInPermit acl (r ∷ []) e =
    ([], r, refl, ground arith, ground arith, ground arith, ground arith)
last_permits-EndsInPermit acl (r ∷ s ∷ rs) e =
    let (before, last, same, deny, src, dst, prt) = last_permits-EndsInPermit acl (s ∷ rs) e in
    (r ∷ before, last, ap (λ (l : List CiscoRule). r ∷ l) same, deny, src, dst, prt)

permit_ends :
    (acl : AclInfo) (r : CiscoRule) (before : List CiscoRule)
    → r.deny ≡ false
    → r.src ≡ acl.network00
    → r.dst ≡ acl.network00
    → r.prt ≡ acl.prt_ip
    → last_permits acl (before ++ r ∷ []) ≡ true
unfolding last_permits permits_any
permit_ends acl r [] deny src dst prt = ground arith
permit_ends acl r (s ∷ []) deny src dst prt = ground arith
permit_ends acl r (s ∷ u ∷ before) deny src dst prt =
    permit_ends acl r (u ∷ before) deny src dst prt

EndsInPermit-last_permits :
    (acl : AclInfo) (rs : List CiscoRule) → EndsInPermit acl rs → last_permits acl rs ≡ true
unfolding EndsInPermit
EndsInPermit-last_permits acl rs (before, r, same, deny, src, dst, prt) =
    rw same (permit_ends acl r before deny src dst prt)

append_grows : (rs : List CiscoRule) (r : CiscoRule) → rs ++ r ∷ [] ≢ rs
append_grows [] r e = cc
append_grows (s ∷ rs) r e = append_grows rs r cc

grown :
    (acl : AclInfo) (add_deny add_permit : Bool)
    → (add_deny || add_permit) ≡ true
    → (add_final_permit_deny_rule add_deny add_permit acl).rules
      ≡ acl.rules ++ rule_ip_any acl add_deny acl.network00 ∷ []
unfolding add_final_permit_deny_rule
grown acl add_deny add_permit t = rw t refl

-- Without a final rule the list grows, if any rule is asked for.
unended :
    (acl : AclInfo) (add_deny add_permit : Bool)
    → (add_final_permit_deny_rule add_deny add_permit acl).rules ≡ acl.rules
    → (add_deny || add_permit) ≡ false
unended acl add_deny add_permit e = elim (Bool-cases (add_deny || add_permit)) [
  | inl t ↦ absurd (
      append_grows acl.rules (rule_ip_any acl add_deny acl.network00)
        (sym (grown acl add_deny add_permit t) ∙ e))
  | inr f ↦ f
]

add_final-or_else :
    (acl : AclInfo) (c : CiscoRule → Bool) (add_deny add_permit : Bool)
    → AnyCovers acl c
    → NoRange acl acl.rules
    → first_match c (add_final add_deny add_permit acl).rules
      ≡ or_else (first_match c acl.rules) (final_verdict add_deny add_permit)
unfolding add_final check_final_permit
add_final-or_else acl c add_deny add_permit covers bare =
    elim (Bool-cases (check_final_permit acl)) [
      | inl e ↦ rw e (
          sym (
            or_else-Decided (first_match c acl.rules) (final_verdict add_deny add_permit)
              (last_permits-Decided acl c covers acl.rules bare e)))
      | inr e ↦ rw e (last_added acl c covers add_deny add_permit)
    ]

final_added :
    (acl : AclInfo) (add_deny add_permit : Bool)
    → check_final_permit acl ≡ false
    → add_final add_deny add_permit acl ≡ add_final_permit_deny_rule add_deny add_permit acl
unfolding add_final
final_added acl add_deny add_permit e = rw e refl

left_alone :
    (acl : AclInfo) (add_deny add_permit : Bool)
    → (add_final add_deny add_permit acl).rules ≡ acl.rules
    → ((add_deny || add_permit) ≡ false) ⊎ EndsInPermit acl acl.rules
unfolding check_final_permit
left_alone acl add_deny add_permit same = elim (Bool-cases (check_final_permit acl)) [
  | inl e ↦ inr (last_permits-EndsInPermit acl acl.rules e)
  | inr e ↦ inl (
      unended acl add_deny add_permit
        (sym (ap (λ (a : AclInfo). a.rules) (final_added acl add_deny add_permit e)) ∙ same))
]

stays :
    (acl : AclInfo) (add_deny add_permit : Bool)
    → ((add_deny || add_permit) ≡ false) ⊎ EndsInPermit acl acl.rules
    → (add_final add_deny add_permit acl).rules ≡ acl.rules
unfolding add_final check_final_permit add_final_permit_deny_rule
stays acl add_deny add_permit (inl none_asked) = elim (Bool-cases (check_final_permit acl)) [
  | inl e ↦ rw e refl
  | inr e ↦ rw (e, none_asked) refl
]
stays acl add_deny add_permit (inr ends) = rw (EndsInPermit-last_permits acl acl.rules ends) refl

Decided-matched : (v : Verdict) → Decided v → v ≢ unmatched
Decided-matched _ by_deny e = cc
Decided-matched _ by_permit e = cc

-- A packet that the rules decide on meets the same verdict with the final rule added, and any other
-- packet is denied or permitted as the arguments ask; it stays unmatched only if neither is asked
-- for. The list is left as it is exactly if neither is asked for or it already ends in `permit ip any
-- any`, and a list with that end leaves no packet unmatched. This is for tests of packets that a rule
-- `ip any any` always passes, and for lists whose rules for all protocols name no source ports.
pub add_final-first_match :
    (acl : AclInfo) (c : CiscoRule → Bool) (add_deny add_permit : Bool)
    → AnyCovers acl c
    → NoRange acl acl.rules
    → (first_match c (add_final add_deny add_permit acl).rules
        ≡ or_else (first_match c acl.rules) (final_verdict add_deny add_permit))
      × ((add_final add_deny add_permit acl).rules ≡ acl.rules
          ↔ ((add_deny || add_permit) ≡ false) ⊎ EndsInPermit acl acl.rules)
      × (¬ (EndsInPermit acl acl.rules × (first_match c acl.rules ≡ unmatched)))
add_final-first_match acl c add_deny add_permit covers bare = (
  add_final-or_else acl c add_deny add_permit covers bare,
  (left_alone acl add_deny add_permit, stays acl add_deny add_permit),
  λ both.
      Decided-matched (first_match c acl.rules)
        (last_permits-Decided acl c covers acl.rules bare
          (EndsInPermit-last_permits acl acl.rules both.0))
        both.1,
)
