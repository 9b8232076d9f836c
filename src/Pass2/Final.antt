-- ===== src/Pass2/Final.antt =====
-- go/cmd/spoc2/main.go: `moveRulesEspAh`, `addProtectRules`, `checkFinalPermit` and
-- `addFinalPermitDenyRule`. From here on no rule is changed any more: lists hold the rules
-- themselves.
pub mod Match
pub mod Moved
pub mod Ended
pub mod Protected
use netspoc.Prelude.{
  ℕ, ◌-◌, Bool, true, false, not, ◌&&◌, ◌||◌, Option, none, some, select, List, [], ◌∷◌, ◌++◌, any,
  if◌then◌else◌, ltb, ◌==◌,
}
use netspoc.Prelude.Bytes.{bytes_less}
use netspoc.Prelude.Sort.{SortSlice}
use netspoc.Pass2.Rules.{IpNet, CiscoRule, Objects, has_log}

-- The closure `cmpAddr`, as a test for -1.
addr_less : IpNet → IpNet → Bool
addr_less a b = if a.ip == b.ip then ltb a.prefix b.prefix else ltb a.ip b.ip

-- The order of the crypto rules.
crypto_less : Objects → CiscoRule → CiscoRule → Bool
unfolding addr_less
crypto_less h a b =
    if bytes_less (h.prt a.prt).protocol (h.prt b.prt).protocol
    then true
    else if bytes_less (h.prt b.prt).protocol (h.prt a.prt).protocol
    then false
    else if addr_less (h.net a.src) (h.net b.src)
    then true
    else if addr_less (h.net b.src) (h.net a.src)
    then false
    else addr_less (h.net a.dst) (h.net b.dst)

is_prt : Option ℕ → ℕ → Bool
is_prt none p = false
is_prt (some q) p = q == p

-- The second branch of the loop over the rules.
goes_first : Option ℕ → Option ℕ → CiscoRule → Bool
unfolding is_prt
goes_first prt_esp prt_ah r = is_prt prt_esp r.prt || is_prt prt_ah r.prt || has_log r

in_class : Option ℕ → Option ℕ → Bool → CiscoRule → Bool
unfolding goes_first
in_class prt_esp prt_ah true r = not r.deny && goes_first prt_esp prt_ah r
in_class prt_esp prt_ah false r = not r.deny && not (goes_first prt_esp prt_ah r)

unfoldable pub move_rules_esp_ah :
    SortSlice CiscoRule → Objects → Option ℕ → Option ℕ → Bool → List CiscoRule → List CiscoRule
unfolding in_class crypto_less
move_rules_esp_ah slices h none none false rules = rules
move_rules_esp_ah slices h prt_esp prt_ah log rules =
    select (λ (r : CiscoRule). r.deny) rules
    ++ (slices.sort (crypto_less h) (select (in_class prt_esp prt_ah true) rules)
        ++ select (in_class prt_esp prt_ah false) rules)

-- What `aclInfo` holds of rules and of the objects that these functions need.
pub record AclInfo : Type 0 where
  pub intf_rules : List CiscoRule
  pub rules : List CiscoRule
  pub need_protect : List ℕ
  pub network00 : ℕ
  pub prt_ip : ℕ

-- `deny ip any intf` and the like
abbrev pub rule_ip_any : AclInfo → Bool → ℕ → CiscoRule
rule_ip_any acl deny dst = record {
  deny = deny;
  src = acl.network00;
  dst = dst;
  prt = acl.prt_ip;
  src_range = none;
  log = "";
  deleted = false;
  opt_secondary = false;
}

-- `permit ip any …`
permits_any : AclInfo → CiscoRule → Bool
permits_any acl r = not r.deny && r.src == acl.network00 && r.prt == acl.prt_ip

last_permits : AclInfo → List CiscoRule → Bool
unfolding permits_any
last_permits acl [] = false
last_permits acl (r ∷ []) = permits_any acl r && r.dst == acl.network00
last_permits acl (r ∷ s ∷ rs) = last_permits acl (s ∷ rs)

unfoldable pub check_final_permit : AclInfo → Bool
unfolding last_permits
check_final_permit acl = last_permits acl acl.rules

unfoldable pub add_final_permit_deny_rule : Bool → Bool → AclInfo → AclInfo
add_final_permit_deny_rule add_deny add_permit acl =
    if add_deny || add_permit
    then record acl { rules = acl.rules ++ rule_ip_any acl add_deny acl.network00 ∷ [] }
    else acl

-- `else if !hasFinalPermit { addFinalPermitDenyRule(…) }` of `prepareACLs`
unfoldable pub add_final : Bool → Bool → AclInfo → AclInfo
unfolding check_final_permit add_final_permit_deny_rule
add_final add_deny add_permit acl =
    if not (check_final_permit acl) then add_final_permit_deny_rule add_deny add_permit acl else acl

-- The map `noProtect`
no_protect : Objects → AclInfo → ℕ → Bool
unfolding permits_any
no_protect h acl intf =
    any (λ (r : CiscoRule). permits_any acl r && (h.net r.dst).need_protect && r.dst == intf)
      acl.intf_rules

-- The map `protectMap`
marked : Objects → ℕ → CiscoRule → Bool
marked h intf r =
    not r.deny
    && not (h.prt r.prt).established
    && any (λ i. i == intf) (h.net r.dst).is_supernet_of_need_protect

protect_map : Objects → AclInfo → ℕ → Bool
unfolding marked
protect_map h acl intf = any (marked h intf) acl.rules

-- The loop that pushes a deny rule for each interface.
deny_rules : Objects → AclInfo → Bool → List ℕ → List CiscoRule
unfolding no_protect protect_map
deny_rules h acl has_final_permit [] = []
deny_rules h acl has_final_permit (intf ∷ intfs) =
    let rest = deny_rules h acl has_final_permit intfs in
    if no_protect h acl intf || not (protect_map h acl intf) && not has_final_permit
    then rest
    else rule_ip_any acl true intf ∷ rest

-- The rules of interfaces that stay.
left_rules : AclInfo → Bool → List CiscoRule
unfolding permits_any
left_rules acl has_final_permit =
    if has_final_permit
    then select (λ r. not (permits_any acl r)) acl.intf_rules
    else acl.intf_rules

unfoldable pub add_protect_rules : Objects → Bool → AclInfo → AclInfo
unfolding deny_rules left_rules
add_protect_rules h has_final_permit acl =
    let added = deny_rules h acl has_final_permit acl.need_protect in
    elim acl.need_protect [
      | [] ↦ acl
      | _ ↦ record acl { intf_rules = left_rules acl has_final_permit ++ added }
    ]
