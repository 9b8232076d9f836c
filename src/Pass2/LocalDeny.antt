-- ===== src/Pass2/LocalDeny.antt =====
-- go/cmd/spoc2/main.go: `createGroup` and `addLocalDenyRules`, for devices that filter only locally.
pub mod Denied
use netspoc.Prelude.{
  ℕ, suc, ◌+◌, ◌≤◌, ◌<◌, ◌≡◌, ◌≢◌, ◌⊎◌, inl, inr, refl, sym, ap, ◌∙◌, subst, Bool, true, false,
  ◌&&◌, ◌||◌, Option, none, some, List, [], ◌∷◌, ◌++◌, if◌then◌else◌, ◌==◌, ==_iff, ==_refl, arith,
  Bool-cases, Option-cases, All, any, any-append,
}
use netspoc.Prelude.Bytes.{Bytes, codes, itoa}
use netspoc.Pass2.Rules.{CiscoRule}

-- `objGroup`
pub record ObjGroup : Type 0 where
  pub name : Bytes
  pub elements : List ℕ
  pub ref : ℕ

-- What of `routerData` is used here. Pointers below `next` are in use.
pub record RouterData : Type 0 where
  pub ipv6 : Bool
  pub filter_only_group : Option ℕ
  pub do_objectgroup : Bool
  pub obj_group_counter : ℕ
  pub next : ℕ

-- What of `aclInfo` is used here. `object_groups` has the groups of all access lists, the newest first.
pub record LocalAcl : Type 0 where
  pub network00 : ℕ
  pub prt_ip : ℕ
  pub filter_only : List ℕ
  pub filter_any_src : Bool
  pub object_groups : List ObjGroup

-- The name of a group: a letter and its number.
unfoldable pub group_name : Bool → ℕ → Bytes
group_name true n = codes "v6g" ++ itoa n
group_name false n = codes "g" ++ itoa n

-- `createGroup`: the pointer to the group, and what has changed
unfoldable pub create_group : List ℕ → LocalAcl → RouterData → ℕ × LocalAcl × RouterData
unfolding group_name
create_group elements acl r = (
  r.next,
  record acl {
    object_groups =
        record { name = group_name r.ipv6 r.obj_group_counter; elements = elements; ref = r.next }
        ∷ acl.object_groups;
  },
  record r { obj_group_counter = suc r.obj_group_counter; next = suc r.next },
)

-- The group of all interfaces, or a new one that becomes it.
known_group : List ℕ → LocalAcl → RouterData → Option ℕ → ℕ × LocalAcl × RouterData
unfolding create_group
known_group objs acl r (some g) = (g, acl, r)
known_group objs acl r none =
    let (g, acl', r') = create_group objs acl r in
    (g, acl', record r' { filter_only_group = some g })

-- `groupOrSingle`
pub group_or_single : List ℕ → LocalAcl → RouterData → ℕ × LocalAcl × RouterData
unfolding known_group
group_or_single [] acl r = known_group [] acl r r.filter_only_group
group_or_single (o ∷ []) acl r = (o, acl, r)
group_or_single (o ∷ (o' ∷ os)) acl r = known_group (o ∷ (o' ∷ os)) acl r r.filter_only_group

-- A pushed rule
ip_rule : LocalAcl → Bool → ℕ → ℕ → CiscoRule
ip_rule acl deny src dst = record {
  deny = deny;
  src = src;
  dst = dst;
  prt = acl.prt_ip;
  src_range = none;
  log = "";
  deleted = false;
  opt_secondary = false;
}

deny_each_dst : LocalAcl → ℕ → List ℕ → List CiscoRule
unfolding ip_rule
deny_each_dst acl src [] = []
deny_each_dst acl src (dst ∷ ds) = ip_rule acl true src dst ∷ deny_each_dst acl src ds

-- The loops over sources and destinations
deny_each : LocalAcl → List ℕ → List ℕ → List CiscoRule
unfolding deny_each_dst
deny_each acl [] ds = []
deny_each acl (src ∷ ss) ds = deny_each_dst acl src ds ++ deny_each acl ss ds

pub src_networks : LocalAcl → List ℕ
src_networks acl = if acl.filter_any_src then acl.network00 ∷ [] else acl.filter_only

deny_groups : LocalAcl → RouterData → List CiscoRule × LocalAcl × RouterData
unfolding group_or_single ip_rule src_networks
deny_groups acl r =
    let (src, acl1, r1) = group_or_single (src_networks acl) acl r in
    let (dst, acl2, r2) = group_or_single acl.filter_only acl1 r1 in
    (ip_rule acl true src dst ∷ [], acl2, r2)

-- The last rule permits the rest.
with_permit :
    LocalAcl → List CiscoRule × LocalAcl × RouterData → List CiscoRule × LocalAcl × RouterData
unfolding ip_rule
with_permit acl (denied, acl', r') =
    (denied ++ ip_rule acl false acl.network00 acl.network00 ∷ [], acl', r')

-- `addLocalDenyRules`: the rules that are pushed, and what has changed
unfoldable pub add_local_deny_rules : LocalAcl → RouterData → List CiscoRule × LocalAcl × RouterData
unfolding deny_groups deny_each src_networks with_permit
add_local_deny_rules acl r = with_permit acl (
    if r.do_objectgroup
    then deny_groups acl r
    else (deny_each acl (src_networks acl) acl.filter_only, acl, r))
