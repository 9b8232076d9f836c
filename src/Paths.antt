-- ===== src/Paths.antt =====
-- go/pkg/pass1/group-path-rules.go, with `getPathNode` of path-walk.go and `getZone` and `zoneEq` of
-- check-supernet.go: rules are split by the paths of their elements, and those inside one zone are
-- taken out. Objects are pointers into the stores of `Topology`. Addresses and masks are their bytes.
pub mod PrevIp
pub mod Split
pub mod Enforce
pub mod Zones
pub mod Pairs
pub mod Apart
use Prim.Native.Nat.{bit_and}
use mathlib.Core.List.{reverse}
use netspoc.Prelude.{
  ℕ, ◌+◌, ◌%◌, Bool, true, false, not, ◌&&◌, ◌||◌, Option, none, some, List, [], ◌∷◌, ◌++◌,
  if◌then◌else◌, ltb, ◌==◌, any, select,
}
use netspoc.Prelude.Bytes.{Bytes, bytes_eq, bytes_less}

pub record Network : Type 0 where
  pub zone : ℕ
  pub is_aggregate : Bool
  pub ip : Bytes
  pub mask : Bytes

pub record Subnet : Type 0 where
  pub network : ℕ
  pub ip : Bytes
  pub mask : Bytes

-- `managed` is whether the attribute is set; `first_zone` is `interfaces[0].network.zone`.
pub record Router : Type 0 where
  pub managed : Bool
  pub semi_managed : Bool
  pub zone : ℕ
  pub first_zone : ℕ

pub record RouterIntf : Type 0 where
  pub router : ℕ
  pub network : ℕ
  pub main_intf : Option ℕ
  pub path_restrict : Bool

pub data SomeObj : Type 0 where
  network : ℕ → SomeObj
  subnet : ℕ → SomeObj
  router_intf : ℕ → SomeObj

pub data PathStore : Type 0 where
  zone : ℕ → PathStore
  router : ℕ → PathStore
  router_intf : ℕ → PathStore

-- `zone_cluster` gives the zones of the cluster of a zone.
pub record Topology : Type 0 where
  pub networks : ℕ → Network
  pub subnets : ℕ → Subnet
  pub routers : ℕ → Router
  pub intfs : ℕ → RouterIntf
  pub zone_cluster : ℕ → List ℕ

main_of : ℕ → Option ℕ → ℕ
main_of i none = i
main_of i (some m) = m

intf_path_node : Topology → ℕ → PathStore
unfolding main_of
intf_path_node t i =
    let intf = t.intfs i in
    let r = t.routers intf.router in
    let main = main_of i intf.main_intf in
    if r.managed || r.semi_managed
    then (if (t.intfs main).path_restrict
        then PathStore.router_intf main
        else router (t.intfs main).router)
    else zone (t.networks intf.network).zone

unfoldable pub get_path_node : Topology → SomeObj → PathStore
unfolding intf_path_node
get_path_node t (network n) = zone (t.networks n).zone
get_path_node t (subnet s) = zone (t.networks (t.subnets s).network).zone
get_path_node t (SomeObj.router_intf i) = intf_path_node t i

pub get_zone : Topology → PathStore → ℕ
get_zone t (zone z) = z
get_zone t (router r) =
    if (t.routers r).managed then (t.routers r).zone else (t.routers r).first_zone
get_zone t (PathStore.router_intf i) =
    let intf = t.intfs i in
    let r = t.routers intf.router in if r.managed then r.zone else (t.networks intf.network).zone

same_first : List ℕ → List ℕ → Bool
same_first [] c = false
same_first (a ∷ c) [] = false
same_first (a ∷ c) (b ∷ d) = a == b

pub zone_eq : Topology → ℕ → ℕ → Bool
unfolding same_first
zone_eq t z1 z2 = if z1 == z2 then true else same_first (t.zone_cluster z1) (t.zone_cluster z2)

abbrev pub path_eq : PathStore → PathStore → Bool
path_eq (zone a) (zone b) = a == b
path_eq (router a) (router b) = a == b
path_eq (PathStore.router_intf a) (PathStore.router_intf b) = a == b
path_eq _ _ = false

abbrev pub obj_eq : SomeObj → SomeObj → Bool
obj_eq (network a) (network b) = a == b
obj_eq (subnet a) (subnet b) = a == b
obj_eq (SomeObj.router_intf a) (SomeObj.router_intf b) = a == b
obj_eq _ _ = false

-- `serviceRule` with what is read of its service: `coupling` is `hasUser == "both"`.
pub record ServiceRule : Type 0 where
  pub deny : Bool
  pub prt : List ℕ
  pub service : ℕ
  pub coupling : Bool

-- `groupedRule`
pub record PathRule : Type 0 where
  pub service_rule : ServiceRule
  pub src : List SomeObj
  pub dst : List SomeObj
  pub src_path : PathStore
  pub dst_path : PathStore

-- `path2group` with `pathList`
pub add_path :
    PathStore → SomeObj → List (PathStore × List SomeObj) → List (PathStore × List SomeObj)
add_path p o [] = (p, o ∷ []) ∷ []
add_path p o ((q, os) ∷ g) =
    let rest = add_path p o g in if path_eq q p then (q, os ++ o ∷ []) ∷ g else (q, os) ∷ rest

pub group_paths :
    Topology → List SomeObj → List (PathStore × List SomeObj) → List (PathStore × List SomeObj)
unfolding add_path
group_paths t [] g = g
group_paths t (o ∷ os) g = group_paths t os (add_path (get_path_node t o) o g)

pub split_rule_group : Topology → List SomeObj → List (PathStore × List SomeObj)
unfolding group_paths
split_rule_group t [] = []
split_rule_group t (o ∷ os) =
    if any (λ el. not (path_eq (get_path_node t o) (get_path_node t el))) os
    then group_paths t (o ∷ os) []
    else (get_path_node t o, o ∷ os) ∷ []

-- The inner loops of `splitRulesByPath`.
pub pair_dst :
    ServiceRule → PathStore × List SomeObj → List (PathStore × List SomeObj) → List PathRule
pair_dst sr s [] = []
pair_dst sr s (d ∷ ds) =
    record { service_rule = sr; src_path = s.0; dst_path = d.0; src = s.1; dst = d.1 }
    ∷ pair_dst sr s ds

pub pair_src :
    ServiceRule → List (PathStore × List SomeObj) → List (PathStore × List SomeObj) → List PathRule
unfolding pair_dst
pair_src sr [] ds = []
pair_src sr (s ∷ ss) ds = pair_dst sr s ds ++ pair_src sr ss ds

unfoldable pub split_rules_by_path : Topology → List PathRule → List PathRule
unfolding pair_src split_rule_group
split_rules_by_path t [] = []
split_rules_by_path t (r ∷ rs) =
    pair_src r.service_rule (split_rule_group t r.src) (split_rule_group t r.dst)
    ++ split_rules_by_path t rs

-- The loop of `prevIP`, from the last byte on.
prev_from_last : Bytes → Bytes
prev_from_last [] = []
prev_from_last (b ∷ bs) =
    let rest = prev_from_last bs in (b + 255) % 256 ∷ (if not (b == 255) then bs else rest)

unfoldable pub prev_ip : Bytes → Bytes
unfolding prev_from_last
prev_ip ip = reverse (prev_from_last (reverse ip))

-- `Contains` of Go's `net.IPNet`
abbrev pub contains : Bytes → Bytes → Bytes → Bool
contains (n ∷ ns) (m ∷ ms) (i ∷ is) = bit_and n m == bit_and i m && contains ns ms is
contains [] [] [] = true
contains _ _ _ = false

-- Whether the later one of two subnets begins behind the other one.
adjacent : Subnet → Subnet → Bool
unfolding prev_ip
adjacent s d =
    if bytes_less s.ip d.ip
    then contains s.ip s.mask (prev_ip d.ip)
    else contains d.ip d.mask (prev_ip s.ip)

-- `size, _ := mask.Size(); size == 0`, for a mask of a prefix.
size_zero : Bytes → Bool
size_zero mask = not (any (λ b. not (b == 0)) mask)

aggregate_zero : Topology → SomeObj → Bool
unfolding size_zero
aggregate_zero t (network n) = (t.networks n).is_aggregate && size_zero (t.networks n).mask
aggregate_zero t _ = false

same_aggregate : Network → Network → Bool
same_aggregate s d =
    s.is_aggregate && d.is_aggregate && bytes_eq s.ip d.ip && bytes_eq s.mask d.mask

-- The `switch` over the source, in a rule that couples its users: is the pair passed over?
passed_over : Topology → SomeObj → SomeObj → Bool
unfolding adjacent aggregate_zero same_aggregate
passed_over t (subnet s) (subnet d) =
    (t.subnets s).network == (t.subnets d).network && adjacent (t.subnets s) (t.subnets d)
passed_over t (network s) (network d) =
    aggregate_zero t (network s) || same_aggregate (t.networks s) (t.networks d)
passed_over t (network s) d = aggregate_zero t (network s)
passed_over t _ _ = false

-- The pair is stored in `seenUnenforceable`.
pub reported : Topology → Bool → SomeObj → SomeObj → Bool
unfolding passed_over
reported t false src dst = true
reported t true src dst =
    if obj_eq src dst
    then false
    else if passed_over t src dst
    then false
    else not (aggregate_zero t dst)

-- What these functions change of a service.
pub record Service : Type 0 where
  pub seen_enforceable : Bool
  pub silent_unenforceable : Bool
  pub seen_unenforceable : List (SomeObj × SomeObj)

pub collect_dst :
    Topology → Bool → SomeObj → List SomeObj → List (SomeObj × SomeObj) → List (SomeObj × SomeObj)
unfolding reported
collect_dst t coupling src [] seen = seen
collect_dst t coupling src (d ∷ ds) seen =
    collect_dst t coupling src ds (if reported t coupling src d then (src, d) ∷ seen else seen)

pub collect_src :
    Topology
    → Bool
    → List SomeObj
    → List SomeObj
    → List (SomeObj × SomeObj)
    → List (SomeObj × SomeObj)
unfolding collect_dst
collect_src t coupling [] ds seen = seen
collect_src t coupling (s ∷ ss) ds seen =
    collect_src t coupling ss ds (collect_dst t coupling s ds seen)

pub collect_unenforceable : Topology → PathRule → (ℕ → Service) → ℕ → Service
unfolding collect_src
collect_unenforceable t r services x =
    let old = services x in
    if r.service_rule.service == x
    then record old {
      silent_unenforceable = true;
      seen_unenforceable = collect_src t r.service_rule.coupling r.src r.dst old.seen_unenforceable;
    }
    else old

pub set_enforceable : ℕ → (ℕ → Service) → ℕ → Service
set_enforceable s services x =
    if s == x then record (services x) { seen_enforceable = true } else services x

pub unenforceable : Topology → PathRule → Bool
unfolding get_zone zone_eq
unenforceable t r = zone_eq t (get_zone t r.src_path) (get_zone t r.dst_path)

-- The rules that stay, and the services.
unfoldable pub remove_unenforceable_rules :
    Topology → List PathRule → (ℕ → Service) → List PathRule × (ℕ → Service)
unfolding unenforceable collect_unenforceable set_enforceable
remove_unenforceable_rules t [] services = ([], services)
remove_unenforceable_rules t (r ∷ rs) services =
    let bad = unenforceable t r in
    let (rest, services') = remove_unenforceable_rules t rs (
      if bad
      then collect_unenforceable t r services
      else set_enforceable r.service_rule.service services) in
    (if bad then rest else r ∷ rest, services')

-- The closure `process` of `groupPathRules`.
unfoldable pub group_path_rules :
    Topology → List PathRule → (ℕ → Service) → List PathRule × (ℕ → Service)
unfolding split_rules_by_path remove_unenforceable_rules
group_path_rules t rules services =
    remove_unenforceable_rules t (split_rules_by_path t rules) services
