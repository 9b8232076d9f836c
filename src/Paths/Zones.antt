-- ===== src/Paths/Zones.antt =====
-- Zones of objects, and which zones are told apart.
use netspoc.Prelude.{
  ℕ, ◌≡◌, inl, inr, refl, sym, ap, ◌∙◌, Bool, true, false, not, ◌&&◌, ◌||◌, Option, none, some,
  List, [], ◌∷◌, ◌==◌, arith, Bool-cases, if◌then◌else◌,
}
use mathlib.Core.List.{Memᴰ}
use mathlib.Core.List.Memᴰ.{head}
use netspoc.Paths.{
  Topology, SomeObj, network, subnet, get_path_node, get_zone, same_first, zone_eq, intf_path_node,
  main_of, adjacent, aggregate_zero, same_aggregate, passed_over, reported,
}

-- The zones of a cluster share the list of its zones.
unfoldable pub Clusters : Topology → Type 0
Clusters t = (z w : ℕ) → Memᴰ w (t.zone_cluster z) → t.zone_cluster w ≡ t.zone_cluster z

-- A main interface is one of the same router.
unfoldable pub MainRouter : Topology → Type 0
MainRouter t = (i m : ℕ) → (t.intfs i).main_intf ≡ some m → (t.intfs m).router ≡ (t.intfs i).router

-- The zone that stands for a cluster: its first one, or the zone itself.
abbrev first_or : ℕ → List ℕ → ℕ
first_or z [] = z
first_or z (w ∷ ws) = w

abbrev pub leader : Topology → ℕ → ℕ
leader t z = first_or z (t.zone_cluster z)

-- The network whose zone a restricted interface leads to.
abbrev main_network : Topology → ℕ → Option ℕ → ℕ
main_network t i none = (t.intfs i).network
main_network t i (some m) = (t.intfs m).network

abbrev restricted : Topology → ℕ → Option ℕ → Bool
restricted t i none = (t.intfs i).path_restrict
restricted t i (some m) = (t.intfs m).path_restrict

-- A managed router has a zone of its own. A semi-managed one is in the zone of its first interface, but
-- an interface with a path restriction is in the zone of its network; so are all interfaces of
-- other routers.
intf_zone : Topology → ℕ → ℕ
intf_zone t i =
    let intf = t.intfs i in
    let r = t.routers intf.router in
    if r.managed
    then r.zone
    else if not r.semi_managed
    then (t.networks intf.network).zone
    else if restricted t i intf.main_intf
    then (t.networks (main_network t i intf.main_intf)).zone
    else r.first_zone

pub zone_of : Topology → SomeObj → ℕ
unfolding intf_zone
zone_of t (network n) = (t.networks n).zone
zone_of t (subnet s) = (t.networks (t.subnets s).network).zone
zone_of t (SomeObj.router_intf i) = intf_zone t i

-- The objects lie in different zones, where the zones of a cluster are one.
abbrev pub apart : Topology → SomeObj → SomeObj → Bool
apart t s d = not (leader t (zone_of t s) == leader t (zone_of t d))

-- Pairs inside one zone that are not worth a warning where the users of a service are coupled: the
-- same object, subnets of one network that follow each other, the aggregate of all addresses,
-- aggregates with the same addresses.
pub silent : Topology → SomeObj → SomeObj → Bool
silent t (subnet s) (subnet d) =
    s == d || (t.subnets s).network == (t.subnets d).network && adjacent (t.subnets s) (t.subnets d)
silent t (network s) (network d) =
    s == d
    || aggregate_zero t (network s)
    || aggregate_zero t (network d)
    || same_aggregate (t.networks s) (t.networks d)
silent t (SomeObj.router_intf s) (SomeObj.router_intf d) = s == d
silent t s d = aggregate_zero t s || aggregate_zero t d

pub reported-silent :
    (t : Topology) (coupling : Bool) (s d : SomeObj)
    → reported t coupling s d ≡ not (coupling && silent t s d)
unfolding silent reported passed_over aggregate_zero
reported-silent t false s d = refl
reported-silent t true (subnet s) (subnet d) = ground arith
reported-silent t true (subnet s) (network d) = ground arith
reported-silent t true (subnet s) (SomeObj.router_intf d) = ground arith
reported-silent t true (network s) (subnet d) = ground arith
reported-silent t true (network s) (network d) = ground arith
reported-silent t true (network s) (SomeObj.router_intf d) = ground arith
reported-silent t true (SomeObj.router_intf s) (subnet d) = ground arith
reported-silent t true (SomeObj.router_intf s) (network d) = ground arith
reported-silent t true (SomeObj.router_intf s) (SomeObj.router_intf d) = ground arith

module _ (t : Topology) where
  intf_zone_lem :
      MainRouter t
      → (i : ℕ) (o : Option ℕ) → (t.intfs i).main_intf ≡ o
      → get_zone t (intf_path_node t i) ≡ intf_zone t i
  unfolding MainRouter get_zone intf_path_node intf_zone main_of
  intf_zone_lem main i none e = rw e (ground arith)
  intf_zone_lem main i (some m) e = let same = main i m e in rw (e, same) (ground (arith, same))

  -- The zone of the path of an object is the zone of the object.
  pub get_zone-get_path_node :
      MainRouter t → (o : SomeObj) → get_zone t (get_path_node t o) ≡ zone_of t o
  unfolding get_path_node get_zone zone_of
  get_zone-get_path_node main (network n) = refl
  get_zone-get_path_node main (subnet s) = refl
  get_zone-get_path_node main (SomeObj.router_intf i) =
      intf_zone_lem main i (t.intfs i).main_intf refl

  head_has_cluster :
      Clusters t → (z h : ℕ) (c : List ℕ) → t.zone_cluster z ≡ h ∷ c → t.zone_cluster h ≡ h ∷ c
  unfolding Clusters
  head_has_cluster clusters z h c e = clusters z h (rw e (head refl)) ∙ e

  first_eq :
      Clusters t
      → (a b : ℕ) (c d : List ℕ) → t.zone_cluster a ≡ c
      → t.zone_cluster b ≡ d
      → (a == b) ≡ false
      → same_first c d ≡ (first_or a c == first_or b d)
  unfolding same_first
  first_eq clusters a b [] [] ea eb ne = sym ne
  first_eq clusters a b [] (h ∷ d) ea eb ne = elim (Bool-cases (a == h)) [
    | inl e ↦
        let same : a ≡ h = ground arith in
        absurd (cc (ap t.zone_cluster same, ea, head_has_cluster clusters b h d eb))
    | inr e ↦ sym e
  ]
  first_eq clusters a b (h ∷ c) [] ea eb ne = elim (Bool-cases (h == b)) [
    | inl e ↦
        let same : h ≡ b = ground arith in
        absurd (cc (ap t.zone_cluster same, eb, head_has_cluster clusters a h c ea))
    | inr e ↦ sym e
  ]
  first_eq clusters a b (h ∷ c) (k ∷ d) ea eb ne = refl

  -- Zones are equal for `zoneEq` if their clusters have the same zone to stand for them.
  pub zone_eq-leader : Clusters t → (a b : ℕ) → zone_eq t a b ≡ (leader t a == leader t b)
  unfolding zone_eq
  zone_eq-leader clusters a b = elim (Bool-cases (a == b)) [
    | inl e ↦ let same : a ≡ b = ground arith in rw (e, same) (ground arith)
    | inr e ↦ rw e (first_eq clusters a b (t.zone_cluster a) (t.zone_cluster b) refl refl e)
  ]
