-- ===== src/Secondary/Conflict.antt =====
-- go/pkg/pass1/mark-secondary-rules.go: `getNetworks` and `collectConflict`. Rules and networks are
-- numbers.
pub mod Collected
pub mod Side
pub mod Noted
use netspoc.Prelude.{
  ℕ, zero, suc, Bool, true, false, not, ◌&&◌, ◌||◌, Option, none, some, List, [], ◌∷◌, ◌++◌,
  if◌then◌else◌, ◌==◌, ℕ_discrete,
}
use netspoc.Prelude.Assoc.{lookup, alter}

-- `someObj`: a subnet or an interface with its network, or a network.
pub data ConflictObj : Type 0 where
  of_network : ℕ → ConflictObj
  of_subnet : ℕ → ConflictObj
  of_interface : ℕ → ConflictObj

pub record ConflictKey : Type 0 where
  pub is_src : Bool
  pub is_primary : Bool
  pub mark : ℕ
  pub net : ℕ

-- `conflictInfo`; the keys of `supernets` are given.
pub record ConflictInfo : Type 0 where
  pub supernets : List ℕ
  pub rules : List ℕ

abbrev pub ConflictMap : Type 0
ConflictMap = List (ConflictKey × ConflictInfo)

-- What of a rule is read: its protocols give `established` of each.
pub record PathRuleInfo : Type 0 where
  pub no_check_supernet_rules : Bool
  pub established : List Bool
  pub src : List ConflictObj
  pub dst : List ConflictObj

-- What of a zone is read, for the kind of marks.
pub record ZoneInfo : Type 0 where
  pub has_filter : Bool
  pub mark : ℕ

pub ConflictKey-discrete : Discrete ConflictKey
ConflictKey-discrete = hlevel ℕ_discrete

abbrev pub net_of : ConflictObj → ℕ
net_of (of_network n) = n
net_of (of_subnet n) = n
net_of (of_interface n) = n

abbrev pub is_seen_net : ℕ → List ℕ → Bool
is_seen_net n [] = false
is_seen_net n (m ∷ ms) = m == n || is_seen_net n ms

-- `getNetworks`; `seen` has the networks that are in the result.
unfoldable pub get_networks : List ℕ → List ConflictObj → List ℕ
get_networks seen [] = []
get_networks seen (o ∷ os) = elim (is_seen_net (net_of o) seen) [
  | true ↦ get_networks seen os
  | false ↦ net_of o ∷ get_networks (net_of o ∷ seen) os
]

abbrev pub all_established : List Bool → Bool
all_established [] = true
all_established (e ∷ es) = e && all_established es

-- A network with `hasOtherSubnet`.
abbrev pub supernet_of : (ℕ → Bool) → ConflictObj → Option ℕ
supernet_of other (of_network n) = if other n then some n else none
supernet_of other (of_subnet n) = none
supernet_of other (of_interface n) = none

abbrev pub add_supernet : Bool → ℕ → ConflictInfo → ConflictInfo
add_supernet established n i = if established then i else record i { supernets = n ∷ i.supernets }

abbrev pub add_rule : ℕ → ConflictInfo → ConflictInfo
add_rule r i = record i { rules = i.rules ++ r ∷ [] }

-- The loop over the objects, with the variable `pushed`.
unfoldable pub over_objects :
    (ℕ → Bool) → Bool → ℕ → List ConflictObj → ConflictInfo → Bool → ConflictInfo × Bool
over_objects other established r [] i pushed = (i, pushed)
over_objects other established r (o ∷ os) i pushed = elim (supernet_of other o) [
  | some n ↦ over_objects other established r os (add_supernet established n i) pushed
  | none ↦ elim pushed [
    | true ↦ over_objects other established r os i true
    | false ↦ over_objects other established r os (add_rule r i) true
  ]
]

abbrev pub info_or_new : Option ConflictInfo → ConflictInfo
info_or_new none = record { supernets = []; rules = [] }
info_or_new (some i) = i

-- The loop over the other networks. `key` is the key without its network.
unfoldable pub over_networks :
    (ℕ → Bool)
    → Bool
    → ℕ
    → List ConflictObj
    → (ℕ → ConflictKey)
    → List ℕ
    → Bool
    → ConflictMap
    → ConflictMap
unfolding over_objects ConflictKey-discrete
over_networks other established r objs key [] pushed m = m
over_networks other established r objs key (n ∷ ns) pushed m =
    let (i, pushed') =
      over_objects other established r objs (info_or_new (lookup ConflictKey-discrete (key n) m))
        pushed in
    over_networks other established r objs key ns pushed'
      (alter ConflictKey-discrete (key n) (λ o. i) m)

-- `collect`
unfoldable pub collect_side :
    (ℕ → Bool)
    → Bool
    → ℕ
    → List ConflictObj
    → List ConflictObj
    → ZoneInfo
    → Bool
    → Bool
    → ConflictMap
    → ConflictMap
unfolding over_networks get_networks
collect_side other established r objs other_objs z is_src is_primary m = elim z.has_filter [
  | false ↦ m
  | true ↦
      over_networks other established r objs
        (λ n. record { is_src = is_src; is_primary = is_primary; mark = z.mark; net = n })
        (get_networks [] other_objs) false m
]

-- `collectConflict`
unfoldable pub collect_conflict :
    (ℕ → Bool) → (ℕ → PathRuleInfo) → ℕ → ZoneInfo → ZoneInfo → Bool → ConflictMap → ConflictMap
unfolding collect_side
collect_conflict other rule r z1 z2 is_primary m = elim (rule r).no_check_supernet_rules [
  | true ↦ m
  | false ↦
      let established = all_established (rule r).established in
      collect_side other established r (rule r).dst (rule r).src z2 false is_primary
        (collect_side other established r (rule r).src (rule r).dst z1 true is_primary m)
]
