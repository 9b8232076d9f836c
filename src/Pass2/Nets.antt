-- ===== src/Pass2/Nets.antt =====
-- go/cmd/spoc2/main.go: `setupIPNetRelation`, `createIPObj`, `getIPObj` and `getNet00Addr`. A network is
-- a pointer into a store. A mask is the length of its prefix, which orders masks as their bytes do.
pub mod Maps
pub mod Above
pub mod Opt
pub mod Smallest
use netspoc.Prelude.{
  ℕ, zero, suc, ◌+◌, ◌-◌, ◌*◌, ◌/◌, ◌^◌, Bool, Option, none, some, List, [], ◌∷◌, ◌++◌,
  if◌then◌else◌, ltb, ◌==◌, map, ℕ_discrete,
}
use netspoc.Prelude.Bytes.{Bytes, codes, itoa}
use netspoc.Prelude.Assoc.{lookup, alter}
use netspoc.Prelude.Sort.{SortSlice}
use netspoc.Pass2.Rules.{IpNet, update}
use netspoc.Pass2.Protocol.{find_name}

-- `ip.Mask(mask)`
abbrev pub masked : ℕ → ℕ → ℕ → ℕ
masked bits ip prefix = ip / 2 ^ (bits - prefix) * 2 ^ (bits - prefix)

-- `ipNet2obj` with the store that its pointers lead to. Pointers below `next` are in use.
pub record IpNets : Type 0 where
  pub net : ℕ → IpNet
  pub names : List (Bytes × ℕ)
  pub next : ℕ

-- Go's `net.ParseCIDR` and the text of an address.
pub record NetLib : Type 0 where
  pub parse_cidr : Bytes → Option (ℕ × ℕ × ℕ)
  pub ip_string : ℕ → ℕ → Bytes

unfoldable pub new_net : Bytes → ℕ × ℕ × ℕ → IpNet
new_net name (ip, prefix, bits) = record {
  ip = ip;
  prefix = prefix;
  bits = bits;
  opt_networks = none;
  no_opt_addrs = Bool.false;
  need_protect = Bool.false;
  name = name;
  up = none;
  is_supernet_of_need_protect = [];
}

-- `createIPObj`; `none` is the end of the program with an error.
unfoldable pub create_ip_obj : NetLib → Bytes → Option IpNet
unfolding new_net
create_ip_obj lib name = elim (lib.parse_cidr name) [ none ↦ none | some n ↦ some (new_net name n) ]

-- `ipNet2obj[name] = obj`
unfoldable pub add_net : Bytes → IpNet → IpNets → IpNets
add_net name n s = record {
  net = update s.net s.next n;
  names = (name, s.next) ∷ s.names;
  next = suc s.next;
}

-- `getIPObj`
unfoldable pub get_ip_obj : NetLib → ℕ × ℕ × ℕ → IpNets → ℕ × IpNets
unfolding add_net new_net
get_ip_obj lib (ip, prefix, bits) s =
    let name = lib.ip_string bits ip ++ b'/' ∷ itoa prefix in
    elim (find_name name s.names) [
      | none ↦ (s.next, add_net name (new_net name (ip, prefix, bits)) s)
      | some p ↦ (p, s)
    ]

pub get_net00_addr : Bool → Bytes
get_net00_addr Bool.true = codes "::/0"
get_net00_addr Bool.false = codes "0.0.0.0/0"

-- The map has the network of all addresses.
pub with_net00 : NetLib → Bool → IpNets → Option IpNets
unfolding create_ip_obj add_net get_net00_addr
with_net00 lib ipv6 s =
    let net00 = get_net00_addr ipv6 in
    elim (find_name net00 s.names) [
      | some _ ↦ some s
      | none ↦ elim (create_ip_obj lib net00) [ none ↦ none | some n ↦ some (add_net net00 n s) ]
    ]

-- `maskIPMap`: for each mask the networks by address
abbrev pub MaskIpMap : Type 0
MaskIpMap = List (ℕ × List (ℕ × ℕ))

abbrev pub ip_map : Option (List (ℕ × ℕ)) → List (ℕ × ℕ)
ip_map none = []
ip_map (some m) = m

-- `ipMap[ip] = network`
abbrev pub put_ip : ℕ → ℕ → List (ℕ × ℕ) → List (ℕ × ℕ)
put_ip ip n m = alter ℕ_discrete ip (λ o. n) m

abbrev pub put_net : IpNet → ℕ → MaskIpMap → MaskIpMap
put_net n p m = alter ℕ_discrete n.prefix (λ o. put_ip n.ip p (ip_map o)) m

-- The loop over the networks of the map.
pub collect_networks : (ℕ → IpNet) → List ℕ → MaskIpMap → MaskIpMap
collect_networks net [] m = m
collect_networks net (p ∷ ps) m = collect_networks net ps (put_net (net p) p m)

-- `maskIPMap[mask][ip]`
abbrev pub net_at : MaskIpMap → ℕ → ℕ → Option ℕ
net_at m mask ip = lookup ℕ_discrete ip (ip_map (lookup ℕ_discrete mask m))

-- The loop over the upper masks.
pub find_up : MaskIpMap → ℕ → ℕ → List ℕ → Option ℕ
find_up m bits ip [] = none
find_up m bits ip (u ∷ us) = elim (net_at m u (masked bits ip u)) [
  | some bignet ↦ some bignet
  | none ↦ find_up m bits ip us
]

-- `subnet.up = bignet`, where one is found
pub set_net_up : ℕ → Option ℕ → (ℕ → IpNet) → ℕ → IpNet
set_net_up p none net = net
set_net_up p (some q) net = update net p (record (net p) { up = some q })

pub link_nets : MaskIpMap → List ℕ → List (ℕ × ℕ) → (ℕ → IpNet) → ℕ → IpNet
unfolding find_up set_net_up
link_nets m upper [] net = net
link_nets m upper ((ip, p) ∷ ps) net =
    link_nets m upper ps (set_net_up p (find_up m (net p).bits ip upper) net)

abbrev pub is_empty : List ℕ → Bool
is_empty [] = Bool.true
is_empty (x ∷ xs) = Bool.false

-- The loop over the masks; the rest of the list holds the upper masks.
pub link_masks : MaskIpMap → List ℕ → (ℕ → IpNet) → ℕ → IpNet
unfolding link_nets
link_masks m [] net = net
link_masks m (mask ∷ upper) net =
    link_masks m upper
      (if is_empty upper then net else link_nets m upper (ip_map (lookup ℕ_discrete mask m)) net)

pub or_opt : Option ℕ → Option ℕ → Option ℕ
or_opt none old = old
or_opt (some o) old = some o

-- `optNetworks` of the network above
pub opt_above : (ℕ → IpNet) → Option ℕ → Option ℕ
opt_above net none = none
opt_above net (some q) = (net q).opt_networks

pub set_opt : ℕ → (ℕ → IpNet) → ℕ → IpNet
unfolding or_opt opt_above
set_opt p net =
    update net p
      (record (net p) { opt_networks = or_opt (opt_above net (net p).up) (net p).opt_networks })

pub opt_nets : List ℕ → (ℕ → IpNet) → ℕ → IpNet
unfolding set_opt
opt_nets [] net = net
opt_nets (p ∷ ps) net = opt_nets ps (set_opt p net)

pub opt_masks : MaskIpMap → List ℕ → (ℕ → IpNet) → ℕ → IpNet
unfolding opt_nets
opt_masks m [] net = net
opt_masks m (mask ∷ masks) net =
    opt_masks m masks (opt_nets (map (λ e. e.1) (ip_map (lookup ℕ_discrete mask m))) net)

-- `setupIPNetRelation` after the network of all addresses is there
unfoldable pub relate : SortSlice ℕ → List ℕ → (ℕ → IpNet) → ℕ → IpNet
unfolding collect_networks link_masks opt_masks
relate std ps net =
    let m = collect_networks net ps [] in
    let masks = std.sort (λ i j. ltb j i) (map (λ e. e.0) m) in
    opt_masks m (std.sort ltb masks) (link_masks m masks net)

-- `setupIPNetRelation`
unfoldable pub setup_ip_net_relation : SortSlice ℕ → NetLib → Bool → IpNets → Option IpNets
unfolding with_net00 relate
setup_ip_net_relation std lib ipv6 s0 = elim (with_net00 lib ipv6 s0) [
  | none ↦ none
  | some s ↦ some (record s { net = relate std (map (λ n. n.1) s.names) s.net })
]
