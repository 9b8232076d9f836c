-- ===== src/Reverse.antt =====
-- go/pkg/pass1/reverse-rules.go: `genReverseRules1`, which adds rules for answer packets where a
-- path crosses a stateless router. Protocols, sources, destinations and path stores are pointers.
-- Fields of rules that the function neither reads nor sets are left out.
pub mod Visits
pub mod Swap
pub mod Answers
use netspoc.Prelude.{
  ℕ, Bool, true, false, not, ◌&&◌, ◌||◌, Option, none, some, List, [], ◌∷◌, ◌++◌, if◌then◌else◌,
  ◌==◌,
}
use netspoc.Prelude.Bytes.{Bytes, codes, bytes_eq}

-- `proto` of types.go
pub record Prt : Type 0 where
  pub proto : Bytes
  pub low : ℕ
  pub high : ℕ
  pub established : Bool

-- `groupedRule` with its `serviceRule`
pub record GroupedRule : Type 0 where
  pub deny : Bool
  pub oneway : Bool
  pub stateless : Bool
  pub prt : List ℕ
  pub src_range : Option ℕ
  pub log : Bytes
  pub src : List ℕ
  pub dst : List ℕ
  pub src_path : ℕ
  pub dst_path : ℕ

-- What `markReverseRule` reads of an interface's router.
pub record Intf : Type 0 where
  pub managed : Bool
  pub stateless : Bool
  pub stateless_self : Bool

-- The protocols, and `c.prt.IP`, `c.prt.UDP` and `c.prt.TCPEsta`. `walk` gives the interfaces of the
-- routers that `pathWalk` visits between two path stores.
pub record Spoc : Type 0 where
  pub prt : ℕ → Prt
  pub ip : ℕ
  pub udp : ℕ
  pub tcp_esta : ℕ
  pub walk : ℕ → ℕ → List (Option Intf × Option Intf)

abbrev pub is_tcp : Prt → Bool
is_tcp p = bytes_eq p.proto (codes "tcp")

abbrev pub is_udp : Prt → Bool
is_udp p = bytes_eq p.proto (codes "udp")

abbrev pub is_ip : Prt → Bool
is_ip p = bytes_eq p.proto (codes "ip")

-- The loop over the protocols of a rule. `seen` is `tcpSeen`.
pub new_prt_group : (ℕ → Prt) → Bool → Bool → List ℕ → List ℕ
new_prt_group prts deny seen [] = []
new_prt_group prts deny seen (p ∷ ps) =
    let rest = new_prt_group prts deny (if is_tcp (prts p) then true else seen) ps in
    if is_tcp (prts p)
    then (if seen then rest else if deny then rest else p ∷ rest)
    else if not (is_udp (prts p) || is_ip (prts p))
    then rest
    else p ∷ rest

-- The closure `markReverseRule` on the variable `hasStatelessRouter`.
mark_reverse_rule : Option Intf × Option Intf → Bool → Bool
mark_reverse_rule (i, none) has = has
mark_reverse_rule (none, some o) has =
    if not o.managed then has else if o.stateless || o.stateless_self then true else has
mark_reverse_rule (some i, some o) has =
    if not o.managed then has else if o.stateless then true else has

unfoldable pub walk_path : List (Option Intf × Option Intf) → Bool → Bool
unfolding mark_reverse_rule
walk_path [] has = has
walk_path (io ∷ path) has = walk_path path (mark_reverse_rule io has)

abbrev pub Cache : Type 0
Cache = List ((ℕ × ℕ) × Bool)

abbrev pub find_pair : ℕ → ℕ → Cache → Option Bool
find_pair sp dp [] = none
find_pair sp dp (((s, d), b) ∷ c) =
    let rest = find_pair sp dp c in if s == sp && d == dp then some b else rest

known_path : Spoc → ℕ → ℕ → Cache → Option Bool → Bool × Cache
unfolding walk_path
known_path c sp dp cache (some b) = (b, cache)
known_path c sp dp cache none = let b = walk_path (c.walk sp dp) false in (b, ((sp, dp), b) ∷ cache)

-- `hasStatelessRouter`, from the cache or from a walk.
pub has_stateless_router : Spoc → ℕ → ℕ → Cache → Bool × Cache
unfolding known_path
has_stateless_router c sp dp cache = known_path c sp dp cache (find_pair sp dp cache)

or_udp : Spoc → Option ℕ → ℕ
or_udp c none = c.udp
or_udp c (some r) = r

-- `newSrcRange` and `newPrt` for one protocol.
pub swap_prt : Spoc → Option ℕ → ℕ → ℕ × ℕ
unfolding or_udp
swap_prt c src_range p =
    let q = c.prt p in
    if is_tcp q
    then (c.ip, c.tcp_esta)
    else if is_udp q
    then (if not (q.low == 1 && q.high == 65535) then p else c.ip, or_udp c src_range)
    else (c.ip, p)

-- `srcRangeList` with `srcRange2prtList`
pub add_prt : ℕ × ℕ → List (ℕ × List ℕ) → List (ℕ × List ℕ)
add_prt (range, p) [] = (range, p ∷ []) ∷ []
add_prt (range, p) ((r, ps) ∷ g) =
    let rest = add_prt (range, p) g in if r == range then (r, ps ++ p ∷ []) ∷ g else (r, ps) ∷ rest

pub by_range : Spoc → Option ℕ → List ℕ → List (ℕ × List ℕ) → List (ℕ × List ℕ)
unfolding add_prt swap_prt
by_range c src_range [] g = g
by_range c src_range (p ∷ ps) g = by_range c src_range ps (add_prt (swap_prt c src_range p) g)

-- `newRule`
pub reverse_rule : Spoc → GroupedRule → ℕ → List ℕ → GroupedRule
reverse_rule c r range ps = record {
  deny = r.deny;
  oneway = false;
  stateless = true;
  prt = ps;
  src_range = if not (range == c.ip) then some range else none;
  log = [];
  src = r.dst;
  dst = r.src;
  src_path = r.dst_path;
  dst_path = r.src_path;
}

pub make_rules : Spoc → GroupedRule → List (ℕ × List ℕ) → List GroupedRule
unfolding reverse_rule
make_rules c r [] = []
make_rules c r ((range, ps) ∷ g) = reverse_rule c r range ps ∷ make_rules c r g

-- The rest of the loop's body, with the protocols found and the path looked up.
reverse_found : Spoc → GroupedRule → List ℕ → Bool × Cache → List GroupedRule × Cache
unfolding make_rules by_range
reverse_found c r ps (has, cache) =
    (if not has then [] else make_rules c r (by_range c r.src_range ps []), cache)

reverse_group : Spoc → GroupedRule → List ℕ → Cache → List GroupedRule × Cache
unfolding reverse_found has_stateless_router
reverse_group c r [] cache = ([], cache)
reverse_group c r (p ∷ ps) cache =
    reverse_found c r (p ∷ ps) (has_stateless_router c r.src_path r.dst_path cache)

-- One rule.
pub reverse_one : Spoc → GroupedRule → Cache → List GroupedRule × Cache
unfolding reverse_group new_prt_group
reverse_one c r cache =
    if r.oneway
    then ([], cache)
    else reverse_group c r (new_prt_group c.prt r.deny false r.prt) cache

-- The loop over the rules: `extraRules`.
pub extra_rules : Spoc → List GroupedRule → Cache → List GroupedRule
unfolding reverse_one
extra_rules c [] cache = []
extra_rules c (r ∷ rs) cache =
    let (extra, cache') = reverse_one c r cache in extra ++ extra_rules c rs cache'

unfoldable pub gen_reverse_rules1 : Spoc → List GroupedRule → List GroupedRule
unfolding extra_rules
gen_reverse_rules1 c rules = rules ++ extra_rules c rules []
