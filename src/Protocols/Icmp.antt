-- ===== src/Protocols/Icmp.antt =====
-- go/pkg/pass1/order-protocols.go: `orderIcmp` and `orderProto`, which set `up` of protocols.
pub mod Assigned
pub mod Smallest
pub mod Larger
use netspoc.Prelude.{ℕ, Option, none, some, List, [], ◌∷◌, if◌then◌else◌, ◌==◌}
use netspoc.Pass2.Rules.{update}

-- Type and code of an ICMP protocol; `none` is the -1 of the source.
pub record IcmpProto : Type 0 where
  pub icmp_type : Option ℕ
  pub icmp_code : Option ℕ

-- The map `m` from types to protocols
abbrev pub TypeMap : Type 0
TypeMap = ℕ → Option ℕ

-- The variables of the first loop: `up` of the protocols, `up` and `m`.
pub record IcmpState : Type 0 where
  pub up_of : ℕ → ℕ
  pub up : ℕ
  pub m : TypeMap

abbrev pub put_type : TypeMap → ℕ → ℕ → TypeMap
put_type m t p u = if t == u then some p else m u

-- The first loop handles 'icmp any', and remembers 'icmp type'.
unfoldable pub find_larger : (ℕ → IcmpProto) → List ℕ → IcmpState → IcmpState
find_larger icmp [] s = s
find_larger icmp (p ∷ ps) s = elim (icmp p).icmp_type [
  | none ↦ find_larger icmp ps (record s { up_of = update s.up_of p s.up; up = p })
  | some t ↦ elim (icmp p).icmp_code [
    | none ↦ find_larger icmp ps (record s { m = put_type s.m t p })
    | some c ↦ find_larger icmp ps s
  ]
]

abbrev pub type_or_any : Option ℕ → ℕ → ℕ
type_or_any none up = up
type_or_any (some u) up = u

-- The second loop
unfoldable pub set_larger : (ℕ → IcmpProto) → TypeMap → ℕ → List ℕ → (ℕ → ℕ) → ℕ → ℕ
set_larger icmp m up [] up_of = up_of
set_larger icmp m up (p ∷ ps) up_of = elim (icmp p).icmp_type [
  | none ↦ set_larger icmp m up ps up_of
  | some t ↦ elim (icmp p).icmp_code [
    | none ↦ set_larger icmp m up ps (update up_of p up)
    | some c ↦ set_larger icmp m up ps (update up_of p (type_or_any (m t) up))
  ]
]

-- `orderIcmp`
unfoldable pub order_icmp : (ℕ → IcmpProto) → List ℕ → ℕ → (ℕ → ℕ) → ℕ → ℕ
unfolding find_larger set_larger
order_icmp icmp l up up_of =
    let s = find_larger icmp l (record { up_of = up_of; up = up; m = λ t. none }) in
    set_larger icmp s.m s.up l s.up_of

-- `orderProto`
unfoldable pub order_proto : List ℕ → ℕ → (ℕ → ℕ) → ℕ → ℕ
order_proto [] up up_of = up_of
order_proto (p ∷ ps) up up_of = order_proto ps up (update up_of p up)
