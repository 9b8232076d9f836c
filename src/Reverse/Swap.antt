-- ===== src/Reverse/Swap.antt =====
-- Protocols against packets, and how `genReverseRules1` turns a protocol round.
use netspoc.Prelude.{
  ℕ, ◌≤◌, ◌≡◌, inl, inr, refl, ◌∙◌, Bool, true, false, not, ◌&&◌, ◌||◌, Option, none, some,
  if◌then◌else◌, ◌==◌, leb, arith, Bool-cases,
}
use netspoc.Prelude.Bytes.{Bytes, codes, bytes_eq, bytes_eq-eq}
use netspoc.Reverse.{Spoc, Prt, is_tcp, is_udp, is_ip, swap_prt, or_udp}

-- A packet: pointers to the objects that it comes from and goes to, and what its header says.
pub record Packet : Type 0 where
  pub src : ℕ
  pub dst : ℕ
  pub proto : Bytes
  pub sport : ℕ
  pub dport : ℕ
  pub established : Bool

-- The packet that answers it.
abbrev pub answer : Packet → Packet
answer p = record {
  src = p.dst;
  dst = p.src;
  proto = p.proto;
  sport = p.dport;
  dport = p.sport;
  established = true;
}

abbrev pub in_range : Prt → ℕ → Bool
in_range q n = leb q.low n && leb n q.high

unfoldable pub covers : Prt → Packet → Bool
covers q pkt =
    if is_tcp q
    then bytes_eq pkt.proto (codes "tcp")
      && (not q.established || pkt.established)
      && in_range q pkt.dport
    else if is_udp q
    then bytes_eq pkt.proto (codes "udp") && in_range q pkt.dport
    else is_ip q

unfoldable pub from_range : Spoc → Option ℕ → Packet → Bool
from_range c none pkt = true
from_range c (some p) pkt = in_range (c.prt p) pkt.sport

-- The standard protocols are as their names say.
pub record Std (c : Spoc) : Type 0 where
  pub esta_proto : (c.prt c.tcp_esta).proto ≡ codes "tcp"
  pub esta_low : (c.prt c.tcp_esta).low ≡ 1
  pub esta_high : (c.prt c.tcp_esta).high ≡ 65535
  pub udp_proto : (c.prt c.udp).proto ≡ codes "udp"
  pub udp_low : (c.prt c.udp).low ≡ 1
  pub udp_high : (c.prt c.udp).high ≡ 65535

pub record Ports (pkt : Packet) : Type 0 where
  pub sport_low : 1 ≤ pkt.sport
  pub sport_high : pkt.sport ≤ 65535
  pub dport_low : 1 ≤ pkt.dport
  pub dport_high : pkt.dport ≤ 65535

module _ (c : Spoc) (std : Std c) (pkt : Packet) (ports : Ports pkt) where
  esta_covers :
      bytes_eq pkt.proto (codes "tcp") ≡ true → covers (c.prt c.tcp_esta) (answer pkt) ≡ true
  unfolding covers
  esta_covers e =
      rw (std.esta_proto, std.esta_low, std.esta_high)
        (ground (arith, ports.sport_low, ports.sport_high))

  udp_covers :
      bytes_eq pkt.proto (codes "udp") ≡ true
      → (q : Prt) → q.proto ≡ codes "udp"
      → in_range q pkt.sport ≡ true
      → covers q (answer pkt) ≡ true
  unfolding covers
  udp_covers e q is t = rw is (ground arith)

  any_udp : in_range (c.prt c.udp) pkt.sport ≡ true
  any_udp = rw (std.udp_low, std.udp_high) (ground (arith, ports.sport_low, ports.sport_high))

  or_udp-covers :
      (src_range : Option ℕ)
      → bytes_eq pkt.proto (codes "udp") ≡ true
      → ((p : ℕ) → src_range ≡ some p → (c.prt p).proto ≡ codes "udp")
      → from_range c src_range pkt ≡ true
      → covers (c.prt (or_udp c src_range)) (answer pkt) ≡ true
  unfolding or_udp from_range
  or_udp-covers none e same t = udp_covers e (c.prt c.udp) std.udp_proto any_udp
  or_udp-covers (some p) e same t = udp_covers e (c.prt p) (same p refl) t

  -- A reverse rule with this range and this protocol answers.
  unfoldable pub Turned : ℕ × ℕ → Type 0
  Turned (range, q) =
      (covers (c.prt q) (answer pkt) ≡ true)
      × (from_range c (if not (range == c.ip) then some range else none) (answer pkt) ≡ true)

  all_ports : from_range c (if not (c.ip == c.ip) then some c.ip else none) (answer pkt) ≡ true
  unfolding from_range
  all_ports = let e : (c.ip == c.ip) ≡ true = ground arith in rw e refl

  own_ports :
      (p : ℕ)
      → in_range (c.prt p) pkt.dport ≡ true
      → from_range c (if not (p == c.ip) then some p else none) (answer pkt) ≡ true
  unfolding from_range
  own_ports p t = elim (Bool-cases (p == c.ip)) [ inl e ↦ rw e refl | inr e ↦ rw e t ]

  swap_udp :
      (src_range : Option ℕ) (p q : ℕ)
      → covers (c.prt q) (answer pkt) ≡ true
      → in_range (c.prt p) pkt.dport ≡ true
      → (b : Bool) → Turned (if b then p else c.ip, q)
  unfolding Turned
  swap_udp src_range p q cov t true = (cov, own_ports p t)
  swap_udp src_range p q cov t false = (cov, all_ports)

  tcp-Turned : bytes_eq pkt.proto (codes "tcp") ≡ true → Turned (c.ip, c.tcp_esta)
  unfolding Turned
  tcp-Turned e = (esta_covers e, all_ports)

  ip-Turned :
      (p : ℕ)
      → is_tcp (c.prt p) ≡ false
      → is_udp (c.prt p) ≡ false
      → is_ip (c.prt p) ≡ true
      → Turned (c.ip, p)
  unfolding Turned covers
  ip-Turned p other ip e = (rw (other, ip) e, all_ports)

  -- The protocol that stands for `p` in a reverse rule covers the answer, and its range holds the
  -- answer's source port.
  pub swap_covers :
      (src_range : Option ℕ) (p : ℕ)
      → ((r : ℕ) → src_range ≡ some r → (c.prt r).proto ≡ (c.prt p).proto)
      → covers (c.prt p) pkt ≡ true
      → from_range c src_range pkt ≡ true
      → Turned (swap_prt c src_range p)
  unfolding swap_prt covers
  swap_covers src_range p same cov t = elim (Bool-cases (is_tcp (c.prt p))) [
    | inl tcp ↦ rw tcp (tcp-Turned (ground arith))
    | inr other ↦ elim (Bool-cases (is_udp (c.prt p))) [
      | inl udp ↦
          let is : (c.prt p).proto ≡ codes "udp" = bytes_eq-eq (c.prt p).proto (codes "udp") udp in
          let held : in_range (c.prt p) pkt.dport ≡ true = ground arith in
          let same' : (r : ℕ) → src_range ≡ some r → (c.prt r).proto ≡ codes "udp" =
            λ r e. same r e ∙ is in
          rw (other, udp)
            (swap_udp src_range p (or_udp c src_range)
              (or_udp-covers src_range (ground arith) same' t) held
              (not ((c.prt p).low == 1 && (c.prt p).high == 65535)))
      | inr ip ↦ rw (other, ip) (ip-Turned p other ip (ground arith))
    ]
  ]
