-- ===== src/Tests/Optimize.antt =====
-- Runs of `optimizeRules` on two rules, the second of which the first one makes redundant.
use mathlib.Core.List.{Memᴰ}
use mathlib.Core.List.Memᴰ.{head, tail}
use netspoc.Prelude.{
  ℕ, ◌*◌, ◌<◌, ◌≡◌, refl, true, false, Option, none, some, List, [], ◌∷◌, arith, if◌then◌else◌,
  ◌==◌, ℕ_discrete,
}
use netspoc.Prelude.Bytes.{codes}
use netspoc.Pass2.Rules.{CiscoRule, Objects}
use netspoc.Pass2.Optimize.{optimize_rules}
use netspoc.Pass2.Optimize.Fill.{Distinct}
use netspoc.Pass2.Optimize.Survive.{Ranked}
use netspoc.Pass2.Optimize.Verdict.{Packet, verdict}
use netspoc.Pass2.Optimize.Sound.{verdict-optimize_rules}

-- Network 1 lies in network 0, and protocol 1 below protocol 0.
abbrev up_to_zero : ℕ → Option ℕ
up_to_zero p = if p == 1 then some 0 else none

abbrev objects : Objects
objects = record {
  net = λ p. record {
    ip = p * 0x0a000000;
    prefix = p * 8;
    bits = 32;
    opt_networks = none;
    no_opt_addrs = false;
    need_protect = false;
    name = [];
    up = up_to_zero p;
    is_supernet_of_need_protect = [];
  };
  prt = λ p. record {
    protocol = codes (if p == 1 then "tcp" else "ip");
    low = 1;
    high = 65535;
    established = false;
    icmp_type = none;
    icmp_code = none;
    name = [];
    up = up_to_zero p;
    has_neighbor = false;
  };
  depth = 3;
}

-- Rule 0 is `permit ip any 10.0.0.0/8`, rule 1 `permit tcp 10.0.0.0/8 10.0.0.0/8`.
abbrev store : ℕ → CiscoRule
store r = record {
  deny = false;
  src = if r == 1 then 1 else 0;
  dst = 1;
  prt = if r == 1 then 1 else 0;
  src_range = none;
  log = "";
  deleted = false;
  opt_secondary = false;
}

abbrev rules : List ℕ
rules = 0 ∷ 1 ∷ []

one_is_left : (optimize_rules objects 0 store rules).1 ≡ 0 ∷ []
unfolding optimize_rules ℕ_discrete
one_is_left = refl

up_falls : (p q : ℕ) → up_to_zero p ≡ some q → q < p
up_falls p q e = ground arith

ranked : Ranked objects
ranked = record { net_rank = λ p. p; prt_rank = λ p. p; net_falls = up_falls; prt_falls = up_falls }

-- A packet that every object covers.
packet : Packet objects
packet = record {
  src = λ _. true;
  dst = λ _. true;
  range = λ _. true;
  prt = λ _. true;
  src_climbs = λ p q e t. t;
  dst_climbs = λ p q e t. t;
  range_climbs = λ p q e t. t;
  prt_climbs = λ p q e t. t;
}

only : {r q : ℕ} → Memᴰ r (q ∷ []) → r ≡ q
only (head e) = e
only (tail m) = elim m [ ]

distinct : Distinct rules
distinct = (λ m. absurd (omega (arith, only m)), (λ m. elim m [ ], tt))

verdict-optimize_rules_example :
    let (store', rules') = optimize_rules objects 0 store rules in
    verdict packet 0 store' rules' ≡ verdict packet 0 store rules
verdict-optimize_rules_example =
    verdict-optimize_rules ranked packet 0 store rules distinct (λ r m. refl) (λ r m. refl)
