-- ===== src/Tests/Final.antt =====
-- Runs of the last steps on a short access list.
use mathlib.Core.List.{Memᴰ}
use mathlib.Core.List.Memᴰ.{head, tail}
use netspoc.Prelude.{
  Option, ℕ, ◌<◌, ◌≡◌, ◌↔◌, ◌⊎◌, inl, inr, refl, Bool, true, false, ◌||◌, none, some, List, [], ◌∷◌,
  ◌++◌, if◌then◌else◌, ◌==◌, arith,
}
use netspoc.Prelude.Bytes.{codes}
use netspoc.Pass2.Rules.{CiscoRule, Objects}
use netspoc.Pass2.Final.{AclInfo, move_rules_esp_ah, add_final, add_protect_rules}
use netspoc.Pass2.Redundant.Visits.{here, there}
use netspoc.Pass2.Supernets.{mark_supernets_of_need_protect, mark_supernets-Above}
use netspoc.Pass2.Final.Match.{denied, permitted, unmatched, first_match, or_else}
use netspoc.Pass2.Final.Moved.{first_match-move_rules_esp_ah}
use netspoc.Pass2.Final.Ended.{
  EndsInPermit, AnyCovers, NoRange, final_verdict, add_final-first_match,
}
use netspoc.Pass2.Final.Protected.{ToIntf, Known, add_protect_rules-not_permitted}
use netspoc.Tests.Sorting.{insertion_sort}

-- Network 0 holds all; interface 2 lies in network 1. Protocol 0 is IP, protocol 1 is ESP.
abbrev objects : Objects
objects = record {
  net = λ p. record {
    ip = p;
    prefix = p;
    bits = 32;
    opt_networks = none;
    no_opt_addrs = false;
    need_protect = p == 2;
    name = [];
    up = if p == 2 then some 1 else if p == 1 then some 0 else none;
    is_supernet_of_need_protect = if p == 2 then [] else 2 ∷ [];
  };
  prt = λ p. record {
    protocol = codes (if p == 1 then "50" else "ip");
    low = 0;
    high = 0;
    established = false;
    icmp_type = none;
    icmp_code = none;
    name = [];
    up = none;
    has_neighbor = false;
  };
  depth = 4;
}

abbrev rule : Bool → ℕ → ℕ → CiscoRule
rule deny dst prt = record {
  deny = deny;
  src = 0;
  dst = dst;
  prt = prt;
  src_range = none;
  log = "";
  deleted = false;
  opt_secondary = false;
}

abbrev three : List CiscoRule
three = rule true 2 0 ∷ rule false 1 0 ∷ rule false 2 1 ∷ []

-- A packet to the interface: any rule to network 0, 1 or 2 covers it.
abbrev covers : CiscoRule → Bool
covers r = r.dst == 0 || r.dst == 1 || r.dst == 2

first_match-move_rules_esp_ah_example :
    first_match covers
      (move_rules_esp_ah (insertion_sort CiscoRule) objects (some 1) none false three)
    ≡ first_match covers three
first_match-move_rules_esp_ah_example =
    first_match-move_rules_esp_ah (insertion_sort CiscoRule) objects (some 1) none false covers
      three (inl refl, (inr refl, (inr refl, tt)))

abbrev acl : AclInfo
acl = record {
  intf_rules = [];
  rules = rule false 1 0 ∷ [];
  need_protect = 2 ∷ [];
  network00 = 0;
  prt_ip = 0;
}

NoRange-intf : NoRange acl acl.intf_rules
unfolding NoRange
NoRange-intf = tt

to_intf : ToIntf acl 2 covers
unfolding ToIntf
to_intf r s d p n = ground arith

known : Known objects 2 covers acl.rules
unfolding Known
known r (head e) d c = rw e (refl, head refl)
known r (tail m) d c = elim m [ ]

-- The list ends in `permit ip any any`.
abbrev ended : AclInfo
ended = record acl { rules = rule false 1 0 ∷ rule false 0 0 ∷ [] }

ended-AnyCovers : AnyCovers ended covers
unfolding AnyCovers
ended-AnyCovers r s d p n = ground arith

ended-NoRange : NoRange ended ended.rules
unfolding NoRange
ended-NoRange = (λ e. refl, (λ e. refl, tt))

add_final-first_match_example :
    (first_match covers (add_final true false ended).rules
      ≡ or_else (first_match covers ended.rules) (final_verdict true false))
    × ((add_final true false ended).rules ≡ ended.rules
        ↔ ((true || false) ≡ false) ⊎ EndsInPermit ended ended.rules)
    × (¬ (EndsInPermit ended ended.rules × (first_match covers ended.rules ≡ unmatched)))
add_final-first_match_example =
    add_final-first_match ended covers true false ended-AnyCovers ended-NoRange

-- A list without that end gets a rule.
deny_added : (add_final true false acl).rules ≡ rule false 1 0 ∷ rule true 0 0 ∷ []
unfolding add_final
deny_added = refl

add_protect_rules-not_permitted_example :
    let acl' = add_protect_rules objects false acl in
    ¬ (first_match covers (acl'.intf_rules ++ acl'.rules) ≡ permitted)
add_protect_rules-not_permitted_example =
    add_protect_rules-not_permitted objects acl 2 covers to_intf false (head refl) NoRange-intf
      known refl

-- The deny rule that was added decides.
protected :
    let acl' = add_protect_rules objects false acl in
    first_match covers (acl'.intf_rules ++ acl'.rules) ≡ denied
unfolding add_protect_rules
protected = refl

abbrev up_of : ℕ → Option ℕ
up_of p = if p == 2 then some 1 else if p == 1 then some 0 else none

up_of_falls : (p q : ℕ) → up_of p ≡ some q → q < p
up_of_falls p q e = ground arith

-- Network 0 is above network 1, which is above interface 2.
mark_supernets-Above_example :
    Memᴰ 2 (mark_supernets_of_need_protect 4 (2 ∷ []) objects.net 0).is_supernet_of_need_protect
mark_supernets-Above_example =
    mark_supernets-Above up_of (λ p. p) up_of_falls 4 (2 ∷ []) objects.net 2 1 0 (λ x. refl)
      (head refl) refl (omega arith) (there {q = 0} refl here)
