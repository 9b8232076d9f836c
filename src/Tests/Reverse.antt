-- ===== src/Tests/Reverse.antt =====
-- A run of `genReverseRules1` on one UDP rule whose path crosses a stateless router.
use mathlib.Core.List.{Memᴰ}
use netspoc.Prelude.{◌≡◌, refl, true, false, none, some, [], ◌∷◌, ◌++◌, if◌then◌else◌, ◌==◌, any}
use netspoc.Prelude.Bytes.{codes}
use netspoc.Reverse.{Spoc, GroupedRule, Intf, gen_reverse_rules1}
use netspoc.Duplicates.{remove_simple_duplicate_rules}
use netspoc.Duplicates.Simple.{is_plain}
use netspoc.Duplicates.Kept.{Repeats, matches-Respects, remove_simple_duplicate_rules-Repeats}
use netspoc.Prelude.Sort.{Pairwise}
use netspoc.Prelude.{select, List, not}
use netspoc.Reverse.Visits.{plain_rules, gen_reverse_rules1-plain}
use netspoc.Reverse.Swap.{Packet}
use netspoc.Reverse.Answers.{matches}

abbrev stateless_intf : Intf
stateless_intf = record { managed = true; stateless = true; stateless_self = false }

-- Protocol 0 is ip, 1 is udp, 2 is tcp established, any other is udp 53.
abbrev spoc : Spoc
spoc = record {
  prt = λ p.
      if p == 0
      then record { proto = codes "ip"; low = 0; high = 0; established = false }
      else if p == 1
      then record { proto = codes "udp"; low = 1; high = 65535; established = false }
      else if p == 2
      then record { proto = codes "tcp"; low = 1; high = 65535; established = true }
      else record { proto = codes "udp"; low = 53; high = 53; established = false };
  ip = 0;
  udp = 1;
  tcp_esta = 2;
  walk = λ s d. (some stateless_intf, some stateless_intf) ∷ [];
}

abbrev dns : GroupedRule
dns = record {
  deny = false;
  oneway = false;
  stateless = false;
  prt = 3 ∷ [];
  src_range = none;
  log = [];
  src = 10 ∷ [];
  dst = 20 ∷ [];
  src_path = 1;
  dst_path = 2;
}

abbrev query : Packet
query = record {
  src = 10;
  dst = 20;
  proto = codes "udp";
  sport = 40000;
  dport = 53;
  established = false;
}

gen_reverse_rules1-plain_example :
    gen_reverse_rules1 spoc (dns ∷ []) ≡ (dns ∷ []) ++ plain_rules spoc (dns ∷ [])
gen_reverse_rules1-plain_example = gen_reverse_rules1-plain spoc (dns ∷ [])

abbrev twice : List GroupedRule
twice = dns ∷ dns ∷ []

remove_simple_duplicate_rules-Repeats_example :
    (any (λ r. matches spoc r query) (remove_simple_duplicate_rules twice)
      ≡ any (λ r. matches spoc r query) twice)
    × Pairwise (λ a b. ¬ Repeats a b) (remove_simple_duplicate_rules twice)
    × (select (λ r. not (is_plain r)) (remove_simple_duplicate_rules twice)
        ≡ select (λ r. not (is_plain r)) twice)
remove_simple_duplicate_rules-Repeats_example =
    remove_simple_duplicate_rules-Repeats (λ r. matches spoc r query) (matches-Respects spoc query)
      twice

one_dns_is_left : remove_simple_duplicate_rules twice ≡ dns ∷ []
unfolding remove_simple_duplicate_rules
one_dns_is_left = refl
