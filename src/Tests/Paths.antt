-- ===== src/Tests/Paths.antt =====
-- Two zones with a network each; a rule from the first network to both.
use netspoc.Prelude.{
  ℕ, ◌+◌, ◌<◌, ◌≡◌, refl, Bool, true, false, not, none, List, [], ◌∷◌, ◌++◌, if◌then◌else◌, ◌==◌,
  ◌||◌, ◌&&◌, arith, any, All,
}
use netspoc.Paths.{
  Topology, SomeObj, network, zone, ServiceRule, PathRule, Service, get_path_node,
  split_rules_by_path, group_path_rules, prev_ip,
}
use netspoc.Paths.PrevIp.{ip_number, prev_ip_number}
use netspoc.Paths.Split.{concerns, OnPath, split_rules_by_path-OnPath}
use netspoc.Paths.Zones.{Clusters, MainRouter, apart}
use netspoc.Paths.Pairs.{pairs}
use netspoc.Paths.Apart.{worth, group_path_rules-apart}

-- Network 1 is in zone 1, any other in zone 2; no zone has a cluster.
abbrev two_zones : Topology
two_zones = record {
  networks = λ n. record {
    zone = if n == 1 then 1 else 2;
    is_aggregate = false;
    ip = 10 ∷ 1 ∷ n ∷ 0 ∷ [];
    mask = 255 ∷ 255 ∷ 255 ∷ 0 ∷ [];
  };
  subnets =
      λ s. record { network = s; ip = 10 ∷ 1 ∷ s ∷ 0 ∷ []; mask = 255 ∷ 255 ∷ 255 ∷ 255 ∷ [] };
  routers = λ r. record { managed = true; semi_managed = false; zone = 0; first_zone = 1 };
  intfs = λ i. record { router = 0; network = i; main_intf = none; path_restrict = false };
  zone_cluster = λ z. [];
}

abbrev mixed : PathRule
mixed = record {
  service_rule = record { deny = false; prt = 0 ∷ []; service = 7; coupling = false };
  src = network 1 ∷ [];
  dst = network 1 ∷ network 2 ∷ [];
  src_path = zone 0;
  dst_path = zone 0;
}

abbrev parts : List PathRule
parts =
    record mixed { dst = network 1 ∷ []; src_path = zone 1; dst_path = zone 1 }
    ∷ record mixed { dst = network 2 ∷ []; src_path = zone 1; dst_path = zone 2 }
    ∷ []

split_mixed : split_rules_by_path two_zones (mixed ∷ []) ≡ parts
unfolding split_rules_by_path get_path_node
split_mixed = refl

abbrev fresh : ℕ → Service
fresh x = record { seen_enforceable = false; silent_unenforceable = false; seen_unenforceable = [] }

left_mixed :
    (group_path_rules two_zones (mixed ∷ []) fresh).0
    ≡ record mixed { dst = network 2 ∷ []; src_path = zone 1; dst_path = zone 2 } ∷ []
unfolding group_path_rules get_path_node
left_mixed = refl

split_rules_by_path-OnPath_example :
    All (OnPath two_zones) (split_rules_by_path two_zones (mixed ∷ []))
    × ((k : ServiceRule → Bool) (f g : SomeObj → Bool)
        → any (concerns two_zones k f g) (split_rules_by_path two_zones (mixed ∷ []))
          ≡ any (concerns two_zones k f g) (mixed ∷ []))
split_rules_by_path-OnPath_example = split_rules_by_path-OnPath two_zones (mixed ∷ [])

no-Clusters : Clusters two_zones
unfolding Clusters
no-Clusters z w m = elim m [ ]

no-MainRouter : MainRouter two_zones
unfolding MainRouter
no-MainRouter i m e = cc

group_path_rules-apart_example :
    let (left, services') = group_path_rules two_zones (mixed ∷ []) fresh in
    ((h : ServiceRule → SomeObj → SomeObj → Bool)
      → any (pairs h) left ≡ any (pairs (λ sr s d. apart two_zones s d && h sr s d)) (mixed ∷ []))
    × ((x : ℕ)
        → (services' x).seen_enforceable ≡ (
            any (pairs (λ sr s d. apart two_zones s d && sr.service == x)) (mixed ∷ [])
            || (fresh x).seen_enforceable))
    × ((x : ℕ) (f : SomeObj × SomeObj → Bool)
        → any f (services' x).seen_unenforceable ≡ (
            any
              (pairs (λ sr s d. not (apart two_zones s d) && worth two_zones x f sr s d))
              (mixed ∷ [])
            || any f (fresh x).seen_unenforceable))
group_path_rules-apart_example =
    group_path_rules-apart two_zones no-Clusters no-MainRouter (mixed ∷ []) fresh

abbrev prefix : List ℕ
prefix = 10 ∷ 1 ∷ []

abbrev last : ℕ
last = 0

prev_ip_number_example :
    (last ≡ 0
      → ip_number (prev_ip (prefix ++ last ∷ [])) + 1 ≡ ip_number (prefix ++ last ∷ []) + 256)
    × (0 < last
        → last < 255
        → ip_number (prev_ip (prefix ++ last ∷ [])) + 1 ≡ ip_number (prefix ++ last ∷ []))
    × (last ≡ 255
        → ip_number (prev_ip ((prefix ++ 9 ∷ []) ++ last ∷ [])) + 1 + 256
          ≡ ip_number ((prefix ++ 9 ∷ []) ++ last ∷ []))
prev_ip_number_example = prev_ip_number prefix 9 last (omega arith) (omega arith) (omega arith)
