-- ===== src/Tests/Conflict.antt =====
-- A host that may reach hosts in two networks, in a zone with a secondary packet filter.
use netspoc.Prelude.{ℕ, ◌≡◌, Bool, true, false, List, [], ◌∷◌, ◌==◌}
use netspoc.Secondary.Conflict.{
  ConflictObj, ConflictObj.of_network, ConflictObj.of_subnet, ConflictMap, ZoneInfo, collect_side,
}
use netspoc.Secondary.Conflict.Noted.{noted_rules, has_supernet, collect_side-notes}

abbrev only_nine : ℕ → Bool
only_nine n = n == 9

abbrev filtered_zone : ZoneInfo
filtered_zone = record { has_filter = true; mark = 1 }

abbrev host_and_any : List ConflictObj
host_and_any = of_network 9 ∷ of_subnet 0 ∷ []

abbrev two_networks : List ConflictObj
two_networks = of_subnet 3 ∷ of_subnet 4 ∷ []

abbrev no_conflict : ConflictMap
no_conflict = []

collect_side-notes_example :
    (noted_rules only_nine false 7 host_and_any true false filtered_zone 4 (
        collect_side only_nine false 7 host_and_any two_networks filtered_zone true false
          no_conflict)
      ≡ [])
    × (has_supernet only_nine false 7 host_and_any true false filtered_zone 9 4 (
          collect_side only_nine false 7 host_and_any two_networks filtered_zone true false
            no_conflict)
        ≡ true)
collect_side-notes_example =
    collect_side-notes only_nine false 7 host_and_any true false filtered_zone two_networks
      no_conflict 4 9
