-- ===== src/Tests/Secondary.antt =====
-- Three zones in a row, at a secondary and a primary packet filter.
use mathlib.Core.List.{Memᴰ}
use mathlib.Core.List.Memᴰ.{head, tail}
use netspoc.Prelude.{
  ℕ, zero, suc, subst, ◌≡◌, ◌↔◌, refl, sym, false, Option, none, some, List, [], ◌∷◌, if◌then◌else◌,
  ◌==◌, map,
}
use netspoc.Prelude.Bytes.{codes}
use netspoc.Secondary.{
  Topology, Counted, over_out, over_in, mark_from, mark_next, mark_zones, mark_all_zones,
  passes_secondary, passes_primary,
}
use netspoc.Secondary.Linked.{Wired, Linked}
use netspoc.Secondary.Loop.{mark_all_zones-Linked}

abbrev row_lists : ℕ → List ℕ
row_lists zero = 0 ∷ []
row_lists (suc zero) = 1 ∷ 2 ∷ []
row_lists (suc (suc zero)) = 3 ∷ []
row_lists (suc (suc (suc z))) = []

abbrev row_filters : ℕ → List ℕ
row_filters zero = 0 ∷ 1 ∷ []
row_filters (suc zero) = 2 ∷ 3 ∷ []
row_filters (suc (suc r)) = []

abbrev row : Topology
row = record {
  zone_interfaces = row_lists;
  router_interfaces = row_filters;
  router_of = λ i. if i == 0 then 0 else (if i == 1 then 0 else 1);
  zone_of = λ i. if i == 0 then 0 else (if i == 3 then 2 else 1);
  has_main = λ i. false;
  managed = λ r. if r == 0 then codes "secondary" else codes "primary";
}

abbrev row_zones : List ℕ
row_zones = 0 ∷ 1 ∷ 2 ∷ []

abbrev row_marks : Option (Counted × Counted) → List ℕ × List ℕ
row_marks none = ([], [])
row_marks (some (sec, pri)) = (map sec.0.zone_mark row_zones, map pri.0.zone_mark row_zones)

marked_row : row_marks (mark_all_zones row row_zones) ≡ (1 ∷ 1 ∷ 2 ∷ [], 1 ∷ 1 ∷ 2 ∷ [])
unfolding mark_all_zones mark_zones mark_next mark_from over_in over_out passes_secondary
    passes_primary
marked_row = refl

abbrev ZoneOk : ℕ → ℕ → Type 0
ZoneOk z i = (row.zone_of i ≡ z) × Memᴰ i (row_filters (row.router_of i))

abbrev RouterOk : ℕ → ℕ → Type 0
RouterOk r o = (row.router_of o ≡ r) × Memᴰ o (row_lists (row.zone_of o))

row_zone : (z i : ℕ) → Memᴰ i (row_lists z) → ZoneOk z i
row_zone zero i (head e) = subst (ZoneOk 0) (sym e) (refl, head refl)
row_zone zero i (tail h) = elim h [ ]
row_zone (suc zero) i (head e) = subst (ZoneOk 1) (sym e) (refl, tail (head refl))
row_zone (suc zero) i (tail (head e)) = subst (ZoneOk 1) (sym e) (refl, head refl)
row_zone (suc zero) i (tail (tail h)) = elim h [ ]
row_zone (suc (suc zero)) i (head e) = subst (ZoneOk 2) (sym e) (refl, tail (head refl))
row_zone (suc (suc zero)) i (tail h) = elim h [ ]
row_zone (suc (suc (suc z))) i h = elim h [ ]

row_router : (r o : ℕ) → Memᴰ o (row_filters r) → RouterOk r o
row_router zero o (head e) = subst (RouterOk 0) (sym e) (refl, head refl)
row_router zero o (tail (head e)) = subst (RouterOk 0) (sym e) (refl, head refl)
row_router zero o (tail (tail h)) = elim h [ ]
row_router (suc zero) o (head e) = subst (RouterOk 1) (sym e) (refl, tail (head refl))
row_router (suc zero) o (tail (head e)) = subst (RouterOk 1) (sym e) (refl, head refl)
row_router (suc zero) o (tail (tail h)) = elim h [ ]
row_router (suc (suc r)) o h = elim h [ ]

abbrev Known : ℕ → Type 0
Known o = Memᴰ (row.zone_of o) row_zones

row_known : (r o : ℕ) → Memᴰ o (row_filters r) → Known o
row_known zero o (head e) = subst Known (sym e) (head refl)
row_known zero o (tail (head e)) = subst Known (sym e) (tail (head refl))
row_known zero o (tail (tail h)) = elim h [ ]
row_known (suc zero) o (head e) = subst Known (sym e) (tail (head refl))
row_known (suc zero) o (tail (head e)) = subst Known (sym e) (tail (tail (head refl)))
row_known (suc zero) o (tail (tail h)) = elim h [ ]
row_known (suc (suc r)) o h = elim h [ ]

row-Wired : Wired row
row-Wired = record { of_zone = row_zone; of_router = row_router }

mark_all_zones-Linked_example :
    (sec : Counted) × (pri : Counted) × (mark_all_zones row row_zones ≡ some (sec, pri))
    × ((v w : ℕ)
        → Memᴰ v row_zones
        → Memᴰ w row_zones
        → ((sec.0.zone_mark v ≡ sec.0.zone_mark w) ↔ Linked row (passes_secondary row) v w)
          × ((pri.0.zone_mark v ≡ pri.0.zone_mark w) ↔ Linked row (passes_primary row) v w))
mark_all_zones-Linked_example = mark_all_zones-Linked row row-Wired row_zones row_known
