-- ===== src/Secondary.antt =====
-- go/pkg/pass1/mark-secondary-rules.go: `markSecondary`, `markPrimary` and the loop over all zones of
-- `markSecondaryRules`. Zones, routers and interfaces are numbers. Fuel of one more than there are
-- zones is enough: each call marks a zone that had no mark.
pub mod Grown
pub mod Visit
pub mod Zone
pub mod Linked
pub mod Marked
pub mod Loop
pub mod Conflict
use netspoc.Prelude.{
  ℕ, zero, suc, ◌+◌, Bool, true, false, not, ◌&&◌, ◌||◌, Option, none, some, List, [], ◌∷◌,
  if◌then◌else◌, ◌==◌, length,
}
use netspoc.Prelude.Bytes.{Bytes, bytes_eq, codes}
use netspoc.Pass2.Rules.{update}

-- What the marking reads: `interfaces` of zones and routers, `router` and `zone` of an interface,
-- whether its `mainIntf` is set, and `managed` of a router.
pub record Topology : Type 0 where
  pub zone_interfaces : ℕ → List ℕ
  pub router_interfaces : ℕ → List ℕ
  pub router_of : ℕ → ℕ
  pub zone_of : ℕ → ℕ
  pub has_main : ℕ → Bool
  pub managed : ℕ → Bytes

-- What it writes: `secondaryMark` of zones and routers with `hasSecondary`, or `primaryMark` with
-- `hasNonPrimary`.
pub record ZoneMarks : Type 0 where
  pub zone_mark : ℕ → ℕ
  pub router_mark : ℕ → ℕ
  pub has_filter : ℕ → Bool

abbrev pub mark_zone : ℕ → ℕ → ZoneMarks → ZoneMarks
mark_zone z m s = record s { zone_mark = update s.zone_mark z m }

abbrev pub mark_router : ℕ → ℕ → ZoneMarks → ZoneMarks
mark_router r m s = record s { router_mark = update s.router_mark r m }

abbrev pub set_has_filter : ℕ → ZoneMarks → ZoneMarks
set_has_filter z s = record s { has_filter = update s.has_filter z true }

-- The routers that `markSecondary` and `markPrimary` go through.
unfoldable pub passes_secondary : Topology → ℕ → Bool
passes_secondary t r =
    let m = t.managed r in
    bytes_eq m [] || (bytes_eq m (codes "secondary") || bytes_eq m (codes "local"))

unfoldable pub passes_primary : Topology → ℕ → Bool
passes_primary t r = not (bytes_eq (t.managed r) (codes "primary"))

-- `bind` of Go's sequence of calls; `none` is the end of the fuel.
abbrev pub then_go : Option ZoneMarks → (ZoneMarks → Option ZoneMarks) → Option ZoneMarks
then_go none f = none
then_go (some s) f = f s

module _ (t : Topology) (passes : ℕ → Bool) where
  -- The loop over `router.interfaces`, with the marking of a zone.
  unfoldable pub over_out :
      (ℕ → ℕ → ZoneMarks → Option ZoneMarks) → ℕ → ℕ → List ℕ → ZoneMarks → Option ZoneMarks
  over_out self m in_intf [] s = some s
  over_out self m in_intf (out ∷ rest) s = elim (out == in_intf) [
    | true ↦ over_out self m in_intf rest s
    | false ↦ elim (t.has_main out) [
      | true ↦ over_out self m in_intf rest s
      | false ↦ elim (s.zone_mark (t.zone_of out) == 0) [
        | false ↦ over_out self m in_intf rest s
        | true ↦ then_go (self (t.zone_of out) m s) (over_out self m in_intf rest)
      ]
    ]
  ]

  -- The loop over `zone.interfaces`.
  unfoldable pub over_in :
      (ℕ → ℕ → ZoneMarks → Option ZoneMarks) → ℕ → ℕ → List ℕ → ZoneMarks → Option ZoneMarks
  unfolding over_out
  over_in self m z [] s = some s
  over_in self m z (in_intf ∷ rest) s = elim (t.has_main in_intf) [
    | true ↦ over_in self m z rest s
    | false ↦
        let r = t.router_of in_intf in
        let s' = set_has_filter z s in
        elim (passes r) [
          | false ↦ over_in self m z rest s
          | true ↦ elim (s'.router_mark r == 0) [
            | false ↦ over_in self m z rest s'
            | true ↦
                then_go (over_out self m in_intf (t.router_interfaces r) (mark_router r m s'))
                  (over_in self m z rest)
          ]
        ]
  ]

  -- `markSecondary` and `markPrimary`
  unfoldable pub mark_from : ℕ → ℕ → ℕ → ZoneMarks → Option ZoneMarks
  unfolding over_in
  mark_from zero z m s = none
  mark_from (suc fuel) z m s = over_in (mark_from fuel) m z (t.zone_interfaces z) (mark_zone z m s)

  -- One zone of the loop, with the counter.
  unfoldable pub mark_next : ℕ → ℕ → ZoneMarks × ℕ → Option (ZoneMarks × ℕ)
  unfolding mark_from
  mark_next fuel z (s, mark) = elim (s.zone_mark z == 0) [
    | false ↦ some (s, mark)
    | true ↦ elim (mark_from fuel z mark s) [ none ↦ none | some s' ↦ some (s', mark + 1) ]
  ]

abbrev pub Counted : Type 0
Counted = ZoneMarks × ℕ

-- The loop over all zones of `markSecondaryRules`.
unfoldable pub mark_zones : Topology → ℕ → List ℕ → Counted → Counted → Option (Counted × Counted)
unfolding mark_next passes_secondary passes_primary
mark_zones t fuel [] sec pri = some (sec, pri)
mark_zones t fuel (z ∷ zs) sec pri = elim (mark_next t (passes_secondary t) fuel z sec) [
  | none ↦ none
  | some sec' ↦ elim (mark_next t (passes_primary t) fuel z pri) [
    | none ↦ none
    | some pri' ↦ mark_zones t fuel zs sec' pri'
  ]
]

-- No marks are set at first.
abbrev pub no_marks : ZoneMarks
no_marks = record { zone_mark = λ z. 0; router_mark = λ r. 0; has_filter = λ z. false }

unfoldable pub mark_all_zones : Topology → List ℕ → Option (Counted × Counted)
unfolding mark_zones
mark_all_zones t zones = mark_zones t (suc (length zones)) zones (no_marks, 1) (no_marks, 1)
