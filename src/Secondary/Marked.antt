-- ===== src/Secondary/Marked.antt =====
-- The loop over all zones: which zones get the same mark.
use mathlib.Core.List.{Memᴰ}
use netspoc.Prelude.{
  ℕ, ◌+◌, ◌<◌, ◌≡◌, ◌≢◌, inl, inr, refl, sym, ap, ◌∙◌, subst, Bool, true, false, arith,
}
use netspoc.Secondary.{Topology, ZoneMarks, Counted, no_marks}
use netspoc.Secondary.Linked.{Wired, Linked, Linked-trans, Linked-back}
use netspoc.Secondary.Grown.{Grown, zero_cases}

module _ (t : Topology) (passes : ℕ → Bool) where
  -- Marks below the counter: zones and routers that are next to each other have the same one, and
  -- zones with the same one are linked.
  pub record Marked (c : Counted) : Type 0 where
    pub started : c.1 ≢ 0
    pub below : (v : ℕ) → c.0.zone_mark v < c.1
    pub exits :
        (v i : ℕ)
        → c.0.zone_mark v ≢ 0
        → Memᴰ i (t.zone_interfaces v)
        → t.has_main i ≡ false
        → passes (t.router_of i) ≡ true
        → c.0.router_mark (t.router_of i) ≡ c.0.zone_mark v
    pub entries :
        (r o : ℕ)
        → c.0.router_mark r ≢ 0
        → Memᴰ o (t.router_interfaces r)
        → t.has_main o ≡ false
        → c.0.zone_mark (t.zone_of o) ≡ c.0.router_mark r
    pub open_routers : (r : ℕ) → c.0.router_mark r ≢ 0 → passes r ≡ true
    pub linked :
        (v w : ℕ) → c.0.zone_mark v ≢ 0 → c.0.zone_mark v ≡ c.0.zone_mark w → Linked t passes v w

  module _ (wired : Wired t) (k z : ℕ) (s u : ZoneMarks) (old : Marked (s, k))
      (g : Grown t passes k z s u) where
    zones_old : (v : ℕ) → s.zone_mark v ≢ 0 → u.zone_mark v < k
    zones_old v n = let e = g.zones_kept v n in omega (arith, e, old.below v)

    next_below : (v : ℕ) → u.zone_mark v < k + 1
    next_below v = elim (zero_cases t passes (s.zone_mark v)) [
      | inr n ↦ let lt = zones_old v n in omega (arith, lt)
      | inl e ↦ elim (zero_cases t passes (u.zone_mark v)) [
        | inl f ↦ omega (arith, f)
        | inr f ↦ let h = (g.zones_new v e f).0 in omega (arith, h)
      ]
    ]

    next-Exits :
        (v i : ℕ)
        → u.zone_mark v ≢ 0
        → Memᴰ i (t.zone_interfaces v)
        → t.has_main i ≡ false
        → passes (t.router_of i) ≡ true
        → u.router_mark (t.router_of i) ≡ u.zone_mark v
    next-Exits v i n h main p = elim (zero_cases t passes (s.zone_mark v)) [
      | inr m ↦
          let e = old.exits v i m h main p in
          g.routers_kept (t.router_of i) (λ f. m (sym e ∙ f)) ∙ e ∙ sym (g.zones_kept v m)
      | inl e ↦
          let (mark, l, all) = g.zones_new v e n in
          elim (zero_cases t passes (s.router_mark (t.router_of i))) [
            | inl f ↦ (g.routers_new (t.router_of i) f (all i h main p)).0 ∙ sym mark
            | inr f ↦
                let (there, k') = wired.of_zone v i h in
                let back = old.entries (t.router_of i) i f k' main in
                absurd (f (sym back ∙ ap s.zone_mark there ∙ e))
          ]
    ]

    next-Entries :
        (r o : ℕ)
        → u.router_mark r ≢ 0
        → Memᴰ o (t.router_interfaces r)
        → t.has_main o ≡ false
        → u.zone_mark (t.zone_of o) ≡ u.router_mark r
    next-Entries r o n h main = elim (zero_cases t passes (s.router_mark r)) [
      | inr m ↦
          let e = old.entries r o m h main in
          g.zones_kept (t.zone_of o) (λ f. m (sym e ∙ f)) ∙ e ∙ sym (g.routers_kept r m)
      | inl e ↦
          let (mark, p, all) = g.routers_new r e n in
          elim (zero_cases t passes (s.zone_mark (t.zone_of o))) [
            | inl f ↦ (g.zones_new (t.zone_of o) f (all o h main)).0 ∙ sym mark
            | inr f ↦
                let (there, k') = wired.of_router r o h in
                let back =
                  old.exits (t.zone_of o) o f k' main
                    (subst (λ x. passes x ≡ true) (sym there) p) in
                absurd (f (sym back ∙ ap s.router_mark there ∙ e))
          ]
    ]

    next-Linked :
        (v w : ℕ) → u.zone_mark v ≢ 0 → u.zone_mark v ≡ u.zone_mark w → Linked t passes v w
    next-Linked v w n same =
        let n' : u.zone_mark w ≢ 0 = λ f. n (same ∙ f) in
        elim (zero_cases t passes (s.zone_mark v)) [
          | inl e ↦ elim (zero_cases t passes (s.zone_mark w)) [
            | inl f ↦
                Linked-trans t passes (Linked-back t passes wired (g.zones_new v e n).1)
                  (g.zones_new w f n').1
            | inr f ↦
                let lt = zones_old w f in
                let mark = (g.zones_new v e n).0 in absurd (omega (arith, lt, mark, same))
          ]
          | inr e ↦ elim (zero_cases t passes (s.zone_mark w)) [
            | inl f ↦
                let lt = zones_old v e in
                let mark = (g.zones_new w f n').0 in absurd (omega (arith, lt, mark, same))
            | inr f ↦ old.linked v w e (sym (g.zones_kept v e) ∙ same ∙ g.zones_kept w f)
          ]
        ]

    pub next-Marked : Marked (u, k + 1)
    next-Marked = record {
      started = λ e. absurd (omega (arith, e));
      below = next_below;
      exits = next-Exits;
      entries = next-Entries;
      open_routers = λ r n. elim (zero_cases t passes (s.router_mark r)) [
        | inr m ↦ old.open_routers r m
        | inl e ↦ (g.routers_new r e n).1
      ];
      linked = next-Linked;
    }

  pub no_marks-Marked : Marked (no_marks, 1)
  no_marks-Marked = record {
    started = λ e. absurd (omega (arith, e));
    below = λ v. omega arith;
    exits = λ v i n. absurd (n refl);
    entries = λ r o n. absurd (n refl);
    open_routers = λ r n. absurd (n refl);
    linked = λ v w n. absurd (n refl);
  }

  -- Linked zones have the same mark.
  pub Marked-Linked :
      (c : Counted)
      → Marked c
      → (v w : ℕ) → Linked t passes v w
      → c.0.zone_mark v ≢ 0
      → c.0.zone_mark w ≡ c.0.zone_mark v
  Marked-Linked c h v w Linked.here n = refl
  Marked-Linked c h v u (Linked.on {w = w} l next) n =
      let e = Marked-Linked c h v w l n in
      let n' : c.0.zone_mark w ≢ 0 = λ f. n (sym e ∙ f) in
      let r = h.exits w next.enter n' next.entered next.enter_main next.open_router in
      let out =
        h.entries (t.router_of next.enter) next.leave (λ f. n' (sym r ∙ f)) next.left
          next.leave_main in
      ap c.0.zone_mark (sym next.zone) ∙ out ∙ r ∙ e
