-- ===== src/Secondary/Grown.antt =====
-- How the marks grow while zones are marked.
use mathlib.Core.List.{Memᴰ}
use netspoc.Prelude.{
  ℕ, ◌≡◌, ◌≢◌, ◌⊎◌, inl, inr, refl, sym, ap, ◌∙◌, subst, Bool, true, false, if◌then◌else◌, ◌==◌,
  ==_iff, ==_refl, Bool-cases, arith,
}
use netspoc.Pass2.Rules.{update}
use netspoc.Secondary.{Topology, ZoneMarks, mark_zone, mark_router, set_has_filter}
use netspoc.Secondary.Linked.{Linked, Linked-trans}

module _ (t : Topology) (passes : ℕ → Bool) where
  -- All routers of this kind at the zone are marked.
  abbrev pub Exits : ℕ → ZoneMarks → Type 0
  Exits z s =
      (i : ℕ)
      → Memᴰ i (t.zone_interfaces z)
      → t.has_main i ≡ false
      → passes (t.router_of i) ≡ true
      → s.router_mark (t.router_of i) ≢ 0

  -- All zones at the router are marked.
  abbrev pub Entries : ℕ → ZoneMarks → Type 0
  Entries r s =
      (o : ℕ)
      → Memᴰ o (t.router_interfaces r)
      → t.has_main o ≡ false
      → s.zone_mark (t.zone_of o) ≢ 0

  -- From `s` to `u`, zones that are linked to `z` and routers have got the mark `m`.
  pub record Grown (m z : ℕ) (s u : ZoneMarks) : Type 0 where
    pub zones_kept : (v : ℕ) → s.zone_mark v ≢ 0 → u.zone_mark v ≡ s.zone_mark v
    pub routers_kept : (r : ℕ) → s.router_mark r ≢ 0 → u.router_mark r ≡ s.router_mark r
    pub zones_new :
        (v : ℕ)
        → s.zone_mark v ≡ 0
        → u.zone_mark v ≢ 0
        → (u.zone_mark v ≡ m) × Linked t passes z v × Exits v u
    pub routers_new :
        (r : ℕ)
        → s.router_mark r ≡ 0
        → u.router_mark r ≢ 0
        → (u.router_mark r ≡ m) × (passes r ≡ true) × Entries r u

  pub Grown-refl : (m z : ℕ) (s : ZoneMarks) → Grown m z s s
  Grown-refl m z s = record {
    zones_kept = λ v n. refl;
    routers_kept = λ r n. refl;
    zones_new = λ v e n. absurd (n e);
    routers_new = λ r e n. absurd (n e);
  }

  module _ {m z : ℕ} {s u : ZoneMarks} (g : Grown m z s u) where
    pub zone_stays : (v : ℕ) → s.zone_mark v ≢ 0 → u.zone_mark v ≢ 0
    zone_stays v n e = n (sym (g.zones_kept v n) ∙ e)

    pub router_stays : (r : ℕ) → s.router_mark r ≢ 0 → u.router_mark r ≢ 0
    router_stays r n e = n (sym (g.routers_kept r n) ∙ e)

    pub Grown-Linked : (y : ℕ) → Linked t passes y z → Grown m y s u
    Grown-Linked y l = record {
      zones_kept = g.zones_kept;
      routers_kept = g.routers_kept;
      zones_new = λ v e n. let (a, b, c) = g.zones_new v e n in (a, Linked-trans t passes l b, c);
      routers_new = g.routers_new;
    }

  pub zero_cases : (n : ℕ) → (n ≡ 0) ⊎ (n ≢ 0)
  zero_cases n = elim (Bool-cases (n == 0)) [
    | inl e ↦ inl ((==_iff n 0).0 e)
    | inr e ↦ inr (ground (arith, e))
  ]

  pub Grown-trans : {m z : ℕ} {s u w : ZoneMarks} → Grown m z s u → Grown m z u w → Grown m z s w
  Grown-trans {m} {z} {s} {u} {w} g h = record {
    zones_kept = λ v n. h.zones_kept v (zone_stays g v n) ∙ g.zones_kept v n;
    routers_kept = λ r n. h.routers_kept r (router_stays g r n) ∙ g.routers_kept r n;
    zones_new = λ v e n. elim (zero_cases (u.zone_mark v)) [
      | inl f ↦ h.zones_new v f n
      | inr f ↦
          let (a, b, c) = g.zones_new v e f in
          (h.zones_kept v f ∙ a, b, λ i k hm p. router_stays h (t.router_of i) (c i k hm p))
    ];
    routers_new = λ r e n. elim (zero_cases (u.router_mark r)) [
      | inl f ↦ h.routers_new r f n
      | inr f ↦
          let (a, b, c) = g.routers_new r e f in
          (h.routers_kept r f ∙ a, b, λ o k hm. zone_stays h (t.zone_of o) (c o k hm))
    ];
  }

  -- A flag that is set is no mark.
  pub Grown-flag : (m z y : ℕ) (s u : ZoneMarks) → Grown m z (set_has_filter y s) u → Grown m z s u
  Grown-flag m z y s u g = record {
    zones_kept = g.zones_kept;
    routers_kept = g.routers_kept;
    zones_new = g.zones_new;
    routers_new = g.routers_new;
  }

  update_at : (f : ℕ → ℕ) (p a : ℕ) → update f p a p ≡ a
  update_at f p a = ap (λ b. if b then a else f p) (==_refl p)

  update_off : (f : ℕ → ℕ) (p a q : ℕ) → p ≢ q → update f p a q ≡ f q
  update_off f p a q n = elim (Bool-cases (p == q)) [
    | inl e ↦ absurd (n ((==_iff p q).0 e))
    | inr e ↦ ap (λ b. if b then a else f q) e
  ]

  -- The zone is marked first, and at last all its routers are.
  pub Grown-mark_zone :
      (m z : ℕ) (s u : ZoneMarks)
      → m ≢ 0
      → s.zone_mark z ≡ 0
      → Grown m z (mark_zone z m s) u
      → Exits z u
      → Grown m z s u
  Grown-mark_zone m z s u nz e g exits =
      let s' = mark_zone z m s in
      let at : s'.zone_mark z ≡ m = update_at s.zone_mark z m in
      let marked : s'.zone_mark z ≢ 0 = λ f. nz (sym at ∙ f) in
      let off : (v : ℕ) → z ≢ v → s'.zone_mark v ≡ s.zone_mark v =
        λ v n. update_off s.zone_mark z m v n in
      record {
        zones_kept = λ v n.
            let ne : z ≢ v = λ f. n (ap s.zone_mark (sym f) ∙ e) in
            g.zones_kept v (λ f. n (sym (off v ne) ∙ f)) ∙ off v ne;
        routers_kept = g.routers_kept;
        zones_new = λ v f n. elim (Bool-cases (z == v)) [
          | inl same ↦
              let h = (==_iff z v).0 same in
              subst (λ x. (u.zone_mark x ≡ m) × Linked t passes z x × Exits x u) h
                (g.zones_kept z marked ∙ at, Linked.here, exits)
          | inr other ↦ g.zones_new v (off v (λ h. absurd (ground (arith, other, h))) ∙ f) n
        ];
        routers_new = g.routers_new;
      }

  -- A router is marked first, and at last all its zones are.
  pub Grown-mark_router :
      (m z r : ℕ) (s u : ZoneMarks)
      → m ≢ 0
      → s.router_mark r ≡ 0
      → passes r ≡ true
      → Grown m z (mark_router r m s) u
      → Entries r u
      → Grown m z s u
  Grown-mark_router m z r s u nz e p g entries =
      let s' = mark_router r m s in
      let at : s'.router_mark r ≡ m = update_at s.router_mark r m in
      let marked : s'.router_mark r ≢ 0 = λ f. nz (sym at ∙ f) in
      let off : (v : ℕ) → r ≢ v → s'.router_mark v ≡ s.router_mark v =
        λ v n. update_off s.router_mark r m v n in
      record {
        zones_kept = g.zones_kept;
        routers_kept = λ v n.
            let ne : r ≢ v = λ f. n (ap s.router_mark (sym f) ∙ e) in
            g.routers_kept v (λ f. n (sym (off v ne) ∙ f)) ∙ off v ne;
        zones_new = g.zones_new;
        routers_new = λ v f n. elim (Bool-cases (r == v)) [
          | inl same ↦
              let h = (==_iff r v).0 same in
              subst (λ x. (u.router_mark x ≡ m) × (passes x ≡ true) × Entries x u) h
                (g.routers_kept r marked ∙ at, p, entries)
          | inr other ↦ g.routers_new v (off v (λ h. absurd (ground (arith, other, h))) ∙ f) n
        ];
      }
