-- ===== src/Secondary/Loop.antt =====
-- `markSecondaryRules`: the loop over all zones, for both kinds of marks.
use mathlib.Core.List.{Memᴰ}
use mathlib.Core.List.Memᴰ.{head, tail}
use netspoc.Prelude.{
  ℕ, suc, ◌+◌, ◌≤◌, ◌≡◌, ◌≢◌, ◌↔◌, inl, inr, refl, sym, subst, Bool, some, List, [], ◌∷◌, ◌==◌,
  ==_iff, Bool-cases, arith, length,
}
use netspoc.Secondary.{
  Topology, Counted, mark_next, mark_zones, mark_all_zones, no_marks, passes_secondary,
  passes_primary,
}
use netspoc.Secondary.Linked.{Wired, Linked}
use netspoc.Secondary.Grown.{zone_stays}
use netspoc.Secondary.Visit.{free}
use netspoc.Secondary.Zone.{mark_from-Works}
use netspoc.Secondary.Marked.{Marked, next-Marked, no_marks-Marked, Marked-Linked}

free_le : (zs : List ℕ) (marks : ℕ → ℕ) → free zs marks ≤ length zs
free_le [] marks = omega arith
free_le (z ∷ zs) marks = let le = free_le zs marks in ground (arith, le)

module _ (t : Topology) (wired : Wired t) (zones : List ℕ)
    (known : (r o : ℕ) → Memᴰ o (t.router_interfaces r) → Memᴰ (t.zone_of o) zones) where
  -- The marks and the counter after one zone, or after several.
  record Later (passes : ℕ → Bool) (c d : Counted) : Type 0 where
    pub marked : Marked t passes d
    pub stays : (v : ℕ) → c.0.zone_mark v ≢ 0 → d.0.zone_mark v ≢ 0

  one_zone :
      (passes : ℕ → Bool) (z : ℕ) (c : Counted)
      → Memᴰ z zones
      → Marked t passes c
      → (d : Counted) × (mark_next t passes (suc (length zones)) z c ≡ some d)
        × Later passes c d
        × (d.0.zone_mark z ≢ 0)
  unfolding mark_next
  one_zone passes z (s, k) there old = elim (Bool-cases (s.zone_mark z == 0)) [
    | inr n ↦ (
      (s, k),
      rw (n, mark_next) refl,
      record { marked = old; stays = λ v h. h },
      λ e. absurd (ground (arith, n, e)),
    )
    | inl e ↦
        let unset = (==_iff (s.zone_mark z) 0).0 e in
        let (u, ran, g, at) =
          mark_from-Works t passes wired zones known k old.started (length zones) z s there unset
            (free_le zones s.zone_mark) in
        (
          (u, k + 1),
          rw (e, mark_next, ran) refl,
          record {
            marked = next-Marked t passes wired k z s u old g;
            stays = zone_stays t passes g;
          },
          at,
        )
  ]

  abbrev Both : List ℕ → Counted → Counted → Type 0
  Both zs sec pri =
      (sec' : Counted) × (pri' : Counted) × (mark_zones t (suc (length zones)) zs sec pri
        ≡ some (sec', pri'))
      × Later (passes_secondary t) sec sec'
      × Later (passes_primary t) pri pri'
      × ((v : ℕ) → Memᴰ v zs → (sec'.0.zone_mark v ≢ 0) × (pri'.0.zone_mark v ≢ 0))

  all_zones :
      (zs : List ℕ) (sec pri : Counted)
      → ((z : ℕ) → Memᴰ z zs → Memᴰ z zones)
      → Marked t (passes_secondary t) sec
      → Marked t (passes_primary t) pri
      → Both zs sec pri
  unfolding mark_zones
  all_zones [] sec pri sub ms mp = (
    sec,
    pri,
    refl,
    record { marked = ms; stays = λ v n. n },
    record { marked = mp; stays = λ v n. n },
    λ v h. elim h [ ],
  )
  all_zones (z ∷ zs) sec pri sub ms mp =
      let (sec1, ran_s, ls, at_s) = one_zone (passes_secondary t) z sec (sub z (head refl)) ms in
      let (pri1, ran_p, lp, at_p) = one_zone (passes_primary t) z pri (sub z (head refl)) mp in
      let (sec2, pri2, ran, ls2, lp2, all) =
        all_zones zs sec1 pri1 (λ v h. sub v (tail h)) ls.marked lp.marked in
      (
        sec2,
        pri2,
        rw (ran_s, ran_p, mark_zones) ran,
        record { marked = ls2.marked; stays = λ v n. ls2.stays v (ls.stays v n) },
        record { marked = lp2.marked; stays = λ v n. lp2.stays v (lp.stays v n) },
        λ v h. elim h [
          | head same ↦
              subst (λ x. (sec2.0.zone_mark x ≢ 0) × (pri2.0.zone_mark x ≢ 0)) (sym same)
                (ls2.stays z at_s, lp2.stays z at_p)
          | tail k ↦ all v k
        ],
      )

  exact :
      (passes : ℕ → Bool) (c : Counted)
      → Marked t passes c
      → (v w : ℕ) → c.0.zone_mark v ≢ 0
      → (c.0.zone_mark v ≡ c.0.zone_mark w) ↔ Linked t passes v w
  exact passes c h v w n = (h.linked v w n, λ l. sym (Marked-Linked t passes c h v w l n))

  -- Where the interfaces are those of their zones and routers, and all zones at routers are in the
  -- list, the marking of all zones ends. Two zones of the list then have the same secondary mark
  -- exactly if they are linked by routers that are unmanaged, "secondary" or "local", and the same
  -- primary mark exactly if they are linked by routers that are not "primary".
  pub mark_all_zones-Linked :
      (sec : Counted) × (pri : Counted) × (mark_all_zones t zones ≡ some (sec, pri))
      × ((v w : ℕ)
          → Memᴰ v zones
          → Memᴰ w zones
          → ((sec.0.zone_mark v ≡ sec.0.zone_mark w) ↔ Linked t (passes_secondary t) v w)
            × ((pri.0.zone_mark v ≡ pri.0.zone_mark w) ↔ Linked t (passes_primary t) v w))
  unfolding mark_all_zones
  mark_all_zones-Linked =
      let (sec, pri, ran, ls, lp, all) =
        all_zones zones (no_marks, 1) (no_marks, 1) (λ z h. h)
          (no_marks-Marked t (passes_secondary t)) (no_marks-Marked t (passes_primary t)) in
      (
        sec,
        pri,
        ran,
        λ v w hv hw. (
          exact (passes_secondary t) sec ls.marked v w (all v hv).0,
          exact (passes_primary t) pri lp.marked v w (all v hv).1,
        ),
      )
