-- ===== src/Secondary/Visit.antt =====
-- `markSecondary` and `markPrimary`: the loops over interfaces, and one zone.
use mathlib.Core.List.{Memᴰ}
use mathlib.Core.List.Memᴰ.{head, tail}
use netspoc.Prelude.{
  ℕ, ◌+◌, ◌≤◌, ◌<◌, ◌≡◌, ◌≢◌, inl, inr, refl, sym, ap, ◌∙◌, subst, Bool, true, false, Option, some,
  List, [], ◌∷◌, if◌then◌else◌, ◌==◌, ==_iff, ==_refl, Bool-cases, arith,
}
use netspoc.Secondary.{Topology, ZoneMarks, mark_zone, over_out}
use netspoc.Secondary.Linked.{Wired, Next, Linked}
use netspoc.Secondary.Grown.{Grown, Grown-refl, Grown-Linked, Grown-trans, zone_stays, zero_cases}

-- The zones of the list that have no mark.
abbrev pub unmarked : ℕ → ℕ
unmarked k = if k == 0 then 1 else 0

abbrev pub free : List ℕ → (ℕ → ℕ) → ℕ
free [] marks = 0
free (z ∷ zs) marks = unmarked (marks z) + free zs marks

unmarked_zero : (k : ℕ) → k ≢ 0 → unmarked k ≡ 0
unmarked_zero k n = ground (arith, n)

mark_zone_at : (z m : ℕ) (s : ZoneMarks) → (mark_zone z m s).zone_mark z ≡ m
mark_zone_at z m s = ap (λ b. if b then m else s.zone_mark z) (==_refl z)

pub free_less :
    (z m : ℕ) (s : ZoneMarks) (zs : List ℕ)
    → m ≢ 0
    → (free zs (mark_zone z m s).zone_mark ≤ free zs s.zone_mark)
      × (s.zone_mark z ≡ 0 → Memᴰ z zs → free zs (mark_zone z m s).zone_mark < free zs s.zone_mark)
free_less z m s [] nz = (omega arith, λ e h. elim h [ ])
free_less z m s (y ∷ ys) nz =
    let (le, lt) = free_less z m s ys nz in
    let zero' = unmarked_zero m nz in
    let first : unmarked ((mark_zone z m s).zone_mark y) ≤ unmarked (s.zone_mark y) =
      elim (Bool-cases (z == y)) [
        | inl e ↦ rw e (omega (arith, zero'))
        | inr e ↦ rw e (omega arith)
      ] in
    (
      omega (arith, le, first),
      λ e h. elim h [
        | head same ↦
            let a : unmarked ((mark_zone z m s).zone_mark y) ≡ 0 =
              subst (λ x. unmarked ((mark_zone z m s).zone_mark x) ≡ 0) same
                (ap unmarked (mark_zone_at z m s) ∙ zero') in
            let b : unmarked (s.zone_mark y) ≡ 1 =
              ap (λ x. unmarked (s.zone_mark x)) (sym same) ∙ ap unmarked e in
            omega (arith, le, a, b)
        | tail k ↦ let less = lt e k in omega (arith, first, less)
      ],
    )

module _ (t : Topology) (passes : ℕ → Bool) (wired : Wired t) (zones : List ℕ)
    (known : (r o : ℕ) → Memᴰ o (t.router_interfaces r) → Memᴰ (t.zone_of o) zones) (m : ℕ)
    (nz : m ≢ 0) where
  pub free-Grown :
      (z : ℕ) (s u : ZoneMarks) (zs : List ℕ)
      → Grown t passes m z s u
      → free zs u.zone_mark ≤ free zs s.zone_mark
  free-Grown z s u [] g = omega arith
  free-Grown z s u (y ∷ ys) g =
      let rest = free-Grown z s u ys g in
      elim (zero_cases t passes (s.zone_mark y)) [
        | inl e ↦
            let one : unmarked (s.zone_mark y) ≡ 1 = ap unmarked e in
            let small : unmarked (u.zone_mark y) ≤ 1 = ground arith in
            omega (arith, rest, one, small)
        | inr n ↦
            let none' = unmarked_zero (u.zone_mark y) (zone_stays t passes g y n) in
            omega (arith, rest, none')
      ]

  -- A call that has enough fuel for `f` zones returns, and marks the zone.
  abbrev pub Works : (ℕ → ℕ → ZoneMarks → Option ZoneMarks) → ℕ → Type 0
  Works self f =
      (z : ℕ) (s : ZoneMarks)
      → Memᴰ z zones
      → s.zone_mark z ≡ 0
      → free zones s.zone_mark ≤ f
      → (u : ZoneMarks) × (self z m s ≡ some u) × Grown t passes m z s u × (u.zone_mark z ≢ 0)

  module _ (self : ℕ → ℕ → ZoneMarks → Option ZoneMarks) (f : ℕ) (works : Works self f)
      (z : ℕ) where
    abbrev pub Outs : ℕ → List ℕ → ZoneMarks → Type 0
    Outs i os s =
        (u : ZoneMarks) × (over_out t passes self m i os s ≡ some u)
        × Grown t passes m z s u
        × ((o : ℕ) → Memᴰ o os → t.has_main o ≡ false → u.zone_mark (t.zone_of o) ≢ 0)

    -- The rest of the interfaces, and one that needs nothing more.
    skip_out :
        (i o : ℕ) (os : List ℕ) (s : ZoneMarks)
        → over_out t passes self m i (o ∷ os) s ≡ over_out t passes self m i os s
        → (t.has_main o ≡ false → s.zone_mark (t.zone_of o) ≢ 0)
        → Outs i os s
        → Outs i (o ∷ os) s
    skip_out i o os s e marked (u, f, g, all) = (
      u,
      e ∙ f,
      g,
      λ p h main. elim h [
        | head same ↦
            subst (λ x. u.zone_mark (t.zone_of x) ≢ 0) (sym same)
              (zone_stays t passes g (t.zone_of o)
                (marked (subst (λ x. t.has_main x ≡ false) same main)))
        | tail k ↦ all p k main
      ],
    )

    module _ (i : ℕ) (entered : Memᴰ i (t.zone_interfaces z)) (main : t.has_main i ≡ false)
        (pass : passes (t.router_of i) ≡ true) where
      pub over_out-Outs :
          (os : List ℕ) (s : ZoneMarks)
          → ((o : ℕ) → Memᴰ o os → Memᴰ o (t.router_interfaces (t.router_of i)))
          → s.zone_mark z ≢ 0
          → free zones s.zone_mark ≤ f
          → Outs i os s
      unfolding over_out
      over_out-Outs [] s sub marked le = (s, refl, Grown-refl t passes m z s, λ o h n. elim h [ ])
      over_out-Outs (o ∷ os) s sub marked le =
          let rest = over_out-Outs os s (λ p h. sub p (tail h)) marked le in
          elim (Bool-cases (o == i)) [
            | inl e ↦
                let same = (==_iff o i).0 e in
                let there = ap t.zone_of same ∙ (wired.of_zone z i entered).0 in
                skip_out i o os s (rw (e, over_out) refl)
                  (λ n. subst (λ x. s.zone_mark x ≢ 0) (sym there) marked) rest
            | inr e ↦ elim (Bool-cases (t.has_main o)) [
              | inl h ↦ skip_out i o os s (rw (e, h, over_out) refl) (λ n. absurd (cc (h, n))) rest
              | inr h ↦ elim (Bool-cases (s.zone_mark (t.zone_of o) == 0)) [
                | inr k ↦
                    skip_out i o os s (rw (e, h, k, over_out) refl)
                      (λ n. λ q. absurd (ground (arith, k, q))) rest
                | inl k ↦
                    let unset = (==_iff (s.zone_mark (t.zone_of o)) 0).0 k in
                    let (u, ran, g, at) =
                      works (t.zone_of o) s (known (t.router_of i) o (sub o (head refl))) unset
                        le in
                    let next : Next t passes z (t.zone_of o) = record {
                      enter = i;
                      leave = o;
                      entered = entered;
                      left = sub o (head refl);
                      enter_main = main;
                      leave_main = h;
                      open_router = pass;
                      zone = refl;
                    } in
                    let g' = Grown-Linked t passes g z (Linked.on Linked.here next) in
                    let less = free-Grown z s u zones g' in
                    let (w, ran', g'', all) =
                      over_out-Outs os u (λ p h. sub p (tail h)) (zone_stays t passes g' z marked)
                        (omega (arith, less, le)) in
                    (
                      w,
                      rw (e, h, k, over_out, ran) ran',
                      Grown-trans t passes g' g'',
                      λ p q n. elim q [
                        | head same ↦
                            subst (λ x. w.zone_mark (t.zone_of x) ≢ 0) (sym same)
                              (zone_stays t passes g'' (t.zone_of o) at)
                        | tail r ↦ all p r n
                      ],
                    )
              ]
            ]
          ]
