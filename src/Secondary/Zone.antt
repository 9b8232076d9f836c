-- ===== src/Secondary/Zone.antt =====
-- `markSecondary` and `markPrimary`: the interfaces of a zone, and the recursion.
use mathlib.Core.List.{Memᴰ}
use mathlib.Core.List.Memᴰ.{head, tail}
use netspoc.Prelude.{
  ℕ, zero, suc, ◌≤◌, ◌≡◌, ◌≢◌, inl, inr, refl, sym, ap, ◌∙◌, subst, Bool, true, false, Option, some,
  List, [], ◌∷◌, if◌then◌else◌, ◌==◌, ==_iff, ==_refl, Bool-cases, arith,
}
use netspoc.Secondary.{
  Topology, ZoneMarks, mark_zone, mark_router, set_has_filter, over_out, over_in, mark_from,
}
use netspoc.Secondary.Linked.{Wired}
use netspoc.Secondary.Grown.{
  Grown, Grown-refl, Grown-trans, Grown-flag, Grown-mark_zone, Grown-mark_router, zone_stays,
  router_stays,
}
use netspoc.Secondary.Visit.{free, free_less, free-Grown, Works, over_out-Outs}

module _ (t : Topology) (passes : ℕ → Bool) (wired : Wired t) (zones : List ℕ)
    (known : (r o : ℕ) → Memᴰ o (t.router_interfaces r) → Memᴰ (t.zone_of o) zones) (m : ℕ)
    (nz : m ≢ 0) where
  module _ (self : ℕ → ℕ → ZoneMarks → Option ZoneMarks) (f : ℕ)
      (works : Works t passes wired zones known m nz self f) (z : ℕ) where
    abbrev Ins : List ℕ → ZoneMarks → Type 0
    Ins is s =
        (u : ZoneMarks) × (over_in t passes self m z is s ≡ some u)
        × Grown t passes m z s u
        × ((i : ℕ)
            → Memᴰ i is
            → t.has_main i ≡ false
            → passes (t.router_of i) ≡ true
            → u.router_mark (t.router_of i) ≢ 0)

    -- One interface: what is done for it, and the rest.
    one_in :
        (i : ℕ) (is : List ℕ) (s s' : ZoneMarks)
        → over_in t passes self m z (i ∷ is) s ≡ over_in t passes self m z is s'
        → Grown t passes m z s s'
        → (t.has_main i ≡ false
            → passes (t.router_of i) ≡ true
            → s'.router_mark (t.router_of i) ≢ 0)
        → Ins is s'
        → Ins (i ∷ is) s
    one_in i is s s' e done marked (u, ran, g, all) = (
      u,
      e ∙ ran,
      Grown-trans t passes done g,
      λ p h main pass. elim h [
        | head same ↦
            subst (λ x. u.router_mark (t.router_of x) ≢ 0) (sym same)
              (router_stays t passes g (t.router_of i) (
                marked (subst (λ x. t.has_main x ≡ false) same main)
                  (subst (λ x. passes (t.router_of x) ≡ true) same pass)))
        | tail k ↦ all p k main pass
      ],
    )

    flagged : (s : ZoneMarks) → Grown t passes m z s (set_has_filter z s)
    flagged s =
        Grown-flag t passes m z z s (set_has_filter z s)
          (Grown-refl t passes m z (set_has_filter z s))

    -- A router that is not marked yet.
    new_router :
        (i : ℕ) (s : ZoneMarks)
        → Memᴰ i (t.zone_interfaces z)
        → t.has_main i ≡ false
        → passes (t.router_of i) ≡ true
        → s.zone_mark z ≢ 0
        → free zones s.zone_mark ≤ f
        → s.router_mark (t.router_of i) ≡ 0
        → (u : ZoneMarks) × (over_out t passes self m i
              (t.router_interfaces (t.router_of i))
              (mark_router (t.router_of i) m (set_has_filter z s))
            ≡ some u)
          × Grown t passes m z s u
          × (u.router_mark (t.router_of i) ≢ 0)
    new_router i s entered main pass marked le unset =
        let r = t.router_of i in
        let s' = set_has_filter z s in
        let (u, ran, g, all) =
          over_out-Outs t passes wired zones known m nz self f works z i entered main pass
            (t.router_interfaces r) (mark_router r m s') (λ o h. h) marked le in
        let whole = Grown-mark_router t passes m z r s' u nz unset pass g all in
        let at : (mark_router r m s').router_mark r ≡ m =
          ap (λ b. if b then m else s.router_mark r) (==_refl r) in
        (
          u,
          ran,
          Grown-flag t passes m z z s u whole,
          router_stays t passes g r (λ q. nz (sym at ∙ q)),
        )

    over_in-Ins :
        (is : List ℕ) (s : ZoneMarks)
        → ((i : ℕ) → Memᴰ i is → Memᴰ i (t.zone_interfaces z))
        → s.zone_mark z ≢ 0
        → free zones s.zone_mark ≤ f
        → Ins is s
    unfolding over_in
    over_in-Ins [] s sub marked le = (s, refl, Grown-refl t passes m z s, λ i h n p. elim h [ ])
    over_in-Ins (i ∷ is) s sub marked le =
        let r = t.router_of i in
        let more = λ (u : ZoneMarks) (n : u.zone_mark z ≢ 0) (k : free zones u.zone_mark ≤ f).
          over_in-Ins is u (λ p h. sub p (tail h)) n k in
        elim (Bool-cases (t.has_main i)) [
          | inl h ↦
              one_in i is s s (rw (h, over_in) refl) (Grown-refl t passes m z s)
                (λ n p. absurd (cc (h, n))) (more s marked le)
          | inr h ↦ elim (Bool-cases (passes r)) [
            | inr p ↦
                one_in i is s s (rw (h, p, over_in) refl) (Grown-refl t passes m z s)
                  (λ n q. absurd (cc (p, q))) (more s marked le)
            | inl p ↦ elim (Bool-cases (s.router_mark r == 0)) [
              | inr k ↦
                  one_in i is s (set_has_filter z s) (rw (h, p, k, over_in) refl) (flagged s)
                    (λ n q. λ e. absurd (ground (arith, k, e)))
                    (more (set_has_filter z s) marked le)
              | inl k ↦
                  let (u, ran, g, at) =
                    new_router i s (sub i (head refl)) h p marked le
                      ((==_iff (s.router_mark r) 0).0 k) in
                  let less = free-Grown t passes wired zones known m nz z s u zones g in
                  one_in i is s u (rw (h, p, k, over_in, ran) refl) g (λ n q. at)
                    (more u (zone_stays t passes g z marked) (omega (arith, less, le)))
            ]
          ]
        ]

  pub mark_from-Works :
      (f : ℕ) → Works t passes wired zones known m nz (mark_from t passes (suc f)) f
  unfolding mark_from
  mark_from-Works zero z s there unset le =
      let less = (free_less z m s zones nz).1 unset there in absurd (omega (arith, less, le))
  mark_from-Works (suc f) z s there unset le =
      let less = (free_less z m s zones nz).1 unset there in
      let at : (mark_zone z m s).zone_mark z ≡ m =
        ap (λ b. if b then m else s.zone_mark z) (==_refl z) in
      let marked : (mark_zone z m s).zone_mark z ≢ 0 = λ q. nz (sym at ∙ q) in
      let (u, ran, g, exits) =
        over_in-Ins (mark_from t passes (suc f)) f (mark_from-Works f) z (t.zone_interfaces z)
          (mark_zone z m s) (λ i h. h) marked (omega (arith, less, le)) in
      (u, ran, Grown-mark_zone t passes m z s u nz unset g exits, zone_stays t passes g z marked)
