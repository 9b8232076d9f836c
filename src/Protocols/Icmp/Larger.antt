-- ===== src/Protocols/Icmp/Larger.antt =====
-- `orderIcmp`: the protocol above each one.
use mathlib.Core.List.{Memᴰ}
use mathlib.Core.Option.{some-injective}
use netspoc.Prelude.{
  ℕ, ◌≡◌, ◌≢◌, ◌⊎◌, inl, inr, refl, sym, ap, ◌∙◌, subst, none, some, List, Option-cases,
}
use netspoc.Protocols.Icmp.{IcmpProto, IcmpState, find_larger, type_or_any, order_icmp}
use netspoc.Protocols.Icmp.Assigned.{
  type_of, code_of, Covers, value, set_larger-any, set_larger-type,
}
use netspoc.Protocols.Icmp.Smallest.{IcmpOk, AnyInv, Found, find_larger-Found, type-differs}

module _ (icmp : ℕ → IcmpProto) (l : List ℕ) (ok : IcmpOk icmp l) (ip : ℕ) where
  -- No other protocol of the list covers `p`, and `u` is ip; or `u` is the smallest one that does.
  abbrev pub SmallestAbove : ℕ → ℕ → Type 0
  SmallestAbove p u =
      ((u ≡ ip) × ((q : ℕ) → Memᴰ q l → Covers icmp q p → q ≡ p))
      ⊎ (Memᴰ u l
          × (u ≢ p)
          × Covers icmp u p
          × ((q : ℕ) → Memᴰ q l → Covers icmp q p → q ≢ p → Covers icmp q u))

  module _ (p : ℕ) (there : Memᴰ p l) (s : IcmpState) (found : Found icmp l ok ip s) where
    -- 'icmp any' in the list
    any_up : type_of icmp p ≡ none → s.up_of p ≡ ip
    any_up e = elim found.0 [
      | inl (a, b) ↦ elim (b p there e) [ ]
      | inr (a, b, c, d) ↦ ap s.up_of (sym (ok.one_any s.up p a there b e)) ∙ c
    ]

    any_alone : type_of icmp p ≡ none → (q : ℕ) → Memᴰ q l → Covers icmp q p → q ≡ p
    any_alone e q k (inl f) = ok.one_any q p k there f e
    any_alone e q k (inr (t, f, g, h)) = absurd (cc (e, g))

    module _ (t : ℕ) (e : type_of icmp p ≡ some t) where
      -- Only 'icmp any' and what is like `p` can cover it.
      abbrev OnlyAny : Type 0
      OnlyAny = (q : ℕ) → Memᴰ q l → Covers icmp q p → (type_of icmp q ≡ none) ⊎ (q ≡ p)

      with_any : OnlyAny → SmallestAbove p s.up
      with_any only = elim found.0 [
        | inl (a, b) ↦
            inl (a, λ q k c. elim (only q k c) [ inl f ↦ elim (b q k f) [ ] | inr f ↦ f ])
        | inr (a, b, c, d) ↦ inr (
          a,
          type-differs icmp l ok ip s.up p t b e,
          inl b,
          λ q k f ne. elim (only q k f) [ inl g ↦ inl g | inr g ↦ absurd (ne g) ],
        )
      ]

      like :
          (q : ℕ)
          → Memᴰ q l
          → (u : ℕ) → type_of icmp q ≡ some u
          → type_of icmp p ≡ some u
          → code_of icmp q ≡ code_of icmp p
          → q ≡ p
      like q k u f g h = ok.one_each q p k there (f ∙ sym g) h

      only_type : code_of icmp p ≡ none → OnlyAny
      only_type n q k (inl f) = inl f
      only_type n q k (inr (u, f, g, inl h)) = inr (like q k u f g (h ∙ sym n))
      only_type n q k (inr (u, f, g, inr h)) = inr (like q k u f g h)

      with_type : (c : ℕ) → code_of icmp p ≡ some c → SmallestAbove p (type_or_any (s.m t) s.up)
      with_type c n = elim (found.1 t) [
        | inl (a, b) ↦ subst (SmallestAbove p) (sym (ap (λ o. type_or_any o s.up) a)) (
            with_any (λ q k w. elim w [
              | inl f ↦ inl f
              | inr (u, f, g, h) ↦ elim h [
                | inl i ↦
                    let same = some-injective u t (sym g ∙ e) in
                    elim (b q k (f ∙ ap some same) i) [ ]
                | inr i ↦ inr (like q k u f g i)
              ]
            ]))
        | inr (u, a, b, c', d) ↦ subst (SmallestAbove p) (sym (ap (λ o. type_or_any o s.up) a)) (
            inr (
              b,
              λ f. absurd (cc (d, n, f)),
              inr (t, c', e, inl d),
              λ q k w ne. elim w [
                | inl f ↦ inl f
                | inr (v, f, g, h) ↦ elim h [
                  | inl i ↦ inr (v, f, c' ∙ sym e ∙ g, inl i)
                  | inr i ↦ absurd (ne (like q k v f g i))
                ]
              ],
            ))
      ]

  start_any :
      (up_of : ℕ → ℕ) → AnyInv icmp l ok ip l (record { up_of = up_of; up = ip; m = λ t. none })
  start_any up_of = inl (refl, λ q k e. k)

  -- Where the protocols of the list differ, and what they stand for as well: `orderIcmp` sets `up` of each of
  -- them to the smallest other protocol of the list that covers it, and to ip where none does.
  pub order_icmp-SmallestAbove :
      (up_of : ℕ → ℕ) (p : ℕ) → Memᴰ p l → SmallestAbove p (order_icmp icmp l ip up_of p)
  unfolding order_icmp
  order_icmp-SmallestAbove up_of p there =
      let s = find_larger icmp l (record { up_of = up_of; up = ip; m = λ t. none }) in
      let found =
        find_larger-Found icmp l ok ip l (record { up_of = up_of; up = ip; m = λ t. none })
          (λ q k. k) ok.once (start_any up_of) (λ t. inl (refl, λ q k e f. k)) in
      elim (Option-cases (type_of icmp p)) [
        | inl e ↦ inl (
          set_larger-any icmp s.m s.up p l s.up_of e ∙ any_up p there s found e,
          any_alone p there s found e,
        )
        | inr (t, e) ↦
            let set = set_larger-type icmp s.m s.up p t l s.up_of e (inr there) in
            elim (Option-cases (code_of icmp p)) [
              | inl n ↦
                  subst (SmallestAbove p) (sym (set ∙ ap (value icmp s.m s.up t) n))
                    (with_any p there s found t e (only_type p there s found t e n))
              | inr (c, n) ↦
                  subst (SmallestAbove p) (sym (set ∙ ap (value icmp s.m s.up t) n))
                    (with_type p there s found t e c n)
            ]
      ]
