-- ===== src/Protocols/Icmp/Assigned.antt =====
-- `orderIcmp`: what its second loop sets.
use mathlib.Core.List.{Memᴰ}
use mathlib.Core.List.Memᴰ.{head, tail}
use mathlib.Core.Option.{some-injective}
use netspoc.Prelude.{
  ℕ, ◌≡◌, ◌⊎◌, inl, inr, refl, sym, ap, ◌∙◌, false, Option, none, some, List, [], ◌∷◌,
  if◌then◌else◌, ◌==◌, ==_iff, ==_refl, Bool-cases, Option-cases, arith,
}
use netspoc.Pass2.Rules.{update}
use netspoc.Protocols.Icmp.{IcmpProto, TypeMap, type_or_any, set_larger}

pub update_at : (f : ℕ → ℕ) (p a : ℕ) → update f p a p ≡ a
update_at f p a = ap (λ b. if b then a else f p) (==_refl p)

module _ (icmp : ℕ → IcmpProto) where
  abbrev pub type_of : ℕ → Option ℕ
  type_of p = (icmp p).icmp_type

  abbrev pub code_of : ℕ → Option ℕ
  code_of p = (icmp p).icmp_code

  -- The messages of `p` are messages of `q`.
  abbrev pub Covers : ℕ → ℕ → Type 0
  Covers q p =
      (type_of q ≡ none)
      ⊎ ((t : ℕ) × (type_of q ≡ some t)
          × (type_of p ≡ some t)
          × ((code_of q ≡ none) ⊎ (code_of q ≡ code_of p)))

  -- What the second loop sets for a protocol with a type.
  abbrev pub value : TypeMap → ℕ → ℕ → Option ℕ → ℕ
  value m up t none = up
  value m up t (some c) = type_or_any (m t) up

  pub set_larger-any :
      (m : TypeMap) (up p : ℕ) (ps : List ℕ) (up_of : ℕ → ℕ)
      → type_of p ≡ none
      → set_larger icmp m up ps up_of p ≡ up_of p
  unfolding set_larger
  set_larger-any m up p [] up_of e = refl
  set_larger-any m up p (q ∷ qs) up_of e = elim (Option-cases (type_of q)) [
    | inl f ↦ rw (f, set_larger) (set_larger-any m up p qs up_of e)
    | inr (t, f) ↦
        let ne : (q == p) ≡ false = elim (Bool-cases (q == p)) [
          | inl same ↦ absurd (cc (ap type_of ((==_iff q p).0 same), e, f))
          | inr other ↦ other
        ] in
        elim (Option-cases (code_of q)) [
          | inl g ↦
              rw (f, g, set_larger)
                (set_larger-any m up p qs (update up_of q up) e
                  ∙ ap (λ b. if b then up else up_of p) ne)
          | inr (c, g) ↦
              let v = type_or_any (m t) up in
              rw (f, g, set_larger)
                (set_larger-any m up p qs (update up_of q v) e
                  ∙ ap (λ b. if b then v else up_of p) ne)
        ]
  ]

  -- One assignment to a protocol.
  assigned :
      (up_of : ℕ → ℕ) (q p v w : ℕ)
      → (q ≡ p → v ≡ w)
      → (up_of p ≡ w) ⊎ (q ≡ p)
      → update up_of q v p ≡ w
  assigned up_of q p v w same h = elim (Bool-cases (q == p)) [
    | inl e ↦ ap (λ b. if b then v else up_of p) e ∙ same ((==_iff q p).0 e)
    | inr e ↦
        ap (λ b. if b then v else up_of p) e
        ∙ elim h [ inl f ↦ f | inr f ↦ absurd (ground (arith, e, f)) ]
  ]

  pub set_larger-type :
      (m : TypeMap) (up p t : ℕ) (ps : List ℕ) (up_of : ℕ → ℕ)
      → type_of p ≡ some t
      → (up_of p ≡ value m up t (code_of p)) ⊎ Memᴰ p ps
      → set_larger icmp m up ps up_of p ≡ value m up t (code_of p)
  unfolding set_larger
  set_larger-type m up p t [] up_of e h = elim h [ inl f ↦ f | inr k ↦ elim k [ ] ]
  set_larger-type m up p t (q ∷ qs) up_of e h =
      let w = value m up t (code_of p) in
      let split : (v : ℕ) → (q ≡ p → v ≡ w) → (update up_of q v p ≡ w) ⊎ Memᴰ p qs = λ v same.
        elim h [
          | inl f ↦ inl (assigned up_of q p v w same (inl f))
          | inr k ↦ elim k [
            | head f ↦ inl (assigned up_of q p v w same (inr (sym f)))
            | tail k' ↦ inr k'
          ]
        ] in
      elim (Option-cases (type_of q)) [
        | inl f ↦
            let h' : (up_of p ≡ w) ⊎ Memᴰ p qs = elim h [
              | inl g ↦ inl g
              | inr k ↦ elim k [ head g ↦ absurd (cc (ap type_of g, e, f)) | tail k' ↦ inr k' ]
            ] in
            rw (f, set_larger) (set_larger-type m up p t qs up_of e h')
        | inr (u, f) ↦ elim (Option-cases (code_of q)) [
          | inl g ↦
              rw (f, g, set_larger)
                (set_larger-type m up p t qs (update up_of q up) e
                  (split up (λ s. ap (value m up t) (sym g ∙ ap code_of s))))
          | inr (c, g) ↦
              let v = type_or_any (m u) up in
              rw (f, g, set_larger)
                (set_larger-type m up p t qs (update up_of q v) e (
                  split v (λ s.
                    let same_type = some-injective u t (sym f ∙ ap type_of s ∙ e) in
                    ap (λ k. type_or_any (m k) up) same_type
                    ∙ ap (value m up t) (sym g ∙ ap code_of s))))
        ]
      ]
