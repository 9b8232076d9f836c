-- ===== src/Protocols/Icmp/Smallest.antt =====
-- `orderIcmp` sets `up` of each protocol to the smallest one that is larger.
use mathlib.Core.List.{Memᴰ}
use mathlib.Core.List.Memᴰ.{head, tail}
use mathlib.Core.Option.{some-injective}
use netspoc.Prelude.{
  ℕ, ◌≡◌, ◌≢◌, ◌⊎◌, inl, inr, refl, sym, ap, ◌∙◌, subst, none, some, List, [], ◌∷◌, if◌then◌else◌,
  ◌==◌, ==_iff, Bool-cases, Option-cases, arith, All, All-Mem,
}
use netspoc.Prelude.Sort.{Pairwise}
use netspoc.Pass2.Rules.{update}
use netspoc.Protocols.Icmp.{IcmpProto, IcmpState, put_type, find_larger}
use netspoc.Protocols.Icmp.Assigned.{update_at, type_of, code_of}

-- The protocols of the list differ, in what they are as well.
pub record IcmpOk (icmp : ℕ → IcmpProto) (l : List ℕ) : Type 0 where
  pub once : Pairwise (λ p q. p ≢ q) l
  pub one_any :
      (p q : ℕ) → Memᴰ p l → Memᴰ q l → type_of icmp p ≡ none → type_of icmp q ≡ none → p ≡ q
  pub one_each :
      (p q : ℕ)
      → Memᴰ p l
      → Memᴰ q l
      → type_of icmp p ≡ type_of icmp q
      → code_of icmp p ≡ code_of icmp q
      → p ≡ q

module _ (icmp : ℕ → IcmpProto) (l : List ℕ) (ok : IcmpOk icmp l) (ip : ℕ) where
  -- 'icmp any' is still to come, or has been found.
  abbrev pub AnyInv : List ℕ → IcmpState → Type 0
  AnyInv rest s =
      ((s.up ≡ ip) × ((q : ℕ) → Memᴰ q l → type_of icmp q ≡ none → Memᴰ q rest))
      ⊎ (Memᴰ s.up l × (type_of icmp s.up ≡ none) × (s.up_of s.up ≡ ip) × ¬ Memᴰ s.up rest)

  -- 'icmp type' for this type is still to come, or has been found.
  abbrev pub TypeInv : List ℕ → IcmpState → ℕ → Type 0
  TypeInv rest s t =
      ((s.m t ≡ none)
        × ((q : ℕ) → Memᴰ q l → type_of icmp q ≡ some t → code_of icmp q ≡ none → Memᴰ q rest))
      ⊎ ((u : ℕ) × (s.m t ≡ some u)
          × Memᴰ u l
          × (type_of icmp u ≡ some t)
          × (code_of icmp u ≡ none))

  -- An element that the current one is not.
  later : (q p : ℕ) (ps : List ℕ) → Memᴰ q (p ∷ ps) → q ≢ p → Memᴰ q ps
  later q p ps (head e) ne = absurd (ne e)
  later q p ps (tail k) ne = k

  not_later : (p : ℕ) (ps : List ℕ) → All (λ q. p ≢ q) ps → ¬ Memᴰ p ps
  not_later p ps h k = All-Mem (λ q. p ≢ q) ps p h k refl

  pub type-differs : (q p t : ℕ) → type_of icmp q ≡ none → type_of icmp p ≡ some t → q ≢ p
  type-differs q p t e f s = absurd (cc (e, f, ap (type_of icmp) s))

  AnyInv-other :
      (p t : ℕ) (ps : List ℕ) (s s' : IcmpState)
      → type_of icmp p ≡ some t
      → s'.up ≡ s.up
      → s'.up_of ≡ s.up_of
      → AnyInv (p ∷ ps) s
      → AnyInv ps s'
  AnyInv-other p t ps s s' e f g (inl (a, b)) =
      inl (f ∙ a, λ q k n. later q p ps (b q k n) (type-differs q p t n e))
  AnyInv-other p t ps s s' e f g (inr (a, b, c, d)) = inr (
    subst (λ u. Memᴰ u l) (sym f) a,
    ap (type_of icmp) f ∙ b,
    ap (λ h. h s'.up) g ∙ ap s.up_of f ∙ c,
    λ k. d (tail (subst (λ u. Memᴰ u ps) f k)),
  )

  TypeInv-other :
      (p t : ℕ) (ps : List ℕ) (s s' : IcmpState)
      → s'.m t ≡ s.m t
      → (type_of icmp p ≡ some t → code_of icmp p ≡ none → ⊥)
      → TypeInv (p ∷ ps) s t
      → TypeInv ps s' t
  TypeInv-other p t ps s s' f ne (inl (a, b)) = inl (
    f ∙ a,
    λ q k n c.
        later q p ps (b q k n c)
          (λ e. ne (ap (type_of icmp) (sym e) ∙ n) (ap (code_of icmp) (sym e) ∙ c)),
  )
  TypeInv-other p t ps s s' f ne (inr (u, a, b, c, d)) = inr (u, f ∙ a, b, c, d)

  abbrev pub Found : IcmpState → Type 0
  Found s = AnyInv [] s × ((t : ℕ) → TypeInv [] s t)

  pub find_larger-Found :
      (rest : List ℕ) (s : IcmpState)
      → ((q : ℕ) → Memᴰ q rest → Memᴰ q l)
      → Pairwise (λ p q. p ≢ q) rest
      → AnyInv rest s
      → ((t : ℕ) → TypeInv rest s t)
      → Found (find_larger icmp rest s)
  unfolding find_larger
  find_larger-Found [] s sub differ any types = (any, types)
  find_larger-Found (p ∷ ps) s sub differ any types =
      let next = λ (s' : IcmpState). find_larger-Found ps s' (λ q k. sub q (tail k)) differ.1 in
      elim (Option-cases (type_of icmp p)) [
        | inl e ↦
            let s' : IcmpState = record s { up_of = update s.up_of p s.up; up = p } in
            let first : s.up ≡ ip = elim any [
              | inl a ↦ a.0
              | inr (a, b, c, d) ↦ absurd (d (head (ok.one_any s.up p a (sub p (head refl)) b e)))
            ] in
            let any' : AnyInv ps s' =
              inr
                (sub p (head refl), e, update_at s.up_of p s.up ∙ first, not_later p ps differ.0) in
            rw (e, find_larger)
              (next s' any'
                (λ t. TypeInv-other p t ps s s' refl (λ f c. absurd (cc (e, f))) (types t)))
        | inr (t, e) ↦ elim (Option-cases (code_of icmp p)) [
          | inr (c, f) ↦
              rw (e, f, find_larger)
                (next s (AnyInv-other p t ps s s e refl refl any)
                  (λ u. TypeInv-other p u ps s s refl (λ g h. absurd (cc (f, h))) (types u)))
          | inl f ↦
              let s' : IcmpState = record s { m = put_type s.m t p } in
              let types' : (u : ℕ) → TypeInv ps s' u = λ u. elim (Bool-cases (t == u)) [
                | inl g ↦
                    let same = (==_iff t u).0 g in
                    inr (
                      p,
                      ap (λ b. if b then some p else s.m u) g,
                      sub p (head refl),
                      e ∙ ap some same,
                      f,
                    )
                | inr g ↦
                    TypeInv-other p u ps s s' (ap (λ b. if b then some p else s.m u) g)
                      (λ h c. let same = some-injective t u (sym e ∙ h) in ground (arith, g, same))
                      (types u)
              ] in
              rw (e, f, find_larger) (next s' (AnyInv-other p t ps s s' e refl refl any) types')
        ]
      ]
