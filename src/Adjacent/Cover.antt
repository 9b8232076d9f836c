-- ===== src/Adjacent/Cover.antt =====
-- `combineSubnets`: one combination of two subnets keeps what is covered.
use mathlib.Core.List.{Memᴰ}
use mathlib.Core.List.Memᴰ.{head, tail}
use netspoc.Prelude.{
  ℕ, ◌≡◌, ◌≢◌, ◌⊎◌, inl, inr, refl, sym, ap, ◌∙◌, subst, Bool, true, false, ◌||◌, List, [], ◌∷◌,
  ◌++◌, if◌then◌else◌, ◌==◌, ==_iff, ==_refl, Bool-cases, arith, any, Mem-behind, any-append,
}
use netspoc.Pass2.Rules.{update}
use netspoc.Adjacent.{without}

-- An element of the list, or what stands in the place of one.
pub Mem-replace :
    (p s x : ℕ) (done rest : List ℕ)
    → Memᴰ p (done ++ s ∷ rest)
    → (p ≡ s) ⊎ Memᴰ p (done ++ x ∷ rest)
Mem-replace p s x [] rest (head e) = inl e
Mem-replace p s x [] rest (tail h) = inr (tail h)
Mem-replace p s x (d ∷ ds) rest (head e) = inr (head e)
Mem-replace p s x (d ∷ ds) rest (tail h) = elim (Mem-replace p s x ds rest h) [
  | inl e ↦ inl e
  | inr k ↦ inr (tail k)
]

or_last : (a b : Bool) → (a || (b || false)) ≡ (a || b)
or_last a b = ground arith

module _ (has : ℕ → Bool) (has_net : ℕ → Bool) (cov : Bool) where
  abbrev pub Covered : List ℕ → (ℕ → Bool) → List ℕ → Type 0
  Covered slots m nets =
      ((p : ℕ) × Memᴰ p slots × (m p ≡ true) × (has p ≡ true)) ⊎ (any has_net nets ≡ true)

  -- For one address: it is covered by a subnet in use or by a network, as it was from the start. A
  -- subnet that was in use was covered.
  pub record Keeps (slots : List ℕ) (m : ℕ → Bool) (nets : List ℕ) : Type 0 where
    pub into : Covered slots m nets → cov ≡ true
    pub back : cov ≡ true → Covered slots m nets
    pub stale : (p : ℕ) → Memᴰ p slots → has p ≡ true → cov ≡ true
    pub keys : (p : ℕ) → m p ≡ true → Memᴰ p slots

  without_lem :
      (s n p : ℕ) (m : ℕ → Bool) → without s n m p ≡ true → (m p ≡ true) × (p ≢ s) × (p ≢ n)
  without_lem s n p m e = elim (Bool-cases (n == p)) [
    | inl a ↦ absurd (cc (sym e ∙ ap (λ b. if b then false else update m s false p) a))
    | inr a ↦
        let e' = sym (ap (λ b. if b then false else update m s false p) a) ∙ e in
        elim (Bool-cases (s == p)) [
          | inl b ↦ absurd (cc (sym e' ∙ ap (λ k. if k then false else m p) b))
          | inr b ↦
              let e'' = sym (ap (λ k. if k then false else m p) b) ∙ e' in
              (e'', λ q. absurd (ground (arith, b, q)), λ q. absurd (ground (arith, a, q)))
        ]
  ]

  without_else : (s n p : ℕ) (m : ℕ → Bool) → (p ≡ s) ⊎ ((p ≡ n) ⊎ (without s n m p ≡ m p))
  without_else s n p m = elim (Bool-cases (n == p)) [
    | inl a ↦ inr (inl (sym ((==_iff n p).0 a)))
    | inr a ↦ elim (Bool-cases (s == p)) [
      | inl b ↦ inl (sym ((==_iff s p).0 b))
      | inr b ↦ inr (
          inr (
            ap (λ k. if k then false else update m s false p) a
            ∙ ap (λ k. if k then false else m p) b))
    ]
  ]

  -- What the two subnets have.
  module _ (s n : ℕ) (m : ℕ → Bool) (nets : List ℕ) (done rest : List ℕ)
      (c : Keeps (done ++ s ∷ rest) m nets) (used : m n ≡ true) where
    pair-cov : (has s || has n) ≡ true → cov ≡ true
    pair-cov e = elim (Bool-cases (has s)) [
      | inl a ↦ c.stale s (Mem-behind done (s ∷ rest) (head refl)) a
      | inr a ↦ c.stale n (c.keys n used) (sym (ap (λ k. k || has n) a) ∙ e)
    ]

    has_pair : (p : ℕ) → (p ≡ s) ⊎ (p ≡ n) → has p ≡ true → (has s || has n) ≡ true
    has_pair p (inl e) h = let f = ap has (sym e) ∙ h in ground (arith, f)
    has_pair p (inr e) h = let f = ap has (sym e) ∙ h in ground (arith, f)

    module _ (x : ℕ) (whole : has x ≡ (has s || has n)) where
      abbrev m' : ℕ → Bool
      m' = update (without s n m) x true

      at : m' x ≡ true
      at = ap (λ b. if b then true else without s n m x) (==_refl x)

      of_m' : (p : ℕ) → m' p ≡ true → (x ≡ p) ⊎ ((m p ≡ true) × (p ≢ s) × (p ≢ n))
      of_m' p e = elim (Bool-cases (x == p)) [
        | inl a ↦ inl ((==_iff x p).0 a)
        | inr a ↦
            inr (without_lem s n p m (sym (ap (λ b. if b then true else without s n m p) a) ∙ e))
      ]

      keep-m' : (p : ℕ) → m p ≡ true → (p ≡ s) ⊎ ((p ≡ n) ⊎ (m' p ≡ true))
      keep-m' p e = elim (without_else s n p m) [
        | inl a ↦ inl a
        | inr (inl a) ↦ inr (inl a)
        | inr (inr a) ↦ inr (
            inr (elim (Bool-cases (x == p)) [
              | inl b ↦ ap (λ k. if k then true else without s n m p) b
              | inr b ↦ ap (λ k. if k then true else without s n m p) b ∙ a ∙ e
            ]))
      ]

      there : Memᴰ x (done ++ x ∷ rest)
      there = Mem-behind done (x ∷ rest) (head refl)

      into-subnet : Covered (done ++ x ∷ rest) m' nets → cov ≡ true
      into-subnet (inr h) = c.into (inr h)
      into-subnet (inl (p, k, e, h)) = elim (of_m' p e) [
        | inl a ↦ pair-cov (sym whole ∙ ap has a ∙ h)
        | inr (f, ns, nn) ↦ elim (Mem-replace p x s done rest k) [
          | inl a ↦ pair-cov (sym whole ∙ ap has (sym a) ∙ h)
          | inr k' ↦ c.into (inl (p, k', f, h))
        ]
      ]

      by_whole : (has s || has n) ≡ true → Covered (done ++ x ∷ rest) m' nets
      by_whole e = inl (x, there, at, whole ∙ e)

      back-subnet : cov ≡ true → Covered (done ++ x ∷ rest) m' nets
      back-subnet e = elim (c.back e) [
        | inr h ↦ inr h
        | inl (p, k, f, h) ↦ elim (keep-m' p f) [
          | inl a ↦ by_whole (has_pair p (inl a) h)
          | inr (inl a) ↦ by_whole (has_pair p (inr a) h)
          | inr (inr g) ↦ elim (Mem-replace p s x done rest k) [
            | inl a ↦ by_whole (has_pair p (inl a) h)
            | inr k' ↦ inl (p, k', g, h)
          ]
        ]
      ]

      pub Keeps-subnet : Keeps (done ++ x ∷ rest) m' nets
      Keeps-subnet = record {
        into = into-subnet;
        back = back-subnet;
        stale = λ p k h. elim (Mem-replace p x s done rest k) [
          | inl a ↦ pair-cov (sym whole ∙ ap has (sym a) ∙ h)
          | inr k' ↦ c.stale p k' h
        ];
        keys = λ p e. elim (of_m' p e) [
          | inl a ↦ subst (λ q. Memᴰ q (done ++ x ∷ rest)) a there
          | inr (f, ns, nn) ↦ elim (Mem-replace p s x done rest (c.keys p f)) [
            | inl a ↦ absurd (ns a)
            | inr k' ↦ k'
          ]
        ];
      }

    module _ (x : ℕ) (whole : has_net x ≡ (has s || has n)) where
      last : any has_net (nets ++ x ∷ []) ≡ (any has_net nets || has_net x)
      last = any-append has_net nets (x ∷ []) ∙ or_last (any has_net nets) (has_net x)

      by_net : (has s || has n) ≡ true → any has_net (nets ++ x ∷ []) ≡ true
      by_net e = let f = whole ∙ e in ground (arith, last, f)

      pub Keeps-network : Keeps (done ++ s ∷ rest) (without s n m) (nets ++ x ∷ [])
      Keeps-network = record {
        into = λ h. elim h [
          | inl (p, k, e, h') ↦ c.into (inl (p, k, (without_lem s n p m e).0, h'))
          | inr e ↦ elim (Bool-cases (any has_net nets)) [
            | inl a ↦ c.into (inr a)
            | inr a ↦ pair-cov (sym whole ∙ sym (ap (λ k. k || has_net x) a) ∙ sym last ∙ e)
          ]
        ];
        back = λ e. elim (c.back e) [
          | inr h ↦ inr (ground (arith, last, h))
          | inl (p, k, f, h) ↦ elim (without_else s n p m) [
            | inl a ↦ inr (by_net (has_pair p (inl a) h))
            | inr (inl a) ↦ inr (by_net (has_pair p (inr a) h))
            | inr (inr g) ↦ inl (p, k, g ∙ f, h)
          ]
        ];
        stale = c.stale;
        keys = λ p e. c.keys p (without_lem s n p m e).0;
      }
