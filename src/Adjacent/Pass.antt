-- ===== src/Adjacent/Pass.antt =====
-- `combineSubnets`: the rounds over the subnets, and that they end.
use mathlib.Core.List.{append_assoc}
use netspoc.Prelude.{
  ℕ, zero, suc, ◌≤◌, ◌<◌, ◌≡◌, ◌⊎◌, inl, inr, refl, sym, ap, ◌∙◌, subst, Bool, true, false, ◌||◌,
  some, List, [], ◌∷◌, ◌++◌, Bool-cases, Option-cases, arith,
}
use netspoc.Pass2.Rules.{update}
use netspoc.Adjacent.{
  UpObj, UpObj.up_network, UpObj.up_subnet, UpObj.up_other, HostSubnet, without, Combining,
  keep_first, combine_round, combine_rounds, sum_prefixes,
}
use netspoc.Adjacent.Cover.{Keeps, Keeps-subnet, Keeps-network}

UpObj-cases :
    (u : UpObj) → ((x : ℕ) × (u ≡ up_network x)) ⊎ (((x : ℕ) × (u ≡ up_subnet x)) ⊎ (u ≡ up_other))
UpObj-cases (up_network x) = inl (x, refl)
UpObj-cases (up_subnet x) = inr (inl (x, refl))
UpObj-cases up_other = inr (inr refl)

module _ (store : ℕ → HostSubnet) (has has_net : ℕ → Bool) (cov : Bool) where
  -- What takes the place of two neighbors covers the same, and is larger.
  abbrev pub UpOk : ℕ → ℕ → UpObj → Type 0
  UpOk s n (up_network x) = has_net x ≡ (has s || has n)
  UpOk s n (up_subnet x) = (has x ≡ (has s || has n)) × ((store x).prefix < (store s).prefix)
  UpOk s n up_other = ⊥

  abbrev pub NeighborsOk : Type 0
  NeighborsOk = (s n : ℕ) → (store s).neighbor ≡ some n → UpOk s n (store s).up

  abbrev Kept : List ℕ → Combining → Type 0
  Kept done c = Keeps has has_net cov (done ++ c.subnets) c.m c.networks

  record Round (done rest : List ℕ) (again : Bool) (c : Combining) : Type 0 where
    pub kept : Kept done c
    pub smaller : sum_prefixes store c.subnets ≤ sum_prefixes store rest
    pub less :
        c.again ≡ true → again ≡ false → sum_prefixes store c.subnets < sum_prefixes store rest

  one_on : (done : List ℕ) (s : ℕ) (rest : List ℕ) → (done ++ s ∷ []) ++ rest ≡ done ++ s ∷ rest
  one_on done s rest = append_assoc done (s ∷ []) rest

  -- The first subnet is `x` after the round.
  Round-first :
      (done : List ℕ) (s x : ℕ) (rest : List ℕ) (again now : Bool) (c : Combining)
      → Round (done ++ x ∷ []) rest now c
      → ((x ≡ s) × (now ≡ again)) ⊎ ((store x).prefix < (store s).prefix)
      → Round done (s ∷ rest) again (keep_first x c)
  Round-first done s x rest again now c r how = record {
    kept = subst (λ l. Keeps has has_net cov l c.m c.networks) (one_on done x c.subnets) r.kept;
    smaller = elim how [
      | inl same ↦ let e = ap (λ q. (store q).prefix) same.0 in omega (arith, e, r.smaller)
      | inr lt ↦ omega (arith, lt, r.smaller)
    ];
    less = λ e f. elim how [
      | inl same ↦
          let g = ap (λ q. (store q).prefix) same.0 in
          let h = r.less e (same.1 ∙ f) in omega (arith, g, h)
      | inr lt ↦ omega (arith, lt, r.smaller)
    ];
  }

  module _ (ok : NeighborsOk) where
    combine_round-Round :
        (rest done : List ℕ) (m : ℕ → Bool) (nets : List ℕ) (again : Bool)
        → Keeps has has_net cov (done ++ rest) m nets
        → Round done rest again (combine_round store rest m nets again)
    unfolding combine_round
    combine_round-Round [] done m nets again c = record {
      kept = c;
      smaller = omega arith;
      less = λ e f. absurd (cc (e, f));
    }
    combine_round-Round (s ∷ ss) done m nets again c =
        let next =
          λ (x : ℕ) (m' : ℕ → Bool) (nets' : List ℕ) (now : Bool)
              (k : Keeps has has_net cov (done ++ x ∷ ss) m' nets').
            combine_round-Round ss (done ++ x ∷ []) m' nets' now
              (subst (λ l. Keeps has has_net cov l m' nets') (sym (one_on done x ss)) k) in
        let skip =
          Round-first done s s ss again again (combine_round store ss m nets again)
            (next s m nets again c) (inl (refl, refl)) in
        elim (Option-cases (store s).neighbor) [
          | inl e ↦ rw (e, combine_round) skip
          | inr (n, e) ↦ elim (Bool-cases (m n)) [
            | inr f ↦ rw (e, f, combine_round) skip
            | inl f ↦ elim (UpObj-cases (store s).up) [
              | inl (x, g) ↦
                  let up = subst (UpOk s n) g (ok s n e) in
                  let kept = Keeps-network has has_net cov s n m nets done ss c f x up in
                  let nets' = nets ++ x ∷ [] in
                  rw (e, f, g, combine_round)
                    (Round-first done s s ss again again
                      (combine_round store ss (without s n m) nets' again)
                      (next s (without s n m) nets' again kept) (inl (refl, refl)))
              | inr (inl (x, g)) ↦
                  let up = subst (UpOk s n) g (ok s n e) in
                  let kept = Keeps-subnet has has_net cov s n m nets done ss c f x up.0 in
                  let m' = update (without s n m) x true in
                  rw (e, f, g, combine_round)
                    (Round-first done s x ss again true (combine_round store ss m' nets true)
                      (next x m' nets true kept) (inr up.1))
              | inr (inr g) ↦ absurd (subst (UpOk s n) g (ok s n e))
            ]
          ]
        ]

    pub combine_rounds-Keeps :
        (fuel : ℕ) (slots : List ℕ) (m : ℕ → Bool) (nets : List ℕ)
        → Keeps has has_net cov slots m nets
        → sum_prefixes store slots < fuel
        → (c : Combining) × (combine_rounds store fuel slots m nets ≡ some c)
          × Keeps has has_net cov c.subnets c.m c.networks
    unfolding combine_rounds
    combine_rounds-Keeps zero slots m nets k lt = absurd (omega (arith, lt))
    combine_rounds-Keeps (suc fuel) slots m nets k lt =
        let c = combine_round store slots m nets false in
        let r = combine_round-Round slots [] m nets false k in
        elim (Bool-cases c.again) [
          | inr e ↦ (c, rw (e, combine_rounds) refl, r.kept)
          | inl e ↦
              let less = r.less e refl in
              let (d, ran, kept) =
                combine_rounds-Keeps fuel c.subnets c.m c.networks r.kept
                  (omega (arith, less, lt)) in
              (d, rw (e, combine_rounds) ran, kept)
        ]
