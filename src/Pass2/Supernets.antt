-- ===== src/Pass2/Supernets.antt =====
-- go/cmd/spoc2/main.go: `markSupernetsOfNeedProtect`.
use mathlib.Core.List.{Memᴰ}
use mathlib.Core.List.Memᴰ.{head, tail}
use mathlib.Core.Option.{some-injective}
use netspoc.Prelude.{
  ℕ, zero, suc, ◌<◌, ◌≡◌, inl, inr, refl, sym, ap, ◌∙◌, true, Option, none, some, List, [], ◌∷◌,
  ◌==◌, ==_iff, arith, Bool-cases,
}
use netspoc.Pass2.Rules.{IpNet, update}
use netspoc.Pass2.Redundant.Visits.{Above, here, there}

-- `up.isSupernetOfNeedProtect[intf] = true`
mark_net : ℕ → ℕ → (ℕ → IpNet) → ℕ → IpNet
mark_net intf q net =
    update net q
      (record (net q) { is_supernet_of_need_protect = intf ∷ (net q).is_supernet_of_need_protect })

-- The loop over the networks above an interface.
mark_above : ℕ → ℕ → Option ℕ → (ℕ → IpNet) → ℕ → IpNet
unfolding mark_net
mark_above zero intf up net = net
mark_above (suc fuel) intf none net = net
mark_above (suc fuel) intf (some q) net = mark_above fuel intf (net q).up (mark_net intf q net)

pub mark_supernets_of_need_protect : ℕ → List ℕ → (ℕ → IpNet) → ℕ → IpNet
unfolding mark_above
mark_supernets_of_need_protect fuel [] net = net
mark_supernets_of_need_protect fuel (intf ∷ intfs) net =
    mark_supernets_of_need_protect fuel intfs (mark_above fuel intf (net intf).up net)

-- The interface is known to lie in the network.
abbrev Knows : ℕ → IpNet → Type 0
Knows intf n = Memᴰ intf n.is_supernet_of_need_protect

mark_net-up : (intf q : ℕ) (net : ℕ → IpNet) (p : ℕ) → (mark_net intf q net p).up ≡ (net p).up
unfolding mark_net
mark_net-up intf q net p = elim (Bool-cases (q == p)) [
  | inl e ↦ let same = (==_iff q p).0 e in rw (e, same) refl
  | inr e ↦ rw e refl
]

mark_net-Knows_old :
    (intf q : ℕ) (net : ℕ → IpNet) (i p : ℕ) → Knows i (net p) → Knows i (mark_net intf q net p)
unfolding mark_net
mark_net-Knows_old intf q net i p m = elim (Bool-cases (q == p)) [
  | inl e ↦ let same = (==_iff q p).0 e in rw (e, same) (tail m)
  | inr e ↦ rw e m
]

mark_net-Knows_new : (intf q : ℕ) (net : ℕ → IpNet) → Knows intf (mark_net intf q net q)
unfolding mark_net
mark_net-Knows_new intf q net = let e : (q == q) ≡ true = ground arith in rw e (head refl)

mark_above-up :
    (fuel intf : ℕ) (o : Option ℕ) (net : ℕ → IpNet) (p : ℕ)
    → (mark_above fuel intf o net p).up ≡ (net p).up
unfolding mark_above
mark_above-up zero intf o net p = refl
mark_above-up (suc fuel) intf none net p = refl
mark_above-up (suc fuel) intf (some q) net p =
    mark_above-up fuel intf (net q).up (mark_net intf q net) p ∙ mark_net-up intf q net p

mark_above-Knows_old :
    (fuel intf : ℕ) (o : Option ℕ) (net : ℕ → IpNet) (i p : ℕ)
    → Knows i (net p)
    → Knows i (mark_above fuel intf o net p)
unfolding mark_above
mark_above-Knows_old zero intf o net i p m = m
mark_above-Knows_old (suc fuel) intf none net i p m = m
mark_above-Knows_old (suc fuel) intf (some q) net i p m =
    mark_above-Knows_old fuel intf (net q).up (mark_net intf q net) i p
      (mark_net-Knows_old intf q net i p m)

module _ (up : ℕ → Option ℕ) (rank : ℕ → ℕ)
    (falls : (p q : ℕ) → up p ≡ some q → rank q < rank p) where
  mark_above-Knows_new :
      (fuel intf : ℕ) (o : Option ℕ) (net : ℕ → IpNet) (p q : ℕ)
      → ((p : ℕ) → (net p).up ≡ up p)
      → o ≡ some p
      → rank p < fuel
      → Above up p q
      → Knows intf (mark_above fuel intf o net q)
  unfolding mark_above
  mark_above-Knows_new zero intf o net p q same e lt a = absurd (omega arith)
  mark_above-Knows_new (suc fuel) intf none net p q same e lt a = cc
  mark_above-Knows_new (suc fuel) intf (some r) net p q same e lt here =
      let r_p : r ≡ p = some-injective r p e in
      mark_above-Knows_old fuel intf (net r).up (mark_net intf r net) intf p
        (rw (sym r_p) (mark_net-Knows_new intf r net))
  mark_above-Knows_new (suc fuel) intf (some r) net p q same e lt (there {q = p'} step a) =
      let r_p : r ≡ p = some-injective r p e in
      mark_above-Knows_new fuel intf (net r).up (mark_net intf r net) p' q
        (λ x. mark_net-up intf r net x ∙ same x) (same r ∙ ap up r_p ∙ step)
        (omega (arith, falls p p' step)) a

  mark_all-Knows_old :
      (fuel : ℕ) (intfs : List ℕ) (net : ℕ → IpNet) (i p : ℕ)
      → Knows i (net p)
      → Knows i (mark_supernets_of_need_protect fuel intfs net p)
  unfolding mark_supernets_of_need_protect
  mark_all-Knows_old fuel [] net i p m = m
  mark_all-Knows_old fuel (j ∷ intfs) net i p m =
      mark_all-Knows_old fuel intfs (mark_above fuel j (net j).up net) i p
        (mark_above-Knows_old fuel j (net j).up net i p m)

  -- Where the chains of networks end, and the one above an interface is not longer than the fuel,
  -- each network above an interface that needs protection is marked as one of its supernets.
  pub mark_supernets-Above :
      (fuel : ℕ) (intfs : List ℕ) (net : ℕ → IpNet) (intf p q : ℕ)
      → ((x : ℕ) → (net x).up ≡ up x)
      → Memᴰ intf intfs
      → up intf ≡ some p
      → rank p < fuel
      → Above up p q
      → Memᴰ intf (mark_supernets_of_need_protect fuel intfs net q).is_supernet_of_need_protect
  unfolding mark_supernets_of_need_protect
  mark_supernets-Above fuel [] net intf p q same m e lt a = elim m [ ]
  mark_supernets-Above fuel (j ∷ intfs) net intf p q same (head eq) e lt a =
      mark_all-Knows_old fuel intfs (mark_above fuel j (net j).up net) intf q (
        rw eq
          (mark_above-Knows_new fuel j (net j).up net p q same (same j ∙ ap up (sym eq) ∙ e) lt a))
  mark_supernets-Above fuel (j ∷ intfs) net intf p q same (tail m) e lt a =
      mark_supernets-Above fuel intfs (mark_above fuel j (net j).up net) intf p q
        (λ x. mark_above-up fuel j (net j).up net x ∙ same x) m e lt a
