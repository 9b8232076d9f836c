-- ===== src/Pass2/Optimize/Survive.antt =====
-- After the first phase of `optimizeRules` each rule has a rule above it that is not deleted.
use mathlib.Core.Path.{subst}
use netspoc.Prelude.{
  ℕ, zero, suc, ◌+◌, ◌<◌, ◌≡◌, ◌≢◌, ◌⊎◌, inl, inr, refl, sym, ap, ◌∙◌, Bool, true, false, Option,
  some, arith, Bool-cases,
}
use netspoc.Pass2.Rules.{Objects, State, net_up, prt_up}
use netspoc.Pass2.Redundant.{RuleTree, Key, find, key_of, optimize_redundant_rules}
use netspoc.Pass2.Redundant.Visits.{
  Above, here, there, DenyAbove, same, over, optimize_redundant_rules-Keeps,
}
use netspoc.Pass2.Redundant.Tree.{KeyAbove, Found, Hit5→Found}
use netspoc.Pass2.Optimize.Marks.{Marks, Marks-refl, Marks-delete}
use netspoc.Pass2.Optimize.Fill.{Filled}

-- The chains of `up` end: a rank falls along them.
pub record Ranked (h : Objects) : Type 0 where
  pub net_rank : ℕ → ℕ
  pub prt_rank : ℕ → ℕ
  pub net_falls : (p q : ℕ) → net_up h p ≡ some q → net_rank q < net_rank p
  pub prt_falls : (p q : ℕ) → prt_up h p ≡ some q → prt_rank q < prt_rank p

Above-rank :
    (up : ℕ → Option ℕ) (rank : ℕ → ℕ)
    → ((p q : ℕ) → up p ≡ some q → rank q < rank p)
    → {p q : ℕ} → Above up p q
    → (p ≡ q) ⊎ (rank q < rank p)
Above-rank up rank falls here = inl refl
Above-rank up rank falls (there {p} {q} {r} e a) =
    let step = falls p q e in
    inr (elim (Above-rank up rank falls a) [
      | inl e' ↦ subst (λ x. rank x < rank p) e' step
      | inr lt ↦ omega arith
    ])

pub Above-trans : {up : ℕ → Option ℕ} {p q r : ℕ} → Above up p q → Above up q r → Above up p r
Above-trans here b = b
Above-trans (there e a) b = there e (Above-trans a b)

DenyAbove-trans : {a b c : Bool} → DenyAbove a b → DenyAbove b c → DenyAbove a c
DenyAbove-trans same b = b
DenyAbove-trans over same = over

pub KeyAbove-refl : (h : Objects) (k : Key) → KeyAbove h k k
KeyAbove-refl h k = record { deny = same; range = here; src = here; dst = here; prt = here }

KeyAbove-trans : {h : Objects} {a b c : Key} → KeyAbove h a b → KeyAbove h b c → KeyAbove h a c
KeyAbove-trans x y = record {
  deny = DenyAbove-trans x.deny y.deny;
  range = Above-trans x.range y.range;
  src = Above-trans x.src y.src;
  dst = Above-trans x.dst y.dst;
  prt = Above-trans x.prt y.prt;
}

deny_rank : Bool → ℕ
deny_rank true = 0
deny_rank false = 1

module _ (h : Objects) (ranked : Ranked h) where
  open ranked use {net_rank, prt_rank, net_falls, prt_falls}

  rank : Key → ℕ
  rank k = deny_rank k.deny + prt_rank k.range + net_rank k.src + net_rank k.dst + prt_rank k.prt

  DenyAbove-rank : {a b : Bool} → DenyAbove a b → (a ≡ b) ⊎ (deny_rank b < deny_rank a)
  unfolding deny_rank
  DenyAbove-rank same = inl refl
  DenyAbove-rank over = inr (omega arith)

  KeyAbove-rank : (k k' : Key) → KeyAbove h k k' → (k ≡ k') ⊎ (rank k' < rank k)
  unfolding rank
  KeyAbove-rank k k' a = ground (
    arith,
    DenyAbove-rank a.deny,
    Above-rank (prt_up h) prt_rank prt_falls a.range,
    Above-rank (net_up h) net_rank net_falls a.src,
    Above-rank (net_up h) net_rank net_falls a.dst,
    Above-rank (prt_up h) prt_rank prt_falls a.prt,
  )

-- The tree `t` holds the rules of `P`, and the loops of `optimizeRedundantRules` run over it.
module _ (h : Objects) (ranked : Ranked h) (prt_ip : ℕ) (s : State) (P : ℕ → Type 0) (t : RuleTree)
    (s1 : State) (f : Filled prt_ip s P (t, s1)) where
  abbrev pub key : ℕ → Key
  key r = key_of prt_ip (s.rule r)

  abbrev pub Cov : ℕ → Type 0
  Cov r = (c : ℕ) × Found h t t r c × (c ≢ r)

  pub run-Marks : Marks Cov s1 (optimize_redundant_rules h t t s1)
  run-Marks =
      optimize_redundant_rules-Keeps (Marks Cov s1) h t t
        (λ r c s' hit active ne log m. Marks-delete r (c, Hit5→Found h t t r c f.good hit, ne) m) s1
        (Marks-refl Cov s1)

  abbrev pub Survivor : ℕ → Type 0
  Survivor r =
      (c : ℕ) × P c
      × KeyAbove h (key r) (key c)
      × (((optimize_redundant_rules h t t s1).rule c).deleted ≡ false)

  in_tree : (k : Key) (r : ℕ) → find t k ≡ some r → find t (key r) ≡ some r
  in_tree k r e = ap (find t) (f.keyed k r e).0 ∙ e

  covered_above : (r : ℕ) (c : ℕ) → Found h t t r c → KeyAbove h (key r) (key c)
  covered_above r c fd =
      subst (λ k. KeyAbove h k (key c)) (sym (f.keyed fd.key r fd.is_rule).0)
        (subst (KeyAbove h fd.key) (sym (f.keyed fd.above c fd.is_cover).0) fd.order)

  lower_rank :
      (r c : ℕ)
      → find t (key r) ≡ some r
      → Found h t t r c
      → c ≢ r
      → rank h ranked (key c) < rank h ranked (key r)
  lower_rank r c e fd ne = elim (KeyAbove-rank h ranked (key r) (key c) (covered_above r c fd)) [
    | inl e' ↦
        let rc : c ≡ r = cc (e, in_tree fd.above c fd.is_cover, ap (find t) e') in absurd (ne rc)
    | inr lt ↦ lt
  ]

  survive : (n r : ℕ) → rank h ranked (key r) < n → find t (key r) ≡ some r → Survivor r
  survive zero r lt e = elim lt [ ]
  survive (suc n) r lt e = elim (Bool-cases ((optimize_redundant_rules h t t s1).rule r).deleted) [
    | inr alive ↦ (r, (f.keyed (key r) r e).1, KeyAbove-refl h (key r), alive)
    | inl gone ↦ elim (run-Marks.cause r gone) [
      | inl before ↦ let active = (f.keyed (key r) r e).2 in cc
      | inr (c, fd, ne) ↦
          let (d, p, a, alive) =
            survive n c (omega (arith, lower_rank r c e fd ne)) (in_tree fd.above c fd.is_cover) in
          (d, p, KeyAbove-trans (covered_above r c fd) a, alive)
    ]
  ]

  pub placed-Survivor : (r : ℕ) → P r → Survivor r
  placed-Survivor r p =
      let (c, e, o) = f.placed r p in
      let (d, q, a, alive) =
        survive (suc (rank h ranked (key c))) c (omega arith) (in_tree (key r) c e) in
      (d, q, subst (λ k. KeyAbove h k (key d)) (f.keyed (key r) c e).0 a, alive)
