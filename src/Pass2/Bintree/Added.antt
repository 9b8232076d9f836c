-- ===== src/Pass2/Bintree/Added.antt =====
-- `addBintree`: what the tree is after a node has been added to it.
use netspoc.Prelude.{
  ℕ, suc, ◌+◌, ◌^◌, ◌≤◌, ◌<◌, ◌≡◌, ◌≢◌, ◌⊎◌, inl, inr, refl, sym, ap, ◌∙◌, Bool, true, false, ◌&&◌,
  ◌||◌, Option, some, ◌==◌, ==_iff, Bool-cases, arith,
}
use netspoc.Pass2.Nets.{masked}
use netspoc.Pass2.Bintree.{
  Bintree, Bintree.no_tree, Bintree.bintree, Node, leaf, same_subtree, merge_adjacent,
}
use netspoc.Pass2.Bintree.Masks.{masked-masked, half, upper_half}
use netspoc.Pass2.Bintree.Lead.{
  leads, node_leads, Within, Nested, Everywhere, StandsFor, merge_adjacent-StandsFor,
  same_subtree_lem,
}

-- A node of the tree has a shorter prefix than the one that is added, or another address.
abbrev pub Before : Node → ℕ → ℕ → Type 0
Before n ip p = (p < n.prefix) ⊎ ((p ≡ n.prefix) × (ip ≢ n.ip))

pub record Aligned (bits : ℕ) (n : Node) : Type 0 where
  pub short : n.prefix ≤ bits
  pub small : n.ip < 2 ^ bits
  pub start : masked bits n.ip n.prefix ≡ n.ip

pub record Added (bits : ℕ) (n : Node) (t u : Bintree) : Type 1 where
  pub more_leads : (x s : ℕ) → leads bits x s u ≡ (leads bits x s t || node_leads bits x s n)
  pub nested : Nested bits u
  pub within :
      (p ip : ℕ) → p ≤ n.prefix → masked bits n.ip p ≡ ip → Within bits p ip t → Within bits p ip u
  pub everywhere :
      (Q : ℕ → ℕ → Type 0)
      → Q n.ip n.prefix
      → ((ip p : ℕ) → p < n.prefix → Q ip p)
      → Everywhere Q t
      → Everywhere Q u

Added-StandsFor :
    {bits : ℕ} {n : Node} {t u v : Bintree}
    → Added bits n t u
    → StandsFor bits u v
    → Added bits n t v
Added-StandsFor a m = record {
  more_leads = λ x s. m.same_leads x s ∙ a.more_leads x s;
  nested = m.nested;
  within = λ p ip le e w. m.within p ip (a.within p ip le e w);
  everywhere = λ Q q below e. m.everywhere Q (a.everywhere Q q below e);
}

pub Added-merge_adjacent :
    (bits : ℕ) (n : Node) (t u : Bintree) → Added bits n t u → Added bits n t (merge_adjacent u)
Added-merge_adjacent bits n t u a = Added-StandsFor a (merge_adjacent-StandsFor bits u a.nested)

inside :
    (m d a b n : Bool)
    → (n ≡ true → m ≡ true)
    → ((m && (d || ((a || n) || b))) ≡ ((m && (d || (a || b))) || n))
      × ((m && (d || (a || (b || n)))) ≡ ((m && (d || (a || b))) || n))
inside m d a b true h = rw (h refl) (ground arith, ground arith)
inside m d a b false h = (ground arith, ground arith)

pub above :
    (m n t : Bool)
    → (n ≡ true → m ≡ true)
    → (t ≡ true → m ≡ true)
    → ((m && (false || (n || t))) ≡ (t || n)) × ((m && (false || (t || n))) ≡ (t || n))
above m true t h k = rw (h refl) (ground arith, ground arith)
above m false true h k = rw (k refl) (ground arith, ground arith)
above true false false h k = (refl, refl)
above false false false h k = (refl, refl)

pub and_right : (a b : Bool) → (a && b) ≡ true → b ≡ true
and_right true b h = h
and_right false b h = absurd (cc h)

covered :
    (m d a n : Bool)
    → (n ≡ true → m ≡ true)
    → (n ≡ true → d ≡ true)
    → (m && (d || a)) ≡ ((m && (d || a)) || n)
covered m d a true h k = rw (h refl, k refl) refl
covered m d a false h k = ground arith

module _ (bits : ℕ) (n : Node) (ok : Aligned bits n) where
  node_in : (x s : ℕ) → node_leads bits x s n ≡ true → masked bits x n.prefix ≡ n.ip
  unfolding node_leads
  node_in x s e = elim (Bool-cases (masked bits x n.prefix == n.ip)) [
    | inl t ↦ (==_iff (masked bits x n.prefix) n.ip).0 t
    | inr f ↦ absurd (cc (sym e ∙ ap (λ b. b && same_subtree n.subtree (some s)) f))
  ]

  -- The addresses of the node are in a network that has it.
  pub node_above :
      (p ip x s : ℕ)
      → p ≤ n.prefix
      → masked bits n.ip p ≡ ip
      → node_leads bits x s n ≡ true
      → (masked bits x p == ip) ≡ true
  node_above p ip x s le e h =
      (==_iff (masked bits x p) ip).1
        (sym (masked-masked bits x p n.prefix le) ∙ ap (λ k. masked bits k p) (node_in x s h) ∙ e)

  pub leaf-Added : Added bits n no_tree (leaf n)
  unfolding leads node_leads Nested Within Everywhere
  leaf-Added = record {
    more_leads = λ x s. ground arith;
    nested = (ok.short, ok.small, ok.start, tt, tt, tt, tt);
    within = λ p ip le e w. (le, e);
    everywhere = λ Q q below e. (q, tt, tt);
  }

  module _ (ip p : ℕ) (t : Option ℕ) (lo hi : Bintree)
      (nested : Nested bits (bintree ip p t lo hi)) where
    module _ (lt : p < n.prefix) (e : masked bits n.ip p ≡ ip) where
      pub redundant-Added :
          same_subtree t n.subtree ≡ true
          → Added bits n (bintree ip p t lo hi) (bintree ip p t lo hi)
      unfolding leads node_leads
      redundant-Added same =
          let (b, u, v) = same_subtree_lem t n.subtree same in
          record {
            more_leads = λ x s.
                covered (masked bits x p == ip) (same_subtree t (some s))
                  (leads bits x s lo || leads bits x s hi) (node_leads bits x s n)
                  (node_above p ip x s (omega (arith, lt)) e)
                  (λ h.
                    ap (λ k. same_subtree k (some s)) (u ∙ sym v)
                    ∙ and_right (masked bits x n.prefix == n.ip) (same_subtree n.subtree (some s))
                        h);
            nested = nested;
            within = λ q i le f w. w;
            everywhere = λ Q q below f. f;
          }

      pub lo-Added :
          masked bits n.ip (suc p) ≡ ip
          → (lo' : Bintree) → Added bits n lo lo'
          → Added bits n (bintree ip p t lo hi) (bintree ip p t lo' hi)
      unfolding leads Nested Within Everywhere
      lo-Added low lo' a = record {
        more_leads = λ x s.
            ap (λ b. masked bits x p == ip && (same_subtree t (some s) || (b || leads bits x s hi)))
              (a.more_leads x s)
            ∙ (inside (masked bits x p == ip) (same_subtree t (some s)) (leads bits x s lo)
                (leads bits x s hi) (node_leads bits x s n)
                (node_above p ip x s (omega (arith, lt)) e)).0;
        nested = (
          nested.0,
          nested.1,
          nested.2,
          a.within (suc p) ip (omega (arith, lt)) low nested.3,
          nested.4,
          a.nested,
          nested.6,
        );
        within = λ q i le f w. w;
        everywhere = λ Q q below f. (f.0, a.everywhere Q q below f.1, f.2);
      }

      pub hi-Added :
          masked bits n.ip (suc p) ≢ ip
          → (hi' : Bintree) → Added bits n hi hi'
          → Added bits n (bintree ip p t lo hi) (bintree ip p t lo hi')
      unfolding leads Nested Within Everywhere
      hi-Added high hi' a =
          let lt_bits : p < bits = omega (arith, lt, ok.short) in
          let up =
            upper_half bits p lt_bits n.ip (λ f. high (f ∙ e)) ∙ ap (λ k. k + half bits p) e in
          record {
            more_leads = λ x s.
                ap
                  (λ b.
                    masked bits x p == ip && (same_subtree t (some s) || (leads bits x s lo || b)))
                  (a.more_leads x s)
                ∙ (inside (masked bits x p == ip) (same_subtree t (some s)) (leads bits x s lo)
                    (leads bits x s hi) (node_leads bits x s n)
                    (node_above p ip x s (omega (arith, lt)) e)).1;
            nested = (
              nested.0,
              nested.1,
              nested.2,
              nested.3,
              a.within (suc p) (ip + half bits p) (omega (arith, lt)) up nested.4,
              nested.5,
              a.nested,
            );
            within = λ q i le f w. w;
            everywhere = λ Q q below f. (f.0, f.1, a.everywhere Q q below f.2);
          }
