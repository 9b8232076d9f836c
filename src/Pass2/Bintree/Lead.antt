-- ===== src/Pass2/Bintree/Lead.antt =====
-- Which subtrees an address is led to in the binary tree of networks, when a node is added.
use netspoc.Prelude.{
  ℕ, suc, ◌+◌, ◌^◌, ◌≤◌, ◌<◌, ◌≡◌, inl, inr, refl, sym, ap, ◌∙◌, subst, Bool, true, false, ◌&&◌,
  ◌||◌, Option, none, some, ◌==◌, ==_iff, Bool-cases, arith,
}
use netspoc.Pass2.Nets.{masked}
use netspoc.Pass2.Bintree.{
  Bintree, Bintree.no_tree, Bintree.bintree, Node, leaf, same_subtree, leaf_subtree, merge_adjacent,
}
use netspoc.Pass2.Bintree.Masks.{half, in_halves}

-- A node of the tree has this subtree, and it and all nodes above it have the address.
unfoldable pub leads : ℕ → ℕ → ℕ → Bintree → Bool
leads bits x s no_tree = false
leads bits x s (bintree ip prefix subtree lo hi) =
    masked bits x prefix == ip
    && (same_subtree subtree (some s) || (leads bits x s lo || leads bits x s hi))

-- The node that is added has the address, and the subtree.
unfoldable pub node_leads : ℕ → ℕ → ℕ → Node → Bool
node_leads bits x s n = masked bits x n.prefix == n.ip && same_subtree n.subtree (some s)

-- A network that starts at `ip`: its children lie in its halves, and have longer prefixes.
unfoldable pub Within : ℕ → ℕ → ℕ → Bintree → Type 0
Within bits p ip no_tree = Unit {0}
Within bits p ip (bintree i q t lo hi) = (p ≤ q) × (masked bits i p ≡ ip)

unfoldable pub Nested : ℕ → Bintree → Type 0
unfolding Within
Nested bits no_tree = Unit {0}
Nested bits (bintree ip p t lo hi) =
    (p ≤ bits)
    × (ip < 2 ^ bits)
    × (masked bits ip p ≡ ip)
    × Within bits (suc p) ip lo
    × Within bits (suc p) (ip + half bits p) hi
    × Nested bits lo
    × Nested bits hi

-- A leaf as seen by the merge of adjacent networks.
leaf_subtree_lem :
    (p : ℕ) (t : Bintree) (b : ℕ)
    → leaf_subtree p t ≡ some b
    → (ip : ℕ) × (t ≡ bintree ip p (some b) no_tree no_tree)
leaf_subtree_lem p no_tree b e = cc
leaf_subtree_lem p (bintree ip q u no_tree no_tree) b e = elim (Bool-cases (q == p)) [
  | inl same ↦
      let h = (==_iff q p).0 same in
      (
        ip,
        ap (λ k. bintree ip k u no_tree no_tree) h
            ∙ ap (λ k. bintree ip p k no_tree no_tree) (ground (arith, e, same)),
      )
  | inr other ↦ absurd (ground (arith, e, other))
]
leaf_subtree_lem p (bintree ip q u (bintree a b' c d f) hi) b e = absurd (ground (arith, e))
leaf_subtree_lem p (bintree ip q u no_tree (bintree a b' c d f)) b e = absurd (ground (arith, e))

pub same_subtree_lem :
    (u v : Option ℕ) → same_subtree u v ≡ true → (b : ℕ) × (u ≡ some b) × (v ≡ some b)
same_subtree_lem none v e = absurd (cc e)
same_subtree_lem (some a) none e = absurd (cc e)
same_subtree_lem (some a) (some b) e = (a, refl, sym (ap some ((==_iff a b).0 e)))

both_halves :
    (a b c d : Bool)
    → a ≡ (b || c)
    → (a && (false || ((b && (d || (false || false))) || (c && (d || (false || false))))))
      ≡ (a && (d || (false || false)))
both_halves a b c d e = ground (arith, e)

-- All nodes of the tree have this property of their address and prefix.
unfoldable pub Everywhere : (ℕ → ℕ → Type 0) → Bintree → Type 0
Everywhere Q no_tree = Unit {0}
Everywhere Q (bintree ip p t lo hi) = Q ip p × Everywhere Q lo × Everywhere Q hi

-- A tree in the place of another one: it leads to the same subtrees, and has its shape.
pub record StandsFor (bits : ℕ) (t u : Bintree) : Type 1 where
  pub same_leads : (x s : ℕ) → leads bits x s u ≡ leads bits x s t
  pub nested : Nested bits u
  pub within : (p ip : ℕ) → Within bits p ip t → Within bits p ip u
  pub everywhere : (Q : ℕ → ℕ → Type 0) → Everywhere Q t → Everywhere Q u

-- Merge of two leaves.
module _ (bits ip p : ℕ) (b : ℕ) where
  abbrev two_leaves : Bintree
  two_leaves =
      bintree ip p none (bintree ip (suc p) (some b) no_tree no_tree)
        (bintree (ip + half bits p) (suc p) (some b) no_tree no_tree)

  abbrev one_leaf : Bintree
  one_leaf = bintree ip p (some b) no_tree no_tree

  two_leaves_lead :
      p < bits
      → masked bits ip p ≡ ip
      → (x s : ℕ) → leads bits x s one_leaf ≡ leads bits x s two_leaves
  unfolding leads
  two_leaves_lead lt start x s = sym (
      both_halves (masked bits x p == ip) (masked bits x (suc p) == ip)
        (masked bits x (suc p) == ip + half bits p) (b == s) (in_halves bits p lt ip start x))

  two_leaves_merge : Nested bits two_leaves → StandsFor bits two_leaves one_leaf
  unfolding Nested Within Everywhere
  two_leaves_merge n = record {
    same_leads = two_leaves_lead (omega (arith, (n.5).0)) n.2;
    nested = (n.0, n.1, n.2, tt, tt, tt, tt);
    within = λ k i w. w;
    everywhere = λ Q q. (q.0, tt, tt);
  }

StandsFor-refl : (bits : ℕ) (t : Bintree) → Nested bits t → StandsFor bits t t
StandsFor-refl bits t n = record {
  same_leads = λ x s. refl;
  nested = n;
  within = λ p ip w. w;
  everywhere = λ Q q. q;
}

-- A leaf within a half of a network whose prefix is shorter by 1 starts where the half does.
leaf_start :
    (bits p ip l b : ℕ) (t : Bintree)
    → t ≡ bintree l p (some b) no_tree no_tree
    → Within bits p ip t
    → Nested bits t
    → t ≡ bintree ip p (some b) no_tree no_tree
unfolding Within Nested
leaf_start bits p ip l b t e w n =
    let w' = subst (Within bits p ip) e w in
    let n' = subst (Nested bits) e n in
    e ∙ ap (λ k. bintree k p (some b) no_tree no_tree) (sym n'.2 ∙ w'.1)

pub merge_adjacent-StandsFor :
    (bits : ℕ) (t : Bintree) → Nested bits t → StandsFor bits t (merge_adjacent t)
unfolding merge_adjacent Nested
merge_adjacent-StandsFor bits no_tree n = StandsFor-refl bits no_tree n
merge_adjacent-StandsFor bits (bintree ip p (some b) lo hi) n =
    StandsFor-refl bits (bintree ip p (some b) lo hi) n
merge_adjacent-StandsFor bits (bintree ip p none lo hi) n =
    elim (Bool-cases (same_subtree (leaf_subtree (suc p) lo) (leaf_subtree (suc p) hi))) [
      | inl e ↦
          let (b, u, v) = same_subtree_lem (leaf_subtree (suc p) lo) (leaf_subtree (suc p) hi) e in
          let (l, lo_leaf) = leaf_subtree_lem (suc p) lo b u in
          let (h, hi_leaf) = leaf_subtree_lem (suc p) hi b v in
          let lo' = leaf_start bits (suc p) ip l b lo lo_leaf n.3 n.5 in
          let hi' = leaf_start bits (suc p) (ip + half bits p) h b hi hi_leaf n.4 n.6 in
          let whole : two_leaves bits ip p b ≡ bintree ip p none lo hi =
            ap
              (λ t.
                bintree ip p none t (bintree (ip + half bits p) (suc p) (some b) no_tree no_tree))
              (sym lo')
            ∙ ap (bintree ip p none lo) (sym hi') in
          let m = two_leaves_merge bits ip p b (subst (Nested bits) (sym whole) n) in
          let there = subst (λ t. StandsFor bits t (one_leaf bits ip p b)) whole m in
          rw e (
            subst (λ k. StandsFor bits (bintree ip p none lo hi) (bintree ip p k no_tree no_tree))
              (sym u) there)
      | inr e ↦ rw e (StandsFor-refl bits (bintree ip p none lo hi) n)
    ]

module _ (bits x s : ℕ) where
  pub leads-leaf : (n : Node) → leads bits x s (leaf n) ≡ node_leads bits x s n
  unfolding leads node_leads
  leads-leaf n = ground arith
