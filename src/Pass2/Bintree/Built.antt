-- ===== src/Pass2/Bintree/Built.antt =====
-- `genAddrBintree`: the tree of all networks of the list.
use netspoc.Prelude.{
  ℕ, suc, ◌≤◌, ◌<◌, ◌≡◌, inl, inr, refl, sym, ap, ◌∙◌, subst, Bool, true, false, ◌&&◌, ◌||◌, Option,
  List, [], ◌∷◌, ltb, ◌==◌, ==_iff, Bool-cases, arith, All, any,
}
use netspoc.Prelude.Sort.{Pairwise}
use netspoc.Pass2.Nets.{masked}
use netspoc.Pass2.Bintree.{
  Bintree, Bintree.no_tree, Bintree.bintree, Node, leaf, same_subtree, common_root, tree_contains,
  add_bintree, add_nodes, merge_adjacent,
}
use netspoc.Pass2.Bintree.Lead.{leads, node_leads, Nested, Everywhere}
use netspoc.Pass2.Bintree.Added.{
  Before, Aligned, Added, Added-merge_adjacent, and_right, leaf-Added, redundant-Added, lo-Added,
  hi-Added,
}
use netspoc.Pass2.Bintree.Root.{common_root-Added}

and_left : (a b : Bool) → (a && b) ≡ true → a ≡ true
and_left true b h = refl
and_left false b h = h

ltb-lt : (a b : ℕ) → ltb a b ≡ true → a < b
ltb-lt a b e = ground (arith, e)

or_assoc : (a b c : Bool) → ((a || b) || c) ≡ (a || (b || c))
or_assoc a b c = ground arith

all_later :
    (bits : ℕ) (n : Node) (t u : Bintree)
    → Added bits n t u
    → (ns : List Node) → All (λ m. Before m n.ip n.prefix) ns
    → All (λ m. Everywhere (Before m) t) ns
    → All (λ m. Everywhere (Before m) u) ns
all_later bits n t u a [] follow before = tt
all_later bits n t u a (m ∷ ms) follow before =
    let le : n.prefix ≤ m.prefix = elim follow.0 [
      | inl lt ↦ omega (arith, lt)
      | inr e ↦ omega (arith, e.0)
    ] in
    (
      a.everywhere (Before m) follow.0 (λ ip p lt. inl (omega (arith, lt, le))) before.0,
      all_later bits n t u a ms follow.1 before.1,
    )

to_leaf : (bits : ℕ) (n : Node) → add_bintree bits n no_tree ≡ leaf n
unfolding add_bintree
to_leaf bits n = refl

-- The branches of `add_bintree`.
module _ (bits : ℕ) (n : Node) (ip p : ℕ) (t : Option ℕ) (lo hi : Bintree) where
  abbrev Goes : Bintree → Type 0
  Goes u = add_bintree bits n (bintree ip p t lo hi) ≡ merge_adjacent u

  to_root :
      (ltb p n.prefix && tree_contains bits ip p n.ip) ≡ false
      → Goes (common_root bits n ip p (bintree ip p t lo hi))
  unfolding add_bintree
  to_root e = rw (e, add_bintree) refl

  module _ (e : (ltb p n.prefix && tree_contains bits ip p n.ip) ≡ true) where
    to_old : same_subtree t n.subtree ≡ true → Goes (bintree ip p t lo hi)
    unfolding add_bintree
    to_old same = rw (e, same, add_bintree) refl

    to_lo :
        same_subtree t n.subtree ≡ false
        → (masked bits n.ip (suc p) == ip) ≡ true
        → Goes (bintree ip p t (add_bintree bits n lo) hi)
    unfolding add_bintree
    to_lo other low = rw (e, other, low, add_bintree) refl

    to_hi :
        same_subtree t n.subtree ≡ false
        → (masked bits n.ip (suc p) == ip) ≡ false
        → Goes (bintree ip p t lo (add_bintree bits n hi))
    unfolding add_bintree
    to_hi other high = rw (e, other, high, add_bintree) refl

module _ (bits : ℕ) (n : Node) (ok : Aligned bits n) where
  step : (t u v : Bintree) → v ≡ merge_adjacent u → Added bits n t u → Added bits n t v
  step t u v e a = subst (Added bits n t) (sym e) (Added-merge_adjacent bits n t u a)

  pub add_bintree-Added :
      (t : Bintree)
      → Nested bits t
      → Everywhere (Before n) t
      → Added bits n t (add_bintree bits n t)
  unfolding Nested Everywhere
  add_bintree-Added no_tree nested before =
      subst (Added bits n no_tree) (sym (to_leaf bits n)) (leaf-Added bits n ok)
  add_bintree-Added (bintree ip p t lo hi) nested before =
      let tree = bintree ip p t lo hi in
      let result = add_bintree bits n tree in
      elim (Bool-cases (ltb p n.prefix && tree_contains bits ip p n.ip)) [
        | inr apart ↦
            step tree (common_root bits n ip p tree) result (to_root bits n ip p t lo hi apart)
              (common_root-Added bits n ok ip p t lo hi nested before.0 apart)
        | inl e ↦
            let lt =
              ltb-lt p n.prefix (and_left (ltb p n.prefix) (tree_contains bits ip p n.ip) e) in
            let in' = and_right (ltb p n.prefix) (tree_contains bits ip p n.ip) e in
            let at = sym ((==_iff (masked bits ip p) (masked bits n.ip p)).0 in') ∙ nested.2 in
            elim (Bool-cases (same_subtree t n.subtree)) [
              | inl same ↦
                  step tree tree result (to_old bits n ip p t lo hi e same)
                    (redundant-Added bits n ok ip p t lo hi nested lt at same)
              | inr other ↦ elim (Bool-cases (masked bits n.ip (suc p) == ip)) [
                | inl low ↦
                    let lo' = add_bintree bits n lo in
                    step tree (bintree ip p t lo' hi) result (to_lo bits n ip p t lo hi e other low)
                      (lo-Added bits n ok ip p t lo hi nested lt at
                        ((==_iff (masked bits n.ip (suc p)) ip).0 low) lo'
                        (add_bintree-Added lo nested.5 before.1))
                | inr high ↦
                    let hi' = add_bintree bits n hi in
                    step tree (bintree ip p t lo hi') result
                      (to_hi bits n ip p t lo hi e other high)
                      (hi-Added bits n ok ip p t lo hi nested lt at
                        (λ f. absurd (cc (high, (==_iff (masked bits n.ip (suc p)) ip).1 f))) hi'
                        (add_bintree-Added hi nested.6 before.2))
              ]
            ]
      ]

-- Larger networks come first, and no two are the same.
abbrev pub Follows : Node → Node → Type 0
Follows n m = Before m n.ip n.prefix

-- The tree that is built from `t` and these nodes.
pub record BuiltFrom (bits : ℕ) (ns : List Node) (t u : Bintree) : Type 0 where
  pub all_lead : (x s : ℕ) → leads bits x s u ≡ (leads bits x s t || any (node_leads bits x s) ns)
  pub nested : Nested bits u

pub add_nodes-BuiltFrom :
    (bits : ℕ) (ns : List Node) (t : Bintree)
    → Nested bits t
    → All (Aligned bits) ns
    → Pairwise Follows ns
    → All (λ m. Everywhere (Before m) t) ns
    → BuiltFrom bits ns t (add_nodes bits t ns)
unfolding add_nodes
add_nodes-BuiltFrom bits [] t nested ok follow before = record {
  all_lead = λ x s. ground arith;
  nested = nested;
}
add_nodes-BuiltFrom bits (n ∷ ns) t nested ok follow before =
    let a = add_bintree-Added bits n ok.0 t nested before.0 in
    let later : All (λ m. Everywhere (Before m) (add_bintree bits n t)) ns =
      all_later bits n t (add_bintree bits n t) a ns follow.0 before.1 in
    let b = add_nodes-BuiltFrom bits ns (add_bintree bits n t) a.nested ok.1 follow.1 later in
    record {
      all_lead = λ x s.
          b.all_lead x s
          ∙ ap (λ k. k || any (node_leads bits x s) ns) (a.more_leads x s)
          ∙ or_assoc (leads bits x s t) (node_leads bits x s n) (any (node_leads bits x s) ns);
      nested = b.nested;
    }
