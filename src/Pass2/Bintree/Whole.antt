-- ===== src/Pass2/Bintree/Whole.antt =====
-- `genAddrBintree`: where the tree of a list of networks leads to.
use netspoc.Prelude.{
  ℕ, ◌≡◌, ◌≢◌, inl, inr, refl, sym, ap, ◌∙◌, Bool, false, ◌||◌, Option, some, List, [], ◌∷◌, map,
  ◌==◌, ==_iff, Bool-cases, arith, All, any,
}
use mathlib.Core.List.Permᴰ.{symm}
use netspoc.Prelude.Sort.{SortSlice, Sorted, Weak, Pairwise, Pairwise-Perm, All-Perm, any-Perm}
use netspoc.Pass2.Bintree.{
  Bintree, Bintree.no_tree, Node, leaf, larger_first, first_node, elem_node, gen_addr_bintree,
  is_noop,
}
use netspoc.Pass2.Bintree.Lead.{leads, node_leads, Nested, Everywhere}
use netspoc.Pass2.Bintree.Added.{Aligned, Before, leaf-Added}
use netspoc.Pass2.Bintree.Built.{Follows, BuiltFrom, add_nodes-BuiltFrom}

-- The networks differ in their prefixes or in their addresses.
abbrev pub Differ : (ℕ → ℕ × ℕ) → ℕ → ℕ → Type 0
Differ net a b = (net a).1 ≡ (net b).1 → (net a).0 ≢ (net b).0

abbrev Other : Node → Node → Type 0
Other n m = n.prefix ≡ m.prefix → n.ip ≢ m.ip

Weak-larger_first : Weak larger_first
Weak-larger_first = ground arith

Follows-Other : (n m : Node) → larger_first m n ≡ false → Other n m → Follows n m
Follows-Other n m e other = elim (Bool-cases (n.prefix == m.prefix)) [
  | inl same ↦ let s = (==_iff n.prefix m.prefix).0 same in inr (s, other s)
  | inr differ ↦ inl (ground (arith, e, differ))
]

all_follow :
    (n : Node) (ns : List Node)
    → All (λ m. larger_first m n ≡ false) ns
    → All (Other n) ns
    → All (Follows n) ns
all_follow n [] e o = tt
all_follow n (m ∷ ms) e o = (Follows-Other n m e.0 o.0, all_follow n ms e.1 o.1)

Sorted-Follows : (ns : List Node) → Sorted larger_first ns → Pairwise Other ns → Pairwise Follows ns
Sorted-Follows [] s o = tt
Sorted-Follows (n ∷ ns) s o = (all_follow n ns s.0 o.0, Sorted-Follows ns s.1 o.1)

first : (a b c : Bool) → ((a || b) || c) ≡ (a || (b || c))
first a b c = ground arith

-- The first node alone.
first-Before :
    (n : Node) (ns : List Node) → All (Follows n) ns → All (λ m. Everywhere (Before m) (leaf n)) ns
unfolding Everywhere
first-Before n [] f = tt
first-Before n (m ∷ ms) f = ((f.0, tt, tt), first-Before n ms f.1)

first_node-BuiltFrom :
    (bits : ℕ) (ns : List Node)
    → All (Aligned bits) ns
    → Pairwise Follows ns
    → BuiltFrom bits ns no_tree (first_node bits ns)
unfolding Nested
first_node-BuiltFrom bits [] ok follow = record { all_lead = λ x s. ground arith; nested = tt }
first_node-BuiltFrom bits (n ∷ ns) ok follow =
    let a = leaf-Added bits n ok.0 in
    let b =
      add_nodes-BuiltFrom bits ns (leaf n) a.nested ok.1 follow.1 (first-Before n ns follow.0) in
    record {
      all_lead = λ x s.
          b.all_lead x s
          ∙ ap (λ k. k || any (node_leads bits x s) ns) (a.more_leads x s)
          ∙ first (leads bits x s no_tree) (node_leads bits x s n) (any (node_leads bits x s) ns);
      nested = b.nested;
    }

module _ (bits : ℕ) (net : ℕ → ℕ × ℕ) (subtree : ℕ → Option ℕ) where
  all_nodes :
      (es : List ℕ)
      → All (λ e. Aligned bits (elem_node net subtree e)) es
      → All (Aligned bits) (map (elem_node net subtree) es)
  all_nodes [] h = tt
  all_nodes (e ∷ es) h = (h.0, all_nodes es h.1)

  others :
      (e : ℕ) (es : List ℕ)
      → All (Differ net e) es
      → All (Other (elem_node net subtree e)) (map (elem_node net subtree) es)
  unfolding elem_node
  others e [] h = tt
  others e (f ∷ fs) h = (h.0, others e fs h.1)

  all_others :
      (es : List ℕ) → Pairwise (Differ net) es → Pairwise Other (map (elem_node net subtree) es)
  all_others [] h = tt
  all_others (e ∷ es) h = (others e es h.0, all_others es h.1)

  any_nodes :
      (p : Node → Bool) (es : List ℕ)
      → any p (map (elem_node net subtree) es) ≡ any (λ e. p (elem_node net subtree e)) es
  any_nodes p [] = refl
  any_nodes p (e ∷ es) = ap (λ k. p (elem_node net subtree e) || k) (any_nodes p es)

  sorted-BuiltFrom :
      (std : SortSlice Node) (es : List ℕ)
      → All (λ e. Aligned bits (elem_node net subtree e)) es
      → Pairwise (Differ net) es
      → BuiltFrom bits
          (std.sort larger_first (map (elem_node net subtree) es))
          no_tree
          (first_node bits (std.sort larger_first (map (elem_node net subtree) es)))
  sorted-BuiltFrom std es ok differ =
      let ns = map (elem_node net subtree) es in
      let perm = symm (std.sort-Perm larger_first ns) in
      first_node-BuiltFrom bits (std.sort larger_first ns)
        (All-Perm (Aligned bits) perm (all_nodes es ok))
        (Sorted-Follows (std.sort larger_first ns)
          (std.sort-Sorted larger_first ns Weak-larger_first)
          (Pairwise-Perm Other (λ a b h e f. h (sym e) (sym f)) perm (all_others es differ)))

  -- For networks that start at their masks, and of which no two are the same, a tree is built. Each of
  -- its networks lies within the half of the network above it where it stands, and has a longer prefix.
  -- The tree leads an address to exactly the subtrees that belong to the networks of the list with this
  -- address: none is lost where networks are merged, left out as redundant, or put under a common root.
  pub gen_addr_bintree-leads :
      (std : SortSlice Node) (e : ℕ) (es : List ℕ)
      → All (λ a. Aligned bits (elem_node net subtree a)) (e ∷ es)
      → Pairwise (Differ net) (e ∷ es)
      → (t : Bintree) × (gen_addr_bintree std bits net subtree (e ∷ es) ≡ some (t, is_noop t))
        × Nested bits t
        × ((x s : ℕ)
            → leads bits x s t ≡ any (λ a. node_leads bits x s (elem_node net subtree a)) (e ∷ es))
  unfolding gen_addr_bintree leads
  gen_addr_bintree-leads std e es ok differ =
      let ns = map (elem_node net subtree) (e ∷ es) in
      let b = sorted-BuiltFrom std (e ∷ es) ok differ in
      (
        first_node bits (std.sort larger_first ns),
        refl,
        b.nested,
        λ x s.
            b.all_lead x s
            ∙ any-Perm (node_leads bits x s) (std.sort-Perm larger_first ns)
            ∙ any_nodes (node_leads bits x s) (e ∷ es),
      )
