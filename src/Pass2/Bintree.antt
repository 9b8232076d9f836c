-- ===== src/Pass2/Bintree.antt =====
-- go/cmd/spoc2/main.go: `netBintree`, `addBintree` and `genAddrBintree`, which build the binary tree of
-- networks for chains of iptables. A subtree of the next attribute is a number, which stands for its
-- pointer. A mask is the length of its prefix. All networks have addresses of `bits` bits.
pub mod Masks
pub mod Added
pub mod Root
pub mod Lead
pub mod Built
pub mod Whole
use netspoc.Prelude.{
  ℕ, zero, suc, Bool, true, false, ◌&&◌, Option, none, some, List, [], ◌∷◌, if◌then◌else◌, ltb,
  ◌==◌, ◌||◌, map,
}
use netspoc.Prelude.Sort.{SortSlice}
use netspoc.Pass2.Nets.{masked}

-- `no_tree` is the nil pointer. The fields of a node are its address, its prefix, `subtree`, `lo` and
-- `hi`.
pub data Bintree : Type 0 where
  no_tree : Bintree
  bintree : ℕ → ℕ → Option ℕ → Bintree → Bintree → Bintree

-- A node that is added, without children.
pub record Node : Type 0 where
  pub ip : ℕ
  pub prefix : ℕ
  pub subtree : Option ℕ

abbrev pub leaf : Node → Bintree
leaf n = bintree n.ip n.prefix n.subtree no_tree no_tree

-- Both are set, to the same subtree.
abbrev pub same_subtree : Option ℕ → Option ℕ → Bool
same_subtree none t = false
same_subtree (some s) none = false
same_subtree (some s) (some t) = s == t

-- `tree.Contains(nodeIP)`
abbrev pub tree_contains : ℕ → ℕ → ℕ → ℕ → Bool
tree_contains bits ip prefix node_ip = masked bits ip prefix == masked bits node_ip prefix

-- The loop for the common root; it starts below the prefix that is given. It ends at the latest with
-- prefix 0, which all addresses share.
unfoldable pub common : ℕ → ℕ → ℕ → ℕ → ℕ
common bits node_ip tree_ip zero = 0
common bits node_ip tree_ip (suc prefix) =
    elim (masked bits node_ip prefix == masked bits tree_ip prefix) [
      | true ↦ prefix
      | false ↦ common bits node_ip tree_ip prefix
    ]

abbrev pub is_nil : Bintree → Bool
is_nil no_tree = true
is_nil (bintree ip prefix subtree lo hi) = false

-- The subtree of a node that has this prefix and no children.
abbrev pub leaf_subtree : ℕ → Bintree → Option ℕ
leaf_subtree p no_tree = none
leaf_subtree p (bintree ip prefix subtree lo hi) =
    if prefix == p && (is_nil lo && is_nil hi) then subtree else none

-- Merge adjacent sub-networks.
unfoldable pub merge_adjacent : Bintree → Bintree
merge_adjacent no_tree = no_tree
merge_adjacent (bintree ip prefix (some s) lo hi) = bintree ip prefix (some s) lo hi
merge_adjacent (bintree ip prefix none lo hi) =
    let subtree = leaf_subtree (suc prefix) lo in
    if same_subtree subtree (leaf_subtree (suc prefix) hi)
    then bintree ip prefix subtree no_tree no_tree
    else bintree ip prefix none lo hi

-- Create common root for tree and node.
unfoldable pub common_root : ℕ → Node → ℕ → ℕ → Bintree → Bintree
unfolding common
common_root bits node tree_ip tree_prefix tree =
    let prefix = common bits node.ip tree_ip tree_prefix in
    let ip = masked bits node.ip prefix in
    if ltb node.ip tree_ip
    then bintree ip prefix none (leaf node) tree
    else bintree ip prefix none tree (leaf node)

-- `addBintree`, and the case of a child that is not there yet
unfoldable pub add_bintree : ℕ → Node → Bintree → Bintree
unfolding merge_adjacent common_root
add_bintree bits node no_tree = leaf node
add_bintree bits node (bintree ip prefix subtree lo hi) =
    elim (ltb prefix node.prefix && tree_contains bits ip prefix node.ip) [
      | true ↦ elim (same_subtree subtree node.subtree) [
        | true ↦ merge_adjacent (bintree ip prefix subtree lo hi)
        | false ↦ elim (masked bits node.ip (suc prefix) == ip) [
          | true ↦ merge_adjacent (bintree ip prefix subtree (add_bintree bits node lo) hi)
          | false ↦ merge_adjacent (bintree ip prefix subtree lo (add_bintree bits node hi))
        ]
      ]
      | false ↦ merge_adjacent (common_root bits node ip prefix (bintree ip prefix subtree lo hi))
    ]

-- Sort by mask size and then by IP.
abbrev pub larger_first : Node → Node → Bool
larger_first a b =
    if ltb a.prefix b.prefix then true else (if ltb b.prefix a.prefix then false else ltb b.ip a.ip)

unfoldable pub add_nodes : ℕ → Bintree → List Node → Bintree
unfolding add_bintree
add_nodes bits tree [] = tree
add_nodes bits tree (n ∷ ns) = add_nodes bits (add_bintree bits n tree) ns

-- The attribute `noop` of the root.
unfoldable pub is_noop : Bintree → Bool
is_noop no_tree = false
is_noop (bintree ip prefix subtree lo hi) = prefix == 0

-- The node of a network, with `tree2bintree[tree[elem]]`
unfoldable pub elem_node : (ℕ → ℕ × ℕ) → (ℕ → Option ℕ) → ℕ → Node
elem_node net subtree elem = record {
  ip = (net elem).0;
  prefix = (net elem).1;
  subtree = subtree elem;
}

abbrev pub first_node : ℕ → List Node → Bintree
first_node bits [] = no_tree
first_node bits (n ∷ ns) = add_nodes bits (leaf n) ns

-- `genAddrBintree`, with the attribute `noop` of its root; without elements the source has a fault at
-- run time, which is `none`.
unfoldable pub gen_addr_bintree :
    SortSlice Node → ℕ → (ℕ → ℕ × ℕ) → (ℕ → Option ℕ) → List ℕ → Option (Bintree × Bool)
unfolding add_nodes is_noop elem_node
gen_addr_bintree std bits net subtree [] = none
gen_addr_bintree std bits net subtree (e ∷ es) =
    let tree = first_node bits (std.sort larger_first (map (elem_node net subtree) (e ∷ es))) in
    some (tree, is_noop tree)
