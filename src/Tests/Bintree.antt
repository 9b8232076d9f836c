-- ===== src/Tests/Bintree.antt =====
-- A tree of four networks with addresses of 3 bits, of which two are merged.
use netspoc.Prelude.{
  ℕ, ◌≤◌, ◌<◌, ◌≡◌, refl, true, Option, none, some, List, [], ◌∷◌, if◌then◌else◌, ◌==◌, arith, any,
  All,
}
use netspoc.Prelude.Sort.{Pairwise}
use netspoc.Pass2.Nets.{masked}
use netspoc.Pass2.Bintree.{
  Bintree, Bintree.no_tree, Bintree.bintree, Node, elem_node, gen_addr_bintree, is_noop, add_nodes,
  add_bintree, common_root, common, merge_adjacent,
}
use netspoc.Pass2.Bintree.Lead.{leads, node_leads, Nested}
use netspoc.Pass2.Bintree.Added.{Aligned}
use netspoc.Pass2.Bintree.Whole.{Differ, gen_addr_bintree-leads}
use netspoc.Tests.Sorting.{insertion_sort}

abbrev four_nets : ℕ → ℕ × ℕ
four_nets a =
    if a == 0 then (0, 2) else (if a == 1 then (2, 2) else (if a == 2 then (4, 3) else (7, 3)))

abbrev two_subtrees : ℕ → Option ℕ
two_subtrees a = if a == 3 then some 9 else some 8

abbrev elements : List ℕ
elements = 3 ∷ 0 ∷ 2 ∷ 1 ∷ []

built :
    gen_addr_bintree (insertion_sort Node) 3 four_nets two_subtrees elements
    ≡ some (
      bintree 0 0 none (bintree 0 1 (some 8) no_tree no_tree) (
          bintree 4 1 none
            (bintree 4 3 (some 8) no_tree no_tree)
            (bintree 7 3 (some 9) no_tree no_tree)),
      true,
    )
unfolding insertion_sort gen_addr_bintree elem_node is_noop add_nodes add_bintree common_root common
    merge_adjacent
built = refl

elements-Aligned : All (λ a. Aligned 3 (elem_node four_nets two_subtrees a)) elements
unfolding elem_node
elements-Aligned =
    let ok : (a : ℕ)
        → (four_nets a).1 ≤ 3
        → (four_nets a).0 < 8
        → masked 3 (four_nets a).0 (four_nets a).1 ≡ (four_nets a).0
        → Aligned 3 (elem_node four_nets two_subtrees a) =
      λ a l m n. record { short = l; small = m; start = n } in
    (
      ok 3 (omega arith) (omega arith) refl,
      (
        ok 0 (omega arith) (omega arith) refl,
        (ok 2 (omega arith) (omega arith) refl, (ok 1 (omega arith) (omega arith) refl, tt)),
      ),
    )

elements-Differ : Pairwise (Differ four_nets) elements
elements-Differ = omega arith

gen_addr_bintree-leads_example :
    (t : Bintree) × (gen_addr_bintree (insertion_sort Node) 3 four_nets two_subtrees elements
      ≡ some (t, is_noop t))
    × Nested 3 t
    × ((x s : ℕ)
        → leads 3 x s t ≡ any (λ a. node_leads 3 x s (elem_node four_nets two_subtrees a)) elements)
gen_addr_bintree-leads_example =
    gen_addr_bintree-leads 3 four_nets two_subtrees (insertion_sort Node) 3 (0 ∷ 2 ∷ 1 ∷ [])
      elements-Aligned elements-Differ
