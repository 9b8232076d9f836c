-- ===== src/Pass2/Bintree/Root.antt =====
-- `addBintree`, where it makes a common root for the tree and the node.
use netspoc.Prelude.{
  ℕ, suc, ◌+◌, ◌^◌, ◌≤◌, ◌<◌, ◌≡◌, ◌≢◌, inl, inr, refl, sym, ap, ◌∙◌, true, false, ◌&&◌, ◌||◌,
  Option, none, some, ltb, ◌==◌, ==_iff, Bool-cases, arith,
}
use netspoc.Pass2.Nets.{masked}
use netspoc.Pass2.Bintree.{
  Bintree, Bintree.bintree, Node, leaf, same_subtree, common, common_root, tree_contains,
}
use netspoc.Pass2.Bintree.Masks.{
  masked-masked, masked_le, masked_zero, half, upper_half, lower_half, common-same, common_le,
  common_longest, common_parts,
}
use netspoc.Pass2.Bintree.Lead.{leads, node_leads, Within, Nested, Everywhere}
use netspoc.Pass2.Bintree.Added.{Before, Aligned, Added, above, leaf-Added, node_above}

module _ (bits : ℕ) (n : Node) (ok : Aligned bits n) (ip p : ℕ) (t : Option ℕ) (lo hi : Bintree)
    (nested : Nested bits (bintree ip p t lo hi)) (before : Before n ip p)
    (apart : (ltb p n.prefix && tree_contains bits ip p n.ip) ≡ false) where
  abbrev old : Bintree
  old = bintree ip p t lo hi

  abbrev c : ℕ
  c = common bits n.ip ip p

  abbrev r : ℕ
  r = masked bits n.ip c

  small : ip < 2 ^ bits
  unfolding Nested
  small = nested.1

  start : masked bits ip p ≡ ip
  unfolding Nested
  start = nested.2

  shorter : p ≤ n.prefix
  shorter = elim before [ inl lt ↦ omega (arith, lt) | inr same ↦ omega (arith, same.0) ]

  differ : masked bits n.ip p ≢ masked bits ip p
  differ e = elim before [
    | inl lt ↦
        let f = (==_iff (masked bits ip p) (masked bits n.ip p)).1 (sym e) in
        let g : ltb p n.prefix ≡ true = ground (arith, lt) in absurd (cc (apart, f, g))
    | inr same ↦
        let whole = ap (masked bits n.ip) same.0 ∙ ok.start in same.1 (sym start ∙ sym e ∙ whole)
  ]

  positive : 0 < p
  positive = elim (Bool-cases (p == 0)) [
    | inl z ↦
        let z' = (==_iff p 0).0 z in
        let zeros : (a : ℕ) → a < 2 ^ bits → masked bits a p ≡ 0 =
          λ a lt. ap (masked bits a) z' ∙ masked_zero bits a lt in
        absurd (differ (zeros n.ip ok.small ∙ sym (zeros ip small)))
    | inr other ↦ ground (arith, other)
  ]

  below : c < p
  below = omega (arith, common_le bits n.ip ip p, positive)

  same : masked bits n.ip c ≡ masked bits ip c
  same = common-same bits n.ip ip p ok.small small

  parts : masked bits n.ip (suc c) ≢ masked bits ip (suc c)
  parts = common_parts bits n.ip ip p positive differ

  c_bits : c < bits
  c_bits = omega (arith, below, shorter, ok.short)

  node_in_root : (x s : ℕ) → node_leads bits x s n ≡ true → (masked bits x c == r) ≡ true
  node_in_root x s = node_above bits n ok c r x s (omega (arith, below, shorter)) refl

  old_in_root : (x s : ℕ) → leads bits x s old ≡ true → (masked bits x c == r) ≡ true
  unfolding leads
  old_in_root x s h = elim (Bool-cases (masked bits x p == ip)) [
    | inl e ↦
        let at = (==_iff (masked bits x p) ip).0 e in
        (==_iff (masked bits x c) r).1 (
          sym (masked-masked bits x c p (omega (arith, below)))
          ∙ ap (λ k. masked bits k c) at
          ∙ sym same)
    | inr f ↦
        let rest = same_subtree t (some s) || (leads bits x s lo || leads bits x s hi) in
        absurd (cc (sym h ∙ ap (λ b. b && rest) f))
  ]

  root_small : r < 2 ^ bits
  root_small = omega (arith, masked_le bits n.ip c, ok.small)

  root_start : masked bits r c ≡ r
  root_start = masked-masked bits n.ip c c (omega arith)

  root-Within :
      (q i : ℕ) → masked bits n.ip q ≡ i → Within bits q i old → (q ≤ c) × (masked bits r q ≡ i)
  unfolding Within
  root-Within q i e w =
      let ne : q ≢ p =
        λ h. differ (ap (masked bits n.ip) (sym h) ∙ e ∙ sym w.1 ∙ ap (masked bits ip) h) in
      let le = common_longest bits n.ip ip p q (omega (arith, w.0, ne)) (e ∙ sym w.1) in
      (le, masked-masked bits n.ip q c le ∙ e)

  root-lower : n.ip < ip → Added bits n old (bintree r c none (leaf n) old)
  unfolding leads Nested Within Everywhere
  root-lower lt =
      let (low, high) = lower_half bits c c_bits n.ip ip same parts lt in
      let up = upper_half bits c c_bits ip high ∙ ap (λ k. k + half bits c) (sym same) in
      let new = leaf-Added bits n ok in
      record {
        more_leads = λ x s.
            ap (λ b. masked bits x c == r && (false || (b || leads bits x s old)))
              (new.more_leads x s)
            ∙ (above (masked bits x c == r) (node_leads bits x s n) (leads bits x s old)
                (node_in_root x s) (old_in_root x s)).0;
        nested = (
          omega (arith, c_bits),
          root_small,
          root_start,
          (omega (arith, below, shorter), low),
          (omega (arith, below), up),
          new.nested,
          nested,
        );
        within = λ q i le e w. root-Within q i e w;
        everywhere = λ Q q under e.
            (under r c (omega (arith, below, shorter)), new.everywhere Q q under tt, e);
      }

  root-upper : ip < n.ip → Added bits n old (bintree r c none old (leaf n))
  unfolding leads Nested Within Everywhere
  root-upper lt =
      let (low, high) = lower_half bits c c_bits ip n.ip (sym same) (λ e. parts (sym e)) lt in
      let new = leaf-Added bits n ok in
      record {
        more_leads = λ x s.
            ap (λ b. masked bits x c == r && (false || (leads bits x s old || b)))
              (new.more_leads x s)
            ∙ (above (masked bits x c == r) (node_leads bits x s n) (leads bits x s old)
                (node_in_root x s) (old_in_root x s)).1;
        nested = (
          omega (arith, c_bits),
          root_small,
          root_start,
          (omega (arith, below), low ∙ sym same),
          (omega (arith, below, shorter), upper_half bits c c_bits n.ip high),
          nested,
          new.nested,
        );
        within = λ q i le e w. root-Within q i e w;
        everywhere = λ Q q under e.
            (under r c (omega (arith, below, shorter)), e, new.everywhere Q q under tt);
      }

  pub common_root-Added : Added bits n old (common_root bits n ip p old)
  unfolding common_root
  common_root-Added = elim (Bool-cases (ltb n.ip ip)) [
    | inl e ↦ rw e (root-lower (ground (arith, e)))
    | inr e ↦
        let ne : n.ip ≢ ip = λ h. differ (ap (λ k. masked bits k p) h) in
        rw e (root-upper (ground (arith, e, ne)))
  ]
