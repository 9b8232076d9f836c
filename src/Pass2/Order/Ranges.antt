-- ===== src/Pass2/Order/Ranges.antt =====
-- `orderRanges` on the protocols of the map, sorted.
use mathlib.Core.List.{Memᴰ}
use mathlib.Core.List.Memᴰ.{head, tail}
use netspoc.Prelude.{
  ℕ, suc, ◌≤◌, ◌<◌, ◌≡◌, ◌≢◌, ◌⊎◌, inl, inr, refl, subst, false, ◌&&◌, ◌||◌, List, [], ◌∷◌, ltb,
  ◌==◌, arith, All-Mem, Mem-All, length,
}
use netspoc.Prelude.Bytes.{Bytes}
use netspoc.Prelude.Sort.{SortSlice, Sorted, Weak}
use netspoc.Prelude.Count.{
  Unique, count-Perm, Mem→count, count→Mem, count_rest, Unique-tail, Mem-Perm,
}
use netspoc.Pass2.Rules.{Proto}
use netspoc.Pass2.Protocol.{Protos}
use netspoc.Pass2.Order.{done, range_less, ranges_of, order_ranges}
use netspoc.Pass2.Order.Nested.{Includes, Behind, Apart}
use netspoc.Pass2.Order.Linked.{Linked, order_from-AllLinked}

abbrev pub low_port : (ℕ → Proto) → ℕ → ℕ
low_port prt p = (prt p).low

abbrev pub high_port : (ℕ → Proto) → ℕ → ℕ
high_port prt p = (prt p).high

module _ (low high : ℕ → ℕ) where
  -- Two ranges that differ do not overlap: one ends before the other one or includes it.
  abbrev pub Tidy : ℕ → ℕ → Type 0
  Tidy x y =
      (low x ≡ low y → high x ≢ high y)
      × (((high x < low y) ⊎ (high y < low x)) ⊎ (Includes low high x y ⊎ Includes low high y x))

  Tidy-Behind :
      (x y : ℕ)
      → low x ≤ high x
      → low y ≤ high y
      → Tidy x y
      → (ltb (low y) (low x) || low y == low x && ltb (high x) (high y)) ≡ false
      → Behind low high x y
  Tidy-Behind x y vx vy (differ, inl (inl lt)) e = (omega arith, inl lt)
  Tidy-Behind x y vx vy (differ, inl (inr lt)) e = absurd (ground arith)
  Tidy-Behind x y vx vy (differ, inr (inl i)) e = (i.0, inr (i.1, strict))
    where
      strict : (low x < low y) ⊎ (high y < high x)
      strict = ground (arith, i.0, i.1, differ)
  Tidy-Behind x y vx vy (differ, inr (inr i)) e = absurd (ground (arith, i.0, i.1, differ))

module _ (s : ℕ → Proto) (valid : (x : ℕ) → (s x).low ≤ (s x).high) where
  Sorted-Apart :
      (ranges : List ℕ)
      → Sorted (range_less s) ranges
      → Unique ranges
      → ((x y : ℕ) → Memᴰ x ranges → Memᴰ y ranges → x ≢ y → Tidy (low_port s) (high_port s) x y)
      → Apart (low_port s) (high_port s) ranges
  Sorted-Apart [] sorted u tidy = tt
  Sorted-Apart (x ∷ xs) sorted u tidy = (
    Mem-All (Behind (low_port s) (high_port s) x) xs (λ y m.
        Tidy-Behind (low_port s) (high_port s) x y (valid x) (valid y)
          (tidy x y (head refl) (tail m) (count_rest x y xs u m))
          (All-Mem (λ y. range_less s y x ≡ false) xs y sorted.0 m)),
    Sorted-Apart xs sorted.1 (Unique-tail x xs u) (λ y z m n. tidy y z (tail m) (tail n)),
  )

  range_less-Weak : Weak (range_less s)
  range_less-Weak = (λ a b e. ground arith, λ a b c e f. ground arith)

-- If the map has each protocol once, the low port of none is above its high port, and of the ranges of
-- the protocol no two are equal or overlap, then the call returns. It links each range with the
-- smallest other one that includes it, or with the given larger protocol if none does, and leaves
-- the links of all others as they were.
pub order_ranges-Linked :
    (std : SortSlice ℕ) (protocol : Bytes) (s : Protos) (up : ℕ)
    → let low = low_port s.prt in
      let high = high_port s.prt in
      let ranges = ranges_of protocol s in
      ((x : ℕ) → low x ≤ high x)
      → Unique ranges
      → ((x y : ℕ) → Memᴰ x ranges → Memᴰ y ranges → x ≢ y → Tidy low high x y)
      → (prt : ℕ → Proto) × (order_ranges std protocol s up ≡ done [] prt)
        × ((p : ℕ) → Memᴰ p ranges → Linked low high ranges up prt p)
        × ((x : ℕ) → (Memᴰ x ranges → ⊥) → (prt x).up ≡ (s.prt x).up)
unfolding order_ranges
order_ranges-Linked std protocol s up valid u tidy =
    let low = low_port s.prt in
    let high = high_port s.prt in
    let ranges = ranges_of protocol s in
    let sorted = std.sort (range_less s.prt) ranges in
    let perm = std.sort-Perm (range_less s.prt) ranges in
    let u' : Unique sorted = λ r. omega (arith, u r, count-Perm r perm) in
    let to : (x : ℕ) → Memᴰ x ranges → Memᴰ x sorted =
      λ x m. count→Mem x sorted (omega (arith, Mem→count x ranges m, count-Perm x perm)) in
    let apart =
      Sorted-Apart s.prt valid sorted
        (std.sort-Sorted (range_less s.prt) ranges (range_less-Weak s.prt valid)) u'
        (λ x y m n. tidy x y (Mem-Perm x perm m) (Mem-Perm y perm n)) in
    let (prt, e, kept, linked) =
      order_from-AllLinked low high valid (suc (length sorted)) up sorted s.prt (λ x. (refl, refl))
        apart (omega arith) in
    (
      prt,
      e,
      λ p m. elim (linked p (to p m)) [
        | inl (q, f, (mq, ne, i, small)) ↦
            inl (q, f, (Mem-Perm q perm mq, ne, i, λ r n. small r (to r n)))
        | inr (f, free) ↦ inr (f, λ r n. free r (to r n))
      ],
      λ x no. kept x (
          Mem-All (λ r. r ≢ x) sorted
            (λ r m e. no (subst (λ z. Memᴰ z ranges) e (Mem-Perm r perm m)))),
    )
