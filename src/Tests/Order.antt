-- ===== src/Tests/Order.antt =====
-- The links of `tcp` and `tcp 80`.
use mathlib.Core.List.{Memᴰ}
use netspoc.Prelude.{
  ℕ, ◌≤◌, ◌≡◌, ◌≢◌, inl, inr, refl, [], ◌∷◌, if◌then◌else◌, ◌==◌, arith, All, All-Mem,
}
use netspoc.Prelude.Bytes.{codes}
use netspoc.Prelude.Count.{Unique}
use netspoc.Pass2.Rules.{Proto}
use netspoc.Pass2.Protocol.{Protos, new_proto}
use netspoc.Pass2.Order.{done, order_ranges, ranges_of}
use netspoc.Pass2.Order.Linked.{Linked}
use netspoc.Pass2.Order.Ranges.{Tidy, low_port, high_port, order_ranges-Linked}
use netspoc.Tests.Sorting.{insertion_sort}

abbrev tcp : Proto
tcp = record (new_proto (codes "tcp") (codes "tcp")) { low = 1; high = 65535 }

abbrev tcp_80 : Proto
tcp_80 = record (new_proto (codes "tcp 80") (codes "tcp")) { low = 80; high = 80 }

abbrev two : Protos
two = record {
  prt = λ p. if p == 1 then tcp else if p == 2 then tcp_80 else new_proto (codes "ip") (codes "ip");
  names = (codes "ip", 0) ∷ (codes "tcp", 1) ∷ (codes "tcp 80", 2) ∷ [];
  next = 3;
}

two_ranges : ranges_of (codes "tcp") two ≡ 1 ∷ 2 ∷ []
unfolding ranges_of
two_ranges = refl

two_valid : (x : ℕ) → low_port two.prt x ≤ high_port two.prt x
two_valid x = ground arith

two-Unique : Unique (ranges_of (codes "tcp") two)
two-Unique = rw two_ranges (λ r. ground arith)

two-Tidy :
    (x y : ℕ)
    → Memᴰ x (ranges_of (codes "tcp") two)
    → Memᴰ y (ranges_of (codes "tcp") two)
    → x ≢ y
    → Tidy (low_port two.prt) (high_port two.prt) x y
two-Tidy = rw two_ranges λ x y m n.
    All-Mem (λ y. x ≢ y → Tidy (low_port two.prt) (high_port two.prt) x y) (1 ∷ 2 ∷ []) y
      (All-Mem
        (λ x. All (λ y. x ≢ y → Tidy (low_port two.prt) (high_port two.prt) x y) (1 ∷ 2 ∷ []))
        (1 ∷ 2 ∷ []) x
        (
          (
            (λ ne. absurd (ne refl)),
            ((λ ne. (λ e f. omega arith, inr (inl (omega arith, omega arith)))), tt),
          ),
          (
            (
              (λ ne. (λ e f. omega arith, inr (inr (omega arith, omega arith)))),
              ((λ ne. absurd (ne refl)), tt),
            ),
            tt,
          ),
        )
        m)
      n

order_ranges-Linked_example :
    (prt : ℕ → Proto) × (order_ranges (insertion_sort ℕ) (codes "tcp") two 0 ≡ done [] prt)
    × ((p : ℕ)
        → Memᴰ p (ranges_of (codes "tcp") two)
        → Linked (low_port two.prt) (high_port two.prt) (ranges_of (codes "tcp") two) 0 prt p)
    × ((x : ℕ) → (Memᴰ x (ranges_of (codes "tcp") two) → ⊥) → (prt x).up ≡ (two.prt x).up)
order_ranges-Linked_example =
    order_ranges-Linked (insertion_sort ℕ) (codes "tcp") two 0 two_valid two-Unique two-Tidy
