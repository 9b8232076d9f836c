-- ===== src/Tests/Nets.antt =====
-- The networks 0.0.0.0/0 and 10.0.0.0/8.
use mathlib.Core.List.{Memᴰ}
use netspoc.Prelude.{
  ℕ, ◌≡◌, refl, false, none, some, List, [], ◌∷◌, if◌then◌else◌, ◌==◌, arith, All, All-Mem,
}
use netspoc.Pass2.Rules.{IpNet}
use netspoc.Pass2.Nets.{relate, or_opt, opt_above}
use netspoc.Pass2.Nets.Smallest.{SmallestNet, relate-Smallest}
use netspoc.Tests.Sorting.{insertion_sort}

abbrev nets : ℕ → IpNet
nets p = record {
  ip = if p == 1 then 167772160 else 0;
  prefix = if p == 1 then 8 else 0;
  bits = 32;
  opt_networks = if p == 1 then none else some 7;
  no_opt_addrs = false;
  need_protect = false;
  name = [];
  up = none;
  is_supernet_of_need_protect = [];
}

abbrev both : List ℕ
both = 0 ∷ 1 ∷ []

abbrev Alone : ℕ → ℕ → Type 0
Alone p q = (nets q).prefix ≡ (nets p).prefix → (nets q).ip ≡ (nets p).ip → q ≡ p

nets-Alone : (p q : ℕ) → Memᴰ p both → Memᴰ q both → Alone p q
nets-Alone p q m n =
    All-Mem (Alone p) both q
      (All-Mem (λ p. All (Alone p) both) both p
        (
          ((λ e f. refl), ((λ e f. absurd (omega (arith, e))), tt)),
          (((λ e f. absurd (omega (arith, e))), ((λ e f. refl), tt)), tt),
        )
        m)
      n

one_here : Memᴰ 1 both
one_here = Memᴰ.tail (Memᴰ.head refl)

relate-Smallest_example :
    let net' = relate (insertion_sort ℕ) both nets in
    SmallestNet 32 both nets 1 (net' 1).up
    × ((net' 1).opt_networks ≡ or_opt (opt_above net' (net' 1).up) (nets 1).opt_networks)
relate-Smallest_example =
    relate-Smallest 32 both nets (insertion_sort ℕ) nets-Alone (λ p n. refl) (λ p n. refl) 1
      one_here
