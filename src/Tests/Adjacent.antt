-- ===== src/Tests/Adjacent.antt =====
-- Four hosts that fill a network of four addresses.
use mathlib.Core.Option.{some-injective}
use netspoc.Prelude.{
  ℕ, zero, suc, subst, ◌≡◌, refl, Bool, true, false, Option, none, some, List, [], ◌∷◌,
  if◌then◌else◌, ◌==◌, arith, any,
}
use netspoc.Adjacent.{
  UpObj.up_network, UpObj.up_subnet, HostSubnet, HostObj, HostObj.subnet, HostObj.network,
  HostObj.other, find_subnets, combine_found, combine_rounds, combine_round, combine_subnets,
}
use netspoc.Adjacent.Whole.{obj_has, Halved, combine_subnets-has}

abbrev host_neighbor : ℕ → Option ℕ
host_neighbor zero = some 1
host_neighbor (suc zero) = none
host_neighbor (suc (suc zero)) = some 3
host_neighbor (suc (suc (suc zero))) = none
host_neighbor (suc (suc (suc (suc zero)))) = some 5
host_neighbor (suc (suc (suc (suc (suc p))))) = none

-- Single addresses 0 to 3, then pairs.
abbrev hosts : ℕ → HostSubnet
hosts p = record {
  ip = if p == 4 then 0 else (if p == 5 then 2 else p);
  prefix = if p == 4 then 2 else (if p == 5 then 2 else 3);
  neighbor = host_neighbor p;
  has_neighbor = true;
  up = if p == 4 then up_network 7 else (if p == 0 then up_subnet 4 else up_subnet 5);
}

abbrev four : List HostObj
four = subnet 3 ∷ subnet 0 ∷ other 1 ∷ subnet 2 ∷ subnet 1 ∷ []

combined : combine_subnets hosts four ≡ some (other 1 ∷ network 7 ∷ [])
unfolding combine_subnets find_subnets combine_found combine_rounds combine_round
combined = refl

abbrev host_net : ℕ → ℕ × ℕ
host_net x = (0, 1)

abbrev no_more : ℕ → ℕ → Bool
no_more x a = false

abbrev HalvedHosts : ℕ → ℕ → Type 0
HalvedHosts s n = Halved 3 hosts host_net no_more s n

hosts-Halved : (s n : ℕ) → (hosts s).neighbor ≡ some n → HalvedHosts s n
hosts-Halved zero n e = subst (HalvedHosts 0) (some-injective 1 n e) record {
  p = 2;
  left_prefix = refl;
  right_prefix = refl;
  long = omega arith;
  start = refl;
  right_ip = refl;
  up = (refl, refl);
}
hosts-Halved (suc zero) n e = absurd (cc e)
hosts-Halved (suc (suc zero)) n e = subst (HalvedHosts 2) (some-injective 3 n e) record {
  p = 2;
  left_prefix = refl;
  right_prefix = refl;
  long = omega arith;
  start = refl;
  right_ip = refl;
  up = (refl, refl);
}
hosts-Halved (suc (suc (suc zero))) n e = absurd (cc e)
hosts-Halved (suc (suc (suc (suc zero)))) n e =
    subst (HalvedHosts 4) (some-injective 5 n e) record {
      p = 1;
      left_prefix = refl;
      right_prefix = refl;
      long = omega arith;
      start = refl;
      right_ip = refl;
      up = (refl, refl);
    }
hosts-Halved (suc (suc (suc (suc (suc s))))) n e = absurd (cc e)

combine_subnets-has_example :
    (out : List HostObj) × (combine_subnets hosts four ≡ some out)
    × ((a : ℕ)
        → any (obj_has 3 hosts host_net no_more a) out
          ≡ any (obj_has 3 hosts host_net no_more a) four)
combine_subnets-has_example = combine_subnets-has 3 hosts host_net no_more hosts-Halved four
