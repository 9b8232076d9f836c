-- ===== src/Tests/Combine.antt =====
-- Two halves of all addresses of two bits.
use mathlib.Core.List.{Memᴰ}
use netspoc.Prelude.{
  ℕ, ◌≡◌, ◌≢◌, refl, sym, ap, ◌∙◌, true, false, none, some, List, [], ◌∷◌, if◌then◌else◌, ◌==◌,
  arith, any, All, All-Mem,
}
use netspoc.Prelude.Bytes.{is_digit, atoi, itoa, atoi-itoa, itoa-Free}
use netspoc.Prelude.Count.{Unique}
use netspoc.Pass2.Nets.{NetLib}
use netspoc.Pass2.Combine.{Objs, get, element, combine_adjacent_ip_mask}
use netspoc.Pass2.Combine.Objects.{Texts, Coherent}
use netspoc.Pass2.Combine.Cover.{Ok, has}
use netspoc.Pass2.Combine.Loop.{ip_of, combine_adjacent_ip_mask-any}
use netspoc.Tests.Sorting.{insertion_sort}

abbrev numbers : NetLib
numbers = record { parse_cidr = λ s. none; ip_string = λ bits ip. itoa ip }

slash : is_digit b'/' ≡ false
unfolding is_digit
slash = refl

numbers-Texts : Texts numbers 2
numbers-Texts = record {
  no_slash = λ ip. itoa-Free b'/' ip slash;
  distinct = λ ip ip' e. sym (atoi-itoa ip) ∙ ap atoi e ∙ atoi-itoa ip';
}

abbrev two_halves : Objs
two_halves = record {
  rule = λ r. record {
    deny = false;
    src = 0;
    dst = r;
    prt = 0;
    src_range = none;
    log = "";
    deleted = false;
    opt_secondary = false;
  };
  nets = record {
    net = λ p. record {
      ip = if p == 1 then 2 else 0;
      prefix = 1;
      bits = 2;
      opt_networks = none;
      no_opt_addrs = false;
      need_protect = false;
      name = [];
      up = none;
      is_supernet_of_need_protect = [];
    };
    names = [];
    next = 2;
  };
}

abbrev both : List ℕ
both = 1 ∷ 0 ∷ []

two_halves-Coherent : Coherent numbers 2 two_halves.nets
two_halves-Coherent ip prefix p e = cc

both-Unique : Unique both
both-Unique r = ground arith

both_differ :
    (p q : ℕ)
    → Memᴰ p both
    → Memᴰ q both
    → p ≢ q
    → ip_of true two_halves p ≢ ip_of true two_halves q
unfolding element get
both_differ p q m n =
    All-Mem (λ q. p ≢ q → ip_of true two_halves p ≢ ip_of true two_halves q) both q
      (All-Mem (λ p. All (λ q. p ≢ q → ip_of true two_halves p ≢ ip_of true two_halves q) both) both
        p
        (
          ((λ ne e. ne refl), ((λ ne e. absurd (omega (arith, e))), tt)),
          (((λ ne e. absurd (omega (arith, e))), ((λ ne e. ne refl), tt)), tt),
        )
        m)
      n

both-Ok : All (Ok numbers 2 numbers-Texts true (ip_of true two_halves) two_halves) both
unfolding element get
both-Ok = (
  (omega arith, refl, refl, omega arith, refl),
  ((omega arith, refl, refl, omega arith, refl), tt),
)

combine_adjacent_ip_mask-any_example :
    (out : List ℕ) × (t : Objs) × (combine_adjacent_ip_mask
        (insertion_sort ℕ)
        numbers
        true
        both
        two_halves
      ≡ some (out, t))
    × ((x : ℕ) → any (has 2 true t x) out ≡ any (has 2 true two_halves x) both)
combine_adjacent_ip_mask-any_example =
    combine_adjacent_ip_mask-any (insertion_sort ℕ) numbers 2 numbers-Texts true both two_halves
      two_halves-Coherent both-Unique both_differ both-Ok
