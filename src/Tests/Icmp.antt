-- ===== src/Tests/Icmp.antt =====
-- Any ICMP, a type, a code of this type and a code of another one.
use mathlib.Core.List.{Memᴰ}
use mathlib.Core.List.Memᴰ.{head, tail}
use netspoc.Prelude.{
  ℕ, zero, suc, ◌≡◌, ◌≢◌, refl, sym, ap, ◌∙◌, subst, Option, none, some, List, [], ◌∷◌, map, arith,
}
use netspoc.Prelude.Sort.{Pairwise}
use netspoc.Protocols.Icmp.{IcmpProto, find_larger, set_larger, order_icmp}
use netspoc.Protocols.Icmp.Assigned.{type_of, code_of}
use netspoc.Protocols.Icmp.Smallest.{IcmpOk}
use netspoc.Protocols.Icmp.Larger.{SmallestAbove, order_icmp-SmallestAbove}

abbrev icmp_any : IcmpProto
icmp_any = record { icmp_type = none; icmp_code = none }

abbrev icmp_echo : IcmpProto
icmp_echo = record { icmp_type = some 8; icmp_code = none }

abbrev icmps : ℕ → IcmpProto
icmps zero = icmp_any
icmps (suc zero) = icmp_echo
icmps (suc (suc zero)) = record { icmp_type = some 8; icmp_code = some 0 }
icmps (suc (suc (suc p))) = record { icmp_type = some 3; icmp_code = some 1 }

abbrev icmp_list : List ℕ
icmp_list = 2 ∷ 1 ∷ 0 ∷ 3 ∷ []

abbrev unset : ℕ → ℕ
unset p = 99

ordered : map (order_icmp icmps icmp_list 9 unset) icmp_list ≡ 1 ∷ 0 ∷ 9 ∷ 0 ∷ []
unfolding order_icmp find_larger set_larger
ordered = refl

-- What tells the elements of the list apart, from their types and codes.
abbrev told : Option ℕ → Option ℕ → ℕ
told none c = 0
told (some t) none = 1
told (some t) (some zero) = 2
told (some t) (some (suc c)) = 3

told_lem : (p : ℕ) → Memᴰ p icmp_list → p ≡ told (type_of icmps p) (code_of icmps p)
told_lem p (head e) = subst (λ q. q ≡ told (type_of icmps q) (code_of icmps q)) (sym e) refl
told_lem p (tail (head e)) = subst (λ q. q ≡ told (type_of icmps q) (code_of icmps q)) (sym e) refl
told_lem p (tail (tail (head e))) =
    subst (λ q. q ≡ told (type_of icmps q) (code_of icmps q)) (sym e) refl
told_lem p (tail (tail (tail (head e)))) =
    subst (λ q. q ≡ told (type_of icmps q) (code_of icmps q)) (sym e) refl
told_lem p (tail (tail (tail (tail h)))) = elim h [ ]

icmp_once : Pairwise (λ p q. p ≢ q) icmp_list
icmp_once = omega arith

icmps-IcmpOk : IcmpOk icmps icmp_list
icmps-IcmpOk = record {
  once = icmp_once;
  one_any = λ p q h k e f.
      told_lem p h
      ∙ ap (λ t. told t (code_of icmps p)) e
      ∙ sym (told_lem q k ∙ ap (λ t. told t (code_of icmps q)) f);
  one_each = λ p q h k e f.
      told_lem p h
      ∙ ap (λ t. told t (code_of icmps p)) e
      ∙ ap (told (type_of icmps q)) f
      ∙ sym (told_lem q k);
}

order_icmp-SmallestAbove_example :
    SmallestAbove icmps icmp_list icmps-IcmpOk 9 2 (order_icmp icmps icmp_list 9 unset 2)
order_icmp-SmallestAbove_example =
    order_icmp-SmallestAbove icmps icmp_list icmps-IcmpOk 9 unset 2 (head refl)
