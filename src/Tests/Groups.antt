-- ===== src/Tests/Groups.antt =====
-- A group that is there already, for elements in another order.
use netspoc.Prelude.{ℕ, ◌≡◌, ◌≢◌, refl, true, false, none, [], ◌∷◌, arith, map}
use netspoc.Prelude.Bytes.{Bytes, codes}
use netspoc.Prelude.Sort.{Pairwise}
use netspoc.Pass2.LocalDeny.{RouterData, LocalAcl}
use netspoc.Pass2.Groups.{GroupMap, get_group, groups_at, search_group}
use netspoc.Pass2.Groups.Found.{GroupsOk, GroupOf, get_group-GroupOf}

abbrev grouped : LocalAcl
grouped = record {
  network00 = 0;
  prt_ip = 0;
  filter_only = [];
  filter_any_src = true;
  object_groups = record { name = codes "g0"; elements = 6 ∷ 5 ∷ []; ref = 7 } ∷ [];
}

abbrev grouping : RouterData
grouping = record {
  ipv6 = false;
  filter_only_group = none;
  do_objectgroup = true;
  obj_group_counter = 1;
  next = 8;
}

abbrev letter : ℕ → Bytes
letter p = p ∷ []

abbrev one_group : GroupMap
one_group = (record { size = 2; first = letter 5 }, (7, letter 6 ∷ letter 5 ∷ []) ∷ []) ∷ []

reused : (get_group (λ p. p) letter 5 (6 ∷ []) grouped grouping one_group).0 ≡ 7
unfolding get_group groups_at search_group
reused = refl

letters_differ : Pairwise (λ x y. x ≢ y) (map letter (5 ∷ 6 ∷ []))
letters_differ = ((λ e. cc, tt), (tt, tt))

one_group-GroupsOk : GroupsOk letter 8 grouped.object_groups one_group
one_group-GroupsOk = (((refl, omega arith, λ has. refl), tt), tt)

get_group-GroupOf_example :
    GroupOf letter
      (5 ∷ 6 ∷ [])
      grouped
      grouping
      (get_group (λ p. p) letter 5 (6 ∷ []) grouped grouping one_group)
get_group-GroupOf_example =
    get_group-GroupOf letter (λ p. p) 5 (6 ∷ []) grouped grouping one_group letters_differ
      one_group-GroupsOk
