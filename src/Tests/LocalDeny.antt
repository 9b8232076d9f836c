-- ===== src/Tests/LocalDeny.antt =====
-- Two networks that are filtered, on a device with object groups.
use netspoc.Prelude.{true, false, none, [], ◌∷◌, arith}
use netspoc.Pass2.LocalDeny.{RouterData, LocalAcl, add_local_deny_rules}
use netspoc.Pass2.LocalDeny.Denied.{Fits, Denies, add_local_deny_rules-Denies}

abbrev filtered : LocalAcl
filtered = record {
  network00 = 0;
  prt_ip = 0;
  filter_only = 1 ∷ 2 ∷ [];
  filter_any_src = true;
  object_groups = [];
}

abbrev device : RouterData
device = record {
  ipv6 = false;
  filter_only_group = none;
  do_objectgroup = true;
  obj_group_counter = 0;
  next = 3;
}

filtered-Fits : Fits filtered device
filtered-Fits = record {
  networks = ((tt, omega arith), ((tt, omega arith), tt));
  all = (tt, omega arith);
  shared = λ g e. cc;
}

add_local_deny_rules-Denies_example : Denies filtered (add_local_deny_rules filtered device)
add_local_deny_rules-Denies_example = add_local_deny_rules-Denies filtered device filtered-Fits
