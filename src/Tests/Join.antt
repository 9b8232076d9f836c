-- ===== src/Tests/Join.antt =====
-- A run of `joinRanges` on two rules for adjacent ranges.
use netspoc.Prelude.{
  ℕ, ◌≤◌, ◌≡◌, refl, true, false, none, List, [], ◌∷◌, if◌then◌else◌, ◌==◌, arith, any,
}
use netspoc.Prelude.Bytes.{codes}
use netspoc.Prelude.Count.{count, Unique}
use netspoc.Pass2.Rules.{CiscoRule, Proto}
use netspoc.Pass2.Protocol.{Protos}
use netspoc.Pass2.Protocol.Names.{tcp}
use netspoc.Pass2.Join.{prt_of, join_ranges}
use netspoc.Pass2.Join.Step.{Query, answers, Sound}
use netspoc.Pass2.Join.Kept.{Joinable, unjoined, join_ranges-answers}
use netspoc.Tests.Sorting.{insertion_sort}

-- Protocol 1 is tcp 81-90, all others are tcp 70-80.
abbrev store_prt : ℕ → Proto
store_prt p = record {
  protocol = codes "tcp";
  low = if p == 1 then 81 else 70;
  high = if p == 1 then 90 else 80;
  established = false;
  icmp_type = none;
  icmp_code = none;
  name = [];
  up = none;
  has_neighbor = true;
}

abbrev protos : Protos
protos = record { prt = store_prt; names = []; next = 2 }

abbrev store : ℕ → CiscoRule
store r = record {
  deny = false;
  src = 0;
  dst = 0;
  prt = if r == 0 then 1 else 0;
  src_range = none;
  log = "";
  deleted = false;
  opt_secondary = false;
}

abbrev rules : List ℕ
rules = 0 ∷ 1 ∷ []

abbrev query : Query
query = record {
  key = record { deny = false; src = 0; dst = 0; src_range = none; log = ""; proto = codes "tcp" };
  established = false;
  port = 85;
}

sound : Sound (unjoined store protos)
sound = record {
  named = record { used = λ n p e. cc; ports = λ n p e. cc };
  used = λ r. ground arith;
}

unique : Unique rules
unique r = ground arith

joinable :
    (r : ℕ)
    → 1 ≤ count r rules
    → (prt_of (unjoined store protos) r).has_neighbor ≡ true
    → Joinable (unjoined store protos) r
joinable r le e = record { alive = refl; ports = tcp; opened = refl; range = ground arith }

join_ranges-answers_example :
    let (rules', s) = join_ranges (insertion_sort ℕ) rules store protos in
    any (answers query s) rules' ≡ any (answers query (unjoined store protos)) rules
join_ranges-answers_example =
    join_ranges-answers (insertion_sort ℕ) rules store protos sound unique joinable query
