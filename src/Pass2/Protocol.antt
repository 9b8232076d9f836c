-- ===== src/Pass2/Protocol.antt =====
-- go/cmd/spoc2/main.go: `createPrtObj`, `getPrtObj`; go/pkg/jcode/types.go: `GenPortName`. Names are
-- texts of bytes.
pub mod Names
pub mod Store
use netspoc.Prelude.{
  ℕ, suc, ◌+◌, ◌≡◌, Bool, true, false, ◌&&◌, ◌||◌, Option, none, some, List, [], ◌∷◌, ◌++◌,
  if◌then◌else◌, ◌==◌,
}
use netspoc.Prelude.Bytes.{Bytes, codes, bytes_eq, cut_at, itoa, atoi}
use netspoc.Pass2.Rules.{Proto, update}

-- The name of a protocol with ports.
unfoldable pub gen_port_name : Bytes → ℕ → ℕ → Bytes
gen_port_name proto v1 v2 =
    if v1 == v2
    then proto ++ b' ' ∷ itoa v1
    else if v1 == 1 && v2 == 65535
    then proto
    else proto ++ b' ' ∷ (itoa v1 ++ b'-' ∷ itoa v2)

-- A fresh `proto`, its other fields as Go sets them.
abbrev pub new_proto : Bytes → Bytes → Proto
new_proto descr protocol = record {
  protocol = protocol;
  low = 0;
  high = 0;
  established = false;
  icmp_type = some 0;
  icmp_code = some 0;
  name = descr;
  up = none;
  has_neighbor = false;
}

-- tcp, tcp 80, tcp 80-90, tcp established
unfoldable pub with_ports : Bytes → Option (Bytes × Bytes) → Proto → Proto
with_ports detail none p =
    if bytes_eq detail (codes "established")
    then record p { established = true; low = 1; high = 65535 }
    else if bytes_eq detail []
    then record p { low = 1; high = 65535 }
    else record p { low = atoi detail; high = atoi detail }
with_ports detail (some (before, behind)) p = record p { low = atoi before; high = atoi behind }

-- icmp 3, icmp 3/13
with_type : Bytes → Option (Bytes × Bytes) → Proto → Proto
with_type detail none p = record p { icmp_type = some (atoi detail); icmp_code = none }
with_type detail (some (before, behind)) p = record p {
  icmp_type = some (atoi before);
  icmp_code = some (atoi behind);
}

-- The `switch` over the protocol.
unfoldable pub with_detail : Bytes → Bytes → Proto → Proto
unfolding with_ports with_type
with_detail protocol detail p =
    if bytes_eq protocol (codes "tcp") || bytes_eq protocol (codes "udp")
    then with_ports detail (cut_at b'-' detail) p
    else if bytes_eq protocol (codes "icmp")
    then if bytes_eq detail []
      then record p { icmp_type = none }
      else with_type detail (cut_at b'/' detail) p
    else if bytes_eq protocol (codes "proto")
    then record p { protocol = detail }
    else p

unfoldable pub split_descr : Bytes → Option (Bytes × Bytes) → Bytes × Bytes
split_descr descr none = (descr, [])
split_descr descr (some (protocol, detail)) = (protocol, detail)

unfoldable pub create_prt_obj : Bytes → Proto
unfolding with_detail split_descr
create_prt_obj descr =
    let (protocol, detail) = split_descr descr (cut_at b' ' descr) in
    with_detail protocol detail (new_proto descr protocol)

-- `prt2obj` with the store that its pointers lead to. Pointers below `next` are in use.
pub record Protos : Type 0 where
  pub prt : ℕ → Proto
  pub names : List (Bytes × ℕ)
  pub next : ℕ

abbrev pub find_name : Bytes → List (Bytes × ℕ) → Option ℕ
find_name name [] = none
find_name name ((n, p) ∷ m) = if bytes_eq n name then some p else find_name name m

unfoldable pub known_or_new : Bytes → Option ℕ → Protos → ℕ × Protos
known_or_new name (some p) s = (p, s)
known_or_new name none s = (
  s.next,
  record {
    prt = update s.prt s.next (create_prt_obj name);
    names = (name, s.next) ∷ s.names;
    next = suc s.next;
  },
)

unfoldable pub get_prt_obj : Bytes → Protos → ℕ × Protos
unfolding known_or_new
get_prt_obj name s = known_or_new name (find_name name s.names) s
