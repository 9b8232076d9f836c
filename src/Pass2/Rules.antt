-- ===== src/Pass2/Rules.antt =====
-- go/cmd/spoc2/main.go: the objects of the second pass. A pointer is a number, and what it points to
-- is found in a store; two objects are the same exactly when their pointers are.
use Prim.Native.String.{String}
use netspoc.Prelude.Bytes.{Bytes}
use text.Mathlib.Text.{◌==◌ as str_eq}
use netspoc.Prelude.{ℕ, Bool, true, not, Option, List, if◌then◌else◌, ◌==◌}

-- `ipNet`. The mask is given by its prefix length; `bits` is 32 or 128. Of the map
-- `isSupernetOfNeedProtect` its keys are given, and it is empty where the source has nil.
pub record IpNet : Type 0 where
  pub ip : ℕ
  pub prefix : ℕ
  pub bits : ℕ
  pub opt_networks : Option ℕ
  pub no_opt_addrs : Bool
  pub need_protect : Bool
  pub name : Bytes
  pub up : Option ℕ
  pub is_supernet_of_need_protect : List ℕ

-- `proto`. `none` as ICMP type or code is the -1 of the source.
pub record Proto : Type 0 where
  pub protocol : Bytes
  pub low : ℕ
  pub high : ℕ
  pub established : Bool
  pub icmp_type : Option ℕ
  pub icmp_code : Option ℕ
  pub name : Bytes
  pub up : Option ℕ
  pub has_neighbor : Bool

-- `ciscoRule`
pub record CiscoRule : Type 0 where
  pub deny : Bool
  pub src : ℕ
  pub dst : ℕ
  pub prt : ℕ
  pub src_range : Option ℕ
  pub log : String
  pub deleted : Bool
  pub opt_secondary : Bool

-- The networks and protocols of one access list, and a number that no chain of `up` exceeds.
pub record Objects : Type 0 where
  pub net : ℕ → IpNet
  pub prt : ℕ → Proto
  pub depth : ℕ

abbrev pub net_up : Objects → ℕ → Option ℕ
net_up h p = (h.net p).up

abbrev pub prt_up : Objects → ℕ → Option ℕ
prt_up h p = (h.prt p).up

-- The rules, which are changed in place, and the variable `changed`.
pub record State : Type 0 where
  pub rule : ℕ → CiscoRule
  pub changed : Bool

abbrev pub same_log : CiscoRule → CiscoRule → Bool
same_log r t = str_eq r.log t.log

abbrev pub update {ℓ} : {A : Type ℓ} → (ℕ → A) → ℕ → A → ℕ → A
update f p a q = if p == q then a else f q

-- `rule.log != ""`
abbrev pub has_log : CiscoRule → Bool
has_log r = not (str_eq r.log "")

-- `rule.deleted = true; changed = true`
abbrev pub delete : ℕ → State → State
delete p s = record {
  rule = update s.rule p (record (s.rule p) { deleted = true });
  changed = true;
}
