-- ===== src/Pass2/Join.antt =====
-- go/cmd/spoc2/main.go: `joinRanges`, which joins rules on adjacent ranges of ports. The lists of
-- `key2rules` are visited in the order in which their keys come up first.
pub mod Step
pub mod Groups
pub mod Kept
use text.Mathlib.Text.{◌==◌ as str_eq}
use Prim.Native.String.{String}
use netspoc.Prelude.{
  ℕ, suc, Bool, true, false, not, ◌&&◌, Option, none, some, List, [], ◌∷◌, ◌++◌, if◌then◌else◌, ltb,
  ◌==◌,
}
use netspoc.Prelude.Bytes.{Bytes, bytes_eq}
use netspoc.Prelude.Sort.{SortSlice}
use netspoc.Pass2.Rules.{CiscoRule, Proto, update}
use netspoc.Pass2.Protocol.{Protos, gen_port_name, get_prt_obj}
use netspoc.Pass2.Optimize.{not_deleted}

-- The type `key` of the function
pub record JoinKey : Type 0 where
  pub deny : Bool
  pub src : ℕ
  pub dst : ℕ
  pub src_range : Option ℕ
  pub log : String
  pub proto : Bytes

-- The rules and protocols, which are changed in place, and the variable `changed`.
pub record JoinState : Type 0 where
  pub rule : ℕ → CiscoRule
  pub protos : Protos
  pub changed : Bool

-- `rule.prt`
abbrev pub prt_of : JoinState → ℕ → Proto
prt_of s r = s.protos.prt (s.rule r).prt

abbrev pub join_key : JoinState → ℕ → JoinKey
join_key s r =
    let rule = s.rule r in
    record {
      deny = rule.deny;
      src = rule.src;
      dst = rule.dst;
      src_range = rule.src_range;
      log = rule.log;
      proto = (prt_of s r).protocol;
    }

abbrev pub bool_eq : Bool → Bool → Bool
bool_eq true b = b
bool_eq false b = not b

abbrev pub opt_eq : Option ℕ → Option ℕ → Bool
opt_eq none none = true
opt_eq none (some q) = false
opt_eq (some p) none = false
opt_eq (some p) (some q) = p == q

-- Whether two keys are the same key of the map.
pub key_eq : JoinKey → JoinKey → Bool
key_eq k l =
    bool_eq k.deny l.deny
    && k.src == l.src
    && k.dst == l.dst
    && opt_eq k.src_range l.src_range
    && str_eq k.log l.log
    && bytes_eq k.proto l.proto

-- `key2rules[k] = append(key2rules[k], rule)`
pub add_to_group : JoinKey → ℕ → List (JoinKey × List ℕ) → List (JoinKey × List ℕ)
unfolding key_eq
add_to_group k r [] = (k, r ∷ []) ∷ []
add_to_group k r ((k', rs) ∷ g) =
    let rest = add_to_group k r g in if key_eq k' k then (k', rs ++ r ∷ []) ∷ g else (k', rs) ∷ rest

-- The loop that fills `key2rules`.
pub group_rules : JoinState → List ℕ → List (JoinKey × List ℕ) → List (JoinKey × List ℕ)
unfolding add_to_group
group_rules s [] g = g
group_rules s (r ∷ rs) g =
    group_rules s rs (if not (prt_of s r).has_neighbor then g else add_to_group (join_key s r) r g)

-- What is done with two rules on adjacent ranges.
pub join_pair : Bytes → ℕ → ℕ → ℕ → ℕ → JoinState → JoinState
join_pair proto a b a1 b2 s =
    let (p, protos) = get_prt_obj (gen_port_name proto a1 b2) s.protos in
    let joined = update s.rule b (record (s.rule b) { prt = p }) in
    record {
      rule = update joined a (record (joined a) { deleted = true });
      protos = protos;
      changed = true;
    }

-- The loop over the rest of the sorted list.
pub join_list : Bytes → ℕ → ℕ → ℕ → List ℕ → JoinState → JoinState
unfolding join_pair
join_list proto a a1 a2 [] s = s
join_list proto a a1 a2 (b ∷ bs) s =
    let adjacent = suc a2 == (prt_of s b).low in
    join_list proto b (if adjacent then a1 else (prt_of s b).low) (prt_of s b).high bs
      (if adjacent then join_pair proto a b a1 (prt_of s b).high s else s)

pub low_less : JoinState → ℕ → ℕ → Bool
low_less s r t = ltb (prt_of s r).low (prt_of s t).low

pub join_sorted : List ℕ → JoinState → JoinState
unfolding join_list
join_sorted [] s = s
join_sorted (a ∷ bs) s = join_list (prt_of s a).protocol a (prt_of s a).low (prt_of s a).high bs s

module _ (slices : SortSlice ℕ) where
  pub join_group : List ℕ → JoinState → JoinState
  unfolding low_less join_sorted
  join_group [] s = s
  join_group (a ∷ []) s = s
  join_group (a ∷ b ∷ rs) s = join_sorted (slices.sort (low_less s) (a ∷ b ∷ rs)) s

  pub join_groups : List (JoinKey × List ℕ) → JoinState → JoinState
  unfolding join_group
  join_groups [] s = s
  join_groups ((k, rs) ∷ g) s = join_groups g (join_group rs s)

  unfoldable pub join_ranges : List ℕ → (ℕ → CiscoRule) → Protos → List ℕ × JoinState
  unfolding group_rules join_groups not_deleted
  join_ranges rules store protos =
      let start : JoinState = record { rule = store; protos = protos; changed = false } in
      let s = join_groups (group_rules start rules []) start in
      (if s.changed then not_deleted s.rule rules else rules, s)
