-- ===== src/Pass2/Combine.antt =====
-- go/cmd/spoc2/main.go: `combineAdjacentIPMask`. The position in the list is the rule there, with the
-- rules before it in reverse and those behind it. Fuel of one more than the rules before the position
-- and twice those behind it is enough.
pub mod Objects
pub mod Halves
pub mod Cover
pub mod Loop
use netspoc.Prelude.{
  ℕ, zero, suc, ◌+◌, ◌-◌, ◌*◌, Bool, true, false, not, ◌&&◌, Option, none, some, List, [], ◌∷◌,
  if◌then◌else◌, ltb, ◌==◌, length,
}
use netspoc.Prelude.Sort.{SortSlice}
use netspoc.Pass2.Rules.{CiscoRule, IpNet, update}
use netspoc.Pass2.Nets.{IpNets, NetLib, get_ip_obj, masked}

-- The rules and the networks, which are changed in place.
pub record Objs : Type 0 where
  pub rule : ℕ → CiscoRule
  pub nets : IpNets

-- `get` and `set`
unfoldable pub get : Bool → (ℕ → CiscoRule) → ℕ → ℕ
get true rule r = (rule r).dst
get false rule r = (rule r).src

unfoldable pub set : Bool → ℕ → ℕ → (ℕ → CiscoRule) → ℕ → CiscoRule
set true r e rule = update rule r (record (rule r) { dst = e })
set false r e rule = update rule r (record (rule r) { src = e })

pub mark_deleted : ℕ → (ℕ → CiscoRule) → ℕ → CiscoRule
mark_deleted r rule = update rule r (record (rule r) { deleted = true })

unfoldable pub element : Bool → Objs → ℕ → IpNet
unfolding get
element is_dst s r = s.nets.net (get is_dst s.rule r)

-- Left and right part with identical mask
pub halves : IpNet → IpNet → Bool
halves e1 e2 =
    e1.prefix == e2.prefix
    && masked e1.bits e1.ip (e1.prefix - 1) == masked e1.bits e2.ip (e1.prefix - 1)

-- The next larger network may be a right part itself; there is no mask for a prefix below 0.
pub right_part : IpNet → Bool
right_part e1 =
    if e1.prefix - 1 == 0 then true else not (masked e1.bits e1.ip (e1.prefix - 1 - 1) == e1.ip)

pub joined : NetLib → Bool → ℕ → ℕ → Objs → Objs
unfolding element set mark_deleted
joined lib is_dst r1 r2 s =
    let e1 = element is_dst s r1 in
    let (p, nets) = get_ip_obj lib (e1.ip, e1.prefix - 1, e1.bits) s.nets in
    record { rule = mark_deleted r2 (set is_dst r1 p s.rule); nets = nets }

abbrev pub rev_onto : List ℕ → List ℕ → List ℕ
rev_onto [] rs = rs
rev_onto (l ∷ ls) rs = rev_onto ls (l ∷ rs)

-- The loop over the rules.
pub combine_at : NetLib → Bool → ℕ → List ℕ → ℕ → List ℕ → Objs → Option (List ℕ × Objs)
unfolding element halves right_part joined
combine_at lib is_dst zero left cur right s = none
combine_at lib is_dst (suc fuel) left cur [] s = some (rev_onto left (cur ∷ []), s)
combine_at lib is_dst (suc fuel) left cur (next ∷ right) s =
    let s' = joined lib is_dst cur next s in
    elim (halves (element is_dst s cur) (element is_dst s next)) [
      | false ↦ combine_at lib is_dst fuel (cur ∷ left) next right s
      | true ↦ elim left [
        | [] ↦ combine_at lib is_dst fuel [] cur right s'
        | l ∷ ls ↦ elim (right_part (element is_dst s cur)) [
          | true ↦ combine_at lib is_dst fuel ls l (cur ∷ right) s'
          | false ↦ combine_at lib is_dst fuel (l ∷ ls) cur right s'
        ]
      ]
    ]

pub combine_sorted : NetLib → Bool → List ℕ → Objs → Option (List ℕ × Objs)
unfolding combine_at
combine_sorted lib is_dst [] s = some ([], s)
combine_sorted lib is_dst (r ∷ rs) s = combine_at lib is_dst (suc (2 * length rs)) [] r rs s

-- `combineAdjacentIPMask`
unfoldable pub combine_adjacent_ip_mask :
    SortSlice ℕ → NetLib → Bool → List ℕ → Objs → Option (List ℕ × Objs)
unfolding combine_sorted element
combine_adjacent_ip_mask std lib is_dst rules s =
    combine_sorted lib is_dst
      (std.sort (λ i j. ltb (element is_dst s i).ip (element is_dst s j).ip) rules) s
