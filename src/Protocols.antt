-- ===== src/Protocols.antt =====
-- go/pkg/pass1/protocol.go: `expandSplitProtocol` and `classifyProtocols`. Protocols and modifiers are
-- pointers into stores. A part of a range has fewer ports than the range, so that fuel of the number of
-- ports is enough for the recursion.
pub mod Icmp
pub mod Parts
pub mod Classified
pub mod Whole
use netspoc.Prelude.{
  ℕ, zero, suc, ◌-◌, Bool, true, false, ◌&&◌, ◌||◌, Option, none, some, List, [], ◌∷◌, ◌++◌,
  if◌then◌else◌, ◌==◌, map,
}
use netspoc.Prelude.Bytes.{Bytes, bytes_eq, codes}

-- `proto` of pass 1
pub record SplitProto : Type 0 where
  pub protocol : Bytes
  pub low : ℕ
  pub high : ℕ
  pub split : Option (ℕ × ℕ)
  pub main : Option ℕ
  pub modifiers : Option ℕ
  pub stateless_icmp : Bool

-- The protocols, and `srcRange` of the modifiers.
pub record Protos : Type 0 where
  pub proto : ℕ → SplitProto
  pub src_range : ℕ → Option ℕ

-- `modifiedProto`
pub record ModifiedProto : Type 0 where
  pub prt : ℕ
  pub src : Option ℕ
  pub modifiers : Option ℕ

abbrev pub append_both : Option (List ℕ) → Option (List ℕ) → Option (List ℕ)
append_both none b = none
append_both (some a) none = none
append_both (some a) (some b) = some (a ++ b)

-- `expandSplitProtocol` of a protocol that is set; `none` is the end of the fuel.
unfoldable pub expand_split : (ℕ → SplitProto) → ℕ → ℕ → Option (List ℕ)
expand_split proto zero p = none
expand_split proto (suc fuel) p = elim (proto p).split [
  | none ↦ some (p ∷ [])
  | some parts ↦ append_both (expand_split proto fuel parts.0) (expand_split proto fuel parts.1)
]

unfoldable pub expand_split_protocol : (ℕ → SplitProto) → ℕ → Option (List ℕ)
unfolding expand_split
expand_split_protocol proto p = expand_split proto (suc ((proto p).high - (proto p).low)) p

-- Handle unset srcRange.
unfoldable pub expand_src_range : (ℕ → SplitProto) → Option ℕ → Option (List (Option ℕ))
unfolding expand_split_protocol
expand_src_range proto none = some (none ∷ [])
expand_src_range proto (some r) = elim (expand_split_protocol proto r) [
  | none ↦ none
  | some rs ↦ some (map some rs)
]

-- The main protocol
abbrev pub main_proto : Protos → ℕ → ℕ
main_proto s p = elim (s.proto p).main [ none ↦ p | some q ↦ q ]

unfoldable pub has_ports : SplitProto → Bool
has_ports p = bytes_eq p.protocol (codes "tcp") || bytes_eq p.protocol (codes "udp")

-- The loops over the parts of the source range and of the protocol.
abbrev pub with_src : Option ℕ → ℕ → List ℕ → List ModifiedProto
with_src src m [] = []
with_src src m (d ∷ ds) = record { prt = d; src = src; modifiers = some m } ∷ with_src src m ds

abbrev pub with_srcs : List (Option ℕ) → ℕ → List ℕ → List ModifiedProto
with_srcs [] m ds = []
with_srcs (s ∷ ss) m ds = with_src s m ds ++ with_srcs ss m ds

-- `simple` and `complex`, of one protocol and of a list
abbrev pub Classes : Type 0
Classes = List ℕ × List ModifiedProto

-- A protocol with ports that has modifiers; without modifiers the source has a fault at run time, which
-- is `none`.
unfoldable pub modified_ports : Protos → ℕ → Option ℕ → Option Classes
unfolding expand_split_protocol expand_src_range
modified_ports s p none = none
modified_ports s p (some m) = elim (expand_src_range s.proto (s.src_range m)) [
  | none ↦ none
  | some ss ↦ elim (expand_split_protocol s.proto p) [
    | none ↦ none
    | some ds ↦ some ([], with_srcs ss m ds)
  ]
]

abbrev pub is_set : Option ℕ → Bool
is_set none = false
is_set (some m) = true

unfoldable pub classify_one : Protos → ℕ → Option Classes
unfolding modified_ports has_ports
classify_one s orig =
    let m = (s.proto orig).modifiers in
    let p = main_proto s orig in
    elim (is_set m || (s.proto p).stateless_icmp) [
      | true ↦ elim (has_ports (s.proto p)) [
        | false ↦ some ([], record { prt = p; src = none; modifiers = m } ∷ [])
        | true ↦ modified_ports s p m
      ]
      | false ↦ elim (has_ports (s.proto p)) [
        | false ↦ some (p ∷ [], [])
        | true ↦ elim (expand_split_protocol s.proto p) [ none ↦ none | some ds ↦ some (ds, []) ]
      ]
    ]

abbrev pub join_classes : Option Classes → Option Classes → Option Classes
join_classes none b = none
join_classes (some a) none = none
join_classes (some (a, b)) (some (c, d)) = some (a ++ c, b ++ d)

-- `classifyProtocols`
unfoldable pub classify_protocols : Protos → List ℕ → Option Classes
unfolding classify_one
classify_protocols s [] = some ([], [])
classify_protocols s (p ∷ ps) = join_classes (classify_one s p) (classify_protocols s ps)
