-- ===== src/Tests/Protocols.antt =====
-- A range in two parts, a protocol with a source range, and one without ports.
use mathlib.Core.Option.{some-injective}
use netspoc.Prelude.{
  ℕ, zero, suc, ◌≡◌, refl, subst, Bool, false, Option, none, some, List, [], ◌∷◌, arith, any,
}
use netspoc.Prelude.Bytes.{Bytes, codes}
use netspoc.Protocols.{
  SplitProto, Protos, Classes, classify_protocols, classify_one, modified_ports, has_ports,
  expand_src_range, expand_split_protocol, expand_split,
}
use netspoc.Protocols.Parts.{SplitOk}
use netspoc.Protocols.Classified.{ProtosOk, dst_hit, as_simple, modified_hit, as_complex}
use netspoc.Protocols.Whole.{classify_protocols-hit}

abbrev ranged : Bytes → ℕ → ℕ → SplitProto
ranged prt l h = record {
  protocol = prt;
  low = l;
  high = h;
  split = none;
  main = none;
  modifiers = none;
  stateless_icmp = false;
}

abbrev some_protos : ℕ → SplitProto
some_protos zero = record (ranged (codes "tcp") 80 90) { split = some (1, 2) }
some_protos (suc zero) = ranged (codes "tcp") 80 84
some_protos (suc (suc zero)) = ranged (codes "tcp") 85 90
some_protos (suc (suc (suc zero))) = record (ranged (codes "udp") 123 123) {
  modifiers = some 0;
  main = some 4;
}
some_protos (suc (suc (suc (suc zero)))) = ranged (codes "udp") 123 123
some_protos (suc (suc (suc (suc (suc p))))) = ranged (codes "icmp") 0 0

abbrev store_of : Protos
store_of = record { proto = some_protos; src_range = λ m. some 4 }

abbrev listed : List ℕ
listed = 0 ∷ 3 ∷ 5 ∷ []

classified :
    classify_protocols store_of listed
    ≡ some (1 ∷ 2 ∷ 5 ∷ [], record { prt = 4; src = some 4; modifiers = some 0 } ∷ [])
unfolding classify_protocols classify_one modified_ports has_ports expand_src_range
    expand_split_protocol expand_split
classified = refl

abbrev HalvesOf : ℕ → ℕ × ℕ → Type 0
HalvesOf p ab = SplitOk (some_protos p) (some_protos ab.0) (some_protos ab.1)

splits : (p a b : ℕ) → (some_protos p).split ≡ some (a, b) → HalvesOf p (a, b)
splits zero a b e = subst (HalvesOf 0) (some-injective (1, 2) (a, b) e) record {
  left_protocol = refl;
  right_protocol = refl;
  left_low = refl;
  right_high = refl;
  left = omega arith;
  right = omega arith;
  adjacent = refl;
}
splits (suc zero) a b e = absurd (cc e)
splits (suc (suc zero)) a b e = absurd (cc e)
splits (suc (suc (suc zero))) a b e = absurd (cc e)
splits (suc (suc (suc (suc zero)))) a b e = absurd (cc e)
splits (suc (suc (suc (suc (suc p))))) a b e = absurd (cc e)

with_state : (p : ℕ) → (some_protos p).stateless_icmp ≡ false
with_state zero = refl
with_state (suc zero) = refl
with_state (suc (suc zero)) = refl
with_state (suc (suc (suc zero))) = refl
with_state (suc (suc (suc (suc zero)))) = refl
with_state (suc (suc (suc (suc (suc p))))) = refl

store-ProtosOk : ProtosOk store_of
store-ProtosOk = record { split = splits; stateless = λ p e. absurd (cc (with_state p, e)) }

classify_protocols-hit_example :
    (c : Classes) × (classify_protocols store_of listed ≡ some c)
    × ((prt : Bytes) (src_port dst_port : ℕ) (other : ℕ → Bool) (want : Option ℕ → Bool)
        → (any (dst_hit store_of prt src_port dst_port other want) c.0
            ≡ any (as_simple store_of prt src_port dst_port other want) listed)
          × (any (modified_hit store_of prt src_port dst_port other want) c.1
              ≡ any (as_complex store_of prt src_port dst_port other want) listed))
classify_protocols-hit_example = classify_protocols-hit store_of listed store-ProtosOk
