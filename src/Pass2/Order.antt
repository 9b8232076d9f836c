-- ===== src/Pass2/Order.antt =====
-- go/cmd/spoc2/main.go: `orderRanges` and `setupPrtRelation`, which link each protocol with the next
-- larger one. The rest of the sorted ranges stands for a position in them, and the empty rest for the
-- end of the array. Fuel above the number of ranges is enough.
pub mod Keeps
pub mod Nested
pub mod Linked
pub mod Ranges
use netspoc.Prelude.{
  ℕ, zero, suc, ◌+◌, Bool, true, false, not, ◌&&◌, ◌||◌, Option, none, some, List, [], ◌∷◌, ◌++◌,
  if◌then◌else◌, ltb, leb, ◌==◌, select, map, length,
}
use netspoc.Prelude.Bytes.{Bytes, codes, bytes_eq, itoa, is_digit}
use netspoc.Prelude.Sort.{SortSlice}
use netspoc.Pass2.Rules.{Proto, update}
use netspoc.Pass2.Protocol.{Protos, find_name, get_prt_obj}

-- The outcome of `checkSubrange`: the position and the protocols, the end of the program at ranges that
-- overlap, or no fuel left.
pub data Checked : Type 0 where
  done : List ℕ → (ℕ → Proto) → Checked
  overlapping : ℕ → ℕ → Checked
  no_fuel : Checked

infixl 5 ◌>>=◌
abbrev pub ◌>>=◌ : Checked → (List ℕ → (ℕ → Proto) → Checked) → Checked
done rest s >>= f = f rest s
overlapping a b >>= f = overlapping a b
no_fuel >>= f = no_fuel

-- `a.hasNeighbor = true`
pub mark : ℕ → (ℕ → Proto) → ℕ → Proto
mark a s = update s a (record (s a) { has_neighbor = true })

-- `a.up = up`
pub set_up : ℕ → ℕ → (ℕ → Proto) → ℕ → Proto
set_up a up s = update s a (record (s a) { up = some up })

-- The ranges with identical start port are marked.
pub mark_same_low : ℕ → List ℕ → (ℕ → Proto) → ℕ → Proto
unfolding mark
mark_same_low low [] s = s
mark_same_low low (c ∷ cs) s =
    let rest = mark_same_low low cs (mark c s) in if (s c).low == low then rest else s

pub mark_neighbors : ℕ → ℕ → List ℕ → (ℕ → Proto) → ℕ → Proto
unfolding mark mark_same_low
mark_neighbors a b cs s =
    if (s a).high + 1 == (s b).low then mark_same_low (s b).low cs (mark b (mark a s)) else s

-- `checkSubrange`, with the ranges from the position on
pub check_subrange : ℕ → ℕ → List ℕ → (ℕ → Proto) → Checked
unfolding mark_neighbors set_up
check_subrange zero a rest s = no_fuel
check_subrange (suc fuel) a [] s = done [] s
check_subrange (suc fuel) a (b ∷ rest) s =
    let s' = mark_neighbors a b rest s in
    elim (ltb (s a).high (s b).low) [
      | true ↦ done (b ∷ rest) s'
      | false ↦ elim (leb (s b).high (s a).high) [
        | true ↦
            check_subrange fuel b rest (set_up b a s')
            >>= (λ i t. elim i [ [] ↦ done [] t | c ∷ cs ↦ check_subrange fuel a (c ∷ cs) t ])
        | false ↦ overlapping a b
      ]
    ]

-- The loop over the ranges that lie in no other one.
pub order_from : ℕ → ℕ → List ℕ → (ℕ → Proto) → Checked
unfolding check_subrange
order_from zero up ranges s = no_fuel
order_from (suc fuel) up [] s = done [] s
order_from (suc fuel) up (a ∷ rest) s =
    check_subrange (suc fuel) a rest (set_up a up s) >>= order_from fuel up

-- The order of the sort: by low port, of two equal ones the larger range first.
abbrev pub range_less : (ℕ → Proto) → ℕ → ℕ → Bool
range_less s i j = ltb (s i).low (s j).low || (s i).low == (s j).low && ltb (s j).high (s i).high

-- The protocols of the map with this name and not established.
unfoldable pub ranges_of : Bytes → Protos → List ℕ
ranges_of protocol s =
    select (λ p. bytes_eq (s.prt p).protocol protocol && not (s.prt p).established)
      (map (λ n. n.1) s.names)

-- `orderRanges`
unfoldable pub order_ranges : SortSlice ℕ → Bytes → Protos → ℕ → Checked
unfolding order_from ranges_of
order_ranges std protocol s up =
    let ranges = std.sort (range_less s.prt) (ranges_of protocol s) in
    order_from (suc (length ranges)) up ranges s.prt

-- The protocol that one of ICMP is linked with.
icmp_up : Protos → ℕ → ℕ → Proto → ℕ
icmp_up s ip icmp p = elim p.icmp_type [
  | none ↦ ip
  | some t ↦ elim p.icmp_code [
    | none ↦ icmp
    | some c ↦ elim (find_name (codes "icmp " ++ itoa t) s.names) [ none ↦ icmp | some up ↦ up ]
  ]
]

-- `strconv.Atoi` succeeds, on a text with no sign.
is_number : Bytes → Bool
unfolding is_digit
is_number [] = false
is_number (c ∷ []) = is_digit c
is_number (c ∷ cs) = is_digit c && is_number cs

-- The body of the loop over the protocols.
link_other : Protos → ℕ → ℕ → ℕ → (ℕ → Proto) → ℕ → Proto
unfolding icmp_up is_number set_up
link_other s ip icmp q prt =
    let p = prt q in
    if bytes_eq p.protocol (codes "icmp")
    then set_up q (icmp_up s ip icmp p) prt
    else if is_number p.protocol
    then set_up q ip prt
    else prt

link_others : Protos → ℕ → ℕ → List (Bytes × ℕ) → (ℕ → Proto) → ℕ → Proto
unfolding link_other
link_others s ip icmp [] prt = prt
link_others s ip icmp ((n, q) ∷ names) prt =
    link_others s ip icmp names (link_other s ip icmp q prt)

or_default : ℕ → Option ℕ → ℕ
or_default d none = d
or_default d (some p) = p

-- The link of `tcp established`.
link_established : Protos → ℕ → Option ℕ → (ℕ → Proto) → ℕ → Proto
unfolding set_up or_default
link_established s ip none prt = prt
link_established s ip (some e) prt = set_up e (or_default ip (find_name (codes "tcp") s.names)) prt

-- `setupPrtRelation`: the outcome, and the map, which has `ip` now.
unfoldable pub setup_prt_relation : SortSlice ℕ → Protos → Checked × Protos
unfolding link_others order_ranges or_default link_established
setup_prt_relation std s0 =
    let (ip, s) = get_prt_obj (codes "ip") s0 in
    let icmp = or_default ip (find_name (codes "icmp") s.names) in
    let s1 = record s { prt = link_others s ip icmp s.names s.prt } in
    (
      order_ranges std (codes "tcp") s1 ip
          >>= (λ _ prt. order_ranges std (codes "udp") (record s { prt = prt }) ip)
          >>= (λ rest prt.
              done rest (link_established s ip (find_name (codes "tcp established") s.names) prt)),
      s,
    )

-- `addTCPUDPIcmp`
unfoldable pub add_tcp_udp_icmp : Protos → Protos
add_tcp_udp_icmp s =
    let (_, s1) = get_prt_obj (codes "tcp") s in
    let (_, s2) = get_prt_obj (codes "udp") s1 in let (_, s3) = get_prt_obj (codes "icmp") s2 in s3
