-- ===== src/Adjacent.antt =====
-- go/pkg/pass1/convert-hosts.go: `combineSubnets`, which puts larger subnets and networks in the place of
-- adjacent subnets. Subnets and networks are pointers into stores. Each time that a subnet takes the
-- place of another one its prefix is shorter, so that fuel above the sum of all prefixes is enough.
pub mod Cover
pub mod Keys
pub mod Pass
pub mod Whole
use netspoc.Prelude.{
  ℕ, zero, suc, ◌+◌, Bool, true, false, not, ◌&&◌, ◌||◌, Option, none, some, List, [], ◌∷◌, ◌++◌,
  if◌then◌else◌, ◌==◌, map,
}
use netspoc.Pass2.Rules.{update}

-- `up` of a subnet; a subnet or a network takes the place of adjacent subnets, no other object does.
pub data UpObj : Type 0 where
  up_network : ℕ → UpObj
  up_subnet : ℕ → UpObj
  up_other : UpObj

pub record HostSubnet : Type 0 where
  pub ip : ℕ
  pub prefix : ℕ
  pub neighbor : Option ℕ
  pub has_neighbor : Bool
  pub up : UpObj

-- `someObj`: a subnet, a network or another object.
pub data HostObj : Type 0 where
  subnet : ℕ → HostObj
  network : ℕ → HostObj
  other : ℕ → HostObj

-- A subnet that has a neighbor, or is one.
abbrev pub related : HostSubnet → Bool
related s = elim s.neighbor [ some n ↦ true | none ↦ s.has_neighbor ]

-- Find subnets in list: the other objects, and the subnets.
unfoldable pub find_subnets : (ℕ → HostSubnet) → List HostObj → List HostObj × List ℕ
find_subnets store [] = ([], [])
find_subnets store (subnet p ∷ objs) =
    let (others, subnets) = find_subnets store objs in
    if related (store p) then (others, p ∷ subnets) else (subnet p ∷ others, subnets)
find_subnets store (network p ∷ objs) =
    let (others, subnets) = find_subnets store objs in (network p ∷ others, subnets)
find_subnets store (other p ∷ objs) =
    let (others, subnets) = find_subnets store objs in (other p ∷ others, subnets)

-- The keys of the map `m`, whose values are all true.
abbrev pub keys_of : List ℕ → ℕ → Bool
keys_of [] p = false
keys_of (q ∷ qs) p = q == p || keys_of qs p

-- The variables of the loop: `subnets`, `m`, `networks` and `again`.
pub record Combining : Type 0 where
  pub subnets : List ℕ
  pub m : ℕ → Bool
  pub networks : List ℕ
  pub again : Bool

-- `delete(m, s)` and `delete(m, neighbor)`
abbrev pub without : ℕ → ℕ → (ℕ → Bool) → ℕ → Bool
without s n m = update (update m s false) n false

abbrev pub keep_first : ℕ → Combining → Combining
keep_first s c = record c { subnets = s ∷ c.subnets }

-- One round over `subnets`. `networks` grows at its end.
unfoldable pub combine_round : (ℕ → HostSubnet) → List ℕ → (ℕ → Bool) → List ℕ → Bool → Combining
combine_round store [] m networks again = record {
  subnets = [];
  m = m;
  networks = networks;
  again = again;
}
combine_round store (s ∷ ss) m networks again = elim (store s).neighbor [
  | none ↦ keep_first s (combine_round store ss m networks again)
  | some n ↦ elim (m n) [
    | false ↦ keep_first s (combine_round store ss m networks again)
    | true ↦ elim (store s).up [
      | up_network x ↦
          keep_first s (combine_round store ss (without s n m) (networks ++ x ∷ []) again)
      | up_subnet x ↦
          keep_first x (combine_round store ss (update (without s n m) x true) networks true)
      | up_other ↦ keep_first s (combine_round store ss (without s n m) networks again)
    ]
  ]
]

-- The loop `for again`.
unfoldable pub combine_rounds :
    (ℕ → HostSubnet) → ℕ → List ℕ → (ℕ → Bool) → List ℕ → Option Combining
unfolding combine_round
combine_rounds store zero subnets m networks = none
combine_rounds store (suc fuel) subnets m networks =
    let c = combine_round store subnets m networks false in
    elim c.again [ true ↦ combine_rounds store fuel c.subnets c.m c.networks | false ↦ some c ]

-- The combined subnets that are left.
abbrev pub left_subnets : (ℕ → Bool) → List ℕ → List HostObj
left_subnets m [] = []
left_subnets m (s ∷ ss) = let rest = left_subnets m ss in if m s then subnet s ∷ rest else rest

abbrev pub sum_prefixes : (ℕ → HostSubnet) → List ℕ → ℕ
sum_prefixes store [] = 0
sum_prefixes store (s ∷ ss) = (store s).prefix + sum_prefixes store ss

-- Combine found subnets, and add them to the others again.
unfoldable pub combine_found : (ℕ → HostSubnet) → List HostObj → List ℕ → Option (List HostObj)
unfolding combine_rounds
combine_found store others [] = some others
combine_found store others (s ∷ ss) =
    elim (combine_rounds store (suc (sum_prefixes store (s ∷ ss))) (s ∷ ss) (keys_of (s ∷ ss)) []) [
      | none ↦ none
      | some c ↦ some (others ++ (left_subnets c.m c.subnets ++ map network c.networks))
    ]

-- `combineSubnets`
unfoldable pub combine_subnets : (ℕ → HostSubnet) → List HostObj → Option (List HostObj)
unfolding find_subnets combine_found
combine_subnets store objs =
    let (others, subnets) = find_subnets store objs in combine_found store others subnets
