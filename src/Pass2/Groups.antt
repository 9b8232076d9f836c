-- ===== src/Pass2/Groups.antt =====
-- go/cmd/spoc2/main.go: `getGroup` of `findObjectgroups`, which finds a group with identical elements or
-- defines a new one. A group is found by the number of its elements and the name of the one with the
-- smallest address; names stand for networks, since the networks of another access list are other
-- pointers.
pub mod Subset
pub mod Found
use netspoc.Prelude.{
  ℕ, suc, Bool, true, false, ◌&&◌, ◌||◌, Option, none, some, List, [], ◌∷◌, ◌++◌, map,
  if◌then◌else◌, ltb, ◌==◌, length,
}
use netspoc.Prelude.Bytes.{Bytes, bytes_eq}
use netspoc.Pass2.LocalDeny.{RouterData, LocalAcl, create_group}

-- `groupKey`
pub record GroupKey : Type 0 where
  pub size : ℕ
  pub first : Bytes

-- `ref` and the keys of `eltNameMap` of a group.
abbrev pub KnownGroup : Type 0
KnownGroup = ℕ × List Bytes

-- `objGroupsMap`
abbrev pub GroupMap : Type 0
GroupMap = List (GroupKey × List KnownGroup)

abbrev pub same_group_key : GroupKey → GroupKey → Bool
same_group_key k l = k.size == l.size && bytes_eq k.first l.first

-- `key2group[key]`
unfoldable pub groups_at : GroupKey → GroupMap → List KnownGroup
groups_at k [] = []
groups_at k ((l, gs) ∷ m) = let rest = groups_at k m in if same_group_key l k then gs else rest

-- `key2group[key] = append(key2group[key], group)`
unfoldable pub append_group : GroupKey → KnownGroup → GroupMap → GroupMap
append_group k g [] = (k, g ∷ []) ∷ []
append_group k g ((l, gs) ∷ m) =
    let rest = append_group k g m in
    if same_group_key l k then (l, gs ++ g ∷ []) ∷ m else (l, gs) ∷ rest

abbrev pub has_bytes : List Bytes → Bytes → Bool
has_bytes [] n = false
has_bytes (x ∷ xs) n = bytes_eq x n || has_bytes xs n

-- Check elements for equality: all names of the elements are in the map of the group.
abbrev pub all_named : List Bytes → List Bytes → Bool
all_named href [] = true
all_named href (n ∷ ns) = has_bytes href n && all_named href ns

-- The loop over the groups.
unfoldable pub search_group : List Bytes → List KnownGroup → Option ℕ
search_group names [] = none
search_group names ((ref, href) ∷ gs) =
    let rest = search_group names gs in if all_named href names then some ref else rest

-- The smallest of the elements, by address.
abbrev pub smallest_element : (ℕ → ℕ) → ℕ → List ℕ → ℕ
smallest_element ip e [] = e
smallest_element ip e (f ∷ fs) = smallest_element ip (if ltb (ip f) (ip e) then f else e) fs

-- `getGroup`. Its list of rules, and with it that of the elements, is not empty.
unfoldable pub get_group :
    (ℕ → ℕ)
    → (ℕ → Bytes)
    → ℕ
    → List ℕ
    → LocalAcl
    → RouterData
    → GroupMap
    → ℕ × LocalAcl × RouterData × GroupMap
unfolding groups_at append_group search_group
get_group ip name e es acl r m =
    let elements = e ∷ es in
    let key : GroupKey = record {
      size = length elements;
      first = name (smallest_element ip e es);
    } in
    let names = map name elements in
    elim (search_group names (groups_at key m)) [
      | some ref ↦ (ref, acl, r, m)
      | none ↦
          let (ref, acl', r') = create_group elements acl r in
          (ref, acl', r', append_group key (ref, names) m)
    ]
