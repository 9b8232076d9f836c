-- ===== src/Secondary/Conflict/Noted.antt =====
-- `collectConflict`: what is noted for one side of a rule, under each network of the other side.
use mathlib.Core.List.{append-nil}
use netspoc.Prelude.{
  ℕ, ◌≡◌, inl, inr, refl, sym, ap, ◌∙◌, subst, Bool, true, false, not, ◌&&◌, ◌||◌, List, [], ◌∷◌,
  ◌++◌, if◌then◌else◌, ◌==◌, ==_iff, Bool-cases, arith, any,
}
use netspoc.Secondary.Conflict.{
  ConflictObj, ConflictKey, ConflictMap, ZoneInfo, net_of, is_seen_net, get_networks, over_networks,
  collect_side,
}
use netspoc.Secondary.Conflict.Collected.{
  note_rule, info_at, plain_obj, this_supernet, noted_supernets,
}
use netspoc.Secondary.Conflict.Side.{
  of_first, networks_seen, get_networks_first, supernets_at, result, next_map, at_self, at_other,
  over_first,
}

first_part : (s a b o : Bool) → ((s && b) || (if a then s || o else o)) ≡ ((s && (a || b)) || o)
first_part s true b o = ground arith
first_part s false b o = refl

nothing_more : (s o : Bool) → o ≡ ((s && false) || o)
nothing_more s o = ground arith

and_yes : (b : Bool) → (b && not false) ≡ b
and_yes b = ground arith

module _ (other : ℕ → Bool) (established : Bool) (r : ℕ) (objs : List ConflictObj) where
  module _ (key : ℕ → ConflictKey) (key_net : (n : ℕ) → (key n).net ≡ n) (x : ℕ) where
    abbrev noted : Bool
    noted = not established && any (this_supernet other established r x) objs

    abbrev seen_at : ℕ → ConflictMap → Bool
    seen_at j m = is_seen_net x (supernets_at other established r objs key key_net j m)

    abbrev next : ℕ → Bool → ConflictMap → ConflictMap
    next = next_map other established r objs key key_net

    next_supernets :
        (n j : ℕ) (pushed : Bool) (m : ConflictMap)
        → seen_at j (next n pushed m) ≡ (if n == j then noted || seen_at j m else seen_at j m)
    next_supernets n j pushed m = elim (Bool-cases (n == j)) [
      | inl e ↦
          let at : seen_at n (next n pushed m) ≡ (noted || seen_at n m) =
            ap (λ i. is_seen_net x i.supernets)
              (at_self other established r objs key key_net n pushed m)
            ∙ noted_supernets other established r x objs (info_at (key n) m) pushed in
          subst (λ k. seen_at k (next n pushed m) ≡ (noted || seen_at k m)) ((==_iff n j).0 e) at
          ∙ ap (λ b. if b then noted || seen_at j m else seen_at j m) (sym e)
      | inr e ↦
          ap (λ i. is_seen_net x i.supernets)
            (at_other other established r objs key key_net n j pushed m e)
          ∙ ap (λ b. if b then noted || seen_at j m else seen_at j m) (sym e)
    ]

    over_supernets :
        (j : ℕ) (ns : List ℕ) (pushed : Bool) (m : ConflictMap)
        → seen_at j (over_networks other established r objs key ns pushed m)
          ≡ ((noted && is_seen_net j ns) || seen_at j m)
    unfolding over_networks
    over_supernets j [] pushed m = nothing_more noted (seen_at j m)
    over_supernets j (n ∷ ns) pushed m =
        over_supernets j ns (result other established r objs key key_net n pushed m).1
          (next n pushed m)
        ∙ ap (λ b. (noted && is_seen_net j ns) || b) (next_supernets n j pushed m)
        ∙ first_part noted (n == j) (is_seen_net j ns) (seen_at j m)

  module _ (is_src is_primary : Bool) (z : ZoneInfo) where
    abbrev pub side_key : ℕ → ConflictKey
    side_key n = record { is_src = is_src; is_primary = is_primary; mark = z.mark; net = n }

    -- The rules and the supernets that the map has for the network `j`.
    abbrev pub noted_rules : ℕ → ConflictMap → List ℕ
    noted_rules j m = (info_at (side_key j) m).rules

    abbrev pub has_supernet : ℕ → ℕ → ConflictMap → Bool
    has_supernet x j m = is_seen_net x (info_at (side_key j) m).supernets

    -- What is noted for a side of a rule in a zone with filters of this kind, under the mark of the zone: the
    -- rule, at the end of the rules for the network of the first object of the other side and
    -- for no other network, if the side has an object that is no supernet; and, if some protocol of the rule is
    -- not restricted to established connections, each supernet of the side, for each network of the
    -- other side. In a zone without such filters nothing is noted.
    pub collect_side-notes :
        (other_objs : List ConflictObj) (m : ConflictMap) (j x : ℕ)
        → let m' = collect_side other established r objs other_objs z is_src is_primary m in
          (noted_rules j m'
            ≡ noted_rules j m
              ++ note_rule r (
                  z.has_filter
                  && (any (plain_obj other established r) objs && of_first other_objs j)))
          × (has_supernet x j m' ≡ (
              (z.has_filter
                && ((not established && any (this_supernet other established r x) objs)
                    && any (λ o. net_of o == j) other_objs))
              || has_supernet x j m))
    unfolding collect_side
    collect_side-notes other_objs m j x = elim (Bool-cases z.has_filter) [
      | inr e ↦ rw (e, collect_side) (sym (append-nil (noted_rules j m)), refl)
      | inl e ↦
          let p = any (plain_obj other established r) objs in
          let s = not established && any (this_supernet other established r x) objs in
          rw (e, collect_side)
            (
              over_first other established r objs side_key (λ n. refl) j
                    (get_networks [] other_objs) m
                  ∙ ap (λ b. noted_rules j m ++ note_rule r (p && b))
                      (get_networks_first j other_objs),
              over_supernets side_key (λ n. refl) x j (get_networks [] other_objs) false m
                  ∙ ap (λ b. (s && b) || has_supernet x j m)
                      (networks_seen j other_objs []
                        ∙ and_yes (any (λ o. net_of o == j) other_objs)),
            )
    ]
