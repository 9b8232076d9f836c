-- ===== src/Secondary/Conflict/Side.antt =====
-- `collectConflict` for one side of a rule: the loop over the other networks.
use mathlib.Core.List.{append-nil}
use netspoc.Prelude.{
  ℕ, ◌≡◌, inl, inr, refl, sym, ap, ◌∙◌, subst, Bool, true, false, not, ◌&&◌, ◌||◌, List, [], ◌∷◌,
  ◌++◌, if◌then◌else◌, ◌==◌, ==_iff, Bool-cases, arith, any,
}
use netspoc.Prelude.Assoc.{alter, lookup-alter_self, lookup-alter_ne}
use netspoc.Secondary.Conflict.{
  ConflictObj, ConflictKey, ConflictInfo, ConflictMap, ConflictKey-discrete, net_of, is_seen_net,
  get_networks, info_or_new, over_networks,
}
use netspoc.Secondary.Conflict.Collected.{
  note_rule, info_at, plain_obj, run, pushed_rules, first_rules,
}

-- The first one of the networks, and of the objects.
abbrev pub is_first : List ℕ → ℕ → Bool
is_first [] j = false
is_first (n ∷ ns) j = n == j

abbrev pub of_first : List ConflictObj → ℕ → Bool
of_first [] j = false
of_first (o ∷ os) j = net_of o == j

dropped : (a b seen : Bool) → seen ≡ true → (b && not seen) ≡ ((a || b) && not seen)
dropped a b seen e = ground (arith, e)

added :
    (a b seen : Bool)
    → (a ≡ true → seen ≡ false)
    → (a || (b && not (a || seen))) ≡ ((a || b) && not seen)
added true b seen h = let e = h refl in ground (arith, e)
added false b seen h = refl

no_and : (b : Bool) → false ≡ (b && false)
no_and b = ground arith

if_note : (r : ℕ) (c d : Bool) → (if d then note_rule r c else []) ≡ note_rule r (c && d)
if_note r true true = refl
if_note r true false = refl
if_note r false true = refl
if_note r false false = refl

pub networks_seen :
    (j : ℕ) (os : List ConflictObj) (seen : List ℕ)
    → is_seen_net j (get_networks seen os)
      ≡ (any (λ o. net_of o == j) os && not (is_seen_net j seen))
unfolding get_networks
networks_seen j [] seen = refl
networks_seen j (o ∷ os) seen = elim (Bool-cases (is_seen_net (net_of o) seen)) [
  | inl e ↦ elim (Bool-cases (net_of o == j)) [
    | inl f ↦
        let g = subst (λ k. is_seen_net k seen ≡ true) ((==_iff (net_of o) j).0 f) e in
        rw (e, get_networks)
          (networks_seen j os seen
            ∙ dropped (net_of o == j) (any (λ o. net_of o == j) os) (is_seen_net j seen) g)
    | inr f ↦
        rw (e, get_networks)
          (networks_seen j os seen
            ∙ ap (λ b. (b || any (λ o. net_of o == j) os) && not (is_seen_net j seen)) (sym f))
  ]
  | inr e ↦
      let g : (net_of o == j) ≡ true → is_seen_net j seen ≡ false =
        λ f. subst (λ k. is_seen_net k seen ≡ false) ((==_iff (net_of o) j).0 f) e in
      rw (e, get_networks)
        (ap (λ b. net_of o == j || b) (networks_seen j os (net_of o ∷ seen))
          ∙ added (net_of o == j) (any (λ o. net_of o == j) os) (is_seen_net j seen) g)
]

pub get_networks_first :
    (j : ℕ) (os : List ConflictObj) → is_first (get_networks [] os) j ≡ of_first os j
unfolding get_networks
get_networks_first j [] = refl
get_networks_first j (o ∷ os) = refl

module _ (other : ℕ → Bool) (established : Bool) (r : ℕ) (objs : List ConflictObj)
    (key : ℕ → ConflictKey) (key_net : (n : ℕ) → (key n).net ≡ n) where
  abbrev pub rules_at : ℕ → ConflictMap → List ℕ
  rules_at j m = (info_at (key j) m).rules

  abbrev pub supernets_at : ℕ → ConflictMap → List ℕ
  supernets_at j m = (info_at (key j) m).supernets

  abbrev pub plain : Bool
  plain = any (plain_obj other established r) objs

  abbrev pub result : ℕ → Bool → ConflictMap → ConflictInfo × Bool
  result n pushed m = run other established r objs (info_at (key n) m) pushed

  abbrev pub next_map : ℕ → Bool → ConflictMap → ConflictMap
  next_map n pushed m = alter ConflictKey-discrete (key n) (λ o. (result n pushed m).0) m

  pub at_self :
      (n : ℕ) (pushed : Bool) (m : ConflictMap)
      → info_at (key n) (next_map n pushed m) ≡ (result n pushed m).0
  at_self n pushed m =
      ap info_or_new (lookup-alter_self ConflictKey-discrete (key n) (λ o. (result n pushed m).0) m)

  pub at_other :
      (n j : ℕ) (pushed : Bool) (m : ConflictMap)
      → (n == j) ≡ false
      → info_at (key j) (next_map n pushed m) ≡ info_at (key j) m
  at_other n j pushed m e = ap info_or_new (
      lookup-alter_ne ConflictKey-discrete (key n) (key j) (λ o. (result n pushed m).0) m
        (λ same.
          let f = sym (key_net n) ∙ ap (λ k. k.net) same ∙ key_net j in
          absurd (ground (arith, e, f))))

  -- The rules for one network after one round.
  next_rules :
      (n j : ℕ) (pushed : Bool) (m : ConflictMap) (add : List ℕ)
      → (result n pushed m).0.rules ≡ (info_at (key n) m).rules ++ add
      → rules_at j (next_map n pushed m) ≡ rules_at j m ++ (if n == j then add else [])
  next_rules n j pushed m add h = elim (Bool-cases (n == j)) [
    | inl e ↦
        let same = (==_iff n j).0 e in
        let at : rules_at n (next_map n pushed m) ≡ rules_at n m ++ add =
          ap (λ i. i.rules) (at_self n pushed m) ∙ h in
        subst (λ k. rules_at k (next_map n pushed m) ≡ rules_at k m ++ add) same at
        ∙ ap (λ b. rules_at j m ++ (if b then add else [])) (sym e)
    | inr e ↦
        ap (λ i. i.rules) (at_other n j pushed m e)
        ∙ sym (append-nil (rules_at j m))
        ∙ ap (λ b. rules_at j m ++ (if b then add else [])) (sym e)
  ]

  if_nil : (b : Bool) → (if b then [] else []) ≡ ◌++◌ {A = ℕ} [] []
  if_nil true = refl
  if_nil false = refl

  no_rules :
      (n j : ℕ) (pushed : Bool) (m : ConflictMap)
      → (result n pushed m).0.rules ≡ (info_at (key n) m).rules
      → rules_at j (next_map n pushed m) ≡ rules_at j m
  no_rules n j pushed m h =
      next_rules n j pushed m [] (h ∙ sym (append-nil (info_at (key n) m).rules))
      ∙ ap (λ l. rules_at j m ++ l) (if_nil (n == j))
      ∙ append-nil (rules_at j m)

  over_pushed :
      (j : ℕ) (ns : List ℕ) (m : ConflictMap)
      → rules_at j (over_networks other established r objs key ns true m) ≡ rules_at j m
  unfolding over_networks
  over_pushed j [] m = refl
  over_pushed j (n ∷ ns) m =
      let (a, b) = pushed_rules other established r objs (info_at (key n) m) in
      ap (λ p. rules_at j (over_networks other established r objs key ns p (next_map n true m))) b
      ∙ over_pushed j ns (next_map n true m)
      ∙ no_rules n j true m a

  -- The rule is noted for the first network alone.
  pub over_first :
      (j : ℕ) (ns : List ℕ) (m : ConflictMap)
      → rules_at j (over_networks other established r objs key ns false m)
        ≡ rules_at j m ++ note_rule r (plain && is_first ns j)
  unfolding over_networks
  over_first j [] m =
      sym (append-nil (rules_at j m)) ∙ ap (λ b. rules_at j m ++ note_rule r b) (no_and plain)
  over_first j (n ∷ ns) m =
      let (a, b) = first_rules other established r objs (info_at (key n) m) in
      let rest = λ (p : Bool).
        rules_at j (over_networks other established r objs key ns p (next_map n false m)) in
      elim (Bool-cases plain) [
        | inl e ↦
            ap rest (b ∙ e)
            ∙ over_pushed j ns (next_map n false m)
            ∙ next_rules n j false m (note_rule r plain) a
            ∙ ap (λ l. rules_at j m ++ l) (if_note r plain (n == j))
        | inr e ↦
            ap rest (b ∙ e)
            ∙ over_first j ns (next_map n false m)
            ∙ ap (λ c. rules_at j (next_map n false m) ++ note_rule r (c && is_first ns j)) e
            ∙ append-nil (rules_at j (next_map n false m))
            ∙ next_rules n j false m (note_rule r plain) a
            ∙ ap (λ l. rules_at j m ++ l) (if_note r plain (n == j))
      ]
