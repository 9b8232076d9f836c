-- ===== src/Secondary/Conflict/Collected.antt =====
-- What `collectConflict` notes for one side of a rule.
use mathlib.Core.List.{append-nil}
use netspoc.Prelude.{
  ℕ, ◌≡◌, inl, inr, refl, sym, ap, ◌∙◌, Bool, true, false, not, ◌&&◌, ◌||◌, Option, none, some,
  List, [], ◌∷◌, ◌++◌, if◌then◌else◌, ◌==◌, Bool-cases, Option-cases, arith, any,
}
use netspoc.Prelude.Assoc.{lookup}
use netspoc.Secondary.Conflict.{
  ConflictObj, ConflictKey, ConflictInfo, ConflictMap, ConflictKey-discrete, is_seen_net,
  supernet_of, add_supernet, add_rule, over_objects, info_or_new,
}

abbrev pub note_rule : ℕ → Bool → List ℕ
note_rule r b = if b then r ∷ [] else []

abbrev pub info_at : ConflictKey → ConflictMap → ConflictInfo
info_at k m = info_or_new (lookup ConflictKey-discrete k m)

abbrev not_set : Option ℕ → Bool
not_set none = true
not_set (some n) = false

abbrev is_this : ℕ → Option ℕ → Bool
is_this x none = false
is_this x (some n) = n == x

regroup : (e a n b : Bool) → ((e && a) || ((e && n) || b)) ≡ ((e && (n || a)) || b)
regroup e a n b = ground arith

module _ (other : ℕ → Bool) (established : Bool) (r : ℕ) where
  -- An object that is no supernet, and one that is this supernet.
  abbrev pub plain_obj : ConflictObj → Bool
  plain_obj o = not_set (supernet_of other o)

  abbrev pub this_supernet : ℕ → ConflictObj → Bool
  this_supernet x o = is_this x (supernet_of other o)

  abbrev pub run : List ConflictObj → ConflictInfo → Bool → ConflictInfo × Bool
  run = over_objects other established r

  add_supernet_rules : (n : ℕ) (i : ConflictInfo) → (add_supernet established n i).rules ≡ i.rules
  add_supernet_rules n i = elim (Bool-cases established) [ inl e ↦ rw e refl | inr e ↦ rw e refl ]

  pub pushed_rules :
      (os : List ConflictObj) (i : ConflictInfo)
      → ((run os i true).0.rules ≡ i.rules) × ((run os i true).1 ≡ true)
  unfolding over_objects
  pushed_rules [] i = (refl, refl)
  pushed_rules (o ∷ os) i = elim (Option-cases (supernet_of other o)) [
    | inl e ↦ rw (e, over_objects) (pushed_rules os i)
    | inr (n, e) ↦
        let (a, b) = pushed_rules os (add_supernet established n i) in
        rw (e, over_objects) (a ∙ add_supernet_rules n i, b)
  ]

  pub first_rules :
      (os : List ConflictObj) (i : ConflictInfo)
      → ((run os i false).0.rules ≡ i.rules ++ note_rule r (any plain_obj os))
        × ((run os i false).1 ≡ any plain_obj os)
  unfolding over_objects
  first_rules [] i = (sym (append-nil i.rules), refl)
  first_rules (o ∷ os) i = elim (Option-cases (supernet_of other o)) [
    | inl e ↦ let (a, b) = pushed_rules os (add_rule r i) in rw (e, over_objects) (a, b)
    | inr (n, e) ↦
        let (a, b) = first_rules os (add_supernet established n i) in
        rw (e, over_objects)
          (a ∙ ap (λ l. l ++ note_rule r (any plain_obj os)) (add_supernet_rules n i), b)
  ]

  add_supernet_seen :
      (x n : ℕ) (i : ConflictInfo)
      → is_seen_net x (add_supernet established n i).supernets
        ≡ ((not established && n == x) || is_seen_net x i.supernets)
  add_supernet_seen x n i = elim (Bool-cases established) [ inl e ↦ rw e refl | inr e ↦ rw e refl ]

  pub noted_supernets :
      (x : ℕ) (os : List ConflictObj) (i : ConflictInfo) (pushed : Bool)
      → is_seen_net x (run os i pushed).0.supernets
        ≡ ((not established && any (this_supernet x) os) || is_seen_net x i.supernets)
  unfolding over_objects
  noted_supernets x [] i pushed = ground arith
  noted_supernets x (o ∷ os) i pushed = elim (Option-cases (supernet_of other o)) [
    | inl e ↦ elim (Bool-cases pushed) [
      | inl f ↦ rw (e, f, over_objects) (noted_supernets x os i true)
      | inr f ↦ rw (e, f, over_objects) (noted_supernets x os (add_rule r i) true)
    ]
    | inr (n, e) ↦
        rw (e, over_objects)
          (noted_supernets x os (add_supernet established n i) pushed
            ∙ ap (λ b. (not established && any (this_supernet x) os) || b) (add_supernet_seen x n i)
            ∙ regroup (not established) (any (this_supernet x) os) (n == x)
                (is_seen_net x i.supernets))
  ]
