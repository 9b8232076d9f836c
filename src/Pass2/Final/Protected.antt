-- ===== src/Pass2/Final/Protected.antt =====
-- `addProtectRules` keeps packets from the interfaces that it protects.
use mathlib.Core.List.{Memᴰ}
use mathlib.Core.List.Memᴰ.{head, tail}
use netspoc.Prelude.{
  ℕ, ◌≡◌, inl, inr, refl, sym, ◌∙◌, Bool, true, false, not, ◌&&◌, ◌||◌, none, List, [], ◌∷◌, ◌++◌,
  any, select, All-Mem, any→Mem, Mem→any, ◌==◌, ==_refl, arith, Bool-cases,
}
use netspoc.Pass2.Rules.{CiscoRule, Objects}
use netspoc.Pass2.Final.{
  AclInfo, permits_any, rule_ip_any, no_protect, marked, protect_map, deny_rules, left_rules,
  add_protect_rules,
}
use netspoc.Pass2.Final.Match.{
  Verdict, permitted, unmatched, first_match, or_else, verdict_of, permits, first_match-append,
  first_match-denies, unmatched_iff,
}
use netspoc.Pass2.Final.Ended.{NoRange}

any-select_none :
    (p q : CiscoRule → Bool) (xs : List CiscoRule) → any p xs ≡ false → any p (select q xs) ≡ false
any-select_none p q [] e = refl
any-select_none p q (x ∷ xs) e = ground (arith, any-select_none p q xs)

-- A list whose verdict is to permit has a permit rule that covers the packet.
permitted→Mem :
    (c : CiscoRule → Bool) (rs : List CiscoRule)
    → first_match c rs ≡ permitted
    → (r : CiscoRule) × Memᴰ r rs × (r.deny ≡ false) × (c r ≡ true)
permitted→Mem c [] e = cc
permitted→Mem c (r ∷ rs) e = elim (Bool-cases (c r)) [
  | inl t ↦ (r, head refl, ground arith, t)
  | inr f ↦ let (q, m, d, t) = permitted→Mem c rs (ground arith) in (q, tail m, d, t)
]

module _ (h : Objects) (has_final_permit : Bool) (acl : AclInfo) where
  only_deny : (intfs : List ℕ) → any permits (deny_rules h acl has_final_permit intfs) ≡ false
  unfolding deny_rules
  only_deny [] = refl
  only_deny (i ∷ intfs) =
      elim (Bool-cases (no_protect h acl i || not (protect_map h acl i) && not has_final_permit)) [
        | inl e ↦ rw e (only_deny intfs)
        | inr e ↦ rw e (only_deny intfs)
      ]

  left_unmatched :
      (c : CiscoRule → Bool)
      → any c acl.intf_rules ≡ false
      → any c (left_rules acl has_final_permit) ≡ false
  unfolding left_rules
  left_unmatched c e = elim (Bool-cases has_final_permit) [
    | inl t ↦ rw t (any-select_none c (λ r. not (permits_any acl r)) acl.intf_rules e)
    | inr f ↦ rw f e
  ]

  deny_rules-Mem :
      (intfs : List ℕ) (i : ℕ)
      → Memᴰ i intfs
      → (no_protect h acl i || not (protect_map h acl i) && not has_final_permit) ≡ false
      → Memᴰ (rule_ip_any acl true i) (deny_rules h acl has_final_permit intfs)
  unfolding deny_rules
  deny_rules-Mem [] i m e = elim m [ ]
  deny_rules-Mem (j ∷ intfs) i (head eq) e = rw (sym eq, e) (head refl)
  deny_rules-Mem (j ∷ intfs) i (tail m) e =
      elim (Bool-cases (no_protect h acl j || not (protect_map h acl j) && not has_final_permit)) [
        | inl t ↦ rw t (deny_rules-Mem intfs i m e)
        | inr f ↦ rw f (tail (deny_rules-Mem intfs i m e))
      ]

  added :
      (i : ℕ) (intfs : List ℕ)
      → acl.need_protect ≡ intfs
      → Memᴰ i intfs
      → (add_protect_rules h has_final_permit acl).intf_rules
        ≡ left_rules acl has_final_permit ++ deny_rules h acl has_final_permit intfs
  unfolding add_protect_rules
  added i [] e m = elim m [ ]
  added i (j ∷ intfs) e m = rw e refl

  rules_kept :
      (intfs : List ℕ)
      → acl.need_protect ≡ intfs
      → (add_protect_rules h has_final_permit acl).rules ≡ acl.rules
  unfolding add_protect_rules
  rules_kept [] e = rw e refl
  rules_kept (j ∷ intfs) e = rw e refl

  -- The verdict of both lists of rules in a row.
  abbrev whole : (CiscoRule → Bool) → Verdict
  whole c =
      let acl' = add_protect_rules h has_final_permit acl in
      first_match c (acl'.intf_rules ++ acl'.rules)

  whole-eq :
      (c : CiscoRule → Bool) (i : ℕ)
      → Memᴰ i acl.need_protect
      → any c acl.intf_rules ≡ false
      → whole c
        ≡ or_else
            (verdict_of (any c (deny_rules h acl has_final_permit acl.need_protect)) false)
            (first_match c acl.rules)
  whole-eq c i m e =
      rw
        (
          added i acl.need_protect refl m,
          rules_kept acl.need_protect refl,
          first_match-append c
              (left_rules acl has_final_permit
                ++ deny_rules h acl has_final_permit acl.need_protect)
              acl.rules,
          first_match-append c (left_rules acl has_final_permit)
              (deny_rules h acl has_final_permit acl.need_protect),
          (unmatched_iff c (left_rules acl has_final_permit)).1 (left_unmatched c e),
          first_match-denies c (deny_rules h acl has_final_permit acl.need_protect)
              (only_deny acl.need_protect),
        )
        refl

-- A rule for all protocols from everywhere to the interface covers the packet.
unfoldable pub ToIntf : AclInfo → ℕ → (CiscoRule → Bool) → Type 0
ToIntf acl intf c =
    (r : CiscoRule)
    → r.src ≡ acl.network00
    → r.dst ≡ intf
    → r.prt ≡ acl.prt_ip
    → r.src_range ≡ none
    → c r ≡ true

-- A permit rule that covers the packet is not for established connections only, and its
-- destination is known to contain the interface.
unfoldable pub Known : Objects → ℕ → (CiscoRule → Bool) → List CiscoRule → Type 0
Known h intf c rs =
    (r : CiscoRule)
    → Memᴰ r rs
    → r.deny ≡ false
    → c r ≡ true
    → ((h.prt r.prt).established ≡ false) × Memᴰ intf (h.net r.dst).is_supernet_of_need_protect

denied_here : (b : Bool) (v : Verdict) → b ≡ true → or_else (verdict_of b false) v ≡ permitted → ⊥
denied_here true v t e = cc
denied_here false v t e = cc

needless :
    (c : CiscoRule → Bool) (b : Bool) (rs : List CiscoRule) (exempt mark final : Bool)
    → or_else (verdict_of b false) (first_match c rs) ≡ permitted
    → (first_match c rs ≡ permitted → mark ≡ true)
    → (exempt ≡ true → false ≡ true)
    → (exempt || not mark && not final) ≡ true
    → ⊥
needless c true rs x m f e marks exempt t = cc
needless c false rs true m f e marks exempt t = let g = exempt refl in cc
needless c false rs false true f e marks exempt t = cc
needless c false rs false false f e marks exempt t = let g = marks e in cc

module _ (h : Objects) (acl : AclInfo) (intf : ℕ) (c : CiscoRule → Bool)
    (to_intf : ToIntf acl intf c) where
  not_exempt :
      NoRange acl acl.intf_rules
      → any c acl.intf_rules ≡ false
      → no_protect h acl intf ≡ true
      → false ≡ true
  unfolding no_protect permits_any NoRange ToIntf
  not_exempt bare quiet e =
      let (r, m, t) =
        any→Mem
          (λ (r : CiscoRule). permits_any acl r && (h.net r.dst).need_protect && r.dst == intf)
          acl.intf_rules e in
      let same_prt : r.prt ≡ acl.prt_ip = ground arith in
      let none_range =
        All-Mem (λ (r : CiscoRule). r.prt ≡ acl.prt_ip → r.src_range ≡ none) acl.intf_rules r bare m
          same_prt in
      sym quiet
      ∙ Mem→any c acl.intf_rules r m (to_intf r (ground arith) (ground arith) same_prt none_range)

  marks_permit :
      Known h intf c acl.rules → first_match c acl.rules ≡ permitted → protect_map h acl intf ≡ true
  unfolding protect_map marked Known
  marks_permit known e =
      let (r, m, d, t) = permitted→Mem c acl.rules e in
      let (open_too, inside) = known r m d t in
      let found =
        Mem→any (λ i. i == intf) (h.net r.dst).is_supernet_of_need_protect intf inside
          (==_refl intf) in
      Mem→any (marked h intf) acl.rules r m (ground arith)

  -- The list with the added rules, rules of interfaces first, does not permit a packet to a
  -- protected interface that the rules of interfaces do not decide on, whether or not the list
  -- permits all else at its end. Of the other rules, each permit rule that covers the packet is not
  -- for established connections only, and its destination is marked as a supernet of the interface.
  -- A rule for all protocols from everywhere to the interface covers the packet, and rules of
  -- interfaces for all protocols name no source ports.
  pub add_protect_rules-not_permitted :
      (has_final_permit : Bool)
      → Memᴰ intf acl.need_protect
      → NoRange acl acl.intf_rules
      → Known h intf c acl.rules
      → first_match c acl.intf_rules ≡ unmatched
      → let acl' = add_protect_rules h has_final_permit acl in
        ¬ (first_match c (acl'.intf_rules ++ acl'.rules) ≡ permitted)
  unfolding ToIntf
  add_protect_rules-not_permitted has_final_permit m bare known quiet e =
      let none_covers = (unmatched_iff c acl.intf_rules).0 quiet in
      let whole = sym (whole-eq h has_final_permit acl c intf m none_covers) ∙ e in
      elim (Bool-cases
        (no_protect h acl intf || not (protect_map h acl intf) && not has_final_permit)) [
          | inl t ↦
              needless c (any c (deny_rules h acl has_final_permit acl.need_protect)) acl.rules
                (no_protect h acl intf) (protect_map h acl intf) has_final_permit whole
                (marks_permit known) (not_exempt bare none_covers) t
          | inr f ↦
              denied_here (any c (deny_rules h acl has_final_permit acl.need_protect))
                (first_match c acl.rules)
                (Mem→any c (deny_rules h acl has_final_permit acl.need_protect)
                  (rule_ip_any acl true intf)
                  (deny_rules-Mem h has_final_permit acl acl.need_protect intf m f)
                  (to_intf (rule_ip_any acl true intf) refl refl refl refl))
                whole
        ]
