-- ===== src/Pass2/Optimize/Verdict.antt =====
-- `optimizeRules` against what the access list does with a packet.
use mathlib.Core.List.{Memᴰ}
use netspoc.Prelude.{
  ℕ, ◌≡◌, ◌↔◌, ◌⊎◌, inl, inr, refl, sym, ap, ◌∙◌, Bool, true, false, not, ◌&&◌, Option, some, List,
  [], ◌∷◌, arith, Bool-cases, if◌then◌else◌, any, any→Mem, Mem→any,
}
use netspoc.Pass2.Rules.{CiscoRule, Objects, State, net_up, prt_up}
use netspoc.Pass2.Redundant.{Key, key_of}
use netspoc.Pass2.Redundant.Visits.{Above, here, there, DenyAbove, same, over}
use netspoc.Pass2.Redundant.Tree.{KeyAbove}
use netspoc.Pass2.Optimize.{not_deleted, remove_deleted}
use netspoc.Pass2.Optimize.Marks.{Marks}

-- A packet, seen as the networks that hold its source and its destination and the protocols that
-- cover its source port and itself. What an object covers, the objects above it cover too.
pub record Packet (h : Objects) : Type 0 where
  pub src : ℕ → Bool
  pub dst : ℕ → Bool
  pub range : ℕ → Bool
  pub prt : ℕ → Bool
  pub src_climbs : (p q : ℕ) → net_up h p ≡ some q → src p ≡ true → src q ≡ true
  pub dst_climbs : (p q : ℕ) → net_up h p ≡ some q → dst p ≡ true → dst q ≡ true
  pub range_climbs : (p q : ℕ) → prt_up h p ≡ some q → range p ≡ true → range q ≡ true
  pub prt_climbs : (p q : ℕ) → prt_up h p ≡ some q → prt p ≡ true → prt q ≡ true

pub data Verdict : Type 0 where
  denied permitted unmatched : Verdict

module _ {h : Objects} (pkt : Packet h) (prt_ip : ℕ) where
  pub covers : Key → Bool
  covers k = pkt.src k.src && pkt.dst k.dst && pkt.range k.range && pkt.prt k.prt

  -- The rule is in force, denies or permits as asked, and covers the packet.
  unfoldable pub applies : Bool → CiscoRule → Bool
  unfolding covers key_of
  applies deny r =
      not r.deleted && (if deny then r.deny else not r.deny) && covers (key_of prt_ip r)

  -- Deny rules come first.
  unfoldable pub verdict : (ℕ → CiscoRule) → List ℕ → Verdict
  unfolding applies
  verdict store rs =
      if any (λ r. applies true (store r)) rs
      then denied
      else if any (λ r. applies false (store r)) rs
      then permitted
      else unmatched

  Above-climbs :
      (up : ℕ → Option ℕ) (f : ℕ → Bool)
      → ((p q : ℕ) → up p ≡ some q → f p ≡ true → f q ≡ true)
      → {p q : ℕ} → Above up p q
      → f p ≡ true
      → f q ≡ true
  Above-climbs up f climbs here e = e
  Above-climbs up f climbs (there {p} {q} step a) e = Above-climbs up f climbs a (climbs p q step e)

  KeyAbove-covers : (k k' : Key) → KeyAbove h k k' → covers k ≡ true → covers k' ≡ true
  unfolding covers
  KeyAbove-covers k k' a e = ground (
    arith,
    Above-climbs (net_up h) pkt.src pkt.src_climbs a.src,
    Above-climbs (net_up h) pkt.dst pkt.dst_climbs a.dst,
    Above-climbs (prt_up h) pkt.range pkt.range_climbs a.range,
    Above-climbs (prt_up h) pkt.prt pkt.prt_climbs a.prt,
  )

  any-not_deleted :
      (deny : Bool) (store : ℕ → CiscoRule) (rs : List ℕ)
      → any (λ r. applies deny (store r)) (not_deleted store rs)
        ≡ any (λ r. applies deny (store r)) rs
  unfolding not_deleted applies
  any-not_deleted deny store [] = refl
  any-not_deleted deny store (r ∷ rs) = ground (arith, any-not_deleted deny store rs)

  -- The deleted rules did not count.
  pub verdict-remove_deleted :
      (s : State) (rs : List ℕ) → verdict s.rule (remove_deleted s rs) ≡ verdict s.rule rs
  unfolding remove_deleted verdict
  verdict-remove_deleted s rs = elim (Bool-cases s.changed) [
    | inl e ↦ rw (e, any-not_deleted true s.rule rs, any-not_deleted false s.rule rs) refl
    | inr e ↦ rw e refl
  ]

  applies_iff :
      (deny : Bool) (r : CiscoRule)
      → (applies deny r ≡ true)
        ↔ ((r.deleted ≡ false) × (r.deny ≡ deny) × (covers (key_of prt_ip r) ≡ true))
  unfolding applies
  applies_iff true r = ground arith
  applies_iff false r = ground arith

  pub key_kept :
      {Cov : ℕ → Type 0} (s s' : State) (r : ℕ)
      → Marks Cov s s'
      → key_of prt_ip (s'.rule r) ≡ key_of prt_ip (s.rule r)
  unfolding key_of
  key_kept s s' r m = rw (m.kept r)

  deny_kept :
      {Cov : ℕ → Type 0} (s s' : State) (r : ℕ)
      → Marks Cov s s'
      → (s'.rule r).deny ≡ (s.rule r).deny
  deny_kept s s' r m = ap (λ (x : CiscoRule). x.deny) (m.kept r)

  pub applies_before :
      (deny : Bool) {Cov : ℕ → Type 0} (s s' : State) (r : ℕ)
      → Marks Cov s s'
      → applies deny (s'.rule r) ≡ true
      → applies deny (s.rule r) ≡ true
  applies_before deny s s' r m e =
      let (alive, d, c) = (applies_iff deny (s'.rule r)).0 e in
      (applies_iff deny (s.rule r)).1 (
        not_gone alive (Bool-cases (s.rule r).deleted),
        sym (deny_kept s s' r m) ∙ d,
        ap covers (sym (key_kept s s' r m)) ∙ c,
      )
    where
      not_gone :
          (s'.rule r).deleted ≡ false
          → ((s.rule r).deleted ≡ true) ⊎ ((s.rule r).deleted ≡ false)
          → (s.rule r).deleted ≡ false
      not_gone alive (inl gone) = let gone' = m.stays r gone in cc
      not_gone alive (inr e') = e'

  DenyAbove-cases : {a b : Bool} → DenyAbove a b → (b ≡ a) ⊎ (b ≡ true)
  DenyAbove-cases same = inl refl
  DenyAbove-cases over = inr refl

  pub applies_above :
      (deny : Bool) {Cov : ℕ → Type 0} (s s' : State) (r c : ℕ)
      → Marks Cov s s'
      → KeyAbove h (key_of prt_ip (s.rule r)) (key_of prt_ip (s.rule c))
      → DenyAbove (s.rule r).deny (s.rule c).deny
      → (s'.rule c).deleted ≡ false
      → applies deny (s.rule r) ≡ true
      → (applies deny (s'.rule c) ≡ true) ⊎ (applies true (s'.rule c) ≡ true)
  applies_above deny s s' r c m a o alive e =
      let (_, d, covered) = (applies_iff deny (s.rule r)).0 e in
      let covers_c = ap covers (key_kept s s' c m) ∙ KeyAbove-covers _ _ a covered in
      elim (DenyAbove-cases o) [
        | inl e' ↦ inl ((applies_iff deny _).1 (alive, deny_kept s s' c m ∙ e' ∙ d, covers_c))
        | inr e' ↦ inr ((applies_iff true _).1 (alive, deny_kept s s' c m ∙ e', covers_c))
      ]

  -- Two runs give the same verdict if what applies in one is matched in the other.
  pub verdict-eq :
      (store store' : ℕ → CiscoRule) (rs : List ℕ)
      → ((deny : Bool) (r : ℕ)
          → Memᴰ r rs
          → applies deny (store r) ≡ true
          → (c : ℕ) × Memᴰ c rs
            × ((applies deny (store' c) ≡ true) ⊎ (applies true (store' c) ≡ true)))
      → ((deny : Bool) (r : ℕ) → applies deny (store' r) ≡ true → applies deny (store r) ≡ true)
      → verdict store' rs ≡ verdict store rs
  unfolding verdict
  verdict-eq store store' rs onward back =
      ground (arith, forth true, forth false, back_any true, back_any false)
    where
      holds : Bool → (ℕ → CiscoRule) → Bool
      holds deny f = any (λ r. applies deny (f r)) rs

      forth :
          (deny : Bool)
          → holds deny store ≡ true
          → (holds deny store' ≡ true) ⊎ (holds true store' ≡ true)
      forth deny e =
          let (r, m, a) = any→Mem (λ r. applies deny (store r)) rs e in
          let (c, m', o) = onward deny r m a in
          elim o [
            | inl x ↦ inl (Mem→any (λ r. applies deny (store' r)) rs c m' x)
            | inr x ↦ inr (Mem→any (λ r. applies true (store' r)) rs c m' x)
          ]

      back_any : (deny : Bool) → holds deny store' ≡ true → holds deny store ≡ true
      back_any deny e =
          let (r, m, a) = any→Mem (λ r. applies deny (store' r)) rs e in
          Mem→any (λ r. applies deny (store r)) rs r m (back deny r a)
