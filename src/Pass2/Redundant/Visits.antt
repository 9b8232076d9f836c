-- ===== src/Pass2/Redundant/Visits.antt =====
-- The nested loops of `optimizeRedundantRules`: what holds at each deletion holds of the whole run.
use mathlib.Core.Bool.{Bool-discrete}
use mathlib.Core.List.{Memᴰ}
use mathlib.Core.List.Memᴰ.{head, tail}
use netspoc.Prelude.Assoc.{lookup}
use netspoc.Prelude.{
  ℕ, zero, suc, ◌≡◌, ◌≢◌, inl, inr, refl, Bool, true, false, Option, none, some, List, [], ◌∷◌,
  Bool-cases, arith, not, ◌&&◌, ◌==◌, if◌then◌else◌,
}
use netspoc.Pass2.Rules.{Objects, State, net_up, prt_up, same_log, delete}
use netspoc.Pass2.Redundant.{
  RuleTree, RuleTree1, RuleTree2, RuleTree3, RuleTree4, at, visit, climb, for_entries,
  delete_redundant, unless_deleted, redundant_prt, redundant_dst, redundant_src, redundant_range,
  compare_deny, optimize_redundant_rules, go_on,
}

-- `q` is reached from `p` along `up`.
pub data Above (up : ℕ → Option ℕ) : ℕ → ℕ → Type 0 where
  here : {p : ℕ} → Above up p p
  there : {p q r : ℕ} → up p ≡ some q → Above up q r → Above up p r

-- A deny rule stands above a permit rule.
pub data DenyAbove : Bool → Bool → Type 0 where
  same : {b : Bool} → DenyAbove b b
  over : DenyAbove false true

module _ (I : State → Type 0) where
  for_entries-Keeps :
      {K V : Type 0} (body : K → V → State → State) (m : List (K × V))
      → ((k : K) (v : V) → Memᴰ (k, v) m → (s : State) → I s → I (body k v s))
      → (s : State) → I s
      → I (for_entries body m s)
  unfolding for_entries
  for_entries-Keeps body [] keep s i = i
  for_entries-Keeps body ((k, v) ∷ m) keep s i =
      for_entries-Keeps body m (λ j w h. keep j w (tail h)) (body k v s) (keep k v (head refl) s i)

  visit-Keeps :
      {V : Type 0} (body : V → State → State) (o : Option V)
      → ((v : V) → o ≡ some v → (s : State) → I s → I (body v s))
      → (s : State) → I s
      → I (visit body o s)
  unfolding visit
  visit-Keeps body none keep s i = i
  visit-Keeps body (some v) keep s i = keep v refl s i

  go_on-Keeps :
      (o : Option ℕ) (next : ℕ → State) (s : State)
      → ((q : ℕ) → o ≡ some q → I (next q))
      → I s
      → I (go_on o next s)
  unfolding go_on
  go_on-Keeps none next s keep i = i
  go_on-Keeps (some q) next s keep i = keep q refl

  climb-Keeps :
      {V : Type 0} (up : ℕ → Option ℕ) (body : V → State → State) (fuel : ℕ) (m : List (ℕ × V))
      (k : ℕ)
      → ((q : ℕ) (v : V) → Above up k q → at q m ≡ some v → (s : State) → I s → I (body v s))
      → (s : State) → I s
      → I (climb up body fuel m k s)
  unfolding climb
  climb-Keeps up body zero m k keep s i = i
  climb-Keeps up body (suc fuel) m k keep s i =
      let first = visit-Keeps body (at k m) (λ v. keep k v here) s i in
      go_on-Keeps (up k) _ _
        (λ q e. climb-Keeps up body fuel m q (λ p v a. keep p v (there e a)) _ first) first

  delete_redundant-Keeps :
      (up : ℕ → Option ℕ) (fuel : ℕ) (cmp : RuleTree1) (k r : ℕ) (s : State)
      → ((q c : ℕ)
          → Above up k q
          → at q cmp ≡ some c
          → c ≢ r
          → same_log (s.rule c) (s.rule r) ≡ true
          → I (delete r s))
      → I s
      → I (delete_redundant up fuel cmp k r s)
  unfolding delete_redundant
  delete_redundant-Keeps up zero cmp k r s keep i = i
  delete_redundant-Keeps up (suc fuel) cmp k r s keep i = found (at k cmp) refl (
      go_on-Keeps (up k) _ s
        (λ q e. delete_redundant-Keeps up fuel cmp q r s (λ p c a. keep p c (there e a)) i) i)
    where
      found :
          {next : State} (o : Option ℕ)
          → at k cmp ≡ o
          → I next
          → I (elim o [
            | none ↦ next
            | some c ↦ if not (c == r) && same_log (s.rule c) (s.rule r) then delete r s else next
          ])
      found none e j = j
      found {next} (some c) e j =
          elim (Bool-cases (not (c == r) && same_log (s.rule c) (s.rule r))) [
            | inl t ↦ rw t (keep k c here e (ground arith) (ground arith))
            | inr t ↦ rw t j
          ]

-- A rule `r` of `chg`, and a rule `c` of `cmp` whose keys stand above those of `r`, level by level.
pub record Hit {K V : Type 0} (find_in : K → List (K × V) → Option V) (Over : K → K → Type 0)
    (Below : V → V → ℕ → ℕ → Type 0) (cmp chg : List (K × V)) (r c : ℕ) : Type 0 where
  pub low : K
  pub high : K
  pub sub_chg : V
  pub sub_cmp : V
  pub entry : Memᴰ (low, sub_chg) chg
  pub over : Over low high
  pub found : find_in high cmp ≡ some sub_cmp
  pub below : Below sub_cmp sub_chg r c

module _ (h : Objects) where
  abbrev pub Leaf : ℕ → ℕ → ℕ → ℕ → Type 0
  Leaf sub_cmp sub_chg r c = (sub_chg ≡ r) × (sub_cmp ≡ c)

  abbrev pub Hit1 : RuleTree1 → RuleTree1 → ℕ → ℕ → Type 0
  Hit1 = Hit at (Above (prt_up h)) Leaf

  abbrev pub Hit2 : RuleTree2 → RuleTree2 → ℕ → ℕ → Type 0
  Hit2 = Hit at (Above (net_up h)) Hit1

  abbrev pub Hit3 : RuleTree3 → RuleTree3 → ℕ → ℕ → Type 0
  Hit3 = Hit at (Above (net_up h)) Hit2

  abbrev pub Hit4 : RuleTree4 → RuleTree4 → ℕ → ℕ → Type 0
  Hit4 = Hit at (Above (prt_up h)) Hit3

  abbrev pub Hit5 : RuleTree → RuleTree → ℕ → ℕ → Type 0
  Hit5 = Hit (lookup Bool-discrete) DenyAbove Hit4

-- A deletion keeps `I` wherever `H` relates the deleted rule to another rule with the same log.
abbrev pub KeepsAt : (State → Type 0) → (ℕ → ℕ → Type 0) → Type 0
KeepsAt I H =
    (r c : ℕ) (s : State)
    → H r c
    → (s.rule r).deleted ≡ false
    → c ≢ r
    → same_log (s.rule c) (s.rule r) ≡ true
    → I s
    → I (delete r s)

module _ (I : State → Type 0) (h : Objects) where
  redundant_prt-Keeps :
      (cmp chg : RuleTree1)
      → KeepsAt I (Hit1 h cmp chg)
      → (s : State) → I s
      → I (redundant_prt h cmp chg s)
  unfolding redundant_prt unless_deleted
  redundant_prt-Keeps cmp chg keep = for_entries-Keeps I (unless_deleted h cmp) chg λ p r m s i.
      elim (Bool-cases (s.rule r).deleted) [
        | inl e ↦ rw e i
        | inr e ↦ rw e (
            delete_redundant-Keeps I (prt_up h) h.depth cmp p r s
              (λ q c a f ne l.
                keep r c s
                  (record {
                    low = p;
                    high = q;
                    sub_chg = r;
                    sub_cmp = c;
                    entry = m;
                    over = a;
                    found = f;
                    below = (refl, refl);
                  })
                  e ne l i)
              i)
      ]

  climbs-Keeps :
      {V : Type 0} (up : ℕ → Option ℕ) (Below : V → V → ℕ → ℕ → Type 0)
      (body : V → V → State → State) (cmp chg : List (ℕ × V))
      → ((c d : V) → KeepsAt I (Below c d) → (s : State) → I s → I (body c d s))
      → KeepsAt I (Hit at (Above up) Below cmp chg)
      → (s : State) → I s
      → I (for_entries (λ k sub. climb up (λ c. body c sub) h.depth cmp k) chg s)
  climbs-Keeps up Below body cmp chg inner keep = for_entries-Keeps I _ chg λ k sub m.
      climb-Keeps I up (λ c. body c sub) h.depth cmp k
        λ q c a e. inner c sub λ r t s b. keep r t s (record {
          low = k;
          high = q;
          sub_chg = sub;
          sub_cmp = c;
          entry = m;
          over = a;
          found = e;
          below = b;
        })

  redundant_dst-Keeps :
      (cmp chg : RuleTree2)
      → KeepsAt I (Hit2 h cmp chg)
      → (s : State) → I s
      → I (redundant_dst h cmp chg s)
  unfolding redundant_dst
  redundant_dst-Keeps cmp chg =
      climbs-Keeps (net_up h) (Hit1 h) (redundant_prt h) cmp chg redundant_prt-Keeps

  redundant_src-Keeps :
      (cmp chg : RuleTree3)
      → KeepsAt I (Hit3 h cmp chg)
      → (s : State) → I s
      → I (redundant_src h cmp chg s)
  unfolding redundant_src
  redundant_src-Keeps cmp chg =
      climbs-Keeps (net_up h) (Hit2 h) (redundant_dst h) cmp chg redundant_dst-Keeps

  redundant_range-Keeps :
      (cmp chg : RuleTree4)
      → KeepsAt I (Hit4 h cmp chg)
      → (s : State) → I s
      → I (redundant_range h cmp chg s)
  unfolding redundant_range
  redundant_range-Keeps cmp chg =
      climbs-Keeps (prt_up h) (Hit3 h) (redundant_src h) cmp chg redundant_src-Keeps

  compare_deny-Keeps :
      (cmp : RuleTree) (deny : Bool) (sub : RuleTree4)
      → ((over : Bool) (c : RuleTree4)
          → DenyAbove deny over
          → lookup Bool-discrete over cmp ≡ some c
          → KeepsAt I (Hit4 h c sub))
      → (s : State) → I s
      → I (compare_deny h cmp deny sub s)
  unfolding compare_deny
  compare_deny-Keeps cmp true sub keep s i =
      visit-Keeps I (λ c. redundant_range h c sub) _
        (λ c e. redundant_range-Keeps c sub (keep true c same e)) s i
  compare_deny-Keeps cmp false sub keep s i =
      visit-Keeps I (λ c. redundant_range h c sub) _
        (λ c e. redundant_range-Keeps c sub (keep true c over e)) _
        (visit-Keeps I (λ c. redundant_range h c sub) _
          (λ c e. redundant_range-Keeps c sub (keep false c same e)) s i)

  -- What every justified deletion keeps holds after the whole run.
  pub optimize_redundant_rules-Keeps :
      (cmp chg : RuleTree)
      → KeepsAt I (Hit5 h cmp chg)
      → (s : State) → I s
      → I (optimize_redundant_rules h cmp chg s)
  unfolding optimize_redundant_rules
  optimize_redundant_rules-Keeps cmp chg keep =
      for_entries-Keeps I (compare_deny h cmp) chg λ deny sub m.
        compare_deny-Keeps cmp deny sub λ high c d e r t s b. keep r t s (record {
          low = deny;
          high = high;
          sub_chg = sub;
          sub_cmp = c;
          entry = m;
          over = d;
          found = e;
          below = b;
        })
