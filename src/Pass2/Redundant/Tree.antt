-- ===== src/Pass2/Redundant/Tree.antt =====
-- The rule tree as a map from keys to rules: lookups after insertions, and what the loops of
-- `optimizeRedundantRules` visit in terms of lookups.
use mathlib.Core.Bool.{Bool-discrete}
use netspoc.Prelude.Assoc.{
  lookup, alter, Good, lookup-alter_self, lookup-alter_ne, lookup-Mem, alter-Good,
}
use netspoc.Prelude.{ℕ, ◌≡◌, ◌≢◌, refl, ap, ◌∙◌, Option, none, some, List, [], ℕ_discrete}
use netspoc.Pass2.Rules.{Objects, net_up, prt_up}
use netspoc.Pass2.Redundant.{
  RuleTree, RuleTree1, RuleTree2, RuleTree3, RuleTree4, at, Key, find, find_dst, find_src,
  find_range, insert, insert_prt, insert_dst, insert_src, insert_range, or_empty, and_then,
}
use netspoc.Pass2.Redundant.Visits.{Above, DenyAbove, Hit5}

-- Each level of the tree holds each key once.
abbrev pub Good1 : RuleTree1 → Type 0
Good1 = Good ℕ_discrete (λ _. Unit {0})

abbrev pub Good2 : RuleTree2 → Type 0
Good2 = Good ℕ_discrete Good1

abbrev pub Good3 : RuleTree3 → Type 0
Good3 = Good ℕ_discrete Good2

abbrev pub Good4 : RuleTree4 → Type 0
Good4 = Good ℕ_discrete Good3

abbrev pub Good5 : RuleTree → Type 0
Good5 = Good Bool-discrete Good4

pub record KeyAbove (h : Objects) (k k' : Key) : Type 0 where
  pub deny : DenyAbove k.deny k'.deny
  pub range : Above (prt_up h) k.range k'.range
  pub src : Above (net_up h) k.src k'.src
  pub dst : Above (net_up h) k.dst k'.dst
  pub prt : Above (prt_up h) k.prt k'.prt

-- A visit as two lookups.
pub record Found (h : Objects) (cmp chg : RuleTree) (r c : ℕ) : Type 0 where
  pub key : Key
  pub above : Key
  pub is_rule : find chg key ≡ some r
  pub is_cover : find cmp above ≡ some c
  pub order : KeyAbove h key above

and_then-some :
    {A B : Type 0} {o : Option A} (a : A) (f : A → Option B) {b : Option B}
    → o ≡ some a
    → f a ≡ b
    → and_then o f ≡ b
and_then-some a f e e' = rw e e'

pub Hit5→Found :
    (h : Objects) (cmp chg : RuleTree) (r c : ℕ)
    → Good5 chg
    → Hit5 h cmp chg r c
    → Found h cmp chg r c
Hit5→Found h cmp chg r c good h5 =
    let h4 = h5.below in
    let h3 = h4.below in
    let h2 = h3.below in
    let h1 = h2.below in
    let (e5, g4) = lookup-Mem Bool-discrete Good4 h5.low h5.sub_chg chg good h5.entry in
    let (e4, g3) = lookup-Mem ℕ_discrete Good3 h4.low h4.sub_chg h5.sub_chg g4 h4.entry in
    let (e3, g2) = lookup-Mem ℕ_discrete Good2 h3.low h3.sub_chg h4.sub_chg g3 h3.entry in
    let (e2, g1) = lookup-Mem ℕ_discrete Good1 h2.low h2.sub_chg h3.sub_chg g2 h2.entry in
    let (e1, _) = lookup-Mem ℕ_discrete (λ _. Unit {0}) h1.low h1.sub_chg h2.sub_chg g1 h1.entry in
    record {
      key = record { deny = h5.low; range = h4.low; src = h3.low; dst = h2.low; prt = h1.low };
      above = record {
        deny = h5.high;
        range = h4.high;
        src = h3.high;
        dst = h2.high;
        prt = h1.high;
      };
      is_rule = and_then-some _ _ e5 (
          and_then-some _ _ e4
            (and_then-some _ _ e3 (and_then-some _ _ e2 (e1 ∙ ap some h1.below.0))));
      is_cover = and_then-some _ _ h5.found (
          and_then-some _ _ h4.found (
            and_then-some _ _ h3.found
              (and_then-some _ _ h2.found (h1.found ∙ ap some h1.below.1))));
      order = record {
        deny = h5.over;
        range = h4.over;
        src = h3.over;
        dst = h2.over;
        prt = h1.over;
      };
    }

module _ {K L W : Type 0} (dec : Discrete K) (below : List (L × W) → Option ℕ)
    (g : List (L × W) → List (L × W)) where
  level_self :
      (k : K) (m : List (K × List (L × W))) {r : ℕ}
      → ((t : List (L × W)) → below (g t) ≡ some r)
      → and_then (lookup dec k (alter dec k (λ o. g (or_empty o)) m)) below ≡ some r
  level_self k m h =
      and_then-some _ below (lookup-alter_self dec k (λ o. g (or_empty o)) m)
        (h (or_empty (lookup dec k m)))

  below-or_empty :
      below [] ≡ none → (o : Option (List (L × W))) → below (or_empty o) ≡ and_then o below
  unfolding or_empty
  below-or_empty e none = e
  below-or_empty e (some t) = refl

  level_ne :
      (k j : K) (m : List (K × List (L × W)))
      → below [] ≡ none
      → (k ≡ j → (t : List (L × W)) → below (g t) ≡ below t)
      → and_then (lookup dec j (alter dec k (λ o. g (or_empty o)) m)) below
        ≡ and_then (lookup dec j m) below
  level_ne k j m e h = elim (dec k j) [
    | yes same ↦ rw (← same) (
        and_then-some _ below (lookup-alter_self dec k (λ o. g (or_empty o)) m)
          (h same (or_empty (lookup dec k m)))
        ∙ below-or_empty e (lookup dec k m))
    | no differ ↦
        ap (λ o. and_then o below) (lookup-alter_ne dec k j (λ o. g (or_empty o)) m differ)
  ]

pub find-insert_self : (k : Key) (r : ℕ) (t : RuleTree) → find (insert k r t) k ≡ some r
unfolding insert
find-insert_self k r t =
    level_self Bool-discrete (find_range k.range k.src k.dst k.prt)
      (insert_range k.range k.src k.dst k.prt r) k.deny t
      λ t4.
        level_self ℕ_discrete (find_src k.src k.dst k.prt) (insert_src k.src k.dst k.prt r) k.range
          t4
          λ t3.
            level_self ℕ_discrete (find_dst k.dst k.prt) (insert_dst k.dst k.prt r) k.src t3 λ t2.
              level_self ℕ_discrete (at k.prt) (insert_prt k.prt r) k.dst t2
                λ t1. lookup-alter_self ℕ_discrete k.prt (λ _. r) t1

pub find-insert_ne : (k j : Key) (r : ℕ) (t : RuleTree) → k ≢ j → find (insert k r t) j ≡ find t j
unfolding insert
find-insert_ne k j r t ne = level_ne Bool-discrete _ _ k.deny j.deny t refl λ e5 t4.
    level_ne ℕ_discrete _ _ k.range j.range t4 refl λ e4 t3.
      level_ne ℕ_discrete _ _ k.src j.src t3 refl λ e3 t2.
        level_ne ℕ_discrete _ _ k.dst j.dst t2 refl λ e2 t1.
          lookup-alter_ne ℕ_discrete k.prt j.prt (λ _. r) t1
            λ e1. ne (λ i. record { deny = e5 i; range = e4 i; src = e3 i; dst = e2 i; prt = e1 i })

level-Good :
    {K L W : Type 0} (dec : Discrete K) (dec' : Discrete L) (P : W → Type 0) (k : K)
    (g : List (L × W) → List (L × W))
    → ((t : List (L × W)) → Good dec' P t → Good dec' P (g t))
    → (m : List (K × List (L × W))) → Good dec (Good dec' P) m
    → Good dec (Good dec' P) (alter dec k (λ o. g (or_empty o)) m)
unfolding or_empty
level-Good dec dec' P k g h m =
    alter-Good dec (Good dec' P) k (λ o. g (or_empty o)) m (h [] tt) (λ v good. h v good)

pub insert-Good : (k : Key) (r : ℕ) (t : RuleTree) → Good5 t → Good5 (insert k r t)
unfolding insert
insert-Good k r = level-Good Bool-discrete ℕ_discrete Good3 k.deny _ (
    level-Good ℕ_discrete ℕ_discrete Good2 k.range _ (
      level-Good ℕ_discrete ℕ_discrete Good1 k.src _ (
        level-Good ℕ_discrete ℕ_discrete (λ _. Unit {0}) k.dst _
          (λ m. alter-Good ℕ_discrete (λ _. Unit {0}) k.prt (λ _. r) m tt (λ _ _. tt)))))
